-- ===== src/Outbound/Allowed.antt =====
-- Which URLs outbound-url-policy.ts lets out.
use closedloop_electron.Base.{
  ℕ, ◌≡◌, ◌≢◌, is_some, refl, ap, ◌∙◌, inl, inr, Bool, true, false, ◌&&◌, Option, none, some, List,
  [], ◌∷◌, ◌++◌, map, Text, text, same, same_iff, starts_with, is_empty, drop, arith, Option-cases,
  Bool-cases,
}
use closedloop_electron.Loops.Tokens.{split_at}
use closedloop_electron.Outbound.Hosts.{
  is_label_unit, skip_label, ends_label, amazon, has_bucket_end, parse_digits, classify_octets,
  classify_ipv4, classify_ipv6, is_virtual_hosted, normalize_hostname, classify_hostname,
  is_localhost,
}
use closedloop_electron.Outbound.Policy.{
  Descriptor, descriptor_from_url, validate_parsed, Surface, loop_attachment_download,
  loop_support_upload, deploy_health_check, Url, deny_reason_for_address_class,
  validate_attachment_url, validate_outbound_url_for_surface,
}

skip_label-split : (s : Text) → (label : Text) × (s ≡ label ++ skip_label s)
unfolding skip_label
skip_label-split [] = ([], refl)
skip_label-split (c ∷ s) = elim (Bool-cases (is_label_unit c)) [
  | inl e ↦
      let (label, split) = skip_label-split s in
      (c ∷ label, rw (e, skip_label) (ap (λ (r : Text). c ∷ r) split))
  | inr e ↦ ([], rw (e, skip_label) refl)
]

ends_label-split :
    (end s : Text)
    → ends_label end s ≡ true
    → (label : Text) × (s ≡ label ++ end) × (is_empty label ≡ false)
unfolding ends_label
ends_label-split end [] h = absurd (cc)
ends_label-split end (c ∷ s) h =
    let (label, split) = skip_label-split s in
    let ending : skip_label s ≡ end = ground (arith, same_iff (skip_label s) end) in
    (c ∷ label, ap (λ (r : Text). c ∷ r) (split ∙ ap (λ r. label ++ r) ending), refl)

-- A text that begins with the four units of `.s3.`.
starts_with-split : (s : Text) → starts_with s (text ".s3.") ≡ true → s ≡ text ".s3." ++ drop 4 s
unfolding starts_with
starts_with-split [] h = cc
starts_with-split (a ∷ []) h = ground arith
starts_with-split (a ∷ b ∷ []) h = ground arith
starts_with-split (a ∷ b ∷ c ∷ []) h = ground arith
starts_with-split (a ∷ b ∷ c ∷ d ∷ s) h = ground arith

-- What stands before the end of a bucket's host, and the region.
abbrev pub IsBucketEnd : Text → Text → Text → Type 0
IsBucketEnd h name region =
    (h ≡ name ++ (text ".s3." ++ (region ++ amazon))) × (is_empty region ≡ false)

has_bucket_end-split :
    (h : Text)
    → has_bucket_end h ≡ true
    → (name : Text) × (region : Text) × IsBucketEnd h name region
unfolding has_bucket_end
has_bucket_end-split [] e = absurd (cc)
has_bucket_end-split (c ∷ s) e =
    elim (Bool-cases (starts_with (c ∷ s) (text ".s3.") && ends_label amazon (drop 3 s))) [
      | inl k ↦
          let (region, split, full) = ends_label-split amazon (drop 3 s) (ground arith) in
          let begin = starts_with-split (c ∷ s) (ground arith) in
          ([], region, (begin ∙ ap (λ r. text ".s3." ++ r) split, full))
      | inr k ↦
          let (name, region, (split, full)) = has_bucket_end-split s (ground arith) in
          (c ∷ name, region, (ap (λ (r : Text). c ∷ r) split, full))
    ]

-- A host `<bucket>.s3.<region>.amazonaws.com`, with a bucket and a region.
abbrev pub IsVirtualHosted : Text → Type 0
IsVirtualHosted h =
    (bucket : Text) × (region : Text) × ((is_empty bucket ≡ false) × IsBucketEnd h bucket region)

is_virtual_hosted-IsVirtualHosted : (h : Text) → is_virtual_hosted h ≡ true → IsVirtualHosted h
unfolding is_virtual_hosted
is_virtual_hosted-IsVirtualHosted [] e = absurd (cc)
is_virtual_hosted-IsVirtualHosted (c ∷ s) e =
    let (name, region, (split, full)) = has_bucket_end-split s (ground arith) in
    (c ∷ name, region, (refl, (ap (λ (r : Text). c ∷ r) split, full)))

abbrev pub is_attachment : Surface → Bool
is_attachment deploy_health_check = false
is_attachment _ = true

empty-of_is_empty : (s : Text) → is_empty s ≡ true → s ≡ []
empty-of_is_empty [] h = refl
empty-of_is_empty (c ∷ s) h = cc

classify_octets-denied :
    (ns : List ℕ) → is_some (deny_reason_for_address_class (classify_octets ns)) ≡ true
unfolding deny_reason_for_address_class
classify_octets-denied [] = refl
classify_octets-denied (a ∷ []) = refl
classify_octets-denied (a ∷ b ∷ []) = refl
classify_octets-denied (a ∷ b ∷ c ∷ []) = refl
classify_octets-denied (a ∷ b ∷ c ∷ d ∷ ns) = ground arith

classify_ipv4-denied : (h : Text) → is_some (deny_reason_for_address_class (classify_ipv4 h)) ≡ true
unfolding classify_ipv4
classify_ipv4-denied h =
    classify_octets-denied (map (λ part. parse_digits 0 part) (split_at b'.' h))

classify_ipv6-denied : (h : Text) → is_some (deny_reason_for_address_class (classify_ipv6 h)) ≡ true
unfolding deny_reason_for_address_class classify_ipv6
classify_ipv6-denied h = ground arith

module _ (parse : Text → Option Url) (is_ip : Text → ℕ) where
  -- The host is neither this computer by name nor an address.
  abbrev pub IsNamed : Text → Type 0
  IsNamed h = (is_localhost h ≡ false) × (is_ip h ≢ 4) × (is_ip h ≢ 6)

  classify_hostname-IsNamed :
      (h : Text)
      → deny_reason_for_address_class (classify_hostname is_ip h) ≡ none
      → IsNamed (normalize_hostname h)
  unfolding classify_hostname deny_reason_for_address_class
  classify_hostname-IsNamed h e =
      let n = normalize_hostname h in
      (
        ground (arith, classify_ipv4-denied n, classify_ipv6-denied n),
        ground (arith, classify_ipv4-denied n, classify_ipv6-denied n),
        ground (arith, classify_ipv4-denied n, classify_ipv6-denied n),
      )

  -- A URL without credentials, over TLS, to a bucket's own host, which is no address.
  abbrev pub IsBucketUrl : Url → Type 0
  IsBucketUrl u =
      (u.username ≡ [])
      × (u.password ≡ [])
      × (u.protocol ≡ text "https:")
      × IsVirtualHosted (normalize_hostname u.hostname)
      × IsNamed (normalize_hostname u.hostname)

  validate_attachment_url-allowed :
      (surface : Surface) (u : Url) (d : Option Descriptor)
      → (validate_attachment_url parse is_ip surface u d).is_allowed ≡ true
      → (same u.protocol (text "https:") ≡ true)
        × (is_virtual_hosted (normalize_hostname u.hostname) ≡ true)
        × (deny_reason_for_address_class (classify_hostname is_ip u.hostname) ≡ none)
  unfolding validate_attachment_url
  validate_attachment_url-allowed surface u d h =
      elim (Option-cases (deny_reason_for_address_class (classify_hostname is_ip u.hostname))) [
        | inl e ↦ (ground arith, ground arith, e)
        | inr (reason, e) ↦ ground arith
      ]

  parsed-IsBucketUrl :
      (surface : Surface) (u : Url)
      → is_empty u.username ≡ true
      → is_empty u.password ≡ true
      → (validate_attachment_url parse is_ip surface u (some (descriptor_from_url u))).is_allowed
        ≡ true
      → IsBucketUrl u
  parsed-IsBucketUrl surface u e f h =
      let (secure, hosted, named) =
        validate_attachment_url-allowed surface u (some (descriptor_from_url u)) h in
      (
        empty-of_is_empty u.username e,
        empty-of_is_empty u.password f,
        (same_iff u.protocol (text "https:")).0 secure,
        is_virtual_hosted-IsVirtualHosted (normalize_hostname u.hostname) hosted,
        classify_hostname-IsNamed u.hostname named,
      )

  parsed-attachment :
      (surface : Surface) (u : Url)
      → is_attachment surface ≡ true
      → (validate_parsed parse is_ip surface u).is_allowed ≡ true
      → IsBucketUrl u
  parsed-attachment loop_attachment_download u a h =
      parsed-IsBucketUrl loop_attachment_download u (ground arith) (ground arith) (ground arith)
  parsed-attachment loop_support_upload u a h =
      parsed-IsBucketUrl loop_support_upload u (ground arith) (ground arith) (ground arith)
  parsed-attachment deploy_health_check u a h = absurd (cc)

  -- A URL that is allowed for an attachment or an upload is parsed, has no credentials, is over TLS,
  -- and its host is `<bucket>.s3.<region>.amazonaws.com` with a bucket and a region, and neither
  -- this computer by name nor an address.
  pub validate_outbound_url_for_surface-attachment :
      (surface : Surface) (raw : Text)
      → is_attachment surface ≡ true
      → (validate_outbound_url_for_surface parse is_ip surface raw).is_allowed ≡ true
      → (u : Url) × (parse raw ≡ some u) × IsBucketUrl u
  unfolding validate_outbound_url_for_surface
  validate_outbound_url_for_surface-attachment surface raw a h = elim (Option-cases (parse raw)) [
    | inl e ↦ absurd (ground arith)
    | inr (u, e) ↦ (u, e, parsed-attachment surface u a (ground arith))
  ]
