-- ===== src/Keyring/Authorize.antt =====
-- `authorize` of authorized-command-key-store.ts: what the store reads after it.
use closedloop_electron.Base.{
  ℕ, ◌≡◌, refl, ap, ◌∙◌, inl, inr, Bool, true, false, not, Option, none, some, List, [], ◌∷◌, ◌++◌,
  Text, text, same, same_iff, same_refl, trim-trim, or_else, length, All, All-append, All-filter,
  All-kept, arith, if◌then◌else◌, Option-cases,
}
use closedloop_electron.Keyring.Formats.{
  Platform, manual, Key, ok, trimmed, is_fingerprint, fingerprint_command_public_key,
  normalize_raw_public_key_base64, normalize_stored_key,
}
use closedloop_electron.Keyring.File.{Contents, file_json, includes, unique, read_file, write_file}
use closedloop_electron.Keyring.Store.{
  Input, is_org, find_key, get_key, normalize_public_key_input, new_key, add_key, authorize,
}
use closedloop_electron.Keyring.Normal.{
  IsEncoded, Result-cases, normalize_raw-normal, trimmed-fingerprint, trimmed-trimmed,
}
use closedloop_electron.Keyring.RoundTrip.{
  IsValid, IsNormal, IsKept, as_written, unique_after-All, read_file-write,
}
use closedloop_electron.Keyring.Genuine.{read_file-IsKept}

pub find_key-append :
    (f : Text) (ks : List Key) (k : Key)
    → find_key k.fingerprint ks ≡ none
    → find_key f (ks ++ k ∷ []) ≡ (if same k.fingerprint f then some k else find_key f ks)
unfolding find_key
find_key-append f [] k h = refl
find_key-append f (j ∷ ks) k h = ground (
  arith,
  same_iff j.fingerprint k.fingerprint,
  same_iff j.fingerprint f,
  same_iff k.fingerprint f,
  find_key-append f ks k,
)

pub includes-All :
    (f : Text) (ts : List Text) → All (λ t. not (same t f) ≡ true) ts → includes f ts ≡ false
includes-All f [] h = refl
includes-All f (t ∷ ts) h = ground (arith, includes-All f ts h.1)

owner-trimmed_option :
    (name : Option Text) (print : Text)
    → is_fingerprint print ≡ true
    → or_else (trimmed (some (or_else (trimmed name) print))) print ≡ or_else (trimmed name) print
owner-trimmed_option none print h = ground (arith, trimmed-fingerprint print)
owner-trimmed_option (some name) print h = ground (arith, trim-trim name, trimmed-fingerprint print)

trimmed-if :
    (b : Bool) (o : Option Text)
    → trimmed (if b then trimmed o else none) ≡ (if b then trimmed o else none)
trimmed-if true o = trimmed-trimmed o
trimmed-if false o = refl

module _ (p : Platform) where
  -- A call that succeeds: the normal base64, the fingerprint and what is written.
  abbrev pub IsAuthorized : Text → Input → Option Text → Key → Text → Text → Type 0
  IsAuthorized now i disk k after base64 =
      (normalize_raw_public_key_base64 p i.public_key_base64 ≡ ok base64)
      × (find_key k.fingerprint (read_file p disk).keys ≡ none)
      × (k ≡ new_key now i (base64, fingerprint_command_public_key p (p.decode base64)))
      × (write_file p (add_key k (read_file p disk)) ≡ ok after)

  normalize_public_key_input-ok :
      (i : Input) (base64 print : Text)
      → normalize_public_key_input p i ≡ ok (base64, print)
      → (normalize_raw_public_key_base64 p i.public_key_base64 ≡ ok base64)
        × (print ≡ fingerprint_command_public_key p (p.decode base64))
  unfolding normalize_public_key_input
  normalize_public_key_input-ok i base64 print h =
      elim (Result-cases (normalize_raw_public_key_base64 p i.public_key_base64)) [
        | inl (e, n) ↦ ground arith
        | inr (b, n) ↦ ground arith
      ]

  authorize-written :
      (now : Text) (i : Input) (disk : Option Text) (k : Key) (after base64 print : Text)
      → normalize_public_key_input p i ≡ ok (base64, print)
      → authorize p now i disk ≡ ok (k, after)
      → (find_key print (read_file p disk).keys ≡ none)
        × (k ≡ new_key now i (base64, print))
        × (write_file p (add_key (new_key now i (base64, print)) (read_file p disk)) ≡ ok after)
  unfolding authorize
  authorize-written now i disk k after base64 print n h =
      elim (Option-cases (find_key print (read_file p disk).keys)) [
        | inr (old, f) ↦ ground arith
        | inl f ↦
            elim (Result-cases
              (write_file p (add_key (new_key now i (base64, print)) (read_file p disk)))) [
                | inl (e, w) ↦ ground arith
                | inr (text, w) ↦ (f, ground arith, ground arith)
              ]
      ]

  pub authorize-ok :
      (now : Text) (i : Input) (disk : Option Text) (k : Key) (after : Text)
      → authorize p now i disk ≡ ok (k, after)
      → (base64 : Text) × IsAuthorized now i disk k after base64
  unfolding authorize new_key
  authorize-ok now i disk k after h = elim (Result-cases (normalize_public_key_input p i)) [
    | inl (e, n) ↦ ground arith
    | inr ((base64, print), n) ↦
        let (raw, same_print) = normalize_public_key_input-ok i base64 print n in
        let (absent, e, w) = authorize-written now i disk k after base64 print n h in
        let e' : k ≡ new_key now i (base64, fingerprint_command_public_key p (p.decode base64)) =
          e ∙ ap (λ f. new_key now i (base64, f)) same_print in
        (base64, (raw, rw e absent, e', rw e w))
  ]

  module _ (encoded : (b : List ℕ) → length b ≡ 32 → IsEncoded p b)
      (digested : (b : List ℕ) → is_fingerprint (fingerprint_command_public_key p b) ≡ true) where
    new_key-IsNormal :
        (now : Text) (i : Input) (base64 : Text)
        → normalize_raw_public_key_base64 p i.public_key_base64 ≡ ok base64
        → IsNormal p (new_key now i (base64, fingerprint_command_public_key p (p.decode base64)))
    unfolding new_key normalize_stored_key
    new_key-IsNormal now i base64 raw =
        let print = fingerprint_command_public_key p (p.decode base64) in
        rw (normalize_raw-normal p encoded i.public_key_base64 base64 raw, same_refl print)
          (ap ok (
            simp (
              owner-trimmed_option i.owner_name print (digested (p.decode base64)),
              trimmed-trimmed i.owner_email,
              trimmed-if (is_org (or_else i.source manual)) i.source_user_public_key_id,
            )))

    add_key-IsKept :
        (k : Key) (c : Contents) → IsValid k → IsNormal p k → IsKept p c → IsKept p (add_key k c)
    add_key-IsKept k c v n (valid, normal, rejected) = (
      All-append IsValid c.keys (k ∷ []) valid (v, tt),
      All-append (IsNormal p) c.keys (k ∷ []) normal (n, tt),
      All-filter (λ t. is_fingerprint t ≡ true) (λ t. not (same t k.fingerprint))
          c.rejected_fingerprints rejected,
    )

    pub authorize-IsKept :
        (now : Text) (i : Input) (disk : Option Text) (k : Key) (after : Text)
        → authorize p now i disk ≡ ok (k, after)
        → IsKept p (add_key k (read_file p disk))
    unfolding new_key
    authorize-IsKept now i disk k after h =
        let (base64, (raw, absent, e, w)) = authorize-ok now i disk k after h in
        add_key-IsKept k (read_file p disk) (rw e (digested (p.decode base64)))
          (rw e (new_key-IsNormal now i base64 raw)) (read_file-IsKept p encoded disk)

    -- Where base64 is read back and a hash in base64url has the form of a fingerprint: after a call
    -- of `authorize` that succeeds, and whose file is read back, the store finds the new key under
    -- its fingerprint, finds every other key as before, and no longer rejects the fingerprint.
    pub get_key-authorize :
        (now : Text) (i : Input) (disk : Option Text) (k : Key) (after f : Text)
        → authorize p now i disk ≡ ok (k, after)
        → p.parse after ≡ some (file_json (as_written (add_key k (read_file p disk))))
        → (get_key p f (some after) ≡ (if same k.fingerprint f then some k else get_key p f disk))
          × (includes k.fingerprint (read_file p (some after)).rejected_fingerprints ≡ false)
    unfolding get_key
    get_key-authorize now i disk k after f h e =
        let c = read_file p disk in
        let (base64, (raw, absent, _, w)) = authorize-ok now i disk k after h in
        let again =
          read_file-write p (add_key k c) after (authorize-IsKept now i disk k after h) e in
        rw again (
          find_key-append f c.keys k absent,
          includes-All k.fingerprint (unique (add_key k c).rejected_fingerprints) (
              unique_after-All (λ t. not (same t k.fingerprint) ≡ true) []
                (add_key k c).rejected_fingerprints
                (All-kept (λ t. not (same t k.fingerprint)) c.rejected_fingerprints)),
        )
