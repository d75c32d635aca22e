-- ===== src/Keyring/Outcome.antt =====
-- What becomes of each key of authorized-command-key-store.ts in `reconcileOrganizationKeys`, case by
-- case.
use closedloop_electron.Base.{
  ℕ, ◌≡◌, ◌∙◌, refl, ap, sym, subst, inl, inr, Bool, true, false, Option, none, some, List, [], ◌∷◌,
  Text, same, same_iff, Option-cases, trim, All-map, length, lookup, insert, lookup-insert, All,
  arith, if◌then◌else◌, Bool-cases,
}
use closedloop_electron.Keyring.Formats.{Platform, Source, org, manual, unknown, Key, ok, trimmed}
use closedloop_electron.Keyring.File.{read_file}
use closedloop_electron.Keyring.Store.{
  Registered, registered_fingerprint, registered_id, register_all, non_empty, find_key, get_key,
  promoted_key, reconcile_keys, replace_keys, Reconciliation, reconcile_organization_keys,
}
use closedloop_electron.Keyring.Normal.{IsEncoded, normalize_stored_key-IsNormalized}
use closedloop_electron.Keyring.RoundTrip.{IsNormal}
use closedloop_electron.Keyring.Genuine.{read_file-IsKept}
use closedloop_electron.Keyring.Reconcile.{IsDistinct, verdict}
use closedloop_electron.Keyring.Changes.{current, IsReadBack, get_key-verdict}

-- The last of the registered keys with a fingerprint, by its id.
pub registration : Text → List Registered → Option (Option Text)
registration f [] = none
registration f (r ∷ rs) = elim (registration f rs) [
  | some id ↦ some id
  | none ↦ elim (registered_fingerprint r) [
    | none ↦ none
    | some g ↦ if same g f then some (registered_id r) else none
  ]
]

-- The key under a fingerprint before and after, with the registration of the fingerprint.
pub data Outcome (remove_stale : Bool) (found : Option (Option Text))
    : Option Key → Option Key → Type 0 where
  absent : Outcome remove_stale found none none
  removed :
      {k : Key}
      → remove_stale ≡ true
      → k.source ≡ org
      → found ≡ none
      → Outcome remove_stale found (some k) none
  promoted :
      {k : Key} {id : Option Text}
      → k.source ≡ unknown
      → found ≡ some id
      → Outcome remove_stale found
          (some k)
          (some record k { source = org; source_user_public_key_id = id })
  kept_manual : {k : Key} → k.source ≡ manual → Outcome remove_stale found (some k) (some k)
  kept_registered :
      {k : Key} {id : Option Text}
      → k.source ≡ org
      → found ≡ some id
      → Outcome remove_stale found (some k) (some k)
  kept_stale :
      {k : Key}
      → k.source ≡ org
      → remove_stale ≡ false
      → Outcome remove_stale found (some k) (some k)
  kept_unknown :
      {k : Key} → k.source ≡ unknown → found ≡ none → Outcome remove_stale found (some k) (some k)

lookup-register_all :
    (f : Text) (rs : List Registered) (m : List (Text × Option Text))
    → lookup f (register_all rs m)
      ≡ elim (registration f rs) [ some id ↦ some id | none ↦ lookup f m ]
unfolding register_all registration
lookup-register_all f [] m = refl
lookup-register_all f (r ∷ rs) m = elim (Option-cases (registered_fingerprint r)) [
  | inl e ↦ ground (arith, lookup-register_all f rs m)
  | inr (g, e) ↦ ground (
    arith,
    lookup-register_all f rs (insert g (registered_id r) m),
    lookup-insert g f (registered_id r) m,
  )
]

lookup-registration :
    (f : Text) (rs : List Registered) → lookup f (register_all rs []) ≡ registration f rs
unfolding lookup
lookup-registration f rs = ground (arith, lookup-register_all f rs [])

module _ (remove_stale : Bool) (registered : List (Text × Option Text)) where
  known-Outcome :
      (k : Key) (source : Source) (found : Option (Option Text))
      → non_empty k.owner_email ≡ k.owner_email
      → k.source ≡ source
      → lookup k.fingerprint registered ≡ found
      → Outcome remove_stale found (some k) (verdict remove_stale registered (some k))
  known-Outcome k manual found n e f =
      let same_key : verdict remove_stale registered (some k) ≡ some k = ground arith in
      subst (Outcome remove_stale found (some k)) (sym same_key) (kept_manual e)
  known-Outcome k unknown none n e f =
      let same_key : verdict remove_stale registered (some k) ≡ some k = ground arith in
      subst (Outcome remove_stale none (some k)) (sym same_key) (kept_unknown e refl)
  known-Outcome k unknown (some id) n e f =
      let changed : verdict remove_stale registered (some k) ≡ some (promoted_key id k) =
        ground arith in
      let same_email : promoted_key id k
          ≡ record k { source = org; source_user_public_key_id = id } =
        λ i. record k { owner_email = n i; source = org; source_user_public_key_id = id } in
      subst (Outcome remove_stale (some id) (some k)) (sym (changed ∙ ap (λ x. some x) same_email))
        (promoted e refl)
  known-Outcome k org (some id) n e f =
      let same_key : verdict remove_stale registered (some k) ≡ some k = ground arith in
      subst (Outcome remove_stale (some id) (some k)) (sym same_key) (kept_registered e refl)
  known-Outcome k org none n e f = elim (Bool-cases remove_stale) [
    | inl r ↦
        let gone : verdict remove_stale registered (some k) ≡ none = ground arith in
        subst (Outcome remove_stale none (some k)) (sym gone) (removed r e refl)
    | inr r ↦
        let same_key : verdict remove_stale registered (some k) ≡ some k = ground arith in
        subst (Outcome remove_stale none (some k)) (sym same_key) (kept_stale e r)
  ]

  -- The key that is found has the fingerprint, and its e-mail address is not empty.
  found-Outcome :
      (f : Text) (ks : List Key)
      → All (λ k. non_empty k.owner_email ≡ k.owner_email) ks
      → Outcome remove_stale
          (lookup f registered)
          (find_key f ks)
          (verdict remove_stale registered (find_key f ks))
  unfolding find_key
  found-Outcome f [] n = absent
  found-Outcome f (k ∷ ks) n = elim (Bool-cases (same k.fingerprint f)) [
    | inl e ↦
        let here : k.fingerprint ≡ f = (same_iff k.fingerprint f).0 e in
        rw e (
          known-Outcome k k.source (lookup f registered) n.0 refl
            (ap (λ g. lookup g registered) here))
    | inr e ↦ rw e (found-Outcome f ks n.1)
  ]

trimmed-full : (o : Option Text) → trimmed o ≡ o → non_empty o ≡ o
unfolding trim
trimmed-full none h = refl
trimmed-full (some []) h = absurd (ground arith)
trimmed-full (some (c ∷ s)) h = refl

IsNormal-email : (p : Platform) (k : Key) → IsNormal p k → non_empty k.owner_email ≡ k.owner_email
IsNormal-email p k n =
    let (base64, (raw, fingerprint, e)) = normalize_stored_key-IsNormalized p k k n in
    trimmed-full k.owner_email (sym (ap (λ (k : Key). k.owner_email) e))

module _ (p : Platform) (encoded : (b : List ℕ) → length b ≡ 32 → IsEncoded p b) where
  -- Where base64 is read back and what the call writes is read back: after a call of
  -- `reconcileOrganizationKeys` on a file that has no fingerprint twice, the key under each
  -- fingerprint is one of these. There was none, and there is none. An unregistered key of the
  -- organization is gone, if stale keys are removed. A registered key of unknown source belongs to
  -- the organization, with the id of the last registration, and is otherwise as it was. Any other key
  -- is as it was.
  pub get_key-reconcile :
      (keys : List Registered) (remove_stale : Bool) (disk after : Option Text) (r : Reconciliation)
      (f : Text)
      → IsDistinct (read_file p disk).keys
      → IsReadBack p (
          replace_keys
            (reconcile_keys remove_stale (register_all keys []) (read_file p disk).keys)
            (read_file p disk))
      → reconcile_organization_keys p keys remove_stale disk ≡ ok (r, after)
      → Outcome remove_stale (registration f keys) (get_key p f disk) (get_key p f after)
  unfolding get_key
  get_key-reconcile keys remove_stale disk after r f d b h =
      let m = register_all keys [] in
      let (valid, normal, rejected) = read_file-IsKept p encoded disk in
      let emails = All-map (current p disk) (λ k n. IsNormal-email p k n) normal in
      let after_key : get_key p f after ≡ verdict remove_stale m (get_key p f disk) =
        get_key-verdict p encoded keys remove_stale disk after r f d b h in
      subst (λ found. Outcome remove_stale found (get_key p f disk) (get_key p f after))
        (lookup-registration f keys)
        (subst (Outcome remove_stale (lookup f m) (get_key p f disk)) (sym after_key)
          (found-Outcome remove_stale m f (current p disk) emails))
