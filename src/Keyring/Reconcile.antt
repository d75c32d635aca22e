-- ===== src/Keyring/Reconcile.antt =====
-- `reconcileOrganizationKeys` of authorized-command-key-store.ts, key by key.
use closedloop_electron.Base.{
  ◌≡◌, refl, ap, sym, subst, inl, inr, Bool, Option, none, some, List, [], ◌∷◌, Text, same,
  same_iff, same_refl, or_else, filter, lookup, insert, lookup-insert, All, arith, if◌then◌else◌,
  Bool-cases,
}
use closedloop_electron.Json.{Json, undefined, null, bool, int, float, str, arr, obj}
use closedloop_electron.Keyring.Formats.{
  Platform, org, Key, ok, trimmed, normalize_stored_key, normalize_optional_string,
}
use closedloop_electron.Keyring.File.{Contents}
use closedloop_electron.Keyring.Store.{
  Registered, by_text, by_record, registered_id, registered_fingerprint, find_key, register_all,
  non_empty, promoted_key, is_stale, is_promoted, promote, reconcile_keys, replace_keys,
}
use closedloop_electron.Keyring.Normal.{trimmed-trimmed, normalize_stored_key-IsNormalized}
use closedloop_electron.Keyring.RoundTrip.{IsValid, IsNormal, IsKept}

-- No fingerprint stands twice.
abbrev pub IsDistinct : List Key → Type 0
IsDistinct [] = Unit
IsDistinct (k ∷ ks) = (find_key k.fingerprint ks ≡ none) × IsDistinct ks

module _ (remove_stale : Bool) (registered : List (Text × Option Text)) where
  -- What becomes of a key.
  abbrev pub verdict : Option Key → Option Key
  verdict none = none
  verdict (some k) =
      if is_stale remove_stale registered k then none else some (promote registered k)

  pub find_key-reconcile :
      (f : Text) (ks : List Key)
      → IsDistinct ks
      → find_key f (reconcile_keys remove_stale registered ks) ≡ verdict (find_key f ks)
  unfolding find_key reconcile_keys
  find_key-reconcile f [] h = refl
  find_key-reconcile f (k ∷ ks) h =
      ground (arith, same_iff k.fingerprint f, find_key-reconcile f ks h.1)

  pub reconcile_keys-same :
      (ks : List Key)
      → filter (is_stale remove_stale registered) ks ≡ []
      → filter (is_promoted registered) ks ≡ []
      → reconcile_keys remove_stale registered ks ≡ ks
  unfolding reconcile_keys
  reconcile_keys-same [] h k = refl
  reconcile_keys-same (k ∷ ks) h i = ground (arith, reconcile_keys-same ks)

-- The ids that the map holds are trimmed and not empty.
abbrev pub IsTrimmed : Option (Option Text) → Type 0
IsTrimmed none = Unit
IsTrimmed (some o) = trimmed o ≡ o

normalize_optional_string-trimmed :
    (v : Json) → trimmed (normalize_optional_string v) ≡ normalize_optional_string v
normalize_optional_string-trimmed (str s) = trimmed-trimmed (some s)
normalize_optional_string-trimmed undefined = refl
normalize_optional_string-trimmed null = refl
normalize_optional_string-trimmed (bool b) = refl
normalize_optional_string-trimmed (int n) = refl
normalize_optional_string-trimmed (float t) = refl
normalize_optional_string-trimmed (arr vs) = refl
normalize_optional_string-trimmed (obj fs) = refl

registered_id-trimmed : (r : Registered) → trimmed (registered_id r) ≡ registered_id r
registered_id-trimmed (by_text t) = refl
registered_id-trimmed (by_record f id) = normalize_optional_string-trimmed id

insert-IsTrimmed :
    (g f : Text) (o : Option Text) (m : List (Text × Option Text))
    → trimmed o ≡ o
    → IsTrimmed (lookup f m)
    → IsTrimmed (lookup f (insert g o m))
insert-IsTrimmed g f o m h k = elim (Bool-cases (same g f)) [
  | inl e ↦ subst IsTrimmed (sym (lookup-insert g f o m)) (rw e h)
  | inr e ↦ subst IsTrimmed (sym (lookup-insert g f o m)) (rw e k)
]

register-IsTrimmed :
    (o : Option Text) (f : Text) (r : Registered) (m : List (Text × Option Text))
    → IsTrimmed (lookup f m)
    → IsTrimmed (lookup f (elim o [ none ↦ m | some g ↦ insert g (registered_id r) m ]))
register-IsTrimmed none f r m h = h
register-IsTrimmed (some g) f r m h =
    insert-IsTrimmed g f (registered_id r) m (registered_id-trimmed r) h

pub register_all-IsTrimmed :
    (rs : List Registered) (f : Text) (m : List (Text × Option Text))
    → IsTrimmed (lookup f m)
    → IsTrimmed (lookup f (register_all rs m))
unfolding register_all
register_all-IsTrimmed [] f m h = h
register_all-IsTrimmed (r ∷ rs) f m h =
    register_all-IsTrimmed rs f _ (register-IsTrimmed (registered_fingerprint r) f r m h)

trimmed-non_empty : (o : Option Text) → trimmed o ≡ o → trimmed (non_empty o) ≡ non_empty o
trimmed-non_empty none h = refl
trimmed-non_empty (some s) h = ground arith

module _ (p : Platform) where
  promoted_key-IsNormal :
      (id : Option Text) (k : Key) → trimmed id ≡ id → IsNormal p k → IsNormal p (promoted_key id k)
  unfolding normalize_stored_key
  promoted_key-IsNormal id k h n =
      let (base64, (raw, print, e)) = normalize_stored_key-IsNormalized p k k n in
      let public : base64 ≡ k.public_key_base64 = sym (ap (λ (k : Key). k.public_key_base64) e) in
      let owner : or_else (trimmed (some k.owner_name)) k.fingerprint ≡ k.owner_name =
        sym (ap (λ (k : Key). k.owner_name) e) in
      let email = trimmed-non_empty k.owner_email (sym (ap (λ (k : Key). k.owner_email) e)) in
      rw (raw, print, same_refl k.fingerprint)
        λ i. ok record {
          fingerprint = k.fingerprint;
          public_key_base64 = public i;
          owner_name = owner i;
          owner_email = email i;
          authorized_at = k.authorized_at;
          source = org;
          source_user_public_key_id = h i;
        }

  module _ (remove_stale : Bool) (registered : List (Text × Option Text))
      (h : (f : Text) → IsTrimmed (lookup f registered)) where
    found_id-trimmed :
        (o : Option (Option Text)) → IsTrimmed o → trimmed (or_else o none) ≡ or_else o none
    found_id-trimmed none k = refl
    found_id-trimmed (some id) k = k

    promote-IsNormal : (k : Key) → IsNormal p k → IsNormal p (promote registered k)
    promote-IsNormal k n = elim (Bool-cases (is_promoted registered k)) [
      | inl e ↦ rw e (
          promoted_key-IsNormal (or_else (lookup k.fingerprint registered) none) k
            (found_id-trimmed (lookup k.fingerprint registered) (h k.fingerprint)) n)
      | inr e ↦ rw e n
    ]

    promote-IsValid : (k : Key) → IsValid k → IsValid (promote registered k)
    promote-IsValid k v = ground arith

    reconcile_keys-All :
        (P : Key → Type 0) (ks : List Key)
        → ((k : Key) → P k → P (promote registered k))
        → All P ks
        → All P (reconcile_keys remove_stale registered ks)
    unfolding reconcile_keys
    reconcile_keys-All P [] f k = tt
    reconcile_keys-All P (x ∷ ks) f k = elim (Bool-cases (is_stale remove_stale registered x)) [
      | inl e ↦ rw (e, reconcile_keys) (reconcile_keys-All P ks f k.1)
      | inr e ↦ rw (e, reconcile_keys) (f x k.0, reconcile_keys-All P ks f k.1)
    ]

    pub reconcile_keys-IsKept :
        (c : Contents)
        → IsKept p c
        → IsKept p (replace_keys (reconcile_keys remove_stale registered c.keys) c)
    reconcile_keys-IsKept c (valid, normal, rejected) = (
      reconcile_keys-All IsValid c.keys promote-IsValid valid,
      reconcile_keys-All (IsNormal p) c.keys promote-IsNormal normal,
      rejected,
    )
