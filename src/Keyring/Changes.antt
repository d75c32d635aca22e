-- ===== src/Keyring/Changes.antt =====
-- What authorized-command-key-store.ts reads after `reconcileOrganizationKeys`.
use closedloop_electron.Base.{
  ℕ, ◌≡◌, refl, ap, sym, ◌∙◌, ◌⊎◌, inl, inr, Bool, true, ◌&&◌, Option, some, List, [], ◌∷◌, ◌++◌,
  map, Text, length, filter, lookup, arith, Bool-cases,
}
use closedloop_electron.Keyring.Formats.{Platform, Key, ok}
use closedloop_electron.Keyring.File.{Contents, file_json, read_file, write_file}
use closedloop_electron.Keyring.Store.{
  Registered, is_nil, find_key, get_key, register_all, is_stale, is_promoted, promote,
  reconcile_keys, replace_keys, Reconciliation, reconcile_organization_keys,
}
use closedloop_electron.Keyring.Normal.{IsEncoded, Result-cases}
use closedloop_electron.Keyring.RoundTrip.{IsKept, as_written, write_file-eq, read_file-write}
use closedloop_electron.Keyring.Genuine.{read_file-IsKept}
use closedloop_electron.Keyring.Reconcile.{
  IsDistinct, verdict, find_key-reconcile, reconcile_keys-same, register_all-IsTrimmed,
  reconcile_keys-IsKept,
}

abbrev pub current : Platform → Option Text → List Key
current p disk = (read_file p disk).keys

-- The text that a call writes is read back as the object that was printed.
abbrev pub IsReadBack : Platform → Contents → Type 0
IsReadBack p c =
    p.parse (p.stringify (file_json (as_written c)) ++ 10 ∷ []) ≡ some (file_json (as_written c))

is_nil-map : (f : Key → Key) (ks : List Key) → is_nil (map f ks) ≡ is_nil ks
is_nil-map f [] = refl
is_nil-map f (k ∷ ks) = refl

nil-of_is_nil : (ks : List Key) → is_nil ks ≡ true → ks ≡ []
nil-of_is_nil [] h = refl
nil-of_is_nil (k ∷ ks) h = cc

module _ (p : Platform) (encoded : (b : List ℕ) → length b ≡ 32 → IsEncoded p b) where
  pub written_keys :
      (keys : List Key) (disk : Option Text) (after : Text)
      → IsKept p (replace_keys keys (read_file p disk))
      → IsReadBack p (replace_keys keys (read_file p disk))
      → write_file p (replace_keys keys (read_file p disk)) ≡ ok after
      → current p (some after) ≡ keys
  written_keys keys disk after k b e =
      let c = replace_keys keys (read_file p disk) in
      let text : after ≡ p.stringify (file_json (as_written c)) ++ 10 ∷ [] =
        ground (arith, write_file-eq p c k) in
      ap (λ (c : Contents). c.keys) (read_file-write p c after k (rw text b))

  pub reconcile-cases :
      (keys : List Registered) (remove_stale : Bool) (disk after : Option Text) (r : Reconciliation)
      → reconcile_organization_keys p keys remove_stale disk ≡ ok (r, after)
      → ((after ≡ disk)
          × (filter (is_stale remove_stale (register_all keys [])) (current p disk) ≡ [])
          × (filter (is_promoted (register_all keys [])) (current p disk) ≡ []))
        ⊎ ((t : Text) × (after ≡ some t)
            × (write_file p (
                  replace_keys
                    (reconcile_keys remove_stale (register_all keys []) (current p disk))
                    (read_file p disk))
                ≡ ok t))
  unfolding reconcile_organization_keys
  reconcile-cases keys remove_stale disk after r h =
      let m = register_all keys [] in
      let stale = filter (is_stale remove_stale m) (current p disk) in
      let found = filter (is_promoted m) (current p disk) in
      let changed =
        replace_keys (reconcile_keys remove_stale m (current p disk)) (read_file p disk) in
      elim (Bool-cases (is_nil stale && is_nil found)) [
        | inl e ↦ inl (
          ground (arith, is_nil-map (promote m) found),
          nil-of_is_nil stale (ground arith),
          nil-of_is_nil found (ground arith),
        )
        | inr e ↦ elim (Result-cases (write_file p changed)) [
          | inl (x, w) ↦ ground (arith, is_nil-map (promote m) found)
          | inr (t, w) ↦ inr (t, ground (arith, is_nil-map (promote m) found), w)
        ]
      ]

  pub get_key-verdict :
      (keys : List Registered) (remove_stale : Bool) (disk after : Option Text) (r : Reconciliation)
      (f : Text)
      → IsDistinct (read_file p disk).keys
      → IsReadBack p (
          replace_keys
            (reconcile_keys remove_stale (register_all keys []) (read_file p disk).keys)
            (read_file p disk))
      → reconcile_organization_keys p keys remove_stale disk ≡ ok (r, after)
      → get_key p f after ≡ verdict remove_stale (register_all keys []) (get_key p f disk)
  unfolding get_key lookup
  get_key-verdict keys remove_stale disk after r f d b h =
      let m = register_all keys [] in
      let found = find_key-reconcile remove_stale m f (current p disk) d in
      elim (reconcile-cases keys remove_stale disk after r h) [
        | inl (same_disk, stale, promoted) ↦ rw same_disk (
            ap (find_key f)
              (sym (reconcile_keys-same remove_stale m (current p disk) stale promoted))
            ∙ found)
        | inr (t, e, w) ↦
            let kept =
              reconcile_keys-IsKept p remove_stale m (λ g. register_all-IsTrimmed keys g [] tt)
                (read_file p disk) (read_file-IsKept p encoded disk) in
            rw e (
              ap (find_key f)
                (written_keys (reconcile_keys remove_stale m (current p disk)) disk t kept b w)
              ∙ found)
      ]
