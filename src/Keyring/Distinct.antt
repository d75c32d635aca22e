-- ===== src/Keyring/Distinct.antt =====
-- No operation of authorized-command-key-store.ts puts a fingerprint into its file twice.
use closedloop_electron.Base.{
  ℕ, ◌≡◌, refl, sym, subst, inl, inr, Bool, true, not, Option, none, some, List, [], ◌∷◌, ◌++◌,
  Text, same, same_iff, trim, length, filter, lookup, arith,
}
use closedloop_electron.Keyring.Formats.{
  Platform, Key, ok, is_fingerprint, fingerprint_command_public_key,
}
use closedloop_electron.Keyring.File.{Contents, file_json, read_file}
use closedloop_electron.Keyring.Store.{
  Input, Registered, find_key, add_key, register_all, reconcile_keys, replace_keys, Reconciliation,
  authorize, reconcile_organization_keys, remove,
}
use closedloop_electron.Keyring.Normal.{IsEncoded}
use closedloop_electron.Keyring.RoundTrip.{as_written, read_file-write}
use closedloop_electron.Keyring.Genuine.{read_file-IsKept}
use closedloop_electron.Keyring.Authorize.{find_key-append, authorize-ok, authorize-IsKept}
use closedloop_electron.Keyring.Reconcile.{
  IsDistinct, find_key-reconcile, register_all-IsTrimmed, reconcile_keys-IsKept,
}
use closedloop_electron.Keyring.Changes.{current, IsReadBack, written_keys, reconcile-cases}
use closedloop_electron.Keyring.Removal.{find_key-filter, remove-cases, removed-IsKept}

append-IsDistinct :
    (ks : List Key) (k : Key)
    → find_key k.fingerprint ks ≡ none
    → IsDistinct ks
    → IsDistinct (ks ++ k ∷ [])
unfolding find_key
append-IsDistinct [] k h d = (refl, tt)
append-IsDistinct (j ∷ ks) k h d = (
  ground (
    arith,
    same_iff j.fingerprint k.fingerprint,
    same_iff k.fingerprint j.fingerprint,
    find_key-append j.fingerprint ks k,
  ),
  append-IsDistinct ks k (ground arith) d.1,
)

filter-IsDistinct :
    (g : Text) (ks : List Key)
    → IsDistinct ks
    → IsDistinct (filter (λ k. not (same k.fingerprint g)) ks)
filter-IsDistinct g [] d = tt
filter-IsDistinct g (k ∷ ks) d =
    ground (arith, find_key-filter g k.fingerprint ks, filter-IsDistinct g ks d.1)

reconcile_keys-IsDistinct :
    (remove_stale : Bool) (m : List (Text × Option Text)) (ks : List Key)
    → IsDistinct ks
    → IsDistinct (reconcile_keys remove_stale m ks)
unfolding reconcile_keys
reconcile_keys-IsDistinct remove_stale m [] d = tt
reconcile_keys-IsDistinct remove_stale m (k ∷ ks) d = ground (
  arith,
  find_key-reconcile remove_stale m k.fingerprint ks d.1,
  reconcile_keys-IsDistinct remove_stale m ks d.1,
)

module _ (p : Platform) where
  -- The operations that write, with the file before and after; what each writes is read back.
  pub data Change : Option Text → Option Text → Type 0 where
    authorized :
        {disk : Option Text} {k : Key} {after : Text} (now : Text) (i : Input)
        → authorize p now i disk ≡ ok (k, after)
        → p.parse after ≡ some (file_json (as_written (add_key k (read_file p disk))))
        → Change disk (some after)
    removed :
        {disk after : Option Text} {found : Bool} (f : Text)
        → remove p f disk ≡ ok (found, after)
        → IsReadBack p (
            replace_keys
              (filter (λ k. not (same k.fingerprint (trim f))) (current p disk))
              (read_file p disk))
        → Change disk after
    reconciled :
        {disk after : Option Text} {r : Reconciliation} (keys : List Registered)
        (remove_stale : Bool)
        → reconcile_organization_keys p keys remove_stale disk ≡ ok (r, after)
        → IsReadBack p (
            replace_keys
              (reconcile_keys remove_stale (register_all keys []) (current p disk))
              (read_file p disk))
        → Change disk after

module _ (p : Platform) (encoded : (b : List ℕ) → length b ≡ 32 → IsEncoded p b)
    (digested : (b : List ℕ) → is_fingerprint (fingerprint_command_public_key p b) ≡ true) where
  -- Where base64 is read back and a hash in base64url has the form of a fingerprint: `authorize`,
  -- `remove` and `reconcileOrganizationKeys`, when they do not throw and what they write is read
  -- back, leave no fingerprint twice where none was.
  pub Change-IsDistinct :
      (disk after : Option Text)
      → Change p disk after
      → IsDistinct (read_file p disk).keys
      → IsDistinct (read_file p after).keys
  unfolding lookup
  Change-IsDistinct disk after (authorized {k = k} {after = t} now i h b) d =
      let (base64, (raw, absent, e, w)) = authorize-ok p now i disk k t h in
      let kept = authorize-IsKept p encoded digested now i disk k t h in
      let again = read_file-write p (add_key k (read_file p disk)) t kept b in
      subst (λ (c : Contents). IsDistinct c.keys) (sym again)
        (append-IsDistinct (current p disk) k absent d)
  Change-IsDistinct disk after (removed {found = found} f h b) d =
      elim (remove-cases p encoded f disk after found h) [
        | inl (same_disk, e) ↦ subst (λ o. IsDistinct (current p o)) (sym same_disk) d
        | inr (t, e, w) ↦
            subst (λ o. IsDistinct (current p o)) (sym e)
              (subst IsDistinct
                (sym (written_keys p encoded _ disk t (removed-IsKept p encoded f disk) b w))
                (filter-IsDistinct (trim f) (current p disk) d))
      ]
  Change-IsDistinct disk after (reconciled {r = r} keys remove_stale h b) d =
      elim (reconcile-cases p encoded keys remove_stale disk after r h) [
        | inl (same_disk, _, _) ↦ subst (λ o. IsDistinct (current p o)) (sym same_disk) d
        | inr (t, e, w) ↦
            let m = register_all keys [] in
            let kept =
              reconcile_keys-IsKept p remove_stale m (λ g. register_all-IsTrimmed keys g [] tt)
                (read_file p disk) (read_file-IsKept p encoded disk) in
            subst (λ o. IsDistinct (current p o)) (sym e)
              (subst IsDistinct (sym (written_keys p encoded _ disk t kept b w))
                (reconcile_keys-IsDistinct remove_stale m (current p disk) d))
      ]
