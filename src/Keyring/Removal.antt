-- ===== src/Keyring/Removal.antt =====
-- What authorized-command-key-store.ts reads after `remove` and `reject`.
use closedloop_electron.Base.{
  ℕ, ◌≡◌, refl, ap, sym, ◌∙◌, ◌⊎◌, inl, inr, Bool, not, Option, none, some, List, [], ◌∷◌, Text,
  same, same_iff, trim, length, length-filter-le, filter, All-filter, ◌==◌, arith, if◌then◌else◌,
  Bool-cases,
}
use closedloop_electron.Keyring.Formats.{Platform, Key, ok}
use closedloop_electron.Keyring.File.{read_file, write_file}
use closedloop_electron.Keyring.Store.{find_key, get_key, replace_keys, remove}
use closedloop_electron.Keyring.Normal.{IsEncoded, Result-cases}
use closedloop_electron.Keyring.RoundTrip.{IsValid, IsNormal, IsKept}
use closedloop_electron.Keyring.Genuine.{read_file-IsKept}
use closedloop_electron.Keyring.Changes.{IsReadBack, current, written_keys}

pub find_key-filter :
    (g f : Text) (ks : List Key)
    → find_key f (filter (λ k. not (same k.fingerprint g)) ks)
      ≡ (if same g f then none else find_key f ks)
unfolding find_key
find_key-filter g f [] = ground arith
find_key-filter g f (k ∷ ks) = ground (
  arith,
  same_iff k.fingerprint g,
  same_iff k.fingerprint f,
  same_iff g f,
  find_key-filter g f ks,
)

module _ (p : Platform) (encoded : (b : List ℕ) → length b ≡ 32 → IsEncoded p b) where
  filter-same :
      (keep : Key → Bool) (ks : List Key)
      → length (filter keep ks) ≡ length ks
      → filter keep ks ≡ ks
  filter-same keep [] h = refl
  filter-same keep (k ∷ ks) h = ground (arith, length-filter-le keep ks, filter-same keep ks)

  pub remove-cases :
      (g : Text) (disk after : Option Text) (found : Bool)
      → remove p g disk ≡ ok (found, after)
      → let keys = filter (λ k. not (same k.fingerprint (trim g))) (current p disk) in
        ((after ≡ disk) × (keys ≡ current p disk))
        ⊎ ((t : Text) × (after ≡ some t)
            × (write_file p (replace_keys keys (read_file p disk)) ≡ ok t))
  unfolding remove
  remove-cases g disk after found h =
      let keep = λ (k : Key). not (same k.fingerprint (trim g)) in
      let keys = filter keep (current p disk) in
      elim (Bool-cases (length keys == length (current p disk))) [
        | inl e ↦ inl (ground arith, filter-same keep (current p disk) (ground arith))
        | inr e ↦ elim (Result-cases (write_file p (replace_keys keys (read_file p disk)))) [
          | inl (x, w) ↦ ground arith
          | inr (t, w) ↦ inr (t, ground arith, w)
        ]
      ]

  pub removed-IsKept :
      (g : Text) (disk : Option Text)
      → IsKept p (
          replace_keys
            (filter (λ k. not (same k.fingerprint (trim g))) (current p disk))
            (read_file p disk))
  removed-IsKept g disk =
      let keep = λ (k : Key). not (same k.fingerprint (trim g)) in
      let (valid, normal, rejected) = read_file-IsKept p encoded disk in
      (
        All-filter IsValid keep (current p disk) valid,
        All-filter (IsNormal p) keep (current p disk) normal,
        rejected,
      )

  -- Where base64 is read back and what the call writes is read back: after a call of `remove` that
  -- does not throw, the store finds no key under the trimmed fingerprint, and every other key as
  -- before.
  pub get_key-remove :
      (g f : Text) (disk after : Option Text) (found : Bool)
      → IsReadBack p (
          replace_keys
            (filter (λ k. not (same k.fingerprint (trim g))) (read_file p disk).keys)
            (read_file p disk))
      → remove p g disk ≡ ok (found, after)
      → get_key p f after ≡ (if same (trim g) f then none else get_key p f disk)
  unfolding get_key
  get_key-remove g f disk after found b h =
      let keep = λ (k : Key). not (same k.fingerprint (trim g)) in
      let left = find_key-filter (trim g) f (current p disk) in
      elim (remove-cases g disk after found h) [
        | inl (same_disk, e) ↦ rw same_disk (ap (find_key f) (sym e) ∙ left)
        | inr (t, e, w) ↦ rw e (
            ap (find_key f) (
              written_keys p encoded (filter keep (current p disk)) disk t (removed-IsKept g disk) b
                w)
            ∙ left)
      ]
