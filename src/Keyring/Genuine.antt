-- ===== src/Keyring/Genuine.antt =====
-- Which keys authorized-command-key-store.ts reads from its file, whatever stands there.
use closedloop_electron.Base.{
  ℕ, ◌≡◌, refl, sym, subst, ◌⊎◌, inl, inr, true, Option, List, [], ◌∷◌, Text, length, All, arith,
  Option-cases,
}
use closedloop_electron.Keyring.Formats.{
  Platform, Key, ok, is_fingerprint, fingerprint_command_public_key, normalize_stored_key,
  normalize_stored_keys,
}
use closedloop_electron.Keyring.File.{Contents, empty_contents, parsed, unique, read_file}
use closedloop_electron.Keyring.Checked.{IsChecked, parsed-IsChecked}
use closedloop_electron.Keyring.Normal.{
  IsEncoded, Result-cases, normalize_stored_key-IsNormalized, normalize_stored_key-normal,
}
use closedloop_electron.Keyring.RoundTrip.{IsValid, IsNormal, IsKept, unique_after-All}

module _ (p : Platform) where
  -- A key stands under the fingerprint of its own public key.
  abbrev pub IsGenuine : Key → Type 0
  IsGenuine k = fingerprint_command_public_key p (p.decode k.public_key_base64) ≡ k.fingerprint

  normalize_stored_key-IsGenuine : (k key : Key) → normalize_stored_key p k ≡ ok key → IsGenuine key
  normalize_stored_key-IsGenuine k key h =
      let (base64, (raw, print, e)) = normalize_stored_key-IsNormalized p k key h in rw e print

  normalize_stored_key-IsValid :
      (k key : Key) → IsValid k → normalize_stored_key p k ≡ ok key → IsValid key
  normalize_stored_key-IsValid k key f h =
      let (base64, (raw, print, e)) = normalize_stored_key-IsNormalized p k key h in rw e f

  normalize_stored_keys-All :
      (P : Key → Type 0) (Q : Key → Type 0)
      → ((k key : Key) → P k → normalize_stored_key p k ≡ ok key → Q key)
      → (ks keys : List Key) → All P ks
      → normalize_stored_keys p ks ≡ ok keys
      → All Q keys
  unfolding normalize_stored_keys
  normalize_stored_keys-All P Q f [] keys h e = ground arith
  normalize_stored_keys-All P Q f (k ∷ ks) keys h e =
      elim (Result-cases (normalize_stored_key p k)) [
        | inl (x, i) ↦ ground arith
        | inr (key, i) ↦ elim (Result-cases (normalize_stored_keys p ks)) [
          | inl (x, j) ↦ ground arith
          | inr (rest, j) ↦
              let same_list : key ∷ rest ≡ keys = ground arith in
              subst (All Q) same_list (f k key h.0 i, normalize_stored_keys-All P Q f ks rest h.1 j)
        ]
      ]

module _ (p : Platform) where
  -- The contents of a file are read as empty, or they are what stood there, normalized.
  abbrev IsRead : Contents → Type 0
  IsRead c =
      (c ≡ empty_contents)
      ⊎ ((d : Contents) × (ks : List Key) × IsChecked d
          × (normalize_stored_keys p d.keys ≡ ok ks)
          × (c ≡ record { keys = ks; rejected_fingerprints = unique d.rejected_fingerprints }))

  read_file-IsRead : (disk : Option Text) → IsRead (read_file p disk)
  unfolding read_file
  read_file-IsRead disk = elim (Option-cases (parsed p disk)) [
    | inl e ↦ inl (rw (e, read_file) refl)
    | inr (d, e) ↦ elim (Result-cases (normalize_stored_keys p d.keys)) [
      | inl (x, n) ↦ inl (rw (e, n, read_file) refl)
      | inr (ks, n) ↦ inr (d, ks, parsed-IsChecked p disk d e, n, rw (e, n, read_file) refl)
    ]
  ]

  -- Whatever stands in the file, each key that is read stands under the fingerprint of its own
  -- public key.
  pub read_file-IsGenuine : (disk : Option Text) → All (IsGenuine p) (read_file p disk).keys
  read_file-IsGenuine disk = elim (read_file-IsRead disk) [
    | inl e ↦ subst (λ c. All (IsGenuine p) c.keys) (sym e) tt
    | inr (d, ks, (valid, rejected), n, e) ↦
        subst (λ c. All (IsGenuine p) c.keys) (sym e)
          (normalize_stored_keys-All p IsValid (IsGenuine p)
            (λ k key _ i. normalize_stored_key-IsGenuine p k key i) d.keys ks valid n)
  ]

  pub read_file-IsKept :
      ((b : List ℕ) → length b ≡ 32 → IsEncoded p b)
      → (disk : Option Text) → IsKept p (read_file p disk)
  read_file-IsKept encoded disk = elim (read_file-IsRead disk) [
    | inl e ↦ subst (IsKept p) (sym e) (tt, tt, tt)
    | inr (d, ks, (valid, rejected), n, e) ↦ subst (IsKept p) (sym e) (
      normalize_stored_keys-All p IsValid IsValid
          (λ k key f i. normalize_stored_key-IsValid p k key f i) d.keys ks valid n,
      normalize_stored_keys-All p IsValid (IsNormal p)
          (λ k key f i. normalize_stored_key-normal p encoded k key f i) d.keys ks valid n,
      unique_after-All (λ t. is_fingerprint t ≡ true) [] d.rejected_fingerprints rejected,
    )
  ]
