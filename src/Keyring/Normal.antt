-- ===== src/Keyring/Normal.antt =====
-- A key that the store has normalized stays as it is when it is normalized again
-- (authorized-command-key-store.ts).
use closedloop_electron.Base.{
  ℕ, ◌≡◌, refl, ap, ◌⊎◌, inl, inr, true, false, ◌||◌, Option, none, some, List, [], ◌∷◌, Text,
  same_iff, same_refl, starts_with, trim, trim-trim, trim_solid, is_space, or_else, length, All,
  ◌==◌, arith, Bool-cases,
}
use closedloop_electron.Keyring.Formats.{
  Platform, Key, KeyError, Result, ok, raised, all_units, skip_base64, is_base64, is_fingerprint,
  trimmed, normal_key, fingerprint_command_public_key, normalize_raw_public_key_base64,
  normalize_stored_key, is_letter_or_digit, is_base64_unit, is_padding,
}

-- What base64 gives for a key's bytes.
abbrev pub IsEncoded : Platform → List ℕ → Type 0
IsEncoded p b = (is_base64 (p.encode b) ≡ true) × (p.decode (p.encode b) ≡ b)

is_letter_or_digit-solid : (c : ℕ) → is_letter_or_digit c ≡ true → is_space c ≡ false
unfolding is_space
is_letter_or_digit-solid c h = ground arith

is_base64_unit-solid : (c : ℕ) → is_base64_unit c ≡ true → is_space c ≡ false
unfolding is_space
is_base64_unit-solid c h = ground (arith, is_letter_or_digit-solid c)

is_padding-solid : (s : Text) → is_padding s ≡ true → All (λ c. is_space c ≡ false) s
unfolding is_space
is_padding-solid [] h = tt
is_padding-solid (c ∷ []) h = ground arith
is_padding-solid (c ∷ d ∷ []) h = ground arith
is_padding-solid (c ∷ d ∷ e ∷ s) h = cc

skip_base64-solid : (s : Text) → is_padding (skip_base64 s) ≡ true → All (λ c. is_space c ≡ false) s
unfolding skip_base64
skip_base64-solid [] h = tt
skip_base64-solid (c ∷ s) h = elim (Bool-cases (is_base64_unit c)) [
  | inl e ↦ (is_base64_unit-solid c e, skip_base64-solid s (ground arith))
  | inr e ↦ is_padding-solid (c ∷ s) (ground arith)
]

trim-base64 : (s : Text) → is_base64 s ≡ true → trim s ≡ s
unfolding is_base64
trim-base64 [] h = cc
trim-base64 (c ∷ s) h =
    trim_solid (c ∷ s) (is_base64_unit-solid c (ground arith), skip_base64-solid s (ground arith))

all_units-solid :
    (s : Text)
    → all_units (λ c. is_letter_or_digit c || (c == b'_') || (c == b'-')) s ≡ true
    → All (λ c. is_space c ≡ false) s
unfolding is_space
all_units-solid [] h = tt
all_units-solid (c ∷ s) h =
    (ground (arith, is_letter_or_digit-solid c), all_units-solid s (ground arith))

is_fingerprint-solid : (s : Text) → is_fingerprint s ≡ true → All (λ c. is_space c ≡ false) s
unfolding is_fingerprint starts_with is_space
is_fingerprint-solid [] h = cc
is_fingerprint-solid (a ∷ []) h = ground arith
is_fingerprint-solid (a ∷ b ∷ []) h = ground arith
is_fingerprint-solid (a ∷ b ∷ c ∷ s) h =
    (ground arith, (ground arith, (ground arith, all_units-solid s (ground arith))))

pub trimmed-fingerprint : (s : Text) → is_fingerprint s ≡ true → trimmed (some s) ≡ some s
unfolding is_fingerprint starts_with
trimmed-fingerprint [] h = cc
trimmed-fingerprint (c ∷ s) h = rw (trim_solid (c ∷ s) (is_fingerprint-solid (c ∷ s) h)) refl

pub trimmed-trimmed : (o : Option Text) → trimmed (trimmed o) ≡ trimmed o
trimmed-trimmed none = refl
trimmed-trimmed (some s) = ground (arith, trim-trim s)

owner-trimmed :
    (name print : Text)
    → is_fingerprint print ≡ true
    → or_else (trimmed (some (or_else (trimmed (some name)) print))) print
      ≡ or_else (trimmed (some name)) print
owner-trimmed name print h = ground (arith, trim-trim name, trimmed-fingerprint print)

normal_key-normal :
    (base64 print : Text) (k : Key)
    → is_fingerprint print ≡ true
    → normal_key base64 print (normal_key base64 print k) ≡ normal_key base64 print k
normal_key-normal base64 print k h = simp (
  owner-trimmed k.owner_name print h,
  trimmed-trimmed k.owner_email,
  trimmed-trimmed k.source_user_public_key_id,
)

pub Result-cases {ℓ} :
    {A : Type ℓ} (r : Result A) → ((e : KeyError) × (r ≡ raised e)) ⊎ ((a : A) × (r ≡ ok a))
Result-cases (ok a) = inr (a, refl)
Result-cases (raised e) = inl (e, refl)

module _ (p : Platform) where
  -- A normalized key is the key with its own fingerprint, which is that of its public key.
  abbrev pub IsNormalized : Key → Key → Text → Type 0
  IsNormalized k key base64 =
      (normalize_raw_public_key_base64 p k.public_key_base64 ≡ ok base64)
      × (fingerprint_command_public_key p (p.decode base64) ≡ k.fingerprint)
      × (key ≡ normal_key base64 k.fingerprint k)

  IsNormalized-of :
      (r : Result Text) (k key : Key)
      → normalize_raw_public_key_base64 p k.public_key_base64 ≡ r
      → normalize_stored_key p k ≡ ok key
      → (base64 : Text) × IsNormalized k key base64
  unfolding normalize_stored_key
  IsNormalized-of (raised e) k key n h = ground arith
  IsNormalized-of (ok base64) k key n h =
      let print = fingerprint_command_public_key p (p.decode base64) in
      let same_print : print ≡ k.fingerprint = ground (arith, same_iff print k.fingerprint) in
      (base64, (n, same_print, ground arith))

  pub normalize_stored_key-IsNormalized :
      (k key : Key)
      → normalize_stored_key p k ≡ ok key
      → (base64 : Text) × IsNormalized k key base64
  normalize_stored_key-IsNormalized k key h = IsNormalized-of _ k key refl h

module _ (p : Platform) (encoded : (b : List ℕ) → length b ≡ 32 → IsEncoded p b) where
  pub normalize_raw-normal :
      (v base64 : Text)
      → normalize_raw_public_key_base64 p v ≡ ok base64
      → normalize_raw_public_key_base64 p base64 ≡ ok base64
  unfolding normalize_raw_public_key_base64
  normalize_raw-normal v base64 h =
      ground (arith, encoded (p.decode (trim v)), trim-base64 (p.encode (p.decode (trim v))))

  pub normalize_stored_key-normal :
      (k key : Key)
      → is_fingerprint k.fingerprint ≡ true
      → normalize_stored_key p k ≡ ok key
      → normalize_stored_key p key ≡ ok key
  unfolding normalize_stored_key
  normalize_stored_key-normal k key f h =
      let (base64, (raw, print, e)) = normalize_stored_key-IsNormalized p k key h in
      let again = normalize_raw-normal k.public_key_base64 base64 raw in
      rw (e, again, print, same_refl k.fingerprint)
        (ap ok (normal_key-normal base64 k.fingerprint k f))
