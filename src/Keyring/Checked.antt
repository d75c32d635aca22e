-- ===== src/Keyring/Checked.antt =====
-- What the checks of authorized-command-key-store.ts let through when the file is read.
use closedloop_electron.Base.{
  ◌≡◌, subst, inl, inr, true, Option, none, some, List, ◌∷◌, Text, text, All, arith, Option-cases,
}
use closedloop_electron.Json.{
  Json, undefined, null, bool, int, float, str, arr, obj, Items, nil, cons, get,
}
use closedloop_electron.Keyring.Formats.{Platform, Key, is_fingerprint}
use closedloop_electron.Keyring.File.{
  read_stored_key, Contents, read_stored_keys, read_fingerprint, read_fingerprints, read_keys,
  read_rejected, parsed, read_contents,
}
use closedloop_electron.Keyring.RoundTrip.{IsValid}

read_stored_key-IsValid : (v : Json) (k : Key) → read_stored_key v ≡ some k → IsValid k
unfolding read_stored_key
read_stored_key-IsValid (obj fs) k h = ground arith
read_stored_key-IsValid undefined k h = cc
read_stored_key-IsValid null k h = cc
read_stored_key-IsValid (bool b) k h = cc
read_stored_key-IsValid (int n) k h = cc
read_stored_key-IsValid (float t) k h = cc
read_stored_key-IsValid (str t) k h = cc
read_stored_key-IsValid (arr vs) k h = cc

read_stored_keys-IsValid :
    (vs : Items) (ks : List Key) → read_stored_keys vs ≡ some ks → All IsValid ks
unfolding read_stored_keys
read_stored_keys-IsValid nil ks h = ground arith
read_stored_keys-IsValid (cons v vs) ks h = elim (Option-cases (read_stored_key v)) [
  | inl e ↦ ground arith
  | inr (k, e) ↦ elim (Option-cases (read_stored_keys vs)) [
    | inl f ↦ ground arith
    | inr (rest, f) ↦
        let same_list : k ∷ rest ≡ ks = ground arith in
        subst (All IsValid) same_list
          (read_stored_key-IsValid v k e, read_stored_keys-IsValid vs rest f)
  ]
]

read_fingerprint-valid :
    (v : Json) (t : Text) → read_fingerprint v ≡ some t → is_fingerprint t ≡ true
read_fingerprint-valid (str t) u h = ground arith
read_fingerprint-valid (obj fs) k h = cc
read_fingerprint-valid undefined k h = cc
read_fingerprint-valid null k h = cc
read_fingerprint-valid (bool b) k h = cc
read_fingerprint-valid (int n) k h = cc
read_fingerprint-valid (float t) k h = cc
read_fingerprint-valid (arr vs) k h = cc

read_fingerprints-valid :
    (vs : Items) (ts : List Text)
    → read_fingerprints vs ≡ some ts
    → All (λ t. is_fingerprint t ≡ true) ts
unfolding read_fingerprints
read_fingerprints-valid nil ts h = ground arith
read_fingerprints-valid (cons v vs) ts h = elim (Option-cases (read_fingerprint v)) [
  | inl e ↦ ground arith
  | inr (t, e) ↦ elim (Option-cases (read_fingerprints vs)) [
    | inl f ↦ ground arith
    | inr (rest, f) ↦
        let same_list : t ∷ rest ≡ ts = ground arith in
        subst (All (λ t. is_fingerprint t ≡ true)) same_list
          (read_fingerprint-valid v t e, read_fingerprints-valid vs rest f)
  ]
]

-- What may stand in the file: only valid fingerprints.
abbrev pub IsChecked : Contents → Type 0
IsChecked c = All IsValid c.keys × All (λ t. is_fingerprint t ≡ true) c.rejected_fingerprints

read_keys-IsValid : (v : Json) (ks : List Key) → read_keys v ≡ some ks → All IsValid ks
read_keys-IsValid (arr vs) ks h = read_stored_keys-IsValid vs ks h
read_keys-IsValid (obj fs) k h = cc
read_keys-IsValid undefined k h = cc
read_keys-IsValid null k h = cc
read_keys-IsValid (bool b) k h = cc
read_keys-IsValid (int n) k h = cc
read_keys-IsValid (float t) k h = cc
read_keys-IsValid (str t) k h = cc

read_rejected-valid :
    (v : Json) (ts : List Text) → read_rejected v ≡ some ts → All (λ t. is_fingerprint t ≡ true) ts
read_rejected-valid undefined ts h = ground arith
read_rejected-valid (arr vs) ts h = read_fingerprints-valid vs ts h
read_rejected-valid (obj fs) k h = cc
read_rejected-valid null k h = cc
read_rejected-valid (bool b) k h = cc
read_rejected-valid (int n) k h = cc
read_rejected-valid (float t) k h = cc
read_rejected-valid (str t) k h = cc

read_contents-IsChecked : (v : Json) (c : Contents) → read_contents v ≡ some c → IsChecked c
unfolding read_contents
read_contents-IsChecked (obj fs) c h = elim (Option-cases (read_keys (get (text "keys") fs))) [
  | inl e ↦ ground arith
  | inr (ks, e) ↦ elim (Option-cases (read_rejected (get (text "rejectedFingerprints") fs))) [
    | inl f ↦ ground arith
    | inr (ts, f) ↦
        let same_contents : record { keys = ks; rejected_fingerprints = ts } ≡ c = ground arith in
        subst IsChecked same_contents (
          read_keys-IsValid (get (text "keys") fs) ks e,
          read_rejected-valid (get (text "rejectedFingerprints") fs) ts f,
        )
  ]
]
read_contents-IsChecked undefined k h = cc
read_contents-IsChecked null k h = cc
read_contents-IsChecked (bool b) k h = cc
read_contents-IsChecked (int n) k h = cc
read_contents-IsChecked (float t) k h = cc
read_contents-IsChecked (str t) k h = cc
read_contents-IsChecked (arr vs) k h = cc

module _ (p : Platform) where
  pub parsed-IsChecked : (disk : Option Text) (c : Contents) → parsed p disk ≡ some c → IsChecked c
  parsed-IsChecked none c h = cc
  parsed-IsChecked (some text) c h = elim (Option-cases (p.parse text)) [
    | inl e ↦ ground arith
    | inr (v, e) ↦ ground (arith, read_contents-IsChecked v c)
  ]
