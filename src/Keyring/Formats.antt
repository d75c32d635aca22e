-- ===== src/Keyring/Formats.antt =====
-- The formats of authorized-command-key-store.ts: public keys, fingerprints, stored keys. Base64, the
-- hash and JSON's text form are the record `Platform`; bytes are numbers.
use closedloop_electron.Base.{
  ℕ, Bool, true, false, ◌&&◌, ◌||◌, Option, none, some, List, [], ◌∷◌, ◌++◌, Text, text, same,
  starts_with, trim, is_empty, length, take, drop, leb, or_else, ◌==◌, if◌then◌else◌,
}
use closedloop_electron.Json.{Json, str}

pub record Platform : Type 0 where
  -- `Buffer.from(s, "base64")`, and a buffer's base64
  pub decode : Text → List ℕ
  pub encode : List ℕ → Text
  -- the SHA-256 of bytes, in base64url
  pub digest : List ℕ → Text
  -- `JSON.parse`, `none` if it throws; `JSON.stringify(v, null, 2)`
  pub parse : Text → Option Json
  pub stringify : Json → Text
  pub locale_lt : Text → Text → Bool

-- `AuthorizedCommandKeySource`
pub data Source : Type 0 where
  org manual unknown : Source

-- `AuthorizedCommandKey`
pub record Key : Type 0 where
  pub fingerprint : Text
  pub public_key_base64 : Text
  pub owner_name : Text
  pub owner_email : Option Text
  pub authorized_at : Text
  pub source : Source
  pub source_user_public_key_id : Option Text

-- What the store throws.
pub data KeyError : Type 0 where
  invalid_base64 unsupported_length fingerprint_mismatch stored_mismatch : KeyError
  duplicate_key invalid_fingerprint : KeyError

pub data Result {ℓ} (A : Type ℓ) : Type ℓ where
  ok : A → Result A
  raised : KeyError → Result A

infixl 5 ◌>>=◌
abbrev pub ◌>>=◌ {ℓ} : {A B : Type ℓ} → Result A → (A → Result B) → Result B
ok a >>= k = k a
raised e >>= k = raised e

abbrev pub is_letter_or_digit : ℕ → Bool
is_letter_or_digit c =
    (leb b'A' c && leb c b'Z') || (leb b'a' c && leb c b'z') || (leb b'0' c && leb c b'9')

abbrev pub all_units : (ℕ → Bool) → Text → Bool
all_units p [] = true
all_units p (c ∷ s) = p c && all_units p s

abbrev pub is_base64_unit : ℕ → Bool
is_base64_unit c = is_letter_or_digit c || (c == b'+') || (c == b'/')

abbrev pub is_padding : Text → Bool
is_padding [] = true
is_padding (c ∷ []) = c == b'='
is_padding (c ∷ d ∷ []) = (c == b'=') && (d == b'=')
is_padding _ = false

unfoldable pub skip_base64 : Text → Text
skip_base64 [] = []
skip_base64 (c ∷ s) = let rest = skip_base64 s in if is_base64_unit c then rest else c ∷ s

-- `PUBLIC_KEY_BASE64_PATTERN`
unfoldable pub is_base64 : Text → Bool
unfolding skip_base64
is_base64 [] = false
is_base64 (c ∷ s) = is_base64_unit c && is_padding (skip_base64 s)

-- `FINGERPRINT_PATTERN`
unfoldable pub is_fingerprint : Text → Bool
is_fingerprint s =
    starts_with s (text "cl:")
    && leb 16 (length (drop 3 s))
    && leb (length (drop 3 s)) 64
    && all_units (λ c. is_letter_or_digit c || (c == b'_') || (c == b'-')) (drop 3 s)

-- `s?.trim() || undefined`
abbrev pub trimmed : Option Text → Option Text
trimmed none = none
trimmed (some s) = if is_empty (trim s) then none else some (trim s)

-- `normalizeCommandKeyFingerprint`
unfoldable pub normalize_command_key_fingerprint : Json → Option Text
normalize_command_key_fingerprint (str s) = if is_fingerprint (trim s) then some (trim s) else none
normalize_command_key_fingerprint _ = none

-- `normalizeOptionalString`
abbrev pub normalize_optional_string : Json → Option Text
normalize_optional_string (str s) = trimmed (some s)
normalize_optional_string _ = none

-- The key with its public key and its fingerprint computed again.
abbrev pub normal_key : Text → Text → Key → Key
normal_key base64 print k = record {
  fingerprint = print;
  public_key_base64 = base64;
  owner_name = or_else (trimmed (some k.owner_name)) print;
  owner_email = trimmed k.owner_email;
  authorized_at = k.authorized_at;
  source = k.source;
  source_user_public_key_id = trimmed k.source_user_public_key_id;
}

module _ (p : Platform) where
  -- `fingerprintCommandPublicKey`
  unfoldable pub fingerprint_command_public_key : List ℕ → Text
  fingerprint_command_public_key bytes = text "cl:" ++ take 22 (p.digest bytes)

  -- `normalizeRawPublicKeyBase64`
  unfoldable pub normalize_raw_public_key_base64 : Text → Result Text
  normalize_raw_public_key_base64 value =
      if is_base64 (trim value)
      then (if length (p.decode (trim value)) == 32
          then ok (p.encode (p.decode (trim value)))
          else raised unsupported_length)
      else raised invalid_base64

  -- `normalizeStoredKey`, of a key whose source is normalized.
  unfoldable pub normalize_stored_key : Key → Result Key
  unfolding normalize_raw_public_key_base64
  normalize_stored_key k = do
    base64 ← normalize_raw_public_key_base64 k.public_key_base64
    let print = fingerprint_command_public_key (p.decode base64)
    if same print k.fingerprint then ok (normal_key base64 print k) else raised stored_mismatch

  -- `keys.map(normalizeStoredKey)`
  unfoldable pub normalize_stored_keys : List Key → Result (List Key)
  unfolding normalize_stored_key
  normalize_stored_keys [] = ok []
  normalize_stored_keys (k ∷ ks) = do
    key ← normalize_stored_key k
    keys ← normalize_stored_keys ks
    ok (key ∷ keys)
