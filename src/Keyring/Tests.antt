-- ===== src/Keyring/Tests.antt =====
-- Runs of the key store, with a base64 that writes each byte as so many letters.
use closedloop_electron.Base.{
  ℕ, zero, suc, ◌≡◌, refl, ap, ◌∙◌, true, false, Option, none, some, List, [], ◌∷◌, ◌++◌, Text,
  text, same, length, trim, trim_start, is_space, starts_with, All, ◌==◌, lookup, if◌then◌else◌,
  arith,
}
use closedloop_electron.Json.{Json, get}
use closedloop_electron.Keyring.Formats.{
  Platform, org, Key, ok, skip_base64, is_base64, is_fingerprint, fingerprint_command_public_key,
  normalize_raw_public_key_base64, normalize_stored_key, normalize_stored_keys,
}
use closedloop_electron.Keyring.File.{
  Contents, empty_contents, file_json, includes, read_stored_key, read_stored_keys,
  read_fingerprints, read_contents, normalize_stored_key_source, unique_after, read_file,
  write_file,
}
use closedloop_electron.Keyring.Store.{
  Input, find_key, get_key, register_all, reconcile_keys, Reconciliation,
  normalize_public_key_input, new_key, authorize, reconcile_organization_keys,
}
use closedloop_electron.Keyring.Normal.{IsEncoded}
use closedloop_electron.Keyring.Genuine.{IsGenuine, read_file-IsGenuine}
use closedloop_electron.Keyring.Authorize.{get_key-authorize}
use closedloop_electron.Keyring.Reconcile.{IsDistinct}
use closedloop_electron.Keyring.Outcome.{Outcome, registration, get_key-reconcile}
use closedloop_electron.Keyring.Distinct.{authorized, Change-IsDistinct}

letters : ℕ → Text → Text
letters zero s = s
letters (suc n) s = b'A' ∷ letters n s

encode : List ℕ → Text
unfolding letters
encode [] = []
encode (n ∷ b) = letters n (b'/' ∷ encode b)

abbrev bump : List ℕ → List ℕ
bump [] = []
bump (n ∷ b) = suc n ∷ b

decode : Text → List ℕ
decode [] = []
decode (c ∷ s) = let rest = decode s in if c == b'/' then 0 ∷ rest else bump rest

decode-letters : (n : ℕ) (s : Text) → decode (letters n (b'/' ∷ s)) ≡ n ∷ decode s
unfolding decode letters
decode-letters zero s = refl
decode-letters (suc n) s = ap bump (decode-letters n s)

decode-encode : (b : List ℕ) → decode (encode b) ≡ b
unfolding encode decode
decode-encode [] = refl
decode-encode (n ∷ b) = decode-letters n (encode b) ∙ ap (λ (r : List ℕ). n ∷ r) (decode-encode b)

skip_base64-letters : (n : ℕ) (s : Text) → skip_base64 (letters n s) ≡ skip_base64 s
unfolding skip_base64 letters
skip_base64-letters zero s = refl
skip_base64-letters (suc n) s = skip_base64-letters n s

skip_base64-encode : (b : List ℕ) → skip_base64 (encode b) ≡ []
unfolding encode skip_base64
skip_base64-encode [] = refl
skip_base64-encode (n ∷ b) = skip_base64-letters n (b'/' ∷ encode b) ∙ skip_base64-encode b

is_base64-letters :
    (n : ℕ) (s : Text) → skip_base64 s ≡ [] → is_base64 (letters n (b'/' ∷ s)) ≡ true
unfolding is_base64 letters skip_base64
is_base64-letters zero s h = rw h refl
is_base64-letters (suc n) s h = rw (skip_base64-letters n (b'/' ∷ s)) (rw h refl)

abbrev platform : (Text → Option Json) → Platform
platform parse = record {
  decode = decode;
  encode = encode;
  digest = λ _. text "aaaaaaaaaaaaaaaaaaaaaa";
  parse = parse;
  stringify = λ _. text "{}";
  locale_lt = λ _ _. false;
}

platform-IsEncoded :
    (parse : Text → Option Json) (b : List ℕ) → length b ≡ 32 → IsEncoded (platform parse) b
unfolding encode
platform-IsEncoded parse [] h = absurd (omega arith)
platform-IsEncoded parse (n ∷ b) h =
    (is_base64-letters n (encode b) (skip_base64-encode b), decode-encode (n ∷ b))

platform-digested :
    (parse : Text → Option Json) (b : List ℕ)
    → is_fingerprint (fingerprint_command_public_key (platform parse) b) ≡ true
unfolding is_fingerprint fingerprint_command_public_key starts_with
platform-digested parse b = refl

abbrev print : Text
print = text "cl:aaaaaaaaaaaaaaaaaaaaaa"

abbrev base64 : Text
base64 = text "////////////////////////////////"

abbrev key : Key
key = record {
  fingerprint = print;
  public_key_base64 = base64;
  owner_name = text "Ada";
  owner_email = none;
  authorized_at = text "today";
  source = org;
  source_user_public_key_id = none;
}

abbrev one_key : Contents
one_key = record { keys = key ∷ []; rejected_fingerprints = [] }

-- The file `a` has the key, and every other one has none.
abbrev store : Platform
store = platform λ t. some (file_json (if same t (text "a") then one_key else empty_contents))

abbrev growing : Platform
growing = platform λ t. some (file_json one_key)

abbrev input : Input
input = record {
  public_key_base64 = text " //////////////////////////////// ";
  owner_name = some (text "Ada");
  owner_email = none;
  fingerprint = none;
  source = some org;
  source_user_public_key_id = none;
}

growing-authorize : authorize growing (text "today") input none ≡ ok (key, text "{}" ++ 10 ∷ [])
unfolding read_file read_contents read_stored_keys read_stored_key read_fingerprints file_json
    normalize_stored_keys normalize_stored_key normalize_raw_public_key_base64 is_base64 skip_base64
    decode encode letters is_fingerprint fingerprint_command_public_key starts_with trim trim_start
    is_space same get unique_after normalize_stored_key_source authorize normalize_public_key_input
    new_key find_key write_file
growing-authorize = refl

get_key-authorize_example :
    (get_key growing print (some (text "{}" ++ 10 ∷ []))
      ≡ (if same print print then some key else get_key growing print none))
    × (includes print (read_file growing (some (text "{}" ++ 10 ∷ []))).rejected_fingerprints
        ≡ false)
unfolding read_file unique_after
get_key-authorize_example =
    get_key-authorize growing (platform-IsEncoded growing.parse) (platform-digested growing.parse)
      (text "today") input none key (text "{}" ++ 10 ∷ []) print growing-authorize refl

Change-IsDistinct_example : IsDistinct (read_file growing (some (text "{}" ++ 10 ∷ []))).keys
unfolding read_file unique_after
Change-IsDistinct_example =
    Change-IsDistinct growing (platform-IsEncoded growing.parse) (platform-digested growing.parse)
      none (some (text "{}" ++ 10 ∷ [])) (authorized (text "today") input growing-authorize refl) tt

read_file-IsGenuine_example : All (IsGenuine store) (read_file store (some (text "a"))).keys
read_file-IsGenuine_example = read_file-IsGenuine store (some (text "a"))

store-IsDistinct : IsDistinct (read_file store (some (text "a"))).keys
unfolding read_file read_contents read_stored_keys read_stored_key read_fingerprints file_json
    normalize_stored_keys normalize_stored_key normalize_raw_public_key_base64 is_base64 skip_base64
    decode encode letters is_fingerprint fingerprint_command_public_key starts_with trim trim_start
    is_space same get unique_after normalize_stored_key_source find_key
store-IsDistinct = (refl, tt)

abbrev gone : Reconciliation
gone = record { removed = key ∷ []; promoted = [] }

store-reconcile :
    reconcile_organization_keys store [] true (some (text "a"))
    ≡ ok (gone, some (text "{}" ++ 10 ∷ []))
unfolding read_file read_contents read_stored_keys read_stored_key read_fingerprints file_json
    normalize_stored_keys normalize_stored_key normalize_raw_public_key_base64 is_base64 skip_base64
    decode encode letters is_fingerprint fingerprint_command_public_key starts_with trim trim_start
    is_space same get unique_after normalize_stored_key_source reconcile_organization_keys
    register_all reconcile_keys write_file lookup
store-reconcile = refl

get_key-reconcile_example :
    Outcome true
      (registration print [])
      (get_key store print (some (text "a")))
      (get_key store print (some (text "{}" ++ 10 ∷ [])))
unfolding read_file read_contents read_stored_keys read_stored_key read_fingerprints file_json
    normalize_stored_keys normalize_stored_key normalize_raw_public_key_base64 is_base64 skip_base64
    decode encode letters is_fingerprint fingerprint_command_public_key starts_with trim trim_start
    is_space same get unique_after normalize_stored_key_source reconcile_keys lookup register_all
get_key-reconcile_example =
    get_key-reconcile store (platform-IsEncoded store.parse) [] true (some (text "a"))
      (some (text "{}" ++ 10 ∷ [])) gone print store-IsDistinct refl store-reconcile
