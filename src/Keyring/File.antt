-- ===== src/Keyring/File.antt =====
-- The file of authorized-command-key-store.ts: what is written, and what is read back.
use closedloop_electron.Base.{
  Bool, true, false, ◌&&◌, ◌||◌, Option, none, some, List, [], ◌∷◌, ◌++◌, Text, text, same,
  if◌then◌else◌, ◌==◌,
}
use closedloop_electron.Json.{
  pos, Json, undefined, int, str, arr, obj, Items, nil, cons, Fields, end, field, get,
}
use closedloop_electron.Loops.Tokens.{text_field}
use closedloop_electron.Keyring.Formats.{
  Platform, Source, org, manual, unknown, Key, Result, ok, raised, is_fingerprint,
  normalize_stored_keys,
}

infixl 5 ◌>>=◌
abbrev ◌>>=◌ {ℓ κ} : {A : Type ℓ} {B : Type κ} → Option A → (A → Option B) → Option B
none >>= k = none
some a >>= k = k a

-- `normalizeStoredKeySource`
unfoldable pub normalize_stored_key_source : Json → Source
normalize_stored_key_source (str s) =
    if same s (text "org") then org else if same s (text "manual") then manual else unknown
normalize_stored_key_source _ = unknown

abbrev pub as_string : Json → Option Text
as_string (str s) = some s
as_string _ = none

-- A field that is absent or a string.
abbrev is_optional_string : Json → Bool
is_optional_string undefined = true
is_optional_string (str s) = true
is_optional_string _ = false

abbrev has_stored_fields : Fields → Bool
has_stored_fields fs =
    is_optional_string (get (text "ownerEmail") fs)
    && is_optional_string (get (text "source") fs)
    && is_optional_string (get (text "sourceUserPublicKeyId") fs)

-- `isStoredKey`, with the key that it lets through.
unfoldable pub read_stored_key : Json → Option Key
unfolding is_fingerprint normalize_stored_key_source
read_stored_key (obj fs) = do
  fingerprint ← as_string (get (text "fingerprint") fs)
  public_key_base64 ← as_string (get (text "publicKeyBase64") fs)
  owner_name ← as_string (get (text "ownerName") fs)
  authorized_at ← as_string (get (text "authorizedAt") fs)
  if is_fingerprint fingerprint && has_stored_fields fs
      then some record {
        fingerprint = fingerprint;
        public_key_base64 = public_key_base64;
        owner_name = owner_name;
        owner_email = as_string (get (text "ownerEmail") fs);
        authorized_at = authorized_at;
        source = normalize_stored_key_source (get (text "source") fs);
        source_user_public_key_id = as_string (get (text "sourceUserPublicKeyId") fs);
      }
      else none
read_stored_key _ = none

abbrev pub source_text : Source → Text
source_text org = text "org"
source_text manual = text "manual"
source_text unknown = text "unknown"

abbrev pub key_json : Key → Json
key_json k = obj (
    field (text "fingerprint") (str k.fingerprint) (
      field (text "publicKeyBase64") (str k.public_key_base64) (
        field (text "ownerName") (str k.owner_name) (
          text_field (text "ownerEmail") k.owner_email (
            field (text "authorizedAt") (str k.authorized_at) (
              field (text "source") (str (source_text k.source))
                (text_field (text "sourceUserPublicKeyId") k.source_user_public_key_id end)))))))

abbrev pub keys_json : List Key → Items
keys_json [] = nil
keys_json (k ∷ ks) = cons (key_json k) (keys_json ks)

abbrev pub texts_json : List Text → Items
texts_json [] = nil
texts_json (t ∷ ts) = cons (str t) (texts_json ts)

-- The keys and the rejected fingerprints.
pub record Contents : Type 0 where
  pub keys : List Key
  pub rejected_fingerprints : List Text

-- `AuthorizedKeysFile`
unfoldable pub file_json : Contents → Json
file_json c = obj (
    field (text "version") (int (pos 1)) (
      field (text "keys") (arr (keys_json c.keys))
        (field (text "rejectedFingerprints") (arr (texts_json c.rejected_fingerprints)) end)))

-- `record.keys.every(isStoredKey)`
unfoldable pub read_stored_keys : Items → Option (List Key)
unfolding read_stored_key
read_stored_keys nil = some []
read_stored_keys (cons v vs) = do
  key ← read_stored_key v
  keys ← read_stored_keys vs
  some (key ∷ keys)

abbrev pub read_fingerprint : Json → Option Text
read_fingerprint (str s) = if is_fingerprint s then some s else none
read_fingerprint _ = none

unfoldable pub read_fingerprints : Items → Option (List Text)
unfolding is_fingerprint
read_fingerprints nil = some []
read_fingerprints (cons v vs) = do
  fingerprint ← read_fingerprint v
  fingerprints ← read_fingerprints vs
  some (fingerprint ∷ fingerprints)

abbrev pub read_rejected : Json → Option (List Text)
read_rejected undefined = some []
read_rejected (arr vs) = read_fingerprints vs
read_rejected _ = none

abbrev pub is_version_1 : Json → Bool
is_version_1 (int (pos n)) = n == 1
is_version_1 _ = false

abbrev pub read_keys : Json → Option (List Key)
read_keys (arr vs) = read_stored_keys vs
read_keys _ = none

-- `isAuthorizedKeysFile`, with the contents that it lets through.
unfoldable pub read_contents : Json → Option Contents
unfolding read_stored_keys read_fingerprints
read_contents (obj fs) =
    if is_version_1 (get (text "version") fs)
    then (do
      keys ← read_keys (get (text "keys") fs)
      rejected ← read_rejected (get (text "rejectedFingerprints") fs)
      some record { keys = keys; rejected_fingerprints = rejected })
    else none
read_contents _ = none

abbrev pub includes : Text → List Text → Bool
includes t [] = false
includes t (x ∷ xs) = same x t || includes t xs

-- `Array.from(new Set(texts))`, from the texts that are there already.
unfoldable pub unique_after : List Text → List Text → List Text
unique_after seen [] = []
unique_after seen (t ∷ ts) =
    let rest = unique_after (t ∷ seen) ts in if includes t seen then rest else t ∷ rest

abbrev pub unique : List Text → List Text
unique ts = unique_after [] ts

abbrev pub empty_contents : Contents
empty_contents = record { keys = []; rejected_fingerprints = [] }

abbrev normalized : List Text → Result (List Key) → Contents
normalized rejected (ok keys) = record { keys = keys; rejected_fingerprints = unique rejected }
normalized rejected (raised e) = empty_contents

module _ (p : Platform) where
  -- The text of the file, or nothing if there is none.
  abbrev pub parsed : Option Text → Option Contents
  parsed none = none
  parsed (some disk) = elim (p.parse disk) [ none ↦ none | some v ↦ read_contents v ]

  -- `readFile`
  unfoldable pub read_file : Option Text → Contents
  unfolding read_contents unique_after normalize_stored_keys
  read_file disk = elim (parsed disk) [
    | none ↦ empty_contents
    | some c ↦ normalized c.rejected_fingerprints (normalize_stored_keys p c.keys)
  ]

  -- `writeFile`: the text of the new file; a key that is not normal makes it throw.
  unfoldable pub write_file : Contents → Result Text
  unfolding normalize_stored_keys file_json unique_after
  write_file c = elim (normalize_stored_keys p c.keys) [
    | raised e ↦ raised e
    | ok keys ↦ ok (
        p.stringify (
          file_json
            (record { keys = keys; rejected_fingerprints = unique c.rejected_fingerprints }))
        ++ 10 ∷ [])
  ]
