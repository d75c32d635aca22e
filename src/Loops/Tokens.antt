-- ===== src/Loops/Tokens.antt =====
-- `LoopTokenStore` (apps/desktop/src/main/loop-token-store.ts), and `parseJwtExpiry` of jwt-utils.ts.
-- The encryption of the system, JSON's text form and base64 are the record `Platform`.
use closedloop_electron.Base.{
  ℕ, ◌≡◌, refl, same, lookup-insert, arith, Bool, true, false, Option, none, some, List, [], ◌∷◌,
  map, Text, text, trim, is_empty, lookup, insert, delete, if◌then◌else◌, ◌==◌,
}
use closedloop_electron.Json.{ℤ, Json, int, float, str, obj, Fields, end, field, get}

-- A number: a safe integer, or another one by its printed text.
pub data Number : Type 0 where
  whole : ℤ → Number
  other : Text → Number

-- `LoopTokenMeta`. A field that the file holds at another type than the interface declares is read
-- as absent.
pub record LoopTokenMeta : Type 0 where
  pub token : Text
  pub expires_at : Option Number
  pub jti : Option Text
  pub last_idempotency_key : Option Text

pub record Platform : Type 0 where
  -- `safeStorage.isEncryptionAvailable()`
  pub available : Bool
  -- `encryptString` and its base64; `decryptString` of base64, `none` if it throws
  pub encrypt : Text → Text
  pub decrypt : Text → Option Text
  -- `JSON.stringify` of an object of this store; `JSON.parse`, `none` if it throws
  pub stringify : Json → Text
  pub parse : Text → Option Json
  -- `Buffer.from(base64, "base64").toString("utf8")`
  pub decode : Text → Text
  -- the product of a number with 1000
  pub thousandfold : Number → Number
  -- `encodeURIComponent`, and the decimal digits of a number
  pub encode_uri : Text → Text
  pub show : ℕ → Text

-- `encryptedLoopTokens`
abbrev pub Disk : Type 0
Disk = List (Text × Text)

abbrev pub number_json : Number → Json
number_json (whole n) = int n
number_json (other s) = float s

abbrev pub number_field : Text → Option Number → Fields → Fields
number_field k none fs = fs
number_field k (some n) fs = field k (number_json n) fs

abbrev pub text_field : Text → Option Text → Fields → Fields
text_field k none fs = fs
text_field k (some s) fs = field k (str s) fs

-- The object that `JSON.stringify(meta)` prints: a field that is undefined is left out.
unfoldable pub meta_json : LoopTokenMeta → Json
meta_json m = obj (
    field (text "token") (str m.token) (
      number_field (text "expiresAt") m.expires_at (
        text_field (text "jti") m.jti
          (text_field (text "lastIdempotencyKey") m.last_idempotency_key end))))

abbrev pub as_number : Json → Option Number
as_number (int n) = some (whole n)
as_number (float s) = some (other s)
as_number _ = none

abbrev pub as_string : Json → Option Text
as_string (str s) = some s
as_string _ = none

-- The value that `getLoopToken` casts to `LoopTokenMeta`.
unfoldable pub read_meta : Json → Option LoopTokenMeta
read_meta (obj fs) = elim (as_string (get (text "token") fs)) [
  | none ↦ none
  | some token ↦ some record {
    token = token;
    expires_at = as_number (get (text "expiresAt") fs);
    jti = as_string (get (text "jti") fs);
    last_idempotency_key = as_string (get (text "lastIdempotencyKey") fs);
  }
]
read_meta _ = none

module _ (p : Platform) where
  -- `none`: it throws.
  unfoldable pub set_loop_token : Text → LoopTokenMeta → Disk → Option Disk
  set_loop_token loop m disk =
      if p.available then some (insert loop (p.encrypt (p.stringify (meta_json m))) disk) else none

  unfoldable pub parse_meta : Text → Option LoopTokenMeta
  unfolding read_meta
  parse_meta trimmed =
      if is_empty trimmed
      then none
      else elim (p.parse trimmed) [ none ↦ none | some v ↦ read_meta v ]

  unfoldable pub open_meta : Text → Option LoopTokenMeta
  unfolding parse_meta
  open_meta encrypted =
      if is_empty encrypted
      then none
      else if p.available
      then elim (p.decrypt encrypted) [ none ↦ none | some s ↦ parse_meta (trim s) ]
      else none

  unfoldable pub get_loop_token : Text → Disk → Option LoopTokenMeta
  unfolding open_meta
  get_loop_token loop disk = elim (lookup loop disk) [ none ↦ none | some e ↦ open_meta e ]

  unfoldable pub get_loop_token_string : Text → Disk → Option Text
  unfolding get_loop_token
  get_loop_token_string loop disk = elim (get_loop_token loop disk) [
    | none ↦ none
    | some m ↦ some m.token
  ]

unfoldable pub delete_loop_token : Text → Disk → Disk
delete_loop_token loop disk = delete loop disk

-- Ids that are no array indices keep the order of their insertion.
unfoldable pub list_loop_ids : Disk → List Text
list_loop_ids disk = map (λ e. e.0) disk

abbrev add_unit : ℕ → List Text → List Text
add_unit c [] = (c ∷ []) ∷ []
add_unit c (part ∷ parts) = (c ∷ part) ∷ parts

-- `s.split(c)`, of one code unit.
unfoldable pub split_at : ℕ → Text → List Text
split_at sep [] = [] ∷ []
split_at sep (c ∷ s) = let rest = split_at sep s in if c == sep then [] ∷ rest else add_unit c rest

abbrev from_url_unit : ℕ → ℕ
from_url_unit c = if c == b'-' then b'+' else if c == b'_' then b'/' else c

abbrev exp_of : Option Json → Option Number
exp_of (some (obj fs)) = as_number (get (text "exp") fs)
exp_of _ = none

abbrev jwt_payload : List Text → Option Text
jwt_payload (header ∷ payload ∷ signature ∷ []) = some payload
jwt_payload _ = none

unfoldable pub parse_jwt_expiry : Platform → Text → Option Number
unfolding split_at
parse_jwt_expiry p token = elim (jwt_payload (split_at b'.' token)) [
  | none ↦ none
  | some payload ↦ exp_of (p.parse (p.decode (map from_url_unit payload)))
]

-- What a round trip needs of the platform: an encryption that is there and is undone by the
-- decryption, and JSON that is read back as it was printed, with no white space at its ends.
abbrev pub IsFaithful : Platform → LoopTokenMeta → Type 0
IsFaithful p m =
    (p.available ≡ true)
    × (is_empty (p.encrypt (p.stringify (meta_json m))) ≡ false)
    × (p.decrypt (p.encrypt (p.stringify (meta_json m))) ≡ some (p.stringify (meta_json m)))
    × (trim (p.stringify (meta_json m)) ≡ p.stringify (meta_json m))
    × (is_empty (p.stringify (meta_json m)) ≡ false)
    × (p.parse (p.stringify (meta_json m)) ≡ some (meta_json m))

read_meta-number :
    (t : Text) (e : Option Number) (j k : Option Text)
    → let m : LoopTokenMeta = record {
      token = t;
      expires_at = e;
      jti = j;
      last_idempotency_key = k;
    } in
      read_meta (meta_json m) ≡ some m
unfolding read_meta meta_json get same
read_meta-number t none none none = refl
read_meta-number t none none (some k) = refl
read_meta-number t none (some j) none = refl
read_meta-number t none (some j) (some k) = refl
read_meta-number t (some (whole n)) none none = refl
read_meta-number t (some (whole n)) none (some k) = refl
read_meta-number t (some (whole n)) (some j) none = refl
read_meta-number t (some (whole n)) (some j) (some k) = refl
read_meta-number t (some (other n)) none none = refl
read_meta-number t (some (other n)) none (some k) = refl
read_meta-number t (some (other n)) (some j) none = refl
read_meta-number t (some (other n)) (some j) (some k) = refl

pub read_meta-meta_json : (m : LoopTokenMeta) → read_meta (meta_json m) ≡ some m
read_meta-meta_json m = read_meta-number m.token m.expires_at m.jti m.last_idempotency_key

pub get_loop_token-set :
    (p : Platform) (loop l : Text) (m : LoopTokenMeta) (disk after : Disk)
    → IsFaithful p m
    → set_loop_token p loop m disk ≡ some after
    → get_loop_token p l after ≡ (if same loop l then some m else get_loop_token p l disk)
unfolding get_loop_token set_loop_token open_meta parse_meta
get_loop_token-set p loop l m disk after h e = ground (
  arith,
  lookup-insert loop l (p.encrypt (p.stringify (meta_json m))) disk,
  read_meta-meta_json m,
)
