-- ===== src/Signing/Verifier.antt =====
-- `verify` of command-signature-verifier.ts. The cryptography, JSON.parse and the order of locales are
-- the record `Platform`; the authorized keys are what the key store holds at the time of the call.
use closedloop_electron.Base.{
  ℕ, ◌+◌, Bool, true, false, ◌&&◌, ◌||◌, not, Option, none, some, List, [], ◌∷◌, ◌++◌, Text, text,
  same, to_upper, is_empty, lookup, insert, has, ltb, if◌then◌else◌,
}
use closedloop_electron.Json.{
  ℤ, pos, negsuc, Json, undefined, null, int, str, arr, obj, Items, nil, cons, get,
}
use closedloop_electron.Signing.Stringify.{
  QueryValue, canonical_query, query_json, stable_stringify, hash_command_body,
}

pub record Platform : Type 0 where
  pub parse : Text → Option Json
  pub quote : Text → Text
  pub print : ℤ → Text
  pub digest : Text → Text
  pub locale_lt : Text → Text → Bool
  -- A public key, a message and a signature; `none` if a function of node:crypto throws.
  pub check : Text → Text → Text → Option Bool

-- The fields of `DesktopCommandEvent` that the verifier reads.
pub record Signed : Type 0 where
  pub command_id : Text
  pub method : Text
  pub path : Text
  pub query : Option (List (Text × QueryValue))
  pub body : Json
  pub signature : Option Text
  pub signature_payload : Option Text
  pub public_key_fingerprint : Option Text

-- `SignaturePayload`
pub record Payload : Type 0 where
  pub command_id : Text
  pub method : Text
  pub path : Text
  pub query : Items
  pub body_hash : Text
  pub timestamp : ℤ
  pub nonce : Text

-- `COMMAND_SIGNING_REJECTION_REASONS`
pub data Reason : Type 0 where
  no_keys_authorized unsigned_command unknown_signing_key invalid_signature : Reason
  stale_or_replayed_command payload_mismatch : Reason

-- `CommandSignatureVerificationResult`
pub data Verdict : Type 0 where
  accepted : Verdict
  rejected : Reason → Verdict

-- `seenNonces`
abbrev pub Seen : Type 0
Seen = List (Text × ℤ)

abbrev pub max_signature_age_seconds : ℕ
max_signature_age_seconds = 45

abbrev pub max_signature_future_skew_seconds : ℕ
max_signature_future_skew_seconds = 5

-- `now - timestamp > MAX_SIGNATURE_AGE_SECONDS`, which is `timestamp < cutoff` also.
unfoldable pub is_stale : ℕ → ℤ → Bool
is_stale now (pos t) = ltb (t + max_signature_age_seconds) now
is_stale now (negsuc n) = ltb max_signature_age_seconds (now + (n + 1))

-- `timestamp - now > MAX_SIGNATURE_FUTURE_SKEW_SECONDS`
unfoldable pub is_early : ℕ → ℤ → Bool
is_early now (pos t) = ltb (now + max_signature_future_skew_seconds) t
is_early now (negsuc n) = false

unfoldable pub prune_seen_nonces : ℕ → Seen → Seen
prune_seen_nonces now [] = []
prune_seen_nonces now ((k, ts) ∷ m) =
    if is_stale now ts then prune_seen_nonces now m else (k, ts) ∷ prune_seen_nonces now m

is_pair : Json → Bool
is_pair (arr (cons (str k) (cons (str v) nil))) = true
is_pair _ = false

pub all_pairs : Items → Bool
unfolding is_pair
all_pairs nil = true
all_pairs (cons v items) = is_pair v && all_pairs items

abbrev pub as_string : Json → Option Text
as_string (str s) = some s
as_string _ = none

abbrev pub as_pairs : Json → Option Items
as_pairs (arr items) = if all_pairs items then some items else none
as_pairs _ = none

abbrev pub as_safe_integer : Json → Option ℤ
as_safe_integer (int z) = some z
as_safe_integer _ = none

infixl 5 ◌>>=◌
abbrev ◌>>=◌ {ℓ κ} : {A : Type ℓ} {B : Type κ} → Option A → (A → Option B) → Option B
none >>= f = none
some a >>= f = f a

-- `isSignaturePayload`, with the payload that it admits.
as_payload : Json → Option Payload
unfolding get all_pairs
as_payload (obj fs) = do
  command_id ← as_string (get (text "commandId") fs)
  method ← as_string (get (text "method") fs)
  path ← as_string (get (text "path") fs)
  query ← as_pairs (get (text "query") fs)
  body_hash ← as_string (get (text "bodyHash") fs)
  timestamp ← as_safe_integer (get (text "timestamp") fs)
  nonce ← as_string (get (text "nonce") fs)
  some (record {
    command_id = command_id;
    method = method;
    path = path;
    query = query;
    body_hash = body_hash;
    timestamp = timestamp;
    nonce = nonce;
  })
as_payload _ = none

-- An absent text, and an empty one, are falsy.
abbrev pub given : Option Text → Option Text
given none = none
given (some s) = if is_empty s then none else some s

-- `bodyOverride ?? command.body`, and `body ?? null` after it: both print as `null`.
abbrev pub coalesce : Json → Json → Json
coalesce undefined b = b
coalesce null b = b
coalesce a b = a

unfoldable pub matches_command : Platform → Signed → Json → Payload → Bool
matches_command q c override p =
    same p.command_id c.command_id
    && same p.method (to_upper c.method)
    && same p.path c.path
    && same (stable_stringify q.quote q.print (arr p.query))
        (stable_stringify q.quote q.print (arr (query_json (canonical_query q.locale_lt c.query))))
    && same p.body_hash (hash_command_body q.quote q.print q.digest (coalesce override c.body))

abbrev pub nonce_key : Text → Payload → Text
nonce_key fingerprint p = fingerprint ++ text ":" ++ p.nonce

-- The signature's own check, and what it writes.
unfoldable pub check_signature :
    Platform → Text → Text → Text → Text → Payload → Seen → Seen × Verdict
check_signature q fingerprint key payload_text signature p seen =
    elim (q.check key payload_text signature) [
      | none ↦ (seen, rejected invalid_signature)
      | some valid ↦
          if valid
          then (insert (nonce_key fingerprint p) p.timestamp seen, accepted)
          else (seen, rejected invalid_signature)
    ]

-- `verify` from the payload on.
unfoldable pub verify_payload :
    Platform → ℕ → Text → Text → Text → Text → Payload → Signed → Json → Seen → Seen × Verdict
unfolding prune_seen_nonces is_stale is_early matches_command check_signature
verify_payload q now fingerprint key payload_text signature p c override seen0 =
    let seen = prune_seen_nonces now seen0 in
    if is_stale now p.timestamp || is_early now p.timestamp
    then (seen, rejected stale_or_replayed_command)
    else if not (matches_command q c override p)
    then (seen, rejected payload_mismatch)
    else if has (nonce_key fingerprint p) seen
    then (seen, rejected stale_or_replayed_command)
    else check_signature q fingerprint key payload_text signature p seen

-- The payload of a text, if it is one.
pub read_payload : Platform → Text → Option Payload
unfolding as_payload
read_payload q payload_text = elim (q.parse payload_text) [
  | none ↦ none
  | some value ↦ as_payload value
]

unfoldable pub verify_signed :
    Platform → ℕ → Text → Text → Text → Text → Signed → Json → Seen → Seen × Verdict
unfolding read_payload verify_payload
verify_signed q now fingerprint key payload_text signature c override seen =
    elim (read_payload q payload_text) [
      | none ↦ (seen, rejected invalid_signature)
      | some p ↦ verify_payload q now fingerprint key payload_text signature p c override seen
    ]

-- The signature, the payload and the fingerprint of a command that has all three.
abbrev pub signed_parts : Signed → Option (Text × Text × Text)
signed_parts c = do
  signature ← given c.signature
  payload_text ← given c.signature_payload
  fingerprint ← given c.public_key_fingerprint
  some (signature, payload_text, fingerprint)

-- `keys` are the fingerprints and the public keys of the key store.
unfoldable pub verify : Platform → List (Text × Text) → ℕ → Signed → Json → Seen → Seen × Verdict
unfolding verify_signed
verify q [] now c override seen = (seen, rejected no_keys_authorized)
verify q (k ∷ keys) now c override seen = elim (signed_parts c) [
  | none ↦ (seen, rejected unsigned_command)
  | some (signature, payload_text, fingerprint) ↦ elim (lookup fingerprint (k ∷ keys)) [
    | none ↦ (seen, rejected unknown_signing_key)
    | some key ↦ verify_signed q now fingerprint key payload_text signature c override seen
  ]
]
