-- ===== src/Loops/Refresh.antt =====
-- `refreshLoopToken` and `withTokenRefreshRetry` (apps/desktop/src/main/loop-refresh.ts). An action
-- reads and writes the token store and the gate of the 404s; a rejected promise has no result. The
-- server is a parameter: it answers each request, and says what else happens to the store and the
-- gate until the answer is there.
use closedloop_electron.Base.{
  ℕ, suc, Bool, false, ◌&&◌, Option, none, some, List, [], ◌∷◌, ◌++◌, Text, text, same, is_empty,
  or_else, leb, ◌==◌, if◌then◌else◌, Effect, ◌>>=◌, pure,
}
use closedloop_electron.Json.{Json, get, as_record}
use closedloop_electron.Heartbeat.Gate.{Gate, is_endpoint_disabled, mark_endpoint_disabled}
use closedloop_electron.Loops.Tokens.{
  LoopTokenMeta, Platform, Number, Disk, as_string, set_loop_token, get_loop_token,
  parse_jwt_expiry,
}

-- `RefreshLoopTokenFailure`
pub data Failure : Type 0 where
  missing_token endpoint_disabled : Failure
  network malformed : Text → Failure
  http_failure : ℕ → Option Text → Text → Failure

-- `RefreshLoopTokenResult`
pub data RefreshResult : Type 0 where
  success : LoopTokenMeta → RefreshResult
  failure : Failure → RefreshResult

pub record Memory : Type 0 where
  pub disk : Disk
  pub gate : Gate

-- A request, with the store and the gate as they are when it leaves.
pub record Request : Type 0 where
  pub url : Text
  pub bearer : Text
  pub key : Text
  pub seen : Memory

-- `fetch` rejects with a message, or answers with a status and a body, if the body can be read.
pub data Answer : Type 0 where
  rejects : Text → Answer
  answers : ℕ → Option Text → Answer

-- `drawn` counts the calls of `crypto.randomUUID`.
pub record World : Type 0 where
  pub memory : Memory
  pub sent : List Request
  pub drawn : ℕ

abbrev pub Action : Type 0 → Type 0
Action A = Effect World A

abbrev pub put_disk : Disk → World → World
put_disk disk w = record w { memory = record w.memory { disk = disk } }

-- The parameters of a call: the platform, the random keys, the server, `getToken`, the base of the
-- URLs and the loop.
pub record Setting : Type 0 where
  pub platform : Platform
  pub uuid : ℕ → Text
  pub server : Request → Answer × Memory
  pub get_token : Disk → Option Text
  pub api_base_url : Text
  pub loop_id : Text

-- `extractCodeFromBody`
unfoldable pub extract_code_from_body : Platform → Text → Option Text
extract_code_from_body p body = elim (p.parse body) [
  | none ↦ none
  | some v ↦ as_string (get (text "code") (as_record v))
]

-- `resp.ok`
abbrev pub is_ok : ℕ → Bool
is_ok status = leb 200 status && leb status 299

abbrev pub endpoint_path : Setting → Text
endpoint_path s = text "/loops/" ++ s.platform.encode_uri s.loop_id ++ text "/refresh-token"

-- `resp.json()`, `none` if it rejects
abbrev pub json_of : Platform → Option Text → Option Json
json_of p none = none
json_of p (some body) = p.parse body

-- `loopTokenStore.setLoopToken`, which may throw.
unfoldable pub write_meta : Setting → LoopTokenMeta → Action Unit
unfolding set_loop_token
write_meta s m w = elim (set_loop_token s.platform s.loop_id m w.memory.disk) [
  | none ↦ (none, w)
  | some disk ↦ (some tt, put_disk disk w)
]

abbrev read_stored : Setting → Action (Option LoopTokenMeta)
read_stored s w = (some (get_loop_token s.platform s.loop_id w.memory.disk), w)

abbrev random_uuid : Setting → Action Text
random_uuid s w = (some (s.uuid w.drawn), record w { drawn = suc w.drawn })

-- A token that is absent or empty, which is falsy, is none.
abbrev pub new_token : Json → Option Text
new_token body = elim (as_string (get (text "token") (as_record body))) [
  | none ↦ none
  | some token ↦ if is_empty token then none else some token
]

abbrev pub expiry_ms : Platform → Text → Option Number
expiry_ms p token = elim (parse_jwt_expiry p token) [
  | none ↦ none
  | some seconds ↦ some (p.thousandfold seconds)
]

abbrev pub fresh_meta : Platform → Text → Json → Text → LoopTokenMeta
fresh_meta p token body key = record {
  token = token;
  expires_at = expiry_ms p token;
  jti = as_string (get (text "jti") (as_record body));
  last_idempotency_key = some key;
}

-- The body of a successful answer.
unfoldable pub accept_body : Setting → Text → Option Json → Action RefreshResult
unfolding write_meta
accept_body s key none w = (some (failure (malformed (text "malformed refresh response"))), w)
accept_body s key (some body) w = elim (new_token body) [
  | none ↦ (some (failure (malformed (text "refresh response missing token"))), w)
  | some token ↦
      (write_meta s (fresh_meta s.platform token body key) >>= λ _.
      pure (success (fresh_meta s.platform token body key)))
        w
]

-- An answer outside 200 to 299: a 404 disables the endpoint.
unfoldable pub refuse : Setting → ℕ → Text → Action RefreshResult
refuse s status body w = (
  some (
      failure (
        http_failure status (extract_code_from_body s.platform body)
          (text "HTTP " ++ s.platform.show status ++ text " " ++ body))),
  if status == 404
      then record w {
        memory = record w.memory {
          gate = mark_endpoint_disabled s.api_base_url (endpoint_path s) w.memory.gate;
        };
      }
      else w,
)

unfoldable pub handle_answer : Setting → Text → Answer → Action RefreshResult
unfolding accept_body refuse
handle_answer s key (rejects message) w = (some (failure (network message)), w)
handle_answer s key (answers status body) w =
    if is_ok status
    then accept_body s key (json_of s.platform body) w
    else refuse s status (or_else body []) w

abbrev pub request_of : Setting → Text → Text → World → Request
request_of s token key w = record {
  url = s.api_base_url ++ endpoint_path s;
  bearer = token;
  key = key;
  seen = w.memory;
}

-- `await fetch(…)`
unfoldable pub fetch : Setting → Request → Action Answer
fetch s r w = (some (s.server r).0, record w { memory = (s.server r).1; sent = w.sent ++ r ∷ [] })

-- `attemptRefresh`
unfoldable pub attempt_refresh : Setting → Text → Action RefreshResult
unfolding handle_answer fetch
attempt_refresh s key w = elim (s.get_token w.memory.disk) [
  | none ↦ (some (failure missing_token), w)
  | some token ↦
      if is_endpoint_disabled s.api_base_url (endpoint_path s) w.memory.gate
      then (some (failure endpoint_disabled), w)
      else (fetch s (request_of s token key w) >>= λ a. handle_answer s key a) w
]

abbrev pub stored_key : Option LoopTokenMeta → Option Text
stored_key none = none
stored_key (some m) = m.last_idempotency_key

-- `stored?.lastIdempotencyKey ?? crypto.randomUUID()`
unfoldable pub first_key : Setting → Option LoopTokenMeta → Action Text
first_key s stored w = elim (stored_key stored) [
  | none ↦ random_uuid s w
  | some key ↦ (some key, w)
]

-- Writes the key into a stored token.
unfoldable pub persist_key : Setting → Option LoopTokenMeta → Text → Action Unit
unfolding write_meta
persist_key s none key w = (some tt, w)
persist_key s (some m) key w = write_meta s (record m { last_idempotency_key = some key }) w

-- The first attempt skips the write when the store has the key already.
unfoldable pub persist_first_key : Setting → Option LoopTokenMeta → Text → Action Unit
unfolding persist_key
persist_first_key s stored key w = elim (stored_key stored) [
  | none ↦ persist_key s stored key w
  | some _ ↦ (some tt, w)
]

abbrev code_is : Text → Option Text → Bool
code_is t none = false
code_is t (some c) = same c t

abbrev pub is_race_lost : RefreshResult → Bool
is_race_lost (failure (http_failure status code _)) =
    (status == 409) && code_is (text "RACE_LOST") code
is_race_lost _ = false

unfoldable pub retry_refresh : Setting → Action RefreshResult
unfolding persist_key attempt_refresh
retry_refresh s = do
  key ← random_uuid s
  current ← read_stored s
  _ ← persist_key s current key
  attempt_refresh s key

-- `refreshLoopToken`
unfoldable pub refresh_loop_token : Setting → Action RefreshResult
unfolding first_key persist_first_key attempt_refresh retry_refresh
refresh_loop_token s = do
  stored ← read_stored s
  key ← first_key s stored
  _ ← persist_first_key s stored key
  first ← attempt_refresh s key
  if is_race_lost first then retry_refresh s else pure first
