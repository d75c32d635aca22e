-- ===== src/Loops/Retry.antt =====
-- `withTokenRefreshRetry` of loop-refresh.ts: a request that is repeated after a refresh.
use closedloop_electron.Base.{pure, ◌>>=◌, ◌≡◌, Bool, false, some, ◌==◌, arith, if◌then◌else◌}
use closedloop_electron.Heartbeat.Tick.{HttpResult, http}
use closedloop_electron.Loops.Tokens.{LoopTokenMeta, get_loop_token_string, IsFaithful}
use closedloop_electron.Loops.Refresh.{
  RefreshResult, success, failure, Failure, World, Action, Setting, refresh_loop_token,
}
use closedloop_electron.Loops.KeyKept.{refresh_loop_token-stored}

-- `kind: "http"` with status 401; a missing token is no such answer.
abbrev pub is_unauthorized : HttpResult → Bool
is_unauthorized (http status) = status == 401
is_unauthorized _ = false

-- The request again, or its first answer.
pub repeat_if_refreshed : Action HttpResult → HttpResult → RefreshResult → Action HttpResult
repeat_if_refreshed fn first (success m) = fn
repeat_if_refreshed fn first (failure e) = pure first

-- `withTokenRefreshRetry`, with the refresh that it asks for and the request `fn`.
pub with_token_refresh_retry : Action RefreshResult → Action HttpResult → Action HttpResult
unfolding repeat_if_refreshed
with_token_refresh_retry refresh fn = do
  first ← fn
  if is_unauthorized first then (refresh >>= λ r. repeat_if_refreshed fn first r) else pure first

module _ (s : Setting) (fn : Action HttpResult) (w asked refreshed : World)
    (m : LoopTokenMeta) where
  -- A request that is answered with 401 and then refreshed with success is made once more, with the
  -- new token in the store; the platform is one that reads back what it wrote.
  pub with_token_refresh_retry-success :
      ((m : LoopTokenMeta) → IsFaithful s.platform m)
      → fn w ≡ (some (http 401), asked)
      → refresh_loop_token s asked ≡ (some (success m), refreshed)
      → (with_token_refresh_retry (refresh_loop_token s) fn w ≡ fn refreshed)
        × (get_loop_token_string s.platform s.loop_id refreshed.memory.disk ≡ some m.token)
  unfolding with_token_refresh_retry get_loop_token_string
  with_token_refresh_retry-success faithful e r =
      (ground arith, ground (arith, refresh_loop_token-stored s faithful m asked))

  -- A request that is answered with 401 and whose refresh fails ends with that 401.
  pub with_token_refresh_retry-failure :
      (e : Failure)
      → fn w ≡ (some (http 401), asked)
      → refresh_loop_token s asked ≡ (some (failure e), refreshed)
      → with_token_refresh_retry (refresh_loop_token s) fn w ≡ (some (http 401), refreshed)
  unfolding with_token_refresh_retry
  with_token_refresh_retry-failure e a r = ground arith
