-- ===== src/Loops/Disabled.antt =====
-- A refresh that met a 404 disables its endpoint (loop-refresh.ts and loop-404-gate.ts), and the
-- refresh after a success.
use closedloop_electron.Base.{
  ℕ, ◌≡◌, refl, inl, inr, Bool, true, false, Option, none, some, [], Text, same_refl, or_else,
  arith, Bool-cases, Option-cases,
}
use closedloop_electron.Json.{Json}
use closedloop_electron.Heartbeat.Gate.{is_endpoint_disabled, is_endpoint_disabled-mark}
use closedloop_electron.Loops.Refresh.{
  RefreshResult, failure, http_failure, Answer, rejects, answers, World, Setting, is_ok, json_of,
  endpoint_path, write_meta, accept_body, refuse, handle_answer, request_of, fetch, attempt_refresh,
  refresh_loop_token,
}
use closedloop_electron.Loops.Requests.{lost, prepared, prepared-IsPrepared}
use closedloop_electron.Loops.Keys.{
  stored, retried, retry_refresh-eq, finish, finish-lost, first_request_key,
}

-- The status of an answer outside 200 to 299.
abbrev pub status_of : Option RefreshResult → Option ℕ
status_of (some (failure (http_failure status _ _))) = some status
status_of _ = none

module _ (s : Setting) where
  abbrev is_disabled : World → Bool
  is_disabled w = is_endpoint_disabled s.api_base_url (endpoint_path s) w.memory.gate

  accept_body-status :
      (key : Text) (body : Option Json) (w : World) → status_of (accept_body s key body w).0 ≡ none
  unfolding accept_body write_meta
  accept_body-status key none w = refl
  accept_body-status key (some body) w = ground arith

  refuse-404 :
      (status : ℕ) (body : Text) (w : World)
      → status_of (refuse s status body w).0 ≡ some 404
      → is_disabled (refuse s status body w).1 ≡ true
  unfolding refuse
  refuse-404 status body w e = ground (
    arith,
    is_endpoint_disabled-mark s.api_base_url (endpoint_path s) s.api_base_url (endpoint_path s)
        w.memory.gate,
    same_refl s.api_base_url,
    same_refl (endpoint_path s),
  )

  handle_answer-404 :
      (key : Text) (a : Answer) (w : World)
      → status_of (handle_answer s key a w).0 ≡ some 404
      → is_disabled (handle_answer s key a w).1 ≡ true
  unfolding handle_answer
  handle_answer-404 key (rejects message) w e = cc
  handle_answer-404 key (answers status body) w e = elim (Bool-cases (is_ok status)) [
    | inl k ↦ ground (arith, accept_body-status key (json_of s.platform body) w)
    | inr k ↦ ground (arith, refuse-404 status (or_else body []) w)
  ]

  attempt_refresh-404 :
      (key : Text) (w : World)
      → status_of (attempt_refresh s key w).0 ≡ some 404
      → is_disabled (attempt_refresh s key w).1 ≡ true
  unfolding attempt_refresh fetch
  attempt_refresh-404 key w e = elim (Option-cases (s.get_token w.memory.disk)) [
    | inl n ↦ ground arith
    | inr (token, n) ↦
        let r = request_of s token key w in
        ground (arith, handle_answer-404 key (s.server r).0 (fetch s r w).1)
  ]

  finish-404 :
      (key : Text) (w : World)
      → status_of (finish s (attempt_refresh s key w)).0 ≡ some 404
      → is_disabled (finish s (attempt_refresh s key w)).1 ≡ true
  finish-404 key w e = ground (
    arith,
    finish-lost s (attempt_refresh s key w),
    retry_refresh-eq s (attempt_refresh s key w).1,
    attempt_refresh-404 key w,
    attempt_refresh-404 (s.uuid (attempt_refresh s key w).1.drawn)
        (retried s (attempt_refresh s key w).1),
  )

  refresh_loop_token-404 :
      (w : World)
      → status_of (refresh_loop_token s w).0 ≡ some 404
      → is_disabled (refresh_loop_token s w).1 ≡ true
  refresh_loop_token-404 w e =
      let (_, _, same_run) = prepared-IsPrepared s (stored s w) w refl in
      ground (arith, same_run, finish-404 (first_request_key s w) (prepared s (stored s w) w))

  attempt_refresh-disabled :
      (key : Text) (w : World)
      → is_disabled w ≡ true
      → ((attempt_refresh s key w).1 ≡ w) × (lost (attempt_refresh s key w).0 ≡ false)
  unfolding attempt_refresh
  attempt_refresh-disabled key w e = ground arith

  refresh_loop_token-disabled :
      (w : World) → is_disabled w ≡ true → (refresh_loop_token s w).1.sent ≡ w.sent
  refresh_loop_token-disabled w e =
      let first = first_request_key s w in
      let start = prepared s (stored s w) w in
      let (sent, gate, same_run) = prepared-IsPrepared s (stored s w) w refl in
      ground (
        arith,
        sent,
        gate,
        same_run,
        finish-lost s (attempt_refresh s first start),
        attempt_refresh-disabled first start,
      )

  -- After a refresh of a loop that ends with status 404, a refresh of the same loop that follows it
  -- at once sends no request.
  pub refresh_loop_token_after_404 :
      (w : World)
      → status_of (refresh_loop_token s w).0 ≡ some 404
      → (refresh_loop_token s (refresh_loop_token s w).1).1.sent ≡ (refresh_loop_token s w).1.sent
  refresh_loop_token_after_404 w e =
      refresh_loop_token-disabled (refresh_loop_token s w).1 (refresh_loop_token-404 w e)
