-- ===== src/Boot/Reconcile.antt =====
-- `reconcileCloudLoopStatus` of boot-recovery.ts, and what it calls.
use closedloop_electron.Base.{
  ℕ, Bool, true, false, Option, none, some, [], ◌∷◌, ◌++◌, Text, text, or_else, if◌then◌else◌,
  Effect, ◌>>=◌, pure,
}
use closedloop_electron.Json.{str, set_field}
use closedloop_electron.JobStore.{Status, unknown, LocalJob, upsert, get_by_loop_id}
use closedloop_electron.JobStore
use closedloop_electron.Heartbeat.Classifier.{
  TerminalReason, timed_out, unauthorized, not_found, gone, Disposition, terminal, pop_fallback,
  Provenance, classify_loop_status,
}
use closedloop_electron.Loops.Tokens.{Disk, set_loop_token, delete_loop_token}
use closedloop_electron.Boot.Status.{
  CloudLoopStatus, loop_timed_out, loop_active, loop_unauthorized, loop_error,
  get_cloud_loop_status, PopResult, pop_success, pop_http, pop_network, pop_timeout, pop_auth, Deps,
  Boot, Outside,
}

-- `cloudStatusToHttp`
unfoldable pub cloud_status_to_http : CloudLoopStatus → Option ℕ
cloud_status_to_http loop_unauthorized = some 401
cloud_status_to_http (loop_error _ status) = status
cloud_status_to_http _ = none

-- `result.kind`
abbrev pub kind_of : CloudLoopStatus → Text
kind_of loop_timed_out = text "timed_out"
kind_of loop_active = text "active"
kind_of loop_unauthorized = text "unauthorized"
kind_of (loop_error _ _) = text "error"

-- `terminalReasonMessage`
abbrev terminal_reason_message : TerminalReason → Text
terminal_reason_message unauthorized = text "unauthorized after token refresh"
terminal_reason_message not_found = text "HTTP 404"
terminal_reason_message gone = text "HTTP 410"
terminal_reason_message timed_out = text "timed out"

abbrev finalized_status : TerminalReason → Status
finalized_status timed_out = JobStore.timed_out
finalized_status _ = unknown

abbrev finalized_activity : TerminalReason → Text
finalized_activity timed_out = text "Loop timed out — restart from the loop list."
finalized_activity reason =
    text "Boot recovery: loop terminated server-side ("
    ++ terminal_reason_message reason
    ++ text ")"

-- The job that `finalizeAsTerminal` writes.
unfoldable pub finalized : Text → TerminalReason → LocalJob → LocalJob
finalized now reason job = record job {
  status = finalized_status reason;
  other = set_field (text "cloudFinalizedAt") (str now) (
      set_field (text "updatedAt") (str now) (
        set_field (text "completedAt") (str now)
          (set_field (text "liveActivity") (str (finalized_activity reason)) job.other)));
}

-- `jobStore.getByLoopId(job.loopId) ?? job`
abbrev pub current_job : LocalJob → Boot → LocalJob
current_job job b = or_else (get_by_loop_id job.loop_id b.jobs) job

-- `finalizeAsTerminal`
unfoldable pub finalize_as_terminal : Deps → LocalJob → TerminalReason → Effect Boot Unit
unfolding finalized
finalize_as_terminal d job reason b = (
  some tt,
  record b {
    jobs = upsert (finalized d.now reason (current_job job b)) b.jobs;
    tokens = delete_loop_token job.loop_id b.tokens;
  },
)

-- `buildProvenanceContext`
unfoldable pub build_provenance_context : Deps → Option (Provenance × Bool)
build_provenance_context d = elim d.provenance [ none ↦ none | some p ↦ some (p, d.has_signer) ]

-- The token store after a write, or its exception.
abbrev pub put_tokens : Option Disk → Effect Boot Unit
put_tokens none b = (none, b)
put_tokens (some disk) b = (some tt, record b { tokens = disk })

-- `persistRevivalToken`, which throws where the token store does.
abbrev adopt : Deps → Text → PopResult → Effect Boot Unit
adopt d loop (pop_success (some meta)) b =
    put_tokens (set_loop_token d.platform loop meta b.tokens) b
adopt d loop _ b = (some tt, b)

abbrev post_heartbeat : Text → Effect Boot Unit
post_heartbeat loop b = (some tt, record b { heartbeats = b.heartbeats ++ loop ∷ [] })

abbrev pub revive : Deps → PopResult → LocalJob → Effect Boot (Option PopResult)
revive d result job = do
  _ ← post_heartbeat job.loop_id
  _ ← adopt d job.loop_id result
  pure (some result)

-- `attemptPopHeartbeatRevival`
unfoldable pub attempt_pop_heartbeat_revival :
    Deps → PopResult → LocalJob → Effect Boot (Option PopResult)
attempt_pop_heartbeat_revival d result job = if d.has_signer then revive d result job else pure none

-- The heartbeat's status, only for an HTTP error.
abbrev pub heartbeat_http_status : PopResult → Option ℕ
heartbeat_http_status (pop_http status) = some status
heartbeat_http_status _ = none

abbrev pop_kind : PopResult → Text
pop_kind (pop_success _) = text "success"
pop_kind (pop_http _) = text "http"
pop_kind pop_network = text "network"
pop_kind pop_timeout = text "timeout"
pop_kind pop_auth = text "auth"

abbrev pub is_revived : PopResult → Bool
is_revived (pop_success _) = true
is_revived _ = false

abbrev pub inconclusive : PopResult → CloudLoopStatus
inconclusive r =
    loop_error (text "PoP heartbeat revival inconclusive (" ++ pop_kind r ++ text ")")
      (heartbeat_http_status r)

-- After a heartbeat that was answered with an error.
unfoldable pub conclude_error :
    Deps → LocalJob → CloudLoopStatus → PopResult → Disposition → Effect Boot CloudLoopStatus
unfolding finalize_as_terminal
conclude_error d job result r (terminal reason) = do
  _ ← finalize_as_terminal d job reason
  pure result
conclude_error d job result r _ = pure (inconclusive r)

unfoldable pub conclude_pop :
    Deps → LocalJob → CloudLoopStatus → Option PopResult → Effect Boot CloudLoopStatus
unfolding conclude_error
conclude_pop d job result none = pure result
conclude_pop d job result (some r) =
    if is_revived r
    then pure loop_active
    else conclude_error d job result r (classify_loop_status (heartbeat_http_status r) none none)

-- What follows the classification of the status.
unfoldable pub conclude :
    Deps → Outside → LocalJob → CloudLoopStatus → Disposition → Effect Boot CloudLoopStatus
unfolding finalize_as_terminal conclude_pop attempt_pop_heartbeat_revival
conclude d o job result pop_fallback = do
  pop ← attempt_pop_heartbeat_revival d o.pop job
  conclude_pop d job result pop
conclude d o job result (terminal reason) = do _ ← finalize_as_terminal d job reason; pure result
conclude d o job result _ = pure result

abbrev pub refresh_token : Outside → Effect Boot Bool
refresh_token o b = let (r, disk) = o.refresh b.tokens in (r, record b { tokens = disk })

abbrev pub is_unauthorized : CloudLoopStatus → Bool
is_unauthorized loop_unauthorized = true
is_unauthorized _ = false

abbrev pub ask_again : Deps → Outside → CloudLoopStatus → Bool → CloudLoopStatus
ask_again d o result refreshed =
    if refreshed then get_cloud_loop_status d.platform o.status_again else result

-- The status of the loop, asked for once more after a refresh if it was 401.
unfoldable pub cloud_status : Deps → Outside → Effect Boot CloudLoopStatus
unfolding get_cloud_loop_status
cloud_status d o =
    let result = get_cloud_loop_status d.platform o.status in
    if is_unauthorized result
    then (refresh_token o >>= λ refreshed. pure (ask_again d o result refreshed))
    else pure result

abbrev pub context_of : Deps → Bool → Option (Provenance × Bool)
context_of d allow_pop_revival = if allow_pop_revival then build_provenance_context d else none

-- `reconcileCloudLoopStatus`
unfoldable pub reconcile_cloud_loop_status :
    Deps → Outside → LocalJob → Bool → Effect Boot CloudLoopStatus
unfolding cloud_status conclude build_provenance_context
reconcile_cloud_loop_status d o job allow_pop_revival = do
  result ← cloud_status d o
  conclude d o job result (
      classify_loop_status (cloud_status_to_http result) (some (kind_of result))
        (context_of d allow_pop_revival))
