-- ===== src/Heartbeat/Tick.antt =====
-- `runHeartbeatTick` of loop-heartbeat.ts, with the HTTP request of loop-http.ts as its result.
use closedloop_electron.Base.{
  ℕ, Bool, true, false, ◌&&◌, not, Option, none, some, List, [], ◌∷◌, ◌++◌, Text, text,
  if◌then◌else◌,
}
use closedloop_electron.Json.{ℤ, int, get}
use closedloop_electron.JobStore.{LocalJob, JobStore, get_by_loop_id}
use closedloop_electron.Heartbeat.Classifier.{
  TerminalReason, timed_out, not_found, Disposition, terminal, classify_loop_status,
}
use closedloop_electron.Heartbeat.Gate.{Gate, is_endpoint_disabled, mark_endpoint_disabled}

-- `LoopHttpResult`; a success has the token of a revived loop, if it was revived with one.
pub data HttpResult : Type 0 where
  success : Option Text → HttpResult
  http : ℕ → HttpResult
  network : Text → HttpResult
  timeout : HttpResult
  auth : HttpResult

pub data TargetStatus : Type 0 where
  timed_out_status unknown_status : TargetStatus

-- What the tick reads and writes for one loop: the gate of the process, the tokens that the store
-- got, the calls of `finalizeFn`, the suppressed finalizations, and whether `stopFn` was called.
pub record Monitor : Type 0 where
  pub gate : Gate
  pub jobs : JobStore
  pub adopted : List (Text × Text)
  pub finalized : List (LocalJob × TargetStatus)
  pub suppressed : List LocalJob
  pub stopped : Bool

abbrev pub heartbeat_path : Text → Text
heartbeat_path loop = text "/loops/" ++ loop ++ text "/heartbeat"

abbrev pub http_status : HttpResult → Option ℕ
http_status auth = some 401
http_status (http status) = some status
http_status _ = none

abbrev pub target_status : TerminalReason → TargetStatus
target_status timed_out = timed_out_status
target_status _ = unknown_status

abbrev pub pid_of : LocalJob → Option ℤ
pid_of j = elim (get (text "pid") j.other) [ int n ↦ some n | _ ↦ none ]

-- `isProcessRunning`, which need not be there.
abbrev pub is_alive : Option (ℤ → Bool) → LocalJob → Bool
is_alive none j = false
is_alive (some running) j = elim (pid_of j) [ none ↦ false | some pid ↦ running pid ]

-- `persistRevivalToken`
unfoldable pub persist_revival_token : Bool → Text → Option Text → Monitor → Monitor
persist_revival_token has_store loop none m = m
persist_revival_token has_store loop (some token) m =
    if has_store then record m { adopted = m.adopted ++ (loop, token) ∷ [] } else m

abbrev pub is_not_found : TerminalReason → Bool
is_not_found not_found = true
is_not_found _ = false

unfoldable pub disable_if_not_found : Text → Text → Bool → TerminalReason → Monitor → Monitor
disable_if_not_found server loop suppress reason m =
    if is_not_found reason && not suppress
    then record m { gate = mark_endpoint_disabled server (heartbeat_path loop) m.gate }
    else m

-- From the look-up of the job on.
unfoldable pub finalize : Option (ℤ → Bool) → Text → TerminalReason → Monitor → Monitor
finalize running loop reason m = elim (get_by_loop_id loop m.jobs) [
  | none ↦ record m { stopped = true }
  | some job ↦
      if is_alive running job
      then record m { suppressed = m.suppressed ++ job ∷ [] }
      else record m { finalized = m.finalized ++ (job, target_status reason) ∷ []; stopped = true }
]

unfoldable pub conclude : Text → Option (ℤ → Bool) → Text → Bool → Disposition → Monitor → Monitor
unfolding disable_if_not_found finalize
conclude server running loop suppress (terminal reason) m =
    finalize running loop reason (disable_if_not_found server loop suppress reason m)
conclude server running loop suppress _ m = m

-- `runHeartbeatTick` from the answer on.
unfoldable pub handle_result :
    Text → Option (ℤ → Bool) → Bool → Text → Bool → HttpResult → Monitor → Monitor
unfolding persist_revival_token conclude
handle_result server running has_store loop suppress (success token) m =
    persist_revival_token has_store loop token m
handle_result server running has_store loop suppress result m =
    conclude server running loop suppress (classify_loop_status (http_status result) none none) m

-- `runHeartbeatTick`; `result` is what the request would answer, if it is made.
unfoldable pub run_heartbeat_tick :
    Text → Option (ℤ → Bool) → Bool → Text → Bool → HttpResult → Monitor → Monitor
unfolding handle_result
run_heartbeat_tick server running has_store loop suppress result m =
    if is_endpoint_disabled server (heartbeat_path loop) m.gate
    then m
    else handle_result server running has_store loop suppress result m

-- `sendHeartbeatNow`, whose `stopFn` does nothing. The caller gives its own job store and check.
unfoldable pub send_heartbeat_now :
    Text → Option (ℤ → Bool) → Bool → Text → JobStore → HttpResult → Monitor → Monitor
unfolding run_heartbeat_tick
send_heartbeat_now server running has_store loop jobs result m =
    let t =
      run_heartbeat_tick server running has_store loop true result (record m { jobs = jobs }) in
    record t { jobs = m.jobs; stopped = m.stopped }
