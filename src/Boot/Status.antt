-- ===== src/Boot/Status.antt =====
-- The state of boot-recovery.ts, and `getCloudLoopStatus` of loop-http.ts with the server's answer
-- as its argument.
use closedloop_electron.Base.{
  ℕ, Bool, Option, none, some, List, Text, text, same, ◌++◌, if◌then◌else◌, ◌==◌,
}
use closedloop_electron.Json.{ℤ, Json, get, as_record}
use closedloop_electron.JobStore.{JobStore}
use closedloop_electron.Heartbeat.Classifier.{Provenance}
use closedloop_electron.Loops.Tokens.{LoopTokenMeta, Number, Platform, Disk, as_string}
use closedloop_electron.Loops.Refresh.{is_ok}
use closedloop_electron.Loops.Timers.{Context}

-- `CloudLoopStatus`
pub data CloudLoopStatus : Type 0 where
  loop_timed_out loop_active loop_unauthorized : CloudLoopStatus
  loop_error : Text → Option ℕ → CloudLoopStatus

-- What `resp.json()` gives, or the message of its exception.
pub data Body : Type 0 where
  malformed : Text → Body
  parsed : Json → Body

-- The answer to the request for the loop, or the message of the exception that the request throws.
pub data Response : Type 0 where
  rejected : Text → Response
  answered : ℕ → Body → Response

abbrev status_of_text : Option Text → CloudLoopStatus
status_of_text none = loop_active
status_of_text (some status) =
    if same status (text "TIMED_OUT") then loop_timed_out else loop_active

abbrev status_of_body : Body → CloudLoopStatus
status_of_body (malformed message) = loop_error message none
status_of_body (parsed raw) = status_of_text (as_string (get (text "status") (as_record raw)))

-- `getCloudLoopStatus`; a status that is a text of another type counts as none.
unfoldable pub get_cloud_loop_status : Platform → Response → CloudLoopStatus
get_cloud_loop_status p (rejected message) = loop_error message none
get_cloud_loop_status p (answered status body) =
    if status == 401
    then loop_unauthorized
    else if is_ok status
    then status_of_body body
    else loop_error (text "HTTP " ++ p.show status) (some status)

-- What `postLoopHeartbeat` answers. A success has the token of the revived loop, if it was revived.
pub data PopResult : Type 0 where
  pop_success : Option LoopTokenMeta → PopResult
  pop_http : ℕ → PopResult
  pop_network pop_timeout pop_auth : PopResult

-- `BootRecoveryDeps`, with the clock and what the environment sets.
pub record Deps : Type 0 where
  pub platform : Platform
  pub provenance : Option Provenance
  pub has_signer : Bool
  pub is_process_running : ℤ → Bool
  pub api_origin : Text
  pub now : Text
  pub now_ms : ℕ
  pub skew_ms : ℕ
  pub interval_ms : ℕ
  pub milliseconds : Number → ℕ

-- The job store, the token store, the schedulers, and what was done besides: heartbeats sent for a
-- revival, loops that `registerRecoveredLoop` got, the loops of `liveHandles`, and the loops whose
-- finalization was started.
pub record Boot : Type 0 where
  pub jobs : JobStore
  pub tokens : Disk
  pub schedulers : Context
  pub heartbeats : List Text
  pub recovered : List (Text × ℤ)
  pub live_handles : List Text
  pub finalizing : List Text

-- What comes from outside during the reconciliation of one loop: the answers to the two requests
-- for its status, the refresh of its token, which may throw and which writes the token store, and
-- the answer to the heartbeat.
pub record Outside : Type 0 where
  pub status : Response
  pub refresh : Disk → Option Bool × Disk
  pub status_again : Response
  pub pop : PopResult
