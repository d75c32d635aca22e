-- ===== src/Boot/Reattach.antt =====
-- `reattachLiveJob` of boot-recovery.ts, without the tailer of the output and the watcher of the
-- process.
use closedloop_electron.Base.{
  ℕ, true, ◌||◌, Option, none, some, List, [], ◌∷◌, ◌++◌, filter, Text, text, or_else,
  if◌then◌else◌, Effect, ◌>>=◌, pure, is_empty,
}
use closedloop_electron.Json.{ℤ, str, set_field}
use closedloop_electron.JobStore.{LocalJob, upsert, get_by_loop_id, list_running}
use closedloop_electron.Heartbeat.Classifier.{Disposition, terminal, classify_loop_status}
use closedloop_electron.Heartbeat.Tick.{pid_of, is_alive}
use closedloop_electron.Loops.Tokens.{get_loop_token, LoopTokenMeta}
use closedloop_electron.Loops.Timers.{
  Context, start_refresh, start_heartbeat, register_sleep, teardown_loop,
}
use closedloop_electron.Boot.Status.{CloudLoopStatus, Deps, Boot, Outside}
use closedloop_electron.Boot.Reconcile.{cloud_status_to_http, kind_of, reconcile_cloud_loop_status}

-- The entry of a loop that is there gets a new activity.
unfoldable pub mark_reattached : Text → Text → Boot → Boot
mark_reattached now loop b = elim (get_by_loop_id loop b.jobs) [
  | none ↦ b
  | some latest ↦ record b {
    jobs =
        upsert
          (record latest {
            other = set_field (text "updatedAt") (str now) (
                set_field (text "liveActivity")
                  (str (text "Boot recovery reattached after desktop restart")) latest.other);
          })
          b.jobs;
  }
]

-- `loopTokenMeta?.expiresAt`
abbrev pub expiry_of : Deps → Option LoopTokenMeta → Option ℕ
expiry_of d none = none
expiry_of d (some m) = elim m.expires_at [ none ↦ none | some n ↦ some (d.milliseconds n) ]

-- The refresh, the heartbeat and the registration for the time after a sleep.
unfoldable pub start_schedulers : Deps → Text → Option LoopTokenMeta → Context → Context
unfolding start_refresh start_heartbeat register_sleep
start_schedulers d loop meta c = register_sleep loop loop (
    start_heartbeat d.interval_ms loop (start_refresh d.skew_ms d.now_ms loop (expiry_of d meta) c))

unfoldable pub reattach : Deps → Text → ℤ → Boot → Boot
unfolding mark_reattached start_schedulers
reattach d loop pid b =
    let m = mark_reattached d.now loop (record b { recovered = b.recovered ++ (loop, pid) ∷ [] }) in
    record m {
      schedulers = start_schedulers d loop (get_loop_token d.platform loop m.tokens) m.schedulers;
      live_handles = m.live_handles ++ loop ∷ [];
    }

-- After the reconciliation, classified without the provenance.
unfoldable pub reattach_or_stop : Deps → Text → ℤ → Disposition → Boot → Boot
unfolding reattach
reattach_or_stop d loop pid (terminal reason) b = record b {
  schedulers = teardown_loop loop b.schedulers;
}
reattach_or_stop d loop pid _ b = reattach d loop pid b

abbrev pub disposition_of : CloudLoopStatus → Disposition
disposition_of result =
    classify_loop_status (cloud_status_to_http result) (some (kind_of result)) none

abbrev pub settle : Deps → Text → ℤ → CloudLoopStatus → Effect Boot Unit
settle d loop pid result b = (some tt, reattach_or_stop d loop pid (disposition_of result) b)

-- From the check of the token on.
unfoldable pub reattach_job : Deps → Outside → LocalJob → ℤ → Effect Boot Unit
unfolding reconcile_cloud_loop_status reattach_or_stop
reattach_job d o job pid b = elim (get_loop_token d.platform job.loop_id b.tokens) [
  | none ↦ (some tt, b)
  | some _ ↦
      if d.is_process_running pid
      then (reconcile_cloud_loop_status d o job true >>= settle d job.loop_id pid) b
      else (some tt, record b { finalizing = b.finalizing ++ job.loop_id ∷ [] })
]

-- `reattachLiveJob`
unfoldable pub reattach_live_job : Deps → Outside → LocalJob → Effect Boot Unit
unfolding reattach_job
reattach_live_job d o job b = elim (pid_of job) [
  | none ↦ (some tt, b)
  | some pid ↦ reattach_job d o job pid b
]

-- The loop over the live jobs; an exception ends it. What comes from outside is given for each job.
pub reattach_each : Deps → (LocalJob → Outside) → List LocalJob → Effect Boot Unit
unfolding reattach_live_job
reattach_each d outside [] = pure tt
reattach_each d outside (job ∷ jobs) = do
  _ ← reattach_live_job d (outside job) job
  reattach_each d outside jobs

-- `reattachLiveJobs` of a service that is not disposed.
unfoldable pub reattach_live_jobs : Deps → Option Text → (LocalJob → Outside) → Effect Boot Unit
unfolding reattach_each
reattach_live_jobs d api_key outside b =
    let live = filter (λ j. is_alive (some d.is_process_running) j) (list_running b.jobs) in
    if is_empty (or_else api_key []) || is_empty d.api_origin
    then (some tt, b)
    else reattach_each d outside live b
