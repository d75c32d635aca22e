-- ===== src/Heartbeat/Tests.antt =====
-- The heartbeat (loop-heartbeat.ts, loop-404-gate.ts, loop-status-classifier.ts) of one loop, whose
-- process runs at first.
use closedloop_electron.Base.{◌≡◌, refl, Bool, true, false, Option, some, [], ◌∷◌, Text, text, same}
use closedloop_electron.Json.{ℤ, pos, int, field, end, get}
use closedloop_electron.JobStore.{LocalJob, JobStore, running, get_by_loop_id}
use closedloop_electron.Heartbeat.Tick.{http, auth, Monitor, run_heartbeat_tick}
use closedloop_electron.Heartbeat.Guarantees.{tick-alive}
use closedloop_electron.Heartbeat.Stranded.{run_ticks, tick-stranded}

abbrev job : LocalJob
job = record {
  id = text "j";
  loop_id = text "l";
  status = running;
  other = field (text "pid") (int (pos 7)) end;
}

abbrev jobs : JobStore
jobs = record {
  active = (text "j", job) ∷ [];
  terminal = [];
  disk = record { active_jobs = []; terminal_jobs = [] };
}

abbrev monitor : Monitor
monitor = record {
  gate = [];
  jobs = jobs;
  adopted = [];
  finalized = [];
  suppressed = [];
  stopped = false;
}

abbrev runs : Option (ℤ → Bool)
runs = some (λ pid. true)

abbrev gone : Option (ℤ → Bool)
gone = some (λ pid. false)

job_found : get_by_loop_id (text "l") jobs ≡ some job
unfolding get_by_loop_id same
job_found = refl

abbrev server : Text
server = text "s"

tick-alive_example :
    ((run_heartbeat_tick server runs true (text "l") false (http 410) monitor).finalized ≡ [])
    × ((run_heartbeat_tick server runs true (text "l") false (http 410) monitor).stopped ≡ false)
unfolding get same
tick-alive_example =
    tick-alive server runs true (text "l") false job (http 410) monitor job_found refl

-- A 404 while the process runs; then it ends, and the server says twice that the loop is over.
tick-stranded_example :
    ((run_ticks server true
        (text "l")
        ((gone, http 404) ∷ (gone, auth) ∷ [])
        (run_heartbeat_tick server runs true (text "l") false (http 404) monitor)).finalized
      ≡ [])
    × ((run_ticks server true
          (text "l")
          ((gone, http 404) ∷ (gone, auth) ∷ [])
          (run_heartbeat_tick server runs true (text "l") false (http 404) monitor)).stopped
        ≡ false)
unfolding get same
tick-stranded_example =
    tick-stranded server runs true (text "l") job monitor ((gone, http 404) ∷ (gone, auth) ∷ [])
      job_found refl
