-- ===== src/Boot/Tests.antt =====
-- Runs of the recovery at the start, with one loop that a process still drives.
use closedloop_electron.Base.{
  delete, same, trim, ◌≡◌, refl, ◌⊎◌, true, false, none, some, [], ◌∷◌, text, lookup,
}
use closedloop_electron.Json.{pos, null, str, int, obj, end, field, get}
use closedloop_electron.JobStore.{LocalJob, running, get_by_loop_id, is_terminal_job_status}
use closedloop_electron.Heartbeat.Classifier.{desktop_managed, classify_loop_status}
use closedloop_electron.Loops.Tokens.{delete_loop_token, list_loop_ids, Platform, get_loop_token}
use closedloop_electron.Loops.Timers.{Context}
use closedloop_electron.Boot.Status.{answered, parsed, pop_http, Deps, Boot, Outside}
use closedloop_electron.Boot.Reconcile.{cloud_status_to_http, reconcile_cloud_loop_status}
use closedloop_electron.Boot.Reattach.{reattach_live_job}
use closedloop_electron.Boot.Candidates.{is_orphan, sweep_orphaned_tokens}
use closedloop_electron.Boot.Sweep.{IsNeeded, IsUnneeded, sweep_orphaned_tokens-lookup}
use closedloop_electron.Boot.Recovered.{
  IsEnded, IsLookedAfter, reattach_live_job-settles, reconcile_cloud_loop_status-no_revival,
}

abbrev platform : Platform
platform = record {
  available = true;
  encrypt = λ t. t;
  decrypt = λ t. some t;
  stringify = λ v. text "{}";
  parse = λ t. some (obj (field (text "token") (str t) end));
  decode = λ t. t;
  thousandfold = λ n. n;
  encode_uri = λ t. t;
  show = λ n. n ∷ [];
}

abbrev deps : Deps
deps = record {
  platform = platform;
  provenance = some desktop_managed;
  has_signer = true;
  is_process_running = λ pid. true;
  api_origin = text "https://api";
  now = text "now";
  now_ms = 0;
  skew_ms = 60;
  interval_ms = 30;
  milliseconds = λ n. 100;
}

abbrev job : LocalJob
job = record {
  id = text "j";
  loop_id = text "l";
  status = running;
  other = field (text "pid") (int (pos 7)) end;
}

abbrev timers : Context
timers = record {
  heartbeats = [];
  refreshes = [];
  sleep_loop_ids = [];
  registry = [];
  pending = [];
  next = 0;
}

abbrev start : Boot
start = record {
  jobs = record {
    active = (text "j", job) ∷ [];
    terminal = [];
    disk = record { active_jobs = job ∷ []; terminal_jobs = [] };
  };
  tokens = (text "l", text "t") ∷ (text "m", text "u") ∷ [];
  schedulers = timers;
  heartbeats = [];
  recovered = [];
  live_handles = [];
  finalizing = [];
}

-- The token is refused, and refused after a refresh; the heartbeat finds that the loop is gone.
abbrev refused : Outside
refused = record {
  status = answered 401 (parsed null);
  refresh = λ disk. (some true, disk);
  status_again = answered 401 (parsed null);
  pop = pop_http 410;
}

start-token :
    get_loop_token platform (text "l") start.tokens
    ≡ some (record { token = text "t"; expires_at = none; jti = none; last_idempotency_key = none })
unfolding get_loop_token lookup same trim get
start-token = refl

refused-runs : (reattach_live_job deps refused job start).0 ≡ some tt
unfolding reattach_live_job get same get_loop_token lookup trim classify_loop_status
    cloud_status_to_http
refused-runs = refl

reattach_live_job-settles_example :
    IsEnded (text "now") (text "l") start (reattach_live_job deps refused job start).1
    ⊎ IsLookedAfter (text "l") start (reattach_live_job deps refused job start).1
unfolding get same
reattach_live_job-settles_example =
    reattach_live_job-settles deps refused job (pos 7)
      (record { token = text "t"; expires_at = none; jti = none; last_idempotency_key = none })
      start tt refl start-token refl refused-runs

reconcile_cloud_loop_status-no_revival_example :
    (reconcile_cloud_loop_status deps refused job false start).1.heartbeats ≡ []
reconcile_cloud_loop_status-no_revival_example =
    reconcile_cloud_loop_status-no_revival deps refused job start

sweep_orphaned_tokens-lookup_example :
    (IsNeeded start.jobs (text "m")
      × (lookup (text "m") (sweep_orphaned_tokens start).tokens ≡ lookup (text "m") start.tokens))
    ⊎ (IsUnneeded start.jobs (text "m")
        × (lookup (text "m") (sweep_orphaned_tokens start).tokens ≡ none))
sweep_orphaned_tokens-lookup_example = sweep_orphaned_tokens-lookup (text "m") start

test_swept : (sweep_orphaned_tokens start).tokens ≡ (text "l", text "t") ∷ []
unfolding sweep_orphaned_tokens is_orphan get_by_loop_id delete_loop_token list_loop_ids delete same
    is_terminal_job_status
test_swept = refl
