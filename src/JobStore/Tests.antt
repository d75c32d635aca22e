-- ===== src/JobStore/Tests.antt =====
-- A JobStore (apps/desktop/src/main/job-store.ts) with a job that runs and one that has failed.
use closedloop_electron.Base.{
  ◌≡◌, refl, Option, none, some, [], ◌∷◌, Text, text, lookup, arith, filter, map,
}
use closedloop_electron.Json.{end}
use closedloop_electron.JobStore.{
  LocalJob, JobStore, running, failed, open_store, upsert, persist, is_terminal_job_status,
  find_by_id, values, checked, reconcile,
}
use closedloop_electron.JobStore.Invariant.{IsValid, upsert-IsValid}
use closedloop_electron.JobStore.Reload.{open_store-persist}
use closedloop_electron.JobStore.Reconcile.{reconcile_lem, has_ended, live_part}

abbrev job_a : LocalJob
job_a = record { id = text "a"; loop_id = text "l"; status = running; other = end }

abbrev job_b : LocalJob
job_b = record { id = text "b"; loop_id = text "m"; status = failed; other = end }

abbrev sample : JobStore
sample = record {
  active = (text "a", job_a) ∷ [];
  terminal = job_b ∷ [];
  disk = record { active_jobs = []; terminal_jobs = [] };
}

sample-IsValid : IsValid sample
unfolding lookup find_by_id is_terminal_job_status
sample-IsValid = record {
  active_once = (refl, tt);
  active_live = ((refl, refl), tt);
  terminal_once = (refl, tt);
  terminal_ended = (refl, tt);
  bounded = omega arith;
}

upsert-IsValid_example : IsValid (upsert job_b sample)
upsert-IsValid_example = upsert-IsValid job_b sample sample-IsValid

open_store-persist_example :
    open_store (some (persist sample).disk.active_jobs) (some (persist sample).disk.terminal_jobs)
    ≡ persist sample
open_store-persist_example = open_store-persist sample sample-IsValid

-- Every job has lost its process.
abbrev all_failed : LocalJob → Option LocalJob
all_failed j = some (record j { status = failed })

reconcile_lem_example :
    ((k : Text)
      → lookup k (reconcile all_failed sample).0.active ≡ (elim (lookup k sample.active) [
        | none ↦ none
        | some j ↦ live_part (checked all_failed j)
      ]))
    × ((reconcile all_failed sample).1
        ≡ filter has_ended (map (checked all_failed) (values sample.active)))
    × IsValid (reconcile all_failed sample).0
reconcile_lem_example = reconcile_lem all_failed sample (λ j. refl) sample-IsValid
