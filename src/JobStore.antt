-- ===== src/JobStore.antt =====
-- JobStore (apps/desktop/src/main/job-store.ts): the jobs that run, and the last hundred that ended.
-- electron-store is the last state that `persist` wrote.
pub mod Invariant
pub mod Reload
pub mod Reconcile
pub mod Newest
mod Tests
use closedloop_electron.Base.{
  ℕ, Bool, true, false, not, Option, none, some, List, [], ◌∷◌, ◌++◌, map, Text, same, lookup,
  insert, delete, filter, take, if◌then◌else◌,
}
use closedloop_electron.Json.{Fields}

-- `LocalJobStatus`
pub data Status : Type 0 where
  queued starting running awaiting_user stopped cancel_pending completed failed cancelled : Status
  unknown timed_out : Status

-- `LocalJob`: the fields that the store reads, and the others as they are.
pub record LocalJob : Type 0 where
  pub id : Text
  pub loop_id : Text
  pub status : Status
  pub other : Fields

-- `isTerminalJobStatus`
unfoldable pub is_terminal_job_status : Status → Bool
is_terminal_job_status completed = true
is_terminal_job_status failed = true
is_terminal_job_status cancelled = true
is_terminal_job_status stopped = true
is_terminal_job_status unknown = true
is_terminal_job_status timed_out = true
is_terminal_job_status _ = false

abbrev pub max_terminal_jobs : ℕ
max_terminal_jobs = 100

-- `JobStoreSchema`, what the disk holds.
pub record Schema : Type 0 where
  pub active_jobs : List LocalJob
  pub terminal_jobs : List LocalJob

pub record JobStore : Type 0 where
  pub active : List (Text × LocalJob)
  pub terminal : List LocalJob
  pub disk : Schema

abbrev pub values : List (Text × LocalJob) → List LocalJob
values = map (λ e. e.1)

-- `new Map(jobs.map((j) => [j.id, j]))`
pub index_by_id : List (Text × LocalJob) → List LocalJob → List (Text × LocalJob)
index_by_id m [] = m
index_by_id m (j ∷ js) = index_by_id (insert j.id j m) js

-- A persisted value that is no array counts as empty.
abbrev as_array : Option (List LocalJob) → List LocalJob
as_array none = []
as_array (some jobs) = jobs

-- The constructor, from the two persisted values.
pub open_store : Option (List LocalJob) → Option (List LocalJob) → JobStore
unfolding index_by_id
open_store active terminal = record {
  active = index_by_id [] (as_array active);
  terminal = take max_terminal_jobs (as_array terminal);
  disk = record { active_jobs = as_array active; terminal_jobs = as_array terminal };
}

unfoldable pub persist : JobStore → JobStore
persist s = record s { disk = record { active_jobs = values s.active; terminal_jobs = s.terminal } }

abbrev pub other_than : Text → LocalJob → Bool
other_than id j = not (same j.id id)

-- The state that `upsert` writes.
pub placed : LocalJob → JobStore → JobStore
unfolding is_terminal_job_status
placed job s =
    if is_terminal_job_status job.status
    then record s {
      active = delete job.id s.active;
      terminal = take max_terminal_jobs (job ∷ filter (other_than job.id) s.terminal);
    }
    else record s { active = insert job.id job s.active }

unfoldable pub upsert : LocalJob → JobStore → JobStore
upsert job s = persist (placed job s)

-- `jobs.find((j) => j.id === id)`
pub find_by_id : Text → List LocalJob → Option LocalJob
find_by_id id [] = none
find_by_id id (j ∷ js) = if same j.id id then some j else find_by_id id js

find_by_loop_id : Text → List LocalJob → Option LocalJob
find_by_loop_id loop [] = none
find_by_loop_id loop (j ∷ js) = if same j.loop_id loop then some j else find_by_loop_id loop js

abbrev pub first_of_two : Option LocalJob → Option LocalJob → Option LocalJob
first_of_two none b = b
first_of_two (some a) b = some a

pub get_by_id : Text → JobStore → Option LocalJob
get_by_id id s = first_of_two (lookup id s.active) (find_by_id id s.terminal)

unfoldable pub get_by_loop_id : Text → JobStore → Option LocalJob
unfolding find_by_loop_id
get_by_loop_id loop s =
    first_of_two (find_by_loop_id loop (values s.active)) (find_by_loop_id loop s.terminal)

unfoldable pub list_running : JobStore → List LocalJob
list_running s = values s.active

unfoldable pub list_completed : JobStore → List LocalJob
list_completed s = s.terminal

-- `checkLiveness` answers with the same object, `none`, or with another one.
abbrev pub checked : (LocalJob → Option LocalJob) → LocalJob → LocalJob
checked check j = elim (check j) [ none ↦ j | some updated ↦ updated ]

-- One round of `reconcile`: the store, and the job if it ended.
pub reconcile_one : (LocalJob → Option LocalJob) → LocalJob → JobStore → JobStore × List LocalJob
reconcile_one check j s =
    if is_terminal_job_status (checked check j).status
    then (upsert (checked check j) s, checked check j ∷ [])
    else (elim (check j) [ none ↦ s | some updated ↦ upsert updated s ], [])

pub reconcile_all :
    (LocalJob → Option LocalJob) → List LocalJob → JobStore → JobStore × List LocalJob
reconcile_all check [] s = (s, [])
reconcile_all check (j ∷ js) s =
    let (t, ended) = reconcile_one check j s in
    let (u, later) = reconcile_all check js t in (u, ended ++ later)

-- The jobs are those that are active at the start.
pub reconcile : (LocalJob → Option LocalJob) → JobStore → JobStore × List LocalJob
unfolding reconcile_all
reconcile check s = reconcile_all check (values s.active) s
