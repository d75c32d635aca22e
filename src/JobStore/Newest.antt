-- ===== src/JobStore/Newest.antt =====
-- What job-store.ts finds for a loop, and the job that `upsert` puts first among the finished ones.
use closedloop_electron.Base.{◌≡◌, true, some, List, [], ◌∷◌, Text, same_iff, filter, take, arith}
use closedloop_electron.JobStore.{
  LocalJob, JobStore, is_terminal_job_status, other_than, values, placed, persist, upsert,
  find_by_loop_id, get_by_loop_id,
}

find_by_loop_id-loop_id :
    (loop : Text) (js : List LocalJob) (j : LocalJob)
    → find_by_loop_id loop js ≡ some j
    → j.loop_id ≡ loop
unfolding find_by_loop_id
find_by_loop_id-loop_id loop [] j h = absurd (cc)
find_by_loop_id-loop_id loop (i ∷ js) j h =
    ground (arith, same_iff i.loop_id loop, find_by_loop_id-loop_id loop js j)

pub get_by_loop_id-loop_id :
    (loop : Text) (s : JobStore) (j : LocalJob) → get_by_loop_id loop s ≡ some j → j.loop_id ≡ loop
unfolding get_by_loop_id
get_by_loop_id-loop_id loop s j h = ground (
  arith,
  find_by_loop_id-loop_id loop (values s.active) j,
  find_by_loop_id-loop_id loop s.terminal j,
)

pub upsert-newest :
    (j : LocalJob) (s : JobStore)
    → is_terminal_job_status j.status ≡ true
    → (upsert j s).terminal ≡ j ∷ take 99 (filter (other_than j.id) s.terminal)
unfolding upsert placed persist
upsert-newest j s h = ground arith
