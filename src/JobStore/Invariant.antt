-- ===== src/JobStore/Invariant.antt =====
-- What holds of a JobStore (apps/desktop/src/main/job-store.ts) after every call of `upsert`.
use closedloop_electron.Base.{
  ℕ, zero, suc, ◌≤◌, ◌≡◌, refl, true, false, none, some, List, [], ◌∷◌, Text, same, same_iff,
  same_refl, insert, delete, lookup-insert_self, lookup-delete_self, filter, take, length,
  length-take, All, All-take, All-filter, IsMap, insert-IsMap, delete-IsMap, arith, Bool-cases, inl,
  inr, if◌then◌else◌,
}
use closedloop_electron.JobStore.{
  LocalJob, JobStore, is_terminal_job_status, max_terminal_jobs, other_than, placed, persist,
  upsert, find_by_id, get_by_id,
}

-- No two jobs of the list have one id.
abbrev pub DistinctJobs : List LocalJob → Type 0
DistinctJobs [] = Unit
DistinctJobs (j ∷ js) = (find_by_id j.id js ≡ none) × DistinctJobs js

-- Each entry has the id of its job, which has not ended.
abbrev pub IsActive : Text × LocalJob → Type 0
IsActive (id, j) = (id ≡ j.id) × (is_terminal_job_status j.status ≡ false)

abbrev pub HasEnded : LocalJob → Type 0
HasEnded j = is_terminal_job_status j.status ≡ true

pub record IsValid (s : JobStore) : Type 0 where
  pub active_once : IsMap s.active
  pub active_live : All IsActive s.active
  pub terminal_once : DistinctJobs s.terminal
  pub terminal_ended : All HasEnded s.terminal
  pub bounded : length s.terminal ≤ max_terminal_jobs

insert-IsActive :
    (j : LocalJob) (m : List (Text × LocalJob))
    → is_terminal_job_status j.status ≡ false
    → All IsActive m
    → All IsActive (insert j.id j m)
unfolding insert
insert-IsActive j [] live h = ((refl, live), tt)
insert-IsActive j ((k, x) ∷ m) live h =
    ground (arith, same_iff k j.id, insert-IsActive j m live h.1)

delete-IsActive :
    (id : Text) (m : List (Text × LocalJob)) → All IsActive m → All IsActive (delete id m)
unfolding delete
delete-IsActive id [] h = tt
delete-IsActive id ((k, x) ∷ m) h = ground (arith, delete-IsActive id m h.1)

find_by_id-filter :
    (id k : Text) (js : List LocalJob)
    → find_by_id k (filter (other_than id) js) ≡ (if same id k then none else find_by_id k js)
unfolding find_by_id
find_by_id-filter id k [] = ground arith
find_by_id-filter id k (j ∷ js) =
    ground (arith, find_by_id-filter id k js, same_iff j.id id, same_iff j.id k, same_iff id k)

filter-DistinctJobs :
    (id : Text) (js : List LocalJob) → DistinctJobs js → DistinctJobs (filter (other_than id) js)
filter-DistinctJobs id [] h = tt
filter-DistinctJobs id (j ∷ js) h =
    ground (arith, find_by_id-filter id j.id js, filter-DistinctJobs id js h.1)

find_by_id-take :
    (k : Text) (n : ℕ) (js : List LocalJob)
    → find_by_id k js ≡ none
    → find_by_id k (take n js) ≡ none
unfolding find_by_id
find_by_id-take k zero js h = refl
find_by_id-take k (suc n) [] h = refl
find_by_id-take k (suc n) (j ∷ js) h = ground (arith, find_by_id-take k n js)

take-DistinctJobs : (n : ℕ) (js : List LocalJob) → DistinctJobs js → DistinctJobs (take n js)
take-DistinctJobs zero js h = tt
take-DistinctJobs (suc n) [] h = tt
take-DistinctJobs (suc n) (j ∷ js) h = (find_by_id-take j.id n js h.0, take-DistinctJobs n js h.1)

placed-IsValid : (j : LocalJob) (s : JobStore) → IsValid s → IsValid (placed j s)
unfolding placed
placed-IsValid j s v = elim (Bool-cases (is_terminal_job_status j.status)) [
  | inl over ↦
      let others = filter (other_than j.id) s.terminal in
      rw (over, placed)
        (record {
          active_once = delete-IsMap j.id s.active v.active_once;
          active_live = delete-IsActive j.id s.active v.active_live;
          terminal_once = take-DistinctJobs max_terminal_jobs (j ∷ others) (
            ground (arith, find_by_id-filter j.id j.id s.terminal, same_refl j.id),
            filter-DistinctJobs j.id s.terminal v.terminal_once,
          );
          terminal_ended =
              All-take HasEnded max_terminal_jobs (j ∷ others)
                (over, All-filter HasEnded (other_than j.id) s.terminal v.terminal_ended);
          bounded = omega (arith, length-take max_terminal_jobs (j ∷ others));
        })
  | inr live ↦
      rw (live, placed)
        (record {
          active_once = insert-IsMap j.id j s.active v.active_once;
          active_live = insert-IsActive j s.active live v.active_live;
          terminal_once = v.terminal_once;
          terminal_ended = v.terminal_ended;
          bounded = v.bounded;
        })
]

-- `upsert` keeps a store well-formed: no id twice among the active and none twice among the finished
-- jobs, each list of jobs of its kind only, and at most a hundred finished jobs.
pub upsert-IsValid : (j : LocalJob) (s : JobStore) → IsValid s → IsValid (upsert j s)
unfolding upsert persist
upsert-IsValid j s v =
    let w = placed-IsValid j s v in
    record {
      active_once = w.active_once;
      active_live = w.active_live;
      terminal_once = w.terminal_once;
      terminal_ended = w.terminal_ended;
      bounded = w.bounded;
    }

-- After `upsert` the job's id leads to the job, whatever its status and the store before.
pub get_by_id-upsert : (j : LocalJob) (s : JobStore) → get_by_id j.id (upsert j s) ≡ some j
unfolding get_by_id upsert persist placed find_by_id
get_by_id-upsert j s =
    ground
      (arith, lookup-insert_self j.id j s.active, lookup-delete_self j.id s.active, same_refl j.id)
