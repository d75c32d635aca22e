-- ===== src/JobStore/Reconcile.antt =====
-- `reconcile` of JobStore (apps/desktop/src/main/job-store.ts), which runs when the app starts.
use closedloop_electron.Base.{
  ◌≡◌, refl, ◌∙◌, sym, ap, Bool, false, Option, none, some, List, [], ◌∷◌, map, Text, same,
  same_iff, lookup, lookup-insert, lookup-delete, filter, All, All-zip, arith, Bool-cases,
  Option-cases, inl, inr, IsMap, IsEntryOf, IsMap-entries, if◌then◌else◌,
}
use closedloop_electron.JobStore.{
  LocalJob, JobStore, is_terminal_job_status, placed, persist, upsert, find_by_id, values, checked,
  reconcile_one, reconcile_all, reconcile,
}
use closedloop_electron.JobStore.Invariant.{IsValid, IsActive, DistinctJobs, upsert-IsValid}

-- The job, unless it has ended.
abbrev pub live_part : LocalJob → Option LocalJob
live_part j = if is_terminal_job_status j.status then none else some j

abbrev pub has_ended : LocalJob → Bool
has_ended j = is_terminal_job_status j.status

updated-IsValid :
    (s : JobStore)
    → IsValid s
    → (o : Option LocalJob) → IsValid (elim o [ none ↦ s | some updated ↦ upsert updated s ])
updated-IsValid s v none = v
updated-IsValid s v (some u) = upsert-IsValid u s v

apart_of_unfound :
    (id : Text) (js : List LocalJob) → find_by_id id js ≡ none → All (λ j. same j.id id ≡ false) js
unfolding find_by_id
apart_of_unfound id [] h = tt
apart_of_unfound id (j ∷ js) h = ground (arith, apart_of_unfound id js)

lookup-upsert :
    (k : Text) (j : LocalJob) (s : JobStore)
    → lookup k (upsert j s).active ≡ (if same j.id k then live_part j else lookup k s.active)
unfolding upsert persist placed
lookup-upsert k j s = ground (arith, lookup-insert j.id k j s.active, lookup-delete j.id k s.active)

module _ (check : LocalJob → Option LocalJob)
    (keeps : (j : LocalJob) → (checked check j).id ≡ j.id) where
  lookup-reconcile_one :
      (k : Text) (j : LocalJob) (s : JobStore)
      → lookup j.id s.active ≡ some j
      → lookup k (reconcile_one check j s).0.active
        ≡ (if same j.id k then live_part (checked check j) else lookup k s.active)
  unfolding reconcile_one
  lookup-reconcile_one k j s here = elim (Option-cases (check j)) [
    | inl e ↦ ground (arith, e, here, same_iff j.id k, lookup-upsert k j s)
    | inr (u, e) ↦ ground (arith, e, keeps j, lookup-upsert k u s)
  ]

  reconcile_one-ended :
      (j : LocalJob) (s : JobStore)
      → (reconcile_one check j s).1 ≡ filter has_ended (checked check j ∷ [])
  unfolding reconcile_one
  reconcile_one-ended j s = ground arith

  reconcile_one-IsValid :
      (j : LocalJob) (s : JobStore) → IsValid s → IsValid (reconcile_one check j s).0
  unfolding reconcile_one
  reconcile_one-IsValid j s v =
      elim (Bool-cases (is_terminal_job_status (checked check j).status)) [
        | inl over ↦ rw (over, reconcile_one) (upsert-IsValid (checked check j) s v)
        | inr live ↦ rw (live, reconcile_one) (updated-IsValid s v (check j))
      ]

  reconcile_all-IsValid :
      (js : List LocalJob) (s : JobStore) → IsValid s → IsValid (reconcile_all check js s).0
  unfolding reconcile_all
  reconcile_all-IsValid [] s v = v
  reconcile_all-IsValid (j ∷ js) s v =
      reconcile_all-IsValid js (reconcile_one check j s).0 (reconcile_one-IsValid j s v)

  reconcile_all-ended :
      (js : List LocalJob) (s : JobStore)
      → (reconcile_all check js s).1 ≡ filter has_ended (map (checked check) js)
  unfolding reconcile_all
  reconcile_all-ended [] s = refl
  reconcile_all-ended (j ∷ js) s =
      ground (arith, reconcile_one-ended j s, reconcile_all-ended js (reconcile_one check j s).0)

  lookup-reconcile_all :
      (k : Text) (js : List LocalJob) (s : JobStore)
      → DistinctJobs js
      → All (λ j. lookup j.id s.active ≡ some j) js
      → lookup k (reconcile_all check js s).0.active ≡ (elim (find_by_id k js) [
        | none ↦ lookup k s.active
        | some j ↦ live_part (checked check j)
      ])
  unfolding reconcile_all find_by_id
  lookup-reconcile_all k [] s once here = refl
  lookup-reconcile_all k (j ∷ js) s once here =
      let t = (reconcile_one check j s).0 in
      let still : All (λ x. lookup x.id t.active ≡ some x) js =
        All-zip js
          (λ x a b. ground (
            arith,
            a,
            b,
            lookup-reconcile_one x.id j s here.0,
            same_iff x.id j.id,
            same_iff j.id x.id,
          ))
          here.1 (apart_of_unfound j.id js once.0) in
      ground (
        arith,
        lookup-reconcile_all k js t once.1 still,
        lookup-reconcile_one k j s here.0,
        same_iff j.id k,
        once.0,
      )

find_by_id-values :
    (k : Text) (m : List (Text × LocalJob)) → All IsActive m → find_by_id k (values m) ≡ lookup k m
unfolding find_by_id lookup
find_by_id-values k [] live = refl
find_by_id-values k ((i, j) ∷ m) live =
    ground (arith, find_by_id-values k m live.1, live.0.0, same_iff i k, same_iff j.id k)

-- The active jobs of a valid store, one by one.
values-DistinctJobs :
    (m : List (Text × LocalJob)) → IsMap m → All IsActive m → DistinctJobs (values m)
values-DistinctJobs [] once live = tt
values-DistinctJobs ((k, j) ∷ m) once live =
    (ground (arith, find_by_id-values k m live.1, live.0.0), values-DistinctJobs m once.1 live.1)

values-found :
    (m : List (Text × LocalJob))
    → All (IsEntryOf m) m
    → All IsActive m
    → All (λ j. lookup j.id m ≡ some j) (values m)
values-found m = go m
  where
    go :
        (l : List (Text × LocalJob))
        → All (IsEntryOf m) l
        → All IsActive l
        → All (λ j. lookup j.id m ≡ some j) (values l)
    go [] h k = tt
    go ((id, j) ∷ l) h k = (ap (λ (x : Text). lookup x m) (sym k.0.0) ∙ h.0, go l h.1 k.1)

-- With a check that keeps each job's id, `reconcile` takes a well-formed store to a well-formed one,
-- whose active jobs are the live answers of the check under their ids; it returns the answers that
-- have ended, in the order of the map.
pub reconcile_lem :
    (check : LocalJob → Option LocalJob) (s : JobStore)
    → ((j : LocalJob) → (checked check j).id ≡ j.id)
    → IsValid s
    → ((k : Text)
        → lookup k (reconcile check s).0.active
          ≡ (elim (lookup k s.active) [ none ↦ none | some j ↦ live_part (checked check j) ]))
      × ((reconcile check s).1 ≡ filter has_ended (map (checked check) (values s.active)))
      × IsValid (reconcile check s).0
unfolding reconcile
reconcile_lem check s keeps v = (
  (λ k. ground (
    arith,
    lookup-reconcile_all check keeps k (values s.active) s
        (values-DistinctJobs s.active v.active_once v.active_live)
        (values-found s.active (IsMap-entries s.active v.active_once) v.active_live),
    find_by_id-values k s.active v.active_live,
  )),
  reconcile_all-ended check keeps (values s.active) s,
  reconcile_all-IsValid check keeps (values s.active) s v,
)
