-- ===== src/JobStore/Reload.antt =====
-- A JobStore (apps/desktop/src/main/job-store.ts) that is opened on what `persist` wrote.
use closedloop_electron.Base.{
  ℕ, zero, suc, ◌≤◌, ◌≡◌, refl, ◌∙◌, sym, ap, false, none, some, List, [], ◌∷◌, ◌++◌, Text, same,
  same_iff, lookup, insert, take, length, All, All-zip, IsMap, arith,
}
use mathlib.Core.List.{append-nil, append_assoc}
use closedloop_electron.JobStore.{
  LocalJob, JobStore, max_terminal_jobs, index_by_id, open_store, persist, values,
}
use closedloop_electron.JobStore.Invariant.{IsValid, IsActive}

module _ {ℓ} {V : Type ℓ} where
  insert_new :
      (k : Text) (v : V) (m : List (Text × V)) → lookup k m ≡ none → insert k v m ≡ m ++ (k, v) ∷ []
  unfolding insert lookup
  insert_new k v [] h = refl
  insert_new k v ((j, w) ∷ m) h = ground (arith, insert_new k v m)

  lookup-snoc :
      (k j : Text) (v : V) (m : List (Text × V))
      → lookup j m ≡ none
      → same k j ≡ false
      → lookup j (m ++ (k, v) ∷ []) ≡ none
  unfolding lookup
  lookup-snoc k j v [] h e = ground arith
  lookup-snoc k j v ((i, w) ∷ m) h e = ground (arith, lookup-snoc k j v m)

  -- A key that is not found is the key of no entry.
  apart_of_missing :
      (k : Text) (m : List (Text × V)) → lookup k m ≡ none → All (λ e. same e.0 k ≡ false) m
  unfolding lookup
  apart_of_missing k [] h = tt
  apart_of_missing k ((j, w) ∷ m) h = ground (arith, apart_of_missing k m)

index_by_id-values :
    (acc m : List (Text × LocalJob))
    → IsMap m
    → All IsActive m
    → All (λ e. lookup e.0 acc ≡ none) m
    → index_by_id acc (values m) ≡ acc ++ m
unfolding index_by_id
index_by_id-values acc [] once live new = sym (append-nil acc)
index_by_id-values acc ((k, j) ∷ m) once live new =
    let grown : insert j.id j acc ≡ acc ++ (k, j) ∷ [] =
      ap (λ (x : Text). insert x j acc) (sym live.0.0) ∙ insert_new k j acc new.0 in
    let still : All (λ e. lookup e.0 (acc ++ (k, j) ∷ []) ≡ none) m =
      All-zip m
        (λ e a b. lookup-snoc k e.0 j acc a (ground (arith, b, same_iff e.0 k, same_iff k e.0)))
        new.1 (apart_of_missing k m once.0) in
    ap (λ (a : List (Text × LocalJob)). index_by_id a (values m)) grown
    ∙ index_by_id-values (acc ++ (k, j) ∷ []) m once.1 live.1 still
    ∙ append_assoc acc ((k, j) ∷ []) m

take_all : (n : ℕ) (js : List LocalJob) → length js ≤ n → take n js ≡ js
take_all zero [] h = refl
take_all zero (j ∷ js) h = absurd (omega arith)
take_all (suc n) [] h = refl
take_all (suc n) (j ∷ js) h = ap (λ (l : List LocalJob). j ∷ l) (take_all n js (omega arith))

no_entries : (m : List (Text × LocalJob)) → All (λ e. lookup {V = LocalJob} e.0 [] ≡ none) m
unfolding lookup
no_entries [] = tt
no_entries (e ∷ m) = (refl, no_entries m)

-- What the constructor reads back is the store that was written, if that is well-formed.
pub open_store-persist :
    (s : JobStore)
    → IsValid s
    → open_store (some (persist s).disk.active_jobs) (some (persist s).disk.terminal_jobs)
      ≡ persist s
unfolding open_store persist
open_store-persist s v = rw (
  index_by_id-values [] s.active v.active_once v.active_live (no_entries s.active),
  take_all max_terminal_jobs s.terminal v.bounded,
)
