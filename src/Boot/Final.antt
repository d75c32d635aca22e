-- ===== src/Boot/Final.antt =====
-- What `finalizeAsTerminal` of boot-recovery.ts leaves behind.
use closedloop_electron.Base.{
  ◌≡◌, refl, ◌∙◌, inl, inr, true, none, List, ◌∷◌, Text, text, same_refl, lookup,
  lookup-delete_self, arith, Option-cases, filter, take,
}
use closedloop_electron.Json.{Json, str, Fields, end, field, get, set_field}
use closedloop_electron.JobStore.{LocalJob, other_than, get_by_loop_id, is_terminal_job_status}
use closedloop_electron.JobStore.Newest.{get_by_loop_id-loop_id, upsert-newest}
use closedloop_electron.Heartbeat.Classifier.{
  TerminalReason, timed_out, unauthorized, not_found, gone,
}
use closedloop_electron.Loops.Tokens.{delete_loop_token}
use closedloop_electron.Boot.Status.{Deps, Boot}
use closedloop_electron.Boot.Reconcile.{finalized, current_job, finalize_as_terminal}

-- The newest finished job of the store is of the loop and ended in the cloud, and the loop's token is
-- deleted.
abbrev pub IsFinal : Text → Text → Boot → Type 0
IsFinal now loop b =
    (lookup loop b.tokens ≡ none)
    × ((j : LocalJob) × (rest : List LocalJob) × (b.jobs.terminal ≡ j ∷ rest)
        × (j.loop_id ≡ loop)
        × (get (text "cloudFinalizedAt") j.other ≡ str now))

get-set_field : (k : Text) (v : Json) (fs : Fields) → get k (set_field k v fs) ≡ v
unfolding get set_field
get-set_field k v end = ground (arith, same_refl k)
get-set_field k v (field j w fs) = ground (arith, get-set_field k v fs)

current_job-loop_id : (job : LocalJob) (b : Boot) → (current_job job b).loop_id ≡ job.loop_id
current_job-loop_id job b = elim (Option-cases (get_by_loop_id job.loop_id b.jobs)) [
  | inl e ↦ ground arith
  | inr (j, e) ↦ ground (arith, get_by_loop_id-loop_id job.loop_id b.jobs j)
]

finalized-ended :
    (now : Text) (reason : TerminalReason) (j : LocalJob)
    → is_terminal_job_status (finalized now reason j).status ≡ true
unfolding finalized is_terminal_job_status
finalized-ended now timed_out j = refl
finalized-ended now unauthorized j = refl
finalized-ended now not_found j = refl
finalized-ended now gone j = refl

finalized-loop_id :
    (now : Text) (reason : TerminalReason) (j : LocalJob)
    → (finalized now reason j).loop_id ≡ j.loop_id
unfolding finalized
finalized-loop_id now reason j = refl

finalized-cloud :
    (now : Text) (reason : TerminalReason) (j : LocalJob)
    → get (text "cloudFinalizedAt") (finalized now reason j).other ≡ str now
unfolding finalized
finalized-cloud now reason j = get-set_field (text "cloudFinalizedAt") (str now) _

pub finalize_as_terminal-IsFinal :
    (d : Deps) (job : LocalJob) (reason : TerminalReason) (b : Boot)
    → IsFinal d.now job.loop_id (finalize_as_terminal d job reason b).1
unfolding finalize_as_terminal delete_loop_token
finalize_as_terminal-IsFinal d job reason b =
    let j = current_job job b in
    (
      lookup-delete_self job.loop_id b.tokens,
      (
        finalized d.now reason j,
        take 99 (filter (other_than j.id) b.jobs.terminal),
        upsert-newest (finalized d.now reason j) b.jobs (finalized-ended d.now reason j),
        finalized-loop_id d.now reason j ∙ current_job-loop_id job b,
        finalized-cloud d.now reason j,
      ),
    )
