-- ===== src/Boot/Candidates.antt =====
-- `buildRecoveryCandidates` and `sweepOrphanedTokens` of boot-recovery.ts, and what they select.
use closedloop_electron.Base.{
  ℕ, Bool, true, false, not, ◌&&◌, none, some, List, [], ◌∷◌, filter, Text, text, is_empty, insert,
  ltb, if◌then◌else◌,
}
use closedloop_electron.Json.{str, int, pos, get}
use closedloop_electron.JobStore.{
  LocalJob, JobStore, values, is_terminal_job_status, get_by_loop_id, list_completed,
}
use closedloop_electron.Loops.Tokens.{Disk, delete_loop_token, list_loop_ids}
use closedloop_electron.Boot.Status.{Boot}

abbrev pub max_recovery_attempts : ℕ
max_recovery_attempts = 3

-- A date that is there and not empty.
abbrev pub has_date : Text → LocalJob → Bool
has_date key j = elim (get key j.other) [ str s ↦ not (is_empty s) | _ ↦ false ]

-- `job.recoveryAttempts ?? 0`
abbrev pub attempts_of : LocalJob → ℕ
attempts_of j = elim (get (text "recoveryAttempts") j.other) [ int (pos n) ↦ n | _ ↦ 0 ]

abbrev pub set_by_loop : List LocalJob → List (Text × LocalJob) → List (Text × LocalJob)
set_by_loop [] m = m
set_by_loop (j ∷ js) m = set_by_loop js (insert j.loop_id j m)

abbrev is_unfinished : LocalJob → Bool
is_unfinished j =
    has_date (text "finalStatusPersistedAt") j && not (has_date (text "cloudFinalizedAt") j)

abbrev pub is_candidate : LocalJob → Bool
is_candidate j =
    not (has_date (text "cloudFinalizedAt") j) && ltb (attempts_of j) max_recovery_attempts

-- `buildRecoveryCandidates`
unfoldable pub build_recovery_candidates : JobStore → List LocalJob → List LocalJob
build_recovery_candidates s dead =
    filter is_candidate
      (values (set_by_loop (filter is_unfinished (list_completed s)) (set_by_loop dead [])))

-- The token of a loop is swept if the loop has no job, or one that ended here and in the cloud.
unfoldable pub is_orphan : JobStore → Text → Bool
is_orphan s loop = elim (get_by_loop_id loop s) [
  | none ↦ true
  | some j ↦ is_terminal_job_status j.status && has_date (text "cloudFinalizedAt") j
]

unfoldable pub sweep_each : JobStore → List Text → Disk → Disk
unfolding is_orphan
sweep_each s [] tokens = tokens
sweep_each s (loop ∷ loops) tokens =
    sweep_each s loops (if is_orphan s loop then delete_loop_token loop tokens else tokens)

-- `sweepOrphanedTokens`
unfoldable pub sweep_orphaned_tokens : Boot → Boot
unfolding sweep_each
sweep_orphaned_tokens b = record b { tokens = sweep_each b.jobs (list_loop_ids b.tokens) b.tokens }
