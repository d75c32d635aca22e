-- ===== src/Boot/Sweep.antt =====
-- Which tokens `sweepOrphanedTokens` of boot-recovery.ts leaves.
use closedloop_electron.Base.{
  ◌≡◌, refl, Bool, true, false, none, List, [], ◌∷◌, Text, same, same_iff, lookup, lookup-delete,
  delete, arith, if◌then◌else◌, ℕ, some, ◌⊎◌, inl, inr, text, not, is_empty, Option-cases,
  Bool-cases,
}
use closedloop_electron.Json.{Json, undefined, null, bool, int, float, str, arr, obj, get}
use closedloop_electron.JobStore.{LocalJob, JobStore, get_by_loop_id, is_terminal_job_status}
use closedloop_electron.Loops.Tokens.{Disk, delete_loop_token, list_loop_ids}
use closedloop_electron.Boot.Status.{Boot}
use closedloop_electron.Boot.Candidates.{is_orphan, sweep_each, sweep_orphaned_tokens}

sweep_each-lookup :
    (s : JobStore) (ids : List Text) (loop : Text) (tokens : Disk)
    → is_orphan s loop ≡ false
    → lookup loop (sweep_each s ids tokens) ≡ lookup loop tokens
unfolding sweep_each delete_loop_token
sweep_each-lookup s [] loop tokens h = refl
sweep_each-lookup s (i ∷ ids) loop tokens h = ground (
  arith,
  same_iff i loop,
  lookup-delete i loop tokens,
  sweep_each-lookup s ids loop tokens,
  sweep_each-lookup s ids loop (delete i tokens),
)

-- Whether a text is among others.
abbrev is_among : Text → List Text → Bool
is_among t [] = false
is_among t (u ∷ us) = if same u t then true else is_among t us

sweep_each-none :
    (s : JobStore) (ids : List Text) (loop : Text) (tokens : Disk)
    → lookup loop tokens ≡ none
    → lookup loop (sweep_each s ids tokens) ≡ none
unfolding sweep_each delete_loop_token
sweep_each-none s [] loop tokens h = h
sweep_each-none s (i ∷ ids) loop tokens h = ground (
  arith,
  lookup-delete i loop tokens,
  sweep_each-none s ids loop tokens,
  sweep_each-none s ids loop (delete i tokens),
)

sweep_each-orphan :
    (s : JobStore) (ids : List Text) (loop : Text) (tokens : Disk)
    → is_orphan s loop ≡ true
    → is_among loop ids ≡ true
    → lookup loop (sweep_each s ids tokens) ≡ none
unfolding sweep_each delete_loop_token
sweep_each-orphan s [] loop tokens h e = absurd (cc)
sweep_each-orphan s (i ∷ ids) loop tokens h e = ground (
  arith,
  same_iff i loop,
  lookup-delete i loop tokens,
  sweep_each-none s ids loop (delete i tokens),
  sweep_each-orphan s ids loop tokens,
  sweep_each-orphan s ids loop (delete i tokens),
)

lookup-none :
    (loop : Text) (m : Disk) → is_among loop (list_loop_ids m) ≡ false → lookup loop m ≡ none
unfolding list_loop_ids lookup
lookup-none loop [] h = refl
lookup-none loop ((k, v) ∷ m) h = ground (arith, lookup-none loop m)

-- The token of a loop is still needed: its job has not ended, or its record has no date of the end
-- in the cloud.
pub data IsNeeded (s : JobStore) (loop : Text) : Type 0 where
  not_ended :
      {j : LocalJob}
      → get_by_loop_id loop s ≡ some j
      → is_terminal_job_status j.status ≡ false
      → IsNeeded s loop
  not_reported :
      {j : LocalJob}
      → get_by_loop_id loop s ≡ some j
      → ((date : Text) → get (text "cloudFinalizedAt") j.other ≡ str date → date ≡ [])
      → IsNeeded s loop

-- It is not: the loop has no job, or one that ended and has the date of its end in the cloud.
pub data IsUnneeded (s : JobStore) (loop : Text) : Type 0 where
  no_job : get_by_loop_id loop s ≡ none → IsUnneeded s loop
  reported :
      {j : LocalJob} {c : ℕ} {date : Text}
      → get_by_loop_id loop s ≡ some j
      → is_terminal_job_status j.status ≡ true
      → get (text "cloudFinalizedAt") j.other ≡ str (c ∷ date)
      → IsUnneeded s loop

abbrev holds_date : Json → Bool
holds_date v = elim v [ str s ↦ not (is_empty s) | _ ↦ false ]

dated :
    (v : Json)
    → ((c : ℕ) × (date : Text) × (v ≡ str (c ∷ date)) × (holds_date v ≡ true))
      ⊎ (holds_date v ≡ false)
dated (str (c ∷ date)) = inl (c, date, refl, refl)
dated (str []) = inr refl
dated undefined = inr refl
dated null = inr refl
dated (bool b) = inr refl
dated (int n) = inr refl
dated (float t) = inr refl
dated (arr vs) = inr refl
dated (obj fs) = inr refl

undated : (v : Json) (date : Text) → holds_date v ≡ false → v ≡ str date → date ≡ []
undated v [] h e = refl
undated v (c ∷ date) h e = absurd (ground arith)

needs :
    (s : JobStore) (loop : Text)
    → (IsNeeded s loop × (is_orphan s loop ≡ false))
      ⊎ (IsUnneeded s loop × (is_orphan s loop ≡ true))
unfolding is_orphan
needs s loop = elim (Option-cases (get_by_loop_id loop s)) [
  | inl e ↦ inr (no_job e, ground arith)
  | inr (j, e) ↦ elim (Bool-cases (is_terminal_job_status j.status)) [
    | inr f ↦ inl (not_ended e f, ground arith)
    | inl f ↦ elim (dated (get (text "cloudFinalizedAt") j.other)) [
      | inl (c, date, g, k) ↦ inr (reported e f g, ground (arith, e, f, k))
      | inr g ↦ inl (
        not_reported e λ date k. undated (get (text "cloudFinalizedAt") j.other) date g k,
        ground (arith, e, f, g),
      )
    ]
  ]
]

-- After the sweep each loop is of one of two kinds: its job has not ended or has no date of the end
-- in the cloud, and its token is the one it had; or it has no job, or one that ended and has that
-- date, and it has no token.
pub sweep_orphaned_tokens-lookup :
    (loop : Text) (b : Boot)
    → (IsNeeded b.jobs loop × (lookup loop (sweep_orphaned_tokens b).tokens ≡ lookup loop b.tokens))
      ⊎ (IsUnneeded b.jobs loop × (lookup loop (sweep_orphaned_tokens b).tokens ≡ none))
unfolding sweep_orphaned_tokens
sweep_orphaned_tokens-lookup loop b =
    let ids = list_loop_ids b.tokens in
    elim (needs b.jobs loop) [
      | inl (needed, e) ↦ inl (needed, sweep_each-lookup b.jobs ids loop b.tokens e)
      | inr (unneeded, e) ↦ inr (
        unneeded,
        elim (Bool-cases (is_among loop ids)) [
          | inl k ↦ sweep_each-orphan b.jobs ids loop b.tokens e k
          | inr k ↦ sweep_each-none b.jobs ids loop b.tokens (lookup-none loop b.tokens k)
        ],
      )
    ]
