-- ===== src/Executor/Prune.antt =====
-- `pruneTerminalCommands`: what is remembered of finished commands is bounded.
use closedloop_electron.Base.{
  ℕ, ◌-◌, Bool, false, ◌&&◌, not, none, some, List, [], ◌∷◌, Text, filter, take, length, delete,
  ltb, ◌==◌, if◌then◌else◌,
}
use closedloop_electron.Executor.State.{Tracked, Executor, is_terminal}

-- Ten minutes.
abbrev pub command_retention_ms : ℕ
command_retention_ms = 600000

abbrev pub max_retained_terminal_commands : ℕ
max_retained_terminal_commands = 200

abbrev max_safe_integer : ℕ
max_safe_integer = 9007199254740991

abbrev pub is_terminal_entry : Text × Tracked → Bool
is_terminal_entry (id, t) = is_terminal t.state

-- A missing time, and the time 0, do not count as over.
unfoldable pub is_over : ℕ → Tracked → Bool
is_over now t = elim t.completed_at [
  | none ↦ false
  | some at ↦ not (at == 0) && ltb command_retention_ms (now - at)
]

unfoldable pub completion : Text × Tracked → ℕ
completion (id, t) = elim t.completed_at [ none ↦ max_safe_integer | some at ↦ at ]

-- The stable sort by the time of completion.
unfoldable pub insert_by_completion : Text × Tracked → List (Text × Tracked) → List (Text × Tracked)
insert_by_completion e [] = e ∷ []
insert_by_completion e (x ∷ xs) =
    if ltb (completion x) (completion e) then x ∷ insert_by_completion e xs else e ∷ x ∷ xs

unfoldable pub sort_by_completion : List (Text × Tracked) → List (Text × Tracked)
sort_by_completion [] = []
sort_by_completion (e ∷ es) = insert_by_completion e (sort_by_completion es)

unfoldable pub delete_all : List (Text × Tracked) → List (Text × Tracked) → List (Text × Tracked)
delete_all [] m = m
delete_all ((id, t) ∷ es) m = delete_all es (delete id m)

unfoldable pub prune : ℕ → List (Text × Tracked) → List (Text × Tracked)
prune now m =
    let over = filter (λ e. is_terminal_entry e && is_over now e.1) m in
    let kept = delete_all over m in
    let finished = sort_by_completion (filter is_terminal_entry kept) in
    delete_all (take (length finished - max_retained_terminal_commands) finished) kept

unfoldable pub prune_terminal_commands : ℕ → Executor → Executor
unfolding prune
prune_terminal_commands now s = record s { tracked = prune now s.tracked }
