-- ===== src/Executor/Pruning.antt =====
-- `pruneTerminalCommands` of cloud-command-executor.ts forgets finished commands only, and leaves at
-- most 200 of them.
use closedloop_electron.Base.{
  ℕ, ◌-◌, ◌≡◌, refl, ◌∙◌, Bool, true, false, ◌&&◌, some, List, [], ◌∷◌, Text, same, same_iff,
  lookup, delete, lookup-delete, arith, IsMap, delete-IsMap, IsEntryOf, IsMap-entries, All, All-zip,
  All-filter, All-take, All-kept, filter, take, length,
}
use closedloop_electron.Executor.State.{Tracked, is_terminal}
use closedloop_electron.Executor.Prune.{
  is_terminal_entry, is_over, insert_by_completion, sort_by_completion, delete_all, prune,
  max_retained_terminal_commands,
}

-- The name of the entry is another one.
abbrev IsOther : Text → Text × Tracked → Type 0
IsOther id e = same e.0 id ≡ false

lookup-delete_all :
    (id : Text) (es m : List (Text × Tracked))
    → All (IsOther id) es
    → lookup id (delete_all es m) ≡ lookup id m
unfolding delete_all
lookup-delete_all id [] m h = refl
lookup-delete_all id ((k, t) ∷ es) m h =
    lookup-delete_all id es (delete k m) h.1 ∙ ground (arith, lookup-delete k id m)

delete_all-IsMap : (es m : List (Text × Tracked)) → IsMap m → IsMap (delete_all es m)
unfolding delete_all
delete_all-IsMap [] m h = h
delete_all-IsMap ((k, t) ∷ es) m h = delete_all-IsMap es (delete k m) (delete-IsMap k m h)

insert_by_completion-All {κ} :
    (P : Text × Tracked → Type κ) (e : Text × Tracked) (xs : List (Text × Tracked))
    → P e
    → All P xs
    → All P (insert_by_completion e xs)
unfolding insert_by_completion
insert_by_completion-All P e [] h k = (h, tt)
insert_by_completion-All P e (x ∷ xs) h k = ground (arith, insert_by_completion-All P e xs h k.1)

sort_by_completion-All {κ} :
    (P : Text × Tracked → Type κ) (xs : List (Text × Tracked))
    → All P xs
    → All P (sort_by_completion xs)
unfolding sort_by_completion
sort_by_completion-All P [] h = tt
sort_by_completion-All P (x ∷ xs) h =
    insert_by_completion-All P x (sort_by_completion xs) h.0 (sort_by_completion-All P xs h.1)

-- An entry of a finished command is not that of a command that goes on.
IsOther-of_live :
    (id : Text) (t : Tracked) (m : List (Text × Tracked)) (e : Text × Tracked)
    → lookup id m ≡ some t
    → is_terminal t.state ≡ false
    → IsEntryOf m e
    → is_terminal_entry e ≡ true
    → IsOther id e
IsOther-of_live id t m (k, u) a live b over = ground (arith, same_iff k id)

pub prune-IsMap : (now : ℕ) (m : List (Text × Tracked)) → IsMap m → IsMap (prune now m)
unfolding prune
prune-IsMap now m h = delete_all-IsMap _ _ (delete_all-IsMap _ m h)

and_left : (a b : Bool) → (a && b) ≡ true → a ≡ true
and_left a b h = ground arith

-- In a map with no id twice, a command that has not finished is remembered as it was.
pub prune-keeps_live :
    (now : ℕ) (m : List (Text × Tracked)) (id : Text) (t : Tracked)
    → IsMap m
    → lookup id m ≡ some t
    → is_terminal t.state ≡ false
    → lookup id (prune now m) ≡ some t
unfolding prune
prune-keeps_live now m id t once here live =
    lookup-delete_all id _ kept old ∙ lookup-delete_all id over m stale ∙ here
  where
    over : List (Text × Tracked)
    over = filter (λ e. is_terminal_entry e && is_over now e.1) m

    kept : List (Text × Tracked)
    kept = delete_all over m

    stale : All (IsOther id) over
    stale =
        All-zip over (λ e b h. IsOther-of_live id t m e here live b (and_left _ _ h))
          (All-filter (IsEntryOf m) _ m (IsMap-entries m once)) (All-kept _ m)

    kept_here : lookup id kept ≡ some t
    kept_here = lookup-delete_all id over m stale ∙ here

    old : All (IsOther id) (
        take
          (length (sort_by_completion (filter is_terminal_entry kept))
            - max_retained_terminal_commands)
          (sort_by_completion (filter is_terminal_entry kept)))
    old = All-take (IsOther id) _ _ (
        sort_by_completion-All (IsOther id) _ (
          All-zip (filter is_terminal_entry kept)
            (λ e b h. IsOther-of_live id t kept e kept_here live b h)
            (All-filter (IsEntryOf kept) _ kept (IsMap-entries kept (delete_all-IsMap over m once)))
            (All-kept _ kept)))
