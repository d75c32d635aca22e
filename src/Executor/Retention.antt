-- ===== src/Executor/Retention.antt =====
-- How many finished commands `pruneTerminalCommands` of cloud-command-executor.ts leaves.
use closedloop_electron.Base.{
  ℕ, ◌+◌, ◌-◌, ◌≤◌, ◌≡◌, refl, ◌∙◌, Bool, true, false, ◌&&◌, List, [], ◌∷◌, Text, same, same_refl,
  delete, arith, filter, take, length, if◌then◌else◌, not, ◌||◌, All, All-map, zero, suc,
}
use closedloop_electron.Executor.State.{Tracked}
use closedloop_electron.Executor.Prune.{
  is_terminal_entry, is_over, insert_by_completion, sort_by_completion, delete_all, prune,
  max_retained_terminal_commands,
}

-- The entry's name stands in the list.
names : Text → List (Text × Tracked) → Bool
names k [] = false
names k ((j, t) ∷ es) = same k j || names k es

abbrev spared : List (Text × Tracked) → Text × Tracked → Bool
spared es e = not (names e.0 es)

-- How many entries pass a test.
count : (Text × Tracked → Bool) → List (Text × Tracked) → ℕ
count p [] = 0
count p (x ∷ xs) = if p x then count p xs + 1 else count p xs

count-insert :
    (p : Text × Tracked → Bool) (e : Text × Tracked) (xs : List (Text × Tracked))
    → count p (insert_by_completion e xs) ≡ count p (e ∷ xs)
unfolding insert_by_completion count
count-insert p e [] = refl
count-insert p e (x ∷ xs) = ground (arith, count-insert p e xs)

-- Sorting loses nothing.
count-sort :
    (p : Text × Tracked → Bool) (xs : List (Text × Tracked))
    → count p (sort_by_completion xs) ≡ count p xs
unfolding sort_by_completion count
count-sort p [] = refl
count-sort p (x ∷ xs) = count-insert p x (sort_by_completion xs) ∙ ground (arith, count-sort p xs)

count-le-length : (p : Text × Tracked → Bool) (xs : List (Text × Tracked)) → count p xs ≤ length xs
unfolding count
count-le-length p [] = omega arith
count-le-length p (x ∷ xs) = ground (arith, count-le-length p xs)

-- The entries of the front are not spared.
count-take :
    (n : ℕ) (xs es : List (Text × Tracked))
    → All (λ e. names e.0 es ≡ true) (take n xs)
    → count (spared es) xs ≤ length xs - n
unfolding count
count-take zero xs es h = omega (arith, count-le-length (spared es) xs)
count-take (suc n) [] es h = omega arith
count-take (suc n) (x ∷ xs) es h = ground (arith, h.0, count-take n xs es h.1)

names_own : (es : List (Text × Tracked)) → All (λ e. names e.0 es ≡ true) es
unfolding names
names_own [] = tt
names_own ((k, t) ∷ es) = (rw (same_refl k), All-map es (λ e h. ground (arith, h)) (names_own es))

count-ext :
    (p q : Text × Tracked → Bool) (xs : List (Text × Tracked))
    → ((e : Text × Tracked) → p e ≡ q e)
    → count p xs ≡ count q xs
unfolding count
count-ext p q [] h = refl
count-ext p q (x ∷ xs) h = ground (arith, h x, count-ext p q xs h)

count-delete :
    (p : Text × Tracked → Bool) (k : Text) (m : List (Text × Tracked))
    → count p (delete k m) ≡ count (λ e. not (same e.0 k) && p e) m
unfolding count delete
count-delete p k [] = refl
count-delete p k ((j, t) ∷ m) = ground (arith, count-delete p k m)

count-delete_all :
    (p : Text × Tracked → Bool) (es m : List (Text × Tracked))
    → count p (delete_all es m) ≡ count (λ e. spared es e && p e) m
unfolding delete_all names
count-delete_all p [] m = count-ext p _ m (λ e. refl)
count-delete_all p ((k, t) ∷ es) m =
    count-delete_all p es (delete k m)
    ∙ count-delete (λ e. spared es e && p e) k m
    ∙ count-ext _ _ m (λ e. ground arith)

count-filter :
    (p q : Text × Tracked → Bool) (m : List (Text × Tracked))
    → count q (filter p m) ≡ count (λ e. q e && p e) m
unfolding count
count-filter p q [] = refl
count-filter p q (x ∷ m) = ground (arith, count-filter p q m)

length-filter-count :
    (p : Text × Tracked → Bool) (m : List (Text × Tracked)) → length (filter p m) ≡ count p m
unfolding count
length-filter-count p [] = refl
length-filter-count p (x ∷ m) = ground (arith, length-filter-count p m)

-- After `delete_all` of the front of the sorted entries, at most the others are left.
count-front :
    (n : ℕ) (m : List (Text × Tracked))
    → let finished = sort_by_completion (filter is_terminal_entry m) in
      count is_terminal_entry (delete_all (take n finished) m) ≤ length finished - n
count-front n m =
    let finished = sort_by_completion (filter is_terminal_entry m) in
    let front = take n finished in
    omega (
      arith,
      count-delete_all is_terminal_entry front m,
      count-filter is_terminal_entry (spared front) m,
      count-sort (spared front) (filter is_terminal_entry m),
      count-take n finished front (names_own front),
    )

-- Pruning leaves at most 200 finished commands.
pub prune-bounded :
    (now : ℕ) (m : List (Text × Tracked))
    → length (filter is_terminal_entry (prune now m)) ≤ max_retained_terminal_commands
unfolding prune
prune-bounded now m =
    let kept = delete_all (filter (λ e. is_terminal_entry e && is_over now e.1) m) m in
    let finished = sort_by_completion (filter is_terminal_entry kept) in
    omega (
      arith,
      length-filter-count is_terminal_entry (prune now m),
      count-front (length finished - max_retained_terminal_commands) kept,
    )
