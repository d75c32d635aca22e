-- ===== src/Executor/Queue.antt =====
-- The queue of cloud-command-executor.ts: what waits is tracked as queued, once, and is not in
-- flight.
use closedloop_electron.Base.{
  ◌+◌, ◌≡◌, refl, Bool, true, false, Option, none, some, List, [], ◌∷◌, Text, same, same_iff,
  lookup, length, All, arith, IsMap, if◌then◌else◌,
}
use closedloop_electron.Executor.State.{Command, Running, Tracked, Executor, queued}
use closedloop_electron.Executor.Schedule.{is_free, take_free, put_back}
use closedloop_electron.Executor.Calls.{remove_queued, keep_first}
use closedloop_electron.Executor.Frame.{state_of}

-- `rest` is `q` without one `c`, at any place.
pub data Picks {ℓ} {A : Type ℓ} (c : A) : List A → List A → Type ℓ where
  here : {q : List A} → Picks c (c ∷ q) q
  there : {d : A} {q rest : List A} → Picks c q rest → Picks c (d ∷ q) (d ∷ rest)

module _ {ℓ} {A : Type ℓ} {c : A} where
  pub Picks-length : {q rest : List A} → Picks c q rest → length q ≡ length rest + 1
  Picks-length here = omega arith
  Picks-length (there p) = omega (arith, Picks-length p)

  pub Picks-All {κ} :
      (P : A → Type κ) {q rest : List A} → Picks c q rest → All P q → P c × All P rest
  Picks-All P here h = h
  Picks-All P (there p) h = let (a, b) = Picks-All P p h.1 in (a, (h.0, b))

-- No two commands of the list have one name.
abbrev pub Distinct : List Command → Type 0
Distinct [] = Unit
Distinct (c ∷ q) = All (λ d. same c.command_id d.command_id ≡ false) q × Distinct q

same_sym : (a b : Text) → same a b ≡ false → same b a ≡ false
same_sym a b h = ground (arith, same_iff a b, same_iff b a)

pub Picks-Distinct :
    {c : Command} {q rest : List Command}
    → Picks c q rest
    → Distinct q
    → All (λ d. same c.command_id d.command_id ≡ false) rest × Distinct rest
Picks-Distinct here h = h
Picks-Distinct {c} (there {d = d} {rest = rest} p) h =
    let apart = Picks-All (λ x. same d.command_id x.command_id ≡ false) p h.0 in
    let below = Picks-Distinct p h.1 in
    ((same_sym d.command_id c.command_id apart.0, below.0), (apart.1, below.1))

-- Either the command that is taken is free and comes off the queue, or every one waits for a lock.
abbrev pub Taken : List (Text × Text) → List Command → Option (Command × List Command) → Type 0
Taken ow q none = All (λ c. is_free ow c ≡ false) q
Taken ow q (some (c, rest)) = Picks c q rest × (is_free ow c ≡ true)

Taken-cons :
    (ow : List (Text × Text)) (c : Command) (q : List Command) (b : Bool)
    → is_free ow c ≡ b
    → (o : Option (Command × List Command)) → Taken ow q o
    → Taken ow (c ∷ q) (if b then some (c, q) else put_back c o)
Taken-cons ow c q true e o h = (here, e)
Taken-cons ow c q false e none h = (e, h)
Taken-cons ow c q false e (some (next, rest)) h = (there h.0, h.1)

pub take_free-Taken : (ow : List (Text × Text)) (q : List Command) → Taken ow q (take_free ow q)
unfolding take_free
take_free-Taken ow [] = tt
take_free-Taken ow (c ∷ q) =
    Taken-cons ow c q (is_free ow c) refl (take_free ow q) (take_free-Taken ow q)

-- Likewise for the command that `cancel` takes off the queue.
abbrev pub Removed : Text → List Command → Option (List Command) → Type 0
Removed id q none = All (λ c. same c.command_id id ≡ false) q
Removed id q (some rest) = (c : Command) × Picks c q rest × (c.command_id ≡ id)

Removed-cons :
    (id : Text) (c : Command) (q : List Command) (b : Bool)
    → same c.command_id id ≡ b
    → (o : Option (List Command)) → Removed id q o
    → Removed id (c ∷ q) (if b then some q else keep_first c o)
Removed-cons id c q true e o h = (c, here, (same_iff c.command_id id).0 e)
Removed-cons id c q false e none h = (e, h)
Removed-cons id c q false e (some rest) h = (h.0, there h.1, h.2)

pub remove_queued-Removed : (id : Text) (q : List Command) → Removed id q (remove_queued id q)
unfolding remove_queued
remove_queued-Removed id [] = tt
remove_queued-Removed id (c ∷ q) =
    Removed-cons id c q (same c.command_id id) refl (remove_queued id q)
      (remove_queued-Removed id q)

-- A command that waits is tracked as queued, and is not in flight.
abbrev pub IsWaiting : List (Text × Running) → List (Text × Tracked) → Command → Type 0
IsWaiting fl m c = (lookup c.command_id fl ≡ none) × (state_of c.command_id m ≡ some queued)

pub record IsQueueOf (fl : List (Text × Running)) (m : List (Text × Tracked)) (q : List Command)
    : Type 0 where
  pub tracked_once : IsMap m
  pub waiting : All (IsWaiting fl m) q
  pub distinct : Distinct q

abbrev pub IsOrdered : Executor → Type 0
IsOrdered s = IsQueueOf s.in_flight s.tracked s.queue
