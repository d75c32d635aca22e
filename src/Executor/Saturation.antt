-- ===== src/Executor/Saturation.antt =====
-- `schedule` of cloud-command-executor.ts: it keeps the executor safe, and starts all that may start.
use closedloop_electron.Base.{
  ℕ, zero, suc, ◌≤◌, ◌<◌, max, ◌≡◌, refl, ◌∙◌, ap, true, false, Option, none, some, List, [], ◌∷◌,
  Text, same, lookup, lookup-insert, length, All, All-zip, arith, Option-cases, inl, inr, ◌⊎◌,
  IsMap, insert-IsMap, Bool-cases,
}
use closedloop_electron.Executor.State.{Command, Tracked, Executor, CommandState, queued}
use closedloop_electron.Executor.Schedule.{
  start, placed, is_free, take_free, has_room, next_command, schedule_loop, schedule,
  notify_queue_stats,
}
use closedloop_electron.Executor.Frame.{
  SameCore, notify-SameCore, notify-tracked, state_of, emit-state_of, emit-IsMap,
}
use closedloop_electron.Executor.Locks.{IsLocked, IsLocked-same, placed-IsLocked, start-SameCore}
use closedloop_electron.Executor.Queue.{
  Picks, Picks-length, Picks-All, Picks-Distinct, Taken, take_free-Taken, IsWaiting, IsOrdered,
}

pub record IsSafe (limit : ℕ) (s : Executor) : Type 0 where
  pub locked : IsLocked limit s
  pub ordered : IsOrdered s

-- The limit is reached, or every command of the queue waits for a lock.
abbrev pub IsSaturated : ℕ → Executor → Type 0
IsSaturated limit s =
    (max 1 limit ≤ length s.in_flight) ⊎ All (λ c. is_free s.lock_owners c ≡ false) s.queue

pub tracked_of_queued :
    (id : Text) (m : List (Text × Tracked))
    → state_of id m ≡ some queued
    → (t : Tracked) × (lookup id m ≡ some t)
tracked_of_queued id m h = ground arith

start-state_of :
    (c : Command) (j : Text) (s : Executor)
    → same c.command_id j ≡ false
    → state_of j (start c s).tracked ≡ state_of j s.tracked
unfolding start
start-state_of c j s h = elim (Option-cases (lookup c.command_id s.tracked)) [
  | inl e ↦ rw (e, start)
  | inr (t, e) ↦
      rw (e, start)
        (emit-state_of c.command_id j _ _ (notify_queue_stats (placed c t s))
          ∙ ground (
            arith,
            notify-tracked (placed c t s),
            lookup-insert c.command_id j (record t { state = CommandState.running }) s.tracked,
          ))
]

start-IsMap : (c : Command) (s : Executor) → IsMap s.tracked → IsMap (start c s).tracked
unfolding start
start-IsMap c s h = elim (Option-cases (lookup c.command_id s.tracked)) [
  | inl e ↦ rw (e, start) h
  | inr (t, e) ↦
      rw (e, start)
        (emit-IsMap c.command_id _ _ (notify_queue_stats (placed c t s)) (
          rw (notify-tracked (placed c t s))
            (insert-IsMap c.command_id (record t { state = CommandState.running }) s.tracked h)))
]

-- A command that was free starts: the others still wait.
start-IsSafe :
    (limit : ℕ) (c : Command) (rest : List Command) (s : Executor)
    → IsSafe limit s
    → length s.in_flight < max 1 limit
    → Picks c s.queue rest
    → is_free s.lock_owners c ≡ true
    → IsSafe limit (start c (record s { queue = rest }))
start-IsSafe limit c rest s h room p free =
    let s' : Executor = record s { queue = rest } in
    let waits = Picks-All (IsWaiting s.in_flight s.tracked) p h.ordered.waiting in
    let apart = Picks-Distinct p h.ordered.distinct in
    let (t, e) = tracked_of_queued c.command_id s.tracked waits.0.1 in
    let core = start-SameCore c s' t e in
    let fresh : (d : Command)
        → IsWaiting s.in_flight s.tracked d
        → same c.command_id d.command_id ≡ false
        → IsWaiting (start c s').in_flight (start c s').tracked d =
      λ d w other. (
        rw (core.in_flight_eq, lookup-insert, other) w.0,
        rw (start-state_of c d.command_id s' other) w.1,
      ) in
    record {
      locked =
          IsLocked-same (placed c t s') (start c s') core
            (placed-IsLocked limit c t s' h.locked room waits.0.0 free);
      ordered = record {
        tracked_once = start-IsMap c s' h.ordered.tracked_once;
        waiting = rw core.queue_eq (All-zip rest fresh waits.1 apart.0);
        distinct = rw core.queue_eq apart.1;
      };
    }

pub IsSafe-same :
    {limit : ℕ} (s t : Executor)
    → SameCore s t
    → t.tracked ≡ s.tracked
    → IsSafe limit s
    → IsSafe limit t
IsSafe-same {limit} s t h e k = record {
  locked = IsLocked-same s t h k.locked;
  ordered = rw (h.in_flight_eq, h.queue_eq, e) k.ordered;
}

pub IsSaturated-same :
    (limit : ℕ) (s t : Executor) → SameCore s t → IsSaturated limit s → IsSaturated limit t
IsSaturated-same limit s t h k = rw (h.in_flight_eq, h.queue_eq, h.lock_owners_eq) k

-- One round of the loop: what it takes, and what holds where it takes nothing.
abbrev Round : ℕ → Executor → Option (Command × List Command) → Type 0
Round limit s none = IsSaturated limit s
Round limit s (some (c, rest)) =
    Picks c s.queue rest × (is_free s.lock_owners c ≡ true) × (length s.in_flight < max 1 limit)

Round-Taken :
    (limit : ℕ) (s : Executor) (o : Option (Command × List Command))
    → length s.in_flight < max 1 limit
    → Taken s.lock_owners s.queue o
    → Round limit s o
Round-Taken limit s none room h = inr h
Round-Taken limit s (some (c, rest)) room h = (h.0, h.1, room)

Round-next_command : (limit : ℕ) (s : Executor) → Round limit s (next_command limit s)
unfolding next_command has_room
Round-next_command limit s = elim (Bool-cases (has_room limit s)) [
  | inl room ↦
      rw (room, next_command)
        (Round-Taken limit s (take_free s.lock_owners s.queue) (ground arith)
          (take_free-Taken s.lock_owners s.queue))
  | inr full ↦ rw (full, next_command) (inl (ground arith))
]

IsSaturated-empty : (limit : ℕ) (s : Executor) → length s.queue ≤ 0 → IsSaturated limit s
IsSaturated-empty limit s h = inr (nothing s.queue h)
  where
    nothing : (q : List Command) → length q ≤ 0 → All (λ c. is_free s.lock_owners c ≡ false) q
    nothing [] h = tt
    nothing (c ∷ q) h = absurd (omega arith)

start-queue : (c : Command) (s : Executor) → (start c s).queue ≡ s.queue
unfolding start
start-queue c s = elim (Option-cases (lookup c.command_id s.tracked)) [
  | inl e ↦ rw (e, start)
  | inr (t, e) ↦ (start-SameCore c s t e).queue_eq
]

-- The loop keeps the executor safe and ends saturated, with fuel for each command of the queue.
schedule_loop-IsSafe :
    (limit fuel : ℕ) (s : Executor)
    → IsSafe limit s
    → length s.queue ≤ fuel
    → IsSafe limit (schedule_loop limit fuel s) × IsSaturated limit (schedule_loop limit fuel s)
unfolding schedule_loop
schedule_loop-IsSafe limit zero s h f = (h, IsSaturated-empty limit s f)
schedule_loop-IsSafe limit (suc fuel) s h f = elim (Option-cases (next_command limit s)) [
  | inl e ↦ rw (e, schedule_loop) (h, rw e at (Round-next_command limit s))
  | inr ((c, rest), e) ↦
      let round : Round limit s (some (c, rest)) = rw e at (Round-next_command limit s) in
      rw (e, schedule_loop)
        (schedule_loop-IsSafe limit fuel (start c (record s { queue = rest }))
          (start-IsSafe limit c rest s h round.2 round.0 round.1)
          (omega
            (arith, Picks-length round.0, ap length (start-queue c (record s { queue = rest })))))
]

pub schedule_connected :
    (limit : ℕ) (s : Executor)
    → s.connected ≡ true
    → schedule limit s ≡ notify_queue_stats (schedule_loop limit (length s.queue) s)
unfolding schedule
schedule_connected limit s h = ground arith

pub schedule_disconnected : (limit : ℕ) (s : Executor) → s.connected ≡ false → schedule limit s ≡ s
unfolding schedule
schedule_disconnected limit s h = ground arith

-- `schedule` keeps the executor safe, and leaves it saturated if it is connected.
pub schedule-IsSafe :
    (limit : ℕ) (s : Executor)
    → IsSafe limit s
    → IsSafe limit (schedule limit s) × (s.connected ≡ true → IsSaturated limit (schedule limit s))
schedule-IsSafe limit s h =
    let looped = schedule_loop limit (length s.queue) s in
    let (safe, full) = schedule_loop-IsSafe limit (length s.queue) s h (omega arith) in
    elim (Bool-cases s.connected) [
      | inl on ↦ rw (schedule_connected limit s on) (
        IsSafe-same looped (notify_queue_stats looped) (notify-SameCore looped)
            (notify-tracked looped) safe,
        λ _.
            IsSaturated-same limit looped (notify_queue_stats looped) (notify-SameCore looped) full,
      )
      | inr off ↦ rw (schedule_disconnected limit s off) (h, λ on. cc)
    ]

start-connected : (c : Command) (s : Executor) → (start c s).connected ≡ s.connected
unfolding start
start-connected c s = elim (Option-cases (lookup c.command_id s.tracked)) [
  | inl e ↦ rw (e, start)
  | inr (t, e) ↦ (start-SameCore c s t e).connected_eq
]

schedule_loop-connected :
    (limit fuel : ℕ) (s : Executor) → (schedule_loop limit fuel s).connected ≡ s.connected
unfolding schedule_loop
schedule_loop-connected limit zero s = refl
schedule_loop-connected limit (suc fuel) s = elim (Option-cases (next_command limit s)) [
  | inl e ↦ rw (e, schedule_loop)
  | inr ((c, rest), e) ↦
      rw (e, schedule_loop)
        (schedule_loop-connected limit fuel (start c (record s { queue = rest }))
          ∙ start-connected c (record s { queue = rest }))
]

pub schedule-connected : (limit : ℕ) (s : Executor) → (schedule limit s).connected ≡ s.connected
schedule-connected limit s =
    let looped = schedule_loop limit (length s.queue) s in
    elim (Bool-cases s.connected) [
      | inl on ↦
          rw (schedule_connected limit s on) (
            (notify-SameCore looped).connected_eq
            ∙ schedule_loop-connected limit (length s.queue) s)
      | inr off ↦ ap (λ (t : Executor). t.connected) (schedule_disconnected limit s off)
    ]
