-- ===== src/Executor/Frame.antt =====
-- What the methods of cloud-command-executor.ts that only send leave alone.
use closedloop_electron.Base.{
  ℕ, ◌≡◌, Bool, Option, none, some, Text, lookup, lookup-insert, same_iff, arith, IsMap,
  insert-IsMap, same, List,
}
use closedloop_electron.Json.{Json}
use closedloop_electron.Executor.State.{EventType, Outcome, Tracked, Executor, CommandState}
use closedloop_electron.Executor.Emit.{emit_tracked_event, mark_terminal}
use closedloop_electron.Executor.Schedule.{notify_queue_stats}

-- The same commands wait, run and hold locks in both.
pub record SameCore (s t : Executor) : Type 0 where
  pub queue_eq : t.queue ≡ s.queue
  pub in_flight_eq : t.in_flight ≡ s.in_flight
  pub lock_owners_eq : t.lock_owners ≡ s.lock_owners
  pub connected_eq : t.connected ≡ s.connected

pub emit-SameCore :
    (id : Text) (e : EventType) (v : Json) (s : Executor) → SameCore s (emit_tracked_event id e v s)
unfolding emit_tracked_event
emit-SameCore id e v s = ground arith

pub mark-SameCore :
    (now : ℕ) (id : Text) (o : Outcome) (s : Executor) → SameCore s (mark_terminal now id o s)
unfolding mark_terminal
mark-SameCore now id o s = ground arith

pub notify-SameCore : (s : Executor) → SameCore s (notify_queue_stats s)
unfolding notify_queue_stats
notify-SameCore s = ground arith

pub SameCore-trans : {s t u : Executor} → SameCore s t → SameCore t u → SameCore s u
SameCore-trans h k = ground arith

pub notify-tracked : (s : Executor) → (notify_queue_stats s).tracked ≡ s.tracked
unfolding notify_queue_stats
notify-tracked s = ground arith

-- The state in which a command is tracked.
abbrev pub state_in : Option Tracked → Option CommandState
state_in none = none
state_in (some t) = some t.state

abbrev pub state_of : Text → List (Text × Tracked) → Option CommandState
state_of id m = state_in (lookup id m)

pub emit-state_of :
    (id j : Text) (e : EventType) (v : Json) (s : Executor)
    → state_of j (emit_tracked_event id e v s).tracked ≡ state_of j s.tracked
unfolding emit_tracked_event
emit-state_of id j e v s = grind (arith, lookup-insert, same_iff)

pub mark-state_of :
    (now : ℕ) (id j : Text) (o : Outcome) (s : Executor)
    → same id j ≡ Bool.false
    → state_of j (mark_terminal now id o s).tracked ≡ state_of j s.tracked
unfolding mark_terminal
mark-state_of now id j o s h = grind (arith, lookup-insert)

pub emit-IsMap :
    (id : Text) (e : EventType) (v : Json) (s : Executor)
    → IsMap s.tracked
    → IsMap (emit_tracked_event id e v s).tracked
unfolding emit_tracked_event
emit-IsMap id e v s h = grind (arith, insert-IsMap)

pub mark-IsMap :
    (now : ℕ) (id : Text) (o : Outcome) (s : Executor)
    → IsMap s.tracked
    → IsMap (mark_terminal now id o s).tracked
unfolding mark_terminal
mark-IsMap now id o s h = grind (arith, insert-IsMap)
