-- ===== src/Executor/Buffers.antt =====
-- The buffers of all commands, under the methods of cloud-command-executor.ts that write them.
use closedloop_electron.Base.{
  ℕ, ◌≡◌, refl, some, List, Text, same, lookup, insert, lookup-insert, arith, Option-cases,
  Bool-cases, inl, inr,
}
use closedloop_electron.Json.{Json}
use closedloop_electron.Executor.State.{
  EventType, Tracked, Executor, is_terminal, Outcome, Command, CommandState,
}
use closedloop_electron.Executor.Emit.{emit_tracked_event, mark_terminal, acknowledge}
use closedloop_electron.Executor.Calls.{new_tracked}
use closedloop_electron.Executor.Window.{
  IsComplete, emitted, emitted-IsComplete, acknowledged-IsComplete,
}

-- Every tracked command has a complete buffer.
abbrev pub CompleteIn : List (Text × Tracked) → Type 0
CompleteIn m = (id : Text) (t : Tracked) → lookup id m ≡ some t → IsComplete t

insert-CompleteIn :
    (id : Text) (u : Tracked) (m : List (Text × Tracked))
    → IsComplete u
    → CompleteIn m
    → CompleteIn (insert id u m)
insert-CompleteIn id u m h k j t e = elim (Bool-cases (same id j)) [
  | inl hit ↦ let found : u ≡ t = ground (arith, lookup-insert id j u m) in rw (← found) h
  | inr miss ↦ k j t (ground (arith, lookup-insert id j u m))
]

pub emit-CompleteIn :
    (id : Text) (e : EventType) (v : Json) (s : Executor)
    → CompleteIn s.tracked
    → CompleteIn (emit_tracked_event id e v s).tracked
unfolding emit_tracked_event emitted
emit-CompleteIn id e v s k = elim (Option-cases (lookup id s.tracked)) [
  | inl new ↦ rw (new, emit_tracked_event) k
  | inr (t, old) ↦ elim (Bool-cases (is_terminal t.state)) [
    | inl over ↦ rw (old, over, emit_tracked_event) k
    | inr live ↦
        rw (old, live, emit_tracked_event)
          (insert-CompleteIn id (emitted e v t) s.tracked (emitted-IsComplete e v t (k id t old)) k)
  ]
]

-- A change of the state alone.
IsComplete-same :
    (t u : Tracked)
    → u.buffered ≡ t.buffered
    → u.last_emitted_sequence ≡ t.last_emitted_sequence
    → IsComplete t
    → IsComplete u
IsComplete-same t u b l k = record {
  base = k.base;
  base_acked = rw b k.base_acked;
  run = rw (b, l) k.run;
}

pub mark-CompleteIn :
    (now : ℕ) (id : Text) (o : Outcome) (s : Executor)
    → CompleteIn s.tracked
    → CompleteIn (mark_terminal now id o s).tracked
unfolding mark_terminal
mark-CompleteIn now id o s k = elim (Option-cases (lookup id s.tracked)) [
  | inl new ↦ rw (new, mark_terminal) k
  | inr (t, old) ↦ elim (Bool-cases (is_terminal t.state)) [
    | inl over ↦ rw (old, over, mark_terminal) k
    | inr live ↦
        rw (old, live, mark_terminal)
          (insert-CompleteIn id _ s.tracked (IsComplete-same t _ refl refl (k id t old)) k)
  ]
]

pub set_state-CompleteIn :
    (id : Text) (t : Tracked) (state : CommandState) (m : List (Text × Tracked))
    → lookup id m ≡ some t
    → CompleteIn m
    → CompleteIn (insert id (record t { state = state }) m)
set_state-CompleteIn id t state m old k =
    insert-CompleteIn id _ m (IsComplete-same t _ refl refl (k id t old)) k

pub acknowledge-CompleteIn :
    (id : Text) (n : ℕ) (s : Executor)
    → CompleteIn s.tracked
    → CompleteIn (acknowledge id n s).tracked
unfolding acknowledge
acknowledge-CompleteIn id n s k = elim (Option-cases (lookup id s.tracked)) [
  | inl new ↦ rw (new, acknowledge) k
  | inr (t, old) ↦
      rw (old, acknowledge)
        (insert-CompleteIn id _ s.tracked (acknowledged-IsComplete n t (k id t old)) k)
]

pub new-CompleteIn :
    (now : ℕ) (c : Command) (m : List (Text × Tracked))
    → CompleteIn m
    → CompleteIn (insert c.command_id (new_tracked now c) m)
new-CompleteIn now c m k =
    insert-CompleteIn c.command_id (new_tracked now c) m
      (record { base = 0; base_acked = omega arith; run = refl }) k
