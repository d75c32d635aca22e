-- ===== src/Executor/Schedule.antt =====
-- `getStats`, `notifyQueueStats`, `schedule`, `setConnected`, and `execute` up to its first `await`.
use closedloop_electron.Base.{
  ℕ, zero, suc, Bool, true, false, ◌&&◌, not, Option, none, some, List, [], ◌∷◌, ◌++◌, max, Text,
  text, length, lookup, insert, has, ltb, ◌==◌, if◌then◌else◌,
}
use closedloop_electron.Json.{Json, str, obj, field, end}
use closedloop_electron.Executor.State.{
  Command, Tracked, Running, Executor, CommandState, stats, status,
}
use closedloop_electron.Executor.Keys.{derive_lock_key}
use closedloop_electron.Executor.Emit.{emit_tracked_event}

abbrev pub get_stats : Executor → ℕ × ℕ
get_stats s = (length s.in_flight, length s.queue)

-- `lastEmittedStats` holds these numbers already.
unfoldable pub is_same_stats : Option (ℕ × ℕ) → ℕ × ℕ → Bool
is_same_stats none now = false
is_same_stats (some (active, depth)) (a, d) = (active == a) && (depth == d)

unfoldable pub notify_queue_stats : Executor → Executor
unfolding is_same_stats
notify_queue_stats s = if is_same_stats s.last_emitted_stats (get_stats s) then s else record s {
  last_emitted_stats = some (get_stats s);
  sent = s.sent ++ stats (length s.in_flight) (length s.queue) ∷ [];
}

-- `timeoutMs` arms a timer only if it is positive.
abbrev armed : Option ℕ → Option ℕ
armed none = none
armed (some zero) = none
armed (some (suc n)) = some (suc n)

abbrev pub running_record : Command → Running
running_record c = record {
  lock_key = derive_lock_key c;
  cancel_requested = false;
  cancel_reason = none;
  timed_out = false;
  timeout = armed c.timeout_ms;
}

-- `lockOwners.set`, for a command that has a lock.
unfoldable pub take_lock : Text → Option Text → List (Text × Text) → List (Text × Text)
take_lock id none owners = owners
take_lock id (some key) owners = insert key id owners

abbrev pub running_status : Command → Json
running_status c = obj (
    field (text "type") (str (text "status")) (
      field (text "status") (str (text "running"))
        (field (text "operationId") (str c.operation_id) end)))

-- The command runs: it has its lock and its place in flight.
abbrev pub placed : Command → Tracked → Executor → Executor
placed c t s = record s {
  tracked = insert c.command_id (record t { state = CommandState.running }) s.tracked;
  lock_owners = take_lock c.command_id (derive_lock_key c) s.lock_owners;
  in_flight = insert c.command_id (running_record c) s.in_flight;
}

-- `execute` up to its first `await`.
unfoldable pub start : Command → Executor → Executor
start c s = elim (lookup c.command_id s.tracked) [
  | none ↦ s
  | some t ↦
      emit_tracked_event c.command_id status (running_status c) (notify_queue_stats (placed c t s))
]

-- A command may start if it has no lock, or nobody holds it.
unfoldable pub is_free : List (Text × Text) → Command → Bool
is_free owners c = elim (derive_lock_key c) [ none ↦ true | some key ↦ not (has key owners) ]

abbrev pub put_back : Command → Option (Command × List Command) → Option (Command × List Command)
put_back c none = none
put_back c (some (next, rest)) = some (next, c ∷ rest)

-- `findIndex` and `splice`: the first command that may start, and the others.
unfoldable pub take_free : List (Text × Text) → List Command → Option (Command × List Command)
take_free owners [] = none
take_free owners (c ∷ q) = if is_free owners c then some (c, q) else put_back c (take_free owners q)

-- The limit of `maxInFlightCommands`, at least 1.
unfoldable pub has_room : ℕ → Executor → Bool
has_room limit s = ltb (length s.in_flight) (max 1 limit)

unfoldable pub next_command : ℕ → Executor → Option (Command × List Command)
next_command limit s = if has_room limit s then take_free s.lock_owners s.queue else none

-- The `while` loop. Each round takes a command off the queue, so the queue's length is fuel enough.
unfoldable pub schedule_loop : ℕ → ℕ → Executor → Executor
schedule_loop limit zero s = s
schedule_loop limit (suc fuel) s = elim (next_command limit s) [
  | none ↦ s
  | some (next, rest) ↦ schedule_loop limit fuel (start next (record s { queue = rest }))
]

unfoldable pub schedule : ℕ → Executor → Executor
schedule limit s =
    if s.connected then notify_queue_stats (schedule_loop limit (length s.queue) s) else s

unfoldable pub set_connected : ℕ → Bool → Executor → Executor
set_connected limit connected s =
    let t = record s { connected = connected } in if connected then schedule limit t else t
