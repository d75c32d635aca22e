-- ===== src/Executor/Calls.antt =====
-- `enqueue`, `cancel` and `dispose`.
use closedloop_electron.Base.{
  ℕ, true, false, Option, none, some, List, [], ◌∷◌, ◌++◌, map, Text, text, lookup, insert, same,
  or_else, if◌then◌else◌,
}
use closedloop_electron.Json.{Json, str, bool, obj, field, end}
use closedloop_electron.Executor.State.{
  Command, Tracked, Running, Executor, CommandState, cancelled, Message, ack, abort, done,
  is_terminal,
}
use closedloop_electron.Executor.Keys.{validate_command, signature_body_override}
use closedloop_electron.Executor.Emit.{emit_tracked_event, mark_terminal, replay_buffered}
use closedloop_electron.Executor.Prune.{prune_terminal_commands}
use closedloop_electron.Executor.Schedule.{schedule, notify_queue_stats}

abbrev pub send : Message → Executor → Executor
send m s = record s { sent = s.sent ++ m ∷ [] }

abbrev pub ack_accepted : Text → Message
ack_accepted id = ack id true (text "accepted") none

abbrev pub ack_failed : Text → Text → Message
ack_failed id reason = ack id false (text "failed") (some reason)

abbrev pub new_tracked : ℕ → Command → Tracked
new_tracked now c = record {
  command = c;
  state = CommandState.queued;
  terminal_state = none;
  completed_at = none;
  enqueued_at = now;
  last_emitted_sequence = 0;
  buffered = record { last_acked_sequence = 0; events = [] };
}

-- `verdict` is what the signature check says: no reason, where signing is not enforced or the
-- signature is good. It comes before the validation.
unfoldable pub refusal : Option Text → Command → Option Text
refusal (some reason) c = some reason
refusal none c = validate_command c

unfoldable pub accept : ℕ → ℕ → Command → Executor → Executor
accept limit now c s = schedule limit (
    send (ack_accepted c.command_id) (record s {
      tracked = insert c.command_id (new_tracked now c) s.tracked;
      queue = s.queue ++ c ∷ [];
    }))

-- `verify` is asked only about a command that is not known.
unfoldable pub enqueue : ℕ → ℕ → (Command → Json → Option Text) → Command → Executor → Executor
unfolding refusal
enqueue limit now verify c s0 =
    let s = prune_terminal_commands now s0 in
    elim (lookup c.command_id s.tracked) [
      | some t ↦
          let acked = send (ack_accepted c.command_id) s in
          if is_terminal t.state then replay_buffered c.command_id 0 acked else acked
      | none ↦ elim (refusal (verify c (signature_body_override c)) c) [
        | some reason ↦ send (ack_failed c.command_id reason) s
        | none ↦ accept limit now c s
      ]
    ]

abbrev pub keep_first : Command → Option (List Command) → Option (List Command)
keep_first c none = none
keep_first c (some rest) = some (c ∷ rest)

-- `findIndex` and `splice` of `cancel`: the queue without the first command of this name.
unfoldable pub remove_queued : Text → List Command → Option (List Command)
remove_queued id [] = none
remove_queued id (c ∷ q) =
    if same c.command_id id then some q else keep_first c (remove_queued id q)

abbrev pub cancelled_data : Text → Json
cancelled_data reason = obj (
    field (text "type") (str (text "done"))
      (field (text "cancelled") (bool true) (field (text "reason") (str reason) end)))

unfoldable pub request_cancel : Text → Text → Executor → Executor
request_cancel id reason s = elim (lookup id s.in_flight) [
  | none ↦ s
  | some r ↦ send (abort id (text "cancelled")) (record s {
    in_flight =
        insert id (record r { cancel_requested = true; cancel_reason = some reason }) s.in_flight;
  })
]

unfoldable pub cancel : ℕ → Text → Option Text → Executor → Executor
unfolding request_cancel
cancel now id reason s =
    let why = or_else reason (text "cancelled") in
    elim (remove_queued id s.queue) [
      | none ↦ request_cancel id why s
      | some rest ↦ notify_queue_stats (
          mark_terminal now id cancelled
            (emit_tracked_event id done (cancelled_data why) (record s { queue = rest })))
    ]

abbrev shutdown_abort : Text × Running → Message
shutdown_abort (id, r) = abort id (text "shutdown")

unfoldable pub dispose : Executor → Executor
dispose s = record s {
  disposed = true;
  sent = s.sent ++ map shutdown_abort s.in_flight;
  queue = [];
  in_flight = [];
  lock_owners = [];
  tracked = [];
}

-- The timer of a command in flight.
unfoldable pub time_out : Text → Executor → Executor
time_out id s = elim (lookup id s.in_flight) [
  | none ↦ s
  | some r ↦
      send (abort id (text "timeout"))
        (record s { in_flight = insert id (record r { timed_out = true }) s.in_flight })
]
