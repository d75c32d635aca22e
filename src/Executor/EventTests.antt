-- ===== src/Executor/EventTests.antt =====
-- The events, the end and the records of commands in cloud-command-executor.ts, at the runs of Tests.
use closedloop_electron.Base.{
  ◌≤◌, min, ◌≡◌, refl, true, false, none, some, [], ◌∷◌, ◌++◌, text, same, lookup, length, filter,
  arith,
}
use closedloop_electron.Executor.State.{Tracked, Executor, CommandState, finished, status}
use closedloop_electron.Executor.Emit.{replayed}
use closedloop_electron.Executor.Prune.{prune, is_terminal_entry, max_retained_terminal_commands}
use closedloop_electron.Executor.Schedule.{running_status, schedule}
use closedloop_electron.Executor.Calls.{enqueue, ack_accepted}
use closedloop_electron.Executor.Stream.{consume_stream_response}
use closedloop_electron.Executor.Settle.{rejected, conclude, settle, release, execute_via_gateway}
use closedloop_electron.Executor.Window.{Run}
use closedloop_electron.Executor.Gapless.{Reach-replay}
use closedloop_electron.Executor.StreamEnd.{IsEndedIf}
use closedloop_electron.Executor.Endpoint.{conclude-ends}
use closedloop_electron.Executor.Guarantees.{settle_final}
use closedloop_electron.Executor.Pieces.{consume-joined}
use closedloop_electron.Executor.Retention.{prune-bounded}
use closedloop_electron.Executor.Duplicates.{enqueue-duplicate}
use closedloop_electron.Executor.Tests.{
  unsigned, no_digits, no_json, first, first_running, busy, busy-Reach,
}

abbrev first_tracked : Tracked
first_tracked = record {
  command = first;
  state = CommandState.running;
  terminal_state = none;
  completed_at = none;
  enqueued_at = 5;
  last_emitted_sequence = 1;
  buffered = record {
    last_acked_sequence = 0;
    events = record { sequence = 1; event_type = status; data_ = running_status first } ∷ [];
  };
}

first_tracked_busy : lookup (text "a") busy.tracked ≡ some first_tracked
unfolding busy lookup same
first_tracked_busy = refl

Reach-replay_example : Run (min 0 1) (replayed 0 first_tracked) 1
Reach-replay_example =
    Reach-replay no_digits no_json 2 0 (text "a") first_tracked busy-Reach first_tracked_busy
      (omega arith)

first_IsEndedIf : IsEndedIf (text "a") false busy
first_IsEndedIf = record {
  entry = first_tracked;
  here = first_tracked_busy;
  linked = refl;
  ended = λ h. cc;
}

conclude-ends_example : IsEndedIf (text "a") true (
    conclude 8
      (text "a")
      first_running
      (execute_via_gateway no_digits no_json 8 (text "a") (rejected (text "down")) busy))
conclude-ends_example =
    conclude-ends no_digits no_json 8 (text "a") first_running (rejected (text "down")) busy
      first_IsEndedIf

-- The first command, finished at 6.
abbrev ended_tracked : Tracked
ended_tracked = record first_tracked {
  state = CommandState.terminal;
  terminal_state = some finished;
  completed_at = some 6;
}

abbrev over : Executor
over = record busy { tracked = (text "a", ended_tracked) ∷ [] }

over_here : lookup (text "a") over.tracked ≡ some ended_tracked
unfolding lookup same
over_here = refl

settle_final_example :
    settle no_digits no_json 2 8 first first_running (rejected (text "down")) over
    ≡ schedule 2 (release first over)
settle_final_example =
    settle_final no_digits no_json 2 8 first first_running (rejected (text "down")) over
      ended_tracked over_here refl

consume-joined_example :
    consume_stream_response no_json 8 (text "a") (text "hel" ∷ text "lo\n" ∷ []) busy
    ≡ consume_stream_response no_json 8 (text "a") (text "hello" ∷ text "\n" ∷ []) busy
consume-joined_example =
    consume-joined no_json 8 (text "a") (text "hel" ∷ text "lo\n" ∷ [])
      (text "hello" ∷ text "\n" ∷ []) busy refl

prune-bounded_example :
    length (filter is_terminal_entry (prune 9 over.tracked)) ≤ max_retained_terminal_commands
prune-bounded_example = prune-bounded 9 over.tracked

abbrev live : Executor
live = record busy { tracked = (text "a", first_tracked) ∷ [] }

enqueue-duplicate_example : enqueue 2 9 unsigned first live ≡ record live {
  tracked = prune 9 live.tracked;
  sent = live.sent ++ ack_accepted (text "a") ∷ [];
}
unfolding lookup same
enqueue-duplicate_example =
    enqueue-duplicate 2 9 unsigned first live first_tracked (refl, tt) refl refl
