-- ===== src/Executor/Tests.antt =====
-- Runs of cloud-command-executor.ts: two commands on one repository, with room for two.
use closedloop_electron.Base.{
  ℕ, String, ◌≤◌, max, ◌≡◌, refl, true, false, Option, none, some, [], Text, text, same, lookup,
  insert, delete, length, is_space, trim, starts_with, to_upper,
}
use closedloop_electron.Json.{Json, str, obj, field, end, get, as_record, as_non_empty_string}
use closedloop_electron.Executor.State.{Command, Running, Executor}
use closedloop_electron.Executor.Keys.{
  derive_lock_key, validate_command, is_member, signature_body_override,
}
use closedloop_electron.Executor.Emit.{emit_tracked_event, mark_terminal}
use closedloop_electron.Executor.Prune.{
  prune_terminal_commands, delete_all, is_over, sort_by_completion, insert_by_completion,
}
use closedloop_electron.Executor.Schedule.{
  schedule, schedule_loop, next_command, has_room, take_free, is_free, start, take_lock,
  set_connected, notify_queue_stats, is_same_stats,
}
use closedloop_electron.Executor.Calls.{enqueue, accept, refusal}
use closedloop_electron.Executor.Settle.{
  rejected, settle, release, release_lock, conclude, recover, execute_via_gateway,
}
use closedloop_electron.Executor.Steps.{
  AllRemember, connects, enqueues, settles, Reach, begins, continues, new_executor,
}
use closedloop_electron.Executor.Guarantees.{Reach-exclusive, Reach-progress, Reach-bounded}

abbrev pub sample : String → Command
sample id = record {
  command_id = text id;
  operation_id = text "git_action";
  method = text "post";
  path = text "/api/gateway/git";
  body = obj (field (text "repoPath") (str (text " /r ")) end);
  timeout_ms = some 1000;
  lock_key = none;
}

abbrev pub unsigned : Command → Json → Option Text
unsigned c body = none

abbrev pub no_digits : ℕ → Text
no_digits n = []

abbrev pub no_json : Text → Option Json
no_json line = none

abbrev pub first : Command
first = sample "a"

abbrev second : Command
second = sample "b"

-- The blank space of the path is no part of the lock.
sample_lock : derive_lock_key first ≡ some (text "git_action:/r")
unfolding derive_lock_key trim is_space get same as_record as_non_empty_string
sample_lock = refl

-- Connected, with both commands enqueued: the second waits for the lock of the first.
unfoldable pub busy : Executor
unfolding enqueue accept schedule schedule_loop next_command has_room take_free is_free start
    take_lock set_connected notify_queue_stats is_same_stats new_executor prune_terminal_commands
    delete_all is_over sort_by_completion insert_by_completion emit_tracked_event mark_terminal
    lookup insert delete same derive_lock_key trim is_space get as_record as_non_empty_string
    refusal validate_command is_member starts_with to_upper signature_body_override
busy = enqueue 2 7 unsigned second (enqueue 2 5 unsigned first (set_connected 2 true new_executor))

busy_waits : (length busy.queue ≡ 1) × (length busy.in_flight ≡ 1)
unfolding busy
busy_waits = (refl, refl)

pub busy-Reach : Reach no_digits no_json 2 busy
unfolding busy
busy-Reach =
    continues (continues (continues begins (connects true)) (enqueues 5 unsigned first))
      (enqueues 7 unsigned second)

busy-AllRemember : AllRemember no_digits no_json 2 busy-Reach
unfolding busy-Reach
busy-AllRemember = (((tt, tt), (λ _. refl)), (λ _. refl))

abbrev pub first_running : Running
first_running = record {
  lock_key = some (text "git_action:/r");
  cancel_requested = false;
  cancel_reason = none;
  timed_out = false;
  timeout = some 1000;
}

Reach-bounded_example : length busy.in_flight ≤ max 1 2
Reach-bounded_example = Reach-bounded no_digits no_json 2 busy busy-Reach busy-AllRemember

Reach-exclusive_example : ◌≡◌ {A = Text} (text "a") (text "a")
unfolding busy
Reach-exclusive_example =
    Reach-exclusive no_digits no_json 2 busy busy-Reach busy-AllRemember (text "a") (text "a")
      (text "git_action:/r") first_running first_running refl refl refl refl

-- Both calls fail; the second starts when the first gives its lock back.
idle : Executor
unfolding busy settle release release_lock conclude recover execute_via_gateway mark_terminal
idle =
    settle no_digits no_json 2 9 second first_running (rejected (text "down"))
      (settle no_digits no_json 2 8 first first_running (rejected (text "down")) busy)

idle-Reach : Reach no_digits no_json 2 idle
unfolding idle
idle-Reach =
    continues
      (continues busy-Reach (settles 8 first first_running (rejected (text "down")) refl refl))
      (settles 9 second first_running (rejected (text "down")) refl refl)

idle-AllRemember : AllRemember no_digits no_json 2 idle-Reach
unfolding idle-Reach
idle-AllRemember = ((busy-AllRemember, tt), tt)

Reach-progress_example : idle.queue ≡ []
unfolding idle
Reach-progress_example =
    Reach-progress no_digits no_json 2 idle idle-Reach idle-AllRemember refl refl
