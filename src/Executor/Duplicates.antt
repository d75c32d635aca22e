-- ===== src/Executor/Duplicates.antt =====
-- `enqueue` of cloud-command-executor.ts for a command that is known: the cloud may deliver a
-- command more than once.
use closedloop_electron.Base.{
  ℕ, ◌≡◌, ◌∙◌, true, false, Option, some, [], ◌∷◌, ◌++◌, map, Text, lookup, IsMap,
}
use closedloop_electron.Json.{Json}
use closedloop_electron.Executor.State.{Command, Tracked, Executor, is_terminal, event}
use closedloop_electron.Executor.Emit.{replay_buffered, replayed}
use closedloop_electron.Executor.Prune.{prune, prune_terminal_commands}
use closedloop_electron.Executor.Calls.{send, enqueue, ack_accepted}
use closedloop_electron.Executor.Pruning.{prune-keeps_live}
use closedloop_electron.Executor.Enqueue.{enqueue_known}

-- Delivered again before it has ended, a command is acknowledged and not queued again: but for the
-- finished commands that are forgotten, only the acknowledgement is new, if no id is tracked twice.
pub enqueue-duplicate :
    (limit now : ℕ) (verify : Command → Json → Option Text) (c : Command) (s : Executor)
    (t : Tracked)
    → IsMap s.tracked
    → lookup c.command_id s.tracked ≡ some t
    → is_terminal t.state ≡ false
    → enqueue limit now verify c s
      ≡ record s { tracked = prune now s.tracked; sent = s.sent ++ ack_accepted c.command_id ∷ [] }
unfolding prune_terminal_commands
enqueue-duplicate limit now verify c s t once here live =
    enqueue_known limit now verify c s t
      (prune-keeps_live now s.tracked c.command_id t once here live)
    ∙ rw live

replay_buffered-some :
    (id : Text) (from : ℕ) (s : Executor) (t : Tracked)
    → lookup id s.tracked ≡ some t
    → replay_buffered id from s ≡ record s { sent = s.sent ++ map (event id) (replayed from t) }
unfolding replay_buffered
replay_buffered-some id from s t h = rw (h, replay_buffered)

-- Delivered again after its end, while it is remembered, a command is acknowledged and the events
-- in its buffer are sent again; nothing is queued, run or verified again.
pub enqueue-ended :
    (limit now : ℕ) (verify : Command → Json → Option Text) (c : Command) (s : Executor)
    (t : Tracked)
    → lookup c.command_id (prune now s.tracked) ≡ some t
    → is_terminal t.state ≡ true
    → enqueue limit now verify c s ≡ record s {
      tracked = prune now s.tracked;
      sent = (s.sent ++ ack_accepted c.command_id ∷ []) ++ map (event c.command_id) (replayed 0 t);
    }
unfolding prune_terminal_commands
enqueue-ended limit now verify c s t here over =
    enqueue_known limit now verify c s t here
    ∙ rw over (
        replay_buffered-some c.command_id 0
          (send (ack_accepted c.command_id) (record s { tracked = prune now s.tracked })) t here)
