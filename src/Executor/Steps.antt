-- ===== src/Executor/Steps.antt =====
-- The life of a CloudCommandExecutor (cloud-command-executor.ts) between its construction and
-- `dispose`: the calls of its methods and the continuations of `execute`, in any order.
use closedloop_electron.Base.{ℕ, ◌≡◌, Bool, false, Option, none, some, List, [], Text, lookup}
use closedloop_electron.Json.{Json}
use closedloop_electron.Executor.State.{Command, Running, Executor}
use closedloop_electron.Executor.Keys.{derive_lock_key}
use closedloop_electron.Executor.Emit.{acknowledge, replay_from}
use closedloop_electron.Executor.Prune.{prune}
use closedloop_electron.Executor.Schedule.{set_connected}
use closedloop_electron.Executor.Calls.{enqueue, cancel, time_out}
use closedloop_electron.Executor.Stream.{Reader, read_chunk}
use closedloop_electron.Executor.Settle.{Reply, settle}

-- `new CloudCommandExecutor(options)`
unfoldable pub new_executor : Executor
new_executor = record {
  queue = [];
  in_flight = [];
  lock_owners = [];
  tracked = [];
  connected = false;
  disposed = false;
  last_emitted_stats = none;
  sent = [];
}

-- `print` prints a status, `parse` is `JSON.parse`. A continuation of `execute` has the record of its
-- own call, which is the one in flight.
module _ (print : ℕ → Text) (parse : Text → Option Json) (limit : ℕ) where
  pub data Step (s : Executor) : Executor → Type 0 where
    connects : (b : Bool) → Step s (set_connected limit b s)
    enqueues :
        (now : ℕ) (verify : Command → Json → Option Text) (c : Command)
        → Step s (enqueue limit now verify c s)
    cancels : (now : ℕ) (id : Text) (reason : Option Text) → Step s (cancel now id reason s)
    acknowledges : (id : Text) (sequence : ℕ) → Step s (acknowledge id sequence s)
    replays : (from : List (Text × ℕ)) → Step s (replay_from from s)
    times_out : (id : Text) → Step s (time_out id s)
    reads :
        (now : ℕ) (id : Text) (r : Running) (value : Text) (reader : Reader)
        → lookup id s.in_flight ≡ some r
        → Step s (read_chunk parse now id value (reader, s)).1
    settles :
        (now : ℕ) (c : Command) (r : Running) (reply : Reply)
        → lookup c.command_id s.in_flight ≡ some r
        → r.lock_key ≡ derive_lock_key c
        → Step s (settle print parse limit now c r reply s)

  pub data Reach : Executor → Type 0 where
    begins : Reach new_executor
    continues : {s t : Executor} → Reach s → Step s t → Reach t

  -- The step enqueues no command whose id is in flight but not remembered any more: one that has
  -- ended and is pruned, while its stream is still open.
  abbrev pub Remembers : {s t : Executor} → Step s t → Type 0
  Remembers {s} (enqueues now verify c) =
      lookup c.command_id (prune now s.tracked) ≡ none → lookup c.command_id s.in_flight ≡ none
  Remembers _ = Unit

  -- So do all steps.
  abbrev pub AllRemember : {s : Executor} → Reach s → Type 0
  AllRemember begins = Unit
  AllRemember (continues r st) = AllRemember r × Remembers st
