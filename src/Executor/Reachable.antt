-- ===== src/Executor/Reachable.antt =====
-- Every reachable state of a CloudCommandExecutor (cloud-command-executor.ts) is sound.
use closedloop_electron.Base.{ℕ, Option, Text, lookup, arith}
use closedloop_electron.Json.{Json}
use closedloop_electron.Executor.State.{Executor}
use closedloop_electron.Executor.Changes.{read_chunk-Changes}
use closedloop_electron.Executor.Steps.{
  Step, Remembers, AllRemember, connects, enqueues, cancels, acknowledges, replays, times_out,
  reads, settles, Reach, begins, continues, new_executor,
}
use closedloop_electron.Executor.Safety.{IsSound}
use closedloop_electron.Executor.Enqueue.{enqueue-IsSound}
use closedloop_electron.Executor.Soundness.{
  set_connected-IsSound, acknowledge-IsSound, replay_from-IsSound, time_out-IsSound,
  Changes-IsSound, cancel-IsSound, settle-IsSound,
}

new_executor-IsSound : (limit : ℕ) → IsSound limit new_executor
unfolding new_executor lookup
new_executor-IsSound limit = record {
  safe = record {
    locked = record { bounded = omega arith; owns = λ id key r a b. cc; held = λ id key a. cc };
    ordered = record { tracked_once = tt; waiting = tt; distinct = tt };
  };
  saturated = λ on. cc;
}

module _ (print : ℕ → Text) (parse : Text → Option Json) (limit : ℕ) where
  Step-IsSound :
      {s t : Executor}
      → (st : Step print parse limit s t) → Remembers print parse limit st
      → IsSound limit s
      → IsSound limit t
  Step-IsSound {s} (connects b) _ k = set_connected-IsSound limit b s k
  Step-IsSound {s} (enqueues now verify c) h k = enqueue-IsSound limit now verify c s h k
  Step-IsSound {s} (cancels now id reason) _ k = cancel-IsSound limit now id reason s k
  Step-IsSound {s} (acknowledges id n) _ k = acknowledge-IsSound limit id n s k
  Step-IsSound {s} (replays from) _ k = replay_from-IsSound limit from s k
  Step-IsSound {s} (times_out id) _ k = time_out-IsSound limit id s k
  Step-IsSound {s} (reads now id r value reader e) _ k =
      Changes-IsSound limit id r s _ (read_chunk-Changes parse now id value (reader, s)) e k
  Step-IsSound {s} (settles now c r reply e own) _ k =
      settle-IsSound print parse limit now c r reply s e own k

  pub Reach-IsSound :
      {s : Executor}
      → (reach : Reach print parse limit s) → AllRemember print parse limit reach
      → IsSound limit s
  Reach-IsSound begins _ = new_executor-IsSound limit
  Reach-IsSound (continues r st) h = Step-IsSound st h.1 (Reach-IsSound r h.0)
