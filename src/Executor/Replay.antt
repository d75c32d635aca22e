-- ===== src/Executor/Replay.antt =====
-- Every step of a CloudCommandExecutor (cloud-command-executor.ts) keeps the buffers complete, so a
-- replay sends every event that is not acknowledged, in order.
use closedloop_electron.Base.{
  ℕ, zero, suc, List, [], ◌∷◌, Text, lookup, delete, lookup-delete, length, arith, Option-cases,
  Bool-cases, inl, inr,
}
use closedloop_electron.Executor.State.{Command, Tracked, Executor, CommandState}
use closedloop_electron.Executor.Prune.{prune, delete_all}
use closedloop_electron.Executor.Schedule.{
  start, placed, schedule, schedule_loop, next_command, notify_queue_stats,
}
use closedloop_electron.Executor.Frame.{notify-tracked}
use closedloop_electron.Executor.Buffers.{CompleteIn, emit-CompleteIn, set_state-CompleteIn}
use closedloop_electron.Executor.Saturation.{schedule_connected, schedule_disconnected}

pub notify-CompleteIn :
    (s : Executor) → CompleteIn s.tracked → CompleteIn (notify_queue_stats s).tracked
notify-CompleteIn s k = rw (notify-tracked s) k

start-CompleteIn :
    (c : Command) (s : Executor) → CompleteIn s.tracked → CompleteIn (start c s).tracked
unfolding start
start-CompleteIn c s k = elim (Option-cases (lookup c.command_id s.tracked)) [
  | inl e ↦ rw (e, start) k
  | inr (t, e) ↦
      rw (e, start)
        (emit-CompleteIn c.command_id _ _ (notify_queue_stats (placed c t s)) (
          notify-CompleteIn (placed c t s)
            (set_state-CompleteIn c.command_id t CommandState.running s.tracked e k)))
]

schedule_loop-CompleteIn :
    (limit fuel : ℕ) (s : Executor)
    → CompleteIn s.tracked
    → CompleteIn (schedule_loop limit fuel s).tracked
unfolding schedule_loop
schedule_loop-CompleteIn limit zero s k = k
schedule_loop-CompleteIn limit (suc fuel) s k = elim (Option-cases (next_command limit s)) [
  | inl e ↦ rw (e, schedule_loop) k
  | inr ((c, rest), e) ↦
      rw (e, schedule_loop)
        (schedule_loop-CompleteIn limit fuel (start c (record s { queue = rest }))
          (start-CompleteIn c (record s { queue = rest }) k))
]

pub schedule-CompleteIn :
    (limit : ℕ) (s : Executor) → CompleteIn s.tracked → CompleteIn (schedule limit s).tracked
schedule-CompleteIn limit s k = elim (Bool-cases s.connected) [
  | inl on ↦
      rw (schedule_connected limit s on)
        (notify-CompleteIn _ (schedule_loop-CompleteIn limit (length s.queue) s k))
  | inr off ↦ rw (schedule_disconnected limit s off) k
]

delete_all-CompleteIn : (es m : List (Text × Tracked)) → CompleteIn m → CompleteIn (delete_all es m)
unfolding delete_all
delete_all-CompleteIn [] m k = k
delete_all-CompleteIn ((id, t) ∷ es) m k =
    delete_all-CompleteIn es (delete id m) (λ j u e. k j u (ground (arith, lookup-delete id j m)))

pub prune-CompleteIn :
    (now : ℕ) (m : List (Text × Tracked)) → CompleteIn m → CompleteIn (prune now m)
unfolding prune
prune-CompleteIn now m k = delete_all-CompleteIn _ _ (delete_all-CompleteIn _ m k)
