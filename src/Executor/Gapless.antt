-- ===== src/Executor/Gapless.antt =====
-- Every step of a CloudCommandExecutor (cloud-command-executor.ts) keeps the buffers complete, so a
-- replay sends every event that is not acknowledged, in order.
use closedloop_electron.Base.{
  ℕ, ◌≤◌, min, ◌≡◌, Bool, true, false, Option, some, List, [], ◌∷◌, Text, text, lookup, arith,
  Option-cases, Bool-cases, inl, inr, or_else,
}
use closedloop_electron.Json.{Json}
use closedloop_electron.Executor.State.{
  Command, Running, Tracked, Executor, cancelled, is_terminal, done,
}
use closedloop_electron.Executor.Keys.{signature_body_override}
use closedloop_electron.Executor.Emit.{replay_buffered, replay_from, replayed}
use closedloop_electron.Executor.Prune.{prune_terminal_commands}
use closedloop_electron.Executor.Schedule.{set_connected}
use closedloop_electron.Executor.Calls.{
  enqueue, accept, refusal, cancel, cancelled_data, request_cancel, remove_queued, time_out,
}
use closedloop_electron.Executor.Settle.{Reply, release, settle, execute_via_gateway}
use closedloop_electron.Executor.Window.{Run, Run-later}
use closedloop_electron.Executor.Buffers.{CompleteIn, acknowledge-CompleteIn, new-CompleteIn}
use closedloop_electron.Executor.Changes.{emit-mark-Changes, read_chunk-Changes}
use closedloop_electron.Executor.Endings.{via_gateway-Changes, conclude-Changes}
use closedloop_electron.Executor.Enqueue.{
  enqueue_known, enqueue_refused, enqueue_accepted, replay-tracked,
}
use closedloop_electron.Executor.Replay.{notify-CompleteIn, schedule-CompleteIn, prune-CompleteIn}
use closedloop_electron.Executor.Steps.{
  Step, connects, enqueues, cancels, acknowledges, replays, times_out, reads, settles, Reach,
  begins, continues, new_executor,
}

module _ (limit now : ℕ) (verify : Command → Json → Option Text) (c : Command) (s : Executor) where
  enqueue-CompleteIn : CompleteIn s.tracked → CompleteIn (enqueue limit now verify c s).tracked
  unfolding accept prune_terminal_commands
  enqueue-CompleteIn k =
      let p = prune_terminal_commands now s in
      let pruned = prune-CompleteIn now s.tracked k in
      elim (Option-cases (lookup c.command_id p.tracked)) [
        | inl new ↦ elim (Option-cases (refusal (verify c (signature_body_override c)) c)) [
          | inl good ↦
              rw (enqueue_accepted limit now verify c s new good)
                (schedule-CompleteIn limit _ (new-CompleteIn now c p.tracked pruned))
          | inr (reason, bad) ↦ rw (enqueue_refused limit now verify c s reason new bad) pruned
        ]
        | inr (t, old) ↦ elim (Bool-cases (is_terminal t.state)) [
          | inl over ↦ rw (enqueue_known limit now verify c s t old, over, replay-tracked) pruned
          | inr live ↦ rw (enqueue_known limit now verify c s t old, live) pruned
        ]
      ]

replay_from-CompleteIn :
    (from : List (Text × ℕ)) (s : Executor)
    → CompleteIn s.tracked
    → CompleteIn (replay_from from s).tracked
unfolding replay_from
replay_from-CompleteIn [] s k = k
replay_from-CompleteIn ((id, n) ∷ from) s k =
    replay_from-CompleteIn from (replay_buffered id n s) (rw (replay-tracked id n s) k)

request_cancel-tracked :
    (id reason : Text) (s : Executor) → (request_cancel id reason s).tracked ≡ s.tracked
unfolding request_cancel
request_cancel-tracked id reason s = ground arith

time_out-tracked : (id : Text) (s : Executor) → (time_out id s).tracked ≡ s.tracked
unfolding time_out
time_out-tracked id s = ground arith

cancel-CompleteIn :
    (now : ℕ) (id : Text) (reason : Option Text) (s : Executor)
    → CompleteIn s.tracked
    → CompleteIn (cancel now id reason s).tracked
unfolding cancel
cancel-CompleteIn now id reason s k =
    let why = or_else reason (text "cancelled") in
    elim (Option-cases (remove_queued id s.queue)) [
      | inl e ↦ rw (e, cancel, request_cancel-tracked id why s) k
      | inr (rest, e) ↦
          rw (e, cancel)
            (notify-CompleteIn _ (
              (emit-mark-Changes {id = id} now cancelled done (cancelled_data why)
                  (record s { queue = rest })).complete
                k))
    ]

set_connected-CompleteIn :
    (limit : ℕ) (b : Bool) (s : Executor)
    → CompleteIn s.tracked
    → CompleteIn (set_connected limit b s).tracked
unfolding set_connected
set_connected-CompleteIn limit true s k =
    schedule-CompleteIn limit (record s { connected = true }) k
set_connected-CompleteIn limit false s k = k

module _ (print : ℕ → Text) (parse : Text → Option Json) (limit : ℕ) where
  settle-CompleteIn :
      (now : ℕ) (c : Command) (r : Running) (reply : Reply) (s : Executor)
      → CompleteIn s.tracked
      → CompleteIn (settle print parse limit now c r reply s).tracked
  unfolding settle release
  settle-CompleteIn now c r reply s k =
      let via = execute_via_gateway print parse now c.command_id reply s in
      schedule-CompleteIn limit _ (
        (conclude-Changes now c.command_id r via).complete
          ((via_gateway-Changes print parse now c.command_id reply s).complete k))

  Step-CompleteIn :
      {s t : Executor} → Step print parse limit s t → CompleteIn s.tracked → CompleteIn t.tracked
  Step-CompleteIn {s} (connects b) k = set_connected-CompleteIn limit b s k
  Step-CompleteIn {s} (enqueues now verify c) k = enqueue-CompleteIn limit now verify c s k
  Step-CompleteIn {s} (cancels now id reason) k = cancel-CompleteIn now id reason s k
  Step-CompleteIn {s} (acknowledges id n) k = acknowledge-CompleteIn id n s k
  Step-CompleteIn {s} (replays from) k = replay_from-CompleteIn from s k
  Step-CompleteIn {s} (times_out id) k = rw (time_out-tracked id s) k
  Step-CompleteIn {s} (reads now id r value reader e) k =
      (read_chunk-Changes parse now id value (reader, s)).complete k
  Step-CompleteIn {s} (settles now c r reply e own) k = settle-CompleteIn now c r reply s k

  pub Reach-CompleteIn : {s : Executor} → Reach print parse limit s → CompleteIn s.tracked
  unfolding new_executor lookup
  Reach-CompleteIn begins = λ id t e. cc
  Reach-CompleteIn (continues r st) = Step-CompleteIn st (Reach-CompleteIn r)

  -- In every reachable state, what is sent again for a command from a number that is not below the
  -- acknowledged one is the run of all its later events, in order and with no gap.
  pub Reach-replay :
      {s : Executor} (from : ℕ) (id : Text) (t : Tracked)
      → Reach print parse limit s
      → lookup id s.tracked ≡ some t
      → t.buffered.last_acked_sequence ≤ from
      → Run (min from t.last_emitted_sequence) (replayed from t) t.last_emitted_sequence
  unfolding replayed
  Reach-replay from id t reach e h =
      let complete = Reach-CompleteIn reach id t e in
      Run-later complete.base t.last_emitted_sequence from t.buffered.events
        (omega (arith, complete.base_acked)) complete.run
