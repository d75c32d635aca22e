-- ===== src/Executor/Soundness.antt =====
-- Every reachable CloudCommandExecutor (cloud-command-executor.ts) is sound.
use closedloop_electron.Base.{
  ℕ, ◌≡◌, refl, ◌∙◌, sym, Bool, true, false, Option, some, List, [], ◌∷◌, Text, text, same,
  same_iff, lookup, lookup-insert, lookup-delete, All-map, All-zip, arith, Option-cases, inl, inr,
  IsMap, insert-IsMap, or_else,
}
use closedloop_electron.Json.{Json}
use closedloop_electron.Executor.State.{Command, Running, Executor, cancelled, done}
use closedloop_electron.Executor.Keys.{derive_lock_key}
use closedloop_electron.Executor.Emit.{
  emit_tracked_event, mark_terminal, acknowledge, replay_buffered, replay_from,
}
use closedloop_electron.Executor.Schedule.{set_connected, notify_queue_stats, is_free}
use closedloop_electron.Executor.Calls.{
  cancel, cancelled_data, request_cancel, remove_queued, time_out,
}
use closedloop_electron.Executor.Settle.{Reply, release, settle, conclude, execute_via_gateway}
use closedloop_electron.Executor.Frame.{SameCore, notify-SameCore, notify-tracked, state_of}
use closedloop_electron.Executor.Locks.{IsLocked-same, release-IsLocked}
use closedloop_electron.Executor.Queue.{
  Picks, Picks-All, Picks-Distinct, Removed, remove_queued-Removed, IsWaiting,
}
use closedloop_electron.Executor.Saturation.{IsSafe, IsSafe-same}
use closedloop_electron.Executor.Changes.{Changes, Changes-trans, emit-mark-Changes}
use closedloop_electron.Executor.Endings.{Changes-IsSafe, via_gateway-Changes, conclude-Changes}
use closedloop_electron.Executor.Safety.{IsSound, IsSound-same, schedule-IsSound, update-IsSound}
use closedloop_electron.Executor.Enqueue.{replay-IsSound}

pub set_connected-IsSound :
    (limit : ℕ) (b : Bool) (s : Executor)
    → IsSound limit s
    → IsSound limit (set_connected limit b s)
unfolding set_connected
set_connected-IsSound limit true s k =
    schedule-IsSound limit (record s { connected = true })
      (record { locked = k.safe.locked; ordered = k.safe.ordered })
set_connected-IsSound limit false s k = record {
  safe = record { locked = k.safe.locked; ordered = k.safe.ordered };
  saturated = λ on. cc;
}

acknowledge-SameCore : (id : Text) (n : ℕ) (s : Executor) → SameCore s (acknowledge id n s)
unfolding acknowledge
acknowledge-SameCore id n s = ground arith

acknowledge-state_of :
    (id j : Text) (n : ℕ) (s : Executor)
    → state_of j (acknowledge id n s).tracked ≡ state_of j s.tracked
unfolding acknowledge
acknowledge-state_of id j n s = grind (arith, lookup-insert, same_iff)

acknowledge-IsMap :
    (id : Text) (n : ℕ) (s : Executor) → IsMap s.tracked → IsMap (acknowledge id n s).tracked
unfolding acknowledge
acknowledge-IsMap id n s h = grind (arith, insert-IsMap)

pub acknowledge-IsSound :
    (limit : ℕ) (id : Text) (n : ℕ) (s : Executor)
    → IsSound limit s
    → IsSound limit (acknowledge id n s)
acknowledge-IsSound limit id n s k =
    let core = acknowledge-SameCore id n s in
    IsSound-same limit s (acknowledge id n s) core
      (record {
        locked = IsLocked-same s (acknowledge id n s) core k.safe.locked;
        ordered = record {
          tracked_once = acknowledge-IsMap id n s k.safe.ordered.tracked_once;
          waiting =
              rw (core.queue_eq, core.in_flight_eq)
                (All-map s.queue (λ d w. (w.0, acknowledge-state_of id d.command_id n s ∙ w.1))
                  k.safe.ordered.waiting);
          distinct = rw core.queue_eq k.safe.ordered.distinct;
        };
      })
      k

pub replay_from-IsSound :
    (limit : ℕ) (from : List (Text × ℕ)) (s : Executor)
    → IsSound limit s
    → IsSound limit (replay_from from s)
unfolding replay_from
replay_from-IsSound limit [] s k = k
replay_from-IsSound limit ((id, n) ∷ from) s k =
    replay_from-IsSound limit from (replay_buffered id n s) (replay-IsSound limit id n s k)

pub time_out-IsSound :
    (limit : ℕ) (id : Text) (s : Executor) → IsSound limit s → IsSound limit (time_out id s)
unfolding time_out
time_out-IsSound limit id s k = elim (Option-cases (lookup id s.in_flight)) [
  | inl e ↦ rw (e, time_out) k
  | inr (r, e) ↦
      rw (e, time_out)
        (update-IsSound limit id r (record r { timed_out = true }) s _ e refl (ground arith) refl k)
]

request_cancel-IsSound :
    (limit : ℕ) (id reason : Text) (s : Executor)
    → IsSound limit s
    → IsSound limit (request_cancel id reason s)
unfolding request_cancel
request_cancel-IsSound limit id reason s k = elim (Option-cases (lookup id s.in_flight)) [
  | inl e ↦ rw (e, request_cancel) k
  | inr (r, e) ↦
      rw (e, request_cancel)
        (update-IsSound limit id r
          (record r { cancel_requested = true; cancel_reason = some reason }) s _ e refl
          (ground arith) refl k)
]

-- A command in flight may change its own tracking.
pub Changes-IsSound :
    (limit : ℕ) (id : Text) (r : Running) (s t : Executor)
    → Changes id s t
    → lookup id s.in_flight ≡ some r
    → IsSound limit s
    → IsSound limit t
Changes-IsSound limit id r s t h e k =
    IsSound-same limit s t h.core (Changes-IsSafe limit id r s t h e k.safe) k

release-IsSafe :
    (limit : ℕ) (c : Command) (r : Running) (s : Executor)
    → lookup c.command_id s.in_flight ≡ some r
    → r.lock_key ≡ derive_lock_key c
    → IsSafe limit s
    → IsSafe limit (release c s)
unfolding release
release-IsSafe limit c r s e own k = record {
  locked = release-IsLocked limit c r s k.locked e own;
  ordered = record {
    tracked_once = k.ordered.tracked_once;
    waiting =
        All-map s.queue
          (λ d w. (ground (arith, lookup-delete c.command_id d.command_id s.in_flight, w.0), w.1))
          k.ordered.waiting;
    distinct = k.ordered.distinct;
  };
}

-- The queue without a command that waited, and the end of that command.
unqueue-IsSound :
    (limit : ℕ) (c : Command) (rest : List Command) (s t : Executor)
    → Picks c s.queue rest
    → Changes c.command_id (record s { queue = rest }) t
    → IsSound limit s
    → IsSound limit t
unqueue-IsSound limit c rest s t p h k =
    let waits = (Picks-All (IsWaiting s.in_flight s.tracked) p k.safe.ordered.waiting).1 in
    let apart = Picks-Distinct p k.safe.ordered.distinct in
    let others : (d : Command)
        → IsWaiting s.in_flight s.tracked d
        → same c.command_id d.command_id ≡ false
        → IsWaiting t.in_flight t.tracked d =
      λ d w other. (rw h.core.in_flight_eq w.0, rw (h.others d.command_id other) w.1) in
    record {
      safe = record {
        locked = IsLocked-same (record s { queue = rest }) t h.core k.safe.locked;
        ordered = record {
          tracked_once = h.once k.safe.ordered.tracked_once;
          waiting = rw h.core.queue_eq (All-zip rest others waits apart.0);
          distinct = rw h.core.queue_eq apart.1;
        };
      };
      saturated = λ on. elim (k.saturated (sym h.core.connected_eq ∙ on)) [
        | inl full ↦ inl (rw h.core.in_flight_eq full)
        | inr busy ↦ inr (
            rw (h.core.queue_eq, h.core.lock_owners_eq)
              (Picks-All (λ d. is_free s.lock_owners d ≡ false) p busy).1)
      ];
    }

notify-IsSound : (limit : ℕ) (s : Executor) → IsSound limit s → IsSound limit (notify_queue_stats s)
notify-IsSound limit s k =
    IsSound-same limit s (notify_queue_stats s) (notify-SameCore s)
      (IsSafe-same s (notify_queue_stats s) (notify-SameCore s) (notify-tracked s) k.safe) k

pub cancel-IsSound :
    (limit now : ℕ) (id : Text) (reason : Option Text) (s : Executor)
    → IsSound limit s
    → IsSound limit (cancel now id reason s)
unfolding cancel
cancel-IsSound limit now id reason s k =
    let why = or_else reason (text "cancelled") in
    elim (Option-cases (remove_queued id s.queue)) [
      | inl e ↦ rw (e, cancel) (request_cancel-IsSound limit id why s k)
      | inr (rest, e) ↦
          let removed : Removed id s.queue (some rest) =
            rw e at (remove_queued-Removed id s.queue) in
          let (c, p, named) = removed in
          let ended =
            mark_terminal now id cancelled
              (emit_tracked_event id done (cancelled_data why) (record s { queue = rest })) in
          rw (e, cancel)
            (notify-IsSound limit ended
              (unqueue-IsSound limit c rest s ended p (rw named (emit-mark-Changes now _ _ _ _)) k))
    ]

pub settle-IsSound :
    (print : ℕ → Text) (parse : Text → Option Json) (limit now : ℕ) (c : Command) (r : Running)
    (reply : Reply) (s : Executor)
    → lookup c.command_id s.in_flight ≡ some r
    → r.lock_key ≡ derive_lock_key c
    → IsSound limit s
    → IsSound limit (settle print parse limit now c r reply s)
unfolding settle
settle-IsSound print parse limit now c r reply s e own k =
    let via = execute_via_gateway print parse now c.command_id reply s in
    let ended = conclude now c.command_id r via in
    let h =
      Changes-trans (via_gateway-Changes print parse now c.command_id reply s)
        (conclude-Changes now c.command_id r via) in
    schedule-IsSound limit (release c ended) (
      release-IsSafe limit c r ended (rw h.core.in_flight_eq e) own
        (Changes-IsSafe limit c.command_id r s ended h e k.safe))
