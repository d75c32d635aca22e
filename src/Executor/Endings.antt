-- ===== src/Executor/Endings.antt =====
-- The end of `execute` in cloud-command-executor.ts changes the tracking of its own command only, and
-- such a change keeps the executor safe.
use closedloop_electron.Base.{
  ℕ, ◌≡◌, false, Option, none, some, List, Text, same, same_iff, lookup, arith, Option-cases, inl,
  inr, All-map, is_some,
}
use closedloop_electron.Json.{Json}
use closedloop_electron.Executor.State.{Running, Executor, Command}
use closedloop_electron.Executor.Settle.{
  Reply, answered, rejected, is_ok, is_stream, execute_via_gateway, complete, recover, conclude,
}
use closedloop_electron.Executor.Stream.{consume_stream_response}
use closedloop_electron.Executor.Locks.{IsLocked-same}
use closedloop_electron.Executor.Queue.{IsWaiting}
use closedloop_electron.Executor.Saturation.{IsSafe}
use closedloop_electron.Executor.Changes.{
  Changes, Changes-refl, Changes-trans, emit-Changes, emit-mark-Changes, mark-Changes,
  consume-Changes, if-Changes, if_pair-Changes,
}

module _ (print : ℕ → Text) (parse : Text → Option Json) (now : ℕ) (id : Text) where
  stream-Changes :
      (body : Option (List Text)) (s : Executor)
      → Changes id s
          (elim body [ none ↦ s | some values ↦ consume_stream_response parse now id values s ])
  stream-Changes none s = Changes-refl s
  stream-Changes (some values) s = consume-Changes parse now id values s

  pub via_gateway-Changes :
      (reply : Reply) (s : Executor)
      → Changes id s (execute_via_gateway print parse now id reply s).0
  unfolding execute_via_gateway
  via_gateway-Changes (rejected m) s = Changes-refl s
  via_gateway-Changes (answered r) s =
      if_pair-Changes (is_stream r) s _ _ (stream-Changes r.body s) (
        if_pair-Changes (is_ok r) s _ _
          (Changes-trans (emit-Changes _ _ s) (emit-mark-Changes now _ _ _ _)) (Changes-refl s))

module _ (now : ℕ) (id : Text) where
  complete-Changes : (s : Executor) → Changes id s (complete now id s)
  unfolding complete
  complete-Changes s = elim (Option-cases (lookup id s.tracked)) [
    | inl e ↦ rw (e, complete) (Changes-refl s)
    | inr (t, e) ↦
        rw (e, complete)
          (if-Changes (is_some t.terminal_state) s _ _ (Changes-refl s)
            (emit-mark-Changes now _ _ _ s))
  ]

  recover-Changes :
      (r : Running) (message : Text) (s : Executor) → Changes id s (recover now id r message s)
  unfolding recover
  recover-Changes r message s = if-Changes s.disposed s _ _ (mark-Changes now _ s) (
      if-Changes r.cancel_requested s _ _ (emit-mark-Changes now _ _ _ s) (
        if-Changes r.timed_out s _ _ (emit-mark-Changes now _ _ _ s)
          (emit-mark-Changes now _ _ _ s)))

  pub conclude-Changes :
      (r : Running) (p : Executor × Option Text) → Changes id p.0 (conclude now id r p)
  unfolding conclude
  conclude-Changes r (s, none) = complete-Changes s
  conclude-Changes r (s, some message) = recover-Changes r message s

-- A command that waits is not the one in flight.
apart_of_waiting :
    (fl : List (Text × Running)) (id j : Text) (r : Running)
    → lookup id fl ≡ some r
    → lookup j fl ≡ none
    → same id j ≡ false
apart_of_waiting fl id j r a b = ground (arith, same_iff id j)

-- The command is in flight, so no other command's wait is touched.
pub Changes-IsSafe :
    (limit : ℕ) (id : Text) (r : Running) (s t : Executor)
    → Changes id s t
    → lookup id s.in_flight ≡ some r
    → IsSafe limit s
    → IsSafe limit t
Changes-IsSafe limit id r s t h e k =
    let still : (d : Command)
        → IsWaiting s.in_flight s.tracked d
        → IsWaiting t.in_flight t.tracked d =
      λ d w. (
        rw h.core.in_flight_eq w.0,
        rw (h.others d.command_id (apart_of_waiting s.in_flight id d.command_id r e w.0)) w.1,
      ) in
    record {
      locked = IsLocked-same s t h.core k.locked;
      ordered = record {
        tracked_once = h.once k.ordered.tracked_once;
        waiting = rw h.core.queue_eq (All-map s.queue still k.ordered.waiting);
        distinct = rw h.core.queue_eq k.ordered.distinct;
      };
    }
