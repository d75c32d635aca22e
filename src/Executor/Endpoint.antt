-- ===== src/Executor/Endpoint.antt =====
-- The end of a command in cloud-command-executor.ts: every reply of the gateway ends it.
use closedloop_electron.Base.{
  ℕ, true, false, Option, none, some, List, Text, Bool-cases, inl, inr, is_some,
}
use closedloop_electron.Json.{Json}
use closedloop_electron.Executor.State.{Running, Executor}
use closedloop_electron.Executor.Stream.{consume_stream_response}
use closedloop_electron.Executor.Settle.{
  Reply, answered, rejected, is_ok, is_stream, execute_via_gateway, complete, recover, conclude,
}
use closedloop_electron.Executor.StreamEnd.{
  IsEndedIf, mark-ends, emit-ends, emit-mark-ends, ends_any, if-ends, consume-ends,
}

-- A gateway call that returns has ended the command or left that to `complete`.
module _ (print : ℕ → Text) (parse : Text → Option Json) (now : ℕ) (id : Text) where
  body-ends :
      (body : Option (List Text)) (s : Executor)
      → IsEndedIf id false s
      → IsEndedIf id false
          (elim body [ none ↦ s | some values ↦ consume_stream_response parse now id values s ])
  body-ends none s k = k
  body-ends (some values) s k = ends_any now id false _ (consume-ends parse now id values s k)

  via_gateway-ends :
      (reply : Reply) (s : Executor)
      → IsEndedIf id false s
      → IsEndedIf id false (execute_via_gateway print parse now id reply s).0
  unfolding execute_via_gateway
  via_gateway-ends (rejected message) s k = k
  via_gateway-ends (answered r) s k = elim (Bool-cases (is_stream r)) [
    | inl streams ↦ rw (streams, execute_via_gateway) (body-ends r.body s k)
    | inr whole ↦ elim (Bool-cases (is_ok r)) [
      | inl good ↦
          rw (whole, good, execute_via_gateway)
            (ends_any now id false _ (emit-mark-ends now id _ _ _ _ (emit-ends now id _ _ s k)))
      | inr bad ↦ rw (whole, bad, execute_via_gateway) k
    ]
  ]

complete-ends :
    (now : ℕ) (id : Text) (s : Executor)
    → IsEndedIf id false s
    → IsEndedIf id true (complete now id s)
unfolding complete
complete-ends now id s k = elim (Bool-cases (is_some k.entry.terminal_state)) [
  | inl over ↦
      rw (k.here, over, complete)
        (record {
          entry = k.entry;
          here = k.here;
          linked = k.linked;
          ended = λ _. rw (← k.linked) over;
        })
  | inr live ↦ rw (k.here, live, complete) (emit-mark-ends now id _ _ _ s k)
]

recover-ends :
    (now : ℕ) (id : Text) (r : Running) (message : Text) (s : Executor)
    → IsEndedIf id false s
    → IsEndedIf id true (recover now id r message s)
unfolding recover
recover-ends now id r message s k =
    if-ends id true s.disposed _ _ (λ _. mark-ends now id _ s k)
      (λ _.
        if-ends id true r.cancel_requested _ _ (λ _. emit-mark-ends now id _ _ _ s k)
          (λ _.
            if-ends id true r.timed_out _ _ (λ _. emit-mark-ends now id _ _ _ s k)
              (λ _. emit-mark-ends now id _ _ _ s k)))

-- Whatever the gateway replies, the `try` and `catch` of `execute` leave a tracked command ended,
-- with an outcome, if before them its outcome was set exactly if it had ended.
pub conclude-ends :
    (print : ℕ → Text) (parse : Text → Option Json) (now : ℕ) (id : Text) (r : Running)
    (reply : Reply) (s : Executor)
    → IsEndedIf id false s
    → IsEndedIf id true (conclude now id r (execute_via_gateway print parse now id reply s))
unfolding conclude
conclude-ends print parse now id r reply s k =
    finish (execute_via_gateway print parse now id reply s)
      (via_gateway-ends print parse now id reply s k)
  where
    finish :
        (p : Executor × Option Text)
        → IsEndedIf id false p.0
        → IsEndedIf id true (conclude now id r p)
    finish (t, none) h = complete-ends now id t h
    finish (t, some message) h = recover-ends now id r message t h
