-- ===== src/Executor/Settle.antt =====
-- `executeViaGateway` from the response on, and `execute` from its `await` on. The request, and the
-- exceptions on the way to it, are the gateway's: they come in as a `Reply`.
use closedloop_electron.Base.{
  ℕ, Bool, true, ◌&&◌, ◌||◌, Option, none, some, List, [], ◌++◌, Text, text, lookup, delete,
  or_else, is_some, is_empty, leb, to_lower, includes, if◌then◌else◌,
}
use closedloop_electron.Json.{Json, ℤ, str, bool, int, obj, field, end}
use closedloop_electron.Executor.State.{
  Command, Running, Executor, finished, failed, cancelled, result, error, done,
}
use closedloop_electron.Executor.Keys.{derive_lock_key}
use closedloop_electron.Executor.Emit.{emit_tracked_event, mark_terminal}
use closedloop_electron.Executor.Calls.{cancelled_data}
use closedloop_electron.Executor.Schedule.{schedule}
use closedloop_electron.Executor.Stream.{consume_stream_response}

-- `Response`, with its body as text, as the value of `parseNonStreamingBody`, and in pieces.
pub record Response : Type 0 where
  pub status : ℕ
  pub content_type : Text
  pub body_text : Text
  pub payload : Json
  pub body : Option (List Text)

-- How the gateway's part of the command went: a response, or an exception on the way.
pub data Reply : Type 0 where
  answered : Response → Reply
  rejected : Text → Reply

-- `response.ok`
abbrev pub is_ok : Response → Bool
is_ok r = leb 200 r.status && leb r.status 299

pub is_stream : Response → Bool
is_stream r =
    includes (to_lower r.content_type) (text "text/event-stream")
    || includes (to_lower r.content_type) (text "application/x-ndjson")

abbrev pub done_data : Json
done_data = obj (field (text "type") (str (text "done")) end)

abbrev result_data : Response → Json
result_data r = obj (
    field (text "type") (str (text "result")) (
      field (text "statusCode") (int (ℤ.pos r.status))
        (field (text "success") (bool (is_ok r)) (field (text "data") r.payload end))))

-- `executeViaGateway` throws on a status that is not in the 200s. `print` prints the status.
gateway_error : (ℕ → Text) → Response → Text
gateway_error print r =
    text "gateway returned "
    ++ print r.status
    ++ (if is_empty r.body_text then [] else text ": " ++ r.body_text)

-- A finished gateway call: the executor, and the message of what it threw.
unfoldable pub execute_via_gateway :
    (ℕ → Text) → (Text → Option Json) → ℕ → Text → Reply → Executor → Executor × Option Text
unfolding is_stream gateway_error
execute_via_gateway print parse now id (rejected message) s = (s, some message)
execute_via_gateway print parse now id (answered r) s =
    if is_stream r
    then (
      elim r.body [ none ↦ s | some values ↦ consume_stream_response parse now id values s ],
      none,
    )
    else if is_ok r
    then (
      mark_terminal now id finished
          (emit_tracked_event id done done_data (emit_tracked_event id result (result_data r) s)),
      none,
    )
    else (s, some (gateway_error print r))

-- The `try` block after the gateway call, where the call has marked no end yet. The source looks at
-- the record that it got at the start; here it is the record that stands under the id, another one
-- only if the id was pruned and enqueued again during the call.
unfoldable pub complete : ℕ → Text → Executor → Executor
complete now id s = elim (lookup id s.tracked) [
  | none ↦ s
  | some t ↦
      if is_some t.terminal_state
      then s
      else mark_terminal now id finished (emit_tracked_event id done done_data s)
]

abbrev timeout_data : Json
timeout_data = obj (
    field (text "type") (str (text "error")) (
      field (text "terminal") (bool true) (
        field (text "code") (str (text "timeout"))
          (field (text "error") (str (text "command timed out")) end))))

abbrev error_data : Text → Json
error_data message = obj (
    field (text "type") (str (text "error"))
      (field (text "terminal") (bool true) (field (text "error") (str message) end)))

-- The `catch` block. `r` is the call's own record.
unfoldable pub recover : ℕ → Text → Running → Text → Executor → Executor
recover now id r message s =
    if s.disposed
    then mark_terminal now id failed s
    else if r.cancel_requested
    then mark_terminal now id cancelled
        (emit_tracked_event id done (cancelled_data (or_else r.cancel_reason (text "cancelled"))) s)
    else if r.timed_out
    then mark_terminal now id failed (emit_tracked_event id error timeout_data s)
    else mark_terminal now id failed (emit_tracked_event id error (error_data message) s)

unfoldable pub release_lock : Option Text → List (Text × Text) → List (Text × Text)
release_lock none owners = owners
release_lock (some key) owners = delete key owners

-- The `finally` block up to `schedule`.
unfoldable pub release : Command → Executor → Executor
unfolding release_lock
release c s = record s {
  in_flight = delete c.command_id s.in_flight;
  lock_owners = release_lock (derive_lock_key c) s.lock_owners;
}

-- The `try` and the `catch` block.
unfoldable pub conclude : ℕ → Text → Running → Executor × Option Text → Executor
unfolding complete recover
conclude now id r (s, none) = complete now id s
conclude now id r (s, some message) = recover now id r message s

-- `execute` from the reply to its end.
unfoldable pub settle :
    (ℕ → Text) → (Text → Option Json) → ℕ → ℕ → Command → Running → Reply → Executor → Executor
unfolding execute_via_gateway conclude release
settle print parse limit now c r reply s = schedule limit (
    release c
      (conclude now c.command_id r (execute_via_gateway print parse now c.command_id reply s)))
