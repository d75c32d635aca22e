-- ===== src/Executor/Stream.antt =====
-- `consumeStreamResponse` and `processStreamLine`: a response that comes in pieces of text, as
-- `TextDecoder` hands them out. `parse` is `JSON.parse`, with `none` where that throws.
use closedloop_electron.Base.{
  ℕ, Bool, true, false, ◌||◌, Option, none, some, List, [], ◌∷◌, ◌++◌, Text, text, same, trim,
  is_empty, ◌==◌, if◌then◌else◌,
}
use closedloop_electron.Json.{Json, null, str, obj, field, end, get, as_record, is_true}
use closedloop_electron.Executor.State.{
  EventType, status, chunk, result, error, done, Outcome, finished, failed, cancelled, Executor,
}
use closedloop_electron.Executor.Emit.{emit_tracked_event, mark_terminal}

abbrev text_chunk : Text → EventType × Json
text_chunk line =
    (chunk, obj (field (text "type") (str (text "text")) (field (text "content") (str line) end)))

-- The kind of event that the field `type` names.
event_type_of : Json → EventType
event_type_of (str type) =
    if same type (text "status")
    then status
    else if same type (text "error")
    then error
    else if same type (text "result")
    then result
    else if same type (text "done")
    then done
    else chunk
event_type_of _ = chunk

-- `null` has no fields, and reading one throws; any other value that is no object has none.
map_parsed : Text → Json → EventType × Json
unfolding event_type_of
map_parsed line null = text_chunk line
map_parsed line (obj fs) = (event_type_of (get (text "type") fs), obj fs)
map_parsed line value = (chunk, value)

pub map_gateway_line : (Text → Option Json) → Text → EventType × Json
unfolding map_parsed
map_gateway_line parse line = elim (parse line) [
  | none ↦ text_chunk line
  | some value ↦ map_parsed line value
]

pub is_terminal_event : EventType → Json → Bool
is_terminal_event done value = true
is_terminal_event error value = is_true (get (text "terminal") (as_record value))
is_terminal_event result value = is_true (get (text "terminal") (as_record value))
is_terminal_event _ value = false

resolve_terminal_state : EventType → Json → Outcome
resolve_terminal_state done value =
    if is_true (get (text "cancelled") (as_record value)) then cancelled else finished
resolve_terminal_state result value = finished
resolve_terminal_state _ value = failed

-- The reader's `buffer` and `emittedTerminal`.
pub record Reader : Type 0 where
  pub buffer : Text
  pub emitted_terminal : Bool

abbrev pub new_reader : Reader
new_reader = record { buffer = []; emitted_terminal = false }

-- `(buffer + value).split("\n")`, with the last piece apart. `buffer` holds no end of line.
unfoldable pub split_lines : Text → Text → List Text × Text
split_lines buffer [] = ([], buffer)
split_lines buffer (c ∷ s) = elim (c == 10) [
  | true ↦ let (lines, rest) = split_lines [] s in (buffer ∷ lines, rest)
  | false ↦ split_lines (buffer ++ c ∷ []) s
]

module _ (parse : Text → Option Json) (now : ℕ) (id : Text) where
  -- The executor after a line, and whether its event was terminal.
  unfoldable pub process_stream_line : Text → Executor → Executor × Bool
  unfolding map_gateway_line is_terminal_event resolve_terminal_state
  process_stream_line line s =
      let (event_type, value) = map_gateway_line parse line in
      let emitted = emit_tracked_event id event_type value s in
      if is_terminal_event event_type value
      then (mark_terminal now id (resolve_terminal_state event_type value) emitted, true)
      else (emitted, false)

  -- A blank line is passed over.
  unfoldable pub process_line : Text → Executor × Bool → Executor × Bool
  unfolding process_stream_line
  process_line line (s, seen) =
      let trimmed = trim line in
      if is_empty trimmed
      then (s, seen)
      else (let (t, ended) = process_stream_line trimmed s in (t, seen || ended))

  unfoldable pub process_lines : List Text → Executor × Bool → Executor × Bool
  unfolding process_line
  process_lines [] r = r
  process_lines (line ∷ lines) r = process_lines lines (process_line line r)

  unfoldable pub read_chunk : Text → Reader × Executor → Reader × Executor
  unfolding split_lines process_lines
  read_chunk value (r, s) =
      let (lines, rest) = split_lines r.buffer value in
      let (t, ended) = process_lines lines (s, r.emitted_terminal) in
      (record { buffer = rest; emitted_terminal = ended }, t)

  unfoldable pub read_chunks : List Text → Reader × Executor → Reader × Executor
  unfolding read_chunk
  read_chunks [] r = r
  read_chunks (value ∷ values) r = read_chunks values (read_chunk value r)

  -- The end of the body: the trailing text, and a `done` where no event was terminal.
  unfoldable pub read_end : Reader × Executor → Executor
  unfolding process_line
  read_end (r, s) =
      let (t, ended) = process_line r.buffer (s, r.emitted_terminal) in
      if ended
      then t
      else mark_terminal now id finished
          (emit_tracked_event id done (obj (field (text "type") (str (text "done")) end)) t)

  unfoldable pub consume_stream_response : List Text → Executor → Executor
  unfolding read_chunks read_end
  consume_stream_response values s = read_end (read_chunks values (new_reader, s))
