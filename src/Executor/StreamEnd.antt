-- ===== src/Executor/StreamEnd.antt =====
-- What the steps of cloud-command-executor.ts do to a command's end: marking, sending, and the lines
-- of a stream up to its last.
use closedloop_electron.Base.{
  ℕ, ◌≡◌, refl, Bool, true, false, ◌||◌, Option, some, List, [], ◌∷◌, Text, lookup,
  lookup-insert_self, Bool-cases, inl, inr, is_some, trim, is_empty, if◌then◌else◌,
}
use closedloop_electron.Json.{Json}
use closedloop_electron.Executor.State.{
  EventType, Outcome, Tracked, Executor, terminal, is_terminal,
}
use closedloop_electron.Executor.Emit.{emit_tracked_event, mark_terminal}
use closedloop_electron.Executor.Stream.{
  process_stream_line, process_line, process_lines, split_lines, Reader, read_chunk, read_chunks,
  read_end, consume_stream_response, is_terminal_event, map_gateway_line, new_reader,
}

-- The command is tracked, its outcome is set exactly if it has ended, and it has if `seen` says so.
pub record IsEndedIf (id : Text) (seen : Bool) (s : Executor) : Type 0 where
  pub entry : Tracked
  pub here : lookup id s.tracked ≡ some entry
  pub linked : is_some entry.terminal_state ≡ is_terminal entry.state
  pub ended : seen ≡ true → is_terminal entry.state ≡ true

module _ (now : ℕ) (id : Text) where
  pub mark-ends :
      (o : Outcome) (s : Executor) {b : Bool}
      → IsEndedIf id b s
      → IsEndedIf id true (mark_terminal now id o s)
  unfolding mark_terminal
  mark-ends o s k = elim (Bool-cases (is_terminal k.entry.state)) [
    | inl over ↦
        rw (k.here, over, mark_terminal)
          (record { entry = k.entry; here = k.here; linked = k.linked; ended = λ _. over })
    | inr live ↦
        rw (k.here, live, mark_terminal)
          (record {
            entry = record k.entry {
              state = terminal;
              terminal_state = some o;
              completed_at = some now;
            };
            here = lookup-insert_self id _ s.tracked;
            linked = refl;
            ended = λ _. refl;
          })
  ]

  pub emit-ends :
      (e : EventType) (v : Json) (s : Executor) {b : Bool}
      → IsEndedIf id b s
      → IsEndedIf id b (emit_tracked_event id e v s)
  unfolding emit_tracked_event
  emit-ends e v s k = elim (Bool-cases (is_terminal k.entry.state)) [
    | inl over ↦ rw (k.here, over, emit_tracked_event) k
    | inr live ↦
        rw (k.here, live, emit_tracked_event)
          (record {
            entry = _;
            here = lookup-insert_self id _ s.tracked;
            linked = k.linked;
            ended = k.ended;
          })
  ]

  pub emit-mark-ends :
      (o : Outcome) (e : EventType) (v : Json) (s : Executor) {b : Bool}
      → IsEndedIf id b s
      → IsEndedIf id true (mark_terminal now id o (emit_tracked_event id e v s))
  emit-mark-ends o e v s k = mark-ends o (emit_tracked_event id e v s) (emit-ends e v s k)

  pub weaken-ends : (s : Executor) {b : Bool} → IsEndedIf id b s → IsEndedIf id false s
  weaken-ends s k = record { entry = k.entry; here = k.here; linked = k.linked; ended = λ h. cc }

  pub ends_any : (b : Bool) (s : Executor) → IsEndedIf id true s → IsEndedIf id b s
  ends_any b s k = record {
    entry = k.entry;
    here = k.here;
    linked = k.linked;
    ended = λ _. k.ended refl;
  }

-- The state and the flag of a reader.
abbrev pub IsEndedPair : Text → Executor × Bool → Type 0
IsEndedPair id (s, seen) = IsEndedIf id seen s

pub or_false : (b : Bool) → (b || false) ≡ b
or_false true = refl
or_false false = refl

pub if_pair-ends :
    (id : Text) (b : Bool) (p q : Executor × Bool)
    → IsEndedPair id p
    → IsEndedPair id q
    → IsEndedPair id (if b then p else q)
if_pair-ends id true p q h k = h
if_pair-ends id false p q h k = k

pub if-ends :
    (id : Text) (seen b : Bool) (s t : Executor)
    → (b ≡ true → IsEndedIf id seen s)
    → (b ≡ false → IsEndedIf id seen t)
    → IsEndedIf id seen (if b then s else t)
if-ends id seen true s t h k = h refl
if-ends id seen false s t h k = k refl

module _ (parse : Text → Option Json) (now : ℕ) (id : Text) where
  pub stream_line-ends :
      (line : Text) (s : Executor) (seen : Bool)
      → IsEndedIf id seen s
      → let r = process_stream_line parse now id line s in IsEndedIf id (seen || r.1) r.0
  unfolding process_stream_line
  stream_line-ends line s seen k =
      elim (Bool-cases
        (is_terminal_event (map_gateway_line parse line).0 (map_gateway_line parse line).1)) [
          | inl ends ↦
              rw (ends, process_stream_line) (ends_any now id _ _ (emit-mark-ends now id _ _ _ s k))
          | inr goes ↦ rw (goes, process_stream_line, or_false seen) (emit-ends now id _ _ s k)
        ]

  pub line-ends :
      (line : Text) (r : Executor × Bool)
      → IsEndedPair id r
      → IsEndedPair id (process_line parse now id line r)
  unfolding process_line
  line-ends line (s, seen) k =
      if_pair-ends id (is_empty (trim line)) _ _ k (stream_line-ends (trim line) s seen k)

  pub lines-ends :
      (lines : List Text) (r : Executor × Bool)
      → IsEndedPair id r
      → IsEndedPair id (process_lines parse now id lines r)
  unfolding process_lines
  lines-ends [] r k = k
  lines-ends (line ∷ lines) r k =
      lines-ends lines (process_line parse now id line r) (line-ends line r k)

  pub chunks-ends :
      (values : List Text) (r : Reader × Executor)
      → IsEndedIf id r.0.emitted_terminal r.1
      → let q = read_chunks parse now id values r in IsEndedIf id q.0.emitted_terminal q.1
  unfolding read_chunks read_chunk
  chunks-ends [] r k = k
  chunks-ends (value ∷ values) (r, s) k =
      chunks-ends values (read_chunk parse now id value (r, s))
        (lines-ends (split_lines r.buffer value).0 (s, r.emitted_terminal) k)

  pub read_end-ends :
      (r : Reader × Executor)
      → IsEndedIf id r.0.emitted_terminal r.1
      → IsEndedIf id true (read_end parse now id r)
  unfolding read_end
  read_end-ends (r, s) k =
      let p = process_line parse now id r.buffer (s, r.emitted_terminal) in
      let last : IsEndedIf id p.1 p.0 = line-ends r.buffer (s, r.emitted_terminal) k in
      if-ends id true p.1 p.0 _ (λ e. rw e at last) (λ other. emit-mark-ends now id _ _ _ p.0 last)

  pub consume-ends :
      (values : List Text) (s : Executor)
      → IsEndedIf id false s
      → IsEndedIf id true (consume_stream_response parse now id values s)
  unfolding consume_stream_response
  consume-ends values s k =
      read_end-ends (read_chunks parse now id values (new_reader, s))
        (chunks-ends values (new_reader, s) k)
