-- ===== src/Executor/Changes.antt =====
-- The code of cloud-command-executor.ts that works for one command, its stream, its result and its
-- end, changes the tracking of no other.
use closedloop_electron.Base.{
  ℕ, ◌≡◌, refl, ◌∙◌, Bool, true, false, Option, some, List, [], ◌∷◌, Text, trim, same, lookup,
  arith, IsMap, if◌then◌else◌,
}
use closedloop_electron.Json.{Json}
use closedloop_electron.Executor.State.{EventType, Outcome, Tracked, Executor, is_terminal}
use closedloop_electron.Executor.Emit.{emit_tracked_event, mark_terminal}
use closedloop_electron.Executor.Stream.{
  process_stream_line, process_line, process_lines, split_lines, Reader, read_chunk, read_chunks,
  read_end, consume_stream_response,
}
use closedloop_electron.Executor.Frame.{
  SameCore, SameCore-trans, emit-SameCore, mark-SameCore, state_of, emit-state_of, mark-state_of,
  emit-IsMap, mark-IsMap,
}
use closedloop_electron.Executor.Buffers.{CompleteIn, emit-CompleteIn, mark-CompleteIn}

pub record Changes (id : Text) (s t : Executor) : Type 0 where
  pub core : SameCore s t
  pub others : (j : Text) → same id j ≡ false → state_of j t.tracked ≡ state_of j s.tracked
  pub once : IsMap s.tracked → IsMap t.tracked
  pub complete : CompleteIn s.tracked → CompleteIn t.tracked
  pub final : (u : Tracked) → lookup id s.tracked ≡ some u → is_terminal u.state ≡ true → t ≡ s

emit_final :
    (id : Text) (e : EventType) (v : Json) (s : Executor) (u : Tracked)
    → lookup id s.tracked ≡ some u
    → is_terminal u.state ≡ true
    → emit_tracked_event id e v s ≡ s
unfolding emit_tracked_event
emit_final id e v s u a b = rw (a, b, emit_tracked_event)

mark_final :
    (now : ℕ) (id : Text) (o : Outcome) (s : Executor) (u : Tracked)
    → lookup id s.tracked ≡ some u
    → is_terminal u.state ≡ true
    → mark_terminal now id o s ≡ s
unfolding mark_terminal
mark_final now id o s u a b = rw (a, b, mark_terminal)

module _ {id : Text} where
  pub Changes-refl : (s : Executor) → Changes id s s
  Changes-refl s = record {
    core = ground arith;
    others = λ j e. refl;
    once = λ h. h;
    complete = λ h. h;
    final = λ u a b. refl;
  }

  pub Changes-trans : {s t u : Executor} → Changes id s t → Changes id t u → Changes id s u
  Changes-trans h k = record {
    core = SameCore-trans h.core k.core;
    others = λ j e. k.others j e ∙ h.others j e;
    once = λ m. k.once (h.once m);
    complete = λ m. k.complete (h.complete m);
    final = λ u a b. let first = h.final u a b in k.final u (rw first a) b ∙ first;
  }

  pub emit-Changes :
      (e : EventType) (v : Json) (s : Executor) → Changes id s (emit_tracked_event id e v s)
  emit-Changes e v s = record {
    core = emit-SameCore id e v s;
    others = λ j other. emit-state_of id j e v s;
    once = emit-IsMap id e v s;
    complete = emit-CompleteIn id e v s;
    final = emit_final id e v s;
  }

  pub mark-Changes :
      (now : ℕ) (o : Outcome) (s : Executor) → Changes id s (mark_terminal now id o s)
  mark-Changes now o s = record {
    core = mark-SameCore now id o s;
    others = λ j other. mark-state_of now id j o s other;
    once = mark-IsMap now id o s;
    complete = mark-CompleteIn now id o s;
    final = mark_final now id o s;
  }

  -- An event, and the end after it.
  pub emit-mark-Changes :
      (now : ℕ) (o : Outcome) (e : EventType) (v : Json) (s : Executor)
      → Changes id s (mark_terminal now id o (emit_tracked_event id e v s))
  emit-mark-Changes now o e v s =
      Changes-trans (emit-Changes e v s) (mark-Changes now o (emit_tracked_event id e v s))

  pub if-Changes :
      (b : Bool) (s t u : Executor)
      → Changes id s t
      → Changes id s u
      → Changes id s (if b then t else u)
  if-Changes true s t u h k = h
  if-Changes false s t u h k = k

  pub if_pair-Changes :
      {B : Type 0} (b : Bool) (s : Executor) (p q : Executor × B)
      → Changes id s p.0
      → Changes id s q.0
      → Changes id s (if b then p else q).0
  if_pair-Changes true s p q h k = h
  if_pair-Changes false s p q h k = k

module _ (parse : Text → Option Json) (now : ℕ) (id : Text) where
  process_stream_line-Changes :
      (line : Text) (s : Executor) → Changes id s (process_stream_line parse now id line s).0
  unfolding process_stream_line
  process_stream_line-Changes line s =
      if_pair-Changes _ s _ _ (emit-mark-Changes now _ _ _ s) (emit-Changes _ _ s)

  process_line-Changes :
      (line : Text) (r : Executor × Bool) → Changes id r.0 (process_line parse now id line r).0
  unfolding process_line
  process_line-Changes line (s, seen) =
      if_pair-Changes _ s _ _ (Changes-refl s) (process_stream_line-Changes (trim line) s)

  process_lines-Changes :
      (lines : List Text) (r : Executor × Bool)
      → Changes id r.0 (process_lines parse now id lines r).0
  unfolding process_lines
  process_lines-Changes [] r = Changes-refl r.0
  process_lines-Changes (line ∷ lines) r =
      Changes-trans (process_line-Changes line r)
        (process_lines-Changes lines (process_line parse now id line r))

  pub read_chunk-Changes :
      (value : Text) (r : Reader × Executor) → Changes id r.1 (read_chunk parse now id value r).1
  unfolding read_chunk
  read_chunk-Changes value (r, s) =
      process_lines-Changes (split_lines r.buffer value).0 (s, r.emitted_terminal)

  read_chunks-Changes :
      (values : List Text) (r : Reader × Executor)
      → Changes id r.1 (read_chunks parse now id values r).1
  unfolding read_chunks
  read_chunks-Changes [] r = Changes-refl r.1
  read_chunks-Changes (value ∷ values) r =
      Changes-trans (read_chunk-Changes value r)
        (read_chunks-Changes values (read_chunk parse now id value r))

  read_end-Changes : (r : Reader × Executor) → Changes id r.1 (read_end parse now id r)
  unfolding read_end
  read_end-Changes (r, s) =
      let last = process_line-Changes r.buffer (s, r.emitted_terminal) in
      if-Changes _ s _ _ last (Changes-trans last (emit-mark-Changes now _ _ _ _))

  pub consume-Changes :
      (values : List Text) (s : Executor)
      → Changes id s (consume_stream_response parse now id values s)
  unfolding consume_stream_response
  consume-Changes values s = Changes-trans (read_chunks-Changes values (_, s)) (read_end-Changes _)
