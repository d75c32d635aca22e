-- ===== src/Executor/Pieces.antt =====
-- `consumeStreamResponse` of cloud-command-executor.ts: where the network cuts the text of a stream
-- makes no difference.
use closedloop_electron.Base.{
  ℕ, ◌≡◌, refl, ◌∙◌, sym, ap, Bool, Option, List, [], ◌∷◌, ◌++◌, Text, Bool-cases, inl, inr, ◌==◌,
}
use closedloop_electron.Json.{Json}
use closedloop_electron.Executor.State.{Executor}
use closedloop_electron.Executor.Stream.{
  Reader, split_lines, process_line, process_lines, read_chunk, read_chunks, read_end,
  consume_stream_response, new_reader,
}

-- The whole text.
abbrev pub joined : List Text → Text
joined [] = []
joined (v ∷ vs) = v ++ joined vs

abbrev then_split : List Text × Text → Text → List Text × Text
then_split (lines, rest) v = (lines ++ (split_lines rest v).0, (split_lines rest v).1)

split_lines-append : (b u v : Text) → split_lines b (u ++ v) ≡ then_split (split_lines b u) v
unfolding split_lines
split_lines-append b [] v = refl
split_lines-append b (c ∷ u) v = elim (Bool-cases (c == 10)) [
  | inl ends ↦ rw (ends, split_lines) (rw (split_lines-append [] u v))
  | inr goes ↦ rw (goes, split_lines) (split_lines-append (b ++ c ∷ []) u v)
]

module _ (parse : Text → Option Json) (now : ℕ) (id : Text) where
  process_lines-append :
      (ls ms : List Text) (r : Executor × Bool)
      → process_lines parse now id (ls ++ ms) r
        ≡ process_lines parse now id ms (process_lines parse now id ls r)
  unfolding process_lines
  process_lines-append [] ms r = refl
  process_lines-append (l ∷ ls) ms r = process_lines-append ls ms (process_line parse now id l r)

  read_chunk-append :
      (u v : Text) (r : Reader × Executor)
      → read_chunk parse now id (u ++ v) r ≡ read_chunk parse now id v (read_chunk parse now id u r)
  unfolding read_chunk
  read_chunk-append u v (r, s) = rw (split_lines-append r.buffer u v) (rw process_lines-append)

  read_chunks-joined :
      (vs : List Text) (r : Reader × Executor)
      → read_chunks parse now id vs r ≡ read_chunk parse now id (joined vs) r
  unfolding read_chunks read_chunk
  read_chunks-joined [] (r, s) = refl
  read_chunks-joined (v ∷ vs) r =
      read_chunks-joined vs (read_chunk parse now id v r) ∙ sym (read_chunk-append v (joined vs) r)

  -- Two cuttings of one text into pieces have the same effect on the executor, events included.
  pub consume-joined :
      (vs ws : List Text) (s : Executor)
      → joined vs ≡ joined ws
      → consume_stream_response parse now id vs s ≡ consume_stream_response parse now id ws s
  unfolding consume_stream_response
  consume-joined vs ws s e = ap (read_end parse now id) (
      read_chunks-joined vs (new_reader, s)
      ∙ ap (λ (w : Text). read_chunk parse now id w (new_reader, s)) e
      ∙ sym (read_chunks-joined ws (new_reader, s)))
