-- ===== src/Executor/Window.antt =====
-- Sequence numbers of cloud-command-executor.ts: the buffer of a command is the run of its events
-- from the acknowledged ones to the last, so a replay has no gap.
use closedloop_electron.Base.{
  ltb→lt, ℕ, ◌+◌, ◌≤◌, max, min, ◌≡◌, refl, List, [], ◌∷◌, ◌++◌, filter, arith, ltb, Bool-cases,
  inl, inr,
}
use closedloop_electron.Json.{Json}
use closedloop_electron.Executor.State.{EventType, EventRecord, Tracked, is_terminal}
use closedloop_electron.Executor.Emit.{acknowledge_tracked}

-- The events are numbered from `base + 1` to `last`, one by one.
abbrev pub Run : ℕ → List EventRecord → ℕ → Type 0
Run base [] last = base ≡ last
Run base (e ∷ es) last = (e.sequence ≡ base + 1) × Run (base + 1) es last

-- Nothing that is not acknowledged is missing from the buffer.
pub record IsComplete (t : Tracked) : Type 0 where
  pub base : ℕ
  pub base_acked : base ≤ t.buffered.last_acked_sequence
  pub run : Run base t.buffered.events t.last_emitted_sequence

Run-snoc :
    (base last : ℕ) (es : List EventRecord) (e : EventRecord)
    → Run base es last
    → e.sequence ≡ last + 1
    → Run base (es ++ e ∷ []) (last + 1)
Run-snoc base last [] e h k = (omega arith, omega arith)
Run-snoc base last (x ∷ es) e h k = (h.0, Run-snoc (base + 1) last es e h.1 k)

Run-le : (base last : ℕ) (es : List EventRecord) → Run base es last → base ≤ last
Run-le base last [] h = omega arith
Run-le base last (x ∷ es) h = omega (arith, Run-le (base + 1) last es h.1)

-- The later part of a run, from a number on, is a run.
abbrev later : ℕ → List EventRecord → List EventRecord
later from = filter (λ e. ltb from e.sequence)

Run-all :
    (base last from : ℕ) (es : List EventRecord)
    → from ≤ base
    → Run base es last
    → later from es ≡ es
Run-all base last from [] h k = refl
Run-all base last from (x ∷ es) h k = ground (arith, Run-all (base + 1) last from es)

pub Run-later :
    (base last from : ℕ) (es : List EventRecord)
    → base ≤ from
    → Run base es last
    → Run (min from last) (later from es) last
Run-later base last from [] h k = omega arith
Run-later base last from (x ∷ es) h k = elim (Bool-cases (ltb from x.sequence)) [
  | inl late ↦
      let first : min from last ≡ base =
        omega (arith, ltb→lt _ _ late, k.0, Run-le base last (x ∷ es) k) in
      let rest : later from es ≡ es =
        Run-all (base + 1) last from es (omega (arith, ltb→lt _ _ late, k.0)) k.1 in
      rw (late, rest, first) k
  | inr early ↦ rw early (Run-later (base + 1) last from es (ground arith) k.1)
]

-- A new event.
unfoldable pub emitted : EventType → Json → Tracked → Tracked
emitted e v t =
    let sequence = t.last_emitted_sequence + 1 in
    let item : EventRecord = record { sequence = sequence; event_type = e; data_ = v } in
    record t {
      last_emitted_sequence = sequence;
      buffered = record t.buffered { events = t.buffered.events ++ item ∷ [] };
    }

pub emitted-IsComplete :
    (e : EventType) (v : Json) (t : Tracked) → IsComplete t → IsComplete (emitted e v t)
unfolding emitted
emitted-IsComplete e v t k = record {
  base = k.base;
  base_acked = k.base_acked;
  run = Run-snoc k.base t.last_emitted_sequence t.buffered.events _ k.run refl;
}

pub acknowledged-IsComplete :
    (n : ℕ) (t : Tracked) → IsComplete t → IsComplete (acknowledge_tracked n t)
unfolding acknowledge_tracked
acknowledged-IsComplete n t k = elim (Bool-cases (is_terminal t.state)) [
  | inl over ↦
      rw (over, acknowledge_tracked)
        (record { base = k.base; base_acked = omega (arith, k.base_acked); run = k.run })
  | inr live ↦
      let acked = max t.buffered.last_acked_sequence n in
      rw (live, acknowledge_tracked)
        (record {
          base = min acked t.last_emitted_sequence;
          base_acked = omega arith;
          run =
              Run-later k.base t.last_emitted_sequence acked t.buffered.events
                (omega (arith, k.base_acked)) k.run;
        })
]
