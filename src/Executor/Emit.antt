-- ===== src/Executor/Emit.antt =====
-- `emitTrackedEvent`, `markTerminal`, `acknowledge`, `replayBuffered` and `replayFrom`.
use closedloop_electron.Base.{
  ℕ, ◌+◌, max, none, some, List, [], ◌∷◌, ◌++◌, map, filter, Text, lookup, insert, ltb,
  if◌then◌else◌,
}
use closedloop_electron.Json.{Json}
use closedloop_electron.Executor.State.{
  EventType, EventRecord, Tracked, Outcome, event, Executor, terminal, is_terminal,
}

unfoldable pub emit_tracked_event : Text → EventType → Json → Executor → Executor
emit_tracked_event id event_type value s = elim (lookup id s.tracked) [
  | none ↦ s
  | some t ↦
      if is_terminal t.state
      then s
      else (let sequence = t.last_emitted_sequence + 1 in
          let item : EventRecord = record {
            sequence = sequence;
            event_type = event_type;
            data_ = value;
          } in
          record s {
            tracked =
                insert id
                  (record t {
                    last_emitted_sequence = sequence;
                    buffered = record t.buffered { events = t.buffered.events ++ item ∷ [] };
                  })
                  s.tracked;
            sent = s.sent ++ event id item ∷ [];
          })
]

unfoldable pub mark_terminal : ℕ → Text → Outcome → Executor → Executor
mark_terminal now id outcome s = elim (lookup id s.tracked) [
  | none ↦ s
  | some t ↦ if is_terminal t.state then s else record s {
    tracked =
        insert id
          (record t { state = terminal; terminal_state = some outcome; completed_at = some now })
          s.tracked;
  }
]

-- `DesktopCommandStreamAckEvent`: the cloud has every event up to `sequence`.
unfoldable pub acknowledge_tracked : ℕ → Tracked → Tracked
acknowledge_tracked sequence t =
    let acked = max t.buffered.last_acked_sequence sequence in
    if is_terminal t.state
    then record t { buffered = record t.buffered { last_acked_sequence = acked } }
    else record t {
      buffered = record {
        last_acked_sequence = acked;
        events = filter (λ e. ltb acked e.sequence) t.buffered.events;
      };
    }

unfoldable pub acknowledge : Text → ℕ → Executor → Executor
unfolding acknowledge_tracked
acknowledge id sequence s = elim (lookup id s.tracked) [
  | none ↦ s
  | some t ↦ record s { tracked = insert id (acknowledge_tracked sequence t) s.tracked }
]

-- The events that `replayBuffered` sends again.
unfoldable pub replayed : ℕ → Tracked → List EventRecord
replayed from t = filter (λ e. ltb from e.sequence) t.buffered.events

unfoldable pub replay_buffered : Text → ℕ → Executor → Executor
replay_buffered id from s = elim (lookup id s.tracked) [
  | none ↦ s
  | some t ↦ record s { sent = s.sent ++ map (event id) (replayed from t) }
]

-- The sequences that the cloud asks for are whole numbers; one that is not finite counts as 0.
unfoldable pub replay_from : List (Text × ℕ) → Executor → Executor
replay_from [] s = s
replay_from ((id, from) ∷ rest) s = replay_from rest (replay_buffered id from s)
