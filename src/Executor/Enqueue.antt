-- ===== src/Executor/Enqueue.antt =====
-- `enqueue` of cloud-command-executor.ts, branch by branch, and its safety.
use closedloop_electron.Base.{
  ℕ, ◌≡◌, refl, ap, false, Option, none, some, List, [], ◌∷◌, ◌++◌, Text, same, same_iff, lookup,
  lookup-insert, lookup-insert_self, All, All-map, All-append, arith, Option-cases, Bool-cases, inl,
  inr, IsMap, insert, insert-IsMap, if◌then◌else◌,
}
use closedloop_electron.Json.{Json}
use closedloop_electron.Executor.State.{Command, Running, Tracked, Executor, is_terminal, Message}
use closedloop_electron.Executor.Keys.{signature_body_override}
use closedloop_electron.Executor.Emit.{replay_buffered}
use closedloop_electron.Executor.Prune.{prune, prune_terminal_commands}
use closedloop_electron.Executor.Calls.{
  send, enqueue, accept, new_tracked, ack_accepted, ack_failed, refusal,
}
use closedloop_electron.Executor.Frame.{SameCore, state_in}
use closedloop_electron.Executor.Queue.{Distinct, IsWaiting}
use closedloop_electron.Executor.Saturation.{IsSafe-same, tracked_of_queued}
use closedloop_electron.Executor.Pruning.{prune-IsMap, prune-keeps_live}
use closedloop_electron.Executor.Safety.{IsSound, IsSound-same, schedule-IsSound}

send-SameCore : (m : Message) (s : Executor) → SameCore s (send m s)
send-SameCore m s = ground arith

-- Pruning keeps what waits.
prune-IsWaiting :
    (now : ℕ) (fl : List (Text × Running)) (m : List (Text × Tracked)) (d : Command)
    → IsMap m
    → IsWaiting fl m d
    → IsWaiting fl (prune now m) d
prune-IsWaiting now fl m d once w =
    let (t, e) = tracked_of_queued d.command_id m w.1 in
    (w.0, ground (arith, e, w.1, prune-keeps_live now m d.command_id t once e))

pub prune-IsSound :
    (limit now : ℕ) (s : Executor) → IsSound limit s → IsSound limit (prune_terminal_commands now s)
unfolding prune_terminal_commands
prune-IsSound limit now s k = record {
  safe = record {
    locked = k.safe.locked;
    ordered = record {
      tracked_once = prune-IsMap now s.tracked k.safe.ordered.tracked_once;
      waiting =
          All-map s.queue
            (λ d w. prune-IsWaiting now s.in_flight s.tracked d k.safe.ordered.tracked_once w)
            k.safe.ordered.waiting;
      distinct = k.safe.ordered.distinct;
    };
  };
  saturated = k.saturated;
}

replay-SameCore : (id : Text) (from : ℕ) (s : Executor) → SameCore s (replay_buffered id from s)
unfolding replay_buffered
replay-SameCore id from s = ground arith

pub replay-tracked :
    (id : Text) (from : ℕ) (s : Executor) → (replay_buffered id from s).tracked ≡ s.tracked
unfolding replay_buffered
replay-tracked id from s = ground arith

pub replay-IsSound :
    (limit : ℕ) (id : Text) (from : ℕ) (s : Executor)
    → IsSound limit s
    → IsSound limit (replay_buffered id from s)
replay-IsSound limit id from s k =
    let core = replay-SameCore id from s in
    IsSound-same limit s (replay_buffered id from s) core
      (IsSafe-same s (replay_buffered id from s) core (replay-tracked id from s) k.safe) k

send-IsSound : (limit : ℕ) (m : Message) (s : Executor) → IsSound limit s → IsSound limit (send m s)
send-IsSound limit m s k =
    let core = send-SameCore m s in
    IsSound-same limit s (send m s) core (IsSafe-same s (send m s) core refl k.safe) k

-- A new command at the end of the queue.
Distinct-append :
    (q : List Command) (c : Command)
    → All (λ d. same d.command_id c.command_id ≡ false) q
    → Distinct q
    → Distinct (q ++ c ∷ [])
Distinct-append [] c h k = (tt, tt)
Distinct-append (d ∷ q) c h k = (
  All-append (λ x. same d.command_id x.command_id ≡ false) q (c ∷ []) k.0 (h.0, tt),
  Distinct-append q c h.1 k.1,
)

-- What waits is tracked, so it has another name than a command that is not.
apart_of_untracked :
    (fl : List (Text × Running)) (m : List (Text × Tracked)) (c d : Command)
    → lookup c.command_id m ≡ none
    → IsWaiting fl m d
    → same d.command_id c.command_id ≡ false
apart_of_untracked fl m c d h w = ground (arith, same_iff d.command_id c.command_id, w.1)

IsWaiting-tracked :
    (now : ℕ) (fl : List (Text × Running)) (m : List (Text × Tracked)) (c d : Command)
    → lookup c.command_id m ≡ none
    → IsWaiting fl m d
    → IsWaiting fl (insert c.command_id (new_tracked now c) m) d
IsWaiting-tracked now fl m c d h w = (
  w.0,
  ground (
    arith,
    lookup-insert c.command_id d.command_id (new_tracked now c) m,
    same_iff c.command_id d.command_id,
    w.1,
  ),
)

accept-IsSound :
    (limit now : ℕ) (c : Command) (s : Executor)
    → lookup c.command_id s.tracked ≡ none
    → lookup c.command_id s.in_flight ≡ none
    → IsSound limit s
    → IsSound limit (accept limit now c s)
unfolding accept
accept-IsSound limit now c s new idle k = schedule-IsSound limit _ (record {
  locked = k.safe.locked;
  ordered = record {
    tracked_once = insert-IsMap _ _ s.tracked k.safe.ordered.tracked_once;
    waiting =
        All-append (IsWaiting s.in_flight _) s.queue (c ∷ [])
          (All-map s.queue (λ d w. IsWaiting-tracked now s.in_flight s.tracked c d new w)
            k.safe.ordered.waiting)
          ((idle, ap state_in (lookup-insert_self c.command_id (new_tracked now c) s.tracked)), tt);
    distinct =
        Distinct-append s.queue c
          (All-map s.queue (λ d w. apart_of_untracked s.in_flight s.tracked c d new w)
            k.safe.ordered.waiting)
          k.safe.ordered.distinct;
  };
})

module _ (limit now : ℕ) (verify : Command → Json → Option Text) (c : Command) (s : Executor) where
  pub enqueue_known :
      (t : Tracked)
      → lookup c.command_id (prune_terminal_commands now s).tracked ≡ some t
      → enqueue limit now verify c s ≡ (
          let acked = send (ack_accepted c.command_id) (prune_terminal_commands now s) in
          if is_terminal t.state then replay_buffered c.command_id 0 acked else acked)
  unfolding enqueue
  enqueue_known t h = rw (h, enqueue)

  pub enqueue_refused :
      (reason : Text)
      → lookup c.command_id (prune_terminal_commands now s).tracked ≡ none
      → refusal (verify c (signature_body_override c)) c ≡ some reason
      → enqueue limit now verify c s
        ≡ send (ack_failed c.command_id reason) (prune_terminal_commands now s)
  unfolding enqueue
  enqueue_refused reason h e = rw (h, e, enqueue)

  pub enqueue_accepted :
      lookup c.command_id (prune_terminal_commands now s).tracked ≡ none
      → refusal (verify c (signature_body_override c)) c ≡ none
      → enqueue limit now verify c s ≡ accept limit now c (prune_terminal_commands now s)
  unfolding enqueue
  enqueue_accepted h e = rw (h, e, enqueue)

  pub enqueue-IsSound :
      (lookup c.command_id (prune now s.tracked) ≡ none → lookup c.command_id s.in_flight ≡ none)
      → IsSound limit s
      → IsSound limit (enqueue limit now verify c s)
  unfolding prune_terminal_commands
  enqueue-IsSound remembers k =
      let p = prune_terminal_commands now s in
      let sound = prune-IsSound limit now s k in
      let acked = send-IsSound limit (ack_accepted c.command_id) p sound in
      elim (Option-cases (lookup c.command_id p.tracked)) [
        | inl new ↦ elim (Option-cases (refusal (verify c (signature_body_override c)) c)) [
          | inl good ↦
              rw (enqueue_accepted new good)
                (accept-IsSound limit now c p new (remembers new) sound)
          | inr (reason, bad) ↦ rw (enqueue_refused reason new bad) (send-IsSound limit _ p sound)
        ]
        | inr (t, old) ↦ elim (Bool-cases (is_terminal t.state)) [
          | inl over ↦
              rw (enqueue_known t old, over)
                (replay-IsSound limit c.command_id 0 (send (ack_accepted c.command_id) p) acked)
          | inr live ↦ rw (enqueue_known t old, live) acked
        ]
      ]
