-- ===== src/Executor/Guarantees.antt =====
-- What a CloudCommandExecutor (cloud-command-executor.ts) guarantees in every reachable state.
use closedloop_electron.Base.{
  ℕ, ◌≤◌, max, ◌≡◌, refl, ap, true, false, Option, some, List, [], ◌∷◌, Text, lookup, length, All,
  arith, inl, inr,
}
use closedloop_electron.Json.{Json}
use closedloop_electron.Executor.State.{Command, Running, Tracked, Executor, is_terminal}
use closedloop_electron.Executor.Keys.{derive_lock_key}
use closedloop_electron.Executor.Schedule.{is_free, schedule}
use closedloop_electron.Executor.Locks.{Held}
use closedloop_electron.Executor.Settle.{Reply, conclude, execute_via_gateway, release, settle}
use closedloop_electron.Executor.Changes.{Changes-trans}
use closedloop_electron.Executor.Endings.{via_gateway-Changes, conclude-Changes}
use closedloop_electron.Executor.Steps.{Reach, AllRemember}
use closedloop_electron.Executor.Reachable.{Reach-IsSound}

-- A command that is kept waiting waits for a lock that someone holds.
holder :
    (ow : List (Text × Text)) (c : Command)
    → is_free ow c ≡ false
    → (key id : Text) × (derive_lock_key c ≡ some key) × (lookup key ow ≡ some id)
unfolding is_free
holder ow c h = ground arith

-- Without a command in flight nobody holds a lock, so no command is kept waiting.
nobody_waits :
    (ow : List (Text × Text)) (q : List Command)
    → All (λ c. is_free ow c ≡ false) q
    → Held [] ow
    → q ≡ []
unfolding lookup
nobody_waits ow [] busy held = refl
nobody_waits ow (c ∷ q) busy held =
    let (key, id, wants, has_it) = holder ow c busy.0 in cc ((held id key has_it).1)

module _ (print : ℕ → Text) (parse : Text → Option Json) (limit : ℕ) (s : Executor)
    (reach : Reach print parse limit s) (remembered : AllRemember print parse limit reach) where
  -- In every reachable state at most `max 1 limit` commands are in flight, if no command was enqueued
  -- under the id of one that was in flight but forgotten by pruning.
  pub Reach-bounded : length s.in_flight ≤ max 1 limit
  Reach-bounded = (Reach-IsSound print parse limit reach remembered).safe.locked.bounded

  -- In every reachable state, two commands in flight that hold the same lock are one command, if no
  -- command was enqueued under the id of one that was in flight but forgotten by pruning.
  pub Reach-exclusive :
      (i j key : Text) (a b : Running)
      → lookup i s.in_flight ≡ some a
      → lookup j s.in_flight ≡ some b
      → a.lock_key ≡ some key
      → b.lock_key ≡ some key
      → i ≡ j
  Reach-exclusive i j key a b x y p q =
      let owns = (Reach-IsSound print parse limit reach remembered).safe.locked.owns in
      cc (owns i key a x p, owns j key b y q)

  -- A connected executor in a reachable state with no command in flight has no command waiting, if no
  -- command was enqueued under the id of one that was in flight but forgotten by pruning.
  pub Reach-progress : s.connected ≡ true → s.in_flight ≡ [] → s.queue ≡ []
  unfolding lookup
  Reach-progress on idle =
      let sound = Reach-IsSound print parse limit reach remembered in
      elim (sound.saturated on) [
        | inl full ↦ absurd (omega (arith, full, ap length idle))
        | inr busy ↦ nobody_waits s.lock_owners s.queue busy (rw idle at sound.safe.locked.held)
      ]

conclude_final :
    (print : ℕ → Text) (parse : Text → Option Json) (now : ℕ) (id : Text) (r : Running)
    (reply : Reply) (s : Executor) (t : Tracked)
    → lookup id s.tracked ≡ some t
    → is_terminal t.state ≡ true
    → conclude now id r (execute_via_gateway print parse now id reply s) ≡ s
conclude_final print parse now id r reply s t here over =
    let via = execute_via_gateway print parse now id reply s in
    (Changes-trans (via_gateway-Changes print parse now id reply s)
        (conclude-Changes now id r via)).final
      t here over

-- Once a command has ended, whatever else comes of its gateway call has no effect of its own: the
-- rest of `execute` only takes the call out of the calls in flight, frees its lock and looks for the
-- next commands, and does so from the state it finds.
pub settle_final :
    (print : ℕ → Text) (parse : Text → Option Json) (limit now : ℕ) (c : Command) (r : Running)
    (reply : Reply) (s : Executor) (t : Tracked)
    → lookup c.command_id s.tracked ≡ some t
    → is_terminal t.state ≡ true
    → settle print parse limit now c r reply s ≡ schedule limit (release c s)
unfolding settle
settle_final print parse limit now c r reply s t here over =
    ap (λ u. schedule limit (release c u))
      (conclude_final print parse now c.command_id r reply s t here over)
