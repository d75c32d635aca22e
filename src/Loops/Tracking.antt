-- ===== src/Loops/Tracking.antt =====
-- Which timers of loop-scheduler-context.ts a stop still reaches.
use closedloop_electron.Base.{
  ℕ, Bool, false, if◌then◌else◌, ◌≡◌, inl, inr, Option, none, some, List, [], ◌∷◌, Text, same_iff,
  All, All-append, lookup, insert, delete, lookup-insert, lookup-delete, lookup-insert_self,
  lookup-delete_self, arith, Option-cases,
}
use closedloop_electron.Loops.Timers.{
  heartbeat, refresh, Timer, Context, clear, stop_heartbeat, stop_refresh, start_heartbeat,
  schedule_refresh_tick, start_refresh,
}

-- The map of a kind has the handle of the timer. Of refreshes this is asked but for the loops of
-- which `x` holds.
abbrev pub IsOwned : (Text → Bool) → List (Text × ℕ) → List (Text × ℕ) → Timer → Type 0
IsOwned x hs rs t =
    (elim t.kind [
      | heartbeat ↦ lookup t.loop_id hs
      | refresh ↦ if x t.loop_id then some t.handle else lookup t.loop_id rs
    ])
    ≡ some t.handle

-- Every pending timer, but for refreshes of the loops of which `x` holds, is one that a stop of its
-- loop clears.
abbrev pub IsTrackedBut : (Text → Bool) → Context → Type 0
IsTrackedBut x c = All (IsOwned x c.heartbeats c.refreshes) c.pending

-- Every pending timer is one that a stop of its loop clears.
abbrev pub IsTracked : Context → Type 0
IsTracked = IsTrackedBut (λ _. false)

pub lookup-stop_heartbeat :
    (loop : Text) (c : Context) → lookup loop (stop_heartbeat loop c).heartbeats ≡ none
unfolding stop_heartbeat
lookup-stop_heartbeat loop c = ground (arith, lookup-delete_self loop c.heartbeats)

pub lookup-stop_refresh :
    (loop : Text) (c : Context) → lookup loop (stop_refresh loop c).refreshes ≡ none
unfolding stop_refresh
lookup-stop_refresh loop c = ground (arith, lookup-delete_self loop c.refreshes)

module _ (x : Text → Bool) where
  clear-IsOwned :
      (loop : Text) (h : ℕ) (hs rs : List (Text × ℕ)) (ts : List Timer)
      → lookup loop hs ≡ some h
      → All (IsOwned x hs rs) ts
      → All (IsOwned x (delete loop hs) rs) (clear h ts)
  unfolding clear
  clear-IsOwned loop h hs rs [] e k = tt
  clear-IsOwned loop h hs rs (t ∷ ts) e k = ground (
    arith,
    same_iff loop t.loop_id,
    lookup-delete loop t.loop_id hs,
    clear-IsOwned loop h hs rs ts e k.1,
  )

  clear-IsOwned_refresh :
      (loop : Text) (h : ℕ) (hs rs : List (Text × ℕ)) (ts : List Timer)
      → lookup loop rs ≡ some h
      → All (IsOwned x hs rs) ts
      → All (IsOwned x hs (delete loop rs)) (clear h ts)
  unfolding clear
  clear-IsOwned_refresh loop h hs rs [] e k = tt
  clear-IsOwned_refresh loop h hs rs (t ∷ ts) e k = ground (
    arith,
    same_iff loop t.loop_id,
    lookup-delete loop t.loop_id rs,
    clear-IsOwned_refresh loop h hs rs ts e k.1,
  )

  pub stop_heartbeat-IsTracked :
      (loop : Text) (c : Context) → IsTrackedBut x c → IsTrackedBut x (stop_heartbeat loop c)
  unfolding stop_heartbeat
  stop_heartbeat-IsTracked loop c k = elim (Option-cases (lookup loop c.heartbeats)) [
    | inl e ↦ rw (e, stop_heartbeat) k
    | inr (h, e) ↦
        rw (e, stop_heartbeat) (clear-IsOwned loop h c.heartbeats c.refreshes c.pending e k)
  ]

  pub stop_refresh-IsTracked :
      (loop : Text) (c : Context) → IsTrackedBut x c → IsTrackedBut x (stop_refresh loop c)
  unfolding stop_refresh
  stop_refresh-IsTracked loop c k = elim (Option-cases (lookup loop c.refreshes)) [
    | inl e ↦ rw (e, stop_refresh) k
    | inr (h, e) ↦
        rw (e, stop_refresh) (clear-IsOwned_refresh loop h c.heartbeats c.refreshes c.pending e k)
  ]

  -- A new timer of a loop that has none of its kind.
  insert-IsOwned :
      (loop : Text) (h : ℕ) (hs rs : List (Text × ℕ)) (ts : List Timer)
      → lookup loop hs ≡ none
      → All (IsOwned x hs rs) ts
      → All (IsOwned x (insert loop h hs) rs) ts
  insert-IsOwned loop h hs rs [] e k = tt
  insert-IsOwned loop h hs rs (t ∷ ts) e k = (
    ground (arith, same_iff loop t.loop_id, lookup-insert loop t.loop_id h hs),
    insert-IsOwned loop h hs rs ts e k.1,
  )

  insert-IsOwned_refresh :
      (loop : Text) (h : ℕ) (hs rs : List (Text × ℕ)) (ts : List Timer)
      → lookup loop rs ≡ none
      → All (IsOwned x hs rs) ts
      → All (IsOwned x hs (insert loop h rs)) ts
  insert-IsOwned_refresh loop h hs rs [] e k = tt
  insert-IsOwned_refresh loop h hs rs (t ∷ ts) e k = (
    ground (arith, same_iff loop t.loop_id, lookup-insert loop t.loop_id h rs),
    insert-IsOwned_refresh loop h hs rs ts e k.1,
  )

  pub start_heartbeat-IsTracked :
      (interval : ℕ) (loop : Text) (c : Context)
      → IsTrackedBut x c
      → IsTrackedBut x (start_heartbeat interval loop c)
  unfolding start_heartbeat
  start_heartbeat-IsTracked interval loop c k =
      let s = stop_heartbeat loop c in
      All-append (IsOwned x (insert loop s.next s.heartbeats) s.refreshes) s.pending _
        (insert-IsOwned loop s.next s.heartbeats s.refreshes s.pending
          (lookup-stop_heartbeat loop c) (stop_heartbeat-IsTracked loop c k))
        (lookup-insert_self loop s.next s.heartbeats, tt)

  schedule_refresh_tick-IsTracked :
      (skew now : ℕ) (loop : Text) (expires_at : ℕ) (c : Context)
      → lookup loop c.refreshes ≡ none
      → IsTrackedBut x c
      → IsTrackedBut x (schedule_refresh_tick skew now loop expires_at c)
  unfolding schedule_refresh_tick
  schedule_refresh_tick-IsTracked skew now loop expires_at c e k =
      All-append (IsOwned x c.heartbeats (insert loop c.next c.refreshes)) c.pending _
        (insert-IsOwned_refresh loop c.next c.heartbeats c.refreshes c.pending e k)
        (ground (arith, lookup-insert_self loop c.next c.refreshes), tt)

  pub start_refresh-IsTracked :
      (skew now : ℕ) (loop : Text) (expires_at : Option ℕ) (c : Context)
      → IsTrackedBut x c
      → IsTrackedBut x (start_refresh skew now loop expires_at c)
  unfolding start_refresh
  start_refresh-IsTracked skew now loop none c k = k
  start_refresh-IsTracked skew now loop (some expires_at) c k =
      schedule_refresh_tick-IsTracked skew now loop expires_at (stop_refresh loop c)
        (lookup-stop_refresh loop c) (stop_refresh-IsTracked loop c k)
