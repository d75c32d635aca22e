-- ===== src/Loops/Reach.antt =====
-- Which timers stay within reach of a stop, in any run of loop-scheduler-context.ts.
use closedloop_electron.Base.{
  ℕ, ◌≡◌, ◌≢◌, ◌⊎◌, inl, inr, Bool, true, false, not, Option, none, some, List, [], ◌∷◌, Text, same,
  same_iff, All, All-filter, All-append, lookup, insert, delete, has, lookup-insert, lookup-delete,
  ◌==◌, arith, Bool-cases,
}
use closedloop_electron.Loops.Timers.{
  heartbeat, refresh, Timer, Context, clear, stop_heartbeat, stop_refresh, start_heartbeat,
  schedule_refresh_tick, start_refresh, register_sleep, unregister_sleep, teardown_loop, clear_all,
  dispose, fire, finish_tick,
}
use closedloop_electron.Loops.Tracking.{
  IsOwned, IsTrackedBut, stop_heartbeat-IsTracked, stop_refresh-IsTracked,
  start_heartbeat-IsTracked, start_refresh-IsTracked,
}
use closedloop_electron.Loops.Teardown.{teardown_loop-IsTracked}

abbrev pub is_refresh_of : Text → Timer → Bool
is_refresh_of loop t = elim t.kind [ heartbeat ↦ false | refresh ↦ same loop t.loop_id ]

-- The steps of a context: its operations, a timeout that fires, and the end of a tick.
pub data Step : Context → Context → Type 0 where
  started_heartbeat :
      {c : Context} (interval : ℕ) (loop : Text) → Step c (start_heartbeat interval loop c)
  stopped_heartbeat : {c : Context} (loop : Text) → Step c (stop_heartbeat loop c)
  started_refresh :
      {c : Context} (skew now : ℕ) (loop : Text) (expires_at : Option ℕ)
      → Step c (start_refresh skew now loop expires_at c)
  stopped_refresh : {c : Context} (loop : Text) → Step c (stop_refresh loop c)
  registered : {c : Context} (loop deps : Text) → Step c (register_sleep loop deps c)
  unregistered : {c : Context} (loop : Text) → Step c (unregister_sleep loop c)
  torn_down : {c : Context} (loop : Text) → Step c (teardown_loop loop c)
  disposed : {c : Context} → Step c (dispose c)
  fired : {c : Context} (h : ℕ) → Step c (fire h c)
  finished :
      {c : Context} (skew now : ℕ) (loop : Text) (expiry : Option ℕ)
      → Step c (finish_tick skew now loop expiry c)

-- A tick that ends is of a loop that is left out, or brings no expiry and leaves no refresh of the
-- loop pending. The other steps are free.
abbrev pub IsSpared : (Text → Bool) → {c d : Context} → Step c d → Type 0
IsSpared x (finished {c = c} skew now loop expiry) =
    (x loop ≡ true) ⊎ ((expiry ≡ none) × All (λ t. is_refresh_of loop t ≡ false) c.pending)
IsSpared x _ = Unit

clear_all-All :
    (P : Timer → Type 0) (m : List (Text × ℕ)) (ts : List Timer) → All P ts → All P (clear_all m ts)
unfolding clear_all clear
clear_all-All P [] ts k = k
clear_all-All P ((loop, h) ∷ m) ts k =
    clear_all-All P m (clear h ts) (All-filter P (λ t. not (t.handle == h)) ts k)

clear-others : (h : ℕ) (ts : List Timer) → All (λ t. (t.handle == h) ≡ false) (clear h ts)
unfolding clear
clear-others h [] = tt
clear-others h (t ∷ ts) = ground (arith, clear-others h ts)

never-owned : (ts : List Timer) → All (λ t. lookup t.loop_id [] ≢ some t.handle) ts
unfolding lookup
never-owned [] = tt
never-owned (t ∷ ts) = ((λ e. cc), never-owned ts)

cleared-cons :
    (loop : Text) (h : ℕ) (m : List (Text × ℕ)) (ts : List Timer)
    → All (λ t. (t.handle == h) ≡ false) ts
    → All (λ t. lookup t.loop_id m ≢ some t.handle) ts
    → All (λ t. lookup t.loop_id ((loop, h) ∷ m) ≢ some t.handle) ts
unfolding lookup
cleared-cons loop h m [] e k = tt
cleared-cons loop h m (t ∷ ts) e k =
    ((λ f. ground (arith, e.0, k.0, f)), cleared-cons loop h m ts e.1 k.1)

-- A timer that is left has not the handle that the map has for its loop.
clear_all-cleared :
    (m : List (Text × ℕ)) (ts : List Timer)
    → All (λ t. lookup t.loop_id m ≢ some t.handle) (clear_all m ts)
unfolding clear_all lookup
clear_all-cleared [] ts = never-owned ts
clear_all-cleared ((loop, h) ∷ m) ts =
    cleared-cons loop h m (clear_all m (clear h ts))
      (clear_all-All (λ t. (t.handle == h) ≡ false) m (clear h ts) (clear-others h ts))
      (clear_all-cleared m (clear h ts))

module _ (x : Text → Bool) where
  delete-IsOwned :
      (loop : Text) (hs rs : List (Text × ℕ)) (ts : List Timer)
      → All (λ t. is_refresh_of loop t ≡ false) ts
      → All (IsOwned x hs rs) ts
      → All (IsOwned x hs (delete loop rs)) ts
  delete-IsOwned loop hs rs [] e k = tt
  delete-IsOwned loop hs rs (t ∷ ts) e k = (
    ground (arith, same_iff loop t.loop_id, lookup-delete loop t.loop_id rs),
    delete-IsOwned loop hs rs ts e.1 k.1,
  )

  delete-IsOwned_spared :
      (loop : Text) (hs rs : List (Text × ℕ)) (ts : List Timer)
      → x loop ≡ true
      → All (IsOwned x hs rs) ts
      → All (IsOwned x hs (delete loop rs)) ts
  delete-IsOwned_spared loop hs rs [] e k = tt
  delete-IsOwned_spared loop hs rs (t ∷ ts) e k = (
    ground (arith, same_iff loop t.loop_id, lookup-delete loop t.loop_id rs),
    delete-IsOwned_spared loop hs rs ts e k.1,
  )

  insert-IsOwned_spared :
      (loop : Text) (h : ℕ) (hs rs : List (Text × ℕ)) (ts : List Timer)
      → x loop ≡ true
      → All (IsOwned x hs rs) ts
      → All (IsOwned x hs (insert loop h rs)) ts
  insert-IsOwned_spared loop h hs rs [] e k = tt
  insert-IsOwned_spared loop h hs rs (t ∷ ts) e k = (
    ground (arith, same_iff loop t.loop_id, lookup-insert loop t.loop_id h rs),
    insert-IsOwned_spared loop h hs rs ts e k.1,
  )

  schedule-IsTracked_spared :
      (skew now : ℕ) (loop : Text) (expires_at : ℕ) (c : Context)
      → x loop ≡ true
      → IsTrackedBut x c
      → IsTrackedBut x (schedule_refresh_tick skew now loop expires_at c)
  unfolding schedule_refresh_tick
  schedule-IsTracked_spared skew now loop expires_at c e k =
      All-append (IsOwned x c.heartbeats (insert loop c.next c.refreshes)) c.pending _
        (insert-IsOwned_spared loop c.next c.heartbeats c.refreshes c.pending e k)
        (ground arith, tt)

  finish_tick-IsTracked_spared :
      (skew now : ℕ) (loop : Text) (expiry : Option ℕ) (c : Context)
      → x loop ≡ true
      → IsTrackedBut x c
      → IsTrackedBut x (finish_tick skew now loop expiry c)
  unfolding finish_tick
  finish_tick-IsTracked_spared skew now loop none c e k =
      delete-IsOwned_spared loop c.heartbeats c.refreshes c.pending e k
  finish_tick-IsTracked_spared skew now loop (some n) c e k =
      elim (Bool-cases (has loop c.refreshes)) [
        | inl f ↦
            let r = schedule_refresh_tick skew now loop n c in
            rw f (
              delete-IsOwned_spared loop r.heartbeats r.refreshes r.pending e
                (schedule-IsTracked_spared skew now loop n c e k))
        | inr f ↦ rw f (delete-IsOwned_spared loop c.heartbeats c.refreshes c.pending e k)
      ]

  disposed-IsOwned :
      (hs rs : List (Text × ℕ)) (ts : List Timer)
      → All (IsOwned x hs rs) ts
      → All (λ t. lookup t.loop_id hs ≢ some t.handle) ts
      → All (λ t. lookup t.loop_id rs ≢ some t.handle) ts
      → All (IsOwned x [] []) ts
  disposed-IsOwned hs rs [] k e f = tt
  disposed-IsOwned hs rs (t ∷ ts) k e f =
      (ground (arith, k.0, e.0, f.0), disposed-IsOwned hs rs ts k.1 e.1 f.1)

  dispose-IsTracked : (c : Context) → IsTrackedBut x c → IsTrackedBut x (dispose c)
  unfolding dispose
  dispose-IsTracked c k =
      let once = clear_all c.heartbeats c.pending in
      disposed-IsOwned c.heartbeats c.refreshes (clear_all c.refreshes once)
        (clear_all-All (IsOwned x c.heartbeats c.refreshes) c.refreshes once
          (clear_all-All (IsOwned x c.heartbeats c.refreshes) c.heartbeats c.pending k))
        (clear_all-All (λ t. lookup t.loop_id c.heartbeats ≢ some t.handle) c.refreshes once
          (clear_all-cleared c.heartbeats c.pending))
        (clear_all-cleared c.refreshes once)

  -- For any choice `x` of loops to leave out, each step of a context keeps this: every pending
  -- heartbeat, and every pending refresh of a loop that is not left out, has its handle in the map of
  -- its kind, where a stop of its loop clears it. A tick that ends is the one exception: its loop must
  -- be left out, unless the tick brings no expiry and no refresh of the loop is pending.
  pub Step-IsTracked :
      (c d : Context) (s : Step c d) → IsSpared x s → IsTrackedBut x c → IsTrackedBut x d
  unfolding register_sleep unregister_sleep fire clear finish_tick
  Step-IsTracked c d (started_heartbeat interval loop) f k =
      start_heartbeat-IsTracked x interval loop c k
  Step-IsTracked c d (stopped_heartbeat loop) f k = stop_heartbeat-IsTracked x loop c k
  Step-IsTracked c d (started_refresh skew now loop expires_at) f k =
      start_refresh-IsTracked x skew now loop expires_at c k
  Step-IsTracked c d (stopped_refresh loop) f k = stop_refresh-IsTracked x loop c k
  Step-IsTracked c d (registered loop deps) f k = k
  Step-IsTracked c d (unregistered loop) f k = k
  Step-IsTracked c d (torn_down loop) f k = teardown_loop-IsTracked x loop c k
  Step-IsTracked c d disposed f k = dispose-IsTracked c k
  Step-IsTracked c d (fired h) f k =
      All-filter (IsOwned x c.heartbeats c.refreshes) (λ t. not (t.handle == h)) c.pending k
  Step-IsTracked c d (finished skew now loop expiry) (inl e) k =
      finish_tick-IsTracked_spared skew now loop expiry c e k
  Step-IsTracked c d (finished skew now loop none) (inr (e, f)) k =
      delete-IsOwned loop c.heartbeats c.refreshes c.pending f k
  Step-IsTracked c d (finished skew now loop (some n)) (inr (e, f)) k = absurd (cc)
