-- ===== src/Loops/Teardown.antt =====
-- The life of the timers of loop-scheduler-context.ts: what a teardown clears, and the timer that
-- the end of a tick leaves without an owner.
use closedloop_electron.Base.{
  ℕ, ◌+◌, ◌-◌, ◌≡◌, refl, ap, ◌∙◌, Bool, false, Option, none, some, List, [], ◌∷◌, ◌++◌, Text, same,
  same_iff, All, lookup, lookup-delete_self, arith,
}
use closedloop_electron.Loops.Timers.{
  refresh, Timer, Context, stop_heartbeat, stop_refresh, schedule_refresh_tick, unregister_sleep,
  teardown_loop, fire, finish_tick,
}
use closedloop_electron.Loops.Tracking.{
  IsOwned, IsTrackedBut, IsTracked, stop_heartbeat-IsTracked, stop_refresh-IsTracked,
  lookup-stop_heartbeat, lookup-stop_refresh,
}

pub teardown_loop-IsTracked :
    (x : Text → Bool) (loop : Text) (c : Context)
    → IsTrackedBut x c
    → IsTrackedBut x (teardown_loop loop c)
unfolding teardown_loop unregister_sleep
teardown_loop-IsTracked x loop c k =
    stop_refresh-IsTracked x loop (stop_heartbeat loop c) (stop_heartbeat-IsTracked x loop c k)

heartbeats-stop_refresh :
    (loop : Text) (c : Context) → (stop_refresh loop c).heartbeats ≡ c.heartbeats
unfolding stop_refresh
heartbeats-stop_refresh loop c = ground arith

refreshes-stop_heartbeat :
    (loop : Text) (c : Context) → (stop_heartbeat loop c).refreshes ≡ c.refreshes
unfolding stop_heartbeat
refreshes-stop_heartbeat loop c = ground arith

untracked :
    (loop : Text) (hs rs : List (Text × ℕ)) (ts : List Timer)
    → lookup loop hs ≡ none
    → lookup loop rs ≡ none
    → All (IsOwned (λ _. false) hs rs) ts
    → All (λ t. same loop t.loop_id ≡ false) ts
untracked loop hs rs [] e f k = tt
untracked loop hs rs (t ∷ ts) e f k =
    (ground (arith, same_iff loop t.loop_id), untracked loop hs rs ts e f k.1)

-- Where every pending timer is within reach, a teardown leaves no timer of the loop.
pub teardown_loop_clears :
    (loop : Text) (c : Context)
    → IsTracked c
    → All (λ t. same loop t.loop_id ≡ false) (teardown_loop loop c).pending
unfolding teardown_loop unregister_sleep
teardown_loop_clears loop c k =
    let d = stop_refresh loop (stop_heartbeat loop c) in
    untracked loop d.heartbeats d.refreshes d.pending
      (ap (lookup loop) (heartbeats-stop_refresh loop (stop_heartbeat loop c))
        ∙ lookup-stop_heartbeat loop c)
      (lookup-stop_refresh loop (stop_heartbeat loop c))
      (teardown_loop-IsTracked (λ _. false) loop c k)

lookup-finish_tick :
    (skew now : ℕ) (loop : Text) (expiry : Option ℕ) (c : Context)
    → lookup loop (finish_tick skew now loop expiry c).refreshes ≡ none
unfolding finish_tick
lookup-finish_tick skew now loop none c = lookup-delete_self loop c.refreshes
lookup-finish_tick skew now loop (some e) c = lookup-delete_self loop _

finish_tick-pending :
    (skew now : ℕ) (loop : Text) (expires_at h : ℕ) (c : Context)
    → lookup loop c.refreshes ≡ some h
    → (finish_tick skew now loop (some expires_at) c).pending
      ≡ c.pending
        ++ record {
          handle = c.next;
          kind = refresh;
          loop_id = loop;
          delay = expires_at - (skew + now);
        }
          ∷ []
unfolding finish_tick schedule_refresh_tick
finish_tick-pending skew now loop expires_at h c e = ground arith

finish_tick-absent :
    (skew now : ℕ) (loop : Text) (expiry : Option ℕ) (c : Context)
    → lookup loop c.refreshes ≡ none
    → (finish_tick skew now loop expiry c).pending ≡ c.pending
unfolding finish_tick
finish_tick-absent skew now loop none c e = refl
finish_tick-absent skew now loop (some n) c e = ground arith

teardown_loop-absent :
    (loop : Text) (c : Context)
    → lookup loop c.refreshes ≡ none
    → (teardown_loop loop c).pending ≡ (stop_heartbeat loop c).pending
unfolding teardown_loop unregister_sleep stop_refresh
teardown_loop-absent loop c e = ground (arith, refreshes-stop_heartbeat loop c)

-- When a tick ends with a new expiry for a loop that has a handle, the next timer is set and its
-- handle is forgotten at once: a teardown of the loop no longer clears it, and the tick that it
-- starts sets no timer, whatever it brings.
pub finish_tick_forgets :
    (skew now later : ℕ) (loop : Text) (expires_at again : ℕ) (h : ℕ) (c : Context)
    → lookup loop c.refreshes ≡ some h
    → (lookup loop (finish_tick skew now loop (some expires_at) c).refreshes ≡ none)
      × ((finish_tick skew now loop (some expires_at) c).pending
          ≡ c.pending
            ++ record {
              handle = c.next;
              kind = refresh;
              loop_id = loop;
              delay = expires_at - (skew + now);
            }
              ∷ [])
      × ((teardown_loop loop (finish_tick skew now loop (some expires_at) c)).pending
          ≡ (stop_heartbeat loop (finish_tick skew now loop (some expires_at) c)).pending)
      × ((finish_tick skew later loop
            (some again)
            (fire c.next (finish_tick skew now loop (some expires_at) c))).pending
          ≡ (fire c.next (finish_tick skew now loop (some expires_at) c)).pending)
unfolding fire
finish_tick_forgets skew now later loop expires_at again h c e =
    let d = finish_tick skew now loop (some expires_at) c in
    let absent = lookup-finish_tick skew now loop (some expires_at) c in
    (
      absent,
      finish_tick-pending skew now loop expires_at h c e,
      teardown_loop-absent loop d absent,
      finish_tick-absent skew later loop (some again) (fire c.next d) absent,
    )
