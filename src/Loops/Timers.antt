-- ===== src/Loops/Timers.antt =====
-- `LoopSchedulerContext` (apps/desktop/src/main/loop-scheduler-context.ts) with `runRefreshTick` of
-- loop-refresh-scheduler.ts: the timers of the loops. A handle is a number; the pending timers are
-- those that the event loop still runs.
use closedloop_electron.Base.{
  ℕ, suc, ◌+◌, ◌-◌, not, Option, none, some, List, [], ◌∷◌, ◌++◌, Text, same, filter, lookup,
  insert, delete, has, ◌==◌, if◌then◌else◌,
}
use closedloop_electron.Heartbeat.Gate.{includes_path}

pub data Kind : Type 0 where
  heartbeat refresh : Kind

pub record Timer : Type 0 where
  pub handle : ℕ
  pub kind : Kind
  pub loop_id : Text
  pub delay : ℕ

-- `heartbeats`, `refreshes` and `sleepLoopIds` of the instance, the registry of
-- loop-sleep-recovery.ts, and the timers of the event loop.
pub record Context : Type 0 where
  pub heartbeats : List (Text × ℕ)
  pub refreshes : List (Text × ℕ)
  pub sleep_loop_ids : List Text
  pub registry : List (Text × Text)
  pub pending : List Timer
  pub next : ℕ

-- `clearInterval`, `clearTimeout`
unfoldable pub clear : ℕ → List Timer → List Timer
clear h ts = filter (λ t. not (t.handle == h)) ts

abbrev remove_id : Text → List Text → List Text
remove_id loop ids = filter (λ l. not (same l loop)) ids

unfoldable pub stop_heartbeat : Text → Context → Context
unfolding clear
stop_heartbeat loop c = elim (lookup loop c.heartbeats) [
  | none ↦ c
  | some h ↦ record c { heartbeats = delete loop c.heartbeats; pending = clear h c.pending }
]

unfoldable pub stop_refresh : Text → Context → Context
unfolding clear
stop_refresh loop c = elim (lookup loop c.refreshes) [
  | none ↦ c
  | some h ↦ record c { refreshes = delete loop c.refreshes; pending = clear h c.pending }
]

abbrev pub set_timer : Kind → Text → ℕ → Context → Context
set_timer kind loop delay c = record c {
  pending =
      c.pending ++ record { handle = c.next; kind = kind; loop_id = loop; delay = delay } ∷ [];
  next = suc c.next;
}

-- The interval is an argument.
unfoldable pub start_heartbeat : ℕ → Text → Context → Context
unfolding stop_heartbeat
start_heartbeat interval loop c =
    let s = stop_heartbeat loop c in
    record (set_timer heartbeat loop interval s) { heartbeats = insert loop s.next s.heartbeats }

-- `scheduleRefreshTick`; `skew` is `getRefreshSkewMs()`, and `-` stops at 0 as `Math.max` does.
unfoldable pub schedule_refresh_tick : ℕ → ℕ → Text → ℕ → Context → Context
schedule_refresh_tick skew now loop expires_at c =
    record (set_timer refresh loop (expires_at - (skew + now)) c) {
      refreshes = insert loop c.next c.refreshes;
    }

unfoldable pub start_refresh : ℕ → ℕ → Text → Option ℕ → Context → Context
unfolding stop_refresh schedule_refresh_tick
start_refresh skew now loop none c = c
start_refresh skew now loop (some expires_at) c =
    schedule_refresh_tick skew now loop expires_at (stop_refresh loop c)

unfoldable pub register_sleep : Text → Text → Context → Context
register_sleep loop deps c = record c {
  registry = insert loop deps c.registry;
  sleep_loop_ids =
      if includes_path loop c.sleep_loop_ids
      then c.sleep_loop_ids
      else c.sleep_loop_ids ++ loop ∷ [];
}

unfoldable pub unregister_sleep : Text → Context → Context
unregister_sleep loop c = record c {
  registry = delete loop c.registry;
  sleep_loop_ids = remove_id loop c.sleep_loop_ids;
}

unfoldable pub teardown_loop : Text → Context → Context
unfolding stop_heartbeat stop_refresh unregister_sleep
teardown_loop loop c = unregister_sleep loop (stop_refresh loop (stop_heartbeat loop c))

unfoldable pub clear_all : List (Text × ℕ) → List Timer → List Timer
unfolding clear
clear_all [] ts = ts
clear_all ((loop, h) ∷ m) ts = clear_all m (clear h ts)

pub unregister_all : List Text → List (Text × Text) → List (Text × Text)
unregister_all [] registry = registry
unregister_all (loop ∷ ids) registry = unregister_all ids (delete loop registry)

-- `[Symbol.dispose]`
unfoldable pub dispose : Context → Context
unfolding clear_all unregister_all
dispose c = record c {
  heartbeats = [];
  refreshes = [];
  sleep_loop_ids = [];
  registry = unregister_all c.sleep_loop_ids c.registry;
  pending = clear_all c.refreshes (clear_all c.heartbeats c.pending);
}

-- A timeout fires: it is pending no more, and its tick begins.
unfoldable pub fire : ℕ → Context → Context
unfolding clear
fire h c = record c { pending = clear h c.pending }

-- The tick of a refresh ends. `expiry` is the new token's, if the refresh succeeded with one: then
-- `rescheduleFn` is called, which schedules if the loop has a handle; `finally` comes after it.
unfoldable pub finish_tick : ℕ → ℕ → Text → Option ℕ → Context → Context
unfolding schedule_refresh_tick
finish_tick skew now loop none c = record c { refreshes = delete loop c.refreshes }
finish_tick skew now loop (some expires_at) c =
    let r = if has loop c.refreshes then schedule_refresh_tick skew now loop expires_at c else c in
    record r { refreshes = delete loop r.refreshes }
