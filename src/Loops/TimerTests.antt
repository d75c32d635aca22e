-- ===== src/Loops/TimerTests.antt =====
-- Runs of the timers of the loops.
use closedloop_electron.Base.{
  ◌≡◌, refl, false, none, some, [], ◌∷◌, ◌++◌, text, same, lookup, insert, delete, ◌-◌, ◌+◌,
}
use closedloop_electron.Loops.Timers.{
  refresh, Context, clear, stop_heartbeat, stop_refresh, schedule_refresh_tick, start_refresh,
  teardown_loop, fire, finish_tick,
}
use closedloop_electron.Loops.Tracking.{IsTracked}
use closedloop_electron.Loops.Teardown.{finish_tick_forgets}
use closedloop_electron.Loops.Reach.{started_refresh, Step-IsTracked}

abbrev empty : Context
empty = record {
  heartbeats = [];
  refreshes = [];
  sleep_loop_ids = [];
  registry = [];
  pending = [];
  next = 0;
}

-- A loop whose token ends in a hundred units of time, with a skew of thirty.
abbrev waiting : Context
waiting = record empty {
  refreshes = (text "l", 0) ∷ [];
  pending = record { handle = 0; kind = refresh; loop_id = text "l"; delay = 70 } ∷ [];
  next = 1;
}

Step-IsTracked_example : IsTracked (start_refresh 30 0 (text "l") (some 100) empty)
Step-IsTracked_example =
    Step-IsTracked (λ _. false) empty (start_refresh 30 0 (text "l") (some 100) empty)
      (started_refresh 30 0 (text "l") (some 100)) tt tt

start_refresh-waiting : start_refresh 30 0 (text "l") (some 100) empty ≡ waiting
unfolding start_refresh schedule_refresh_tick stop_refresh lookup insert
start_refresh-waiting = refl

abbrev renewed : Context
renewed = finish_tick 30 70 (text "l") (some 200) (fire 0 waiting)

waiting-lookup : lookup (text "l") (fire 0 waiting).refreshes ≡ some 0
unfolding lookup same fire
waiting-lookup = refl

finish_tick_forgets_example :
    (lookup (text "l") renewed.refreshes ≡ none)
    × (renewed.pending
        ≡ (fire 0 waiting).pending
          ++ record {
            handle = (fire 0 waiting).next;
            kind = refresh;
            loop_id = text "l";
            delay = 200 - (30 + 70);
          }
            ∷ [])
    × ((teardown_loop (text "l") renewed).pending ≡ (stop_heartbeat (text "l") renewed).pending)
    × ((finish_tick 30 170 (text "l") (some 300) (fire (fire 0 waiting).next renewed)).pending
        ≡ (fire (fire 0 waiting).next renewed).pending)
finish_tick_forgets_example =
    finish_tick_forgets 30 70 170 (text "l") 200 300 0 (fire 0 waiting) waiting-lookup

-- A hundred units of time later the refresh is pending, with no handle to stop it by.
test_renewed :
    (renewed.pending ≡ record { handle = 1; kind = refresh; loop_id = text "l"; delay = 100 } ∷ [])
    × (renewed.refreshes ≡ [])
unfolding finish_tick schedule_refresh_tick fire clear lookup insert delete same
test_renewed = (refl, refl)
