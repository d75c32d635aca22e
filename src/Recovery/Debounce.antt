-- ===== src/Recovery/Debounce.antt =====
-- `createQueueStatsDebounce` (apps/desktop/src/main/queue-stats-debounce.ts): the last value of a burst
-- is sent when the delay is over. A timer is a number; the live timers are those that still fire.
use closedloop_electron.Base.{
  ℕ, suc, ◌≡◌, refl, ap, sym, ◌∙◌, not, Option, none, some, List, [], ◌∷◌, ◌++◌, filter, is_some,
  ◌==◌, arith,
}

-- `QueueStats`
pub record QueueStats : Type 0 where
  pub active_commands : ℕ
  pub queue_depth : ℕ

pub record Debounce : Type 0 where
  pub timer : Option ℕ
  pub pending : Option QueueStats
  pub live : List ℕ
  pub next : ℕ
  pub sent : List QueueStats

-- `clearTimeout`, of a timer if there is one.
abbrev clear : Option ℕ → List ℕ → List ℕ
clear none live = live
clear (some t) live = filter (λ h. not (h == t)) live

pub trigger : QueueStats → Debounce → Debounce
trigger stats d = record d {
  pending = some stats;
  timer = some d.next;
  live = clear d.timer d.live ++ d.next ∷ [];
  next = suc d.next;
}

abbrev send : Option QueueStats → List QueueStats → List QueueStats
send none sent = sent
send (some stats) sent = sent ++ stats ∷ []

-- The callback of a timer.
unfoldable pub fire : ℕ → Debounce → Debounce
fire h d = record d {
  timer = none;
  pending = none;
  live = filter (λ t. not (t == h)) d.live;
  sent = send d.pending d.sent;
}

unfoldable pub cancel : Debounce → Debounce
cancel d = record d { timer = none; pending = none; live = clear d.timer d.live }

abbrev pub new_debounce : Debounce
new_debounce = record { timer = none; pending = none; live = []; next = 0; sent = [] }

-- The states that calls, and timers that are live, reach.
pub data Debounced : Debounce → Type 0 where
  created : Debounced new_debounce
  triggered : {d : Debounce} (stats : QueueStats) → Debounced d → Debounced (trigger stats d)
  fired :
      {d : Debounce} (h : ℕ) (before after : List ℕ)
      → d.live ≡ before ++ h ∷ after
      → Debounced d
      → Debounced (fire h d)
  cancelled : {d : Debounce} → Debounced d → Debounced (cancel d)

abbrev timers : Option ℕ → List ℕ
timers none = []
timers (some t) = t ∷ []

abbrev IsSingle : Debounce → Type 0
IsSingle d = (d.live ≡ timers d.timer) × (is_some d.pending ≡ is_some d.timer)

clear-timers : (t : Option ℕ) → clear t (timers t) ≡ []
clear-timers none = refl
clear-timers (some t) = ground arith

only-timer :
    (t : Option ℕ) (h : ℕ) (before after : List ℕ)
    → timers t ≡ before ++ h ∷ after
    → filter (λ x. not (x == h)) (timers t) ≡ []
only-timer none h [] after e = cc
only-timer none h (x ∷ before) after e = cc
only-timer (some t) h [] after e = ground arith
only-timer (some t) h (x ∷ []) after e = cc
only-timer (some t) h (x ∷ y ∷ before) after e = cc

Debounced-IsSingle : (d : Debounce) → Debounced d → IsSingle d
unfolding trigger fire cancel
Debounced-IsSingle d created = (refl, refl)
Debounced-IsSingle d (triggered {d = c} stats h) =
    let (live, same_state) = Debounced-IsSingle c h in
    (ground (arith, live, clear-timers c.timer), refl)
Debounced-IsSingle d (fired {d = c} x before after e h) =
    let (live, same_state) = Debounced-IsSingle c h in
    (ap (filter (λ t. not (t == x))) live ∙ only-timer c.timer x before after (sym live ∙ e), refl)
Debounced-IsSingle d (cancelled {d = c} h) =
    let (live, same_state) = Debounced-IsSingle c h in
    (ground (arith, live, clear-timers c.timer), refl)

pub trigger_all : List QueueStats → Debounce → Debounce
unfolding trigger
trigger_all [] d = d
trigger_all (s ∷ ss) d = trigger_all ss (trigger s d)

trigger_all-Debounced :
    (ss : List QueueStats) (d : Debounce) → Debounced d → Debounced (trigger_all ss d)
unfolding trigger_all
trigger_all-Debounced [] d h = h
trigger_all-Debounced (s ∷ ss) d h = trigger_all-Debounced ss (trigger s d) (triggered s h)

trigger_all-sent : (ss : List QueueStats) (d : Debounce) → (trigger_all ss d).sent ≡ d.sent
unfolding trigger_all trigger
trigger_all-sent [] d = refl
trigger_all-sent (s ∷ ss) d = trigger_all-sent ss (trigger s d)

-- After any calls and timers, a burst of triggers leaves one live timer, and when that timer fires,
-- the last value of the burst is sent, once and alone, and nothing is pending.
pub trigger_burst :
    (ss : List QueueStats) (s : QueueStats) (d : Debounce)
    → Debounced d
    → ((trigger s (trigger_all ss d)).live ≡ (trigger_all ss d).next ∷ [])
      × ((fire (trigger_all ss d).next (trigger s (trigger_all ss d))).sent ≡ d.sent ++ s ∷ [])
      × ((fire (trigger_all ss d).next (trigger s (trigger_all ss d))).pending ≡ none)
unfolding trigger fire
trigger_burst ss s d h =
    let c = trigger_all ss d in
    let (live, _) = Debounced-IsSingle c (trigger_all-Debounced ss d h) in
    (
      ground (arith, live, clear-timers c.timer),
      ap (λ l. l ++ s ∷ []) (trigger_all-sent ss d),
      refl,
    )
