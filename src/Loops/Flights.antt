-- ===== src/Loops/Flights.antt =====
-- `refreshLoopTokenSingleflight` of loop-refresh.ts, with the refreshes of `runRefreshTick`
-- (loop-refresh-scheduler.ts), which calls `refreshLoopToken` itself.
use closedloop_electron.Base.{
  ℕ, suc, ◌≡◌, refl, ap, subst, ◌∙◌, or_else, if◌then◌else◌, Bool, false, none, some, List, [], ◌∷◌,
  ◌++◌, Text, same, same_iff, same_refl, All-map, All-append, All-filter, Bool-cases, ◌≢◌, filter,
  not, ◌==◌, All, lookup, insert, delete, IsMap, insert-IsMap, delete-IsMap, arith, Option-cases,
  inl, inr, ◌<◌,
}
use closedloop_electron.Loops.Resume.{All-middle}

-- The refreshes of the process: the module's map `inflight` from a loop to its promise, the
-- refreshes that `refreshLoopTokenSingleflight` began and that run, each with its promise, and the
-- loops whose refresh a tick began and that run. A promise is a number.
pub record Flights : Type 0 where
  pub inflight : List (Text × ℕ)
  pub running : List (Text × ℕ)
  pub direct : List Text
  pub next : ℕ

-- `refreshLoopTokenSingleflight`: the promise that the caller gets.
unfoldable pub refresh_singleflight : Text → Flights → ℕ × Flights
refresh_singleflight loop f = elim (lookup loop f.inflight) [
  | some existing ↦ (existing, f)
  | none ↦ (
    f.next,
    record f {
      inflight = insert loop f.next f.inflight;
      running = f.running ++ (loop, f.next) ∷ [];
      next = suc f.next;
    },
  )
]

-- The refresh of a loop with this promise ends, well or not; then `finally` forgets the loop.
pub settle_flight : Text → ℕ → Flights → Flights
settle_flight loop promise f = record f {
  inflight = delete loop f.inflight;
  running = filter (λ e. not (e.1 == promise)) f.running;
}

-- `runRefreshTick` begins a refresh, whatever runs.
unfoldable pub run_refresh_tick : Text → Flights → Flights
run_refresh_tick loop f = record f { direct = f.direct ++ loop ∷ [] }

remove_one : Text → List Text → List Text
remove_one loop [] = []
remove_one loop (l ∷ ls) = if same l loop then ls else l ∷ remove_one loop ls

-- A refresh of the loop that a tick began ends.
pub end_refresh_tick : Text → Flights → Flights
unfolding remove_one
end_refresh_tick loop f = record f { direct = remove_one loop f.direct }

-- The states that calls, ticks and ends reach.
pub data Flown : Flights → Type 0 where
  idle : Flown record { inflight = []; running = []; direct = []; next = 0 }
  called : {f : Flights} (loop : Text) → Flown f → Flown (refresh_singleflight loop f).1
  settled :
      {f : Flights} (before after : List (Text × ℕ)) (loop : Text) (promise : ℕ)
      → f.running ≡ before ++ (loop, promise) ∷ after
      → Flown f
      → Flown (settle_flight loop promise f)
  ticked : {f : Flights} (loop : Text) → Flown f → Flown (run_refresh_tick loop f)
  tick_ended : {f : Flights} (loop : Text) → Flown f → Flown (end_refresh_tick loop f)

-- No promise stands twice.
abbrev pub IsDistinct : List (Text × ℕ) → Type 0
IsDistinct [] = Unit
IsDistinct ((loop, p) ∷ m) = All (λ e. (e.1 == p) ≡ false) m × IsDistinct m

-- The map holds what runs, no loop stands in it twice, and its promises are older than the next.
abbrev pub IsSingle : Flights → Type 0
IsSingle f =
    (f.inflight ≡ f.running)
    × IsMap f.running
    × All (λ e. e.1 < f.next) f.running
    × IsDistinct f.running

insert_absent :
    (k : Text) (v : ℕ) (m : List (Text × ℕ)) → lookup k m ≡ none → insert k v m ≡ m ++ (k, v) ∷ []
unfolding lookup insert
insert_absent k v [] h = refl
insert_absent k v ((j, w) ∷ m) h = ground (arith, insert_absent k v m)

delete_absent : (k : Text) (m : List (Text × ℕ)) → lookup k m ≡ none → delete k m ≡ m
unfolding lookup delete
delete_absent k [] h = refl
delete_absent k ((j, w) ∷ m) h = ground (arith, delete_absent k m)

filter_absent :
    (p : ℕ) (m : List (Text × ℕ))
    → All (λ e. (e.1 == p) ≡ false) m
    → filter (λ e. not (e.1 == p)) m ≡ m
filter_absent p [] h = refl
filter_absent p ((j, q) ∷ m) h = ground (arith, filter_absent p m h.1)

lookup-middle :
    (k : Text) (v : ℕ) (before after : List (Text × ℕ)) → lookup k (before ++ (k, v) ∷ after) ≢ none
unfolding lookup
lookup-middle k v [] after = ground (arith, same_refl k)
lookup-middle k v ((j, w) ∷ before) after = ground (arith, lookup-middle k v before after)

delete-eq-filter :
    (k : Text) (p : ℕ) (before after : List (Text × ℕ))
    → IsMap (before ++ (k, p) ∷ after)
    → IsDistinct (before ++ (k, p) ∷ after)
    → delete k (before ++ (k, p) ∷ after) ≡ filter (λ e. not (e.1 == p)) (before ++ (k, p) ∷ after)
unfolding delete
delete-eq-filter k p [] after h d =
    ground (arith, same_refl k, delete_absent k after, filter_absent p after d.0)
delete-eq-filter k p ((j, q) ∷ before) after h d = ground (
  arith,
  same_iff j k,
  lookup-middle k p before after,
  All-middle (λ e. (e.1 == q) ≡ false) before after (k, p) d.0,
  delete-eq-filter k p before after h.1 d.1,
)

All-later : (n : ℕ) (m : List (Text × ℕ)) → All (λ e. e.1 < n) m → All (λ e. (e.1 == n) ≡ false) m
All-later n m h = All-map m (λ e k. ground arith) h

append-IsDistinct :
    (k : Text) (p : ℕ) (m : List (Text × ℕ))
    → All (λ e. e.1 < p) m
    → IsDistinct m
    → IsDistinct (m ++ (k, p) ∷ [])
append-IsDistinct k p [] h d = (tt, tt)
append-IsDistinct k p ((j, q) ∷ m) h d = (
  All-append (λ e. (e.1 == q) ≡ false) m ((k, p) ∷ []) d.0 (ground arith, tt),
  append-IsDistinct k p m h.1 d.1,
)

filter-IsDistinct :
    (keep : Text × ℕ → Bool) (m : List (Text × ℕ)) → IsDistinct m → IsDistinct (filter keep m)
filter-IsDistinct keep [] d = tt
filter-IsDistinct keep ((j, q) ∷ m) d = elim (Bool-cases (keep (j, q))) [
  | inl e ↦ rw e (All-filter (λ e. (e.1 == q) ≡ false) keep m d.0, filter-IsDistinct keep m d.1)
  | inr e ↦ rw e (filter-IsDistinct keep m d.1)
]

refresh_singleflight-IsSingle :
    (loop : Text) (f : Flights) → IsSingle f → IsSingle (refresh_singleflight loop f).1
unfolding refresh_singleflight
refresh_singleflight-IsSingle loop f (same_map, is_map, below, distinct) =
    elim (Option-cases (lookup loop f.inflight)) [
      | inr (p, e) ↦ rw (e, refresh_singleflight) (same_map, is_map, below, distinct)
      | inl e ↦
          let absent : lookup loop f.running ≡ none = ground arith in
          let added = insert_absent loop f.next f.running absent in
          rw (e, refresh_singleflight)
            (
              ap (insert loop f.next) same_map ∙ added,
              subst IsMap added (insert-IsMap loop f.next f.running is_map),
              All-append (λ e. e.1 < suc f.next) f.running ((loop, f.next) ∷ [])
                  (All-map f.running (λ e k. omega arith) below) (omega arith, tt),
              append-IsDistinct loop f.next f.running below distinct,
            )
    ]

settle_flight-IsSingle :
    (before after : List (Text × ℕ)) (loop : Text) (promise : ℕ) (f : Flights)
    → f.running ≡ before ++ (loop, promise) ∷ after
    → IsSingle f
    → IsSingle (settle_flight loop promise f)
unfolding settle_flight
settle_flight-IsSingle before after loop promise f e (same_map, is_map, below, distinct) =
    let kept : delete loop f.running ≡ filter (λ e. not (e.1 == promise)) f.running = rw e (
      delete-eq-filter loop promise before after (subst IsMap e is_map)
        (subst IsDistinct e distinct)) in
    (
      ap (delete loop) same_map ∙ kept,
      subst IsMap kept (delete-IsMap loop f.running is_map),
      All-filter (λ e. e.1 < f.next) (λ e. not (e.1 == promise)) f.running below,
      filter-IsDistinct (λ e. not (e.1 == promise)) f.running distinct,
    )

Flown-IsSingle : (f : Flights) → Flown f → IsSingle f
unfolding run_refresh_tick end_refresh_tick
Flown-IsSingle f idle = (refl, tt, tt, tt)
Flown-IsSingle f (called {f = g} loop h) = refresh_singleflight-IsSingle loop g (Flown-IsSingle g h)
Flown-IsSingle f (settled {f = g} before after loop promise e h) =
    settle_flight-IsSingle before after loop promise g e (Flown-IsSingle g h)
Flown-IsSingle f (ticked {f = g} loop h) = Flown-IsSingle g h
Flown-IsSingle f (tick_ended {f = g} loop h) = Flown-IsSingle g h

-- Whatever calls, ticks and ends there were, in any order: of the refreshes that
-- `refreshLoopTokenSingleflight` began, no loop has two under way, and a caller gets the promise of
-- the loop's one, if it has one, and else a new promise. The refreshes that ticks began directly
-- are not among them.
pub Flown-single :
    (f : Flights) (loop : Text)
    → Flown f
    → IsMap f.running × (refresh_singleflight loop f).0 ≡ or_else (lookup loop f.running) f.next
unfolding refresh_singleflight
Flown-single f loop h =
    let (same_map, is_map, _, _) = Flown-IsSingle f h in (is_map, ground (arith, same_map))
