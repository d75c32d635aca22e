-- ===== src/Executor/Locks.antt =====
-- Locks and the limit on commands in flight, over `start`, `schedule` and the end of `execute`.
use closedloop_electron.Base.{
  ℕ, ◌≤◌, ◌<◌, max, ◌≡◌, refl, true, Option, none, some, List, Text, same_iff, lookup, insert,
  delete, lookup-insert, lookup-delete, length, length-insert, length-delete-le, arith,
}
use closedloop_electron.Executor.State.{Command, Tracked, Running, Executor}
use closedloop_electron.Executor.Keys.{derive_lock_key}
use closedloop_electron.Executor.Schedule.{
  start, placed, running_record, take_lock, is_free, notify_queue_stats,
}
use closedloop_electron.Executor.Settle.{release, release_lock}
use closedloop_electron.Executor.Frame.{SameCore, emit-SameCore, notify-SameCore, SameCore-trans}

-- Every command in flight owns its lock.
abbrev pub Owns : List (Text × Running) → List (Text × Text) → Type 0
Owns fl ow =
    (id key : Text) (r : Running)
    → lookup id fl ≡ some r
    → r.lock_key ≡ some key
    → lookup key ow ≡ some id

-- Every lock belongs to a command in flight that has it.
abbrev pub Held : List (Text × Running) → List (Text × Text) → Type 0
Held fl ow =
    (id key : Text)
    → lookup key ow ≡ some id
    → (r : Running) × (lookup id fl ≡ some r) × (r.lock_key ≡ some key)

pub record IsLockTable (limit : ℕ) (fl : List (Text × Running)) (ow : List (Text × Text))
    : Type 0 where
  pub bounded : length fl ≤ max 1 limit
  pub owns : Owns fl ow
  pub held : Held fl ow

abbrev pub IsLocked : ℕ → Executor → Type 0
IsLocked limit s = IsLockTable limit s.in_flight s.lock_owners

pub IsLocked-same :
    {limit : ℕ} (s t : Executor) → SameCore s t → IsLocked limit s → IsLocked limit t
IsLocked-same {limit} s t h k = record {
  bounded = ground (arith, h.in_flight_eq);
  owns = λ id key r a b. ground (arith, k.owns id key r);
  held = λ id key a. ground (arith, k.held id key);
}

pub start_untracked :
    (c : Command) (s : Executor) → lookup c.command_id s.tracked ≡ none → start c s ≡ s
unfolding start
start_untracked c s h = rw (h, start)

pub start-SameCore :
    (c : Command) (s : Executor) (t : Tracked)
    → lookup c.command_id s.tracked ≡ some t
    → SameCore (placed c t s) (start c s)
unfolding start
start-SameCore c s t h =
    rw (h, start)
      (SameCore-trans (notify-SameCore (placed c t s))
        (emit-SameCore c.command_id _ _ (notify_queue_stats (placed c t s))))

-- Nobody holds the lock, if there is one.
abbrev pub IsFree : Option Text → List (Text × Text) → Type 0
IsFree none ow = Unit {0}
IsFree (some key) ow = lookup key ow ≡ none

module _ (id : Text) (r : Running) (fl : List (Text × Running)) (ow : List (Text × Text)) where
  Owns-take :
      (k : Option Text)
      → r.lock_key ≡ k
      → IsFree k ow
      → Owns fl ow
      → Owns (insert id r fl) (take_lock id k ow)
  unfolding take_lock
  Owns-take none e free owns j key x a b =
      ground (arith, owns j key x, lookup-insert id j r fl, same_iff id j)
  Owns-take (some own) e free owns j key x a b = ground (
    arith,
    owns j key x,
    lookup-insert id j r fl,
    same_iff id j,
    lookup-insert own key id ow,
    same_iff own key,
  )

  Held-take :
      (k : Option Text)
      → r.lock_key ≡ k
      → lookup id fl ≡ none
      → Held fl ow
      → Held (insert id r fl) (take_lock id k ow)
  unfolding take_lock
  Held-take none e fresh held j key a =
      ground (arith, held j key, lookup-insert id j r fl, same_iff id j)
  Held-take (some own) e fresh held j key a = ground (
    arith,
    held j key,
    lookup-insert id j r fl,
    same_iff id j,
    lookup-insert own key id ow,
    same_iff own key,
  )

  Owns-release :
      (k : Option Text)
      → r.lock_key ≡ k
      → lookup id fl ≡ some r
      → Owns fl ow
      → Owns (delete id fl) (release_lock k ow)
  unfolding release_lock
  Owns-release none e here owns j key x a b =
      ground (arith, owns j key x, lookup-delete id j fl, same_iff id j)
  Owns-release (some own) e here owns j key x a b = ground (
    arith,
    owns j key x,
    owns id own r,
    lookup-delete id j fl,
    same_iff id j,
    lookup-delete own key ow,
    same_iff own key,
  )

  Held-release :
      (k : Option Text)
      → r.lock_key ≡ k
      → lookup id fl ≡ some r
      → Owns fl ow
      → Held fl ow
      → Held (delete id fl) (release_lock k ow)
  unfolding release_lock
  Held-release none e here owns held j key a =
      ground (arith, held j key, lookup-delete id j fl, same_iff id j)
  Held-release (some own) e here owns held j key a = ground (
    arith,
    held j key,
    owns id own r,
    lookup-delete id j fl,
    same_iff id j,
    lookup-delete own key ow,
    same_iff own key,
  )

IsFree-of_is_free :
    (c : Command) (ow : List (Text × Text)) → is_free ow c ≡ true → IsFree (derive_lock_key c) ow
unfolding is_free
IsFree-of_is_free c ow h = ground arith

-- A command that is free and not in flight takes a lock that nobody holds.
pub placed-IsLocked :
    (limit : ℕ) (c : Command) (t : Tracked) (s : Executor)
    → IsLocked limit s
    → length s.in_flight < max 1 limit
    → lookup c.command_id s.in_flight ≡ none
    → is_free s.lock_owners c ≡ true
    → IsLocked limit (placed c t s)
placed-IsLocked limit c t s k room fresh free = record {
  bounded = omega (arith, length-insert c.command_id (running_record c) s.in_flight);
  owns =
      Owns-take c.command_id (running_record c) s.in_flight s.lock_owners (derive_lock_key c) refl
        (IsFree-of_is_free c s.lock_owners free) k.owns;
  held =
      Held-take c.command_id (running_record c) s.in_flight s.lock_owners (derive_lock_key c) refl
        fresh k.held;
}

-- The end of a command in flight gives back its own lock and no other.
pub release-IsLocked :
    (limit : ℕ) (c : Command) (r : Running) (s : Executor)
    → IsLocked limit s
    → lookup c.command_id s.in_flight ≡ some r
    → r.lock_key ≡ derive_lock_key c
    → IsLocked limit (release c s)
unfolding release
release-IsLocked limit c r s k here e = record {
  bounded = omega (arith, k.bounded, length-delete-le c.command_id s.in_flight);
  owns = Owns-release c.command_id r s.in_flight s.lock_owners (derive_lock_key c) e here k.owns;
  held =
      Held-release c.command_id r s.in_flight s.lock_owners (derive_lock_key c) e here k.owns
        k.held;
}
