-- ===== src/Executor/Safety.antt =====
-- Every step of a CloudCommandExecutor (cloud-command-executor.ts) keeps it safe.
use closedloop_electron.Base.{
  ℕ, ◌≡◌, ◌∙◌, sym, true, some, List, Text, same_iff, lookup, insert, lookup-insert,
  length-insert_old, All-map, arith,
}
use closedloop_electron.Executor.State.{Command, Running, Tracked, Executor}
use closedloop_electron.Executor.Schedule.{schedule}
use closedloop_electron.Executor.Frame.{SameCore}
use closedloop_electron.Executor.Locks.{Owns, Held, IsLockTable}
use closedloop_electron.Executor.Queue.{IsWaiting}
use closedloop_electron.Executor.Saturation.{
  IsSafe, IsSafe-same, IsSaturated, IsSaturated-same, schedule-IsSafe, schedule-connected,
}

pub record IsSound (limit : ℕ) (s : Executor) : Type 0 where
  pub safe : IsSafe limit s
  pub saturated : s.connected ≡ true → IsSaturated limit s

pub schedule-IsSound :
    (limit : ℕ) (s : Executor) → IsSafe limit s → IsSound limit (schedule limit s)
schedule-IsSound limit s h =
    let (safe, full) = schedule-IsSafe limit s h in
    record { safe = safe; saturated = λ on. full (sym (schedule-connected limit s) ∙ on) }

-- The same commands wait and run: nothing new may start.
pub IsSound-same :
    (limit : ℕ) (s t : Executor) → SameCore s t → IsSafe limit t → IsSound limit s → IsSound limit t
IsSound-same limit s t h safe k = record {
  safe = safe;
  saturated = λ on. IsSaturated-same limit s t h (k.saturated (sym h.connected_eq ∙ on));
}

-- A change of the record in flight that keeps its lock.
module _ (id : Text) (r r' : Running) (fl : List (Text × Running)) (ow : List (Text × Text))
    (here : lookup id fl ≡ some r) (kept : r'.lock_key ≡ r.lock_key) where
  Owns-update : Owns fl ow → Owns (insert id r' fl) ow
  Owns-update owns j key x a b =
      ground (arith, owns j key x, owns j key r, lookup-insert id j r' fl, same_iff id j)

  Held-update : Held fl ow → Held (insert id r' fl) ow
  Held-update held j key a = ground (arith, held j key a, lookup-insert id j r' fl, same_iff id j)

  IsLockTable-update :
      (limit : ℕ) → IsLockTable limit fl ow → IsLockTable limit (insert id r' fl) ow
  IsLockTable-update limit h = record {
    bounded = omega (arith, h.bounded, length-insert_old id r' r fl here);
    owns = Owns-update h.owns;
    held = Held-update h.held;
  }

  IsWaiting-update :
      (m : List (Text × Tracked)) (d : Command) → IsWaiting fl m d → IsWaiting (insert id r' fl) m d
  IsWaiting-update m d w =
      (ground (arith, lookup-insert id d.command_id r' fl, same_iff id d.command_id, w.0), w.1)

-- The message and the record of a request to abort.
pub update-IsSound :
    (limit : ℕ) (id : Text) (r r' : Running) (s : Executor) (t : Executor)
    → lookup id s.in_flight ≡ some r
    → r'.lock_key ≡ r.lock_key
    → SameCore (record s { in_flight = insert id r' s.in_flight }) t
    → t.tracked ≡ s.tracked
    → IsSound limit s
    → IsSound limit t
update-IsSound limit id r r' s t here kept core tracked k =
    let u : Executor = record s { in_flight = insert id r' s.in_flight } in
    let safe : IsSafe limit u = record {
      locked = IsLockTable-update id r r' s.in_flight s.lock_owners here kept limit k.safe.locked;
      ordered = record {
        tracked_once = k.safe.ordered.tracked_once;
        waiting =
            All-map s.queue (IsWaiting-update id r r' s.in_flight s.lock_owners here kept s.tracked)
              k.safe.ordered.waiting;
        distinct = k.safe.ordered.distinct;
      };
    } in
    let sound : IsSound limit u = record {
      safe = safe;
      saturated = λ on. ground (arith, k.saturated on, length-insert_old id r' r s.in_flight);
    } in
    IsSound-same limit u t core (IsSafe-same u t core tracked safe) sound
