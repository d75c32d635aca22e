-- ===== src/Recovery/Spawn.antt =====
-- `retrySpawn` (apps/desktop/src/main/spawn-retry.ts): at most three attempts.
use closedloop_electron.Base.{
  ℕ, zero, suc, ◌≤◌, ◌≡◌, Bool, true, false, List, [], ◌∷◌, ◌++◌, take, arith, if◌then◌else◌, ltb,
  leb, not, ◌&&◌, ◌||◌, ◌==◌,
}

-- What an attempt ends with: a result, an error with code ENOENT, or another error.
pub data Attempt (A E : Type 0) : Type 0 where
  result : A → Attempt A E
  enoent other : E → Attempt A E

pub data Ending (A E : Type 0) : Type 0 where
  returned : A → Ending A E
  thrown : E → Ending A E

-- The calls of `fn`, the waits, whether the tray was cleared and whether it shows the failure.
pub record Trace : Type 0 where
  pub calls : ℕ
  pub waits : List ℕ
  pub cleared : Bool
  pub failure_shown : Bool

abbrev pub delays : List ℕ
delays = 200 ∷ 500 ∷ []

abbrev pub fresh : Trace
fresh = record { calls = 0; waits = []; cleared = false; failure_shown = false }

abbrev is_retry : ℕ → Bool
is_retry zero = false
is_retry (suc n) = true

-- `attempts n` is what the call of `fn` in attempt `n` ends with, and `is_shutting_down n` what is
-- read before it.
module _ {A E : Type 0} (attempts : ℕ → Attempt A E) (is_shutting_down : ℕ → Bool) where
  -- The loop from attempt `n` on, with the delays that are left.
  pub attempt_from : ℕ → List ℕ → Trace → Ending A E × Trace
  attempt_from n [] t =
      let called = record t { calls = suc t.calls } in
      elim (attempts n) [
        | result a ↦ (returned a, record called { cleared = is_retry n })
        | other e ↦ (thrown e, called)
        | enoent e ↦ (thrown e, record called { failure_shown = true })
      ]
  attempt_from n (d ∷ left) t =
      let called = record t { calls = suc t.calls } in
      let next = attempt_from (suc n) left (record called { waits = t.waits ++ d ∷ [] }) in
      elim (attempts n) [
        | result a ↦ (returned a, record called { cleared = is_retry n })
        | other e ↦ (thrown e, called)
        | enoent e ↦ if is_shutting_down (suc n) then (thrown e, called) else next
      ]

  pub retry_spawn : Ending A E × Trace
  unfolding attempt_from
  retry_spawn = attempt_from 0 delays fresh

abbrev pub ending : {A E : Type 0} → Attempt A E → Ending A E
ending (result a) = returned a
ending (enoent e) = thrown e
ending (other e) = thrown e

abbrev pub is_enoent : {A E : Type 0} → Attempt A E → Bool
is_enoent (enoent e) = true
is_enoent _ = false

module _ {A E : Type 0} (attempts : ℕ → Attempt A E) (is_shutting_down : ℕ → Bool) where
  -- What a retried spawn has done when it ends, with `n` calls: between one and three calls, the
  -- waits of 200 and 500 milliseconds between them, the end of the last call as its own, each earlier
  -- call failed with ENOENT, and it gave up on an ENOENT after the third call, which it shows, or
  -- because the program shuts down.
  abbrev pub IsRetried : ℕ → Ending A E × Trace → Type 0
  IsRetried n (e, t) =
      (t.calls ≡ suc n)
      × (suc n ≤ 3)
      × (t.waits ≡ take n delays)
      × (e ≡ ending (attempts n))
      × ((leb 1 n && not (is_enoent (attempts 0))) ≡ false)
      × ((leb 2 n && not (is_enoent (attempts 1))) ≡ false)
      × (t.failure_shown ≡ ((n == 2) && is_enoent (attempts n)))
      × ((is_enoent (attempts n) && ltb n 2 && not (is_shutting_down (suc n))) ≡ false)

  last_call : ℕ
  last_call =
      if not (is_enoent (attempts 0)) || is_shutting_down 1
      then 0
      else if not (is_enoent (attempts 1)) || is_shutting_down 2
      then 1
      else 2

  -- A retried spawn ends after one to three calls of the function, with the end of the last call; it
  -- waits 200 and then 500 milliseconds between them, and each call but the last failed with ENOENT.
  -- It ends on an ENOENT only after the third call, and then shows the failure, or when the program
  -- shuts down.
  pub retry_spawn-IsRetried : (n : ℕ) × IsRetried n (retry_spawn attempts is_shutting_down)
  unfolding retry_spawn attempt_from last_call
  retry_spawn-IsRetried = (
    last_call,
    (
      ground arith,
      ground arith,
      ground arith,
      ground arith,
      ground arith,
      ground arith,
      ground arith,
      ground arith,
    ),
  )
