-- ===== src/Cost/Sums.antt =====
-- `sumMicroCents` and `computeDrift` of cost-math.ts are exact.
use closedloop_electron.Base.{
  ℕ, zero, suc, ◌+◌, ◌≡◌, none, some, List, [], ◌∷◌, arith, if◌then◌else◌,
}
use closedloop_electron.Json.{ℤ, pos, negsuc}
use closedloop_electron.Cost.Money.{
  minus, ◌+ℤ◌, negate, assert_safe_integer, sum_from, sum_micro_cents, Drift, compute_drift,
  is_zero,
}

-- A number as a gain or a loss.
abbrev pub gain : ℤ → ℕ
gain (pos n) = n
gain (negsuc n) = 0

abbrev pub loss : ℤ → ℕ
loss (pos n) = 0
loss (negsuc n) = n + 1

abbrev pub gains : List ℤ → ℕ
gains [] = 0
gains (v ∷ vs) = gain v + gains vs

abbrev pub losses : List ℤ → ℕ
losses [] = 0
losses (v ∷ vs) = loss v + losses vs

minus_lem : (a b : ℕ) → gain (minus a b) + b ≡ loss (minus a b) + a
unfolding minus
minus_lem a zero = omega arith
minus_lem zero (suc b) = omega arith
minus_lem (suc a) (suc b) = omega (arith, minus_lem a b)

+ℤ_lem : (a b : ℤ) → gain (a +ℤ b) + loss a + loss b ≡ loss (a +ℤ b) + gain a + gain b
unfolding ◌+ℤ◌
+ℤ_lem (pos a) (pos b) = omega arith
+ℤ_lem (pos a) (negsuc b) = omega (arith, minus_lem a (b + 1))
+ℤ_lem (negsuc a) (pos b) = omega (arith, minus_lem b (a + 1))
+ℤ_lem (negsuc a) (negsuc b) = omega arith

negate_lem : (a : ℤ) → (gain (negate a) ≡ loss a) × (loss (negate a) ≡ gain a)
unfolding negate
negate_lem (pos zero) = omega arith
negate_lem (pos (suc n)) = omega arith
negate_lem (negsuc n) = omega arith

sum_from_lem :
    (total t : ℤ) (vs : List ℤ)
    → sum_from total vs ≡ some t
    → gain t + loss total + losses vs ≡ loss t + gain total + gains vs
unfolding sum_from assert_safe_integer
sum_from_lem total t [] h = ground arith
sum_from_lem total t (v ∷ vs) h = ground (arith, sum_from_lem (total +ℤ v) t vs, +ℤ_lem total v)

-- A sum that is returned is what the positive amounts exceed the negative ones by.
pub sum_micro_cents_lem :
    (vs : List ℤ) (t : ℤ) → sum_micro_cents vs ≡ some t → gain t + losses vs ≡ loss t + gains vs
unfolding sum_micro_cents
sum_micro_cents_lem vs t h = omega (arith, sum_from_lem (pos 0) t vs h)

-- A drift that is returned is exactly the local amount less the vendor's, and there is a percentage,
-- of the vendor's amount, exactly if that is not zero.
pub compute_drift_lem :
    (local vendor : ℤ) (d : Drift)
    → compute_drift local vendor ≡ some d
    → (gain d.drift_micro_cents + gain vendor + loss local
        ≡ loss d.drift_micro_cents + loss vendor + gain local)
      × (d.drift_pct ≡ (if is_zero vendor then none else some (d.drift_micro_cents, vendor)))
unfolding compute_drift assert_safe_integer
compute_drift_lem local vendor d h = ground (arith, +ℤ_lem local (negate vendor), negate_lem vendor)
