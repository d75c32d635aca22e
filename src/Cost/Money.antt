-- ===== src/Cost/Money.antt =====
-- apps/desktop/src/main/cost-math.ts: amounts as whole micro-cents. `none` stands for an exception.
-- A product or a sum that leaves the safe integers is rounded to a number outside of them, so the
-- exact integers show the same exceptions.
use closedloop_electron.Base.{
  ℕ, zero, suc, ◌+◌, ◌-◌, ◌*◌, Bool, true, false, not, ◌&&◌, Option, none, some, List, [], ◌∷◌,
  ◌++◌, Text, trim, take, drop, leb, ◌==◌, is_empty, if◌then◌else◌,
}
use closedloop_electron.Json.{ℤ, pos, negsuc}
use closedloop_electron.Cost.Rows.{is_digit}

abbrev pub micro_cents_per_cent : ℕ
micro_cents_per_cent = 10000

abbrev pub max_safe_integer : ℕ
max_safe_integer = 9007199254740991

-- `Number.isSafeInteger`
pub is_safe : ℤ → Bool
is_safe (pos n) = leb n max_safe_integer
is_safe (negsuc n) = leb (n + 1) max_safe_integer

-- `assertSafeInteger`
unfoldable pub assert_safe_integer : ℤ → Option ℤ
unfolding is_safe
assert_safe_integer z = if is_safe z then some z else none

-- The difference of two natural numbers.
unfoldable pub minus : ℕ → ℕ → ℤ
minus a zero = pos a
minus zero (suc b) = negsuc b
minus (suc a) (suc b) = minus a b

infixl 65 ◌+ℤ◌
unfoldable pub ◌+ℤ◌ : ℤ → ℤ → ℤ
unfolding minus
pos a +ℤ pos b = pos (a + b)
pos a +ℤ negsuc b = minus a (b + 1)
negsuc a +ℤ pos b = minus b (a + 1)
negsuc a +ℤ negsuc b = negsuc (a + b + 1)

unfoldable pub negate : ℤ → ℤ
negate (pos zero) = pos zero
negate (pos (suc n)) = negsuc n
negate (negsuc n) = pos (n + 1)

-- The loop of `sumMicroCents`.
unfoldable pub sum_from : ℤ → List ℤ → Option ℤ
unfolding ◌+ℤ◌ assert_safe_integer
sum_from total [] = some total
sum_from total (v ∷ vs) = elim (assert_safe_integer v) [
  | none ↦ none
  | some value ↦ elim (assert_safe_integer (total +ℤ value)) [
    | none ↦ none
    | some t ↦ sum_from t vs
  ]
]

unfoldable pub sum_micro_cents : List ℤ → Option ℤ
unfolding sum_from
sum_micro_cents vs = sum_from (pos 0) vs

-- `DriftResult`; the percentage is a hundred times a quotient, given as its two numbers.
pub record Drift : Type 0 where
  pub drift_micro_cents : ℤ
  pub drift_pct : Option (ℤ × ℤ)

abbrev pub is_zero : ℤ → Bool
is_zero (pos zero) = true
is_zero _ = false

infixl 5 ◌>>=◌
abbrev ◌>>=◌ {ℓ κ} : {A : Type ℓ} {B : Type κ} → Option A → (A → Option B) → Option B
none >>= f = none
some a >>= f = f a

unfoldable pub compute_drift : ℤ → ℤ → Option Drift
unfolding ◌+ℤ◌ negate assert_safe_integer
compute_drift local vendor = do
  l ← assert_safe_integer local
  v ← assert_safe_integer vendor
  drift ← assert_safe_integer (l +ℤ negate v)
  some (record {
    drift_micro_cents = drift;
    drift_pct = if is_zero v then none else some (drift, v);
  })

-- `Number` of a text of digits.
unfoldable pub number_from : ℕ → Text → ℕ
number_from n [] = n
number_from n (c ∷ s) = number_from (n * 10 + (c - b'0')) s

-- `s.padEnd(4, "0")`
unfoldable pub pad_end : ℕ → Text → Text
pad_end zero s = s
pad_end (suc n) [] = b'0' ∷ pad_end n []
pad_end (suc n) (c ∷ s) = c ∷ pad_end n s

-- The fifth digit rounds up from five on.
unfoldable pub rounding : Text → ℕ
rounding [] = 0
rounding (c ∷ s) = if leb 5 (c - b'0') then 1 else 0

unfoldable pub frac_micro : Text → ℕ
unfolding number_from pad_end rounding
frac_micro frac = number_from 0 (pad_end 4 (take 4 frac)) + rounding (drop 4 frac)

unfoldable pub all_digits : Text → Bool
all_digits [] = true
all_digits (c ∷ s) = is_digit c && all_digits s

-- `\d+(?:\.(\d+))?$`: the digits before the point and those behind it.
unfoldable pub split_decimal : Text → Text → Option (Text × Text)
unfolding all_digits
split_decimal int [] = if is_empty int then none else some (int, [])
split_decimal int (c ∷ s) =
    if is_digit c
    then split_decimal (int ++ c ∷ []) s
    else if c == b'.' && not (is_empty int) && not (is_empty s) && all_digits s
    then some (int, s)
    else none

-- `[+-]?`
unfoldable pub split_sign : Text → Bool × Text
split_sign [] = (false, [])
split_sign (c ∷ s) =
    if c == b'-' then (true, s) else if c == b'+' then (false, s) else (false, c ∷ s)

abbrev pub signed : Bool → ℕ → ℤ
signed negative n = if negative then negate (pos n) else pos n

unfoldable pub micro_of : Text × Text → ℕ
unfolding frac_micro
micro_of (int, frac) = number_from 0 int * micro_cents_per_cent + frac_micro frac

-- `parseDecimalCentsToMicroCents`
unfoldable pub parse_decimal_cents_to_micro_cents : Text → Option ℤ
unfolding split_sign split_decimal micro_of assert_safe_integer
parse_decimal_cents_to_micro_cents raw =
    let (negative, s) = split_sign (trim raw) in
    elim (split_decimal [] s) [
      | none ↦ none
      | some parts ↦ assert_safe_integer (signed negative (micro_of parts))
    ]
