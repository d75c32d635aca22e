-- ===== src/Cost/Rounding.antt =====
-- `parseDecimalCentsToMicroCents` of cost-math.ts rounds half up.
use closedloop_electron.Base.{
  ℕ, zero, suc, ◌+◌, ◌-◌, ◌*◌, ◌≤◌, ◌<◌, ◌≡◌, refl, sym, ap, ◌∙◌, Bool, true, false, some, [], ◌∷◌,
  ◌++◌, Text, trim, length, leb, leb→le, arith, if◌then◌else◌, Bool-cases, inl, inr,
}
use native.Mathlib.Nat.{mul-le-mul_right}
use closedloop_electron.Json.{ℤ, pos, negsuc}
use closedloop_electron.Cost.Rows.{is_digit}
use closedloop_electron.Cost.Money.{
  number_from, pad_end, rounding, frac_micro, all_digits, split_decimal, split_sign, micro_of,
  negate, is_safe, assert_safe_integer, signed, micro_cents_per_cent,
  parse_decimal_cents_to_micro_cents,
}

pub pow10 : ℕ → ℕ
pow10 zero = 1
pow10 (suc n) = 10 * pow10 n

number_from-shift : (n : ℕ) (s : Text) → number_from n s ≡ n * pow10 (length s) + number_from 0 s
unfolding number_from pow10
number_from-shift n [] = omega arith
number_from-shift n (c ∷ s) =
    let d = c - b'0' in
    let p = pow10 (length s) in
    grind (arith, number_from-shift (n * 10 + d) s, number_from-shift d s)

scale : (p : ℕ) {a b : ℕ} → a ≤ b → a * p ≤ b * p
scale p h = mul-le-mul_right p h

digit-le : (c : ℕ) → is_digit c ≡ true → c - b'0' ≤ 9
digit-le c h = ground arith

number_from-first :
    (c : ℕ) (s : Text) → number_from 0 (c ∷ s) ≡ (c - b'0') * pow10 (length s) + number_from 0 s
unfolding number_from
number_from-first c s =
    let d = c - b'0' in
    let e : 0 * 10 + d ≡ d = omega arith in
    ap (λ (n : ℕ). number_from n s) e ∙ number_from-shift d s

number_from-nil : number_from 0 [] < 1
unfolding number_from
number_from-nil = omega arith

-- Digits behind the point stand for less than one.
number_from-lt : (s : Text) → all_digits s ≡ true → number_from 0 s < pow10 (length s)
unfolding pow10 all_digits
number_from-lt [] h = number_from-nil
number_from-lt (c ∷ s) h =
    let d = c - b'0' in
    let small : d ≤ 9 = ground arith in
    let rest : all_digits s ≡ true = ground arith in
    omega (arith, number_from-first c s, number_from-lt s rest, scale (pow10 (length s)) small)

-- `m` is `f / p` in units of a ten thousandth, rounded half up.
abbrev pub IsRounded : ℕ → ℕ → ℕ → Type 0
IsRounded p f m =
    (2 * (p * m) ≤ 2 * (f * micro_cents_per_cent) + p)
    × (2 * (f * micro_cents_per_cent) + p < 2 * (p * (m + 1)))

IsRounded-eq :
    {p p' f f' m m' : ℕ} → p ≡ p' → f ≡ f' → m ≡ m' → IsRounded p' f' m' → IsRounded p f m
IsRounded-eq a b c r = rw (a, b, c) r

round_fifth :
    (q m e r : ℕ)
    → r < q
    → e ≤ 9
    → IsRounded (100000 * q) ((m * 10 + e) * q + r) (m + (if leb 5 e then 1 else 0))
round_fifth q m e r small digit = elim (Bool-cases (leb 5 e)) [
  | inl up ↦ rw up (grind (arith, scale q (leb→le 5 e up), scale q digit))
  | inr down ↦ let low : e ≤ 4 = ground arith in rw down (grind (arith, scale q low))
]

frac_micro-IsRounded :
    (f : Text) → all_digits f ≡ true → IsRounded (pow10 (length f)) (number_from 0 f) (frac_micro f)
unfolding frac_micro pad_end rounding number_from pow10 all_digits
frac_micro-IsRounded [] h = ground arith
frac_micro-IsRounded (a ∷ []) h = ground arith
frac_micro-IsRounded (a ∷ b ∷ []) h = ground arith
frac_micro-IsRounded (a ∷ b ∷ c ∷ []) h = ground arith
frac_micro-IsRounded (a ∷ b ∷ c ∷ d ∷ []) h = ground arith
frac_micro-IsRounded (a ∷ b ∷ c ∷ d ∷ e ∷ s) h =
    let m = (((0 + (a - b'0')) * 10 + (b - b'0')) * 10 + (c - b'0')) * 10 + (d - b'0') in
    let rest : all_digits s ≡ true = ground arith in
    IsRounded-eq (omega arith) (number_from-shift (m * 10 + (e - b'0')) s) refl (
      round_fifth (pow10 (length s)) m (e - b'0') (number_from 0 s) (number_from-lt s rest)
        (ground arith))

number_from-append : (n : ℕ) (s t : Text) → number_from n (s ++ t) ≡ number_from (number_from n s) t
unfolding number_from
number_from-append n [] t = refl
number_from-append n (c ∷ s) t = number_from-append (n * 10 + (c - b'0')) s t

micro_of-IsRounded :
    (int frac : Text)
    → all_digits frac ≡ true
    → IsRounded (pow10 (length frac)) (number_from 0 (int ++ frac)) (micro_of (int, frac))
unfolding micro_of
micro_of-IsRounded int frac h =
    let i = number_from 0 int in
    let whole = number_from-append 0 int frac ∙ number_from-shift i frac in
    IsRounded-eq refl whole refl (lift i (frac_micro-IsRounded frac h))
  where
    lift :
        (i : ℕ)
        → IsRounded (pow10 (length frac)) (number_from 0 frac) (frac_micro frac)
        → IsRounded
            (pow10 (length frac))
            (i * pow10 (length frac) + number_from 0 frac)
            (i * micro_cents_per_cent + frac_micro frac)
    lift i r = grind (arith, r.0, r.1)

split_decimal-digits :
    (acc s int frac : Text) → split_decimal acc s ≡ some (int, frac) → all_digits frac ≡ true
unfolding split_decimal all_digits
split_decimal-digits acc [] int frac h = ground arith
split_decimal-digits acc (c ∷ s) int frac h =
    ground (arith, split_decimal-digits (acc ++ c ∷ []) s int frac)

-- The number without its sign.
abbrev pub magnitude : ℤ → ℕ
magnitude (pos n) = n
magnitude (negsuc n) = n + 1

magnitude-signed : (negative : Bool) (n : ℕ) → magnitude (signed negative n) ≡ n
unfolding negate
magnitude-signed false n = refl
magnitude-signed true zero = refl
magnitude-signed true (suc n) = omega arith

parse-parts :
    (raw int frac : Text) (z : ℤ)
    → split_decimal [] (split_sign (trim raw)).1 ≡ some (int, frac)
    → parse_decimal_cents_to_micro_cents raw ≡ some z
    → (z ≡ signed (split_sign (trim raw)).0 (micro_of (int, frac))) × (is_safe z ≡ true)
unfolding parse_decimal_cents_to_micro_cents assert_safe_integer
parse-parts raw int frac z e h = ground arith

-- If the text of an amount is read, with `int` before the point and `frac` behind it, the result is
-- the number of the text times ten thousand, rounded half up without its sign, with the sign of the
-- text; it is a safe integer.
pub parse_decimal_cents-IsRounded :
    (raw int frac : Text) (z : ℤ)
    → split_decimal [] (split_sign (trim raw)).1 ≡ some (int, frac)
    → parse_decimal_cents_to_micro_cents raw ≡ some z
    → IsRounded (pow10 (length frac)) (number_from 0 (int ++ frac)) (magnitude z)
      × (z ≡ signed (split_sign (trim raw)).0 (magnitude z))
      × (is_safe z ≡ true)
parse_decimal_cents-IsRounded raw int frac z e h =
    let (value, safe) = parse-parts raw int frac z e h in
    let size =
      ap magnitude value ∙ magnitude-signed (split_sign (trim raw)).0 (micro_of (int, frac)) in
    (
      IsRounded-eq refl refl size (
          micro_of-IsRounded int frac
            (split_decimal-digits [] (split_sign (trim raw)).1 int frac e)),
      value ∙ ap (signed (split_sign (trim raw)).0) (sym size),
      safe,
    )
