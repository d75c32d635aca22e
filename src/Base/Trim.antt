-- ===== src/Base/Trim.antt =====
-- `trim` does nothing to a text that it has trimmed.
use mathlib.Core.Path.{◌≡◌, refl, sym, ap, ◌∙◌, subst}
use mathlib.Core.Bool.{Bool, true, false, not}
use mathlib.Core.List.{[], ◌∷◌, ◌++◌, reverse, reverse-append, reverse-cons, reverse-reverse}
use native.Mathlib.Omega.{arith}
use closedloop_electron.Base.Tests.{if◌then◌else◌}
use closedloop_electron.Base.Lists.{All, All-append}
use closedloop_electron.Base.Texts.{Text, is_space, trim_start, trim}

-- What `trim_start` takes off.
taken : Text → Text
taken [] = []
taken (c ∷ s) = if is_space c then c ∷ taken s else []

taken-trim_start : (s : Text) → s ≡ taken s ++ trim_start s
unfolding taken trim_start
taken-trim_start [] = refl
taken-trim_start (c ∷ s) = ground (arith, taken-trim_start s)

-- A text that does not begin with white space.
abbrev begins : Text → Bool
begins [] = true
begins (c ∷ s) = not (is_space c)

begins-trim_start : (s : Text) → begins (trim_start s) ≡ true
unfolding trim_start
begins-trim_start [] = refl
begins-trim_start (c ∷ s) = ground (arith, begins-trim_start s)

trim_start-begins : (s : Text) → begins s ≡ true → trim_start s ≡ s
unfolding trim_start
trim_start-begins [] h = refl
trim_start-begins (c ∷ s) h = ground arith

begins-prefix : (s t : Text) → begins (s ++ t) ≡ true → begins s ≡ true
begins-prefix [] t h = refl
begins-prefix (c ∷ s) t h = h

begins-trim : (s : Text) → begins (trim s) ≡ true
unfolding trim
begins-trim s =
    let u = trim_start s in
    let w = trim_start (reverse u) in
    let split : u ≡ reverse w ++ reverse (taken (reverse u)) =
      sym (reverse-reverse u)
      ∙ (ap reverse (taken-trim_start (reverse u)) ∙ reverse-append (taken (reverse u)) w) in
    begins-prefix (reverse w) (reverse (taken (reverse u)))
      (subst (λ v. begins v ≡ true) split (begins-trim_start s))

pub trim-trim : (s : Text) → trim (trim s) ≡ trim s
unfolding trim
trim-trim s =
    let w = trim_start (reverse (trim_start s)) in
    let kept : trim_start (reverse w) ≡ reverse w = trim_start-begins (reverse w) (begins-trim s) in
    rw kept (
      ap reverse (
        ap trim_start (reverse-reverse w)
        ∙ trim_start-begins w (begins-trim_start (reverse (trim_start s)))))

All-reverse :
    (s : Text) → All (λ c. is_space c ≡ false) s → All (λ c. is_space c ≡ false) (reverse s)
All-reverse [] h = tt
All-reverse (c ∷ s) h =
    subst (All (λ c. is_space c ≡ false)) (sym (reverse-cons c s))
      (All-append (λ c. is_space c ≡ false) (reverse s) (c ∷ []) (All-reverse s h.1) (h.0, tt))

begins-All : (s : Text) → All (λ c. is_space c ≡ false) s → begins s ≡ true
begins-All [] h = refl
begins-All (c ∷ s) h = rw h.0 refl

-- A text without white space is trimmed already.
pub trim_solid : (s : Text) → All (λ c. is_space c ≡ false) s → trim s ≡ s
unfolding trim
trim_solid s h = rw (trim_start-begins s (begins-All s h)) (
    ap reverse (trim_start-begins (reverse s) (begins-All (reverse s) (All-reverse s h)))
    ∙ reverse-reverse s)
