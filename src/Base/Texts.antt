-- ===== src/Base/Texts.antt =====
-- JavaScript's strings: sequences of UTF-16 code units, with the methods that the program calls.
use Prim.Native.Nat.{ℕ, ◌+◌, ◌-◌}
use Prim.Native.Char.{code}
use Prim.Native.String.{String}
use mathlib.Core.Path.{◌≡◌, refl}
use mathlib.Core.Logic.{◌↔◌}
use mathlib.Core.Bool.{Bool, true, false, ◌&&◌, ◌||◌}
use mathlib.Core.List.{List, [], ◌∷◌, ◌++◌, reverse}
use native.Mathlib.Omega.{arith}
use closedloop_electron.Base.Tests.{leb, ◌==◌, if◌then◌else◌}

abbrev pub Text : Type 0
Text = List ℕ

-- A literal, of ASCII characters.
abbrev pub text : String → Text
text String.[] = []
text (String.◌∷◌ c s) = code c ∷ text s

-- `s === t`
unfoldable pub same : Text → Text → Bool
same [] [] = true
same (a ∷ s) (b ∷ t) = (a == b) && same s t
same _ _ = false

pub same_iff : (s t : Text) → (same s t ≡ true) ↔ (s ≡ t)
unfolding same
same_iff [] [] = ((λ _. refl), (λ _. refl))
same_iff [] (b ∷ t) = ((λ h. cc), (λ h. cc))
same_iff (a ∷ s) [] = ((λ h. cc), (λ h. cc))
same_iff (a ∷ s) (b ∷ t) =
    ((λ h. ground (arith, (same_iff s t).0)), (λ h. ground (arith, (same_iff s t).1)))

pub same_refl : (s : Text) → same s s ≡ true
same_refl s = (same_iff s s).1 refl

-- `s.length === 0`: an empty string is falsy.
abbrev pub is_empty : Text → Bool
is_empty [] = true
is_empty (a ∷ s) = false

-- `s.startsWith(p)`
unfoldable pub starts_with : Text → Text → Bool
starts_with s [] = true
starts_with [] (b ∷ p) = false
starts_with (a ∷ s) (b ∷ p) = (a == b) && starts_with s p

-- The white space and line terminators of ECMAScript, which `trim` removes.
unfoldable pub is_space : ℕ → Bool
is_space c =
    (leb 9 c && leb c 13)
    || (c == 32)
    || (c == 160)
    || (c == 0x1680)
    || (leb 0x2000 c && leb c 0x200a)
    || (c == 0x2028)
    || (c == 0x2029)
    || (c == 0x202f)
    || (c == 0x205f)
    || (c == 0x3000)
    || (c == 0xfeff)

unfoldable pub trim_start : Text → Text
unfolding is_space
trim_start [] = []
trim_start (c ∷ s) = if is_space c then trim_start s else c ∷ s

unfoldable pub trim : Text → Text
unfolding trim_start
trim s = reverse (trim_start (reverse (trim_start s)))

-- The upper case of one code unit. Beyond ASCII it is written out only where the result holds an
-- ASCII letter (the sharp s, the dotless i, the long s, the ligatures); another code unit stays, so
-- a comparison of the result with an ASCII word is exact.
unfoldable pub upper_unit : ℕ → Text
upper_unit c =
    if leb b'a' c && leb c b'z'
    then (c - 32) ∷ []
    else if c == 0xdf
    then b'S' ∷ b'S' ∷ []
    else if c == 0x131
    then b'I' ∷ []
    else if c == 0x17f
    then b'S' ∷ []
    else if c == 0xfb00
    then b'F' ∷ b'F' ∷ []
    else if c == 0xfb01
    then b'F' ∷ b'I' ∷ []
    else if c == 0xfb02
    then b'F' ∷ b'L' ∷ []
    else if c == 0xfb03
    then b'F' ∷ b'F' ∷ b'I' ∷ []
    else if c == 0xfb04
    then b'F' ∷ b'F' ∷ b'L' ∷ []
    else if (c == 0xfb05) || (c == 0xfb06)
    then b'S' ∷ b'T' ∷ []
    else c ∷ []

-- `s.toUpperCase()`
unfoldable pub to_upper : Text → Text
unfolding upper_unit
to_upper [] = []
to_upper (c ∷ s) = upper_unit c ++ to_upper s

abbrev lower_unit : ℕ → ℕ
lower_unit c = if leb b'A' c && leb c b'Z' then c + 32 else c

-- `s.toLowerCase()`, of a header's value; its other upper-case letters are not compared.
unfoldable pub to_lower : Text → Text
to_lower [] = []
to_lower (c ∷ s) = lower_unit c ∷ to_lower s

-- `s.includes(p)`
unfoldable pub includes : Text → Text → Bool
unfolding starts_with
includes [] p = starts_with [] p
includes (c ∷ s) p = starts_with (c ∷ s) p || includes s p
