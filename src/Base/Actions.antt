-- ===== src/Base/Actions.antt =====
-- Actions on a state that may throw: `none` stands for an exception, and the state is kept.
use mathlib.Core.Option.{Option, none, some}

abbrev pub Effect : Type 0 → Type 0 → Type 0
Effect S A = S → Option A × S

infixl 5 ◌>>=◌
abbrev pub resume : {S A B : Type 0} → Option A × S → (A → Effect S B) → Option B × S
resume (none, w) k = (none, w)
resume (some a, w) k = k a w

abbrev pub ◌>>=◌ : {S A B : Type 0} → Effect S A → (A → Effect S B) → Effect S B
(m >>= k) w = resume (m w) k

abbrev pub pure : {S A : Type 0} → A → Effect S A
pure a w = (some a, w)
