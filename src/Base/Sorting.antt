-- ===== src/Base/Sorting.antt =====
-- The order of JavaScript's strings, by code units, and its stable sort.
use Prim.Native.Nat.{ℕ, zero, suc}
use mathlib.Core.Path.{◌≡◌, refl}
use mathlib.Core.Logic.{inl, inr}
use mathlib.Core.Bool.{Bool, true, false, ◌&&◌, ◌||◌}
use mathlib.Core.List.{List, [], ◌∷◌, Perm}
use mathlib.Core.List.Perm
use native.Mathlib.Omega.{arith}
use closedloop_electron.Base.Tests.{ltb, ◌==◌, if◌then◌else◌, Bool-cases}
use closedloop_electron.Base.Lists.{
  All, take, drop, filter, All-map, All-drop, All-take, All-filter,
}
use closedloop_electron.Base.Texts.{Text, same}

-- The order of `sort()`: by code units.
pub text_lt : Text → Text → Bool
text_lt [] [] = false
text_lt [] (b ∷ t) = true
text_lt (a ∷ s) [] = false
text_lt (a ∷ s) (b ∷ t) = ltb a b || ((a == b) && text_lt s t)

-- A stable sort, by a test that says what comes strictly before what.
module _ {ℓ} {A : Type ℓ} (before : A → A → Bool) where
  unfoldable pub insert_by : A → List A → List A
  insert_by a [] = a ∷ []
  insert_by a (x ∷ xs) = if before x a then x ∷ insert_by a xs else a ∷ x ∷ xs

  unfoldable pub sort_by : List A → List A
  unfolding insert_by
  sort_by [] = []
  sort_by (x ∷ xs) = insert_by x (sort_by xs)

pub text_lt-asymm : (s t : Text) → text_lt s t ≡ true → text_lt t s ≡ false
unfolding text_lt
text_lt-asymm [] [] h = refl
text_lt-asymm [] (b ∷ t) h = refl
text_lt-asymm (a ∷ s) [] h = cc
text_lt-asymm (a ∷ s) (b ∷ t) h = ground (arith, text_lt-asymm s t)

-- Two texts of which neither is less are one.
pub text_lt-total : (s t : Text) → same s t ≡ false → text_lt s t ≡ false → text_lt t s ≡ true
unfolding text_lt same
text_lt-total [] [] e h = cc
text_lt-total [] (b ∷ t) e h = cc
text_lt-total (a ∷ s) [] e h = refl
text_lt-total (a ∷ s) (b ∷ t) e h = ground (arith, text_lt-total s t)

pub text_lt-between : (x s t : Text) → text_lt x s ≡ false → text_lt x t ≡ true → text_lt s t ≡ true
unfolding text_lt
text_lt-between [] [] t h k = k
text_lt-between [] (b ∷ s) t h k = cc
text_lt-between (a ∷ x) s [] h k = cc
text_lt-between (a ∷ x) [] (c ∷ t) h k = refl
text_lt-between (a ∷ x) (b ∷ s) (c ∷ t) h k = ground (arith, text_lt-between x s t)

module _ {ℓ} {A : Type ℓ} (before : A → A → Bool) where
  -- Nothing comes strictly before what stands ahead of it.
  abbrev pub SortedBy : List A → Type 0
  SortedBy [] = Unit
  SortedBy (x ∷ xs) = All (λ y. before y x ≡ false) xs × SortedBy xs

  pub insert_by-All {κ} :
      (P : A → Type κ) (x : A) (xs : List A) → P x → All P xs → All P (insert_by before x xs)
  unfolding insert_by
  insert_by-All P x [] h k = (h, tt)
  insert_by-All P x (y ∷ ys) h k = ground (arith, insert_by-All P x ys h k.1)

  pub sort_by-All {κ} : (P : A → Type κ) (xs : List A) → All P xs → All P (sort_by before xs)
  unfolding sort_by
  sort_by-All P [] h = tt
  sort_by-All P (x ∷ xs) h = insert_by-All P x (sort_by before xs) h.0 (sort_by-All P xs h.1)

  insert_by-Perm : (x : A) (xs : List A) → Perm (insert_by before x xs) (x ∷ xs)
  unfolding insert_by
  insert_by-Perm x [] = Perm.refl (x ∷ [])
  insert_by-Perm x (y ∷ ys) = elim (Bool-cases (before y x)) [
    | inl e ↦ rw (e, insert_by) (Perm.trans (Perm.cons y (insert_by-Perm x ys)) (Perm.swap x y ys))
    | inr e ↦ rw (e, insert_by) (Perm.refl (x ∷ y ∷ ys))
  ]

  pub sort_by-Perm : (xs : List A) → Perm (sort_by before xs) xs
  unfolding sort_by
  sort_by-Perm [] = Perm.refl []
  sort_by-Perm (x ∷ xs) =
      Perm.trans (insert_by-Perm x (sort_by before xs)) (Perm.cons x (sort_by-Perm xs))

  pub SortedBy-take-drop :
      (n : ℕ) (xs : List A)
      → SortedBy xs
      → All (λ x. All (λ y. before y x ≡ false) (drop n xs)) (take n xs)
  SortedBy-take-drop zero xs h = tt
  SortedBy-take-drop (suc n) [] h = tt
  SortedBy-take-drop (suc n) (x ∷ xs) h =
      (All-drop (λ y. before y x ≡ false) n xs h.0, SortedBy-take-drop n xs h.1)

  pub take-SortedBy : (n : ℕ) (xs : List A) → SortedBy xs → SortedBy (take n xs)
  take-SortedBy zero xs h = tt
  take-SortedBy (suc n) [] h = tt
  take-SortedBy (suc n) (x ∷ xs) h =
      (All-take (λ y. before y x ≡ false) n xs h.0, take-SortedBy n xs h.1)

  pub filter-SortedBy : (keep : A → Bool) (xs : List A) → SortedBy xs → SortedBy (filter keep xs)
  filter-SortedBy keep [] h = tt
  filter-SortedBy keep (x ∷ xs) h = elim (Bool-cases (keep x)) [
    | inl e ↦ rw e (All-filter (λ y. before y x ≡ false) keep xs h.0, filter-SortedBy keep xs h.1)
    | inr e ↦ rw e (filter-SortedBy keep xs h.1)
  ]

  -- For a test that is a strict order with ties.
  module _ (asymm : (x y : A) → before x y ≡ true → before y x ≡ false)
      (negative : (x y z : A) → before z y ≡ false → before y x ≡ false → before z x ≡ false) where
    insert_by-SortedBy : (x : A) (xs : List A) → SortedBy xs → SortedBy (insert_by before x xs)
    unfolding insert_by
    insert_by-SortedBy x [] h = (tt, tt)
    insert_by-SortedBy x (y ∷ ys) h = elim (Bool-cases (before y x)) [
      | inl e ↦
          rw (e, insert_by)
            (
              insert_by-All (λ z. before z y ≡ false) x ys (asymm y x e) h.0,
              insert_by-SortedBy x ys h.1,
            )
      | inr e ↦ rw (e, insert_by) ((e, All-map ys (λ z k. negative x y z k e) h.0), h)
    ]

    pub sort_by-SortedBy : (xs : List A) → SortedBy (sort_by before xs)
    unfolding sort_by
    sort_by-SortedBy [] = tt
    sort_by-SortedBy (x ∷ xs) = insert_by-SortedBy x (sort_by before xs) (sort_by-SortedBy xs)
