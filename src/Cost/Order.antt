-- ===== src/Cost/Order.antt =====
-- The order of the rows of reconciliation-store.ts.
use closedloop_electron.Base.{
  ℕ, zero, suc, ◌≡◌, refl, sym, ap, ◌∙◌, ◌++◌, length, leb, Bool, true, false, not, List, [], ◌∷◌,
  Text, same, same_iff, text_lt, text_lt-asymm, text_lt-total, text_lt-between, SortedBy, sort_by,
  sort_by-SortedBy, sort_by-Perm, SortedBy-take-drop, All, take, drop, filter, arith, if◌then◌else◌,
  Bool-cases, inl, inr,
}
use mathlib.Core.List.{Perm, append-nil}
use mathlib.Core.List.Perm
use closedloop_electron.Cost.Rows.{Row, RowStore, Query, row_before, matches, list, prune, within}

text_lt-negative : (x y z : Text) → text_lt z y ≡ false → text_lt y x ≡ false → text_lt z x ≡ false
text_lt-negative x y z h k = ground (arith, text_lt-between z y x)

-- One part of a key, and what decides if it is the same.
lex : Text → Text → Bool → Bool
lex a b rest = if not (same a b) then text_lt a b else rest

lex-asymm :
    (a b : Text) (r t : Bool) → (r ≡ true → t ≡ false) → lex a b r ≡ true → lex b a t ≡ false
unfolding lex
lex-asymm a b r t h e = ground (arith, h, same_iff a b, same_iff b a, text_lt-asymm a b)

lex-negative :
    (x y z : Text) (r t u : Bool)
    → (r ≡ false → t ≡ false → u ≡ false)
    → lex z y r ≡ false
    → lex y x t ≡ false
    → lex z x u ≡ false
unfolding lex
lex-negative x y z r t u h e k = ground (
  arith,
  h,
  same_iff z y,
  same_iff y x,
  same_iff z x,
  text_lt-negative x y z,
  text_lt-total z y,
  text_lt-total y x,
)

-- The days stand the other way round.
lex-day :
    (x y z : Row) (r t u : Bool)
    → (r ≡ false → t ≡ false → u ≡ false)
    → lex y.day z.day r ≡ false
    → lex x.day y.day t ≡ false
    → lex x.day z.day u ≡ false
lex-day x y z r t u h e k = lex-negative z.day y.day x.day t r u (λ p q. h q p) k e

row_before-lex :
    (a b : Row)
    → row_before a b ≡ lex b.day a.day (lex a.vendor b.vendor (lex a.model b.model false))
unfolding row_before lex
row_before-lex a b = ground (
  arith,
  same_iff a.day b.day,
  same_iff b.day a.day,
  text_lt-total a.day b.day,
  text_lt-asymm a.day b.day,
)

row_before-asymm : (a b : Row) → row_before a b ≡ true → row_before b a ≡ false
row_before-asymm a b h =
    row_before-lex b a
    ∙ lex-asymm b.day a.day _ _
        (λ p.
          lex-asymm a.vendor b.vendor _ _ (λ q. lex-asymm a.model b.model false false (λ e. refl) q)
            p)
        (sym (row_before-lex a b) ∙ h)

row_before-negative :
    (x y z : Row) → row_before z y ≡ false → row_before y x ≡ false → row_before z x ≡ false
row_before-negative x y z h k =
    row_before-lex z x
    ∙ lex-day x y z _ _ _
        (λ p q.
          lex-negative x.vendor y.vendor z.vendor _ _ _
            (λ u v. lex-negative x.model y.model z.model false false false (λ _ _. refl) u v) p q)
        (sym (row_before-lex z y) ∙ h) (sym (row_before-lex y x) ∙ k)

-- `list` gives exactly the rows that the query admits, newest day first, and within a day by vendor
-- and model.
pub list_lem :
    (q : Query) (s : RowStore)
    → SortedBy row_before (list q s) × Perm (list q s) (filter (matches q) s.rows)
unfolding list
list_lem q s = (
  sort_by-SortedBy row_before row_before-asymm row_before-negative (filter (matches q) s.rows),
  sort_by-Perm row_before (filter (matches q) s.rows),
)

take-append-drop : (n : ℕ) (rs : List Row) → take n rs ++ drop n rs ≡ rs
take-append-drop zero rs = refl
take-append-drop (suc n) [] = refl
take-append-drop (suc n) (r ∷ rs) = ap (λ (x : List Row). r ∷ x) (take-append-drop n rs)

-- What the size limit drops.
abbrev pub left_out : ℕ → Text → List Row → List Row
left_out n cutoff rows =
    let kept = filter (within cutoff) rows in
    if leb (length kept) n then [] else drop n (sort_by row_before kept)

none_newer : (rs : List Row) → All (λ r. All (λ d. row_before d r ≡ false) []) rs
none_newer [] = tt
none_newer (r ∷ rs) = (tt, none_newer rs)

-- The rows that pruning keeps, with those that the size limit drops, are exactly the rows that are not
-- older than the cutoff; no dropped row stands before a kept one in the order of display.
pub prune_lem :
    (n : ℕ) (cutoff : Text) (rows : List Row)
    → Perm (prune n cutoff rows ++ left_out n cutoff rows) (filter (within cutoff) rows)
      × All (λ r. All (λ d. row_before d r ≡ false) (left_out n cutoff rows)) (prune n cutoff rows)
unfolding prune
prune_lem n cutoff rows =
    let kept = filter (within cutoff) rows in
    let sorted = sort_by row_before kept in
    elim (Bool-cases (leb (length kept) n)) [
      | inl fits ↦ rw (fits, prune) (rw (append-nil kept) (Perm.refl kept), none_newer kept)
      | inr over ↦
          rw (over, prune)
            (
              rw (take-append-drop n sorted) (sort_by-Perm row_before kept),
              SortedBy-take-drop row_before n sorted
                  (sort_by-SortedBy row_before row_before-asymm row_before-negative kept),
            )
    ]
