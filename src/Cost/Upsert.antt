-- ===== src/Cost/Upsert.antt =====
-- `upsert` and `prune` of reconciliation-store.ts: what a store holds after them.
use closedloop_electron.Base.{
  ℕ, ◌≤◌, ◌≡◌, refl, Bool, true, false, none, some, List, [], ◌∷◌, Text, same, same_iff, is_empty,
  lookup, insert, IsMap, insert-IsMap, All, All-filter, All-take, All-kept, filter, length,
  length-take, SortedBy, sort_by, insert_by, insert_by-All, sort_by-All, take-SortedBy,
  filter-SortedBy, leb, leb→le, arith, Bool-cases, Option-cases, inl, inr,
}
use closedloop_electron.Json.{Json, obj}
use closedloop_electron.Cost.Rows.{
  Row, RowStore, is_iso_day, sanitize_row, sanitize_all, row_key, row_before, within, prune,
  persist, values, index_rows, upsert,
}

-- The texts of a row are there, and its day is one.
abbrev pub IsRow : Row → Type 0
IsRow r =
    (is_iso_day r.day ≡ true)
    × (is_empty r.vendor ≡ false)
    × (is_empty r.model ≡ false)
    × (is_empty r.computed_at ≡ false)

sanitize_row-IsRow : (v : Json) (r : Row) → sanitize_row v ≡ some r → IsRow r
unfolding sanitize_row
sanitize_row-IsRow (obj fs) r h = ground arith
sanitize_row-IsRow _ r h = cc

sanitize_all-IsRow : (vs : List Json) → All IsRow (sanitize_all vs)
unfolding sanitize_all
sanitize_all-IsRow [] = tt
sanitize_all-IsRow (v ∷ vs) = elim (Option-cases (sanitize_row v)) [
  | inl e ↦ rw (e, sanitize_all) (sanitize_all-IsRow vs)
  | inr (r, e) ↦ rw (e, sanitize_all) (sanitize_row-IsRow v r e, sanitize_all-IsRow vs)
]

abbrev same_key : Row → Row → Bool
same_key a b = same (row_key a) (row_key b)

-- No day, vendor and model twice.
abbrev pub DistinctKeys : List Row → Type 0
DistinctKeys = SortedBy same_key

-- An entry of the map of rows: a row under its key.
abbrev IsKeyed : Text × Row → Type 0
IsKeyed (k, r) = (k ≡ row_key r) × IsRow r

insert-IsKeyed :
    (r : Row) (m : List (Text × Row))
    → IsRow r
    → All IsKeyed m
    → All IsKeyed (insert (row_key r) r m)
unfolding insert
insert-IsKeyed r [] h k = ((refl, h), tt)
insert-IsKeyed r ((j, x) ∷ m) h k = ground (arith, same_iff j (row_key r), insert-IsKeyed r m h k.1)

index_rows-IsMap : (rs : List Row) (m : List (Text × Row)) → IsMap m → IsMap (index_rows rs m)
unfolding index_rows
index_rows-IsMap [] m h = h
index_rows-IsMap (r ∷ rs) m h = index_rows-IsMap rs _ (insert-IsMap (row_key r) r m h)

index_rows-IsKeyed :
    (rs : List Row) (m : List (Text × Row))
    → All IsRow rs
    → All IsKeyed m
    → All IsKeyed (index_rows rs m)
unfolding index_rows
index_rows-IsKeyed [] m h k = k
index_rows-IsKeyed (r ∷ rs) m h k = index_rows-IsKeyed rs _ h.1 (insert-IsKeyed r m h.0 k)

values-other :
    (k : Text) (r : Row) (m : List (Text × Row))
    → k ≡ row_key r
    → lookup k m ≡ none
    → All IsKeyed m
    → All (λ x. same_key x r ≡ false) (values m)
unfolding lookup
values-other k r [] e h v = tt
values-other k r ((j, x) ∷ m) e h v = ground (arith, values-other k r m e)

values-DistinctKeys : (m : List (Text × Row)) → IsMap m → All IsKeyed m → DistinctKeys (values m)
values-DistinctKeys [] h v = tt
values-DistinctKeys ((k, r) ∷ m) h v =
    (values-other k r m v.0.0 h.0 v.1, values-DistinctKeys m h.1 v.1)

values-IsRow : (m : List (Text × Row)) → All IsKeyed m → All IsRow (values m)
values-IsRow [] v = tt
values-IsRow ((k, r) ∷ m) v = (v.0.1, values-IsRow m v.1)

insert_by-DistinctKeys :
    (r : Row) (rs : List Row)
    → All (λ x. same_key x r ≡ false) rs
    → DistinctKeys rs
    → DistinctKeys (insert_by row_before r rs)
unfolding insert_by
insert_by-DistinctKeys r [] h d = (tt, tt)
insert_by-DistinctKeys r (x ∷ rs) h d = elim (Bool-cases (row_before x r)) [
  | inl e ↦
      rw (e, insert_by)
        (
          insert_by-All row_before (λ y. same_key y x ≡ false) r rs
              (ground
                (arith, h.0, same_iff (row_key r) (row_key x), same_iff (row_key x) (row_key r)))
              d.0,
          insert_by-DistinctKeys r rs h.1 d.1,
        )
  | inr e ↦ rw (e, insert_by) (h, d)
]

sort_by-DistinctKeys : (rs : List Row) → DistinctKeys rs → DistinctKeys (sort_by row_before rs)
unfolding sort_by
sort_by-DistinctKeys [] d = tt
sort_by-DistinctKeys (r ∷ rs) d =
    insert_by-DistinctKeys r (sort_by row_before rs)
      (sort_by-All row_before (λ x. same_key x r ≡ false) rs d.0) (sort_by-DistinctKeys rs d.1)

pub record IsTidy (s : RowStore) : Type 0 where
  pub distinct : DistinctKeys s.rows
  pub clean : All IsRow s.rows
  pub bounded : length s.rows ≤ s.max_entries

prune-DistinctKeys :
    (n : ℕ) (cutoff : Text) (rs : List Row) → DistinctKeys rs → DistinctKeys (prune n cutoff rs)
unfolding prune
prune-DistinctKeys n cutoff rs d =
    let kept = filter (within cutoff) rs in
    let e : DistinctKeys kept = filter-SortedBy same_key (within cutoff) rs d in
    elim (Bool-cases (leb (length kept) n)) [
      | inl fits ↦ rw (fits, prune) e
      | inr over ↦
          rw (over, prune)
            (take-SortedBy same_key n (sort_by row_before kept) (sort_by-DistinctKeys kept e))
    ]

prune-All :
    (P : Row → Type 0) (n : ℕ) (cutoff : Text) (rs : List Row)
    → All P (filter (within cutoff) rs)
    → All P (prune n cutoff rs)
unfolding prune
prune-All P n cutoff rs h =
    let kept = filter (within cutoff) rs in
    elim (Bool-cases (leb (length kept) n)) [
      | inl fits ↦ rw (fits, prune) h
      | inr over ↦
          rw (over, prune)
            (All-take P n (sort_by row_before kept) (sort_by-All row_before P kept h))
    ]

length-prune : (n : ℕ) (cutoff : Text) (rs : List Row) → length (prune n cutoff rs) ≤ n
unfolding prune
length-prune n cutoff rs =
    let kept = filter (within cutoff) rs in
    ground (arith, length-take n (sort_by row_before kept), leb→le (length kept) n)

-- `upsert` takes a well-formed store to a well-formed one (no day, vendor and model twice, only rows
-- that are complete, at most `max_entries`), whatever it is given, with no row older than the cutoff;
-- the disk holds the rows.
pub upsert-IsTidy :
    (cutoff : Text) (incoming : List Json) (s : RowStore)
    → IsTidy s
    → IsTidy (upsert cutoff incoming s).0
      × All (λ r. within cutoff r ≡ true) (upsert cutoff incoming s).0.rows
      × ((upsert cutoff incoming s).0.disk ≡ (upsert cutoff incoming s).0.rows)
unfolding upsert persist
upsert-IsTidy cutoff incoming s v =
    let old = index_rows s.rows [] in
    let m = index_rows (sanitize_all incoming) old in
    let keyed =
      index_rows-IsKeyed (sanitize_all incoming) old (sanitize_all-IsRow incoming)
        (index_rows-IsKeyed s.rows [] v.clean tt) in
    let once = index_rows-IsMap (sanitize_all incoming) old (index_rows-IsMap s.rows [] tt) in
    (
      record {
        distinct =
            prune-DistinctKeys s.max_entries cutoff (values m) (values-DistinctKeys m once keyed);
        clean =
            prune-All IsRow s.max_entries cutoff (values m)
              (All-filter IsRow (within cutoff) (values m) (values-IsRow m keyed));
        bounded = length-prune s.max_entries cutoff (values m);
      },
      prune-All (λ r. within cutoff r ≡ true) s.max_entries cutoff (values m)
          (All-kept (within cutoff) (values m)),
      refl,
    )
