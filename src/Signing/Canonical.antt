-- ===== src/Signing/Canonical.antt =====
-- `stableStringify` of command-signature-verifier.ts: the order of an object's fields makes no
-- difference.
use closedloop_electron.Base.{
  insert_by, sort_by, text_lt-asymm, text_lt-total, text_lt-between, ◌≡◌, refl, ap, ◌∙◌, false,
  List, [], ◌∷◌, ◌++◌, map, Text, text, same, arith,
}
use closedloop_electron.Json.{ℤ, Json, obj, Fields, field}
use closedloop_electron.Signing.Stringify.{
  join_commas, key_before, member_text, stable_stringify, field_texts,
}

insert_by_comm :
    (a b : Text × Text) (xs : List (Text × Text))
    → same a.0 b.0 ≡ false
    → insert_by key_before a (insert_by key_before b xs)
      ≡ insert_by key_before b (insert_by key_before a xs)
unfolding insert_by
insert_by_comm a b [] e = ground (arith, text_lt-asymm a.0 b.0, text_lt-total a.0 b.0)
insert_by_comm a b (x ∷ xs) e = ground (
  arith,
  text_lt-asymm a.0 b.0,
  text_lt-total a.0 b.0,
  text_lt-between x.0 a.0 b.0,
  text_lt-between x.0 b.0 a.0,
  text_lt-asymm b.0 a.0,
  insert_by_comm a b xs,
)

-- The same fields in another order; only fields with different keys change places.
pub data Reordered : Fields → Fields → Type 0 where
  unchanged : {fs : Fields} → Reordered fs fs
  below :
      {fs gs : Fields} (k : Text) (v : Json)
      → Reordered fs gs
      → Reordered (field k v fs) (field k v gs)
  exchanged :
      {fs : Fields} (j k : Text) (v w : Json)
      → same j k ≡ false
      → Reordered (field j v (field k w fs)) (field k w (field j v fs))
  chained : {fs gs hs : Fields} → Reordered fs gs → Reordered gs hs → Reordered fs hs

module _ (quote : Text → Text) (print : ℤ → Text) where
  sorted_texts : Fields → List (Text × Text)
  sorted_texts fs = sort_by key_before (field_texts quote print fs)

  sorted_texts-eq : {fs gs : Fields} → Reordered fs gs → sorted_texts fs ≡ sorted_texts gs
  unfolding sorted_texts sort_by field_texts
  sorted_texts-eq unchanged = refl
  sorted_texts-eq (below k v r) =
      ap (insert_by key_before (k, stable_stringify quote print v)) (sorted_texts-eq r)
  sorted_texts-eq (exchanged {fs} j k v w e) =
      insert_by_comm (j, stable_stringify quote print v) (k, stable_stringify quote print w)
        (sorted_texts fs) e
  sorted_texts-eq (chained r s) = sorted_texts-eq r ∙ sorted_texts-eq s

  -- Two objects with the same fields in another order print as one text, so they have one hash.
  pub stable_stringify-Reordered :
      {fs gs : Fields}
      → Reordered fs gs
      → stable_stringify quote print (obj fs) ≡ stable_stringify quote print (obj gs)
  unfolding stable_stringify sorted_texts
  stable_stringify-Reordered r =
      ap
        (λ (ts : List (Text × Text)).
          text "{" ++ join_commas (map (member_text quote print) ts) ++ text "}")
        (sorted_texts-eq r)
