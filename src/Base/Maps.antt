-- ===== src/Base/Maps.antt =====
-- A JavaScript `Map` keyed by strings, in insertion order: a new key goes to the end, and an old
-- one keeps its place.
use Prim.Native.Nat.{◌+◌, ◌≤◌}
use mathlib.Core.Path.{◌≡◌, refl}
use mathlib.Core.Bool.{Bool}
use mathlib.Core.Option.{Option, none, some}
use mathlib.Core.List.{List, [], ◌∷◌}
use native.Mathlib.Omega.{arith}
use closedloop_electron.Base.Tests.{if◌then◌else◌, is_some}
use closedloop_electron.Base.Lists.{length, All, All-map}
use closedloop_electron.Base.Texts.{Text, same, same_iff, same_refl}

module _ {ℓ} {V : Type ℓ} where
  -- `m.get(k)`
  unfoldable pub lookup : Text → List (Text × V) → Option V
  lookup k [] = none
  lookup k ((j, v) ∷ m) = if same j k then some v else lookup k m

  -- `m.set(k, v)`
  unfoldable pub insert : Text → V → List (Text × V) → List (Text × V)
  insert k v [] = (k, v) ∷ []
  insert k v ((j, w) ∷ m) = if same j k then (j, v) ∷ m else (j, w) ∷ insert k v m

  -- `m.delete(k)`
  unfoldable pub delete : Text → List (Text × V) → List (Text × V)
  delete k [] = []
  delete k ((j, w) ∷ m) = if same j k then delete k m else (j, w) ∷ delete k m

  -- `m.has(k)`
  abbrev pub has : Text → List (Text × V) → Bool
  has k m = is_some (lookup k m)

  pub lookup-insert :
      (k j : Text) (v : V) (m : List (Text × V))
      → lookup j (insert k v m) ≡ (if same k j then some v else lookup j m)
  unfolding lookup insert
  lookup-insert k j v [] = refl
  lookup-insert k j v ((i, w) ∷ m) =
      ground (arith, same_iff k j, same_iff i k, same_iff i j, lookup-insert k j v m)

  pub lookup-delete :
      (k j : Text) (m : List (Text × V))
      → lookup j (delete k m) ≡ (if same k j then none else lookup j m)
  unfolding lookup delete
  lookup-delete k j [] = ground arith
  lookup-delete k j ((i, w) ∷ m) =
      ground (arith, same_iff k j, same_iff i k, same_iff i j, lookup-delete k j m)

  pub length-insert :
      (k : Text) (v : V) (m : List (Text × V)) → length (insert k v m) ≤ length m + 1
  unfolding insert
  length-insert k v [] = omega arith
  length-insert k v ((j, w) ∷ m) = ground (arith, length-insert k v m)

  pub length-insert_old :
      (k : Text) (v w : V) (m : List (Text × V))
      → lookup k m ≡ some w
      → length (insert k v m) ≡ length m
  unfolding lookup insert
  length-insert_old k v w [] h = cc
  length-insert_old k v w ((j, x) ∷ m) h = ground (arith, length-insert_old k v w m)

  pub length-delete-le : (k : Text) (m : List (Text × V)) → length (delete k m) ≤ length m
  unfolding delete
  length-delete-le k [] = omega arith
  length-delete-le k ((j, w) ∷ m) = ground (arith, length-delete-le k m)

  pub lookup-insert_self :
      (k : Text) (v : V) (m : List (Text × V)) → lookup k (insert k v m) ≡ some v
  lookup-insert_self k v m = simp (lookup-insert, same_refl)

  pub lookup-delete_self : (k : Text) (m : List (Text × V)) → lookup k (delete k m) ≡ none
  lookup-delete_self k m = simp (lookup-delete, same_refl)

  -- No key stands twice, as in every `Map`.
  abbrev pub IsMap : List (Text × V) → Type ℓ
  IsMap [] = Unit
  IsMap ((k, v) ∷ m) = (lookup k m ≡ none) × IsMap m

  pub insert-IsMap : (k : Text) (v : V) (m : List (Text × V)) → IsMap m → IsMap (insert k v m)
  unfolding insert lookup
  insert-IsMap k v [] h = (refl, tt)
  insert-IsMap k v ((j, w) ∷ m) h =
      ground (arith, same_iff j k, same_iff k j, lookup-insert k j v m, insert-IsMap k v m)

  pub delete-IsMap : (k : Text) (m : List (Text × V)) → IsMap m → IsMap (delete k m)
  unfolding delete
  delete-IsMap k [] h = tt
  delete-IsMap k ((j, w) ∷ m) h =
      ground (arith, same_iff j k, same_iff k j, lookup-delete k j m, delete-IsMap k m)

  -- Each entry of a map is what `get` finds under its key.
  abbrev pub IsEntryOf : List (Text × V) → Text × V → Type ℓ
  IsEntryOf m (k, v) = lookup k m ≡ some v

  IsEntryOf-cons :
      (j : Text) (w : V) (m : List (Text × V)) (e : Text × V)
      → lookup j m ≡ none
      → IsEntryOf m e
      → IsEntryOf ((j, w) ∷ m) e
  unfolding lookup
  IsEntryOf-cons j w m (k, v) h e = ground (arith, same_iff j k)

  pub IsMap-entries : (m : List (Text × V)) → IsMap m → All (IsEntryOf m) m
  unfolding lookup
  IsMap-entries [] h = tt
  IsMap-entries ((j, w) ∷ m) h =
      (rw (same_refl j), All-map m (λ e a. IsEntryOf-cons j w m e h.0 a) (IsMap-entries m h.1))
