-- ===== src/Sandbox/Inside.antt =====
-- What `isPathAllowed` of security.ts lets through, and the loop over the parents of a path.
use closedloop_electron.Base.{
  ℕ, zero, suc, ◌<◌, ◌≡◌, refl, ◌⊎◌, inl, inr, true, false, List, [], ◌∷◌, ◌++◌, Text, same,
  same_iff, starts_with, length, arith, Bool-cases, reverse, sym, ap, ◌∙◌, All,
}
use mathlib.Core.List.{append_assoc, reverse-append, reverse-reverse}
use closedloop_electron.Sandbox.Paths.{
  System, Probe, found, at_root, out_of_fuel, expand_home_path, probe_from,
  canonicalize_path_for_policy, with_sep, is_inside, is_sensitive_denied_path, sensitive_deny_paths,
  is_in_some, is_path_allowed,
}

starts_with-split : (s p : Text) → starts_with s p ≡ true → (rest : Text) × (s ≡ p ++ rest)
unfolding starts_with
starts_with-split s [] h = (s, refl)
starts_with-split [] (b ∷ p) h = absurd (cc)
starts_with-split (a ∷ s) (b ∷ p) h =
    let (rest, e) = starts_with-split s p (ground arith) in
    let head : a ≡ b = ground arith in (rest, λ i. head i ∷ e i)

starts_with-append : (p rest : Text) → starts_with (p ++ rest) p ≡ true
unfolding starts_with
starts_with-append [] rest = refl
starts_with-append (c ∷ p) rest = ground (arith, starts_with-append p rest)

starts_with-of : (t p rest : Text) → t ≡ p ++ rest → starts_with t p ≡ true
starts_with-of t p rest e = rw e (starts_with-append p rest)

-- `endsWith`, as it is written with `startsWith` on the reversed texts.
ends_with-split :
    (d p : Text) → starts_with (reverse d) (reverse p) ≡ true → (front : Text) × (d ≡ front ++ p)
ends_with-split d p h =
    let (rest, e) = starts_with-split (reverse d) (reverse p) h in
    (
      reverse rest,
      sym (reverse-reverse d)
          ∙ ap reverse e
          ∙ reverse-append (reverse p) rest
          ∙ ap (λ q. reverse rest ++ q) (reverse-reverse p),
    )

ends_with-append : (front p : Text) → starts_with (reverse (front ++ p)) (reverse p) ≡ true
ends_with-append front p =
    rw (reverse-append front p) (starts_with-append (reverse p) (reverse front))

module _ (s : System) where
  -- The directory itself; or the directory, a separator and more; or a directory that ends with a
  -- separator, and more.
  abbrev pub IsBelow : Text → Text → Type 0
  IsBelow directory target =
      (target ≡ directory)
      ⊎ (((rest : Text) × (target ≡ directory ++ s.sep ++ rest))
          ⊎ ((front : Text) × (rest : Text) × (directory ≡ front ++ s.sep)
              × (target ≡ directory ++ rest)))

  is_inside-IsBelow :
      (directory target : Text) → is_inside s directory target ≡ true → IsBelow directory target
  unfolding is_inside with_sep
  is_inside-IsBelow directory target h = elim (Bool-cases (same target directory)) [
    | inl e ↦ inl ((same_iff target directory).0 e)
    | inr e ↦ elim (Bool-cases (starts_with (reverse directory) (reverse s.sep))) [
      | inl f ↦
          let (front, ends) = ends_with-split directory s.sep f in
          let (rest, below) = starts_with-split target directory (ground arith) in
          inr (inr (front, rest, ends, below))
      | inr f ↦
          let (rest, below) = starts_with-split target (directory ++ s.sep) (ground arith) in
          inr (inl (rest, below))
    ]
  ]

  IsBelow-is_inside :
      (directory target : Text) → IsBelow directory target → is_inside s directory target ≡ true
  unfolding is_inside with_sep
  IsBelow-is_inside directory target (inl e) = ground (arith, same_iff target directory)
  IsBelow-is_inside directory target (inr (inl (rest, e))) = ground (
    arith,
    starts_with-of target directory (s.sep ++ rest) (e ∙ append_assoc directory s.sep rest),
    starts_with-of target (directory ++ s.sep) rest e,
  )
  IsBelow-is_inside directory target (inr (inr (front, rest, d, e))) =
      let ends : starts_with (reverse directory) (reverse s.sep) ≡ true =
        rw d (ends_with-append front s.sep) in
      ground (arith, ends, starts_with-of target directory rest e)

  -- One of the directories is above the path.
  pub data InSome (target : Text) : List Text → Type 0 where
    here :
        {d : Text} {ds : List Text}
        → IsBelow (canonicalize_path_for_policy s d) target
        → InSome target (d ∷ ds)
    later : {d : Text} {ds : List Text} → InSome target ds → InSome target (d ∷ ds)

  is_in_some-InSome :
      (ds : List Text) (target : Text) → is_in_some s ds target ≡ true → InSome target ds
  unfolding is_in_some
  is_in_some-InSome [] target h = absurd (cc)
  is_in_some-InSome (d ∷ ds) target h =
      elim (Bool-cases (is_inside s (canonicalize_path_for_policy s d) target)) [
        | inl e ↦ here (is_inside-IsBelow (canonicalize_path_for_policy s d) target e)
        | inr e ↦ later (is_in_some-InSome ds target (ground arith))
      ]

  -- In lower case, the path is neither the other one nor below it, nor what that one resolves to or
  -- below that.
  abbrev pub IsApart : Text → Text → Type 0
  IsApart target blocked =
      (¬ IsBelow (s.lower blocked) (s.lower target))
      × (¬ IsBelow (s.lower (canonicalize_path_for_policy s blocked)) (s.lower target))

  is_sensitive_denied_path-IsApart :
      (blocked : List Text) (target : Text)
      → is_sensitive_denied_path s blocked target ≡ false
      → All (IsApart target) blocked
  unfolding is_sensitive_denied_path
  is_sensitive_denied_path-IsApart [] target h = tt
  is_sensitive_denied_path-IsApart (b ∷ bs) target h =
      let real = canonicalize_path_for_policy s b in
      (
        (
          λ k. absurd (ground (arith, IsBelow-is_inside (s.lower b) (s.lower target) k)),
          λ k. absurd (ground (arith, IsBelow-is_inside (s.lower real) (s.lower target) k)),
        ),
        is_sensitive_denied_path-IsApart bs target (ground arith),
      )

  -- A path that is allowed resolves to one of the resolved directories, or to a path below it: with
  -- a separator behind the directory, unless it ends with one. In lower case, neither the absolute
  -- path nor what it resolves to is one of the sensitive paths, nor what one of these resolves to,
  -- nor below them.
  pub is_path_allowed-InSome :
      (target : Text) (allowed : List Text)
      → is_path_allowed s target allowed ≡ true
      → InSome (canonicalize_path_for_policy s target) allowed
        × All (IsApart (s.resolve (expand_home_path s target))) (sensitive_deny_paths s)
        × All (IsApart (canonicalize_path_for_policy s target)) (sensitive_deny_paths s)
  unfolding is_path_allowed
  is_path_allowed-InSome target allowed h = (
    is_in_some-InSome allowed (canonicalize_path_for_policy s target) (ground arith),
    is_sensitive_denied_path-IsApart (sensitive_deny_paths s)
        (s.resolve (expand_home_path s target)) (ground arith),
    is_sensitive_denied_path-IsApart (sensitive_deny_paths s)
        (canonicalize_path_for_policy s target) (ground arith),
  )

  -- Without allowed directories every path is refused.
  pub is_path_allowed-nil : (target : Text) → is_path_allowed s target [] ≡ false
  unfolding is_path_allowed is_in_some
  is_path_allowed-nil target = ground arith

  -- The nearest path above one that exists, and the names that lead down from it.
  pub data Nearest : Text → List Text → Text → List Text → Type 0 where
    exists_here : {q : Text} {names : List Text} → s.exists q ≡ true → Nearest q names q names
    exists_above :
        {q base : Text} {names all_names : List Text}
        → s.exists q ≡ false
        → Nearest (s.dirname q) (s.basename q ∷ names) base all_names
        → Nearest q names base all_names

  -- Neither the path nor any path above it exists, up to one that is its own parent.
  pub data IsMissing : Text → Type 0 where
    missing_root : {q : Text} → s.exists q ≡ false → s.dirname q ≡ q → IsMissing q
    missing_above : {q : Text} → s.exists q ≡ false → IsMissing (s.dirname q) → IsMissing q

  abbrev pub IsNearest : Text → List Text → Probe → Type 0
  IsNearest q names (found base all_names) = Nearest q names base all_names
  IsNearest q names at_root = IsMissing q
  IsNearest q names out_of_fuel = ⊥

  IsNearest-above :
      (q : Text) (names : List Text) (r : Probe)
      → s.exists q ≡ false
      → IsNearest (s.dirname q) (s.basename q ∷ names) r
      → IsNearest q names r
  IsNearest-above q names (found base all_names) e h = exists_above e h
  IsNearest-above q names at_root e h = missing_above e h
  IsNearest-above q names out_of_fuel e h = h

  -- What node:path does with the parent of an absolute path.
  abbrev pub IsParent : Text → Text → Type 0
  IsParent q parent =
      (parent ≡ q) ⊎ ((length parent < length q) × (starts_with parent s.sep ≡ true))

  module _ (shorter : (q : Text) → starts_with q s.sep ≡ true → IsParent q (s.dirname q)) where
    climb :
        (n : ℕ) (q : Text) (names : List Text)
        → starts_with q s.sep ≡ true
        → length q < n
        → IsNearest q names (probe_from s n q names)
    unfolding probe_from
    climb zero q names a h = absurd (omega arith)
    climb (suc n) q names a h = elim (Bool-cases (s.exists q)) [
      | inl e ↦ rw e (exists_here e)
      | inr e ↦ elim (Bool-cases (same (s.dirname q) q)) [
        | inl k ↦ rw (e, k) (missing_root e ((same_iff (s.dirname q) q).0 k))
        | inr k ↦ elim (shorter q a) [
          | inl same_path ↦ absurd (ground (arith, same_iff (s.dirname q) q))
          | inr (less, b) ↦
              rw (e, k)
                (IsNearest-above q names (probe_from s n (s.dirname q) (s.basename q ∷ names)) e
                  (climb n (s.dirname q) (s.basename q ∷ names) b (omega arith)))
        ]
      ]
    ]

    -- Where the parent of an absolute path is the path itself or a shorter absolute path, the loop
    -- over the parents ends within the fuel that `resolveWithNearestRealpath` is given here, at the
    -- nearest path that exists, with the names that lead down from it, or at a path that is its own
    -- parent, and then neither the path nor any above it exists.
    pub probe_from-IsNearest :
        (q : Text)
        → starts_with q s.sep ≡ true
        → IsNearest q [] (probe_from s (suc (length q)) q [])
    probe_from-IsNearest q a = climb (suc (length q)) q [] a (omega arith)
