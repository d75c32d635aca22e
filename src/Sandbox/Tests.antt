-- ===== src/Sandbox/Tests.antt =====
-- Decisions on paths, in a file system with the directory `/w` and nothing else.
use closedloop_electron.Base.{
  ◌≡◌, refl, inl, inr, true, none, some, List, [], ◌∷◌, ◌++◌, Text, text, same, starts_with, All,
  arith, if◌then◌else◌,
}
use closedloop_electron.Sandbox.Paths.{
  System, expand_home_path, probe_from, resolve_with_nearest_realpath, canonicalize_path_for_policy,
  with_sep, is_inside, is_sensitive_denied_path, sensitive_deny_paths, is_in_some, is_path_allowed,
}
use closedloop_electron.Sandbox.Inside.{
  InSome, IsApart, is_path_allowed-InSome, IsParent, IsNearest, probe_from-IsNearest,
}

abbrev concat : List Text → Text
concat [] = []
concat (t ∷ []) = t
concat (t ∷ u ∷ ts) = t ++ b'/' ∷ concat (u ∷ ts)

-- The parent of a path with one name; that of any other path is the path.
abbrev parent : Text → Text
parent (a ∷ b ∷ []) = a ∷ []
parent (a ∷ b ∷ c ∷ d ∷ []) = a ∷ b ∷ []
parent q = q

abbrev name : Text → Text
name (a ∷ b ∷ c ∷ d ∷ []) = d ∷ []
name q = q

abbrev disk : System
disk = record {
  homedir = text "/h";
  sep = text "/";
  lower = λ t. t;
  resolve = λ t. t;
  join = concat;
  dirname = parent;
  basename = name;
  exists = λ t. same t (text "/w");
  realpath = λ t. if same t (text "/w") then some t else none;
}

new_file-allowed : is_path_allowed disk (text "/w/f") (text "/w" ∷ []) ≡ true
unfolding is_path_allowed is_in_some is_sensitive_denied_path is_inside with_sep
    canonicalize_path_for_policy resolve_with_nearest_realpath probe_from expand_home_path same
    starts_with
new_file-allowed = refl

is_path_allowed-InSome_example :
    InSome disk (canonicalize_path_for_policy disk (text "/w/f")) (text "/w" ∷ [])
    × All (IsApart disk (text "/w/f")) (sensitive_deny_paths disk)
    × All
        (IsApart disk (canonicalize_path_for_policy disk (text "/w/f")))
        (sensitive_deny_paths disk)
unfolding expand_home_path same starts_with
is_path_allowed-InSome_example =
    is_path_allowed-InSome disk (text "/w/f") (text "/w" ∷ []) new_file-allowed

disk-IsParent : (q : Text) → starts_with q (text "/") ≡ true → IsParent disk q (disk.dirname q)
unfolding starts_with
disk-IsParent [] h = inl refl
disk-IsParent (a ∷ []) h = inl refl
disk-IsParent (a ∷ b ∷ []) h = inr (omega arith, ground arith)
disk-IsParent (a ∷ b ∷ c ∷ []) h = inl refl
disk-IsParent (a ∷ b ∷ c ∷ d ∷ []) h = inr (omega arith, ground arith)
disk-IsParent (a ∷ b ∷ c ∷ d ∷ e ∷ q) h = inl refl

probe_from-IsNearest_example : IsNearest disk (text "/w/f") [] (probe_from disk 5 (text "/w/f") [])
unfolding starts_with
probe_from-IsNearest_example = probe_from-IsNearest disk disk-IsParent (text "/w/f") refl
