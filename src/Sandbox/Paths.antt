-- ===== src/Sandbox/Paths.antt =====
-- `isPathAllowed` of security.ts with what it calls. The functions of node:path, node:fs and node:os
-- are the record `System`; the file system does not change during a call.
use closedloop_electron.Base.{
  ℕ, zero, suc, Bool, false, ◌||◌, Option, none, some, List, [], ◌∷◌, ◌++◌, Text, text, same,
  starts_with, trim, is_empty, reverse, length, drop, if◌then◌else◌,
}

pub record System : Type 0 where
  pub homedir : Text
  pub sep : Text
  -- `toLowerCase`
  pub lower : Text → Text
  pub resolve : Text → Text
  pub join : List Text → Text
  pub dirname : Text → Text
  pub basename : Text → Text
  pub exists : Text → Bool
  -- `realpathSync.native`, `none` if it throws
  pub realpath : Text → Option Text

-- What the loop of `resolveWithNearestRealpath` finds.
pub data Probe : Type 0 where
  found : Text → List Text → Probe
  at_root out_of_fuel : Probe

module _ (s : System) where
  unfoldable pub expand_home_path : Text → Text
  expand_home_path input =
      if same input (text "~")
      then s.homedir
      else if starts_with input (text "~/")
      then s.join (s.homedir ∷ drop 2 input ∷ [])
      else input

  -- The loop, from a path and the names that were taken off it.
  unfoldable pub probe_from : ℕ → Text → List Text → Probe
  probe_from zero probe remainder = out_of_fuel
  probe_from (suc n) probe remainder =
      let next = probe_from n (s.dirname probe) (s.basename probe ∷ remainder) in
      if s.exists probe
      then found probe remainder
      else if same (s.dirname probe) probe
      then at_root
      else next

  abbrev pub join_found : Text → Probe → Text
  join_found absolute (found base remainder) = elim (s.realpath base) [
    | none ↦ absolute
    | some canonical ↦ s.join (canonical ∷ remainder)
  ]
  join_found absolute _ = absolute

  -- The loop has fuel for as many steps as the path has units.
  unfoldable pub resolve_with_nearest_realpath : Text → Text
  unfolding probe_from
  resolve_with_nearest_realpath absolute = elim (s.realpath absolute) [
    | some canonical ↦ canonical
    | none ↦ join_found absolute (probe_from (suc (length absolute)) absolute [])
  ]

  unfoldable pub canonicalize_path_for_policy : Text → Text
  unfolding expand_home_path resolve_with_nearest_realpath
  canonicalize_path_for_policy input =
      resolve_with_nearest_realpath (s.resolve (expand_home_path input))

  -- `directory` with the separator at its end.
  unfoldable pub with_sep : Text → Text
  with_sep directory =
      if starts_with (reverse directory) (reverse s.sep) then directory else directory ++ s.sep

  -- The directory itself, or a path that starts with it and a separator.
  unfoldable pub is_inside : Text → Text → Bool
  unfolding with_sep
  is_inside directory target = same target directory || starts_with target (with_sep directory)

  -- `isSensitiveDeniedPath`, for the given `SENSITIVE_DENY_PATHS`.
  unfoldable pub is_sensitive_denied_path : List Text → Text → Bool
  unfolding is_inside canonicalize_path_for_policy
  is_sensitive_denied_path [] target = false
  is_sensitive_denied_path (blocked ∷ rest) target =
      is_inside (s.lower blocked) (s.lower target)
      || is_inside (s.lower (canonicalize_path_for_policy blocked)) (s.lower target)
      || is_sensitive_denied_path rest target

  -- The loop over the allowed directories.
  unfoldable pub is_in_some : List Text → Text → Bool
  unfolding is_inside canonicalize_path_for_policy
  is_in_some [] target = false
  is_in_some (allowed ∷ rest) target =
      is_inside (canonicalize_path_for_policy allowed) target || is_in_some rest target

  abbrev pub sensitive_deny_paths : List Text
  sensitive_deny_paths =
      s.join (s.homedir ∷ text ".ssh" ∷ [])
      ∷ s.join (s.homedir ∷ text ".gnupg" ∷ [])
      ∷ s.join (s.homedir ∷ text ".aws" ∷ [])
      ∷ s.join (s.homedir ∷ text "Library" ∷ text "Keychains" ∷ [])
      ∷ text "/etc"
      ∷ text "/bin"
      ∷ text "/sbin"
      ∷ []

  unfoldable pub is_path_allowed : Text → List Text → Bool
  unfolding is_sensitive_denied_path is_in_some
  is_path_allowed target allowed =
      let expanded = s.resolve (expand_home_path target) in
      let resolved = canonicalize_path_for_policy target in
      if is_sensitive_denied_path sensitive_deny_paths expanded
        || is_sensitive_denied_path sensitive_deny_paths resolved
      then false
      else is_in_some allowed resolved

  -- `normalizeScopePath`
  pub normalize_scope_path : Option Text → Option Text
  normalize_scope_path none = none
  normalize_scope_path (some value) =
      if is_empty (trim value) then none else some (s.resolve (expand_home_path (trim value)))

  abbrev sandbox_list : Option Text → List Text
  sandbox_list none = []
  sandbox_list (some sandbox) = if is_empty sandbox then [] else sandbox ∷ []

  -- `buildAllowedDirectories`
  unfoldable pub build_allowed_directories : Option Text → List Text
  unfolding normalize_scope_path
  build_allowed_directories raw_sandbox = sandbox_list (normalize_scope_path raw_sandbox)
