-- ===== src/Heartbeat/Gate.antt =====
-- apps/desktop/src/main/loop-404-gate.ts: the paths of a server that have answered 404. A `Set` is
-- the list of its members, in the order of insertion.
use closedloop_electron.Base.{
  ◌≡◌, Bool, false, ◌||◌, List, [], ◌∷◌, ◌++◌, Text, same, same_iff, lookup, insert, lookup-insert,
  or_else, arith, if◌then◌else◌,
}

-- `disabledEndpoints`
abbrev pub Gate : Type 0
Gate = List (Text × List Text)

unfoldable pub includes_path : Text → List Text → Bool
includes_path p [] = false
includes_path p (q ∷ ps) = same q p || includes_path p ps

-- `paths.add(p)`
add_path : Text → List Text → List Text
add_path p ps = if includes_path p ps then ps else ps ++ p ∷ []

unfoldable pub is_endpoint_disabled : Text → Text → Gate → Bool
is_endpoint_disabled server path gate = includes_path path (or_else (lookup server gate) [])

pub mark_endpoint_disabled : Text → Text → Gate → Gate
unfolding add_path
mark_endpoint_disabled server path gate =
    insert server (add_path path (or_else (lookup server gate) [])) gate

includes_path-append :
    (p q : Text) (ps : List Text)
    → includes_path p (ps ++ q ∷ []) ≡ (includes_path p ps || same q p)
unfolding includes_path
includes_path-append p q [] = ground arith
includes_path-append p q (x ∷ ps) = ground (arith, includes_path-append p q ps)

includes_path-add_path :
    (p q : Text) (ps : List Text)
    → includes_path p (add_path q ps) ≡ (same q p || includes_path p ps)
unfolding add_path
includes_path-add_path p q ps = ground (arith, same_iff q p, includes_path-append p q ps)

-- Marking a path of a server disables that path of that server, and changes nothing else.
pub is_endpoint_disabled-mark :
    (server path s p : Text) (gate : Gate)
    → is_endpoint_disabled s p (mark_endpoint_disabled server path gate) ≡ (
        if same server s
        then same path p || is_endpoint_disabled s p gate
        else is_endpoint_disabled s p gate)
unfolding is_endpoint_disabled mark_endpoint_disabled
is_endpoint_disabled-mark server path s p gate = ground (
  arith,
  same_iff server s,
  lookup-insert server s (add_path path (or_else (lookup server gate) [])) gate,
  includes_path-add_path p path (or_else (lookup s gate) []),
)
