-- ===== src/Heartbeat/Classifier.antt =====
-- apps/desktop/src/main/loop-status-classifier.ts: what an answer of the server says of a loop.
use closedloop_electron.Base.{
  ℕ, Bool, true, false, ◌&&◌, Option, none, some, Text, text, same, leb, ◌==◌, if◌then◌else◌,
}

pub data TerminalReason : Type 0 where
  timed_out unauthorized not_found gone : TerminalReason

pub data TransientReason : Type 0 where
  server_error network_error : TransientReason

-- `LoopStatusDisposition`
pub data Disposition : Type 0 where
  terminal : TerminalReason → Disposition
  pop_fallback : Disposition
  live : Disposition
  transient : TransientReason → Disposition

pub data Provenance : Type 0 where
  desktop_managed user_created : Provenance

abbrev pub is_managed : Provenance → Bool
is_managed desktop_managed = true
is_managed user_created = false

-- `ClassifierProvenanceContext`: the provenance, and whether PoP is available.
abbrev pub can_fall_back : Option (Provenance × Bool) → Bool
can_fall_back none = false
can_fall_back (some (p, available)) = is_managed p && available

-- `cloudKind === kind`
abbrev pub is_kind : Option Text → Text → Bool
is_kind none kind = false
is_kind (some k) kind = same k kind

unfoldable pub classify_status : ℕ → Option (Provenance × Bool) → Disposition
classify_status status context =
    if status == 401
    then (if can_fall_back context then pop_fallback else terminal unauthorized)
    else if status == 404
    then terminal not_found
    else if status == 410
    then terminal gone
    else if leb 500 status && leb status 599
    then transient server_error
    else live

-- `classifyLoopStatus`
unfoldable pub classify_loop_status :
    Option ℕ → Option Text → Option (Provenance × Bool) → Disposition
unfolding classify_status
classify_loop_status http_status cloud_kind context =
    if is_kind cloud_kind (text "timed_out")
    then terminal timed_out
    else if is_kind cloud_kind (text "active")
    then live
    else (elim http_status [
      | none ↦ transient network_error
      | some status ↦ classify_status status context
    ])
