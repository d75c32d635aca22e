-- ===== src/Approvals/Tests.antt =====
-- The approval system (approval-store.ts, approval-policy.ts and approval-operations.ts of
-- apps/desktop/src/main) with one request, and two promises that wait for it.
use closedloop_electron.Base.{◌≡◌, refl, none, some, [], Text, text, same, lookup, insert, to_upper}
use closedloop_electron.Approvals.Policy.{high}
use closedloop_electron.Approvals.Store.{
  Approval, ApprovalStore, Decision, approved, Request, empty_store, enqueue, existing, add,
  resolve_and_remove, wait_for_decision,
}
use closedloop_electron.Approvals.Waiters.{IsDecided, resolve_and_remove_lem, enqueue-enqueue}

abbrev digest : Text → Text
digest t = t

abbrev deploy : Request
deploy = record {
  operation_id = text "deploy";
  risk_tier = high;
  method = text "post";
  path = text "/api/gateway/deploy";
  body = text "{}";
  scope_path = none;
  location = text "Deploy";
  reason = text "high risk";
}

abbrev fresh : ApprovalStore
fresh = empty_store []

abbrev asked : ApprovalStore
asked = (enqueue digest (text "id") (text "t") deploy fresh).0

abbrev awaited : ApprovalStore
awaited = wait_for_decision (text "id") 2 (wait_for_decision (text "id") 1 asked)

abbrev approval : Approval
approval = (enqueue digest (text "id") (text "t") deploy fresh).1

awaited-pending : lookup (text "id") awaited.pending_by_id ≡ some approval
unfolding lookup insert enqueue existing add wait_for_decision same
awaited-pending = refl

resolve_and_remove_lem_example :
    (IsDecided
      (text "id")
      approved
      awaited
      (resolve_and_remove (text "id") approved (text "now") awaited).0)
    × ((resolve_and_remove (text "id") approved (text "now") awaited).1 ≡ some approval)
    × ((other : Decision) (later : Text)
        → resolve_and_remove
            (text "id")
            other
            later
            (resolve_and_remove (text "id") approved (text "now") awaited).0
          ≡ ((resolve_and_remove (text "id") approved (text "now") awaited).0, none))
resolve_and_remove_lem_example =
    resolve_and_remove_lem (text "id") approval approved (text "now") awaited awaited-pending

abbrev again : Request
again = record deploy { method = text "Post"; reason = text "again" }

enqueue-enqueue_example :
    enqueue digest (text "id2") (text "t2") again asked
    ≡ enqueue digest (text "id") (text "t") deploy fresh
unfolding to_upper
enqueue-enqueue_example =
    enqueue-enqueue digest (text "id") (text "id2") (text "t") (text "t2") deploy again fresh refl
      refl refl refl
