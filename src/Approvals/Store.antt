-- ===== src/Approvals/Store.antt =====
-- ApprovalStore (apps/desktop/src/main/approval-store.ts). `sha256` is the digest of node:crypto, a
-- waiter is the number of a promise, and the texts of times and ids come in from outside.
use closedloop_electron.Base.{
  ℕ, Option, none, some, List, [], ◌∷◌, ◌++◌, map, Text, text, to_upper, is_empty, lookup, insert,
  delete, has, take, length, or_else, if◌then◌else◌,
}
use closedloop_electron.Approvals.Policy.{RiskTier}

-- `ApprovalDecision`
pub data Decision : Type 0 where
  approved denied always_allow expired : Decision

-- `PendingApproval`
pub record Approval : Type 0 where
  pub id : Text
  pub created_at : Text
  pub operation_id : Text
  pub risk_tier : RiskTier
  pub method : Text
  pub path : Text
  pub scope_path : Option Text
  pub location : Text
  pub reason : Text
  pub fingerprint : Text

-- `ResolvedApproval`
pub record Resolved : Type 0 where
  pub approval : Approval
  pub decision : Decision
  pub resolved_at : Text

-- The input of `enqueue`.
pub record Request : Type 0 where
  pub operation_id : Text
  pub risk_tier : RiskTier
  pub method : Text
  pub path : Text
  pub body : Text
  pub scope_path : Option Text
  pub location : Text
  pub reason : Text

abbrev pub max_resolved : ℕ
max_resolved = 50

-- `disk` is what electron-store holds, `settled` the decisions that promises got, `counts` what
-- `onChange` was told, `announced` what `onNewApproval` was told, oldest first.
pub record ApprovalStore : Type 0 where
  pub pending_by_id : List (Text × Approval)
  pub pending_by_fingerprint : List (Text × Text)
  pub waiters : List (Text × List ℕ)
  pub resolved : List Resolved
  pub disk : List Approval
  pub settled : List (ℕ × Decision)
  pub counts : List ℕ
  pub announced : List Approval

-- `ApprovalStore.fingerprint`
unfoldable pub fingerprint : (Text → Text) → Text → Text → Text → Text
fingerprint sha256 method path body =
    sha256 (to_upper method ++ text "\n" ++ path ++ text "\n" ++ body)

abbrev pub notify_change : ApprovalStore → ApprovalStore
notify_change s = record s { counts = s.counts ++ length s.pending_by_id ∷ [] }

abbrev pub persist : ApprovalStore → ApprovalStore
persist s = notify_change (record s { disk = map (λ e. e.1) s.pending_by_id })

-- The constructor's loop; an entry without an id and a fingerprint, `none`, is passed over.
load : List (Option Approval) → ApprovalStore → ApprovalStore
load [] s = s
load (none ∷ entries) s = load entries s
load (some a ∷ entries) s = load entries (record s {
  pending_by_id = insert a.id a s.pending_by_id;
  pending_by_fingerprint = insert a.fingerprint a.id s.pending_by_fingerprint;
})

abbrev pub empty_store : List Approval → ApprovalStore
empty_store disk = record {
  pending_by_id = [];
  pending_by_fingerprint = [];
  waiters = [];
  resolved = [];
  disk = disk;
  settled = [];
  counts = [];
  announced = [];
}

unfoldable pub open_store : List Approval → List (Option Approval) → ApprovalStore
unfolding load
open_store disk entries = notify_change (load entries (empty_store disk))

-- The approval that waits for the same request already. An empty id is falsy.
unfoldable pub existing : Text → ApprovalStore → Option Approval
existing print s = elim (lookup print s.pending_by_fingerprint) [
  | none ↦ none
  | some id ↦ if is_empty id then none else lookup id s.pending_by_id
]

abbrev pub new_approval : Text → Text → Text → Request → Approval
new_approval id created_at print r = record {
  id = id;
  created_at = created_at;
  operation_id = r.operation_id;
  risk_tier = r.risk_tier;
  method = to_upper r.method;
  path = r.path;
  scope_path = r.scope_path;
  location = r.location;
  reason = r.reason;
  fingerprint = print;
}

unfoldable pub add : Approval → ApprovalStore → ApprovalStore
add a s =
    let t = persist (record s {
      pending_by_id = insert a.id a s.pending_by_id;
      pending_by_fingerprint = insert a.fingerprint a.id s.pending_by_fingerprint;
    }) in
    record t { announced = t.announced ++ a ∷ [] }

-- `id` is what `randomUUID` answers.
unfoldable pub enqueue :
    (Text → Text) → Text → Text → Request → ApprovalStore → ApprovalStore × Approval
enqueue sha256 id created_at r s =
    let print = fingerprint sha256 r.method r.path r.body in
    elim (existing print s) [
      | some a ↦ (s, a)
      | none ↦ (add (new_approval id created_at print r) s, new_approval id created_at print r)
    ]

-- The promise `waiter` of `waitForDecision`.
unfoldable pub wait_for_decision : Text → ℕ → ApprovalStore → ApprovalStore
wait_for_decision id waiter s =
    if has id s.pending_by_id
    then record s {
      waiters = insert id (or_else (lookup id s.waiters) [] ++ waiter ∷ []) s.waiters;
    }
    else record s { settled = s.settled ++ (waiter, denied) ∷ [] }

-- The decisions that the waiters of `id` get.
abbrev pub delivered : Text → Decision → ApprovalStore → List (ℕ × Decision)
delivered id decision s = map (λ w. (w, decision)) (or_else (lookup id s.waiters) [])

abbrev pub dropped : Text → Decision → Text → Approval → ApprovalStore → ApprovalStore
dropped id decision now a s = record s {
  pending_by_id = delete id s.pending_by_id;
  pending_by_fingerprint = delete a.fingerprint s.pending_by_fingerprint;
  resolved =
      take max_resolved
        (record { approval = a; decision = decision; resolved_at = now } ∷ s.resolved);
  waiters = delete id s.waiters;
  settled = s.settled ++ delivered id decision s;
}

-- `resolveAndRemove`, and the approval that it returns.
unfoldable pub resolve_and_remove :
    Text → Decision → Text → ApprovalStore → ApprovalStore × Option Approval
resolve_and_remove id decision now s = elim (lookup id s.pending_by_id) [
  | none ↦ (s, none)
  | some a ↦ (persist (dropped id decision now a s), some a)
]

unfoldable pub deny_all : List Text → Text → ApprovalStore → ApprovalStore
deny_all [] now s = s
deny_all (id ∷ ids) now s = deny_all ids now (resolve_and_remove id denied now s).0

unfoldable pub clear : Text → ApprovalStore → ApprovalStore
clear now s = persist (deny_all (map (λ e. e.0) s.pending_by_id) now s)

unfoldable pub clear_resolved : ApprovalStore → ApprovalStore
clear_resolved s = record s { resolved = [] }
