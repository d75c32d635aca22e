-- ===== src/Approvals/Operations.antt =====
-- apps/desktop/src/main/approval-operations.ts: the operation that a path of the gateway names.
use closedloop_electron.Base.{
  ◌≡◌, refl, ap, Bool, true, false, ◌&&◌, Option, none, some, List, [], ◌∷◌, Text, text, same,
  same_iff, starts_with, lookup, is_some, arith, if◌then◌else◌, Bool-cases, inl, inr,
}
use closedloop_electron.Approvals.Policy.{operation_risk_tiers}

-- `SUPPORTED_OPERATION_IDS`
pub supported_operation_ids : List Text
supported_operation_ids =
    text "symphony_launch"
    ∷ text "symphony_loop"
    ∷ text "symphony_loop_kill"
    ∷ text "symphony_plan_loop"
    ∷ text "symphony_status"
    ∷ text "symphony_kill"
    ∷ text "symphony_chat"
    ∷ text "symphony_comment_chat"
    ∷ text "symphony_commit_message"
    ∷ text "symphony_sessions"
    ∷ text "symphony_plan"
    ∷ text "symphony_judges"
    ∷ text "symphony_logs"
    ∷ text "symphony_chat_history"
    ∷ text "terminal_chat"
    ∷ text "ticket_chat"
    ∷ text "run_viewer_chat"
    ∷ text "codex_review"
    ∷ text "codex_argue"
    ∷ text "git_action"
    ∷ text "git_local_changes"
    ∷ text "git_local_commit_push"
    ∷ text "git_pr"
    ∷ text "git_branch_worktree"
    ∷ text "health_check"
    ∷ text "repos_config"
    ∷ text "deploy"
    ∷ text "learnings"
    ∷ text "filesystem"
    ∷ text "desktop_security_upgrade"
    ∷ text "binary_paths_settings"
    ∷ text "update_and_restart"
    ∷ text "browser_key_revoke"
    ∷ text "browser_key_approval_request"
    ∷ []

-- `pathname === p` and `pathname.startsWith(p)`
pub data Pattern : Type 0 where
  exactly under : Text → Pattern

pub fits : Text → Pattern → Bool
fits path (exactly p) = same path p
fits path (under p) = starts_with path p

-- The tests of `resolveOperationId` after its first, in their order, each with what it returns; a
-- disjunction is one line for each part.
pub operation_rules : List (Pattern × Text)
operation_rules =
    (exactly (text "/api/gateway/symphony/launch"), text "symphony_launch")
    ∷ (exactly (text "/api/gateway/symphony/loop"), text "symphony_loop")
    ∷ (exactly (text "/api/gateway/symphony/loop/kill"), text "symphony_loop_kill")
    ∷ (under (text "/api/gateway/symphony/plan-loop/"), text "symphony_plan_loop")
    ∷ (exactly (text "/api/gateway/symphony/status"), text "symphony_status")
    ∷ (under (text "/api/gateway/symphony/status/"), text "symphony_status")
    ∷ (exactly (text "/api/gateway/symphony/kill"), text "symphony_kill")
    ∷ (under (text "/api/gateway/symphony/chat/"), text "symphony_chat")
    ∷ (under (text "/api/gateway/symphony/comment-chat/"), text "symphony_comment_chat")
    ∷ (under (text "/api/gateway/symphony/commit-message/"), text "symphony_commit_message")
    ∷ (exactly (text "/api/gateway/symphony/sessions"), text "symphony_sessions")
    ∷ (under (text "/api/gateway/symphony/plan/"), text "symphony_plan")
    ∷ (under (text "/api/gateway/symphony/judges/"), text "symphony_judges")
    ∷ (under (text "/api/gateway/symphony/logs/"), text "symphony_logs")
    ∷ (under (text "/api/gateway/symphony/chat-history/"), text "symphony_chat_history")
    ∷ (under (text "/api/gateway/symphony/pending-learnings"), text "learnings")
    ∷ (under (text "/api/gateway/symphony/process-learnings"), text "learnings")
    ∷ (under (text "/api/gateway/symphony/process-all-learnings"), text "learnings")
    ∷ (under (text "/api/gateway/symphony/extract-learnings"), text "learnings")
    ∷ (under (text "/api/gateway/symphony/learnings-status/"), text "learnings")
    ∷ (exactly (text "/api/gateway/symphony/record-learning-use"), text "learnings")
    ∷ (exactly (text "/api/gateway/terminal-chat"), text "terminal_chat")
    ∷ (exactly (text "/api/gateway/ticket-chat"), text "ticket_chat")
    ∷ (exactly (text "/api/gateway/run-viewer-chat"), text "run_viewer_chat")
    ∷ (under (text "/api/gateway/codex/argue/"), text "codex_argue")
    ∷ (under (text "/api/gateway/codex/"), text "codex_review")
    ∷ (exactly (text "/api/gateway/git/branch-worktree"), text "git_branch_worktree")
    ∷ (exactly (text "/api/gateway/git/local-changes"), text "git_local_changes")
    ∷ (exactly (text "/api/gateway/git/local-changes/diff"), text "git_local_changes")
    ∷ (exactly (text "/api/gateway/git/local-changes/commit-push"), text "git_local_commit_push")
    ∷ (under (text "/api/gateway/git/pr"), text "git_pr")
    ∷ (exactly (text "/api/gateway/git/user"), text "git_pr")
    ∷ (under (text "/api/gateway/git"), text "git_action")
    ∷ (exactly (text "/api/gateway/health-check"), text "health_check")
    ∷ (exactly (text "/api/gateway/security/upgrade"), text "desktop_security_upgrade")
    ∷ (under (text "/api/gateway/settings/binary-paths"), text "binary_paths_settings")
    ∷ (exactly (text "/api/gateway/internal/browser-key/revoke"), text "browser_key_revoke")
    ∷ (
      exactly (text "/api/gateway/internal/browser-key/approval-request"),
      text "browser_key_approval_request",
    )
    ∷ (exactly (text "/api/gateway/repos"), text "repos_config")
    ∷ (under (text "/api/gateway/deploy"), text "deploy")
    ∷ (exactly (text "/api/gateway/update-and-restart"), text "update_and_restart")
    ∷ (exactly (text "/api/gateway/learnings"), text "learnings")
    ∷ (under (text "/api/gateway/work-directory/"), text "filesystem")
    ∷ (under (text "/api/gateway/symphony/sessions/"), text "symphony_sessions")
    ∷ (under (text "/api/gateway/symphony/attachments/"), text "filesystem")
    ∷ (under (text "/api/gateway/symphony/upload/"), text "filesystem")
    ∷ (exactly (text "/api/gateway/version"), text "health_check")
    ∷ (exactly (text "/api/gateway/directories"), text "filesystem")
    ∷ (exactly (text "/api/gateway/files/search"), text "filesystem")
    ∷ (under (text "/api/gateway/run-viewer-extract"), text "filesystem")
    ∷ []

pub first_fit : Text → List (Pattern × Text) → Option Text
unfolding fits
first_fit path [] = none
first_fit path ((p, id) ∷ rules) = if fits path p then some id else first_fit path rules

-- `resolveOperationId`
pub resolve_operation_id : Text → Option Text
unfolding first_fit
resolve_operation_id path =
    if starts_with path (text "/api/gateway/") then first_fit path operation_rules else none

abbrev pub contains : Text → List Text → Bool
contains id [] = false
contains id (x ∷ xs) = if same x id then true else contains id xs

-- The operation is supported, and its risk is in the table of approval-policy.ts.
is_known : Text → Bool
is_known id = contains id supported_operation_ids && is_some (lookup id operation_risk_tiers)

abbrev HasKnown : Pattern × Text → Type 0
HasKnown (p, id) = is_known id ≡ true

all_known : List (Pattern × Text) → Bool
unfolding is_known
all_known [] = true
all_known ((p, id) ∷ rules) = if is_known id then all_known rules else false

first_fit-is_known :
    (path id : Text) (rules : List (Pattern × Text))
    → all_known rules ≡ true
    → first_fit path rules ≡ some id
    → is_known id ≡ true
unfolding all_known first_fit
first_fit-is_known path id [] h e = cc
first_fit-is_known path id ((p, x) ∷ rules) h e = ground (arith, first_fit-is_known path id rules)

operation_rules-all_known : all_known operation_rules ≡ true
unfolding all_known operation_rules supported_operation_ids operation_risk_tiers lookup same
    is_known
operation_rules-all_known = refl

resolve_operation_id-parts :
    (path id : Text)
    → resolve_operation_id path ≡ some id
    → (starts_with path (text "/api/gateway/") ≡ true) × (first_fit path operation_rules ≡ some id)
unfolding resolve_operation_id
resolve_operation_id-parts path id h = elim (Bool-cases (starts_with path (text "/api/gateway/"))) [
  | inl e ↦ (e, ground arith)
  | inr e ↦ ground arith
]

-- A path that names an operation is one of the gateway's, and the operation is supported and has
-- its own entry in the table of risks.
pub resolve_operation_id-is_known :
    (path id : Text)
    → resolve_operation_id path ≡ some id
    → (starts_with path (text "/api/gateway/") ≡ true)
      × (contains id supported_operation_ids ≡ true)
      × (is_some (lookup id operation_risk_tiers) ≡ true)
unfolding is_known
resolve_operation_id-is_known path id h =
    let (inside, fits_one) = resolve_operation_id-parts path id h in
    let known = first_fit-is_known path id operation_rules operation_rules-all_known fits_one in
    (inside, ground arith, ground arith)

-- The operation that the list of rules gives to `path` as a whole.
pub exact_of : Text → List (Pattern × Text) → Option Text
exact_of path [] = none
exact_of path ((exactly p, id) ∷ rules) = if same p path then some id else exact_of path rules
exact_of path ((under p, id) ∷ rules) = exact_of path rules

abbrev answers : Text → Option Text → Bool
answers id none = false
answers id (some x) = same x id

unshadowed : List (Pattern × Text) → Bool
unshadowed [] = true
unshadowed ((exactly p, id) ∷ rules) = answers id (resolve_operation_id p) && unshadowed rules
unshadowed ((under p, id) ∷ rules) = unshadowed rules

answers-some : (id : Text) (o : Option Text) → answers id o ≡ true → o ≡ some id
answers-some id none h = cc
answers-some id (some x) h = ap some ((same_iff x id).0 h)

exact_of-unshadowed :
    (path id : Text) (rules : List (Pattern × Text))
    → unshadowed rules ≡ true
    → exact_of path rules ≡ some id
    → resolve_operation_id path ≡ some id
unfolding exact_of unshadowed
exact_of-unshadowed path id [] h e = cc
exact_of-unshadowed path id ((exactly p, x) ∷ rules) h e = ground (
  arith,
  exact_of-unshadowed path id rules,
  same_iff p path,
  answers-some x (resolve_operation_id p),
)
exact_of-unshadowed path id ((under p, x) ∷ rules) h e = exact_of-unshadowed path id rules h e

operation_rules-unshadowed : unshadowed operation_rules ≡ true
unfolding unshadowed operation_rules resolve_operation_id starts_with same
operation_rules-unshadowed = refl

-- A path that the code compares as a whole gets the operation of that comparison: no test on a
-- prefix that stands above it takes the path away.
pub resolve_operation_id-exact :
    (path id : Text) → exact_of path operation_rules ≡ some id → resolve_operation_id path ≡ some id
resolve_operation_id-exact path id =
    exact_of-unshadowed path id operation_rules operation_rules-unshadowed
