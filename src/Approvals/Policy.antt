-- ===== src/Approvals/Policy.antt =====
-- apps/desktop/src/main/approval-policy.ts: which operations need no question.
use closedloop_electron.Base.{
  ℕ, ◌≤◌, ◌≡◌, Bool, true, false, List, [], ◌∷◌, Text, text, lookup, leb, arith, or_else,
  if◌then◌else◌,
}

-- `RiskTier`
pub data RiskTier : Type 0 where
  no_risk low medium high : RiskTier

-- `OPERATION_RISK_TIERS`
unfoldable pub operation_risk_tiers : List (Text × RiskTier)
operation_risk_tiers =
    (text "health_check", low)
    ∷ (text "repos_config", medium)
    ∷ (text "filesystem", medium)
    ∷ (text "symphony_status", low)
    ∷ (text "symphony_sessions", medium)
    ∷ (text "symphony_logs", low)
    ∷ (text "symphony_chat_history", medium)
    ∷ (text "git_action", medium)
    ∷ (text "git_local_changes", low)
    ∷ (text "git_local_commit_push", high)
    ∷ (text "git_pr", medium)
    ∷ (text "git_branch_worktree", low)
    ∷ (text "symphony_launch", medium)
    ∷ (text "symphony_loop", medium)
    ∷ (text "symphony_loop_kill", medium)
    ∷ (text "symphony_plan_loop", medium)
    ∷ (text "symphony_kill", medium)
    ∷ (text "symphony_chat", medium)
    ∷ (text "symphony_comment_chat", medium)
    ∷ (text "symphony_commit_message", medium)
    ∷ (text "symphony_plan", medium)
    ∷ (text "symphony_judges", medium)
    ∷ (text "terminal_chat", medium)
    ∷ (text "ticket_chat", medium)
    ∷ (text "run_viewer_chat", medium)
    ∷ (text "codex_review", medium)
    ∷ (text "codex_argue", medium)
    ∷ (text "deploy", high)
    ∷ (text "learnings", medium)
    ∷ (text "desktop_security_upgrade", high)
    ∷ (text "binary_paths_settings", medium)
    ∷ (text "update_and_restart", high)
    ∷ (text "browser_key_revoke", high)
    ∷ (text "browser_key_approval_request", high)
    ∷ []

-- `riskTierOrder`
unfoldable pub risk_tier_order : RiskTier → ℕ
risk_tier_order no_risk = 0
risk_tier_order low = 1
risk_tier_order medium = 2
risk_tier_order high = 3

-- An operation that is not in the table counts as high risk.
unfoldable pub operation_risk : Text → RiskTier
operation_risk id = or_else (lookup id operation_risk_tiers) high

-- `shouldAutoApprove`
pub should_auto_approve : Text → RiskTier → Bool → Bool
should_auto_approve id configured force =
    if force then false else leb (risk_tier_order (operation_risk id)) (risk_tier_order configured)

-- A tier approves all that a narrower one approves, and what is approved was not forced to be asked.
pub should_auto_approve_mono :
    (id : Text) (narrow wide : RiskTier) (force : Bool)
    → risk_tier_order narrow ≤ risk_tier_order wide
    → should_auto_approve id narrow force ≡ true
    → (should_auto_approve id wide force ≡ true) × (force ≡ false)
unfolding should_auto_approve
should_auto_approve_mono id narrow wide force h a = ground arith
