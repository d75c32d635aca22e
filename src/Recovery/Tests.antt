-- ===== src/Recovery/Tests.antt =====
-- Runs of the recovery of the gateway, of a retried spawn and of the debounce.
use closedloop_electron.Base.{ℕ, ◌≡◌, refl, [], ◌∷◌, false, if◌then◌else◌, ◌==◌}
use closedloop_electron.Recovery.Gateway.{
  Manager, new_manager, recover_gateway, on_unexpected_close, on_cloud_online, created, closed,
  went_online,
}
use closedloop_electron.Recovery.Epochs.{IsGuarded, Managed-IsGuarded}
use closedloop_electron.Recovery.Spawn.{
  Attempt, result, enoent, retry_spawn, IsRetried, retry_spawn-IsRetried,
}

-- The tunnel closes, which begins a recovery, and then the cloud comes online twice.
abbrev closed_manager : Manager
closed_manager = on_cloud_online (on_cloud_online (on_unexpected_close false new_manager))

Managed-IsGuarded_example : IsGuarded closed_manager
Managed-IsGuarded_example =
    Managed-IsGuarded closed_manager (went_online (went_online (closed false created)))

closed_manager-probes : (closed_manager.restarts ≡ 1) × (closed_manager.probes ≡ 2 ∷ 3 ∷ [])
unfolding on_unexpected_close recover_gateway on_cloud_online
closed_manager-probes = (refl, refl)

-- Missing at first, there at the second call.
abbrev attempts : ℕ → Attempt ℕ ℕ
attempts n = if n == 0 then enoent 7 else result 3

retry_spawn-IsRetried_example :
    (n : ℕ) × IsRetried attempts (λ _. false) n (retry_spawn attempts λ _. false)
retry_spawn-IsRetried_example = retry_spawn-IsRetried attempts λ _. false
