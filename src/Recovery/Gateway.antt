-- ===== src/Recovery/Gateway.antt =====
-- `GatewayRecoveryManager` (apps/desktop/src/main/gateway-recovery.ts). Each wait of the class is an
-- event of its own: a restart ends well or not, a probe answers.
use closedloop_electron.Base.{
  ℕ, suc, Bool, true, false, ◌&&◌, ◌-◌, ◌<◌, List, [], ◌∷◌, ◌++◌, ◌==◌, if◌then◌else◌,
}

pub data Presence : Type 0 where
  online degraded : Presence

-- The manager's fields and what it told the rest of the program: whether commands are accepted
-- (`setConnected`), and the presences sent. `restarts` counts the calls of `restart` under way, and
-- `probes` holds the epochs of the probes under way.
pub record Manager : Type 0 where
  pub epoch : ℕ
  pub recovery_in_flight : Bool
  pub gateway_healthy : Bool
  pub connected : Bool
  pub sent : List Presence
  pub restarts : ℕ
  pub probes : List ℕ

-- `isPaused()` at the time of the event, and whether the state of the cloud is online.
pub record Situation : Type 0 where
  pub is_paused : Bool
  pub is_online : Bool

abbrev presence : Situation → Presence
presence s = if s.is_paused then degraded else online

-- `recoverGateway`, up to the wait for `restart`.
unfoldable pub recover_gateway : Manager → Manager
recover_gateway m = if m.recovery_in_flight then m else record m {
  epoch = suc m.epoch;
  recovery_in_flight = true;
  gateway_healthy = false;
  connected = false;
  sent = m.sent ++ degraded ∷ [];
  restarts = suc m.restarts;
}

-- The rest of `doRecover` and its `finally`, where `restart` succeeded.
unfoldable pub restart_done : Situation → Manager → Manager
restart_done s m = record m {
  recovery_in_flight = false;
  gateway_healthy = true;
  connected = if s.is_online then true else m.connected;
  sent = if s.is_online then m.sent ++ presence s ∷ [] else m.sent;
  restarts = m.restarts - 1;
}

-- The same, where `restart` failed.
unfoldable pub restart_failed : Manager → Manager
restart_failed m = record m { recovery_in_flight = false; restarts = m.restarts - 1 }

-- `onCloudOnline`, up to the wait for the probe.
unfoldable pub on_cloud_online : Manager → Manager
on_cloud_online m = record m { epoch = suc m.epoch; probes = m.probes ++ suc m.epoch ∷ [] }

unfoldable pub remove_probe : ℕ → List ℕ → List ℕ
remove_probe e [] = []
remove_probe e (p ∷ ps) = let rest = remove_probe e ps in if p == e then ps else p ∷ rest

-- The rest of `onCloudOnline`, when the probe of that epoch answers.
unfoldable pub probe_done : Situation → ℕ → Bool → Manager → Manager
unfolding remove_probe recover_gateway
probe_done s e alive m =
    let answered = record m { probes = remove_probe e m.probes } in
    if (m.epoch == e) && s.is_online
    then (if alive
        then record answered {
          gateway_healthy = true;
          connected = true;
          sent = m.sent ++ presence s ∷ [];
        }
        else recover_gateway answered)
    else answered

-- `onUnexpectedClose`
unfoldable pub on_unexpected_close : Bool → Manager → Manager
unfolding recover_gateway
on_unexpected_close is_shutting_down m = if is_shutting_down then m else recover_gateway m

abbrev pub new_manager : Manager
new_manager = record {
  epoch = 0;
  recovery_in_flight = false;
  gateway_healthy = true;
  connected = false;
  sent = [];
  restarts = 0;
  probes = [];
}

-- The states that the events reach.
pub data Managed : Manager → Type 0 where
  created : Managed new_manager
  recovered : {m : Manager} → Managed m → Managed (recover_gateway m)
  restarted :
      {m : Manager} (s : Situation) → 0 < m.restarts → Managed m → Managed (restart_done s m)
  not_restarted : {m : Manager} → 0 < m.restarts → Managed m → Managed (restart_failed m)
  went_online : {m : Manager} → Managed m → Managed (on_cloud_online m)
  probed :
      {m : Manager} (s : Situation) (e : ℕ) (alive : Bool)
      → Managed m
      → Managed (probe_done s e alive m)
  closed :
      {m : Manager} (is_shutting_down : Bool)
      → Managed m
      → Managed (on_unexpected_close is_shutting_down m)
