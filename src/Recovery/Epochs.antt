-- ===== src/Recovery/Epochs.antt =====
-- What holds of `GatewayRecoveryManager` (gateway-recovery.ts) in any order of its events.
use closedloop_electron.Base.{
  ℕ, suc, ◌<◌, ◌≤◌, ◌≡◌, refl, Bool, true, false, Bool-cases, inl, inr, List, [], ◌∷◌, ◌++◌, ◌==◌,
  All, All-append, arith, if◌then◌else◌,
}
use closedloop_electron.Recovery.Gateway.{
  Manager, Situation, recover_gateway, restart_done, restart_failed, on_cloud_online, remove_probe,
  probe_done, on_unexpected_close, Managed, created, recovered, restarted, not_restarted,
  went_online, probed, closed,
}

-- The epochs of the probes under way: in the order of their beginning, all different, and none later
-- than `e`.
abbrev pub AreOrdered : ℕ → List ℕ → Type 0
AreOrdered e [] = Unit
AreOrdered e (p ∷ ps) = p ≤ e × All (λ q. p < q) ps × AreOrdered e ps

-- A restart is under way exactly while a recovery is in flight, and the probes are in order.
abbrev pub IsGuarded : Manager → Type 0
IsGuarded m = (m.restarts ≡ (if m.recovery_in_flight then 1 else 0)) × AreOrdered m.epoch m.probes

AreOrdered-suc : (e : ℕ) (ps : List ℕ) → AreOrdered e ps → AreOrdered (suc e) ps
AreOrdered-suc e [] h = tt
AreOrdered-suc e (p ∷ ps) (below, later, h) = (omega arith, later, AreOrdered-suc e ps h)

AreOrdered-below : (e : ℕ) (ps : List ℕ) → AreOrdered e ps → All (λ q. q ≤ e) ps
AreOrdered-below e [] h = tt
AreOrdered-below e (p ∷ ps) (below, later, h) = (below, AreOrdered-below e ps h)

AreOrdered-append : (e : ℕ) (ps : List ℕ) → AreOrdered e ps → AreOrdered (suc e) (ps ++ suc e ∷ [])
AreOrdered-append e [] h = (omega arith, tt, tt)
AreOrdered-append e (p ∷ ps) (below, later, h) = (
  omega arith,
  All-append (λ q. p < q) ps (suc e ∷ []) later (omega arith, tt),
  AreOrdered-append e ps h,
)

All-remove_probe : (P : ℕ → Type 0) (e : ℕ) (ps : List ℕ) → All P ps → All P (remove_probe e ps)
unfolding remove_probe
All-remove_probe P e [] h = tt
All-remove_probe P e (p ∷ ps) h = elim (Bool-cases (p == e)) [
  | inl f ↦ rw f h.1
  | inr f ↦ rw f (h.0, All-remove_probe P e ps h.1)
]

AreOrdered-remove_probe :
    (n e : ℕ) (ps : List ℕ) → AreOrdered n ps → AreOrdered n (remove_probe e ps)
unfolding remove_probe
AreOrdered-remove_probe n e [] h = tt
AreOrdered-remove_probe n e (p ∷ ps) (below, later, h) = elim (Bool-cases (p == e)) [
  | inl f ↦ rw f h
  | inr f ↦ rw f (below, All-remove_probe (λ q. p < q) e ps later, AreOrdered-remove_probe n e ps h)
]

recover_gateway-IsGuarded : (m : Manager) → IsGuarded m → IsGuarded (recover_gateway m)
unfolding recover_gateway
recover_gateway-IsGuarded m (one, ordered) =
    (ground arith, ground (arith, AreOrdered-suc m.epoch m.probes ordered))

probe_done-IsGuarded :
    (s : Situation) (e : ℕ) (alive : Bool) (m : Manager)
    → IsGuarded m
    → IsGuarded (probe_done s e alive m)
unfolding probe_done
probe_done-IsGuarded s e alive m (one, ordered) =
    let left = AreOrdered-remove_probe m.epoch e m.probes ordered in
    let back =
      recover_gateway-IsGuarded (record m { probes = remove_probe e m.probes }) (one, left) in
    (ground (arith, back), ground (arith, back, left))

-- In any order of the events: one restart of the gateway is under way while a recovery is in flight,
-- and none otherwise; and the probes under way stand in the order of their epochs, which are all
-- different and none later than the manager's, so that one at most has the manager's epoch.
pub Managed-IsGuarded : (m : Manager) → Managed m → IsGuarded m
unfolding restart_done restart_failed on_cloud_online on_unexpected_close
Managed-IsGuarded m created = (refl, tt)
Managed-IsGuarded m (recovered {m = n} h) = recover_gateway-IsGuarded n (Managed-IsGuarded n h)
Managed-IsGuarded m (restarted {m = n} s f h) =
    let (one, ordered) = Managed-IsGuarded n h in (ground arith, ordered)
Managed-IsGuarded m (not_restarted {m = n} f h) =
    let (one, ordered) = Managed-IsGuarded n h in (ground arith, ordered)
Managed-IsGuarded m (went_online {m = n} h) =
    let (one, ordered) = Managed-IsGuarded n h in (one, AreOrdered-append n.epoch n.probes ordered)
Managed-IsGuarded m (probed {m = n} s e alive h) =
    probe_done-IsGuarded s e alive n (Managed-IsGuarded n h)
Managed-IsGuarded m (closed {m = n} true h) = Managed-IsGuarded n h
Managed-IsGuarded m (closed {m = n} false h) = recover_gateway-IsGuarded n (Managed-IsGuarded n h)

-- A probe that answers when the epoch has moved past the one it began with, as a recovery that
-- begins and the cloud online again make it, changes nothing but the list of probes.
pub probe_done_stale :
    (s : Situation) (alive : Bool) (m n : Manager)
    → (on_cloud_online m).epoch < n.epoch
    → probe_done s (on_cloud_online m).epoch alive n
      ≡ record n { probes = remove_probe (on_cloud_online m).epoch n.probes }
unfolding on_cloud_online probe_done
probe_done_stale s alive m n h = ground arith
