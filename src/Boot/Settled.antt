-- ===== src/Boot/Settled.antt =====
-- What `reattachLiveJob` of boot-recovery.ts leaves behind: a loop that is over, or one that is
-- looked after.
use closedloop_electron.Base.{
  ℕ, ◌≡◌, refl, sym, subst, ◌⊎◌, inl, inr, Bool, true, false, Option, none, some, [], ◌∷◌, ◌++◌,
  Text, same, ◌≢◌, arith, Option-cases, Bool-cases, if◌then◌else◌, ◌>>=◌, pure,
}
use closedloop_electron.JobStore.{LocalJob}
use closedloop_electron.Heartbeat.Classifier.{
  TerminalReason, Disposition, terminal, pop_fallback, live, transient, Provenance, can_fall_back,
  classify_status, classify_loop_status,
}
use closedloop_electron.Loops.Tokens.{Disk, set_loop_token}
use closedloop_electron.Boot.Status.{
  CloudLoopStatus, loop_active, get_cloud_loop_status, PopResult, pop_success, pop_http,
  pop_network, pop_timeout, pop_auth, Deps, Boot, Outside,
}
use closedloop_electron.Boot.Reconcile.{
  finalize_as_terminal, build_provenance_context, attempt_pop_heartbeat_revival,
  heartbeat_http_status, is_revived, inconclusive, conclude_error, conclude_pop, conclude,
  cloud_status, cloud_status_to_http, kind_of, context_of, reconcile_cloud_loop_status,
  is_unauthorized, put_tokens, revive, ask_again,
}
use closedloop_electron.Boot.Final.{IsFinal, finalize_as_terminal-IsFinal}
use closedloop_electron.Boot.Reattach.{disposition_of}

abbrev pub is_terminal : Disposition → Bool
is_terminal (terminal _) = true
is_terminal _ = false

classify-context :
    (h : Option ℕ) (k : Option Text) (c : Option (Provenance × Bool))
    → (classify_loop_status h k c ≡ classify_loop_status h k none)
      ⊎ ((classify_loop_status h k c ≡ pop_fallback) × (can_fall_back c ≡ true))
unfolding classify_loop_status classify_status
classify-context none k c = inl refl
classify-context (some status) k c = elim (Bool-cases (can_fall_back c)) [
  | inl e ↦ ground arith
  | inr e ↦ ground arith
]

pub classify-no_fallback :
    (h : Option ℕ) (k : Option Text) → classify_loop_status h k none ≢ pop_fallback
unfolding classify_loop_status classify_status
classify-no_fallback none k e = ground arith
classify-no_fallback (some status) k e = ground arith

-- What `reconcileCloudLoopStatus` gives: the schedulers are as before, and a loop whose status is
-- terminal is finalized.
abbrev pub IsReconciled : Text → Text → Boot → Option CloudLoopStatus × Boot → Type 0
IsReconciled now loop b (none, c) = Unit
IsReconciled now loop b (some result, c) =
    (c.schedulers ≡ b.schedulers)
    × (c.live_handles ≡ b.live_handles)
    × (is_terminal (disposition_of result) ≡ true → IsFinal now loop c)

finalize-IsReconciled :
    (d : Deps) (job : LocalJob) (reason : TerminalReason) (result : CloudLoopStatus) (b : Boot)
    → IsReconciled d.now job.loop_id b (some result, (finalize_as_terminal d job reason b).1)
unfolding finalize_as_terminal
finalize-IsReconciled d job reason result b =
    (refl, refl, λ _. finalize_as_terminal-IsFinal d job reason b)

inconclusive-disposition :
    (r : PopResult)
    → disposition_of (inconclusive r) ≡ classify_loop_status (heartbeat_http_status r) none none
unfolding classify_loop_status cloud_status_to_http same
inconclusive-disposition r = refl

conclude_error-IsReconciled :
    (d : Deps) (job : LocalJob) (result : CloudLoopStatus) (r : PopResult) (a : Disposition)
    (b : Boot)
    → disposition_of (inconclusive r) ≡ a
    → IsReconciled d.now job.loop_id b (conclude_error d job result r a b)
unfolding conclude_error finalize_as_terminal
conclude_error-IsReconciled d job result r (terminal reason) b e =
    finalize-IsReconciled d job reason result b
conclude_error-IsReconciled d job result r pop_fallback b e =
    (refl, refl, λ h. absurd (ground arith))
conclude_error-IsReconciled d job result r live b e = (refl, refl, λ h. absurd (ground arith))
conclude_error-IsReconciled d job result r (transient s) b e =
    (refl, refl, λ h. absurd (ground arith))

disposition_of-active : disposition_of loop_active ≡ live
unfolding classify_loop_status same
disposition_of-active = refl

conclude_pop-IsReconciled :
    (d : Deps) (job : LocalJob) (result : CloudLoopStatus) (r : PopResult) (b : Boot)
    → IsReconciled d.now job.loop_id b (conclude_pop d job result (some r) b)
unfolding conclude_pop classify_loop_status
conclude_pop-IsReconciled d job result r b = elim (Bool-cases (is_revived r)) [
  | inl e ↦ rw (e) (refl, refl, λ h. absurd (ground (arith, disposition_of-active)))
  | inr e ↦ rw (e) (
      conclude_error-IsReconciled d job result r
        (classify_loop_status (heartbeat_http_status r) none none) b (inconclusive-disposition r))
]

put_tokens-IsReconciled :
    (d : Deps) (job : LocalJob) (result : CloudLoopStatus) (r : PopResult) (b : Boot)
    (disk : Option Disk)
    → IsReconciled d.now job.loop_id b
        (((put_tokens disk >>= λ _. pure (some r)) >>= λ pop. conclude_pop d job result pop) b)
put_tokens-IsReconciled d job result r b none = tt
put_tokens-IsReconciled d job result r b (some disk) = conclude_pop-IsReconciled d job result r _

revive-IsReconciled :
    (d : Deps) (job : LocalJob) (result : CloudLoopStatus) (r : PopResult) (b : Boot)
    → IsReconciled d.now job.loop_id b ((revive d r job >>= λ pop. conclude_pop d job result pop) b)
revive-IsReconciled d job result (pop_success (some meta)) b =
    put_tokens-IsReconciled d job result (pop_success (some meta))
      (record b { heartbeats = b.heartbeats ++ job.loop_id ∷ [] })
      (set_loop_token d.platform job.loop_id meta b.tokens)
revive-IsReconciled d job result (pop_success none) b =
    conclude_pop-IsReconciled d job result (pop_success none) _
revive-IsReconciled d job result (pop_http status) b =
    conclude_pop-IsReconciled d job result (pop_http status) _
revive-IsReconciled d job result pop_network b =
    conclude_pop-IsReconciled d job result pop_network _
revive-IsReconciled d job result pop_timeout b =
    conclude_pop-IsReconciled d job result pop_timeout _
revive-IsReconciled d job result pop_auth b = conclude_pop-IsReconciled d job result pop_auth _

attempt-IsReconciled :
    (d : Deps) (job : LocalJob) (result : CloudLoopStatus) (r : PopResult) (b : Boot)
    → d.has_signer ≡ true
    → IsReconciled d.now job.loop_id b
        ((attempt_pop_heartbeat_revival d r job >>= λ pop. conclude_pop d job result pop) b)
unfolding attempt_pop_heartbeat_revival
attempt-IsReconciled d job result r b h =
    subst
      (λ x.
        IsReconciled d.now job.loop_id b
          (((if x then revive d r job else pure none) >>= λ pop. conclude_pop d job result pop) b))
      (sym h) (revive-IsReconciled d job result r b)

conclude-IsReconciled :
    (d : Deps) (o : Outside) (job : LocalJob) (result : CloudLoopStatus) (a : Disposition)
    (b : Boot)
    → (disposition_of result ≡ a) ⊎ ((a ≡ pop_fallback) × (d.has_signer ≡ true))
    → IsReconciled d.now job.loop_id b (conclude d o job result a b)
unfolding conclude
conclude-IsReconciled d o job result (terminal reason) b h =
    finalize-IsReconciled d job reason result b
conclude-IsReconciled d o job result live b (inl e) = (refl, refl, λ h. absurd (ground arith))
conclude-IsReconciled d o job result live b (inr (e, s)) = absurd (cc)
conclude-IsReconciled d o job result (transient x) b (inl e) =
    (refl, refl, λ h. absurd (ground arith))
conclude-IsReconciled d o job result (transient x) b (inr (e, s)) = absurd (cc)
conclude-IsReconciled d o job result pop_fallback b (inl e) =
    absurd (classify-no_fallback (cloud_status_to_http result) (some (kind_of result)) e)
conclude-IsReconciled d o job result pop_fallback b (inr (e, s)) =
    attempt-IsReconciled d job result o.pop b s

context_of-signer :
    (d : Deps) (allow : Bool) → can_fall_back (context_of d allow) ≡ true → d.has_signer ≡ true
unfolding build_provenance_context
context_of-signer d allow h = ground arith

classified :
    (d : Deps) (allow : Bool) (result : CloudLoopStatus)
    → (disposition_of result
        ≡ classify_loop_status
            (cloud_status_to_http result)
            (some (kind_of result))
            (context_of d allow))
      ⊎ ((classify_loop_status
              (cloud_status_to_http result)
              (some (kind_of result))
              (context_of d allow)
            ≡ pop_fallback)
          × (d.has_signer ≡ true))
classified d allow result =
    elim (classify-context (cloud_status_to_http result) (some (kind_of result))
      (context_of d allow)) [
        | inl e ↦ inl (sym e)
        | inr (e, f) ↦ inr (e, context_of-signer d allow f)
      ]

pub reconcile_cloud_loop_status-IsReconciled :
    (d : Deps) (o : Outside) (job : LocalJob) (allow : Bool) (b : Boot)
    → IsReconciled d.now job.loop_id b (reconcile_cloud_loop_status d o job allow b)
unfolding reconcile_cloud_loop_status cloud_status
reconcile_cloud_loop_status-IsReconciled d o job allow b =
    let go = λ (r : CloudLoopStatus) (c : Boot).
      conclude-IsReconciled d o job r
        (classify_loop_status (cloud_status_to_http r) (some (kind_of r)) (context_of d allow)) c
        (classified d allow r) in
    let first = get_cloud_loop_status d.platform o.status in
    elim (Bool-cases (is_unauthorized first)) [
      | inl e ↦ elim (Option-cases (o.refresh b.tokens).0) [
        | inl f ↦ rw (e, f) tt
        | inr (done, f) ↦
            rw (e, f) (go (ask_again d o first done) (record b { tokens = (o.refresh b.tokens).1 }))
      ]
      | inr e ↦ rw (e) (go first b)
    ]
