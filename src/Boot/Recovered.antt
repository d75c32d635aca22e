-- ===== src/Boot/Recovered.antt =====
-- What boot-recovery.ts guarantees: a live loop that it looks at ends up finalized or looked after,
-- and a dead one is never revived.
use closedloop_electron.Base.{
  ℕ, ◌≡◌, refl, sym, ap, subst, ◌∙◌, ◌⊎◌, inl, inr, true, false, Option, none, some, [], ◌∷◌, ◌++◌,
  Text, same, lookup, lookup-insert_self, All, arith, Option-cases, Bool-cases, if◌then◌else◌,
  resume, ◌≢◌, ◌>>=◌,
}
use closedloop_electron.Json.{ℤ}
use closedloop_electron.JobStore.{LocalJob}
use closedloop_electron.Heartbeat.Classifier.{
  Disposition, terminal, pop_fallback, live, transient, classify_loop_status,
}
use closedloop_electron.Heartbeat.Tick.{pid_of}
use closedloop_electron.Loops.Tokens.{LoopTokenMeta, get_loop_token}
use closedloop_electron.Loops.Timers.{
  Context, stop_heartbeat, start_refresh, start_heartbeat, register_sleep,
}
use closedloop_electron.Loops.Tracking.{IsTracked}
use closedloop_electron.Loops.Teardown.{teardown_loop_clears}
use closedloop_electron.Boot.Status.{CloudLoopStatus, get_cloud_loop_status, Deps, Boot, Outside}
use closedloop_electron.Boot.Reconcile.{
  reconcile_cloud_loop_status, cloud_status, conclude, finalize_as_terminal, cloud_status_to_http,
  kind_of, is_unauthorized, ask_again,
}
use closedloop_electron.Boot.Reattach.{
  mark_reattached, start_schedulers, reattach, reattach_or_stop, disposition_of, reattach_job,
  reattach_live_job, settle, expiry_of,
}
use closedloop_electron.Boot.Final.{IsFinal}
use closedloop_electron.Boot.Settled.{
  is_terminal, classify-no_fallback, IsReconciled, reconcile_cloud_loop_status-IsReconciled,
}

-- The loop is over: it is finalized, no timer of it runs, and it is not among the live ones.
abbrev pub IsEnded : Text → Text → Boot → Boot → Type 0
IsEnded now loop b c =
    IsFinal now loop c
    × All (λ t. same loop t.loop_id ≡ false) c.schedulers.pending
    × (c.live_handles ≡ b.live_handles)

-- The loop is looked after: it has a heartbeat, and it is among the live ones.
abbrev pub IsLookedAfter : Text → Boot → Boot → Type 0
IsLookedAfter loop b c =
    (c.live_handles ≡ b.live_handles ++ loop ∷ [])
    × ((h : ℕ) × (lookup loop c.schedulers.heartbeats ≡ some h))

start_schedulers-heartbeat :
    (d : Deps) (loop : Text) (meta : Option LoopTokenMeta) (c : Context)
    → (h : ℕ) × (lookup loop (start_schedulers d loop meta c).heartbeats ≡ some h)
unfolding start_schedulers start_heartbeat register_sleep
start_schedulers-heartbeat d loop meta c =
    let s = stop_heartbeat loop (start_refresh d.skew_ms d.now_ms loop (expiry_of d meta) c) in
    (s.next, lookup-insert_self loop s.next s.heartbeats)

mark_reattached-live_handles :
    (now loop : Text) (b : Boot) → (mark_reattached now loop b).live_handles ≡ b.live_handles
unfolding mark_reattached
mark_reattached-live_handles now loop b = ground arith

reattach-IsLookedAfter :
    (d : Deps) (loop : Text) (pid : ℤ) (b : Boot) → IsLookedAfter loop b (reattach d loop pid b)
unfolding reattach
reattach-IsLookedAfter d loop pid b =
    let m = mark_reattached d.now loop (record b { recovered = b.recovered ++ (loop, pid) ∷ [] }) in
    (
      ap (λ hs. hs ++ loop ∷ [])
          (mark_reattached-live_handles d.now loop
            (record b { recovered = b.recovered ++ (loop, pid) ∷ [] })),
      start_schedulers-heartbeat d loop (get_loop_token d.platform loop m.tokens) m.schedulers,
    )

looked_after :
    (d : Deps) (loop : Text) (pid : ℤ) (b c : Boot)
    → c.live_handles ≡ b.live_handles
    → IsLookedAfter loop b (reattach d loop pid c)
looked_after d loop pid b c e =
    let (handles, heart) = reattach-IsLookedAfter d loop pid c in
    (handles ∙ ap (λ hs. hs ++ loop ∷ []) e, heart)

reattach_live_job-run :
    (d : Deps) (o : Outside) (job : LocalJob) (pid : ℤ) (meta : LoopTokenMeta) (b : Boot)
    → pid_of job ≡ some pid
    → get_loop_token d.platform job.loop_id b.tokens ≡ some meta
    → d.is_process_running pid ≡ true
    → reattach_live_job d o job b
      ≡ resume (reconcile_cloud_loop_status d o job true b) (settle d job.loop_id pid)
unfolding reattach_live_job reattach_job
reattach_live_job-run d o job pid meta b e f g =
    let run = (reconcile_cloud_loop_status d o job true >>= settle d job.loop_id pid) b in
    let gone : Option Unit × Boot =
      (some tt, record b { finalizing = b.finalizing ++ job.loop_id ∷ [] }) in
    subst (λ x. (elim x [ none ↦ (some tt, b) | some p ↦ reattach_job d o job p b ]) ≡ run) (sym e)
      (subst
        (λ x.
          (elim x [ none ↦ (some tt, b) | some _ ↦ if d.is_process_running pid then run else gone ])
          ≡ run)
        (sym f) (subst (λ x. (if x then run else gone) ≡ run) (sym g) refl))

conclude-same_heartbeats :
    (d : Deps) (o : Outside) (job : LocalJob) (result : CloudLoopStatus) (a : Disposition)
    (b : Boot)
    → a ≢ pop_fallback
    → (conclude d o job result a b).1.heartbeats ≡ b.heartbeats
unfolding conclude finalize_as_terminal
conclude-same_heartbeats d o job result pop_fallback b h = absurd (h refl)
conclude-same_heartbeats d o job result (terminal r) b h = refl
conclude-same_heartbeats d o job result live b h = refl
conclude-same_heartbeats d o job result (transient r) b h = refl

conclude-no_revival :
    (d : Deps) (o : Outside) (job : LocalJob) (result : CloudLoopStatus) (b : Boot)
    → (conclude d o job result
        (classify_loop_status (cloud_status_to_http result) (some (kind_of result)) none)
        b).1.heartbeats
      ≡ b.heartbeats
conclude-no_revival d o job result b =
    conclude-same_heartbeats d o job result
      (classify_loop_status (cloud_status_to_http result) (some (kind_of result)) none) b
      (classify-no_fallback (cloud_status_to_http result) (some (kind_of result)))

reattach_or_stop-settles :
    (d : Deps) (loop : Text) (pid : ℤ) (a : Disposition) (b c : Boot)
    → IsTracked c.schedulers
    → c.live_handles ≡ b.live_handles
    → (is_terminal a ≡ true → IsFinal d.now loop c)
    → IsEnded d.now loop b (reattach_or_stop d loop pid a c)
      ⊎ IsLookedAfter loop b (reattach_or_stop d loop pid a c)
unfolding reattach_or_stop
reattach_or_stop-settles d loop pid (terminal reason) b c k e final =
    inl (final refl, teardown_loop_clears loop c.schedulers k, e)
reattach_or_stop-settles d loop pid pop_fallback b c k e final = inr (looked_after d loop pid b c e)
reattach_or_stop-settles d loop pid live b c k e final = inr (looked_after d loop pid b c e)
reattach_or_stop-settles d loop pid (transient r) b c k e final =
    inr (looked_after d loop pid b c e)

settle-settles :
    (d : Deps) (loop : Text) (pid : ℤ) (b : Boot) (r : Option CloudLoopStatus × Boot)
    → IsReconciled d.now loop b r
    → IsTracked b.schedulers
    → (resume r (settle d loop pid)).0 ≡ some tt
    → IsEnded d.now loop b (resume r (settle d loop pid)).1
      ⊎ IsLookedAfter loop b (resume r (settle d loop pid)).1
settle-settles d loop pid b (none, c) h k e = absurd (cc)
settle-settles d loop pid b (some result, c) (same_timers, same_handles, final) k e =
    reattach_or_stop-settles d loop pid (disposition_of result) b c
      (subst IsTracked (sym same_timers) k) same_handles final

-- Where every pending timer is within reach: a live job with a token is, unless an exception ends its
-- reattachment, either finalized, without token and timers, or looked after.
pub reattach_live_job-settles :
    (d : Deps) (o : Outside) (job : LocalJob) (pid : ℤ) (meta : LoopTokenMeta) (b : Boot)
    → IsTracked b.schedulers
    → pid_of job ≡ some pid
    → get_loop_token d.platform job.loop_id b.tokens ≡ some meta
    → d.is_process_running pid ≡ true
    → (reattach_live_job d o job b).0 ≡ some tt
    → IsEnded d.now job.loop_id b (reattach_live_job d o job b).1
      ⊎ IsLookedAfter job.loop_id b (reattach_live_job d o job b).1
reattach_live_job-settles d o job pid meta b k e f g h =
    let run = resume (reconcile_cloud_loop_status d o job true b) (settle d job.loop_id pid) in
    let same_run : reattach_live_job d o job b ≡ run =
      reattach_live_job-run d o job pid meta b e f g in
    subst (λ r. IsEnded d.now job.loop_id b r.1 ⊎ IsLookedAfter job.loop_id b r.1) (sym same_run)
      (settle-settles d job.loop_id pid b (reconcile_cloud_loop_status d o job true b)
        (reconcile_cloud_loop_status-IsReconciled d o job true b) k
        (sym (ap (λ r. r.0) same_run) ∙ h))

-- The reconciliation of a dead job sends no heartbeat that would revive its loop.
pub reconcile_cloud_loop_status-no_revival :
    (d : Deps) (o : Outside) (job : LocalJob) (b : Boot)
    → (reconcile_cloud_loop_status d o job false b).1.heartbeats ≡ b.heartbeats
unfolding reconcile_cloud_loop_status cloud_status
reconcile_cloud_loop_status-no_revival d o job b =
    let first = get_cloud_loop_status d.platform o.status in
    elim (Bool-cases (is_unauthorized first)) [
      | inl e ↦ elim (Option-cases (o.refresh b.tokens).0) [
        | inl f ↦ rw (e, f) refl
        | inr (done, f) ↦
            rw (e, f)
              (conclude-no_revival d o job (ask_again d o first done)
                (record b { tokens = (o.refresh b.tokens).1 }))
      ]
      | inr e ↦ rw (e) (conclude-no_revival d o job first b)
    ]
