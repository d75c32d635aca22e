-- ===== src/Heartbeat/Guarantees.antt =====
-- What a tick of loop-heartbeat.ts does to a loop, and what it leaves alone.
use closedloop_electron.Base.{
  ◌≡◌, refl, ap, ◌∙◌, Bool, true, false, ◌||◌, Option, none, some, [], ◌∷◌, ◌++◌, Text, ◌==◌, arith,
  if◌then◌else◌,
}
use closedloop_electron.Json.{ℤ}
use closedloop_electron.JobStore.{LocalJob, get_by_loop_id}
use closedloop_electron.Heartbeat.Classifier.{
  TerminalReason, not_found, unauthorized, gone, Disposition, terminal, pop_fallback, live,
  transient, classify_status, classify_loop_status,
}
use closedloop_electron.Heartbeat.Gate.{is_endpoint_disabled}
use closedloop_electron.Heartbeat.Tick.{
  HttpResult, success, http, network, timeout, auth, unknown_status, Monitor, heartbeat_path,
  target_status, is_alive, persist_revival_token, disable_if_not_found, finalize, conclude,
  handle_result, run_heartbeat_tick,
}

-- An answer that says nothing definite: no HTTP answer, or a status other than 401, 404 and 410.
abbrev pub IsInconclusive : HttpResult → Type 0
IsInconclusive (http status) =
    ((status == 401) ≡ false) × ((status == 404) ≡ false) × ((status == 410) ≡ false)
IsInconclusive (network e) = Unit
IsInconclusive timeout = Unit
IsInconclusive (success token) = ⊥
IsInconclusive auth = ⊥

module _ (server : Text) (running : Option (ℤ → Bool)) (has_store : Bool) (loop : Text)
    (suppress : Bool) where
  -- A failed heartbeat that says nothing definite (no HTTP answer, or a status other than 401, 404
  -- and 410) changes nothing.
  pub tick-inconclusive :
      (result : HttpResult) (m : Monitor)
      → IsInconclusive result
      → run_heartbeat_tick server running has_store loop suppress result m ≡ m
  unfolding run_heartbeat_tick handle_result conclude classify_loop_status classify_status
  tick-inconclusive (http status) m h = ground arith
  tick-inconclusive (network e) m h = ground arith
  tick-inconclusive timeout m h = ground arith
  tick-inconclusive (success token) m h = elim h [ ]
  tick-inconclusive auth m h = elim h [ ]

  disable-jobs :
      (reason : TerminalReason) (m : Monitor)
      → let t = disable_if_not_found server loop suppress reason m in
        (t.jobs ≡ m.jobs) × (t.finalized ≡ m.finalized) × (t.stopped ≡ m.stopped)
  unfolding disable_if_not_found
  disable-jobs reason m = ground arith

  finalize-alive :
      (job : LocalJob) (reason : TerminalReason) (m : Monitor)
      → get_by_loop_id loop m.jobs ≡ some job
      → is_alive running job ≡ true
      → finalize running loop reason m ≡ record m { suppressed = m.suppressed ++ job ∷ [] }
  unfolding finalize
  finalize-alive job reason m here alive = rw (here, alive, finalize)

  conclude-alive :
      (job : LocalJob) (d : Disposition) (m : Monitor)
      → get_by_loop_id loop m.jobs ≡ some job
      → is_alive running job ≡ true
      → let t = conclude server running loop suppress d m in
        (t.finalized ≡ m.finalized) × (t.stopped ≡ m.stopped)
  unfolding conclude
  conclude-alive job (terminal reason) m here alive =
      let k = disable-jobs reason m in
      let t = disable_if_not_found server loop suppress reason m in
      rw (finalize-alive job reason t (ap (get_by_loop_id loop) k.0 ∙ here) alive) (k.1, k.2)
  conclude-alive job pop_fallback m here alive = (refl, refl)
  conclude-alive job live m here alive = (refl, refl)
  conclude-alive job (transient reason) m here alive = (refl, refl)

  revival-finalized :
      (token : Option Text) (m : Monitor)
      → let t = persist_revival_token has_store loop token m in
        (t.finalized ≡ m.finalized) × (t.stopped ≡ m.stopped)
  unfolding persist_revival_token
  revival-finalized none m = (refl, refl)
  revival-finalized (some token) m = ground arith

  if-kept :
      (b : Bool) (m t : Monitor)
      → (t.finalized ≡ m.finalized) × (t.stopped ≡ m.stopped)
      → let u = if b then m else t in (u.finalized ≡ m.finalized) × (u.stopped ≡ m.stopped)
  if-kept true m t h = (refl, refl)
  if-kept false m t h = h

  result-alive :
      (job : LocalJob) (result : HttpResult) (m : Monitor)
      → get_by_loop_id loop m.jobs ≡ some job
      → is_alive running job ≡ true
      → let t = handle_result server running has_store loop suppress result m in
        (t.finalized ≡ m.finalized) × (t.stopped ≡ m.stopped)
  unfolding handle_result
  result-alive job (success token) m here alive = revival-finalized token m
  result-alive job (http status) m here alive =
      conclude-alive job (classify_loop_status (some status) none none) m here alive
  result-alive job (network e) m here alive =
      conclude-alive job (classify_loop_status none none none) m here alive
  result-alive job timeout m here alive =
      conclude-alive job (classify_loop_status none none none) m here alive
  result-alive job auth m here alive =
      conclude-alive job (classify_loop_status (some 401) none none) m here alive

  -- While the process of the loop's job runs, no answer finalizes the job or stops the heartbeat.
  pub tick-alive :
      (job : LocalJob) (result : HttpResult) (m : Monitor)
      → get_by_loop_id loop m.jobs ≡ some job
      → is_alive running job ≡ true
      → ((run_heartbeat_tick server running has_store loop suppress result m).finalized
          ≡ m.finalized)
        × ((run_heartbeat_tick server running has_store loop suppress result m).stopped ≡ m.stopped)
  unfolding run_heartbeat_tick
  tick-alive job result m here alive =
      if-kept (is_endpoint_disabled server (heartbeat_path loop) m.gate) m _
        (result-alive job result m here alive)

-- An answer that says that the loop is over.
abbrev pub IsConclusive : HttpResult → Type 0
IsConclusive (http status) = ((status == 401) || (status == 404) || (status == 410)) ≡ true
IsConclusive auth = Unit
IsConclusive (success token) = ⊥
IsConclusive (network e) = ⊥
IsConclusive timeout = ⊥

module _ (server : Text) (running : Option (ℤ → Bool)) (has_store : Bool) (loop : Text)
    (suppress : Bool) (m : Monitor) (job : LocalJob) where
  finalize-dead :
      (reason : TerminalReason) (t : Monitor)
      → get_by_loop_id loop t.jobs ≡ some job
      → is_alive running job ≡ false
      → let u = finalize running loop reason t in
        (u.finalized ≡ t.finalized ++ (job, target_status reason) ∷ []) × (u.stopped ≡ true)
  unfolding finalize
  finalize-dead reason t here dead = rw (here, dead, finalize) (refl, refl)

  conclude-dead :
      (reason : TerminalReason)
      → get_by_loop_id loop m.jobs ≡ some job
      → is_alive running job ≡ false
      → target_status reason ≡ unknown_status
      → let u = conclude server running loop suppress (terminal reason) m in
        (u.finalized ≡ m.finalized ++ (job, unknown_status) ∷ []) × (u.stopped ≡ true)
  unfolding conclude
  conclude-dead reason here dead e =
      let t = disable_if_not_found server loop suppress reason m in
      let k = disable-jobs server running has_store loop suppress reason m in
      let f = finalize-dead reason t (ap (get_by_loop_id loop) k.0 ∙ here) dead in
      (f.0 ∙ ground (arith, k.1, e), f.1)

  -- With the gate open, an answer that the loop is over finalizes the job of a process that is not
  -- known to run, once and as `UNKNOWN`, and stops the heartbeat.
  pub tick-dead :
      (result : HttpResult)
      → is_endpoint_disabled server (heartbeat_path loop) m.gate ≡ false
      → get_by_loop_id loop m.jobs ≡ some job
      → is_alive running job ≡ false
      → IsConclusive result
      → ((run_heartbeat_tick server running has_store loop suppress result m).finalized
          ≡ m.finalized ++ (job, unknown_status) ∷ [])
        × ((run_heartbeat_tick server running has_store loop suppress result m).stopped ≡ true)
  unfolding run_heartbeat_tick handle_result classify_loop_status classify_status
  tick-dead (http status) open_gate here dead h = ground (
    arith,
    conclude-dead unauthorized here dead,
    conclude-dead not_found here dead,
    conclude-dead gone here dead,
  )
  tick-dead auth open_gate here dead h = rw open_gate (conclude-dead unauthorized here dead refl)
  tick-dead (success token) open_gate here dead h = elim h [ ]
  tick-dead (network e) open_gate here dead h = elim h [ ]
  tick-dead timeout open_gate here dead h = elim h [ ]
