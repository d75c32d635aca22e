-- ===== src/Heartbeat/Stranded.antt =====
-- loop-heartbeat.ts and the process-wide gate of loop-404-gate.ts, over several ticks.
use closedloop_electron.Base.{
  ◌≡◌, refl, Bool, true, false, Option, none, some, List, [], ◌∷◌, Text, same_refl, arith,
  Bool-cases, inl, inr,
}
use closedloop_electron.Json.{ℤ}
use closedloop_electron.JobStore.{LocalJob, JobStore, get_by_loop_id}
use closedloop_electron.Heartbeat.Classifier.{
  TerminalReason, not_found, Disposition, terminal, pop_fallback, live, transient, classify_status,
  classify_loop_status,
}
use closedloop_electron.Heartbeat.Gate.{
  is_endpoint_disabled, mark_endpoint_disabled, is_endpoint_disabled-mark,
}
use closedloop_electron.Heartbeat.Tick.{
  HttpResult, success, http, network, timeout, auth, Monitor, heartbeat_path, is_alive,
  persist_revival_token, disable_if_not_found, finalize, conclude, handle_result,
  run_heartbeat_tick, send_heartbeat_now,
}
use closedloop_electron.Heartbeat.Guarantees.{tick-alive}

-- A later tick: what is known of the processes then, and what the server would answer.
abbrev pub Later : Type 0
Later = Option (ℤ → Bool) × HttpResult

pub run_ticks : Text → Bool → Text → List Later → Monitor → Monitor
run_ticks server has_store loop [] m = m
run_ticks server has_store loop ((running, result) ∷ later) m =
    run_ticks server has_store loop later
      (run_heartbeat_tick server running has_store loop false result m)

run_ticks-disabled :
    (server : Text) (has_store : Bool) (loop : Text) (later : List Later) (m : Monitor)
    → is_endpoint_disabled server (heartbeat_path loop) m.gate ≡ true
    → run_ticks server has_store loop later m ≡ m
unfolding run_ticks run_heartbeat_tick
run_ticks-disabled server has_store loop [] m shut = refl
run_ticks-disabled server has_store loop ((running, result) ∷ later) m shut =
    rw (shut, run_ticks) (run_ticks-disabled server has_store loop later m shut)

module _ (server : Text) (running : Option (ℤ → Bool)) (has_store : Bool) (loop : Text) where
  finalize-gate :
      (reason : TerminalReason) (m : Monitor) → (finalize running loop reason m).gate ≡ m.gate
  unfolding finalize
  finalize-gate reason m = ground arith

  tick-not_found :
      (m : Monitor)
      → is_endpoint_disabled server
          (heartbeat_path loop)
          (run_heartbeat_tick server running has_store loop false (http 404) m).gate
        ≡ true
  unfolding run_heartbeat_tick handle_result classify_loop_status classify_status conclude
      disable_if_not_found
  tick-not_found m = elim (Bool-cases (is_endpoint_disabled server (heartbeat_path loop) m.gate)) [
    | inl shut ↦ rw shut shut
    | inr open_gate ↦
        let path = heartbeat_path loop in
        let marked = record m { gate = mark_endpoint_disabled server path m.gate } in
        rw (open_gate, finalize-gate not_found marked)
          (ground (
            arith,
            is_endpoint_disabled-mark server path server path m.gate,
            same_refl server,
            same_refl path,
          ))
  ]

  -- After a 404 while the job's process runs, no later tick of the same loop finalizes the job or
  -- stops the heartbeat, whatever becomes of the process and whatever the server would answer.
  pub tick-stranded :
      (job : LocalJob) (m : Monitor) (later : List Later)
      → get_by_loop_id loop m.jobs ≡ some job
      → is_alive running job ≡ true
      → ((run_ticks server has_store loop later
            (run_heartbeat_tick server running has_store loop false (http 404) m)).finalized
          ≡ m.finalized)
        × ((run_ticks server has_store loop later
              (run_heartbeat_tick server running has_store loop false (http 404) m)).stopped
            ≡ m.stopped)
  tick-stranded job m later here alive =
      let t = run_heartbeat_tick server running has_store loop false (http 404) m in
      rw (run_ticks-disabled server has_store loop later t (tick-not_found m))
        (tick-alive server running has_store loop false job (http 404) m here alive)

  conclude-gate :
      (d : Disposition) (m : Monitor) → (conclude server running loop true d m).gate ≡ m.gate
  unfolding conclude disable_if_not_found
  conclude-gate (terminal reason) m = ground (arith, finalize-gate reason m)
  conclude-gate pop_fallback m = refl
  conclude-gate live m = refl
  conclude-gate (transient reason) m = refl

  result-gate :
      (result : HttpResult) (m : Monitor)
      → (handle_result server running has_store loop true result m).gate ≡ m.gate
  unfolding handle_result persist_revival_token
  result-gate (success none) m = refl
  result-gate (success (some token)) m = ground arith
  result-gate (http status) m = conclude-gate (classify_loop_status (some status) none none) m
  result-gate (network e) m = conclude-gate (classify_loop_status none none none) m
  result-gate timeout m = conclude-gate (classify_loop_status none none none) m
  result-gate auth m = conclude-gate (classify_loop_status (some 401) none none) m

  -- A heartbeat out of turn leaves the gate as it is, whatever the answer, so the scheduled ticks
  -- still see it.
  pub send_heartbeat_now-gate :
      (jobs : JobStore) (result : HttpResult) (m : Monitor)
      → (send_heartbeat_now server running has_store loop jobs result m).gate ≡ m.gate
  unfolding send_heartbeat_now run_heartbeat_tick
  send_heartbeat_now-gate jobs result m =
      ground (arith, result-gate result (record m { jobs = jobs }))
