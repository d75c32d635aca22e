-- ===== src/Loops/Requests.antt =====
-- What `refreshLoopToken` of loop-refresh.ts sends: how many requests, and with which keys.
use closedloop_electron.Base.{
  resume, pure, ℕ, suc, or_else, ◌≡◌, refl, insert, ◌⊎◌, inl, inr, Bool, true, false, Option, none,
  some, [], text, ◌∷◌, ◌++◌, Text, same_refl, same_iff, arith, if◌then◌else◌, Bool-cases,
  Option-cases,
}
use closedloop_electron.Json.{Json}
use closedloop_electron.Heartbeat.Gate.{is_endpoint_disabled}
use closedloop_electron.Loops.Tokens.{
  LoopTokenMeta, Platform, set_loop_token, get_loop_token, open_meta, meta_json, IsFaithful,
  get_loop_token-set,
}
use closedloop_electron.Loops.Refresh.{
  RefreshResult, Answer, rejects, answers, World, extract_code_from_body, Setting, is_ok, json_of,
  write_meta, accept_body, refuse, handle_answer, request_of, fetch, attempt_refresh, stored_key,
  first_key, persist_key, persist_first_key, is_race_lost, retry_refresh, refresh_loop_token,
  endpoint_path,
}

-- The server said that another refresh was first.
abbrev pub IsRaceLost : Platform → Answer → Type 0
IsRaceLost p (rejects message) = ⊥
IsRaceLost p (answers status body) =
    (status ≡ 409) × (extract_code_from_body p (or_else body []) ≡ some (text "RACE_LOST"))

abbrev pub lost : Option RefreshResult → Bool
lost none = false
lost (some r) = is_race_lost r

module _ (s : Setting) where
  -- Either nothing is sent, or one request, made of the store as it is, and a race is lost only by
  -- the server's word.
  abbrev pub SendsOne : Text → World → Option RefreshResult × World → Type 0
  SendsOne key w (r, t) =
      ((t.sent ≡ w.sent) × (lost r ≡ false))
      ⊎ ((token : Text) × (t.sent ≡ w.sent ++ request_of s token key w ∷ [])
          × (lost r ≡ true → IsRaceLost s.platform (s.server (request_of s token key w)).0))

  write_meta-sent : (m : LoopTokenMeta) (w : World) → (write_meta s m w).1.sent ≡ w.sent
  unfolding write_meta
  write_meta-sent m w = ground arith

  pub handle_answer-sent :
      (key : Text) (a : Answer) (w : World) → (handle_answer s key a w).1.sent ≡ w.sent
  unfolding handle_answer accept_body refuse write_meta
  handle_answer-sent key (rejects message) w = refl
  handle_answer-sent key (answers status body) w = ground arith

  accept_body-lost :
      (key : Text) (body : Option Json) (w : World) → lost (accept_body s key body w).0 ≡ false
  unfolding accept_body write_meta
  accept_body-lost key none w = refl
  accept_body-lost key (some body) w = ground arith

  refuse-lost :
      (status : ℕ) (body : Text) (w : World)
      → lost (refuse s status body w).0 ≡ true
      → (status ≡ 409) × (extract_code_from_body s.platform body ≡ some (text "RACE_LOST"))
  unfolding refuse
  refuse-lost status body w e = elim (Option-cases (extract_code_from_body s.platform body)) [
    | inl n ↦ ground arith
    | inr (c, n) ↦ ground (arith, same_iff c (text "RACE_LOST"))
  ]

  handle_answer-lost :
      (key : Text) (a : Answer) (w : World)
      → lost (handle_answer s key a w).0 ≡ true
      → IsRaceLost s.platform a
  unfolding handle_answer
  handle_answer-lost key (rejects message) w e = cc
  handle_answer-lost key (answers status body) w e = elim (Bool-cases (is_ok status)) [
    | inl k ↦ ground (arith, accept_body-lost key (json_of s.platform body) w)
    | inr k ↦ ground (arith, refuse-lost status (or_else body []) w)
  ]

  pub attempt_refresh-SendsOne : (key : Text) (w : World) → SendsOne key w (attempt_refresh s key w)
  unfolding attempt_refresh fetch
  attempt_refresh-SendsOne key w = elim (Option-cases (s.get_token w.memory.disk)) [
    | inl e ↦ inl (rw (e, attempt_refresh) (refl, refl))
    | inr (token, e) ↦
        elim (Bool-cases (is_endpoint_disabled s.api_base_url (endpoint_path s) w.memory.gate)) [
          | inl d ↦ inl (rw (e, d, attempt_refresh) (refl, refl))
          | inr d ↦
              let r = request_of s token key w in
              inr (
                token,
                rw (e, d, attempt_refresh) (handle_answer-sent key (s.server r).0 (fetch s r w).1),
                rw (e, d, attempt_refresh) (handle_answer-lost key (s.server r).0 (fetch s r w).1),
              )
        ]
  ]

  -- The token that the store has, if it has one, carries the key.
  abbrev pub HasKey : Text → Option LoopTokenMeta → Type 0
  HasKey key none = Unit
  HasKey key (some m) = m.last_idempotency_key ≡ some key

  get_loop_token-available :
      (m : LoopTokenMeta) (w : World)
      → get_loop_token s.platform s.loop_id w.memory.disk ≡ some m
      → s.platform.available ≡ true
  unfolding get_loop_token open_meta
  get_loop_token-available m w e = ground arith

  pub persist_key-returns :
      (stored : Option LoopTokenMeta) (key : Text) (w : World)
      → get_loop_token s.platform s.loop_id w.memory.disk ≡ stored
      → (persist_key s stored key w).0 ≡ some tt
  unfolding persist_key write_meta set_loop_token
  persist_key-returns none key w e = refl
  persist_key-returns (some m) key w e = rw (get_loop_token-available m w e) refl

  persist_key-gate :
      (stored : Option LoopTokenMeta) (key : Text) (w : World)
      → (persist_key s stored key w).1.memory.gate ≡ w.memory.gate
  unfolding persist_key write_meta
  persist_key-gate none key w = refl
  persist_key-gate (some m) key w = ground arith

  pub persist_key-sent :
      (stored : Option LoopTokenMeta) (key : Text) (w : World)
      → (persist_key s stored key w).1.sent ≡ w.sent
  unfolding persist_key
  persist_key-sent none key w = refl
  persist_key-sent (some m) key w = write_meta-sent _ w

  pub write_meta-stored :
      (m : LoopTokenMeta) (w : World)
      → IsFaithful s.platform m
      → get_loop_token s.platform s.loop_id (write_meta s m w).1.memory.disk ≡ some m
  unfolding write_meta set_loop_token
  write_meta-stored m w h =
      let after =
        insert s.loop_id (s.platform.encrypt (s.platform.stringify (meta_json m))) w.memory.disk in
      ground (
        arith,
        same_refl s.loop_id,
        get_loop_token-set s.platform s.loop_id s.loop_id m w.memory.disk after,
      )

  pub persist_key-HasKey :
      (stored : Option LoopTokenMeta) (key : Text) (w : World)
      → ((m : LoopTokenMeta) → IsFaithful s.platform m)
      → get_loop_token s.platform s.loop_id w.memory.disk ≡ stored
      → HasKey key (get_loop_token s.platform s.loop_id (persist_key s stored key w).1.memory.disk)
  unfolding persist_key
  persist_key-HasKey none key w h e = rw e tt
  persist_key-HasKey (some m) key w h e =
      rw (write_meta-stored (record m { last_idempotency_key = some key }) w (h _)) refl

  -- The state in which the first attempt starts, and its key.
  abbrev pub IsPrepared : World → Text → World → Type 0
  IsPrepared w key t =
      (t.sent ≡ w.sent)
      × (t.memory.gate ≡ w.memory.gate)
      × (refresh_loop_token s w
          ≡ resume (attempt_refresh s key t)
              λ first. if is_race_lost first then retry_refresh s else pure first)

  -- The key that the store has, or the next random one.
  unfoldable pub prepared_key : Option LoopTokenMeta → World → Text
  prepared_key stored w = or_else (stored_key stored) (s.uuid w.drawn)

  unfoldable pub prepared : Option LoopTokenMeta → World → World
  unfolding persist_key
  prepared stored w = elim (stored_key stored) [
    | none ↦ (persist_key s stored (s.uuid w.drawn) (record w { drawn = suc w.drawn })).1
    | some key ↦ w
  ]

  pub prepared-IsPrepared :
      (stored : Option LoopTokenMeta) (w : World)
      → get_loop_token s.platform s.loop_id w.memory.disk ≡ stored
      → IsPrepared w (prepared_key stored w) (prepared stored w)
  unfolding refresh_loop_token persist_first_key first_key prepared prepared_key
  prepared-IsPrepared none w e = (refl, refl, rw (e, refresh_loop_token) refl)
  prepared-IsPrepared (some m) w e = (
    ground (arith, persist_key-sent (some m) (s.uuid w.drawn) (record w { drawn = suc w.drawn })),
    ground (arith, persist_key-gate (some m) (s.uuid w.drawn) (record w { drawn = suc w.drawn })),
    ground (
      arith,
      e,
      persist_key-returns (some m) (s.uuid w.drawn) (record w { drawn = suc w.drawn }),
    ),
  )
