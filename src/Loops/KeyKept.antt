-- ===== src/Loops/KeyKept.antt =====
-- The key of a refresh of loop-refresh.ts after the refresh has succeeded.
use closedloop_electron.Base.{
  pure, ◌>>=◌, ◌≡◌, refl, ap, ◌∙◌, sym, subst, inl, inr, Option, none, some, List, [], ◌∷◌, ◌++◌,
  Text, arith, Bool-cases, Option-cases,
}
use closedloop_electron.Json.{Json}
use closedloop_electron.Heartbeat.Gate.{is_endpoint_disabled}
use closedloop_electron.Loops.Tokens.{LoopTokenMeta, IsFaithful}
use closedloop_electron.Loops.Refresh.{
  RefreshResult, success, Answer, rejects, answers, Request, World, Setting, is_ok, json_of,
  endpoint_path, new_token, fresh_meta, write_meta, accept_body, refuse, handle_answer, request_of,
  fetch, attempt_refresh, refresh_loop_token,
}
use closedloop_electron.Loops.Requests.{
  lost, write_meta-stored, prepared_key, prepared, prepared-IsPrepared, handle_answer-sent,
}
use closedloop_electron.Loops.Keys.{
  stored, retried, retry_refresh-eq, finish, finish-lost, first_request_key,
}
use closedloop_electron.Loops.Resume.{first-key}

last-append {ℓ} : {A : Type ℓ} (xs ys : List A) (x y : A) → xs ++ x ∷ [] ≡ ys ++ y ∷ [] → x ≡ y
last-append [] [] x y e = cc
last-append [] (b ∷ []) x y e = cc
last-append [] (b ∷ c ∷ ys) x y e = cc
last-append (a ∷ []) [] x y e = cc
last-append (a ∷ c ∷ xs) [] x y e = cc
last-append (a ∷ xs) (b ∷ ys) x y e = last-append xs ys x y (cc)

module _ (s : Setting) (faithful : (m : LoopTokenMeta) → IsFaithful s.platform m) where
  -- A success writes its token, with the key of the request.
  abbrev IsWritten : Text → LoopTokenMeta → World → Type 0
  IsWritten key m t = (m.last_idempotency_key ≡ some key) × (stored s t ≡ some m)

  write-IsWritten :
      (key token : Text) (body : Json) (m : LoopTokenMeta) (w : World)
      → ((write_meta s (fresh_meta s.platform token body key) >>= λ _.
            pure (success (fresh_meta s.platform token body key)))
          w).0
        ≡ some (success m)
      → IsWritten key m (write_meta s (fresh_meta s.platform token body key) w).1
  unfolding write_meta
  write-IsWritten key token body m w e =
      let f = fresh_meta s.platform token body key in
      let f_m : f ≡ m = ground arith in
      (
        ap (λ (m : LoopTokenMeta). m.last_idempotency_key) (sym f_m),
        write_meta-stored s f w (faithful f) ∙ ap some f_m,
      )

  accept_body-IsWritten :
      (key : Text) (body : Option Json) (m : LoopTokenMeta) (w : World)
      → (accept_body s key body w).0 ≡ some (success m)
      → IsWritten key m (accept_body s key body w).1
  unfolding accept_body write_meta
  accept_body-IsWritten key none m w e = cc
  accept_body-IsWritten key (some body) m w e = elim (Option-cases (new_token body)) [
    | inl n ↦ ground arith
    | inr (token, n) ↦ ground (arith, write-IsWritten key token body m w)
  ]

  handle_answer-IsWritten :
      (key : Text) (a : Answer) (m : LoopTokenMeta) (w : World)
      → (handle_answer s key a w).0 ≡ some (success m)
      → IsWritten key m (handle_answer s key a w).1
  unfolding handle_answer refuse
  handle_answer-IsWritten key (rejects message) m w e = cc
  handle_answer-IsWritten key (answers status body) m w e = elim (Bool-cases (is_ok status)) [
    | inl k ↦ ground (arith, accept_body-IsWritten key (json_of s.platform body) m w)
    | inr k ↦ ground arith
  ]

  -- It is the answer to the request that was sent last.
  abbrev IsAnswered : LoopTokenMeta → World → Type 0
  IsAnswered m t =
      (before : List Request) × (r : Request) × (t.sent ≡ before ++ r ∷ []) × IsWritten r.key m t

  handle_answer-fetch-IsAnswered :
      (r : Request) (m : LoopTokenMeta) (w : World)
      → (handle_answer s r.key (s.server r).0 (fetch s r w).1).0 ≡ some (success m)
      → IsAnswered m (handle_answer s r.key (s.server r).0 (fetch s r w).1).1
  unfolding fetch
  handle_answer-fetch-IsAnswered r m w e = (
    w.sent,
    r,
    handle_answer-sent s r.key (s.server r).0 (fetch s r w).1,
    handle_answer-IsWritten r.key (s.server r).0 m (fetch s r w).1 e,
  )

  attempt_refresh-IsAnswered :
      (key : Text) (m : LoopTokenMeta) (w : World)
      → (attempt_refresh s key w).0 ≡ some (success m)
      → IsAnswered m (attempt_refresh s key w).1
  unfolding attempt_refresh
  attempt_refresh-IsAnswered key m w e = elim (Option-cases (s.get_token w.memory.disk)) [
    | inl n ↦ ground arith
    | inr (token, n) ↦
        elim (Bool-cases (is_endpoint_disabled s.api_base_url (endpoint_path s) w.memory.gate)) [
          | inl d ↦ ground arith
          | inr d ↦
              let sends : attempt_refresh s key w
                  ≡ (fetch s (request_of s token key w) >>= λ a. handle_answer s key a) w =
                ground arith in
              rw sends (
                handle_answer-fetch-IsAnswered (request_of s token key w) m w
                  (sym (ap (λ o. o.0) sends) ∙ e))
        ]
  ]

  abbrev Answers : LoopTokenMeta → Option RefreshResult × World → Type 0
  Answers m o = o.0 ≡ some (success m) → IsAnswered m o.1

  finish-Answers :
      (key : Text) (m : LoopTokenMeta) (w : World) → Answers m (finish s (attempt_refresh s key w))
  finish-Answers key m w =
      let o = attempt_refresh s key w in
      elim (Bool-cases (lost o.0)) [
        | inl k ↦
            let again : finish s o ≡ attempt_refresh s (s.uuid o.1.drawn) (retried s o.1) =
              ground (arith, finish-lost s o, retry_refresh-eq s o.1) in
            subst (Answers m) (sym again)
              (attempt_refresh-IsAnswered (s.uuid o.1.drawn) m (retried s o.1))
        | inr k ↦
            let same_end : finish s o ≡ o = ground (arith, finish-lost s o) in
            subst (Answers m) (sym same_end) (attempt_refresh-IsAnswered key m w)
      ]

  refresh_loop_token-Answers : (m : LoopTokenMeta) (w : World) → Answers m (refresh_loop_token s w)
  refresh_loop_token-Answers m w =
      let (_, _, same_run) = prepared-IsPrepared s (stored s w) w refl in
      subst (Answers m) (sym same_run)
        (finish-Answers (first_request_key s w) m (prepared s (stored s w) w))

  pub refresh_loop_token-stored :
      (m : LoopTokenMeta) (w : World)
      → (refresh_loop_token s w).0 ≡ some (success m)
      → stored s (refresh_loop_token s w).1 ≡ some m
  refresh_loop_token-stored m w e =
      let (_, _, _, written) = refresh_loop_token-Answers m w e in written.1

  -- On a platform that reads back what it wrote: after a refresh has succeeded, the next refresh of
  -- the loop that follows it at once sends the key of the answered request again.
  pub refresh_loop_token-key_kept :
      (m : LoopTokenMeta) (w : World) (before more : List Request) (r q : Request)
      → (refresh_loop_token s w).0 ≡ some (success m)
      → (refresh_loop_token s w).1.sent ≡ before ++ r ∷ []
      → (refresh_loop_token s (refresh_loop_token s w).1).1.sent
        ≡ (refresh_loop_token s w).1.sent ++ q ∷ more
      → q.key ≡ r.key
  unfolding prepared_key
  refresh_loop_token-key_kept m w before more r q e f g =
      let (head, answered, sent, written) = refresh_loop_token-Answers m w e in
      let same_request : answered ≡ r = last-append head before answered r (sym sent ∙ f) in
      ground (arith, first-key s (refresh_loop_token s w).1 q more g)
