-- ===== src/Loops/Keys.antt =====
-- The requests of `refreshLoopToken` of loop-refresh.ts, and the keys that make them idempotent.
use closedloop_electron.Base.{
  resume, pure, suc, ◌+◌, ◌≡◌, refl, ap, subst, ◌∙◌, inl, inr, Option, none, some, List, [], ◌∷◌,
  ◌++◌, Text, is_some, arith, if◌then◌else◌, Bool-cases,
}
use mathlib.Core.List.{append-nil, append_assoc}
use closedloop_electron.Loops.Tokens.{LoopTokenMeta, get_loop_token}
use closedloop_electron.Loops.Refresh.{
  RefreshResult, Memory, Request, World, Setting, request_of, attempt_refresh, handle_answer,
  accept_body, refuse, write_meta, fetch, stored_key, persist_key, is_race_lost, retry_refresh,
  refresh_loop_token,
}
use closedloop_electron.Loops.Requests.{
  IsRaceLost, lost, attempt_refresh-SendsOne, persist_key-returns, persist_key-sent, prepared_key,
  prepared, prepared-IsPrepared,
}

module _ (s : Setting) where
  abbrev pub stored : World → Option LoopTokenMeta
  stored w = get_loop_token s.platform s.loop_id w.memory.disk

  -- The key of a request, and what is known of the store when it leaves.
  abbrev pub Carries : (Text → Memory → Type 0) → Text → Request → Type 0
  Carries Q key r = (r.key ≡ key) × Q key r.seen

  -- Nothing, or one request with a first key, or two of which the first lost a race.
  abbrev pub Plan : (Text → Memory → Type 0) → Text → Text → List Request → Type 0
  Plan Q first second [] = Unit
  Plan Q first second (r ∷ []) = Carries Q first r
  Plan Q first second (r ∷ q ∷ []) =
      Carries Q first r × IsRaceLost s.platform (s.server r).0 × Carries Q second q
  Plan Q first second (r ∷ q ∷ p ∷ rest) = ⊥

  -- The state in which the second attempt starts.
  unfoldable pub retried : World → World
  retried w = (persist_key s (stored w) (s.uuid w.drawn) (record w { drawn = suc w.drawn })).1

  pub retry_refresh-eq :
      (w : World) → retry_refresh s w ≡ attempt_refresh s (s.uuid w.drawn) (retried w)
  unfolding retry_refresh retried
  retry_refresh-eq w = ground (
    arith,
    persist_key-returns s (stored w) (s.uuid w.drawn) (record w { drawn = suc w.drawn }) refl,
  )

  abbrev pub finish : Option RefreshResult × World → Option RefreshResult × World
  finish o = resume o λ first. if is_race_lost first then retry_refresh s else pure first

  pub finish-lost :
      (o : Option RefreshResult × World) → finish o ≡ (if lost o.0 then retry_refresh s o.1 else o)
  finish-lost (none, w) = refl
  finish-lost (some r, w) = ground arith

  retried-sent : (w : World) → (retried w).sent ≡ w.sent
  unfolding retried
  retried-sent w = persist_key-sent s (stored w) (s.uuid w.drawn) (record w { drawn = suc w.drawn })

  attempt_refresh-drawn : (key : Text) (w : World) → (attempt_refresh s key w).1.drawn ≡ w.drawn
  unfolding attempt_refresh handle_answer accept_body refuse write_meta fetch
  attempt_refresh-drawn key w = ground arith

  module _ (Q : Text → Memory → Type 0)
      (h : (w : World) → Q (s.uuid w.drawn) (retried w).memory) where
    retry-Plan :
        (first : Text) (r : Request) (w : World)
        → Carries Q first r
        → IsRaceLost s.platform (s.server r).0
        → (new : List Request) × ((retry_refresh s w).1.sent ≡ w.sent ++ new)
          × Plan Q first (s.uuid w.drawn) (r ∷ new)
    retry-Plan first r w c l = elim (attempt_refresh-SendsOne s (s.uuid w.drawn) (retried w)) [
      | inl (sent, _) ↦ (
        [],
        rw (retry_refresh-eq w) (sent ∙ ground (arith, retried-sent w, append-nil w.sent)),
        c,
      )
      | inr (token, sent, _) ↦ (
        request_of s token (s.uuid w.drawn) (retried w) ∷ [],
        rw (retry_refresh-eq w) (
            sent
            ∙ ap (λ l. l ++ request_of s token (s.uuid w.drawn) (retried w) ∷ []) (retried-sent w)),
        (c, l, (refl, h w)),
      )
    ]

    finish-Plan :
        (first : Text) (w : World)
        → Q first w.memory
        → (new : List Request) × ((finish (attempt_refresh s first w)).1.sent ≡ w.sent ++ new)
          × Plan Q first (s.uuid w.drawn) new
    finish-Plan first w k =
        let o = attempt_refresh s first w in
        elim (attempt_refresh-SendsOne s first w) [
          | inl (sent, kept) ↦
              ([], rw (finish-lost o) (rw kept (sent ∙ ground (arith, append-nil w.sent))), tt)
          | inr (token, sent, by_server) ↦
              let r = request_of s token first w in
              elim (Bool-cases (lost o.0)) [
                | inr kept ↦ (r ∷ [], rw (finish-lost o) (rw kept sent), (refl, k))
                | inl again ↦
                    let (new, more, plan) = retry-Plan first r o.1 (refl, k) (by_server again) in
                    (
                      r ∷ new,
                      rw (finish-lost o) (
                          rw again
                            (more ∙ (ap (λ l. l ++ new) sent ∙ append_assoc w.sent (r ∷ []) new))),
                      subst (λ d. Plan Q first (s.uuid d) (r ∷ new)) (attempt_refresh-drawn first w)
                          plan,
                    )
              ]
        ]

  -- The key of the first request, and that of the second.
  abbrev pub first_request_key : World → Text
  first_request_key w = prepared_key s (stored w) w

  abbrev pub second_request_key : World → Text
  second_request_key w = s.uuid (w.drawn + (if is_some (stored_key (stored w)) then 0 else 1))

  prepared-drawn :
      (w : World)
      → (prepared s (stored w) w).drawn
        ≡ w.drawn + (if is_some (stored_key (stored w)) then 0 else 1)
  unfolding prepared persist_key write_meta
  prepared-drawn w = ground arith

  pub refresh-Plan :
      (Q : Text → Memory → Type 0)
      → ((w : World) → Q (s.uuid w.drawn) (retried w).memory)
      → ((w : World) → Q (first_request_key w) (prepared s (stored w) w).memory)
      → (w : World)
      → (new : List Request) × ((refresh_loop_token s w).1.sent ≡ w.sent ++ new)
        × Plan Q (first_request_key w) (second_request_key w) new
  refresh-Plan Q h k w =
      let (sent, _, same_run) = prepared-IsPrepared s (stored w) w refl in
      let (new, more, plan) =
        finish-Plan Q h (first_request_key w) (prepared s (stored w) w) (k w) in
      (
        new,
        rw same_run (more ∙ ap (λ l. l ++ new) sent),
        subst (λ d. Plan Q (first_request_key w) (s.uuid d) new) (prepared-drawn w) plan,
      )

  -- A refresh sends at most two requests: the first with the key that the store has or with a new
  -- one; the second only if the server answers the first with status 409 and code RACE_LOST, and
  -- with a new key.
  pub refresh_loop_token-sent :
      (w : World)
      → (new : List Request) × ((refresh_loop_token s w).1.sent ≡ w.sent ++ new)
        × Plan (λ _ _. Unit) (first_request_key w) (second_request_key w) new
  refresh_loop_token-sent w = refresh-Plan (λ _ _. Unit) (λ _. tt) (λ _. tt) w
