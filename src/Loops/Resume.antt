-- ===== src/Loops/Resume.antt =====
-- What `refreshLoopToken` of loop-refresh.ts leaves behind: the key for a refresh after the program
-- was killed, the endpoint that a 404 disables, and the token of a success.
use closedloop_electron.Base.{
  suc, ◌≡◌, refl, ◌∙◌, sym, subst, inl, inr, Option, none, some, List, [], ◌∷◌, ◌++◌, Text, All,
  arith, Option-cases,
}
use closedloop_electron.Loops.Tokens.{LoopTokenMeta, get_loop_token, IsFaithful}
use closedloop_electron.Loops.Refresh.{
  Memory, Request, World, Setting, stored_key, refresh_loop_token,
}
use closedloop_electron.Loops.Requests.{HasKey, persist_key-HasKey, prepared_key, prepared}
use closedloop_electron.Loops.Keys.{
  stored, Carries, Plan, retried, refresh-Plan, first_request_key, second_request_key,
  refresh_loop_token-sent,
}

append-cancel {ℓ} : {A : Type ℓ} (xs ys zs : List A) → xs ++ ys ≡ xs ++ zs → ys ≡ zs
append-cancel [] ys zs e = e
append-cancel (x ∷ xs) ys zs e = append-cancel xs ys zs (cc)

pub All-middle {ℓ κ} :
    {A : Type ℓ} (P : A → Type κ) (xs ys : List A) (y : A) → All P (xs ++ y ∷ ys) → P y
All-middle P [] ys y h = h.0
All-middle P (x ∷ xs) ys y h = All-middle P xs ys y h.1

module _ (s : Setting) where
  -- The store that the request saw has the request's key, if it has a token of the loop.
  abbrev pub IsRecorded : Request → Type 0
  IsRecorded r = HasKey s r.key (get_loop_token s.platform s.loop_id r.seen.disk)

  abbrev Recorded : Text → Memory → Type 0
  Recorded key m = HasKey s key (get_loop_token s.platform s.loop_id m.disk)

  HasKey-stored : (m : Option LoopTokenMeta) (key : Text) → stored_key m ≡ some key → HasKey s key m
  HasKey-stored none key e = tt
  HasKey-stored (some m) key e = e

  prepared-Recorded :
      (w : World)
      → ((m : LoopTokenMeta) → IsFaithful s.platform m)
      → Recorded (first_request_key s w) (prepared s (stored s w) w).memory
  unfolding prepared prepared_key
  prepared-Recorded w h = elim (Option-cases (stored_key (stored s w))) [
    | inl e ↦
        rw (e, prepared)
          (persist_key-HasKey s (stored s w) (s.uuid w.drawn) (record w { drawn = suc w.drawn }) h
            refl)
    | inr (key, e) ↦ rw (e, prepared) (HasKey-stored (stored s w) key e)
  ]

  Carries-IsRecorded : (key : Text) (r : Request) → Carries s Recorded key r → IsRecorded r
  Carries-IsRecorded key r (e, h) = rw e h

  Plan-IsRecorded :
      (first second : Text) (new : List Request)
      → Plan s Recorded first second new
      → All IsRecorded new
  Plan-IsRecorded first second [] h = tt
  Plan-IsRecorded first second (r ∷ []) h = (Carries-IsRecorded first r h, tt)
  Plan-IsRecorded first second (r ∷ q ∷ []) (h, _, k) =
      (Carries-IsRecorded first r h, (Carries-IsRecorded second q k, tt))
  Plan-IsRecorded first second (r ∷ q ∷ p ∷ rest) h = elim h [ ]

  retried-Recorded :
      (w : World)
      → ((m : LoopTokenMeta) → IsFaithful s.platform m)
      → Recorded (s.uuid w.drawn) (retried s w).memory
  unfolding retried
  retried-Recorded w h =
      persist_key-HasKey s (stored s w) (s.uuid w.drawn) (record w { drawn = suc w.drawn }) h refl

  -- On a platform that reads back what it wrote, every request of a refresh leaves when the store
  -- has the request's key, if it has a token of the loop at all.
  pub refresh_loop_token-IsRecorded :
      (w : World) (new : List Request)
      → ((m : LoopTokenMeta) → IsFaithful s.platform m)
      → (refresh_loop_token s w).1.sent ≡ w.sent ++ new
      → All IsRecorded new
  refresh_loop_token-IsRecorded w new h e =
      let (real, sent, plan) =
        refresh-Plan s Recorded (λ v. retried-Recorded v h) (λ v. prepared-Recorded v h) w in
      subst (All IsRecorded) (append-cancel w.sent real new (sym sent ∙ e))
        (Plan-IsRecorded (first_request_key s w) (second_request_key s w) real plan)

  first_request_key-IsRecorded :
      (w : World) (r : Request) (m : LoopTokenMeta)
      → IsRecorded r
      → get_loop_token s.platform s.loop_id r.seen.disk ≡ some m
      → w.memory.disk ≡ r.seen.disk
      → first_request_key s w ≡ r.key
  unfolding prepared_key
  first_request_key-IsRecorded w r m h e same_disk = ground arith

  Plan-first :
      (first second : Text) (r : Request) (new : List Request)
      → Plan s (λ _ _. Unit) first second (r ∷ new)
      → r.key ≡ first
  Plan-first first second r [] h = h.0
  Plan-first first second r (q ∷ []) h = h.0.0
  Plan-first first second r (q ∷ p ∷ rest) h = elim h [ ]

  pub first-key :
      (w : World) (q : Request) (more : List Request)
      → (refresh_loop_token s w).1.sent ≡ w.sent ++ q ∷ more
      → q.key ≡ first_request_key s w
  first-key w q more e =
      let (real, sent, plan) = refresh_loop_token-sent s w in
      let same_requests = append-cancel w.sent real (q ∷ more) (sym sent ∙ e) in
      Plan-first (first_request_key s w) (second_request_key s w) q more (
        subst (Plan s (λ _ _. Unit) (first_request_key s w) (second_request_key s w)) same_requests
          plan)

  -- If the program is killed while a request `r` of a refresh is under way, with a token of the loop
  -- in the store, then the first request of the next refresh that starts from that store carries the
  -- same key. It needs a platform that reads back what it wrote.
  pub refresh_loop_token-resumes :
      (w next : World) (before after : List Request) (r q : Request) (more : List Request)
      (m : LoopTokenMeta)
      → ((m : LoopTokenMeta) → IsFaithful s.platform m)
      → (refresh_loop_token s w).1.sent ≡ w.sent ++ (before ++ r ∷ after)
      → get_loop_token s.platform s.loop_id r.seen.disk ≡ some m
      → next.memory.disk ≡ r.seen.disk
      → (refresh_loop_token s next).1.sent ≡ next.sent ++ q ∷ more
      → q.key ≡ r.key
  refresh_loop_token-resumes w next before after r q more m h e t d k =
      let recorded = refresh_loop_token-IsRecorded w (before ++ r ∷ after) h e in
      first-key next q more k
      ∙ first_request_key-IsRecorded next r m (All-middle IsRecorded before after r recorded) t d
