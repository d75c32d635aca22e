-- ===== src/Approvals/Waiters.antt =====
-- The promises of an ApprovalStore (apps/desktop/src/main/approval-store.ts): who waits, who is
-- answered, and that one request is asked once.
use closedloop_electron.Base.{
  ℕ, ◌≡◌, refl, false, none, some, List, [], ◌++◌, map, Text, to_upper, is_empty, lookup, same,
  lookup-delete, lookup-insert_self, lookup-delete_self, arith, Option-cases, inl, inr, or_else,
}
use closedloop_electron.Approvals.Store.{
  Approval, ApprovalStore, Decision, Request, add, dropped, enqueue, existing, fingerprint,
  new_approval, persist, resolve_and_remove,
}

-- The promises that wait for `id`.
abbrev pub waiting : Text → ApprovalStore → List ℕ
waiting id s = or_else (lookup id s.waiters) []

-- How the decision on `id` changes the store from `s` to `t`.
pub record IsDecided (id : Text) (decision : Decision) (s t : ApprovalStore) : Type 0 where
  pub gone : lookup id t.pending_by_id ≡ none
  pub unawaited : waiting id t ≡ []
  pub answered : t.settled ≡ s.settled ++ map (λ w. (w, decision)) (waiting id s)
  pub others_pending :
      (j : Text) → same id j ≡ false → lookup j t.pending_by_id ≡ lookup j s.pending_by_id
  pub others_wait : (j : Text) → same id j ≡ false → waiting j t ≡ waiting j s

resolve_and_remove-none :
    (id : Text) (decision : Decision) (now : Text) (s : ApprovalStore)
    → lookup id s.pending_by_id ≡ none
    → resolve_and_remove id decision now s ≡ (s, none)
unfolding resolve_and_remove
resolve_and_remove-none id decision now s h = rw (h, resolve_and_remove)

pub resolve_and_remove-some :
    (id : Text) (decision : Decision) (now : Text) (a : Approval) (s : ApprovalStore)
    → lookup id s.pending_by_id ≡ some a
    → resolve_and_remove id decision now s ≡ (persist (dropped id decision now a s), some a)
unfolding resolve_and_remove
resolve_and_remove-some id decision now a s h = rw (h, resolve_and_remove)

-- A decision on a pending approval answers exactly the promises that wait for it, all with this
-- decision, ends their waiting, and touches no other approval; any further decision on the same id
-- changes nothing.
pub resolve_and_remove_lem :
    (id : Text) (a : Approval) (decision : Decision) (now : Text) (s : ApprovalStore)
    → lookup id s.pending_by_id ≡ some a
    → (IsDecided id decision s (resolve_and_remove id decision now s).0)
      × ((resolve_and_remove id decision now s).1 ≡ some a)
      × ((other : Decision) (later : Text)
          → resolve_and_remove id other later (resolve_and_remove id decision now s).0
            ≡ ((resolve_and_remove id decision now s).0, none))
resolve_and_remove_lem id a decision now s h = rw (resolve_and_remove-some id decision now a s h) (
  record {
    gone = lookup-delete_self id s.pending_by_id;
    unawaited = rw (lookup-delete_self id s.waiters);
    answered = refl;
    others_pending = λ j e. ground (arith, lookup-delete id j s.pending_by_id);
    others_wait = λ j e. ground (arith, lookup-delete id j s.waiters);
  },
  refl,
  λ other later.
      resolve_and_remove-none id other later (persist (dropped id decision now a s))
        (lookup-delete_self id s.pending_by_id),
)

fingerprint-eq :
    (sha256 : Text → Text) (r q : Request)
    → to_upper q.method ≡ to_upper r.method
    → q.path ≡ r.path
    → q.body ≡ r.body
    → fingerprint sha256 q.method q.path q.body ≡ fingerprint sha256 r.method r.path r.body
unfolding fingerprint
fingerprint-eq sha256 r q m p b = cc

enqueue-some :
    (sha256 : Text → Text) (id created_at : Text) (r : Request) (a : Approval) (s : ApprovalStore)
    → existing (fingerprint sha256 r.method r.path r.body) s ≡ some a
    → enqueue sha256 id created_at r s ≡ (s, a)
unfolding enqueue
enqueue-some sha256 id created_at r a s h = rw (h, enqueue)

enqueue-none :
    (sha256 : Text → Text) (id created_at : Text) (r : Request) (s : ApprovalStore)
    → existing (fingerprint sha256 r.method r.path r.body) s ≡ none
    → enqueue sha256 id created_at r s ≡ (
      add (new_approval id created_at (fingerprint sha256 r.method r.path r.body) r) s,
      new_approval id created_at (fingerprint sha256 r.method r.path r.body) r,
    )
unfolding enqueue
enqueue-none sha256 id created_at r s h = rw (h, enqueue)

existing_of :
    (print id : Text) (a : Approval) (s : ApprovalStore)
    → lookup print s.pending_by_fingerprint ≡ some id
    → is_empty id ≡ false
    → lookup id s.pending_by_id ≡ some a
    → existing print s ≡ some a
unfolding existing
existing_of print id a s h nonempty e = ground arith

existing-add :
    (a : Approval) (s : ApprovalStore)
    → is_empty a.id ≡ false
    → existing a.fingerprint (add a s) ≡ some a
unfolding add
existing-add a s nonempty =
    existing_of a.fingerprint a.id a (add a s)
      (lookup-insert_self a.fingerprint a.id s.pending_by_fingerprint) nonempty
      (lookup-insert_self a.id a s.pending_by_id)

-- Asking again for a request that has just been asked, in whatever case its method is written,
-- changes nothing and answers with the approval of the first time, if its id was not empty.
pub enqueue-enqueue :
    (sha256 : Text → Text) (id other created_at later : Text) (r q : Request) (s : ApprovalStore)
    → is_empty id ≡ false
    → to_upper q.method ≡ to_upper r.method
    → q.path ≡ r.path
    → q.body ≡ r.body
    → enqueue sha256 other later q (enqueue sha256 id created_at r s).0
      ≡ enqueue sha256 id created_at r s
enqueue-enqueue sha256 id other created_at later r q s nonempty m p b =
    let print = fingerprint sha256 r.method r.path r.body in
    let e : fingerprint sha256 q.method q.path q.body ≡ print = fingerprint-eq sha256 r q m p b in
    elim (Option-cases (existing print s)) [
      | inl f ↦
          let a = new_approval id created_at print r in
          rw (enqueue-none sha256 id created_at r s f)
            (enqueue-some sha256 other later q a (add a s) (rw e (existing-add a s nonempty)))
      | inr (a, f) ↦
          rw (enqueue-some sha256 id created_at r a s f)
            (enqueue-some sha256 other later q a s (rw e f))
    ]
