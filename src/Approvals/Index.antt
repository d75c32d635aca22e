-- ===== src/Approvals/Index.antt =====
-- The two maps of an ApprovalStore (apps/desktop/src/main/approval-store.ts): what holds of them
-- after every call.
use closedloop_electron.Base.{
  ℕ, ◌≤◌, ◌≡◌, ◌↔◌, refl, false, Option, none, some, List, [], ◌∷◌, ◌++◌, map, Text, is_empty,
  lookup, insert, delete, length, same_iff, lookup-insert, lookup-delete, IsMap, insert-IsMap,
  delete-IsMap, length-take, arith, Option-cases, inl, inr, or_else,
}
use closedloop_electron.Approvals.Store.{
  Approval, ApprovalStore, Decision, Request, add, enqueue, existing, fingerprint, max_resolved,
  new_approval, resolve_and_remove, wait_for_decision,
}

-- The fingerprint of the pending approval `id`.
abbrev pub print_of : Text → List (Text × Approval) → Option Text
print_of id m = elim (lookup id m) [ none ↦ none | some a ↦ some a.fingerprint ]

-- The index by fingerprints and the map of the pending approvals are inverse to each other.
abbrev pub Indexes : List (Text × Text) → List (Text × Approval) → Type 0
Indexes prints m = (p id : Text) → (lookup p prints ≡ some id) ↔ (print_of id m ≡ some p)

-- A pending approval stands under its id, which is not empty.
abbrev pub IsKeyed : List (Text × Approval) → Type 0
IsKeyed m = (id : Text) (a : Approval) → lookup id m ≡ some a → (a.id ≡ id) × (is_empty id ≡ false)

-- A promise waits only for an approval that is pending.
abbrev pub WaitsOnly : List (Text × List ℕ) → List (Text × Approval) → Type 0
WaitsOnly waiters m = (id : Text) → lookup id m ≡ none → lookup id waiters ≡ none

pub record IsValid (s : ApprovalStore) : Type 0 where
  pub pending_once : IsMap s.pending_by_id
  pub indexed : Indexes s.pending_by_fingerprint s.pending_by_id
  pub keyed : IsKeyed s.pending_by_id
  pub awaited : WaitsOnly s.waiters s.pending_by_id
  pub bounded : length s.resolved ≤ max_resolved
  pub saved : s.disk ≡ map (λ e. e.1) s.pending_by_id

insert-Indexes :
    (a : Approval) (prints : List (Text × Text)) (m : List (Text × Approval))
    → Indexes prints m
    → lookup a.id m ≡ none
    → lookup a.fingerprint prints ≡ none
    → Indexes (insert a.fingerprint a.id prints) (insert a.id a m)
insert-Indexes a prints m v fresh unused p id = (
  (λ h. ground (
    arith,
    (v p id).0,
    lookup-insert a.fingerprint p a.id prints,
    lookup-insert a.id id a m,
    same_iff a.id id,
    same_iff a.fingerprint p,
  )),
  (λ h. ground (
    arith,
    (v p id).1,
    lookup-insert a.fingerprint p a.id prints,
    lookup-insert a.id id a m,
    same_iff a.id id,
    same_iff a.fingerprint p,
  )),
)

delete-Indexes :
    (id : Text) (a : Approval) (prints : List (Text × Text)) (m : List (Text × Approval))
    → Indexes prints m
    → lookup id m ≡ some a
    → Indexes (delete a.fingerprint prints) (delete id m)
delete-Indexes id a prints m v here p j = (
  (λ h. ground (
    arith,
    (v p j).0,
    (v a.fingerprint id).1,
    lookup-delete a.fingerprint p prints,
    lookup-delete id j m,
    same_iff id j,
    same_iff a.fingerprint p,
  )),
  (λ h. ground (
    arith,
    (v p j).1,
    (v a.fingerprint id).1,
    lookup-delete a.fingerprint p prints,
    lookup-delete id j m,
    same_iff id j,
    same_iff a.fingerprint p,
  )),
)

insert-IsKeyed :
    (a : Approval) (m : List (Text × Approval))
    → is_empty a.id ≡ false
    → IsKeyed m
    → IsKeyed (insert a.id a m)
insert-IsKeyed a m nonempty v id b h =
    ground (arith, v id b, lookup-insert a.id id a m, same_iff a.id id)

delete-IsKeyed : (id : Text) (m : List (Text × Approval)) → IsKeyed m → IsKeyed (delete id m)
delete-IsKeyed id m v j b h = ground (arith, v j b, lookup-delete id j m)

-- An unused fingerprint, seen from `existing`.
existing-none :
    (print : Text) (s : ApprovalStore)
    → IsValid s
    → existing print s ≡ none
    → lookup print s.pending_by_fingerprint ≡ none
unfolding existing
existing-none print s v h = elim (Option-cases (lookup print s.pending_by_fingerprint)) [
  | inl e ↦ e
  | inr (id, e) ↦ elim (Option-cases (lookup id s.pending_by_id)) [
    | inl f ↦ ground (arith, (v.indexed print id).0)
    | inr (a, f) ↦ ground (arith, (v.indexed print id).0, v.keyed id a)
  ]
]

add-IsValid :
    (a : Approval) (s : ApprovalStore)
    → IsValid s
    → is_empty a.id ≡ false
    → lookup a.id s.pending_by_id ≡ none
    → lookup a.fingerprint s.pending_by_fingerprint ≡ none
    → IsValid (add a s)
unfolding add
add-IsValid a s v nonempty fresh unused = record {
  pending_once = insert-IsMap a.id a s.pending_by_id v.pending_once;
  indexed = insert-Indexes a s.pending_by_fingerprint s.pending_by_id v.indexed fresh unused;
  keyed = insert-IsKeyed a s.pending_by_id nonempty v.keyed;
  awaited = λ id h. ground (arith, v.awaited id, lookup-insert a.id id a s.pending_by_id);
  bounded = v.bounded;
  saved = refl;
}

-- With an id that is new and not empty, as those of `randomUUID` are, a request leaves a
-- well-formed store well-formed.
pub enqueue-IsValid :
    (sha256 : Text → Text) (id created_at : Text) (r : Request) (s : ApprovalStore)
    → IsValid s
    → is_empty id ≡ false
    → lookup id s.pending_by_id ≡ none
    → IsValid (enqueue sha256 id created_at r s).0
unfolding enqueue
enqueue-IsValid sha256 id created_at r s v nonempty fresh =
    let print = fingerprint sha256 r.method r.path r.body in
    elim (Option-cases (existing print s)) [
      | inl e ↦
          rw (e, enqueue)
            (add-IsValid (new_approval id created_at print r) s v nonempty fresh
              (existing-none print s v e))
      | inr (a, e) ↦ rw (e, enqueue) v
    ]

pub wait_for_decision-IsValid :
    (id : Text) (w : ℕ) (s : ApprovalStore) → IsValid s → IsValid (wait_for_decision id w s)
unfolding wait_for_decision
wait_for_decision-IsValid id w s v = elim (Option-cases (lookup id s.pending_by_id)) [
  | inl e ↦
      rw (e, wait_for_decision)
        (record {
          pending_once = v.pending_once;
          indexed = v.indexed;
          keyed = v.keyed;
          awaited = v.awaited;
          bounded = v.bounded;
          saved = v.saved;
        })
  | inr (a, e) ↦
      rw (e, wait_for_decision)
        (record {
          pending_once = v.pending_once;
          indexed = v.indexed;
          keyed = v.keyed;
          awaited = λ j h. ground (
            arith,
            v.awaited j,
            lookup-insert id j (or_else (lookup id s.waiters) [] ++ w ∷ []) s.waiters,
            same_iff id j,
          );
          bounded = v.bounded;
          saved = v.saved;
        })
]

-- A decision leaves a well-formed store well-formed: its two maps stay inverse to each other.
pub resolve_and_remove-IsValid :
    (id : Text) (decision : Decision) (now : Text) (s : ApprovalStore)
    → IsValid s
    → IsValid (resolve_and_remove id decision now s).0
unfolding resolve_and_remove
resolve_and_remove-IsValid id decision now s v = elim (Option-cases (lookup id s.pending_by_id)) [
  | inl e ↦ rw (e, resolve_and_remove) v
  | inr (a, e) ↦
      rw (e, resolve_and_remove)
        (record {
          pending_once = delete-IsMap id s.pending_by_id v.pending_once;
          indexed = delete-Indexes id a s.pending_by_fingerprint s.pending_by_id v.indexed e;
          keyed = delete-IsKeyed id s.pending_by_id v.keyed;
          awaited = λ j h. ground (
            arith,
            v.awaited j,
            lookup-delete id j s.waiters,
            lookup-delete id j s.pending_by_id,
          );
          bounded = omega (
            arith,
            length-take max_resolved
                (record { approval = a; decision = decision; resolved_at = now } ∷ s.resolved),
          );
          saved = refl;
        })
]
