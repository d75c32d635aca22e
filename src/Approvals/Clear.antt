-- ===== src/Approvals/Clear.antt =====
-- ApprovalStore.clear (apps/desktop/src/main/approval-store.ts).
use closedloop_electron.Base.{
  ℕ, ◌≡◌, refl, sym, ap, ◌∙◌, none, some, List, [], ◌∷◌, ◌++◌, map, Text, lookup, delete, same_iff,
  same_refl, lookup-delete, IsMap, arith,
}
use mathlib.Core.List.{append-nil, append_assoc}
use closedloop_electron.Approvals.Store.{
  Approval, ApprovalStore, Decision, denied, clear, deny_all, dropped, persist, resolve_and_remove,
}
use closedloop_electron.Approvals.Index.{IsValid, resolve_and_remove-IsValid}
use closedloop_electron.Approvals.Waiters.{waiting, resolve_and_remove-some}

abbrev pub keys : List (Text × Approval) → List Text
keys = map (λ e. e.0)

-- A denial for each promise that waits for one of `ids`.
abbrev pub denials : List Text → ApprovalStore → List (ℕ × Decision)
denials [] s = []
denials (id ∷ ids) s = map (λ w. (w, denied)) (waiting id s) ++ denials ids s

delete-none : (id : Text) (m : List (Text × Approval)) → lookup id m ≡ none → delete id m ≡ m
unfolding lookup delete
delete-none id [] h = refl
delete-none id ((k, a) ∷ m) h = ground (arith, delete-none id m)

abbrev next : Text → Approval → Text → ApprovalStore → ApprovalStore
next id a now s = persist (dropped id denied now a s)

denials-next :
    (id : Text) (a : Approval) (now : Text) (m : List (Text × Approval)) (s : ApprovalStore)
    → lookup id m ≡ none
    → denials (keys m) (next id a now s) ≡ denials (keys m) s
unfolding lookup
denials-next id a now [] s h = refl
denials-next id a now ((k, b) ∷ m) s h =
    ground
      (arith, denials-next id a now m s, lookup-delete id k s.waiters, same_iff k id, same_iff id k)

lookup-first :
    (id : Text) (a : Approval) (m : List (Text × Approval)) (s : ApprovalStore)
    → s.pending_by_id ≡ (id, a) ∷ m
    → lookup id s.pending_by_id ≡ some a
unfolding lookup
lookup-first id a m s here = ground (arith, same_refl id, ap (lookup id) here)

pending-next :
    (id : Text) (a : Approval) (now : Text) (m : List (Text × Approval)) (s : ApprovalStore)
    → lookup id m ≡ none
    → s.pending_by_id ≡ (id, a) ∷ m
    → (next id a now s).pending_by_id ≡ m
unfolding delete
pending-next id a now m s h here =
    ap (delete id) here ∙ ground (arith, same_refl id, delete-none id m)

deny_all-IsValid :
    (ids : List Text) (now : Text) (s : ApprovalStore) → IsValid s → IsValid (deny_all ids now s)
unfolding deny_all
deny_all-IsValid [] now s v = v
deny_all-IsValid (id ∷ ids) now s v =
    deny_all-IsValid ids now (resolve_and_remove id denied now s).0
      (resolve_and_remove-IsValid id denied now s v)

deny_all_lem :
    (m : List (Text × Approval)) (now : Text) (s : ApprovalStore)
    → IsMap m
    → s.pending_by_id ≡ m
    → ((deny_all (keys m) now s).pending_by_id ≡ [])
      × ((deny_all (keys m) now s).settled ≡ s.settled ++ denials (keys m) s)
unfolding deny_all
deny_all_lem [] now s once here = (here, sym (append-nil s.settled))
deny_all_lem ((id, a) ∷ m) now s once here =
    let t = next id a now s in
    let found : lookup id s.pending_by_id ≡ some a = lookup-first id a m s here in
    let rest = deny_all_lem m now t once.1 (pending-next id a now m s once.0 here) in
    rw (resolve_and_remove-some id denied now a s found, deny_all)
      (
        rest.0,
        rest.1
            ∙ ap (λ d. t.settled ++ d) (denials-next id a now m s once.0)
            ∙ append_assoc s.settled (map (λ w. (w, denied)) (waiting id s)) (denials (keys m) s),
      )

-- In a well-formed store, `clear` denies every promise that waits for a pending approval, in the
-- order of the map; after it no approval is pending, also on disk, and no promise waits.
pub clear_lem :
    (now : Text) (s : ApprovalStore)
    → IsValid s
    → ((clear now s).pending_by_id ≡ [])
      × ((clear now s).disk ≡ [])
      × ((clear now s).settled ≡ s.settled ++ denials (keys s.pending_by_id) s)
      × ((id : Text) → waiting id (clear now s) ≡ [])
unfolding clear lookup
clear_lem now s v =
    let t = deny_all (keys s.pending_by_id) now s in
    let d = deny_all_lem s.pending_by_id now s v.pending_once refl in
    let w = deny_all-IsValid (keys s.pending_by_id) now s v in
    (d.0, rw d.0, d.1, λ id. ground (arith, w.awaited id, ap (lookup id) d.0))
