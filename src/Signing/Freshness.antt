-- ===== src/Signing/Freshness.antt =====
-- No replay: command-signature-verifier.ts over a sequence of calls.
use closedloop_electron.Base.{
  ℕ, ◌≤◌, ◌≡◌, ◌≢◌, sym, ap, ◌∙◌, true, false, none, some, List, [], ◌∷◌, Text, same_iff, lookup,
  lookup-insert, lookup-insert_self, arith, Option-cases, Bool-cases, inl, inr, ◌⊎◌,
}
use closedloop_electron.Json.{ℤ, Json}
use closedloop_electron.Signing.Verifier.{
  Platform, Signed, Payload, accepted, Seen, is_stale, prune_seen_nonces, nonce_key,
  check_signature, verify_payload, read_payload, verify_signed, signed_parts, verify,
}
use closedloop_electron.Signing.Window.{
  is_stale_mono, IsRecent-is_stale, lookup-prune_seen_nonces, IsAuthentic, verify-IsAuthentic,
}

-- A call of `verify`.
pub record Call : Type 0 where
  pub keys : List (Text × Text)
  pub now : ℕ
  pub command : Signed
  pub override : Json

-- The nonces after the calls.
pub run : Platform → List Call → Seen → Seen
run q [] seen = seen
run q (x ∷ xs) seen = run q xs (verify q x.keys x.now x.command x.override seen).0

-- The calls come in the order of a clock that does not go back, between two times.
abbrev pub IsOrdered : ℕ → List Call → ℕ → Type 0
IsOrdered from [] to = from ≤ to
IsOrdered from (x ∷ xs) to = (from ≤ x.now) × IsOrdered x.now xs to

-- The nonce cannot be used any more with this time.
abbrev IsSpent : Text → ℤ → ℕ → Seen → Type 0
IsSpent k ts now seen = (is_stale now ts ≡ true) ⊎ (lookup k seen ≡ some ts)

module _ (q : Platform) (now : ℕ) (k : Text) (ts : ℤ) where
  check_signature-keeps :
      (fingerprint key payload_text signature : Text) (p : Payload) (seen : Seen)
      → lookup k seen ≡ some ts
      → lookup (nonce_key fingerprint p) seen ≡ none
      → lookup k (check_signature q fingerprint key payload_text signature p seen).0 ≡ some ts
  unfolding check_signature
  check_signature-keeps fingerprint key payload_text signature p seen h new = ground (
    arith,
    lookup-insert (nonce_key fingerprint p) k p.timestamp seen,
    same_iff (nonce_key fingerprint p) k,
  )

  module _ (fresh : is_stale now ts ≡ false) where
    verify_payload-keeps :
        (fingerprint key payload_text signature : Text) (p : Payload) (c : Signed) (override : Json)
        (seen : Seen)
        → lookup k seen ≡ some ts
        → lookup k (verify_payload q now fingerprint key payload_text signature p c override seen).0
          ≡ some ts
    unfolding verify_payload
    verify_payload-keeps fingerprint key payload_text signature p c override seen h =
        let kept = lookup-prune_seen_nonces now k ts seen h fresh in
        ground (
          arith,
          kept,
          check_signature-keeps fingerprint key payload_text signature p
              (prune_seen_nonces now seen),
        )

    verify_signed-keeps :
        (fingerprint key payload_text signature : Text) (c : Signed) (override : Json) (seen : Seen)
        → lookup k seen ≡ some ts
        → lookup k (verify_signed q now fingerprint key payload_text signature c override seen).0
          ≡ some ts
    unfolding verify_signed
    verify_signed-keeps fingerprint key payload_text signature c override seen h =
        elim (Option-cases (read_payload q payload_text)) [
          | inl e ↦ rw (e, verify_signed) h
          | inr (p, e) ↦
              rw (e, verify_signed)
                (verify_payload-keeps fingerprint key payload_text signature p c override seen h)
        ]

    verify-keeps :
        (keys : List (Text × Text)) (c : Signed) (override : Json) (seen : Seen)
        → lookup k seen ≡ some ts
        → lookup k (verify q keys now c override seen).0 ≡ some ts
    unfolding verify
    verify-keeps [] c override seen h = h
    verify-keeps (j ∷ keys) c override seen h = elim (Option-cases (signed_parts c)) [
      | inl e ↦ rw (e, verify) h
      | inr ((signature, payload_text, fingerprint), e) ↦
          elim (Option-cases (lookup fingerprint (j ∷ keys))) [
            | inl f ↦ rw (e, f, verify) h
            | inr (key, f) ↦
                rw (e, f, verify)
                  (verify_signed-keeps fingerprint key payload_text signature c override seen h)
          ]
    ]

  verify-IsSpent :
      (before : ℕ) (keys : List (Text × Text)) (c : Signed) (override : Json) (seen : Seen)
      → before ≤ now
      → IsSpent k ts before seen
      → IsSpent k ts now (verify q keys now c override seen).0
  verify-IsSpent before keys c override seen h (inl old) = inl (is_stale_mono before now ts h old)
  verify-IsSpent before keys c override seen h (inr there) = elim (Bool-cases (is_stale now ts)) [
    | inl old ↦ inl old
    | inr fresh ↦ inr (verify-keeps fresh keys c override seen there)
  ]

run-IsSpent :
    (q : Platform) (k : Text) (ts : ℤ) (from to : ℕ) (calls : List Call) (seen : Seen)
    → IsOrdered from calls to
    → IsSpent k ts from seen
    → IsSpent k ts to (run q calls seen)
unfolding run
run-IsSpent q k ts from to [] seen h (inl old) = inl (is_stale_mono from to ts h old)
run-IsSpent q k ts from to [] seen h (inr there) = inr there
run-IsSpent q k ts from to (x ∷ xs) seen h spent =
    run-IsSpent q k ts x.now to xs (verify q x.keys x.now x.command x.override seen).0 h.1
      (verify-IsSpent q x.now k ts from x.keys x.command x.override seen h.0 spent)

-- A spent nonce is refused.
IsSpent-refused :
    (q : Platform) (keys : List (Text × Text)) (now : ℕ) (c : Signed) (override : Json)
    (seen after : Seen) (a : IsAuthentic q keys now c override seen after) (f : Text) (p : Payload)
    → f ≡ a.fingerprint
    → p ≡ a.payload
    → IsSpent (nonce_key f p) p.timestamp now seen
    → ⊥
IsSpent-refused q keys now c override seen after a f p e g (inl old) = cc (
  IsRecent-is_stale now a.payload.timestamp a.recent,
  old,
  ap (λ (x : Payload). is_stale now x.timestamp) g,
)
IsSpent-refused q keys now c override seen after a f p e g (inr there) =
    let fresh =
      ap (λ (x : Payload). is_stale now x.timestamp) g
      ∙ IsRecent-is_stale now a.payload.timestamp a.recent in
    let kept = lookup-prune_seen_nonces now _ _ seen there fresh in
    cc (
      a.unseen,
      kept,
      ap (λ (x : Text). lookup (nonce_key x p) (prune_seen_nonces now seen)) e,
      ap (λ (x : Payload). lookup (nonce_key a.fingerprint x) (prune_seen_nonces now seen)) g,
    )

signed_parts-eq :
    (c d : Signed) (s t x y f g : Text)
    → d.signature_payload ≡ c.signature_payload
    → d.public_key_fingerprint ≡ c.public_key_fingerprint
    → signed_parts c ≡ some (s, x, f)
    → signed_parts d ≡ some (t, y, g)
    → (x ≡ y) × (f ≡ g)
signed_parts-eq c d s t x y f g p e hc hd = ground arith

-- A command that was accepted is never accepted again, nor is another with its payload and its
-- fingerprint, whatever its signature, whatever is verified in between and whatever becomes of the
-- keys, if the clock does not go back.
pub verify_once :
    (q : Platform) (keys late_keys : List (Text × Text)) (now late : ℕ) (c d : Signed)
    (override late_override : Json) (seen : Seen) (calls : List Call)
    → (verify q keys now c override seen).1 ≡ accepted
    → d.signature_payload ≡ c.signature_payload
    → d.public_key_fingerprint ≡ c.public_key_fingerprint
    → IsOrdered now calls late
    → (verify q late_keys late d late_override
        (run q calls (verify q keys now c override seen).0)).1
      ≢ accepted
verify_once q keys late_keys now late c d override late_override seen calls h p e ordered again =
    let after = (verify q keys now c override seen).0 in
    let between = run q calls after in
    let a = verify-IsAuthentic q keys now c override seen after (ap (λ v. (after, v)) h) in
    let last = (verify q late_keys late d late_override between).0 in
    let b =
      verify-IsAuthentic q late_keys late d late_override between last
        (ap (λ v. (last, v)) again) in
    let spent =
      run-IsSpent q (nonce_key a.fingerprint a.payload) a.payload.timestamp now late calls after
        ordered (inr (ap (lookup _) a.written ∙ lookup-insert_self _ _ _)) in
    let parts =
      signed_parts-eq c d a.signature b.signature a.payload_text b.payload_text a.fingerprint
        b.fingerprint p e a.is_signed b.is_signed in
    let payloads = sym a.is_read ∙ ap (read_payload q) parts.0 ∙ b.is_read in
    IsSpent-refused q late_keys late d late_override between last b a.fingerprint a.payload parts.1
      (cc payloads) spent
