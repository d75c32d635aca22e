-- ===== src/Signing/Window.antt =====
-- What `verify` of command-signature-verifier.ts accepts, and the nonces that it keeps.
use closedloop_electron.Signing.Stringify.{
  stable_stringify, canonical_query, query_json, hash_command_body,
}
use closedloop_electron.Base.{
  ◌+◌, to_upper, same_iff, ℕ, ◌≤◌, ◌≡◌, true, false, none, some, List, [], ◌∷◌, Text, lookup,
  insert, arith, Option-cases, inl, inr,
}
use closedloop_electron.Json.{ℤ, pos, negsuc, Json, arr}
use closedloop_electron.Signing.Verifier.{
  coalesce, Platform, Signed, Payload, accepted, Seen, is_stale, is_early, prune_seen_nonces,
  matches_command, nonce_key, check_signature, verify_payload, read_payload, verify_signed,
  signed_parts, verify,
}

pub is_stale_mono :
    (now later : ℕ) (ts : ℤ) → now ≤ later → is_stale now ts ≡ true → is_stale later ts ≡ true
unfolding is_stale
is_stale_mono now later (pos t) h e = ground arith
is_stale_mono now later (negsuc n) h e = ground arith

-- A nonce that is not stale is kept.
pub lookup-prune_seen_nonces :
    (now : ℕ) (k : Text) (ts : ℤ) (m : Seen)
    → lookup k m ≡ some ts
    → is_stale now ts ≡ false
    → lookup k (prune_seen_nonces now m) ≡ some ts
unfolding lookup prune_seen_nonces
lookup-prune_seen_nonces now k ts [] h e = cc
lookup-prune_seen_nonces now k ts ((j, u) ∷ m) h e =
    ground (arith, lookup-prune_seen_nonces now k ts m)

-- At most 45 seconds past, and at most 5 ahead.
abbrev pub IsRecent : ℕ → ℤ → Type 0
IsRecent now (pos t) = (now ≤ t + 45) × (t ≤ now + 5)
IsRecent now (negsuc n) = (now + (n + 1) ≤ 45) × Unit {0}

IsRecent-of_tests :
    (now : ℕ) (ts : ℤ) → is_stale now ts ≡ false → is_early now ts ≡ false → IsRecent now ts
unfolding is_stale is_early
IsRecent-of_tests now (pos t) h e = ground arith
IsRecent-of_tests now (negsuc n) h e = ground arith

pub IsRecent-is_stale : (now : ℕ) (ts : ℤ) → IsRecent now ts → is_stale now ts ≡ false
unfolding is_stale
IsRecent-is_stale now (pos t) h = ground arith
IsRecent-is_stale now (negsuc n) h = ground arith

-- Each part of the payload is that of the command.
IsSameCommand : Platform → Signed → Json → Payload → Type 0
IsSameCommand q c override p =
    (p.command_id ≡ c.command_id)
    × (p.method ≡ to_upper c.method)
    × (p.path ≡ c.path)
    × (stable_stringify q.quote q.print (arr p.query)
        ≡ stable_stringify q.quote q.print (arr (query_json (canonical_query q.locale_lt c.query))))
    × (p.body_hash ≡ hash_command_body q.quote q.print q.digest (coalesce override c.body))

matches_command-IsSameCommand :
    (q : Platform) (c : Signed) (override : Json) (p : Payload)
    → matches_command q c override p ≡ true
    → IsSameCommand q c override p
unfolding matches_command IsSameCommand
matches_command-IsSameCommand q c override p h = ground (
  arith,
  same_iff p.command_id c.command_id,
  same_iff p.method (to_upper c.method),
  same_iff p.path c.path,
  same_iff (stable_stringify q.quote q.print (arr p.query))
      (stable_stringify q.quote q.print (arr (query_json (canonical_query q.locale_lt c.query)))),
  same_iff p.body_hash (hash_command_body q.quote q.print q.digest (coalesce override c.body)),
)

-- Why a command was accepted at `now`, with the nonces `seen` before it and `after` it.
pub record IsAuthentic (q : Platform) (keys : List (Text × Text)) (now : ℕ) (c : Signed)
    (override : Json) (seen after : Seen) : Type 0 where
  pub signature : Text
  pub payload_text : Text
  pub fingerprint : Text
  pub key : Text
  pub payload : Payload
  pub is_signed : signed_parts c ≡ some (signature, payload_text, fingerprint)
  pub authorized : lookup fingerprint keys ≡ some key
  pub is_read : read_payload q payload_text ≡ some payload
  pub checked : q.check key payload_text signature ≡ some true
  pub same_id : payload.command_id ≡ c.command_id
  pub same_method : payload.method ≡ to_upper c.method
  pub same_path : payload.path ≡ c.path
  pub same_query :
      stable_stringify q.quote q.print (arr payload.query)
      ≡ stable_stringify q.quote q.print (arr (query_json (canonical_query q.locale_lt c.query)))
  pub same_body :
      payload.body_hash ≡ hash_command_body q.quote q.print q.digest (coalesce override c.body)
  pub recent : IsRecent now payload.timestamp
  pub unseen : lookup (nonce_key fingerprint payload) (prune_seen_nonces now seen) ≡ none
  pub written :
      after ≡ insert (nonce_key fingerprint payload) payload.timestamp (prune_seen_nonces now seen)

module _ (q : Platform) (now : ℕ) (fingerprint key payload_text signature : Text) where
  check_signature-accepted :
      (p : Payload) (seen after : Seen)
      → check_signature q fingerprint key payload_text signature p seen ≡ (after, accepted)
      → (q.check key payload_text signature ≡ some true)
        × (after ≡ insert (nonce_key fingerprint p) p.timestamp seen)
  unfolding check_signature
  check_signature-accepted p seen after h = ground arith

  verify_payload-accepted :
      (p : Payload) (c : Signed) (override : Json) (seen after : Seen)
      → verify_payload q now fingerprint key payload_text signature p c override seen
        ≡ (after, accepted)
      → (is_stale now p.timestamp ≡ false)
        × (is_early now p.timestamp ≡ false)
        × (matches_command q c override p ≡ true)
        × (lookup (nonce_key fingerprint p) (prune_seen_nonces now seen) ≡ none)
        × (q.check key payload_text signature ≡ some true)
        × (after ≡ insert (nonce_key fingerprint p) p.timestamp (prune_seen_nonces now seen))
  unfolding verify_payload
  verify_payload-accepted p c override seen after h =
      ground (arith, check_signature-accepted p (prune_seen_nonces now seen) after)

  verify_signed-accepted :
      (c : Signed) (override : Json) (seen after : Seen)
      → verify_signed q now fingerprint key payload_text signature c override seen
        ≡ (after, accepted)
      → (p : Payload) × (read_payload q payload_text ≡ some p)
        × (verify_payload q now fingerprint key payload_text signature p c override seen
            ≡ (after, accepted))
  unfolding verify_signed
  verify_signed-accepted c override seen after h =
      elim (Option-cases (read_payload q payload_text)) [
        | inl e ↦ ground arith
        | inr (p, e) ↦ (p, e, ground arith)
      ]

verify-parts :
    (q : Platform) (keys : List (Text × Text)) (now : ℕ) (c : Signed) (override : Json)
    (seen after : Seen)
    → verify q keys now c override seen ≡ (after, accepted)
    → (signature : Text) × (payload_text : Text) × (fingerprint : Text) × (key : Text)
      × (signed_parts c ≡ some (signature, payload_text, fingerprint))
      × (lookup fingerprint keys ≡ some key)
      × (verify_signed q now fingerprint key payload_text signature c override seen
          ≡ (after, accepted))
unfolding verify
verify-parts q [] now c override seen after h = cc
verify-parts q (k ∷ keys) now c override seen after h = elim (Option-cases (signed_parts c)) [
  | inl e ↦ ground arith
  | inr ((signature, payload_text, fingerprint), e) ↦
      elim (Option-cases (lookup fingerprint (k ∷ keys))) [
        | inl f ↦ ground arith
        | inr (key, f) ↦ (signature, payload_text, fingerprint, key, e, f, ground arith)
      ]
]

-- A command is accepted only if it is signed with an authorized key, the signature is good for the
-- text of its payload, the payload is what the command says (its id, method, path, query and body),
-- its time is at most 45 seconds past and 5 ahead, and its nonce was not seen; the nonce is written.
pub verify-IsAuthentic :
    (q : Platform) (keys : List (Text × Text)) (now : ℕ) (c : Signed) (override : Json)
    (seen after : Seen)
    → verify q keys now c override seen ≡ (after, accepted)
    → IsAuthentic q keys now c override seen after
unfolding IsSameCommand
verify-IsAuthentic q keys now c override seen after h =
    let (signature, payload_text, fingerprint, key, e, f, g) =
      verify-parts q keys now c override seen after h in
    let (p, r, v) =
      verify_signed-accepted q now fingerprint key payload_text signature c override seen after g in
    let w =
      verify_payload-accepted q now fingerprint key payload_text signature p c override seen after
        v in
    let m : IsSameCommand q c override p = matches_command-IsSameCommand q c override p w.2 in
    record {
      signature = signature;
      payload_text = payload_text;
      fingerprint = fingerprint;
      key = key;
      payload = p;
      is_signed = e;
      authorized = f;
      is_read = r;
      checked = w.4;
      same_id = m.0;
      same_method = m.1;
      same_path = m.2;
      same_query = m.3;
      same_body = m.4;
      recent = IsRecent-of_tests now p.timestamp w.0 w.1;
      unseen = w.3;
      written = w.5;
    }
