-- ===== src/Keyring/RoundTrip.antt =====
-- What authorized-command-key-store.ts writes to its file is what it reads.
use closedloop_electron.Base.{
  ◌≡◌, refl, ap, ◌∙◌, inl, inr, true, Option, none, some, List, [], ◌∷◌, ◌++◌, Text, same, same_iff,
  All, arith, Bool-cases,
}
use closedloop_electron.Json.{str, get}
use closedloop_electron.Keyring.Formats.{
  Platform, Source, org, manual, unknown, Key, ok, is_fingerprint, normalize_stored_key,
  normalize_stored_keys,
}
use closedloop_electron.Keyring.File.{
  normalize_stored_key_source, read_stored_key, key_json, keys_json, texts_json, Contents,
  file_json, read_stored_keys, read_fingerprints, read_contents, includes, unique_after, unique,
  read_file, write_file, source_text,
}

abbrev pub IsValid : Key → Type 0
IsValid k = is_fingerprint k.fingerprint ≡ true

source-text : (s : Source) → normalize_stored_key_source (str (source_text s)) ≡ s
unfolding normalize_stored_key_source same
source-text org = refl
source-text manual = refl
source-text unknown = refl

module _ (f b n a : Text) (s : Source) (h : is_fingerprint f ≡ true) where
  read-fields :
      (e id : Option Text)
      → let k : Key = record {
        fingerprint = f;
        public_key_base64 = b;
        owner_name = n;
        owner_email = e;
        authorized_at = a;
        source = s;
        source_user_public_key_id = id;
      } in
        read_stored_key (key_json k) ≡ some k
  unfolding read_stored_key get same
  read-fields none none = rw (h, source-text s) refl
  read-fields none (some id) = rw (h, source-text s) refl
  read-fields (some e) none = rw (h, source-text s) refl
  read-fields (some e) (some id) = rw (h, source-text s) refl

read_stored_key-json : (k : Key) → IsValid k → read_stored_key (key_json k) ≡ some k
read_stored_key-json k h =
    read-fields k.fingerprint k.public_key_base64 k.owner_name k.authorized_at k.source h
      k.owner_email k.source_user_public_key_id

read_stored_keys-json : (ks : List Key) → All IsValid ks → read_stored_keys (keys_json ks) ≡ some ks
unfolding read_stored_keys
read_stored_keys-json [] h = refl
read_stored_keys-json (k ∷ ks) h =
    rw (read_stored_key-json k h.0) (rw (read_stored_keys-json ks h.1) refl)

read_fingerprints-json :
    (ts : List Text)
    → All (λ t. is_fingerprint t ≡ true) ts
    → read_fingerprints (texts_json ts) ≡ some ts
unfolding read_fingerprints
read_fingerprints-json [] h = refl
read_fingerprints-json (t ∷ ts) h = rw h.0 (rw (read_fingerprints-json ts h.1) refl)

read_contents-json :
    (c : Contents)
    → All IsValid c.keys
    → All (λ t. is_fingerprint t ≡ true) c.rejected_fingerprints
    → read_contents (file_json c) ≡ some c
unfolding read_contents file_json get same
read_contents-json c h k =
    rw (read_stored_keys-json c.keys h) (rw (read_fingerprints-json c.rejected_fingerprints k) refl)

unique_after_twice :
    (seen old ts : List Text)
    → ((t : Text) → includes t old ≡ includes t seen)
    → unique_after old (unique_after seen ts) ≡ unique_after seen ts
unfolding unique_after
unique_after_twice seen old [] h = refl
unique_after_twice seen old (t ∷ ts) h = elim (Bool-cases (includes t seen)) [
  | inl e ↦
      rw (e, unique_after)
        (unique_after_twice (t ∷ seen) old ts (λ x. ground (arith, h x, same_iff t x)))
  | inr e ↦
      rw (e, h t ∙ e, unique_after)
        (ap (λ (r : List Text). t ∷ r)
          (unique_after_twice (t ∷ seen) (t ∷ old) ts (λ x. rw (h x) refl)))
]

unique_twice : (ts : List Text) → unique (unique ts) ≡ unique ts
unique_twice ts = unique_after_twice [] [] ts (λ _. refl)

pub unique_after-All :
    (P : Text → Type 0) (seen ts : List Text) → All P ts → All P (unique_after seen ts)
unfolding unique_after
unique_after-All P seen [] h = tt
unique_after-All P seen (t ∷ ts) h = ground (arith, unique_after-All P (t ∷ seen) ts h.1)

-- The contents as they are written.
abbrev pub as_written : Contents → Contents
as_written c = record c { rejected_fingerprints = unique c.rejected_fingerprints }

module _ (p : Platform) where
  abbrev pub IsNormal : Key → Type 0
  IsNormal k = normalize_stored_key p k ≡ ok k

  normalize_stored_keys-normal :
      (ks : List Key) → All IsNormal ks → normalize_stored_keys p ks ≡ ok ks
  unfolding normalize_stored_keys
  normalize_stored_keys-normal [] h = refl
  normalize_stored_keys-normal (k ∷ ks) h = rw h.0 (rw (normalize_stored_keys-normal ks h.1) refl)

  -- Contents that can be read back.
  abbrev pub IsKept : Contents → Type 0
  IsKept c =
      All IsValid c.keys
      × All IsNormal c.keys
      × All (λ t. is_fingerprint t ≡ true) c.rejected_fingerprints

  pub write_file-eq :
      (c : Contents)
      → IsKept c
      → write_file p c ≡ ok (p.stringify (file_json (as_written c)) ++ 10 ∷ [])
  unfolding write_file
  write_file-eq c (valid, normal, rejected) =
      ground (arith, normalize_stored_keys-normal c.keys normal)

  pub read_file-write :
      (c : Contents) (after : Text)
      → IsKept c
      → p.parse after ≡ some (file_json (as_written c))
      → read_file p (some after) ≡ as_written c
  unfolding read_file
  read_file-write c after (valid, normal, rejected) e =
      let again =
        read_contents-json (as_written c) valid
          (unique_after-All (λ t. is_fingerprint t ≡ true) [] c.rejected_fingerprints rejected) in
      ground (
        arith,
        again,
        normalize_stored_keys-normal c.keys normal,
        unique_twice c.rejected_fingerprints,
      )
