-- ===== src/Loops/TestPlatform.antt =====
-- A platform for the tests: an encryption that does nothing, and a text form of a token that is read
-- back as it was printed.
use closedloop_electron.Base.{
  ℕ, zero, suc, ◌≡◌, refl, ap, ◌∙◌, sym, true, false, Option, none, some, [], ◌∷◌, ◌++◌, reverse,
  Text, length, take, drop, trim, trim_start, is_space, is_empty, or_else, arith,
}
use mathlib.Core.List.{reverse-cons, reverse-reverse}
use closedloop_electron.Json.{pos, negsuc, Json}
use closedloop_electron.Loops.Tokens.{
  Number, whole, other, LoopTokenMeta, Platform, meta_json, read_meta, read_meta-meta_json,
  IsFaithful,
}

unfoldable pub put_text : Option Text → Text → Text
put_text none rest = 0 ∷ rest
put_text (some t) rest = 1 ∷ length t ∷ (t ++ rest)

unfoldable pub get_text : Text → Option Text × Text
get_text (zero ∷ rest) = (none, rest)
get_text (suc k ∷ n ∷ rest) = (some (take n rest), drop n rest)
get_text _ = (none, [])

unfoldable pub put_number : Option Number → Text → Text
put_number none rest = 0 ∷ rest
put_number (some (whole (pos n))) rest = 1 ∷ n ∷ rest
put_number (some (whole (negsuc n))) rest = 2 ∷ n ∷ rest
put_number (some (other t)) rest = 3 ∷ length t ∷ (t ++ rest)

unfoldable pub get_number : Text → Option Number × Text
get_number (zero ∷ rest) = (none, rest)
get_number (suc zero ∷ n ∷ rest) = (some (whole (pos n)), rest)
get_number (suc (suc zero) ∷ n ∷ rest) = (some (whole (negsuc n)), rest)
get_number (suc (suc (suc k)) ∷ n ∷ rest) = (some (other (take n rest)), drop n rest)
get_number _ = (none, [])

take-append : (s t : Text) → take (length s) (s ++ t) ≡ s
take-append [] t = refl
take-append (a ∷ s) t = ap (λ r. a ∷ r) (take-append s t)

drop-append : (s t : Text) → drop (length s) (s ++ t) ≡ t
drop-append [] t = refl
drop-append (a ∷ s) t = drop-append s t

get_text-put : (o : Option Text) (rest : Text) → get_text (put_text o rest) ≡ (o, rest)
unfolding get_text put_text
get_text-put none rest = refl
get_text-put (some t) rest = ground (arith, take-append t rest, drop-append t rest)

get_number-put : (o : Option Number) (rest : Text) → get_number (put_number o rest) ≡ (o, rest)
unfolding get_number put_number
get_number-put none rest = refl
get_number-put (some (whole (pos n))) rest = refl
get_number-put (some (whole (negsuc n))) rest = refl
get_number-put (some (other t)) rest = ground (arith, take-append t rest, drop-append t rest)

unfoldable pub print : LoopTokenMeta → Text
unfolding put_text put_number
print m =
    b'{'
    ∷ put_text (some m.token)
        (put_number m.expires_at (put_text m.jti (put_text m.last_idempotency_key (b'}' ∷ []))))

unfoldable pub read_print : Text → LoopTokenMeta
unfolding get_text get_number
read_print s =
    let (token, r) = get_text (drop 1 s) in
    let (expires_at, r') = get_number r in
    let (jti, r'') = get_text r' in
    record {
      token = or_else token [];
      expires_at = expires_at;
      jti = jti;
      last_idempotency_key = (get_text r'').0;
    }

read_print-print : (m : LoopTokenMeta) → read_print (print m) ≡ m
unfolding read_print print
read_print-print m = simp (get_text-put, get_number-put, take-append, drop-append)

-- A text whose last unit is a closing brace.
abbrev IsClosed : Text → Type 0
IsClosed s = (r : Text) × (reverse s ≡ b'}' ∷ r)

cons-IsClosed : (c : ℕ) (s : Text) → IsClosed s → IsClosed (c ∷ s)
cons-IsClosed c s (r, e) = (r ++ c ∷ [], reverse-cons c s ∙ ap (λ l. l ++ c ∷ []) e)

append-IsClosed : (t s : Text) → IsClosed s → IsClosed (t ++ s)
append-IsClosed [] s h = h
append-IsClosed (c ∷ t) s h = cons-IsClosed c (t ++ s) (append-IsClosed t s h)

put_text-IsClosed : (o : Option Text) (s : Text) → IsClosed s → IsClosed (put_text o s)
unfolding put_text
put_text-IsClosed none s h = cons-IsClosed 0 s h
put_text-IsClosed (some t) s h =
    cons-IsClosed 1 (length t ∷ (t ++ s))
      (cons-IsClosed (length t) (t ++ s) (append-IsClosed t s h))

put_number-IsClosed : (o : Option Number) (s : Text) → IsClosed s → IsClosed (put_number o s)
unfolding put_number
put_number-IsClosed none s h = cons-IsClosed 0 s h
put_number-IsClosed (some (whole (pos n))) s h = cons-IsClosed 1 (n ∷ s) (cons-IsClosed n s h)
put_number-IsClosed (some (whole (negsuc n))) s h = cons-IsClosed 2 (n ∷ s) (cons-IsClosed n s h)
put_number-IsClosed (some (other t)) s h =
    cons-IsClosed 3 (length t ∷ (t ++ s))
      (cons-IsClosed (length t) (t ++ s) (append-IsClosed t s h))

print-IsClosed : (m : LoopTokenMeta) → IsClosed (print m)
unfolding print
print-IsClosed m =
    let r = put_text m.last_idempotency_key (b'}' ∷ []) in
    let r' = put_text m.jti r in
    let r'' = put_number m.expires_at r' in
    cons-IsClosed b'{' (put_text (some m.token) r'') (
      put_text-IsClosed (some m.token) r'' (
        put_number-IsClosed m.expires_at r' (
          put_text-IsClosed m.jti r
            (put_text-IsClosed m.last_idempotency_key (b'}' ∷ []) ([], refl)))))

trim-IsClosed : (s : Text) → IsClosed s → trim_start s ≡ s → trim s ≡ s
unfolding trim trim_start is_space
trim-IsClosed s (r, e) h = rw (h, e) (ap reverse (sym e) ∙ reverse-reverse s)

-- Prints what it reads as a token, and nothing else.
unfoldable pub stringify : Json → Text
unfolding print
stringify v = elim (read_meta v) [ none ↦ [] | some m ↦ print m ]

unfoldable pub parse : Text → Option Json
unfolding read_print
parse s = some (meta_json (read_print s))

abbrev pub platform : Platform
platform = record {
  available = true;
  encrypt = λ s. s;
  decrypt = λ s. some s;
  stringify = stringify;
  parse = parse;
  decode = λ s. s;
  thousandfold = λ n. n;
  encode_uri = λ s. s;
  show = λ n. n ∷ [];
}

stringify-meta_json : (m : LoopTokenMeta) → stringify (meta_json m) ≡ print m
unfolding stringify
stringify-meta_json m = ground (arith, read_meta-meta_json m)

print-IsFaithful :
    (m : LoopTokenMeta)
    → (is_empty (print m) ≡ false)
      × (trim (print m) ≡ print m)
      × (parse (print m) ≡ some (meta_json m))
unfolding parse print trim_start is_space
print-IsFaithful m = (
  refl,
  trim-IsClosed (print m) (print-IsClosed m) refl,
  ap (λ v. some (meta_json v)) (read_print-print m),
)

pub platform-IsFaithful : (m : LoopTokenMeta) → IsFaithful platform m
platform-IsFaithful m =
    let (full, trimmed, parsed) = print-IsFaithful m in
    (
      refl,
      simp (stringify-meta_json) full,
      refl,
      simp (stringify-meta_json) trimmed,
      simp (stringify-meta_json) full,
      simp (stringify-meta_json) parsed,
    )
