-- ===== src/Signing/Tests.antt =====
-- command-signature-verifier.ts with one key and one signed command, which is accepted once.
use closedloop_electron.Base.{
  ◌≡◌, ◌≢◌, refl, true, false, none, some, List, [], ◌∷◌, Text, text, same, to_upper, lookup,
  insert, arith, upper_unit,
}
use closedloop_electron.Json.{pos, Json, undefined, int, str, arr, obj, nil, end, field, get}
use closedloop_electron.Signing.Stringify.{
  stable_stringify, canonical_query, hash_command_body, query_json,
}
use closedloop_electron.Signing.Verifier.{
  Platform, Signed, accepted, rejected, stale_or_replayed_command, Seen, verify,
}
use closedloop_electron.Signing.Window.{IsAuthentic, verify-IsAuthentic}
use closedloop_electron.Signing.Freshness.{Call, run, verify_once}
use closedloop_electron.Signing.Canonical.{exchanged, stable_stringify-Reordered}

-- The payload of the one text that is parsed.
abbrev payload : Json
payload = obj (
    field (text "commandId") (str (text "c")) (
      field (text "method") (str (text "POST")) (
        field (text "path") (str (text "/p")) (
          field (text "query") (arr nil) (
            field (text "bodyHash") (str (text "b")) (
              field (text "timestamp") (int (pos 100))
                (field (text "nonce") (str (text "n")) end)))))))

abbrev platform : Platform
platform = record {
  parse = λ t. some payload;
  quote = λ t. t;
  print = λ z. [];
  digest = λ t. t;
  locale_lt = λ s t. false;
  check = λ key message signature. some true;
}

abbrev command : Signed
command = record {
  command_id = text "c";
  method = text "post";
  path = text "/p";
  query = none;
  body = str (text "b");
  signature = some (text "s");
  signature_payload = some (text "{}");
  public_key_fingerprint = some (text "f");
}

abbrev keys : List (Text × Text)
keys = (text "f", text "k") ∷ []

abbrev after : Seen
after = (text "f:n", pos 100) ∷ []

accepted_at_120 : verify platform keys 120 command undefined [] ≡ (after, accepted)
unfolding verify lookup same get insert to_upper upper_unit stable_stringify canonical_query
    hash_command_body query_json
accepted_at_120 = refl

-- Again a second later, and after the nonce is forgotten.
refused_at_121 :
    (verify platform keys 121 command undefined after).1 ≡ rejected stale_or_replayed_command
unfolding verify lookup same get insert to_upper upper_unit stable_stringify canonical_query
    hash_command_body query_json
refused_at_121 = refl

refused_at_146 :
    verify platform keys 146 command undefined after ≡ ([], rejected stale_or_replayed_command)
unfolding verify lookup same get
refused_at_146 = refl

verify-IsAuthentic_example : IsAuthentic platform keys 120 command undefined [] after
verify-IsAuthentic_example =
    verify-IsAuthentic platform keys 120 command undefined [] after accepted_at_120

accepted_verdict : (verify platform keys 120 command undefined []).1 ≡ accepted
unfolding verify lookup same get insert to_upper upper_unit stable_stringify canonical_query
    hash_command_body query_json
accepted_verdict = refl

abbrev between : List Call
between = record { keys = keys; now = 130; command = command; override = undefined } ∷ []

verify_once_example :
    (verify platform keys 140 command undefined
      (run platform between (verify platform keys 120 command undefined []).0)).1
    ≢ accepted
verify_once_example =
    verify_once platform keys keys 120 140 command command undefined undefined [] between
      accepted_verdict refl refl (omega arith, omega arith)

stable_stringify-Reordered_example :
    stable_stringify
      (λ t. t)
      (λ z. [])
      (obj (field (text "b") undefined (field (text "a") undefined end)))
    ≡ stable_stringify
        (λ t. t)
        (λ z. [])
        (obj (field (text "a") undefined (field (text "b") undefined end)))
unfolding same
stable_stringify-Reordered_example =
    stable_stringify-Reordered (λ t. t) (λ z. [])
      (exchanged (text "b") (text "a") undefined undefined refl)
