-- ===== src/Loops/Tests.antt =====
-- Runs of the refresh of a loop's token and of its timers.
use closedloop_electron.Base.{
  ◌≡◌, refl, if◌then◌else◌, map, none, some, List, [], ◌∷◌, ◌++◌, Text, text, same, lookup, IsMap,
  insert, or_else, trim, trim_start, is_space,
}
use closedloop_electron.Json.{obj, str, field, end, get, as_record}
use closedloop_electron.Heartbeat.Gate.{is_endpoint_disabled, includes_path}
use closedloop_electron.Loops.Tokens.{
  LoopTokenMeta, Platform, meta_json, read_meta, parse_meta, open_meta, get_loop_token,
  set_loop_token, get_loop_token_string, split_at, parse_jwt_expiry,
}
use closedloop_electron.Loops.Refresh.{
  Memory, Request, Answer, rejects, answers, World, Setting, accept_body, refuse, handle_answer,
  fetch, attempt_refresh, first_key, write_meta, persist_key, persist_first_key,
  extract_code_from_body, retry_refresh, refresh_loop_token,
}
use closedloop_electron.Loops.Keys.{
  Plan, first_request_key, second_request_key, refresh_loop_token-sent,
}
use closedloop_electron.Loops.Resume.{refresh_loop_token-resumes}
use closedloop_electron.Loops.Disabled.{status_of, refresh_loop_token_after_404}
use closedloop_electron.Loops.KeyKept.{refresh_loop_token-key_kept}
use closedloop_electron.Loops.Flights.{
  Flights, Flown, idle, called, ticked, refresh_singleflight, run_refresh_tick, Flown-single,
}
use closedloop_electron.Loops.TestPlatform.{
  put_text, get_text, put_number, get_number, print, read_print, stringify, parse, platform,
  platform-IsFaithful,
}

abbrev old_token : LoopTokenMeta
old_token = record {
  token = text "old";
  expires_at = none;
  jti = none;
  last_idempotency_key = none;
}

abbrev new_body : Text
new_body = stringify (meta_json (record old_token { token = text "new" }))

abbrev start : World
start = record {
  memory = record { disk = (text "l", stringify (meta_json old_token)) ∷ []; gate = [] };
  sent = [];
  drawn = 0;
}

abbrev setting : Platform → (Request → Answer × Memory) → Setting
setting p server = record {
  platform = p;
  uuid = λ n. n ∷ [];
  server = server;
  get_token = get_loop_token_string p (text "l");
  api_base_url = text "u";
  loop_id = text "l";
}

abbrev answering : Answer → Setting
answering a = setting platform λ r. (a, r.seen)

-- The server answers the first key with the body that says that the race was lost, and any other
-- key with a new token.
abbrev racing : Setting
racing =
    setting
      (record platform {
        parse = λ t.
            if same t (text "lost")
            then some (obj (field (text "code") (str (text "RACE_LOST")) end))
            else parse t;
      })
      λ r. (
        if same r.key (0 ∷ [])
            then answers 409 (some (text "lost"))
            else answers 200 (some new_body),
        r.seen,
      )

abbrev raced : World
raced = (refresh_loop_token racing start).1

-- Two requests are sent, with two keys.
raced-sent : map (λ r. r.key) raced.sent ≡ (0 ∷ []) ∷ (1 ∷ []) ∷ []
unfolding refresh_loop_token get_loop_token open_meta parse_meta read_meta meta_json stringify print
    parse read_print put_text get_text put_number get_number get lookup same insert trim trim_start
    is_space attempt_refresh first_key persist_first_key persist_key write_meta set_loop_token fetch
    handle_answer is_endpoint_disabled includes_path get_loop_token_string accept_body refuse
    extract_code_from_body retry_refresh parse_jwt_expiry split_at as_record
raced-sent = refl

refresh_loop_token-sent_example :
    (new : List Request) × ((refresh_loop_token racing start).1.sent ≡ start.sent ++ new)
    × Plan racing
        (λ _ _. Unit)
        (first_request_key racing start)
        (second_request_key racing start)
        new
refresh_loop_token-sent_example = refresh_loop_token-sent racing start

abbrev offline : Setting
offline = answering (rejects [])

-- The store that an interrupted refresh leaves: the old token with the key of the request.
abbrev kept_token : LoopTokenMeta
kept_token = record old_token { last_idempotency_key = some (0 ∷ []) }

abbrev left : Memory
left = record { disk = (text "l", stringify (meta_json kept_token)) ∷ []; gate = [] }

abbrev request_from : Memory → Request
request_from m = record {
  url = text "u/loops/l/refresh-token";
  bearer = text "old";
  key = 0 ∷ [];
  seen = m;
}

-- The next start of the program has drawn other random keys.
abbrev restarted : World
restarted = record { memory = left; sent = []; drawn = 7 }

offline-start :
    (refresh_loop_token offline start).1.sent ≡ start.sent ++ ([] ++ request_from left ∷ [])
unfolding refresh_loop_token get_loop_token open_meta parse_meta read_meta meta_json stringify print
    parse read_print put_text get_text put_number get_number get lookup same insert trim trim_start
    is_space attempt_refresh first_key persist_first_key persist_key write_meta set_loop_token fetch
    handle_answer is_endpoint_disabled includes_path get_loop_token_string
offline-start = refl

offline-restarted :
    (refresh_loop_token offline restarted).1.sent ≡ restarted.sent ++ request_from left ∷ []
unfolding refresh_loop_token get_loop_token open_meta parse_meta read_meta meta_json stringify print
    parse read_print put_text get_text put_number get_number get lookup same insert trim trim_start
    is_space attempt_refresh first_key persist_first_key persist_key write_meta set_loop_token fetch
    handle_answer is_endpoint_disabled includes_path get_loop_token_string
offline-restarted = refl

left-stored : get_loop_token platform (text "l") left.disk ≡ some kept_token
unfolding get_loop_token lookup same open_meta stringify parse_meta read_meta meta_json get trim
    trim_start is_space print parse read_print put_text get_text put_number get_number
left-stored = refl

refresh_loop_token-resumes_example : ◌≡◌ {A = Text} (0 ∷ []) (0 ∷ [])
refresh_loop_token-resumes_example =
    refresh_loop_token-resumes offline start restarted [] [] (request_from left) (request_from left)
      [] kept_token platform-IsFaithful offline-start left-stored refl offline-restarted

abbrev missing : Setting
missing = answering (answers 404 none)

missing-status : status_of (refresh_loop_token missing start).0 ≡ some 404
unfolding refresh_loop_token get_loop_token open_meta parse_meta read_meta meta_json stringify print
    parse read_print put_text get_text put_number get_number get lookup same insert trim trim_start
    is_space attempt_refresh first_key persist_first_key persist_key write_meta set_loop_token fetch
    handle_answer is_endpoint_disabled includes_path get_loop_token_string refuse
missing-status = refl

refresh_loop_token_after_404_example :
    (refresh_loop_token missing (refresh_loop_token missing start).1).1.sent
    ≡ (refresh_loop_token missing start).1.sent
refresh_loop_token_after_404_example = refresh_loop_token_after_404 missing start missing-status

abbrev online : Setting
online = answering (answers 200 (some new_body))

abbrev new_token : LoopTokenMeta
new_token = record kept_token { token = text "new" }

abbrev renewed : Memory
renewed = record { disk = (text "l", stringify (meta_json new_token)) ∷ []; gate = [] }

-- The next refresh sends the key again.
online-renewed :
    (refresh_loop_token online
      (record { memory = renewed; sent = request_from left ∷ []; drawn = 1 })).1.sent
    ≡ (request_from left ∷ []) ++ record (request_from renewed) { bearer = text "new" } ∷ []
unfolding refresh_loop_token get_loop_token open_meta parse_meta read_meta meta_json stringify print
    parse read_print put_text get_text put_number get_number get lookup same insert trim trim_start
    is_space attempt_refresh first_key persist_first_key persist_key write_meta set_loop_token fetch
    handle_answer is_endpoint_disabled includes_path get_loop_token_string accept_body
    parse_jwt_expiry split_at as_record
online-renewed = refl

refresh_loop_token-key_kept_example : ◌≡◌ {A = Text} (0 ∷ []) (0 ∷ [])
unfolding refresh_loop_token get_loop_token open_meta parse_meta read_meta meta_json stringify print
    parse read_print put_text get_text put_number get_number get lookup same insert trim trim_start
    is_space attempt_refresh first_key persist_first_key persist_key write_meta set_loop_token fetch
    handle_answer is_endpoint_disabled includes_path get_loop_token_string accept_body
    parse_jwt_expiry split_at as_record
refresh_loop_token-key_kept_example =
    refresh_loop_token-key_kept online platform-IsFaithful new_token start [] [] (request_from left)
      (record (request_from renewed) { bearer = text "new" }) refl refl online-renewed

abbrev one_flight : Flights
one_flight = record {
  inflight = (text "l", 0) ∷ [];
  running = (text "l", 0) ∷ [];
  direct = text "l" ∷ [];
  next = 1;
}

Flown-one : Flown one_flight
unfolding refresh_singleflight run_refresh_tick lookup insert
Flown-one = ticked (text "l") (called (text "l") idle)

Flown-single_example :
    IsMap one_flight.running
    × ((refresh_singleflight (text "l") one_flight).0
        ≡ or_else (lookup (text "l") one_flight.running) 1)
Flown-single_example = Flown-single one_flight (text "l") Flown-one
