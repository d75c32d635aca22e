-- ===== src/Keyring/Store.antt =====
-- The operations of AuthorizedCommandKeyStore on its file. The file's text is an argument, absent if
-- there is no file, and comes back as it is after the call.
use closedloop_electron.Base.{
  Bool, true, false, ◌&&◌, not, Option, none, some, List, [], ◌∷◌, ◌++◌, map, Text, same, trim,
  is_empty, is_some, or_else, filter, lookup, insert, has, sort_by, text_lt, length, ◌==◌,
  if◌then◌else◌,
}
use closedloop_electron.Json.{Json, str}
use closedloop_electron.Keyring.Formats.{
  Platform, Source, org, manual, unknown, Key, fingerprint_mismatch, duplicate_key,
  invalid_fingerprint, Result, ok, raised, ◌>>=◌, is_fingerprint, trimmed,
  normalize_command_key_fingerprint, normalize_optional_string, fingerprint_command_public_key,
  normalize_raw_public_key_base64,
}
use closedloop_electron.Keyring.File.{Contents, includes, read_file, write_file}

-- `AuthorizeCommandKeyInput`
pub record Input : Type 0 where
  pub public_key_base64 : Text
  pub owner_name : Option Text
  pub owner_email : Option Text
  pub fingerprint : Option Text
  pub source : Option Source
  pub source_user_public_key_id : Option Text

-- `RegisteredOrganizationCommandKey`: a text, or a record of any values.
pub data Registered : Type 0 where
  by_text : Text → Registered
  by_record : Json → Json → Registered

unfoldable pub find_key : Text → List Key → Option Key
find_key f [] = none
find_key f (k ∷ ks) = if same k.fingerprint f then some k else find_key f ks

abbrev pub is_org : Source → Bool
is_org org = true
is_org _ = false

abbrev pub is_unknown : Source → Bool
is_unknown unknown = true
is_unknown _ = false

abbrev pub registered_fingerprint : Registered → Option Text
registered_fingerprint (by_text t) = normalize_command_key_fingerprint (str t)
registered_fingerprint (by_record f id) = normalize_command_key_fingerprint f

abbrev pub registered_id : Registered → Option Text
registered_id (by_text t) = none
registered_id (by_record f id) = normalize_optional_string id

-- The map of the registered fingerprints, from the one that is there.
unfoldable pub register_all :
    List Registered → List (Text × Option Text) → List (Text × Option Text)
unfolding normalize_command_key_fingerprint
register_all [] m = m
register_all (r ∷ rs) m =
    register_all rs
      (elim (registered_fingerprint r) [ none ↦ m | some f ↦ insert f (registered_id r) m ])

abbrev pub non_empty : Option Text → Option Text
non_empty none = none
non_empty (some s) = if is_empty s then none else some s

abbrev pub promoted_key : Option Text → Key → Key
promoted_key id k = record k {
  owner_email = non_empty k.owner_email;
  source = org;
  source_user_public_key_id = id;
}

abbrev pub is_stale : Bool → List (Text × Option Text) → Key → Bool
is_stale remove_stale registered k =
    remove_stale && is_org k.source && not (has k.fingerprint registered)

abbrev pub is_promoted : List (Text × Option Text) → Key → Bool
is_promoted registered k = is_unknown k.source && has k.fingerprint registered

abbrev pub promote : List (Text × Option Text) → Key → Key
promote registered k =
    if is_promoted registered k
    then promoted_key (or_else (lookup k.fingerprint registered) none) k
    else k

-- The `flatMap` over the keys.
unfoldable pub reconcile_keys : Bool → List (Text × Option Text) → List Key → List Key
reconcile_keys remove_stale registered [] = []
reconcile_keys remove_stale registered (k ∷ ks) =
    let rest = reconcile_keys remove_stale registered ks in
    if is_stale remove_stale registered k then rest else promote registered k ∷ rest

abbrev pub is_nil {ℓ} : {A : Type ℓ} → List A → Bool
is_nil [] = true
is_nil (x ∷ xs) = false

abbrev pub replace_keys : List Key → Contents → Contents
replace_keys keys c = record c { keys = keys }

-- The contents with one key more, which is rejected no longer.
abbrev pub add_key : Key → Contents → Contents
add_key k c = record {
  keys = c.keys ++ k ∷ [];
  rejected_fingerprints = filter (λ f. not (same f k.fingerprint)) c.rejected_fingerprints;
}

unfoldable pub new_key : Text → Input → Text × Text → Key
new_key now i (base64, print) = record {
  fingerprint = print;
  public_key_base64 = base64;
  owner_name = or_else (trimmed i.owner_name) print;
  owner_email = trimmed i.owner_email;
  authorized_at = now;
  source = or_else i.source manual;
  source_user_public_key_id =
      if is_org (or_else i.source manual) then trimmed i.source_user_public_key_id else none;
}

-- `CommandKeyReconciliationResult`
pub record Reconciliation : Type 0 where
  pub removed : List Key
  pub promoted : List Key

module _ (p : Platform) where
  unfoldable pub list : Option Text → List Key
  list disk = sort_by (λ a b. p.locale_lt a.fingerprint b.fingerprint) (read_file p disk).keys

  unfoldable pub list_rejected_fingerprints : Option Text → List Text
  list_rejected_fingerprints disk = sort_by text_lt (read_file p disk).rejected_fingerprints

  unfoldable pub get_key : Text → Option Text → Option Key
  unfolding find_key
  get_key f disk = find_key f (read_file p disk).keys

  -- `normalizePublicKeyInput`: the normal base64 and the fingerprint.
  unfoldable pub normalize_public_key_input : Input → Result (Text × Text)
  normalize_public_key_input i = do
    base64 ← normalize_raw_public_key_base64 p i.public_key_base64
    let print = fingerprint_command_public_key p (p.decode base64)
    if is_some (trimmed i.fingerprint) && not (same (or_else (trimmed i.fingerprint) []) print)
        then raised fingerprint_mismatch
        else ok (base64, print)

  -- `authorize`; `now` is the time of the call as a text.
  unfoldable pub authorize : Text → Input → Option Text → Result (Key × Text)
  unfolding find_key normalize_public_key_input new_key
  authorize now i disk = do
    normal ← normalize_public_key_input i
    let current = read_file p disk
    if is_some (find_key normal.1 current.keys) then raised duplicate_key else do
      after ← write_file p (add_key (new_key now i normal) current)
      ok (new_key now i normal, after)

  -- `remove`: whether the key was there, and the file.
  unfoldable pub remove : Text → Option Text → Result (Bool × Option Text)
  remove fingerprint disk = do
    let current = read_file p disk
    let keys = filter (λ k. not (same k.fingerprint (trim fingerprint))) current.keys
    if length keys == length current.keys
        then ok (false, disk)
        else do after ← write_file p (replace_keys keys current); ok (true, some after)

  abbrev pub revoke : Text → Option Text → Result (Bool × Option Text)
  revoke = remove

  -- `reconcileOrganizationKeys`
  unfoldable pub reconcile_organization_keys :
      List Registered → Bool → Option Text → Result (Reconciliation × Option Text)
  unfolding register_all reconcile_keys
  reconcile_organization_keys keys remove_stale disk = do
    let registered = register_all keys []
    let current = read_file p disk
    let stale = filter (is_stale remove_stale registered) current.keys
    let promoted = map (promote registered) (filter (is_promoted registered) current.keys)
    if is_nil stale && is_nil promoted
        then ok (record { removed = []; promoted = [] }, disk)
        else do
          after ←
              write_file p
                (replace_keys (reconcile_keys remove_stale registered current.keys) current)
          ok (record { removed = stale; promoted = promoted }, some after)

  -- `reject`
  unfoldable pub reject : Text → Option Text → Result (Option Text)
  reject fingerprint disk =
      if is_fingerprint (trim fingerprint)
      then (let current = read_file p disk in
          if includes (trim fingerprint) current.rejected_fingerprints then ok disk else (do
            after ← write_file p (record current {
              rejected_fingerprints = current.rejected_fingerprints ++ trim fingerprint ∷ [];
            })
            ok (some after)))
      else raised invalid_fingerprint
