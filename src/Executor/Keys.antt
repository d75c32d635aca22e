-- ===== src/Executor/Keys.antt =====
-- `validateCommand`, `deriveLockKey` and `getSignatureBodyOverride`.
use closedloop_electron.Base.{
  Bool, ◌||◌, Option, none, some, List, [], ◌∷◌, ◌++◌, Text, text, same, starts_with, trim,
  to_upper, is_empty, if◌then◌else◌,
}
use closedloop_electron.Json.{Json, Fields, undefined, get, as_record, as_non_empty_string}
use closedloop_electron.Executor.State.{Command}

-- `SUPPORTED_HTTP_METHODS`
abbrev supported_http_methods : List Text
supported_http_methods = text "GET" ∷ text "POST" ∷ text "PUT" ∷ text "PATCH" ∷ text "DELETE" ∷ []

unfoldable pub is_member : Text → List Text → Bool
is_member m [] = Bool.false
is_member m (x ∷ xs) = same x m || is_member m xs

-- The reason why a command is refused, if it is.
unfoldable pub validate_command : Command → Option Text
validate_command c =
    if is_empty (trim c.command_id)
    then some (text "commandId is required")
    else if is_member (to_upper c.method) supported_http_methods
    then (if starts_with c.path (text "/api/gateway/")
        then none
        else some (text "path must start with /api/gateway/"))
    else some (text "unsupported method")

infixr 30 ◌<|>◌
-- `a ?? b`
abbrev pub ◌<|>◌ {ℓ} : {A : Type ℓ} → Option A → Option A → Option A
none <|> b = b
some a <|> b = some a

-- The path that the body names.
scoped_path : Fields → Option Text
scoped_path body =
    as_non_empty_string (get (text "repoPath") body)
    <|> as_non_empty_string (get (text "worktreePath") body)
    <|> as_non_empty_string (get (text "workDir") body)
    <|> as_non_empty_string (get (text "runDir") body)
    <|> as_non_empty_string (get (text "path") body)

-- An empty string is falsy.
truthy : Option Text → Option Text
truthy none = none
truthy (some s) = if is_empty s then none else some s

abbrev trimmed : Option Text → Option Text
trimmed none = none
trimmed (some s) = some (trim s)

unfoldable pub derive_lock_key : Command → Option Text
unfolding truthy scoped_path
derive_lock_key c = truthy (trimmed c.lock_key) <|> elim (truthy (scoped_path (as_record c.body))) [
  | none ↦ none
  | some path ↦ some (c.operation_id ++ text ":" ++ path)
]

-- The body that the browser signed, where it is not the body of the command.
unfoldable pub signature_body_override : Command → Json
signature_body_override c =
    if same c.path (text "/api/gateway/symphony/loop")
      || same c.path (text "/api/gateway/symphony/loop/kill")
    then get (text "userIntent") (as_record c.body)
    else undefined
