-- ===== src/Signing/Stringify.antt =====
-- `stableStringify`, `canonicalQuery` and `hashCommandBody` of command-signature-verifier.ts.
-- `quote` is JSON.stringify on a string, `print` on a safe integer; another number is its text.
use closedloop_electron.Base.{
  text_lt, sort_by, Bool, Option, none, some, List, [], ◌∷◌, ◌++◌, map, Text, text, same,
  if◌then◌else◌,
}
use closedloop_electron.Json.{
  ℤ, Json, undefined, null, bool, int, float, str, arr, obj, Items, nil, cons, Fields, end, field,
}

-- `texts.join(",")`
pub join_commas : List Text → Text
join_commas [] = []
join_commas (t ∷ []) = t
join_commas (t ∷ u ∷ ts) = t ++ text "," ++ join_commas (u ∷ ts)

-- The keys of an object in order, each with its printed value.
abbrev pub key_before : Text × Text → Text × Text → Bool
key_before a b = text_lt a.0 b.0

module _ (quote : Text → Text) (print : ℤ → Text) where
  abbrev pub member_text : Text × Text → Text
  member_text (k, t) = quote k ++ text ":" ++ t

  unfoldable mutual
    unfolding join_commas sort_by

    pub stable_stringify : Json → Text
    stable_stringify undefined = text "null"
    stable_stringify null = text "null"
    stable_stringify (bool b) = if b then text "true" else text "false"
    stable_stringify (int z) = print z
    stable_stringify (float t) = t
    stable_stringify (str s) = quote s
    stable_stringify (arr items) = text "[" ++ join_commas (item_texts items) ++ text "]"
    stable_stringify (obj fs) =
        text "{" ++ join_commas (map member_text (sort_by key_before (field_texts fs))) ++ text "}"

    pub item_texts : Items → List Text
    item_texts nil = []
    item_texts (cons v items) = stable_stringify v ∷ item_texts items

    pub field_texts : Fields → List (Text × Text)
    field_texts end = []
    field_texts (field k v fs) = (k, stable_stringify v) ∷ field_texts fs

  -- `digest` is the base64url text of a string's SHA-256.
  unfoldable pub hash_command_body : (Text → Text) → Json → Text
  hash_command_body digest body = digest (stable_stringify body)

-- A value of `query`.
pub data QueryValue : Type 0 where
  one : Text → QueryValue
  many : List Text → QueryValue

query_entries : List (Text × QueryValue) → List (Text × Text)
query_entries [] = []
query_entries ((k, one v) ∷ q) = (k, v) ∷ query_entries q
query_entries ((k, many vs) ∷ q) = map (λ v. (k, v)) vs ++ query_entries q

-- `locale_lt` says that `localeCompare` is negative.
abbrev pub entry_before : (Text → Text → Bool) → Text × Text → Text × Text → Bool
entry_before locale_lt a b = if same a.0 b.0 then locale_lt a.1 b.1 else locale_lt a.0 b.0

unfoldable pub canonical_query :
    (Text → Text → Bool) → Option (List (Text × QueryValue)) → List (Text × Text)
unfolding query_entries sort_by
canonical_query locale_lt none = []
canonical_query locale_lt (some q) = sort_by (entry_before locale_lt) (query_entries q)

-- The canonical query as a value, an array of pairs.
unfoldable pub query_json : List (Text × Text) → Items
query_json [] = nil
query_json ((k, v) ∷ es) = cons (arr (cons (str k) (cons (str v) nil))) (query_json es)
