-- ===== src/Cost/Rows.antt =====
-- ReconciliationStore (apps/desktop/src/main/reconciliation-store.ts). `cutoff` is the day that
-- `retentionDays` before the clock's gives, as `toUtcDay` prints it.
use closedloop_electron.Base.{
  ℕ, Bool, true, false, not, ◌&&◌, ◌||◌, Option, none, some, List, [], ◌∷◌, ◌++◌, map, Text, text,
  same, is_empty, text_lt, sort_by, insert, filter, take, length, leb, ◌==◌, if◌then◌else◌,
}
use closedloop_electron.Json.{ℤ, Json, null, int, float, str, obj, get}

-- `ReconciliationRow`. `drift_pct` is `null` or a finite number.
pub record Row : Type 0 where
  pub day : Text
  pub vendor : Text
  pub model : Text
  pub local_estimate_micro_cents : ℤ
  pub vendor_billed_micro_cents : ℤ
  pub drift_micro_cents : ℤ
  pub drift_pct : Json
  pub computed_at : Text

pub record RowStore : Type 0 where
  pub max_entries : ℕ
  pub rows : List Row
  pub disk : List Row

-- `ISO_DAY_RE`
abbrev pub is_digit : ℕ → Bool
is_digit c = leb b'0' c && leb c b'9'

unfoldable pub is_iso_day : Text → Bool
is_iso_day (a ∷ b ∷ c ∷ d ∷ h ∷ e ∷ f ∷ i ∷ g ∷ j ∷ []) =
    is_digit a
    && is_digit b
    && is_digit c
    && is_digit d
    && (h == b'-')
    && is_digit e
    && is_digit f
    && (i == b'-')
    && is_digit g
    && is_digit j
is_iso_day _ = false

-- `asSafeInt`
abbrev pub as_safe_int : Json → Option ℤ
as_safe_int (int z) = some z
as_safe_int _ = none

abbrev pub non_empty : Json → Option Text
non_empty (str s) = if is_empty s then none else some s
non_empty _ = none

abbrev pub as_iso_day : Json → Option Text
as_iso_day (str s) = if is_iso_day s then some s else none
as_iso_day _ = none

-- The numbers that are not finite, by their texts.
is_finite : Text → Bool
is_finite t = not (same t (text "NaN") || same t (text "Infinity") || same t (text "-Infinity"))

as_pct : Json → Option Json
unfolding is_finite
as_pct null = some null
as_pct (int z) = some (int z)
as_pct (float t) = if is_finite t then some (float t) else none
as_pct _ = none

infixl 5 ◌>>=◌
abbrev ◌>>=◌ {ℓ κ} : {A : Type ℓ} {B : Type κ} → Option A → (A → Option B) → Option B
none >>= f = none
some a >>= f = f a

-- `sanitizeRow`. An array has none of the fields.
unfoldable pub sanitize_row : Json → Option Row
unfolding is_iso_day as_pct get
sanitize_row (obj r) = do
  day ← as_iso_day (get (text "day") r)
  vendor ← non_empty (get (text "vendor") r)
  model ← non_empty (get (text "model") r)
  local ← as_safe_int (get (text "localEstimateMicroCents") r)
  billed ← as_safe_int (get (text "vendorBilledMicroCents") r)
  drift ← as_safe_int (get (text "driftMicroCents") r)
  pct ← as_pct (get (text "driftPct") r)
  computed_at ← non_empty (get (text "computedAt") r)
  some (record {
    day = day;
    vendor = vendor;
    model = model;
    local_estimate_micro_cents = local;
    vendor_billed_micro_cents = billed;
    drift_micro_cents = drift;
    drift_pct = pct;
    computed_at = computed_at;
  })
sanitize_row _ = none

-- `rowKey`: the parts with a NUL between them.
unfoldable pub row_key : Row → Text
row_key r = r.day ++ (0 ∷ r.vendor) ++ (0 ∷ r.model)

-- `compareRows(a, b) < 0`
unfoldable pub row_before : Row → Row → Bool
row_before a b =
    if not (same a.day b.day)
    then not (text_lt a.day b.day)
    else if not (same a.vendor b.vendor)
    then text_lt a.vendor b.vendor
    else if not (same a.model b.model)
    then text_lt a.model b.model
    else false

abbrev pub within : Text → Row → Bool
within cutoff r = not (text_lt r.day cutoff)

unfoldable pub prune : ℕ → Text → List Row → List Row
prune max_entries cutoff rows =
    let kept = filter (within cutoff) rows in
    if leb (length kept) max_entries then kept else take max_entries (sort_by row_before kept)

unfoldable pub persist : RowStore → RowStore
persist s = record s { disk = s.rows }

unfoldable pub sanitize_all : List Json → List Row
sanitize_all [] = []
sanitize_all (v ∷ vs) = elim (sanitize_row v) [
  | none ↦ sanitize_all vs
  | some r ↦ r ∷ sanitize_all vs
]

-- The constructor, from what the disk holds.
unfoldable pub open_store : ℕ → Text → List Row → List Json → RowStore
open_store max_entries cutoff disk persisted =
    let rows = prune max_entries cutoff (sanitize_all persisted) in
    let s : RowStore = record { max_entries = max_entries; rows = rows; disk = disk } in
    if length rows == length persisted then s else persist s

abbrev pub values : List (Text × Row) → List Row
values = map (λ e. e.1)

unfoldable pub index_rows : List Row → List (Text × Row) → List (Text × Row)
index_rows [] m = m
index_rows (r ∷ rs) m = index_rows rs (insert (row_key r) r m)

-- `upsert`, and the number that it returns.
unfoldable pub upsert : Text → List Json → RowStore → RowStore × ℕ
unfolding prune index_rows
upsert cutoff incoming s =
    let clean = sanitize_all incoming in
    let by_key = index_rows clean (index_rows s.rows []) in
    (persist (record s { rows = prune s.max_entries cutoff (values by_key) }), length clean)

-- `ReconciliationQuery`; an empty text is falsy.
pub record Query : Type 0 where
  pub from : Option Text
  pub to : Option Text
  pub vendor : Option Text

abbrev pub unless : Option Text → (Text → Bool) → Bool
unless none bad = true
unless (some t) bad = if is_empty t then true else not (bad t)

pub matches : Query → Row → Bool
matches q r =
    unless q.from (λ t. text_lt r.day t)
    && unless q.to (λ t. text_lt t r.day)
    && unless q.vendor (λ t. not (same r.vendor t))

unfoldable pub list : Query → RowStore → List Row
unfolding matches
list q s = sort_by row_before (filter (matches q) s.rows)

unfoldable pub clear : RowStore → RowStore
clear s = persist (record s { rows = [] })
