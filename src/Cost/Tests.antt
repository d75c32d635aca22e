-- ===== src/Cost/Tests.antt =====
-- cost-math.ts and reconciliation-store.ts on two days of one model.
use closedloop_electron.Base.{
  ◌≡◌, refl, true, [], ◌∷◌, Text, text, All, trim, trim_start, is_space, arith,
}
use closedloop_electron.Json.{pos, Json, null, int, str, obj, field, end}
use closedloop_electron.Cost.Rows.{Row, RowStore, is_iso_day, within, upsert}
use closedloop_electron.Cost.Upsert.{IsTidy, upsert-IsTidy}
use closedloop_electron.Cost.Money.{
  negate, is_safe, number_from, split_decimal, split_sign, signed,
  parse_decimal_cents_to_micro_cents,
}
use closedloop_electron.Cost.Rounding.{IsRounded, pow10, parse_decimal_cents-IsRounded}

abbrev row : Text → Row
row day = record {
  day = day;
  vendor = text "v";
  model = text "m";
  local_estimate_micro_cents = pos 12;
  vendor_billed_micro_cents = pos 10;
  drift_micro_cents = pos 2;
  drift_pct = int (pos 20);
  computed_at = text "now";
}

abbrev store : RowStore
store = record { max_entries = 1; rows = row (text "2026-01-01") ∷ []; disk = [] }

store-IsTidy : IsTidy store
unfolding is_iso_day
store-IsTidy = record {
  distinct = (tt, tt);
  clean = ((refl, refl, refl, refl), tt);
  bounded = omega arith;
}

-- A later row for the same vendor and model.
abbrev later_row : Json
later_row = obj (
    field (text "day") (str (text "2026-01-02")) (
      field (text "vendor") (str (text "v")) (
        field (text "model") (str (text "m")) (
          field (text "localEstimateMicroCents") (int (pos 5)) (
            field (text "vendorBilledMicroCents") (int (pos 0)) (
              field (text "driftMicroCents") (int (pos 5)) (
                field (text "driftPct") null
                  (field (text "computedAt") (str (text "now")) end))))))))

abbrev cutoff : Text
cutoff = text "2025-10-01"

abbrev updated : RowStore
updated = (upsert cutoff (later_row ∷ null ∷ []) store).0

upsert-IsTidy_example :
    IsTidy updated × All (λ r. within cutoff r ≡ true) updated.rows × (updated.disk ≡ updated.rows)
upsert-IsTidy_example = upsert-IsTidy cutoff (later_row ∷ null ∷ []) store store-IsTidy

-- The fifth digit behind the point rounds up.
parse_decimal_cents-IsRounded_example :
    IsRounded (pow10 5) (number_from 0 (text "1234567")) 123457
    × (pos 123457 ≡ signed (split_sign (trim (text " 12.34567"))).0 123457)
    × (is_safe (pos 123457) ≡ true)
unfolding parse_decimal_cents_to_micro_cents split_decimal split_sign trim trim_start is_space
    negate
parse_decimal_cents-IsRounded_example =
    parse_decimal_cents-IsRounded (text " 12.34567") (text "12") (text "34567") (pos 123457) refl
      refl
