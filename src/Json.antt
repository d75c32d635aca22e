-- ===== src/Json.antt =====
-- The values that JSON.parse returns, as far as the program reads them (apps/desktop/src/main).
use closedloop_electron.Base.{
  ℕ, Bool, true, false, Option, none, some, Text, same, if◌then◌else◌, trim,
}

-- `negsuc n` is -(n + 1).
pub data ℤ : Type 0 where
  pos : ℕ → ℤ
  negsuc : ℕ → ℤ

-- A number is a safe integer, or another number by its printed text. A field that is absent is
-- `undefined`.
mutual
  pub data Json : Type 0 where
    undefined null : Json
    bool : Bool → Json
    int : ℤ → Json
    float : Text → Json
    str : Text → Json
    arr : Items → Json
    obj : Fields → Json

  pub data Items : Type 0 where
    nil : Items
    cons : Json → Items → Items

  pub data Fields : Type 0 where
    end : Fields
    field : Text → Json → Fields → Fields

-- `record[key]`
unfoldable pub get : Text → Fields → Json
get k end = undefined
get k (field j v fs) = if same j k then v else get k fs

-- `{ ...record, [key]: value }`
unfoldable pub set_field : Text → Json → Fields → Fields
set_field k v end = field k v end
set_field k v (field j w fs) = if same j k then field j v fs else field j w (set_field k v fs)

-- `asRecord`: the fields of an object, and none of any other value.
unfoldable pub as_record : Json → Fields
as_record (obj fs) = fs
as_record _ = end

-- `asNonEmptyString`, which lets the empty string through.
unfoldable pub as_non_empty_string : Json → Option Text
as_non_empty_string (str s) = some (trim s)
as_non_empty_string _ = none

-- `value === true`
abbrev pub is_true : Json → Bool
is_true (bool true) = true
is_true _ = false

-- `value !== undefined`
abbrev pub is_defined : Json → Bool
is_defined undefined = false
is_defined _ = true
