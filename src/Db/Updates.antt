-- ===== src/Db/Updates.antt =====
-- What has to be written into the memory of the Base 3 after a command (db/comp_data.py): the conversions
-- between the numbers of TMCC and those of the Base 3, and `_create_update_pkg`. A field is named by its
-- attribute, in small letters; a second look for it with another underscore never finds one.
pub mod Conversions
pub mod Lengths
pub mod Bounds
pub mod Requests
pub mod Stops
use Prim.Native.String.{String}
use text.Mathlib.Text.{◌==◌ as str_eq}
use py_legacy.Common.{
  ℕ, zero, suc, ◌+◌, ◌-◌, ◌*◌, ◌/◌, ◌%◌, Bool, true, false, not, ◌&&◌, ◌||◌, Option, none, some,
  List, [], ◌∷◌, ◌++◌, ◌==◌, ltb, leb, if◌then◌else◌, length, Result, ok, raise, ◌>>=◌, type_error,
  attribute_error, assertion_error, bit_and, bit_or,
}
use py_legacy.Common.Int.{pos}
use py_legacy.Protocol.Scope.{CommandScope}
use py_legacy.Db.CompData.{field_bytes, scope_to_comp_map}
use py_legacy.Db.CompData.Maps.{Value, nothing, int, str, CompDataHandler, Schema}

abbrev pub min : ℕ → ℕ → ℕ
min a b = if leb a b then a else b

abbrev pub max : ℕ → ℕ → ℕ
max a b = if leb a b then b else a

-- `round(a / b)`, where a / b lies never half way between two numbers, as for all quotients here
abbrev pub round_div : ℕ → ℕ → ℕ
round_div a b = (2 * a + b) / (2 * b)

-- A speed of the Base 3, where None is left as it is.
unfoldable pub decode_tmcc_speed : ℕ → Bool → ℕ
decode_tmcc_speed speed is_legacy =
    if not (speed == 255) && not is_legacy then min (round_div (speed * 31) 199) 31 else speed

unfoldable pub encode_tmcc_speed : Option ℕ → Bool → ℕ
encode_tmcc_speed none is_legacy = 255
encode_tmcc_speed (some speed) is_legacy =
    if leb 255 speed
    then 255
    else if is_legacy
    then min speed 255
    else min (round_div (speed * 199) 31) 199

-- `CONVERSIONS`, from the Base 3 and to it
unfoldable pub train_brake_from : ℕ → ℕ
train_brake_from x = min (round_div (x * 4667) 10000) 7

unfoldable pub train_brake_to : ℕ → ℕ
train_brake_to x = min (round_div (x * 2143) 1000) 15

unfoldable pub momentum_from : ℕ → ℕ
momentum_from x = min (round_div (x * 5512) 100000) 7

unfoldable pub momentum_to : ℕ → ℕ
momentum_to x = min (round_div (x * 1814) 100) 127

unfoldable pub rpm_from : ℕ → ℕ
rpm_from x = bit_and x 7

unfoldable pub labor_from : ℕ → ℕ
labor_from x = if leb (x / 8) 19 then x / 8 + 12 else x / 8 - 20

unfoldable pub labor_bits : ℕ → ℕ
labor_bits labor = if leb 12 labor then labor - 12 else 20 + labor

-- `encode_rpm_labor`
unfoldable pub rpm_labor_to : ℕ → ℕ → ℕ
unfolding labor_bits
rpm_labor_to rpm labor = bit_or (labor_bits labor * 8) (bit_and rpm 7)

-- The data of a command: None, a number, text, or a member of an enum by its name.
pub data Datum : Type 0 where
  missing : Datum
  num : ℕ → Datum
  txt : List ℕ → Datum
  member : String → Datum

-- `TMCC2_TO_BASE_SMOKE_MAP` and `TMCC1_TO_BASE_SMOKE_MAP`
unfoldable pub smoke_to : Bool → Datum → ℕ
smoke_to true (member m) =
    if str_eq m "SMOKE_LOW"
    then 1
    else if str_eq m "SMOKE_MEDIUM"
    then 2
    else if str_eq m "SMOKE_HIGH"
    then 3
    else 0
smoke_to false (member m) = if str_eq m "SMOKE_ON" then 1 else 0
smoke_to is_legacy _ = 0

-- The functions in the updates: a constant, the speed, the target speed, the length of a text.
pub data Transform : Type 0 where
  plain tmcc_speed target_speed : Transform
  constant text_length : ℕ → Transform

-- What the state of the engine is asked for.
pub record EngineView : Type 0 where
  pub rpm : ℕ
  pub labor : ℕ
  pub is_ramping : Bool

-- A member of an enum is only given for the smoke.
abbrev pub datum_value : Datum → Value
datum_value missing = nothing
datum_value (num n) = int (pos n)
datum_value (txt t) = str t
datum_value (member m) = nothing

abbrev pub datum_speed : Datum → Result (Option ℕ)
datum_speed missing = ok none
datum_speed (num n) = ok (some n)
datum_speed _ = raise type_error

abbrev pub number_of : Datum → Result ℕ
number_of (num n) = ok n
number_of _ = raise type_error

-- A field without a transform is converted by `CONVERSIONS`, if it is there. `sub_field` is the field that
-- was asked for, `field` the one that has an address. Without a state there is no package for the RPM or
-- the labor alone, and `rpm_labor` takes two numbers.
unfoldable pub converted : String → String → Bool → Option EngineView → Datum → Result Value
unfolding train_brake_to momentum_to rpm_labor_to smoke_to
converted sub_field field is_legacy state datum =
    if str_eq field "_rpm_labor"
    then if str_eq sub_field "_rpm_labor" then raise type_error else (elim state [
      | none ↦ ok nothing
      | some view ↦ (do
        x ← number_of datum
        ok (
            int (
              pos (
                if str_eq sub_field "_rpm"
                then rpm_labor_to x view.labor
                else rpm_labor_to view.rpm x))))
    ])
    else if str_eq field "_smoke"
    then ok (int (pos (smoke_to is_legacy datum)))
    else if str_eq field "_train_brake"
    then (do x ← number_of datum; ok (int (pos (train_brake_to x))))
    else if str_eq field "_momentum"
    then (do x ← number_of datum; ok (int (pos (momentum_to x))))
    else ok (datum_value datum)

unfoldable pub base_value :
    Transform → String → String → Bool → Option EngineView → Datum → Result Value
unfolding converted encode_tmcc_speed
base_value plain sub_field field is_legacy state datum =
    converted sub_field field is_legacy state datum
base_value tmcc_speed sub_field field is_legacy state datum = do
  speed ← datum_speed datum
  ok (int (pos (encode_tmcc_speed speed is_legacy)))
base_value target_speed sub_field field is_legacy state datum =
    let speed : Result Value = (do
      s ← datum_speed datum
      ok (int (pos (encode_tmcc_speed s is_legacy)))) in
    elim state [ none ↦ speed | some view ↦ if view.is_ramping then ok nothing else speed ]
base_value (constant n) sub_field field is_legacy state datum = ok (int (pos n))
base_value (text_length n) sub_field field is_legacy state (txt t) =
    ok (int (pos (min n (length t))))
base_value (text_length n) sub_field field is_legacy state _ = raise type_error

-- The entry of a field.
unfoldable pub find_field : String → Schema → Option (ℕ × CompDataHandler)
find_field f [] = none
find_field f ((k, h) ∷ rest) =
    let later = find_field f rest in if str_eq f h.field then some (k, h) else later

pub record UpdatePkg : Type 0 where
  pub field : String
  pub offset : ℕ
  pub length : ℕ
  pub data_bytes : List ℕ

-- The field that has an address: the RPM and the labor share one.
unfoldable pub addressed : String → Schema → Option (String × ℕ × CompDataHandler)
unfolding find_field
addressed f schema = elim (find_field f schema) [
  | some (k, h) ↦ some (f, k, h)
  | none ↦
      if str_eq f "_rpm" || str_eq f "_labor"
      then (elim (find_field "_rpm_labor" schema) [
        | none ↦ none
        | some (k, h) ↦ some ("_rpm_labor", k, h)
      ])
      else none
]

abbrev pub make_package : String → ℕ → CompDataHandler → Value → Result (Option UpdatePkg)
make_package field k h nothing = ok none
make_package field k h v = do
  bs ← field_bytes h v
  ok (some (record { field = field; offset = k; length = h.length; data_bytes = bs }))

-- `_create_update_pkg`; a scope without a map fails an assertion.
unfoldable pub create_update_pkg :
    CommandScope → Transform → String → Bool → Option EngineView → Datum → Result (Option UpdatePkg)
unfolding addressed base_value scope_to_comp_map
create_update_pkg scope transform sub_field is_legacy state datum = elim (scope_to_comp_map scope) [
  | none ↦ raise assertion_error
  | some schema ↦ (elim (addressed sub_field schema) [
    | none ↦ ok none
    | some (field, k, h) ↦ (do
      v ← base_value transform sub_field field is_legacy state datum
      make_package field k h v)
  ])
]
