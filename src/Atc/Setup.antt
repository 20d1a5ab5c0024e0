-- ===== src/Atc/Setup.antt =====
-- How blocks are made and linked (atc/block.py).
use py_legacy.Common.{
  ℕ, Bool, true, ◌&&◌, Option, none, some, [], if◌then◌else◌, attribute_error, value_error, Result,
  ok, raise, leb,
}
use py_legacy.Atc.Block.{Block, Layout, put}
use py_legacy.Atc.Signals.{points_to}

-- `Validations.validate_int`, from 1 to 99; the sensor track may be None.
abbrev pub is_id : ℕ → Bool
is_id n = leb 1 n && leb n 99

abbrev pub is_id_or_none : Option ℕ → Bool
is_id_or_none none = true
is_id_or_none (some n) = is_id n

-- `__init__`, with the buttons of the pins that are given, and whether the state store has the number
unfoldable pub new_block :
    ℕ
    → Option ℕ
    → Bool
    → Option Bool
    → Option Bool
    → Option Bool
    → Option Bool
    → Bool
    → Result Block
new_block id sensor in_use enter slow stop left_to_right dialog =
    if is_id id && is_id_or_none sensor
    then if in_use
      then raise attribute_error
      else ok (record {
        enter_btn = enter;
        slow_btn = slow;
        stop_btn = stop;
        prev_block = none;
        next_block = none;
        current_motive = none;
        motive_direction = none;
        original_speed = none;
        thru_block = none;
        out_block = none;
        left_to_right = elim left_to_right [ none ↦ true | some d ↦ d ];
        dialog = dialog;
        order_activated = [];
        order_deactivated = [];
      })
    else raise value_error

-- The setter of `prev_block`
unfoldable pub set_prev : ℕ → ℕ → Layout → Layout
set_prev i p w =
    let w' = put i (record (w i) { prev_block = some p }) w in
    if points_to (w' p).next_block i then w' else put p (record (w' p) { next_block = some i }) w'

-- The setter of `is_dialog`
unfoldable pub set_dialog : ℕ → Bool → Layout → Layout
set_dialog i d w = put i (record (w i) { dialog = d }) w
