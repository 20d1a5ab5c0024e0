-- ===== src/Db/Updates/Requests.antt =====
-- `request_to_updates` and its map from a command to the fields that it changes (db/comp_data.py).
use Prim.Native.String.{String}
use text.Mathlib.Text.{◌==◌ as str_eq}
use py_legacy.Common.{
  ℕ, Bool, true, false, ◌&&◌, ◌||◌, Option, none, some, List, [], ◌∷◌, ◌++◌, if◌then◌else◌, Result,
  ok, ◌>>=◌,
}
use py_legacy.Protocol.Scope.{CommandScope}
use py_legacy.Db.Updates.{
  Transform, plain, tmcc_speed, target_speed, constant, text_length, EngineView, Datum, UpdatePkg,
  create_update_pkg,
}

abbrev pub Update : Type 0
Update = String × Transform

unfoldable pub request_to_updates_map : List (String × List Update)
request_to_updates_map =
    ("PREV_LINK", ("_prev_link", plain) ∷ [])
    ∷ ("NEXT_LINK", ("_next_link", plain) ∷ [])
    ∷ ("ABSOLUTE_SPEED", ("_speed", tmcc_speed) ∷ ("_target_speed", target_speed) ∷ [])
    ∷ ("SPEED", ("_speed", tmcc_speed) ∷ [])
    ∷ ("TARGET_SPEED", ("_target_speed", tmcc_speed) ∷ [])
    ∷ ("DIESEL_RPM", ("_rpm", plain) ∷ [])
    ∷ ("ENGINE_LABOR", ("_labor", plain) ∷ [])
    ∷ ("ENGINEER_FUEL_REFILLED", ("_fuel_level", constant 255) ∷ [])
    ∷ ("ENGINEER_WATER_REFILLED", ("_water_level", constant 255) ∷ [])
    ∷ (
      "HALT",
      ("_speed", constant 0) ∷ ("_target_speed", constant 0) ∷ ("_rpm_labor", constant 0) ∷ [],
    )
    ∷ ("CONTROL_TYPE", ("_control_type", plain) ∷ [])
    ∷ ("ENGINE_TYPE", ("_engine_type", plain) ∷ [])
    ∷ ("SOUND_TYPE", ("_sound_type", plain) ∷ [])
    ∷ ("MOMENTUM", ("_momentum", plain) ∷ [])
    ∷ ("MOMENTUM_HIGH", ("_momentum", constant 127) ∷ [])
    ∷ ("MOMENTUM_LOW", ("_momentum", constant 0) ∷ [])
    ∷ ("MOMENTUM_MEDIUM", ("_momentum", constant 63) ∷ [])
    ∷ (
      "RESET",
      ("_speed", constant 0) ∷ ("_target_speed", constant 0) ∷ ("_rpm_labor", constant 0) ∷ [],
    )
    ∷ ("ROAD_NAME", ("_road_name", plain) ∷ [])
    ∷ ("ROAD_NAME_LEN", ("_road_name_len", text_length 31) ∷ [])
    ∷ ("ROAD_NUMBER", ("_road_number", plain) ∷ [])
    ∷ ("ROAD_NUMBER_LEN", ("_road_number_len", text_length 4) ∷ [])
    ∷ ("SHUTDOWN_DELAYED", ("_rpm_labor", constant 0) ∷ [])
    ∷ ("SHUTDOWN_IMMEDIATE", ("_rpm_labor", constant 0) ∷ [])
    ∷ ("SMOKE_HIGH", ("_smoke", constant 3) ∷ [])
    ∷ ("SMOKE_LOW", ("_smoke", constant 1) ∷ [])
    ∷ ("SMOKE_MEDIUM", ("_smoke", constant 2) ∷ [])
    ∷ ("SMOKE_OFF", ("_smoke", constant 0) ∷ [])
    ∷ ("SMOKE_ON", ("_smoke", constant 1) ∷ [])
    ∷ ("SPEED_LIMIT", ("_speed_limit", tmcc_speed) ∷ [])
    ∷ (
      "STOP_IMMEDIATE",
      ("_speed", constant 0) ∷ ("_target_speed", constant 0) ∷ ("_rpm_labor", constant 0) ∷ [],
    )
    ∷ (
      "SYSTEM_HALT",
      ("_speed", constant 0) ∷ ("_target_speed", constant 0) ∷ ("_rpm_labor", constant 0) ∷ [],
    )
    ∷ (
      "EMERGENCY_STOP",
      ("_speed", constant 0) ∷ ("_target_speed", constant 0) ∷ ("_rpm_labor", constant 0) ∷ [],
    )
    ∷ ("TRAIN_ADDRESS", ("_train_tmcc_id", plain) ∷ [])
    ∷ ("TRAIN_BRAKE", ("_train_brake", plain) ∷ [])
    ∷ ("TRAIN_UNIT", ("_train_unit", plain) ∷ [])
    ∷ []

unfoldable pub updates_of : String → List (String × List Update) → List Update
updates_of name [] = []
updates_of name ((n, us) ∷ rest) =
    let later = updates_of name rest in if str_eq name n then us else later

-- Two updates of different commands are equal if they name the same function; two lambdas never are.
abbrev same_transform : Transform → Transform → Bool
same_transform plain plain = true
same_transform tmcc_speed tmcc_speed = true
same_transform target_speed target_speed = true
same_transform _ _ = false

unfoldable pub holds_update : Update → List Update → Bool
holds_update (f, t) [] = false
holds_update (f, t) ((g, u) ∷ us) = (str_eq f g && same_transform t u) || holds_update (f, t) us

unfoldable pub add_missing : List Update → List Update → List Update
unfolding holds_update
add_missing us [] = us
add_missing us (v ∷ vs) = add_missing (if holds_update v us then us else us ++ v ∷ []) vs

-- The updates of the command and those of its alias.
unfoldable pub all_updates : String → Option String → List Update
unfolding request_to_updates_map updates_of add_missing
all_updates name none = updates_of name request_to_updates_map
all_updates name (some alias) =
    if str_eq alias name
    then updates_of name request_to_updates_map
    else add_missing (updates_of name request_to_updates_map)
        (updates_of alias request_to_updates_map)

abbrev with_package : Option UpdatePkg → List UpdatePkg → List UpdatePkg
with_package none ps = ps
with_package (some p) ps = p ∷ ps

unfoldable pub packages :
    CommandScope → Bool → Option EngineView → Datum → List Update → Result (List UpdatePkg)
packages scope is_legacy state datum [] = ok []
packages scope is_legacy state datum ((f, t) ∷ us) = do
  p ← create_update_pkg scope t f is_legacy state datum
  ps ← packages scope is_legacy state datum us
  ok (with_package p ps)

unfoldable pub request_to_updates :
    String
    → Option String
    → CommandScope
    → Bool
    → Option EngineView
    → Datum
    → Result (List UpdatePkg)
unfolding packages all_updates
request_to_updates name alias scope is_legacy state datum =
    packages scope is_legacy state datum (all_updates name alias)

-- The commands that stop an engine.
abbrev pub stops : List String
stops = "HALT" ∷ "RESET" ∷ "STOP_IMMEDIATE" ∷ "SYSTEM_HALT" ∷ "EMERGENCY_STOP" ∷ []

abbrev pub zeroed : String → ℕ → UpdatePkg
zeroed f k = record { field = f; offset = k; length = 1; data_bytes = 0 ∷ [] }
