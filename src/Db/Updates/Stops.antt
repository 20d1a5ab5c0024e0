-- ===== src/Db/Updates/Stops.antt =====
-- The commands that stop an engine, in the memory of the Base 3 (db/comp_data.py).
use Prim.Native.String.{String}
use py_legacy.Common.{◌≡◌, refl, Bool, Option, none, [], ◌∷◌, All, ok}
use py_legacy.Protocol.Scope.{CommandScope, engine, train}
use py_legacy.Db.Text.{le_bytes}
use py_legacy.Db.CompData.{scope_to_comp_map, field_bytes}
use py_legacy.Db.CompData.Maps.{base_memory_engine_read_map, base_memory_train_read_map}
use py_legacy.Db.Updates.{EngineView, Datum, create_update_pkg, rpm_labor_to, rpm_from, labor_from}
use py_legacy.Db.Updates.Requests.{request_to_updates, stops, zeroed}

abbrev pub IsStopped : Bool → Option EngineView → Datum → CommandScope → String → Type 0
IsStopped is_legacy state datum scope name =
    request_to_updates name none scope is_legacy state datum
    ≡ ok (zeroed "_speed" 7 ∷ zeroed "_target_speed" 8 ∷ zeroed "_rpm_labor" 12 ∷ [])

-- Each command that stops an engine or a train (HALT, RESET, STOP_IMMEDIATE, SYSTEM_HALT and
-- EMERGENCY_STOP, without an alias) sets the speed and the target speed to 0 in the Base 3, and writes the
-- byte of the RPM and the labor as 0, which is RPM 0 and labor 12, and nothing else, whatever state the
-- engine is in and whatever the data is.
pub request_to_updates-stops :
    (is_legacy : Bool) (state : Option EngineView) (datum : Datum)
    → All (IsStopped is_legacy state datum engine) stops
      × All (IsStopped is_legacy state datum train) stops
      × (rpm_labor_to 0 12 ≡ 0)
      × (rpm_from 0 ≡ 0)
      × (labor_from 0 ≡ 12)
unfolding rpm_labor_to rpm_from labor_from request_to_updates create_update_pkg scope_to_comp_map
    base_memory_engine_read_map base_memory_train_read_map le_bytes field_bytes
request_to_updates-stops is_legacy state datum = (
  (refl, (refl, (refl, (refl, (refl, tt))))),
  (refl, (refl, (refl, (refl, (refl, tt))))),
  refl,
  refl,
  refl,
)
