-- ===== src/Db/Runs.antt =====
-- Concrete records: tests, and the theorems at one input.
use text.Mathlib.Text.{◌==◌ as str_eq}
use py_legacy.Common.{
  ℕ, ◌+◌, ◌<◌, raise, value_error, ◌≤◌, ◌≡◌, refl, true, false, Option, none, some, ◌==◌, List, [],
  ◌∷◌, arith, length, ok, ◌>>=◌, if◌then◌else◌, All, inl, inr,
}
use py_legacy.Common.Int.{pos}
use py_legacy.Protocol.Scope.{engine, train, switch}
use py_legacy.Db.Text.{
  encode_text, decode_text, strip, is_empty, le_bytes, IsField, decode_text-encode_text,
}
use py_legacy.Db.Components.{ConsistComponent, consist_to_d4_bytes, consist_from_d4_bytes}
use py_legacy.Db.Components.Lost.{remaining, consist_from_d4_bytes-lost}
use py_legacy.Db.CompData.{
  CompData, Fields, comp_data, as_bytes, field_bytes, sort_schema, without_d4,
}
use py_legacy.Db.CompData.Maps.{
  Value, nothing, int, str, base_memory_switch_read_map, base_memory_engine_read_map,
}
use py_legacy.Db.CompData.RoundTrip.{comp_data-as_bytes, written_map, AreSame, base_map, map_of}
use py_legacy.Db.Updates.{
  EngineView, UpdatePkg, target_speed, missing, num, plain, create_update_pkg, rpm_labor_to,
  rpm_from, labor_from,
}
use py_legacy.Db.Updates.Conversions.{rpm_labor_lem}
use py_legacy.Db.Updates.Bounds.{create_update_pkg_bounds}
use py_legacy.Db.Updates.Requests.{stops}
use py_legacy.Db.Updates.Stops.{IsStopped, request_to_updates-stops}

cleared :
    (do c ← comp_data (λ n. none) [] switch (some 0); bs ← as_bytes c; ok (length bs)) ≡ ok 0x40
unfolding comp_data as_bytes base_memory_switch_read_map le_bytes encode_text
cleared = refl

-- A switch called "Yard".
abbrev yard : Fields
yard f =
    if str_eq f "_tmcc_id"
    then int (pos 12)
    else if str_eq f "_road_name"
    then str (b'Y' ∷ b'a' ∷ b'r' ∷ b'd' ∷ [])
    else if str_eq f "_road_number"
    then nothing
    else int (pos 4)

comp_data-as_bytes_example :
    (bs : List ℕ) × (c : CompData) × (as_bytes (record { scope = switch; fields = yard }) ≡ ok bs)
    × (length bs ≡ 0x40)
    × (comp_data (λ n. none) bs switch (some 12) ≡ ok c)
    × AreSame c.fields yard (written_map switch false)
unfolding written_map sort_schema without_d4 base_map map_of base_memory_switch_read_map strip
comp_data-as_bytes_example =
    comp_data-as_bytes (λ n. none) switch yard 12 tt refl
      (four, (four, (four, (four, (inr yard_name, (four, (inl (refl, omega arith), tt)))))))
  where
    four : (x : ℕ) × (◌≡◌ {A = Value} (int (pos 4)) (int (pos x))) × (x < 256)
    four = (4, refl, omega arith)

    yard_name :
        (t : List ℕ) × (◌≡◌ {A = Value} (str (b'Y' ∷ b'a' ∷ b'r' ∷ b'd' ∷ [])) (str t))
        × IsField 31 t
    yard_name = (b'Y' ∷ b'a' ∷ b'r' ∷ b'd' ∷ [], refl, (refl, refl, omega arith, omega arith))

-- Members of a 4-digit train: the record number of the first is 511, that of the other 300.
abbrev member : ConsistComponent
member = record { tmcc_id = 1234; flags = 0x41; extra = 0xFF; rec_no = some 0x1FF }

abbrev other_member : ConsistComponent
other_member = record { tmcc_id = 5678; flags = 0x42; extra = 0xFF; rec_no = some 300 }

abbrev roster : ℕ → Option ℕ
roster n = if n == 300 then some 5678 else some 1234

consist_from_d4_bytes-lost_example :
    (bs : List ℕ) × (consist_to_d4_bytes (member ∷ other_member ∷ []) ≡ ok bs)
    × (length bs ≡ 64)
    × (consist_from_d4_bytes roster bs ≡ ok (other_member ∷ []))
unfolding remaining
consist_from_d4_bytes-lost_example =
    consist_from_d4_bytes-lost roster (member ∷ other_member ∷ [])
      (
        (0x1FF, refl, refl, omega arith, omega arith, refl),
        ((300, refl, refl, omega arith, omega arith, refl), tt),
      )
      (omega arith)

decode_text-encode_text_example :
    (bs : List ℕ) × (encode_text (some (32 ∷ b'A' ∷ [])) 4 ≡ ok bs)
    × (decode_text bs
        ≡ (if is_empty (strip (32 ∷ b'A' ∷ [])) then none else some (strip (32 ∷ b'A' ∷ []))))
unfolding strip
decode_text-encode_text_example = decode_text-encode_text (32 ∷ b'A' ∷ []) 3 (omega arith)

-- Text that is too long for its field is not cut.
too_long : encode_text (some (b'a' ∷ b'b' ∷ b'c' ∷ [])) 2 ≡ ok (b'a' ∷ b'b' ∷ b'c' ∷ [])
unfolding encode_text
too_long = refl

-- A character above 127 is read from a record, and cannot be written to one.
not_ascii_read : decode_text (0xC4 ∷ []) ≡ some (0xC4 ∷ [])
unfolding decode_text
not_ascii_read = refl

not_ascii_written : encode_text (some (0xC4 ∷ [])) 1 ≡ raise value_error
unfolding encode_text
not_ascii_written = refl

rpm_labor_lem_example : (rpm_from (rpm_labor_to 5 17) ≡ 5) × (labor_from (rpm_labor_to 5 17) ≡ 17)
rpm_labor_lem_example = rpm_labor_lem 5 17 (omega arith) (omega arith)

abbrev steaming : EngineView
steaming = record { rpm = 3; labor = 14; is_ramping = true }

labor_pkg : UpdatePkg
labor_pkg = record { field = "_rpm_labor"; offset = 12; length = 1; data_bytes = 0x23 ∷ [] }

create_update_pkg_bounds_example :
    (labor_pkg.offset + length labor_pkg.data_bytes ≤ 0xC0)
    × (length labor_pkg.data_bytes ≡ labor_pkg.length)
unfolding create_update_pkg labor_pkg base_memory_engine_read_map field_bytes le_bytes
create_update_pkg_bounds_example =
    create_update_pkg_bounds engine plain "_labor" true (some steaming) (num 16) labor_pkg refl refl
      refl

-- While the engine is ramping, a speed command leaves the target speed alone.
ramping :
    create_update_pkg engine target_speed "_target_speed" true (some steaming) (num 90) ≡ ok none
unfolding create_update_pkg base_memory_engine_read_map
ramping = refl

request_to_updates-stops_example :
    All (IsStopped false (some steaming) missing engine) stops
    × All (IsStopped false (some steaming) missing train) stops
    × (rpm_labor_to 0 12 ≡ 0)
    × (rpm_from 0 ≡ 0)
    × (labor_from 0 ≡ 12)
request_to_updates-stops_example = request_to_updates-stops false (some steaming) missing
