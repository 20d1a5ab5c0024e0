-- ===== src/Db/CompData/Maps.antt =====
-- The maps from an address in a record of the Base 3 to the field there (db/comp_data.py), in the order
-- of the source. A field is named as the attribute is.
use Prim.Native.String.{String}
use py_legacy.Common.{ℕ, Bool, true, false, List, [], ◌∷◌, ◌==◌, if◌then◌else◌}
use py_legacy.Common.Int.{ℤ, pos}
use py_legacy.Db.Components.{ConsistComponent, RouteComponent}

-- What an attribute holds: None, a number, text, the members of a train or of a route, or the bytes that
-- `_set_defaults` puts into a field.
pub data Value : Type 0 where
  nothing : Value
  int : ℤ → Value
  str : List ℕ → Value
  consist : List ConsistComponent → Value
  routes : List RouteComponent → Value
  raw : List ℕ → Value

-- The pairs of functions that the handlers are given: little-endian numbers and text of a length, the
-- four digits of an address, and the lists of members.
pub data Codec : Type 0 where
  number text_field : ℕ → Codec
  digits members d4_members route_members : Codec

pub record CompDataHandler : Type 0 where
  pub field : String
  pub length : ℕ
  pub codec : Codec
  pub d4_only : Bool
  pub default : Value

abbrev pub Schema : Type 0
Schema = List (ℕ × CompDataHandler)

handler : String → ℕ → Codec → Value → CompDataHandler
handler f n c d = record { field = f; length = n; codec = c; d4_only = false; default = d }

d4_handler : String → ℕ → Codec → Value → CompDataHandler
d4_handler f n c d = record { field = f; length = n; codec = c; d4_only = true; default = d }

-- `dict.update` with one entry
put_entry : ℕ → CompDataHandler → Schema → Schema
put_entry k h [] = (k, h) ∷ []
put_entry k h ((j, g) ∷ rest) =
    let behind = put_entry k h rest in if k == j then (k, h) ∷ rest else (j, g) ∷ behind

update : Schema → Schema → Schema
unfolding put_entry
update schema [] = schema
update schema ((k, h) ∷ rest) = update (put_entry k h schema) rest

unfoldable pub base_memory_engine_read_map : Schema
unfolding handler d4_handler
base_memory_engine_read_map =
    (0x00, handler "_prev_link" 1 (number 1) (int (pos 0xFF)))
    ∷ (0x01, handler "_next_link" 1 (number 1) (int (pos 0xFF)))
    ∷ (0x02, handler "_record_type" 1 (number 1) (int (pos 4)))
    ∷ (0x03, handler "_lc_flags" 1 (number 1) (int (pos 0xFF)))
    ∷ (0x04, handler "_bt_id" 2 (number 2) (int (pos 0)))
    ∷ (0x06, handler "_unk_6" 1 (number 1) (int (pos 0)))
    ∷ (0x07, handler "_speed" 1 (number 1) (int (pos 0)))
    ∷ (0x08, handler "_target_speed" 1 (number 1) (int (pos 0)))
    ∷ (0x09, handler "_train_brake" 1 (number 1) (int (pos 0)))
    ∷ (0x0A, handler "_control_id" 1 (number 1) (int (pos 0)))
    ∷ (0x0B, handler "_unk_b" 1 (number 1) (int (pos 0)))
    ∷ (0x0C, handler "_rpm_labor" 1 (number 1) (int (pos 0)))
    ∷ (0x0D, handler "_fuel_level" 1 (number 1) (int (pos 0xFF)))
    ∷ (0x0E, handler "_water_level" 1 (number 1) (int (pos 0xFF)))
    ∷ (0x0F, handler "_labor_level" 1 (number 1) (int (pos 0)))
    ∷ (0x11, handler "_unk_11" 1 (number 1) (int (pos 0xFF)))
    ∷ (0x12, handler "_unk_12" 1 (number 1) (int (pos 0)))
    ∷ (0x13, handler "_unk_13" 1 (number 1) (int (pos 0)))
    ∷ (0x17, handler "_momentum_setting" 1 (number 1) (int (pos 0xFF)))
    ∷ (0x18, handler "_momentum" 1 (number 1) (int (pos 0)))
    ∷ (0x1C, handler "_train_tmcc_id" 1 (number 1) (int (pos 0xFF)))
    ∷ (0x1D, handler "_train_unit" 1 (number 1) (int (pos 0xFF)))
    ∷ (0x1E, handler "_road_name_len" 1 (number 1) (int (pos 0)))
    ∷ (0x1F, handler "_road_name" 31 (text_field 31) nothing)
    ∷ (0x3E, handler "_road_number_len" 1 (number 1) (int (pos 0)))
    ∷ (0x3F, handler "_road_number" 4 (text_field 4) nothing)
    ∷ (0x43, handler "_engine_type" 1 (number 1) (int (pos 0xFF)))
    ∷ (0x44, handler "_control_type" 1 (number 1) (int (pos 0xFF)))
    ∷ (0x45, handler "_sound_type" 1 (number 1) (int (pos 0xFF)))
    ∷ (0x46, handler "_engine_class" 1 (number 1) (int (pos 0xFF)))
    ∷ (0x4A, handler "_min_os" 1 (number 1) (int (pos 0xFF)))
    ∷ (0x59, handler "_tsdb_left" 1 (number 1) (int (pos 0xFF)))
    ∷ (0x5B, handler "_tsdb_right" 1 (number 1) (int (pos 0xFF)))
    ∷ (0x5C, handler "_unk_5c" 1 (number 1) (int (pos 0xFF)))
    ∷ (0x5D, handler "_unk_5d" 1 (number 1) (int (pos 0xFF)))
    ∷ (0x5E, handler "_unk_5e" 1 (number 1) (int (pos 0xFF)))
    ∷ (0x5F, handler "_unk_5f" 1 (number 1) (int (pos 0xFF)))
    ∷ (0x68, handler "_unk_68" 1 (number 1) (int (pos 0xFF)))
    ∷ (0x69, handler "_smoke" 1 (number 1) (int (pos 0xFF)))
    ∷ (0x6A, handler "_speed_limit" 1 (number 1) (int (pos 0xFF)))
    ∷ (0x6B, handler "_max_speed" 1 (number 1) (int (pos 0xFF)))
    ∷ (0x6C, handler "_unk_6c" 1 (number 1) (int (pos 0xFF)))
    ∷ (0x6D, handler "_lighting" 1 (number 1) (int (pos 0xFF)))
    ∷ (0xB8, d4_handler "_tmcc_id" 4 digits (int (pos 0xFF)))
    ∷ (0xBC, d4_handler "_timestamp" 4 (number 4) (int (pos 0xFF)))
    ∷ []

unfoldable pub base_memory_train_read_map : Schema
unfolding handler update base_memory_engine_read_map
base_memory_train_read_map = update base_memory_engine_read_map (
    (0x02, handler "_record_type" 1 (number 1) (int (pos 3)))
    ∷ (0x6F, handler "_consist_flags" 1 (number 1) (int (pos 0xFF)))
    ∷ (0x70, handler "_consist_comps" 32 members nothing)
    ∷ [])

unfoldable pub base_memory_d4_train_read_map : Schema
unfolding handler update base_memory_engine_read_map
base_memory_d4_train_read_map = update base_memory_engine_read_map (
    (0x6D, handler "_consist_flags" 1 (number 1) (int (pos 0xFF)))
    ∷ (0x6E, handler "_consist_comps" 64 d4_members (int (pos 0xFF)))
    ∷ [])

unfoldable pub base_memory_acc_read_map : Schema
unfolding handler
base_memory_acc_read_map =
    (0x00, handler "_prev_link" 1 (number 1) (int (pos 0xFF)))
    ∷ (0x01, handler "_next_link" 1 (number 1) (int (pos 0xFF)))
    ∷ (0x02, handler "_record_type" 1 (number 1) (int (pos 1)))
    ∷ (0x1E, handler "_road_name_len" 1 (number 1) (int (pos 0)))
    ∷ (0x1F, handler "_road_name" 31 (text_field 31) nothing)
    ∷ (0x3E, handler "_road_number_len" 1 (number 1) (int (pos 0)))
    ∷ (0x3F, handler "_road_number" 4 (text_field 4) nothing)
    ∷ []

unfoldable pub base_memory_switch_read_map : Schema
unfolding handler
base_memory_switch_read_map =
    (0x00, handler "_prev_link" 1 (number 1) (int (pos 0xFF)))
    ∷ (0x01, handler "_next_link" 1 (number 1) (int (pos 0xFF)))
    ∷ (0x02, handler "_record_type" 1 (number 1) (int (pos 0)))
    ∷ (0x04, handler "_road_name_len" 1 (number 1) (int (pos 0)))
    ∷ (0x05, handler "_road_name" 31 (text_field 31) nothing)
    ∷ (0x24, handler "_road_number_len" 1 (number 1) (int (pos 0)))
    ∷ (0x25, handler "_road_number" 4 (text_field 4) nothing)
    ∷ []

unfoldable pub base_memory_route_read_map : Schema
unfolding handler update base_memory_switch_read_map
base_memory_route_read_map = update base_memory_switch_read_map (
    (0x02, handler "_record_type" 1 (number 1) (int (pos 2)))
    ∷ (0x60, handler "_components" 32 route_members nothing)
    ∷ [])
