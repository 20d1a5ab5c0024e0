-- ===== src/Protocol/Tmcc1/Rows.antt =====
-- The defaults of the constructors `TMCC1CommandDef` and `SyncCommandDef`.
use Prim.Native.String.{String}
use py_legacy.Common.{ℕ, true, false, none, []}
use py_legacy.Protocol.Def.{CommandDef, Command, tmcc1, engine_ident, sync_ident}
use py_legacy.Protocol.Tmcc1.Constants.{tmcc1_command_prefix}

abbrev pub command : String → CommandDef → Command
command name value = record { name = name; value = value }

abbrev pub tmcc1_def : ℕ → CommandDef
tmcc1_def command_bits = record {
  command_bits = command_bits;
  is_addressable = true;
  address_bits = 7;
  d_min = 0;
  d_max = 0;
  d_map = [];
  alias = none;
  alias_data = none;
  filtered = false;
  aux1 = false;
  interval = none;
  noop = false;
  ignore_impacts = false;
  variant = tmcc1 engine_ident tmcc1_command_prefix;
}

abbrev pub sync_def : ℕ → CommandDef
sync_def command_bits = record (tmcc1_def command_bits) {
  is_addressable = false;
  variant = tmcc1 sync_ident tmcc1_command_prefix;
}
