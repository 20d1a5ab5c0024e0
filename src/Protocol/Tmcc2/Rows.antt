-- ===== src/Protocol/Tmcc2/Rows.antt =====
-- The defaults of the constructor `TMCC2CommandDef`.
use Prim.Native.String.{String}
use py_legacy.Common.{ℕ, true, false, none, []}
use py_legacy.Protocol.Scope.{engine}
use py_legacy.Protocol.Def.{CommandDef, Command, tmcc2}

abbrev pub command : String → CommandDef → Command
command name value = record { name = name; value = value }

abbrev pub tmcc2_def : ℕ → CommandDef
tmcc2_def command_bits = record {
  command_bits = command_bits;
  is_addressable = true;
  address_bits = 7;
  d_min = 0;
  d_max = 0;
  d_map = [];
  alias = none;
  alias_data = none;
  filtered = false;
  aux1 = false;
  interval = none;
  noop = false;
  ignore_impacts = false;
  variant = tmcc2 engine false;
}
