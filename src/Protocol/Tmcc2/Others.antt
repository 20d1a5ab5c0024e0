-- ===== src/Protocol/Tmcc2/Others.antt =====
-- The other enums of tmcc2/tmcc2_constants.py: the halt and the route command.
use py_legacy.Common.{List, false, some, [], ◌∷◌}
use py_legacy.Protocol.Scope.{route}
use py_legacy.Protocol.Def.{Command, tmcc2}
use py_legacy.Protocol.Tmcc2.Rows.{command, tmcc2_def}
use py_legacy.Protocol.Tmcc2.Constants.{legacy_route_command, tmcc2_halt_command}

unfoldable pub tmcc2_halt_commands : List Command
tmcc2_halt_commands =
    command "HALT"
      (record (tmcc2_def tmcc2_halt_command) { alias = some "SYSTEM_HALT"; alias_data = some 99 })
    ∷ []

unfoldable pub tmcc2_route_commands : List Command
tmcc2_route_commands =
    command "FIRE" (record (tmcc2_def legacy_route_command) { variant = tmcc2 route false }) ∷ []
