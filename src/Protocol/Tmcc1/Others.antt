-- ===== src/Protocol/Tmcc1/Others.antt =====
-- The other enums of tmcc1/tmcc1_constants.py: system, route, switch, accessory and sync commands.
use py_legacy.Common.{List, true, false, some, [], ◌∷◌}
use py_legacy.Protocol.Scope.{relative_speed_map, reverse_speed_map}
use py_legacy.Protocol.Def.{Command, tmcc1, switch_ident, acc_ident, route_ident, halt_ident}
use py_legacy.Protocol.Tmcc1.Rows.{command, tmcc1_def, sync_def}
use py_legacy.Protocol.Tmcc1.Constants.{
  tmcc1_acc_aux_1_off_command, tmcc1_acc_aux_1_on_command, tmcc1_acc_aux_1_option_1_command,
  tmcc1_acc_aux_1_option_2_command, tmcc1_acc_aux_2_off_command, tmcc1_acc_aux_2_on_command,
  tmcc1_acc_aux_2_option_1_command, tmcc1_acc_aux_2_option_2_command, tmcc1_acc_boost_command,
  tmcc1_acc_brake_command, tmcc1_acc_forward_speed_command, tmcc1_acc_front_coupler_command,
  tmcc1_acc_numeric_command, tmcc1_acc_rear_coupler_command, tmcc1_acc_relative_speed_command,
  tmcc1_acc_reverse_speed_command, tmcc1_acc_set_address_command, tmcc1_command_prefix,
  tmcc1_disconnect_command, tmcc1_halt_command, tmcc1_keep_alive_command, tmcc1_quit_command,
  tmcc1_reboot_command, tmcc1_register_command, tmcc1_restart_command, tmcc1_resync_command,
  tmcc1_route_command, tmcc1_sending_state_command, tmcc1_shutdown_command,
  tmcc1_switch_out_command, tmcc1_switch_set_address_command, tmcc1_switch_thru_command,
  tmcc1_sync_begin_command, tmcc1_sync_complete_command, tmcc1_sync_request_command,
  tmcc1_synced_command, tmcc1_syncing_command, tmcc1_update_command, tmcc1_upgrade_command,
}

unfoldable pub tmcc1_halt_commands : List Command
tmcc1_halt_commands =
    command "HALT" (record (tmcc1_def tmcc1_halt_command) {
      variant = tmcc1 halt_ident tmcc1_command_prefix;
      is_addressable = false;
      filtered = true;
    })
    ∷ []

unfoldable pub tmcc1_route_commands : List Command
tmcc1_route_commands =
    command "FIRE" (record (tmcc1_def tmcc1_route_command) {
      variant = tmcc1 route_ident tmcc1_command_prefix;
      address_bits = 5;
    })
    ∷ []

unfoldable pub tmcc1_switch_commands : List Command
tmcc1_switch_commands =
    command "THRU" (record (tmcc1_def tmcc1_switch_thru_command) {
      variant = tmcc1 switch_ident tmcc1_command_prefix;
    })
    ∷ command "OUT" (record (tmcc1_def tmcc1_switch_out_command) {
      variant = tmcc1 switch_ident tmcc1_command_prefix;
    })
    ∷ command "SET_ADDRESS" (record (tmcc1_def tmcc1_switch_set_address_command) {
      variant = tmcc1 switch_ident tmcc1_command_prefix;
    })
    ∷ []

unfoldable pub tmcc1_aux_commands : List Command
tmcc1_aux_commands =
    command "SET_ADDRESS" (record (tmcc1_def tmcc1_acc_set_address_command) {
      variant = tmcc1 acc_ident tmcc1_command_prefix;
    })
    ∷ command "NUMERIC" (record (tmcc1_def tmcc1_acc_numeric_command) {
      variant = tmcc1 acc_ident tmcc1_command_prefix;
      d_max = 9;
    })
    ∷ command "AUX1_OFF" (record (tmcc1_def tmcc1_acc_aux_1_off_command) {
      variant = tmcc1 acc_ident tmcc1_command_prefix;
    })
    ∷ command "AUX1_ON" (record (tmcc1_def tmcc1_acc_aux_1_on_command) {
      variant = tmcc1 acc_ident tmcc1_command_prefix;
    })
    ∷ command "AUX1_OPT_ONE" (record (tmcc1_def tmcc1_acc_aux_1_option_1_command) {
      variant = tmcc1 acc_ident tmcc1_command_prefix;
    })
    ∷ command "AUX1_OPT_TWO" (record (tmcc1_def tmcc1_acc_aux_1_option_2_command) {
      variant = tmcc1 acc_ident tmcc1_command_prefix;
    })
    ∷ command "AUX2_OFF" (record (tmcc1_def tmcc1_acc_aux_2_off_command) {
      variant = tmcc1 acc_ident tmcc1_command_prefix;
    })
    ∷ command "AUX2_ON" (record (tmcc1_def tmcc1_acc_aux_2_on_command) {
      variant = tmcc1 acc_ident tmcc1_command_prefix;
    })
    ∷ command "AUX2_OPT_ONE" (record (tmcc1_def tmcc1_acc_aux_2_option_1_command) {
      variant = tmcc1 acc_ident tmcc1_command_prefix;
    })
    ∷ command "AUX2_OPT_TWO" (record (tmcc1_def tmcc1_acc_aux_2_option_2_command) {
      variant = tmcc1 acc_ident tmcc1_command_prefix;
    })
    ∷ command "FRONT_COUPLER" (record (tmcc1_def tmcc1_acc_front_coupler_command) {
      variant = tmcc1 acc_ident tmcc1_command_prefix;
    })
    ∷ command "REAR_COUPLER" (record (tmcc1_def tmcc1_acc_rear_coupler_command) {
      variant = tmcc1 acc_ident tmcc1_command_prefix;
    })
    ∷ command "BOOST" (record (tmcc1_def tmcc1_acc_boost_command) {
      variant = tmcc1 acc_ident tmcc1_command_prefix;
    })
    ∷ command "BRAKE" (record (tmcc1_def tmcc1_acc_brake_command) {
      variant = tmcc1 acc_ident tmcc1_command_prefix;
    })
    ∷ command "FORWARD_SPEED" (record (tmcc1_def tmcc1_acc_forward_speed_command) {
      variant = tmcc1 acc_ident tmcc1_command_prefix;
      d_max = 3;
    })
    ∷ command "RESET" (record (tmcc1_def tmcc1_acc_numeric_command) {
      variant = tmcc1 acc_ident tmcc1_command_prefix;
      alias = some "NUMERIC";
      alias_data = some 0;
      interval = some 100;
    })
    ∷ command "RELATIVE_SPEED" (record (tmcc1_def tmcc1_acc_relative_speed_command) {
      variant = tmcc1 acc_ident tmcc1_command_prefix;
      d_map = relative_speed_map;
    })
    ∷ command "REVERSE_SPEED" (record (tmcc1_def tmcc1_acc_reverse_speed_command) {
      variant = tmcc1 acc_ident tmcc1_command_prefix;
      d_map = reverse_speed_map;
    })
    ∷ []

unfoldable pub tmcc1_sync_commands : List Command
tmcc1_sync_commands =
    command "DISCONNECT" (sync_def tmcc1_disconnect_command)
    ∷ command "KEEP_ALIVE" (sync_def tmcc1_keep_alive_command)
    ∷ command "QUIT" (sync_def tmcc1_quit_command)
    ∷ command "REBOOT" (sync_def tmcc1_reboot_command)
    ∷ command "REGISTER" (sync_def tmcc1_register_command)
    ∷ command "RESTART" (sync_def tmcc1_restart_command)
    ∷ command "RESYNC" (sync_def tmcc1_resync_command)
    ∷ command "SENDING_STATE" (sync_def tmcc1_sending_state_command)
    ∷ command "SHUTDOWN" (sync_def tmcc1_shutdown_command)
    ∷ command "SYNCHRONIZED" (sync_def tmcc1_synced_command)
    ∷ command "SYNCHRONIZING" (sync_def tmcc1_syncing_command)
    ∷ command "SYNC_BEGIN" (sync_def tmcc1_sync_begin_command)
    ∷ command "SYNC_COMPLETE" (sync_def tmcc1_sync_complete_command)
    ∷ command "SYNC_REQUEST" (sync_def tmcc1_sync_request_command)
    ∷ command "UPDATE" (sync_def tmcc1_update_command)
    ∷ command "UPGRADE" (sync_def tmcc1_upgrade_command)
    ∷ []
