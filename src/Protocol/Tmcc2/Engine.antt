-- ===== src/Protocol/Tmcc2/Engine.antt =====
-- `TMCC2EngineCommandEnum` (tmcc2/tmcc2_constants.py), in the order of the source.
use py_legacy.Common.{List, true, some, bit_or, [], ◌∷◌}
use py_legacy.Protocol.Scope.{engine, relative_speed_map, default_engine_labor}
use py_legacy.Protocol.Def.{Command, tmcc2}
use py_legacy.Protocol.Tmcc2.Rows.{command, tmcc2_def}
use py_legacy.Protocol.Tmcc2.Constants.{
  tmcc2_assign_clear_consist, tmcc2_assign_head_forward, tmcc2_assign_head_reverse,
  tmcc2_assign_middle_forward, tmcc2_assign_middle_reverse, tmcc2_assign_rear_forward,
  tmcc2_assign_rear_reverse, tmcc2_assign_single_forward, tmcc2_assign_single_reverse,
  tmcc2_aux1_off_command, tmcc2_aux1_on_command, tmcc2_aux1_option_one_command,
  tmcc2_aux1_option_two_command, tmcc2_aux2_off_command, tmcc2_aux2_on_command,
  tmcc2_aux2_option_one_command, tmcc2_aux2_option_two_command, tmcc2_aux3_option_one_command,
  tmcc2_bell_off_command, tmcc2_bell_on_command, tmcc2_bell_one_shot_ding_command,
  tmcc2_bell_slider_position_command, tmcc2_blow_horn_one_command, tmcc2_blow_horn_two_command,
  tmcc2_boost_speed_command, tmcc2_brake_speed_command, tmcc2_diesel_rpm_sound_command,
  tmcc2_eng_auger_sound_command, tmcc2_eng_brake_air_release_sound_command,
  tmcc2_eng_brake_squeal_sound_command, tmcc2_eng_cylinder_hiss_sound_command,
  tmcc2_eng_let_off_long_sound_command, tmcc2_eng_let_off_sound_command,
  tmcc2_eng_pop_off_sound_command, tmcc2_eng_refuelling_sound_command, tmcc2_eng_rpm_down_command,
  tmcc2_eng_rpm_up_command, tmcc2_engine_labor_command, tmcc2_forward_direction_command,
  tmcc2_halt_command, tmcc2_highball_speed, tmcc2_limited_speed, tmcc2_medium_speed,
  tmcc2_motion_start_command, tmcc2_motion_stop_command, tmcc2_normal_speed, tmcc2_numeric_command,
  tmcc2_open_front_coupler_command, tmcc2_open_rear_coupler_command, tmcc2_quilling_horn_command,
  tmcc2_restricted_speed, tmcc2_reverse_direction_command, tmcc2_ring_bell_command,
  tmcc2_roll_speed, tmcc2_set_absolute_speed_command, tmcc2_set_address_command,
  tmcc2_set_boost_level_command, tmcc2_set_brake_level_command, tmcc2_set_momentum_command,
  tmcc2_set_momentum_high_command, tmcc2_set_momentum_low_command,
  tmcc2_set_momentum_medium_command, tmcc2_set_relative_speed_command,
  tmcc2_set_train_brake_command, tmcc2_shutdown_seq_one_command, tmcc2_shutdown_seq_two_command,
  tmcc2_slow_speed, tmcc2_sound_off_command, tmcc2_sound_on_command, tmcc2_stall_command,
  tmcc2_start_up_seq_one_command, tmcc2_start_up_seq_two_command, tmcc2_stop_immediate_command,
  tmcc2_toggle_direction_command, tmcc2_volume_down_command_hack, tmcc2_volume_up_command_hack,
  tmcc2_water_injector_sound_command,
}

unfoldable pub tmcc2_engine_commands : List Command
tmcc2_engine_commands =
    command "ABSOLUTE_SPEED" (record (tmcc2_def tmcc2_set_absolute_speed_command) {
      variant = tmcc2 engine true;
      d_max = 199;
      filtered = true;
    })
    ∷ command "AUGER" (tmcc2_def tmcc2_eng_auger_sound_command)
    ∷ command "AUX1_OFF" (tmcc2_def tmcc2_aux1_off_command)
    ∷ command "AUX1_ON" (tmcc2_def tmcc2_aux1_on_command)
    ∷ command "AUX1_OPTION_ONE"
        (record (tmcc2_def tmcc2_aux1_option_one_command) { interval = some 100 })
    ∷ command "AUX1_OPTION_TWO" (tmcc2_def tmcc2_aux1_option_two_command)
    ∷ command "AUX2_OFF" (tmcc2_def tmcc2_aux2_off_command)
    ∷ command "AUX2_ON" (tmcc2_def tmcc2_aux2_on_command)
    ∷ command "AUX2_OPTION_ONE" (tmcc2_def tmcc2_aux2_option_one_command)
    ∷ command "AUX2_OPTION_TWO" (tmcc2_def tmcc2_aux2_option_two_command)
    ∷ command "AUX3_OPTION_ONE" (tmcc2_def tmcc2_aux3_option_one_command)
    ∷ command "BELL_OFF" (tmcc2_def tmcc2_bell_off_command)
    ∷ command "BELL_ON" (tmcc2_def tmcc2_bell_on_command)
    ∷ command "BELL_ONE_SHOT_DING"
        (record (tmcc2_def tmcc2_bell_one_shot_ding_command) { d_max = 3; interval = some 1000 })
    ∷ command "BELL_SLIDER_POSITION"
        (record (tmcc2_def tmcc2_bell_slider_position_command) { d_min = 2; d_max = 5 })
    ∷ command "BLOW_HORN_ONE"
        (record (tmcc2_def tmcc2_blow_horn_one_command) { interval = some 100 })
    ∷ command "BLOW_HORN_TWO"
        (record (tmcc2_def tmcc2_blow_horn_two_command) { interval = some 100 })
    ∷ command "BOOST_LEVEL" (record (tmcc2_def tmcc2_set_boost_level_command) { d_max = 7 })
    ∷ command "BOOST_SPEED" (record (tmcc2_def tmcc2_boost_speed_command) { interval = some 200 })
    ∷ command "BRAKE_AIR_RELEASE" (tmcc2_def tmcc2_eng_brake_air_release_sound_command)
    ∷ command "BRAKE_LEVEL" (record (tmcc2_def tmcc2_set_brake_level_command) { d_max = 7 })
    ∷ command "BRAKE_SPEED" (record (tmcc2_def tmcc2_brake_speed_command) { interval = some 200 })
    ∷ command "BRAKE_SQUEAL" (tmcc2_def tmcc2_eng_brake_squeal_sound_command)
    ∷ command "CYLINDER_HISS" (tmcc2_def tmcc2_eng_cylinder_hiss_sound_command)
    ∷ command "DIESEL_RPM"
        (record (tmcc2_def tmcc2_diesel_rpm_sound_command) { d_max = 7; filtered = true })
    ∷ command "ENGINE_LABOR" (record (tmcc2_def tmcc2_engine_labor_command) {
      variant = tmcc2 engine true;
      d_max = 31;
      filtered = true;
    })
    ∷ command "ENGINE_LABOR_DEFAULT" (record (tmcc2_def (bit_or tmcc2_engine_labor_command 12)) {
      alias = some "ENGINE_LABOR";
      alias_data = some default_engine_labor;
      filtered = true;
    })
    ∷ command "ENGINEER_CHATTER" (record (tmcc2_def (bit_or tmcc2_numeric_command 2)) {
      alias = some "NUMERIC";
      alias_data = some 2;
    })
    ∷ command "FORWARD_DIRECTION" (record (tmcc2_def tmcc2_forward_direction_command) {
      variant = tmcc2 engine true;
      filtered = true;
    })
    ∷ command "FRONT_COUPLER" (tmcc2_def tmcc2_open_front_coupler_command)
    ∷ command "LET_OFF" (tmcc2_def tmcc2_eng_let_off_sound_command)
    ∷ command "LET_OFF_LONG" (tmcc2_def tmcc2_eng_let_off_long_sound_command)
    ∷ command "MOMENTUM" (record (tmcc2_def tmcc2_set_momentum_command) { d_max = 7 })
    ∷ command "MOMENTUM_HIGH" (tmcc2_def tmcc2_set_momentum_high_command)
    ∷ command "MOMENTUM_LOW" (tmcc2_def tmcc2_set_momentum_low_command)
    ∷ command "MOMENTUM_MEDIUM" (tmcc2_def tmcc2_set_momentum_medium_command)
    ∷ command "MOTION_START" (tmcc2_def tmcc2_motion_start_command)
    ∷ command "MOTION_STOP" (tmcc2_def tmcc2_motion_stop_command)
    ∷ command "NUMERIC"
        (record (tmcc2_def tmcc2_numeric_command) { d_max = 9; interval = some 100 })
    ∷ command "POP_OFF" (tmcc2_def tmcc2_eng_pop_off_sound_command)
    ∷ command "QUILLING_HORN"
        (record (tmcc2_def tmcc2_quilling_horn_command) { d_max = 15; interval = some 100 })
    ∷ command "REAR_COUPLER" (tmcc2_def tmcc2_open_rear_coupler_command)
    ∷ command "REFUELLING" (tmcc2_def tmcc2_eng_refuelling_sound_command)
    ∷ command "RELATIVE_SPEED"
        (record (tmcc2_def tmcc2_set_relative_speed_command) { d_map = relative_speed_map })
    ∷ command "REVERSE_DIRECTION" (record (tmcc2_def tmcc2_reverse_direction_command) {
      variant = tmcc2 engine true;
      filtered = true;
    })
    ∷ command "RING_BELL" (tmcc2_def tmcc2_ring_bell_command)
    ∷ command "RPM_DOWN" (record (tmcc2_def tmcc2_eng_rpm_down_command) {
      alias = some "NUMERIC";
      alias_data = some 6;
    })
    ∷ command "RPM_UP" (record (tmcc2_def tmcc2_eng_rpm_up_command) {
      alias = some "NUMERIC";
      alias_data = some 3;
    })
    ∷ command "SET_ADDRESS" (tmcc2_def tmcc2_set_address_command)
    ∷ command "SHUTDOWN_DELAYED" (record (tmcc2_def (bit_or tmcc2_numeric_command 5)) {
      alias = some "NUMERIC";
      alias_data = some 5;
    })
    ∷ command "RESET" (record (tmcc2_def (bit_or tmcc2_numeric_command 0)) {
      alias = some "NUMERIC";
      alias_data = some 0;
      interval = some 100;
    })
    ∷ command "SHUTDOWN_DELAYED_NOP" (tmcc2_def tmcc2_shutdown_seq_one_command)
    ∷ command "SHUTDOWN_IMMEDIATE" (tmcc2_def tmcc2_shutdown_seq_two_command)
    ∷ command "SOUND_OFF" (tmcc2_def tmcc2_sound_off_command)
    ∷ command "SOUND_ON" (tmcc2_def tmcc2_sound_on_command)
    ∷ command "SPEED_HIGHBALL"
        (record (tmcc2_def (bit_or tmcc2_set_absolute_speed_command tmcc2_highball_speed)) {
          alias = some "ABSOLUTE_SPEED";
          alias_data = some tmcc2_highball_speed;
        })
    ∷ command "SPEED_LIMITED"
        (record (tmcc2_def (bit_or tmcc2_set_absolute_speed_command tmcc2_limited_speed)) {
          alias = some "ABSOLUTE_SPEED";
          alias_data = some tmcc2_limited_speed;
        })
    ∷ command "SPEED_MEDIUM"
        (record (tmcc2_def (bit_or tmcc2_set_absolute_speed_command tmcc2_medium_speed)) {
          alias = some "ABSOLUTE_SPEED";
          alias_data = some tmcc2_medium_speed;
        })
    ∷ command "SPEED_NORMAL"
        (record (tmcc2_def (bit_or tmcc2_set_absolute_speed_command tmcc2_normal_speed)) {
          alias = some "ABSOLUTE_SPEED";
          alias_data = some tmcc2_normal_speed;
        })
    ∷ command "SPEED_RESTRICTED"
        (record (tmcc2_def (bit_or tmcc2_set_absolute_speed_command tmcc2_restricted_speed)) {
          alias = some "ABSOLUTE_SPEED";
          alias_data = some tmcc2_restricted_speed;
        })
    ∷ command "SPEED_ROLL"
        (record (tmcc2_def (bit_or tmcc2_set_absolute_speed_command tmcc2_roll_speed)) {
          alias = some "ABSOLUTE_SPEED";
          alias_data = some tmcc2_roll_speed;
        })
    ∷ command "SPEED_SLOW"
        (record (tmcc2_def (bit_or tmcc2_set_absolute_speed_command tmcc2_slow_speed)) {
          alias = some "ABSOLUTE_SPEED";
          alias_data = some tmcc2_slow_speed;
        })
    ∷ command "SPEED_STOP_HOLD" (record (tmcc2_def tmcc2_set_absolute_speed_command) {
      alias = some "ABSOLUTE_SPEED";
      alias_data = some 0;
    })
    ∷ command "EMERGENCY_STOP" (record (tmcc2_def tmcc2_set_absolute_speed_command) {
      alias = some "ABSOLUTE_SPEED";
      alias_data = some 0;
    })
    ∷ command "STALL" (tmcc2_def tmcc2_stall_command)
    ∷ command "START_UP_DELAYED" (tmcc2_def tmcc2_start_up_seq_one_command)
    ∷ command "START_UP_IMMEDIATE" (tmcc2_def tmcc2_start_up_seq_two_command)
    ∷ command "STOP_IMMEDIATE" (record (tmcc2_def tmcc2_stop_immediate_command) {
      variant = tmcc2 engine true;
      filtered = true;
    })
    ∷ command "SYSTEM_HALT" (tmcc2_def tmcc2_halt_command)
    ∷ command "TOGGLE_DIRECTION" (record (tmcc2_def tmcc2_toggle_direction_command) {
      variant = tmcc2 engine true;
      filtered = true;
    })
    ∷ command "TOWER_CHATTER" (record (tmcc2_def (bit_or tmcc2_numeric_command 7)) {
      alias = some "NUMERIC";
      alias_data = some 7;
    })
    ∷ command "TRAIN_BRAKE" (record (tmcc2_def tmcc2_set_train_brake_command) {
      variant = tmcc2 engine true;
      d_max = 7;
      filtered = true;
    })
    ∷ command "WATER_INJECTOR" (tmcc2_def tmcc2_water_injector_sound_command)
    ∷ command "VOLUME_UP" (record (tmcc2_def tmcc2_volume_up_command_hack) {
      alias = some "NUMERIC";
      alias_data = some 1;
    })
    ∷ command "VOLUME_DOWN" (record (tmcc2_def tmcc2_volume_down_command_hack) {
      alias = some "NUMERIC";
      alias_data = some 4;
    })
    ∷ command "SINGLE_FORWARD" (tmcc2_def tmcc2_assign_single_forward)
    ∷ command "SINGLE_REVERSE" (tmcc2_def tmcc2_assign_single_reverse)
    ∷ command "HEAD_FORWARD" (tmcc2_def tmcc2_assign_head_forward)
    ∷ command "HEAD_REVERSE" (tmcc2_def tmcc2_assign_head_reverse)
    ∷ command "MIDDLE_FORWARD" (tmcc2_def tmcc2_assign_middle_forward)
    ∷ command "MIDDLE_REVERSE" (tmcc2_def tmcc2_assign_middle_reverse)
    ∷ command "REAR_FORWARD" (tmcc2_def tmcc2_assign_rear_forward)
    ∷ command "REAR_REVERSE" (tmcc2_def tmcc2_assign_rear_reverse)
    ∷ command "CLEAR_CONSIST" (tmcc2_def tmcc2_assign_clear_consist)
    ∷ command "POWERMASTER_ON"
        (record (tmcc2_def tmcc2_boost_speed_command) { alias = some "BOOST_SPEED" })
    ∷ command "POWERMASTER_OFF" (record (tmcc2_def (bit_or tmcc2_numeric_command 0)) {
      alias = some "NUMERIC";
      alias_data = some 0;
    })
    ∷ command "NUMBER_1" (record (tmcc2_def (bit_or tmcc2_numeric_command 1)) {
      alias = some "NUMERIC";
      alias_data = some 1;
    })
    ∷ command "NUMBER_2" (record (tmcc2_def (bit_or tmcc2_numeric_command 2)) {
      alias = some "NUMERIC";
      alias_data = some 2;
    })
    ∷ command "NUMBER_3" (record (tmcc2_def (bit_or tmcc2_numeric_command 3)) {
      alias = some "NUMERIC";
      alias_data = some 3;
    })
    ∷ command "NUMBER_4" (record (tmcc2_def (bit_or tmcc2_numeric_command 4)) {
      alias = some "NUMERIC";
      alias_data = some 4;
    })
    ∷ command "NUMBER_5" (record (tmcc2_def (bit_or tmcc2_numeric_command 5)) {
      alias = some "NUMERIC";
      alias_data = some 5;
    })
    ∷ command "NUMBER_6" (record (tmcc2_def (bit_or tmcc2_numeric_command 6)) {
      alias = some "NUMERIC";
      alias_data = some 6;
    })
    ∷ command "NUMBER_7" (record (tmcc2_def (bit_or tmcc2_numeric_command 7)) {
      alias = some "NUMERIC";
      alias_data = some 7;
    })
    ∷ command "NUMBER_8" (record (tmcc2_def (bit_or tmcc2_numeric_command 8)) {
      alias = some "NUMERIC";
      alias_data = some 8;
    })
    ∷ command "NUMBER_9" (record (tmcc2_def (bit_or tmcc2_numeric_command 9)) {
      alias = some "NUMERIC";
      alias_data = some 9;
    })
    ∷ command "NUMBER_0" (record (tmcc2_def (bit_or tmcc2_numeric_command 0)) {
      alias = some "NUMERIC";
      alias_data = some 0;
      interval = some 100;
    })
    ∷ command "AUX_NUMBER_1" (record (tmcc2_def (bit_or tmcc2_numeric_command 1)) {
      alias = some "NUMERIC";
      alias_data = some 1;
      aux1 = true;
    })
    ∷ command "AUX_NUMBER_2" (record (tmcc2_def (bit_or tmcc2_numeric_command 2)) {
      alias = some "NUMERIC";
      alias_data = some 2;
      aux1 = true;
    })
    ∷ command "AUX_NUMBER_3" (record (tmcc2_def (bit_or tmcc2_numeric_command 3)) {
      alias = some "NUMERIC";
      alias_data = some 3;
      aux1 = true;
    })
    ∷ command "AUX_NUMBER_4" (record (tmcc2_def (bit_or tmcc2_numeric_command 4)) {
      alias = some "NUMERIC";
      alias_data = some 4;
      aux1 = true;
    })
    ∷ command "AUX_NUMBER_5" (record (tmcc2_def (bit_or tmcc2_numeric_command 5)) {
      alias = some "NUMERIC";
      alias_data = some 5;
      aux1 = true;
    })
    ∷ command "AUX_NUMBER_6" (record (tmcc2_def (bit_or tmcc2_numeric_command 6)) {
      alias = some "NUMERIC";
      alias_data = some 6;
      aux1 = true;
    })
    ∷ command "AUX_NUMBER_7" (record (tmcc2_def (bit_or tmcc2_numeric_command 7)) {
      alias = some "NUMERIC";
      alias_data = some 7;
      aux1 = true;
    })
    ∷ command "AUX_NUMBER_8" (record (tmcc2_def (bit_or tmcc2_numeric_command 8)) {
      alias = some "NUMERIC";
      alias_data = some 8;
      aux1 = true;
    })
    ∷ command "AUX_NUMBER_9" (record (tmcc2_def (bit_or tmcc2_numeric_command 9)) {
      alias = some "NUMERIC";
      alias_data = some 9;
      aux1 = true;
    })
    ∷ command "AUX_NUMBER_0" (record (tmcc2_def (bit_or tmcc2_numeric_command 0)) {
      alias = some "NUMERIC";
      alias_data = some 0;
      aux1 = true;
    })
    ∷ []
