-- ===== src/Protocol/Tmcc1/Engine.antt =====
-- `TMCC1EngineCommandEnum` (tmcc1/tmcc1_constants.py), in the order of the source.
use py_legacy.Common.{List, true, some, bit_or, [], ◌∷◌}
use py_legacy.Protocol.Scope.{relative_speed_map}
use py_legacy.Protocol.Def.{Command, tmcc1, engine_ident}
use py_legacy.Protocol.Tmcc1.Rows.{command, tmcc1_def}
use py_legacy.Protocol.Tmcc1.Constants.{
  tmcc1_alt_command_prefix, tmcc1_eng_absolute_speed_command, tmcc1_eng_assign_head_forward_command,
  tmcc1_eng_assign_head_reverse_command, tmcc1_eng_assign_middle_forward_command,
  tmcc1_eng_assign_middle_reverse_command, tmcc1_eng_assign_rear_forward_command,
  tmcc1_eng_assign_rear_reverse_command, tmcc1_eng_assign_single_forward_command,
  tmcc1_eng_assign_single_reverse_command, tmcc1_eng_assign_train_command,
  tmcc1_eng_aux1_off_command, tmcc1_eng_aux1_on_command, tmcc1_eng_aux1_option_one_command,
  tmcc1_eng_aux1_option_two_command, tmcc1_eng_aux2_off_command, tmcc1_eng_aux2_on_command,
  tmcc1_eng_aux2_option_one_command, tmcc1_eng_aux2_option_two_command,
  tmcc1_eng_aux3_option_one_command, tmcc1_eng_blow_horn_one_command,
  tmcc1_eng_blow_horn_two_command, tmcc1_eng_boost_speed_command, tmcc1_eng_brake_speed_command,
  tmcc1_eng_clear_consist_command, tmcc1_eng_forward_direction_command,
  tmcc1_eng_func_minus_command, tmcc1_eng_func_plus_command, tmcc1_eng_let_off_sound_command,
  tmcc1_eng_numeric_command, tmcc1_eng_open_front_coupler_command,
  tmcc1_eng_open_rear_coupler_command, tmcc1_eng_relative_speed_command,
  tmcc1_eng_reverse_direction_command, tmcc1_eng_ring_bell_command, tmcc1_eng_rpm_down_command,
  tmcc1_eng_rpm_up_command, tmcc1_eng_set_address_command, tmcc1_eng_set_momentum_high_command,
  tmcc1_eng_set_momentum_low_command, tmcc1_eng_set_momentum_medium_command,
  tmcc1_eng_sound_one_command, tmcc1_eng_sound_two_command, tmcc1_eng_target_speed_command,
  tmcc1_eng_toggle_direction_command, tmcc1_eng_volume_down_command, tmcc1_eng_volume_up_command,
  tmcc1_highball_speed, tmcc1_limited_speed, tmcc1_medium_speed, tmcc1_normal_speed,
  tmcc1_restricted_speed, tmcc1_roll_speed, tmcc1_slow_speed,
}

unfoldable pub tmcc1_engine_commands : List Command
tmcc1_engine_commands =
    command "ABSOLUTE_SPEED"
      (record (tmcc1_def tmcc1_eng_absolute_speed_command) { d_max = 31; filtered = true })
    ∷ command "TARGET_SPEED" (record (tmcc1_def tmcc1_eng_target_speed_command) {
      variant = tmcc1 engine_ident tmcc1_alt_command_prefix;
      d_max = 31;
      noop = true;
    })
    ∷ command "ASSIGN_TRAIN" (record (tmcc1_def tmcc1_eng_assign_train_command) { d_max = 10 })
    ∷ command "AUX1_OFF" (tmcc1_def tmcc1_eng_aux1_off_command)
    ∷ command "AUX1_ON" (tmcc1_def tmcc1_eng_aux1_on_command)
    ∷ command "AUX1_OPTION_ONE" (tmcc1_def tmcc1_eng_aux1_option_one_command)
    ∷ command "AUX1_OPTION_TWO" (tmcc1_def tmcc1_eng_aux1_option_two_command)
    ∷ command "AUX2_OFF" (tmcc1_def tmcc1_eng_aux2_off_command)
    ∷ command "AUX2_ON" (tmcc1_def tmcc1_eng_aux2_on_command)
    ∷ command "AUX2_OPTION_ONE" (tmcc1_def tmcc1_eng_aux2_option_one_command)
    ∷ command "AUX2_OPTION_TWO" (tmcc1_def tmcc1_eng_aux2_option_two_command)
    ∷ command "AUX3_OPTION_ONE" (tmcc1_def tmcc1_eng_aux3_option_one_command)
    ∷ command "BLOW_HORN_ONE"
        (record (tmcc1_def tmcc1_eng_blow_horn_one_command) { interval = some 100 })
    ∷ command "BLOW_HORN_TWO"
        (record (tmcc1_def tmcc1_eng_blow_horn_two_command) { interval = some 100 })
    ∷ command "BOOST_SPEED"
        (record (tmcc1_def tmcc1_eng_boost_speed_command) { interval = some 200 })
    ∷ command "BRAKE_SPEED"
        (record (tmcc1_def tmcc1_eng_brake_speed_command) { interval = some 200 })
    ∷ command "CLEAR_CONSIST" (tmcc1_def tmcc1_eng_clear_consist_command)
    ∷ command "ENGINEER_CHATTER" (record (tmcc1_def (bit_or tmcc1_eng_numeric_command 2)) {
      alias = some "NUMERIC";
      alias_data = some 2;
    })
    ∷ command "FORWARD_DIRECTION" (tmcc1_def tmcc1_eng_forward_direction_command)
    ∷ command "FRONT_COUPLER" (tmcc1_def tmcc1_eng_open_front_coupler_command)
    ∷ command "FUNC_MINUS" (record (tmcc1_def (bit_or tmcc1_eng_func_minus_command 8)) {
      alias = some "NUMERIC";
      alias_data = some 8;
    })
    ∷ command "FUNC_PLUS" (record (tmcc1_def (bit_or tmcc1_eng_func_plus_command 9)) {
      alias = some "NUMERIC";
      alias_data = some 9;
    })
    ∷ command "HEAD_FORWARD" (tmcc1_def tmcc1_eng_assign_head_forward_command)
    ∷ command "HEAD_REVERSE" (tmcc1_def tmcc1_eng_assign_head_reverse_command)
    ∷ command "LET_OFF" (tmcc1_def tmcc1_eng_let_off_sound_command)
    ∷ command "MIDDLE_FORWARD" (tmcc1_def tmcc1_eng_assign_middle_forward_command)
    ∷ command "MIDDLE_REVERSE" (tmcc1_def tmcc1_eng_assign_middle_reverse_command)
    ∷ command "MOMENTUM_HIGH" (tmcc1_def tmcc1_eng_set_momentum_high_command)
    ∷ command "MOMENTUM_LOW" (tmcc1_def tmcc1_eng_set_momentum_low_command)
    ∷ command "MOMENTUM_MEDIUM" (tmcc1_def tmcc1_eng_set_momentum_medium_command)
    ∷ command "NUMERIC" (record (tmcc1_def tmcc1_eng_numeric_command) { d_max = 9 })
    ∷ command "REAR_COUPLER" (tmcc1_def tmcc1_eng_open_rear_coupler_command)
    ∷ command "REAR_FORWARD" (tmcc1_def tmcc1_eng_assign_rear_forward_command)
    ∷ command "REAR_REVERSE" (tmcc1_def tmcc1_eng_assign_rear_reverse_command)
    ∷ command "RELATIVE_SPEED"
        (record (tmcc1_def tmcc1_eng_relative_speed_command) { d_map = relative_speed_map })
    ∷ command "RESET" (record (tmcc1_def (bit_or tmcc1_eng_numeric_command 0)) {
      alias = some "NUMERIC";
      alias_data = some 0;
      interval = some 100;
    })
    ∷ command "RESET_ONLY" (record (tmcc1_def (bit_or tmcc1_eng_numeric_command 0)) {
      alias = some "NUMERIC";
      alias_data = some 0;
      ignore_impacts = true;
    })
    ∷ command "REVERSE_DIRECTION" (tmcc1_def tmcc1_eng_reverse_direction_command)
    ∷ command "RING_BELL" (tmcc1_def tmcc1_eng_ring_bell_command)
    ∷ command "RPM_DOWN" (record (tmcc1_def tmcc1_eng_rpm_down_command) {
      alias = some "NUMERIC";
      alias_data = some 6;
    })
    ∷ command "RPM_UP" (record (tmcc1_def tmcc1_eng_rpm_up_command) {
      alias = some "NUMERIC";
      alias_data = some 3;
    })
    ∷ command "SET_ADDRESS" (tmcc1_def tmcc1_eng_set_address_command)
    ∷ command "SHUTDOWN_IMMEDIATE" (record (tmcc1_def (bit_or tmcc1_eng_numeric_command 5)) {
      alias = some "NUMERIC";
      alias_data = some 5;
      aux1 = true;
    })
    ∷ command "SINGLE_FORWARD" (tmcc1_def tmcc1_eng_assign_single_forward_command)
    ∷ command "SINGLE_REVERSE" (tmcc1_def tmcc1_eng_assign_single_reverse_command)
    ∷ command "SMOKE_OFF" (record (tmcc1_def (bit_or tmcc1_eng_numeric_command 8)) {
      alias = some "NUMERIC";
      alias_data = some 8;
    })
    ∷ command "SMOKE_ON" (record (tmcc1_def (bit_or tmcc1_eng_numeric_command 9)) {
      alias = some "NUMERIC";
      alias_data = some 9;
    })
    ∷ command "SOUND_ONE" (record (tmcc1_def tmcc1_eng_sound_one_command) {
      alias = some "NUMERIC";
      alias_data = some 2;
    })
    ∷ command "START_UP_IMMEDIATE" (record (tmcc1_def (bit_or tmcc1_eng_numeric_command 3)) {
      alias = some "NUMERIC";
      alias_data = some 3;
      aux1 = true;
    })
    ∷ command "STOP_IMMEDIATE" (record (tmcc1_def tmcc1_eng_absolute_speed_command) {
      alias = some "ABSOLUTE_SPEED";
      alias_data = some 0;
      filtered = true;
    })
    ∷ command "TOGGLE_DIRECTION"
        (record (tmcc1_def tmcc1_eng_toggle_direction_command) { filtered = true })
    ∷ command "TOWER_CHATTER" (record (tmcc1_def tmcc1_eng_sound_two_command) {
      alias = some "NUMERIC";
      alias_data = some 7;
    })
    ∷ command "VOLUME_DOWN" (record (tmcc1_def tmcc1_eng_volume_down_command) {
      alias = some "NUMERIC";
      alias_data = some 4;
    })
    ∷ command "VOLUME_UP" (record (tmcc1_def tmcc1_eng_volume_up_command) {
      alias = some "NUMERIC";
      alias_data = some 1;
    })
    ∷ command "SPEED_HIGHBALL"
        (record (tmcc1_def (bit_or tmcc1_eng_absolute_speed_command tmcc1_highball_speed)) {
          alias = some "ABSOLUTE_SPEED";
          alias_data = some tmcc1_highball_speed;
          filtered = true;
        })
    ∷ command "SPEED_LIMITED"
        (record (tmcc1_def (bit_or tmcc1_eng_absolute_speed_command tmcc1_limited_speed)) {
          alias = some "ABSOLUTE_SPEED";
          alias_data = some tmcc1_limited_speed;
          filtered = true;
        })
    ∷ command "SPEED_MEDIUM"
        (record (tmcc1_def (bit_or tmcc1_eng_absolute_speed_command tmcc1_medium_speed)) {
          alias = some "ABSOLUTE_SPEED";
          alias_data = some tmcc1_medium_speed;
          filtered = true;
        })
    ∷ command "SPEED_NORMAL"
        (record (tmcc1_def (bit_or tmcc1_eng_absolute_speed_command tmcc1_normal_speed)) {
          alias = some "ABSOLUTE_SPEED";
          alias_data = some tmcc1_normal_speed;
          filtered = true;
        })
    ∷ command "SPEED_RESTRICTED"
        (record (tmcc1_def (bit_or tmcc1_eng_absolute_speed_command tmcc1_restricted_speed)) {
          alias = some "ABSOLUTE_SPEED";
          alias_data = some tmcc1_restricted_speed;
          filtered = true;
        })
    ∷ command "SPEED_ROLL"
        (record (tmcc1_def (bit_or tmcc1_eng_absolute_speed_command tmcc1_roll_speed)) {
          alias = some "ABSOLUTE_SPEED";
          alias_data = some tmcc1_roll_speed;
          filtered = true;
        })
    ∷ command "SPEED_SLOW"
        (record (tmcc1_def (bit_or tmcc1_eng_absolute_speed_command tmcc1_slow_speed)) {
          alias = some "ABSOLUTE_SPEED";
          alias_data = some tmcc1_slow_speed;
          filtered = true;
        })
    ∷ command "SPEED_STOP_HOLD" (record (tmcc1_def tmcc1_eng_absolute_speed_command) {
      alias = some "ABSOLUTE_SPEED";
      alias_data = some 0;
      filtered = true;
    })
    ∷ command "EMERGENCY_STOP" (record (tmcc1_def tmcc1_eng_absolute_speed_command) {
      alias = some "ABSOLUTE_SPEED";
      alias_data = some 0;
      filtered = true;
    })
    ∷ command "NUMBER_1" (record (tmcc1_def (bit_or tmcc1_eng_numeric_command 1)) {
      alias = some "NUMERIC";
      alias_data = some 1;
    })
    ∷ command "NUMBER_2" (record (tmcc1_def (bit_or tmcc1_eng_numeric_command 2)) {
      alias = some "NUMERIC";
      alias_data = some 2;
    })
    ∷ command "NUMBER_3" (record (tmcc1_def (bit_or tmcc1_eng_numeric_command 3)) {
      alias = some "NUMERIC";
      alias_data = some 3;
    })
    ∷ command "NUMBER_4" (record (tmcc1_def (bit_or tmcc1_eng_numeric_command 4)) {
      alias = some "NUMERIC";
      alias_data = some 4;
    })
    ∷ command "NUMBER_5" (record (tmcc1_def (bit_or tmcc1_eng_numeric_command 5)) {
      alias = some "NUMERIC";
      alias_data = some 5;
    })
    ∷ command "NUMBER_6" (record (tmcc1_def (bit_or tmcc1_eng_numeric_command 6)) {
      alias = some "NUMERIC";
      alias_data = some 6;
    })
    ∷ command "NUMBER_7" (record (tmcc1_def (bit_or tmcc1_eng_numeric_command 7)) {
      alias = some "NUMERIC";
      alias_data = some 7;
    })
    ∷ command "NUMBER_8" (record (tmcc1_def (bit_or tmcc1_eng_numeric_command 8)) {
      alias = some "NUMERIC";
      alias_data = some 8;
    })
    ∷ command "NUMBER_9" (record (tmcc1_def (bit_or tmcc1_eng_numeric_command 9)) {
      alias = some "NUMERIC";
      alias_data = some 9;
    })
    ∷ command "NUMBER_0" (record (tmcc1_def (bit_or tmcc1_eng_numeric_command 0)) {
      alias = some "NUMERIC";
      alias_data = some 0;
      interval = some 100;
    })
    ∷ command "AUX_NUMBER_1" (record (tmcc1_def (bit_or tmcc1_eng_numeric_command 1)) {
      alias = some "NUMERIC";
      alias_data = some 1;
      aux1 = true;
    })
    ∷ command "AUX_NUMBER_2" (record (tmcc1_def (bit_or tmcc1_eng_numeric_command 2)) {
      alias = some "NUMERIC";
      alias_data = some 2;
      aux1 = true;
    })
    ∷ command "AUX_NUMBER_3" (record (tmcc1_def (bit_or tmcc1_eng_numeric_command 3)) {
      alias = some "NUMERIC";
      alias_data = some 3;
      aux1 = true;
    })
    ∷ command "AUX_NUMBER_4" (record (tmcc1_def (bit_or tmcc1_eng_numeric_command 4)) {
      alias = some "NUMERIC";
      alias_data = some 4;
      aux1 = true;
    })
    ∷ command "AUX_NUMBER_5" (record (tmcc1_def (bit_or tmcc1_eng_numeric_command 5)) {
      alias = some "NUMERIC";
      alias_data = some 5;
      aux1 = true;
    })
    ∷ command "AUX_NUMBER_6" (record (tmcc1_def (bit_or tmcc1_eng_numeric_command 6)) {
      alias = some "NUMERIC";
      alias_data = some 6;
      aux1 = true;
    })
    ∷ command "AUX_NUMBER_7" (record (tmcc1_def (bit_or tmcc1_eng_numeric_command 7)) {
      alias = some "NUMERIC";
      alias_data = some 7;
      aux1 = true;
    })
    ∷ command "AUX_NUMBER_8" (record (tmcc1_def (bit_or tmcc1_eng_numeric_command 8)) {
      alias = some "NUMERIC";
      alias_data = some 8;
      aux1 = true;
    })
    ∷ command "AUX_NUMBER_9" (record (tmcc1_def (bit_or tmcc1_eng_numeric_command 9)) {
      alias = some "NUMERIC";
      alias_data = some 9;
      aux1 = true;
    })
    ∷ command "AUX_NUMBER_0" (record (tmcc1_def (bit_or tmcc1_eng_numeric_command 0)) {
      alias = some "NUMERIC";
      alias_data = some 0;
      aux1 = true;
    })
    ∷ []
