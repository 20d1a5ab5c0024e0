-- ===== src/Protocol/Tmcc2/Constants.antt =====
-- The constants of tmcc2/tmcc2_constants.py.
use py_legacy.Common.{ℕ}

abbrev pub legacy_extended_block_command_prefix : ℕ
legacy_extended_block_command_prefix = 0xFA

abbrev pub legacy_multibyte_command_prefix : ℕ
legacy_multibyte_command_prefix = 0xFB

abbrev pub legacy_engine_command_prefix : ℕ
legacy_engine_command_prefix = 0xF8

abbrev pub legacy_train_command_prefix : ℕ
legacy_train_command_prefix = 0xF9

abbrev pub tmcc2_halt_command : ℕ
tmcc2_halt_command = 0x01AB

abbrev pub legacy_route_command : ℕ
legacy_route_command = 0x00FD

abbrev pub tmcc2_aux1_off_command : ℕ
tmcc2_aux1_off_command = 0x0108

abbrev pub tmcc2_aux1_on_command : ℕ
tmcc2_aux1_on_command = 0x010B

abbrev pub tmcc2_aux1_option_one_command : ℕ
tmcc2_aux1_option_one_command = 0x0109

abbrev pub tmcc2_aux1_option_two_command : ℕ
tmcc2_aux1_option_two_command = 0x010A

abbrev pub tmcc2_aux2_off_command : ℕ
tmcc2_aux2_off_command = 0x010C

abbrev pub tmcc2_aux2_on_command : ℕ
tmcc2_aux2_on_command = 0x010F

abbrev pub tmcc2_aux2_option_one_command : ℕ
tmcc2_aux2_option_one_command = 0x010D

abbrev pub tmcc2_aux2_option_two_command : ℕ
tmcc2_aux2_option_two_command = 0x010E

abbrev pub tmcc2_aux3_option_one_command : ℕ
tmcc2_aux3_option_one_command = 0x013B

abbrev pub tmcc2_bell_off_command : ℕ
tmcc2_bell_off_command = 0x01F4

abbrev pub tmcc2_bell_one_shot_ding_command : ℕ
tmcc2_bell_one_shot_ding_command = 0x01F0

abbrev pub tmcc2_bell_on_command : ℕ
tmcc2_bell_on_command = 0x01F5

abbrev pub tmcc2_bell_slider_position_command : ℕ
tmcc2_bell_slider_position_command = 0x01B0

abbrev pub tmcc2_blow_horn_one_command : ℕ
tmcc2_blow_horn_one_command = 0x011C

abbrev pub tmcc2_blow_horn_two_command : ℕ
tmcc2_blow_horn_two_command = 0x011F

abbrev pub tmcc2_boost_speed_command : ℕ
tmcc2_boost_speed_command = 0x0104

abbrev pub tmcc2_brake_speed_command : ℕ
tmcc2_brake_speed_command = 0x0107

abbrev pub tmcc2_diesel_rpm_sound_command : ℕ
tmcc2_diesel_rpm_sound_command = 0x01A0

abbrev pub tmcc2_engine_labor_command : ℕ
tmcc2_engine_labor_command = 0x01C0

abbrev pub tmcc2_eng_auger_sound_command : ℕ
tmcc2_eng_auger_sound_command = 0x01F7

abbrev pub tmcc2_eng_brake_air_release_sound_command : ℕ
tmcc2_eng_brake_air_release_sound_command = 0x01F8

abbrev pub tmcc2_eng_brake_squeal_sound_command : ℕ
tmcc2_eng_brake_squeal_sound_command = 0x01F6

abbrev pub tmcc2_eng_cylinder_hiss_sound_command : ℕ
tmcc2_eng_cylinder_hiss_sound_command = 0x0152

abbrev pub tmcc2_eng_let_off_long_sound_command : ℕ
tmcc2_eng_let_off_long_sound_command = 0x01FA

abbrev pub tmcc2_eng_let_off_sound_command : ℕ
tmcc2_eng_let_off_sound_command = 0x01F9

abbrev pub tmcc2_eng_pop_off_sound_command : ℕ
tmcc2_eng_pop_off_sound_command = 0x0153

abbrev pub tmcc2_eng_refuelling_sound_command : ℕ
tmcc2_eng_refuelling_sound_command = 0x012D

abbrev pub tmcc2_forward_direction_command : ℕ
tmcc2_forward_direction_command = 0x0100

abbrev pub tmcc2_highball_speed : ℕ
tmcc2_highball_speed = 199

abbrev pub tmcc2_limited_speed : ℕ
tmcc2_limited_speed = 118

abbrev pub tmcc2_medium_speed : ℕ
tmcc2_medium_speed = 92

abbrev pub tmcc2_motion_start_command : ℕ
tmcc2_motion_start_command = 0x00FA

abbrev pub tmcc2_motion_stop_command : ℕ
tmcc2_motion_stop_command = 0x00FE

abbrev pub tmcc2_normal_speed : ℕ
tmcc2_normal_speed = 145

abbrev pub tmcc2_numeric_command : ℕ
tmcc2_numeric_command = 0x0110

abbrev pub tmcc2_eng_rpm_down_command : ℕ
tmcc2_eng_rpm_down_command = 0x0116

abbrev pub tmcc2_eng_rpm_up_command : ℕ
tmcc2_eng_rpm_up_command = 0x0113

abbrev pub tmcc2_open_front_coupler_command : ℕ
tmcc2_open_front_coupler_command = 0x0105

abbrev pub tmcc2_open_rear_coupler_command : ℕ
tmcc2_open_rear_coupler_command = 0x0106

abbrev pub tmcc2_quilling_horn_command : ℕ
tmcc2_quilling_horn_command = 0x01E0

abbrev pub tmcc2_restricted_speed : ℕ
tmcc2_restricted_speed = 24

abbrev pub tmcc2_reverse_direction_command : ℕ
tmcc2_reverse_direction_command = 0x0103

abbrev pub tmcc2_ring_bell_command : ℕ
tmcc2_ring_bell_command = 0x011D

abbrev pub tmcc2_roll_speed : ℕ
tmcc2_roll_speed = 1

abbrev pub tmcc2_set_absolute_speed_command : ℕ
tmcc2_set_absolute_speed_command = 0x0000

abbrev pub tmcc2_set_address_command : ℕ
tmcc2_set_address_command = 0x012B

abbrev pub tmcc2_set_boost_level_command : ℕ
tmcc2_set_boost_level_command = 0x00E8

abbrev pub tmcc2_set_brake_level_command : ℕ
tmcc2_set_brake_level_command = 0x00E0

abbrev pub tmcc2_set_momentum_command : ℕ
tmcc2_set_momentum_command = 0x00C8

abbrev pub tmcc2_set_momentum_low_command : ℕ
tmcc2_set_momentum_low_command = 0x0128

abbrev pub tmcc2_set_momentum_medium_command : ℕ
tmcc2_set_momentum_medium_command = 0x0129

abbrev pub tmcc2_set_momentum_high_command : ℕ
tmcc2_set_momentum_high_command = 0x012A

abbrev pub tmcc2_set_relative_speed_command : ℕ
tmcc2_set_relative_speed_command = 0x0140

abbrev pub tmcc2_set_train_brake_command : ℕ
tmcc2_set_train_brake_command = 0x00F0

abbrev pub tmcc2_shutdown_seq_one_command : ℕ
tmcc2_shutdown_seq_one_command = 0x01FD

abbrev pub tmcc2_shutdown_seq_two_command : ℕ
tmcc2_shutdown_seq_two_command = 0x01FE

abbrev pub tmcc2_slow_speed : ℕ
tmcc2_slow_speed = 59

abbrev pub tmcc2_sound_off_command : ℕ
tmcc2_sound_off_command = 0x0150

abbrev pub tmcc2_sound_on_command : ℕ
tmcc2_sound_on_command = 0x0151

abbrev pub tmcc2_stall_command : ℕ
tmcc2_stall_command = 0x00F8

abbrev pub tmcc2_start_up_seq_one_command : ℕ
tmcc2_start_up_seq_one_command = 0x01FB

abbrev pub tmcc2_start_up_seq_two_command : ℕ
tmcc2_start_up_seq_two_command = 0x01FC

abbrev pub tmcc2_stop_immediate_command : ℕ
tmcc2_stop_immediate_command = 0x00FB

abbrev pub tmcc2_toggle_direction_command : ℕ
tmcc2_toggle_direction_command = 0x0101

abbrev pub tmcc2_volume_down_command_hack : ℕ
tmcc2_volume_down_command_hack = 0x0114

abbrev pub tmcc2_volume_up_command_hack : ℕ
tmcc2_volume_up_command_hack = 0x0111

abbrev pub tmcc2_water_injector_sound_command : ℕ
tmcc2_water_injector_sound_command = 0x01A8

abbrev pub tmcc2_assign_single_forward : ℕ
tmcc2_assign_single_forward = 0x0120

abbrev pub tmcc2_assign_single_reverse : ℕ
tmcc2_assign_single_reverse = 0x0121

abbrev pub tmcc2_assign_head_forward : ℕ
tmcc2_assign_head_forward = 0x0122

abbrev pub tmcc2_assign_head_reverse : ℕ
tmcc2_assign_head_reverse = 0x0123

abbrev pub tmcc2_assign_middle_forward : ℕ
tmcc2_assign_middle_forward = 0x0124

abbrev pub tmcc2_assign_middle_reverse : ℕ
tmcc2_assign_middle_reverse = 0x0125

abbrev pub tmcc2_assign_rear_forward : ℕ
tmcc2_assign_rear_forward = 0x0126

abbrev pub tmcc2_assign_rear_reverse : ℕ
tmcc2_assign_rear_reverse = 0x0127

abbrev pub tmcc2_assign_clear_consist : ℕ
tmcc2_assign_clear_consist = 0x012C

abbrev pub tmcc2_assign_to_train : ℕ
tmcc2_assign_to_train = 0x0130
