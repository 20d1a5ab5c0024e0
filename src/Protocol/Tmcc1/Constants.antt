-- ===== src/Protocol/Tmcc1/Constants.antt =====
-- The constants of tmcc1/tmcc1_constants.py.
use py_legacy.Common.{ℕ}

abbrev pub tmcc1_command_prefix : ℕ
tmcc1_command_prefix = 0xFE

abbrev pub tmcc1_alt_command_prefix : ℕ
tmcc1_alt_command_prefix = 0xFD

abbrev pub tmcc1_register_command : ℕ
tmcc1_register_command = 0xF0F0

abbrev pub tmcc1_disconnect_command : ℕ
tmcc1_disconnect_command = 0xF0F1

abbrev pub tmcc1_sync_request_command : ℕ
tmcc1_sync_request_command = 0xF0F2

abbrev pub tmcc1_sync_begin_command : ℕ
tmcc1_sync_begin_command = 0xF0F3

abbrev pub tmcc1_syncing_command : ℕ
tmcc1_syncing_command = 0xF0F4

abbrev pub tmcc1_sync_complete_command : ℕ
tmcc1_sync_complete_command = 0xF0F5

abbrev pub tmcc1_sending_state_command : ℕ
tmcc1_sending_state_command = 0xF0F6

abbrev pub tmcc1_quit_command : ℕ
tmcc1_quit_command = 0xF0F7

abbrev pub tmcc1_reboot_command : ℕ
tmcc1_reboot_command = 0xF0F8

abbrev pub tmcc1_update_command : ℕ
tmcc1_update_command = 0xF0F9

abbrev pub tmcc1_upgrade_command : ℕ
tmcc1_upgrade_command = 0xF0FA

abbrev pub tmcc1_shutdown_command : ℕ
tmcc1_shutdown_command = 0xF0FB

abbrev pub tmcc1_restart_command : ℕ
tmcc1_restart_command = 0xF0FC

abbrev pub tmcc1_keep_alive_command : ℕ
tmcc1_keep_alive_command = 0xF0FD

abbrev pub tmcc1_resync_command : ℕ
tmcc1_resync_command = 0xF0FE

abbrev pub tmcc1_synced_command : ℕ
tmcc1_synced_command = 0xF0FF

abbrev pub tmcc1_halt_command : ℕ
tmcc1_halt_command = 0xFFFF

abbrev pub tmcc1_route_command : ℕ
tmcc1_route_command = 0xD01F

abbrev pub tmcc1_switch_thru_command : ℕ
tmcc1_switch_thru_command = 0x4000

abbrev pub tmcc1_switch_out_command : ℕ
tmcc1_switch_out_command = 0x401F

abbrev pub tmcc1_switch_set_address_command : ℕ
tmcc1_switch_set_address_command = 0x402B

abbrev pub tmcc1_acc_on_command : ℕ
tmcc1_acc_on_command = 0x802F

abbrev pub tmcc1_acc_off_command : ℕ
tmcc1_acc_off_command = 0x8020

abbrev pub tmcc1_acc_numeric_command : ℕ
tmcc1_acc_numeric_command = 0x8010

abbrev pub tmcc1_acc_set_address_command : ℕ
tmcc1_acc_set_address_command = 0x802B

abbrev pub tmcc1_acc_aux_1_off_command : ℕ
tmcc1_acc_aux_1_off_command = 0x8008

abbrev pub tmcc1_acc_aux_1_option_1_command : ℕ
tmcc1_acc_aux_1_option_1_command = 0x8009

abbrev pub tmcc1_acc_aux_1_option_2_command : ℕ
tmcc1_acc_aux_1_option_2_command = 0x800A

abbrev pub tmcc1_acc_aux_1_on_command : ℕ
tmcc1_acc_aux_1_on_command = 0x800B

abbrev pub tmcc1_acc_aux_2_off_command : ℕ
tmcc1_acc_aux_2_off_command = 0x800C

abbrev pub tmcc1_acc_aux_2_option_1_command : ℕ
tmcc1_acc_aux_2_option_1_command = 0x800D

abbrev pub tmcc1_acc_aux_2_option_2_command : ℕ
tmcc1_acc_aux_2_option_2_command = 0x800E

abbrev pub tmcc1_acc_aux_2_on_command : ℕ
tmcc1_acc_aux_2_on_command = 0x800F

abbrev pub tmcc1_acc_front_coupler_command : ℕ
tmcc1_acc_front_coupler_command = 0x8005

abbrev pub tmcc1_acc_rear_coupler_command : ℕ
tmcc1_acc_rear_coupler_command = 0x8006

abbrev pub tmcc1_acc_boost_command : ℕ
tmcc1_acc_boost_command = 0x8004

abbrev pub tmcc1_acc_brake_command : ℕ
tmcc1_acc_brake_command = 0x8007

abbrev pub tmcc1_acc_relative_speed_command : ℕ
tmcc1_acc_relative_speed_command = 0x8040

abbrev pub tmcc1_acc_forward_speed_command : ℕ
tmcc1_acc_forward_speed_command = 0x8000

abbrev pub tmcc1_acc_reverse_speed_command : ℕ
tmcc1_acc_reverse_speed_command = 0x807C

abbrev pub tmcc1_train_command_modifier : ℕ
tmcc1_train_command_modifier = 0xC800

abbrev pub tmcc1_train_command_purifier : ℕ
tmcc1_train_command_purifier = 0x07FF

abbrev pub tmcc1_eng_absolute_speed_command : ℕ
tmcc1_eng_absolute_speed_command = 0x0060

abbrev pub tmcc1_eng_target_speed_command : ℕ
tmcc1_eng_target_speed_command = 0x0060

abbrev pub tmcc1_eng_relative_speed_command : ℕ
tmcc1_eng_relative_speed_command = 0x0040

abbrev pub tmcc1_eng_forward_direction_command : ℕ
tmcc1_eng_forward_direction_command = 0x0000

abbrev pub tmcc1_eng_toggle_direction_command : ℕ
tmcc1_eng_toggle_direction_command = 0x0001

abbrev pub tmcc1_eng_reverse_direction_command : ℕ
tmcc1_eng_reverse_direction_command = 0x0003

abbrev pub tmcc1_eng_boost_speed_command : ℕ
tmcc1_eng_boost_speed_command = 0x0004

abbrev pub tmcc1_eng_brake_speed_command : ℕ
tmcc1_eng_brake_speed_command = 0x0007

abbrev pub tmcc1_eng_open_front_coupler_command : ℕ
tmcc1_eng_open_front_coupler_command = 0x0005

abbrev pub tmcc1_eng_open_rear_coupler_command : ℕ
tmcc1_eng_open_rear_coupler_command = 0x0006

abbrev pub tmcc1_eng_blow_horn_one_command : ℕ
tmcc1_eng_blow_horn_one_command = 0x001C

abbrev pub tmcc1_eng_ring_bell_command : ℕ
tmcc1_eng_ring_bell_command = 0x001D

abbrev pub tmcc1_eng_let_off_sound_command : ℕ
tmcc1_eng_let_off_sound_command = 0x001E

abbrev pub tmcc1_eng_blow_horn_two_command : ℕ
tmcc1_eng_blow_horn_two_command = 0x001F

abbrev pub tmcc1_eng_aux1_off_command : ℕ
tmcc1_eng_aux1_off_command = 0x0008

abbrev pub tmcc1_eng_aux1_option_one_command : ℕ
tmcc1_eng_aux1_option_one_command = 0x0009

abbrev pub tmcc1_eng_aux1_option_two_command : ℕ
tmcc1_eng_aux1_option_two_command = 0x000A

abbrev pub tmcc1_eng_aux1_on_command : ℕ
tmcc1_eng_aux1_on_command = 0x000B

abbrev pub tmcc1_eng_aux2_off_command : ℕ
tmcc1_eng_aux2_off_command = 0x000C

abbrev pub tmcc1_eng_aux2_option_one_command : ℕ
tmcc1_eng_aux2_option_one_command = 0x000D

abbrev pub tmcc1_eng_aux2_option_two_command : ℕ
tmcc1_eng_aux2_option_two_command = 0x000E

abbrev pub tmcc1_eng_aux2_on_command : ℕ
tmcc1_eng_aux2_on_command = 0x000F

abbrev pub tmcc1_eng_aux3_option_one_command : ℕ
tmcc1_eng_aux3_option_one_command = 0x003B

abbrev pub tmcc1_eng_set_momentum_low_command : ℕ
tmcc1_eng_set_momentum_low_command = 0x0028

abbrev pub tmcc1_eng_set_momentum_medium_command : ℕ
tmcc1_eng_set_momentum_medium_command = 0x0029

abbrev pub tmcc1_eng_set_momentum_high_command : ℕ
tmcc1_eng_set_momentum_high_command = 0x002A

abbrev pub tmcc1_eng_numeric_command : ℕ
tmcc1_eng_numeric_command = 0x0010

abbrev pub tmcc1_eng_volume_up_command : ℕ
tmcc1_eng_volume_up_command = 0x0011

abbrev pub tmcc1_eng_sound_one_command : ℕ
tmcc1_eng_sound_one_command = 0x0012

abbrev pub tmcc1_eng_rpm_up_command : ℕ
tmcc1_eng_rpm_up_command = 0x0013

abbrev pub tmcc1_eng_volume_down_command : ℕ
tmcc1_eng_volume_down_command = 0x0014

abbrev pub tmcc1_eng_shutdown_command : ℕ
tmcc1_eng_shutdown_command = 0x0015

abbrev pub tmcc1_eng_rpm_down_command : ℕ
tmcc1_eng_rpm_down_command = 0x0016

abbrev pub tmcc1_eng_sound_two_command : ℕ
tmcc1_eng_sound_two_command = 0x0017

abbrev pub tmcc1_eng_func_minus_command : ℕ
tmcc1_eng_func_minus_command = 0x0018

abbrev pub tmcc1_eng_func_plus_command : ℕ
tmcc1_eng_func_plus_command = 0x0019

abbrev pub tmcc1_eng_set_address_command : ℕ
tmcc1_eng_set_address_command = 0x002B

abbrev pub tmcc1_eng_assign_train_command : ℕ
tmcc1_eng_assign_train_command = 0x0030

abbrev pub tmcc1_eng_assign_single_forward_command : ℕ
tmcc1_eng_assign_single_forward_command = 0x0020

abbrev pub tmcc1_eng_assign_single_reverse_command : ℕ
tmcc1_eng_assign_single_reverse_command = 0x0024

abbrev pub tmcc1_eng_assign_head_forward_command : ℕ
tmcc1_eng_assign_head_forward_command = 0x0021

abbrev pub tmcc1_eng_assign_head_reverse_command : ℕ
tmcc1_eng_assign_head_reverse_command = 0x0025

abbrev pub tmcc1_eng_assign_middle_forward_command : ℕ
tmcc1_eng_assign_middle_forward_command = 0x0022

abbrev pub tmcc1_eng_assign_middle_reverse_command : ℕ
tmcc1_eng_assign_middle_reverse_command = 0x0026

abbrev pub tmcc1_eng_assign_rear_forward_command : ℕ
tmcc1_eng_assign_rear_forward_command = 0x0023

abbrev pub tmcc1_eng_assign_rear_reverse_command : ℕ
tmcc1_eng_assign_rear_reverse_command = 0x0027

abbrev pub tmcc1_eng_clear_consist_command : ℕ
tmcc1_eng_clear_consist_command = 0x002C

abbrev pub tmcc1_roll_speed : ℕ
tmcc1_roll_speed = 1

abbrev pub tmcc1_restricted_speed : ℕ
tmcc1_restricted_speed = 5

abbrev pub tmcc1_slow_speed : ℕ
tmcc1_slow_speed = 10

abbrev pub tmcc1_medium_speed : ℕ
tmcc1_medium_speed = 15

abbrev pub tmcc1_limited_speed : ℕ
tmcc1_limited_speed = 20

abbrev pub tmcc1_normal_speed : ℕ
tmcc1_normal_speed = 25

abbrev pub tmcc1_highball_speed : ℕ
tmcc1_highball_speed = 27
