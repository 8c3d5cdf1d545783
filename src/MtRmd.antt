-- ===== src/MtRmd.antt =====
-- The frames of the MT (RMD) motors: include/can_driver/MtRmdProtocol.h. A signed argument is an
-- integer, an unsigned one a number below its width. `x & 0xFF` is `x % 256`, `x >> k` is a
-- quotient, and bytes joined by `|` do not overlap, so they are added. A payload index past the
-- array reads 0; the code's own guards keep it below `dlc`. The current is kept in the protocol's
-- hundredths of an ampere.
pub mod RoundTrip
pub mod Frames
mod Examples
use old_car_can_driver.Prelude.{
  ℕ, ◌+◌, ◌-◌, ◌*◌, ◌/◌, ◌%◌, min, max, Bool, false, ◌&&◌, ◌||◌, ltb, leb, ◌==◌, if◌then◌else◌,
  get_or, set,
}
use old_car_can_driver.Prelude.Int.{ℤ, pos, magnitude, to_u32, to_i32, to_i16, to_i8}
use old_car_can_driver.Can.{Frame, zero_bytes}

abbrev pub send_base_id : ℕ
send_base_id = 0x140

abbrev pub response_base_id : ℕ
response_base_id = 0x240

pub data Command : Type 0 where
  write_acceleration_to_ram_and_rom write_current_multi_turn_position_to_rom_as_zero : Command
  reset_system shutdown_motor stop_motor read_multi_turn_angle : Command
  read_motor_status_1_and_error_flag read_motor_status_2 : Command
  torque_closed_loop_control speed_closed_loop_control : Command
  absolute_position_closed_loop_control single_turn_position_control : Command
  incremental_position_closed_loop_control force_position_mixed_control : Command
  communication_interruption_protection_time_setting : Command

abbrev pub command_byte : Command → ℕ
command_byte write_acceleration_to_ram_and_rom = 0x43
command_byte write_current_multi_turn_position_to_rom_as_zero = 0x64
command_byte reset_system = 0x76
command_byte shutdown_motor = 0x80
command_byte stop_motor = 0x81
command_byte read_multi_turn_angle = 0x92
command_byte read_motor_status_1_and_error_flag = 0x9A
command_byte read_motor_status_2 = 0x9C
command_byte torque_closed_loop_control = 0xA1
command_byte speed_closed_loop_control = 0xA2
command_byte absolute_position_closed_loop_control = 0xA4
command_byte single_turn_position_control = 0xA6
command_byte incremental_position_closed_loop_control = 0xA8
command_byte force_position_mixed_control = 0xA9
command_byte communication_interruption_protection_time_setting = 0xB3

pub record FeedbackStatus : Type 0 where
  pub temperature : ℤ
  pub current_centiamp : ℤ
  pub shaft_speed_dps : ℤ
  pub shaft_angle_raw : ℕ

pub record FaultStatus : Type 0 where
  pub temperature : ℤ
  pub voltage_raw : ℕ
  pub brake_or_voltage_raw : ℕ
  pub error_code : ℕ

unfoldable pub send_can_id : ℕ → ℕ
send_can_id node_id = (send_base_id + node_id) % 65536

unfoldable pub is_response_can_id : ℕ → Bool
is_response_can_id can_id =
    leb response_base_id can_id && ltb can_id ((response_base_id + 0x100) % 65536)

unfoldable pub response_node_id : ℕ → ℕ
response_node_id can_id = (can_id + 65536 - response_base_id) % 256

-- With the command's byte: `MtCan` also casts a byte to `Command`.
unfoldable pub make_frame : ℕ → ℕ → Frame
make_frame can_id command = record {
  id = can_id;
  is_extended = false;
  is_remote_request = false;
  dlc = 8;
  data_bytes = set zero_bytes 0 command;
}

abbrev put : Frame → ℕ → ℕ → Frame
put f index b = record f { data_bytes = set f.data_bytes index b }

abbrev byte_at : Frame → ℕ → ℕ
byte_at f index = get_or f.data_bytes index 0

unfoldable pub write_uint16_le : Frame → ℕ → ℕ → Frame
write_uint16_le f index value = put (put f index (value % 256)) (index + 1) (value / 256 % 256)

unfoldable pub write_uint32_le : Frame → ℕ → ℕ → Frame
write_uint32_le f index value =
    put
      (put (put (put f index (value % 256)) (index + 1) (value / 256 % 256)) (index + 2)
        (value / 65536 % 256))
      (index + 3) (value / 16777216 % 256)

unfoldable pub write_int32_le : Frame → ℕ → ℤ → Frame
unfolding write_uint32_le
write_int32_le f index value = write_uint32_le f index (to_u32 value)

unfoldable pub read_uint16_le : Frame → ℕ → ℕ
read_uint16_le f index =
    if leb f.dlc (index + 1) then 0 else byte_at f index + byte_at f (index + 1) * 256

unfoldable pub read_int16_le : Frame → ℕ → ℤ
read_int16_le f index =
    if leb f.dlc (index + 1) then pos 0 else to_i16 (byte_at f index + byte_at f (index + 1) * 256)

abbrev word_at : Frame → ℕ → ℕ
word_at f index =
    byte_at f index
    + byte_at f (index + 1) * 256
    + byte_at f (index + 2) * 65536
    + byte_at f (index + 3) * 16777216

unfoldable pub read_int32_le : Frame → ℕ → ℤ
read_int32_le f index = if leb f.dlc (index + 3) then pos 0 else to_i32 (word_at f index)

unfoldable pub clamp_acceleration : ℕ → ℕ
clamp_acceleration value = max 100 (min 60000 value)

unfoldable pub make_speed_closed_loop_frame : ℕ → ℤ → Frame
unfolding make_frame write_int32_le
make_speed_closed_loop_frame can_id speed =
    write_int32_le (make_frame can_id (command_byte speed_closed_loop_control)) 4 speed

unfoldable pub make_absolute_position_frame : ℕ → ℤ → ℕ → Frame
unfolding make_frame write_int32_le write_uint16_le
make_absolute_position_frame can_id position max_speed_dps =
    write_int32_le
      (write_uint16_le (make_frame can_id (command_byte absolute_position_closed_loop_control)) 2
        max_speed_dps)
      4 position

unfoldable pub make_acceleration_frame : ℕ → ℕ → ℕ → Frame
unfolding make_frame write_uint32_le clamp_acceleration
make_acceleration_frame can_id type acceleration =
    write_uint32_le
      (put (make_frame can_id (command_byte write_acceleration_to_ram_and_rom)) 1 type) 4
      (clamp_acceleration acceleration)

unfoldable pub make_communication_timeout_frame : ℕ → ℕ → Frame
unfolding make_frame write_uint32_le
make_communication_timeout_frame can_id timeout_ms =
    write_uint32_le
      (make_frame can_id (command_byte communication_interruption_protection_time_setting)) 4
      (timeout_ms % 4294967296)

unfoldable pub make_read_frame : ℕ → Command → Frame
unfolding make_frame
make_read_frame can_id command = make_frame can_id (command_byte command)

unfoldable pub make_zero_position_frame : ℕ → Frame
unfolding make_frame
make_zero_position_frame can_id =
    make_frame can_id (command_byte write_current_multi_turn_position_to_rom_as_zero)

unfoldable pub make_reset_frame : ℕ → Frame
unfolding make_frame
make_reset_frame can_id = make_frame can_id (command_byte reset_system)

unfoldable pub make_shutdown_frame : ℕ → Frame
unfolding make_frame
make_shutdown_frame can_id = make_frame can_id (command_byte shutdown_motor)

unfoldable pub make_stop_frame : ℕ → Frame
unfolding make_frame
make_stop_frame can_id = make_frame can_id (command_byte stop_motor)

unfoldable pub parse_feedback_status : Frame → FeedbackStatus
unfolding read_int16_le read_uint16_le
parse_feedback_status f =
    if leb 8 f.dlc
    then record {
      temperature = to_i8 (byte_at f 1);
      current_centiamp = read_int16_le f 2;
      shaft_speed_dps = read_int16_le f 4;
      shaft_angle_raw = read_uint16_le f 6;
    }
    else record {
      temperature = pos 0;
      current_centiamp = pos 0;
      shaft_speed_dps = pos 0;
      shaft_angle_raw = 0;
    }

unfoldable pub parse_fault_status : Frame → FaultStatus
unfolding read_uint16_le
parse_fault_status f =
    if leb 8 f.dlc
    then record {
      temperature = to_i8 (byte_at f 1);
      voltage_raw = read_uint16_le f 2;
      brake_or_voltage_raw = read_uint16_le f 4;
      error_code = read_uint16_le f 6;
    }
    else record { temperature = pos 0; voltage_raw = 0; brake_or_voltage_raw = 0; error_code = 0 }

unfoldable pub parse_multi_turn_angle_centideg : Frame → ℤ
unfolding read_int32_le
parse_multi_turn_angle_centideg f = read_int32_le f 4

unfoldable pub parse_communication_timeout_ms : Frame → ℕ
parse_communication_timeout_ms f = if ltb f.dlc 8 then 0 else word_at f 4

unfoldable pub position_max_speed_dps_from_speed_command : ℤ → ℕ → ℕ
position_max_speed_dps_from_speed_command speed default_speed =
    let abs_speed = magnitude speed in
    if abs_speed == 0
    then default_speed
    else (let rounded = (abs_speed + 50) / 100 in min (if rounded == 0 then 1 else rounded) 65535)

unfoldable pub is_feedback_command : ℕ → Bool
is_feedback_command command =
    command == command_byte read_motor_status_2
    || command == command_byte torque_closed_loop_control
    || command == command_byte speed_closed_loop_control
    || command == command_byte absolute_position_closed_loop_control
    || command == command_byte single_turn_position_control
    || command == command_byte incremental_position_closed_loop_control
    || command == command_byte force_position_mixed_control
    || command == command_byte shutdown_motor
    || command == command_byte stop_motor
