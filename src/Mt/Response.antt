-- ===== src/Mt/Response.antt =====
-- The frames that the MT motors send back: handleResponse of src/MtCan.cpp. A frame is taken as a
-- receive handler gets it.
use old_car_can_driver.Prelude.{
  ℕ, ◌%◌, Bool, true, false, not, ◌||◌, ltb, ◌==◌, if◌then◌else◌, get_or,
}
use old_car_can_driver.Can.{Frame}
use old_car_can_driver.MtRmd.{
  command_byte, read_motor_status_2, read_motor_status_1_and_error_flag, read_multi_turn_angle,
  write_current_multi_turn_position_to_rom_as_zero, is_response_can_id, response_node_id,
  FeedbackStatus, FaultStatus, parse_feedback_status, parse_fault_status,
  parse_multi_turn_angle_centideg, is_feedback_command,
}
use old_car_can_driver.Mt.{MotorState, MtCan, motor_at, put_motor, sync_shared_feedback}
use old_car_can_driver.Mt.Reads.{mark_read_response_received}
use old_car_can_driver.Mt.Commands.{reset_system}

abbrev pub is_read : ℕ → Bool
is_read command =
    command == command_byte read_motor_status_2
    || command == command_byte read_motor_status_1_and_error_flag
    || command == command_byte read_multi_turn_angle

abbrev status_noted : FeedbackStatus → MotorState → MotorState
status_noted v m = record m {
  temperature = v.temperature;
  current = v.current_centiamp;
  velocity = v.shaft_speed_dps;
  encoder_position = v.shaft_angle_raw;
  current_received = true;
  velocity_received = true;
}

abbrev fault_noted : FaultStatus → MotorState → MotorState
fault_noted v m = record m {
  temperature = v.temperature;
  voltage_raw_1 = v.voltage_raw;
  voltage_raw_2 = v.brake_or_voltage_raw;
  error = not (v.error_code == 0);
  fault_received = true;
}

-- The switch over the command: 0x9C and the motion commands share their format; the confirmations
-- of settings are only logged.
unfoldable pub absorb : Frame → ℕ → MotorState → MotorState
absorb f command m =
    if ltb f.dlc 8
    then m
    else if is_feedback_command command
    then status_noted (parse_feedback_status f) m
    else if command == command_byte read_motor_status_1_and_error_flag
    then fault_noted (parse_fault_status f) m
    else if command == command_byte read_multi_turn_angle
    then record m { multi_turn_angle = parse_multi_turn_angle_centideg f; position_received = true }
    else m

abbrev pub is_ours : Frame → MtCan → Bool
is_ours f c =
    if c.shutting_down || f.is_extended
    then false
    else if not (is_response_can_id (f.id % 2048))
    then false
    else not (f.dlc == 0)

abbrev pub published : ℕ → Bool
published command =
    command == command_byte read_motor_status_1_and_error_flag
    || command == command_byte read_multi_turn_angle
    || is_feedback_command command

unfoldable pub note_answer : ℕ → ℕ → MtCan → MtCan
unfolding mark_read_response_received
note_answer node command c =
    if is_read command then mark_read_response_received node command c else c

unfoldable pub publish : ℕ → ℕ → MotorState → ℕ → MtCan → MtCan
unfolding sync_shared_feedback
publish node command m now c = if published command then sync_shared_feedback node m now c else c

unfoldable pub reset_after_zero : ℕ → ℕ → MtCan → MtCan
unfolding reset_system
reset_after_zero node command c =
    if command == command_byte write_current_multi_turn_position_to_rom_as_zero
    then reset_system node c
    else c

unfoldable pub take_response : Frame → ℕ → ℕ → ℕ → MtCan → MtCan
unfolding note_answer absorb publish reset_after_zero
take_response f command node now c =
    let c1 = note_answer node command c in
    let m = absorb f command (motor_at node c1) in
    reset_after_zero node command (publish node command m now (put_motor node m c1))

unfoldable pub handle_response : Frame → ℕ → MtCan → MtCan
unfolding take_response
handle_response f now c =
    if not (is_ours f c)
    then c
    else take_response f (get_or f.data_bytes 0 0) (response_node_id (f.id % 2048)) now c
