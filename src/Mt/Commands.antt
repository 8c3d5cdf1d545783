-- ===== src/Mt/Commands.antt =====
-- The commands of the MT driver, src/MtCan.cpp: the methods of CanProtocol that send or read, and
-- the registration of the motors. `now` is the clock at the call.
use old_car_can_driver.Prelude.{
  ℕ, ◌%◌, Bool, true, false, not, Option, List, [], ◌∷◌, ◌++◌, ltb, if◌then◌else◌, nat_eq, null,
}
use old_car_can_driver.Prelude.Int.{ℤ, pos, negsuc, to_u32, to_i16}
use old_car_can_driver.Prelude.Map.{insert}
use old_car_can_driver.Can.{
  MotorMode, position, velocity, mt, control, recover, config, to_mt_protocol_node_id,
}
use old_car_can_driver.MtRmd.{
  command_byte, read_motor_status_1_and_error_flag, send_can_id, make_speed_closed_loop_frame,
  make_absolute_position_frame, make_acceleration_frame, make_communication_timeout_frame,
  make_zero_position_frame, make_reset_frame, make_shutdown_frame, make_stop_frame,
  position_max_speed_dps_from_speed_command,
}
use old_car_can_driver.SharedState.Data.{enable, disable, hold, recover as recovers}
use old_car_can_driver.SharedState.{make_axis_key, register_axis}
use old_car_can_driver.Mt.{
  MotorState, MtCan, motor_at, put_motor, remember_system_motor_id, with_shared,
  sync_shared_feedback, sync_shared_command, sync_shared_mode_selection, sync_shared_intent,
  submit_tx,
}
use old_car_can_driver.Mt.Reads.{mark_read_response_received, reset_read_tracking, request_error}

unfoldable pub set_mode : ℕ → MotorMode → MtCan → Bool × MtCan
unfolding remember_system_motor_id sync_shared_mode_selection
set_mode id mode c =
    let node = to_mt_protocol_node_id id in
    let c1 = remember_system_motor_id id c in
    (
      true,
      sync_shared_mode_selection node mode
          (put_motor node (record (motor_at node c1) { mode = mode }) c1),
    )

abbrev accepted : Bool × MtCan → Bool × MtCan
accepted (sent, c) = (true, c)

unfoldable pub set_velocity : ℕ → ℤ → ℕ → MtCan → Bool × MtCan
unfolding remember_system_motor_id sync_shared_command submit_tx
set_velocity id v now c =
    if not c.has_controller
    then (false, c)
    else (let node = to_mt_protocol_node_id id in
        let c1 = remember_system_motor_id id c in
        let c2 = put_motor node (record (motor_at node c1) { commanded_velocity = v }) c1 in
        let c3 = sync_shared_command node (pos 0) v velocity true now c2 in
        accepted (submit_tx (make_speed_closed_loop_frame (send_can_id node) v) control c3))

unfoldable pub set_position : ℕ → ℤ → ℕ → MtCan → Bool × MtCan
unfolding remember_system_motor_id sync_shared_command submit_tx
set_position id p now c =
    if not c.has_controller
    then (false, c)
    else (let node = to_mt_protocol_node_id id in
        let c1 = remember_system_motor_id id c in
        let speed = (motor_at node c1).commanded_velocity in
        let c2 = put_motor node (record (motor_at node c1) { position = p }) c1 in
        let c3 = sync_shared_command node p speed position true now c2 in
        submit_tx
          (make_absolute_position_frame (send_can_id node) p
            (position_max_speed_dps_from_speed_command speed 100))
          control c3)

unfoldable pub quick_set_position : ℕ → ℤ → MtCan → Bool × MtCan
quick_set_position id p c = (false, c)

unfoldable pub write_acceleration : ℕ → ℕ → ℕ → MtCan → Bool × MtCan
unfolding submit_tx
write_acceleration node index value c =
    if not c.has_controller
    then (false, c)
    else submit_tx (make_acceleration_frame (send_can_id node) index value) config c

-- Of the setters of an acceleration, with the index that each passes on.
abbrev write_for : ℕ → ℕ → ℕ → MtCan → Bool × MtCan
write_for index id value c =
    write_acceleration (to_mt_protocol_node_id id) index value (remember_system_motor_id id c)

unfoldable pub set_speed_acceleration : ℕ → ℕ → MtCan → Bool × MtCan
unfolding remember_system_motor_id write_acceleration
set_speed_acceleration = write_for 2

unfoldable pub set_speed_deceleration : ℕ → ℕ → MtCan → Bool × MtCan
unfolding remember_system_motor_id write_acceleration
set_speed_deceleration = write_for 3

unfoldable pub set_position_acceleration : ℕ → ℕ → MtCan → Bool × MtCan
unfolding remember_system_motor_id write_acceleration
set_position_acceleration = write_for 0

unfoldable pub set_position_deceleration : ℕ → ℕ → MtCan → Bool × MtCan
unfolding remember_system_motor_id write_acceleration
set_position_deceleration = write_for 1

-- 100 stands in for what is not positive.
abbrev positive_or_100 : ℤ → ℕ
positive_or_100 (pos n) = if ltb 0 n then n else 100
positive_or_100 (negsuc n) = 100

unfoldable pub set_acceleration : ℕ → ℤ → MtCan → Bool × MtCan
unfolding set_speed_acceleration
set_acceleration id value c = set_speed_acceleration id (positive_or_100 value) c

unfoldable pub set_deceleration : ℕ → ℤ → MtCan → Bool × MtCan
unfolding set_speed_deceleration
set_deceleration id value c = set_speed_deceleration id (positive_or_100 value) c

-- Of setCommunicationTimeout, the loop over the motors, which ends at the first refusal.
unfoldable pub send_timeouts : ℕ → List ℕ → MtCan → Bool × MtCan
unfolding submit_tx
send_timeouts timeout_ms [] c = (true, c)
send_timeouts timeout_ms (node ∷ nodes) c =
    let (sent, c') =
      submit_tx (make_communication_timeout_frame (send_can_id node) timeout_ms) config c in
    let rest = send_timeouts timeout_ms nodes c' in if sent then rest else (false, c')

unfoldable pub set_communication_timeout : ℕ → MtCan → Bool × MtCan
unfolding send_timeouts
set_communication_timeout timeout_ms c =
    if not c.has_controller
    then (false, c)
    else if null c.refresh_motor_ids
    then (false, c)
    else send_timeouts timeout_ms c.refresh_motor_ids c

abbrev marked : Bool → MotorState → MotorState
marked on m = record m { enabled = on; enabled_received = true }

unfoldable pub enable_motor : ℕ → ℕ → MtCan → Bool × MtCan
unfolding remember_system_motor_id sync_shared_intent sync_shared_feedback
enable_motor id now c =
    if not c.has_controller
    then (false, c)
    else (let node = to_mt_protocol_node_id id in
        let c1 = remember_system_motor_id id c in
        let m = marked true (motor_at node c1) in
        let c2 = sync_shared_intent node enable (put_motor node m c1) in
        (true, sync_shared_feedback node m now c2))

unfoldable pub disable_motor : ℕ → ℕ → MtCan → Bool × MtCan
unfolding remember_system_motor_id sync_shared_intent sync_shared_feedback submit_tx
disable_motor id now c =
    if not c.has_controller
    then (false, c)
    else (let node = to_mt_protocol_node_id id in
        let c1 = remember_system_motor_id id c in
        let m = marked false (motor_at node c1) in
        let c2 = sync_shared_intent node disable (put_motor node m c1) in
        let c3 = sync_shared_feedback node m now c2 in
        accepted (submit_tx (make_shutdown_frame (send_can_id node)) control c3))

unfoldable pub stop : ℕ → MtCan → Bool × MtCan
unfolding remember_system_motor_id sync_shared_intent submit_tx
stop id c =
    if not c.has_controller
    then (false, c)
    else (let node = to_mt_protocol_node_id id in
        let c1 = sync_shared_intent node hold (remember_system_motor_id id c) in
        accepted (submit_tx (make_stop_frame (send_can_id node)) control c1))

unfoldable pub reset_system : ℕ → MtCan → MtCan
unfolding submit_tx
reset_system node c = (submit_tx (make_reset_frame (send_can_id node)) recover c).1

unfoldable pub set_zero_position : ℕ → MtCan → MtCan
unfolding submit_tx
set_zero_position node c = (submit_tx (make_zero_position_frame (send_can_id node)) config c).1

unfoldable pub reset_fault : ℕ → ℕ → MtCan → Bool × MtCan
unfolding remember_system_motor_id sync_shared_intent reset_system mark_read_response_received
    request_error
reset_fault id now c =
    if not c.has_controller
    then (false, c)
    else (let node = to_mt_protocol_node_id id in
        let c1 = sync_shared_intent node recovers (remember_system_motor_id id c) in
        let c2 = reset_system node c1 in
        let c3 =
          mark_read_response_received node (command_byte read_motor_status_1_and_error_flag) c2 in
        accepted (request_error node now c3))

unfoldable pub get_position : ℕ → MtCan → ℤ
get_position id c = (motor_at (to_mt_protocol_node_id id) c).multi_turn_angle

-- static_cast<int16_t> of the hundredths.
unfoldable pub get_current : ℕ → MtCan → ℤ
get_current id c = to_i16 (to_u32 (motor_at (to_mt_protocol_node_id id) c).current % 65536)

unfoldable pub get_velocity : ℕ → MtCan → ℤ
get_velocity id c = (motor_at (to_mt_protocol_node_id id) c).velocity

unfoldable pub is_enabled : ℕ → MtCan → Bool
is_enabled id c = (motor_at (to_mt_protocol_node_id id) c).enabled

unfoldable pub has_fault : ℕ → MtCan → Bool
has_fault id c = (motor_at (to_mt_protocol_node_id id) c).error

abbrev pub register_motor : ℕ → MtCan → MtCan
register_motor id c =
    let node = to_mt_protocol_node_id id in
    with_shared (register_axis (make_axis_key c.device_name mt id)) (record c {
      refresh_motor_ids = c.refresh_motor_ids ++ node ∷ [];
      system_motor_ids_by_node_id = insert node id c.system_motor_ids_by_node_id;
    })

unfoldable pub register_motors : List ℕ → MtCan → MtCan
register_motors [] c = c
register_motors (id ∷ ids) c = register_motors ids (register_motor id c)

unfoldable pub initialize_motor_refresh : List ℕ → MtCan → MtCan
unfolding register_motors reset_read_tracking set_communication_timeout
initialize_motor_refresh ids c =
    let c1 =
      register_motors ids (record c { refresh_motor_ids = []; system_motor_ids_by_node_id = [] }) in
    let c2 = reset_read_tracking c1 in
    if null ids
    then reset_read_tracking c2
    else (set_communication_timeout c2.communication_timeout_on_init_ms c2).1

-- The argument is std::llround(1000 / hz) of a rate that is finite and positive.
unfoldable pub set_refresh_rate_hz : Option ℕ → MtCan → MtCan
set_refresh_rate_hz interval_ms c = record c { refresh_interval_ms = interval_ms }

unfoldable pub set_communication_timeout_on_init : ℕ → MtCan → MtCan
set_communication_timeout_on_init timeout_ms c = record c {
  communication_timeout_on_init_ms = timeout_ms;
}
