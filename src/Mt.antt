-- ===== src/Mt.antt =====
-- The driver of the MT motors: src/MtCan.cpp and include/can_driver/MtCan.h. Its mutexes make each
-- call below a step of its own. Steady-clock times are counts of nanoseconds, and 0 is the
-- time_point that the code default-constructs. The dispatcher is seen as the list of requests
-- handed to it, oldest first; the completion of a read is the key of its entry. The current is kept
-- in hundredths of an ampere; of the refresh rate, a double, the model keeps std::llround(1000 / hz)
-- where hz is finite and positive. Log lines and the sleep of the registration are left out.
pub mod Reads
pub mod Commands
pub mod Response
pub mod Tracking
pub mod Histories
pub mod Retries
pub mod Answers
pub mod Wire
mod Examples
use old_car_can_driver.Prelude.{
  ℕ, ◌+◌, ◌*◌, ◌%◌, ◌^◌, min, max, String, Bool, true, false, Option, none, some, List, [], ◌∷◌,
  ◌++◌, leb, if◌then◌else◌, length, is_empty, nat_eq,
}
use old_car_can_driver.Prelude.Int.{ℤ, pos}
use old_car_can_driver.Prelude.Map.{find, insert, or_new}
use old_car_can_driver.Can.{
  Frame, Category, MotorMode, velocity, mt, to_mt_protocol_node_id,
  motor_id_from_mt_protocol_node_id,
}
use old_car_can_driver.SharedState.Data.{
  AxisKey, AxisIntent, AxisFeedbackState, default_feedback_degraded_timeout_threshold,
}
use old_car_can_driver.SharedState.{
  SharedDriverState, make_axis_key, mutate_axis_feedback, mutate_axis_command, set_axis_intent,
}
use old_car_can_driver.DeviceRuntime.{Request}

pub record MotorState : Type 0 where
  pub position : ℤ
  pub multi_turn_angle : ℤ
  pub velocity : ℤ
  pub current : ℤ
  pub commanded_velocity : ℤ
  pub temperature : ℤ
  pub voltage_raw_1 : ℕ
  pub voltage_raw_2 : ℕ
  pub encoder_position : ℕ
  pub enabled : Bool
  pub error : Bool
  pub position_received : Bool
  pub velocity_received : Bool
  pub current_received : Bool
  pub mode_received : Bool
  pub enabled_received : Bool
  pub fault_received : Bool
  pub mode : MotorMode

pub record PendingReadRequest : Type 0 where
  pub last_sent : ℕ
  pub next_eligible_send : ℕ
  pub queued : Bool
  pub in_flight : Bool
  pub consecutive_timeouts : ℕ

pub record MtCan : Type 0 where
  pub has_controller : Bool
  pub has_dispatcher : Bool
  pub shared_state : Option SharedDriverState
  pub device_name : String
  pub motor_states : List (ℕ × MotorState)
  pub refresh_motor_ids : List ℕ
  pub system_motor_ids_by_node_id : List (ℕ × ℕ)
  pub refresh_interval_ms : Option ℕ
  pub shutting_down : Bool
  pub pending_read_requests : List (ℕ × PendingReadRequest)
  pub communication_timeout_on_init_ms : ℕ
  pub submitted : List Request

-- What operator[] of the maps creates.
abbrev pub new_motor : MotorState
new_motor = record {
  position = pos 0;
  multi_turn_angle = pos 0;
  velocity = pos 0;
  current = pos 0;
  commanded_velocity = pos 0;
  temperature = pos 0;
  voltage_raw_1 = 0;
  voltage_raw_2 = 0;
  encoder_position = 0;
  enabled = false;
  error = false;
  position_received = false;
  velocity_received = false;
  current_received = false;
  mode_received = false;
  enabled_received = false;
  fault_received = false;
  mode = velocity;
}

abbrev pub new_read : PendingReadRequest
new_read = record {
  last_sent = 0;
  next_eligible_send = 0;
  queued = false;
  in_flight = false;
  consecutive_timeouts = 0;
}

abbrev pub motor_at : ℕ → MtCan → MotorState
motor_at node c = or_new (find node c.motor_states) new_motor

abbrev pub put_motor : ℕ → MotorState → MtCan → MtCan
put_motor node m c = record c { motor_states = insert node m c.motor_states }

unfoldable pub remember_system_motor_id : ℕ → MtCan → MtCan
remember_system_motor_id id c = record c {
  system_motor_ids_by_node_id = insert (to_mt_protocol_node_id id) id c.system_motor_ids_by_node_id;
}

unfoldable pub resolve_system_motor_id : ℕ → MtCan → ℕ
resolve_system_motor_id node c =
    or_new (find node c.system_motor_ids_by_node_id) (motor_id_from_mt_protocol_node_id node)

unfoldable pub axis_key : ℕ → MtCan → AxisKey
unfolding resolve_system_motor_id
axis_key node c = make_axis_key c.device_name mt (resolve_system_motor_id node c)

-- What the `sync…` methods do where there is a shared state and the device has a name.
abbrev on_shared :
    Bool
    → Option SharedDriverState
    → (SharedDriverState → SharedDriverState)
    → Option SharedDriverState
on_shared false (some s) fn = some (fn s)
on_shared _ s fn = s

abbrev pub with_shared : (SharedDriverState → SharedDriverState) → MtCan → MtCan
with_shared fn c = record c { shared_state = on_shared (is_empty c.device_name) c.shared_state fn }

unfoldable pub feedback_of : MotorState → ℕ → AxisFeedbackState → AxisFeedbackState
feedback_of m now v = record v {
  position = m.multi_turn_angle;
  velocity = m.velocity;
  current = m.current;
  mode = m.mode;
  position_valid = m.position_received;
  velocity_valid = m.velocity_received;
  current_valid = m.current_received;
  mode_valid = m.mode_received;
  enabled = m.enabled;
  fault = m.error;
  enabled_valid = m.enabled_received;
  fault_valid = m.fault_received;
  feedback_seen = true;
  last_rx_steady_ns = now;
  last_valid_state_steady_ns = now;
  consecutive_timeout_count = 0;
  degraded = false;
}

unfoldable pub sync_shared_feedback : ℕ → MotorState → ℕ → MtCan → MtCan
unfolding feedback_of
sync_shared_feedback node m now c =
    with_shared (mutate_axis_feedback (axis_key node c) (feedback_of m now)) c

unfoldable pub sync_shared_command : ℕ → ℤ → ℤ → MotorMode → Bool → ℕ → MtCan → MtCan
sync_shared_command node target_position target_velocity desired_mode valid now c =
    with_shared
      (mutate_axis_command (axis_key node c) λ v. record v {
        target_position = target_position;
        target_velocity = target_velocity;
        desired_mode = desired_mode;
        desired_mode_valid = true;
        valid = valid;
        last_command_steady_ns = if valid then now else 0;
      })
      c

unfoldable pub sync_shared_mode_selection : ℕ → MotorMode → MtCan → MtCan
sync_shared_mode_selection node desired_mode c =
    with_shared
      (mutate_axis_command (axis_key node c) λ v. record v {
        target_position = pos 0;
        target_velocity = pos 0;
        target_current = pos 0;
        desired_mode = desired_mode;
        desired_mode_valid = true;
        valid = false;
        last_command_steady_ns = 0;
      })
      c

unfoldable pub sync_shared_intent : ℕ → AxisIntent → MtCan → MtCan
sync_shared_intent node intent c = with_shared (set_axis_intent (axis_key node c) intent) c

unfoldable pub timeout_noted : ℕ → AxisFeedbackState → AxisFeedbackState
timeout_noted timeouts v = record v {
  consecutive_timeout_count = timeouts % 4294967296;
  degraded = leb default_feedback_degraded_timeout_threshold (timeouts % 4294967296);
}

unfoldable pub note_shared_timeout : ℕ → ℕ → MtCan → MtCan
unfolding timeout_noted
note_shared_timeout node timeouts c =
    with_shared (mutate_axis_feedback (axis_key node c) (timeout_noted timeouts)) c

abbrev pub hand_over : Request → MtCan → MtCan
hand_over r c = record c { submitted = c.submitted ++ r ∷ [] }

unfoldable pub submit_tx : Frame → Category → MtCan → Bool × MtCan
submit_tx frame category c =
    if c.has_dispatcher
    then (true, hand_over (record { frame = frame; category = category; completion = none }) c)
    else (false, c)

unfoldable pub compute_refresh_sleep : Option ℕ → ℕ → ℕ
compute_refresh_sleep (some interval_ms) motor_count = max 1 interval_ms
compute_refresh_sleep none motor_count = max 5 (motor_count * 3)

unfoldable pub compute_read_request_timeout : MtCan → ℕ
unfolding compute_refresh_sleep
compute_read_request_timeout c =
    let motor_count = max 1 (length c.refresh_motor_ids) in
    let timeout_cycles = min 8 (3 + motor_count) in
    max 250 (min (compute_refresh_sleep c.refresh_interval_ms motor_count * timeout_cycles) 1500)

unfoldable pub compute_timeout_backoff : ℕ → ℕ → ℕ
compute_timeout_backoff timeouts base = min 500 (max base (base * 2 ^ min timeouts 4))

unfoldable pub refresh_sleep_interval : MtCan → ℕ
unfolding compute_refresh_sleep
refresh_sleep_interval c =
    compute_refresh_sleep c.refresh_interval_ms (max 1 (length c.refresh_motor_ids))
