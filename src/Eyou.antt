-- ===== src/Eyou.antt =====
-- The driver of the PP motors: src/EyouCan.cpp and include/can_driver/EyouCan.h, the state and
-- the registration of the motors. Its mutexes make each call below a step of its own.
-- Steady-clock times are counts of nanoseconds, and 0 is the time_point that the code
-- default-constructs. The dispatcher is seen as the list of requests handed to it, oldest first;
-- the completion of a read is the key of its entry. Of the refresh rate, a double, the model
-- keeps std::llround(1000 / hz) where hz is finite and positive. Log lines and the counters that
-- are published as ROS parameters are left out; the counts themselves are kept.
pub mod Sending
pub mod Commands
pub mod Response
pub mod Waits
pub mod Untouched
pub mod Ready
pub mod Preloads
pub mod Acknowledged
mod Examples
use old_car_can_driver.Prelude.{
  ℕ, String, Bool, true, false, Option, some, List, [], ◌∷◌, ◌==◌, if◌then◌else◌, is_empty, any,
  nat_eq,
}
use old_car_can_driver.Prelude.Int.{ℤ, pos}
use old_car_can_driver.Prelude.Map.{find, insert, or_new}
use old_car_can_driver.Can.{
  MotorMode, position, pp, to_protocol_node_id, motor_id_from_protocol_node_id,
}
use old_car_can_driver.SharedState.Data.{AxisKey, AxisIntent, AxisFeedbackState}
use old_car_can_driver.SharedState.{
  SharedDriverState, make_axis_key, mutate_axis_feedback, mutate_axis_command, register_axis,
  set_axis_intent,
}
use old_car_can_driver.DeviceRuntime.{Request}

pub record MotorState : Type 0 where
  pub position : ℤ
  pub commanded_position : ℤ
  pub commanded_velocity : ℤ
  pub actual_velocity : ℤ
  pub current : ℤ
  pub last_position_velocity_raw : ℤ
  pub enabled : Bool
  pub fault : Bool
  pub position_received : Bool
  pub position_offset_received : Bool
  pub serial_number_received : Bool
  pub velocity_received : Bool
  pub current_received : Bool
  pub mode_received : Bool
  pub enabled_received : Bool
  pub fault_received : Bool
  pub position_velocity_configured : Bool
  pub position_offset : ℤ
  pub serial_number : ℕ
  pub mode : MotorMode

pub record PendingReadRequest : Type 0 where
  pub last_sent : ℕ
  pub last_response : ℕ
  pub queued : Bool
  pub in_flight : Bool
  pub missed_refresh_windows : ℕ
  pub warned_stale_buckets : ℕ

pub record PendingWriteAck : Type 0 where
  pub received : Bool
  pub state : ℕ

pub record EyouCan : Type 0 where
  pub has_controller : Bool
  pub has_dispatcher : Bool
  pub shared_state : Option SharedDriverState
  pub device_name : String
  pub motor_states : List (ℕ × MotorState)
  pub refresh_motor_ids : List ℕ
  pub managed_motor_ids : List ℕ
  pub system_motor_ids_by_node_id : List (ℕ × ℕ)
  pub position_velocity_raw_by_motor_id : List (ℕ × ℤ)
  pub csp_velocity_raw_by_motor_id : List (ℕ × ℤ)
  pub refresh_interval_ms : Option ℕ
  pub fast_write_enabled : Bool
  pub default_position_velocity_raw : ℤ
  pub default_csp_velocity_raw : ℤ
  pub fast_write_sent_count : ℕ
  pub normal_write_sent_count : ℕ
  pub shutting_down : Bool
  pub pending_read_requests : List (ℕ × PendingReadRequest)
  pub pending_write_acks : List (ℕ × PendingWriteAck)
  pub submitted : List Request

-- What operator[] of the maps creates; 10922 is kDefaultPositionVelocityRaw.
abbrev pub new_motor : MotorState
new_motor = record {
  position = pos 0;
  commanded_position = pos 0;
  commanded_velocity = pos 0;
  actual_velocity = pos 0;
  current = pos 0;
  last_position_velocity_raw = pos 10922;
  enabled = false;
  fault = false;
  position_received = false;
  position_offset_received = false;
  serial_number_received = false;
  velocity_received = false;
  current_received = false;
  mode_received = false;
  enabled_received = false;
  fault_received = false;
  position_velocity_configured = false;
  position_offset = pos 0;
  serial_number = 0;
  mode = position;
}

abbrev pub new_read : PendingReadRequest
new_read = record {
  last_sent = 0;
  last_response = 0;
  queued = false;
  in_flight = false;
  missed_refresh_windows = 0;
  warned_stale_buckets = 0;
}

abbrev pub motor_at : ℕ → EyouCan → MotorState
motor_at node c = or_new (find node c.motor_states) new_motor

abbrev pub put_motor : ℕ → MotorState → EyouCan → EyouCan
put_motor node m c = record c { motor_states = insert node m c.motor_states }

abbrev on_shared :
    Bool
    → Option SharedDriverState
    → (SharedDriverState → SharedDriverState)
    → Option SharedDriverState
on_shared false (some s) fn = some (fn s)
on_shared _ s fn = s

-- What the `sync…` methods do where there is a shared state and the device has a name.
abbrev pub with_shared : (SharedDriverState → SharedDriverState) → EyouCan → EyouCan
with_shared fn c = record c { shared_state = on_shared (is_empty c.device_name) c.shared_state fn }

abbrev pub include_id : ℕ → List ℕ → List ℕ
include_id id ids = if any (λ j. j == id) ids then ids else id ∷ ids

unfoldable pub register_managed_motor_id : ℕ → EyouCan → EyouCan
register_managed_motor_id id c =
    let node = to_protocol_node_id id in
    with_shared (register_axis (make_axis_key c.device_name pp id)) (record c {
      managed_motor_ids = include_id node c.managed_motor_ids;
      system_motor_ids_by_node_id = insert node id c.system_motor_ids_by_node_id;
    })

unfoldable pub resolve_system_motor_id : ℕ → EyouCan → ℕ
resolve_system_motor_id node c =
    or_new (find node c.system_motor_ids_by_node_id) (motor_id_from_protocol_node_id node)

unfoldable pub axis_key : ℕ → EyouCan → AxisKey
unfolding resolve_system_motor_id
axis_key node c = make_axis_key c.device_name pp (resolve_system_motor_id node c)

-- No set of managed ids means every id.
unfoldable pub is_managed_motor_id : ℕ → EyouCan → Bool
is_managed_motor_id node c = elim c.managed_motor_ids [
  | [] ↦ true
  | (i ∷ is) ↦ any (λ j. j == node) (i ∷ is)
]

unfoldable pub feedback_of : MotorState → ℕ → AxisFeedbackState → AxisFeedbackState
feedback_of m now v = record v {
  position = m.position;
  velocity = m.actual_velocity;
  current = m.current;
  mode = m.mode;
  position_valid = m.position_received;
  velocity_valid = m.velocity_received;
  current_valid = m.current_received;
  mode_valid = m.mode_received;
  enabled = m.enabled;
  fault = m.fault;
  enabled_valid = m.enabled_received;
  fault_valid = m.fault_received;
  feedback_seen = true;
  last_rx_steady_ns = now;
  last_valid_state_steady_ns = now;
  consecutive_timeout_count = 0;
}

unfoldable pub sync_shared_feedback : ℕ → MotorState → ℕ → EyouCan → EyouCan
unfolding feedback_of
sync_shared_feedback node m now c =
    with_shared (mutate_axis_feedback (axis_key node c) (feedback_of m now)) c

unfoldable pub sync_shared_command : ℕ → ℤ → ℤ → MotorMode → Bool → ℕ → EyouCan → EyouCan
sync_shared_command node target_position target_velocity desired_mode valid now c =
    with_shared
      (mutate_axis_command (axis_key node c) λ v. record v {
        target_position = target_position;
        target_velocity = target_velocity;
        desired_mode = desired_mode;
        desired_mode_valid = true;
        valid = valid;
        last_command_steady_ns = if valid then now else 0;
      })
      c

unfoldable pub sync_shared_mode_selection : ℕ → MotorMode → EyouCan → EyouCan
sync_shared_mode_selection node desired_mode c =
    with_shared
      (mutate_axis_command (axis_key node c) λ v. record v {
        target_position = pos 0;
        target_velocity = pos 0;
        target_current = pos 0;
        desired_mode = desired_mode;
        desired_mode_valid = true;
        valid = false;
        last_command_steady_ns = 0;
      })
      c

unfoldable pub sync_shared_intent : ℕ → AxisIntent → EyouCan → EyouCan
sync_shared_intent node intent c = with_shared (set_axis_intent (axis_key node c) intent) c
