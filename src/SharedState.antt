-- ===== src/SharedState.antt =====
-- The operations on the shared state: class SharedDriverState of
-- include/can_driver/SharedDriverState.h.
pub mod Data
pub mod Keys
pub mod Axes
pub mod Degraded
mod Examples
use old_car_can_driver.Prelude.{
  ℕ, max, String, string_eq, Bool, true, false, Option, none, some, List, ltb, leb, if◌then◌else◌,
  Eq,
}
use old_car_can_driver.Prelude.Map.{find, insert, or_new}
use Data.{
  codes_Eq, AxisIntent, idle, AxisKey, AxisFeedbackState, AxisCommandState, DeviceHealthState,
  no_feedback, no_command, no_health, axis_map_key, default_feedback_degraded_timeout_threshold,
}
use old_car_can_driver.Can.{CanType, to_system_motor_id}
use mathlib.Core.Option

pub record SharedDriverState : Type 0 where
  pub axis_feedback : List (List ℕ × AxisFeedbackState)
  pub axis_commands : List (List ℕ × AxisCommandState)
  pub axis_intents : List (List ℕ × AxisIntent)
  pub device_health : List (String × DeviceHealthState)

unfoldable pub normalize_protocol_motor_id : ℕ → ℕ
unfolding to_system_motor_id
normalize_protocol_motor_id motor_id = to_system_motor_id motor_id

unfoldable pub make_axis_key : String → CanType → ℕ → AxisKey
unfolding normalize_protocol_motor_id
make_axis_key device protocol motor_id = record {
  device = device;
  protocol = protocol;
  motor_id = normalize_protocol_motor_id motor_id;
}

-- `map[k]` is changed by `f`, after its creation if need be.
abbrev pub update {ℓ} :
    {K : Type ℓ} {V : Type 0} ⦃e : Eq K⦄ → V → K → (V → V) → List (K × V) → List (K × V)
update d k f m = insert k (f (or_new (find k m) d)) m

-- `emplace` leaves an entry that is there.
abbrev emplace : List ℕ → AxisIntent → List (List ℕ × AxisIntent) → List (List ℕ × AxisIntent)
emplace k i m = elim (find k m) [ none ↦ insert k i m | some j ↦ m ]

touch_axis_locked : AxisKey → SharedDriverState → SharedDriverState
unfolding axis_map_key
touch_axis_locked key s =
    let map_key = axis_map_key key in
    record {
      axis_feedback = update no_feedback map_key (λ v. record v { key = key }) s.axis_feedback;
      axis_commands = update no_command map_key (λ v. record v { key = key }) s.axis_commands;
      axis_intents = emplace map_key idle s.axis_intents;
      device_health =
          update no_health key.device (λ v. record v { device = key.device }) s.device_health;
    }

unfoldable pub register_axis : AxisKey → SharedDriverState → SharedDriverState
unfolding touch_axis_locked
register_axis key s = touch_axis_locked key s

unfoldable pub has_axis : AxisKey → SharedDriverState → Bool
has_axis key s = elim (find (axis_map_key key) s.axis_feedback) [ none ↦ false | some v ↦ true ]

unfoldable pub recompute_axis_observed_locked : AxisFeedbackState → AxisFeedbackState
recompute_axis_observed_locked v = record v {
  degraded = leb default_feedback_degraded_timeout_threshold v.consecutive_timeout_count;
}

abbrev feedback_at : AxisKey → SharedDriverState → AxisFeedbackState
feedback_at key s = or_new (find (axis_map_key key) s.axis_feedback) no_feedback

-- The axis's receive time, if it has one, moves the device's forward.
note_rx : String → ℕ → DeviceHealthState → DeviceHealthState
note_rx device rx h = record h {
  device = device;
  last_rx_steady_ns = if ltb 0 rx then max h.last_rx_steady_ns rx else h.last_rx_steady_ns;
}

unfoldable pub mutate_axis_feedback :
    AxisKey → (AxisFeedbackState → AxisFeedbackState) → SharedDriverState → SharedDriverState
unfolding touch_axis_locked note_rx
mutate_axis_feedback key fn s =
    let t = touch_axis_locked key s in
    let v = recompute_axis_observed_locked (fn (feedback_at key t)) in
    record t {
      axis_feedback = insert (axis_map_key key) v t.axis_feedback;
      device_health =
          update no_health key.device (note_rx key.device v.last_rx_steady_ns) t.device_health;
    }

unfoldable pub get_axis_feedback : AxisKey → SharedDriverState → Option AxisFeedbackState
get_axis_feedback key s = find (axis_map_key key) s.axis_feedback

unfoldable pub mutate_axis_command :
    AxisKey → (AxisCommandState → AxisCommandState) → SharedDriverState → SharedDriverState
unfolding touch_axis_locked
mutate_axis_command key fn s =
    let t = touch_axis_locked key s in
    record t { axis_commands = update no_command (axis_map_key key) fn t.axis_commands }

unfoldable pub get_axis_command : AxisKey → SharedDriverState → Option AxisCommandState
get_axis_command key s = find (axis_map_key key) s.axis_commands

unfoldable pub set_axis_intent : AxisKey → AxisIntent → SharedDriverState → SharedDriverState
unfolding touch_axis_locked
set_axis_intent key intent s =
    let t = touch_axis_locked key s in
    record t { axis_intents = insert (axis_map_key key) intent t.axis_intents }

unfoldable pub get_axis_intent : AxisKey → SharedDriverState → AxisIntent
get_axis_intent key s = or_new (find (axis_map_key key) s.axis_intents) idle

unfoldable pub mutate_device_health :
    String → (DeviceHealthState → DeviceHealthState) → SharedDriverState → SharedDriverState
mutate_device_health device fn s = record s {
  device_health = update no_health device (λ h. fn (record h { device = device })) s.device_health;
}

unfoldable pub get_device_health : String → SharedDriverState → Option DeviceHealthState
get_device_health device s = find device s.device_health
