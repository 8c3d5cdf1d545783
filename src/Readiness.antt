-- ===== src/Readiness.antt =====
-- Whether an axis may be enabled or moved: include/can_driver/AxisReadinessEvaluator.h, and its use
-- with the recover trackers in src/lifecycle_driver_ops.cpp (evaluateAxisReadiness). A pointer that
-- may be null is an `Option`; a timeout that is not positive is 0.
pub mod Gates
pub mod Recovery
mod Examples
use old_car_can_driver.Prelude.{
  string_eq, ℕ, ◌+◌, ◌-◌, ◌%◌, min, max, String, Bool, true, false, not, ◌&&◌, ◌||◌, Option, none,
  some, List, ltb, leb, ◌==◌, if◌then◌else◌,
}
use old_car_can_driver.SharedState.Data.{
  codes_Eq, AxisIntent, recover, intent_eq, AxisKey, AxisFeedbackState, AxisCommandState,
  DeviceHealthState, axis_map_key, default_feedback_degraded_timeout_threshold,
}
use old_car_can_driver.Prelude.Map.{find, insert, or_new}
use old_car_can_driver.Can.{MotorMode}
use old_car_can_driver.Can.{mode_eq as motor_mode_eq}
use old_car_can_driver.Prelude.Map.{erase}

pub record AxisReadiness : Type 0 where
  pub key : AxisKey
  pub intent : AxisIntent
  pub device_ready : Bool
  pub feedback_seen : Bool
  pub feedback_fresh : Bool
  pub degraded : Bool
  pub fault : Bool
  pub fault_known : Bool
  pub fault_cleared : Bool
  pub enabled : Bool
  pub enabled_known : Bool
  pub enabled_ready : Bool
  pub command_valid : Bool
  pub mode_expected : Bool
  pub mode_known : Bool
  pub mode_matched : Bool
  pub mode_ready : Bool
  pub feedback_ready : Bool
  pub axis_ready_for_enable : Bool
  pub axis_ready_for_run : Bool
  pub recover_confirmed : Bool

pub record Config : Type 0 where
  pub feedback_freshness_timeout_ns : ℕ
  pub degraded_timeout_threshold : ℕ
  pub recover_confirm_cycles : ℕ

abbrev pub default_config : Config
default_config = record {
  feedback_freshness_timeout_ns = 500000000;
  degraded_timeout_threshold = default_feedback_degraded_timeout_threshold;
  recover_confirm_cycles = 2;
}

abbrev transport_ready : Option DeviceHealthState → Bool
transport_ready none = true
transport_ready (some h) = h.transport_ready

abbrev is_valid : Option AxisCommandState → Bool
is_valid none = false
is_valid (some c) = c.valid

abbrev expects_mode : Option AxisCommandState → Bool
expects_mode none = false
expects_mode (some c) = c.desired_mode_valid

abbrev wants_mode : Option AxisCommandState → MotorMode → Bool
wants_mode none m = false
wants_mode (some c) m = motor_mode_eq m c.desired_mode

-- Fresh if something was received, and not longer ago than the timeout, if there is one.
fresh : Config → AxisFeedbackState → ℕ → Bool
fresh config v now =
    let seen = v.feedback_seen && ltb 0 v.last_rx_steady_ns in
    if seen && ltb 0 config.feedback_freshness_timeout_ns && ltb v.last_rx_steady_ns now
    then leb (now - v.last_rx_steady_ns) config.feedback_freshness_timeout_ns
    else seen

unfoldable pub evaluate_base :
    Config
    → AxisFeedbackState
    → Option AxisCommandState
    → AxisIntent
    → Option DeviceHealthState
    → ℕ
    → AxisReadiness
unfolding fresh
evaluate_base config v command intent health now =
    let device_ready = transport_ready health in
    let degraded =
      v.degraded || leb (max 1 config.degraded_timeout_threshold) v.consecutive_timeout_count in
    let feedback_fresh = fresh config v now in
    let mode_expected = expects_mode command in
    let mode_matched =
      if mode_expected
      then v.mode_valid && v.feedback_seen && wants_mode command v.mode
      else true in
    let feedback_ready = device_ready && v.feedback_seen && feedback_fresh && not degraded in
    let fault_cleared = v.fault_valid && not v.fault in
    let enabled_ready = v.enabled_valid && v.enabled in
    let mode_ready = not mode_expected || mode_matched in
    let for_enable = feedback_ready && fault_cleared in
    record {
      key = v.key;
      intent = intent;
      device_ready = device_ready;
      feedback_seen = v.feedback_seen;
      feedback_fresh = feedback_fresh;
      degraded = degraded;
      fault = v.fault;
      fault_known = v.fault_valid;
      fault_cleared = fault_cleared;
      enabled = v.enabled;
      enabled_known = v.enabled_valid;
      enabled_ready = enabled_ready;
      command_valid = is_valid command;
      mode_expected = mode_expected;
      mode_known = if mode_expected then v.mode_valid else true;
      mode_matched = mode_matched;
      mode_ready = mode_ready;
      feedback_ready = feedback_ready;
      axis_ready_for_enable = for_enable;
      axis_ready_for_run = for_enable && enabled_ready && mode_ready;
      recover_confirmed = false;
    }

unfoldable pub evaluate :
    Config
    → AxisFeedbackState
    → Option AxisCommandState
    → AxisIntent
    → Option DeviceHealthState
    → ℕ
    → AxisReadiness
unfolding evaluate_base
evaluate config v command intent health now =
    let r = evaluate_base config v command intent health now in
    record r { recover_confirmed = not (intent_eq intent recover) && r.axis_ready_for_enable }

unfoldable pub confirm_cycles : Config → ℕ
confirm_cycles config = max 1 config.recover_confirm_cycles

unfoldable pub recover_pending : AxisReadiness → Bool
recover_pending r = intent_eq r.intent recover && not r.recover_confirmed && r.axis_ready_for_enable

unfoldable pub describe_block_reason : AxisReadiness → String
unfolding recover_pending
describe_block_reason r =
    if not r.device_ready || not r.feedback_seen
    then "Feedback offline."
    else if r.degraded
    then "Feedback degraded."
    else if not r.feedback_fresh
    then "Feedback stale."
    else if not r.fault_known
    then "Fault state unknown."
    else if not r.fault_cleared
    then "Fault still active."
    else if not r.enabled_known
    then "Enable state unknown."
    else if not r.enabled_ready
    then "Axis not enabled."
    else if not r.mode_ready
    then "Mode not ready."
    else if recover_pending r
    then "Axis still recovering."
    else ""

-- The memory of a recovery, and the readiness that depends on it.
pub record RecoverTracker : Type 0 where
  pub last_sample_ns : ℕ
  pub healthy_cycles : ℕ

abbrev pub new_tracker : RecoverTracker
new_tracker = record { last_sample_ns = 0; healthy_cycles = 0 }

unfoldable pub track : Config → AxisFeedbackState → RecoverTracker → RecoverTracker
unfolding confirm_cycles
track config v t =
    if ltb 0 v.last_rx_steady_ns && not (v.last_rx_steady_ns == t.last_sample_ns)
    then record {
      last_sample_ns = v.last_rx_steady_ns;
      healthy_cycles = min ((t.healthy_cycles + 1) % 4294967296) (confirm_cycles config);
    }
    else record t { healthy_cycles = max t.healthy_cycles 1 }

unfoldable pub evaluate_axis_readiness :
    Config
    → AxisKey
    → AxisFeedbackState
    → Option AxisCommandState
    → AxisIntent
    → Option DeviceHealthState
    → ℕ
    → List (List ℕ × RecoverTracker)
    → AxisReadiness × List (List ℕ × RecoverTracker)
evaluate_axis_readiness config key v command intent health now trackers =
    let r = evaluate config v command intent health now in
    let k = axis_map_key key in
    if not (intent_eq intent recover)
    then (record r { recover_confirmed = r.axis_ready_for_enable }, erase k trackers)
    else if not r.axis_ready_for_enable
    then (record r { recover_confirmed = false }, erase k trackers)
    else (let t = track config v (or_new (find k trackers) new_tracker) in
        (
          record r { recover_confirmed = leb (confirm_cycles config) t.healthy_cycles },
          insert k t trackers,
        ))
