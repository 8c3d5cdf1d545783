-- ===== src/Lifecycle.antt =====
-- The driver operations behind the lifecycle: src/lifecycle_driver_ops.cpp with its header, and
-- src/CanDriverRuntime.cpp, which hands them to the coordinator.
-- `W` is the world that the device manager and the protocols act on, and `P` a protocol. `Env` is
-- what the operations are given: IDeviceManager and CanProtocol are interfaces, so their methods are
-- its fields, with the steady clock and std::this_thread::sleep_for. The executor of the motor
-- actions works on the same device manager, as configureDependencies of the runtime sets it up.
-- `Host` is the driver's own state with the world. What other threads do comes with a sleep or a
-- call. Log lines are left out.
pub mod Checks
pub mod Waiting
pub mod Operations
pub mod Runtime
pub mod Walks
pub mod Deadlines
pub mod Confirmed
pub mod Healthy
pub mod Enabled
pub mod Recovered
pub mod Released
pub mod Rollback
pub mod Optional
mod Examples
use old_car_can_driver.Prelude.{
  ℕ, String, Bool, true, false, ◌&&◌, Option, none, some, List, [], ◌∷◌, ◌++◌, if◌then◌else◌, null,
  string_eq,
}
use old_car_can_driver.Can.{CanType}
use old_car_can_driver.SharedState.Data.{AxisFeedbackState}
use old_car_can_driver.SharedState.{SharedDriverState, make_axis_key, get_axis_feedback}
use old_car_can_driver.Readiness.{Config, RecoverTracker}
use old_car_can_driver.MotorAction.{Target, DeviceManager, Outcome}

pub record Env (P W : Type 0) : Type 0 where
  pub manager : Option (DeviceManager P W)
  pub has_executor : Bool
  pub shared : W → Option SharedDriverState
  pub enable : P → ℕ → W → Outcome × W
  pub disable : P → ℕ → W → Outcome × W
  pub stop : P → ℕ → W → Outcome × W
  pub reset_fault : P → ℕ → W → Outcome × W
  pub has_fault : P → ℕ → W → Bool
  pub is_enabled : P → ℕ → W → Bool
  pub init_device : String → List (CanType × ℕ) → Bool → W → Bool × W
  pub shutdown_device : String → W → W
  pub shutdown_all : W → W
  pub now : W → ℕ
  pub sleep : ℕ → W → W

pub record Driver : Type 0 where
  pub targets : List Target
  pub active_targets : List Target
  pub axis_recover_trackers : List (List ℕ × RecoverTracker)
  pub config : Config

pub record Host (W : Type 0) : Type 0 where
  pub driver : Driver
  pub world : W

unfoldable pub filter_targets_by_device : List Target → String → List Target
filter_targets_by_device [] device = []
filter_targets_by_device (target ∷ targets) device =
    let rest = filter_targets_by_device targets device in
    if string_eq.beq target.can_device device then target ∷ rest else rest

-- std::remove_if and erase.
unfoldable pub without_device : List Target → String → List Target
without_device [] device = []
without_device (target ∷ targets) device =
    let rest = without_device targets device in
    if string_eq.beq target.can_device device then rest else target ∷ rest

-- The argument of configure that is a pointer is in `Env`.
unfoldable pub configure : Driver → Driver
configure d = record d { active_targets = []; axis_recover_trackers = [] }

unfoldable pub set_targets : List Target → Driver → Driver
set_targets targets d = record d {
  targets = targets;
  active_targets = [];
  axis_recover_trackers = [];
}

unfoldable pub set_feedback_freshness_timeout_ns : ℕ → Driver → Driver
set_feedback_freshness_timeout_ns timeout_ns d = record d {
  config = record d.config { feedback_freshness_timeout_ns = timeout_ns };
  axis_recover_trackers = [];
}

unfoldable pub lifecycle_targets_snapshot : Driver → List Target
lifecycle_targets_snapshot d = if null d.active_targets then d.targets else d.active_targets

unfoldable pub activate_targets_for_device : String → List Target → Driver → Driver
unfolding without_device
activate_targets_for_device device device_targets d = record d {
  active_targets = without_device d.active_targets device ++ device_targets;
}

unfoldable pub deactivate_targets_for_device : String → Driver → Driver
unfolding without_device
deactivate_targets_for_device device d = record d {
  active_targets = without_device d.active_targets device;
  axis_recover_trackers = [];
}

unfoldable pub clear_active_targets : Driver → Driver
clear_active_targets d = record d { active_targets = []; axis_recover_trackers = [] }

module _ {P W : Type 0} (env : Env P W) where
  abbrev pub is_device_ready : String → W → Bool
  is_device_ready device w = elim env.manager [
    | none ↦ false
    | some manager ↦ manager.is_device_ready device w
  ]

  -- Without a device manager there is no shared state.
  abbrev pub shared_driver_state : W → Option SharedDriverState
  shared_driver_state w = elim env.manager [ none ↦ none | some manager ↦ env.shared w ]

  abbrev pub feedback_at : Target → W → Option AxisFeedbackState
  feedback_at target w = elim (shared_driver_state w) [
    | none ↦ none
    | some s ↦ get_axis_feedback (make_axis_key target.can_device target.protocol target.motor_id) s
  ]

  abbrev asked_if : Option P → Bool → (P → Bool) → Option Bool
  asked_if (some p) true f = some (f p)
  asked_if p m f = none

  -- The protocol's own answer, where there are a protocol and a mutex of its device.
  abbrev ask : (P → ℕ → W → Bool) → Target → W → Option Bool
  ask f target w = elim env.manager [
    | none ↦ none
    | some manager ↦
        asked_if (manager.get_protocol target.can_device target.protocol w)
          (manager.has_device_mutex target.can_device w) (λ p. f p target.motor_id w)
  ]

  -- The cached value if it is known, or else the protocol's answer.
  abbrev cached_or : Bool → Bool → Option Bool → Option Bool
  cached_or known value other = if known then some value else other

  unfoldable pub query_motor_fault : Target → W → Option Bool
  query_motor_fault target w = elim (feedback_at target w) [
    | none ↦ ask env.has_fault target w
    | some v ↦ cached_or (v.feedback_seen && v.fault_valid) v.fault (ask env.has_fault target w)
  ]

  unfoldable pub query_motor_enabled : Target → W → Option Bool
  query_motor_enabled target w = elim (feedback_at target w) [
    | none ↦ ask env.is_enabled target w
    | some v ↦
        cached_or (v.feedback_seen && v.enabled_valid) v.enabled (ask env.is_enabled target w)
  ]

  -- `queryMotorFault(target, &hasFault) && hasFault`, for some target.
  unfoldable pub any_fault_of : List Target → W → Bool
  unfolding query_motor_fault
  any_fault_of [] w = false
  any_fault_of (target ∷ targets) w = elim (query_motor_fault target w) [
    | some true ↦ true
    | _ ↦ any_fault_of targets w
  ]

  unfoldable pub any_fault_active : Host W → Bool
  unfolding any_fault_of
  any_fault_active h = any_fault_of (lifecycle_targets_snapshot h.driver) h.world
