-- ===== src/MotorAction.antt =====
-- Actions on the motors: src/motor_action_executor.cpp and include/can_driver/motor_action_executor.hpp.
-- `W` is the world that the device manager reads and an action changes. An action returns whether
-- the protocol accepted it, or throws. The device manager is IDeviceManager, an interface: its
-- three queries are its fields, with the protocol as `P`.
pub mod Batches
mod Examples
use old_car_can_driver.Prelude.{
  ℕ, ◌+◌, String, Bool, true, false, not, Option, some, List, [], ◌∷◌, ◌++◌, if◌then◌else◌,
}
use old_car_can_driver.Can.{CanType}

pub record Target : Type 0 where
  pub name : String
  pub can_device : String
  pub protocol : CanType
  pub motor_id : ℕ

pub data Status : Type 0 where
  ok device_not_ready protocol_unavailable rejected exception : Status

abbrev pub is_ok : Status → Bool
is_ok ok = true
is_ok device_not_ready = false
is_ok protocol_unavailable = false
is_ok rejected = false
is_ok exception = false

pub record Failure : Type 0 where
  pub target : Target
  pub status : Status

pub record BatchResult : Type 0 where
  pub any_success : Bool
  pub any_failure : Bool
  pub first_failure : Status
  pub success_count : ℕ
  pub failure_count : ℕ
  pub succeeded_targets : List Target
  pub failures : List Failure

-- What a call of an action comes to.
pub data Outcome : Type 0 where
  accepted refused threw : Outcome

pub record DeviceManager (P W : Type 0) : Type 0 where
  pub is_device_ready : String → W → Bool
  pub get_protocol : String → CanType → W → Option P
  pub has_device_mutex : String → W → Bool

abbrev pub no_result : BatchResult
no_result = record {
  any_success = false;
  any_failure = false;
  first_failure = ok;
  success_count = 0;
  failure_count = 0;
  succeeded_targets = [];
  failures = [];
}

abbrev pub status_of : Outcome → Status
status_of accepted = ok
status_of refused = rejected
status_of threw = exception

-- The counts are std::size_t; no batch comes near their bound.
unfoldable pub record_status : Target → Status → BatchResult → BatchResult
record_status target status r =
    if is_ok status
    then record r {
      any_success = true;
      success_count = r.success_count + 1;
      succeeded_targets = r.succeeded_targets ++ target ∷ [];
    }
    else record r {
      any_failure = true;
      failure_count = r.failure_count + 1;
      first_failure = if is_ok r.first_failure then status else r.first_failure;
      failures = r.failures ++ record { target = target; status = status } ∷ [];
    }

module _ {P W : Type 0} where
  abbrev with_protocol : Option P → Bool → Target → (P → ℕ → W → Outcome × W) → W → Status × W
  with_protocol (some p) true target act w =
      let (outcome, v) = act p target.motor_id w in (status_of outcome, v)
  with_protocol p m target act w = (protocol_unavailable, w)

  unfoldable pub execute :
      Option (DeviceManager P W) → Option (P → ℕ → W → Outcome × W) → Target → W → Status × W
  execute (some manager) (some act) target w =
      if not (manager.is_device_ready target.can_device w)
      then (device_not_ready, w)
      else with_protocol (manager.get_protocol target.can_device target.protocol w)
          (manager.has_device_mutex target.can_device w) target act w
  execute manager act target w = (protocol_unavailable, w)

  unfoldable pub run_batch :
      Option (DeviceManager P W)
      → Option (P → ℕ → W → Outcome × W)
      → List Target
      → BatchResult × W
      → BatchResult × W
  unfolding execute record_status
  run_batch manager act [] (r, w) = (r, w)
  run_batch manager act (target ∷ targets) (r, w) =
      let (status, v) = execute manager act target w in
      run_batch manager act targets (record_status target status r, v)

  abbrev pub execute_batch :
      Option (DeviceManager P W)
      → Option (P → ℕ → W → Outcome × W)
      → List Target
      → W
      → BatchResult × W
  execute_batch manager act targets w = run_batch manager act targets (no_result, w)
