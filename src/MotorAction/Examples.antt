-- ===== src/MotorAction/Examples.antt =====
-- A concrete batch, and the theorems about src/motor_action_executor.cpp at it.
use old_car_can_driver.Prelude.{
  ℕ, ◌+◌, ◌≡◌, refl, String, string_eq, true, not, some, List, [], ◌∷◌, ◌==◌, if◌then◌else◌, length,
  null,
}
use old_car_can_driver.MotorAction.{
  Target, device_not_ready, Outcome, accepted, refused, threw, DeviceManager, run_batch,
  execute_batch,
}
use old_car_can_driver.Can.{mt}
use old_car_can_driver.MotorAction.Batches.{statuses, succeeded, failed, first_of, batch_reports}

abbrev motor : String → ℕ → Target
motor device id = record { name = "wheel"; can_device = device; protocol = mt; motor_id = id }

-- Only can0 is ready.
abbrev manager : DeviceManager ℕ ℕ
manager = record {
  is_device_ready = λ device w. string_eq.beq device "can0";
  get_protocol = λ device protocol w. some 1;
  has_device_mutex = λ device w. true;
}

-- Counts its calls in the world; the motor 3 refuses, the motor 4 throws.
abbrev act : ℕ → ℕ → ℕ → Outcome × ℕ
act p id w = (if id == 3 then refused else if id == 4 then threw else accepted, w + 1)

abbrev targets : List Target
targets = motor "can0" 1 ∷ motor "can1" 2 ∷ motor "can0" 3 ∷ motor "can0" 4 ∷ []

batch_counts :
    ((execute_batch (some manager) (some act) targets 0).0.success_count ≡ 1)
    × ((execute_batch (some manager) (some act) targets 0).0.failure_count ≡ 3)
    × ((execute_batch (some manager) (some act) targets 0).0.first_failure ≡ device_not_ready)
    × ((execute_batch (some manager) (some act) targets 0).1 ≡ 3)
unfolding run_batch
batch_counts = (refl, refl, refl, refl)

batch_reports_example :
    let st = statuses (some manager) (some act) targets 0 in
    let r = (execute_batch (some manager) (some act) targets 0).0 in
    (r.succeeded_targets ≡ succeeded st)
    × (r.failures ≡ failed st)
    × (r.success_count ≡ length (succeeded st))
    × (r.failure_count ≡ length (failed st))
    × (r.success_count + r.failure_count ≡ length targets)
    × (r.any_success ≡ not (null (succeeded st)))
    × (r.any_failure ≡ not (null (failed st)))
    × (r.first_failure ≡ first_of (failed st))
batch_reports_example = batch_reports (some manager) (some act) targets 0
