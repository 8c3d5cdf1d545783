-- ===== src/Readiness/Examples.antt =====
-- A concrete axis, and the theorems about its readiness at it.
use old_car_can_driver.Prelude.{
  string_eq, ℕ, ◌≡◌, refl, true, not, ◌&&◌, none, [], ◌∷◌, arith, leb, is_empty,
}
use old_car_can_driver.SharedState.Data.{
  codes_Eq, run as running, recover, intent_eq, AxisFeedbackState, no_feedback, codes_eq,
  axis_map_key,
}
use old_car_can_driver.Prelude.Map.{find, insert}
use old_car_can_driver.Can.{mt}
use old_car_can_driver.Readiness.{
  default_config, evaluate, confirm_cycles, describe_block_reason, track, evaluate_axis_readiness,
}
use old_car_can_driver.Readiness.Gates.{block_reason_iff}
use old_car_can_driver.Readiness.Recovery.{
  Evaluation, advance, progress, no_progress, evaluation, evaluate_all, confirmed_iff_samples,
}

abbrev wheel : AxisFeedbackState
wheel = record no_feedback {
  enabled = true;
  enabled_valid = true;
  fault_valid = true;
  feedback_seen = true;
  last_rx_steady_ns = 1000;
}

wheel_runs : (evaluate default_config wheel none running none 2000).axis_ready_for_run ≡ true
unfolding evaluate
wheel_runs = refl

block_reason_iff_example :
    is_empty (describe_block_reason (evaluate default_config wheel none running none 2000)) ≡ (
      (evaluate default_config wheel none running none 2000).axis_ready_for_run
      && not (intent_eq running recover))
block_reason_iff_example = block_reason_iff default_config wheel none running none 2000

abbrev sample : ℕ → Evaluation
sample rx = record {
  key = record { device = "can0"; protocol = mt; motor_id = 0x141 };
  feedback = record wheel { last_rx_steady_ns = rx };
  command = none;
  intent = recover;
  health = none;
  now = 2000;
}

confirmed_iff_samples_example :
    (evaluation default_config
      (sample 1500)
      (evaluate_all default_config (sample 1000 ∷ sample 1000 ∷ []) [])).0.recover_confirmed
    ≡ leb
        (confirm_cycles default_config)
        (advance default_config (sample 1500) (
          progress default_config
            (axis_map_key (sample 1500).key)
            (sample 1000 ∷ sample 1000 ∷ [])
            no_progress)).samples
confirmed_iff_samples_example =
    confirmed_iff_samples default_config (omega arith) (sample 1000 ∷ sample 1000 ∷ [])
      (sample 1500) refl

-- The second sample of two confirms.
confirmed_at_second_sample :
    (evaluation default_config
      (sample 1500)
      (evaluate_all default_config (sample 1000 ∷ sample 1000 ∷ []) [])).0.recover_confirmed
    ≡ true
unfolding evaluate_axis_readiness evaluate track confirm_cycles evaluate_all find insert
    axis_map_key codes_eq
confirmed_at_second_sample = refl
