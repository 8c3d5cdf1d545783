-- ===== src/SharedState/Examples.antt =====
-- Concrete axes, and the theorems about include/can_driver/SharedDriverState.h at them.
use old_car_can_driver.Prelude.{◌+◌, ◌≡◌, refl, true, false, List, [], ◌∷◌, arith, leb, string_eq}
use old_car_can_driver.SharedState.Data.{
  codes_Eq, AxisKey, AxisFeedbackState, codes, codes_eq, axis_map_key,
}
use old_car_can_driver.SharedState.{
  make_axis_key, recompute_axis_observed_locked, get_axis_feedback,
}
use old_car_can_driver.Prelude.Map.{find, insert}
use old_car_can_driver.Can.{mt}
use old_car_can_driver.SharedState.Keys.{axis_map_key-injective}
use old_car_can_driver.SharedState.Degraded.{Call, feeds, run, degraded_iff_timeouts}

abbrev left_wheel : AxisKey
left_wheel = record { device = "can0"; protocol = mt; motor_id = 0x141 }

abbrev right_wheel : AxisKey
right_wheel = record { device = "can0"; protocol = mt; motor_id = 0x142 }

left_wheel_text : axis_map_key left_wheel ≡ codes "can0|mt|321"
unfolding axis_map_key
left_wheel_text = refl

axis_map_key-injective_example :
    (codes "can0" ≡ codes "can0") × (mt ≡ mt) × (left_wheel.motor_id ≡ 0x141)
unfolding make_axis_key
axis_map_key-injective_example =
    axis_map_key-injective left_wheel (make_axis_key "can0" mt 0x141) (omega arith) (omega arith)
      refl

abbrev miss : AxisFeedbackState → AxisFeedbackState
miss v = record v { consecutive_timeout_count = v.consecutive_timeout_count + 1; degraded = false }

abbrev misses : List Call
misses = feeds left_wheel miss ∷ feeds left_wheel miss ∷ feeds left_wheel miss ∷ []

abbrev answer : AxisFeedbackState → AxisFeedbackState
answer v = record v { last_rx_steady_ns = 1000; feedback_seen = true }

-- Two misses before, one more here, and the driver's own mark overruled.
degraded_iff_timeouts_example : true ≡ leb 3 3
unfolding run get_axis_feedback find codes_eq axis_map_key insert recompute_axis_observed_locked
degraded_iff_timeouts_example = degraded_iff_timeouts misses left_wheel _ refl
