-- ===== src/Refresh/Examples.antt =====
-- Concrete schedules, and the theorems about include/can_driver/RefreshScheduler.h at them.
use old_car_can_driver.Prelude.{◌≡◌, refl, true, false, some, [], ◌∷◌}
use old_car_can_driver.Refresh.{
  position, velocity, mode, enabling, fault, current, PpAxisRefreshSnapshot,
  PpAxisRefreshScheduleState, is_due, scan, build_pp_refresh_plan,
}
use old_car_can_driver.Can.{csp}
use old_car_can_driver.SharedState.Data.{hold}
use old_car_can_driver.Refresh.Scan.{plans}
use old_car_can_driver.Refresh.Fairness.{missed_is_next, free_plan_iff_due}

abbrev calm : PpAxisRefreshSnapshot
calm = record {
  feedback_seen = true;
  enabled = true;
  has_fault = false;
  degraded = false;
  desired_mode_valid = false;
  feedback_mode = csp;
  desired_mode = csp;
  intent = hold;
}

abbrev untouched : PpAxisRefreshScheduleState
untouched = record {
  last_due = 0 ∷ 0 ∷ 0 ∷ 0 ∷ 0 ∷ 0 ∷ [];
  last_issued = 0 ∷ 0 ∷ 0 ∷ 0 ∷ 0 ∷ 0 ∷ [];
  pressure_cursor = 0;
}

-- Position, velocity, mode and enable go first; fault and current follow, then the first two again.
two_cycles :
    ((build_pp_refresh_plan 1000 true calm (some untouched)).0
      ≡ position ∷ velocity ∷ mode ∷ enabling ∷ [])
    × ((build_pp_refresh_plan 2000 true calm (some (record untouched { pressure_cursor = 4 }))).0
        ≡ fault ∷ current ∷ position ∷ velocity ∷ [])
unfolding build_pp_refresh_plan scan is_due
two_cycles = (refl, refl)

missed_is_next_example :
    plans 5
      (build_pp_refresh_plan 2000 true calm (some (record untouched { pressure_cursor = 4 }))).0
    ≡ true
unfolding build_pp_refresh_plan scan is_due
missed_is_next_example =
    missed_is_next 1000 2000 calm calm untouched (record untouched { pressure_cursor = 4 }) current
      refl refl refl refl

free_plan_iff_due_example :
    plans 4 (build_pp_refresh_plan 1000 false calm (some untouched)).0
    ≡ is_due 1000 calm (some untouched) 4
free_plan_iff_due_example = free_plan_iff_due 1000 calm (some untouched) fault
