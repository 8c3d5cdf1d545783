-- ===== src/Coordinator/Races.antt =====
-- Feedback that arrives while a transition of operational_coordinator.cpp runs: the control loop
-- changes the mode with no lock, and DoTransition ends with a plain store.
use old_car_can_driver.Prelude.{String, ◌≡◌, Bool, true, some, arith}
use old_car_can_driver.Coordinator.{
  armed, running, faulted, Sys, DriverOps, commit, do_transition, release_action, request_release,
  update_from_feedback,
}

module _ {W : Type 0} where
  -- The check, with an unhealthy feedback reported before it returns.
  abbrev pub interrupted : (Sys W → Bool × String × Sys W) → Sys W → Bool × String × Sys W
  interrupted f s = let (healthy, detail, t) = f s in (healthy, detail, update_from_feedback true t)

  -- If the health check of a release is interrupted by a report of unhealthy feedback, passes,
  -- and had left the mode Armed before the report, then the report makes the mode Faulted and
  -- the release overwrites it: the request succeeds and the mode is Running.
  pub release_loses_fault :
      (ops : DriverOps W) (f : Sys W → Bool × String × Sys W) (s : Sys W)
      → ops.motion_healthy ≡ some (interrupted f)
      → s.mode ≡ armed
      → (f s).0 ≡ true
      → (f s).2.mode ≡ armed
      → ((interrupted f s).2.mode ≡ faulted)
        × ((request_release ops s).0.ok ≡ true)
        × ((request_release ops s).1.mode ≡ running)
  unfolding request_release update_from_feedback release_action do_transition commit
  release_loses_fault ops f s e a h k = ground (arith)
