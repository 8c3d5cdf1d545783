-- ===== src/Lifecycle/Recovered.antt =====
-- recoverAll of src/lifecycle_driver_ops.cpp: what holds of the targets when it succeeds.
use old_car_can_driver.Prelude.{
  ◌+◌, true, false, not, ◌&&◌, ◌≡◌, refl, List, All, arith, if_cases, null,
}
use old_car_can_driver.Coordinator.{Result}
use old_car_can_driver.MotorAction.{Target}
use old_car_can_driver.Lifecycle.{Env, Host, lifecycle_targets_snapshot}
use old_car_can_driver.Lifecycle.Waiting.{
  success, failure, recovered_pass, verify_recovery, rounds_for,
}
use old_car_can_driver.Lifecycle.Operations.{batch, recover_all, make_motor_action_failure_result}
use old_car_can_driver.Lifecycle.Walks.{walk-healthy, wait_until-healthy}
use old_car_can_driver.Lifecycle.Confirmed.{IsRecovered}
use old_car_can_driver.Lifecycle.Healthy.{All-map, recover_check-IsRecovered}
use old_car_can_driver.Lifecycle.Enabled.{failure_result-ok}

module _ {P W : Type 0} (env : Env P W) where
  abbrev RecoveredIfOk : List Target → Result × Host W → Type 0
  RecoveredIfOk targets p =
      p.0.ok ≡ true → All (IsRecovered env p.1.driver.config p.1.world) targets

  failed-RecoveredIfOk :
      (targets : List Target) (p : Result × Host W) → p.0.ok ≡ false → RecoveredIfOk targets p
  failed-RecoveredIfOk targets p bad good = absurd (ground (arith, bad))

  verified-RecoveredIfOk :
      (targets : List Target) (h : Host W) → RecoveredIfOk targets (verify_recovery env targets h)
  unfolding verify_recovery
  verified-RecoveredIfOk targets h good =
      let (t, e, same) =
        wait_until-healthy env (env.now h.world + 2000000000) (recovered_pass env targets)
          (success "") (λ d. failure "Recover timeout: fault still active.") (λ d. refl)
          (rounds_for 2000000000) "" h good in
      rw same (
        All-map _ _ targets (recover_check-IsRecovered env t.driver.config t.world)
          (walk-healthy _ targets t.driver.axis_recover_trackers e))

  -- When recoverAll succeeds, each lifecycle target is recovered in the world that it leaves:
  -- its device is ready and, if there is feedback of it, it reports recently, in no series of
  -- timeouts and without a fault, where an unknown fault was asked of the protocol; a target
  -- without feedback has no fault by its protocol.
  pub recover_all_confirmed :
      (h : Host W)
      → (recover_all env h).0.ok ≡ true
      → let after = (recover_all env h).1 in
        All (IsRecovered env after.driver.config after.world) (lifecycle_targets_snapshot h.driver)
  unfolding recover_all
  recover_all_confirmed h =
      let targets = lifecycle_targets_snapshot h.driver in
      let (r, t) = batch env env.reset_fault targets h in
      if_cases (RecoveredIfOk targets) (not env.has_executor)
        (failure "Motor action executor unavailable.", h) _
        (λ _. failed-RecoveredIfOk targets (failure "Motor action executor unavailable.", h) refl)
        (λ _.
          if_cases (RecoveredIfOk targets) (null targets)
            (failure "No motors available for recover.", h) _
            (λ _. failed-RecoveredIfOk targets (failure "No motors available for recover.", h) refl)
            (λ _.
              if_cases (RecoveredIfOk targets) (not r.any_success && r.any_failure) (_, t) _
                (λ _.
                  failed-RecoveredIfOk targets
                    (
                      make_motor_action_failure_result r.first_failure "Recover command rejected."
                          "Protocol fault-reset path not available.",
                      t,
                    )
                    (failure_result-ok r.first_failure _ _))
                (λ _.
                  if_cases (RecoveredIfOk targets) (not r.any_success)
                    (failure "No motors available for recover.", t) (verify_recovery env targets t)
                    (λ _.
                      failed-RecoveredIfOk targets (failure "No motors available for recover.", t)
                        refl)
                    (λ _. verified-RecoveredIfOk targets t))))
