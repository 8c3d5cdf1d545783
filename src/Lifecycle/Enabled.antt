-- ===== src/Lifecycle/Enabled.antt =====
-- enableAll and recoverAll of src/lifecycle_driver_ops.cpp: what holds of the targets when they
-- succeed.
use old_car_can_driver.Prelude.{
  ℕ, ◌+◌, String, Bool, true, false, not, ◌≡◌, refl, List, All, arith, if◌then◌else◌, if_cases,
  null,
}
use old_car_can_driver.Coordinator.{Result}
use old_car_can_driver.MotorAction.{
  Target, Status, ok, device_not_ready, protocol_unavailable, rejected, exception,
}
use old_car_can_driver.Lifecycle.{Env, Host, lifecycle_targets_snapshot}
use old_car_can_driver.Lifecycle.Waiting.{
  success, failure, enabled_pass, enable_timeout, wait_for_enabled_targets, rounds_for,
}
use old_car_can_driver.Lifecycle.Operations.{
  batch, enable_all, roll_back, roll_back_if, enable_refused, unconfirmed,
  make_motor_action_failure_result,
}
use old_car_can_driver.Lifecycle.Walks.{walk-healthy, wait_until-healthy}
use old_car_can_driver.Lifecycle.Confirmed.{IsUp}
use old_car_can_driver.Lifecycle.Healthy.{All-map, wait_check-IsUp}

pub failure_result-ok :
    (status : Status) (a b : String) → (make_motor_action_failure_result status a b).ok ≡ false
unfolding make_motor_action_failure_result
failure_result-ok ok a b = refl
failure_result-ok device_not_ready a b = refl
failure_result-ok protocol_unavailable a b = refl
failure_result-ok rejected a b = refl
failure_result-ok exception a b = refl

module _ {P W : Type 0} (env : Env P W) where
  -- A roll back never turns a failure into a success.
  pub roll_back-ok :
      (targets : List Target) (a b : String) (r : Result) (h : Host W)
      → r.ok ≡ false
      → (roll_back env targets a b r h).0.ok ≡ false
  unfolding roll_back
  roll_back-ok targets a b r h bad =
      let x = (batch env env.disable targets h).0 in
      if_cases (λ (q : Result). q.ok ≡ false) x.any_failure
        (make_motor_action_failure_result x.first_failure a b) r
        (λ _. failure_result-ok x.first_failure a b) (λ _. bad)

  pub roll_back_if-ok :
      (wanted : Bool) (targets : List Target) (a b : String) (r : Result) (h : Host W)
      → r.ok ≡ false
      → (roll_back_if env wanted targets a b r h).0.ok ≡ false
  roll_back_if-ok wanted targets a b r h bad =
      if_cases (λ (p : Result × Host W). p.0.ok ≡ false) wanted (roll_back env targets a b r h)
        (r, h) (λ _. roll_back-ok targets a b r h bad) (λ _. bad)

  abbrev AllUp : List Target → Host W → Type 0
  AllUp targets h = All (IsUp env h.driver.config h.world) targets

  -- All targets are up if the result is a success.
  abbrev UpIfOk : List Target → Result × Host W → Type 0
  UpIfOk targets p = p.0.ok ≡ true → AllUp targets p.1

  failed-UpIfOk : (targets : List Target) (p : Result × Host W) → p.0.ok ≡ false → UpIfOk targets p
  failed-UpIfOk targets p bad good = absurd (ground (arith, bad))

  waited-UpIfOk :
      (targets : List Target) (timeout_ns : ℕ) (h : Host W)
      → UpIfOk targets (wait_for_enabled_targets env targets timeout_ns h)
  unfolding wait_for_enabled_targets
  waited-UpIfOk targets timeout_ns h good =
      let (t, e, same) =
        wait_until-healthy env (env.now h.world + timeout_ns) (enabled_pass env targets)
          (success "enabled (armed)") enable_timeout (λ d. refl) (rounds_for timeout_ns) "" h
          good in
      rw same (
        All-map _ _ targets (wait_check-IsUp env t.driver.config t.world)
          (walk-healthy _ targets t.driver.axis_recover_trackers e))

  unconfirmed-UpIfOk :
      (targets : List Target) (wanted : Bool) (undone : List Target) (a b : String)
      (p : Result × Host W)
      → UpIfOk targets p
      → UpIfOk targets (unconfirmed env wanted undone a b p)
  unconfirmed-UpIfOk targets wanted undone a b (r, h) up =
      if_cases (UpIfOk targets) r.ok (success "enabled (armed)", h)
        (roll_back_if env wanted undone a b r h) (λ e _. up e)
        (λ e.
          failed-UpIfOk targets (roll_back_if env wanted undone a b r h)
            (roll_back_if-ok wanted undone a b r h e))

  -- When enableAll succeeds, each lifecycle target is up in the world that it leaves: its device
  -- is ready and, if there is feedback of it, it reports recently, in no series of timeouts,
  -- without a fault and enabled, where a value that was not known was asked of the protocol; a
  -- target without feedback is enabled by its protocol.
  pub enable_all_confirmed :
      (h : Host W)
      → (enable_all env h).0.ok ≡ true
      → let after = (enable_all env h).1 in
        All (IsUp env after.driver.config after.world) (lifecycle_targets_snapshot h.driver)
  unfolding enable_all
  enable_all_confirmed h =
      let targets = lifecycle_targets_snapshot h.driver in
      let (r, t) = batch env env.enable targets h in
      let refused =
        enable_refused env r "Enable rollback failed after partial success."
          "Protocol not available during enable rollback." t in
      let waited =
        unconfirmed env (not (null r.succeeded_targets)) r.succeeded_targets
          "Enable confirmation rollback failed after enable timeout."
          "Protocol not available during enable confirmation rollback."
          (wait_for_enabled_targets env targets 2000000000 t) in
      if_cases (UpIfOk targets) (not env.has_executor)
        (failure "Motor action executor unavailable.", h) _
        (λ _. failed-UpIfOk targets (failure "Motor action executor unavailable.", h) refl)
        (λ _.
          if_cases (UpIfOk targets) (null targets) (failure "No joints available for enable.", h) _
            (λ _. failed-UpIfOk targets (failure "No joints available for enable.", h) refl)
            (λ _.
              if_cases (UpIfOk targets) r.any_failure refused
                (if not r.any_success
                  then (failure "No joints available for enable.", t)
                  else waited)
                (λ _. failed-UpIfOk targets refused (
                  roll_back_if-ok (not (null r.succeeded_targets)) r.succeeded_targets _ _ _ t
                    (failure_result-ok r.first_failure _ _)))
                (λ _.
                  if_cases (UpIfOk targets) (not r.any_success)
                    (failure "No joints available for enable.", t) waited
                    (λ _. failed-UpIfOk targets (failure "No joints available for enable.", t) refl)
                    (λ _.
                      unconfirmed-UpIfOk targets (not (null r.succeeded_targets))
                        r.succeeded_targets _ _ (wait_for_enabled_targets env targets 2000000000 t)
                        (waited-UpIfOk targets 2000000000 t)))))
