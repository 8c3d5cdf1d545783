-- ===== src/Lifecycle/Operations.antt =====
-- The operations of src/lifecycle_driver_ops.cpp on a device or on all targets. A roll back that
-- fails is reported in place of the failure that caused it.
use old_car_can_driver.Prelude.{
  ℕ, String, Bool, true, false, not, ◌&&◌, none, some, List, map, if◌then◌else◌, null,
}
use Prim.Native.String.{◌++◌ as concat}
use old_car_can_driver.Coordinator.{Result}
use old_car_can_driver.MotorAction.{
  Target, Status, ok, device_not_ready, protocol_unavailable, rejected, exception, BatchResult,
  Outcome, execute_batch,
}
use old_car_can_driver.Lifecycle.{
  Env, Host, filter_targets_by_device, lifecycle_targets_snapshot, activate_targets_for_device,
  deactivate_targets_for_device, clear_active_targets,
}
use old_car_can_driver.Lifecycle.Waiting.{
  success, failure, wait_for_enabled_targets, verify_recovery,
}

unfoldable pub make_motor_action_failure_result : Status → String → String → Result
make_motor_action_failure_result device_not_ready rejected_message unavailable_message =
    failure "CAN device not ready."
make_motor_action_failure_result protocol_unavailable rejected_message unavailable_message =
    failure unavailable_message
make_motor_action_failure_result rejected rejected_message unavailable_message =
    failure rejected_message
make_motor_action_failure_result ok rejected_message unavailable_message =
    failure "Command execution failed."
make_motor_action_failure_result exception rejected_message unavailable_message =
    failure "Command execution failed."

module _ {P W : Type 0} (env : Env P W) where
  abbrev pub batch : (P → ℕ → W → Outcome × W) → List Target → Host W → BatchResult × Host W
  batch act targets h =
      let (r, w) = execute_batch env.manager (some act) targets h.world in
      (r, record h { world = w })

  unfoldable pub run_motor_batch_action :
      List Target → (P → ℕ → W → Outcome × W) → String → String → Bool → Host W → Result × Host W
  unfolding make_motor_action_failure_result
  run_motor_batch_action targets act rejected_message unavailable_message require_any h =
      if not env.has_executor
      then (failure "Motor action executor unavailable.", h)
      else if null targets
      then (
        if require_any then failure "No joints available." else success "No joints to process.",
        h,
      )
      else (let (r, t) = batch act targets h in
          (
            if r.any_failure
                then make_motor_action_failure_result r.first_failure rejected_message
                    unavailable_message
                else if not r.any_success && require_any
                then failure "No joints available."
                else success "",
            t,
          ))

  -- Disables `targets` and returns `result`, or the failure of the roll back.
  unfoldable pub roll_back : List Target → String → String → Result → Host W → Result × Host W
  unfolding make_motor_action_failure_result
  roll_back targets rejected_message unavailable_message result h =
      let (r, t) = batch env.disable targets h in
      (
        if r.any_failure
            then make_motor_action_failure_result r.first_failure rejected_message
                unavailable_message
            else result,
        t,
      )

  abbrev pub roll_back_if : Bool → List Target → String → String → Result → Host W → Result × Host W
  roll_back_if wanted targets rejected_message unavailable_message result h =
      if wanted
      then roll_back targets rejected_message unavailable_message result h
      else (result, h)

  unfoldable pub prepare_device : String → Bool → Host W → Result × Host W
  unfolding filter_targets_by_device
  prepare_device device loopback h = elim env.manager [
    | none ↦ (failure "Device manager unavailable.", h)
    | some manager ↦
        let targets = filter_targets_by_device h.driver.targets device in
        if null targets
        then (failure (concat "No joints available for device " device), h)
        else (let (done, w) =
              env.init_device device (map (λ (t : Target). (t.protocol, t.motor_id)) targets)
                loopback h.world in
            (
              if done then success "" else failure (concat "Failed to initialize " device),
              record h { world = w },
            ))
  ]

  abbrev pub then_do : (Host W → Result × Host W) → Result × Host W → Result × Host W
  then_do next (r, h) = if not r.ok then (r, h) else next h

  unfoldable pub initialize_device : String → Bool → Host W → Result × Host W
  unfolding prepare_device activate_targets_for_device filter_targets_by_device
  initialize_device device loopback h =
      then_do
        (λ t. (
          success "initialized (standby)",
          record t {
            driver =
                activate_targets_for_device device
                  (filter_targets_by_device t.driver.targets device) t.driver;
          },
        ))
        (prepare_device device loopback h)

  unfoldable pub shutdown_device : String → Host W → Result × Host W
  unfolding deactivate_targets_for_device
  shutdown_device device h = elim env.manager [
    | none ↦ (failure "Device manager unavailable.", h)
    | some manager ↦ (
      success "",
      record {
        driver = deactivate_targets_for_device device h.driver;
        world = env.shutdown_device device h.world;
      },
    )
  ]

  -- The enable command refused by some target: those that took it are disabled again.
  abbrev pub enable_refused : BatchResult → String → String → Host W → Result × Host W
  enable_refused r rejected_message unavailable_message =
      roll_back_if (not (null r.succeeded_targets)) r.succeeded_targets rejected_message
        unavailable_message
        (make_motor_action_failure_result r.first_failure "Enable command rejected."
          "Protocol not available.")

  abbrev pub unconfirmed : Bool → List Target → String → String → Result × Host W → Result × Host W
  unconfirmed wanted targets rejected_message unavailable_message (r, h) =
      if r.ok
      then (success "enabled (armed)", h)
      else roll_back_if wanted targets rejected_message unavailable_message r h

  unfoldable pub enable_device : String → Host W → Result × Host W
  unfolding filter_targets_by_device roll_back make_motor_action_failure_result
      wait_for_enabled_targets
  enable_device device h =
      let targets = filter_targets_by_device h.driver.targets device in
      if not env.has_executor
      then (failure "Motor action executor unavailable.", h)
      else if null targets
      then (failure (concat "No joints available for device " device), h)
      else (let (r, t) = batch env.enable targets h in
          if r.any_failure
          then enable_refused r "Init enable rollback failed after partial success."
              "Protocol not available during init enable rollback." t
          else unconfirmed true targets
              "Init enable confirmation rollback failed after enable timeout."
              "Protocol not available during init enable confirmation rollback."
              (wait_for_enabled_targets env targets 2000000000 t))

  unfoldable pub enable_all : Host W → Result × Host W
  unfolding lifecycle_targets_snapshot roll_back make_motor_action_failure_result
      wait_for_enabled_targets
  enable_all h =
      let targets = lifecycle_targets_snapshot h.driver in
      if not env.has_executor
      then (failure "Motor action executor unavailable.", h)
      else if null targets
      then (failure "No joints available for enable.", h)
      else (let (r, t) = batch env.enable targets h in
          if r.any_failure
          then enable_refused r "Enable rollback failed after partial success."
              "Protocol not available during enable rollback." t
          else if not r.any_success
          then (failure "No joints available for enable.", t)
          else unconfirmed (not (null r.succeeded_targets)) r.succeeded_targets
              "Enable confirmation rollback failed after enable timeout."
              "Protocol not available during enable confirmation rollback."
              (wait_for_enabled_targets env targets 2000000000 t))

  unfoldable pub disable_all : Host W → Result × Host W
  unfolding lifecycle_targets_snapshot run_motor_batch_action
  disable_all h =
      run_motor_batch_action (lifecycle_targets_snapshot h.driver) env.disable
        "Disable command rejected." "Protocol not available." false h

  unfoldable pub halt_all : Host W → Result × Host W
  unfolding lifecycle_targets_snapshot run_motor_batch_action
  halt_all h =
      run_motor_batch_action (lifecycle_targets_snapshot h.driver) env.stop "Halt command rejected."
        "Protocol not available." false h

  unfoldable pub recover_all : Host W → Result × Host W
  unfolding lifecycle_targets_snapshot make_motor_action_failure_result verify_recovery
  recover_all h =
      let targets = lifecycle_targets_snapshot h.driver in
      if not env.has_executor
      then (failure "Motor action executor unavailable.", h)
      else if null targets
      then (failure "No motors available for recover.", h)
      else (let (r, t) = batch env.reset_fault targets h in
          if not r.any_success && r.any_failure
          then (
            make_motor_action_failure_result r.first_failure "Recover command rejected."
                "Protocol fault-reset path not available.",
            t,
          )
          else if not r.any_success
          then (failure "No motors available for recover.", t)
          else verify_recovery env targets t)

  unfoldable pub shutdown_all : Bool → Host W → Result × Host W
  unfolding clear_active_targets
  shutdown_all force h = elim env.manager [
    | none ↦ (failure "Device manager unavailable.", h)
    | some manager ↦ (
      success "",
      record { driver = clear_active_targets h.driver; world = env.shutdown_all h.world },
    )
  ]
