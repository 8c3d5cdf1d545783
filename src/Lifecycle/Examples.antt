-- ===== src/Lifecycle/Examples.antt =====
-- A bench with one MT motor on `can0` and none on `can1`: the theorems on the lifecycle operations
-- (src/lifecycle_driver_ops.cpp, src/CanDriverRuntime.cpp) at concrete hosts.
use old_car_can_driver.Prelude.{
  ℕ, ◌+◌, Bool, true, false, ◌≡◌, refl, none, some, List, [], ◌∷◌, All, arith, string_eq,
}
use old_car_can_driver.Prelude.Map.{find, insert}
use old_car_can_driver.Can.{mt}
use old_car_can_driver.SharedState.Data.{AxisFeedbackState, codes_eq}
use old_car_can_driver.SharedState.{
  SharedDriverState, make_axis_key, mutate_axis_feedback, mutate_device_health,
  recompute_axis_observed_locked, get_axis_feedback, get_device_health, get_axis_command,
  get_axis_intent,
}
use old_car_can_driver.SharedState.Degraded.{empty_state}
use old_car_can_driver.Readiness.{
  default_config, evaluate, evaluate_axis_readiness, confirm_cycles, track,
}
use old_car_can_driver.Coordinator.{Sys, armed, running, request_release}
use old_car_can_driver.MotorAction.{Target, Outcome, accepted, execute_batch, run_batch}
use old_car_can_driver.Lifecycle.{Env, Host, lifecycle_targets_snapshot}
use old_car_can_driver.Lifecycle.Checks.{walk, wait_check, recover_check, motion_check}
use old_car_can_driver.Lifecycle.Waiting.{
  success, failure, enabled_pass, recovered_pass, enable_timeout, wait_until, retry_until,
  wait_for_enabled_targets, verify_recovery, enable_healthy, motion_healthy, enable_healthy_once,
  motion_healthy_once,
}
use old_car_can_driver.Lifecycle.Operations.{enable_all, recover_all}
use old_car_can_driver.Lifecycle.Runtime.{Hooks, Runtime, driver_ops, initialize_lifecycle_device}
use old_car_can_driver.Lifecycle.Deadlines.{waits_end}
use old_car_can_driver.Lifecycle.Confirmed.{IsUp, IsRunnable, IsRecovered}
use old_car_can_driver.Lifecycle.Enabled.{enable_all_confirmed}
use old_car_can_driver.Lifecycle.Recovered.{recover_all_confirmed}
use old_car_can_driver.Lifecycle.Released.{released-IsRunnable}
use old_car_can_driver.Lifecycle.Rollback.{naps, disabled, given_up_in, enable_all_rolled_back}
use old_car_can_driver.Lifecycle.Optional.{absent_device_blocks_enable}

record Bench : Type 0 where
  pub clock : ℕ
  pub state : SharedDriverState

abbrev motor : Target
motor = record { name = "left_wheel"; can_device = "can0"; protocol = mt; motor_id = 0x141 }

abbrev absent : Target
absent = record { name = "gripper"; can_device = "can1"; protocol = mt; motor_id = 0x142 }

-- The motor answers, and says whether it is enabled.
abbrev answering : Bool → AxisFeedbackState → AxisFeedbackState
answering on v = record v {
  enabled = on;
  enabled_valid = true;
  fault = false;
  fault_valid = true;
  feedback_seen = true;
  last_rx_steady_ns = 1;
}

abbrev answers : Bool → ℕ → Bench → Outcome × Bench
answers on id w = (
  accepted,
  record w { state = mutate_axis_feedback (make_axis_key "can0" mt id) (answering on) w.state },
)

abbrev bench : Env ℕ Bench
bench = record {
  manager = some (record {
    is_device_ready = λ device w. string_eq.beq device "can0";
    get_protocol = λ device type w. some 0;
    has_device_mutex = λ device w. true;
  });
  has_executor = true;
  shared = λ w. some w.state;
  enable = λ p. answers true;
  disable = λ p. answers false;
  stop = λ p. answers true;
  reset_fault = λ p. answers true;
  has_fault = λ p id w. false;
  is_enabled = λ p id w. true;
  init_device = λ device motors loopback w. (true, w);
  shutdown_device = λ device w. w;
  shutdown_all = λ w. w;
  now = λ w. w.clock;
  sleep = λ ns w. record {
    clock = w.clock + ns;
    state =
        mutate_axis_feedback (make_axis_key "can0" mt 0x141)
          (λ v. record v { last_rx_steady_ns = w.clock + ns }) w.state;
  };
}

abbrev host_with : List Target → Host Bench
host_with targets = record {
  driver = record {
    targets = targets;
    active_targets = [];
    axis_recover_trackers = [];
    config = default_config;
  };
  world = record {
    clock = 1000;
    state = mutate_device_health "can0" (λ h. record h { transport_ready = true }) empty_state;
  };
}

enable_all_confirmed_example :
    let after = (enable_all bench (host_with (motor ∷ []))).1 in
    All (IsUp bench after.driver.config after.world) (motor ∷ [])
unfolding lifecycle_targets_snapshot run_batch walk wait_check get_axis_feedback get_axis_command
    get_device_health get_axis_intent find mutate_axis_feedback mutate_device_health insert codes_eq
    make_axis_key evaluate_axis_readiness evaluate recompute_axis_observed_locked enable_all
enable_all_confirmed_example = enable_all_confirmed bench (host_with (motor ∷ [])) refl

recover_all_confirmed_example :
    let after = (recover_all bench (host_with (motor ∷ []))).1 in
    All (IsRecovered bench after.driver.config after.world) (motor ∷ [])
unfolding lifecycle_targets_snapshot run_batch walk recover_check get_axis_feedback get_axis_command
    get_device_health get_axis_intent find mutate_axis_feedback mutate_device_health insert codes_eq
    make_axis_key evaluate_axis_readiness evaluate recompute_axis_observed_locked confirm_cycles
    track recover_all
recover_all_confirmed_example = recover_all_confirmed bench (host_with (motor ∷ [])) refl

abbrev wired : Hooks ℕ Bench
wired = record {
  startup_query_hz = none;
  zero_hz = 0;
  set_device_refresh_rate = none;
  apply_persisted_pp_zero_offsets = none;
  sync_startup_position_and_commands = some (λ device w. (true, w));
  apply_pp_default_velocities = some (λ device w. (true, w));
  apply_initial_modes = some (λ device w. (true, w));
  recover_devices = none;
  clear_command_state = none;
  enable_healthy = none;
  motion_healthy = none;
  hold_commands = λ w. w;
  arm_fresh_command_latch = λ w. record w { clock = w.clock + 1 };
}

abbrev runtime_with : List Target → Host Bench → Runtime Bench
runtime_with targets h = record { active = true; device_loopback_by_name = []; host = h }

-- The motor is enabled, and the system armed.
abbrev armed_system : Sys (Runtime Bench)
armed_system = record {
  mode = armed;
  world = runtime_with (motor ∷ []) (record (host_with (motor ∷ [])) {
    world = (answers true 0x141 (host_with (motor ∷ [])).world).1;
  });
}

released-IsRunnable_example :
    let after = (request_release (driver_ops bench wired) armed_system).1 in
    (h : Host Bench) × All
      (IsRunnable bench h.driver.config h.world)
      (lifecycle_targets_snapshot h.driver)
    × (after.mode ≡ running)
    × (after.world.host ≡ record h { world = wired.arm_fresh_command_latch h.world })
unfolding driver_ops request_release motion_healthy walk motion_check get_axis_feedback
    get_axis_command get_device_health get_axis_intent find mutate_axis_feedback
    mutate_device_health insert codes_eq make_axis_key evaluate_axis_readiness evaluate
    recompute_axis_observed_locked lifecycle_targets_snapshot
released-IsRunnable_example = released-IsRunnable bench wired armed_system refl refl refl

-- `can1` is not there, so the enabling of the motor is taken back.
enable_all_rolled_back_example :
    let h = host_with (motor ∷ absent ∷ []) in
    let (r, w) = execute_batch bench.manager (some bench.enable) (motor ∷ absent ∷ []) h.world in
    ((enable_all bench h).1.world
      ≡ disabled bench r.succeeded_targets (given_up_in bench (motor ∷ absent ∷ []) h))
    × ((n : ℕ) × (given_up_in bench (motor ∷ absent ∷ []) h ≡ naps bench n w))
unfolding enable_all run_batch lifecycle_targets_snapshot
enable_all_rolled_back_example =
    enable_all_rolled_back bench (host_with (motor ∷ absent ∷ [])) refl refl refl

-- None took the command, so nothing is taken back.
none_taken :
    (enable_all bench (host_with (absent ∷ []))).1.world
    ≡ (execute_batch bench.manager
        (some bench.enable)
        (absent ∷ [])
        (host_with (absent ∷ [])).world).1
unfolding enable_all run_batch lifecycle_targets_snapshot
none_taken = refl

absent_device_blocks_enable_example :
    let r = runtime_with [] (host_with (motor ∷ absent ∷ [])) in
    let started = (initialize_lifecycle_device bench wired "can0,optional:can1" false r).1 in
    (enable_all bench started.host).0.ok ≡ false
absent_device_blocks_enable_example =
    absent_device_blocks_enable bench wired "can0,optional:can1" false
      (runtime_with [] (host_with (motor ∷ absent ∷ []))) (motor ∷ []) absent [] refl refl
      (λ w. refl)

waits_end_example :
    let h = host_with (motor ∷ []) in
    (wait_until bench 50
        (1000 + 2000000000)
        (enabled_pass bench (motor ∷ []))
        (success "enabled (armed)")
        enable_timeout
        ""
        h
      ≡ wait_for_enabled_targets bench (motor ∷ []) 2000000000 h)
    × (wait_until bench 50
          (1000 + 2000000000)
          (recovered_pass bench (motor ∷ []))
          (success "")
          (λ d. failure "Recover timeout: fault still active.")
          ""
          h
        ≡ verify_recovery bench (motor ∷ []) h)
    × (retry_until bench 50 (1000 + 750000000) (enable_healthy_once bench) h
        ≡ enable_healthy bench h)
    × (retry_until bench 50 (1000 + 1250000000) (motion_healthy_once bench) h
        ≡ motion_healthy bench h)
waits_end_example =
    waits_end bench (λ ns w. omega arith) 50 (host_with (motor ∷ [])) (motor ∷ []) 2000000000
      (omega arith) (omega arith)
