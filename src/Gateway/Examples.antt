-- ===== src/Gateway/Examples.antt =====
-- A concrete coordinator, and the theorems about src/lifecycle_service_gateway.cpp at it.
use old_car_can_driver.Prelude.{ℕ, true, none, some, ◌≡◌, refl}
use old_car_can_driver.Coordinator.{
  Result, Sys, DriverOps, request_enable, system_op_mode_name, standby, faulted,
}
use old_car_can_driver.Gateway.{recover, enable, handle, on_call}
use old_car_can_driver.Gateway.Responses.{request_of, requested, on_call-serve}

abbrev works : Sys ℕ → Result × Sys ℕ
works s = (record { ok = true; message = "" }, s)

abbrev ops : DriverOps ℕ
ops = record {
  init_device = some (λ device loopback. works);
  enable_all = some works;
  disable_all = some works;
  halt_all = some works;
  recover_all = some works;
  shutdown_all = some (λ force. works);
  enable_healthy = none;
  motion_healthy = none;
  any_fault_active = none;
  hold_commands = none;
  arm_fresh_command_latch = none;
}

abbrev at_rest : Sys ℕ
at_rest = record { mode = standby; world = 0 }

on_call-serve_example :
    ((on_call true ops enable at_rest).0.success, (on_call true ops enable at_rest).1)
    ≡ requested true ops (request_of enable) at_rest
on_call-serve_example = on_call-serve true ops enable at_rest

-- The text for an enabled system, and the refusal of a recovery of one motor.
enabled_text : (on_call true ops enable at_rest).0.message ≡ "enabled (armed)"
unfolding on_call handle request_enable system_op_mode_name
enabled_text = refl

recover_one : (on_call true ops (recover 5) (record at_rest { mode = faulted })).1.mode ≡ faulted
unfolding on_call handle
recover_one = refl
