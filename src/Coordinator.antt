-- ===== src/Coordinator.antt =====
-- The lifecycle state machine: src/operational_coordinator.cpp and
-- include/can_driver/operational_coordinator.hpp.
-- `Sys` is what the calls act on: the atomic mode and the world behind the driver operations. A
-- driver operation is a std::function that may be empty, so it is an `Option`, and it takes the
-- whole `Sys`: what other threads do to the mode while it runs is part of its effect. Log lines
-- are left out. A request returns its `Result` and the state after it.
pub mod Session
pub mod Transitions
pub mod Traces
pub mod Safety
pub mod Races
mod Scenarios
use old_car_can_driver.Prelude.{
  ℕ, String, Bool, true, false, not, ◌&&◌, ◌||◌, Option, none, some, List, [], ◌∷◌, map, ◌==◌,
  if◌then◌else◌, is_empty, any,
}
use Prim.Native.String.{◌++◌ as concat}
use mathlib.Core.Option

pub data SystemOpMode : Type 0 where
  inactive configured standby armed running faulted recovering shutting_down : SystemOpMode

unfoldable pub system_op_mode_name : SystemOpMode → String
system_op_mode_name inactive = "Inactive"
system_op_mode_name configured = "Configured"
system_op_mode_name standby = "Standby"
system_op_mode_name armed = "Armed"
system_op_mode_name running = "Running"
system_op_mode_name faulted = "Faulted"
system_op_mode_name recovering = "Recovering"
system_op_mode_name shutting_down = "ShuttingDown"

-- The enumerator's value, by which modes are compared.
abbrev pub mode_code : SystemOpMode → ℕ
mode_code inactive = 0
mode_code configured = 1
mode_code standby = 2
mode_code armed = 3
mode_code running = 4
mode_code faulted = 5
mode_code recovering = 6
mode_code shutting_down = 7

abbrev pub mode_eq : SystemOpMode → SystemOpMode → Bool
mode_eq a b = mode_code a == mode_code b

pub record Result : Type 0 where
  pub ok : Bool
  pub message : String

pub record Sys (W : Type 0) : Type 0 where
  pub mode : SystemOpMode
  pub world : W

-- Health checks write their out-parameter: the text is what it holds afterwards.
pub record DriverOps (W : Type 0) : Type 0 where
  pub init_device : Option (String → Bool → Sys W → Result × Sys W)
  pub enable_all : Option (Sys W → Result × Sys W)
  pub disable_all : Option (Sys W → Result × Sys W)
  pub halt_all : Option (Sys W → Result × Sys W)
  pub recover_all : Option (Sys W → Result × Sys W)
  pub shutdown_all : Option (Bool → Sys W → Result × Sys W)
  pub enable_healthy : Option (Sys W → Bool × String × Sys W)
  pub motion_healthy : Option (Sys W → Bool × String × Sys W)
  pub any_fault_active : Option (Sys W → Bool)
  pub hold_commands : Option (Sys W → Sys W)
  pub arm_fresh_command_latch : Option (Sys W → Sys W)

abbrev override : String → String → String
override message detail = if is_empty message then detail else message

refuse : SystemOpMode → SystemOpMode → Result
refuse current to =
    if mode_eq current to
    then record { ok = true; message = concat "already " (system_op_mode_name to) }
    else record {
      ok = false;
      message =
          concat "cannot transition from "
            (concat (system_op_mode_name current) (concat " to " (system_op_mode_name to)));
    }

abbrev every_mode : List SystemOpMode
every_mode =
    inactive ∷ configured ∷ standby ∷ armed ∷ running ∷ faulted ∷ recovering ∷ shutting_down ∷ []

module _ {W : Type 0} where
  abbrev pub store : SystemOpMode → Sys W → Sys W
  store m s = record s { mode = m }

  abbrev call_if : Option (Sys W → Sys W) → Sys W → Sys W
  call_if none s = s
  call_if (some f) s = f s

  -- A check that is absent passes and leaves the detail empty.
  abbrev check : Option (Sys W → Bool × String × Sys W) → Sys W → Bool × String × Sys W
  check none s = (true, "", s)
  check (some f) s = f s

  -- `if (!op) …; result = op(); if (!result.ok) …`, then the calls on success.
  attempt :
      Option (Sys W → Result × Sys W)
      → String
      → (Sys W → Sys W)
      → String
      → Sys W
      → Bool × String × Sys W
  attempt none missing after detail s = (false, missing, s)
  attempt (some f) missing after detail s =
      let (r, t) = f s in
      if r.ok then (true, override r.message detail, after t) else (false, r.message, t)

  hold_and_latch : DriverOps W → Sys W → Sys W
  hold_and_latch ops s = call_if ops.arm_fresh_command_latch (call_if ops.hold_commands s)

  commit : SystemOpMode → Bool × String × Sys W → Result × Sys W
  commit to (done, detail, s) =
      if done
      then (
        record { ok = true; message = override detail (concat "-> " (system_op_mode_name to)) },
        store to s,
      )
      else (record { ok = false; message = override detail "action failed" }, s)

  -- Every caller passes an action.
  do_transition :
      List SystemOpMode → SystemOpMode → (Sys W → Bool × String × Sys W) → Sys W → Result × Sys W
  unfolding commit refuse
  do_transition allowed to action s =
      if any (mode_eq s.mode) allowed then commit to (action s) else (refuse s.mode to, s)

  unfoldable pub revalidate_armed_enable : DriverOps W → Sys W → Result × Sys W
  revalidate_armed_enable ops s =
      let (healthy, detail, t) = check ops.motion_healthy s in
      if healthy
      then (record { ok = true; message = "already Armed" }, t)
      else (record { ok = false; message = override detail "armed enable validation failed" }, t)

  init_action : DriverOps W → String → Bool → Sys W → Bool × String × Sys W
  unfolding attempt hold_and_latch
  init_action ops device loopback =
      attempt (Option.map (λ f. f device loopback) ops.init_device) "init path not available"
        (hold_and_latch ops) ""

  unfoldable pub request_init : DriverOps W → String → Bool → Sys W → Result × Sys W
  unfolding do_transition init_action
  request_init ops device loopback =
      do_transition (configured ∷ []) standby (init_action ops device loopback)

  enable_action : DriverOps W → Sys W → Bool × String × Sys W
  unfolding attempt hold_and_latch
  enable_action ops s =
      let (healthy, detail, t) = check ops.enable_healthy s in
      if healthy
      then attempt ops.enable_all "enable path not available" (hold_and_latch ops) detail t
      else (false, detail, t)

  unfoldable pub request_enable : DriverOps W → Sys W → Result × Sys W
  unfolding do_transition enable_action revalidate_armed_enable
  request_enable ops s =
      if mode_eq s.mode armed
      then revalidate_armed_enable ops s
      else do_transition (standby ∷ []) armed (enable_action ops) s

  disable_action : DriverOps W → Sys W → Bool × String × Sys W
  unfolding attempt
  disable_action ops s =
      attempt ops.disable_all "disable path not available" (λ t. t) "" (call_if ops.hold_commands s)

  unfoldable pub request_disable : DriverOps W → Sys W → Result × Sys W
  unfolding do_transition disable_action
  request_disable ops = do_transition (standby ∷ armed ∷ running ∷ []) standby (disable_action ops)

  release_action : DriverOps W → Sys W → Bool × String × Sys W
  release_action ops s =
      let (healthy, detail, t) = check ops.motion_healthy s in
      if healthy then (true, detail, call_if ops.arm_fresh_command_latch t) else (false, detail, t)

  unfoldable pub request_release : DriverOps W → Sys W → Result × Sys W
  unfolding do_transition release_action
  request_release ops = do_transition (armed ∷ []) running (release_action ops)

  halt_action : DriverOps W → Sys W → Bool × String × Sys W
  unfolding attempt
  halt_action ops s =
      attempt ops.halt_all "halt path not available" (λ t. t) "" (call_if ops.hold_commands s)

  unfoldable pub request_halt : DriverOps W → Sys W → Result × Sys W
  unfolding do_transition halt_action
  request_halt ops = do_transition (running ∷ []) armed (halt_action ops)

  -- A failed attempt stores the mode `m`.
  restore_on_failure : SystemOpMode → Bool × String × Sys W → Bool × String × Sys W
  restore_on_failure m (done, detail, s) =
      if done then (true, detail, s) else (false, detail, store m s)

  recover_action : DriverOps W → Sys W → Bool × String × Sys W
  unfolding attempt hold_and_latch restore_on_failure
  recover_action ops s = restore_on_failure faulted (
      attempt ops.recover_all "recover path not available" (hold_and_latch ops) ""
        (store recovering s))

  unfoldable pub request_recover : DriverOps W → Sys W → Result × Sys W
  unfolding do_transition recover_action
  request_recover ops = do_transition (faulted ∷ []) standby (recover_action ops)

  -- The mode is stored whether the attempt succeeds or not.
  store_after : SystemOpMode → Bool × String × Sys W → Bool × String × Sys W
  store_after m (done, detail, s) = (done, detail, store m s)

  shutdown_action : DriverOps W → Bool → Sys W → Bool × String × Sys W
  unfolding attempt store_after
  shutdown_action ops force s = store_after configured (
      attempt (Option.map (λ f. f force) ops.shutdown_all) "shutdown path not available" (λ t. t) ""
        (store shutting_down s))

  unfoldable pub request_shutdown : DriverOps W → Bool → Sys W → Result × Sys W
  unfolding do_transition shutdown_action
  request_shutdown ops force = do_transition every_mode configured (shutdown_action ops force)

  -- The compare-and-exchange of an uninterrupted call succeeds.
  unfoldable pub update_from_feedback : Bool → Sys W → Sys W
  update_from_feedback unhealthy s =
      if unhealthy && (mode_eq s.mode armed || mode_eq s.mode running) then store faulted s else s

  unfoldable pub force_mode : SystemOpMode → Sys W → Sys W
  force_mode to s = store to s
