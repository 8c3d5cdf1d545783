-- ===== src/Gateway.antt =====
-- The lifecycle services: src/lifecycle_service_gateway.cpp. Every handler answers true, so a handler
-- is what it writes to the response and what it does to the coordinator's state. `ready` says that
-- the coordinator's pointer is set.
pub mod Responses
mod Examples
use old_car_can_driver.Prelude.{
  ℕ, String, Bool, true, false, not, Option, none, some, ◌&&◌, ◌==◌, if◌then◌else◌, is_empty,
}
use Prim.Native.Char.{code}
use old_car_can_driver.Coordinator.{
  Result, Sys, DriverOps, request_init, request_enable, request_disable, request_release,
  request_halt, request_recover, request_shutdown,
}

abbrev pub global_recover_motor_id : ℕ
global_recover_motor_id = 0xFFFF

unfoldable pub starts_with : String → String → Bool
starts_with String.[] s = true
starts_with (String.◌∷◌ c p) String.[] = false
starts_with (String.◌∷◌ c p) (String.◌∷◌ d s) = code c == code d && starts_with p s

unfoldable pub is_already_message : String → Bool
unfolding starts_with
is_already_message message = starts_with "already " message

-- `canonical_already` is null where there is none.
unfoldable pub select_success_message : Result → String → Option String → String
unfolding is_already_message
select_success_message result canonical_success canonical_already =
    if is_already_message result.message
    then elim canonical_already [ none ↦ result.message | some text ↦ text ]
    else if not (is_empty canonical_success)
    then canonical_success
    else result.message

unfoldable pub select_failure_message : Result → String → String
select_failure_message result fallback =
    if is_empty result.message then fallback else result.message

pub record Response : Type 0 where
  pub success : Bool
  pub message : String

-- A call of one of the services.
pub data ServiceCall : Type 0 where
  init : String → Bool → ServiceCall
  shutdown : Bool → ServiceCall
  recover : ℕ → ServiceCall
  enable disable halt resume : ServiceCall

abbrev pub not_initialized : Response
not_initialized = record { success = false; message = "lifecycle gateway not initialized" }

module _ {W : Type 0} where
  -- The response to a result, with the texts of the service.
  abbrev pub respond : String → Option String → String → Result × Sys W → Response × Sys W
  respond canonical_success canonical_already fallback (result, s) = (
    record {
      success = result.ok;
      message =
          if result.ok
          then select_success_message result canonical_success canonical_already
          else select_failure_message result fallback;
    },
    s,
  )

  abbrev pub respond_shutdown : Result × Sys W → Response × Sys W
  respond_shutdown (result, s) = (
    record {
      success = result.ok;
      message =
          if result.ok
          then "communication stopped; call ~/init first"
          else select_failure_message result "shutdown failed";
    },
    s,
  )

  unfoldable pub handle : DriverOps W → ServiceCall → Sys W → Response × Sys W
  unfolding select_success_message select_failure_message
  handle ops (init device loopback) s =
      respond "initialized (standby)" (some "already initialized") "init failed"
        (request_init ops device loopback s)
  handle ops (shutdown force) s = respond_shutdown (request_shutdown ops force s)
  handle ops (recover motor_id) s =
      if not (motor_id == global_recover_motor_id)
      then (
        record {
          success = false;
          message = "per-motor recover has been removed; use motor_id=65535 for global recover";
        },
        s,
      )
      else respond "recovered (standby)" none "recover failed" (request_recover ops s)
  handle ops enable s =
      respond "enabled (armed)" (some "already enabled") "enable failed" (request_enable ops s)
  handle ops disable s =
      respond "disabled (standby)" (some "already disabled") "disable failed"
        (request_disable ops s)
  handle ops halt s = respond "halted" (some "already halted") "halt failed" (request_halt ops s)
  handle ops resume s =
      respond "resumed" (some "already running")
        "resume failed; call ~/enable (or ~/recover then ~/enable) first" (request_release ops s)

  unfoldable pub on_call : Bool → DriverOps W → ServiceCall → Sys W → Response × Sys W
  unfolding handle
  on_call ready ops call s = if ready then handle ops call s else (not_initialized, s)
