-- ===== src/Coordinator/Session.antt =====
-- The calls that reach the coordinator, as data, and a sequence of them.
use old_car_can_driver.Prelude.{String, Bool, List, [], ◌∷◌}
use old_car_can_driver.Coordinator.{
  SystemOpMode, inactive, configured, standby, armed, running, faulted, Result, Sys, DriverOps,
  every_mode, request_init, request_enable, request_disable, request_release, request_halt,
  request_recover, request_shutdown, update_from_feedback, force_mode,
}

pub data Request : Type 0 where
  init : String → Bool → Request
  enable disable release halt recover : Request
  shutdown : Bool → Request

-- The mode that a successful request reaches, and the modes from which it is allowed.
abbrev pub target : Request → SystemOpMode
target (init device loopback) = standby
target enable = armed
target disable = standby
target release = running
target halt = armed
target recover = standby
target (shutdown force) = configured

abbrev pub allowed_from : Request → List SystemOpMode
allowed_from (init device loopback) = configured ∷ []
allowed_from enable = standby ∷ []
allowed_from disable = standby ∷ armed ∷ running ∷ []
allowed_from release = armed ∷ []
allowed_from halt = running ∷ []
allowed_from recover = faulted ∷ []
allowed_from (shutdown force) = every_mode

-- Calls from the services, the control loop and the node's start and stop.
pub data Event : Type 0 where
  request : Request → Event
  feedback : Bool → Event
  set_inactive set_configured set_faulted : Event

module _ {W : Type 0} where
  unfoldable pub serve : DriverOps W → Request → Sys W → Result × Sys W
  unfolding request_init request_enable request_disable request_release request_halt request_recover
      request_shutdown
  serve ops (init device loopback) s = request_init ops device loopback s
  serve ops enable s = request_enable ops s
  serve ops disable s = request_disable ops s
  serve ops release s = request_release ops s
  serve ops halt s = request_halt ops s
  serve ops recover s = request_recover ops s
  serve ops (shutdown force) s = request_shutdown ops force s

  unfoldable pub step : DriverOps W → Event → Sys W → Sys W
  unfolding update_from_feedback force_mode
  step ops (request r) s = (serve ops r s).1
  step ops (feedback unhealthy) s = update_from_feedback unhealthy s
  step ops set_inactive s = force_mode inactive s
  step ops set_configured s = force_mode configured s
  step ops set_faulted s = force_mode faulted s

  unfoldable pub run : DriverOps W → List Event → Sys W → Sys W
  run ops [] s = s
  run ops (e ∷ es) s = run ops es (step ops e s)
