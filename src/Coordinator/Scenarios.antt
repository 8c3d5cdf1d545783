-- ===== src/Coordinator/Scenarios.antt =====
-- Concrete lives of the coordinator, and the theorems of its modules at them.
use old_car_can_driver.Prelude.{
  ℕ, suc, String, ◌≡◌, refl, Bool, true, false, none, some, List, [], ◌∷◌,
}
use old_car_can_driver.Coordinator.{
  SystemOpMode, armed, running, faulted, Result, Sys, DriverOps, request_release, request_recover,
}
use old_car_can_driver.Coordinator.Session.{
  init, enable, release, recover, serve, Event, request, feedback,
}
use old_car_can_driver.Coordinator.Safety.{serve_refused, serve_rearms}
use old_car_can_driver.Coordinator.Races.{interrupted, release_loses_fault}

record Axes : Type 0 where
  held : Bool
  latched : Bool
  calls : ℕ

abbrev succeed : Sys Axes → Result × Sys Axes
succeed s = (
  record { ok = true; message = "" },
  record s { world = record { held = false; latched = false; calls = suc s.world.calls } },
)

abbrev healthy : Sys Axes → Bool × String × Sys Axes
healthy s = (true, "", s)

abbrev driver : DriverOps Axes
driver = record {
  init_device = some (λ device loopback. succeed);
  enable_all = some succeed;
  disable_all = some succeed;
  halt_all = some succeed;
  recover_all = some succeed;
  shutdown_all = some (λ force. succeed);
  enable_healthy = some healthy;
  motion_healthy = some healthy;
  any_fault_active = none;
  hold_commands = some (λ s. record s {
    world = record { held = true; latched = s.world.latched; calls = s.world.calls };
  });
  arm_fresh_command_latch = some (λ s. record s {
    world = record { held = s.world.held; latched = true; calls = s.world.calls };
  });
}

abbrev idle : Axes
idle = record { held = false; latched = false; calls = 0 }

abbrev at : SystemOpMode → Sys Axes
at m = record { mode = m; world = idle }

abbrev morning : List Event
morning =
    request (init "can0" false)
    ∷ request enable
    ∷ request release
    ∷ feedback true
    ∷ request recover
    ∷ request enable
    ∷ request release
    ∷ []

serve_refused_example :
    ((serve driver release (at faulted)).1 ≡ at faulted)
    × ((serve driver release (at faulted)).0.ok ≡ false)
serve_refused_example = serve_refused driver release (at faulted) refl refl

serve_rearms_example :
    ((serve driver recover (at faulted)).1.world.held ≡ true)
    × ((serve driver recover (at faulted)).1.world.latched ≡ true)
unfolding serve request_recover
serve_rearms_example =
    serve_rearms driver (λ w. w.held ≡ true) (λ w. w.latched ≡ true) (λ s _. refl)
      (λ s h. (h, refl)) recover (at faulted) refl refl refl

abbrev watched : DriverOps Axes
watched = record driver { motion_healthy = some (interrupted healthy) }

release_loses_fault_example :
    ((interrupted healthy (at armed)).2.mode ≡ faulted)
    × ((request_release watched (at armed)).0.ok ≡ true)
    × ((request_release watched (at armed)).1.mode ≡ running)
release_loses_fault_example = release_loses_fault watched healthy (at armed) refl refl refl refl
