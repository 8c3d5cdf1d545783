-- ===== src/Coordinator/Transitions.antt =====
-- Where each request can take the mode (operational_coordinator.cpp), and what a request that is
-- not allowed does.
use old_car_can_driver.Prelude.{
  String, ◌≡◌, ◌⊎◌, Bool, true, false, Option, none, some, List, arith, any,
}
use old_car_can_driver.Coordinator.{SystemOpMode, configured, mode_eq, Result, Sys, DriverOps}
use old_car_can_driver.Coordinator.Session.{Request, shutdown}
use mathlib.Core.Option

pub mode_eq→≡ : (a b : SystemOpMode) → mode_eq a b ≡ true → a ≡ b
mode_eq→≡ a b h = ground arith

-- The driver operations leave the mode alone, and so does what runs beside them.
module _ {W : Type 0} where
  abbrev pub Keeps : Option (Sys W → Sys W) → Type 0
  Keeps none = Unit
  Keeps (some f) = (s : Sys W) → (f s).mode ≡ s.mode

  abbrev pub KeepsAction : Option (Sys W → Result × Sys W) → Type 0
  KeepsAction none = Unit
  KeepsAction (some f) = (s : Sys W) → (f s).1.mode ≡ s.mode

  abbrev pub KeepsCheck : Option (Sys W → Bool × String × Sys W) → Type 0
  KeepsCheck none = Unit
  KeepsCheck (some f) = (s : Sys W) → (f s).2.mode ≡ s.mode

  pub record IsQuiet (ops : DriverOps W) : Type 0 where
    pub init_device :
        (device : String) (loopback : Bool)
        → KeepsAction (Option.map (λ f. f device loopback) ops.init_device)
    pub enable_all : KeepsAction ops.enable_all
    pub disable_all : KeepsAction ops.disable_all
    pub halt_all : KeepsAction ops.halt_all
    pub enable_healthy : KeepsCheck ops.enable_healthy
    pub motion_healthy : KeepsCheck ops.motion_healthy
    pub hold_commands : Keeps ops.hold_commands

  -- What a request did to the mode.
  pub data Outcome (allowed : List SystemOpMode) (to on_fail : SystemOpMode) (s : Sys W)
      (r : Result × Sys W) : Type 0 where
    granted :
        r.0.ok ≡ true
        → r.1.mode ≡ to
        → (any (mode_eq s.mode) allowed ≡ true) ⊎ (s.mode ≡ to)
        → Outcome allowed to on_fail s r
    failed : r.0.ok ≡ false → r.1.mode ≡ on_fail → Outcome allowed to on_fail s r

  abbrev FailsIn : SystemOpMode → Bool × String × Sys W → Type 0
  FailsIn m r = r.0 ≡ false → r.2.mode ≡ m

-- A failed shutdown still ends in Configured; any other failed request leaves the mode.
abbrev pub mode_on_fail : Request → SystemOpMode → SystemOpMode
mode_on_fail (shutdown force) m = configured
mode_on_fail _ m = m
