-- ===== src/Coordinator/Safety.antt =====
-- What a request of operational_coordinator.cpp does beside moving the mode: a refused one does
-- nothing, a successful one holds the commands and arms the latch. And a fault that is lost.
use old_car_can_driver.Prelude.{
  String, ◌≡◌, refl, Bool, true, false, Option, none, some, List, [], ◌∷◌, arith, if_cases, any,
}
use old_car_can_driver.Coordinator.{
  SystemOpMode, configured, standby, armed, running, faulted, recovering, mode_eq, Result, Sys,
  DriverOps, store, call_if, check, attempt, hold_and_latch, commit, refuse, do_transition,
  revalidate_armed_enable, init_action, enable_action, disable_action, halt_action, recover_action,
  shutdown_action, release_action, request_init, request_enable, request_disable, request_release,
  request_halt, request_recover, request_shutdown, every_mode,
}
use old_car_can_driver.Coordinator.Session.{
  Request, init, enable, disable, release, halt, recover, shutdown, target, allowed_from, serve,
}
use mathlib.Core.Option

module _ {W : Type 0} (ops : DriverOps W) where
  do_transition_refused :
      (allowed : List SystemOpMode) (to : SystemOpMode) (action : Sys W → Bool × String × Sys W)
      (s : Sys W)
      → any (mode_eq s.mode) allowed ≡ false
      → mode_eq s.mode to ≡ false
      → ((do_transition allowed to action s).1 ≡ s)
        × ((do_transition allowed to action s).0.ok ≡ false)
  unfolding do_transition
  do_transition_refused allowed to action s h k = rw h (rw k (refl, refl))

  -- Whatever the driver operations are, a request that is not allowed in the current mode, and
  -- whose target is another mode, fails and changes nothing: neither the mode nor the world, so
  -- no driver operation was called.
  pub serve_refused :
      (r : Request) (s : Sys W)
      → any (mode_eq s.mode) (allowed_from r) ≡ false
      → mode_eq s.mode (target r) ≡ false
      → ((serve ops r s).1 ≡ s) × ((serve ops r s).0.ok ≡ false)
  unfolding serve request_init request_enable request_disable request_release request_halt
      request_recover request_shutdown
  serve_refused (init device loopback) s h k =
      do_transition_refused (configured ∷ []) standby (init_action ops device loopback) s h k
  serve_refused enable s h k =
      if_cases (λ x. (x.1 ≡ s) × (x.0.ok ≡ false)) (mode_eq s.mode armed)
        (revalidate_armed_enable ops s) (do_transition (standby ∷ []) armed (enable_action ops) s)
        (λ e. cc) (λ _. do_transition_refused (standby ∷ []) armed (enable_action ops) s h k)
  serve_refused disable s h k =
      do_transition_refused (standby ∷ armed ∷ running ∷ []) standby (disable_action ops) s h k
  serve_refused release s h k =
      do_transition_refused (armed ∷ []) running (release_action ops) s h k
  serve_refused halt s h k = do_transition_refused (running ∷ []) armed (halt_action ops) s h k
  serve_refused recover s h k =
      do_transition_refused (faulted ∷ []) standby (recover_action ops) s h k
  serve_refused (shutdown force) s h k =
      do_transition_refused every_mode configured (shutdown_action ops force) s h k

-- What an operation establishes of the world, from what holds before it.
abbrev pub Establishes :
    {W : Type 0} → Option (Sys W → Sys W) → (W → Type 0) → (W → Type 0) → Type 0
Establishes none P Q = ⊥
Establishes {W} (some f) P Q = (s : Sys W) → P s.world → Q (f s).world

-- The requests that end with `hold_commands` and `arm_fresh_command_latch`.
abbrev pub rearms : Request → Bool
rearms (init device loopback) = true
rearms enable = true
rearms recover = true
rearms _ = false

module _ {W : Type 0} (P : W → Type 0) where
  abbrev DoneWith : Bool × String × Sys W → Type 0
  DoneWith a = a.0 ≡ true → P a.2.world

  attempt-DoneWith :
      (f : Option (Sys W → Result × Sys W)) (missing : String) (after : Sys W → Sys W)
      (detail : String) (s : Sys W)
      → ((t : Sys W) → P (after t).world)
      → DoneWith (attempt f missing after detail s)
  unfolding attempt
  attempt-DoneWith none missing after detail s k = λ h. cc
  attempt-DoneWith (some f) missing after detail s k =
      if_cases DoneWith (f s).0.ok _ _ (λ _ _. k (f s).1) (λ _ h. cc)

  commit-DoneWith :
      (to : SystemOpMode) (a : Bool × String × Sys W)
      → DoneWith a
      → (commit to a).0.ok ≡ true
      → P (commit to a).1.world
  unfolding commit
  commit-DoneWith to (true, detail, t) d h = d refl
  commit-DoneWith to (false, detail, t) d h = cc

  do_transition-DoneWith :
      (allowed : List SystemOpMode) (to : SystemOpMode) (action : Sys W → Bool × String × Sys W)
      (s : Sys W)
      → DoneWith (action s)
      → mode_eq s.mode to ≡ false
      → (do_transition allowed to action s).0.ok ≡ true
      → P (do_transition allowed to action s).1.world
  unfolding do_transition refuse
  do_transition-DoneWith allowed to action s d k =
      if_cases (λ x. x.0.ok ≡ true → P x.1.world) (any (mode_eq s.mode) allowed)
        (commit to (action s)) (refuse s.mode to, s) (λ _. commit-DoneWith to (action s) d)
        (λ _ h. cc)

module _ {W : Type 0} (ops : DriverOps W) (Held Latched : W → Type 0)
    (holds : Establishes ops.hold_commands (λ _. Unit) Held)
    (latches : Establishes ops.arm_fresh_command_latch Held (λ w. Held w × Latched w)) where
  hold_and_latch_lem :
      (s : Sys W) → Held (hold_and_latch ops s).world × Latched (hold_and_latch ops s).world
  unfolding hold_and_latch
  hold_and_latch_lem = both ops.hold_commands ops.arm_fresh_command_latch holds latches
    where
      both :
          (h a : Option (Sys W → Sys W))
          → Establishes h (λ _. Unit) Held
          → Establishes a Held (λ w. Held w × Latched w)
          → (s : Sys W)
          → Held (call_if a (call_if h s)).world × Latched (call_if a (call_if h s)).world
      both none a x y s = absurd x
      both (some h) none x y s = absurd y
      both (some h) (some a) x y s = y (h s) (x s tt)

  abbrev Safe : W → Type 0
  Safe w = Held w × Latched w

  enable_action-DoneWith : (s : Sys W) → DoneWith Safe (enable_action ops s)
  unfolding enable_action
  enable_action-DoneWith s =
      let checked = check ops.enable_healthy s in
      if_cases (DoneWith Safe) checked.0
        (attempt ops.enable_all "enable path not available" (hold_and_latch ops) checked.1
          checked.2)
        (false, checked.1, checked.2)
        (λ _.
          attempt-DoneWith Safe ops.enable_all "enable path not available" (hold_and_latch ops)
            checked.1 checked.2 hold_and_latch_lem)
        (λ _ h. cc)

  recover_action-DoneWith : (s : Sys W) → DoneWith Safe (recover_action ops s)
  unfolding recover_action
  recover_action-DoneWith s = ground (
    arith,
    attempt-DoneWith Safe ops.recover_all "recover path not available" (hold_and_latch ops) ""
        (store recovering s) hold_and_latch_lem,
  )

  -- When the hold operation leaves the commands held, the latch operation leaves the latch armed
  -- and the commands held, an init, enable or recover that succeeds from a mode other than its
  -- target ends with the commands held and the fresh-command latch armed.
  pub serve_rearms :
      (r : Request) (s : Sys W)
      → rearms r ≡ true
      → mode_eq s.mode (target r) ≡ false
      → (serve ops r s).0.ok ≡ true
      → Held (serve ops r s).1.world × Latched (serve ops r s).1.world
  unfolding serve request_init request_enable request_recover init_action
  serve_rearms (init device loopback) s q k =
      do_transition-DoneWith Safe (configured ∷ []) standby (init_action ops device loopback) s
        (attempt-DoneWith Safe (Option.map (λ f. f device loopback) ops.init_device)
          "init path not available" (hold_and_latch ops) "" s hold_and_latch_lem)
        k
  serve_rearms enable s q k =
      if_cases (λ x. x.0.ok ≡ true → Safe x.1.world) (mode_eq s.mode armed)
        (revalidate_armed_enable ops s) (do_transition (standby ∷ []) armed (enable_action ops) s)
        (λ e. cc)
        (λ _.
          do_transition-DoneWith Safe (standby ∷ []) armed (enable_action ops) s
            (enable_action-DoneWith s) k)
  serve_rearms recover s q k =
      do_transition-DoneWith Safe (faulted ∷ []) standby (recover_action ops) s
        (recover_action-DoneWith s) k
  serve_rearms disable s q k = λ h. cc
  serve_rearms release s q k = λ h. cc
  serve_rearms halt s q k = λ h. cc
  serve_rearms (shutdown force) s q k = λ h. cc
