-- ===== src/Lifecycle/Released.antt =====
-- The coordinator on the driver operations: src/CanDriverRuntime.cpp hands the operations of
-- src/lifecycle_driver_ops.cpp to src/operational_coordinator.cpp.
use old_car_can_driver.Prelude.{
  ℕ, zero, suc, ◌+◌, String, Bool, true, not, ◌||◌, ◌≡◌, refl, sym, ◌∙◌, ap, All, arith, Option,
  none, some, leb, Bool-cases, inl, inr,
}
use old_car_can_driver.Coordinator.{
  Result, Sys, DriverOps, armed, running, standby, request_release, request_enable,
}
use old_car_can_driver.Lifecycle.{Env, Host, lifecycle_targets_snapshot}
use old_car_can_driver.Lifecycle.Checks.{Verdict, healthy, unhealthy, aborted, motion_check}
use old_car_can_driver.Lifecycle.Waiting.{
  pass, told, rounds_for, retry_until, retryable, nap, motion_healthy_once, motion_healthy,
}
use old_car_can_driver.Lifecycle.Runtime.{Hooks, Runtime, driver_ops, hooked, gated}
use old_car_can_driver.Lifecycle.Walks.{walk-healthy}
use old_car_can_driver.Lifecycle.Confirmed.{IsRunnable}
use old_car_can_driver.Lifecycle.Healthy.{All-map, motion_check-IsRunnable}

told-fine :
    {W : Type 0} (v : Verdict) (h : Host W)
    → (told (v, h)).0 ≡ true
    → (v ≡ healthy) × ((told (v, h)).2 ≡ h)
told-fine healthy h e = (refl, refl)
told-fine (unhealthy d) h e = absurd (ground (arith, e))
told-fine (aborted d) h e = absurd (ground (arith, e))

module _ {P W : Type 0} (env : Env P W) where
  abbrev AllRunnable : Host W → Type 0
  AllRunnable h = All (IsRunnable env h.driver.config h.world) (lifecycle_targets_snapshot h.driver)

  once-Runnable :
      (h : Host W)
      → (motion_healthy_once env h).0 ≡ true
      → AllRunnable (motion_healthy_once env h).2
  unfolding motion_healthy_once lifecycle_targets_snapshot
  once-Runnable h fine =
      let check = motion_check env h.driver.config h.world in
      let targets = lifecycle_targets_snapshot h.driver in
      let (v, u) = pass env check targets h in
      let (e, same) = told-fine v u fine in
      rw same (
        All-map _ _ targets (motion_check-IsRunnable env h.driver.config h.world)
          (walk-healthy check targets h.driver.axis_recover_trackers e))

  -- What a check establishes whenever it passes, a check that is tried again establishes too.
  retry-fine :
      (Q : Host W → Type 0) (deadline : ℕ) (once : Host W → Bool × String × Host W)
      → ((h : Host W) → (once h).0 ≡ true → Q (once h).2)
      → (f : ℕ) (h : Host W) → (retry_until env f deadline once h).0 ≡ true
      → Q (retry_until env f deadline once h).2
  unfolding retry_until
  retry-fine Q deadline once shows zero h fine = shows h fine
  retry-fine Q deadline once shows (suc f) h fine =
      let t = (once h).2 in
      elim (Bool-cases
        ((once h).0 || not (retryable (once h).1) || leb deadline (env.now t.world))) [
          | inl e ↦ rw (e, retry_until) (shows h (rw (e, retry_until) at fine))
          | inr e ↦
              rw (e, retry_until)
                (retry-fine Q deadline once shows f (nap env t) (rw (e, retry_until) at fine))
        ]

  pub motion_healthy-AllRunnable :
      (h : Host W) → (motion_healthy env h).0 ≡ true → AllRunnable (motion_healthy env h).2
  unfolding motion_healthy
  motion_healthy-AllRunnable h fine =
      retry-fine AllRunnable (env.now h.world + 1250000000) (motion_healthy_once env) once-Runnable
        (rounds_for 1250000000) h fine

release_of :
    {V : Type 0} (ops : DriverOps V) (f : Sys V → Bool × String × Sys V) (g : Sys V → Sys V)
    (s : Sys V)
    → s.mode ≡ armed
    → ops.motion_healthy ≡ some f
    → ops.arm_fresh_command_latch ≡ some g
    → (request_release ops s).0.ok ≡ true
    → ((f s).0 ≡ true) × ((request_release ops s).1 ≡ record (g (f s).2) { mode = running })
unfolding request_release
release_of ops f g s mode checks arms good = ground arith

enable_of :
    {V : Type 0} (ops : DriverOps V) (f : Sys V → Bool × String × Sys V)
    (e : Sys V → Result × Sys V) (hold arm : Sys V → Sys V) (s : Sys V)
    → s.mode ≡ standby
    → ops.enable_healthy ≡ some f
    → ops.enable_all ≡ some e
    → ops.hold_commands ≡ some hold
    → ops.arm_fresh_command_latch ≡ some arm
    → (request_enable ops s).0.ok ≡ true
    → ((e (f s).2).0.ok ≡ true)
      × ((request_enable ops s).1 ≡ record (arm (hold (e (f s).2).1)) { mode = armed })
unfolding request_enable
enable_of ops f e hold arm s mode checks enables holds arms good = ground arith

module _ {P R W : Type 0} (env : Env P W) (hooks : Hooks R W) (s : Sys (Runtime W)) where
  hooked-host :
      (o : Option (W → Bool × String × W)) (f : Host W → Bool × String × Host W)
      → o ≡ none
      → ((hooked env hooks o f s).0 ≡ (f s.world.host).0)
        × ((hooked env hooks o f s).2.world.host ≡ (f s.world.host).2)
  hooked-host none f e = (refl, refl)
  hooked-host (some g) f e = absurd (cc)

  -- When the hardware interface passes no motion check of its own, a release request that
  -- succeeds from Armed, on the operations that the runtime hands to the coordinator, ends in
  -- Running; the fresh-command latch was armed in a world in which each lifecycle target's
  -- device was ready and the target, if there was feedback of it, was reporting recently, in no
  -- series of timeouts, without a fault and enabled, where a value that was not known had been
  -- asked of the protocol or, for the mode, taken as commanded; a target without feedback had no
  -- fault by its protocol.
  pub released-IsRunnable :
      s.mode ≡ armed
      → hooks.motion_healthy ≡ none
      → (request_release (driver_ops env hooks) s).0.ok ≡ true
      → let after = (request_release (driver_ops env hooks) s).1 in
        (h : Host W) × All
          (IsRunnable env h.driver.config h.world)
          (lifecycle_targets_snapshot h.driver)
        × (after.mode ≡ running)
        × (after.world.host ≡ record h { world = hooks.arm_fresh_command_latch h.world })
  unfolding driver_ops
  released-IsRunnable mode plain good =
      let (fine, ends) =
        release_of (driver_ops env hooks)
          (hooked env hooks hooks.motion_healthy (motion_healthy env))
          (gated env hooks hooks.arm_fresh_command_latch) s mode refl refl good in
      let h = (motion_healthy env s.world.host).2 in
      (
        h,
        motion_healthy-AllRunnable env s.world.host
            (sym (hooked-host hooks.motion_healthy (motion_healthy env) plain).0 ∙ fine),
        ap (λ (t : Sys (Runtime W)). t.mode) ends,
        ap (λ (t : Sys (Runtime W)). t.world.host) ends
            ∙ ap (λ (k : Host W). record k { world = hooks.arm_fresh_command_latch k.world })
                (hooked-host hooks.motion_healthy (motion_healthy env) plain).1,
      )
