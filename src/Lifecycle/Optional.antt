-- ===== src/Lifecycle/Optional.antt =====
-- Optional devices (src/CanDriverRuntime.cpp) and the targets of src/lifecycle_driver_ops.cpp: an
-- initialization never chooses active targets, so every enable request wants all of them.
use old_car_can_driver.Prelude.{
  ℕ, String, Bool, true, false, not, ◌||◌, ◌≡◌, refl, ap, ◌∙◌, Option, none, some, List, [], ◌∷◌,
  ◌++◌, arith, if_cases, null, Option-cases, Bool-cases, inl, inr, string_eq, is_empty,
}
use Prim.Native.String.{◌++◌ as concat}
use old_car_can_driver.Coordinator.{Result}
use old_car_can_driver.MotorAction.{Target, Outcome, is_ok, execute}
use old_car_can_driver.MotorAction.Batches.{batch_reports, statuses, failed}
use old_car_can_driver.Lifecycle.{
  Env, Driver, Host, lifecycle_targets_snapshot, without_device, filter_targets_by_device,
  is_device_ready, deactivate_targets_for_device,
}
use old_car_can_driver.Lifecycle.Waiting.{failure}
use old_car_can_driver.Lifecycle.Operations.{
  batch, prepare_device, shutdown_device, enable_all, enable_refused,
}
use old_car_can_driver.Lifecycle.Runtime.{
  Hooks, Runtime, Gathered, on_host, is_some, prepare_lifecycle_device_for_standby,
  shutdown_devices, prepare_devices, initialize_lifecycle_device, set_rate, startup_rate,
  restore_steady_refresh, prepared_by, noted, conclude, note_loopback,
}
use old_car_can_driver.Lifecycle.Runtime.Specs.{specs_of}
use old_car_can_driver.Lifecycle.Enabled.{failure_result-ok, roll_back_if-ok}

-- No target is active, and the targets are these.
abbrev pub Inactive : List Target → Driver → Type 0
Inactive targets d = (d.active_targets ≡ []) × (d.targets ≡ targets)

deactivate-Inactive :
    (device : String) (targets : List Target) (d : Driver)
    → Inactive targets d
    → Inactive targets (deactivate_targets_for_device device d)
unfolding deactivate_targets_for_device without_device
deactivate-Inactive device targets d h = (rw h.0 refl, h.1)

module _ {P R W : Type 0} (env : Env P W) (hooks : Hooks R W) (targets : List Target) where
  abbrev Idle : Runtime W → Type 0
  Idle r = Inactive targets r.host.driver

  shutdown-Idle :
      (device : String) (r : Runtime W) → Idle r → Idle (on_host (shutdown_device env device) r).1
  unfolding shutdown_device
  shutdown-Idle device r h = elim (Option-cases env.manager) [
    | inl e ↦ rw e h
    | inr (manager, e) ↦ rw e (deactivate-Inactive device targets r.host.driver h)
  ]

  rate-Idle :
      (device : String) (rate : W → R) (r : Runtime W)
      → Idle r
      → Idle (set_rate env hooks device rate r)
  rate-Idle device rate r h = elim (Option-cases hooks.set_device_refresh_rate) [
    | inl e ↦ rw e h
    | inr (f, e) ↦ rw e h
  ]

  prepare-driver :
      (device : String) (loopback : Bool) (h : Host W)
      → (prepare_device env device loopback h).1.driver ≡ h.driver
  unfolding prepare_device
  prepare-driver device loopback h = elim (Option-cases env.manager) [
    | inl e ↦ rw e refl
    | inr (manager, e) ↦ rw e (
        if_cases (λ (p : Result × Host W). p.1.driver ≡ h.driver)
          (null (filter_targets_by_device h.driver.targets device)) _ _ (λ _. refl) (λ _. refl))
  ]

  prepare-Idle :
      (device : String) (loopback : Bool) (r : Runtime W)
      → Idle r
      → Idle (on_host (prepare_device env device loopback) r).1
  prepare-Idle device loopback r h = rw (prepare-driver device loopback r.host) h

  step-Idle :
      (device : String) (o : Option (String → W → Bool × W)) (message : String)
      (next : Runtime W → Result × Runtime W) (r : Runtime W)
      → ((u : Runtime W) → Idle u → Idle (next u).1)
      → Idle r
      → Idle (prepared_by env hooks device o message next r).1
  step-Idle device none message next r keep h = keep r h
  step-Idle device (some f) message next r keep h =
      let (done, w) = f device r.host.world in
      let t = record r { host = record r.host { world = w } } in
      if_cases (λ (p : Result × Runtime W). Idle p.1) done (next t)
        (
          failure (concat message device),
          (on_host (shutdown_device env device) (restore_steady_refresh env hooks device t)).1,
        )
        (λ _. keep t h)
        (λ _.
          shutdown-Idle device (restore_steady_refresh env hooks device t)
            (rate-Idle device (λ v. hooks.zero_hz) t h))

  standby-Idle :
      (device : String) (loopback : Bool) (r : Runtime W)
      → Idle r
      → Idle (prepare_lifecycle_device_for_standby env hooks device loopback r).1
  unfolding prepare_lifecycle_device_for_standby
  standby-Idle device loopback r h =
      let t =
        (on_host (prepare_device env device loopback)
          (set_rate env hooks device (startup_rate env hooks) r)).1 in
      let prepared =
        prepare-Idle device loopback (set_rate env hooks device (startup_rate env hooks) r)
          (rate-Idle device (startup_rate env hooks) r h) in
      if_cases (λ (p : Result × Runtime W). Idle p.1)
        (not (is_some hooks.sync_startup_position_and_commands)
          || not (is_some hooks.apply_pp_default_velocities)
          || not (is_some hooks.apply_initial_modes))
        (failure "prepare lifecycle path not available", r) _ (λ _. h)
        (λ _.
          if_cases (λ (p : Result × Runtime W). Idle p.1)
            (not
              (on_host (prepare_device env device loopback)
                (set_rate env hooks device (startup_rate env hooks) r)).0.ok)
            (_, restore_steady_refresh env hooks device t) _
            (λ _. rate-Idle device (λ v. hooks.zero_hz) t prepared)
            (λ _.
              step-Idle device hooks.apply_persisted_pp_zero_offsets _ _ t
                (λ t1 k1.
                  step-Idle device hooks.sync_startup_position_and_commands _ _ t1
                    (λ t2 k2.
                      step-Idle device hooks.apply_pp_default_velocities _ _ t2
                        (λ t3 k3.
                          step-Idle device hooks.apply_initial_modes _ _ t3
                            (λ t4 k4. rate-Idle device (λ v. hooks.zero_hz) t4 k4) k3)
                        k2)
                    k1)
                prepared))

  shutdowns-Idle :
      (devices : List String) (r : Runtime W) → Idle r → Idle (shutdown_devices env hooks devices r)
  unfolding shutdown_devices
  shutdowns-Idle [] r h = h
  shutdowns-Idle (device ∷ devices) r h =
      shutdowns-Idle devices (on_host (shutdown_device env device) r).1 (shutdown-Idle device r h)

  devices-Idle :
      (loopback : Bool) (specs : List (String × Bool)) (g : Gathered) (r : Runtime W)
      → Idle r
      → Idle (prepare_devices env hooks loopback specs g r).2
  unfolding prepare_devices
  devices-Idle loopback [] g r h = h
  devices-Idle loopback ((device, optional) ∷ specs) g r h =
      let (result, t) =
        prepare_lifecycle_device_for_standby env hooks device loopback
          (note_loopback env hooks device loopback r) in
      let ready = standby-Idle device loopback (note_loopback env hooks device loopback r) h in
      elim (Bool-cases (is_empty device)) [
        | inl e ↦ rw (e, prepare_devices) (devices-Idle loopback specs g r h)
        | inr e ↦ elim (Bool-cases (result.ok || optional)) [
          | inl k ↦
              rw (e, k, prepare_devices)
                (devices-Idle loopback specs (noted env hooks device result g) t ready)
          | inr k ↦ rw (e, k, prepare_devices) (shutdowns-Idle g.initialized t ready)
        ]
      ]

  conclude-Idle :
      (o : Option Result) (g : Gathered) (r : Runtime W)
      → Idle r
      → Idle (conclude env hooks (o, g, r)).1
  conclude-Idle (some result) g r h = h
  conclude-Idle none g r h =
      if_cases (λ (p : Result × Runtime W). Idle p.1) (null g.initialized) _ _ (λ _. h) (λ _. h)

  initialize-Idle :
      (device : String) (loopback : Bool) (r : Runtime W)
      → Idle r
      → Idle (initialize_lifecycle_device env hooks device loopback r).1
  unfolding initialize_lifecycle_device
  initialize-Idle device loopback r h =
      let none_yet : Gathered = record { initialized = []; optional_failures = [] } in
      let (o, g, t) = prepare_devices env hooks loopback (specs_of device) none_yet r in
      conclude-Idle o g t (devices-Idle loopback (specs_of device) none_yet r h)

snapshot-Inactive :
    (targets : List Target) (d : Driver)
    → Inactive targets d
    → lifecycle_targets_snapshot d ≡ targets
unfolding lifecycle_targets_snapshot
snapshot-Inactive targets d h = rw h.0 h.1

-- A target whose device is never ready takes no action.
module _ {P W : Type 0} (env : Env P W) (act : P → ℕ → W → Outcome × W) (target : Target)
    (down : (w : W) → is_device_ready env target.can_device w ≡ false) where
  execute-down : (w : W) → is_ok (execute env.manager (some act) target w).0 ≡ false
  unfolding execute
  execute-down w = elim (Option-cases env.manager) [
    | inl e ↦ rw (e, execute) refl
    | inr (manager, e) ↦
        let closed : manager.is_device_ready target.can_device w ≡ false = rw e at (down w) in
        rw (e, closed, execute) refl
  ]

  failed-down :
      (before after : List Target) (w : W)
      → null (failed (statuses env.manager (some act) (before ++ target ∷ after) w)) ≡ false
  unfolding statuses
  failed-down [] after w = rw (execute-down w) refl
  failed-down (t ∷ before) after w =
      let (status, v) = execute env.manager (some act) t w in
      ground (arith, failed-down before after v)

module _ {P W : Type 0} (env : Env P W) (target : Target)
    (down : (w : W) → is_device_ready env target.can_device w ≡ false) where
  enable-down :
      (before after : List Target) (h : Host W)
      → lifecycle_targets_snapshot h.driver ≡ before ++ target ∷ after
      → (enable_all env h).0.ok ≡ false
  unfolding enable_all
  enable-down before after h all =
      let targets = lifecycle_targets_snapshot h.driver in
      let (r, t) = batch env env.enable targets h in
      let reports = batch_reports env.manager (some env.enable) targets h.world in
      let refuses : null (failed (statuses env.manager (some env.enable) targets h.world)) ≡ false =
        rw all (failed-down env env.enable target down before after h.world) in
      let failing : r.any_failure ≡ true = reports.6 ∙ ap not refuses in
      if_cases (λ (p : Result × Host W). p.0.ok ≡ false) (not env.has_executor)
        (failure "Motor action executor unavailable.", h) _ (λ _. refl)
        (λ _.
          if_cases (λ (p : Result × Host W). p.0.ok ≡ false) (null targets)
            (failure "No joints available for enable.", h) _ (λ _. refl)
            (λ _.
              if_cases (λ (p : Result × Host W). p.0.ok ≡ false) r.any_failure
                (enable_refused env r "Enable rollback failed after partial success."
                  "Protocol not available during enable rollback." t)
                _
                (λ _.
                  roll_back_if-ok env (not (null r.succeeded_targets)) r.succeeded_targets _ _ _ t
                    (failure_result-ok r.first_failure _ _))
                (λ e. absurd (ground (arith, failing)))))

module _ {P R W : Type 0} (env : Env P W) (hooks : Hooks R W) where
  -- When no target is active and the device of some target is never ready, an init request,
  -- whatever devices it names and whichever of them it marks as optional, leaves a runtime whose
  -- enableAll fails.
  pub absent_device_blocks_enable :
      (device : String) (loopback : Bool) (r : Runtime W) (before : List Target) (target : Target)
      (after : List Target)
      → r.host.driver.active_targets ≡ []
      → r.host.driver.targets ≡ before ++ target ∷ after
      → ((w : W) → is_device_ready env target.can_device w ≡ false)
      → let started = (initialize_lifecycle_device env hooks device loopback r).1 in
        (enable_all env started.host).0.ok ≡ false
  absent_device_blocks_enable device loopback r before target after idle all down =
      let started = (initialize_lifecycle_device env hooks device loopback r).1 in
      let still =
        initialize-Idle env hooks (before ++ target ∷ after) device loopback r (idle, all) in
      enable-down env target down before after started.host (snapshot-Inactive _ _ still)
