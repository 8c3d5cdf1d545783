-- ===== src/Lifecycle/Runtime.antt =====
-- src/CanDriverRuntime.cpp: the list of devices of an init request, the preparation of a device,
-- recovery and shutdown, and what the coordinator is given. `hooks` are the std::functions that the
-- hardware interface passes, each of which may be empty. `R` is the type double of the refresh
-- rates. The calls of the command gate are hooks here, as the gate has a model of its own.
pub mod Specs
use old_car_can_driver.Prelude.{
  String, Bool, true, false, not, ◌||◌, Option, none, some, List, [], ◌∷◌, ◌++◌, if◌then◌else◌,
  null, is_empty, string_eq,
}
use Prim.Native.String.{◌++◌ as concat}
use old_car_can_driver.Prelude.Map.{find, insert, or_new}
use old_car_can_driver.Coordinator.{Result, DriverOps, Sys}
use old_car_can_driver.Lifecycle.{Env, Host, any_fault_active}
use old_car_can_driver.Lifecycle.Waiting.{success, failure, enable_healthy, motion_healthy}
use old_car_can_driver.Lifecycle.Operations.{
  prepare_device, shutdown_device, enable_all, disable_all, halt_all, recover_all, shutdown_all,
}
use Specs.{specs_of}

pub record Hooks (R W : Type 0) : Type 0 where
  pub startup_query_hz : Option (W → R)
  pub zero_hz : R
  pub set_device_refresh_rate : Option (String → R → W → W)
  pub apply_persisted_pp_zero_offsets : Option (String → W → Bool × W)
  pub sync_startup_position_and_commands : Option (String → W → Bool × W)
  pub apply_pp_default_velocities : Option (String → W → Bool × W)
  pub apply_initial_modes : Option (String → W → Bool × W)
  pub recover_devices : Option (W → List String)
  pub clear_command_state : Option (W → W)
  pub enable_healthy : Option (W → Bool × String × W)
  pub motion_healthy : Option (W → Bool × String × W)
  pub hold_commands : W → W
  pub arm_fresh_command_latch : W → W

pub record Runtime (W : Type 0) : Type 0 where
  pub active : Bool
  pub device_loopback_by_name : List (String × Bool)
  pub host : Host W

abbrev pub on_host : {W : Type 0} → (Host W → Result × Host W) → Runtime W → Result × Runtime W
on_host f r = let (result, h) = f r.host in (result, record r { host = h })

abbrev pub in_world : {W : Type 0} → (W → W) → Runtime W → Runtime W
in_world f r = record r { host = record r.host { world = f r.host.world } }

abbrev pub is_some {ℓ} : {A : Type ℓ} → Option A → Bool
is_some none = false
is_some (some a) = true

-- The texts with `separator` between them.
unfoldable pub join : String → List String → String
join separator [] = ""
join separator (text ∷ []) = text
join separator (text ∷ next ∷ texts) =
    concat text (concat separator (join separator (next ∷ texts)))

-- What the loop over the devices has gathered: those prepared, and the optional ones that failed.
pub record Gathered : Type 0 where
  pub initialized : List String
  pub optional_failures : List String

module _ {P R W : Type 0} (env : Env P W) (hooks : Hooks R W) where
  abbrev pub set_rate : String → (W → R) → Runtime W → Runtime W
  set_rate device rate r = elim hooks.set_device_refresh_rate [
    | none ↦ r
    | some f ↦ in_world (λ w. f device (rate w) w) r
  ]

  abbrev pub restore_steady_refresh : String → Runtime W → Runtime W
  restore_steady_refresh device r = set_rate device (λ w. hooks.zero_hz) r

  abbrev pub startup_rate : W → R
  startup_rate w = elim hooks.startup_query_hz [ none ↦ hooks.zero_hz | some f ↦ f w ]

  -- A step that is absent passes; one that fails ends the preparation, and the device is shut down.
  abbrev pub prepared_by :
      String
      → Option (String → W → Bool × W)
      → String
      → (Runtime W → Result × Runtime W)
      → Runtime W
      → Result × Runtime W
  prepared_by device none message next r = next r
  prepared_by device (some f) message next r =
      let (done, w) = f device r.host.world in
      let t = record r { host = record r.host { world = w } } in
      if done then next t else (
        failure (concat message device),
        (on_host (shutdown_device env device) (restore_steady_refresh device t)).1,
      )

  unfoldable pub prepare_lifecycle_device_for_standby :
      String → Bool → Runtime W → Result × Runtime W
  unfolding prepare_device shutdown_device
  prepare_lifecycle_device_for_standby device loopback r =
      if not (is_some hooks.sync_startup_position_and_commands)
        || not (is_some hooks.apply_pp_default_velocities)
        || not (is_some hooks.apply_initial_modes)
      then (failure "prepare lifecycle path not available", r)
      else (let (result, t) =
            on_host (prepare_device env device loopback) (set_rate device startup_rate r) in
          if not result.ok
          then (result, restore_steady_refresh device t)
          else prepared_by device hooks.apply_persisted_pp_zero_offsets
              "Failed to restore persisted PP zero offsets on "
              (prepared_by device hooks.sync_startup_position_and_commands
                "Failed to synchronize startup position on "
                (prepared_by device hooks.apply_pp_default_velocities
                  "Failed to configure PP default velocities on "
                  (prepared_by device hooks.apply_initial_modes "Failed to apply initial modes on "
                    (λ u. (success "prepared (standby)", restore_steady_refresh device u)))))
              t)

  -- The devices that were prepared before one failed.
  unfoldable pub shutdown_devices : List String → Runtime W → Runtime W
  unfolding shutdown_device
  shutdown_devices [] r = r
  shutdown_devices (device ∷ devices) r =
      shutdown_devices devices (on_host (shutdown_device env device) r).1

  abbrev pub note_loopback : String → Bool → Runtime W → Runtime W
  note_loopback device loopback r = record r {
    device_loopback_by_name = insert device loopback r.device_loopback_by_name;
  }

  abbrev failed_text : String → Result → String
  failed_text device result = concat device (concat "(prepare: " (concat result.message ")"))

  abbrev pub noted : String → Result → Gathered → Gathered
  noted device result g =
      if result.ok
      then record g { initialized = g.initialized ++ device ∷ [] }
      else record g { optional_failures = g.optional_failures ++ failed_text device result ∷ [] }

  -- `none` goes on to the summary; a result ends the request.
  unfoldable pub prepare_devices :
      Bool → List (String × Bool) → Gathered → Runtime W → Option Result × Gathered × Runtime W
  unfolding prepare_lifecycle_device_for_standby shutdown_devices
  prepare_devices loopback [] g r = (none, g, r)
  prepare_devices loopback ((device, optional) ∷ specs) g r = elim (is_empty device) [
    | true ↦ prepare_devices loopback specs g r
    | false ↦
        let (result, t) =
          prepare_lifecycle_device_for_standby device loopback (note_loopback device loopback r) in
        elim (result.ok || optional) [
          | true ↦ prepare_devices loopback specs (noted device result g) t
          | false ↦ (some result, g, shutdown_devices g.initialized t)
        ]
  ]

  abbrev summary : Gathered → String
  summary g = concat "initialized (standby): " (
      concat (join ", " g.initialized) (
        if null g.optional_failures
        then ""
        else concat "; optional failures: " (join "; " g.optional_failures)))

  abbrev pub conclude : Option Result × Gathered × Runtime W → Result × Runtime W
  conclude (some result, g, r) = (result, r)
  conclude (none, g, r) =
      if null g.initialized
      then (
        if null g.optional_failures
            then failure "no device initialized"
            else failure
                (concat "all selected devices failed (optional): " (join "; " g.optional_failures)),
        r,
      )
      else (success (summary g), record r { active = true })

  unfoldable pub initialize_lifecycle_device : String → Bool → Runtime W → Result × Runtime W
  unfolding prepare_devices
  initialize_lifecycle_device device loopback r = conclude (
      prepare_devices loopback (specs_of device)
        (record { initialized = []; optional_failures = [] }) r)

  abbrev loopback_of : String → Runtime W → Bool
  loopback_of device r = or_new (find device r.device_loopback_by_name) false

  -- The loop of recoverLifecycleDevices, up to the first device that fails.
  unfoldable pub prepare_for_recovery : List String → Runtime W → Option Result × Runtime W
  unfolding prepare_lifecycle_device_for_standby
  prepare_for_recovery [] r = (none, r)
  prepare_for_recovery (device ∷ devices) r =
      let (result, t) = prepare_lifecycle_device_for_standby device (loopback_of device r) r in
      elim result.ok [ true ↦ prepare_for_recovery devices t | false ↦ (some result, t) ]

  abbrev recovered : Result × Runtime W → Result × Runtime W
  recovered (result, r) =
      if result.ok then (success "recovered (standby)", record r { active = true }) else (result, r)

  abbrev recover_prepared : Option Result × Runtime W → Result × Runtime W
  recover_prepared (some result, r) = (result, r)
  recover_prepared (none, r) = recovered (on_host (recover_all env) r)

  unfoldable pub recover_lifecycle_devices : Runtime W → Result × Runtime W
  unfolding prepare_for_recovery recover_all
  recover_lifecycle_devices r = elim hooks.recover_devices [
    | none ↦ (failure "recover lifecycle path not available", r)
    | some f ↦
        let devices = f r.host.world in
        if null devices
        then (failure "No devices available for recover.", r)
        else recover_prepared (prepare_for_recovery devices r)
  ]

  unfoldable pub shutdown_lifecycle_driver : Bool → Runtime W → Result × Runtime W
  unfolding shutdown_all
  shutdown_lifecycle_driver force r =
      let (result, t) = on_host (shutdown_all env force) (record r { active = false }) in
      (result, in_world (or_new hooks.clear_command_state (λ w. w)) t)

  abbrev pub on_sys : (Runtime W → Result × Runtime W) → Sys (Runtime W) → Result × Sys (Runtime W)
  on_sys f s = let (result, r) = f s.world in (result, record s { world = r })

  abbrev pub hooked :
      Option (W → Bool × String × W)
      → (Host W → Bool × String × Host W)
      → Sys (Runtime W)
      → Bool × String × Sys (Runtime W)
  hooked none f s =
      let (fine, detail, h) = f s.world.host in
      (fine, detail, record s { world = record s.world { host = h } })
  hooked (some g) f s =
      let (fine, detail, w) = g s.world.host.world in
      (fine, detail, record s { world = in_world (λ v. w) s.world })

  abbrev pub gated : (W → W) → Sys (Runtime W) → Sys (Runtime W)
  gated f s = record s { world = in_world f s.world }

  -- configureLifecycleCoordinator.
  unfoldable pub driver_ops : DriverOps (Runtime W)
  unfolding initialize_lifecycle_device enable_all disable_all halt_all recover_lifecycle_devices
      shutdown_lifecycle_driver enable_healthy motion_healthy any_fault_active
  driver_ops = record {
    init_device = some (λ device loopback. on_sys (initialize_lifecycle_device device loopback));
    enable_all = some (on_sys (on_host (enable_all env)));
    disable_all = some (on_sys (on_host (disable_all env)));
    halt_all = some (on_sys (on_host (halt_all env)));
    recover_all = some (on_sys recover_lifecycle_devices);
    shutdown_all = some (λ force. on_sys (shutdown_lifecycle_driver force));
    enable_healthy = some (hooked hooks.enable_healthy (enable_healthy env));
    motion_healthy = some (hooked hooks.motion_healthy (motion_healthy env));
    any_fault_active = some (λ s. any_fault_active env s.world.host);
    hold_commands = some (gated hooks.hold_commands);
    arm_fresh_command_latch = some (gated hooks.arm_fresh_command_latch);
  }
