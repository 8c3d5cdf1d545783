-- ===== src/CommandGate.antt =====
-- The gate for fresh commands: src/command_gate.cpp and include/can_driver/command_gate.hpp. `V` is
-- the type double, and `differs` the test `fabs(a - b) > 1e-12` on it, which a section takes as its
-- parameter. `W` is the world that the two callbacks read and change. A callback may be empty.
pub mod Latch
pub mod Devices
mod Examples
use old_car_can_driver.Prelude.{
  ℕ, String, string_eq, Bool, true, false, not, ◌||◌, Option, none, some, List, [], ◌∷◌, ◌==◌,
  if◌then◌else◌, length,
}
use old_car_can_driver.Prelude.Map.{find, insert}

pub data AxisControlMode : Type 0 where
  position velocity csp unknown : AxisControlMode

abbrev pub control_mode_value : AxisControlMode → ℕ
control_mode_value position = 0
control_mode_value velocity = 1
control_mode_value csp = 2
control_mode_value unknown = 3

abbrev pub bool_eq : Bool → Bool → Bool
bool_eq true b = b
bool_eq false b = not b

pub record Snapshot (V : Type 0) : Type 0 where
  pub control_mode : AxisControlMode
  pub command_value : V
  pub has_direct_command : Bool
  pub target_near_actual : Bool

pub data DeviceEvent : Type 0 where
  nothing lost recovered : DeviceEvent

pub record CommandGate (V W : Type 0) : Type 0 where
  pub snapshot_provider : Option (W → List (Snapshot V))
  pub hold_callback : Option (W → W)
  pub baselines : List (Snapshot V)
  pub last_device_ready_state : List (String × Bool)
  pub fresh_command_required : Bool

-- What the device was last, false for a device that was never observed, and the event.
abbrev pub event_of : Option Bool → Bool → DeviceEvent
event_of was true = elim was [ none ↦ nothing | some ready ↦ if ready then nothing else recovered ]
event_of was false = elim was [ none ↦ lost | some ready ↦ if ready then lost else nothing ]

module _ {V W : Type 0} where
  abbrev pub empty_gate : CommandGate V W
  empty_gate = record {
    snapshot_provider = none;
    hold_callback = none;
    baselines = [];
    last_device_ready_state = [];
    fresh_command_required = false;
  }

  unfoldable pub configure :
      Option (W → List (Snapshot V)) → Option (W → W) → CommandGate V W → CommandGate V W
  configure provider hold g = record g { snapshot_provider = provider; hold_callback = hold }

  unfoldable pub reset : CommandGate V W → CommandGate V W
  reset g = record g {
    baselines = [];
    last_device_ready_state = [];
    fresh_command_required = false;
  }

  unfoldable pub hold_commands : CommandGate V W → W → W
  hold_commands g w = elim g.hold_callback [ none ↦ w | some hold ↦ hold w ]

  unfoldable pub arm_fresh_command_latch : W → CommandGate V W → CommandGate V W
  arm_fresh_command_latch w g = elim g.snapshot_provider [
    | none ↦ g
    | some provider ↦ record g { baselines = provider w; fresh_command_required = true }
  ]

  unfoldable pub observe_device_ready :
      String → Bool → CommandGate V W → DeviceEvent × CommandGate V W
  observe_device_ready device is_ready g = (
    event_of (find device g.last_device_ready_state) is_ready,
    record g { last_device_ready_state = insert device is_ready g.last_device_ready_state },
  )

module _ {V : Type 0} (differs : V → V → Bool) where
  abbrev pub snapshot_command_changed : Snapshot V → Snapshot V → Bool
  snapshot_command_changed current baseline =
      not (control_mode_value current.control_mode == control_mode_value baseline.control_mode)
      || not (bool_eq current.has_direct_command baseline.has_direct_command)
      || differs current.command_value baseline.command_value

  -- The loop over two lists of one length.
  unfoldable pub satisfied : List (Snapshot V) → List (Snapshot V) → Bool
  satisfied (c ∷ cs) (b ∷ bs) =
      let rest = satisfied cs bs in
      if snapshot_command_changed c b || c.target_near_actual then true else rest
  satisfied cs bs = false

module _ {V W : Type 0} (differs : V → V → Bool) where
  unfoldable pub consume_fresh_command_latch_if_satisfied :
      W → CommandGate V W → Bool × CommandGate V W
  unfolding satisfied
  consume_fresh_command_latch_if_satisfied w g =
      if not g.fresh_command_required then (true, g) else elim g.snapshot_provider [
        | none ↦ (true, record g { fresh_command_required = false; baselines = [] })
        | some provider ↦
            if not (length g.baselines == length (provider w))
            then (true, record g { fresh_command_required = false; baselines = [] })
            else if not (satisfied differs (provider w) g.baselines)
            then (false, g)
            else (true, record g { fresh_command_required = false })
      ]
