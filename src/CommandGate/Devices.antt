-- ===== src/CommandGate/Devices.antt =====
-- The device events of src/command_gate.cpp over a series of observations.
use old_car_can_driver.Prelude.{
  ◌≡◌, refl, ap, ◌∙◌, String, string_eq, Bool, Option, none, some, List, [], ◌∷◌, if◌then◌else◌,
}
use old_car_can_driver.Prelude.Map.{find, find-insert}
use old_car_can_driver.CommandGate.{CommandGate, reset, event_of, observe_device_ready}

module _ {V W : Type 0} where
  unfoldable pub observe_all : List (String × Bool) → CommandGate V W → CommandGate V W
  observe_all [] g = g
  observe_all ((device, ready) ∷ rest) g = observe_all rest (observe_device_ready device ready g).1

-- The last observation of a device, given an earlier one.
unfoldable pub last_of : String → List (String × Bool) → Option Bool → Option Bool
last_of device [] before = before
last_of device ((d, ready) ∷ rest) before =
    last_of device rest (if string_eq.beq d device then some ready else before)

module _ {V W : Type 0} where
  find-observe_all :
      (device : String) (history : List (String × Bool)) (g : CommandGate V W)
      → find device (observe_all history g).last_device_ready_state
        ≡ last_of device history (find device g.last_device_ready_state)
  unfolding observe_all last_of observe_device_ready
  find-observe_all device [] g = refl
  find-observe_all device ((d, ready) ∷ rest) g =
      find-observe_all device rest (observe_device_ready d ready g).1
      ∙ ap (last_of device rest) (find-insert d device ready g.last_device_ready_state)

  -- After a reset and any observations of any devices, the event of an observation depends only
  -- on the last earlier one of the same device: unready gives Lost if there was none or it was
  -- ready, ready gives Recovered if it was unready, and the other cases give None.
  pub observe-history :
      (device : String) (ready : Bool) (history : List (String × Bool)) (g : CommandGate V W)
      → (observe_device_ready device ready (observe_all history (reset g))).0
        ≡ event_of (last_of device history none) ready
  unfolding observe_device_ready reset find
  observe-history device ready history g =
      ap (λ o. event_of o ready) (find-observe_all device history (reset g))
