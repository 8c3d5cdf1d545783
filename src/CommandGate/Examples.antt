-- ===== src/CommandGate/Examples.antt =====
-- A concrete gate, and the theorems about src/command_gate.cpp at it.
use old_car_can_driver.Prelude.{
  ℕ, ◌≡◌, refl, String, string_eq, Bool, true, false, not, some, List, [], ◌∷◌, ◌==◌,
}
use old_car_can_driver.Prelude.Map.{find, insert}
use old_car_can_driver.CommandGate.{
  velocity, Snapshot, recovered, CommandGate, empty_gate, reset, arm_fresh_command_latch,
  observe_device_ready, consume_fresh_command_latch_if_satisfied,
}
use old_car_can_driver.CommandGate.Latch.{polls, Answers, Fresh, polls-arm_fresh_command_latch}
use old_car_can_driver.CommandGate.Devices.{observe_all}

-- Values in whole steps, two of which differ if they are not the same.
abbrev differs : ℕ → ℕ → Bool
differs a b = not (a == b)

abbrev axis_at : ℕ → List (Snapshot ℕ)
axis_at v =
    record {
      control_mode = velocity;
      command_value = v;
      has_direct_command = false;
      target_near_actual = false;
    }
    ∷ []

abbrev gate : CommandGate ℕ ℕ
gate = record empty_gate { snapshot_provider = some axis_at }

polls-arm_fresh_command_latch_example :
    Answers
      (λ w. Fresh differs (axis_at 7) (axis_at w))
      (7 ∷ 7 ∷ 9 ∷ 7 ∷ [])
      (polls differs (7 ∷ 7 ∷ 9 ∷ 7 ∷ []) (arm_fresh_command_latch 7 gate))
polls-arm_fresh_command_latch_example =
    polls-arm_fresh_command_latch differs 7 (7 ∷ 7 ∷ 9 ∷ 7 ∷ []) axis_at gate refl

-- The old command does not pass, the new one does, and the gate then stays open.
polls_answers :
    polls differs (7 ∷ 7 ∷ 9 ∷ 7 ∷ []) (arm_fresh_command_latch 7 gate)
    ≡ false ∷ false ∷ true ∷ true ∷ []
unfolding polls arm_fresh_command_latch consume_fresh_command_latch_if_satisfied
polls_answers = refl

abbrev history : List (String × Bool)
history = ("can0", true) ∷ ("can0", false) ∷ ("can1", true) ∷ []

can0_recovers : (observe_device_ready "can0" true (observe_all history (reset gate))).0 ≡ recovered
unfolding observe_device_ready observe_all find insert reset
can0_recovers = refl
