-- ===== src/Coordinator/Traces.antt =====
-- Sequences of calls to the coordinator (operational_coordinator.cpp): what must have happened
-- before the axes may move.
use old_car_can_driver.Prelude.{◌≡◌, ◌⊎◌, List, [], ◌∷◌}
use old_car_can_driver.Coordinator.{SystemOpMode, armed, running}
use old_car_can_driver.Coordinator.Session.{Request, enable, release, Event, request}

-- The requests of the first list occur in the second, in this order.
pub data Occur : List Request → List Event → Type 0 where
  done : {es : List Event} → Occur [] es
  next :
      {r : Request} {rs : List Request} {es : List Event}
      → Occur rs es
      → Occur (r ∷ rs) (request r ∷ es)
  skip : {rs : List Request} {e : Event} {es : List Event} → Occur rs es → Occur rs (e ∷ es)

-- What is missing, in a mode, before the mode can be Running.
abbrev pub missing_for_running : SystemOpMode → List Request
missing_for_running running = []
missing_for_running armed = release ∷ []
missing_for_running _ = enable ∷ release ∷ []

-- One step makes up for one missing request at most, and only by serving it.
abbrev Advance : SystemOpMode → Event → SystemOpMode → Type 0
Advance m e n =
    (missing_for_running n ≡ missing_for_running m)
    ⊎ (missing_for_running n ≡ enable ∷ release ∷ [])
    ⊎ (m ≡ running)
    ⊎ ((e ≡ request enable) × (n ≡ armed))
    ⊎ ((e ≡ request release) × (m ≡ armed) × (n ≡ running))
