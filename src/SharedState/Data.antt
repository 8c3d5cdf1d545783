-- ===== src/SharedState/Data.antt =====
-- The state that the drivers share: include/can_driver/SharedDriverState.h. Times are counts of
-- nanoseconds of the steady clock and never negative. `fn` of a `mutate…` call is its argument; the
-- mutex makes each call one step. An out-parameter that is null is the caller's matter.
use old_car_can_driver.Prelude.{
  ℕ, zero, suc, ◌+◌, ◌/◌, ◌%◌, String, ◌≡◌, refl, ◌↔◌, Bool, true, false, ◌&&◌, List, [], ◌∷◌, ◌++◌,
  arith, ltb, ◌==◌, if◌then◌else◌, Eq,
}
use Prim.Native.Char.{code}
use old_car_can_driver.Prelude.Int.{ℤ, pos}
use old_car_can_driver.Can.{CanType, mt, pp, dm, ecb, MotorMode, position}

abbrev pub default_feedback_degraded_timeout_threshold : ℕ
default_feedback_degraded_timeout_threshold = 3

pub data AxisIntent : Type 0 where
  idle disable enable hold run recover : AxisIntent

-- The enumerator's value; `idle` is `None`.
abbrev pub intent_value : AxisIntent → ℕ
intent_value idle = 0
intent_value disable = 1
intent_value enable = 2
intent_value hold = 3
intent_value run = 4
intent_value recover = 5

abbrev pub intent_eq : AxisIntent → AxisIntent → Bool
intent_eq a b = intent_value a == intent_value b

pub record AxisKey : Type 0 where
  pub device : String
  pub protocol : CanType
  pub motor_id : ℕ

pub record AxisFeedbackState : Type 0 where
  pub key : AxisKey
  pub position : ℤ
  pub velocity : ℤ
  pub current : ℤ
  pub mode : MotorMode
  pub position_valid : Bool
  pub velocity_valid : Bool
  pub current_valid : Bool
  pub mode_valid : Bool
  pub enabled : Bool
  pub fault : Bool
  pub enabled_valid : Bool
  pub fault_valid : Bool
  pub feedback_seen : Bool
  pub degraded : Bool
  pub last_rx_steady_ns : ℕ
  pub last_valid_state_steady_ns : ℕ
  pub consecutive_timeout_count : ℕ

pub record AxisCommandState : Type 0 where
  pub key : AxisKey
  pub target_position : ℤ
  pub target_velocity : ℤ
  pub target_current : ℤ
  pub desired_mode : MotorMode
  pub desired_mode_valid : Bool
  pub valid : Bool
  pub last_command_steady_ns : ℕ

pub record DeviceHealthState : Type 0 where
  pub device : String
  pub transport_ready : Bool
  pub tx_backpressure : ℕ
  pub tx_link_unavailable : ℕ
  pub tx_error : ℕ
  pub rx_error : ℕ
  pub last_tx_link_unavailable_steady_ns : ℕ
  pub last_rx_steady_ns : ℕ

-- What operator[] of the maps creates.
abbrev pub no_key : AxisKey
no_key = record { device = ""; protocol = mt; motor_id = 0 }

abbrev pub no_feedback : AxisFeedbackState
no_feedback = record {
  key = no_key;
  position = pos 0;
  velocity = pos 0;
  current = pos 0;
  mode = position;
  position_valid = false;
  velocity_valid = false;
  current_valid = false;
  mode_valid = false;
  enabled = false;
  fault = false;
  enabled_valid = false;
  fault_valid = false;
  feedback_seen = false;
  degraded = false;
  last_rx_steady_ns = 0;
  last_valid_state_steady_ns = 0;
  consecutive_timeout_count = 0;
}

abbrev pub no_command : AxisCommandState
no_command = record {
  key = no_key;
  target_position = pos 0;
  target_velocity = pos 0;
  target_current = pos 0;
  desired_mode = position;
  desired_mode_valid = false;
  valid = false;
  last_command_steady_ns = 0;
}

abbrev pub no_health : DeviceHealthState
no_health = record {
  device = "";
  transport_ready = false;
  tx_backpressure = 0;
  tx_link_unavailable = 0;
  tx_error = 0;
  rx_error = 0;
  last_tx_link_unavailable_steady_ns = 0;
  last_rx_steady_ns = 0;
}

-- The map key is a text, held as its characters' codes.
abbrev pub codes : String → List ℕ
codes String.[] = []
codes (String.◌∷◌ c s) = code c ∷ codes s

unfoldable pub codes_eq : List ℕ → List ℕ → Bool
codes_eq [] [] = true
codes_eq (x ∷ xs) (y ∷ ys) = x == y && codes_eq xs ys
codes_eq xs ys = false

pub codes_eq_iff : (xs ys : List ℕ) → (codes_eq xs ys ≡ true) ↔ (xs ≡ ys)
unfolding codes_eq
codes_eq_iff [] [] = (λ h. refl, λ h. refl)
codes_eq_iff [] (y ∷ ys) = ground arith
codes_eq_iff (x ∷ xs) [] = ground arith
codes_eq_iff (x ∷ xs) (y ∷ ys) = ground (arith, codes_eq_iff xs ys)

instance abbrev pub codes_Eq : Eq (List ℕ)
codes_Eq = record { beq = codes_eq; beq_iff = codes_eq_iff }

abbrev pub protocol_name : CanType → List ℕ
protocol_name mt = b'm' ∷ b't' ∷ []
protocol_name pp = b'p' ∷ b'p' ∷ []
protocol_name dm = b'd' ∷ b'm' ∷ []
protocol_name ecb = b'e' ∷ b'c' ∷ b'b' ∷ []

-- std::to_string of a uint16_t, which has five digits at most: the fuel is the number of digits.
unfoldable pub decimal : ℕ → ℕ → List ℕ
decimal zero n = []
decimal (suc f) n =
    let rest = decimal f (n / 10) in
    if ltb n 10 then (b'0' + n) ∷ [] else rest ++ (b'0' + n % 10) ∷ []

unfoldable pub axis_map_key : AxisKey → List ℕ
unfolding decimal
axis_map_key key =
    codes key.device ++ b'|' ∷ (protocol_name key.protocol ++ b'|' ∷ decimal 5 key.motor_id)
