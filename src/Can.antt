-- ===== src/Can.antt =====
-- The CAN frame and the identifiers: include/can_driver/CanTransport.h, CanType.h, MotorID.h and
-- CanTxDispatcher.h. A MotorID is the number behind the enumerator: the code casts any uint16_t.
use old_car_can_driver.Prelude.{
  ℕ, ◌+◌, ◌-◌, ◌%◌, ◌≤◌, ◌<◌, ◌≡◌, Bool, List, [], ◌∷◌, arith, leb, ◌==◌, if◌then◌else◌, length,
  All,
}

-- The payload is a std::array of eight bytes.
pub record Frame : Type 0 where
  pub id : ℕ
  pub is_extended : Bool
  pub is_remote_request : Bool
  pub dlc : ℕ
  pub data_bytes : List ℕ

pub data SendResult : Type 0 where
  ok backpressure link_down error : SendResult

pub data CanType : Type 0 where
  mt pp dm ecb : CanType

pub data Category : Type 0 where
  control query recover config : Category

pub data MotorMode : Type 0 where
  position velocity csp : MotorMode

-- The enumerator's value.
abbrev pub mode_value : MotorMode → ℕ
mode_value position = 0
mode_value velocity = 1
mode_value csp = 5

abbrev pub mode_eq : MotorMode → MotorMode → Bool
mode_eq a b = mode_value a == mode_value b

abbrev pub zero_bytes : List ℕ
zero_bytes = 0 ∷ 0 ∷ 0 ∷ 0 ∷ 0 ∷ 0 ∷ 0 ∷ 0 ∷ []

abbrev pub mt_send_base_id : ℕ
mt_send_base_id = 0x140

unfoldable pub to_system_motor_id : ℕ → ℕ
to_system_motor_id id = id

unfoldable pub to_mt_protocol_node_id : ℕ → ℕ
unfolding to_system_motor_id
to_mt_protocol_node_id id =
    let system_id = to_system_motor_id id in
    (if leb mt_send_base_id system_id then system_id - mt_send_base_id else system_id % 256) % 256

unfoldable pub motor_id_from_mt_protocol_node_id : ℕ → ℕ
motor_id_from_mt_protocol_node_id node_id = (mt_send_base_id + node_id) % 65536

unfoldable pub to_protocol_node_id : ℕ → ℕ
unfolding to_system_motor_id
to_protocol_node_id id = to_system_motor_id id % 256

unfoldable pub motor_id_from_protocol_node_id : ℕ → ℕ
motor_id_from_protocol_node_id node_id = node_id

-- The payload is eight bytes, and its length field fits it.
pub record IsFrame (f : Frame) : Type 0 where
  pub eight : length f.data_bytes ≡ 8
  pub fits : f.dlc ≤ 8
  pub bytes : All (λ b. b < 256) f.data_bytes

-- For a node and an id below 256: the node survives the way to a system id and back; the system
-- id 0x140 + id survives the way to a node and back; and the system id `id` shares its node with
-- 0x140 + id.
pub mt_node_ids :
    (node id : ℕ)
    → node < 256
    → id < 256
    → (to_mt_protocol_node_id (motor_id_from_mt_protocol_node_id node) ≡ node)
      × (motor_id_from_mt_protocol_node_id (to_mt_protocol_node_id (mt_send_base_id + id))
          ≡ mt_send_base_id + id)
      × (to_mt_protocol_node_id id ≡ to_mt_protocol_node_id (mt_send_base_id + id))
unfolding to_mt_protocol_node_id motor_id_from_mt_protocol_node_id
mt_node_ids node id h k = ground arith
