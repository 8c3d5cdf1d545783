-- ===== src/MtRmd/Frames.antt =====
-- The command frames and identifiers of include/can_driver/MtRmdProtocol.h, as the motor reads them.
use old_car_can_driver.Prelude.{ℕ, ◌+◌, ◌*◌, ◌≤◌, ◌<◌, ◌≡◌, refl, ◌⊎◌, true, arith, get_or}
use old_car_can_driver.Can.{IsFrame}
use old_car_can_driver.Prelude.Int.{ℤ, magnitude, IsI32}
use old_car_can_driver.MtRmd.{
  send_can_id, is_response_can_id, response_node_id, read_uint16_le, read_int32_le,
  make_absolute_position_frame, make_acceleration_frame, parse_communication_timeout_ms,
  position_max_speed_dps_from_speed_command,
}
use old_car_can_driver.MtRmd.RoundTrip.{to_i32-join_bytes}

-- For a node below 256, the identifier of its commands plus 0x100 is recognised as a response,
-- and the node is read from it.
pub response_of_send :
    (node : ℕ)
    → node < 256
    → (is_response_can_id (send_can_id node + 0x100) ≡ true)
      × (response_node_id (send_can_id node + 0x100) ≡ node)
unfolding is_response_can_id send_can_id response_node_id
response_of_send node h = ground arith

-- An identifier that is recognised as a response is the identifier of commands plus 0x100 of the
-- node that is read from it.
pub is_response-send :
    (can_id : ℕ)
    → is_response_can_id can_id ≡ true
    → can_id ≡ send_can_id (response_node_id can_id) + 0x100
unfolding is_response_can_id send_can_id response_node_id
is_response-send can_id h = ground arith

-- For every 32-bit position and 16-bit speed, the absolute-position frame carries the command
-- byte 0xA4, the speed at byte 2 and the position at byte 4, and is a frame of eight bytes with
-- a valid length.
pub absolute_position_frame_lem :
    (can_id : ℕ) (position : ℤ) (speed : ℕ)
    → IsI32 position
    → speed < 65536
    → let f = make_absolute_position_frame can_id position speed in
      (get_or f.data_bytes 0 0 ≡ 0xA4)
      × (read_uint16_le f 2 ≡ speed)
      × (read_int32_le f 4 ≡ position)
      × IsFrame f
unfolding make_absolute_position_frame read_uint16_le read_int32_le
absolute_position_frame_lem can_id position speed range small = (
  refl,
  omega arith,
  to_i32-join_bytes position range,
  record { eight = refl; fits = omega arith; bytes = omega arith },
)

-- For a commanded speed other than 0, the speed limit of a position command lies between 1 and
-- 65535 and is that speed in whole degrees per second, rounded to the nearest, unless rounding
-- would give 0, which becomes 1, or the speed does not fit, which gives 65535.
pub position_max_speed_lem :
    (speed : ℤ) (default_speed : ℕ)
    → 0 < magnitude speed
    → let v = position_max_speed_dps_from_speed_command speed default_speed in
      (1 ≤ v)
      × (v ≤ 65535)
      × ((100 * v ≤ magnitude speed + 50) ⊎ ((v ≡ 1) × (magnitude speed < 50)))
      × ((magnitude speed < 100 * v + 50) ⊎ ((v ≡ 65535) × (6553500 < magnitude speed)))
unfolding position_max_speed_dps_from_speed_command
position_max_speed_lem speed default_speed h = ground arith

-- An acceleration frame carries its kind at byte 1 and, in its last four bytes, the requested
-- acceleration, or the nearest value between 100 and 60000 if it lies outside.
pub acceleration_frame_lem :
    (can_id kind acceleration : ℕ)
    → let f = make_acceleration_frame can_id kind acceleration in
      let v = parse_communication_timeout_ms f in
      (get_or f.data_bytes 1 0 ≡ kind)
      × (100 ≤ v)
      × (v ≤ 60000)
      × ((v ≡ acceleration)
          ⊎ ((acceleration < 100) × (v ≡ 100))
          ⊎ ((60000 < acceleration) × (v ≡ 60000)))
unfolding make_acceleration_frame parse_communication_timeout_ms
acceleration_frame_lem can_id kind acceleration = ground arith
