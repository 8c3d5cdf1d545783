-- ===== src/Eyou/Response.antt =====
-- The frames that the PP motors send back: handleResponse of src/EyouCan.cpp. A frame is taken as a
-- receive handler gets it.
use old_car_can_driver.Prelude.{
  ℕ, ◌+◌, ◌*◌, ◌%◌, Bool, true, false, not, ◌||◌, ltb, leb, ◌==◌, if◌then◌else◌, get_or, nat_eq,
}
use old_car_can_driver.Prelude.Int.{ℤ, to_i32}
use old_car_can_driver.Prelude.Map.{insert}
use old_car_can_driver.Can.{Frame, MotorMode, position, velocity, csp}
use old_car_can_driver.Eyou.{
  MotorState, EyouCan, motor_at, put_motor, is_managed_motor_id, sync_shared_feedback,
}
use old_car_can_driver.Eyou.Sending.{pending_read_key, mark_read_response_received}
use old_car_can_driver.Eyou.Commands.{request}

abbrev pub byte_at : Frame → ℕ → ℕ
byte_at f i = get_or f.data_bytes i 0

unfoldable pub read_uint32_be : Frame → ℕ → ℕ
read_uint32_be f i =
    if leb f.dlc (i + 3)
    then 0
    else byte_at f i * 16777216
      + byte_at f (i + 1) * 65536
      + byte_at f (i + 2) * 256
      + byte_at f (i + 3)

abbrev pub read_int32_be : Frame → ℕ → ℤ
read_int32_be f i = to_i32 (read_uint32_be f i)

abbrev pub data_byte_or_zero : Frame → ℕ → ℕ
data_byte_or_zero f i = if leb f.dlc i then 0 else byte_at f i

abbrev mode_of_register : ℕ → MotorMode
mode_of_register v = if v == 3 then velocity else if v == 5 then csp else position

-- What a read response tells about the motor.
unfoldable pub absorb : Frame → ℕ → MotorState → MotorState
unfolding read_uint32_be
absorb f sub m =
    if sub == 0x02
    then record m { serial_number = read_uint32_be f 2; serial_number_received = true }
    else if sub == 0x05
    then record m { current = read_int32_be f 2; current_received = true }
    else if sub == 0x06
    then record m { actual_velocity = read_int32_be f 2; velocity_received = true }
    else if sub == 0x07
    then record m { position = read_int32_be f 2; position_received = true }
    else if sub == 0x3B
    then record m { position_offset = read_int32_be f 2; position_offset_received = true }
    else if sub == 0x0F
    then record m { mode = mode_of_register (data_byte_or_zero f 5); mode_received = true }
    else if sub == 0x10
    then record m { enabled = not (data_byte_or_zero f 5 == 0); enabled_received = true }
    else if sub == 0x15
    then record m { fault = not (read_uint32_be f 2 == 0); fault_received = true }
    else m

unfoldable pub mark_write_ack_received : ℕ → ℕ → ℕ → EyouCan → EyouCan
mark_write_ack_received node sub write_state c = record c {
  pending_write_acks =
      insert (pending_read_key node sub) (record { received = true; state = write_state })
        c.pending_write_acks;
}

-- The two states that say that a write was done.
abbrev pub write_done : ℕ → Bool
write_done state = state == 0x01 || state == 0x05

-- After a refused write of these registers, they are read again.
abbrev pub reread : ℕ → ℕ → ℕ → EyouCan → EyouCan
reread node sub now c =
    if sub == 0x09
    then request node 0x06 now c
    else if sub == 0x0A
    then request node 0x07 now c
    else if sub == 0x0F || sub == 0x10 || sub == 0x15
    then request node sub now c
    else c

unfoldable pub take_write_ack : ℕ → ℕ → ℕ → ℕ → EyouCan → EyouCan
unfolding mark_write_ack_received request
take_write_ack node sub write_state now c =
    let c1 = mark_write_ack_received node sub write_state c in
    if write_done write_state then c1 else reread node sub now c1

unfoldable pub take_read_response : Frame → ℕ → ℕ → ℕ → EyouCan → EyouCan
unfolding absorb mark_read_response_received sync_shared_feedback
take_read_response f node sub now c =
    let m = absorb f sub (motor_at node c) in
    sync_shared_feedback node m now (put_motor node m (mark_read_response_received node sub now c))

-- Only a standard frame of a managed node, with two bytes or more, is the driver's.
abbrev pub is_ours : Frame → EyouCan → Bool
is_ours f c =
    let can_id = f.id % 2048 in
    if c.shutting_down
    then false
    else if f.is_extended || ltb f.dlc 2 || leb 256 can_id
    then false
    else is_managed_motor_id (can_id % 256) c

unfoldable pub take_response : Frame → ℕ → EyouCan → EyouCan
unfolding take_write_ack take_read_response
take_response f now c =
    let node = f.id % 2048 % 256 in
    let sub = byte_at f 1 in
    let c1 = put_motor node (motor_at node c) c in
    if byte_at f 0 == 0x02
    then take_write_ack node sub (data_byte_or_zero f 2) now c1
    else if byte_at f 0 == 0x04
    then take_read_response f node sub now c1
    else c1

unfoldable pub handle_response : Frame → ℕ → EyouCan → EyouCan
unfolding is_managed_motor_id take_response
handle_response f now c = if is_ours f c then take_response f now c else c
