-- ===== src/Eyou/Waits.antt =====
-- The PP commands that wait for an answer, src/EyouCan.cpp. What the other threads do to the driver
-- during a wait is an argument: `meanwhile` up to the answer or the end of the time, or one step for
-- each sleep of a loop that looks again and again.
use old_car_can_driver.Prelude.{
  ℕ, zero, suc, ◌/◌, ◌%◌, Bool, true, false, not, ◌&&◌, ◌||◌, Option, none, some, List, [], ◌∷◌,
  ◌==◌, if◌then◌else◌, nat_eq,
}
use old_car_can_driver.Prelude.Int.{ℤ, to_u32}
use old_car_can_driver.Prelude.Map.{find, insert, or_new}
use old_car_can_driver.Can.{control, to_protocol_node_id}
use old_car_can_driver.Eyou.{
  PendingWriteAck, EyouCan, motor_at, put_motor, register_managed_motor_id,
}
use old_car_can_driver.Eyou.Sending.{
  pending_read_key, send_write_command, write_command, frame_of, submit_tx, count_if_sent,
  try_issue_read_command,
}
use old_car_can_driver.Eyou.Commands.{commanded}
use old_car_can_driver.Eyou.Response.{write_done}

abbrev pub no_ack : PendingWriteAck
no_ack = record { received = false; state = 0 }

abbrev pub ack_at : ℕ → EyouCan → PendingWriteAck
ack_at key c = or_new (find key c.pending_write_acks) no_ack

unfoldable pub forget_ack : ℕ → EyouCan → EyouCan
forget_ack key c = record c { pending_write_acks = insert key no_ack c.pending_write_acks }

-- The answer when the wait is over.
abbrev pub acknowledged : ℕ → EyouCan → Bool × EyouCan
acknowledged key c = ((ack_at key c).received && write_done (ack_at key c).state, c)

unfoldable pub write_command_and_wait_for_ack :
    ℕ → ℕ → ℕ → ℕ → (EyouCan → EyouCan) → EyouCan → Bool × EyouCan
unfolding forget_ack send_write_command
write_command_and_wait_for_ack node sub value payload_bytes meanwhile c =
    if not c.has_controller || not c.has_dispatcher
    then (false, c)
    else (let key = pending_read_key node sub in
        let c1 = send_write_command node sub value payload_bytes write_command (forget_ack key c) in
        acknowledged key (meanwhile c1))

abbrev pub await_if_sent : ℕ → (EyouCan → EyouCan) → Bool × EyouCan → Bool × EyouCan
await_if_sent key meanwhile (false, c) = (false, c)
await_if_sent key meanwhile (true, c) =
    acknowledged key (meanwhile (count_if_sent write_command (true, c)))

unfoldable pub write_command_bytes_and_wait_for_ack :
    ℕ → ℕ → List ℕ → (EyouCan → EyouCan) → EyouCan → Bool × EyouCan
unfolding forget_ack frame_of submit_tx
write_command_bytes_and_wait_for_ack node sub payload meanwhile c =
    if not c.has_controller || not c.has_dispatcher
    then (false, c)
    else (let key = pending_read_key node sub in
        await_if_sent key meanwhile
          (submit_tx (frame_of node 8 write_command sub payload) control (forget_ack key c)))

unfoldable pub set_position_offset : ℕ → ℤ → (EyouCan → EyouCan) → EyouCan → Bool × EyouCan
unfolding register_managed_motor_id write_command_and_wait_for_ack
set_position_offset id offset meanwhile c =
    commanded id c
      λ node c1. write_command_and_wait_for_ack node 0x3B (to_u32 offset) 4 meanwhile c1

-- Looks for a value every 10 ms until the time is over.
unfoldable pub look :
    {A : Type 0} → (EyouCan → Option A) → List (EyouCan → EyouCan) → EyouCan → Option A × EyouCan
look seen [] c = (none, c)
look seen (step ∷ steps) c =
    let rest = look seen steps (step c) in elim (seen c) [ none ↦ rest | some v ↦ (some v, c) ]

abbrev look_if_sent :
    {A : Type 0}
    → (EyouCan → Option A)
    → List (EyouCan → EyouCan)
    → Bool × EyouCan
    → Option A × EyouCan
look_if_sent seen steps (false, c) = (none, c)
look_if_sent seen steps (true, c) = look seen steps c

abbrev offset_seen : ℕ → EyouCan → Option ℤ
offset_seen node c =
    let m = motor_at node c in if m.position_offset_received then some m.position_offset else none

abbrev serial_seen : ℕ → EyouCan → Option ℕ
serial_seen node c =
    let m = motor_at node c in if m.serial_number_received then some m.serial_number else none

unfoldable pub read_position_offset :
    ℕ → List (EyouCan → EyouCan) → ℕ → EyouCan → Option ℤ × EyouCan
unfolding register_managed_motor_id look try_issue_read_command
read_position_offset id steps now c =
    let node = to_protocol_node_id id in
    let c1 = register_managed_motor_id id c in
    let c2 = put_motor node (record (motor_at node c1) { position_offset_received = false }) c1 in
    if not c.has_controller
    then (none, c)
    else look_if_sent (offset_seen node) steps (try_issue_read_command node 0x3B now c2)

unfoldable pub read_serial_number : ℕ → List (EyouCan → EyouCan) → ℕ → EyouCan → Option ℕ × EyouCan
unfolding register_managed_motor_id look try_issue_read_command
read_serial_number id steps now c =
    let node = to_protocol_node_id id in
    let c1 = register_managed_motor_id id c in
    let c2 = put_motor node (record (motor_at node c1) { serial_number_received = false }) c1 in
    if not c.has_controller
    then (none, c)
    else look_if_sent (serial_seen node) steps (try_issue_read_command node 0x02 now c2)

-- So many attempts; `meanwhile` has what happens in the wait and the pause of each.
unfoldable pub persist_attempts :
    ℕ → ℕ → List ℕ → (ℕ → EyouCan → EyouCan) → (ℕ → EyouCan → EyouCan) → EyouCan → Bool × EyouCan
unfolding write_command_bytes_and_wait_for_ack
persist_attempts zero node payload meanwhile pause c = (false, c)
persist_attempts (suc n) node payload meanwhile pause c =
    let r = write_command_bytes_and_wait_for_ack node 0x4D payload (meanwhile n) c in
    let again =
      persist_attempts n node payload meanwhile pause (if n == 0 then r.1 else pause n r.1) in
    if r.0 then r else again

abbrev save_payload : ℕ → List ℕ
save_payload serial = serial / 65536 % 256 ∷ serial / 256 % 256 ∷ serial % 256 ∷ 1 ∷ []

abbrev persist_with :
    ℕ → (ℕ → EyouCan → EyouCan) → (ℕ → EyouCan → EyouCan) → Option ℕ × EyouCan → Bool × EyouCan
persist_with id meanwhile pause (none, c) = (false, c)
persist_with id meanwhile pause (some serial, c) =
    persist_attempts 3 (to_protocol_node_id id) (save_payload serial) meanwhile pause
      (register_managed_motor_id id c)

unfoldable pub persist_parameters :
    ℕ
    → List (EyouCan → EyouCan)
    → (ℕ → EyouCan → EyouCan)
    → (ℕ → EyouCan → EyouCan)
    → ℕ
    → EyouCan
    → Bool × EyouCan
unfolding read_serial_number persist_attempts register_managed_motor_id
persist_parameters id steps meanwhile pause now c =
    if not c.has_controller
    then (false, c)
    else persist_with id meanwhile pause (read_serial_number id steps now c)
