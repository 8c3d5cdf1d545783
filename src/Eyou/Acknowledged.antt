-- ===== src/Eyou/Acknowledged.antt =====
-- When a PP write that waits for its acknowledgement counts as done (src/EyouCan.cpp).
use old_car_can_driver.Prelude.{
  ℕ, ◌%◌, Bool, true, false, not, ◌&&◌, ◌||◌, ◌≡◌, refl, ap, ◌∙◌, arith, nat_eq, some, List, [],
  ◌∷◌, ◌==◌, if_cases, All,
}
use old_car_can_driver.Prelude.Int.{ℤ, to_u32}
use old_car_can_driver.Prelude.Map.{find, insert, or_new, find-insert, find-insert_self}
use old_car_can_driver.Can.{Frame, to_protocol_node_id}
use old_car_can_driver.Eyou.{
  PendingWriteAck, EyouCan, motor_at, put_motor, register_managed_motor_id, sync_shared_feedback,
  PendingReadRequest,
}
use old_car_can_driver.Eyou.Sending.{
  pending_read_key, answered, write_command, mark_read_response_received, send_write_command,
}
use old_car_can_driver.DeviceRuntime.{Request}
use old_car_can_driver.Eyou.Untouched.{reread-view, put_changed-view, send_write_command-view}
use old_car_can_driver.Eyou.Response.{
  byte_at, data_byte_or_zero, mark_write_ack_received, write_done, take_write_ack,
  take_read_response, is_ours, take_response, handle_response,
}
use old_car_can_driver.Eyou.Waits.{
  no_ack, forget_ack, acknowledged, write_command_and_wait_for_ack, set_position_offset,
}

-- The frames that arrive during a wait, with the time of each.
unfoldable pub receive_all : List (ℕ × Frame) → EyouCan → EyouCan
receive_all [] c = c
receive_all ((now, f) ∷ fs) c = receive_all fs (handle_response f now c)

-- The key of the write that a frame acknowledges.
abbrev pub acks : ℕ → Frame → Bool
acks key f = byte_at f 0 == 0x02 && pending_read_key (f.id % 2048 % 256) (byte_at f 1) == key

abbrev acks_of : EyouCan → List (ℕ × PendingWriteAck)
acks_of c = c.pending_write_acks

blind :
    (c : EyouCan) (reads : List (ℕ × PendingReadRequest)) (requests : List Request)
    (fast normal : ℕ)
    → acks_of (record c {
      pending_read_requests = reads;
      submitted = requests;
      fast_write_sent_count = fast;
      normal_write_sent_count = normal;
    })
      ≡ acks_of c
blind c reads requests fast normal = refl

take_write_ack-acks :
    (node sub state now : ℕ) (c : EyouCan)
    → (take_write_ack node sub state now c).pending_write_acks
      ≡ insert
          (pending_read_key node sub)
          (record { received = true; state = state })
          c.pending_write_acks
unfolding take_write_ack mark_write_ack_received
take_write_ack-acks node sub state now c =
    let c1 = mark_write_ack_received node sub state c in
    if_cases
      (λ (d : EyouCan).
        d.pending_write_acks
        ≡ insert (pending_read_key node sub) (record { received = true; state = state })
            c.pending_write_acks)
      (write_done state) _ _ (λ _. refl) (λ _. reread-view acks_of blind node sub now c1)

take_read_response-acks :
    (f : Frame) (node sub now : ℕ) (c : EyouCan)
    → (take_read_response f node sub now c).pending_write_acks ≡ c.pending_write_acks
unfolding take_read_response sync_shared_feedback mark_read_response_received
take_read_response-acks f node sub now c =
    put_changed-view acks_of blind (answered now) (pending_read_key node sub) c _

-- The entry of an acknowledgement that the frame is not about.
handle_response-ack_at :
    (key : ℕ) (f : Frame) (now : ℕ) (c : EyouCan)
    → acks key f ≡ false
    → find key (handle_response f now c).pending_write_acks ≡ find key c.pending_write_acks
unfolding handle_response take_response
handle_response-ack_at key f now c h =
    let node = f.id % 2048 % 256 in
    let sub = byte_at f 1 in
    let c1 = put_motor node (motor_at node c) c in
    let state = data_byte_or_zero f 2 in
    if_cases (λ (d : EyouCan). find key d.pending_write_acks ≡ find key c.pending_write_acks)
      (is_ours f c) _ _
      (λ _.
        if_cases (λ (d : EyouCan). find key d.pending_write_acks ≡ find key c.pending_write_acks)
          (byte_at f 0 == 0x02) _ _
          (λ e.
            ap (find key) (take_write_ack-acks node sub state now c1)
            ∙ ground (
              arith,
              e,
              h,
              find-insert (pending_read_key node sub) key
                  (record { received = true; state = state }) c.pending_write_acks,
              nat_eq.beq_iff (pending_read_key node sub) key,
            ))
          (λ _.
            if_cases
              (λ (d : EyouCan). find key d.pending_write_acks ≡ find key c.pending_write_acks)
              (byte_at f 0 == 0x04) _ _
              (λ _. ap (find key) (take_read_response-acks f node sub now c1)) (λ _. refl)))
      (λ _. refl)

receive_all-ack_at :
    (key : ℕ) (fs : List (ℕ × Frame)) (c : EyouCan)
    → All (λ nf. acks key nf.1 ≡ false) fs
    → find key (receive_all fs c).pending_write_acks ≡ find key c.pending_write_acks
unfolding receive_all
receive_all-ack_at key [] c h = refl
receive_all-ack_at key ((now, f) ∷ fs) c h =
    receive_all-ack_at key fs (handle_response f now c) h.1 ∙ handle_response-ack_at key f now c h.0

not_acknowledged :
    (key : ℕ) (d : EyouCan)
    → find key d.pending_write_acks ≡ some no_ack
    → (acknowledged key d).0 ≡ false
not_acknowledged key d e =
    ap (λ o. (or_new o no_ack).received && write_done (or_new o no_ack).state) e

commanded_offset :
    (node v : ℕ) (fs : List (ℕ × Frame)) (c : EyouCan)
    → All (λ nf. acks (pending_read_key node 0x3B) nf.1 ≡ false) fs
    → (write_command_and_wait_for_ack node 0x3B v 4 (receive_all fs) c).0 ≡ false
unfolding write_command_and_wait_for_ack forget_ack
commanded_offset node v fs c h =
    let key = pending_read_key node 0x3B in
    let c1 = forget_ack key c in
    let c2 = send_write_command node 0x3B v 4 write_command c1 in
    let kept =
      receive_all-ack_at key fs c2 h
      ∙ ap (find key) (send_write_command-view acks_of blind node 0x3B v 4 write_command c1)
      ∙ find-insert_self key no_ack c.pending_write_acks in
    if_cases (λ (r : Bool × EyouCan). r.0 ≡ false) (not c.has_controller || not c.has_dispatcher) _
      _ (λ _. refl) (λ _. not_acknowledged key (receive_all fs c2) kept)

-- When none of the frames that arrive during the wait acknowledges the offset register of the
-- motor, whatever acknowledgements came before, setting the position offset answers that it
-- failed.
pub offset_needs_ack :
    (id : ℕ) (offset : ℤ) (fs : List (ℕ × Frame)) (c : EyouCan)
    → All (λ nf. acks (pending_read_key (to_protocol_node_id id) 0x3B) nf.1 ≡ false) fs
    → (set_position_offset id offset (receive_all fs) c).0 ≡ false
unfolding set_position_offset
offset_needs_ack id offset fs c h =
    let node = to_protocol_node_id id in
    if_cases (λ (r : Bool × EyouCan). r.0 ≡ false) (not c.has_controller) _ _ (λ _. refl)
      (λ _. commanded_offset node (to_u32 offset) fs (register_managed_motor_id id c) h)
