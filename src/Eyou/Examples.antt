-- ===== src/Eyou/Examples.antt =====
-- Concrete runs of the PP driver, and the theorems about src/EyouCan.cpp at them.
use old_car_can_driver.Prelude.{true, false, ◌≡◌, refl, none, [], ◌∷◌, ◌++◌, map, nat_eq}
use old_car_can_driver.Prelude.Int.{pos}
use old_car_can_driver.Prelude.Map.{find, insert}
use old_car_can_driver.Can.{Frame, to_protocol_node_id}
use old_car_can_driver.Eyou.{
  EyouCan, register_managed_motor_id, sync_shared_feedback, is_managed_motor_id,
}
use old_car_can_driver.Eyou.Sending.{
  frame_of, padded, submit_tx, send_write_command, mark_read_response_received,
}
use old_car_can_driver.Eyou.Commands.{quick_set_position, enable_motor, get_position}
use old_car_can_driver.Eyou.Response.{
  read_uint32_be, absorb, mark_write_ack_received, take_write_ack, take_read_response,
  take_response, handle_response,
}
use old_car_can_driver.Eyou.Waits.{forget_ack, write_command_and_wait_for_ack, set_position_offset}
use old_car_can_driver.Eyou.Acknowledged.{receive_all, offset_needs_ack}
use old_car_can_driver.Eyou.Ready.{velocity_written, position_write}
use old_car_can_driver.Eyou.Preloads.{csp_after_enable}

abbrev driver : EyouCan
driver = record {
  has_controller = true;
  has_dispatcher = true;
  shared_state = none;
  device_name = "can0";
  motor_states = [];
  refresh_motor_ids = [];
  managed_motor_ids = [];
  system_motor_ids_by_node_id = [];
  position_velocity_raw_by_motor_id = [];
  csp_velocity_raw_by_motor_id = [];
  refresh_interval_ms = none;
  fast_write_enabled = true;
  default_position_velocity_raw = pos 10922;
  default_csp_velocity_raw = pos 10922;
  fast_write_sent_count = 0;
  normal_write_sent_count = 0;
  shutting_down = false;
  pending_read_requests = [];
  pending_write_acks = [];
  submitted = [];
}

-- What node 5 reports: a position of 74565, and the acknowledgement of the offset register, done and
-- refused.
abbrev position_report : Frame
position_report = frame_of 5 6 0x04 0x07 (0 ∷ 1 ∷ 0x23 ∷ 0x45 ∷ [])

abbrev offset_done : Frame
offset_done = frame_of 5 3 0x02 0x3B (1 ∷ [])

abbrev offset_refused : Frame
offset_refused = frame_of 5 3 0x02 0x3B (2 ∷ [])

reported : (get_position 5 (handle_response position_report 100 driver)).0 ≡ pos 74565
unfolding handle_response take_response take_read_response absorb read_uint32_be frame_of padded
    sync_shared_feedback mark_read_response_received is_managed_motor_id get_position find insert
    to_protocol_node_id
reported = refl

offset_answers :
    map
      (λ f. (set_position_offset 5 (pos 7) (receive_all ((100, f) ∷ [])) driver).0)
      (offset_done ∷ offset_refused ∷ position_report ∷ [])
    ≡ true ∷ false ∷ false ∷ []
unfolding set_position_offset write_command_and_wait_for_ack receive_all handle_response
    take_response take_write_ack take_read_response mark_write_ack_received frame_of padded
    forget_ack send_write_command submit_tx register_managed_motor_id is_managed_motor_id
    mark_read_response_received sync_shared_feedback find to_protocol_node_id insert
offset_answers = refl

offset_needs_ack_example :
    (set_position_offset 5 (pos 7) (receive_all ((100, position_report) ∷ [])) driver).0 ≡ false
unfolding frame_of padded
offset_needs_ack_example =
    offset_needs_ack 5 (pos 7) ((100, position_report) ∷ []) driver (refl, tt)

csp_after_enable_example :
    let a = (enable_motor 5 1 driver).1 in
    let first = quick_set_position 5 (pos 100) 2 a in
    let second = quick_set_position 5 (pos 200) 3 first.1 in
    (first.0 ≡ true)
    × (second.0 ≡ true)
    × (first.1.submitted
        ≡ velocity_written true 5 (pos 10922) a.submitted ++ position_write 5 (pos 100) ∷ [])
    × (second.1.submitted ≡ first.1.submitted ++ position_write 5 (pos 200) ∷ [])
unfolding find to_protocol_node_id
csp_after_enable_example = csp_after_enable 5 (pos 100) (pos 200) 1 2 3 driver refl refl refl
