-- ===== src/Mt/Examples.antt =====
-- One MT motor on `can0`: the theorems on src/MtCan.cpp at concrete drivers, and tests.
use old_car_can_driver.Prelude.{
  ℕ, ◌%◌, true, false, ◌≡◌, refl, ◌⊎◌, none, some, List, [], ◌∷◌, arith, nat_eq,
}
use old_car_can_driver.Prelude.Int.{negsuc}
use old_car_can_driver.Prelude.Map.{find, insert}
use old_car_can_driver.Can.{Frame, ok, control, velocity, mt, to_mt_protocol_node_id}
use old_car_can_driver.MtRmd.{
  make_read_frame, response_node_id, is_response_can_id, read_motor_status_2, send_can_id,
  read_int32_le,
}
use old_car_can_driver.Refresh.{MtRefreshQuery}
use old_car_can_driver.DeviceRuntime.{Request}
use old_car_can_driver.SharedState.Data.{AxisFeedbackState, AxisCommandState}
use old_car_can_driver.SharedState.{
  SharedDriverState, get_axis_feedback, get_axis_command, make_axis_key,
}
use old_car_can_driver.SharedState.Degraded.{empty_state}
use old_car_can_driver.Mt.{
  MtCan, axis_key, motor_at, new_read, new_motor, compute_read_request_timeout,
}
use old_car_can_driver.Mt.Reads.{try_issue_read_command, read_at, pending_read_key}
use old_car_can_driver.Mt.Commands.{set_velocity}
use old_car_can_driver.Mt.Response.{handle_response}
use old_car_can_driver.Mt.Histories.{ReadEvent, polls, completes, registers, run}
use old_car_can_driver.Mt.Retries.{query_retried, polls_of, issued_once, timeout_noted_in_shared}
use old_car_can_driver.Mt.Answers.{answer_frees}
use old_car_can_driver.Mt.Wire.{angle_report, report_reaches_readers, velocity_reaches_wire}

abbrev fresh_driver : MtCan
fresh_driver = record {
  has_controller = true;
  has_dispatcher = true;
  shared_state = some empty_state;
  device_name = "can0";
  motor_states = [];
  refresh_motor_ids = [];
  system_motor_ids_by_node_id = [];
  refresh_interval_ms = none;
  shutting_down = false;
  pending_read_requests = [];
  communication_timeout_on_init_ms = 500;
  submitted = [];
}

-- A motor is registered, polled, and its query sent.
abbrev history : List (ℕ × ReadEvent)
history =
    (10, registers (0x141 ∷ []))
    ∷ (20, polls 0x141 MtRefreshQuery.state)
    ∷ (30, completes 1 0x9C true ok)
    ∷ []

sent_query : (read_at (pending_read_key 1 0x9C) (run history fresh_driver)).in_flight ≡ true
unfolding run find insert to_mt_protocol_node_id
sent_query = refl

query_retried_example :
    let c = run history fresh_driver in
    let (first, c1) = try_issue_read_command 1 0x9C 1500000030 c in
    (first ≡ true) ⊎ ((try_issue_read_command 1 0x9C 2000000030 c1).0 ≡ true)
unfolding run find insert to_mt_protocol_node_id
query_retried_example =
    query_retried 1 0x9C history fresh_driver 1500000030 2000000030 refl (omega arith) refl refl
      refl (omega arith) (omega arith)

abbrev enabled_driver : MtCan
enabled_driver = record fresh_driver {
  motor_states = (1, record new_motor { enabled = true; enabled_received = true }) ∷ [];
}

issued_once_example :
    (try_issue_read_command 1 0x9C 900 (
      polls_of
        ((1, 0x9C, 500) ∷ (2, 0x9A, 600) ∷ [])
        (try_issue_read_command 1 0x9C 100 fresh_driver).1)).0
    ≡ false
unfolding try_issue_read_command find insert
issued_once_example =
    issued_once 1 0x9C 100 900 ((1, 0x9C, 500) ∷ (2, 0x9A, 600) ∷ []) fresh_driver refl

-- A query that was sent at 30 and twice timed out before.
abbrev overdue_driver : MtCan
overdue_driver = record fresh_driver {
  pending_read_requests =
      (
        pending_read_key 1 0x9C,
        record new_read { last_sent = 30; in_flight = true; consecutive_timeouts = 2 },
      )
      ∷ [];
}

timeout_noted_in_shared_example :
    (s' : SharedDriverState) × (v : AxisFeedbackState) × ((try_issue_read_command 1 0x9C 250000030
        overdue_driver).1.shared_state
      ≡ some s')
    × (get_axis_feedback (axis_key 1 overdue_driver) s' ≡ some v)
    × (v.consecutive_timeout_count ≡ 3)
    × (v.degraded ≡ true)
unfolding find compute_read_request_timeout
timeout_noted_in_shared_example =
    timeout_noted_in_shared 1 0x9C 250000030 overdue_driver empty_state refl refl refl refl refl
      refl (omega arith) (omega arith)

abbrev status_report : Frame
status_report = record (make_read_frame (send_can_id 1) read_motor_status_2) { id = 0x241 }

answer_frees_example :
    (try_issue_read_command
      (response_node_id (status_report.id % 2048))
      0x9C
      90
      (handle_response status_report 80 overdue_driver)).0
    ≡ true
unfolding make_read_frame is_response_can_id
answer_frees_example = answer_frees status_report 80 90 overdue_driver refl refl refl

report_reaches_readers_example :
    let c' = handle_response (angle_report 1 (negsuc 4499)) 80 fresh_driver in
    (s' : SharedDriverState) × (v : AxisFeedbackState) × ((motor_at 1 c').multi_turn_angle
      ≡ negsuc 4499)
    × (c'.shared_state ≡ some s')
    × (get_axis_feedback (axis_key 1 fresh_driver) s' ≡ some v)
    × (v.position ≡ negsuc 4499)
    × (v.position_valid ≡ true)
    × (v.last_rx_steady_ns ≡ 80)
    × (v.consecutive_timeout_count ≡ 0)
    × (v.degraded ≡ false)
report_reaches_readers_example =
    report_reaches_readers 1 (negsuc 4499) 80 fresh_driver empty_state (omega arith) (omega arith)
      refl refl refl

velocity_reaches_wire_example :
    let (done, c') = set_velocity 0x141 (negsuc 299) 80 fresh_driver in
    (r : Request) × (s' : SharedDriverState) × (w : AxisCommandState) × (done ≡ true)
    × (c'.submitted ≡ r ∷ [])
    × (r.category ≡ control)
    × (r.frame.id ≡ send_can_id (to_mt_protocol_node_id 0x141))
    × (read_int32_le r.frame 4 ≡ negsuc 299)
    × (c'.shared_state ≡ some s')
    × (get_axis_command (make_axis_key "can0" mt 0x141) s' ≡ some w)
    × (w.target_velocity ≡ negsuc 299)
    × (w.desired_mode ≡ velocity)
    × (w.valid ≡ true)
velocity_reaches_wire_example =
    velocity_reaches_wire 0x141 (negsuc 299) 80 fresh_driver empty_state (omega arith) refl refl
      refl refl
