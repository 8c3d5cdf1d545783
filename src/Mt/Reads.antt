-- ===== src/Mt/Reads.antt =====
-- The tracking of the MT reads, src/MtCan.cpp: when a query is sent, when it counts as timed out and
-- how long its retry waits.
use old_car_can_driver.Prelude.{
  ℕ, ◌+◌, ◌*◌, ◌%◌, min, Bool, true, false, not, ◌&&◌, ◌||◌, Option, none, some, [], ltb, ◌==◌,
  if◌then◌else◌, nat_eq,
}
use old_car_can_driver.Prelude.Map.{find, insert, or_new}
use old_car_can_driver.Can.{SendResult, ok, error, query, to_mt_protocol_node_id}
use old_car_can_driver.MtRmd.{
  Command, command_byte, read_motor_status_2, read_motor_status_1_and_error_flag,
  read_multi_turn_angle, make_read_frame, send_can_id,
}
use old_car_can_driver.Refresh.{MtRefreshQuery}
use old_car_can_driver.Mt.{
  PendingReadRequest, MtCan, new_read, hand_over, note_shared_timeout, remember_system_motor_id,
  compute_read_request_timeout, compute_timeout_backoff,
}

abbrev pub ns_of_ms : ℕ → ℕ
ns_of_ms ms = ms * 1000000

abbrev pub pending_read_key : ℕ → ℕ → ℕ
pending_read_key node command = (node * 256 + command) % 65536

-- What the locked part of tryIssueReadCommand comes to.
pub data Verdict : Type 0 where
  held issued : Verdict
  delayed : ℕ → Verdict

unfoldable pub try_entry : ℕ → ℕ → PendingReadRequest → Verdict × PendingReadRequest
try_entry now timeout_ms r =
    if not (r.next_eligible_send == 0) && ltb now r.next_eligible_send
    then (held, r)
    else if r.queued
    then (held, r)
    else if r.in_flight && ltb now (r.last_sent + ns_of_ms timeout_ms)
    then (held, r)
    else if r.in_flight
    then (let timeouts = min (r.consecutive_timeouts + 1) 8 in
        (
          delayed timeouts,
          record r {
            in_flight = false;
            consecutive_timeouts = timeouts;
            next_eligible_send = now + ns_of_ms (compute_timeout_backoff timeouts timeout_ms);
          },
        ))
    else (issued, record r { queued = true; next_eligible_send = 0 })

abbrev pub read_at : ℕ → MtCan → PendingReadRequest
read_at key c = or_new (find key c.pending_read_requests) new_read

abbrev pub put_read : ℕ → PendingReadRequest → MtCan → MtCan
put_read key r c = record c { pending_read_requests = insert key r c.pending_read_requests }

abbrev pub settle : ℕ → Verdict → MtCan → Bool × MtCan
settle node held c = (false, c)
settle node issued c = (true, c)
settle node (delayed timeouts) c = (false, note_shared_timeout node timeouts c)

abbrev pub poll : ℕ → ℕ → ℕ → MtCan → Bool × MtCan
poll node command now c =
    let key = pending_read_key node command in
    let (verdict, r) = try_entry now (compute_read_request_timeout c) (read_at key c) in
    settle node verdict (put_read key r c)

unfoldable pub try_issue_read_command : ℕ → ℕ → ℕ → MtCan → Bool × MtCan
unfolding try_entry
try_issue_read_command node command now c =
    if c.shutting_down || not c.has_controller then (false, c) else poll node command now c

abbrev dispatched : Bool → SendResult → Bool
dispatched true ok = true
dispatched _ _ = false

unfoldable pub dispatch_noted : Bool → SendResult → ℕ → PendingReadRequest → PendingReadRequest
dispatch_noted attempted_send result event_time r =
    if dispatched attempted_send result
    then record r { queued = false; in_flight = true; last_sent = event_time }
    else record r { queued = false; in_flight = false }

abbrev pub put_changed :
    (PendingReadRequest → PendingReadRequest) → ℕ → MtCan → Option PendingReadRequest → MtCan
put_changed f key c none = c
put_changed f key c (some r) = put_read key (f r) c

abbrev pub change_read : (PendingReadRequest → PendingReadRequest) → ℕ → MtCan → MtCan
change_read f key c = put_changed f key c (find key c.pending_read_requests)

unfoldable pub on_read_dispatch_result : ℕ → ℕ → Bool → SendResult → ℕ → MtCan → MtCan
unfolding dispatch_noted
on_read_dispatch_result node command attempted_send result event_time c =
    if c.shutting_down
    then c
    else change_read (dispatch_noted attempted_send result event_time)
        (pending_read_key node command) c

abbrev pub answered : PendingReadRequest → PendingReadRequest
answered r = record r {
  queued = false;
  in_flight = false;
  next_eligible_send = 0;
  consecutive_timeouts = 0;
}

unfoldable pub mark_read_response_received : ℕ → ℕ → MtCan → MtCan
mark_read_response_received node command c = change_read answered (pending_read_key node command) c

unfoldable pub reset_read_tracking : MtCan → MtCan
reset_read_tracking c = record c { pending_read_requests = [] }

-- requestState, requestError and requestMultiTurnAngle differ in the command alone.
abbrev pub send_read : ℕ → Command → ℕ → Bool × MtCan → Bool × MtCan
send_read node command now (false, c) = (false, c)
send_read node command now (true, c) =
    if c.has_dispatcher
    then (
      true,
      hand_over
          (record {
            frame = make_read_frame (send_can_id node) command;
            category = query;
            completion = some (pending_read_key node (command_byte command));
          })
          c,
    )
    else (false, on_read_dispatch_result node (command_byte command) false error now c)

abbrev pub request : Command → ℕ → ℕ → MtCan → Bool × MtCan
request command node now c =
    if not c.has_controller
    then (false, c)
    else send_read node command now (try_issue_read_command node (command_byte command) now c)

unfoldable pub request_state : ℕ → ℕ → MtCan → Bool × MtCan
unfolding try_issue_read_command on_read_dispatch_result
request_state = request read_motor_status_2

unfoldable pub request_error : ℕ → ℕ → MtCan → Bool × MtCan
unfolding try_issue_read_command on_read_dispatch_result
request_error = request read_motor_status_1_and_error_flag

unfoldable pub request_multi_turn_angle : ℕ → ℕ → MtCan → Bool × MtCan
unfolding try_issue_read_command on_read_dispatch_result
request_multi_turn_angle = request read_multi_turn_angle

unfoldable pub issue_refresh_query : ℕ → MtRefreshQuery → ℕ → MtCan → Bool × MtCan
unfolding remember_system_motor_id request_state request_error request_multi_turn_angle
issue_refresh_query id MtRefreshQuery.state now c =
    request_state (to_mt_protocol_node_id id) now (remember_system_motor_id id c)
issue_refresh_query id MtRefreshQuery.multi_turn_angle now c =
    request_multi_turn_angle (to_mt_protocol_node_id id) now (remember_system_motor_id id c)
issue_refresh_query id MtRefreshQuery.error now c =
    request_error (to_mt_protocol_node_id id) now (remember_system_motor_id id c)
