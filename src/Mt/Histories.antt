-- ===== src/Mt/Histories.antt =====
-- Histories of one MT driver (src/MtCan.cpp): polls, completions from the dispatcher, frames, fault
-- resets and registrations, each with its time.
use old_car_can_driver.Prelude.{
  ℕ, ◌≤◌, Bool, true, false, not, List, [], ◌∷◌, ◌≡◌, refl, arith, if_cases, nat_eq, null, ◌==◌,
  get_or, ◌%◌,
}
use old_car_can_driver.SharedState.Data.{recover as recovers}
use old_car_can_driver.Can.{
  Frame, SendResult, error, Category, config, recover, to_mt_protocol_node_id,
}
use old_car_can_driver.MtRmd.{
  Command, command_byte, read_motor_status_2, read_motor_status_1_and_error_flag,
  read_multi_turn_angle, write_current_multi_turn_position_to_rom_as_zero, response_node_id,
  make_communication_timeout_frame, send_can_id, make_reset_frame,
}
use old_car_can_driver.Refresh.{MtRefreshQuery}
use old_car_can_driver.Mt.{
  MtCan, MotorState, motor_at, put_motor, remember_system_motor_id, sync_shared_feedback,
  sync_shared_intent, submit_tx,
}
use old_car_can_driver.Mt.Reads.{
  reset_read_tracking, try_issue_read_command, on_read_dispatch_result, mark_read_response_received,
  send_read, request, request_state, request_error, request_multi_turn_angle, issue_refresh_query,
}
use old_car_can_driver.Mt.Commands.{
  reset_system, reset_fault, register_motors, send_timeouts, set_communication_timeout,
  initialize_motor_refresh,
}
use old_car_can_driver.Mt.Response.{
  is_ours, is_read, published, absorb, handle_response, note_answer, publish, reset_after_zero,
  take_response,
}
use old_car_can_driver.Mt.Tracking.{
  Tracked, try-Tracked, dispatch-Tracked, answered-Tracked, later-AllValues,
}

pub data ReadEvent : Type 0 where
  polls : ℕ → MtRefreshQuery → ReadEvent
  completes : ℕ → ℕ → Bool → SendResult → ReadEvent
  receives : Frame → ReadEvent
  resets : ℕ → ReadEvent
  registers : List ℕ → ReadEvent

unfoldable pub step : ℕ → ReadEvent → MtCan → MtCan
unfolding issue_refresh_query on_read_dispatch_result handle_response reset_fault
    initialize_motor_refresh
step now (polls id query) c = (issue_refresh_query id query now c).1
step now (completes node command attempted result) c =
    on_read_dispatch_result node command attempted result now c
step now (receives f) c = handle_response f now c
step now (resets id) c = (reset_fault id now c).1
step now (registers ids) c = initialize_motor_refresh ids c

unfoldable pub run : List (ℕ × ReadEvent) → MtCan → MtCan
unfolding step
run [] c = c
run ((now, e) ∷ es) c = run es (step now e c)

-- The times do not go back.
abbrev pub InOrder : ℕ → List (ℕ × ReadEvent) → Type 0
InOrder t [] = Unit
InOrder t ((now, e) ∷ es) = (t ≤ now) × InOrder now es

abbrev pub last_time : ℕ → List (ℕ × ReadEvent) → ℕ
last_time t [] = t
last_time t ((now, e) ∷ es) = last_time now es

send_timeouts-reads :
    (ms : ℕ) (nodes : List ℕ) (c : MtCan)
    → (send_timeouts ms nodes c).1.pending_read_requests ≡ c.pending_read_requests
unfolding send_timeouts submit_tx
send_timeouts-reads ms [] c = refl
send_timeouts-reads ms (node ∷ nodes) c = ground (
  arith,
  send_timeouts-reads ms nodes
      (submit_tx (make_communication_timeout_frame (send_can_id node) ms) config c).1,
)

module _ (t now : ℕ) (le : t ≤ now) where
  send-Tracked :
      (node : ℕ) (command : Command) (p : Bool × MtCan)
      → Tracked now p.1
      → Tracked now (send_read node command now p).1
  send-Tracked node command (false, c) h = h
  send-Tracked node command (true, c) h =
      if_cases (λ (q : Bool × MtCan). Tracked now q.1) c.has_dispatcher _
        (false, on_read_dispatch_result node (command_byte command) false error now c) (λ _. h)
        (λ _. dispatch-Tracked now now (omega arith) node (command_byte command) false error c h)

  request-Tracked :
      (command : Command) (node : ℕ) (c : MtCan)
      → Tracked t c
      → Tracked now (request command node now c).1
  request-Tracked command node c h =
      if_cases (λ (p : Bool × MtCan). Tracked now p.1) (not c.has_controller) (false, c)
        (send_read node command now (try_issue_read_command node (command_byte command) now c))
        (λ _. later-AllValues t now le c.pending_read_requests h)
        (λ _.
          send-Tracked node command (try_issue_read_command node (command_byte command) now c)
            (try-Tracked t now le node (command_byte command) c h))

  issue-Tracked :
      (id : ℕ) (query : MtRefreshQuery) (c : MtCan)
      → Tracked t c
      → Tracked now (issue_refresh_query id query now c).1
  unfolding issue_refresh_query remember_system_motor_id
  issue-Tracked id MtRefreshQuery.state c h =
      unfold request_state in
      request-Tracked read_motor_status_2 (to_mt_protocol_node_id id)
        (remember_system_motor_id id c) h
  issue-Tracked id MtRefreshQuery.multi_turn_angle c h =
      unfold request_multi_turn_angle in
      request-Tracked read_multi_turn_angle (to_mt_protocol_node_id id)
        (remember_system_motor_id id c) h
  issue-Tracked id MtRefreshQuery.error c h =
      unfold request_error in
      request-Tracked read_motor_status_1_and_error_flag (to_mt_protocol_node_id id)
        (remember_system_motor_id id c) h

submit-Tracked :
    (t : ℕ) (frame : Frame) (category : Category) (c : MtCan)
    → Tracked t c
    → Tracked t (submit_tx frame category c).1
unfolding submit_tx
submit-Tracked t frame category c h =
    if_cases (λ (p : Bool × MtCan). Tracked t p.1) c.has_dispatcher _ (false, c) (λ _. h) (λ _. h)

zero-Tracked :
    (t node command : ℕ) (c : MtCan) → Tracked t c → Tracked t (reset_after_zero node command c)
unfolding reset_after_zero reset_system
zero-Tracked t node command c h =
    if_cases (Tracked t) (command == command_byte write_current_multi_turn_position_to_rom_as_zero)
      (reset_system node c) c
      (λ _. submit-Tracked t (make_reset_frame (send_can_id node)) recover c h) (λ _. h)

publish-Tracked :
    (t node command : ℕ) (m : MotorState) (now : ℕ) (c : MtCan)
    → Tracked t c
    → Tracked t (publish node command m now c)
unfolding publish sync_shared_feedback
publish-Tracked t node command m now c h =
    if_cases (Tracked t) (published command) (sync_shared_feedback node m now c) c (λ _. h) (λ _. h)

module _ (t now : ℕ) (le : t ≤ now) where
  answer-Tracked :
      (node command : ℕ) (c : MtCan) → Tracked t c → Tracked now (note_answer node command c)
  unfolding note_answer
  answer-Tracked node command c h =
      if_cases (Tracked now) (is_read command) (mark_read_response_received node command c) c
        (λ _. answered-Tracked t now le node command c h)
        (λ _. later-AllValues t now le c.pending_read_requests h)

  response-Tracked : (f : Frame) (c : MtCan) → Tracked t c → Tracked now (handle_response f now c)
  unfolding handle_response take_response
  response-Tracked f c h =
      let command = get_or f.data_bytes 0 0 in
      let node = response_node_id (f.id % 2048) in
      let c1 = note_answer node command c in
      let m = absorb f command (motor_at node c1) in
      if_cases (Tracked now) (not (is_ours f c)) c (take_response f command node now c)
        (λ _. later-AllValues t now le c.pending_read_requests h)
        (λ _. zero-Tracked now node command (publish node command m now (put_motor node m c1)) (
          publish-Tracked now node command m now (put_motor node m c1)
            (answer-Tracked node command c h)))

  reset-Tracked : (id : ℕ) (c : MtCan) → Tracked t c → Tracked now (reset_fault id now c).1
  unfolding reset_fault remember_system_motor_id sync_shared_intent reset_system
  reset-Tracked id c h =
      let node = to_mt_protocol_node_id id in
      let c1 = sync_shared_intent node recovers (remember_system_motor_id id c) in
      let c2 = reset_system node c1 in
      let error_byte = command_byte read_motor_status_1_and_error_flag in
      if_cases (λ (p : Bool × MtCan). Tracked now p.1) (not c.has_controller) (false, c)
        (true, (request_error node now (mark_read_response_received node error_byte c2)).1)
        (λ _. later-AllValues t now le c.pending_read_requests h)
        (λ _.
          unfold request_error in
          request-Tracked now now (omega arith) read_motor_status_1_and_error_flag node
            (mark_read_response_received node error_byte c2)
            (answered-Tracked t now le node error_byte c2
              (submit-Tracked t (make_reset_frame (send_can_id node)) recover c1 h)))

-- A registration forgets every read.
timeouts-Tracked :
    (t ms : ℕ) (nodes : List ℕ) (c : MtCan) → Tracked t c → Tracked t (send_timeouts ms nodes c).1
timeouts-Tracked t ms nodes c h = rw (send_timeouts-reads ms nodes c) h

initialize-Tracked :
    (now : ℕ) (ids : List ℕ) (c : MtCan) → Tracked now (initialize_motor_refresh ids c)
unfolding initialize_motor_refresh reset_read_tracking set_communication_timeout
initialize-Tracked now ids c =
    let empty = record c { refresh_motor_ids = []; system_motor_ids_by_node_id = [] } in
    let c2 = reset_read_tracking (register_motors ids empty) in
    let ms = c2.communication_timeout_on_init_ms in
    if_cases (Tracked now) (null ids) (reset_read_tracking c2) (set_communication_timeout ms c2).1
      (λ _. tt)
      (λ _.
        if_cases (λ (p : Bool × MtCan). Tracked now p.1) (not c2.has_controller) (false, c2) _
          (λ _. tt)
          (λ _.
            if_cases (λ (p : Bool × MtCan). Tracked now p.1) (null c2.refresh_motor_ids) (false, c2)
              (send_timeouts ms c2.refresh_motor_ids c2) (λ _. tt)
              (λ _. timeouts-Tracked now ms c2.refresh_motor_ids c2 tt)))

step-Tracked :
    (t now : ℕ) (e : ReadEvent) (c : MtCan) → t ≤ now → Tracked t c → Tracked now (step now e c)
unfolding step
step-Tracked t now (polls id query) c le h = issue-Tracked t now le id query c h
step-Tracked t now (completes node command attempted result) c le h =
    dispatch-Tracked t now le node command attempted result c h
step-Tracked t now (receives f) c le h = response-Tracked t now le f c h
step-Tracked t now (resets id) c le h = reset-Tracked t now le id c h
step-Tracked t now (registers ids) c le h = initialize-Tracked now ids c

pub run-Tracked :
    (t : ℕ) (es : List (ℕ × ReadEvent)) (c : MtCan)
    → InOrder t es
    → Tracked t c
    → Tracked (last_time t es) (run es c)
unfolding run
run-Tracked t [] c o h = h
run-Tracked t ((now, e) ∷ es) c o h =
    run-Tracked now es (step now e c) o.1 (step-Tracked t now e c o.0 h)
