-- ===== src/Mt/Answers.antt =====
-- What the MT motors' frames and the driver's commands do (src/MtCan.cpp).
use old_car_can_driver.Prelude.{
  ℕ, ◌%◌, true, false, not, ◌≡◌, refl, ap, ◌∙◌, arith, if◌then◌else◌, if_cases, nat_eq, ◌==◌,
  ==_iff, get_or, Option, none, some, List,
}
use old_car_can_driver.Prelude.Map.{find, or_new, find-insert, find-insert_self}
use old_car_can_driver.Can.{Frame, to_mt_protocol_node_id}
use old_car_can_driver.MtRmd.{response_node_id}
use old_car_can_driver.Mt.{
  MotorState, PendingReadRequest, MtCan, new_read, compute_read_request_timeout, motor_at,
  put_motor, sync_shared_feedback, submit_tx,
}
use old_car_can_driver.Mt.Reads.{
  pending_read_key, issued, try_entry, read_at, put_changed, answered, mark_read_response_received,
  try_issue_read_command,
}
use old_car_can_driver.Mt.Commands.{reset_system, is_enabled}
use old_car_can_driver.Mt.Response.{
  is_read, is_ours, published, absorb, note_answer, publish, reset_after_zero, take_response,
  handle_response,
}
use old_car_can_driver.Mt.Retries.{can_read, is_issued, try-poll, poll_lem}

-- Two drivers that agree on their reads and on whether they may read.
record SameReads (c d : MtCan) : Type 0 where
  pub reads : c.pending_read_requests ≡ d.pending_read_requests
  pub able : can_read c ≡ can_read d

publish-SameReads :
    (node command : ℕ) (m : MotorState) (now : ℕ) (c : MtCan)
    → SameReads (publish node command m now c) c
unfolding publish sync_shared_feedback
publish-SameReads node command m now c =
    if_cases (λ d. SameReads d c) (published command) (sync_shared_feedback node m now c) c
      (λ _. record { reads = refl; able = refl }) (λ _. record { reads = refl; able = refl })

zero-SameReads : (node command : ℕ) (c : MtCan) → SameReads (reset_after_zero node command c) c
unfolding reset_after_zero reset_system submit_tx
zero-SameReads node command c = ground arith

take-SameReads :
    (f : Frame) (command node now : ℕ) (c : MtCan)
    → SameReads (take_response f command node now c) (note_answer node command c)
unfolding take_response
take-SameReads f command node now c =
    let c1 = note_answer node command c in
    let m = absorb f command (motor_at node c1) in
    let p = publish-SameReads node command m now (put_motor node m c1) in
    let z = zero-SameReads node command (publish node command m now (put_motor node m c1)) in
    record { reads = z.reads ∙ p.reads; able = z.able ∙ p.able }

-- The entry of an answered read is free.
record IsFree (r : PendingReadRequest) : Type 0 where
  pub eligible : r.next_eligible_send ≡ 0
  pub unqueued : r.queued ≡ false
  pub landed : r.in_flight ≡ false

free-issued :
    (now timeout : ℕ) (r : PendingReadRequest) → IsFree r → (try_entry now timeout r).0 ≡ issued
unfolding try_entry
free-issued now timeout r h = ground arith

try-free :
    (node command now : ℕ) (c : MtCan)
    → can_read c ≡ true
    → IsFree (read_at (pending_read_key node command) c)
    → (try_issue_read_command node command now c).0 ≡ true
try-free node command now c able free =
    let key = pending_read_key node command in
    rw (try-poll node command now c able) (
      (poll_lem node command now c key).0
      ∙ ap is_issued (free-issued now (compute_read_request_timeout c) (read_at key c) free))

changed-IsFree :
    (key : ℕ) (c : MtCan) (o : Option PendingReadRequest)
    → find key c.pending_read_requests ≡ o
    → let c' = put_changed answered key c o in IsFree (read_at key c') × (can_read c' ≡ can_read c)
changed-IsFree key c none e =
    (rw e (record { eligible = refl; unqueued = refl; landed = refl }), refl)
changed-IsFree key c (some r) e = (
  rw (find-insert_self key (answered r) c.pending_read_requests)
      (record { eligible = refl; unqueued = refl; landed = refl }),
  refl,
)

mark-IsFree :
    (node command : ℕ) (c : MtCan)
    → let c' = mark_read_response_received node command c in
      IsFree (read_at (pending_read_key node command) c') × (can_read c' ≡ can_read c)
unfolding mark_read_response_received
mark-IsFree node command c =
    let key = pending_read_key node command in
    changed-IsFree key c (find key c.pending_read_requests) refl

note_answer_lem :
    (node command : ℕ) (c : MtCan)
    → is_read command ≡ true
    → note_answer node command c ≡ mark_read_response_received node command c
unfolding note_answer
note_answer_lem node command c read = rw read refl

ours-can_read :
    (f : Frame) (c : MtCan) → is_ours f c ≡ true → c.has_controller ≡ true → can_read c ≡ true
ours-can_read f c ours there = ground arith

-- After a frame of the driver's own that answers a read of status 1, status 2 or the multi-turn
-- angle, of a driver with a controller, that read is issued by the next poll at any time.
pub answer_frees :
    (f : Frame) (now later : ℕ) (c : MtCan)
    → let node = response_node_id (f.id % 2048) in
      let command = get_or f.data_bytes 0 0 in
      is_ours f c ≡ true
      → is_read command ≡ true
      → c.has_controller ≡ true
      → (try_issue_read_command node command later (handle_response f now c)).0 ≡ true
unfolding handle_response
answer_frees f now later c ours read there =
    let node = response_node_id (f.id % 2048) in
    let command = get_or f.data_bytes 0 0 in
    let key = pending_read_key node command in
    let c1 = mark_read_response_received node command c in
    let freed = mark-IsFree node command c in
    let d = take_response f command node now c in
    let same = take-SameReads f command node now c in
    let noted = note_answer_lem node command c read in
    let entry : read_at key d ≡ read_at key c1 =
      ap (λ (m : List (ℕ × PendingReadRequest)). or_new (find key m) new_read)
        (same.reads ∙ ap (λ (e : MtCan). e.pending_read_requests) noted) in
    let able : can_read d ≡ true =
      same.able ∙ ap can_read noted ∙ freed.1 ∙ ours-can_read f c ours there in
    rw ours (try-free node command later d able (rw entry freed.0))

module _ (f : Frame) (command : ℕ) (m : MotorState) where
  absorb-enabled : (absorb f command m).enabled ≡ m.enabled
  unfolding absorb
  absorb-enabled = ground arith

  absorb-commanded : (absorb f command m).commanded_velocity ≡ m.commanded_velocity
  unfolding absorb
  absorb-commanded = ground arith

  absorb-mode : (absorb f command m).mode ≡ m.mode
  unfolding absorb
  absorb-mode = ground arith

publish-motors :
    (node command : ℕ) (m : MotorState) (now : ℕ) (c : MtCan)
    → (publish node command m now c).motor_states ≡ c.motor_states
unfolding publish sync_shared_feedback
publish-motors node command m now c =
    if_cases (λ (d : MtCan). d.motor_states ≡ c.motor_states) (published command)
      (sync_shared_feedback node m now c) c (λ _. refl) (λ _. refl)

zero-motors :
    (node command : ℕ) (c : MtCan) → (reset_after_zero node command c).motor_states ≡ c.motor_states
unfolding reset_after_zero reset_system submit_tx
zero-motors node command c = ground arith

changed-motors :
    (key : ℕ) (c : MtCan) (o : Option PendingReadRequest)
    → (put_changed answered key c o).motor_states ≡ c.motor_states
changed-motors key c none = refl
changed-motors key c (some r) = refl

note-motors :
    (node command : ℕ) (c : MtCan) → (note_answer node command c).motor_states ≡ c.motor_states
unfolding note_answer mark_read_response_received
note-motors node command c =
    let key = pending_read_key node command in
    if_cases (λ (d : MtCan). d.motor_states ≡ c.motor_states) (is_read command)
      (mark_read_response_received node command c) c
      (λ _. changed-motors key c (find key c.pending_read_requests)) (λ _. refl)

-- What a frame of a motor leaves behind for each motor.
pub motor_at-take :
    (f : Frame) (command node now other : ℕ) (c : MtCan)
    → motor_at other (take_response f command node now c)
      ≡ (if node == other then absorb f command (motor_at node c) else motor_at other c)
unfolding take_response
motor_at-take f command node now other c =
    let c1 = note_answer node command c in
    let m = absorb f command (motor_at node c1) in
    let stored =
      zero-motors node command (publish node command m now (put_motor node m c1))
      ∙ publish-motors node command m now (put_motor node m c1) in
    rw (stored, find-insert node other m c1.motor_states, note-motors node command c) (ground arith)

-- The frame changes of a motor at most what the motor reports.
take-driver_state :
    (f : Frame) (command node now other : ℕ) (c : MtCan)
    → let after = motor_at other (take_response f command node now c) in
      let before = motor_at other c in
      (after.enabled ≡ before.enabled)
      × (after.mode ≡ before.mode)
      × (after.commanded_velocity ≡ before.commanded_velocity)
take-driver_state f command node now other c = rw (motor_at-take f command node now other c) (
    ground (
      arith,
      ==_iff node other,
      absorb-enabled f command (motor_at node c),
      absorb-mode f command (motor_at node c),
      absorb-commanded f command (motor_at node c),
    ))

-- No frame changes whether a motor counts as enabled, its mode or its commanded velocity.
pub frames_keep_driver_state :
    (f : Frame) (now id : ℕ) (c : MtCan)
    → let node = to_mt_protocol_node_id id in
      let c' = handle_response f now c in
      (is_enabled id c' ≡ is_enabled id c)
      × ((motor_at node c').mode ≡ (motor_at node c).mode)
      × ((motor_at node c').commanded_velocity ≡ (motor_at node c).commanded_velocity)
unfolding handle_response is_enabled
frames_keep_driver_state f now id c =
    let node = to_mt_protocol_node_id id in
    if_cases
      (λ (d : MtCan).
        ((motor_at node d).enabled ≡ (motor_at node c).enabled)
        × ((motor_at node d).mode ≡ (motor_at node c).mode)
        × ((motor_at node d).commanded_velocity ≡ (motor_at node c).commanded_velocity))
      (not (is_ours f c)) c
      (take_response f (get_or f.data_bytes 0 0) (response_node_id (f.id % 2048)) now c)
      (λ _. (refl, refl, refl))
      (λ _.
        take-driver_state f (get_or f.data_bytes 0 0) (response_node_id (f.id % 2048)) now node c)
