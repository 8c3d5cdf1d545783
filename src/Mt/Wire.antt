-- ===== src/Mt/Wire.antt =====
-- From the wire to the shared state and back: one MT motor's angle report and its velocity command
-- (src/MtCan.cpp).
use old_car_can_driver.Prelude.{
  ℕ, ◌+◌, ◌-◌, ◌%◌, ◌<◌, Bool, true, false, ◌≡◌, refl, ap, ◌∙◌, arith, nat_eq, ==_iff, Option, none,
  some, is_empty, [], ◌∷◌, ◌++◌,
}
use old_car_can_driver.Prelude.Int.{ℤ, pos, IsI32}
use old_car_can_driver.Prelude.Map.{find, or_new, find-insert_self}
use old_car_can_driver.Can.{
  Frame, velocity, control, mt, to_mt_protocol_node_id, motor_id_from_mt_protocol_node_id,
}
use old_car_can_driver.MtRmd.{
  response_node_id, is_response_can_id, make_frame, make_speed_closed_loop_frame, send_can_id,
  write_int32_le, read_int32_le, response_base_id, parse_multi_turn_angle_centideg,
  is_feedback_command,
}
use old_car_can_driver.MtRmd.RoundTrip.{read_int32_le-write_int32_le}
use old_car_can_driver.DeviceRuntime.{Request}
use old_car_can_driver.SharedState.Data.{
  AxisKey, axis_map_key, codes_eq_iff, AxisFeedbackState, AxisCommandState, no_feedback, no_command,
}
use old_car_can_driver.SharedState.{
  SharedDriverState, get_axis_feedback, get_axis_command, make_axis_key, mutate_axis_feedback,
  mutate_axis_command, recompute_axis_observed_locked,
}
use old_car_can_driver.SharedState.Axes.{get-mutate_axis_command}
use old_car_can_driver.Mt.{
  MotorState, PendingReadRequest, MtCan, motor_at, put_motor, sync_shared_feedback, axis_key,
  feedback_of, remember_system_motor_id, submit_tx, sync_shared_command, hand_over,
}
use old_car_can_driver.Mt.Reads.{
  put_changed, answered, pending_read_key, mark_read_response_received,
}
use old_car_can_driver.Mt.Commands.{set_velocity}
use old_car_can_driver.Mt.Response.{
  absorb, note_answer, publish, reset_after_zero, take_response, handle_response,
}
use old_car_can_driver.Mt.Retries.{get_self}
use old_car_can_driver.Mt.Answers.{motor_at-take}

-- The report of a multi-turn angle, as a motor sends it.
abbrev pub angle_report : ℕ → ℤ → Frame
angle_report node p = write_int32_le (make_frame (response_base_id + node) 0x92) 4 p

report_taken :
    (node : ℕ) (p : ℤ) (now : ℕ) (c : MtCan)
    → node < 256
    → c.shutting_down ≡ false
    → handle_response (angle_report node p) now c
      ≡ take_response (angle_report node p) 0x92 node now c
unfolding handle_response write_int32_le make_frame is_response_can_id response_node_id
report_taken node p now c h up =
    let e : (576 + node) % 2048 ≡ 576 + node = omega arith in
    let n : (576 + node + 65536 - 576) % 256 ≡ node = omega arith in ground arith

-- Of a whole angle frame, the angle is kept.
absorb-angle :
    (f : Frame) (m : MotorState)
    → f.dlc ≡ 8
    → absorb f 0x92 m
      ≡ record m { multi_turn_angle = parse_multi_turn_angle_centideg f; position_received = true }
unfolding absorb is_feedback_command
absorb-angle f m whole = rw whole refl

report-dlc : (node : ℕ) (p : ℤ) → (angle_report node p).dlc ≡ 8
unfolding write_int32_le make_frame
report-dlc node p = refl

report-angle :
    (node : ℕ) (p : ℤ) → IsI32 p → parse_multi_turn_angle_centideg (angle_report node p) ≡ p
unfolding parse_multi_turn_angle_centideg make_frame
report-angle node p range =
    read_int32_le-write_int32_le (make_frame (response_base_id + node) 0x92) 4 p (omega arith)
      (omega arith) range

absorb-report :
    (node : ℕ) (p : ℤ) (m : MotorState)
    → IsI32 p
    → absorb (angle_report node p) 0x92 m
      ≡ record m { multi_turn_angle = p; position_received = true }
absorb-report node p m range =
    absorb-angle (angle_report node p) m (report-dlc node p)
    ∙ ap (λ (q : ℤ). record m { multi_turn_angle = q; position_received = true })
        (report-angle node p range)

shared_after_put :
    (f : Frame) (node now key : ℕ) (c : MtCan) (s : SharedDriverState)
    (o : Option PendingReadRequest)
    → c.shared_state ≡ some s
    → is_empty c.device_name ≡ false
    → let c1 = put_changed answered key c o in
      let m = absorb f 0x92 (motor_at node c1) in
      (sync_shared_feedback node m now (put_motor node m c1)).shared_state
      ≡ some (
          mutate_axis_feedback
            (axis_key node c)
            (feedback_of (absorb f 0x92 (motor_at node c)) now)
            s)
unfolding sync_shared_feedback axis_key
shared_after_put f node now key c s none shared named = rw (named, shared) refl
shared_after_put f node now key c s (some r) shared named = rw (named, shared) refl

shared_after_report :
    (f : Frame) (node now : ℕ) (c : MtCan) (s : SharedDriverState)
    → c.shared_state ≡ some s
    → is_empty c.device_name ≡ false
    → (take_response f 0x92 node now c).shared_state
      ≡ some (
          mutate_axis_feedback
            (axis_key node c)
            (feedback_of (absorb f 0x92 (motor_at node c)) now)
            s)
unfolding take_response note_answer publish reset_after_zero mark_read_response_received
shared_after_report f node now c s shared named =
    let key = pending_read_key node 0x92 in
    shared_after_put f node now key c s (find key c.pending_read_requests) shared named

observed_lem :
    (m : MotorState) (p : ℤ) (now : ℕ) (v : AxisFeedbackState)
    → let w =
        recompute_axis_observed_locked
          (feedback_of (record m { multi_turn_angle = p; position_received = true }) now v) in
      (w.position ≡ p)
      × (w.position_valid ≡ true)
      × (w.last_rx_steady_ns ≡ now)
      × (w.consecutive_timeout_count ≡ 0)
      × (w.degraded ≡ false)
unfolding recompute_axis_observed_locked feedback_of
observed_lem m p now v = (refl, refl, refl, refl, refl)

-- When a driver that is not shutting down, with a shared state and a device name, receives the
-- report of a 32-bit angle from a node below 256, its motor has that angle, and the shared
-- feedback of the axis has it as a valid position, received at that time, with no timeouts and
-- not degraded.
pub report_reaches_readers :
    (node : ℕ) (p : ℤ) (now : ℕ) (c : MtCan) (s : SharedDriverState)
    → node < 256
    → IsI32 p
    → c.shutting_down ≡ false
    → c.shared_state ≡ some s
    → is_empty c.device_name ≡ false
    → let c' = handle_response (angle_report node p) now c in
      (s' : SharedDriverState) × (v : AxisFeedbackState) × ((motor_at node c').multi_turn_angle ≡ p)
      × (c'.shared_state ≡ some s')
      × (get_axis_feedback (axis_key node c) s' ≡ some v)
      × (v.position ≡ p)
      × (v.position_valid ≡ true)
      × (v.last_rx_steady_ns ≡ now)
      × (v.consecutive_timeout_count ≡ 0)
      × (v.degraded ≡ false)
report_reaches_readers node p now c s small range up shared named =
    let f = angle_report node p in
    let m = motor_at node c in
    let key = axis_key node c in
    let fn = feedback_of (record m { multi_turn_angle = p; position_received = true }) now in
    let old = record (or_new (get_axis_feedback key s) no_feedback) { key = key } in
    let taken = report_taken node p now c small up in
    let absorbed = absorb-report node p m range in
    let seen = observed_lem m p now old in
    (
      mutate_axis_feedback key fn s,
      recompute_axis_observed_locked (fn old),
      rw (taken, motor_at-take f 0x92 node now node c, absorbed) (ground (arith, ==_iff node node)),
      ap (λ (d : MtCan). d.shared_state) taken
          ∙ shared_after_report f node now c s shared named
          ∙ ap (λ (n : MotorState). some (mutate_axis_feedback key (feedback_of n now) s)) absorbed,
      get_self key fn s,
      seen.0,
      seen.1,
      seen.2,
      seen.3,
      seen.4,
    )

get_command_self :
    (key : AxisKey) (fn : AxisCommandState → AxisCommandState) (s : SharedDriverState)
    → get_axis_command key (mutate_axis_command key fn s)
      ≡ some (fn (record (or_new (get_axis_command key s) no_command) { key = key }))
get_command_self key fn s =
    get-mutate_axis_command key key fn s
    ∙ ground (arith, codes_eq_iff (axis_map_key key) (axis_map_key key))

-- A remembered motor is published under its own id.
axis_key-remember :
    (id : ℕ) (m : MotorState) (c : MtCan)
    → let node = to_mt_protocol_node_id id in
      axis_key node (put_motor node m (remember_system_motor_id id c))
      ≡ make_axis_key c.device_name mt id
unfolding axis_key remember_system_motor_id
axis_key-remember id m c =
    let node = to_mt_protocol_node_id id in
    ap
      (λ (o : Option ℕ).
        make_axis_key c.device_name mt (or_new o (motor_id_from_mt_protocol_node_id node)))
      (find-insert_self node id c.system_motor_ids_by_node_id)

speed-frame :
    (can_id : ℕ) (v : ℤ) → IsI32 v → read_int32_le (make_speed_closed_loop_frame can_id v) 4 ≡ v
unfolding make_speed_closed_loop_frame make_frame
speed-frame can_id v range =
    read_int32_le-write_int32_le (make_frame can_id 0xA2) 4 v (omega arith) (omega arith) range

speed-id : (can_id : ℕ) (v : ℤ) → (make_speed_closed_loop_frame can_id v).id ≡ can_id
unfolding make_speed_closed_loop_frame write_int32_le make_frame
speed-id can_id v = refl

-- The step of a velocity command before its frame is handed over.
abbrev commanded : ℕ → ℤ → ℕ → MtCan → MtCan
commanded id v now c =
    let node = to_mt_protocol_node_id id in
    let c1 = remember_system_motor_id id c in
    sync_shared_command node (pos 0) v velocity true now
      (put_motor node (record (motor_at node c1) { commanded_velocity = v }) c1)

set_velocity_lem :
    (id : ℕ) (v : ℤ) (now : ℕ) (c : MtCan)
    → c.has_controller ≡ true
    → c.has_dispatcher ≡ true
    → set_velocity id v now c ≡ (
      true,
      hand_over
          (record {
            frame = make_speed_closed_loop_frame (send_can_id (to_mt_protocol_node_id id)) v;
            category = control;
            completion = none;
          })
          (commanded id v now c),
    )
unfolding set_velocity submit_tx sync_shared_command remember_system_motor_id
set_velocity_lem id v now c there dispatches = ground arith

commanded-frame :
    (id : ℕ) (v : ℤ) (now : ℕ) (c : MtCan) → (commanded id v now c).submitted ≡ c.submitted
unfolding sync_shared_command remember_system_motor_id
commanded-frame id v now c = refl

abbrev velocity_command : ℤ → ℕ → AxisCommandState → AxisCommandState
velocity_command v now w = record w {
  target_position = pos 0;
  target_velocity = v;
  desired_mode = velocity;
  desired_mode_valid = true;
  valid = true;
  last_command_steady_ns = now;
}

sync_command-shared :
    (node : ℕ) (v : ℤ) (now : ℕ) (c : MtCan) (s : SharedDriverState)
    → c.shared_state ≡ some s
    → is_empty c.device_name ≡ false
    → (sync_shared_command node (pos 0) v velocity true now c).shared_state
      ≡ some (mutate_axis_command (axis_key node c) (velocity_command v now) s)
unfolding sync_shared_command
sync_command-shared node v now c s shared named = rw (named, shared) refl

commanded-shared :
    (id : ℕ) (v : ℤ) (now : ℕ) (c : MtCan) (s : SharedDriverState)
    → c.shared_state ≡ some s
    → is_empty c.device_name ≡ false
    → (commanded id v now c).shared_state
      ≡ some (mutate_axis_command (make_axis_key c.device_name mt id) (velocity_command v now) s)
unfolding remember_system_motor_id
commanded-shared id v now c s shared named =
    let node = to_mt_protocol_node_id id in
    let c1 = remember_system_motor_id id c in
    let m = record (motor_at node c1) { commanded_velocity = v } in
    sync_command-shared node v now (put_motor node m c1) s shared named
    ∙ ap (λ (k : AxisKey). some (mutate_axis_command k (velocity_command v now) s))
        (axis_key-remember id m c)

-- When the driver has a controller, a dispatcher, a shared state and a device name, setting a
-- 32-bit velocity succeeds, hands over one control request more, addressed to the motor's node,
-- from whose frame the velocity is read back, and leaves in the shared command of that very
-- motor id a valid velocity command of it.
pub velocity_reaches_wire :
    (id : ℕ) (v : ℤ) (now : ℕ) (c : MtCan) (s : SharedDriverState)
    → IsI32 v
    → c.has_controller ≡ true
    → c.has_dispatcher ≡ true
    → c.shared_state ≡ some s
    → is_empty c.device_name ≡ false
    → let (done, c') = set_velocity id v now c in
      (r : Request) × (s' : SharedDriverState) × (w : AxisCommandState) × (done ≡ true)
      × (c'.submitted ≡ c.submitted ++ r ∷ [])
      × (r.category ≡ control)
      × (r.frame.id ≡ send_can_id (to_mt_protocol_node_id id))
      × (read_int32_le r.frame 4 ≡ v)
      × (c'.shared_state ≡ some s')
      × (get_axis_command (make_axis_key c.device_name mt id) s' ≡ some w)
      × (w.target_velocity ≡ v)
      × (w.desired_mode ≡ velocity)
      × (w.valid ≡ true)
velocity_reaches_wire id v now c s range there dispatches shared named =
    let node = to_mt_protocol_node_id id in
    let key = make_axis_key c.device_name mt id in
    let fn = velocity_command v now in
    let frame = make_speed_closed_loop_frame (send_can_id node) v in
    let done = set_velocity_lem id v now c there dispatches in
    (
      record { frame = frame; category = control; completion = none },
      mutate_axis_command key fn s,
      fn (record (or_new (get_axis_command key s) no_command) { key = key }),
      ap (λ (p : Bool × MtCan). p.0) done,
      rw (done, commanded-frame id v now c) refl,
      refl,
      speed-id (send_can_id node) v,
      speed-frame (send_can_id node) v range,
      ap (λ (p : Bool × MtCan). p.1.shared_state) done ∙ commanded-shared id v now c s shared named,
      get_command_self key fn s,
      refl,
      refl,
      refl,
    )
