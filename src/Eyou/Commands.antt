-- ===== src/Eyou/Commands.antt =====
-- The commands of the PP driver, src/EyouCan.cpp: the methods that send without waiting, those that
-- read what was received, the settings, and the registration of the motors. `now` is the clock at
-- the call.
use old_car_can_driver.Prelude.{
  ℕ, min, Bool, true, false, not, ◌||◌, Option, none, some, List, [], ◌∷◌, ◌++◌, ltb, ◌==◌,
  if◌then◌else◌, nat_eq, null,
}
use old_car_can_driver.Prelude.Int.{ℤ, pos, negsuc, to_u32}
use old_car_can_driver.Prelude.Map.{find, insert, or_new}
use old_car_can_driver.Can.{MotorMode, position, velocity, csp, pp, to_protocol_node_id}
use old_car_can_driver.Refresh.{
  PpRefreshQuery, position as position_query, velocity as velocity_query, mode, enabling, fault,
  current,
}
use old_car_can_driver.SharedState.Data.{enable, disable, hold, recover as recovers}
use old_car_can_driver.SharedState.{make_axis_key, register_axis}
use old_car_can_driver.Eyou.{
  MotorState, EyouCan, motor_at, put_motor, with_shared, include_id, register_managed_motor_id,
  sync_shared_command, sync_shared_mode_selection, sync_shared_intent,
}
use old_car_can_driver.Eyou.Sending.{
  send_write_command, write_command, fast_write_command, try_issue_read_command,
  mark_read_response_received, reset_read_tracking,
}

abbrev pub int_eq : ℤ → ℤ → Bool
int_eq (pos a) (pos b) = a == b
int_eq (negsuc a) (negsuc b) = a == b
int_eq _ _ = false

abbrev pub positive : ℤ → Bool
positive (pos n) = not (n == 0)
positive (negsuc n) = false

abbrev exceeds : ℤ → ℤ → Bool
exceeds (pos a) (pos b) = ltb b a
exceeds (pos a) (negsuc b) = true
exceeds (negsuc a) (pos b) = false
exceeds (negsuc a) (negsuc b) = ltb a b

-- The request functions, one for each register.
unfoldable pub request : ℕ → ℕ → ℕ → EyouCan → EyouCan
unfolding try_issue_read_command
request node sub now c = (try_issue_read_command node sub now c).1

abbrev query_register : PpRefreshQuery → ℕ
query_register position_query = 0x07
query_register velocity_query = 0x06
query_register mode = 0x0F
query_register enabling = 0x10
query_register fault = 0x15
query_register current = 0x05

unfoldable pub issue_refresh_query : ℕ → PpRefreshQuery → ℕ → EyouCan → Bool × EyouCan
unfolding register_managed_motor_id try_issue_read_command
issue_refresh_query id q now c =
    try_issue_read_command (to_protocol_node_id id) (query_register q) now
      (register_managed_motor_id id c)

abbrev mode_register_value : MotorMode → ℕ
mode_register_value position = 1
mode_register_value velocity = 3
mode_register_value csp = 5

-- What every command does first.
abbrev pub commanded : ℕ → EyouCan → (ℕ → EyouCan → Bool × EyouCan) → Bool × EyouCan
commanded id c body =
    if not c.has_controller
    then (false, c)
    else body (to_protocol_node_id id) (register_managed_motor_id id c)

unfoldable pub set_mode : ℕ → MotorMode → EyouCan → Bool × EyouCan
unfolding register_managed_motor_id sync_shared_mode_selection send_write_command
set_mode id m c = commanded id c λ node c1.
    let c2 =
      put_motor node (record (motor_at node c1) { mode = m; position_velocity_configured = false })
        c1 in
    (
      true,
      send_write_command node 0x0F (mode_register_value m) 4 write_command
          (sync_shared_mode_selection node m c2),
    )

-- With fast writes, the register is written fast first and then as usual.
unfoldable pub write_as : Bool → ℕ → ℕ → ℤ → EyouCan → EyouCan
unfolding send_write_command
write_as true node sub v c =
    send_write_command node sub (to_u32 v) 4 write_command
      (send_write_command node sub (to_u32 v) 4 fast_write_command c)
write_as false node sub v c = send_write_command node sub (to_u32 v) 4 write_command c

unfoldable pub write_twice : ℕ → ℕ → ℤ → EyouCan → EyouCan
unfolding write_as
write_twice node sub v c = write_as c.fast_write_enabled node sub v c

unfoldable pub set_velocity : ℕ → ℤ → ℕ → EyouCan → Bool × EyouCan
unfolding register_managed_motor_id sync_shared_command write_twice
set_velocity id v now c = commanded id c λ node c1.
    let m = record (motor_at node c1) {
      commanded_velocity = v;
      last_position_velocity_raw = v;
      position_velocity_configured = true;
    } in
    let c2 = sync_shared_command node (pos 0) v velocity true now (put_motor node m c1) in
    (true, write_twice node 0x09 v c2)

-- Whether the velocity register is to be written.
abbrev pub stale_preload : Bool → ℤ → MotorState → Bool
stale_preload force v m =
    force || not m.position_velocity_configured || not (int_eq m.last_position_velocity_raw v)

unfoldable pub ensure_position_velocity_configured : ℕ → ℤ → Bool → EyouCan → Bool × EyouCan
unfolding write_twice
ensure_position_velocity_configured node v force c =
    let m = record (motor_at node c) { commanded_velocity = v } in
    if not (positive v)
    then (false, c)
    else if stale_preload force v (motor_at node c)
    then (
      true,
      write_twice node 0x09 v (
          put_motor node
            (record m { last_position_velocity_raw = v; position_velocity_configured = true }) c),
    )
    else (true, put_motor node m c)

unfoldable pub set_acceleration : ℕ → ℤ → EyouCan → Bool × EyouCan
unfolding register_managed_motor_id send_write_command
set_acceleration id v c =
    commanded id c λ node c1. (true, send_write_command node 0x0B (to_u32 v) 4 write_command c1)

unfoldable pub set_deceleration : ℕ → ℤ → EyouCan → Bool × EyouCan
unfolding register_managed_motor_id send_write_command
set_deceleration id v c =
    commanded id c λ node c1. (true, send_write_command node 0x0C (to_u32 v) 4 write_command c1)

-- The position command up to the velocity register, the same in both modes.
unfoldable pub position_noted : ℕ → ℤ → MotorMode → ℕ → EyouCan → EyouCan
unfolding sync_shared_command
position_noted node p m now c =
    sync_shared_command node p (pos 0) m true now
      (put_motor node (record (motor_at node c) { commanded_position = p }) c)

abbrev pub then_write : (EyouCan → EyouCan) → Bool × EyouCan → Bool × EyouCan
then_write f (false, c) = (false, c)
then_write f (true, c) = (true, f c)

abbrev pub position_velocity : ℕ → EyouCan → ℤ
position_velocity node c =
    or_new (find node c.position_velocity_raw_by_motor_id) c.default_position_velocity_raw

abbrev pub csp_velocity : ℕ → EyouCan → ℤ
csp_velocity node c = or_new (find node c.csp_velocity_raw_by_motor_id) c.default_csp_velocity_raw

unfoldable pub set_position : ℕ → ℤ → ℕ → EyouCan → Bool × EyouCan
unfolding register_managed_motor_id position_noted ensure_position_velocity_configured write_twice
set_position id p now c = commanded id c λ node c1.
    let c2 = position_noted node p position now c1 in
    then_write (write_twice node 0x0A p)
      (ensure_position_velocity_configured node (position_velocity node c2) true c2)

unfoldable pub quick_set_position : ℕ → ℤ → ℕ → EyouCan → Bool × EyouCan
unfolding register_managed_motor_id position_noted ensure_position_velocity_configured
    send_write_command
quick_set_position id p now c = commanded id c λ node c1.
    let c2 = position_noted node p csp now c1 in
    then_write (send_write_command node 0x0A (to_u32 p) 4 fast_write_command)
      (ensure_position_velocity_configured node (csp_velocity node c2) false c2)

unfoldable pub enable_motor : ℕ → ℕ → EyouCan → Bool × EyouCan
unfolding register_managed_motor_id sync_shared_intent send_write_command request
enable_motor id now c = commanded id c λ node c1.
    let m = record (motor_at node c1) {
      position_velocity_configured = false;
      enabled_received = false;
    } in
    let c2 = sync_shared_intent node enable (put_motor node m c1) in
    (true, request node 0x10 now (send_write_command node 0x10 1 4 write_command c2))

unfoldable pub disable_motor : ℕ → ℕ → EyouCan → Bool × EyouCan
unfolding register_managed_motor_id sync_shared_intent send_write_command request
disable_motor id now c = commanded id c λ node c1.
    let c2 =
      sync_shared_intent node disable
        (put_motor node (record (motor_at node c1) { enabled_received = false }) c1) in
    (true, request node 0x10 now (send_write_command node 0x10 0 4 write_command c2))

unfoldable pub stop : ℕ → EyouCan → Bool × EyouCan
unfolding register_managed_motor_id sync_shared_intent send_write_command
stop id c = commanded id c λ node c1.
    (true, send_write_command node 0x11 1 4 write_command (sync_shared_intent node hold c1))

unfoldable pub reset_fault : ℕ → ℕ → EyouCan → Bool × EyouCan
unfolding register_managed_motor_id sync_shared_intent send_write_command
    mark_read_response_received request
reset_fault id now c = commanded id c λ node c1.
    let c2 = send_write_command node 0x15 0 4 write_command (sync_shared_intent node recovers c1) in
    (true, request node 0x15 now (mark_read_response_received node 0x15 now c2))

-- A reader registers its motor, too.
abbrev reads : {A : Type 0} → ℕ → (MotorState → A) → A → EyouCan → A × EyouCan
reads id f default c = (
  elim (find (to_protocol_node_id id) c.motor_states) [ none ↦ default | some m ↦ f m ],
  register_managed_motor_id id c,
)

unfoldable pub clamp_int32_to_int16 : ℤ → ℤ
clamp_int32_to_int16 (pos n) = pos (min n 32767)
clamp_int32_to_int16 (negsuc n) = negsuc (min n 32767)

unfoldable pub get_position : ℕ → EyouCan → ℤ × EyouCan
unfolding register_managed_motor_id
get_position id c = reads id (λ m. if m.position_received then m.position else pos 0) (pos 0) c

unfoldable pub get_current : ℕ → EyouCan → ℤ × EyouCan
unfolding register_managed_motor_id clamp_int32_to_int16
get_current id c =
    reads id (λ m. if m.current_received then clamp_int32_to_int16 m.current else pos 0) (pos 0) c

unfoldable pub get_velocity : ℕ → EyouCan → ℤ × EyouCan
unfolding register_managed_motor_id
get_velocity id c =
    reads id (λ m. if m.velocity_received then m.actual_velocity else pos 0) (pos 0) c

unfoldable pub is_enabled : ℕ → EyouCan → Bool × EyouCan
unfolding register_managed_motor_id
is_enabled id c = reads id (λ m. m.enabled) false c

unfoldable pub has_fault : ℕ → EyouCan → Bool × EyouCan
unfolding register_managed_motor_id
has_fault id c = reads id (λ m. m.fault) false c

unfoldable pub configure_position_limits : ℕ → ℤ → ℤ → Bool → EyouCan → Bool × EyouCan
unfolding register_managed_motor_id send_write_command
configure_position_limits id least most on c =
    if exceeds least most
    then (false, c)
    else (commanded id c λ node c1. (
      true,
      send_write_command node 0x38 (if on then 1 else 0) 4 write_command (
          send_write_command node 0x3A (to_u32 least) 4 write_command
            (send_write_command node 0x39 (to_u32 most) 4 write_command c1)),
    ))

unfoldable pub set_fast_write_enabled : Bool → EyouCan → EyouCan
set_fast_write_enabled on c = record c { fast_write_enabled = on }

unfoldable pub set_default_position_velocity_raw : ℤ → EyouCan → EyouCan
set_default_position_velocity_raw v c =
    if positive v then record c { default_position_velocity_raw = v } else c

unfoldable pub set_default_csp_velocity_raw : ℤ → EyouCan → EyouCan
set_default_csp_velocity_raw v c =
    if positive v then record c { default_csp_velocity_raw = v } else c

unfoldable pub set_motor_default_position_velocity_raw : ℕ → ℤ → EyouCan → EyouCan
unfolding register_managed_motor_id
set_motor_default_position_velocity_raw id v c =
    let c1 = register_managed_motor_id id c in
    if positive v
    then record c1 {
      position_velocity_raw_by_motor_id =
          insert (to_protocol_node_id id) v c1.position_velocity_raw_by_motor_id;
    }
    else c

unfoldable pub set_motor_default_csp_velocity_raw : ℕ → ℤ → EyouCan → EyouCan
unfolding register_managed_motor_id
set_motor_default_csp_velocity_raw id v c =
    let c1 = register_managed_motor_id id c in
    if positive v
    then record c1 {
      csp_velocity_raw_by_motor_id =
          insert (to_protocol_node_id id) v c1.csp_velocity_raw_by_motor_id;
    }
    else c

-- The argument is std::llround(1000 / hz) of a rate that is finite and positive.
unfoldable pub set_refresh_rate_hz : Option ℕ → EyouCan → EyouCan
set_refresh_rate_hz interval_ms c = record c { refresh_interval_ms = interval_ms }

abbrev register_motor : ℕ → EyouCan → EyouCan
register_motor id c =
    let node = to_protocol_node_id id in
    with_shared (register_axis (make_axis_key c.device_name pp id)) (record c {
      refresh_motor_ids = c.refresh_motor_ids ++ node ∷ [];
      managed_motor_ids = include_id node c.managed_motor_ids;
      system_motor_ids_by_node_id = insert node id c.system_motor_ids_by_node_id;
    })

unfoldable pub register_motors : List ℕ → EyouCan → EyouCan
register_motors [] c = c
register_motors (id ∷ ids) c = register_motors ids (register_motor id c)

unfoldable pub initialize_motor_refresh : List ℕ → EyouCan → EyouCan
unfolding register_motors reset_read_tracking
initialize_motor_refresh ids c =
    let c1 = reset_read_tracking (
      register_motors ids (record c {
        refresh_motor_ids = [];
        managed_motor_ids = [];
        system_motor_ids_by_node_id = [];
      })) in
    if null ids then reset_read_tracking c1 else c1
