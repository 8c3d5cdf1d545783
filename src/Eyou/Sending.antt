-- ===== src/Eyou/Sending.antt =====
-- The frames of the PP driver, src/EyouCan.cpp, on their way to the dispatcher: the writes, and the
-- reads with their tracking.
use old_car_can_driver.Prelude.{
  ℕ, zero, suc, ◌+◌, ◌-◌, ◌*◌, ◌/◌, ◌%◌, ◌^◌, min, max, Bool, true, false, not, ◌||◌, Option, none,
  some, List, [], ◌∷◌, ◌++◌, ltb, leb, ◌==◌, if◌then◌else◌, length, nat_eq,
}
use old_car_can_driver.Prelude.Map.{find, insert, or_new}
use old_car_can_driver.Can.{Frame, SendResult, ok, error, Category, control, query, recover}
use old_car_can_driver.DeviceRuntime.{Request}
use old_car_can_driver.Eyou.{new_read, PendingReadRequest, EyouCan}

abbrev pub hand_over : Request → EyouCan → EyouCan
hand_over r c = record c { submitted = c.submitted ++ r ∷ [] }

unfoldable pub submit_tx : Frame → Category → EyouCan → Bool × EyouCan
submit_tx frame category c =
    if c.has_dispatcher
    then (true, hand_over (record { frame = frame; category = category; completion = none }) c)
    else (false, c)

abbrev pub write_command : ℕ
write_command = 1

abbrev pub fast_write_command : ℕ
fast_write_command = 5

abbrev pub read_command : ℕ
read_command = 3

-- The low n bytes of a value, the most significant first, and zeros up to so many places.
unfoldable pub big_endian : ℕ → ℕ → List ℕ
big_endian zero v = []
big_endian (suc n) v = v / 256 ^ n % 256 ∷ big_endian n v

unfoldable pub padded : ℕ → List ℕ → List ℕ
padded zero bs = []
padded (suc places) [] = 0 ∷ padded places []
padded (suc places) (b ∷ bs) = b ∷ padded places bs

unfoldable pub frame_of : ℕ → ℕ → ℕ → ℕ → List ℕ → Frame
unfolding padded
frame_of node dlc type sub payload = record {
  id = node;
  is_extended = false;
  is_remote_request = false;
  dlc = dlc;
  data_bytes = type ∷ sub ∷ padded 6 payload;
}

abbrev pub increment : ℕ → ℕ
increment n = (n + 1) % 18446744073709551616

abbrev pub write_counted : ℕ → EyouCan → EyouCan
write_counted type c =
    if type == fast_write_command
    then record c { fast_write_sent_count = increment c.fast_write_sent_count }
    else if type == write_command
    then record c { normal_write_sent_count = increment c.normal_write_sent_count }
    else c

abbrev pub count_if_sent : ℕ → Bool × EyouCan → EyouCan
count_if_sent type (sent, c) = if sent then write_counted type c else c

unfoldable pub write_frame : ℕ → ℕ → ℕ → ℕ → ℕ → Frame
unfolding frame_of big_endian
write_frame node sub value payload_bytes type =
    frame_of node 8 type sub (big_endian (max 1 (min payload_bytes 4)) value)

unfoldable pub send_write_command : ℕ → ℕ → ℕ → ℕ → ℕ → EyouCan → EyouCan
unfolding write_frame submit_tx
send_write_command node sub value payload_bytes type c =
    if not c.has_controller
    then c
    else count_if_sent type (
        submit_tx (write_frame node sub value payload_bytes type)
          (if sub == 0x15 then recover else control) c)

abbrev pub pending_read_key : ℕ → ℕ → ℕ
pending_read_key node sub = (node * 256 + sub) % 65536

abbrev pub read_at : ℕ → EyouCan → PendingReadRequest
read_at key c = or_new (find key c.pending_read_requests) new_read

abbrev pub put_read : ℕ → PendingReadRequest → EyouCan → EyouCan
put_read key r c = record c { pending_read_requests = insert key r c.pending_read_requests }

abbrev pub put_changed :
    (PendingReadRequest → PendingReadRequest) → ℕ → EyouCan → Option PendingReadRequest → EyouCan
put_changed f key c none = c
put_changed f key c (some r) = put_read key (f r) c

abbrev pub change_read : (PendingReadRequest → PendingReadRequest) → ℕ → EyouCan → EyouCan
change_read f key c = put_changed f key c (find key c.pending_read_requests)

unfoldable pub read_dispatched : Bool → SendResult → ℕ → PendingReadRequest → PendingReadRequest
read_dispatched true ok event_time r = record r {
  queued = false;
  in_flight = true;
  last_sent = event_time;
  missed_refresh_windows = min (r.missed_refresh_windows + 1) 1024;
}
read_dispatched _ _ event_time r = record r { queued = false; in_flight = false }

unfoldable pub on_read_dispatch_result : ℕ → ℕ → Bool → SendResult → ℕ → EyouCan → EyouCan
unfolding read_dispatched
on_read_dispatch_result node sub attempted_send result event_time c =
    if c.shutting_down
    then c
    else change_read (read_dispatched attempted_send result event_time) (pending_read_key node sub)
        c

unfoldable pub send_read_command : ℕ → ℕ → ℕ → EyouCan → EyouCan
unfolding frame_of on_read_dispatch_result
send_read_command node sub now c =
    if not c.has_controller
    then c
    else if not c.has_dispatcher
    then on_read_dispatch_result node sub false error now c
    else hand_over
        (record {
          frame = frame_of node 2 read_command sub [];
          category = query;
          completion = some (pending_read_key node sub);
        })
        c

abbrev pub feedback_stale_warn_window_threshold : ℕ → ℕ
feedback_stale_warn_window_threshold sub =
    if sub == 0x07 || sub == 0x06
    then 10
    else if sub == 0x05 || sub == 0x0F || sub == 0x10 || sub == 0x15
    then 20
    else 0

abbrev pub feedback_stale_warn_threshold : ℕ → ℕ
feedback_stale_warn_threshold sub = feedback_stale_warn_window_threshold sub * 100

-- The warning itself is a log line; what stays is the number of the last one.
unfoldable pub warned : ℕ → ℕ → PendingReadRequest → PendingReadRequest
warned threshold now r =
    let stale_since = if r.last_response == 0 then r.last_sent else r.last_response in
    let age = (now - stale_since) / 1000000 in
    let bucket = max 1 (age / max 1 threshold) in
    if stale_since == 0
      || ltb now stale_since
      || ltb age threshold
      || leb bucket r.warned_stale_buckets
    then r
    else record r { warned_stale_buckets = bucket }

unfoldable pub maybe_warn_stale_feedback : ℕ → ℕ → ℕ → EyouCan → EyouCan
unfolding warned
maybe_warn_stale_feedback node sub now c =
    let threshold = feedback_stale_warn_threshold sub in
    let key = pending_read_key node sub in
    if threshold == 0 then c else put_read key (warned threshold now (read_at key c)) c

unfoldable pub try_issue_read_command : ℕ → ℕ → ℕ → EyouCan → Bool × EyouCan
unfolding maybe_warn_stale_feedback send_read_command
try_issue_read_command node sub now c =
    let key = pending_read_key node sub in
    let c1 = maybe_warn_stale_feedback node sub now c in
    let r = read_at key c1 in
    if c.shutting_down || not c.has_controller
    then (false, c)
    else if r.queued
    then (false, put_read key r c1)
    else (true, send_read_command node sub now (put_read key (record r { queued = true }) c1))

unfoldable pub answered : ℕ → PendingReadRequest → PendingReadRequest
answered now r = record r {
  last_response = now;
  queued = false;
  in_flight = false;
  missed_refresh_windows = 0;
  warned_stale_buckets = 0;
}

unfoldable pub mark_read_response_received : ℕ → ℕ → ℕ → EyouCan → EyouCan
unfolding answered
mark_read_response_received node sub now c =
    change_read (answered now) (pending_read_key node sub) c

unfoldable pub reset_read_tracking : EyouCan → EyouCan
reset_read_tracking c = record c { pending_read_requests = [] }

unfoldable pub compute_refresh_sleep : Option ℕ → ℕ → ℕ
compute_refresh_sleep (some interval_ms) motor_count = max 1 interval_ms
compute_refresh_sleep none motor_count = max 5 (motor_count * 6)

unfoldable pub refresh_sleep_interval : EyouCan → ℕ
unfolding compute_refresh_sleep
refresh_sleep_interval c =
    compute_refresh_sleep c.refresh_interval_ms (max 1 (length c.refresh_motor_ids))
