-- ===== src/DeviceRuntime/Worker.antt =====
-- The worker and the calls that reach a runtime, as events: workerLoop, start, shutdown,
-- noteSharedSendResult and the setters of src/DeviceRuntime.cpp. An event is a stretch of code
-- that ends where the mutex is free for other threads; an event that cannot happen in a state gives
-- none. The result of a send, the times and the end of a wait come with the event. A send is one
-- event with its completion, its counters and its note in the shared state, although the lock is
-- free for some of it: no other thread acts on what it writes. The sleeps only take time.
use old_car_can_driver.Prelude.{
  ℕ, ◌+◌, String, Bool, true, false, not, ◌&&◌, ◌||◌, Option, none, some, List, [], ◌∷◌, ltb, leb,
  if◌then◌else◌, is_empty, null, length,
}
use old_car_can_driver.Can.{SendResult, ok, backpressure, link_down, error, control}
use old_car_can_driver.SharedState.{SharedDriverState, mutate_device_health}
use old_car_can_driver.SharedState.Data.{DeviceHealthState}
use old_car_can_driver.DeviceRuntime.{
  Request, Options, Counters, no_counts, bump, WorkerPoint, absent, waiting, sends, after_send,
  coalesces, pauses, Runtime, complete, submit, all_queues_empty_locked, pop_next_locked,
}

-- The constructor, before `start` on autostart.
abbrev pub initial : Options → String → Bool → Runtime
initial options device_name has_transport = record {
  options = options;
  device_name = device_name;
  has_transport = has_transport;
  shared_state = none;
  control_queue = [];
  recover_queue = [];
  config_queue = [];
  query_queue = [];
  started = false;
  stop_requested = false;
  sending = false;
  counters = no_counts;
  completed = [];
  worker = absent;
  consecutive_backpressure = 0;
  undefined = false;
}

unfoldable pub start : Runtime → Runtime
start t = if t.started then t else record t {
  stop_requested = false;
  started = true;
  worker = waiting;
  consecutive_backpressure = 0;
}

abbrev pub make : Options → String → Bool → Runtime
make options device_name has_transport =
    let t = initial options device_name has_transport in if options.autostart then start t else t

-- What a failed send changes in the health of the device.
unfoldable pub note_result : SendResult → ℕ → DeviceHealthState → DeviceHealthState
note_result ok now h = h
note_result backpressure now h = record h { tx_backpressure = bump h.tx_backpressure }
note_result link_down now h = record h {
  tx_link_unavailable = bump h.tx_link_unavailable;
  transport_ready = false;
  last_tx_link_unavailable_steady_ns = now;
}
note_result error now h = record h { tx_error = bump h.tx_error }

abbrev pub is_ok : SendResult → Bool
is_ok ok = true
is_ok backpressure = false
is_ok link_down = false
is_ok error = false

unfoldable pub note_shared_send_result : SendResult → ℕ → Runtime → Runtime
unfolding note_result
note_shared_send_result result now t = elim t.shared_state [
  | none ↦ t
  | some s ↦ if is_empty t.device_name || is_ok result then t else record t {
    shared_state = some (mutate_device_health t.device_name (note_result result now) s);
  }
]

-- The switch on the result.
unfoldable pub count_result : SendResult → Runtime → Runtime
count_result ok t = record t {
  counters = record t.counters { sent = bump t.counters.sent };
  consecutive_backpressure = 0;
}
count_result backpressure t =
    let n = t.consecutive_backpressure + 1 in
    record t {
      counters = record t.counters { send_backpressure = bump t.counters.send_backpressure };
      consecutive_backpressure = if leb t.options.max_backpressure_retries n then 0 else n;
    }
count_result link_down t = record t {
  counters = record t.counters { send_link_down = bump t.counters.send_link_down };
  consecutive_backpressure = 0;
}
count_result error t = record t {
  counters = record t.counters { send_error = bump t.counters.send_error };
  consecutive_backpressure = 0;
}

-- Without a transport the result stays Error.
unfoldable pub attempt_send : Request → SendResult → ℕ → Runtime → Runtime
unfolding note_shared_send_result count_result
attempt_send r answer now t =
    let result = if t.has_transport then answer else error in
    record (note_shared_send_result result now
      (count_result result (complete r true result now t))) { worker = after_send r }

-- A popped request is sent next; without one the loop starts again.
abbrev pub take_next : Runtime → Option (Request × Runtime) → Runtime
take_next t none = t
take_next t (some (r, u)) = record u { sending = true; worker = sends r }

-- The top of the loop: the wait is over once there is work or a stop.
unfoldable pub wake : Runtime → Option Runtime
unfolding pop_next_locked
wake t =
    if t.stop_requested || not (all_queues_empty_locked t)
    then (if t.stop_requested && all_queues_empty_locked t
        then some (record t { sending = false; worker = absent })
        else some (take_next t (pop_next_locked t)))
    else none

-- `request = controlQueue_.front(); controlQueue_.pop_front();`
unfoldable pub take_front : List Request → Runtime → Runtime
take_front [] t = record t { undefined = true }
take_front (r ∷ rs) t = record t { control_queue = rs; worker = sends r }

abbrev pub is_control : Request → Bool
is_control r = elim r.category [ control ↦ true | _ ↦ false ]

-- With the lock held, after the wait for a burst.
unfoldable pub after_burst : Request → Runtime → Runtime
unfolding take_front
after_burst r t =
    if null t.control_queue
    then record t { sending = false; worker = waiting }
    else if is_control r && ltb 0 t.options.control_inter_frame_gap_us
    then record t { worker = pauses r }
    else take_front t.control_queue t

-- The lock is taken after a send.
unfoldable pub relock : Request → Runtime → Runtime
unfolding after_burst
relock r t =
    if null t.control_queue && is_control r && ltb 0 t.options.control_burst_coalesce_us
    then record t { worker = coalesces r }
    else after_burst r t

-- The worker's next stretch of code, where it has one.
unfoldable pub work : SendResult → ℕ → WorkerPoint → Runtime → Option Runtime
unfolding wake attempt_send relock after_burst take_front
work answer now absent t = none
work answer now waiting t = wake t
work answer now (sends r) t = some (attempt_send r answer now t)
work answer now (after_send r) t = some (relock r t)
work answer now (coalesces r) t = some (after_burst r t)
work answer now (pauses r) t = some (take_front t.control_queue t)

abbrev pub is_absent : WorkerPoint → Bool
is_absent absent = true
is_absent waiting = false
is_absent (sends r) = false
is_absent (after_send r) = false
is_absent (coalesces r) = false
is_absent (pauses r) = false

-- `request_stop` and `joined` are the two critical sections of `shutdown`; the second comes after
-- the worker thread, if there is one, has left its loop.
pub data Event : Type 0 where
  submitted : Request → ℕ → Event
  starts request_stop joined : Event
  set_shared_driver_state : Option SharedDriverState → Event
  changes_shared_state : (SharedDriverState → SharedDriverState) → Event
  set_control_inter_frame_gap_us : ℕ → Event
  works : SendResult → ℕ → Event

abbrev change :
    (SharedDriverState → SharedDriverState) → Option SharedDriverState → Option SharedDriverState
change f none = none
change f (some s) = some (f s)

unfoldable pub step : Event → Runtime → Option Runtime
unfolding submit start work
step (submitted r now) t = some (submit r now t)
step starts t = some (start t)
step request_stop t = some (record t { stop_requested = true })
step joined t =
    if t.stop_requested && is_absent t.worker
    then some (record t { started = false; sending = false })
    else none
step (set_shared_driver_state s) t = some (record t { shared_state = s })
step (changes_shared_state f) t = some (record t { shared_state = change f t.shared_state })
step (set_control_inter_frame_gap_us us) t =
    some (record t { options = record t.options { control_inter_frame_gap_us = us } })
step (works answer now) t = work answer now t.worker t

-- An event that cannot happen is left out.
unfoldable pub run : List Event → Runtime → Runtime
run [] t = t
run (e ∷ es) t = elim (step e t) [ none ↦ run es t | some u ↦ run es u ]

-- `counters` are the fields that are read from the atomics.
pub record Stats : Type 0 where
  pub counters : Counters
  pub pending_control : ℕ
  pub pending_recover : ℕ
  pub pending_config : ℕ
  pub pending_query : ℕ
  pub pending_total : ℕ
  pub worker_running : Bool

unfoldable pub snapshot_stats : Runtime → Stats
snapshot_stats t =
    let pending_control = length t.control_queue in
    let pending_recover = length t.recover_queue in
    let pending_config = length t.config_queue in
    let pending_query = length t.query_queue in
    record {
      counters = t.counters;
      pending_control = pending_control;
      pending_recover = pending_recover;
      pending_config = pending_config;
      pending_query = pending_query;
      pending_total = pending_control + pending_recover + pending_config + pending_query;
      worker_running = t.started && not t.stop_requested;
    }
