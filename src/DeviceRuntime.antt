-- ===== src/DeviceRuntime.antt =====
-- The transmit queues of one device: include/can_driver/DeviceRuntime.h, CanTxDispatcher.h and the
-- queueing half of src/DeviceRuntime.cpp. A completion is a handle, and its calls are recorded,
-- newest first. The counters are 64-bit and wrap. `source` and the log lines are left out.
-- `undefined` records that the source would pop an empty std::deque, which C++ leaves undefined.
pub mod Worker
pub mod Queues
pub mod Submission
pub mod Invariant
pub mod Moves
pub mod Reachable
pub mod Accounting
pub mod Drain
pub mod Health
mod Examples
use old_car_can_driver.Prelude.{
  ℕ, ◌+◌, ◌%◌, String, Bool, true, false, ◌&&◌, Option, none, some, List, [], ◌∷◌, ◌++◌, leb, ◌==◌,
  if◌then◌else◌, length, null,
}
use old_car_can_driver.Can.{Frame, SendResult, error, Category, control, query, recover, config}
use old_car_can_driver.SharedState.{SharedDriverState}

pub record Request : Type 0 where
  pub frame : Frame
  pub category : Category
  pub completion : Option ℕ

pub record Options : Type 0 where
  pub max_control_queue_depth : ℕ
  pub max_recover_queue_depth : ℕ
  pub max_config_queue_depth : ℕ
  pub max_query_queue_depth : ℕ
  pub max_backpressure_retries : ℕ
  pub backpressure_sleep_us : ℕ
  pub control_burst_coalesce_us : ℕ
  pub control_inter_frame_gap_us : ℕ
  pub autostart : Bool

abbrev pub default_options : Options
default_options = record {
  max_control_queue_depth = 256;
  max_recover_queue_depth = 128;
  max_config_queue_depth = 128;
  max_query_queue_depth = 64;
  max_backpressure_retries = 3;
  backpressure_sleep_us = 500;
  control_burst_coalesce_us = 500;
  control_inter_frame_gap_us = 0;
  autostart = true;
}

pub record Counters : Type 0 where
  pub submitted : ℕ
  pub sent : ℕ
  pub send_backpressure : ℕ
  pub send_link_down : ℕ
  pub send_error : ℕ
  pub dropped_control : ℕ
  pub dropped_recover : ℕ
  pub dropped_config : ℕ
  pub dropped_query : ℕ
  pub evicted_control : ℕ

abbrev pub no_counts : Counters
no_counts = record {
  submitted = 0;
  sent = 0;
  send_backpressure = 0;
  send_link_down = 0;
  send_error = 0;
  dropped_control = 0;
  dropped_recover = 0;
  dropped_config = 0;
  dropped_query = 0;
  evicted_control = 0;
}

-- fetch_add(1) on a std::uint64_t.
abbrev pub bump : ℕ → ℕ
bump n = (n + 1) % 18446744073709551616

-- One call of a completion: its handle, whether a send was attempted, the result and the time.
pub record Completed : Type 0 where
  pub handle : ℕ
  pub attempted_send : Bool
  pub result : SendResult
  pub event_time : ℕ

-- Where the worker thread stands: not running (never started, or out of its loop), before the wait
-- for work, before the send of a request, after it and before the lock, in the wait for a burst,
-- in the gap between control frames.
pub data WorkerPoint : Type 0 where
  absent waiting : WorkerPoint
  sends after_send coalesces pauses : Request → WorkerPoint

pub record Runtime : Type 0 where
  pub options : Options
  pub device_name : String
  pub has_transport : Bool
  pub shared_state : Option SharedDriverState
  pub control_queue : List Request
  pub recover_queue : List Request
  pub config_queue : List Request
  pub query_queue : List Request
  pub started : Bool
  pub stop_requested : Bool
  pub sending : Bool
  pub counters : Counters
  pub completed : List Completed
  pub worker : WorkerPoint
  pub consecutive_backpressure : ℕ
  pub undefined : Bool

unfoldable pub queue_for : Category → Runtime → List Request
queue_for control t = t.control_queue
queue_for recover t = t.recover_queue
queue_for config t = t.config_queue
queue_for query t = t.query_queue

unfoldable pub max_depth_for : Category → Runtime → ℕ
max_depth_for control t = t.options.max_control_queue_depth
max_depth_for recover t = t.options.max_recover_queue_depth
max_depth_for config t = t.options.max_config_queue_depth
max_depth_for query t = t.options.max_query_queue_depth

-- `queueFor(category).push_back(request)`.
unfoldable pub push_back : Category → Request → Runtime → Runtime
push_back control r t = record t { control_queue = t.control_queue ++ r ∷ [] }
push_back recover r t = record t { recover_queue = t.recover_queue ++ r ∷ [] }
push_back config r t = record t { config_queue = t.config_queue ++ r ∷ [] }
push_back query r t = record t { query_queue = t.query_queue ++ r ∷ [] }

unfoldable pub count_dropped : Category → Counters → Counters
count_dropped control c = record c { dropped_control = bump c.dropped_control }
count_dropped recover c = record c { dropped_recover = bump c.dropped_recover }
count_dropped config c = record c { dropped_config = bump c.dropped_config }
count_dropped query c = record c { dropped_query = bump c.dropped_query }

abbrev pub count_submitted : Runtime → Runtime
count_submitted t = record t {
  counters = record t.counters { submitted = bump t.counters.submitted };
}

abbrev pub same_id : Request → Request → Bool
same_id a b = a.frame.id == b.frame.id

-- The first queued request with the frame id of `r` gives way to `r`.
unfoldable pub replace : Request → List Request → Option (List Request)
replace r [] = none
replace r (q ∷ qs) =
    let rest = replace r qs in
    if same_id q r then some (r ∷ qs) else elim rest [ none ↦ none | some new ↦ some (q ∷ new) ]

abbrev pub count_evicted : Runtime → Runtime
count_evicted t = record t {
  counters = record t.counters { evicted_control = bump t.counters.evicted_control };
}

-- `controlQueue_.pop_front()` and the count of the eviction.
unfoldable pub evict_oldest : List Request → Runtime → Runtime
evict_oldest [] t = record (count_evicted t) { undefined = true }
evict_oldest (q ∷ qs) t = record (count_evicted t) { control_queue = qs }

unfoldable pub enqueue_control_locked : Request → Runtime → Runtime
unfolding replace evict_oldest push_back
enqueue_control_locked r t = elim (replace r t.control_queue) [
  | some queue ↦ record (count_evicted t) { control_queue = queue }
  | none ↦ push_back control r (
      if leb t.options.max_control_queue_depth (length t.control_queue)
      then evict_oldest t.control_queue t
      else t)
]

-- Whether the request was accepted, and the runtime afterwards.
abbrev pub enqueue_other : Request → Runtime → Bool × Runtime
enqueue_other r t =
    if leb (max_depth_for r.category t) (length (queue_for r.category t))
    then (false, record t { counters = count_dropped r.category t.counters })
    else (true, count_submitted (push_back r.category r t))

abbrev pub enqueue_started : Category → Request → Runtime → Bool × Runtime
enqueue_started control r t = (true, count_submitted (enqueue_control_locked r t))
enqueue_started query r t = enqueue_other r t
enqueue_started recover r t = enqueue_other r t
enqueue_started config r t = enqueue_other r t

unfoldable pub enqueue_locked : Request → Runtime → Bool × Runtime
unfolding enqueue_control_locked queue_for max_depth_for count_dropped
enqueue_locked r t =
    if t.stop_requested
    then (false, record t { counters = count_dropped r.category t.counters })
    else enqueue_started r.category r t

abbrev pub complete : Request → Bool → SendResult → ℕ → Runtime → Runtime
complete r attempted result now t = elim r.completion [
  | none ↦ t
  | some handle ↦ record t {
    completed =
        record { handle = handle; attempted_send = attempted; result = result; event_time = now }
        ∷ t.completed;
  }
]

abbrev pub complete_dropped : Request → ℕ → Runtime → Runtime
complete_dropped r now t = complete r false error now t

unfoldable pub submit : Request → ℕ → Runtime → Runtime
unfolding enqueue_locked
submit r now t =
    let (accepted, u) = enqueue_locked r t in if accepted then u else complete_dropped r now u

abbrev pub all_queues_empty_locked : Runtime → Bool
all_queues_empty_locked t =
    null t.control_queue && null t.recover_queue && null t.config_queue && null t.query_queue

unfoldable pub pop_config_or_query :
    List Request → List Request → Runtime → Option (Request × Runtime)
pop_config_or_query (r ∷ rs) qs t = some (r, record t { config_queue = rs })
pop_config_or_query [] (r ∷ rs) t = some (r, record t { query_queue = rs })
pop_config_or_query [] [] t = none

unfoldable pub pop_control_or_recover :
    List Request → List Request → Runtime → Option (Request × Runtime)
unfolding pop_config_or_query
pop_control_or_recover (r ∷ rs) qs t = some (r, record t { control_queue = rs })
pop_control_or_recover [] (r ∷ rs) t = some (r, record t { recover_queue = rs })
pop_control_or_recover [] [] t = pop_config_or_query t.config_queue t.query_queue t

-- The next request and the runtime without it.
unfoldable pub pop_next_locked : Runtime → Option (Request × Runtime)
unfolding pop_control_or_recover
pop_next_locked t = pop_control_or_recover t.control_queue t.recover_queue t
