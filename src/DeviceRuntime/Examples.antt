-- ===== src/DeviceRuntime/Examples.antt =====
-- A concrete runtime, and the theorems about src/DeviceRuntime.cpp at it.
use old_car_can_driver.Prelude.{
  ℕ, ◌+◌, ◌%◌, ◌≤◌, ◌≡◌, refl, true, false, none, some, List, [], ◌∷◌, ◌++◌, map, arith, nat_eq,
  string_eq, length,
}
use old_car_can_driver.Can.{Frame, SendResult, ok, control, query}
use old_car_can_driver.DeviceRuntime.{
  Request, Runtime, submit, all_queues_empty_locked, pop_next_locked, default_options,
}
use old_car_can_driver.DeviceRuntime.Worker.{
  make, is_absent, Event, submitted as submits, request_stop, step, run,
}
use old_car_can_driver.Can.{zero_bytes}
use old_car_can_driver.SharedState.Degraded.{empty_state}
use old_car_can_driver.DeviceRuntime.Queues.{in_order, peel, peel-pop_next_locked, count_frame}
use old_car_can_driver.DeviceRuntime.Submission.{Submission, submit-Submission}
use old_car_can_driver.DeviceRuntime.Reachable.{queues_bounded, never_undefined, exit_drained}
use old_car_can_driver.DeviceRuntime.Accounting.{attempted, in_flight, submitted_balance}
use old_car_can_driver.DeviceRuntime.Drain.{alone, shutdown_ends}
use old_car_can_driver.DeviceRuntime.Worker.{snapshot_stats}

abbrev frame : ℕ → Frame
frame id = record {
  id = id;
  is_extended = false;
  is_remote_request = false;
  dlc = 8;
  data_bytes = zero_bytes;
}

abbrev drive : ℕ → Request
drive id = record { frame = frame id; category = control; completion = none }

abbrev ask : ℕ → Request
ask id = record { frame = frame id; category = query; completion = some id }

-- A query, then three commands to two motors.
abbrev traffic : List Event
traffic =
    submits (ask 0x141) 5
    ∷ submits (drive 0x141) 6
    ∷ submits (drive 0x142) 7
    ∷ submits (drive 0x141) 8
    ∷ []

abbrev fresh_runtime : Runtime
fresh_runtime = make default_options "can0" true

abbrev loaded : Runtime
loaded = run traffic fresh_runtime

-- The control frames go first, and the second command to 0x141 took the place of the first.
loaded_order : map (λ r. r.frame.id) (in_order loaded) ≡ 0x141 ∷ 0x142 ∷ 0x141 ∷ []
unfolding run step
loaded_order = refl

peel-pop_next_locked_example : peel (pop_next_locked loaded) ≡ in_order loaded
peel-pop_next_locked_example = peel-pop_next_locked loaded

submit-Submission_example : Submission (ask 0x142) 9 loaded (submit (ask 0x142) 9 loaded)
submit-Submission_example = submit-Submission (ask 0x142) 9 loaded

queues_bounded_example :
    let t = run traffic fresh_runtime in
    (length t.control_queue ≤ t.options.max_control_queue_depth)
    × (length t.recover_queue ≤ t.options.max_recover_queue_depth)
    × (length t.config_queue ≤ t.options.max_config_queue_depth)
    × (length t.query_queue ≤ t.options.max_query_queue_depth)
    × ((id : ℕ) → count_frame id t.control_queue ≤ 1)
queues_bounded_example = queues_bounded default_options "can0" true (omega arith) traffic

never_undefined_example : (run traffic fresh_runtime).undefined ≡ false
never_undefined_example = never_undefined default_options "can0" true (omega arith) traffic

abbrev sends_well : List (SendResult × ℕ)
sends_well =
    (ok, 10)
    ∷ (ok, 11)
    ∷ (ok, 12)
    ∷ (ok, 13)
    ∷ (ok, 14)
    ∷ (ok, 15)
    ∷ (ok, 16)
    ∷ (ok, 17)
    ∷ (ok, 18)
    ∷ (ok, 19)
    ∷ (ok, 20)
    ∷ (ok, 21)
    ∷ (ok, 22)
    ∷ []

abbrev stopped : List Event
stopped = traffic ++ request_stop ∷ alone sends_well

exit_drained_example :
    ((run stopped fresh_runtime).stop_requested ≡ true)
    × (all_queues_empty_locked (run stopped fresh_runtime) ≡ true)
unfolding run step
exit_drained_example = exit_drained default_options "can0" true (omega arith) stopped refl refl

submitted_balance_example :
    let t = run stopped fresh_runtime in
    let stats = snapshot_stats t in
    stats.counters.submitted
    ≡ (attempted stats.counters
        + stats.counters.evicted_control
        + (stats.pending_total + in_flight t.worker))
      % 18446744073709551616
submitted_balance_example = submitted_balance default_options "can0" true (omega arith) stopped

-- Four submitted, three sent, one replaced.
stopped_counts :
    ((run stopped fresh_runtime).counters.submitted ≡ 4)
    × ((run stopped fresh_runtime).counters.sent ≡ 3)
    × ((run stopped fresh_runtime).counters.evicted_control ≡ 1)
unfolding run step
stopped_counts = (refl, refl, refl)

shutdown_ends_example :
    is_absent
      (run (alone sends_well) (record (run traffic fresh_runtime) { stop_requested = true })).worker
    ≡ true
unfolding run step
shutdown_ends_example =
    shutdown_ends default_options "can0" true (omega arith) traffic sends_well (omega arith)

abbrev attached : Runtime
attached = record fresh_runtime { shared_state = some empty_state }
