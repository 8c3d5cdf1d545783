-- ===== src/DeviceRuntime/Accounting.antt =====
-- Where the submitted requests are: the counters of src/DeviceRuntime.cpp, which snapshotStats reports.
use old_car_can_driver.Prelude.{
  ℕ, ◌+◌, ◌%◌, ◌<◌, String, ◌≡◌, refl, ap, Bool, true, false, not, ◌&&◌, ◌||◌, Option, none, some,
  List, [], ◌∷◌, arith, ltb, if◌then◌else◌, if_cases, nat_eq, string_eq, length, null,
}
use old_car_can_driver.Can.{
  SendResult, ok, backpressure, link_down, error, Category, control, query, recover, config,
}
use old_car_can_driver.DeviceRuntime.{
  Request, Options, Counters, WorkerPoint, absent, waiting, sends, after_send, coalesces, pauses,
  Runtime, submit, all_queues_empty_locked, pop_next_locked, push_back, count_dropped,
  count_submitted, pop_config_or_query, pop_control_or_recover,
}
use old_car_can_driver.DeviceRuntime.Worker.{
  initial, start, make, note_shared_send_result, count_result, attempt_send, take_next, wake,
  take_front, is_control, after_burst, relock, work, is_absent, Event, submitted as submits, starts,
  request_stop, joined, set_shared_driver_state, changes_shared_state,
  set_control_inter_frame_gap_us, works, step, run, snapshot_stats,
}
use old_car_can_driver.DeviceRuntime.Queues.{count_frame-replace, enqueue-cases}
use old_car_can_driver.DeviceRuntime.Submission.{submit-cases, complete-cases}
use old_car_can_driver.DeviceRuntime.Invariant.{IsWell, length-behind}
use old_car_can_driver.DeviceRuntime.Moves.{Kept}
use old_car_can_driver.DeviceRuntime.Reachable.{run-invariant, step-IsWell, make-IsWell}

abbrev pub in_flight : WorkerPoint → ℕ
in_flight absent = 0
in_flight waiting = 0
in_flight (sends r) = 1
in_flight (after_send r) = 0
in_flight (coalesces r) = 0
in_flight (pauses r) = 0

abbrev pub pending : Runtime → ℕ
pending t =
    length t.control_queue + length t.recover_queue + length t.config_queue + length t.query_queue

abbrev pub attempted : Counters → ℕ
attempted c = c.sent + c.send_backpressure + c.send_link_down + c.send_error

-- Every submitted request was attempted, evicted, is queued, or is about to be sent.
abbrev pub Balance : Counters → ℕ → Type 0
Balance c unsent = c.submitted ≡ (attempted c + c.evicted_control + unsent) % 18446744073709551616

abbrev Balanced : Runtime → Type 0
Balanced t = Balance t.counters (pending t + in_flight t.worker)

submit-Balanced :
    (r : Request) (now : ℕ) (t : Runtime) → IsWell t → Balanced t → Balanced (submit r now t)
unfolding count_dropped push_back
submit-Balanced r now t w b =
    submit-cases Balanced r now t
      (λ _.
        complete-cases Balanced r false error now
          (record t { counters = count_dropped r.category t.counters }) (λ cs. dropping r.category))
      (λ _ _.
        enqueue-cases (λ u. Balanced (count_submitted u)) r t
          (λ qs e. omega (arith, b, count_frame-replace 0 r t.control_queue qs e))
          (λ e k. omega (arith, b, length-behind r t.control_queue))
          (λ q qs e k. ground (arith, b, length-behind r qs, k))
          (λ k e. absurd (ground (arith, w.fits.room, k))))
      (λ h e k. pushing r.category)
  where
    dropping :
        (c : Category) → Balance (count_dropped c t.counters) (pending t + in_flight t.worker)
    dropping c = ground (arith, b)

    pushing : (c : Category) → Balanced (count_submitted (push_back c r t))
    pushing control = omega (arith, b, length-behind r t.control_queue)
    pushing query = omega (arith, b, length-behind r t.query_queue)
    pushing recover = omega (arith, b, length-behind r t.recover_queue)
    pushing config = omega (arith, b, length-behind r t.config_queue)

count_result-Balanced :
    (result : SendResult) (t : Runtime)
    → Balance t.counters (pending t + 1)
    → Balance (count_result result t).counters (pending t)
unfolding count_result
count_result-Balanced ok t b = omega (arith, b)
count_result-Balanced backpressure t b = omega (arith, b)
count_result-Balanced link_down t b = omega (arith, b)
count_result-Balanced error t b = omega (arith, b)

-- What neither counts nor moves a request.
abbrev pub Same : Runtime → Runtime → Type 0
Same t u = (u.counters ≡ t.counters) × (pending u ≡ pending t)

pub note_shared_send_result-Same :
    (result : SendResult) (now : ℕ) (t : Runtime) → Same t (note_shared_send_result result now t)
unfolding note_shared_send_result
note_shared_send_result-Same result now t = ground arith

pub count_result-pending :
    (result : SendResult) (t : Runtime) → pending (count_result result t) ≡ pending t
unfolding count_result
count_result-pending result t = ground arith

attempt_send-Balanced :
    (r : Request) (answer : SendResult) (now : ℕ) (t : Runtime)
    → Balance t.counters (pending t + 1)
    → Balanced (attempt_send r answer now t)
unfolding attempt_send
attempt_send-Balanced r answer now t b =
    let result = if t.has_transport then answer else error in
    complete-cases
      (λ u. Balanced (record (note_shared_send_result result now (count_result result u)) {
        worker = after_send r;
      }))
      r true result now t
      (λ cs.
        let u = record t { completed = cs } in
        let s = note_shared_send_result-Same result now (count_result result u) in
        ground (arith, s, count_result-pending result u, count_result-Balanced result u b))

take_front-Balanced :
    (qs : List Request) (t : Runtime)
    → t.control_queue ≡ qs
    → in_flight t.worker ≡ 0
    → Balanced t
    → Balanced (take_front qs t)
unfolding take_front
take_front-Balanced [] t h k b = omega arith
take_front-Balanced (q ∷ qs) t h k b = ground arith

after_burst-Balanced :
    (r : Request) (t : Runtime) → in_flight t.worker ≡ 0 → Balanced t → Balanced (after_burst r t)
unfolding after_burst
after_burst-Balanced r t k b =
    if_cases Balanced (null t.control_queue) _ _ (λ _. omega arith)
      (λ _.
        if_cases Balanced (is_control r && ltb 0 t.options.control_inter_frame_gap_us) _ _
          (λ _. omega arith) (λ _. take_front-Balanced t.control_queue t refl k b))

relock-Balanced :
    (r : Request) (t : Runtime) → in_flight t.worker ≡ 0 → Balanced t → Balanced (relock r t)
unfolding relock
relock-Balanced r t k b =
    if_cases Balanced
      (null t.control_queue && is_control r && ltb 0 t.options.control_burst_coalesce_us)
      (record t { worker = coalesces r }) (after_burst r t) (λ _. omega arith)
      (λ _. after_burst-Balanced r t k b)

pop_next_locked-Balanced :
    (t : Runtime) → in_flight t.worker ≡ 0 → Balanced t → Balanced (take_next t (pop_next_locked t))
unfolding pop_next_locked
pop_next_locked-Balanced t k b = first t.control_queue t.recover_queue refl refl
  where
    last :
        (cs qs : List Request)
        → t.config_queue ≡ cs
        → t.query_queue ≡ qs
        → Balanced (take_next t (pop_config_or_query cs qs t))
    last (c ∷ cs) qs e f = ground arith
    last [] (q ∷ qs) e f = ground arith
    last [] [] e f = b

    first :
        (cs rs : List Request)
        → t.control_queue ≡ cs
        → t.recover_queue ≡ rs
        → Balanced (take_next t (pop_control_or_recover cs rs t))
    first (c ∷ cs) rs e f = ground arith
    first [] (r ∷ rs) e f = ground arith
    first [] [] e f = last t.config_queue t.query_queue refl refl

wake-Balanced : (t : Runtime) → in_flight t.worker ≡ 0 → Balanced t → Kept Balanced (wake t)
unfolding wake
wake-Balanced t k b =
    if_cases (Kept Balanced) (t.stop_requested || not (all_queues_empty_locked t)) _ none
      (λ _.
        if_cases (Kept Balanced) (t.stop_requested && all_queues_empty_locked t)
          (some (record t { sending = false; worker = absent })) _ (λ _. omega arith)
          (λ _. pop_next_locked-Balanced t k b))
      (λ _. tt)

work-Balanced :
    (answer : SendResult) (now : ℕ) (p : WorkerPoint) (t : Runtime)
    → t.worker ≡ p
    → Balanced t
    → Kept Balanced (work answer now p t)
unfolding work
work-Balanced answer now absent t e b = tt
work-Balanced answer now waiting t e b = wake-Balanced t (ap in_flight e) b
work-Balanced answer now (sends r) t e b =
    attempt_send-Balanced r answer now t (rw (ap in_flight e) at b)
work-Balanced answer now (after_send r) t e b = relock-Balanced r t (ap in_flight e) b
work-Balanced answer now (coalesces r) t e b = after_burst-Balanced r t (ap in_flight e) b
work-Balanced answer now (pauses r) t e b =
    take_front-Balanced t.control_queue t refl (ap in_flight e) b

in_flight-absent : (p : WorkerPoint) → is_absent p ≡ true → in_flight p ≡ 0
in_flight-absent p h = ground arith

start-Balanced : (t : Runtime) → IsWell t → Balanced t → Balanced (start t)
unfolding start
start-Balanced t w b =
    if_cases Balanced t.started t _ (λ _. b)
      (λ e. ground (arith, w.single, in_flight-absent t.worker))

step-Balanced : (e : Event) (t : Runtime) → IsWell t → Balanced t → Kept Balanced (step e t)
unfolding step
step-Balanced (submits r now) t w b = submit-Balanced r now t w b
step-Balanced starts t w b = start-Balanced t w b
step-Balanced request_stop t w b = b
step-Balanced joined t w b =
    if_cases (Kept Balanced) (t.stop_requested && is_absent t.worker) _ none (λ _. b) (λ _. tt)
step-Balanced (set_shared_driver_state s) t w b = b
step-Balanced (changes_shared_state f) t w b = b
step-Balanced (set_control_inter_frame_gap_us us) t w b = b
step-Balanced (works answer now) t w b = work-Balanced answer now t.worker t refl b

Kept-both :
    (P Q : Runtime → Type 0) (o : Option Runtime) → Kept P o → Kept Q o → Kept (λ t. P t × Q t) o
Kept-both P Q none a b = tt
Kept-both P Q (some t) a b = (a, b)

-- When the control queue may hold at least one request, after any calls and worker steps the
-- number of submitted requests is, modulo 2^64, the number of attempted sends, whatever their
-- result, plus the evicted control requests, the pending ones, and the one that the worker is
-- about to send.
pub submitted_balance :
    (options : Options) (device_name : String) (has_transport : Bool)
    → 0 < options.max_control_queue_depth
    → (es : List Event)
    → let t = run es (make options device_name has_transport) in
      let stats = snapshot_stats t in
      stats.counters.submitted
      ≡ (attempted stats.counters
          + stats.counters.evicted_control
          + (stats.pending_total + in_flight t.worker))
        % 18446744073709551616
unfolding start snapshot_stats
submitted_balance options device_name has_transport room es =
    let t = make options device_name has_transport in
    (run-invariant (λ u. IsWell u × Balanced u)
      (λ e u (w, b).
        Kept-both IsWell Balanced (step e u) (step-IsWell e u w) (step-Balanced e u w b))
      es t (make-IsWell options device_name has_transport room, begins)).1
  where
    begins : Balanced (make options device_name has_transport)
    begins =
        let t = initial options device_name has_transport in
        if_cases Balanced options.autostart (start t) t (λ _. refl) (λ _. refl)
