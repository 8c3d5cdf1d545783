-- ===== src/DeviceRuntime/Drain.antt =====
-- The end of the worker: `shutdown` of src/DeviceRuntime.cpp waits for it in `join`.
use old_car_can_driver.Prelude.{
  ℕ, ◌+◌, ◌*◌, ◌≤◌, ◌<◌, String, ◌≡◌, refl, inl, inr, Bool, true, false, not, ◌&&◌, ◌||◌, Option,
  none, some, List, [], ◌∷◌, arith, ltb, if◌then◌else◌, Bool-cases, if_cases, nat_eq, string_eq,
  length, null,
}
use old_car_can_driver.Can.{SendResult, error}
use old_car_can_driver.DeviceRuntime.{
  Request, Options, WorkerPoint, absent, waiting, sends, after_send, coalesces, pauses, Runtime,
  all_queues_empty_locked, pop_next_locked, pop_config_or_query, pop_control_or_recover,
}
use old_car_can_driver.DeviceRuntime.Worker.{
  make, note_shared_send_result, count_result, attempt_send, take_next, wake, take_front,
  is_control, after_burst, relock, work, is_absent, Event, request_stop, works, step, run,
}
use old_car_can_driver.DeviceRuntime.Submission.{complete-cases}
use old_car_can_driver.DeviceRuntime.Invariant.{IsWell}
use old_car_can_driver.DeviceRuntime.Moves.{Kept, work-IsWell}
use old_car_can_driver.DeviceRuntime.Reachable.{run-invariant, step-IsWell, make-IsWell}
use old_car_can_driver.DeviceRuntime.Accounting.{
  pending, note_shared_send_result-Same, count_result-pending,
}

-- How many steps the worker still has at most, once it is to stop.
abbrev stage : WorkerPoint → ℕ
stage absent = 0
stage waiting = 1
stage (sends r) = 4
stage (after_send r) = 3
stage (coalesces r) = 2
stage (pauses r) = 1

abbrev pub steps_left : Runtime → ℕ
steps_left t = stage t.worker + 4 * pending t

-- A step is possible, and it brings the worker nearer to its end.
abbrev Nearer : ℕ → Option Runtime → Type 0
Nearer n none = ⊥
Nearer n (some u) = (steps_left u < n) × (u.stop_requested ≡ true)

count_result-stop :
    (result : SendResult) (t : Runtime) → (count_result result t).stop_requested ≡ t.stop_requested
unfolding count_result
count_result-stop result t = ground arith

note_shared_send_result-stop :
    (result : SendResult) (now : ℕ) (t : Runtime)
    → (note_shared_send_result result now t).stop_requested ≡ t.stop_requested
unfolding note_shared_send_result
note_shared_send_result-stop result now t = ground arith

attempt_send-Nearer :
    (r : Request) (answer : SendResult) (now : ℕ) (t : Runtime)
    → t.stop_requested ≡ true
    → Nearer (4 + 4 * pending t) (some (attempt_send r answer now t))
unfolding attempt_send
attempt_send-Nearer r answer now t h =
    let result = if t.has_transport then answer else error in
    complete-cases
      (λ u. Nearer (4 + 4 * pending t) (
        some (record (note_shared_send_result result now (count_result result u)) {
          worker = after_send r;
        })))
      r true result now t
      (λ cs.
        let u = record t { completed = cs } in
        let v = count_result result u in
        ground (
          arith,
          note_shared_send_result-Same result now v,
          count_result-pending result u,
          count_result-stop result u,
          note_shared_send_result-stop result now v,
        ))

take_front-Nearer :
    (qs : List Request) (t : Runtime) (n : ℕ)
    → t.control_queue ≡ qs
    → 0 < length qs
    → t.stop_requested ≡ true
    → 4 * pending t < n
    → Nearer n (some (take_front qs t))
unfolding take_front
take_front-Nearer [] t n h k e l = ground arith
take_front-Nearer (q ∷ qs) t n h k e l = ground arith

after_burst-Nearer :
    (r : Request) (t : Runtime)
    → t.stop_requested ≡ true
    → Nearer (2 + 4 * pending t) (some (after_burst r t))
unfolding after_burst
after_burst-Nearer r t e =
    if_cases (λ u. Nearer (2 + 4 * pending t) (some u)) (null t.control_queue) _ _
      (λ _. (omega arith, e))
      (λ k.
        if_cases (λ u. Nearer (2 + 4 * pending t) (some u))
          (is_control r && ltb 0 t.options.control_inter_frame_gap_us) _ _ (λ _. (omega arith, e))
          (λ _.
            take_front-Nearer t.control_queue t (2 + 4 * pending t) refl
              (nonempty t.control_queue k) e (omega arith)))
  where
    nonempty : (qs : List Request) → null qs ≡ false → 0 < length qs
    nonempty [] h = ground arith
    nonempty (q ∷ qs) h = ground arith

relock-Nearer :
    (r : Request) (t : Runtime)
    → t.stop_requested ≡ true
    → Nearer (3 + 4 * pending t) (some (relock r t))
unfolding relock
relock-Nearer r t e =
    if_cases (λ u. Nearer (3 + 4 * pending t) (some u))
      (null t.control_queue && is_control r && ltb 0 t.options.control_burst_coalesce_us)
      (record t { worker = coalesces r }) (after_burst r t) (λ _. (omega arith, e))
      (λ _. (omega (arith, (after_burst-Nearer r t e).0), (after_burst-Nearer r t e).1))

take_next-Nearer :
    (t : Runtime)
    → t.stop_requested ≡ true
    → all_queues_empty_locked t ≡ false
    → Nearer (1 + 4 * pending t) (some (take_next t (pop_next_locked t)))
unfolding pop_next_locked
take_next-Nearer t h k = first t.control_queue t.recover_queue refl refl
  where
    last :
        (cs qs : List Request)
        → t.config_queue ≡ cs
        → t.query_queue ≡ qs
        → t.control_queue ≡ []
        → t.recover_queue ≡ []
        → Nearer (1 + 4 * pending t) (some (take_next t (pop_config_or_query cs qs t)))
    last (c ∷ cs) qs e f g i = ground arith
    last [] (q ∷ qs) e f g i = ground arith
    last [] [] e f g i = ground arith

    first :
        (cs rs : List Request)
        → t.control_queue ≡ cs
        → t.recover_queue ≡ rs
        → Nearer (1 + 4 * pending t) (some (take_next t (pop_control_or_recover cs rs t)))
    first (c ∷ cs) rs e f = ground arith
    first [] (r ∷ rs) e f = ground arith
    first [] [] e f = last t.config_queue t.query_queue refl refl e f

wake-Nearer : (t : Runtime) → t.stop_requested ≡ true → Nearer (1 + 4 * pending t) (wake t)
unfolding wake
wake-Nearer t h =
    if_cases (Nearer (1 + 4 * pending t)) (t.stop_requested || not (all_queues_empty_locked t)) _
      none
      (λ _.
        if_cases (Nearer (1 + 4 * pending t)) (t.stop_requested && all_queues_empty_locked t)
          (some (record t { sending = false; worker = absent })) _ (λ e. (omega arith, h))
          (λ e. take_next-Nearer t h (ground (arith, e, h))))
      (λ e. ground (arith, e, h))

work-Nearer :
    (answer : SendResult) (now : ℕ) (p : WorkerPoint) (t : Runtime)
    → t.worker ≡ p
    → IsWell t
    → t.stop_requested ≡ true
    → is_absent p ≡ false
    → Nearer (stage p + 4 * pending t) (work answer now p t)
unfolding work
work-Nearer answer now absent t e w h a = ground arith
work-Nearer answer now waiting t e w h a = wake-Nearer t h
work-Nearer answer now (sends r) t e w h a = attempt_send-Nearer r answer now t h
work-Nearer answer now (after_send r) t e w h a = relock-Nearer r t h
work-Nearer answer now (coalesces r) t e w h a = after_burst-Nearer r t h
work-Nearer answer now (pauses r) t e w h a =
    take_front-Nearer t.control_queue t (1 + 4 * pending t) refl (rw e at w.pausing) h (omega arith)

-- The worker alone, with the answers and times that its sends meet.
abbrev pub alone : List (SendResult × ℕ) → List Event
alone [] = []
alone ((answer, now) ∷ rest) = works answer now ∷ alone rest

work-absent :
    (answer : SendResult) (now : ℕ) (p : WorkerPoint) (t : Runtime)
    → is_absent p ≡ true
    → work answer now p t ≡ none
unfolding work
work-absent answer now p t h = ground arith

after : Runtime → List Event → Option Runtime → Runtime
after t es none = run es t
after t es (some u) = run es u

run-works :
    (answer : SendResult) (now : ℕ) (es : List Event) (t : Runtime)
    → run (works answer now ∷ es) t ≡ after t es (work answer now t.worker t)
unfolding run step after
run-works answer now es t = refl

alone-absent :
    (answers : List (SendResult × ℕ)) (t : Runtime)
    → is_absent t.worker ≡ true
    → is_absent (run (alone answers) t).worker ≡ true
unfolding run after
alone-absent [] t h = h
alone-absent ((answer, now) ∷ rest) t h =
    rw (run-works answer now (alone rest) t, work-absent answer now t.worker t h)
      (alone-absent rest t h)

alone-ends :
    (answers : List (SendResult × ℕ)) (t : Runtime)
    → IsWell t
    → t.stop_requested ≡ true
    → steps_left t ≤ length answers
    → is_absent (run (alone answers) t).worker ≡ true
unfolding run after
alone-ends [] t w h l = stage_zero t.worker (omega arith)
  where
    stage_zero : (p : WorkerPoint) → stage p ≤ 0 → is_absent p ≡ true
    stage_zero p h = ground arith
alone-ends ((answer, now) ∷ rest) t w h l = elim (Bool-cases (is_absent t.worker)) [
  | inl a ↦ alone-absent ((answer, now) ∷ rest) t a
  | inr a ↦ rw (run-works answer now (alone rest) t) (
      go (work answer now t.worker t) (work-Nearer answer now t.worker t refl w h a)
        (work-IsWell answer now t.worker t refl w) (alone-ends rest))
]
  where
    go :
        (o : Option Runtime)
        → Nearer (steps_left t) o
        → Kept IsWell o
        → ((u : Runtime)
            → IsWell u
            → u.stop_requested ≡ true
            → steps_left u ≤ length rest
            → is_absent (run (alone rest) u).worker ≡ true)
        → is_absent (after t (alone rest) o).worker ≡ true
    go none n k ends = absurd n
    go (some u) n k ends = ends u k n.1 (omega (arith, n.0))

-- When the control queue may hold at least one request, whatever a runtime has been through,
-- once a stop is requested the worker alone, whatever its sends answer, is out of its loop after
-- as many of its steps as its position counts (at most 4) plus four for each pending request.
pub shutdown_ends :
    (options : Options) (device_name : String) (has_transport : Bool)
    → 0 < options.max_control_queue_depth
    → (es : List Event) (answers : List (SendResult × ℕ))
    → steps_left (run es (make options device_name has_transport)) ≤ length answers
    → is_absent
        (run (alone answers) (record (run es (make options device_name has_transport)) {
          stop_requested = true;
        })).worker
      ≡ true
unfolding step
shutdown_ends options device_name has_transport room es answers l =
    let t = run es (make options device_name has_transport) in
    let w =
      run-invariant IsWell step-IsWell es (make options device_name has_transport)
        (make-IsWell options device_name has_transport room) in
    alone-ends answers (record t { stop_requested = true }) (step-IsWell request_stop t w) refl l
