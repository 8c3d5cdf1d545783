-- ===== src/DeviceRuntime/Moves.antt =====
-- The worker's steps keep the invariant (workerLoop of src/DeviceRuntime.cpp).
use old_car_can_driver.Prelude.{
  ℕ, ◌≤◌, ◌<◌, ◌≡◌, refl, ap, ◌∙◌, inl, inr, Bool, true, false, not, ◌&&◌, ◌||◌, Option, none, some,
  List, [], ◌∷◌, arith, ltb, if◌then◌else◌, if_cases, nat_eq, string_eq, is_empty, length, null,
}
use old_car_can_driver.Can.{SendResult, ok, backpressure, link_down, error}
use old_car_can_driver.SharedState.{SharedDriverState, mutate_device_health}
use old_car_can_driver.DeviceRuntime.{
  Request, WorkerPoint, absent, waiting, sends, after_send, coalesces, pauses, Runtime, complete,
  all_queues_empty_locked, pop_next_locked, pop_config_or_query, pop_control_or_recover,
}
use old_car_can_driver.DeviceRuntime.Worker.{
  note_result, is_ok, note_shared_send_result, count_result, attempt_send, take_next, wake,
  take_front, is_control, after_burst, relock, work, is_absent,
}
use old_car_can_driver.DeviceRuntime.Queues.{count_frame, count_frame-tail}
use old_car_can_driver.DeviceRuntime.Submission.{complete-cases}
use old_car_can_driver.DeviceRuntime.Invariant.{Pausing, IsWell}

-- A property of the runtime that an event leaves, where it can happen.
abbrev pub Kept : (Runtime → Type 0) → Option Runtime → Type 0
Kept P none = Unit
Kept P (some u) = P u

-- The queues are no longer than they were.
abbrev Moved : Runtime → Runtime → Type 0
Moved t u =
    (u.options ≡ t.options)
    × (length u.control_queue ≤ length t.control_queue)
    × (length u.recover_queue ≤ length t.recover_queue)
    × (length u.config_queue ≤ length t.config_queue)
    × (length u.query_queue ≤ length t.query_queue)
    × ((id : ℕ) → count_frame id u.control_queue ≤ count_frame id t.control_queue)
    × (u.started ≡ t.started)
    × (u.undefined ≡ t.undefined)

Moved-refl : (t : Runtime) → Moved t t
Moved-refl t =
    (refl, omega arith, omega arith, omega arith, omega arith, λ id. omega arith, refl, refl)

Moved-trans : (t u v : Runtime) → Moved t u → Moved u v → Moved t v
Moved-trans t u v (a, b, c, d, e, f, g, h) (a', b', c', d', e', f', g', h') = (
  a' ∙ a,
  omega arith,
  omega arith,
  omega arith,
  omega arith,
  λ id. omega (arith, f id, f' id),
  g' ∙ g,
  h' ∙ h,
)

-- The worker goes on within its loop.
Moved-IsWell :
    (t u : Runtime)
    → IsWell t
    → Moved t u
    → is_absent t.worker ≡ false
    → is_absent u.worker ≡ false
    → Pausing u.worker u.control_queue
    → IsWell u
Moved-IsWell t u w m a b p = record {
  fits = record {
    room = ground (arith, w.fits.room, m);
    control_fits = ground (arith, w.fits.control_fits, m);
    recover_fits = ground (arith, w.fits.recover_fits, m);
    config_fits = ground (arith, w.fits.config_fits, m);
    query_fits = ground (arith, w.fits.query_fits, m);
    distinct = λ id. ground (arith, w.fits.distinct id, m.5 id);
    defined = ground (arith, w.fits.defined, m);
  };
  pausing = p;
  exited = inr (inl b);
  single = ground (arith, w.single, m);
}

note_shared_send_result-Moved :
    (result : SendResult) (now : ℕ) (t : Runtime) → Moved t (note_shared_send_result result now t)
unfolding note_shared_send_result
note_shared_send_result-Moved result now t = go t.shared_state
  where
    go :
        (o : Option SharedDriverState)
        → Moved t (elim o [
          | none ↦ t
          | some s ↦ if is_empty t.device_name || is_ok result then t else record t {
            shared_state = some (mutate_device_health t.device_name (note_result result now) s);
          }
        ])
    go none = Moved-refl t
    go (some s) =
        if_cases (Moved t) (is_empty t.device_name || is_ok result) _ _ (λ _. Moved-refl t)
          (λ _. Moved-refl t)

count_result-Moved : (result : SendResult) (t : Runtime) → Moved t (count_result result t)
unfolding count_result
count_result-Moved ok t = Moved-refl t
count_result-Moved backpressure t = Moved-refl t
count_result-Moved link_down t = Moved-refl t
count_result-Moved error t = Moved-refl t

complete-Moved :
    (r : Request) (a : Bool) (result : SendResult) (now : ℕ) (t : Runtime)
    → Moved t (complete r a result now t)
complete-Moved r a result now t = complete-cases (Moved t) r a result now t (λ cs. Moved-refl t)

attempt_send-Moved :
    (r : Request) (answer : SendResult) (now : ℕ) (t : Runtime)
    → Moved t (attempt_send r answer now t)
unfolding attempt_send
attempt_send-Moved r answer now t =
    let result = if t.has_transport then answer else error in
    let u = complete r true result now t in
    let v = count_result result u in
    Moved-trans t u (note_shared_send_result result now v) (complete-Moved r true result now t) (
      Moved-trans u v (note_shared_send_result result now v) (count_result-Moved result u)
        (note_shared_send_result-Moved result now v))

shorter_control :
    (t : Runtime) (q : Request) (qs : List Request)
    → t.control_queue ≡ q ∷ qs
    → Moved t (record t { control_queue = qs })
shorter_control t q qs h = (
  refl,
  ground (arith, h),
  omega arith,
  omega arith,
  omega arith,
  λ id. count_frame-tail id t.control_queue q qs h,
  refl,
  refl,
)

take_front-IsWell :
    (qs : List Request) (t : Runtime)
    → t.control_queue ≡ qs
    → 0 < length qs
    → is_absent t.worker ≡ false
    → IsWell t
    → IsWell (take_front qs t)
unfolding take_front
take_front-IsWell [] t h k a w = ground arith
take_front-IsWell (q ∷ qs) t h k a w =
    Moved-IsWell t (record t { control_queue = qs; worker = sends q }) w (shorter_control t q qs h)
      a refl tt

after_burst-IsWell :
    (r : Request) (t : Runtime) → is_absent t.worker ≡ false → IsWell t → IsWell (after_burst r t)
unfolding after_burst
after_burst-IsWell r t a w =
    if_cases IsWell (null t.control_queue) _ _
      (λ e.
        Moved-IsWell t (record t { sending = false; worker = waiting }) w (Moved-refl t) a refl tt)
      (λ e.
        if_cases IsWell (is_control r && ltb 0 t.options.control_inter_frame_gap_us) _ _
          (λ k.
            Moved-IsWell t (record t { worker = pauses r }) w (Moved-refl t) a refl
              (null-length t.control_queue e))
          (λ k. take_front-IsWell t.control_queue t refl (null-length t.control_queue e) a w))
  where
    null-length : (qs : List Request) → null qs ≡ false → 0 < length qs
    null-length [] h = ground arith
    null-length (q ∷ qs) h = ground arith

relock-IsWell :
    (r : Request) (t : Runtime) → is_absent t.worker ≡ false → IsWell t → IsWell (relock r t)
unfolding relock
relock-IsWell r t a w =
    if_cases IsWell
      (null t.control_queue && is_control r && ltb 0 t.options.control_burst_coalesce_us)
      (record t { worker = coalesces r }) (after_burst r t)
      (λ e. Moved-IsWell t (record t { worker = coalesces r }) w (Moved-refl t) a refl tt)
      (λ e. after_burst-IsWell r t a w)

-- What is popped leaves a shorter queue.
pop_next_locked-IsWell :
    (t : Runtime) → is_absent t.worker ≡ false → IsWell t → IsWell (take_next t (pop_next_locked t))
unfolding pop_next_locked
pop_next_locked-IsWell t a w = first t.control_queue t.recover_queue refl refl
  where
    last :
        (cs qs : List Request)
        → t.config_queue ≡ cs
        → t.query_queue ≡ qs
        → IsWell (take_next t (pop_config_or_query cs qs t))
    last (c ∷ cs) qs e f =
        Moved-IsWell t _ w
          (
            refl,
            omega arith,
            omega arith,
            ground (arith, e),
            omega arith,
            λ id. omega arith,
            refl,
            refl,
          )
          a refl tt
    last [] (q ∷ qs) e f =
        Moved-IsWell t _ w
          (
            refl,
            omega arith,
            omega arith,
            omega arith,
            ground (arith, f),
            λ id. omega arith,
            refl,
            refl,
          )
          a refl tt
    last [] [] e f = w

    first :
        (cs rs : List Request)
        → t.control_queue ≡ cs
        → t.recover_queue ≡ rs
        → IsWell (take_next t (pop_control_or_recover cs rs t))
    first (c ∷ cs) rs e f = Moved-IsWell t _ w (shorter_control t c cs e) a refl tt
    first [] (r ∷ rs) e f =
        Moved-IsWell t _ w
          (
            refl,
            omega arith,
            ground (arith, f),
            omega arith,
            omega arith,
            λ id. omega arith,
            refl,
            refl,
          )
          a refl tt
    first [] [] e f = last t.config_queue t.query_queue refl refl

wake-IsWell : (t : Runtime) → is_absent t.worker ≡ false → IsWell t → Kept IsWell (wake t)
unfolding wake
wake-IsWell t a w =
    if_cases (Kept IsWell) (t.stop_requested || not (all_queues_empty_locked t)) _ none
      (λ _.
        if_cases (Kept IsWell) (t.stop_requested && all_queues_empty_locked t)
          (some (record t { sending = false; worker = absent })) _
          (λ e. record {
            fits = w.fits;
            pausing = tt;
            exited = inr (inr (both t.stop_requested _ e));
            single = inr refl;
          })
          (λ _. pop_next_locked-IsWell t a w))
      (λ _. tt)
  where
    both : (x y : Bool) → x && y ≡ true → (x ≡ true) × (y ≡ true)
    both x y h = ground arith

pub work-IsWell :
    (answer : SendResult) (now : ℕ) (p : WorkerPoint) (t : Runtime)
    → t.worker ≡ p
    → IsWell t
    → Kept IsWell (work answer now p t)
unfolding work
work-IsWell answer now absent t e w = tt
work-IsWell answer now waiting t e w = wake-IsWell t (ap is_absent e) w
work-IsWell answer now (sends r) t e w =
    Moved-IsWell t (attempt_send r answer now t) w (attempt_send-Moved r answer now t)
      (ap is_absent e) refl tt
work-IsWell answer now (after_send r) t e w = relock-IsWell r t (ap is_absent e) w
work-IsWell answer now (coalesces r) t e w = after_burst-IsWell r t (ap is_absent e) w
work-IsWell answer now (pauses r) t e w =
    take_front-IsWell t.control_queue t refl (rw e at w.pausing) (ap is_absent e) w
