-- ===== src/DeviceRuntime/Submission.antt =====
-- What a submission comes to: enqueueLocked, submit and completeDropped of src/DeviceRuntime.cpp.
use old_car_can_driver.Prelude.{
  ℕ, ◌≤◌, ◌<◌, ◌≡◌, refl, ap, ◌⊎◌, inl, inr, Bool, true, false, Option, none, some, List, [], ◌∷◌,
  ◌++◌, arith, leb, if◌then◌else◌, leb→le, if_cases, nat_eq, string_eq, length,
}
use old_car_can_driver.Can.{SendResult, Category, control, query, recover, config}
use old_car_can_driver.DeviceRuntime.{
  Request, bump, Completed, Runtime, complete, complete_dropped, submit, queue_for, max_depth_for,
  push_back, count_dropped, count_submitted, enqueue_control_locked, enqueue_other, enqueue_started,
  enqueue_locked,
}
use old_car_can_driver.DeviceRuntime.Queues.{enqueue-cases}

abbrev pub is_control_category : Category → Bool
is_control_category control = true
is_control_category query = false
is_control_category recover = false
is_control_category config = false

abbrev dropped_by : Request → ℕ → Runtime → Runtime
dropped_by r now t =
    complete_dropped r now (record t { counters = count_dropped r.category t.counters })

-- The three things that a submission can come to.
pub submit-cases {ℓ} :
    (P : Runtime → Type ℓ) (r : Request) (now : ℕ) (t : Runtime)
    → ((t.stop_requested ≡ true)
          ⊎ ((is_control_category r.category ≡ false)
              × (max_depth_for r.category t ≤ length (queue_for r.category t)))
        → P (dropped_by r now t))
    → (t.stop_requested ≡ false
        → is_control_category r.category ≡ true
        → P (count_submitted (enqueue_control_locked r t)))
    → (t.stop_requested ≡ false
        → is_control_category r.category ≡ false
        → length (queue_for r.category t) < max_depth_for r.category t
        → P (count_submitted (push_back r.category r t)))
    → P (submit r now t)
unfolding submit enqueue_locked
submit-cases P r now t drop enqueue push =
    if_cases (λ x. P (finish x)) t.stop_requested
      (false, record t { counters = count_dropped r.category t.counters })
      (enqueue_started r.category r t) (λ h. drop (inl h)) (go r.category refl)
  where
    finish : Bool × Runtime → Runtime
    finish x = if x.0 then x.1 else complete_dropped r now x.1

    other :
        t.stop_requested ≡ false
        → is_control_category r.category ≡ false
        → P (finish (enqueue_other r t))
    other h k =
        let b = leb (max_depth_for r.category t) (length (queue_for r.category t)) in
        if_cases (λ x. P (finish x)) b
          (false, record t { counters = count_dropped r.category t.counters })
          (true, count_submitted (push_back r.category r t)) (λ e. drop (inr (k, leb→le _ _ e)))
          (λ e. push h k (ground arith))

    go :
        (c : Category)
        → r.category ≡ c
        → t.stop_requested ≡ false
        → P (finish (enqueue_started c r t))
    go control e h = enqueue h (ap is_control_category e)
    go query e h = other h (ap is_control_category e)
    go recover e h = other h (ap is_control_category e)
    go config e h = other h (ap is_control_category e)

-- A completion only adds to the record of completions.
pub complete-cases {ℓ} :
    (P : Runtime → Type ℓ) (r : Request) (a : Bool) (result : SendResult) (now : ℕ) (t : Runtime)
    → ((cs : List Completed) → P (record t { completed = cs }))
    → P (complete r a result now t)
complete-cases P r a result now t h = go r.completion
  where
    go :
        (o : Option ℕ)
        → P (elim o [
          | none ↦ t
          | some handle ↦ record t {
            completed =
                record { handle = handle; attempted_send = a; result = result; event_time = now }
                ∷ t.completed;
          }
        ])
    go none = h t.completed
    go (some handle) = h _

-- What a submission comes to.
pub data Submission (r : Request) (now : ℕ) (t u : Runtime) : Type 0 where
  accepted :
      t.stop_requested ≡ false
      → u.completed ≡ t.completed
      → u.counters ≡ record t.counters {
        submitted = bump t.counters.submitted;
        evicted_control = u.counters.evicted_control;
      }
      → (is_control_category r.category ≡ true)
        ⊎ (queue_for r.category u ≡ queue_for r.category t ++ r ∷ [])
      → Submission r now t u
  dropped :
      (t.stop_requested ≡ true)
        ⊎ ((is_control_category r.category ≡ false)
            × (max_depth_for r.category t ≤ length (queue_for r.category t)))
      → u ≡ complete_dropped r now (record t { counters = count_dropped r.category t.counters })
      → Submission r now t u

enqueue_control_locked-counts :
    (r : Request) (t : Runtime)
    → let u = enqueue_control_locked r t in
      (u.completed ≡ t.completed)
      × (u.counters ≡ record t.counters { evicted_control = u.counters.evicted_control })
enqueue_control_locked-counts r t =
    enqueue-cases
      (λ u.
        (u.completed ≡ t.completed)
        × (u.counters ≡ record t.counters { evicted_control = u.counters.evicted_control }))
      r t (λ qs e. (refl, refl)) (λ e k. (refl, refl)) (λ q qs e k. (refl, refl))
      (λ k e. (refl, refl))

push_back-queue :
    (c : Category) (r : Request) (t : Runtime)
    → ((count_submitted (push_back c r t)).completed ≡ t.completed)
      × ((count_submitted (push_back c r t)).counters ≡ record t.counters {
        submitted = bump t.counters.submitted;
        evicted_control = (count_submitted (push_back c r t)).counters.evicted_control;
      })
      × (queue_for c (count_submitted (push_back c r t)) ≡ queue_for c t ++ r ∷ [])
unfolding push_back queue_for
push_back-queue control r t = (refl, refl, refl)
push_back-queue query r t = (refl, refl, refl)
push_back-queue recover r t = (refl, refl, refl)
push_back-queue config r t = (refl, refl, refl)

-- A submission is accepted or dropped. If accepted, no stop was requested, no completion is
-- called, of the counters only the submitted one goes up by one and the eviction counter may
-- change, and a request that is not a control request stands at the end of its queue. If
-- dropped, a stop was requested or the request is not a control request and its queue is full,
-- and all that changes is the drop counter of its category and its completion, which is called
-- with no attempt and an error.
pub submit-Submission : (r : Request) (now : ℕ) (t : Runtime) → Submission r now t (submit r now t)
unfolding submit enqueue_locked
submit-Submission r now t =
    submit-cases (Submission r now t) r now t (λ h. dropped h refl)
      (λ h k.
        accepted h (enqueue_control_locked-counts r t).0
          (ground (arith, enqueue_control_locked-counts r t)) (inl k))
      (λ h k e.
        accepted h (push_back-queue r.category r t).0 (push_back-queue r.category r t).1
          (inr (push_back-queue r.category r t).2))
