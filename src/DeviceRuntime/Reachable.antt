-- ===== src/DeviceRuntime/Reachable.antt =====
-- What holds of every runtime that calls and worker steps can reach (src/DeviceRuntime.cpp).
use old_car_can_driver.Prelude.{
  ℕ, ◌≤◌, ◌<◌, String, ◌≡◌, refl, inl, inr, Bool, true, false, ◌&&◌, Option, none, some, List, [],
  ◌∷◌, arith, if_cases, nat_eq, string_eq, length,
}
use old_car_can_driver.DeviceRuntime.{Options, Runtime, all_queues_empty_locked}
use old_car_can_driver.DeviceRuntime.Worker.{
  initial, start, make, is_absent, Event, submitted as submits, starts, request_stop, joined,
  set_shared_driver_state, changes_shared_state, set_control_inter_frame_gap_us, works, step, run,
}
use old_car_can_driver.DeviceRuntime.Queues.{count_frame}
use old_car_can_driver.DeviceRuntime.Invariant.{IsWell, submit-IsWell}
use old_car_can_driver.DeviceRuntime.Moves.{Kept, work-IsWell}

pub run-invariant :
    (P : Runtime → Type 0)
    → ((e : Event) (t : Runtime) → P t → Kept P (step e t))
    → (es : List Event) (t : Runtime) → P t
    → P (run es t)
unfolding run
run-invariant P keeps [] t h = h
run-invariant P keeps (e ∷ es) t h = go (step e t) (keeps e t h) (run-invariant P keeps es)
  where
    go :
        (o : Option Runtime)
        → Kept P o
        → ((u : Runtime) → P u → P (run es u))
        → P (elim o [ none ↦ run es t | some u ↦ run es u ])
    go none k rest = rest t h
    go (some u) k rest = rest u k

-- Nothing that the invariant speaks of but the start flag, the stop flag and the worker.
start-IsWell : (t : Runtime) → IsWell t → IsWell (start t)
unfolding start
start-IsWell t w =
    if_cases IsWell t.started t _ (λ _. w)
      (λ _. record { fits = w.fits; pausing = tt; exited = inr (inl refl); single = inl refl })

pub step-IsWell : (e : Event) (t : Runtime) → IsWell t → Kept IsWell (step e t)
unfolding step
step-IsWell (submits r now) t w = submit-IsWell r now t w
step-IsWell starts t w = start-IsWell t w
step-IsWell request_stop t w = record {
  fits = w.fits;
  pausing = w.pausing;
  exited = ground (arith, w.exited);
  single = w.single;
}
step-IsWell joined t w =
    if_cases (Kept IsWell) (t.stop_requested && is_absent t.worker) _ none
      (λ e. record {
        fits = w.fits;
        pausing = w.pausing;
        exited = inl refl;
        single = inr (ground (arith, e));
      })
      (λ _. tt)
step-IsWell (set_shared_driver_state s) t w = record {
  fits = w.fits;
  pausing = w.pausing;
  exited = w.exited;
  single = w.single;
}
step-IsWell (changes_shared_state f) t w = record {
  fits = w.fits;
  pausing = w.pausing;
  exited = w.exited;
  single = w.single;
}
step-IsWell (set_control_inter_frame_gap_us us) t w = record {
  fits = record {
    room = w.fits.room;
    control_fits = w.fits.control_fits;
    recover_fits = w.fits.recover_fits;
    config_fits = w.fits.config_fits;
    query_fits = w.fits.query_fits;
    distinct = w.fits.distinct;
    defined = w.fits.defined;
  };
  pausing = w.pausing;
  exited = w.exited;
  single = w.single;
}
step-IsWell (works answer now) t w = work-IsWell answer now t.worker t refl w

pub make-IsWell :
    (options : Options) (device_name : String) (has_transport : Bool)
    → 0 < options.max_control_queue_depth
    → IsWell (make options device_name has_transport)
unfolding count_frame
make-IsWell options device_name has_transport h =
    let t = initial options device_name has_transport in
    let w : IsWell t = record {
      fits = record {
        room = h;
        control_fits = omega arith;
        recover_fits = omega arith;
        config_fits = omega arith;
        query_fits = omega arith;
        distinct = λ id. omega arith;
        defined = refl;
      };
      pausing = tt;
      exited = inl refl;
      single = inr refl;
    } in
    if_cases IsWell options.autostart (start t) t (λ _. start-IsWell t w) (λ _. w)

module _ (options : Options) (device_name : String) (has_transport : Bool)
    (room : 0 < options.max_control_queue_depth) (es : List Event) where
  abbrev reached : Runtime
  reached = run es (make options device_name has_transport)

  reached-IsWell : IsWell reached
  reached-IsWell =
      run-invariant IsWell step-IsWell es (make options device_name has_transport)
        (make-IsWell options device_name has_transport room)

  -- When the control queue may hold at least one request, whatever calls and worker steps a
  -- runtime has been through, none of its four queues is longer than its limit, and the control
  -- queue holds at most one request for a frame id.
  pub queues_bounded :
      let t = reached in
      (length t.control_queue ≤ t.options.max_control_queue_depth)
      × (length t.recover_queue ≤ t.options.max_recover_queue_depth)
      × (length t.config_queue ≤ t.options.max_config_queue_depth)
      × (length t.query_queue ≤ t.options.max_query_queue_depth)
      × ((id : ℕ) → count_frame id t.control_queue ≤ 1)
  queues_bounded =
      let f = reached-IsWell.fits in
      (f.control_fits, f.recover_fits, f.config_fits, f.query_fits, f.distinct)

  -- When the control queue may hold at least one request, no calls and worker steps lead to a
  -- pop from an empty queue, neither when a control request is evicted nor when the worker takes
  -- the front after the gap in which it had released the lock.
  pub never_undefined : reached.undefined ≡ false
  never_undefined = reached-IsWell.fits.defined

  -- When the control queue may hold at least one request, a runtime that is started and whose
  -- worker is out of its loop has been asked to stop and has no request left in any queue.
  pub exit_drained :
      reached.started ≡ true
      → is_absent reached.worker ≡ true
      → (reached.stop_requested ≡ true) × (all_queues_empty_locked reached ≡ true)
  exit_drained h k = ground (arith, reached-IsWell.exited)
