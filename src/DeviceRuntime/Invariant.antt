-- ===== src/DeviceRuntime/Invariant.antt =====
-- The invariant of src/DeviceRuntime.cpp, and that a submission keeps it.
use old_car_can_driver.Prelude.{
  ℕ, ◌+◌, ◌≤◌, ◌<◌, ◌≡◌, ◌⊎◌, Bool, true, false, List, [], ◌∷◌, ◌++◌, arith, ◌==◌, if◌then◌else◌,
  nat_eq, string_eq, length, length-append,
}
use old_car_can_driver.Can.{SendResult, error, Category, control, query, recover, config}
use old_car_can_driver.DeviceRuntime.{
  Request, Options, WorkerPoint, absent, waiting, sends, after_send, coalesces, pauses, Runtime,
  complete, submit, all_queues_empty_locked, queue_for, max_depth_for, push_back, count_dropped,
  count_submitted, enqueue_control_locked,
}
use old_car_can_driver.DeviceRuntime.Worker.{is_absent}
use old_car_can_driver.DeviceRuntime.Queues.{
  count_frame, count_frame-append, count_frame-replace, count_frame-tail, replace-none_count,
  enqueue-cases,
}
use old_car_can_driver.DeviceRuntime.Submission.{is_control_category, submit-cases, complete-cases}

abbrev pub Pausing : WorkerPoint → List Request → Type 0
Pausing absent qs = Unit
Pausing waiting qs = Unit
Pausing (sends r) qs = Unit
Pausing (after_send r) qs = Unit
Pausing (coalesces r) qs = Unit
Pausing (pauses r) qs = 0 < length qs

-- What holds of the queues.
pub record Fits (options : Options) (controls recovers configs queries : List Request)
    (undefined : Bool) : Type 0 where
  pub room : 0 < options.max_control_queue_depth
  pub control_fits : length controls ≤ options.max_control_queue_depth
  pub recover_fits : length recovers ≤ options.max_recover_queue_depth
  pub config_fits : length configs ≤ options.max_config_queue_depth
  pub query_fits : length queries ≤ options.max_query_queue_depth
  pub distinct : (id : ℕ) → count_frame id controls ≤ 1
  pub defined : undefined ≡ false

pub record IsWell (t : Runtime) : Type 0 where
  pub fits : Fits t.options t.control_queue t.recover_queue t.config_queue t.query_queue t.undefined
  pub pausing : Pausing t.worker t.control_queue
  pub exited :
      (t.started ≡ false)
      ⊎ (is_absent t.worker ≡ false)
      ⊎ ((t.stop_requested ≡ true) × (all_queues_empty_locked t ≡ true))
  pub single : (t.started ≡ true) ⊎ (is_absent t.worker ≡ true)

pub complete-IsWell :
    (r : Request) (a : Bool) (result : SendResult) (now : ℕ) (t : Runtime)
    → IsWell t
    → IsWell (complete r a result now t)
complete-IsWell r a result now t w =
    complete-cases IsWell r a result now t
      (λ cs. record { fits = w.fits; pausing = w.pausing; exited = w.exited; single = w.single })

Pausing-longer :
    (p : WorkerPoint) (xs ys : List Request) → length xs ≤ length ys → Pausing p xs → Pausing p ys
Pausing-longer absent xs ys l h = tt
Pausing-longer waiting xs ys l h = tt
Pausing-longer (sends r) xs ys l h = tt
Pausing-longer (after_send r) xs ys l h = tt
Pausing-longer (coalesces r) xs ys l h = tt
Pausing-longer (pauses r) xs ys l h = omega arith

pub length-behind : (r : Request) (qs : List Request) → length (qs ++ r ∷ []) ≡ length qs + 1
length-behind r qs = omega (arith, length-append qs (r ∷ []))

count_frame-behind :
    (id : ℕ) (r : Request) (qs : List Request)
    → count_frame id (qs ++ r ∷ []) ≡ count_frame id qs + (if r.frame.id == id then 1 else 0)
unfolding count_frame
count_frame-behind id r qs = ground (arith, count_frame-append id qs (r ∷ []))

enqueue_control_locked-IsWell :
    (r : Request) (t : Runtime)
    → t.stop_requested ≡ false
    → IsWell t
    → IsWell (count_submitted (enqueue_control_locked r t))
unfolding count_frame
enqueue_control_locked-IsWell r t h w =
    enqueue-cases (λ u. IsWell (count_submitted u)) r t
      (λ qs e. record {
        fits = record {
          room = w.fits.room;
          control_fits =
              omega (arith, w.fits.control_fits, count_frame-replace 0 r t.control_queue qs e);
          recover_fits = w.fits.recover_fits;
          config_fits = w.fits.config_fits;
          query_fits = w.fits.query_fits;
          distinct = λ id.
              omega (arith, w.fits.distinct id, count_frame-replace id r t.control_queue qs e);
          defined = w.fits.defined;
        };
        pausing =
            Pausing-longer t.worker t.control_queue qs
              (omega (arith, count_frame-replace 0 r t.control_queue qs e)) w.pausing;
        exited = ground (arith, w.exited);
        single = w.single;
      })
      (λ e k. record {
        fits = record {
          room = w.fits.room;
          control_fits = omega (arith, length-behind r t.control_queue);
          recover_fits = w.fits.recover_fits;
          config_fits = w.fits.config_fits;
          query_fits = w.fits.query_fits;
          distinct = λ id. ground (
            arith,
            w.fits.distinct id,
            count_frame-behind id r t.control_queue,
            replace-none_count r t.control_queue e,
          );
          defined = w.fits.defined;
        };
        pausing =
            Pausing-longer t.worker t.control_queue (t.control_queue ++ r ∷ [])
              (omega (arith, length-behind r t.control_queue)) w.pausing;
        exited = ground (arith, w.exited);
        single = w.single;
      })
      (λ q qs e k. record {
        fits = record {
          room = w.fits.room;
          control_fits = ground (arith, w.fits.control_fits, length-behind r qs, k);
          recover_fits = w.fits.recover_fits;
          config_fits = w.fits.config_fits;
          query_fits = w.fits.query_fits;
          distinct = λ id. ground (
            arith,
            w.fits.distinct id,
            count_frame-behind id r qs,
            replace-none_count r t.control_queue e,
            count_frame-tail id t.control_queue q qs k,
          );
          defined = w.fits.defined;
        };
        pausing =
            Pausing-longer t.worker t.control_queue (qs ++ r ∷ [])
              (ground (arith, length-behind r qs, k)) w.pausing;
        exited = ground (arith, w.exited);
        single = w.single;
      })
      (λ k e. absurd (ground (arith, w.fits.room, k)))

push_back-IsWell :
    (c : Category) (r : Request) (t : Runtime)
    → t.stop_requested ≡ false
    → is_control_category c ≡ false
    → length (queue_for c t) < max_depth_for c t
    → IsWell t
    → IsWell (count_submitted (push_back c r t))
unfolding push_back queue_for max_depth_for
push_back-IsWell control r t h e k w = ground arith
push_back-IsWell query r t h e k w = record {
  fits = record {
    room = w.fits.room;
    control_fits = w.fits.control_fits;
    recover_fits = w.fits.recover_fits;
    config_fits = w.fits.config_fits;
    query_fits = omega (arith, length-behind r t.query_queue);
    distinct = w.fits.distinct;
    defined = w.fits.defined;
  };
  pausing = w.pausing;
  exited = ground (arith, w.exited);
  single = w.single;
}
push_back-IsWell recover r t h e k w = record {
  fits = record {
    room = w.fits.room;
    control_fits = w.fits.control_fits;
    recover_fits = omega (arith, length-behind r t.recover_queue);
    config_fits = w.fits.config_fits;
    query_fits = w.fits.query_fits;
    distinct = w.fits.distinct;
    defined = w.fits.defined;
  };
  pausing = w.pausing;
  exited = ground (arith, w.exited);
  single = w.single;
}
push_back-IsWell config r t h e k w = record {
  fits = record {
    room = w.fits.room;
    control_fits = w.fits.control_fits;
    recover_fits = w.fits.recover_fits;
    config_fits = omega (arith, length-behind r t.config_queue);
    query_fits = w.fits.query_fits;
    distinct = w.fits.distinct;
    defined = w.fits.defined;
  };
  pausing = w.pausing;
  exited = ground (arith, w.exited);
  single = w.single;
}

pub submit-IsWell : (r : Request) (now : ℕ) (t : Runtime) → IsWell t → IsWell (submit r now t)
submit-IsWell r now t w =
    submit-cases IsWell r now t
      (λ h.
        complete-IsWell r false error now
          (record t { counters = count_dropped r.category t.counters })
          (record { fits = w.fits; pausing = w.pausing; exited = w.exited; single = w.single }))
      (λ h e. enqueue_control_locked-IsWell r t h w)
      (λ h e k. push_back-IsWell r.category r t h e k w)
