-- ===== src/Readiness/Recovery.antt =====
-- Recovery is confirmed by samples, not by calls (evaluateAxisReadiness of
-- src/lifecycle_driver_ops.cpp).
use old_car_can_driver.Prelude.{
  string_eq, ℕ, ◌+◌, ◌<◌, min, ◌≡◌, refl, ◌⊎◌, inl, inr, Bool, true, false, ◌&&◌, Option, List, [],
  ◌∷◌, arith, leb, ◌==◌, if◌then◌else◌, Bool-cases, if_cases,
}
use old_car_can_driver.SharedState.Data.{
  AxisIntent, recover, intent_eq, AxisKey, AxisFeedbackState, AxisCommandState, DeviceHealthState,
  codes_Eq, codes_eq_iff, axis_map_key,
}
use old_car_can_driver.Prelude.Map.{find, insert, find-insert, find-insert_self, or_new}
use old_car_can_driver.Prelude.Map.{erase, find-erase}
use old_car_can_driver.Readiness.{
  AxisReadiness, Config, evaluate, confirm_cycles, RecoverTracker, new_tracker, track,
  evaluate_axis_readiness,
}

-- One evaluation of an axis.
pub record Evaluation : Type 0 where
  pub key : AxisKey
  pub feedback : AxisFeedbackState
  pub command : Option AxisCommandState
  pub intent : AxisIntent
  pub health : Option DeviceHealthState
  pub now : ℕ

-- The time of the last sample of an axis that has been healthy since its recovery began, and how
-- many different samples there were; both 0 when it was last seen unhealthy or not recovering.
pub record Progress : Type 0 where
  pub last : ℕ
  pub samples : ℕ

abbrev pub no_progress : Progress
no_progress = record { last = 0; samples = 0 }

module _ (config : Config) where
  -- The axis is recovering and ready for enable.
  abbrev pub is_healthy : Evaluation → Bool
  is_healthy e =
      intent_eq e.intent recover
      && (evaluate config e.feedback e.command e.intent e.health e.now).axis_ready_for_enable

  abbrev pub advance : Evaluation → Progress → Progress
  advance e p =
      if is_healthy e
      then (if e.feedback.last_rx_steady_ns == p.last
          then p
          else record { last = e.feedback.last_rx_steady_ns; samples = p.samples + 1 })
      else no_progress

  -- Only the evaluations of the axis with map key `k` count.
  unfoldable pub progress : List ℕ → List Evaluation → Progress → Progress
  progress k [] p = p
  progress k (e ∷ es) p =
      progress k es (if codes_Eq.beq (axis_map_key e.key) k then advance e p else p)

  abbrev pub evaluation :
      Evaluation → List (List ℕ × RecoverTracker) → AxisReadiness × List (List ℕ × RecoverTracker)
  evaluation e = evaluate_axis_readiness config e.key e.feedback e.command e.intent e.health e.now

  unfoldable pub evaluate_all :
      List Evaluation → List (List ℕ × RecoverTracker) → List (List ℕ × RecoverTracker)
  evaluate_all [] trackers = trackers
  evaluate_all (e ∷ es) trackers = evaluate_all es (evaluation e trackers).1

  record Agree (t : RecoverTracker) (p : Progress) : Type 0 where
    last : t.last_sample_ns ≡ p.last
    cycles : t.healthy_cycles ≡ min p.samples (confirm_cycles config)
    started : (p.last ≡ 0) ⊎ (0 < p.samples)

  abbrev tracker_at : List ℕ → List (List ℕ × RecoverTracker) → RecoverTracker
  tracker_at k trackers = or_new (find k trackers) new_tracker

  healthy_received : (e : Evaluation) → is_healthy e ≡ true → 0 < e.feedback.last_rx_steady_ns
  unfolding evaluate
  healthy_received e h = ground arith

  abbrev tracked : Evaluation → List (List ℕ × RecoverTracker) → RecoverTracker
  tracked e trackers = track config e.feedback (tracker_at (axis_map_key e.key) trackers)

  evaluation_lem :
      (e : Evaluation) (trackers : List (List ℕ × RecoverTracker))
      → ((evaluation e trackers).1 ≡ (
          if is_healthy e
          then insert (axis_map_key e.key) (tracked e trackers) trackers
          else erase (axis_map_key e.key) trackers))
        × ((intent_eq e.intent recover && (evaluation e trackers).0.recover_confirmed)
            ≡ (is_healthy e && leb (confirm_cycles config) (tracked e trackers).healthy_cycles))
  unfolding evaluate_axis_readiness
  evaluation_lem e trackers = elim (Bool-cases (intent_eq e.intent recover)) [
    | inr h ↦ ground arith
    | inl h ↦ ground arith
  ]

  module _ (bound : config.recover_confirm_cycles < 4294967295) where
    -- A healthy sample, by its time alone.
    track-Agree :
        (v : AxisFeedbackState) (t : RecoverTracker) (p : Progress)
        → 0 < v.last_rx_steady_ns
        → Agree t p
        → Agree (track config v t) (
            if v.last_rx_steady_ns == p.last
            then p
            else record { last = v.last_rx_steady_ns; samples = p.samples + 1 })
    unfolding track confirm_cycles
    track-Agree v t p h a = ground arith

    no_progress-Agree : Agree new_tracker no_progress
    no_progress-Agree = record { last = refl; cycles = omega arith; started = inl refl }

    evaluation-Agree :
        (e : Evaluation) (trackers : List (List ℕ × RecoverTracker)) (p : Progress)
        → Agree (tracker_at (axis_map_key e.key) trackers) p
        → Agree (tracker_at (axis_map_key e.key) (evaluation e trackers).1) (advance e p)
    evaluation-Agree e trackers p a = elim (Bool-cases (is_healthy e)) [
      | inl h ↦ ground (
        arith,
        (evaluation_lem e trackers).0,
        track-Agree e.feedback (tracker_at (axis_map_key e.key) trackers) p (healthy_received e h)
            a,
        find-insert_self (axis_map_key e.key) (tracked e trackers) trackers,
      )
      | inr h ↦ ground (
        arith,
        (evaluation_lem e trackers).0,
        no_progress-Agree,
        find-erase (axis_map_key e.key) (axis_map_key e.key) trackers,
        (codes_eq_iff (axis_map_key e.key) (axis_map_key e.key)).1 refl,
      )
    ]

    evaluation_other :
        (e : Evaluation) (k : List ℕ) (trackers : List (List ℕ × RecoverTracker))
        → codes_Eq.beq (axis_map_key e.key) k ≡ false
        → find k (evaluation e trackers).1 ≡ find k trackers
    evaluation_other e k trackers h = ground (
      arith,
      (evaluation_lem e trackers).0,
      find-erase (axis_map_key e.key) k trackers,
      find-insert (axis_map_key e.key) k (tracked e trackers) trackers,
    )

    step-Agree :
        (e : Evaluation) (k : List ℕ) (trackers : List (List ℕ × RecoverTracker)) (p : Progress)
        → Agree (tracker_at k trackers) p
        → Agree
            (tracker_at k (evaluation e trackers).1)
            (if codes_Eq.beq (axis_map_key e.key) k then advance e p else p)
    step-Agree e k trackers p a =
        if_cases (Agree (tracker_at k (evaluation e trackers).1))
          (codes_Eq.beq (axis_map_key e.key) k) (advance e p) p
          (λ same.
            let at_k = (codes_eq_iff (axis_map_key e.key) k).0 same in
            rw at_k at (evaluation-Agree e trackers p (rw at_k a)))
          (λ other. rw (evaluation_other e k trackers other) a)

    progress-Agree :
        (es : List Evaluation) (k : List ℕ) (trackers : List (List ℕ × RecoverTracker))
        (p : Progress)
        → Agree (tracker_at k trackers) p
        → Agree (tracker_at k (evaluate_all es trackers)) (progress k es p)
    unfolding evaluate_all progress
    progress-Agree [] k trackers p a = a
    progress-Agree (e ∷ es) k trackers p a =
        progress-Agree es k (evaluation e trackers).1
          (if codes_Eq.beq (axis_map_key e.key) k then advance e p else p)
          (step-Agree e k trackers p a)

    -- With fewer than 2^32 - 1 confirm cycles configured, after any evaluations of any axes, a
    -- recovering axis is confirmed exactly if the count of its healthy samples in a row, this
    -- evaluation's included, has reached the confirm cycles: a repeated sample counts once, an
    -- unhealthy evaluation or one without the recover intent starts the count again, and
    -- evaluations of other axes do not matter.
    pub confirmed_iff_samples :
        (es : List Evaluation) (e : Evaluation)
        → intent_eq e.intent recover ≡ true
        → (evaluation e (evaluate_all es [])).0.recover_confirmed
          ≡ leb
              (confirm_cycles config)
              (advance e (progress (axis_map_key e.key) es no_progress)).samples
    unfolding find confirm_cycles
    confirmed_iff_samples es e h =
        let k = axis_map_key e.key in
        let trackers = evaluate_all es [] in
        let p = progress k es no_progress in
        let a = progress-Agree es k [] no_progress no_progress-Agree in
        let l = (evaluation_lem e trackers).1 in
        elim (Bool-cases (is_healthy e)) [
          | inl healthy ↦
              let t =
                track-Agree e.feedback (tracker_at k trackers) p (healthy_received e healthy) a in
              ground (arith, l, t)
          | inr unhealthy ↦ ground (arith, l)
        ]
