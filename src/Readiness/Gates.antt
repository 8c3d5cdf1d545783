-- ===== src/Readiness/Gates.antt =====
-- What an axis must show before it may move (include/can_driver/AxisReadinessEvaluator.h).
use old_car_can_driver.Prelude.{
  string_eq, ℕ, ◌+◌, ◌≤◌, ◌<◌, max, String, ◌≡◌, refl, ◌⊎◌, Bool, true, false, not, ◌&&◌, ◌||◌,
  Option, none, arith, if◌then◌else◌, is_empty,
}
use old_car_can_driver.SharedState.Data.{
  codes_Eq, AxisIntent, recover, intent_eq, AxisFeedbackState, AxisCommandState, DeviceHealthState,
}
use old_car_can_driver.Readiness.{
  AxisReadiness, Config, transport_ready, expects_mode, wants_mode, evaluate, recover_pending,
  describe_block_reason,
}

empties :
    (b : Bool) (t e : String) {c : Bool}
    → is_empty t ≡ false
    → is_empty e ≡ c
    → is_empty (if b then t else e) ≡ (not b && c)
empties true t e h k = h
empties false t e h k = k

is_empty-describe_block_reason :
    (r : AxisReadiness)
    → is_empty (describe_block_reason r) ≡ (
        not (not r.device_ready || not r.feedback_seen)
        && (not r.degraded
            && (not (not r.feedback_fresh)
                && (not (not r.fault_known)
                    && (not (not r.fault_cleared)
                        && (not (not r.enabled_known)
                            && (not (not r.enabled_ready)
                                && (not (not r.mode_ready)
                                    && (not (recover_pending r) && true)))))))))
unfolding describe_block_reason
is_empty-describe_block_reason r = empties (not r.device_ready || not r.feedback_seen) _ _ refl (
    empties r.degraded _ _ refl (
      empties (not r.feedback_fresh) _ _ refl (
        empties (not r.fault_known) _ _ refl (
          empties (not r.fault_cleared) _ _ refl (
            empties (not r.enabled_known) _ _ refl (
              empties (not r.enabled_ready) _ _ refl (
                empties (not r.mode_ready) _ _ refl
                  (empties (recover_pending r) _ _ refl refl))))))))

module _ (config : Config) (v : AxisFeedbackState) (command : Option AxisCommandState)
    (intent : AxisIntent) (health : Option DeviceHealthState) (now : ℕ) where
  -- An axis that is ready to run has been heard from, no longer ago than the freshness timeout
  -- if that is not 0, is not marked degraded and counts fewer timeouts than the threshold,
  -- reports that it has no fault and that it is enabled; its transport is ready if its device's
  -- health is known, and if a mode was commanded it reports that mode.
  pub run_needs :
      (evaluate config v command intent health now).axis_ready_for_run ≡ true
      → (v.feedback_seen ≡ true)
        × (0 < v.last_rx_steady_ns)
        × ((config.feedback_freshness_timeout_ns ≡ 0)
            ⊎ (now ≤ v.last_rx_steady_ns + config.feedback_freshness_timeout_ns))
        × (v.degraded ≡ false)
        × (v.consecutive_timeout_count < max 1 config.degraded_timeout_threshold)
        × ((v.fault_valid ≡ true) × (v.fault ≡ false))
        × ((v.enabled_valid ≡ true) × (v.enabled ≡ true))
        × ((health ≡ none) ⊎ (transport_ready health ≡ true))
        × ((expects_mode command ≡ false)
            ⊎ ((v.mode_valid ≡ true) × (wants_mode command v.mode ≡ true)))
  unfolding evaluate
  run_needs h = ground arith

  -- The block reason of an evaluated axis is empty exactly if the axis is ready to run and its
  -- intent is not Recover.
  pub block_reason_iff :
      is_empty (describe_block_reason (evaluate config v command intent health now)) ≡ (
        (evaluate config v command intent health now).axis_ready_for_run
        && not (intent_eq intent recover))
  unfolding evaluate recover_pending
  block_reason_iff =
      rw (is_empty-describe_block_reason (evaluate config v command intent health now))
        (ground arith)

  -- If the freshness timeout is not 0 and the last answer is older than it, the axis is ready
  -- neither for enabling nor for running, whatever else it reports.
  pub stale_blocks :
      0 < config.feedback_freshness_timeout_ns
      → v.last_rx_steady_ns + config.feedback_freshness_timeout_ns < now
      → ((evaluate config v command intent health now).axis_ready_for_enable ≡ false)
        × ((evaluate config v command intent health now).axis_ready_for_run ≡ false)
  unfolding evaluate
  stale_blocks h k = ground arith
