-- ===== src/Lifecycle/Waiting.antt =====
-- The loops of src/lifecycle_driver_ops.cpp that wait: waitForEnabledTargets, the verification of
-- recoverAll, enableHealthy and motionHealthy. They end at a deadline of the steady clock, and each
-- round sleeps 50 ms. Their fuel is the number of rounds that fit, and one more.
use old_car_can_driver.Prelude.{
  ℕ, zero, suc, ◌+◌, ◌/◌, String, Bool, true, false, not, ◌&&◌, ◌||◌, List, [], ◌∷◌, ltb, leb, ◌==◌,
  if◌then◌else◌, is_empty,
}
use Prim.Native.String.{◌++◌ as concat}
use old_car_can_driver.SharedState.Data.{codes}
use old_car_can_driver.Coordinator.{Result}
use old_car_can_driver.MotorAction.{Target}
use old_car_can_driver.Lifecycle.{Env, Host, lifecycle_targets_snapshot}
use old_car_can_driver.Lifecycle.Checks.{
  Verdict, healthy, unhealthy, aborted, Trackers, wait_check, recover_check, enable_check,
  motion_check, walk,
}

abbrev pub poll_interval_ns : ℕ
poll_interval_ns = 50000000

-- How many rounds a wait can take, the last one included.
abbrev pub rounds_for : ℕ → ℕ
rounds_for timeout_ns = suc (timeout_ns / poll_interval_ns + 1)

abbrev pub success : String → Result
success message = record { ok = true; message = message }

abbrev pub failure : String → Result
failure message = record { ok = false; message = message }

abbrev pub with_trackers : {W : Type 0} → Trackers → Host W → Host W
with_trackers trackers h = record h {
  driver = record h.driver { axis_recover_trackers = trackers };
}

-- std::string::find of a text that is not empty.
unfoldable pub starts : List ℕ → List ℕ → Bool
starts [] hay = true
starts (c ∷ needle) [] = false
starts (c ∷ needle) (d ∷ hay) = c == d && starts needle hay

unfoldable pub contains : List ℕ → List ℕ → Bool
unfolding starts
contains [] needle = starts needle []
contains (d ∷ hay) needle = starts needle (d ∷ hay) || contains hay needle

abbrev pub retryable : String → Bool
retryable detail =
    contains (codes detail) (codes "Feedback degraded.")
    || contains (codes detail) (codes "Feedback offline.")
    || contains (codes detail) (codes "Feedback stale.")

abbrev pub enable_timeout : String → Result
enable_timeout detail = failure (
    concat "Enable confirmation timeout: "
      (if is_empty detail then "Axis not enabled." else detail))

abbrev pub told : {W : Type 0} → Verdict × Host W → Bool × String × Host W
told (healthy, h) = (true, "", h)
told (unhealthy detail, h) = (false, detail, h)
told (aborted detail, h) = (false, detail, h)

module _ {P W : Type 0} (env : Env P W) where
  abbrev pub nap : Host W → Host W
  nap h = record h { world = env.sleep poll_interval_ns h.world }

  -- One pass of a loop over the targets.
  abbrev pub pass :
      (Target → Trackers → Verdict × Trackers) → List Target → Host W → Verdict × Host W
  pass check targets h =
      let (v, trackers) = walk check targets h.driver.axis_recover_trackers in
      (v, with_trackers trackers h)

  -- The rounds until a pass is healthy or gives up, or the deadline is past. `done` is the result of
  -- a healthy pass, and `late` that of the deadline, by the last detail.
  unfoldable pub wait_until :
      ℕ
      → ℕ
      → (Host W → Verdict × Host W)
      → Result
      → (String → Result)
      → String
      → Host W
      → Result × Host W
  wait_until zero deadline once done late detail h = (late detail, h)
  wait_until (suc f) deadline once done late detail h = elim (ltb (env.now h.world) deadline) [
    | false ↦ (late detail, h)
    | true ↦
        let (v, t) = once h in
        elim v [
          | healthy ↦ (done, t)
          | unhealthy d ↦ wait_until f deadline once done late d (nap t)
          | aborted message ↦ (failure message, t)
        ]
  ]

  abbrev pub enabled_pass : List Target → Host W → Verdict × Host W
  enabled_pass targets h = pass (wait_check env h.driver.config h.world) targets h

  unfoldable pub wait_for_enabled_targets : List Target → ℕ → Host W → Result × Host W
  unfolding wait_until
  wait_for_enabled_targets targets timeout_ns h =
      wait_until (rounds_for timeout_ns) (env.now h.world + timeout_ns) (enabled_pass targets)
        (success "enabled (armed)") enable_timeout "" h

  abbrev pub recovered_pass : List Target → Host W → Verdict × Host W
  recovered_pass targets h = pass (recover_check env h.driver.config h.world) targets h

  unfoldable pub verify_recovery : List Target → Host W → Result × Host W
  unfolding wait_until
  verify_recovery targets h =
      wait_until (rounds_for 2000000000) (env.now h.world + 2000000000) (recovered_pass targets)
        (success "") (λ _. failure "Recover timeout: fault still active.") "" h

  unfoldable pub enable_healthy_once : Host W → Bool × String × Host W
  enable_healthy_once h =
      told (pass (enable_check env h.driver.config h.world) (lifecycle_targets_snapshot h.driver) h)

  unfoldable pub motion_healthy_once : Host W → Bool × String × Host W
  motion_healthy_once h =
      told (pass (motion_check env h.driver.config h.world) (lifecycle_targets_snapshot h.driver) h)

  -- The rounds of enableHealthy and motionHealthy: a failure that may pass is tried again until the
  -- deadline.
  unfoldable pub retry_until :
      ℕ → ℕ → (Host W → Bool × String × Host W) → Host W → Bool × String × Host W
  retry_until zero deadline once h = once h
  retry_until (suc f) deadline once h =
      let (fine, detail, t) = once h in
      elim (fine || not (retryable detail) || leb deadline (env.now t.world)) [
        | true ↦ (fine, detail, t)
        | false ↦ retry_until f deadline once (nap t)
      ]

  unfoldable pub enable_healthy : Host W → Bool × String × Host W
  unfolding retry_until enable_healthy_once
  enable_healthy h =
      retry_until (rounds_for 750000000) (env.now h.world + 750000000) enable_healthy_once h

  unfoldable pub motion_healthy : Host W → Bool × String × Host W
  unfolding retry_until motion_healthy_once
  motion_healthy h =
      retry_until (rounds_for 1250000000) (env.now h.world + 1250000000) motion_healthy_once h
