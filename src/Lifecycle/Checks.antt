-- ===== src/Lifecycle/Checks.antt =====
-- The four loops over the targets in src/lifecycle_driver_ops.cpp: what each asks of one target, and
-- the walk that they share.
use old_car_can_driver.Prelude.{
  ℕ, String, Bool, true, false, not, ◌&&◌, ◌||◌, Option, none, some, List, [], ◌∷◌, if◌then◌else◌,
}
use Prim.Native.String.{◌++◌ as concat}
use old_car_can_driver.Can.{CanType, dm}
use old_car_can_driver.SharedState.Data.{
  AxisIntent, AxisKey, AxisFeedbackState, AxisCommandState, DeviceHealthState, enable, recover,
}
use old_car_can_driver.SharedState.{
  SharedDriverState, make_axis_key, get_axis_feedback, get_axis_command, get_axis_intent,
  get_device_health,
}
use old_car_can_driver.Readiness.{
  AxisReadiness, Config, RecoverTracker, describe_block_reason, evaluate_axis_readiness,
}
use old_car_can_driver.MotorAction.{Target}
use old_car_can_driver.Lifecycle.{
  Env, is_device_ready, shared_driver_state, query_motor_fault, query_motor_enabled,
}

-- What a loop learns of a target: to go on, to stop for this time, or to give up.
pub data Verdict : Type 0 where
  healthy : Verdict
  unhealthy aborted : String → Verdict

abbrev pub Trackers : Type 0
Trackers = List (List ℕ × RecoverTracker)

-- What the shared state knows of an axis that it has feedback of.
pub record Axis : Type 0 where
  pub key : AxisKey
  pub feedback : AxisFeedbackState
  pub command : Option AxisCommandState
  pub intent : AxisIntent
  pub health : Option DeviceHealthState

abbrev target_key : Target → AxisKey
target_key target = make_axis_key target.can_device target.protocol target.motor_id

abbrev axis_in : Target → SharedDriverState → Option Axis
axis_in target s = elim (get_axis_feedback (target_key target) s) [
  | none ↦ none
  | some v ↦ some (record {
    key = target_key target;
    feedback = v;
    command = get_axis_command (target_key target) s;
    intent = get_axis_intent (target_key target) s;
    health = get_device_health target.can_device s;
  })
]

abbrev pub about : Target → AxisReadiness → String
about target r = concat target.name (concat ": " (describe_block_reason r))

-- MT, PP and ECB axes do not report their mode.
abbrev assumes_mode : CanType → Bool
assumes_mode dm = false
assumes_mode _ = true

abbrev with_mode : CanType → Option AxisCommandState → AxisFeedbackState → AxisFeedbackState
with_mode protocol none v = v
with_mode protocol (some c) v =
    if assumes_mode protocol && not v.mode_valid && c.desired_mode_valid
    then record v { mode = c.desired_mode; mode_valid = true }
    else v

abbrev pub judged : (AxisReadiness → Bool) → String → AxisReadiness × Trackers → Verdict × Trackers
judged passes detail (r, trackers) = (if passes r then healthy else unhealthy detail, trackers)

abbrev pub explained :
    Target → (AxisReadiness → Bool) → AxisReadiness × Trackers → Verdict × Trackers
explained target passes (r, trackers) =
    (if passes r then healthy else unhealthy (about target r), trackers)

abbrev pub up : AxisReadiness → Bool
up r = r.axis_ready_for_enable && r.enabled_ready

abbrev pub answered : Verdict → (Bool → Verdict) → Option Bool → Verdict
answered missing f none = missing
answered missing f (some b) = f b

abbrev pub faultless : String → Bool → Verdict
faultless detail b = if b then unhealthy detail else healthy

module _ {P W : Type 0} (env : Env P W) where
  abbrev pub axis_of : Target → W → Option Axis
  axis_of target w = elim (shared_driver_state env w) [ none ↦ none | some s ↦ axis_in target s ]

  -- An unknown fault is asked for, and stays unknown without an answer.
  abbrev pub with_fault : Target → W → AxisFeedbackState → AxisFeedbackState
  with_fault target w v = if v.fault_valid then v else elim (query_motor_fault env target w) [
    | none ↦ v
    | some b ↦ record v { fault = b; fault_valid = true }
  ]

  abbrev pub with_enabled : Bool → Target → W → AxisFeedbackState → AxisFeedbackState
  with_enabled asks target w v =
      if asks
      then elim (query_motor_enabled env target w) [
        | none ↦ v
        | some b ↦ record v { enabled = b; enabled_valid = true }
      ]
      else v

  -- What the loop of waitForEnabledTargets passes to the evaluation.
  abbrev pub seen_for_wait : Target → W → AxisFeedbackState → AxisFeedbackState
  seen_for_wait target w v =
      let u = with_fault target w v in
      with_enabled (not u.enabled_valid || not u.enabled) target w u

  -- And that of motionHealthyOnce.
  abbrev pub seen_for_motion :
      Target → W → Option AxisCommandState → AxisFeedbackState → AxisFeedbackState
  seen_for_motion target w command v =
      let u = with_fault target w v in
      with_mode target.protocol command (with_enabled (not u.enabled_valid) target w u)

  abbrev pub assess :
      Config → Axis → AxisFeedbackState → AxisIntent → W → Trackers → AxisReadiness × Trackers
  assess config a v intent w trackers =
      evaluate_axis_readiness config a.key v a.command intent a.health (env.now w) trackers

  -- A target of which there is feedback is judged by `judge`, any other by `other`.
  abbrev pub by_axis :
      Target → W → Trackers → (Axis → Verdict × Trackers) → Verdict → Verdict × Trackers
  by_axis target w trackers judge other =
      if not (is_device_ready env target.can_device w)
      then (unhealthy "CAN device not ready.", trackers)
      else elim (axis_of target w) [ none ↦ (other, trackers) | some a ↦ judge a ]

  unfoldable pub wait_check : Config → W → Target → Trackers → Verdict × Trackers
  wait_check config w target trackers =
      by_axis target w trackers
        (λ a.
          explained target up
            (assess config a (seen_for_wait target w a.feedback) enable w trackers))
        (answered (unhealthy (concat target.name ": Protocol not available."))
          (λ b. if b then healthy else unhealthy (concat target.name ": Axis not enabled."))
          (query_motor_enabled env target w))

  unfoldable pub recover_check : Config → W → Target → Trackers → Verdict × Trackers
  recover_check config w target trackers =
      by_axis target w trackers
        (λ a.
          judged (λ r. r.recover_confirmed) ""
            (assess config a (with_fault target w a.feedback) recover w trackers))
        (answered (aborted "Protocol not available during fault verification.") (faultless "")
          (query_motor_fault env target w))

  unfoldable pub enable_check : Config → W → Target → Trackers → Verdict × Trackers
  enable_check config w target trackers =
      by_axis target w trackers
        (λ a.
          explained target (λ r. r.axis_ready_for_enable)
            (assess config a (with_fault target w a.feedback) enable w trackers))
        (answered (unhealthy "Protocol not available.") (faultless "Fault still active.")
          (query_motor_fault env target w))

  unfoldable pub motion_check : Config → W → Target → Trackers → Verdict × Trackers
  motion_check config w target trackers =
      by_axis target w trackers
        (λ a.
          explained target (λ r. r.axis_ready_for_run)
            (assess config a (seen_for_motion target w a.command a.feedback) a.intent w trackers))
        (answered (unhealthy "Protocol not available.") (faultless "Fault still active.")
          (query_motor_fault env target w))

-- The walk over the targets, up to the first that does not pass.
unfoldable pub walk :
    (Target → Trackers → Verdict × Trackers) → List Target → Trackers → Verdict × Trackers
walk check [] trackers = (healthy, trackers)
walk check (target ∷ targets) trackers =
    let (v, trackers') = check target trackers in
    elim v [
      | healthy ↦ walk check targets trackers'
      | unhealthy detail ↦ (unhealthy detail, trackers')
      | aborted detail ↦ (aborted detail, trackers')
    ]
