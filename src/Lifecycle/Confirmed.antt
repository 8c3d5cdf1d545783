-- ===== src/Lifecycle/Confirmed.antt =====
-- What the lifecycle operations of src/lifecycle_driver_ops.cpp have confirmed when they succeed.
use old_car_can_driver.Prelude.{
  ℕ, ◌+◌, ◌≤◌, ◌<◌, String, Bool, true, false, not, ◌≡◌, ◌≢◌, refl, ◌⊎◌, Option, none, some, arith,
  if◌then◌else◌, if_cases,
}
use old_car_can_driver.SharedState.Data.{
  AxisKey, AxisFeedbackState, AxisCommandState, AxisIntent, DeviceHealthState,
}
use old_car_can_driver.Readiness.{AxisReadiness, Config, evaluate, evaluate_axis_readiness}
use old_car_can_driver.MotorAction.{Target}
use old_car_can_driver.Lifecycle.{Env, is_device_ready, query_motor_fault, query_motor_enabled}
use old_car_can_driver.Lifecycle.Checks.{
  Verdict, healthy, unhealthy, Trackers, Axis, axis_of, with_fault, seen_for_wait, seen_for_motion,
  by_axis, explained, about, answered, faultless, judged,
}

-- What the readiness of an axis rests on: an answer that is recent enough, no series of timeouts and
-- no fault.
abbrev pub Reports : Config → AxisFeedbackState → ℕ → Type 0
Reports config v now =
    (v.feedback_seen ≡ true)
    × (0 < v.last_rx_steady_ns)
    × ((config.feedback_freshness_timeout_ns ≡ 0)
        ⊎ (now ≤ v.last_rx_steady_ns + config.feedback_freshness_timeout_ns))
    × (v.degraded ≡ false)
    × (v.fault_valid ≡ true)
    × (v.fault ≡ false)

abbrev pub Enabled : AxisFeedbackState → Type 0
Enabled v = (v.enabled_valid ≡ true) × (v.enabled ≡ true)

module _ (config : Config) (v : AxisFeedbackState) (command : Option AxisCommandState)
    (intent : AxisIntent) (health : Option DeviceHealthState) (now : ℕ) where
  pub ready-Reports :
      (evaluate config v command intent health now).axis_ready_for_enable ≡ true
      → Reports config v now
  unfolding evaluate
  ready-Reports h = ground arith

  pub up-Enabled : (evaluate config v command intent health now).enabled_ready ≡ true → Enabled v
  unfolding evaluate
  up-Enabled h = ground arith

  pub run-ready :
      (evaluate config v command intent health now).axis_ready_for_run ≡ true
      → ((evaluate config v command intent health now).axis_ready_for_enable ≡ true)
        × ((evaluate config v command intent health now).enabled_ready ≡ true)
  unfolding evaluate
  run-ready h = ground arith

module _ (config : Config) (key : AxisKey) (v : AxisFeedbackState)
    (command : Option AxisCommandState) (intent : AxisIntent) (health : Option DeviceHealthState)
    (now : ℕ) (trackers : Trackers) where
  abbrev pub evaluated : AxisReadiness
  evaluated = evaluate config v command intent health now

  abbrev pub assessed : AxisReadiness
  assessed = (evaluate_axis_readiness config key v command intent health now trackers).0

  -- The trackers decide of the readiness only whether a recovery is confirmed.
  pub assessed_lem :
      (assessed.axis_ready_for_enable ≡ evaluated.axis_ready_for_enable)
      × (assessed.enabled_ready ≡ evaluated.enabled_ready)
      × (assessed.axis_ready_for_run ≡ evaluated.axis_ready_for_run)
  unfolding evaluate_axis_readiness
  assessed_lem = ground arith

  pub confirmed_ready : assessed.recover_confirmed ≡ true → evaluated.axis_ready_for_enable ≡ true
  unfolding evaluate_axis_readiness
  confirmed_ready h = ground arith

pub explained-healthy :
    (target : Target) (passes : AxisReadiness → Bool) (p : AxisReadiness × Trackers)
    → (explained target passes p).0 ≡ healthy
    → passes p.0 ≡ true
explained-healthy target passes (r, trackers) h =
    if_cases (λ (u : Verdict). u ≡ healthy → passes r ≡ true) (passes r) healthy
      (unhealthy (about target r)) (λ e _. e) (λ _ e. absurd (ground (arith, e))) h

-- What a healthy target shows, by whether there is feedback of it.
abbrev pub Judged : (Axis → Type 0) → Type 0 → Option Axis → Type 0
Judged judged other none = other
Judged judged other (some a) = judged a

abbrev pub choose :
    (Axis → Verdict × Trackers) → Verdict × Trackers → Option Axis → Verdict × Trackers
choose judge other o = elim o [ none ↦ other | some a ↦ judge a ]

choose-healthy :
    (judge : Axis → Verdict × Trackers) (other : Verdict × Trackers) (o : Option Axis)
    → (choose judge other o).0 ≡ healthy
    → Judged (λ a. (judge a).0 ≡ healthy) (other.0 ≡ healthy) o
choose-healthy judge other none h = h
choose-healthy judge other (some a) h = h

pub Judged-map :
    (p q : Axis → Type 0) (a b : Type 0) (o : Option Axis)
    → ((x : Axis) → p x → q x)
    → (a → b)
    → Judged p a o
    → Judged q b o
Judged-map p q a b none f g h = g h
Judged-map p q a b (some x) f g h = f x h

pub judged-healthy :
    (passes : AxisReadiness → Bool) (detail : String) (p : AxisReadiness × Trackers)
    → (judged passes detail p).0 ≡ healthy
    → passes p.0 ≡ true
judged-healthy passes detail (r, trackers) h =
    if_cases (λ (u : Verdict). u ≡ healthy → passes r ≡ true) (passes r) healthy (unhealthy detail)
      (λ e _. e) (λ _ e. absurd (ground (arith, e))) h

pub answered-enabled :
    (missing detail : String) (o : Option Bool)
    → answered (unhealthy missing) (λ b. if b then healthy else unhealthy detail) o ≡ healthy
    → o ≡ some true
answered-enabled missing detail none h = absurd (ground (arith, h))
answered-enabled missing detail (some true) h = refl
answered-enabled missing detail (some false) h = absurd (ground (arith, h))

pub answered-faultless :
    (missing : Verdict) (detail : String) (o : Option Bool)
    → missing ≢ healthy
    → answered missing (faultless detail) o ≡ healthy
    → o ≡ some false
answered-faultless missing detail none bad h = absurd (bad h)
answered-faultless missing detail (some true) bad h = absurd (ground (arith, h))
answered-faultless missing detail (some false) bad h = refl

module _ {P W : Type 0} (env : Env P W) where
  pub by_axis-healthy :
      (target : Target) (w : W) (trackers : Trackers) (judge : Axis → Verdict × Trackers)
      (other : Verdict)
      → (by_axis env target w trackers judge other).0 ≡ healthy
      → (is_device_ready env target.can_device w ≡ true)
        × Judged (λ a. (judge a).0 ≡ healthy) (other ≡ healthy) (axis_of env target w)
  by_axis-healthy target w trackers judge other h =
      if_cases
        (λ (p : Verdict × Trackers).
          p.0 ≡ healthy
          → (is_device_ready env target.can_device w ≡ true)
            × Judged (λ a. (judge a).0 ≡ healthy) (other ≡ healthy) (axis_of env target w))
        (not (is_device_ready env target.can_device w))
        (unhealthy "CAN device not ready.", trackers)
        (choose judge (other, trackers) (axis_of env target w)) (λ _ e. absurd (ground (arith, e)))
        (λ ready e.
          (ground (arith, ready), choose-healthy judge (other, trackers) (axis_of env target w) e))
        h

module _ {P W : Type 0} (env : Env P W) (config : Config) (w : W) where
  -- The device is ready; an axis with feedback reports what it should and is enabled, and any other
  -- is enabled by what its protocol says.
  abbrev pub IsUp : Target → Type 0
  IsUp target =
      (is_device_ready env target.can_device w ≡ true)
      × Judged
          (λ a.
            let v = seen_for_wait env target w a.feedback in
            Reports config v (env.now w) × Enabled v)
          (query_motor_enabled env target w ≡ some true) (axis_of env target w)

  abbrev pub IsRunnable : Target → Type 0
  IsRunnable target =
      (is_device_ready env target.can_device w ≡ true)
      × Judged
          (λ a.
            let v = seen_for_motion env target w a.command a.feedback in
            Reports config v (env.now w) × Enabled v)
          (query_motor_fault env target w ≡ some false) (axis_of env target w)

  abbrev pub IsRecovered : Target → Type 0
  IsRecovered target =
      (is_device_ready env target.can_device w ≡ true)
      × Judged (λ a. Reports config (with_fault env target w a.feedback) (env.now w))
          (query_motor_fault env target w ≡ some false) (axis_of env target w)
