-- ===== src/SharedState/Degraded.antt =====
-- Sequences of calls on the shared state (include/can_driver/SharedDriverState.h), from any number
-- of drivers: what every reader can rely on.
use old_car_can_driver.Prelude.{string_eq, String, ◌≡◌, refl, some, List, [], ◌∷◌, leb}
use old_car_can_driver.SharedState.Data.{
  codes_Eq, AxisIntent, AxisKey, AxisFeedbackState, AxisCommandState, DeviceHealthState,
  no_feedback, axis_map_key,
}
use old_car_can_driver.SharedState.{
  SharedDriverState, touch_axis_locked, feedback_at, register_axis, recompute_axis_observed_locked,
  mutate_axis_feedback, get_axis_feedback, mutate_axis_command, set_axis_intent,
  mutate_device_health,
}
use old_car_can_driver.Prelude.Map.{AllValues, AllValues-insert, AllValues-find}

pub data Call : Type 0 where
  registers : AxisKey → Call
  feeds : AxisKey → (AxisFeedbackState → AxisFeedbackState) → Call
  commands : AxisKey → (AxisCommandState → AxisCommandState) → Call
  intends : AxisKey → AxisIntent → Call
  reports : String → (DeviceHealthState → DeviceHealthState) → Call

unfoldable pub step : Call → SharedDriverState → SharedDriverState
unfolding register_axis mutate_axis_feedback mutate_axis_command set_axis_intent
    mutate_device_health
step (registers key) s = register_axis key s
step (feeds key fn) s = mutate_axis_feedback key fn s
step (commands key fn) s = mutate_axis_command key fn s
step (intends key i) s = set_axis_intent key i s
step (reports device fn) s = mutate_device_health device fn s

unfoldable pub run : List Call → SharedDriverState → SharedDriverState
unfolding step
run [] s = s
run (c ∷ cs) s = run cs (step c s)

abbrev pub empty_state : SharedDriverState
empty_state = record {
  axis_feedback = [];
  axis_commands = [];
  axis_intents = [];
  device_health = [];
}

-- An axis counts as degraded exactly from the third timeout in a row on.
abbrev pub IsObserved : AxisFeedbackState → Type 0
IsObserved v = v.degraded ≡ leb 3 v.consecutive_timeout_count

touch-IsObserved :
    (key : AxisKey) (s : SharedDriverState)
    → AllValues IsObserved s.axis_feedback
    → AllValues IsObserved (touch_axis_locked key s).axis_feedback
unfolding touch_axis_locked
touch-IsObserved key s h =
    AllValues-insert IsObserved (axis_map_key key) _ s.axis_feedback h
      (AllValues-find IsObserved (axis_map_key key) s.axis_feedback no_feedback h refl)

step-IsObserved :
    (c : Call) (s : SharedDriverState)
    → AllValues IsObserved s.axis_feedback
    → AllValues IsObserved (step c s).axis_feedback
unfolding step
step-IsObserved (registers key) s h = touch-IsObserved key s h
step-IsObserved (feeds key fn) s h =
    AllValues-insert IsObserved (axis_map_key key)
      (recompute_axis_observed_locked (fn (feedback_at key (touch_axis_locked key s))))
      (touch_axis_locked key s).axis_feedback (touch-IsObserved key s h)
      (unfold recompute_axis_observed_locked in refl)
step-IsObserved (commands key fn) s h = touch-IsObserved key s h
step-IsObserved (intends key i) s h = touch-IsObserved key s h
step-IsObserved (reports device fn) s h = h

run-IsObserved :
    (cs : List Call) (s : SharedDriverState)
    → AllValues IsObserved s.axis_feedback
    → AllValues IsObserved (run cs s).axis_feedback
unfolding run
run-IsObserved [] s h = h
run-IsObserved (c ∷ cs) s h = run-IsObserved cs (step c s) (step-IsObserved c s h)

-- After any sequence of calls on the empty state, whatever functions the callers pass, an axis
-- whose feedback can be read is marked degraded exactly if it counts three timeouts in a row or
-- more.
pub degraded_iff_timeouts :
    (cs : List Call) (key : AxisKey) (v : AxisFeedbackState)
    → get_axis_feedback key (run cs empty_state) ≡ some v
    → v.degraded ≡ leb 3 v.consecutive_timeout_count
unfolding get_axis_feedback
degraded_iff_timeouts cs key v e =
    let observed =
      AllValues-find IsObserved (axis_map_key key) (run cs empty_state).axis_feedback no_feedback
        (run-IsObserved cs empty_state tt) refl in
    rw e at observed
