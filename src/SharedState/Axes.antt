-- ===== src/SharedState/Axes.antt =====
-- What a call on one axis of include/can_driver/SharedDriverState.h does to that axis and to the
-- others.
use old_car_can_driver.Prelude.{
  ℕ, max, String, ◌≡◌, some, List, arith, if◌then◌else◌, Option-cases, string_eq,
}
use old_car_can_driver.SharedState.Data.{
  AxisIntent, AxisKey, AxisFeedbackState, AxisCommandState, DeviceHealthState, no_feedback,
  no_command, no_health, codes_Eq, codes_eq_iff, axis_map_key,
}
use old_car_can_driver.SharedState.{
  SharedDriverState, emplace, register_axis, recompute_axis_observed_locked, mutate_axis_feedback,
  get_axis_feedback, mutate_axis_command, get_axis_command, set_axis_intent, get_axis_intent,
  get_device_health, mutate_device_health,
}
use old_car_can_driver.Prelude.Map.{find, find-insert, find-insert_self, or_new}

module _ (key other : AxisKey) (fn : AxisFeedbackState → AxisFeedbackState)
    (s : SharedDriverState) where
  -- After the feedback of one axis is mutated, reading an axis with the same map key gives the
  -- mutated value, with `degraded` computed anew, where a missing entry counts as the default;
  -- reading an axis with another map key gives what it gave before.
  pub get-mutate_axis_feedback : get_axis_feedback other (mutate_axis_feedback key fn s) ≡ (
      if codes_Eq.beq (axis_map_key key) (axis_map_key other)
      then some (
          recompute_axis_observed_locked
            (fn (record (or_new (get_axis_feedback key s) no_feedback) { key = key })))
      else get_axis_feedback other s)
  unfolding get_axis_feedback mutate_axis_feedback
  get-mutate_axis_feedback =
      let k = axis_map_key key in
      let j = axis_map_key other in simp (find-insert_self, find-insert) (ground arith)

  -- After the feedback of one axis is mutated, its device has a health entry whose receive time
  -- is the later of what it was and the axis's, and the health of every other device is what it
  -- was.
  pub health-mutate_axis_feedback :
      (device : String)
      → (h : DeviceHealthState) × (get_device_health device (mutate_axis_feedback key fn s)
          ≡ (if string_eq.beq key.device device then some h else get_device_health device s))
        × (h.last_rx_steady_ns
            ≡ max
                (or_new (get_device_health key.device s) no_health).last_rx_steady_ns
                (or_new
                  (get_axis_feedback key (mutate_axis_feedback key fn s))
                  no_feedback).last_rx_steady_ns)
  unfolding get_device_health get_axis_feedback mutate_axis_feedback
  health-mutate_axis_feedback device = (
    or_new (find key.device (mutate_axis_feedback key fn s).device_health) no_health,
    simp (find-insert_self, find-insert) (ground arith),
    simp find-insert_self (ground arith),
  )

module _ (key other : AxisKey) (fn : AxisCommandState → AxisCommandState)
    (s : SharedDriverState) where
  -- After the command of one axis is mutated, reading an axis with the same map key gives the
  -- mutated value, where a missing entry counts as the default; reading an axis with another map
  -- key gives what it gave before.
  pub get-mutate_axis_command : get_axis_command other (mutate_axis_command key fn s) ≡ (
      if codes_Eq.beq (axis_map_key key) (axis_map_key other)
      then some (fn (record (or_new (get_axis_command key s) no_command) { key = key }))
      else get_axis_command other s)
  unfolding get_axis_command mutate_axis_command
  get-mutate_axis_command = simp (find-insert_self, find-insert) (ground arith)

find-emplace :
    (k j : List ℕ) (i : AxisIntent) (m : List (List ℕ × AxisIntent))
    → find j (emplace k i m) ≡ (if codes_Eq.beq k j then some (or_new (find k m) i) else find j m)
find-emplace k j i m =
    ground (arith, find-insert k j i m, codes_eq_iff k j, Option-cases (find k m))

module _ (key other : AxisKey) (intent : AxisIntent) (s : SharedDriverState) where
  -- After an intent is set, an axis with the same map key reads that intent, and an axis with
  -- another map key reads what it read before.
  pub get-set_axis_intent : get_axis_intent other (set_axis_intent key intent s) ≡ (
      if codes_Eq.beq (axis_map_key key) (axis_map_key other)
      then intent
      else get_axis_intent other s)
  unfolding get_axis_intent set_axis_intent
  get-set_axis_intent = simp (find-insert, find-emplace) (ground arith)

-- To register an axis, again or for the first time, changes the intent of no axis.
pub get_axis_intent-register_axis :
    (key other : AxisKey) (s : SharedDriverState)
    → get_axis_intent other (register_axis key s) ≡ get_axis_intent other s
unfolding get_axis_intent register_axis
get_axis_intent-register_axis key other s =
    simp find-emplace (ground (arith, codes_eq_iff (axis_map_key key) (axis_map_key other)))

pub get-mutate_device_health :
    (device : String) (fn : DeviceHealthState → DeviceHealthState) (s : SharedDriverState)
    → get_device_health device (mutate_device_health device fn s)
      ≡ some (fn (record (or_new (get_device_health device s) no_health) { device = device }))
unfolding get_device_health mutate_device_health
get-mutate_device_health device fn s = find-insert_self device _ s.device_health
