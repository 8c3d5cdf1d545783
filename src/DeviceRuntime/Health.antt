-- ===== src/DeviceRuntime/Health.antt =====
-- What a failed send of src/DeviceRuntime.cpp does to the axes of the device.
use old_car_can_driver.Prelude.{
  ℕ, ◌≡◌, refl, true, false, Option, some, arith, if◌then◌else◌, nat_eq, string_eq, is_empty,
}
use old_car_can_driver.Can.{link_down, error}
use old_car_can_driver.SharedState.{SharedDriverState, mutate_device_health, get_device_health}
use old_car_can_driver.SharedState.Axes.{get-mutate_device_health}
use old_car_can_driver.SharedState.Data.{DeviceHealthState}
use old_car_can_driver.DeviceRuntime.{Request, bump, Runtime}
use old_car_can_driver.DeviceRuntime.Worker.{
  note_result, note_shared_send_result, count_result, attempt_send,
}
use old_car_can_driver.SharedState.Axes.{get-mutate_device_health}
use old_car_can_driver.SharedState.Data.{AxisIntent, AxisFeedbackState, AxisCommandState, no_health}
use old_car_can_driver.Prelude.Map.{or_new}
use old_car_can_driver.DeviceRuntime.Submission.{complete-cases}
use old_car_can_driver.Readiness.{Config, evaluate}

attempt_send-shared_state :
    (t : Runtime) (r : Request) (now : ℕ) (s : SharedDriverState)
    → t.has_transport ≡ true
    → is_empty t.device_name ≡ false
    → t.shared_state ≡ some s
    → (attempt_send r link_down now t).shared_state
      ≡ some (mutate_device_health t.device_name (note_result link_down now) s)
unfolding attempt_send note_shared_send_result count_result
attempt_send-shared_state t r now s h k e =
    let result = if t.has_transport then link_down else error in
    complete-cases
      (λ u.
        (note_shared_send_result result now (count_result result u)).shared_state
        ≡ some (mutate_device_health t.device_name (note_result link_down now) s))
      r true result now t (λ cs. ground arith)

-- When a runtime with a transport, a device name and an attached shared state sends a request
-- and the link is down, the shared state then holds a health entry of the device that counts one
-- more unavailable link, and no axis evaluated with that health is ready for enabling or for
-- running, whatever its feedback, command, intent and the configuration.
pub link_down_blocks :
    (t : Runtime) (r : Request) (now : ℕ) (s : SharedDriverState) (readiness : Config)
    (v : AxisFeedbackState) (command : Option AxisCommandState) (intent : AxisIntent) (time : ℕ)
    → t.has_transport ≡ true
    → is_empty t.device_name ≡ false
    → t.shared_state ≡ some s
    → (s' : SharedDriverState) × (h : DeviceHealthState) × ((attempt_send r link_down now
          t).shared_state
        ≡ some s')
      × (get_device_health t.device_name s' ≡ some h)
      × (h.tx_link_unavailable
          ≡ bump (or_new (get_device_health t.device_name s) no_health).tx_link_unavailable)
      × ((evaluate readiness v command intent (some h) time).axis_ready_for_enable ≡ false)
      × ((evaluate readiness v command intent (some h) time).axis_ready_for_run ≡ false)
unfolding evaluate note_result
link_down_blocks t r now s readiness v command intent time h k e = (
  mutate_device_health t.device_name (note_result link_down now) s,
  note_result link_down now
      (record (or_new (get_device_health t.device_name s) no_health) { device = t.device_name }),
  attempt_send-shared_state t r now s h k e,
  get-mutate_device_health t.device_name (note_result link_down now) s,
  refl,
  ground arith,
  ground arith,
)
