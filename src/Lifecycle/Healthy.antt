-- ===== src/Lifecycle/Healthy.antt =====
-- The operations of src/lifecycle_driver_ops.cpp succeed only on targets that are what they should be.
use old_car_can_driver.Prelude.{sym, ◌∙◌, List, [], ◌∷◌, All, arith}
use Prim.Native.String.{◌++◌ as concat}
use old_car_can_driver.SharedState.Data.{enable, recover}
use old_car_can_driver.Readiness.{Config}
use old_car_can_driver.MotorAction.{Target}
use old_car_can_driver.Lifecycle.{Env, query_motor_fault, query_motor_enabled}
use old_car_can_driver.Lifecycle.Checks.{
  unhealthy, aborted, axis_of, with_fault, seen_for_wait, seen_for_motion, assess, up, wait_check,
  recover_check, motion_check,
}
use old_car_can_driver.Lifecycle.Walks.{Passes}
use old_car_can_driver.Lifecycle.Confirmed.{
  IsUp, IsRunnable, IsRecovered, Judged-map, by_axis-healthy, explained-healthy, answered-enabled,
  answered-faultless, assessed_lem, confirmed_ready, ready-Reports, up-Enabled, run-ready,
  judged-healthy,
}

pub All-map {ℓ} :
    {A : Type ℓ} (P Q : A → Type 0) (xs : List A) → ((x : A) → P x → Q x) → All P xs → All Q xs
All-map P Q [] f h = tt
All-map P Q (x ∷ xs) f h = (f x h.0, All-map P Q xs f h.1)

module _ {P W : Type 0} (env : Env P W) (config : Config) (w : W) (target : Target) where
  pub wait_check-IsUp : Passes (wait_check env config w) target → IsUp env config w target
  unfolding wait_check
  wait_check-IsUp (trackers, e) =
      let (ready, shown) = by_axis-healthy env target w trackers _ _ e in
      (
        ready,
        Judged-map _ _ _ _ (axis_of env target w)
            (λ a h.
              let v = seen_for_wait env target w a.feedback in
              let passed =
                explained-healthy target up (assess env config a v enable w trackers) h in
              let same =
                assessed_lem config a.key v a.command enable a.health (env.now w) trackers in
              (
                ready-Reports config v a.command enable a.health (env.now w) (ground arith),
                up-Enabled config v a.command enable a.health (env.now w) (ground arith),
              ))
            (λ h.
              answered-enabled (concat target.name ": Protocol not available.")
                (concat target.name ": Axis not enabled.") (query_motor_enabled env target w) h)
            shown,
      )

  pub motion_check-IsRunnable :
      Passes (motion_check env config w) target → IsRunnable env config w target
  unfolding motion_check
  motion_check-IsRunnable (trackers, e) =
      let (ready, shown) = by_axis-healthy env target w trackers _ _ e in
      (
        ready,
        Judged-map _ _ _ _ (axis_of env target w)
            (λ a h.
              let v = seen_for_motion env target w a.command a.feedback in
              let passed =
                explained-healthy target (λ r. r.axis_ready_for_run)
                  (assess env config a v a.intent w trackers) h in
              let same =
                assessed_lem config a.key v a.command a.intent a.health (env.now w) trackers in
              let runs =
                run-ready config v a.command a.intent a.health (env.now w) (sym same.2 ∙ passed) in
              (
                ready-Reports config v a.command a.intent a.health (env.now w) runs.0,
                up-Enabled config v a.command a.intent a.health (env.now w) runs.1,
              ))
            (λ h.
              answered-faultless (unhealthy "Protocol not available.") "Fault still active."
                (query_motor_fault env target w) (λ x. absurd (ground (arith, x))) h)
            shown,
      )

  pub recover_check-IsRecovered :
      Passes (recover_check env config w) target → IsRecovered env config w target
  unfolding recover_check
  recover_check-IsRecovered (trackers, e) =
      let (ready, shown) = by_axis-healthy env target w trackers _ _ e in
      (
        ready,
        Judged-map _ _ _ _ (axis_of env target w)
            (λ a h.
              let v = with_fault env target w a.feedback in
              let passed =
                judged-healthy (λ r. r.recover_confirmed) ""
                  (assess env config a v recover w trackers) h in
              ready-Reports config v a.command recover a.health (env.now w) (
                confirmed_ready config a.key v a.command recover a.health (env.now w) trackers
                  passed))
            (λ h.
              answered-faultless (aborted "Protocol not available during fault verification.") ""
                (query_motor_fault env target w) (λ x. absurd (ground (arith, x))) h)
            shown,
      )
