-- ===== src/Lifecycle/Walks.antt =====
-- What a walk over the targets and a wait for it establish (src/lifecycle_driver_ops.cpp).
use old_car_can_driver.Prelude.{
  ℕ, zero, suc, String, true, false, ◌≡◌, refl, List, [], ◌∷◌, All, arith, ltb, Bool-cases, ◌⊎◌,
  inl, inr,
}
use old_car_can_driver.Coordinator.{Result}
use old_car_can_driver.MotorAction.{Target}
use old_car_can_driver.Lifecycle.{Env, Host}
use old_car_can_driver.Lifecycle.Checks.{Verdict, healthy, unhealthy, aborted, Trackers, walk}
use old_car_can_driver.Lifecycle.Waiting.{nap, wait_until}

-- The target passes, for some trackers.
abbrev pub Passes : (Target → Trackers → Verdict × Trackers) → Target → Type 0
Passes check target = (trackers : Trackers) × ((check target trackers).0 ≡ healthy)

pub Verdict-cases :
    (v : Verdict)
    → (v ≡ healthy) ⊎ ((d : String) × (v ≡ unhealthy d)) ⊎ ((d : String) × (v ≡ aborted d))
Verdict-cases healthy = inl refl
Verdict-cases (unhealthy d) = inr (inl (d, refl))
Verdict-cases (aborted d) = inr (inr (d, refl))

module _ (check : Target → Trackers → Verdict × Trackers) where
  pub walk-healthy :
      (targets : List Target) (trackers : Trackers)
      → (walk check targets trackers).0 ≡ healthy
      → All (Passes check) targets
  unfolding walk
  walk-healthy [] trackers h = tt
  walk-healthy (target ∷ targets) trackers h = elim (Verdict-cases (check target trackers).0) [
    | inl e ↦ ((trackers, e), walk-healthy targets (check target trackers).1 (rw (e, walk) at h))
    | inr (inl (d, e)) ↦ absurd (ground (arith, rw (e, walk) at h))
    | inr (inr (d, e)) ↦ absurd (ground (arith, rw (e, walk) at h))
  ]

module _ {P W : Type 0} (env : Env P W) (deadline : ℕ) (once : Host W → Verdict × Host W)
    (done : Result) (late : String → Result) where
  -- A wait that ends well ends with a healthy pass.
  pub wait_until-healthy :
      ((detail : String) → (late detail).ok ≡ false)
      → (fuel : ℕ) (detail : String) (h : Host W)
      → (wait_until env fuel deadline once done late detail h).0.ok ≡ true
      → (t : Host W) × ((once t).0 ≡ healthy)
        × (wait_until env fuel deadline once done late detail h ≡ (done, (once t).1))
  unfolding wait_until
  wait_until-healthy bad zero detail h good = absurd (ground (arith, bad detail))
  wait_until-healthy bad (suc f) detail h good =
      elim (Bool-cases (ltb (env.now h.world) deadline)) [
        | inr past ↦ absurd (ground (arith, bad detail, rw (past, wait_until) at good))
        | inl early ↦ elim (Verdict-cases (once h).0) [
          | inl e ↦ (h, e, rw (early, e, wait_until) refl)
          | inr (inl (d, e)) ↦
              rw (early, e, wait_until)
                (wait_until-healthy bad f d (nap env (once h).1)
                  (rw (early, e, wait_until) at good))
          | inr (inr (d, e)) ↦ absurd (ground (arith, rw (early, e, wait_until) at good))
        ]
      ]
