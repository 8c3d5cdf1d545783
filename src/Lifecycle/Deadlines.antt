-- ===== src/Lifecycle/Deadlines.antt =====
-- The fuel of the waits of src/lifecycle_driver_ops.cpp never decides: every wait ends by its
-- deadline, since each round sleeps.
use old_car_can_driver.Prelude.{
  ℕ, zero, suc, ◌+◌, ◌*◌, ◌≤◌, String, Bool, true, false, not, ◌||◌, ◌≡◌, refl, sym, ◌∙◌, List,
  arith, ltb, leb, Bool-cases, inl, inr,
}
use old_car_can_driver.Coordinator.{Result}
use old_car_can_driver.MotorAction.{Target}
use old_car_can_driver.Lifecycle.{Env, Host, lifecycle_targets_snapshot}
use old_car_can_driver.Lifecycle.Checks.{
  Verdict, healthy, unhealthy, aborted, enable_check, motion_check,
}
use old_car_can_driver.Lifecycle.Waiting.{
  nap, told, pass, retryable, wait_until, retry_until, poll_interval_ns, rounds_for, success,
  enable_timeout, enabled_pass, recovered_pass, wait_for_enabled_targets, failure, verify_recovery,
  enable_healthy, motion_healthy, enable_healthy_once, motion_healthy_once,
}
use old_car_can_driver.Lifecycle.Walks.{Verdict-cases}

-- std::this_thread::sleep_for blocks for at least its argument, and the steady clock does not go
-- back.
abbrev pub Sleeps : {P W : Type 0} → Env P W → Type 0
Sleeps {P} {W} env = (ns : ℕ) (w : W) → env.now w + ns ≤ env.now (env.sleep ns w)

module _ {P W : Type 0} (env : Env P W) (sleeps : Sleeps env) (deadline : ℕ) where
  module _ (once : Host W → Verdict × Host W) (done : Result) (late : String → Result)
      (still : (h : Host W) → (once h).1.world ≡ h.world) where
    wait-fuel :
        (f g : ℕ) (detail : String) (h : Host W)
        → deadline ≤ env.now h.world + f * poll_interval_ns
        → deadline ≤ env.now h.world + g * poll_interval_ns
        → wait_until env f deadline once done late detail h
          ≡ wait_until env g deadline once done late detail h
    unfolding wait_until
    wait-fuel zero zero detail h p q = refl
    wait-fuel zero (suc g) detail h p q =
        let past : ltb (env.now h.world) deadline ≡ false = ground arith in
        rw (past, wait_until) refl
    wait-fuel (suc f) zero detail h p q =
        let past : ltb (env.now h.world) deadline ≡ false = ground arith in
        rw (past, wait_until) refl
    wait-fuel (suc f) (suc g) detail h p q = elim (Bool-cases (ltb (env.now h.world) deadline)) [
      | inr past ↦ rw (past, wait_until) refl
      | inl early ↦ elim (Verdict-cases (once h).0) [
        | inl e ↦ rw (early, e, wait_until) refl
        | inr (inl (d, e)) ↦
            let t = (once h).1 in
            let slept = sleeps poll_interval_ns t.world in
            rw (early, e, wait_until)
              (wait-fuel f g d (nap env t) (ground (arith, still h)) (ground (arith, still h)))
        | inr (inr (d, e)) ↦ rw (early, e, wait_until) refl
      ]
    ]

  module _ (once : Host W → Bool × String × Host W)
      (still : (h : Host W) → (once h).2.world ≡ h.world) where
    abbrev ends : Host W → Bool
    ends h = (once h).0 || not (retryable (once h).1) || leb deadline (env.now (once h).2.world)

    ends-late : (h : Host W) → deadline ≤ env.now h.world → ends h ≡ true
    ends-late h p = ground (arith, still h)

    retry-ends : (f : ℕ) (h : Host W) → ends h ≡ true → retry_until env f deadline once h ≡ once h
    unfolding retry_until
    retry-ends zero h e = refl
    retry-ends (suc f) h e = rw (e, retry_until) refl

    retry-fuel :
        (f g : ℕ) (h : Host W)
        → deadline ≤ env.now h.world + f * poll_interval_ns
        → deadline ≤ env.now h.world + g * poll_interval_ns
        → retry_until env f deadline once h ≡ retry_until env g deadline once h
    unfolding retry_until
    retry-fuel zero g h p q = sym (retry-ends g h (ends-late h (omega arith)))
    retry-fuel (suc f) zero h p q = retry-ends (suc f) h (ends-late h (omega arith))
    retry-fuel (suc f) (suc g) h p q = elim (Bool-cases (ends h)) [
      | inl e ↦ retry-ends (suc f) h e ∙ sym (retry-ends (suc g) h e)
      | inr e ↦
          let t = (once h).2 in
          let slept = sleeps poll_interval_ns t.world in
          rw (e, retry_until)
            (retry-fuel f g (nap env t) (ground (arith, still h)) (ground (arith, still h)))
    ]

told-world : {W : Type 0} (v : Verdict) (h : Host W) → (told (v, h)).2.world ≡ h.world
told-world healthy h = refl
told-world (unhealthy d) h = refl
told-world (aborted d) h = refl

module _ {P W : Type 0} (env : Env P W) (h : Host W) where
  enable_once-world : (enable_healthy_once env h).2.world ≡ h.world
  unfolding enable_healthy_once
  enable_once-world =
      let p =
        pass env (enable_check env h.driver.config h.world) (lifecycle_targets_snapshot h.driver)
          h in
      told-world p.0 p.1

  motion_once-world : (motion_healthy_once env h).2.world ≡ h.world
  unfolding motion_healthy_once
  motion_once-world =
      let p =
        pass env (motion_check env h.driver.config h.world) (lifecycle_targets_snapshot h.driver)
          h in
      told-world p.0 p.1

module _ {P W : Type 0} (env : Env P W) (sleeps : Sleeps env) (fuel : ℕ) (h : Host W) where
  -- When a sleep lasts at least as long as it was asked to, the waits for enabled targets and
  -- for a recovery, and the retries of the two health checks, end by their deadlines: any fuel
  -- that is enough for the rounds of 50 ms that fit gives the result that the operations give.
  pub waits_end :
      (targets : List Target) (timeout_ns : ℕ)
      → rounds_for timeout_ns ≤ fuel
      → rounds_for 2000000000 ≤ fuel
      → let start = env.now h.world in
        (wait_until env fuel
            (start + timeout_ns)
            (enabled_pass env targets)
            (success "enabled (armed)")
            enable_timeout
            ""
            h
          ≡ wait_for_enabled_targets env targets timeout_ns h)
        × (wait_until env fuel
              (start + 2000000000)
              (recovered_pass env targets)
              (success "")
              (λ d. failure "Recover timeout: fault still active.")
              ""
              h
            ≡ verify_recovery env targets h)
        × (retry_until env fuel (start + 750000000) (enable_healthy_once env) h
            ≡ enable_healthy env h)
        × (retry_until env fuel (start + 1250000000) (motion_healthy_once env) h
            ≡ motion_healthy env h)
  unfolding wait_for_enabled_targets verify_recovery enable_healthy motion_healthy
  waits_end targets timeout_ns p q =
      let start = env.now h.world in
      (
        wait-fuel env sleeps (start + timeout_ns) (enabled_pass env targets)
            (success "enabled (armed)") enable_timeout (λ t. refl) fuel (rounds_for timeout_ns) "" h
            (omega arith) (omega arith),
        wait-fuel env sleeps (start + 2000000000) (recovered_pass env targets) (success "")
            (λ d. failure "Recover timeout: fault still active.") (λ t. refl) fuel
            (rounds_for 2000000000) "" h (omega arith) (omega arith),
        retry-fuel env sleeps (start + 750000000) (enable_healthy_once env) (enable_once-world env)
            fuel (rounds_for 750000000) h (omega arith) (omega arith),
        retry-fuel env sleeps (start + 1250000000) (motion_healthy_once env) (motion_once-world env)
            fuel (rounds_for 1250000000) h (omega arith) (omega arith),
      )
