-- ===== src/Lifecycle/Rollback.antt =====
-- What a failed enableAll of src/lifecycle_driver_ops.cpp leaves behind.
use old_car_can_driver.Prelude.{
  ℕ, zero, suc, ◌+◌, String, Bool, true, false, not, ◌||◌, ◌≡◌, refl, sym, ap, ◌∙◌, List, some,
  arith, ltb, if◌then◌else◌, if_cases, Bool-cases, inl, inr, null,
}
use old_car_can_driver.Coordinator.{Result}
use old_car_can_driver.MotorAction.{Target, execute_batch}
use old_car_can_driver.MotorAction.Batches.{batch_reports}
use old_car_can_driver.Lifecycle.{Env, Host, lifecycle_targets_snapshot}
use old_car_can_driver.Lifecycle.Waiting.{
  success, failure, wait_for_enabled_targets, wait_until, nap, enabled_pass, enable_timeout,
  rounds_for, poll_interval_ns,
}
use old_car_can_driver.Lifecycle.Walks.{Verdict-cases}
use old_car_can_driver.Lifecycle.Operations.{
  batch, enable_all, roll_back, roll_back_if, enable_refused, unconfirmed,
}

unflagged : (b c : Bool) → c ≡ not b → not c ≡ true → b ≡ true
unflagged b c e h = ground arith

flagged : (b c : Bool) → c ≡ not b → not c ≡ false → b ≡ false
flagged b c e h = ground arith

-- What a choice comes to.
if_true {ℓ} : {A : Type ℓ} (b : Bool) (x y : A) → b ≡ true → (if b then x else y) ≡ x
if_true b x y e = ap (λ t. if t then x else y) e

if_false {ℓ} : {A : Type ℓ} (b : Bool) (x y : A) → b ≡ false → (if b then x else y) ≡ y
if_false b x y e = ap (λ t. if t then x else y) e

module _ {P W : Type 0} (env : Env P W) where
  -- So many sleeps of 50 ms, one after the other.
  abbrev pub naps : ℕ → W → W
  naps zero w = w
  naps (suc n) w = naps n (env.sleep poll_interval_ns w)

  module _ (deadline : ℕ) (targets : List Target) (done : Result) (late : String → Result) where
    -- A wait does nothing to the world but sleep.
    wait_until-naps :
        (fuel : ℕ) (detail : String) (h : Host W)
        → (n : ℕ) × ((wait_until env fuel deadline
              (enabled_pass env targets)
              done
              late
              detail
              h).1.world
            ≡ naps n h.world)
    unfolding wait_until
    wait_until-naps zero detail h = (0, refl)
    wait_until-naps (suc f) detail h =
        let x = enabled_pass env targets h in
        elim (Bool-cases (ltb (env.now h.world) deadline)) [
          | inr past ↦ (0, rw (past, wait_until) refl)
          | inl early ↦ elim (Verdict-cases x.0) [
            | inl e ↦ (0, rw (early, e, wait_until) refl)
            | inr (inl (d, e)) ↦
                let (n, more) = wait_until-naps f d (nap env x.1) in
                (suc n, rw (early, e, wait_until) more)
            | inr (inr (d, e)) ↦ (0, rw (early, e, wait_until) refl)
          ]
        ]

  -- The world after `targets` were disabled, if there are any.
  abbrev pub disabled : List Target → W → W
  disabled targets w =
      if null targets then w else (execute_batch env.manager (some env.disable) targets w).1

  -- The world that an enableAll which fails takes back what it did in: that of the enable batch, or,
  -- where no target refused and some took the command, that after the wait for confirmation.
  abbrev pub given_up_in : List Target → Host W → W
  given_up_in targets h =
      let (r, w) = execute_batch env.manager (some env.enable) targets h.world in
      if r.any_failure || null r.succeeded_targets
      then w
      else (wait_for_enabled_targets env targets 2000000000 (record h { world = w })).1.world

  given_up_in-naps :
      (targets : List Target) (h : Host W)
      → (n : ℕ) × (given_up_in targets h
          ≡ naps n (execute_batch env.manager (some env.enable) targets h.world).1)
  unfolding wait_for_enabled_targets
  given_up_in-naps targets h =
      let (r, w) = execute_batch env.manager (some env.enable) targets h.world in
      if_cases (λ v. (n : ℕ) × (v ≡ naps n w)) (r.any_failure || null r.succeeded_targets) _ _
        (λ _. (0, refl))
        (λ _.
          wait_until-naps (env.now w + 2000000000) targets (success "enabled (armed)")
            enable_timeout (rounds_for 2000000000) "" (record h { world = w }))

  roll_back_if-disabled :
      (targets : List Target) (a b : String) (r : Result) (h : Host W)
      → (roll_back_if env (not (null targets)) targets a b r h).1.world ≡ disabled targets h.world
  unfolding roll_back
  roll_back_if-disabled targets a b r h =
      let undone = (execute_batch env.manager (some env.disable) targets h.world).1 in
      if_cases (λ (p : Result × Host W). p.1.world ≡ disabled targets h.world) (not (null targets))
        (roll_back env targets a b r h) (r, h)
        (λ e. sym (if_false (null targets) h.world undone (ground (arith, e))))
        (λ e. sym (if_true (null targets) h.world undone (ground (arith, e))))

  abbrev DisabledIfBad : List Target → W → Result × Host W → Type 0
  DisabledIfBad targets w p = p.0.ok ≡ false → p.1.world ≡ disabled targets w

  unconfirmed-disabled :
      (targets : List Target) (a b : String) (p : Result × Host W)
      → DisabledIfBad targets p.1.world (unconfirmed env (not (null targets)) targets a b p)
  unconfirmed-disabled targets a b (r, h) =
      if_cases (DisabledIfBad targets h.world) r.ok (success "enabled (armed)", h)
        (roll_back_if env (not (null targets)) targets a b r h)
        (λ _ bad. absurd (ground (arith, bad))) (λ _ _. roll_back_if-disabled targets a b r h)

  -- When enableAll fails although there are an executor and a target, the world is what the
  -- disabling of exactly the targets that had taken the enable command, tried on each of them,
  -- leaves of the world in which it gave up; where none had taken it, it is that world itself.
  -- It gave up in the world that the enable batch left, or, where no target had refused and some
  -- had taken the command, in the one that the wait for confirmation left; either is the world
  -- of the batch after sleeps of 50 ms, or none, and nothing else.
  pub enable_all_rolled_back :
      (h : Host W)
      → env.has_executor ≡ true
      → null (lifecycle_targets_snapshot h.driver) ≡ false
      → (enable_all env h).0.ok ≡ false
      → let targets = lifecycle_targets_snapshot h.driver in
        let (r, w) = execute_batch env.manager (some env.enable) targets h.world in
        ((enable_all env h).1.world ≡ disabled r.succeeded_targets (given_up_in targets h))
        × ((n : ℕ) × (given_up_in targets h ≡ naps n w))
  unfolding enable_all
  enable_all_rolled_back h there nonempty bad =
      let targets = lifecycle_targets_snapshot h.driver in
      let (r, t) = batch env env.enable targets h in
      let taken = r.succeeded_targets in
      let reports = batch_reports env.manager (some env.enable) targets h.world in
      let refused =
        enable_refused env r "Enable rollback failed after partial success."
          "Protocol not available during enable rollback." t in
      let wait = wait_for_enabled_targets env targets 2000000000 t in
      let waited =
        unconfirmed env (not (null taken)) taken
          "Enable confirmation rollback failed after enable timeout."
          "Protocol not available during enable confirmation rollback." wait in
      let left = given_up_in targets h in
      let early : r.any_failure || null taken ≡ true → t.world ≡ left =
        λ e. sym (if_true (r.any_failure || null taken) t.world wait.1.world e) in
      let undone =
        if_cases (DisabledIfBad taken left) (not env.has_executor)
          (failure "Motor action executor unavailable.", h) _ (λ e. absurd (ground (arith, e)))
          (λ _.
            if_cases (DisabledIfBad taken left) (null targets)
              (failure "No joints available for enable.", h) _ (λ e. absurd (ground (arith, e)))
              (λ _.
                if_cases (DisabledIfBad taken left) r.any_failure refused
                  (if not r.any_success
                    then (failure "No joints available for enable.", t)
                    else waited)
                  (λ e _.
                    roll_back_if-disabled taken _ _ _ t
                    ∙ ap (disabled taken) (early (ground (arith, e))))
                  (λ e.
                    if_cases (DisabledIfBad taken left) (not r.any_success)
                      (failure "No joints available for enable.", t) waited
                      (λ f _.
                        let no_one = ap null reports.0 ∙ unflagged _ _ reports.5 f in
                        early (ground (arith, no_one)) ∙ sym (if_true (null taken) left _ no_one))
                      (λ f late.
                        let some_one : null taken ≡ false =
                          ap null reports.0 ∙ flagged _ _ reports.5 f in
                        unconfirmed-disabled taken _ _ wait late
                        ∙ ap (disabled taken) (
                            sym (
                              if_false (r.any_failure || null taken) t.world wait.1.world
                                (ground (arith, e, some_one)))))))) in
      (undone bad, given_up_in-naps targets h)
