-- ===== src/MotorAction/Batches.antt =====
-- What a batch reports, and when an action is not called (src/motor_action_executor.cpp).
use old_car_can_driver.Prelude.{
  ℕ, ◌+◌, ◌≡◌, refl, sym, ap, ◌⊎◌, Bool, true, false, not, ◌||◌, Option, none, some, List, [], ◌∷◌,
  ◌++◌, arith, if◌then◌else◌, if_cases, length, null,
}
use old_car_can_driver.MotorAction.{
  Target, Status, ok, device_not_ready, protocol_unavailable, is_ok, Failure, BatchResult, Outcome,
  DeviceManager, no_result, record_status, execute, run_batch, execute_batch, with_protocol,
}

module _ {P W : Type 0} (manager : Option (DeviceManager P W))
    (act : Option (P → ℕ → W → Outcome × W)) where
  -- The status of each target, each action run in the world that the one before it left.
  unfoldable pub statuses : List Target → W → List (Target × Status)
  statuses [] w = []
  statuses (target ∷ targets) w =
      let (status, v) = execute manager act target w in (target, status) ∷ statuses targets v

abbrev pub succeeded : List (Target × Status) → List Target
succeeded [] = []
succeeded ((target, status) ∷ rest) =
    if is_ok status then target ∷ succeeded rest else succeeded rest

abbrev pub failed : List (Target × Status) → List Failure
failed [] = []
failed ((target, status) ∷ rest) =
    if is_ok status then failed rest else record { target = target; status = status } ∷ failed rest

abbrev pub first_of : List Failure → Status
first_of [] = ok
first_of (f ∷ fs) = f.status

append_assoc {ℓ} :
    {A : Type ℓ} (xs : List A) (x : A) (ys : List A) → (xs ++ x ∷ []) ++ ys ≡ xs ++ x ∷ ys
append_assoc [] x ys = refl
append_assoc (y ∷ xs) x ys = ap (λ zs. y ∷ zs) (append_assoc xs x ys)

append_none {ℓ} : {A : Type ℓ} (xs : List A) → xs ++ [] ≡ xs
append_none [] = refl
append_none (x ∷ xs) = ap (λ zs. x ∷ zs) (append_none xs)

-- What a report says after more statuses.
record Reports (st : List (Target × Status)) (before after : BatchResult) : Type 0 where
  succeeds : after.succeeded_targets ≡ before.succeeded_targets ++ succeeded st
  fails : after.failures ≡ before.failures ++ failed st
  success_count : after.success_count ≡ before.success_count + length (succeeded st)
  failure_count : after.failure_count ≡ before.failure_count + length (failed st)
  any_success : after.any_success ≡ (before.any_success || not (null (succeeded st)))
  any_failure : after.any_failure ≡ (before.any_failure || not (null (failed st)))
  first :
      after.first_failure
      ≡ (if is_ok before.first_failure then first_of (failed st) else before.first_failure)

one-Reports :
    (target : Target) (status : Status) (rest : List (Target × Status)) (r after : BatchResult)
    → Reports rest (record_status target status r) after
    → Reports ((target, status) ∷ rest) r after
unfolding record_status
one-Reports target status rest r after h = record {
  succeeds = ground (arith, h.succeeds, append_assoc r.succeeded_targets target (succeeded rest));
  fails = ground (
    arith,
    h.fails,
    append_assoc r.failures (record { target = target; status = status }) (failed rest),
  );
  success_count = ground (arith, h.success_count);
  failure_count = ground (arith, h.failure_count);
  any_success = ground (arith, h.any_success);
  any_failure = ground (arith, h.any_failure);
  first = ground (arith, h.first);
}

module _ {P W : Type 0} (manager : Option (DeviceManager P W))
    (act : Option (P → ℕ → W → Outcome × W)) where
  run_batch-Reports :
      (targets : List Target) (r : BatchResult) (w : W)
      → Reports (statuses manager act targets w) r (run_batch manager act targets (r, w)).0
  unfolding run_batch statuses
  run_batch-Reports [] r w = record {
    succeeds = sym (append_none r.succeeded_targets);
    fails = sym (append_none r.failures);
    success_count = omega arith;
    failure_count = omega arith;
    any_success = ground arith;
    any_failure = ground arith;
    first = ground arith;
  }
  run_batch-Reports (target ∷ targets) r w =
      let (status, v) = execute manager act target w in
      one-Reports target status (statuses manager act targets v) r
        (run_batch manager act targets (record_status target status r, v)).0
        (run_batch-Reports targets (record_status target status r) v)

  length-statuses :
      (targets : List Target) (w : W)
      → length (succeeded (statuses manager act targets w))
          + length (failed (statuses manager act targets w))
        ≡ length targets
  unfolding statuses
  length-statuses [] w = omega arith
  length-statuses (target ∷ targets) w =
      let x = execute manager act target w in ground (arith, length-statuses targets x.1)

  -- A batch reports the targets that succeeded and the ones that failed with their statuses,
  -- each in the order of the targets and with every action run in the world that the one before
  -- left; its counts are their numbers and add up to the number of targets, its flags say
  -- whether there are any, and its first failure is the first one's status, or Ok if there is
  -- none.
  pub batch_reports :
      (targets : List Target) (w : W)
      → let st = statuses manager act targets w in
        let r = (execute_batch manager act targets w).0 in
        (r.succeeded_targets ≡ succeeded st)
        × (r.failures ≡ failed st)
        × (r.success_count ≡ length (succeeded st))
        × (r.failure_count ≡ length (failed st))
        × (r.success_count + r.failure_count ≡ length targets)
        × (r.any_success ≡ not (null (succeeded st)))
        × (r.any_failure ≡ not (null (failed st)))
        × (r.first_failure ≡ first_of (failed st))
  batch_reports targets w =
      let h = run_batch-Reports targets no_result w in
      (
        h.succeeds,
        h.fails,
        omega (arith, h.success_count),
        omega (arith, h.failure_count),
        omega (arith, h.success_count, h.failure_count, length-statuses targets w),
        h.any_success,
        h.any_failure,
        h.first,
      )

module _ {P W : Type 0} where
  with_protocol-untouched :
      (p : Option P) (m : Bool) (target : Target) (act : P → ℕ → W → Outcome × W) (w : W)
      → ((with_protocol p m target act w).0 ≡ device_not_ready)
        ⊎ ((with_protocol p m target act w).0 ≡ protocol_unavailable)
      → (with_protocol p m target act w).1 ≡ w
  with_protocol-untouched none m target act w h = refl
  with_protocol-untouched (some p) false target act w h = refl
  with_protocol-untouched (some p) true target act w h = absurd (ground (arith, h))

  -- Where the status of an action is DeviceNotReady or ProtocolUnavailable, the world is as it
  -- was: the action was not called.
  pub not_run_untouched :
      (manager : Option (DeviceManager P W)) (act : Option (P → ℕ → W → Outcome × W))
      (target : Target) (w : W)
      → ((execute manager act target w).0 ≡ device_not_ready)
        ⊎ ((execute manager act target w).0 ≡ protocol_unavailable)
      → (execute manager act target w).1 ≡ w
  unfolding execute
  not_run_untouched none act target w h = refl
  not_run_untouched (some manager) none target w h = refl
  not_run_untouched (some manager) (some act) target w h =
      let x =
        with_protocol (manager.get_protocol target.can_device target.protocol w)
          (manager.has_device_mutex target.can_device w) target act w in
      if_cases
        (λ (y : Status × W). (y.0 ≡ device_not_ready) ⊎ (y.0 ≡ protocol_unavailable) → y.1 ≡ w)
        (not (manager.is_device_ready target.can_device w)) (device_not_ready, w) x (λ _ _. refl)
        (λ _.
          with_protocol-untouched (manager.get_protocol target.can_device target.protocol w)
            (manager.has_device_mutex target.can_device w) target act w)
        h
