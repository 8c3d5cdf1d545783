-- ===== src/Gateway/Responses.antt =====
-- What the services of src/lifecycle_service_gateway.cpp promise over the coordinator's requests.
use old_car_can_driver.Prelude.{
  String, Bool, true, false, not, Option, none, some, ◌≡◌, refl, sym, ap, ◌∙◌, string_eq,
  Option-cases, arith, ◌==◌, if◌then◌else◌, is_empty, if_cases, Bool-cases, inl, inr,
}
use old_car_can_driver.Prelude.Map.{or_new}
use old_car_can_driver.Coordinator.{
  Result, Sys, DriverOps, request_init, request_enable, request_disable, request_release,
  request_halt, request_recover, request_shutdown,
}
use old_car_can_driver.Coordinator.Session.{
  Request, init as init_request, enable as enable_request, disable as disable_request,
  release as release_request, halt as halt_request, recover as recover_request,
  shutdown as shutdown_request, serve,
}
use old_car_can_driver.Gateway.{
  global_recover_motor_id, is_already_message, select_success_message, select_failure_message,
  Response, ServiceCall, init, shutdown, recover, enable, disable, halt, resume, respond, handle,
  on_call,
}

-- The request that a call stands for; a recovery of one motor stands for none.
abbrev pub request_of : ServiceCall → Option Request
request_of (init device loopback) = some (init_request device loopback)
request_of (shutdown force) = some (shutdown_request force)
request_of (recover motor_id) =
    if motor_id == global_recover_motor_id then some recover_request else none
request_of enable = some enable_request
request_of disable = some disable_request
request_of halt = some halt_request
request_of resume = some release_request

already_not_empty : (m : String) → is_already_message m ≡ true → is_empty m ≡ false
unfolding is_already_message
already_not_empty m h = elim (Bool-cases (is_empty m)) [
  | inl e ↦ absurd (ground (arith, no_text ((string_eq.beq_iff m "").0 e)))
  | inr e ↦ e
]
  where
    no_text : m ≡ "" → true ≡ false
    no_text e = sym h ∙ ap is_already_message e

success-not_empty :
    (result : Result) (canonical : String) (already : Option String)
    → is_empty canonical ≡ false
    → is_empty (or_new already "already") ≡ false
    → is_empty (select_success_message result canonical already) ≡ false
unfolding select_success_message
success-not_empty result canonical already h k =
    ground (arith, already_not_empty result.message, Option-cases already)

failure-not_empty :
    (result : Result) (fallback : String)
    → is_empty fallback ≡ false
    → is_empty (select_failure_message result fallback) ≡ false
unfolding select_failure_message
failure-not_empty result fallback h = ground arith

respond-not_empty :
    {W : Type 0} (canonical : String) (already : Option String) (fallback : String)
    (x : Result × Sys W)
    → is_empty canonical ≡ false
    → is_empty (or_new already "already") ≡ false
    → is_empty fallback ≡ false
    → is_empty (respond canonical already fallback x).0.message ≡ false
respond-not_empty canonical already fallback x h k l =
    if_cases (λ m. is_empty m ≡ false) x.0.ok (select_success_message x.0 canonical already)
      (select_failure_message x.0 fallback) (λ _. success-not_empty x.0 canonical already h k)
      (λ _. failure-not_empty x.0 fallback l)

module _ {W : Type 0} where
  -- What the request did, or nothing.
  abbrev pub requested : Bool → DriverOps W → Option Request → Sys W → Bool × Sys W
  requested ready ops none s = (false, s)
  requested ready ops (some r) s =
      if ready then ((serve ops r s).0.ok, (serve ops r s).1) else (false, s)

  -- A service call succeeds and changes the coordinator's state exactly as the request that it
  -- stands for; a recovery of a single motor, and any call before the gateway is initialized,
  -- fails and changes nothing.
  pub on_call-serve :
      (ready : Bool) (ops : DriverOps W) (call : ServiceCall) (s : Sys W)
      → ((on_call ready ops call s).0.success, (on_call ready ops call s).1)
        ≡ requested ready ops (request_of call) s
  unfolding on_call handle serve
  on_call-serve ready ops (init device loopback) s = ground arith
  on_call-serve ready ops (shutdown force) s = ground arith
  on_call-serve ready ops (recover motor_id) s = ground arith
  on_call-serve ready ops enable s = ground arith
  on_call-serve ready ops disable s = ground arith
  on_call-serve ready ops halt s = ground arith
  on_call-serve ready ops resume s = ground arith

  handle-not_empty :
      (ops : DriverOps W) (call : ServiceCall) (s : Sys W)
      → is_empty (handle ops call s).0.message ≡ false
  unfolding handle
  handle-not_empty ops (init device loopback) s =
      respond-not_empty "initialized (standby)" (some "already initialized") "init failed"
        (request_init ops device loopback s) refl refl refl
  handle-not_empty ops (shutdown force) s =
      let x = request_shutdown ops force s in
      if_cases (λ m. is_empty m ≡ false) x.0.ok "communication stopped; call ~/init first"
        (select_failure_message x.0 "shutdown failed") (λ _. refl)
        (λ _. failure-not_empty x.0 "shutdown failed" refl)
  handle-not_empty ops (recover motor_id) s =
      if_cases (λ (y : Response × Sys W). is_empty y.0.message ≡ false)
        (not (motor_id == global_recover_motor_id)) _ _ (λ _. refl)
        (λ _.
          respond-not_empty "recovered (standby)" none "recover failed" (request_recover ops s) refl
            refl refl)
  handle-not_empty ops enable s =
      respond-not_empty "enabled (armed)" (some "already enabled") "enable failed"
        (request_enable ops s) refl refl refl
  handle-not_empty ops disable s =
      respond-not_empty "disabled (standby)" (some "already disabled") "disable failed"
        (request_disable ops s) refl refl refl
  handle-not_empty ops halt s =
      respond-not_empty "halted" (some "already halted") "halt failed" (request_halt ops s) refl
        refl refl
  handle-not_empty ops resume s =
      respond-not_empty "resumed" (some "already running")
        "resume failed; call ~/enable (or ~/recover then ~/enable) first" (request_release ops s)
        refl refl refl

  -- Every response of a service has a text, whatever the driver operations report.
  pub on_call-message :
      (ready : Bool) (ops : DriverOps W) (call : ServiceCall) (s : Sys W)
      → is_empty (on_call ready ops call s).0.message ≡ false
  unfolding on_call
  on_call-message true ops call s = handle-not_empty ops call s
  on_call-message false ops call s = refl
