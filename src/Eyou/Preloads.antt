-- ===== src/Eyou/Preloads.antt =====
-- The velocity register of a PP motor before its CSP positions (src/EyouCan.cpp).
use mathlib.Core.Path.{subst, subst⁻¹}
use old_car_can_driver.Prelude.{
  ℕ, Bool, true, false, not, ◌||◌, ◌≡◌, refl, ap, ◌∙◌, arith, nat_eq, List, [], ◌∷◌, ◌++◌, if_cases,
}
use old_car_can_driver.Prelude.Int.{ℤ, pos, negsuc, to_u32}
use old_car_can_driver.Can.{csp, to_protocol_node_id}
use old_car_can_driver.SharedState.Data.{enable}
use old_car_can_driver.DeviceRuntime.{Request}
use old_car_can_driver.Eyou.{
  EyouCan, motor_at, put_motor, register_managed_motor_id, sync_shared_command, sync_shared_intent,
}
use old_car_can_driver.Eyou.Sending.{send_write_command, write_command, fast_write_command}
use old_car_can_driver.Eyou.Untouched.{
  request-view, send_write_command-view, send_write_command-submitted,
}
use old_car_can_driver.Eyou.Commands.{
  int_eq, positive, request, write_as, write_twice, stale_preload,
  ensure_position_velocity_configured, position_noted, then_write, csp_velocity, quick_set_position,
  enable_motor,
}
use old_car_can_driver.Eyou.Ready.{
  setup, blind, velocity_written, position_write, write_as-setup, write_as-submitted, Ready-moved,
  Ready-put, Ready,
}

-- It succeeded with these requests, and the register is taken as written with the velocity.
abbrev Done : ℕ → Bool → ℤ → List Request → Bool × EyouCan → Type 0
Done node fast v rs r = (r.0 ≡ true) × (r.1.submitted ≡ rs) × Ready r.1 node fast v true v

-- The position frame after the velocity.
position_sent :
    (node : ℕ) (fast : Bool) (v p : ℤ) (rs : List Request) (c : EyouCan)
    → Ready c node fast v true v
    → c.submitted ≡ rs
    → Done node fast v
        (rs ++ position_write node p ∷ [])
        (true, send_write_command node 0x0A (to_u32 p) 4 fast_write_command c)
position_sent node fast v p rs c r e = (
  refl,
  send_write_command-submitted node 0x0A (to_u32 p) 4 fast_write_command c r.up r.sends
      ∙ ap (λ xs. xs ++ position_write node p ∷ []) e,
  Ready-moved node fast v true v c _
      (send_write_command-view setup blind node 0x0A (to_u32 p) 4 fast_write_command c) r,
)

ensured_stale :
    (node : ℕ) (fast : Bool) (v p w : ℤ) (c : EyouCan)
    → positive v ≡ true
    → Ready c node fast v false w
    → Done node fast v (velocity_written fast node v c.submitted ++ position_write node p ∷ []) (
        then_write
          (send_write_command node 0x0A (to_u32 p) 4 fast_write_command)
          (ensure_position_velocity_configured node v false c))
unfolding ensure_position_velocity_configured write_twice
ensured_stale node fast v p w c good r =
    let send = send_write_command node 0x0A (to_u32 p) 4 fast_write_command in
    let rs = velocity_written fast node v c.submitted in
    let m = record (motor_at node c) {
      commanded_velocity = v;
      last_position_velocity_raw = v;
      position_velocity_configured = true;
    } in
    let d = put_motor node m c in
    let e = write_as c.fast_write_enabled node 0x09 v d in
    let ready =
      Ready-moved node fast v true v d e (write_as-setup c.fast_write_enabled node 0x09 v d)
        (Ready-put node fast v false w m true v c refl refl r) in
    let written : e.submitted ≡ rs =
      write_as-submitted c.fast_write_enabled node v d r.up r.sends
      ∙ ap (λ b. velocity_written b node v c.submitted) r.fast_is in
    if_cases (λ x. Done node fast v (rs ++ position_write node p ∷ []) (then_write send x))
      (not (positive v)) _ _ (λ off. ground (arith, good, off))
      (λ _.
        if_cases (λ x. Done node fast v (rs ++ position_write node p ∷ []) (then_write send x))
          (stale_preload false v (motor_at node c)) _ _
          (λ _. position_sent node fast v p rs e ready written)
          (λ off. ground (arith, r.configured_is, off)))

int_eq_self : (v : ℤ) → int_eq v v ≡ true
int_eq_self (pos n) = ground arith
int_eq_self (negsuc n) = ground arith

ensured_fresh :
    (node : ℕ) (fast : Bool) (v p : ℤ) (c : EyouCan)
    → positive v ≡ true
    → Ready c node fast v true v
    → Done node fast v (c.submitted ++ position_write node p ∷ []) (
        then_write
          (send_write_command node 0x0A (to_u32 p) 4 fast_write_command)
          (ensure_position_velocity_configured node v false c))
unfolding ensure_position_velocity_configured
ensured_fresh node fast v p c good r =
    let send = send_write_command node 0x0A (to_u32 p) 4 fast_write_command in
    let m = record (motor_at node c) { commanded_velocity = v } in
    let d = put_motor node m c in
    let kept = Ready-put node fast v true v m true v c r.configured_is r.raw_is r in
    let fresh : stale_preload false v (motor_at node c) ≡ false =
      ap (λ b. not b || not (int_eq (motor_at node c).last_position_velocity_raw v)) r.configured_is
      ∙ ap (λ w. not (int_eq w v)) r.raw_is
      ∙ ap not (int_eq_self v) in
    if_cases (λ x. Done node fast v (c.submitted ++ position_write node p ∷ []) (then_write send x))
      (not (positive v)) _ _ (λ off. ground (arith, good, off))
      (λ _.
        if_cases
          (λ x. Done node fast v (c.submitted ++ position_write node p ∷ []) (then_write send x))
          (stale_preload false v (motor_at node c)) _ _ (λ on. ground (arith, fresh, on))
          (λ _. position_sent node fast v p c.submitted d kept refl))

-- A CSP position from its call on, with what its last part does.
quick-Done :
    (id : ℕ) (p : ℤ) (now : ℕ) (fast : Bool) (v : ℤ) (b : Bool) (w : ℤ) (rs : List Request)
    (c : EyouCan)
    → Ready c (to_protocol_node_id id) fast v b w
    → ((d : EyouCan)
        → d.submitted ≡ c.submitted
        → Ready d (to_protocol_node_id id) fast v b w
        → Done (to_protocol_node_id id) fast v rs (
            then_write
              (send_write_command (to_protocol_node_id id) 0x0A (to_u32 p) 4 fast_write_command)
              (ensure_position_velocity_configured (to_protocol_node_id id) v false d)))
    → Done (to_protocol_node_id id) fast v rs (quick_set_position id p now c)
unfolding quick_set_position position_noted register_managed_motor_id sync_shared_command
quick-Done id p now fast v b w rs c r last =
    let node = to_protocol_node_id id in
    let c1 = register_managed_motor_id id c in
    let c2 = position_noted node p csp now c1 in
    let m = record (motor_at node c1) { commanded_position = p } in
    let r1 = Ready-moved node fast v b w c c1 refl r in
    let put = Ready-put node fast v b w m b w c1 r1.configured_is r1.raw_is r1 in
    let r2 = Ready-moved node fast v b w (put_motor node m c1) c2 refl put in
    if_cases (Done node fast v rs) (not c.has_controller) _ _ (λ off. ground (arith, r.up, off))
      (λ _.
        subst⁻¹
          (λ u. Done node fast v rs (
            then_write (send_write_command node 0x0A (to_u32 p) 4 fast_write_command)
              (ensure_position_velocity_configured node u false c2)))
          r2.velocity_is (last c2 refl r2))

-- An enabled motor's velocity register counts as not written.
enabled :
    (id now : ℕ) (fast : Bool) (v : ℤ) (b : Bool) (w : ℤ) (c : EyouCan)
    → Ready c (to_protocol_node_id id) fast v b w
    → Ready (enable_motor id now c).1 (to_protocol_node_id id) fast v false w
unfolding enable_motor register_managed_motor_id sync_shared_intent
enabled id now fast v b w c r =
    let node = to_protocol_node_id id in
    let c1 = register_managed_motor_id id c in
    let m = record (motor_at node c1) {
      position_velocity_configured = false;
      enabled_received = false;
    } in
    let c2 = sync_shared_intent node enable (put_motor node m c1) in
    let r1 = Ready-moved node fast v b w c c1 refl r in
    let put = Ready-put node fast v b w m false w c1 refl r1.raw_is r1 in
    let c3 = send_write_command node 0x10 1 4 write_command c2 in
    let same =
      request-view setup blind node 0x10 now c3
      ∙ send_write_command-view setup blind node 0x10 1 4 write_command c2 in
    if_cases (λ (x : Bool × EyouCan). Ready x.1 node fast v false w) (not c.has_controller) _ _
      (λ off. ground (arith, r.up, off))
      (λ _.
        Ready-moved node fast v false w (put_motor node m c1) (request node 0x10 now c3) same put)

-- For a driver with a controller and a dispatcher and a positive CSP velocity of the motor:
-- after an enable, the first CSP position succeeds and hands over the write of the velocity
-- register with that velocity, the fast write first where fast writes are on, and then the fast
-- write of the position; a second CSP position succeeds and hands over its position alone.
pub csp_after_enable :
    (id : ℕ) (p q : ℤ) (now then_at last_at : ℕ) (c : EyouCan)
    → c.has_controller ≡ true
    → c.has_dispatcher ≡ true
    → positive (csp_velocity (to_protocol_node_id id) c) ≡ true
    → let node = to_protocol_node_id id in
      let a = (enable_motor id now c).1 in
      let first = quick_set_position id p then_at a in
      let second = quick_set_position id q last_at first.1 in
      (first.0 ≡ true)
      × (second.0 ≡ true)
      × (first.1.submitted
          ≡ velocity_written c.fast_write_enabled node (csp_velocity node c) a.submitted
            ++ position_write node p ∷ [])
      × (second.1.submitted ≡ first.1.submitted ++ position_write node q ∷ [])
csp_after_enable id p q now then_at last_at c up sends good =
    let node = to_protocol_node_id id in
    let v = csp_velocity node c in
    let fast = c.fast_write_enabled in
    let w = (motor_at node c).last_position_velocity_raw in
    let a = (enable_motor id now c).1 in
    let start : Ready c node fast v (motor_at node c).position_velocity_configured w = record {
      up = up;
      sends = sends;
      fast_is = refl;
      velocity_is = refl;
      configured_is = refl;
      raw_is = refl;
    } in
    let first = quick_set_position id p then_at a in
    let preloaded =
      quick-Done id p then_at fast v false w
        (velocity_written fast node v a.submitted ++ position_write node p ∷ []) a
        (enabled id now fast v (motor_at node c).position_velocity_configured w c start)
        (λ d e r.
          subst
            (λ xs.
              Done node fast v (velocity_written fast node v xs ++ position_write node p ∷ []) (
                then_write (send_write_command node 0x0A (to_u32 p) 4 fast_write_command)
                  (ensure_position_velocity_configured node v false d)))
            e (ensured_stale node fast v p w d good r)) in
    let again =
      quick-Done id q last_at fast v true v (first.1.submitted ++ position_write node q ∷ [])
        first.1 preloaded.2
        (λ d e r.
          subst
            (λ xs. Done node fast v (xs ++ position_write node q ∷ []) (
              then_write (send_write_command node 0x0A (to_u32 q) 4 fast_write_command)
                (ensure_position_velocity_configured node v false d)))
            e (ensured_fresh node fast v q d good r)) in
    (preloaded.0, again.0, preloaded.1, again.1)
