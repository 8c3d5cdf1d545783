-- ===== src/Eyou/Ready.antt =====
-- The part of the state of src/EyouCan.cpp that decides what a CSP position of a motor writes.
use old_car_can_driver.Prelude.{
  ℕ, Bool, true, false, ◌≡◌, refl, ap, ◌∙◌, nat_eq, List, [], ◌∷◌, ◌++◌, if◌then◌else◌,
}
use old_car_can_driver.Prelude.Int.{ℤ, to_u32}
use old_car_can_driver.Prelude.Map.{find, or_new, find-insert_self}
use old_car_can_driver.DeviceRuntime.{Request}
use old_car_can_driver.Eyou.{
  MotorState, PendingReadRequest, EyouCan, motor_at, put_motor, new_motor,
}
use old_car_can_driver.Eyou.Sending.{send_write_command, write_command, fast_write_command}
use old_car_can_driver.Eyou.Untouched.{
  write_request, send_write_command-view, send_write_command-submitted,
}
use old_car_can_driver.Eyou.Commands.{write_as, csp_velocity}

-- What decides on the writes of a CSP position.
abbrev pub Setup : Type 0
Setup = Bool × Bool × Bool × ℤ × List (ℕ × ℤ) × List (ℕ × MotorState)

abbrev pub setup : EyouCan → Setup
setup c = (
  c.has_controller, c.has_dispatcher, c.fast_write_enabled, c.default_csp_velocity_raw,
  c.csp_velocity_raw_by_motor_id, c.motor_states,
)

pub blind :
    (c : EyouCan) (reads : List (ℕ × PendingReadRequest)) (requests : List Request)
    (fast normal : ℕ)
    → setup (record c {
      pending_read_requests = reads;
      submitted = requests;
      fast_write_sent_count = fast;
      normal_write_sent_count = normal;
    })
      ≡ setup c
blind c reads requests fast normal = refl

-- The requests after a velocity was written, the fast write first where there is one.
abbrev pub velocity_written : Bool → ℕ → ℤ → List Request → List Request
velocity_written fast node v rs =
    (if fast then rs ++ write_request node 0x09 (to_u32 v) 4 fast_write_command ∷ [] else rs)
    ++ write_request node 0x09 (to_u32 v) 4 write_command ∷ []

abbrev pub position_write : ℕ → ℤ → Request
position_write node p = write_request node 0x0A (to_u32 p) 4 fast_write_command

pub write_as-setup :
    (fast : Bool) (node sub : ℕ) (v : ℤ) (c : EyouCan)
    → setup (write_as fast node sub v c) ≡ setup c
unfolding write_as
write_as-setup true node sub v c =
    send_write_command-view setup blind node sub (to_u32 v) 4 write_command
      (send_write_command node sub (to_u32 v) 4 fast_write_command c)
    ∙ send_write_command-view setup blind node sub (to_u32 v) 4 fast_write_command c
write_as-setup false node sub v c =
    send_write_command-view setup blind node sub (to_u32 v) 4 write_command c

pub write_as-submitted :
    (fast : Bool) (node : ℕ) (v : ℤ) (c : EyouCan)
    → c.has_controller ≡ true
    → c.has_dispatcher ≡ true
    → (write_as fast node 0x09 v c).submitted ≡ velocity_written fast node v c.submitted
unfolding write_as
write_as-submitted true node v c up sends =
    let first = send_write_command node 0x09 (to_u32 v) 4 fast_write_command c in
    let kept = send_write_command-view setup blind node 0x09 (to_u32 v) 4 fast_write_command c in
    send_write_command-submitted node 0x09 (to_u32 v) 4 write_command first
      (ap (λ s. s.0) kept ∙ up) (ap (λ s. s.1) kept ∙ sends)
    ∙ ap (λ rs. rs ++ write_request node 0x09 (to_u32 v) 4 write_command ∷ [])
        (send_write_command-submitted node 0x09 (to_u32 v) 4 fast_write_command c up sends)
write_as-submitted false node v c up sends =
    send_write_command-submitted node 0x09 (to_u32 v) 4 write_command c up sends

-- What decides on the writes of a CSP position: whether the motor's velocity register is taken as
-- written, and with what.
pub record Ready (c : EyouCan) (node : ℕ) (fast : Bool) (v : ℤ) (configured : Bool) (raw : ℤ)
    : Type 0 where
  pub up : c.has_controller ≡ true
  pub sends : c.has_dispatcher ≡ true
  pub fast_is : c.fast_write_enabled ≡ fast
  pub velocity_is : csp_velocity node c ≡ v
  pub configured_is : (motor_at node c).position_velocity_configured ≡ configured
  pub raw_is : (motor_at node c).last_position_velocity_raw ≡ raw

pub Ready-moved :
    (node : ℕ) (fast : Bool) (v : ℤ) (b : Bool) (w : ℤ) (c d : EyouCan)
    → setup d ≡ setup c
    → Ready c node fast v b w
    → Ready d node fast v b w
Ready-moved node fast v b w c d e r = record {
  up = ap (λ s. s.0) e ∙ r.up;
  sends = ap (λ s. s.1) e ∙ r.sends;
  fast_is = ap (λ s. s.2) e ∙ r.fast_is;
  velocity_is = ap (λ s. or_new (find node s.4) s.3) e ∙ r.velocity_is;
  configured_is =
      ap (λ s. (or_new (find node s.5) new_motor).position_velocity_configured) e ∙ r.configured_is;
  raw_is = ap (λ s. (or_new (find node s.5) new_motor).last_position_velocity_raw) e ∙ r.raw_is;
}

-- A motor put in place of another.
pub Ready-put :
    (node : ℕ) (fast : Bool) (v : ℤ) (b : Bool) (w : ℤ) (n : MotorState) (after : Bool)
    (raw_after : ℤ) (c : EyouCan)
    → n.position_velocity_configured ≡ after
    → n.last_position_velocity_raw ≡ raw_after
    → Ready c node fast v b w
    → Ready (put_motor node n c) node fast v after raw_after
Ready-put node fast v b w n after raw_after c configured raw r =
    let there = find-insert_self node n c.motor_states in
    record {
      up = r.up;
      sends = r.sends;
      fast_is = r.fast_is;
      velocity_is = r.velocity_is;
      configured_is =
          ap (λ o. (or_new o new_motor).position_velocity_configured) there ∙ configured;
      raw_is = ap (λ o. (or_new o new_motor).last_position_velocity_raw) there ∙ raw;
    }
