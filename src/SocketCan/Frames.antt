-- ===== src/SocketCan/Frames.antt =====
-- Frames on their way through the kernel's can_frame: toLinuxCanFrame and fromLinuxCanFrame of
-- src/SocketCanController.cpp.
use old_car_can_driver.Prelude.{
  ℕ, zero, suc, ◌%◌, ◌<◌, min, ◌≡◌, refl, ap, Bool, true, false, List, [], ◌∷◌, arith,
  if◌then◌else◌,
}
use old_car_can_driver.Can.{Frame}
use old_car_can_driver.SocketCan.{
  has_flag, with_flag, can_eff_flag, can_rtr_flag, copy_bytes, to_linux_can_frame,
  from_linux_can_frame,
}

copy_bytes-zero_twice :
    (places : ℕ) (bs cs : List ℕ) → copy_bytes places 0 bs ≡ copy_bytes places 0 cs
unfolding copy_bytes
copy_bytes-zero_twice zero bs cs = refl
copy_bytes-zero_twice (suc places) bs cs = ap (λ t. 0 ∷ t) (copy_bytes-zero_twice places bs cs)

copy_bytes-twice :
    (places n : ℕ) (bs : List ℕ)
    → copy_bytes places n (copy_bytes places n bs) ≡ copy_bytes places n bs
unfolding copy_bytes
copy_bytes-twice zero n bs = refl
copy_bytes-twice (suc places) zero bs =
    ap (λ t. 0 ∷ t) (copy_bytes-zero_twice places (0 ∷ copy_bytes places 0 bs) bs)
copy_bytes-twice (suc places) (suc n) [] = ap (λ t. 0 ∷ t) (copy_bytes-twice places n [])
copy_bytes-twice (suc places) (suc n) (b ∷ bs) = ap (λ t. b ∷ t) (copy_bytes-twice places n bs)

-- The identifier with its flags, for an identifier of 29 bits.
flags_id :
    (e r : Bool) (id : ℕ)
    → id < 0x20000000
    → let c =
        (let i = if e then with_flag can_eff_flag id else id in
          if r then with_flag can_rtr_flag i else i) in
      (c % 0x20000000 ≡ id) × (has_flag can_eff_flag c ≡ e) × (has_flag can_rtr_flag c ≡ r)
flags_id true true id h = ground arith
flags_id true false id h = ground arith
flags_id false true id h = ground arith
flags_id false false id h = ground arith

-- A frame with an identifier of 29 bits that is turned into the kernel's frame and back has its
-- identifier, its extended and remote flags, its length or 8 if that is less, its data bytes
-- below the length, and zeros from there on.
pub from_linux_can_frame-to_linux_can_frame :
    (f : Frame)
    → f.id < 0x20000000
    → from_linux_can_frame (to_linux_can_frame f)
      ≡ record f { dlc = min f.dlc 8; data_bytes = copy_bytes 8 (min f.dlc 8) f.data_bytes }
unfolding from_linux_can_frame to_linux_can_frame
from_linux_can_frame-to_linux_can_frame f h =
    let n = min f.dlc 8 in
    let (i, e, r) = flags_id f.is_extended f.is_remote_request f.id h in
    let least : min n 8 ≡ n = omega arith in
    rw (i, e, r, least, copy_bytes-twice 8 n f.data_bytes) refl
