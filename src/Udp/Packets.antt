-- ===== src/Udp/Packets.antt =====
-- What arrives of a frame that is sent, and what any packet can become (src/UdpCanTransport.cpp).
use old_car_can_driver.Prelude.{
  ℕ, zero, suc, ◌+◌, ◌%◌, ◌*◌, ◌≤◌, ◌<◌, min, ◌≡◌, refl, sym, ap, Bool, true, false, some, List, [],
  ◌∷◌, arith, nat_eq, length, get_or, All,
}
use old_car_can_driver.Can.{Frame, IsFrame}
use old_car_can_driver.Udp.{clip, packet_of, take_bytes, drop, receive}

length-clip : (n : ℕ) (bs : List ℕ) → length (clip n bs) ≡ length bs
unfolding clip
length-clip n [] = refl
length-clip zero (b ∷ bs) = ap suc (length-clip zero bs)
length-clip (suc n) (b ∷ bs) = ap suc (length-clip n bs)

take_bytes-zeros : (bs rx : List ℕ) → take_bytes (length bs) 0 rx ≡ clip 0 bs
unfolding take_bytes clip
take_bytes-zeros [] rx = refl
take_bytes-zeros (b ∷ bs) rx = ap (λ t. 0 ∷ t) (take_bytes-zeros bs rx)

take_bytes-clip : (n : ℕ) (bs : List ℕ) → take_bytes (length bs) n (clip n bs) ≡ clip n bs
unfolding take_bytes clip
take_bytes-clip n [] = refl
take_bytes-clip zero (b ∷ bs) = ap (λ t. 0 ∷ t) (take_bytes-zeros bs (0 ∷ clip 0 bs))
take_bytes-clip (suc n) (b ∷ bs) = ap (λ t. b ∷ t) (take_bytes-clip n bs)

-- The packet of a frame with eight data bytes, received from the remote address, becomes a
-- standard data frame with the frame's id modulo 2^16, its length or 8 if that is less, its data
-- bytes below the length, and zeros from there on.
pub receive-packet_of :
    (f : Frame)
    → length f.data_bytes ≡ 8
    → receive true (packet_of f)
      ≡ some (record {
        id = f.id % 65536;
        is_extended = false;
        is_remote_request = false;
        dlc = min f.dlc 8;
        data_bytes = clip (min f.dlc 8) f.data_bytes;
      })
unfolding receive packet_of
receive-packet_of f h =
    let n = min f.dlc 8 in
    let payload = rw h at (take_bytes-clip n f.data_bytes) in
    ground (arith, payload, length-clip n f.data_bytes, h)

bytes_at : (rx : List ℕ) (i : ℕ) → All (λ b. b < 256) rx → get_or rx i 0 < 256
bytes_at [] i h = omega arith
bytes_at (b ∷ rx) zero h = h.0
bytes_at (b ∷ rx) (suc i) h = bytes_at rx i h.1

take_bytes-All :
    (places n : ℕ) (rx : List ℕ)
    → All (λ b. b < 256) rx
    → All (λ b. b < 256) (take_bytes places n rx)
unfolding take_bytes
take_bytes-All zero n rx h = tt
take_bytes-All (suc places) zero rx h = (omega arith, take_bytes-All places zero rx h)
take_bytes-All (suc places) (suc n) [] h = (omega arith, take_bytes-All places n [] h)
take_bytes-All (suc places) (suc n) (b ∷ rx) h = (h.0, take_bytes-All places n rx h.1)

length-take_bytes : (places n : ℕ) (rx : List ℕ) → length (take_bytes places n rx) ≡ places
unfolding take_bytes
length-take_bytes zero n rx = refl
length-take_bytes (suc places) zero rx = ap suc (length-take_bytes places zero rx)
length-take_bytes (suc places) (suc n) [] = ap suc (length-take_bytes places n [])
length-take_bytes (suc places) (suc n) (b ∷ rx) = ap suc (length-take_bytes places n rx)

drop-All : (n : ℕ) (rx : List ℕ) → All (λ b. b < 256) rx → All (λ b. b < 256) (drop n rx)
unfolding drop
drop-All zero rx h = h
drop-All (suc n) [] h = tt
drop-All (suc n) (b ∷ rx) h = drop-All n rx h.1

-- Whatever bytes a packet has, a frame that it becomes is well formed: it came from the remote
-- address, its length is at most 8 and the packet holds that many data bytes, it has eight data
-- bytes, all of them bytes, and a standard id below 2^16.
pub receive-IsFrame :
    (from_remote : Bool) (rx : List ℕ) (f : Frame)
    → All (λ b. b < 256) rx
    → receive from_remote rx ≡ some f
    → (from_remote ≡ true)
      × (5 + f.dlc ≤ length rx)
      × (f.id < 65536)
      × (f.is_extended ≡ false)
      × IsFrame f
unfolding receive
receive-IsFrame from_remote rx f b h =
    let n = get_or rx 0 0 in
    let payload = take_bytes 8 n (drop 5 rx) in
    let made : Frame = record {
      id = get_or rx 3 0 * 256 + get_or rx 4 0;
      is_extended = false;
      is_remote_request = false;
      dlc = n;
      data_bytes = payload;
    } in
    let w : IsFrame made = record {
      eight = length-take_bytes 8 n (drop 5 rx);
      fits = ground (arith, h);
      bytes = take_bytes-All 8 n (drop 5 rx) (drop-All 5 rx b);
    } in
    let e : made ≡ f = ground (arith, h) in
    rw (sym e) (
      ground (arith, h),
      ground (arith, h),
      omega (arith, bytes_at rx 3 b, bytes_at rx 4 b),
      refl,
      w,
    )
