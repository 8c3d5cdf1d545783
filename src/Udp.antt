-- ===== src/Udp.antt =====
-- CAN frames in UDP packets: send, receiveLoop and the handlers of src/UdpCanTransport.cpp. What the
-- socket calls return is an argument. `H` is the type of a receive handler.
pub mod Packets
mod Examples
use old_car_can_driver.Prelude.{
  ℕ, zero, suc, ◌+◌, ◌/◌, ◌%◌, ◌*◌, min, Bool, false, not, ◌||◌, Option, none, some, List, [], ◌∷◌,
  map, ltb, ◌==◌, if◌then◌else◌, nat_eq, length, get_or,
}
use old_car_can_driver.Prelude.Map.{insert, erase}
use old_car_can_driver.Can.{Frame, SendResult, ok, backpressure, link_down, error}

-- The data bytes below the length, and zeros from there on.
unfoldable pub clip : ℕ → List ℕ → List ℕ
clip n [] = []
clip zero (b ∷ bs) = 0 ∷ clip zero bs
clip (suc n) (b ∷ bs) = b ∷ clip n bs

-- The packet of 13 bytes.
unfoldable pub packet_of : Frame → List ℕ
unfolding clip
packet_of f =
    let dlc = min f.dlc 8 in dlc ∷ 0 ∷ 0 ∷ f.id / 256 % 256 ∷ f.id % 256 ∷ clip dlc f.data_bytes

-- The errno of a failed sendto, as far as the code tells them apart: EAGAIN, EWOULDBLOCK and
-- ENOBUFS; ENETDOWN, ENODEV and ENETUNREACH; any other.
pub data Errno : Type 0 where
  busy unreachable other : Errno

pub record UdpCanTransport (H : Type 0) : Type 0 where
  pub initialized : Bool
  pub socket_open : Bool
  pub handlers : List (ℕ × H)
  pub next_handler_id : ℕ

-- The packet that is handed to sendto, and the result of the send when sendto says that it took so
-- many bytes.
unfoldable pub send :
    {H : Type 0} → Frame → ℕ → Errno → UdpCanTransport H → SendResult × Option (List ℕ)
unfolding packet_of
send f sent errno t = if not t.initialized || not t.socket_open then (link_down, none) else (
  (if sent == 13
      then ok
      else elim errno [ busy ↦ backpressure | unreachable ↦ link_down | other ↦ error ]),
  some (packet_of f),
)

-- `frame.data[i] = rx[5 + i]` for each i below the length, in an array of eight zeros.
unfoldable pub take_bytes : ℕ → ℕ → List ℕ → List ℕ
take_bytes zero n rx = []
take_bytes (suc places) zero rx = 0 ∷ take_bytes places zero rx
take_bytes (suc places) (suc n) [] = 0 ∷ take_bytes places n []
take_bytes (suc places) (suc n) (b ∷ rx) = b ∷ take_bytes places n rx

unfoldable pub drop : ℕ → List ℕ → List ℕ
drop zero bs = bs
drop (suc n) [] = []
drop (suc n) (b ∷ bs) = drop n bs

-- The frame of a received packet that has its bytes in `rx`; `from_remote` is what the comparison of
-- the sender's address with the remote one says.
unfoldable pub receive : Bool → List ℕ → Option Frame
unfolding take_bytes drop
receive from_remote rx =
    let dlc = get_or rx 0 0 in
    if ltb (length rx) 5 || not from_remote || ltb 8 dlc || ltb (length rx) (5 + dlc)
    then none
    else some (record {
      id = get_or rx 3 0 * 256 + get_or rx 4 0;
      is_extended = false;
      is_remote_request = false;
      dlc = dlc;
      data_bytes = take_bytes 8 dlc (drop 5 rx);
    })

-- An empty handler is not added; its id is 0.
unfoldable pub add_receive_handler :
    {H : Type 0} → Option H → UdpCanTransport H → ℕ × UdpCanTransport H
add_receive_handler none t = (0, t)
add_receive_handler (some h) t = (
  t.next_handler_id,
  record t {
    handlers = insert t.next_handler_id h t.handlers;
    next_handler_id = (t.next_handler_id + 1) % 18446744073709551616;
  },
)

unfoldable pub remove_receive_handler : {H : Type 0} → ℕ → UdpCanTransport H → UdpCanTransport H
remove_receive_handler id t = if id == 0 then t else record t { handlers = erase id t.handlers }

-- The handlers that a received frame is passed to.
abbrev pub dispatch_receive : {H : Type 0} → UdpCanTransport H → List H
dispatch_receive t = map (λ e. e.1) t.handlers
