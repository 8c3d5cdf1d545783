-- ===== src/SocketCan/Examples.antt =====
-- Concrete runs of the socket controller, and the theorems about src/SocketCanController.cpp at them.
use mathlib.Core.List.{Mem}
use old_car_can_driver.Prelude.{ℕ, min, ◌≡◌, refl, true, false, some, List, [], ◌∷◌, arith}
use old_car_can_driver.Can.{Frame, error}
use old_car_can_driver.SocketCan.{
  Opening, bytes, failed, net_down, other, nothing, frame_read, new_controller, initialize,
  shutdown, open_socket, bind_socket, send, sent, add_receive_handler, emplace,
  remove_receive_handler, dispatch_receive, receive_loop_turn, to_linux_can_frame,
  from_linux_can_frame, copy_bytes,
}
use old_car_can_driver.SocketCan.Frames.{from_linux_can_frame-to_linux_can_frame}
use old_car_can_driver.SocketCan.Lifetime.{
  Event, initializes, sends, adds, removes, turns, run, step, Life, initialize-Life,
}
use old_car_can_driver.SocketCan.Statistics.{counter, tally, counts_answers}
use old_car_can_driver.SocketCan.Handlers.{handler_is_called}

abbrev wide : Frame
wide = record {
  id = 0x10141;
  is_extended = true;
  is_remote_request = true;
  dlc = 9;
  data_bytes = 1 ∷ 2 ∷ 3 ∷ 4 ∷ 5 ∷ 6 ∷ 7 ∷ 8 ∷ [];
}

abbrev short : Frame
short = record wide { id = 0x141; is_extended = false; is_remote_request = false; dlc = 2 }

wide_id : (to_linux_can_frame wide).can_id ≡ 0xC0010141
unfolding to_linux_can_frame
wide_id = refl

short_arrives :
    (from_linux_can_frame (to_linux_can_frame short)).data_bytes
    ≡ 1 ∷ 2 ∷ 0 ∷ 0 ∷ 0 ∷ 0 ∷ 0 ∷ 0 ∷ []
unfolding from_linux_can_frame to_linux_can_frame copy_bytes
short_arrives = refl

from_linux_can_frame-to_linux_can_frame_example :
    from_linux_can_frame (to_linux_can_frame wide)
    ≡ record wide { dlc = min 9 8; data_bytes = copy_bytes 8 (min 9 8) wide.data_bytes }
from_linux_can_frame-to_linux_can_frame_example =
    from_linux_can_frame-to_linux_can_frame wide (omega arith)

abbrev opening : Opening
opening = record { socket = some 7; non_blocking = true; ifindex = 3; bound = true }

-- Opened twice, with a frame sent and one lost in between.
abbrev past : List (Event ℕ)
past =
    initializes "can0" false opening
    ∷ sends 5 wide (bytes 16)
    ∷ sends 6 wide (failed net_down)
    ∷ adds (some 20)
    ∷ initializes "can0" true opening
    ∷ []

abbrev further : List (Event ℕ)
further =
    adds (some 30)
    ∷ sends 7 wide (bytes 16)
    ∷ sends 8 wide (bytes 4)
    ∷ turns 9 nothing
    ∷ removes 2
    ∷ sends 9 short (failed other)
    ∷ []

initialize-Life_example :
    let r = initialize "can1" false (record opening { ifindex = 0 }) (run past new_controller) in
    Life (run past new_controller) × Life r.1 × (r.0 ≡ r.1.initialized)
initialize-Life_example = initialize-Life past "can1" false (record opening { ifindex = 0 })

counts_answers_example :
    let t = (initialize "can0" false opening (run past new_controller)).1 in
    counter error (run further t).stats ≡ tally error further t
unfolding run step initialize open_socket bind_socket shutdown send sent add_receive_handler emplace
    remove_receive_handler receive_loop_turn
counts_answers_example =
    counts_answers past further "can0" false opening error refl
      (refl, (refl, (refl, (refl, (refl, (refl, tt)))))) (omega arith)

-- It counted two errors.
two_errors :
    let t = (initialize "can0" false opening (run past new_controller)).1 in
    counter error (run further t).stats ≡ 2
unfolding run step initialize open_socket bind_socket shutdown send sent add_receive_handler emplace
    remove_receive_handler receive_loop_turn
two_errors = refl

handler_is_called_example :
    let f = from_linux_can_frame (to_linux_can_frame short) in
    let u = run further (add_receive_handler (some 40) (run past new_controller)).1 in
    (receive_loop_turn 10 (frame_read (to_linux_can_frame short)) u
      ≡ some (dispatch_receive f u, step (turns 10 (frame_read (to_linux_can_frame short))) u))
    × Mem {A = ℕ × Frame} (40, f) (dispatch_receive f u)
unfolding run step initialize open_socket bind_socket shutdown send sent add_receive_handler emplace
    remove_receive_handler receive_loop_turn
handler_is_called_example =
    handler_is_called past further 40 10 (to_linux_can_frame short) refl (omega arith)
      (refl, (refl, (refl, (refl, (refl, (refl, tt))))))
