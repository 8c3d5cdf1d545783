-- ===== src/MtRmd/Examples.antt =====
-- Concrete frames, and the theorems about include/can_driver/MtRmdProtocol.h at them.
use old_car_can_driver.Prelude.{◌≡◌, refl, false, [], ◌∷◌}
use old_car_can_driver.Can.{Frame, zero_bytes}
use old_car_can_driver.Prelude.Int.{negsuc}
use old_car_can_driver.MtRmd.{make_speed_closed_loop_frame}

-- make_speed_closed_loop_frame at -250: A2 00 00 00 06 FF FF FF.
speed_frame_bytes :
    (make_speed_closed_loop_frame 0x141 (negsuc 249)).data_bytes
    ≡ 0xA2 ∷ 0 ∷ 0 ∷ 0 ∷ 6 ∷ 255 ∷ 255 ∷ 255 ∷ []
unfolding make_speed_closed_loop_frame
speed_frame_bytes = refl

abbrev blank : Frame
blank = record {
  id = 0x141;
  is_extended = false;
  is_remote_request = false;
  dlc = 8;
  data_bytes = zero_bytes;
}
