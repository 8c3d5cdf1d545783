-- ===== src/Udp/Examples.antt =====
-- Concrete packets, and the theorems about src/UdpCanTransport.cpp at them.
use old_car_can_driver.Prelude.{◌%◌, min, ◌≡◌, refl, true, false, some, [], ◌∷◌}
use old_car_can_driver.Can.{Frame}
use old_car_can_driver.Udp.{clip, packet_of, receive}
use old_car_can_driver.Udp.Packets.{receive-packet_of}

abbrev speed : Frame
speed = record {
  id = 0x141;
  is_extended = false;
  is_remote_request = false;
  dlc = 8;
  data_bytes = 0xA2 ∷ 0 ∷ 0 ∷ 0 ∷ 1 ∷ 2 ∷ 3 ∷ 4 ∷ [];
}

speed_packet : packet_of speed ≡ 8 ∷ 0 ∷ 0 ∷ 1 ∷ 0x41 ∷ 0xA2 ∷ 0 ∷ 0 ∷ 0 ∷ 1 ∷ 2 ∷ 3 ∷ 4 ∷ []
unfolding packet_of
speed_packet = refl

-- An extended frame arrives as a standard one with the low half of its id.
extended_arrives :
    receive true (packet_of (record speed { id = 0x10141; is_extended = true })) ≡ some speed
unfolding receive packet_of
extended_arrives = refl

receive-packet_of_example :
    receive true (packet_of speed)
    ≡ some (record {
      id = 0x141 % 65536;
      is_extended = false;
      is_remote_request = false;
      dlc = min 8 8;
      data_bytes = clip (min 8 8) speed.data_bytes;
    })
receive-packet_of_example = receive-packet_of speed refl
