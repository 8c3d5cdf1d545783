-- ===== src/MtRmd/RoundTrip.antt =====
-- What include/can_driver/MtRmdProtocol.h writes into a payload it reads back.
use old_car_can_driver.Prelude.{
  ℕ, ◌+◌, ◌*◌, ◌/◌, ◌%◌, ◌≤◌, ◌<◌, ◌≡◌, ap, ◌∙◌, List, arith, ◌==◌, if◌then◌else◌, length, get_or,
  set, length-set, get_or-set_self, get_or-set_ne,
}
use old_car_can_driver.Can.{Frame}
use old_car_can_driver.Prelude.Int.{ℤ, IsI32, to_u32, to_i32, to_i32-to_u32, to_u32-lt}
use old_car_can_driver.MtRmd.{
  word_at, write_uint16_le, write_uint32_le, write_int32_le, read_uint16_le, read_int32_le,
}

get_or-set :
    (xs : List ℕ) (i j v : ℕ)
    → i < length xs
    → get_or (set xs i v) j 0 ≡ (if i == j then v else get_or xs j 0)
get_or-set xs i j v h = ground (arith, get_or-set_self xs i v 0 h, get_or-set_ne xs i j v 0)

module _ (xs : List ℕ) (i a b c e : ℕ) (fits : i + 3 < length xs) where
  abbrev four : List ℕ
  four = set (set (set (set xs i a) (i + 1) b) (i + 2) c) (i + 3) e

  four_bytes :
      (get_or four i 0 ≡ a)
      × (get_or four (i + 1) 0 ≡ b)
      × (get_or four (i + 2) 0 ≡ c)
      × (get_or four (i + 3) 0 ≡ e)
  four_bytes = grind (arith, get_or-set, length-set)

-- Little-endian bytes of a word add up to it.
join_bytes :
    (w : ℕ)
    → w < 4294967296
    → w % 256 + w / 256 % 256 * 256 + w / 65536 % 256 * 65536 + w / 16777216 % 256 * 16777216 ≡ w
join_bytes w h = omega arith

word_at-write :
    (f : Frame) (i w : ℕ)
    → i + 3 < length f.data_bytes
    → w < 4294967296
    → word_at (write_uint32_le f i w) i ≡ w
unfolding write_uint32_le
word_at-write f i w fits small = omega (
  arith,
  join_bytes w small,
  four_bytes f.data_bytes i (w % 256) (w / 256 % 256) (w / 65536 % 256) (w / 16777216 % 256) fits,
)

two_bytes :
    (xs : List ℕ) (i a b : ℕ)
    → i + 1 < length xs
    → (get_or (set (set xs i a) (i + 1) b) i 0 ≡ a)
      × (get_or (set (set xs i a) (i + 1) b) (i + 1) 0 ≡ b)
two_bytes xs i a b fits = grind (arith, get_or-set, length-set)

-- A 16-bit value written at an index whose two bytes are within the frame's valid bytes is read
-- back unchanged.
pub read_uint16_le-write_uint16_le :
    (f : Frame) (i w : ℕ)
    → i + 1 < f.dlc
    → f.dlc ≤ length f.data_bytes
    → w < 65536
    → read_uint16_le (write_uint16_le f i w) i ≡ w
unfolding read_uint16_le write_uint16_le
read_uint16_le-write_uint16_le f i w valid fits small =
    ground (arith, two_bytes f.data_bytes i (w % 256) (w / 256 % 256))

read_valid : (f : Frame) (i : ℕ) → i + 3 < f.dlc → read_int32_le f i ≡ to_i32 (word_at f i)
unfolding read_int32_le
read_valid f i h = ground arith

pub to_i32-join_bytes :
    (v : ℤ)
    → IsI32 v
    → to_i32 (
        to_u32 v % 256
        + to_u32 v / 256 % 256 * 256
        + to_u32 v / 65536 % 256 * 65536
        + to_u32 v / 16777216 % 256 * 16777216)
      ≡ v
to_i32-join_bytes v range = ap to_i32 (join_bytes (to_u32 v) (to_u32-lt v)) ∙ to_i32-to_u32 v range

-- A signed 32-bit value written at an index whose four bytes are within the frame's valid bytes
-- is read back unchanged, negative values included.
pub read_int32_le-write_int32_le :
    (f : Frame) (i : ℕ) (v : ℤ)
    → i + 3 < f.dlc
    → f.dlc ≤ length f.data_bytes
    → IsI32 v
    → read_int32_le (write_int32_le f i v) i ≡ v
unfolding read_int32_le write_int32_le
read_int32_le-write_int32_le f i v valid fits range =
    read_valid (write_int32_le f i v) i valid
    ∙ ap to_i32 (word_at-write f i (to_u32 v) (omega arith) (to_u32-lt v))
    ∙ to_i32-to_u32 v range
