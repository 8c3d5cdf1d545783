-- ===== src/Prelude/Int.antt =====
-- Signed integers over the native numbers, and the two's complement words of the C++ types.
use old_car_can_driver.Prelude.{ℕ, suc, ◌+◌, ◌-◌, ◌%◌, ◌≤◌, ◌<◌, ◌≡◌, arith, ltb, if◌then◌else◌}

-- `negsuc n` is -(n + 1).
pub data ℤ : Type 0 where
  pos : ℕ → ℤ
  negsuc : ℕ → ℤ

abbrev pub pos_part : ℤ → ℕ
pos_part (pos n) = n
pos_part (negsuc n) = 0

abbrev pub neg_part : ℤ → ℕ
neg_part (pos n) = 0
neg_part (negsuc n) = suc n

infix 50 ◌≤ℤ◌
abbrev pub ◌≤ℤ◌ : ℤ → ℤ → Type 0
a ≤ℤ b = pos_part a + neg_part b ≤ pos_part b + neg_part a

-- The magnitude of an integer.
abbrev pub magnitude : ℤ → ℕ
magnitude (pos n) = n
magnitude (negsuc n) = suc n

-- static_cast<std::uintW_t> of a signed value, and static_cast<std::intW_t> of a word.
abbrev pub to_u32 : ℤ → ℕ
to_u32 (pos n) = n % 4294967296
to_u32 (negsuc n) = 4294967295 - n % 4294967296

abbrev pub to_i32 : ℕ → ℤ
to_i32 w = if ltb w 2147483648 then pos w else negsuc (4294967295 - w)

abbrev pub to_i16 : ℕ → ℤ
to_i16 w = if ltb w 32768 then pos w else negsuc (65535 - w)

abbrev pub to_i8 : ℕ → ℤ
to_i8 w = if ltb w 128 then pos w else negsuc (255 - w)

-- The values of an int32_t.
abbrev pub IsI32 : ℤ → Type 0
IsI32 v = (negsuc 2147483647 ≤ℤ v) × (v ≤ℤ pos 2147483647)

pub to_i32-to_u32 : (v : ℤ) → IsI32 v → to_i32 (to_u32 v) ≡ v
to_i32-to_u32 (pos n) h = ground arith
to_i32-to_u32 (negsuc n) h = ground arith

pub to_u32-lt : (v : ℤ) → to_u32 v < 4294967296
to_u32-lt (pos n) = omega arith
to_u32-lt (negsuc n) = omega arith
