-- ===== src/Base/Word.antt =====
-- The machine words of the program: u8_t and u32_t are numbers below a bound, and a cast to s32_t
-- reads a u32_t as an integer.
use Prim.Native.Nat.{ℕ, ◌+◌, ◌-◌, ◌%◌}
use mathlib.Core.Bool.{Bool}
use aodv.Base.Tests.{ltb, if◌then◌else◌}
use aodv.Base.Int.{ℤ, pos, negsuc, ltb_ℤ, leb_ℤ}

abbrev pub u8_mod : ℕ
u8_mod = 256

abbrev pub u32_mod : ℕ
u32_mod = 4294967296

abbrev pub to_u8 : ℕ → ℕ
to_u8 n = n % u8_mod

abbrev pub to_u32 : ℕ → ℕ
to_u32 n = n % u32_mod

-- a - b on u32_t.
abbrev pub sub_u32 : ℕ → ℕ → ℕ
sub_u32 a b = (a + u32_mod - b % u32_mod) % u32_mod

-- (s32_t)x for a u32_t x.
abbrev pub to_s32 : ℕ → ℤ
to_s32 x = if ltb x 2147483648 then pos x else negsuc (4294967295 - x)

-- (u32_t)z for an integer of any width.
abbrev pub of_ℤ : ℤ → ℕ
of_ℤ (pos n) = n % u32_mod
of_ℤ (negsuc n) = (u32_mod - 1) - n % u32_mod

-- (s32_t)a < (s32_t)b and (s32_t)a <= (s32_t)b.
abbrev pub s32_lt : ℕ → ℕ → Bool
s32_lt a b = ltb_ℤ (to_s32 a) (to_s32 b)

abbrev pub s32_le : ℕ → ℕ → Bool
s32_le a b = leb_ℤ (to_s32 a) (to_s32 b)
