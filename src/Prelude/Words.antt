-- ===== src/Prelude/Words.antt =====
-- Unsigned machine words as native numbers: every operation writes its wrap-around out.
use Prim.Native.Nat.{ℕ, ◌+◌, ◌-◌, ◌%◌, ◌^◌, ◌<◌}
use mathlib.Core.Path.{◌≡◌}
use native.Mathlib.Omega.{arith}

-- `UINT32_MAX + 1`, and the same for 8 and 16 bits
abbrev pub u32_mod : ℕ
u32_mod = 2 ^ 32

abbrev pub u16_mod : ℕ
u16_mod = 2 ^ 16

abbrev pub u8_mod : ℕ
u8_mod = 2 ^ 8

abbrev pub u32_max : ℕ
u32_max = 2 ^ 32 - 1

-- `a + b` and `a - b` on `uint32_t`
abbrev pub add32 : ℕ → ℕ → ℕ
add32 a b = (a + b) % u32_mod

abbrev pub sub32 : ℕ → ℕ → ℕ
sub32 a b = (a + u32_mod - b) % u32_mod

-- Sums are associative also where they wrap.
pub add32_assoc : (a b c : ℕ) → add32 (add32 a b) c ≡ add32 a (add32 b c)
add32_assoc a b c = omega arith

pub add32_zero : (a : ℕ) → a < u32_mod → add32 0 a ≡ a
add32_zero a h = omega arith
