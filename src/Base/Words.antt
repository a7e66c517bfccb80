-- ===== src/Base/Words.antt =====
-- `u32` arithmetic: `+` and `-` wrap, `saturating_add` stops at the largest value.
use Prim.Native.Nat.{ℕ, ◌+◌, ◌-◌, ◌%◌, ◌≤◌, ◌<◌, min, max}
use mathlib.Core.Path.{◌≡◌}
use native.Mathlib.Omega.{arith}

abbrev pub u32_mod : ℕ
u32_mod = 4294967296

abbrev pub u32_max : ℕ
u32_max = 4294967295

unfoldable pub add32 : ℕ → ℕ → ℕ
add32 a b = (a + b) % 4294967296

unfoldable pub sub32 : ℕ → ℕ → ℕ
sub32 a b = (a + 4294967296 - b) % 4294967296

unfoldable pub saturating_add : ℕ → ℕ → ℕ
saturating_add a b = min (a + b) 4294967295

unfoldable pub saturating_sub : ℕ → ℕ → ℕ
saturating_sub a b = a - b

pub add32_fits : (a b : ℕ) → a + b < u32_mod → add32 a b ≡ a + b
unfolding add32
add32_fits a b h = omega arith

pub sub32_fits : (a b : ℕ) → b ≤ a → a < u32_mod → sub32 a b ≡ a - b
unfolding sub32
sub32_fits a b h k = omega arith

pub saturating_add_fits : (a b : ℕ) → a + b < u32_mod → saturating_add a b ≡ a + b
unfolding saturating_add
saturating_add_fits a b h = omega arith

pub saturating_add-le : (a b : ℕ) → saturating_add a b ≤ u32_max
unfolding saturating_add
saturating_add-le a b = omega arith

pub saturating_add-lt : (a b : ℕ) → a < u32_max → a < saturating_add a (max b 1)
unfolding saturating_add
saturating_add-lt a b h = omega arith

pub add32-le : (a b : ℕ) → add32 a b ≤ a + b
unfolding add32
add32-le a b = omega arith
