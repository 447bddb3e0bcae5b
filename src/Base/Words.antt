-- ===== src/Base/Words.antt =====
-- Fixed-width words as native numbers: the wrap-around is written out.
use Prim.Native.Nat.{ℕ, ◌+◌, ◌-◌, ◌*◌, ◌%◌, ◌^◌, bit_and, bit_and-bitwise}
use mathlib.Core.Path.{◌≡◌}
use native.Mathlib.Omega.{arith}

-- `uint32_t` addition, subtraction and multiplication.
abbrev pub add32 : ℕ → ℕ → ℕ
add32 a b = (a + b) % 2 ^ 32

abbrev pub sub32 : ℕ → ℕ → ℕ
sub32 a b = (a + (2 ^ 32 - b)) % 2 ^ 32

abbrev pub mul32 : ℕ → ℕ → ℕ
mul32 a b = a * b % 2 ^ 32

-- `uint16_t` addition and subtraction.
abbrev pub add16 : ℕ → ℕ → ℕ
add16 a b = (a + b) % 2 ^ 16

abbrev pub sub16 : ℕ → ℕ → ℕ
sub16 a b = (a + (2 ^ 16 - b)) % 2 ^ 16

-- Masks whose constant stands first compute: the recursion is on the constant's digits.
pub and-one : (x : ℕ) → bit_and 1 x ≡ x % 2
and-one x = omega (arith, bit_and-bitwise 1 x)

pub and-three : (x : ℕ) → bit_and 3 x ≡ x % 4
and-three x = omega (arith, bit_and-bitwise 3 x)
