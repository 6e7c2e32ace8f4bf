-- ===== src/Prelude/Word.antt =====
-- Machine words: wrap-around of `uint64` and `uint32`, and the single bits of a `uint32` block under
-- Go's `|`, `&` and `&^`.
mod Step
pub mod Bits
use Prim.Native.Nat.{ℕ, zero, suc, ◌+◌, ◌-◌, ◌/◌, ◌%◌, ◌^◌, bit_and, bit_xor}

abbrev pub u64 : ℕ → ℕ
u64 n = n % 2 ^ 64

abbrev pub u32 : ℕ → ℕ
u32 n = n % 2 ^ 32

-- a - b on uint64; `-` on ℕ stops at 0, so the modulus is added first.
abbrev pub sub64 : ℕ → ℕ → ℕ
sub64 a b = u64 (a + 2 ^ 64 - b)

abbrev pub max_u32 : ℕ
max_u32 = 2 ^ 32 - 1

-- x >> k
abbrev pub shr : ℕ → ℕ → ℕ
shr x k = x / 2 ^ k

-- Go's `a &^ m` on uint32: the bits of `a` that the mask `m` does not have.
abbrev pub and_not32 : ℕ → ℕ → ℕ
and_not32 a m = bit_and a (bit_xor m max_u32)

-- The bit of weight 2 ^ j, as 0 or 1.
abbrev pub bit_of : ℕ → ℕ → ℕ
bit_of n zero = n % 2
bit_of n (suc j) = bit_of (n / 2) j
