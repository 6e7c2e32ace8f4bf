-- ===== src/Prelude/Word/Bits.antt =====
-- Single bits under `&`, `|`, `^` and `&^`, at every width.
use Prim.Native.Nat.{
  ℕ, zero, suc, ◌+◌, ◌-◌, ◌*◌, ◌/◌, ◌%◌, ◌^◌, ◌<◌, min, max, bit_and, bit_or, bit_xor,
  bit_and-bitwise,
}
use mathlib.Core.Path.{◌≡◌, refl, ap}
use mathlib.Core.Logic.{◌≢◌}
use native.Mathlib.Nat.{pow-suc, one-le-pow}
use native.Mathlib.Omega.{arith}
use libnetwork.Prelude.Word.{bit_of, and_not32}
use libnetwork.Prelude.Word.Step.{bit_and_digit, bit_or_digit, bit_xor_digit}

pub bit_of-lt : (n j : ℕ) → bit_of n j < 2
bit_of-lt n zero = omega arith
bit_of-lt n (suc j) = bit_of-lt (n / 2) j

pub bit_of-bit_and : (a b k : ℕ) → bit_of (bit_and a b) k ≡ min (bit_of a k) (bit_of b k)
bit_of-bit_and a b zero = omega (arith, bit_and_digit a b)
bit_of-bit_and a b (suc k) =
    let half : bit_and a b / 2 ≡ bit_and (a / 2) (b / 2) = omega (arith, bit_and_digit a b) in
    rw half (bit_of-bit_and (a / 2) (b / 2) k)

pub bit_of-bit_or : (a b k : ℕ) → bit_of (bit_or a b) k ≡ max (bit_of a k) (bit_of b k)
bit_of-bit_or a b zero = omega (arith, bit_or_digit a b)
bit_of-bit_or a b (suc k) =
    let half : bit_or a b / 2 ≡ bit_or (a / 2) (b / 2) = omega (arith, bit_or_digit a b) in
    rw half (bit_of-bit_or (a / 2) (b / 2) k)

pub bit_of-bit_xor : (a b k : ℕ) → bit_of (bit_xor a b) k ≡ (bit_of a k + bit_of b k) % 2
bit_of-bit_xor a b zero = omega (arith, bit_xor_digit a b)
bit_of-bit_xor a b (suc k) =
    let half : bit_xor a b / 2 ≡ bit_xor (a / 2) (b / 2) = omega (arith, bit_xor_digit a b) in
    rw half (bit_of-bit_xor (a / 2) (b / 2) k)

bit_of_zero : (k : ℕ) → bit_of 0 k ≡ 0
bit_of_zero zero = refl
bit_of_zero (suc k) = bit_of_zero k

pub bit_of-pow_self : (j : ℕ) → bit_of (2 ^ j) j ≡ 1
bit_of-pow_self zero = refl
bit_of-pow_self (suc j) =
    let half : 2 ^ suc j / 2 ≡ 2 ^ j = omega (arith, pow-suc 2 j) in rw half (bit_of-pow_self j)

pub bit_of-pow_ne : (j k : ℕ) → j ≢ k → bit_of (2 ^ j) k ≡ 0
bit_of-pow_ne zero zero h = absurd (h refl)
bit_of-pow_ne zero (suc k) h = bit_of_zero k
bit_of-pow_ne (suc j) zero h = omega (arith, pow-suc 2 j)
bit_of-pow_ne (suc j) (suc k) h =
    let half : 2 ^ suc j / 2 ≡ 2 ^ j = omega (arith, pow-suc 2 j) in
    rw half (bit_of-pow_ne j k (λ e. h (ap suc e)))

-- All bits below the width are set in 2 ^ w - 1.
pub bit_of_ones : (w k : ℕ) → k < w → bit_of (2 ^ w - 1) k ≡ 1
bit_of_ones zero k h = absurd (omega arith)
bit_of_ones (suc w) zero h = omega (arith, pow-suc 2 w, one-le-pow w 2)
bit_of_ones (suc w) (suc k) h =
    let half : (2 ^ suc w - 1) / 2 ≡ 2 ^ w - 1 = omega (arith, pow-suc 2 w, one-le-pow w 2) in
    rw half (bit_of_ones w k (omega arith))

-- Numbers below 2 ^ w with the same bits are equal.
pub bit_of_ext :
    (w a b : ℕ) → a < 2 ^ w → b < 2 ^ w → ((k : ℕ) → k < w → bit_of a k ≡ bit_of b k) → a ≡ b
bit_of_ext zero a b ha hb same = omega arith
bit_of_ext (suc w) a b ha hb same = omega (
  arith,
  same 0 (omega arith),
  bit_of_ext w (a / 2) (b / 2) (omega (arith, pow-suc 2 w)) (omega (arith, pow-suc 2 w))
      (λ k h. same (suc k) (omega arith)),
)

pub bit_or-lt : (w a b : ℕ) → a < 2 ^ w → b < 2 ^ w → bit_or a b < 2 ^ w
bit_or-lt zero a b ha hb =
    let e : a ≡ 0 = omega arith in let d : b ≡ 0 = omega arith in rw (e, d) (omega arith)
bit_or-lt (suc w) a b ha hb = omega (
  arith,
  pow-suc 2 w,
  bit_or_digit a b,
  bit_or-lt w (a / 2) (b / 2) (omega (arith, pow-suc 2 w)) (omega (arith, pow-suc 2 w)),
)

pub bit_and-lt : (w a b : ℕ) → a < 2 ^ w → bit_and a b < 2 ^ w
bit_and-lt zero a b ha = let e : a ≡ 0 = omega arith in rw (e, bit_and-bitwise 0 b) (omega arith)
bit_and-lt (suc w) a b ha = omega (
  arith,
  pow-suc 2 w,
  bit_and_digit a b,
  bit_and-lt w (a / 2) (b / 2) (omega (arith, pow-suc 2 w)),
)

bit_and-zero : (w a : ℕ) → a < 2 ^ w → bit_and a 0 ≡ 0
bit_and-zero zero a h = let e : a ≡ 0 = omega arith in rw e refl
bit_and-zero (suc w) a h =
    omega
      (arith, pow-suc 2 w, bit_and_digit a 0, bit_and-zero w (a / 2) (omega (arith, pow-suc 2 w)))

-- A mask of one bit reads that bit.
pub bit_and-pow : (w a j : ℕ) → a < 2 ^ w → bit_and a (2 ^ j) ≡ bit_of a j * 2 ^ j
bit_and-pow w a zero h = omega (arith, bit_and_digit a 1, bit_and-zero w (a / 2) (omega arith))
bit_and-pow w a (suc j) h =
    let half : 2 ^ suc j / 2 ≡ 2 ^ j = omega (arith, pow-suc 2 j) in
    let scaled : bit_of (a / 2) j * 2 ^ suc j ≡ bit_of (a / 2) j * 2 ^ j * 2 =
      rw (pow-suc 2 j) (grind arith) in
    omega (
      arith,
      pow-suc 2 j,
      scaled,
      bit_and_digit a (2 ^ suc j),
      ap (bit_and (a / 2)) half,
      bit_and-pow w (a / 2) j (omega arith),
    )

-- `&^` with a mask of one bit clears that bit and keeps the others.
pub bit_of-and_not32 :
    (a m k : ℕ) → k < 32 → bit_of (and_not32 a m) k ≡ min (bit_of a k) (1 - bit_of m k)
bit_of-and_not32 a m k h =
    rw (bit_of-bit_and a _ k, bit_of-bit_xor m _ k, bit_of_ones 32 k h)
      (omega (arith, bit_of-lt a k, bit_of-lt m k))
