-- ===== src/Prelude/Word/Step.antt =====
-- How an operation that is computed digit by digit acts on the lowest digit; `&`, `|` and `^` are.
use Prim.Native.Nat.{
  bit_xor, bit_or, bit_and, differ, digits, max, min, ◌-◌, ◌+◌, ◌*◌, ◌/◌, ◌%◌, ◌≤◌, ◌<◌, ℕ, zero,
  suc, bit_xor-bitwise, bit_or-bitwise, bit_and-bitwise,
}
use native.Mathlib.Omega.{arith}
use mathlib.Core.Path.{◌≡◌, refl, ap, ◌∙◌}

module _ (rest : ℕ → ℕ) (digit : ℕ → ℕ → ℕ) (whole : ℕ → ℕ → ℕ)
    (computed : (x y : ℕ) → whole x y ≡ digits rest digit x x y)
    (rest_digit : (y : ℕ) → rest y ≡ rest (y / 2) * 2 + digit 0 (y % 2)) where
  one_more : (k x y : ℕ) → x ≤ k → digits rest digit (suc k) x y ≡ digits rest digit k x y
  one_more zero zero y le = refl
  one_more (suc k) zero y le = refl
  one_more zero (suc x) y le = absurd (omega arith)
  one_more (suc k) (suc x) y le = omega (arith, one_more k (suc x / 2) (y / 2) (omega arith))

  many_more : (d k x y : ℕ) → x ≤ k → digits rest digit (d + k) x y ≡ digits rest digit k x y
  many_more zero k x y le = ap (λ n. digits rest digit n x y) (omega arith)
  many_more (suc d) k x y le =
      ap (λ n. digits rest digit n x y) {y = suc (d + k)} (omega arith)
      ∙ one_more (d + k) x y (omega arith)
      ∙ many_more d k x y le

  lowest_digit : (x y : ℕ) → whole x y ≡ whole (x / 2) (y / 2) * 2 + digit (x % 2) (y % 2)
  lowest_digit zero y = omega (arith, computed zero y, computed zero (y / 2), rest_digit y)
  lowest_digit (suc x) y =
      let h = suc x / 2 in
      let fuel : x - h + h ≡ x = omega arith in
      let halves = ap (λ k. digits rest digit k h (y / 2)) fuel in
      let less = many_more (x - h) h h (y / 2) (omega arith) in
      omega (arith, computed (suc x) y, computed h (y / 2), halves, less)

differ_one : (y : ℕ) → y < 2 → differ 1 y ≡ (1 + y) % 2
differ_one zero p = refl
differ_one (suc y) p = let e : y ≡ 0 = omega arith in rw e refl

differ_is_sum : (x y : ℕ) → x < 2 → y < 2 → differ x y ≡ (x + y) % 2
differ_is_sum zero y p q = omega arith
differ_is_sum (suc x) y p q = let e : x ≡ 0 = omega arith in rw e (differ_one y q)

pub bit_and_digit : (x y : ℕ) → bit_and x y ≡ bit_and (x / 2) (y / 2) * 2 + min (x % 2) (y % 2)
bit_and_digit = lowest_digit (λ y. 0) min bit_and bit_and-bitwise (λ y. omega arith)

pub bit_or_digit : (x y : ℕ) → bit_or x y ≡ bit_or (x / 2) (y / 2) * 2 + max (x % 2) (y % 2)
bit_or_digit = lowest_digit (λ y. y) max bit_or bit_or-bitwise (λ y. omega arith)

pub bit_xor_digit : (x y : ℕ) → bit_xor x y ≡ bit_xor (x / 2) (y / 2) * 2 + (x % 2 + y % 2) % 2
bit_xor_digit x y =
    let low =
      lowest_digit (λ z. z) differ bit_xor bit_xor-bitwise
        (λ z. omega (arith, differ_is_sum 0 (z % 2))) x y in
    omega (arith, low, differ_is_sum (x % 2) (y % 2) (omega arith) (omega arith))
