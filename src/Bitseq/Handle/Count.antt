-- ===== src/Bitseq/Handle/Count.antt =====
-- The number of clear bits, which a handle's `unselected` counts.
use libnetwork.Prelude.{
  ℕ, zero, suc, ◌+◌, ◌≤◌, ◌<◌, ◌≡◌, refl, ap, Bool, true, false, inl, inr, arith, ◌==◌,
  if◌then◌else◌, Bool-cases,
}

-- The number of `j < n` at which `f` is false.
unfoldable pub count_clear : ℕ → (ℕ → Bool) → ℕ
count_clear zero f = 0
count_clear (suc n) f = (if f n then 0 else 1) + count_clear n f

pub count_clear_ext :
    (n : ℕ) (f g : ℕ → Bool) → ((j : ℕ) → j < n → f j ≡ g j) → count_clear n f ≡ count_clear n g
unfolding count_clear
count_clear_ext zero f g h = refl
count_clear_ext (suc n) f g h =
    rw (h n (omega arith), count_clear_ext n f g (λ j lt. h j (omega arith)))

pub count_clear-le : (n : ℕ) (f : ℕ → Bool) → count_clear n f ≤ n
unfolding count_clear
count_clear-le zero f = omega arith
count_clear-le (suc n) f = ground (arith, count_clear-le n f)

unchanged :
    (n o : ℕ) (f g : ℕ → Bool) (b : Bool)
    → o ≡ n
    → ((j : ℕ) → g j ≡ (if j == o then b else f j))
    → (j : ℕ) → j < n
    → f j ≡ g j
unchanged n o f g b e h j l = ground (arith, h j)

-- Writing one bit that was clear takes one off the count, and one that was set adds one.
pub count_clear_write :
    (n o : ℕ) (f g : ℕ → Bool) (b : Bool)
    → o < n
    → ((j : ℕ) → g j ≡ (if j == o then b else f j))
    → (if b then 1 else 0) + count_clear n g ≡ (if f o then 1 else 0) + count_clear n f
unfolding count_clear
count_clear_write zero o f g b lt h = absurd (omega arith)
count_clear_write (suc n) o f g b lt h = elim (Bool-cases (o == n)) [
  | inl last ↦
      let e : o ≡ n = ground arith in
      ground (arith, h n, ap f e, count_clear_ext n f g (unchanged n o f g b e h))
  | inr other ↦ ground (arith, h n, count_clear_write n o f g b (ground arith) h)
]

-- No bit is clear exactly where the count is zero.
pub count_clear_zero : (n : ℕ) (f : ℕ → Bool) → count_clear n f ≡ 0 → (j : ℕ) → j < n → f j ≡ true
unfolding count_clear
count_clear_zero zero f h j lt = absurd (omega arith)
count_clear_zero (suc n) f h j lt = elim (Bool-cases (j == n)) [
  | inl last ↦ let e : j ≡ n = ground arith in ground (arith, ap f e)
  | inr other ↦ count_clear_zero n f (ground arith) j (ground arith)
]

pub count_clear_pos : (n o : ℕ) (f : ℕ → Bool) → o < n → f o ≡ false → 0 < count_clear n f
unfolding count_clear
count_clear_pos zero o f lt h = absurd (omega arith)
count_clear_pos (suc n) o f lt h = elim (Bool-cases (o == n)) [
  | inl last ↦ let e : o ≡ n = ground arith in ground (arith, ap f e)
  | inr other ↦ ground (arith, count_clear_pos n o f (ground arith) h)
]

-- All bits clear.
pub count_none : (n : ℕ) (f : ℕ → Bool) → ((j : ℕ) → f j ≡ false) → count_clear n f ≡ n
unfolding count_clear
count_none zero f h = refl
count_none (suc n) f h = rw (h n, count_none n f h) (omega arith)
