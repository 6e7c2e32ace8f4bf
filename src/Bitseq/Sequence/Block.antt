-- ===== src/Bitseq/Sequence/Block.antt =====
-- bitseq/sequence.go, one block: the selector of a bit, the updated block, and the scan for a clear
-- bit. Bits of a block are counted from the most significant, as the source does.
use Prim.Native.Nat.{bit_and}
use libnetwork.Prelude.{
  ℕ, zero, suc, ◌-◌, ◌*◌, ◌/◌, ◌^◌, ◌<◌, ◌≡◌, refl, Bool, true, false, not, arith, ltb, ◌==◌,
  ==_iff, if◌then◌else◌, inl, inr, Bool-cases,
}
use libnetwork.Prelude.Word.{shr, bit_of}
use libnetwork.Prelude.Word.Bits.{
  bit_of-lt, bit_of-bit_or, bit_of-and_not32, bit_of-pow_self, bit_of-pow_ne, bit_of_ones,
  bit_of_ext, bit_or-lt, bit_and-lt, bit_and-pow,
}
use native.Mathlib.Nat.{one-le-pow}
use libnetwork.Bitseq.Sequence.{block_first_bit, block_max, updated_block}

-- A test that is run on all numbers below a bound.
unfoldable pub every : (ℕ → Bool) → ℕ → Bool
every test zero = true
every test (suc last) = if test last then every test last else false

pub every_holds :
    (test : ℕ → Bool) (bound : ℕ) → every test bound ≡ true → (i : ℕ) → i < bound → test i ≡ true
unfolding every
every_holds test zero ran i inside = absurd (omega arith)
every_holds test (suc last) ran i inside = elim (Bool-cases (i == last)) [
  | inl same ↦ let e : i ≡ last = (==_iff _ _).0 same in rw e (ground (arith, ran))
  | inr other ↦ every_holds test last (ground (arith, ran)) i (ground arith)
]

selector_table : every (λ p. 2 ^ 31 / 2 ^ p == 2 ^ (31 - p)) 32 ≡ true
unfolding every
selector_table = refl

pub selector_pow : (p : ℕ) → p < 32 → shr block_first_bit p ≡ 2 ^ (31 - p)
selector_pow p h = (==_iff _ _).0 (every_holds _ 32 selector_table p h)

selector-lt_table : every (λ p. ltb (2 ^ (31 - p)) (2 ^ 32)) 32 ≡ true
unfolding every
selector-lt_table = refl

selector-lt : (p : ℕ) → p < 32 → 2 ^ (31 - p) < 2 ^ 32
selector-lt p h =
    ground (arith, every_holds (λ q. ltb (2 ^ (31 - q)) (2 ^ 32)) 32 selector-lt_table p h)

-- The bit at `p`, as the theorems read it.
abbrev pub bit_at : ℕ → ℕ → Bool
bit_at b p = bit_of b (31 - p) == 1

pub selector-pos : (p : ℕ) → 0 < 2 ^ (31 - p)
selector-pos p = omega (arith, one-le-pow (31 - p) 2)

bit-scaled : (v w : ℕ) → v < 2 → 0 < w → (v * w == 0) ≡ not (v == 1)
bit-scaled zero w hv hw = ground arith
bit-scaled (suc zero) w hv hw = ground arith
bit-scaled (suc (suc v)) w hv hw = absurd (omega arith)

-- `block & bitSel` is zero exactly where the bit is clear.
pub selected_iff :
    (b p : ℕ) → b < 2 ^ 32 → p < 32 → (bit_and b (shr block_first_bit p) == 0) ≡ not (bit_at b p)
selected_iff b p hb hp =
    rw (selector_pow p hp, bit_and-pow 32 b (31 - p) hb)
      (bit-scaled _ _ (bit_of-lt b (31 - p)) (selector-pos p))

selector-bit :
    (p q : ℕ) → p < 32 → q < 32 → bit_of (2 ^ (31 - p)) (31 - q) ≡ (if q == p then 1 else 0)
selector-bit p q hp hq = elim (Bool-cases (q == p)) [
  | inl same ↦ let e : q ≡ p = (==_iff q p).0 same in rw (same, e) (bit_of-pow_self (31 - p))
  | inr other ↦ rw other (bit_of-pow_ne (31 - p) (31 - q) (ground arith))
]

-- The update writes the one bit and keeps the others.
pub bit_at-updated_block :
    (b p q : ℕ) (release : Bool)
    → p < 32
    → q < 32
    → bit_at (updated_block b (shr block_first_bit p) release) q
      ≡ (if q == p then not release else bit_at b q)
bit_at-updated_block b p q true hp hq = rw (selector_pow p hp) (
    ground (
      arith,
      bit_of-and_not32 b (2 ^ (31 - p)) (31 - q),
      selector-bit p q hp hq,
      bit_of-lt b (31 - q),
    ))
bit_at-updated_block b p q false hp hq = rw (selector_pow p hp) (
    ground (
      arith,
      bit_of-bit_or b (2 ^ (31 - p)) (31 - q),
      selector-bit p q hp hq,
      bit_of-lt b (31 - q),
    ))

pub updated_block-lt :
    (b p : ℕ) (release : Bool)
    → b < 2 ^ 32
    → p < 32
    → updated_block b (shr block_first_bit p) release < 2 ^ 32
updated_block-lt b p true hb hp = bit_and-lt 32 b _ hb
updated_block-lt b p false hb hp = bit_or-lt 32 b _ hb (rw (selector_pow p hp) (selector-lt p hp))

-- Words with the same bits are the same.
pub bit_at_ext :
    (a b : ℕ) → a < 2 ^ 32 → b < 2 ^ 32 → ((p : ℕ) → p < 32 → bit_at a p ≡ bit_at b p) → a ≡ b
bit_at_ext a b ha hb same = bit_of_ext 32 a b ha hb λ k hk.
    let e : 31 - (31 - k) ≡ k = omega arith in
    let at : bit_at a (31 - k) ≡ bit_at b (31 - k) = same (31 - k) (omega arith) in
    let at' : (bit_of a k == 1) ≡ (bit_of b k == 1) = rw e at at in
    ground (arith, at', bit_of-lt a k, bit_of-lt b k)

pub bit_at_full : (p : ℕ) → bit_at block_max p ≡ true
bit_at_full p = rw (bit_of_ones 32 (31 - p) (omega arith))
