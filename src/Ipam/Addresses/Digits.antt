-- ===== src/Ipam/Addresses/Digits.antt =====
-- ipam/utils.go: the bytes of an ordinal, and their sum.
use libnetwork.Prelude.{
  ℕ, zero, suc, ◌+◌, ◌*◌, ◌/◌, ◌%◌, ◌^◌, ◌<◌, ◌≡◌, refl, ap, ◌∙◌, List, [], ◌∷◌, arith, length,
}
use libnetwork.Prelude.Word.{u64}
use libnetwork.Ipam.Addresses.{sum_bytes}
use native.Mathlib.Nat.{pow-suc}

-- The number that a list of bytes stands for, the first byte the highest.
abbrev pub big_endian : List ℕ → ℕ
big_endian [] = 0
big_endian (b ∷ bs) = b * 256 ^ length bs + big_endian bs

-- So many bytes of an ordinal, and what is left of it.
abbrev pub ordinal_bytes : ℕ → ℕ → List ℕ × ℕ
ordinal_bytes zero o = ([], o)
ordinal_bytes (suc n) o = let (bs, rest) = ordinal_bytes n o in ((rest % 256) ∷ bs, rest / 256)

pub length-ordinal_bytes : (n o : ℕ) → length (ordinal_bytes n o).0 ≡ n
length-ordinal_bytes zero o = refl
length-ordinal_bytes (suc n) o = ap suc (length-ordinal_bytes n o)

split_byte : (q p : ℕ) → q / 256 * (256 * p) + q % 256 * p ≡ q * p
split_byte q p =
    let whole : q ≡ q / 256 * 256 + q % 256 = omega arith in
    omega (arith, ap (λ (t : ℕ). t * p) whole)

pub big_endian-ordinal_bytes :
    (n o : ℕ) → (ordinal_bytes n o).1 * 256 ^ n + big_endian (ordinal_bytes n o).0 ≡ o
big_endian-ordinal_bytes zero o = omega arith
big_endian-ordinal_bytes (suc n) o =
    let (bs, rest) = ordinal_bytes n o in
    rw (pow-suc 256 n, length-ordinal_bytes n o)
      (omega (arith, split_byte (ordinal_bytes n o).1 (256 ^ n), big_endian-ordinal_bytes n o))

pub pow_add : (a b : ℕ) → 2 ^ (a + b) ≡ 2 ^ a * 2 ^ b
pow_add a zero = let whole : a + 0 ≡ a = omega arith in rw whole (omega arith)
pow_add a (suc b) =
    let next : a + suc b ≡ suc (a + b) = omega arith in
    rw (next, pow-suc 2 (a + b), pow-suc 2 b, pow_add a b) (omega arith)

pub pow-eight : (n : ℕ) → 2 ^ (8 * n) ≡ 256 ^ n
pow-eight zero = refl
pow-eight (suc n) =
    let next : 8 * suc n ≡ 8 * n + 8 = omega arith in
    rw (next, pow_add (8 * n) 8, pow-eight n, pow-suc 256 n) (omega arith)

pub sum_bytes-big_endian :
    (acc : ℕ) (bs : List ℕ) → acc < 2 ^ 64 → sum_bytes acc bs ≡ u64 (acc + big_endian bs)
unfolding sum_bytes
sum_bytes-big_endian acc [] h = omega arith
sum_bytes-big_endian acc (b ∷ bs) h =
    rw (pow-eight (length bs))
      (sum_bytes-big_endian (u64 (acc + u64 (b * 256 ^ length bs))) bs (omega arith) ∙ omega arith)
