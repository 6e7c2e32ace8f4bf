-- ===== src/Ipam/Allocator/Sizes.antt =====
-- ipam/allocator.go: insertBitMask, the size of a bitmask and what it reserves.
use libnetwork.Prelude.{
  ℕ, zero, suc, ◌+◌, ◌-◌, ◌*◌, ◌^◌, ◌≤◌, ◌<◌, ◌≡◌, refl, sym, ap, ◌∙◌, Bool, true, false, ◌||◌,
  List, [], ◌∷◌, arith, length, map, ◌==◌, ==_iff, inl, inr, none, some,
}
use libnetwork.Prelude.Word.{u64, sub64}
use libnetwork.Prelude.Result.{ok}
use libnetwork.Bitseq.Sequence.Mask.{is_set}
use libnetwork.Bitseq.Handle.{Handle, set_bit}
use libnetwork.Bitseq.Handle.Reserve.{IsHandle}
use libnetwork.Bitseq.Handle.Calls.{set_bit_cases}
use libnetwork.Bitseq.Handle.New.{new_handle-IsHandle}
use libnetwork.Ipam.Net.{Ip, to4}
use libnetwork.Ipam.Addresses.Cells.{
  Cell, IsPrefixed, AllHost, network, ip_byte, mask_byte, host_bits_of, length-map,
}
use libnetwork.Ipam.Allocator.{
  byte_ones, all_zero, mask_ones, mask_from, host_size, num_addresses, is_v4, reserve_ends,
  reserved, new_bit_mask,
}
use libnetwork.Ipam.Addresses.Digits.{pow_add}
use native.Mathlib.Nat.{pow-suc, one-le-pow}

-- The ones of each byte of a mask.
byte_ones_lem : (k : ℕ) → k ≤ 8 → byte_ones 8 (256 - 2 ^ k) ≡ some (8 - k)
unfolding byte_ones
byte_ones_lem zero h = refl
byte_ones_lem (suc zero) h = refl
byte_ones_lem (suc (suc zero)) h = refl
byte_ones_lem (suc (suc (suc zero))) h = refl
byte_ones_lem (suc (suc (suc (suc zero)))) h = refl
byte_ones_lem (suc (suc (suc (suc (suc zero))))) h = refl
byte_ones_lem (suc (suc (suc (suc (suc (suc zero)))))) h = refl
byte_ones_lem (suc (suc (suc (suc (suc (suc (suc zero))))))) h = refl
byte_ones_lem (suc (suc (suc (suc (suc (suc (suc (suc zero)))))))) h = refl
byte_ones_lem (suc (suc (suc (suc (suc (suc (suc (suc (suc k))))))))) h = absurd (omega arith)

all_zero_host : (cells : List Cell) → AllHost cells → all_zero (map mask_byte cells) ≡ true
unfolding all_zero
all_zero_host [] h = refl
all_zero_host (c ∷ cells) (is, e, h) = rw (e, all_zero_host cells h) refl

mask_ones_host : (cells : List Cell) → AllHost cells → mask_ones (map mask_byte cells) ≡ some 0
unfolding mask_ones
mask_ones_host [] h = refl
mask_ones_host (c ∷ cells) (is, e, h) =
    rw (e, all_zero_host cells h) (byte_ones_lem 8 (omega arith))

all_bits : (cells : List Cell) → AllHost cells → host_bits_of cells ≡ 8 * length cells
all_bits [] h = refl
all_bits (c ∷ cells) (is, e, h) = omega (arith, all_bits cells h)

-- Only a byte with no bit of the host is full.
full_byte : (k : ℕ) → (256 - 2 ^ k == 255) ≡ true → k ≡ 0
full_byte zero e = refl
full_byte (suc k) e = absurd (ground (arith, pow-suc 2 k, one-le-pow k 2))

pub host_bits-le : (cells : List Cell) → IsPrefixed cells → host_bits_of cells ≤ 8 * length cells
host_bits-le [] p = omega arith
host_bits-le (c ∷ cells) (is, inl (e, p)) = omega (arith, host_bits-le cells p)
host_bits-le (c ∷ cells) (is, inr h) = omega (arith, is.0, all_bits cells h)

mask_ones-network :
    (cells : List Cell)
    → IsPrefixed cells
    → mask_ones (map mask_byte cells) ≡ some (8 * length cells - host_bits_of cells)
unfolding mask_ones
mask_ones-network [] p = refl
mask_ones-network (c ∷ cells) (is, inl (e, p)) =
    rw (mask_ones-network cells p, e)
      (ap (λ n. some n)
        (let s : 8 + (8 * length cells - host_bits_of cells)
              ≡ 8 * suc (length cells) - (0 + host_bits_of cells) =
            omega (arith, host_bits-le cells p) in
          s))
mask_ones-network (c ∷ cells) (is, inr h) =
    rw (mask_ones_host cells h, all_zero_host cells h)
      (first (mask_byte c == 255) refl ∙ ap (λ n. some n) rest)
  where
    rest : 8 - c.host_bits ≡ 8 * suc (length cells) - (c.host_bits + host_bits_of cells)
    rest = omega (arith, all_bits cells h, is.0)

    first :
        (b : Bool)
        → (mask_byte c == 255) ≡ b
        → mask_from b (some 0) true (mask_byte c) ≡ some (8 - c.host_bits)
    first true e =
        ap (λ n. some n)
          (let s : 8 + 0 ≡ 8 - c.host_bits = omega (arith, full_byte c.host_bits e) in s)
    first false e = byte_ones_lem c.host_bits is.0

-- The size of a network's bitmask is the number of its addresses.
pub host_size-network :
    (cells : List Cell) → IsPrefixed cells → host_size (map mask_byte cells) ≡ host_bits_of cells
unfolding host_size
host_size-network cells p =
    rw (mask_ones-network cells p, host_size)
      (rw (length-map mask_byte cells) (omega (arith, host_bits-le cells p)))

pub pow-le : (k n : ℕ) → k ≤ n → 2 ^ k ≤ 2 ^ n
pow-le k n le =
    let whole : 2 ^ (n - k) * 2 ^ k ≡ 2 ^ n =
      sym (pow_add (n - k) k) ∙ ap (λ e. 2 ^ e) (let e : n - k + k ≡ n = omega arith in e) in
    let positive = one-le-pow (n - k) 2 in grind (arith, whole, positive)

to4_four : (ip : Ip) → length ip ≡ 4 → to4 ip ≡ some ip
unfolding to4
to4_four ip e = rw e refl

is_v4_four : (ip : Ip) → length ip ≡ 4 → is_v4 ip ≡ true
unfolding is_v4
is_v4_four ip e = rw (to4_four ip e, is_v4) refl

pub num_addresses-network :
    (cells : List Cell)
    → IsPrefixed cells
    → length cells ≡ 4
    → num_addresses (network cells) ≡ 2 ^ host_bits_of cells
unfolding num_addresses
num_addresses-network cells p four =
    let bits = host_bits-le cells p in
    let small = pow-le (host_bits_of cells) 32 (omega arith) in
    let fits : u64 (2 ^ host_bits_of cells) ≡ 2 ^ host_bits_of cells = omega arith in
    let size : length (map ip_byte cells) ≡ 4 = length-map ip_byte cells ∙ four in
    rw (host_size-network cells p, is_v4_four (map ip_byte cells) size) fits

-- Set of an ordinal of a handle, its result dropped, leaves the ordinal taken.
ensure_set :
    (o : ℕ) (h : Handle)
    → IsHandle h
    → o < h.bits
    → let g = (set_bit o none h).0 in
      IsHandle g × (g.bits ≡ h.bits) × ((j : ℕ) → is_set g.head j ≡ (j == o || is_set h.head j))
ensure_set o h v lt = elim (set_bit_cases o h v) [
  | inl (beyond, is) ↦ absurd (omega arith)
  | inr (inl (inside, taken, is)) ↦ rw is (v, refl, (λ j. ground (arith, taken, ==_iff j o)))
  | inr (inr (granted, w)) ↦ (w.valid, w.same_bits, (λ j. w.written j ∙ (ground arith)))
]

-- insertBitMask of an IPv4 network makes a bitmask with a bit for each address, of which the first and
-- the last are taken and no other.
pub new_bit_mask-network :
    (cells : List Cell)
    → IsPrefixed cells
    → length cells ≡ 4
    → let n = 2 ^ host_bits_of cells in
      (h : Handle) × (new_bit_mask (network cells) ≡ ok h)
      × IsHandle h
      × (h.bits ≡ n)
      × ((o : ℕ) → is_set h.head o ≡ (o == n - 1 || o == 0))
unfolding new_bit_mask reserved reserve_ends
new_bit_mask-network cells p four =
    let n = 2 ^ host_bits_of cells in
    let positive : 0 < n = one-le-pow (host_bits_of cells) 2 (omega arith) in
    let small = pow-le (host_bits_of cells) 32 (omega (arith, host_bits-le cells p)) in
    let size : length (map ip_byte cells) ≡ 4 = length-map ip_byte cells ∙ four in
    let last : sub64 n 1 ≡ n - 1 = omega arith in
    let (h, made, v, bits, u, free) = new_handle-IsHandle n positive (omega arith) in
    let (v1, bits1, set1) = ensure_set 0 h v (omega arith) in
    let h1 = (set_bit 0 none h).0 in
    let (v2, bits2, set2) = ensure_set (n - 1) h1 v1 (omega arith) in
    (
      (set_bit (n - 1) none h1).0,
      (rw (num_addresses-network cells p four, made, is_v4_four (map ip_byte cells) size, last)
          refl),
      v2,
      bits2 ∙ bits1 ∙ bits,
      (λ o. set2 o ∙ (rw (set1 o, free o) (ground arith))),
    )
