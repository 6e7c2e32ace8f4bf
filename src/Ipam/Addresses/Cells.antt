-- ===== src/Ipam/Addresses/Cells.antt =====
-- types/types.go and ipam/utils.go, byte by byte: the addresses of a network given by a prefix.
use libnetwork.Prelude.{
  ℕ, zero, suc, ◌+◌, ◌-◌, ◌*◌, ◌/◌, ◌%◌, ◌^◌, ◌≤◌, ◌<◌, ◌≡◌, ◌⊎◌, refl, sym, Bool-cases, ap, ◌∙◌,
  Bool, true, ◌&&◌, List, [], ◌∷◌, arith, length, map, ◌==◌, ==_iff, inl, inr, subst,
}
use libnetwork.Ipam.Net.{IpNet, agree}
use libnetwork.Ipam.Addresses.{not_byte, clear_masked, add_int_to_ip}
use libnetwork.Ipam.Addresses.Digits.{ordinal_bytes, pow_add, big_endian-ordinal_bytes, pow-eight}
use native.Mathlib.Nat.{mul-add-div_right, mul-add-mod_self_right, div-eq_of_lt, mod-eq_of_lt}
use Prim.Native.Nat.{bit_and, bit_or}

-- A byte of a network: the bits of the network, and how many bits of the byte are the host's.
pub record Cell : Type 0 where
  pub high : ℕ
  pub host_bits : ℕ

abbrev pub ip_byte : Cell → ℕ
ip_byte c = c.high * 2 ^ c.host_bits

abbrev pub mask_byte : Cell → ℕ
mask_byte c = 256 - 2 ^ c.host_bits

abbrev pub network : List Cell → IpNet
network cells = record { ip = map ip_byte cells; mask = map mask_byte cells }

abbrev pub IsCell : Cell → Type 0
IsCell c = (c.host_bits ≤ 8) × (c.high < 2 ^ (8 - c.host_bits))

-- The bits of the host are the last ones.
abbrev pub AllHost : List Cell → Type 0
AllHost [] = Unit
AllHost (c ∷ cells) = IsCell c × (c.host_bits ≡ 8) × AllHost cells

abbrev pub IsPrefixed : List Cell → Type 0
IsPrefixed [] = Unit
IsPrefixed (c ∷ cells) = IsCell c × (((c.host_bits ≡ 0) × IsPrefixed cells) ⊎ AllHost cells)

abbrev pub host_bits_of : List Cell → ℕ
host_bits_of [] = 0
host_bits_of (c ∷ cells) = c.host_bits + host_bits_of cells

-- Whether a test passes on every number under a bound.
passes : (ℕ → Bool) → ℕ → Bool
passes test zero = true
passes test (suc last) = passes test last && test last

passes_at :
    (test : ℕ → Bool) (bound : ℕ) → passes test bound ≡ true → {i : ℕ} → i < bound → test i ≡ true
unfolding passes
passes_at test zero all under = absurd (omega arith)
passes_at test (suc last) all {i} under = elim (Bool-cases (i == last)) [
  | inl here ↦ let is : i ≡ last = (==_iff i last).0 here in rw is (ground (arith, all))
  | inr below ↦ passes_at test last (ground (arith, all)) (ground (arith, ==_iff i last))
]

-- What holds of a byte with the network's bits `hi` and the host's bits `x`.
byte_test : ℕ → ℕ → ℕ → Bool
byte_test k hi x =
    let b = bit_or (hi * 2 ^ k) x in
    let m : ℕ = 256 - 2 ^ k in bit_and b (not_byte m) == x && bit_and (hi * 2 ^ k) m == bit_and b m

byte_table : passes (λ k. passes (λ v. byte_test k (v / 2 ^ k) (v % 2 ^ k)) 256) 9 ≡ true
unfolding passes byte_test
byte_table = refl

byte_split :
    (k hi x : ℕ) → x < 2 ^ k → ((hi * 2 ^ k + x) / 2 ^ k ≡ hi) × ((hi * 2 ^ k + x) % 2 ^ k ≡ x)
byte_split k hi x lt =
    let positive : 0 < 2 ^ k = omega arith in
    (
      mul-add-div_right positive hi x ∙ (rw (div-eq_of_lt lt) (omega arith)),
      mul-add-mod_self_right hi (2 ^ k) x ∙ mod-eq_of_lt lt,
    )

byte_fits : (k hi x : ℕ) → k ≤ 8 → hi < 2 ^ (8 - k) → x < 2 ^ k → hi * 2 ^ k + x < 256
byte_fits k hi x le h lt =
    let whole : 2 ^ (8 - k) * 2 ^ k ≡ 256 =
      sym (pow_add (8 - k) k) ∙ ap (λ e. 2 ^ e) (let e : 8 - k + k ≡ 8 = omega arith in e) in
    grind (arith, whole)

byte_holds : (k hi x : ℕ) → k ≤ 8 → hi < 2 ^ (8 - k) → x < 2 ^ k → byte_test k hi x ≡ true
byte_holds k hi x le h lt =
    let v = hi * 2 ^ k + x in
    let (high_is, low_is) = byte_split k hi x lt in
    let row =
      passes_at (λ k. passes (λ v. byte_test k (v / 2 ^ k) (v % 2 ^ k)) 256) 9 byte_table {i = k}
        (omega arith) in
    let cell : byte_test k (v / 2 ^ k) (v % 2 ^ k) ≡ true =
      passes_at (λ v. byte_test k (v / 2 ^ k) (v % 2 ^ k)) 256 row {i = v}
        (byte_fits k hi x le h lt) in
    subst (λ a. byte_test k a x ≡ true) high_is
      (subst (λ b. byte_test k (v / 2 ^ k) b ≡ true) low_is cell)

pub host_byte :
    (c : Cell) (x : ℕ)
    → IsCell c
    → x < 2 ^ c.host_bits
    → bit_and (bit_or (ip_byte c) x) (not_byte (mask_byte c)) ≡ x
unfolding byte_test
host_byte c x (le, h) lt = ground (
  arith,
  byte_holds c.host_bits c.high x le h lt,
  ==_iff (bit_and (bit_or (ip_byte c) x) (not_byte (mask_byte c))) x,
)

pub network_byte :
    (c : Cell) (x : ℕ)
    → IsCell c
    → x < 2 ^ c.host_bits
    → (bit_and (ip_byte c) (mask_byte c) == bit_and (bit_or (ip_byte c) x) (mask_byte c)) ≡ true
unfolding byte_test
network_byte c x (le, h) lt = ground (arith, byte_holds c.host_bits c.high x le h lt)

-- Bytes that lie within the host's bits.
abbrev pub Fits : List Cell → List ℕ → Type 0
Fits [] [] = Unit
Fits [] (x ∷ xs) = ⊥
Fits (c ∷ cells) [] = ⊥
Fits (c ∷ cells) (x ∷ xs) = IsCell c × (x < 2 ^ c.host_bits) × Fits cells xs

-- The address of the network with these bytes of the host.
abbrev pub address : List Cell → List ℕ → List ℕ
address (c ∷ cells) (x ∷ xs) = bit_or (ip_byte c) x ∷ address cells xs
address cells xs = []

pub add_int_to_ip-network :
    (cells : List Cell) (o : ℕ)
    → add_int_to_ip (map ip_byte cells) o
      ≡ (address cells (ordinal_bytes (length cells) o).0, (ordinal_bytes (length cells) o).1)
unfolding add_int_to_ip
add_int_to_ip-network [] o = refl
add_int_to_ip-network (c ∷ cells) o = rw (add_int_to_ip-network cells o) refl

pub clear_masked-address :
    (cells : List Cell) (xs : List ℕ)
    → Fits cells xs
    → clear_masked (address cells xs) (map mask_byte cells) ≡ xs
unfolding clear_masked
clear_masked-address [] [] f = refl
clear_masked-address [] (x ∷ xs) f = absurd f
clear_masked-address (c ∷ cells) [] f = absurd f
clear_masked-address (c ∷ cells) (x ∷ xs) (is, lt, f) =
    rw (host_byte c x is lt, clear_masked-address cells xs f) refl

pub agree-address :
    (cells : List Cell) (xs : List ℕ)
    → Fits cells xs
    → agree (map ip_byte cells) (map mask_byte cells) (address cells xs) ≡ true
unfolding agree
agree-address [] [] f = refl
agree-address [] (x ∷ xs) f = absurd f
agree-address (c ∷ cells) [] f = absurd f
agree-address (c ∷ cells) (x ∷ xs) (is, lt, f) =
    rw (network_byte c x is lt, agree-address cells xs f) refl

pub length-address :
    (cells : List Cell) (xs : List ℕ) → Fits cells xs → length (address cells xs) ≡ length cells
length-address [] xs f = refl
length-address (c ∷ cells) [] f = absurd f
length-address (c ∷ cells) (x ∷ xs) (is, lt, f) = ap suc (length-address cells xs f)

pub length-map {ℓ} : {A : Type ℓ} (f : A → ℕ) (xs : List A) → length (map f xs) ≡ length xs
length-map f [] = refl
length-map f (x ∷ xs) = ap suc (length-map f xs)

AllHost-bits : (cells : List Cell) → AllHost cells → host_bits_of cells ≡ 8 * length cells
AllHost-bits [] h = refl
AllHost-bits (c ∷ cells) (is, e, h) = omega (arith, AllHost-bits cells h)

lt_of_mul-lt : (q k p : ℕ) → q * p < k * p → q < k
lt_of_mul-lt q k p h = grind arith

-- What is left of an ordinal below a power of two.
rest-lt : (n k o : ℕ) → o < 2 ^ (k + 8 * n) → (ordinal_bytes n o).1 < 2 ^ k
rest-lt n k o lt =
    let whole : 2 ^ (k + 8 * n) ≡ 2 ^ k * 256 ^ n =
      pow_add k (8 * n) ∙ ap (λ p. 2 ^ k * p) (pow-eight n) in
    lt_of_mul-lt (ordinal_bytes n o).1 (2 ^ k) (256 ^ n)
      (omega (arith, whole, big_endian-ordinal_bytes n o))

Fits-all :
    (cells : List Cell) (o : ℕ) → AllHost cells → Fits cells (ordinal_bytes (length cells) o).0
Fits-all [] o h = tt
Fits-all (c ∷ cells) o (is, e, h) = (is, rw e (omega arith), Fits-all cells o h)

-- An ordinal below the number of addresses of a network lies within the host's bits.
pub Fits-ordinal_bytes :
    (cells : List Cell) (o : ℕ)
    → IsPrefixed cells
    → o < 2 ^ host_bits_of cells
    → Fits cells (ordinal_bytes (length cells) o).0 × ((ordinal_bytes (length cells) o).1 ≡ 0)
Fits-ordinal_bytes [] o p lt = (tt, omega arith)
Fits-ordinal_bytes (c ∷ cells) o (is, inl (e, p)) lt =
    let (fits, zero_rest) = Fits-ordinal_bytes cells o p (
      subst (λ k. o < 2 ^ k)
        (let s : c.host_bits + host_bits_of cells ≡ host_bits_of cells = omega arith in s) lt) in
    ((is, rw (zero_rest, e) (omega arith), fits), rw zero_rest refl)
Fits-ordinal_bytes (c ∷ cells) o (is, inr h) lt =
    let small =
      rest-lt (length cells) c.host_bits o
        (subst (λ k. o < 2 ^ (c.host_bits + k)) (AllHost-bits cells h) lt) in
    let (le, high) = is in
    let few = byte_fits c.host_bits 0 (2 ^ c.host_bits - 1) le (omega arith) (omega arith) in
    ((is, omega (arith, small), Fits-all cells o h), omega (arith, small, few))
