-- ===== src/Ipam/Addresses/Ordinals.antt =====
-- ipam/utils.go and types/types.go: the address of an ordinal, and the ordinal read back from it.
use libnetwork.Prelude.{
  ℕ, zero, suc, ◌*◌, ◌%◌, ◌^◌, ◌≤◌, ◌<◌, ◌≡◌, ◌⊎◌, refl, sym, ap, ◌∙◌, true, false, List, [], ◌∷◌,
  ◌++◌, arith, length, map, ==_iff, inl, inr, subst, take, replicate, none, Bool-cases,
}
use libnetwork.Prelude.Result.{ok}
use libnetwork.Networkdb.Names.{is_prefix}
use libnetwork.Ipam.Net.{Ip, IpNet, agree, to4, shortest, has_ip, number_and_mask, v4_prefix}
use libnetwork.Ipam.Addresses.{
  clear_masked, add_int_to_ip, generate_address, get_host_part_ip, compare_ip_mask, masked, is_some,
  ip_to_uint64, get_minimal_ip,
}
use libnetwork.Ipam.Addresses.Digits.{
  ordinal_bytes, big_endian, length-ordinal_bytes, big_endian-ordinal_bytes, sum_bytes-big_endian,
}
use libnetwork.Ipam.Addresses.Cells.{
  Cell, IsPrefixed, network, address, ip_byte, mask_byte, host_bits_of, Fits-ordinal_bytes,
  add_int_to_ip-network, clear_masked-address, agree-address, length-address, length-map,
}

take-take {ℓ} :
    {A : Type ℓ} (m : ℕ) (xs ys : List A)
    → length xs ≤ m
    → take (length xs) (take m (xs ++ ys)) ≡ xs
take-take m [] ys h = refl
take-take zero (x ∷ xs) ys h = absurd (omega arith)
take-take (suc m) (x ∷ xs) ys h = ap (λ zs. x ∷ zs) (take-take m xs ys (omega arith))

-- An address in the form that its version is written in: four bytes, or sixteen that are no IPv4 address.
abbrev pub IsPlain : Ip → Type 0
IsPlain ip = (length ip ≡ 4) ⊎ ((length ip ≡ 16) × (to4 ip ≡ none))

pub shortest_plain : (ip : Ip) → IsPlain ip → shortest (to4 ip) ip ≡ ip
unfolding to4 shortest
shortest_plain ip (inl four) = rw four refl
shortest_plain ip (inr (long, at)) = rw at refl

compare_plain :
    (ip : Ip) (mask : List ℕ)
    → IsPlain ip
    → length mask ≡ length ip
    → compare_ip_mask ip mask ≡ ok (0, 0)
unfolding compare_ip_mask is_some
compare_plain ip mask (inl four) e = ground (arith, four, e)
compare_plain ip mask (inr (long, at)) e = ground (arith, long, at, e)

pub get_host_part_ip-plain :
    (ip : Ip) (mask : List ℕ)
    → IsPlain ip
    → length mask ≡ length ip
    → get_host_part_ip ip mask ≡ ok (clear_masked ip mask)
unfolding get_host_part_ip masked
get_host_part_ip-plain ip mask p e = rw (compare_plain ip mask p e) refl

number_plain :
    (nw : IpNet)
    → IsPlain nw.ip
    → length nw.mask ≡ length nw.ip
    → number_and_mask nw nw.ip ≡ (nw.ip, nw.mask)
unfolding number_and_mask
number_plain nw (inl four) e = rw (e, four) refl
number_plain nw (inr (long, at)) e = rw (e, long) refl

has_ip-plain :
    (nw : IpNet) (ip : Ip)
    → IsPlain nw.ip
    → IsPlain ip
    → length nw.mask ≡ length nw.ip
    → length ip ≡ length nw.ip
    → has_ip nw ip ≡ agree nw.ip nw.mask ip
unfolding has_ip
has_ip-plain nw ip p q e l =
    rw (shortest_plain nw.ip p, shortest_plain ip q, number_plain nw p e, l)
      (rw ((==_iff (length nw.ip) (length nw.ip)).1 refl) refl)

pub generate_address-network :
    (cells : List Cell) (o : ℕ)
    → IsPlain (map ip_byte cells)
    → generate_address o (network cells) ≡ address cells (ordinal_bytes (length cells) o).0
unfolding generate_address
generate_address-network cells o p =
    let ip = map ip_byte cells in
    let small : length ip ≤ 16 = plain_small ip p in
    let base : take (length (map mask_byte cells)) (take 16 (ip ++ replicate 16 0)) ≡ ip =
      ap (λ n. take n (take 16 (ip ++ replicate 16 0)))
        (length-map mask_byte cells ∙ sym (length-map ip_byte cells))
      ∙ take-take 16 ip (replicate 16 0) small in
    let start : take (length (map mask_byte cells))
          (take 16 (shortest (to4 ip) ip ++ replicate 16 0))
        ≡ ip =
      rw (shortest_plain ip p) base in
    ap (λ a. (add_int_to_ip a o).0) start ∙ ap (λ r. r.0) (add_int_to_ip-network cells o)
  where
    plain_small : (ip : Ip) → IsPlain ip → length ip ≤ 16
    plain_small ip (inl four) = omega arith
    plain_small ip (inr (long, at)) = omega arith

-- The ordinal that bytes of the host are read as.
ip_to_uint64-plain :
    (ip : Ip) (o : ℕ) → IsPlain ip → big_endian ip ≡ o → o < 2 ^ 64 → ip_to_uint64 ip ≡ o
unfolding ip_to_uint64 get_minimal_ip
ip_to_uint64-plain ip o p e lt =
    rw (shortest_plain ip p, sum_bytes-big_endian 0 ip (omega arith), e) (omega arith)

big_endian_whole : (n o : ℕ) → (ordinal_bytes n o).1 ≡ 0 → big_endian (ordinal_bytes n o).0 ≡ o
big_endian_whole n o e = omega (arith, big_endian-ordinal_bytes n o, ap (λ q. q * 256 ^ n) e)

mapped_ordinal :
    (o : ℕ)
    → is_prefix v4_prefix (ordinal_bytes 16 o).0 ≡ true
    → ip_to_uint64 (ordinal_bytes 16 o).0 ≡ o % 2 ^ 32
unfolding ip_to_uint64 get_minimal_ip to4 shortest
mapped_ordinal o e =
    rw (e, sum_bytes-big_endian 0 (ordinal_bytes 4 o).0 (omega arith)) (omega arith)

-- What is read from the bytes of the host.
host_ordinal :
    (n o : ℕ)
    → (n ≡ 4) ⊎ (n ≡ 16)
    → (ordinal_bytes n o).1 ≡ 0
    → o < 2 ^ 64
    → let h = (ordinal_bytes n o).0 in
      (ip_to_uint64 h ≡ o)
      ⊎ ((n ≡ 16) × (is_prefix v4_prefix h ≡ true) × (ip_to_uint64 h ≡ o % 2 ^ 32))
unfolding to4
host_ordinal n o (inl four) e lt = inl (
    ip_to_uint64-plain (ordinal_bytes n o).0 o (inl (length-ordinal_bytes n o ∙ four))
      (big_endian_whole n o e) lt)
host_ordinal n o (inr long) e lt = elim (Bool-cases (is_prefix v4_prefix (ordinal_bytes n o).0)) [
  | inl mapped ↦ inr (
    long,
    mapped,
    subst (λ m. ip_to_uint64 (ordinal_bytes m o).0 ≡ o % 2 ^ 32) (sym long)
        (mapped_ordinal o
          (subst (λ m. is_prefix v4_prefix (ordinal_bytes m o).0 ≡ true) long mapped)),
  )
  | inr plain ↦
      let size = length-ordinal_bytes n o ∙ long in
      inl (
        ip_to_uint64-plain (ordinal_bytes n o).0 o
          (inr (size, not_v4 (ordinal_bytes n o).0 size plain)) (big_endian_whole n o e) lt)
]
  where
    not_v4 : (ip : Ip) → length ip ≡ 16 → is_prefix v4_prefix ip ≡ false → to4 ip ≡ none
    not_v4 ip size plain = ground (arith, size, plain)

-- A network of an IPv4 or IPv6 prefix, and an ordinal below its number of addresses and 2 ^ 64: the
-- address that generateAddress makes of the ordinal lies in the network, and ipToUint64 of its host
-- part is the ordinal again. Two things are left out or differ for IPv6: an address that is an IPv4
-- address in IPv6 form is left out, and a host part that is one is read as its last four bytes alone.
pub generate_address-ip_to_uint64 :
    (cells : List Cell) (o : ℕ)
    → IsPrefixed cells
    → IsPlain (map ip_byte cells)
    → o < 2 ^ host_bits_of cells
    → o < 2 ^ 64
    → IsPlain (generate_address o (network cells))
    → let nw = network cells in
      let a = generate_address o nw in
      (has_ip nw a ≡ true)
      × (h : Ip) × (get_host_part_ip a nw.mask ≡ ok h)
      × ((ip_to_uint64 h ≡ o)
          ⊎ ((length cells ≡ 16) × (is_prefix v4_prefix h ≡ true) × (ip_to_uint64 h ≡ o % 2 ^ 32)))
generate_address-ip_to_uint64 cells o prefixed plain lt word plain' =
    let n = length cells in
    let xs = (ordinal_bytes n o).0 in
    let (fits, whole) = Fits-ordinal_bytes cells o prefixed lt in
    let is = generate_address-network cells o plain in
    let plain_is : IsPlain (address cells xs) = subst (λ a. IsPlain a) is plain' in
    let sizes = length-address cells xs fits in
    let same_mask : length (map mask_byte cells) ≡ length (address cells xs) =
      length-map mask_byte cells ∙ sym sizes in
    rw is (
      has_ip-plain (network cells) (address cells xs) plain plain_is
            (length-map mask_byte cells ∙ sym (length-map ip_byte cells))
            (sizes ∙ sym (length-map ip_byte cells))
          ∙ agree-address cells xs fits,
      xs,
      get_host_part_ip-plain (address cells xs) (map mask_byte cells) plain_is same_mask
          ∙ ap (λ h. ok h) (clear_masked-address cells xs fits),
      host_ordinal n o (version n (map ip_byte cells) (length-map ip_byte cells) plain) whole word,
    )
  where
    version : (n : ℕ) (ip : Ip) → length ip ≡ n → IsPlain ip → (n ≡ 4) ⊎ (n ≡ 16)
    version n ip e (inl four) = inl (sym e ∙ four)
    version n ip e (inr (long, at)) = inr (sym e ∙ long)
