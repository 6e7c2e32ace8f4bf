-- ===== src/Ipam/Addresses.antt =====
-- ipam/utils.go, and of types/types.go the functions on addresses and masks that it uses: ordinals of a
-- network and the addresses that they stand for. A `for` loop over the bytes of an address is a
-- recursion on the list of its bytes.
pub mod Digits
pub mod Cells
pub mod Ordinals
use libnetwork.Prelude.{
  ℕ, zero, suc, ◌+◌, ◌-◌, ◌*◌, ◌/◌, ◌%◌, ◌^◌, Bool, true, false, ◌&&◌, Option, none, some, List, [],
  ◌∷◌, ◌++◌, ◌==◌, if◌then◌else◌, length, take, drop, replicate,
}
use libnetwork.Prelude.Word.{u64}
use libnetwork.Prelude.Result.{Result, ok, err, ◌>>=◌}
use libnetwork.Networkdb.Names.{is_prefix}
use libnetwork.Ipam.Net.{Ip, IpNet, to4, shortest}
use libnetwork.Ipam.Pools.{AddressRange}
use Prim.Native.Nat.{bit_and, bit_or, bit_xor}

pub data AddressError : Type 0 where
  -- "ip and mask are not compatible", ErrInvalidSubPool
  incompatible invalid_sub_pool : AddressError

-- GetMinimalIP
unfoldable pub get_minimal_ip : Ip → Ip
get_minimal_ip ip = shortest (to4 ip) ip

abbrev v4_in_v6_mask_prefix : List ℕ
v4_in_v6_mask_prefix = replicate 12 255

is_some {ℓ} : {A : Type ℓ} → Option A → Bool
is_some none = false
is_some (some a) = true

-- compareIPMask: the indexes at which the address and the mask begin.
compare_ip_mask : Ip → List ℕ → Result AddressError (ℕ × ℕ)
unfolding is_some
compare_ip_mask ip mask =
    let is : ℕ = if length ip == 16 && is_some (to4 ip) then 12 else 0 in
    let ms : ℕ =
      if length (drop is ip) == 4 && (length mask == 16 && is_prefix v4_in_v6_mask_prefix mask)
      then 12
      else 0 in
    if length (drop is ip) == length (drop ms mask) then ok (is, ms) else err incompatible

-- ^m on a byte
abbrev pub not_byte : ℕ → ℕ
not_byte m = bit_xor m 255

-- out[is+i] &= ^mask[ms+i]
unfoldable pub clear_masked : List ℕ → List ℕ → List ℕ
clear_masked (b ∷ bs) (m ∷ ms) = bit_and b (not_byte m) ∷ clear_masked bs ms
clear_masked bs ms = bs

-- out[is+i] |= ^mask[ms+i]
unfoldable pub set_unmasked : List ℕ → List ℕ → List ℕ
set_unmasked (b ∷ bs) (m ∷ ms) = bit_or b (not_byte m) ∷ set_unmasked bs ms
set_unmasked bs ms = bs

masked :
    (List ℕ → List ℕ → List ℕ) → Ip → List ℕ → Result AddressError (ℕ × ℕ) → Result AddressError Ip
masked loop ip mask (err e) = err e
masked loop ip mask (ok (is, ms)) = ok (take is ip ++ loop (drop is ip) (drop ms mask))

pub get_host_part_ip : Ip → List ℕ → Result AddressError Ip
unfolding masked compare_ip_mask clear_masked
get_host_part_ip ip mask = masked clear_masked ip mask (compare_ip_mask ip mask)

pub get_broadcast_ip : Ip → List ℕ → Result AddressError Ip
unfolding masked compare_ip_mask set_unmasked
get_broadcast_ip ip mask = masked set_unmasked ip mask (compare_ip_mask ip mask)

-- The loop of ipToUint64; a shift by 64 or more leaves 0, as the wrap-around does.
unfoldable pub sum_bytes : ℕ → List ℕ → ℕ
sum_bytes value [] = value
sum_bytes value (b ∷ bs) = sum_bytes (u64 (value + u64 (b * 2 ^ (8 * length bs)))) bs

pub ip_to_uint64 : Ip → ℕ
unfolding sum_bytes get_minimal_ip
ip_to_uint64 ip = sum_bytes 0 (get_minimal_ip ip)

-- addIntToIP, from the last byte to the first, with what is left of the ordinal.
unfoldable pub add_int_to_ip : List ℕ → ℕ → List ℕ × ℕ
add_int_to_ip [] ordinal = ([], ordinal)
add_int_to_ip (b ∷ bs) ordinal =
    let (done, rest) = add_int_to_ip bs ordinal in (bit_or b (rest % 256) ∷ done, rest / 256)

-- getAddressVersion says v4 where To4 gives an address, which is then what is copied.
pub generate_address : ℕ → IpNet → Ip
unfolding add_int_to_ip
generate_address ordinal nw =
    let address = take 16 (shortest (to4 nw.ip) nw.ip ++ replicate 16 0) in
    (add_int_to_ip (take (length nw.mask) address) ordinal).0

-- getAddressRange of what net.ParseCIDR made of the pool, `none` for its error.
pub get_address_range : Option (Ip × IpNet) → IpNet → Result AddressError AddressRange
get_address_range none master = err invalid_sub_pool
get_address_range (some (ip, nw)) master = do
  low ← get_host_part_ip nw.ip master.mask
  broadcast ← get_broadcast_ip nw.ip nw.mask
  high ← get_host_part_ip broadcast master.mask
  ok (record {
    sub = record nw { ip = ip };
    start = ip_to_uint64 (get_minimal_ip low);
    end = ip_to_uint64 (get_minimal_ip high);
  })
