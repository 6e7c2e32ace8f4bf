-- ===== src/Ipam/Allocator.antt =====
-- ipam/allocator.go: the allocator, whose address spaces have no datastore, so that refresh and
-- writeToStore do nothing. The calls here take the key that the id of a pool is read into, as Ids does; the options of
-- a request are read as the flag that they set.
pub mod Sizes
pub mod Addresses
pub mod Trip
pub mod Defaults
pub mod Requests
pub mod Ids
use libnetwork.Prelude.{
  ℕ, zero, suc, ◌+◌, ◌-◌, ◌*◌, ◌/◌, ◌%◌, ◌^◌, Bool, true, false, not, ◌&&◌, ◌||◌, Option, none,
  some, List, [], ◌∷◌, ◌==◌, if◌then◌else◌, length, ltb, leb, take, drop, ◌++◌,
}
use libnetwork.Prelude.Word.{u64, sub64}
use libnetwork.Prelude.Result.{Result, ok, err, ◌>>=◌}
use libnetwork.Networkdb.Names.{Name, same, lookup, put as put_name}
use libnetwork.Bitseq.Sequence.{Error, bit_allocated, no_bit_available}
use libnetwork.Bitseq.Handle.{Handle, new_handle, set_any, set_any_in_range, set_bit, unset_bit}
use libnetwork.Ipam.Net.{Ip, IpNet, to4, has_ip}
use libnetwork.Ipam.Keys.{SubnetKey, find, put}
use libnetwork.Ipam.Pools.{
  AddressRange, PoolData, Subnets, PoolError, Effect, nothing, insert_bit_mask, destroy_bit_mask,
  update_pool_db_on_add, update_pool_db_on_removal,
}
use libnetwork.Ipam.Addresses.{
  AddressError, get_host_part_ip, get_minimal_ip, ip_to_uint64, generate_address,
}

pub data IpamError : Type 0 where
  no_available_ips ip_already_allocated ip_out_of_range : IpamError
  -- "cannot find address space", "cannot find address pool", "invalid address: nil"
  no_address_space no_address_pool nil_address : IpamError
  of_address : AddressError → IpamError
  of_bitmask : Error → IpamError
  of_pool : PoolError → IpamError
  -- "no default pool available for non-default address spaces", "could not find an available,
  -- non-overlapping address pool among the defaults", ErrInvalidAddressSpace, ErrInvalidPool
  no_default_space no_default_pool invalid_address_space invalid_pool : IpamError
  -- "invalid pool id"
  invalid_pool_id : IpamError
  -- a nil dereference, and a loop that still runs
  nil_dereference unfinished : IpamError

pub record Allocator : Type 0 where
  pub addr_spaces : List (Name × Subnets)
  pub addresses : List (SubnetKey × Handle)
  pub predefined : List (Name × List IpNet)
  pub predefined_start_indices : List (Name × ℕ)

-- The leading ones of a byte of a mask, `none` where a one follows a zero.
byte_ones : ℕ → ℕ → Option ℕ
byte_ones zero m = if m == 0 then some 0 else none
byte_ones (suc bits) m =
    if ltb m 128
    then if m == 0 then some 0 else none
    else elim (byte_ones bits (m * 2 % 256)) [ none ↦ none | some n ↦ some (suc n) ]

all_zero : List ℕ → Bool
all_zero [] = true
all_zero (m ∷ mask) = m == 0 && all_zero mask

-- The ones of a mask by its first byte, what is counted of the others, and whether they are all zero.
mask_from : Bool → Option ℕ → Bool → ℕ → Option ℕ
mask_from true none zeros m = none
mask_from true (some n) zeros m = some (8 + n)
mask_from false rest true m = byte_ones 8 m
mask_from false rest false m = none

-- The ones of a mask, as IPMask.Size counts them, which gives two zeros for a mask that is no prefix.
mask_ones : List ℕ → Option ℕ
unfolding mask_from
mask_ones [] = some 0
mask_ones (m ∷ mask) = mask_from (m == 255) (mask_ones mask) (all_zero mask) m

-- bits - ones
pub host_size : List ℕ → ℕ
unfolding mask_ones
host_size mask = elim (mask_ones mask) [ none ↦ 0 | some ones ↦ 8 * length mask - ones ]

pub is_v4 : Ip → Bool
is_v4 ip = elim (to4 ip) [ none ↦ false | some short ↦ true ]

pub num_addresses : IpNet → ℕ
unfolding is_v4
num_addresses pool =
    let n = u64 (2 ^ host_size pool.mask) in if not (is_v4 pool.ip) && n == 0 then sub64 n 1 else n

-- The first and, for IPv4, the last address are not to be handed out; the results of Set are dropped.
pub reserve_ends : IpNet → ℕ → Handle → Handle
unfolding is_v4
reserve_ends pool n h =
    let h' = (set_bit 0 none h).0 in if is_v4 pool.ip then (set_bit (sub64 n 1) none h').0 else h'

reserved : IpNet → ℕ → Result Error Handle → Result IpamError Handle
unfolding reserve_ends
reserved pool n (err e) = err (of_bitmask e)
reserved pool n (ok h) = ok (reserve_ends pool n h)

-- The bitmask of insertBitMask.
pub new_bit_mask : IpNet → Result IpamError Handle
unfolding reserved
new_bit_mask pool = reserved pool (num_addresses pool) (new_handle (num_addresses pool) none)

abbrev pub with_bit_mask : SubnetKey → Handle → Allocator → Allocator
with_bit_mask k h a = record a { addresses = put k h a.addresses }

pub insert_mask : SubnetKey → IpNet → Allocator → Result IpamError Allocator
unfolding new_bit_mask
insert_mask k pool a = new_bit_mask pool >>= λ h. ok (with_bit_mask k h a)

bitmask_or_new : IpNet → Option Handle → Result IpamError Handle
unfolding new_bit_mask
bitmask_or_new pool (some h) = ok h
bitmask_or_new pool none = new_bit_mask pool

pub retrieve_bitmask : SubnetKey → IpNet → Allocator → Result IpamError Handle
unfolding bitmask_or_new
retrieve_bitmask k pool a = bitmask_or_new pool (find k a.addresses)

-- What the errors of the bitmask become.
taken_address : IpNet → Handle × Result Error ℕ → Handle × Result IpamError Ip
taken_address nw (h, ok o) = (h, ok (generate_address o nw))
taken_address nw (h, err bit_allocated) = (h, err ip_already_allocated)
taken_address nw (h, err no_bit_available) = (h, err no_available_ips)
taken_address nw (h, err e) = (h, err (of_bitmask e))

preferred : IpNet → Handle → Result AddressError Ip → Handle × Result IpamError Ip
unfolding taken_address
preferred nw h (err e) = (h, err (of_address e))
preferred nw h (ok host) = taken_address nw (set_bit (ip_to_uint64 (get_minimal_ip host)) none h)

chosen : IpNet → Handle → Option Ip → Option AddressRange → Bool → Handle × Result IpamError Ip
unfolding preferred
chosen nw h (some pref) ipr serial = preferred nw h (get_host_part_ip pref nw.mask)
chosen nw h none none serial = taken_address nw (set_any serial none h)
chosen nw h none (some r) serial = taken_address nw (set_any_in_range r.start r.end serial none h)

-- getAddress
pub get_address :
    IpNet → Handle → Option Ip → Option AddressRange → Bool → Handle × Result IpamError Ip
unfolding chosen
get_address nw h pref ipr serial =
    if h.unselected == 0 then (h, err no_available_ips) else chosen nw h pref ipr serial

-- The pool that a pool is a part of, through the keys of the parents; a key that is missing is a nil
-- dereference. The fuel is for a part of a pool and the pool.
unfoldable pub owner : ℕ → SubnetKey → PoolData → Subnets → Result IpamError (SubnetKey × PoolData)
owner zero k c s = err unfinished
owner (suc fuel) k c s = elim c.range [
  | none ↦ ok (k, c)
  | some r ↦ elim (find c.parent_key s) [
    | none ↦ err nil_dereference
    | some parent ↦ owner fuel c.parent_key parent s
  ]
]

abbrev pub owner_fuel : ℕ
owner_fuel = 2

pub stored_address :
    SubnetKey → Allocator → Handle × Result IpamError Ip → Allocator × Result IpamError Ip
stored_address k a (h, r) = (with_bit_mask k h a, r)

request_from :
    PoolData
    → Option Ip
    → Bool
    → Allocator
    → SubnetKey
    → Result IpamError Handle
    → Allocator × Result IpamError Ip
unfolding stored_address get_address
request_from p pref serial a k (err e) = (a, err e)
request_from p pref serial a k (ok h) =
    stored_address k a (get_address p.pool h pref p.range serial)

request_owned :
    PoolData
    → Option Ip
    → Bool
    → Allocator
    → Result IpamError (SubnetKey × PoolData)
    → Allocator × Result IpamError Ip
unfolding request_from
request_owned p pref serial a (err e) = (a, err e)
request_owned p pref serial a (ok (k, c)) =
    request_from p pref serial a k (retrieve_bitmask k c.pool a)

-- prefAddress != nil && !p.Pool.Contains(prefAddress)
unfoldable pub outside : IpNet → Option Ip → Bool
outside nw none = false
outside nw (some ip) = not (has_ip nw ip)

request_found :
    SubnetKey
    → Option Ip
    → Bool
    → Allocator
    → Subnets
    → Option PoolData
    → Allocator × Result IpamError Ip
unfolding request_owned owner outside
request_found k pref serial a s none = (a, err no_address_pool)
request_found k pref serial a s (some p) =
    if outside p.pool pref
    then (a, err ip_out_of_range)
    else request_owned p pref serial a (owner owner_fuel k p s)

request_space :
    SubnetKey → Option Ip → Bool → Allocator → Option Subnets → Allocator × Result IpamError Ip
unfolding request_found
request_space k pref serial a none = (a, err no_address_space)
request_space k pref serial a (some s) = request_found k pref serial a s (find k s)

-- The address that RequestAddress returns, which carries the mask of the pool.
pub request_address : SubnetKey → Option Ip → Bool → Allocator → Allocator × Result IpamError Ip
unfolding request_space
request_address k pref serial a =
    request_space k pref serial a (lookup k.address_space a.addr_spaces)

pub unset_result : SubnetKey → Allocator → Handle × Result Error ℕ → Allocator × Result IpamError ℕ
unset_result k a (h, ok o) = (with_bit_mask k h a, ok o)
unset_result k a (h, err e) = (with_bit_mask k h a, err (of_bitmask e))

release_from : Ip → Allocator → SubnetKey → Result IpamError Handle → Allocator × Result IpamError ℕ
unfolding unset_result
release_from host a k (err e) = (a, err e)
release_from host a k (ok h) = unset_result k a (unset_bit (ip_to_uint64 host) none h)

release_owned :
    Result AddressError Ip
    → Allocator
    → Result IpamError (SubnetKey × PoolData)
    → Allocator × Result IpamError ℕ
unfolding release_from
release_owned host a (err e) = (a, err e)
release_owned (err e) a (ok (k, c)) = (a, err (of_address e))
release_owned (ok host) a (ok (k, c)) = release_from host a k (retrieve_bitmask k c.pool a)

release_in : SubnetKey → PoolData → Option Ip → Allocator → Subnets → Allocator × Result IpamError ℕ
unfolding release_owned owner
release_in k p none a s = (a, err nil_address)
release_in k p (some ip) a s =
    if has_ip p.pool ip
    then release_owned (get_host_part_ip ip p.pool.mask) a (owner owner_fuel k p s)
    else (a, err ip_out_of_range)

release_pool_found :
    SubnetKey → Option Ip → Allocator → Subnets → Option PoolData → Allocator × Result IpamError ℕ
unfolding release_in
release_pool_found k ip a s none = (a, err no_address_pool)
release_pool_found k ip a s (some p) = release_in k p ip a s

release_space : SubnetKey → Option Ip → Allocator → Option Subnets → Allocator × Result IpamError ℕ
unfolding release_pool_found
release_space k ip a none = (a, err no_address_space)
release_space k ip a (some s) = release_pool_found k ip a s (find k s)

-- The number in the result stands for the nil error.
pub release_address : SubnetKey → Option Ip → Allocator → Allocator × Result IpamError ℕ
unfolding release_space
release_address k ip a = release_space k ip a (lookup k.address_space a.addr_spaces)
