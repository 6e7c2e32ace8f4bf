-- ===== src/Ipam/Allocator/Requests.antt =====
-- ipam/allocator.go: RequestPool and ReleasePool. Where no pool is named, the request tries one
-- predefined pool after another, with fuel for the rounds; writeToStore does nothing, and only a
-- predefined pool is refused with an error to retry, so that a request that names its pool has one round.
-- net.ParseCIDR and IPNet.String are parameters.
pub mod Default
use libnetwork.Prelude.{
  ℕ, zero, suc, Bool, true, false, not, ◌&&◌, Option, none, some, List, [], ◌∷◌, if◌then◌else◌,
}
use libnetwork.Prelude.Result.{Result, ok, err}
use libnetwork.Networkdb.Names.{Name, lookup, put}
use libnetwork.Bitseq.Handle.{Handle}
use libnetwork.Ipam.Net.{Ip, IpNet}
use libnetwork.Ipam.Keys.{SubnetKey}
use libnetwork.Ipam.Pools.{
  AddressRange, Subnets, PoolError, predefined_reserved, Effect, nothing, insert_bit_mask,
  destroy_bit_mask, update_pool_db_on_add, update_pool_db_on_removal,
}
use libnetwork.Ipam.Addresses.{AddressError, invalid_sub_pool, get_address_range}
use libnetwork.Ipam.Allocator.{
  Allocator, IpamError, of_address, of_pool, no_address_space, invalid_address_space, invalid_pool,
  unfinished, with_bit_mask, insert_mask, retrieve_bitmask,
}
use libnetwork.Ipam.Allocator.Defaults.{whole_key, get_predefined_pool}

abbrev pub PoolResult : Type 0
PoolResult = Allocator × Result IpamError (SubnetKey × IpNet)

is_empty : Name → Bool
is_empty [] = true
is_empty (c ∷ name) = false

inserted : Allocator → Result IpamError Allocator → Allocator × Result IpamError ℕ
inserted a (err e) = (a, err e)
inserted a (ok b) = (b, ok 0)

-- Destroy of a handle with no store does nothing, and the allocator keeps the handle.
destroyed : SubnetKey → Allocator → Result IpamError Handle → Allocator × Result IpamError ℕ
destroyed k a (err e) = (a, err e)
destroyed k a (ok h) = (with_bit_mask k h a, ok 0)

-- The call of the closure that is returned; the number stands for the nil error.
pub run_effect : Effect → Allocator → Allocator × Result IpamError ℕ
unfolding inserted destroyed
run_effect nothing a = (a, ok 0)
run_effect (insert_bit_mask k nw) a = inserted a (insert_mask k nw a)
run_effect (destroy_bit_mask k nw) a = destroyed k a (retrieve_bitmask k nw a)

-- The id and the network are returned with the error too.
pub with_pool : SubnetKey → IpNet → Allocator × Result IpamError ℕ → PoolResult
with_pool k nw (a, err e) = (a, err e)
with_pool k nw (a, ok n) = (a, ok (k, nw))

abbrev pub with_subnets : Name → Subnets → Allocator → Allocator
with_subnets as' s a = record a { addr_spaces = put as' s a.addr_spaces }

pool_added :
    (Allocator → PoolResult)
    → SubnetKey
    → IpNet
    → Allocator
    → Option (Result PoolError (Subnets × Effect))
    → PoolResult
unfolding with_pool run_effect
pool_added retry k nw a none = (a, err unfinished)
pool_added retry k nw a (some (err predefined_reserved)) = retry a
pool_added retry k nw a (some (err e)) = (a, err (of_pool e))
pool_added retry k nw a (some (ok (s, effect))) =
    with_pool k nw (run_effect effect (with_subnets k.address_space s a))

add_pool :
    (Allocator → PoolResult)
    → SubnetKey
    → IpNet
    → Option AddressRange
    → Bool
    → Allocator
    → Option Subnets
    → PoolResult
unfolding pool_added
add_pool retry k nw ipr pdf a none = (a, err no_address_space)
add_pool retry k nw ipr pdf a (some s) =
    pool_added retry k nw a (update_pool_db_on_add k nw ipr pdf s)

pool_removed :
    SubnetKey
    → Allocator
    → Option (Result PoolError (Subnets × Effect))
    → Allocator × Result IpamError ℕ
unfolding run_effect
pool_removed k a none = (a, err unfinished)
pool_removed k a (some (err e)) = (a, err (of_pool e))
pool_removed k a (some (ok (s, effect))) = run_effect effect (with_subnets k.address_space s a)

remove_pool : SubnetKey → Allocator → Option Subnets → Allocator × Result IpamError ℕ
unfolding pool_removed
remove_pool k a none = (a, err no_address_space)
remove_pool k a (some s) = pool_removed k a (update_pool_db_on_removal k s)

pub release_pool : SubnetKey → Allocator → Allocator × Result IpamError ℕ
unfolding remove_pool
release_pool k a = remove_pool k a (lookup k.address_space a.addr_spaces)

abbrev pub Request : Type 0
Request = SubnetKey × IpNet × Option AddressRange

range_of : Result AddressError AddressRange → Result IpamError (Option AddressRange)
range_of (err e) = err (of_address e)
range_of (ok r) = ok (some r)

module _ (net_string : IpNet → Name) (parse_cidr : Name → Option (Ip × IpNet)) where
  with_range :
      Name
      → Name
      → IpNet
      → Result IpamError (Option AddressRange)
      → Result IpamError (Option Request)
  with_range as' sub_pool nw (err e) = err e
  with_range as' sub_pool nw (ok ipr) =
      let k : SubnetKey = record {
        address_space = as';
        subnet = net_string nw;
        child_subnet = sub_pool;
      } in
      ok (some (k, nw, ipr))

  parsed : Name → Name → Option (Ip × IpNet) → Result IpamError (Option Request)
  unfolding with_range range_of
  parsed as' sub_pool none = err invalid_pool
  parsed as' sub_pool (some (ip, nw)) =
      with_range as' sub_pool nw (
        if is_empty sub_pool
        then ok none
        else range_of (get_address_range (parse_cidr sub_pool) nw))

  pub parse_pool_request : Name → Name → Name → Result IpamError (Option Request)
  unfolding parsed is_empty
  parse_pool_request as' pool sub_pool =
      if is_empty as'
      then err invalid_address_space
      else if is_empty pool && not (is_empty sub_pool)
      then err (of_address invalid_sub_pool)
      else if is_empty pool
      then ok none
      else parsed as' sub_pool (parse_cidr pool)

  default_found : (Allocator → PoolResult) → Name → Allocator × Result IpamError IpNet → PoolResult
  unfolding add_pool
  default_found retry as' (a, err e) = (a, err e)
  default_found retry as' (a, ok nw) =
      add_pool retry (whole_key net_string as' nw) nw none true a (lookup as' a.addr_spaces)

  request_default : ℕ → Name → Bool → Allocator → PoolResult
  unfolding default_found
  request_default zero as' v6 a = (a, err unfinished)
  request_default (suc fuel) as' v6 a =
      default_found (λ b. request_default fuel as' v6 b) as'
        (get_predefined_pool net_string as' v6 a)

  requested : ℕ → Name → Bool → Allocator → Result IpamError (Option Request) → PoolResult
  unfolding request_default
  requested fuel as' v6 a (err e) = (a, err e)
  requested fuel as' v6 a (ok none) = request_default fuel as' v6 a
  requested fuel as' v6 a (ok (some (k, nw, ipr))) =
      add_pool (λ b. (b, err unfinished)) k nw ipr false a (lookup as' a.addr_spaces)

  pub request_pool : ℕ → Name → Name → Name → Bool → Allocator → PoolResult
  unfolding requested
  request_pool fuel as' pool sub_pool v6 a =
      requested fuel as' v6 a (parse_pool_request as' pool sub_pool)
