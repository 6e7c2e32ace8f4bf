-- ===== src/Ipam/Allocator/Defaults.antt =====
-- ipam/allocator.go: the predefined pools of the default address spaces. The text that IPNet.String
-- makes of a network is a parameter.
pub mod Choice
use libnetwork.Prelude.{
  ℕ, suc, ◌+◌, Bool, true, false, not, ◌||◌, Option, none, some, List, [], ◌∷◌, ◌++◌, if◌then◌else◌,
  length, leb, take, drop,
}
use libnetwork.Prelude.Result.{Result, ok, err}
use libnetwork.Networkdb.Names.{Name, same, lookup, put}
use libnetwork.Ipam.Net.{IpNet}
use libnetwork.Ipam.Keys.{SubnetKey, find}
use libnetwork.Ipam.Pools.{PoolData, Subnets, contains}
use libnetwork.Ipam.Allocator.{
  Allocator, IpamError, is_v4, no_address_space, no_default_space, no_default_pool,
}

-- "LocalDefault" and "GlobalDefault"
abbrev pub local_address_space : Name
local_address_space = 76 ∷ 111 ∷ 99 ∷ 97 ∷ 108 ∷ 68 ∷ 101 ∷ 102 ∷ 97 ∷ 117 ∷ 108 ∷ 116 ∷ []

abbrev pub global_address_space : Name
global_address_space = 71 ∷ 108 ∷ 111 ∷ 98 ∷ 97 ∷ 108 ∷ 68 ∷ 101 ∷ 102 ∷ 97 ∷ 117 ∷ 108 ∷ 116 ∷ []

-- What a missing key has: no networks, and the index 0.
networks : Option (List IpNet) → List IpNet
networks none = []
networks (some nws) = nws

index : Option ℕ → ℕ
index none = 0
index (some i) = i

unfoldable pub predefined_of : Name → Allocator → List IpNet
unfolding networks
predefined_of as' a = networks (lookup as' a.predefined)

start_index : Name → Allocator → ℕ
unfolding index
start_index as' a = index (lookup as' a.predefined_start_indices)

unfoldable pub get_predefineds : Name → Allocator → List IpNet
unfolding start_index
get_predefineds as' a =
    let p = predefined_of as' a in
    let i : ℕ = if leb (length p) (start_index as' a) then 0 else start_index as' a in
    drop i p ++ take i p

pub update_start_index : Name → ℕ → Allocator → Allocator
unfolding start_index
update_start_index as' amt a =
    let i = start_index as' a + amt in
    record a {
      predefined_start_indices =
          put as' (if leb (length (predefined_of as' a)) i then 0 else i)
            a.predefined_start_indices;
    }

unfoldable pub is_default : Name → Bool
is_default as' = same as' local_address_space || same as' global_address_space

missing : Option PoolData → Bool
missing none = true
missing (some p) = false

module _ (net_string : IpNet → Name) where
  abbrev pub whole_key : Name → IpNet → SubnetKey
  whole_key as' nw = record { address_space = as'; subnet = net_string nw; child_subnet = [] }

  -- What the body of the loop of getPredefinedPool asks of a pool.
  unfoldable pub is_usable : Name → Bool → Subnets → IpNet → Bool
  unfolding missing
  is_usable as' ip_v6 s nw =
      if (if ip_v6 then is_v4 nw.ip else not (is_v4 nw.ip))
      then false
      else if missing (find (whole_key as' nw) s)
      then not (contains as' nw s)
      else false

  -- The loop, with the index of the pool.
  first_usable : Name → Bool → Subnets → ℕ → List IpNet → Option (ℕ × IpNet)
  first_usable as' ip_v6 s i [] = none
  first_usable as' ip_v6 s i (nw ∷ nws) =
      let rest = first_usable as' ip_v6 s (suc i) nws in
      if is_usable as' ip_v6 s nw then some (i, nw) else rest

  pool_chosen : Name → Allocator → Option (ℕ × IpNet) → Allocator × Result IpamError IpNet
  pool_chosen as' a none = (a, err no_default_pool)
  pool_chosen as' a (some (i, nw)) = (update_start_index as' (i + 1) a, ok nw)

  choose_pool : Name → Bool → Allocator → Option Subnets → Allocator × Result IpamError IpNet
  unfolding pool_chosen first_usable
  choose_pool as' ip_v6 a none = (a, err no_address_space)
  choose_pool as' ip_v6 a (some s) =
      pool_chosen as' a (first_usable as' ip_v6 s 0 (get_predefineds as' a))

  pub get_predefined_pool : Name → Bool → Allocator → Allocator × Result IpamError IpNet
  unfolding choose_pool
  get_predefined_pool as' ip_v6 a =
      if is_default as'
      then choose_pool as' ip_v6 a (lookup as' a.addr_spaces)
      else (a, err no_default_space)
