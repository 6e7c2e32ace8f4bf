-- ===== src/Ipam/Pools/Held.antt =====
-- What an address space promises: the pools that have been requested and not yet released.
use libnetwork.Prelude.{ℕ, zero, suc, ◌≡◌, ◌≢◌, Option, none, some, List, [], ◌∷◌, if◌then◌else◌}
use libnetwork.Prelude.Int.{pos}
use libnetwork.Ipam.Net.{IpNet}
use libnetwork.Ipam.Keys.{SubnetKey, master_of, same_key, find}
use libnetwork.Ipam.Pools.{AddressRange, PoolData, Subnets, master_data, child_data}

-- How often a key is held.
abbrev pub held_count : SubnetKey → List SubnetKey → ℕ
held_count k [] = 0
held_count k (h ∷ held) = if same_key h k then suc (held_count k held) else held_count k held

-- How many of the held pools are a pool or a part of it.
abbrev pub use_count : SubnetKey → List SubnetKey → ℕ
use_count m [] = 0
use_count m (h ∷ held) =
    if same_key (master_of h) m then suc (use_count m held) else use_count m held

-- The held pools after the release of one.
abbrev pub released : SubnetKey → List SubnetKey → List SubnetKey
released k [] = []
released k (h ∷ held) = if same_key h k then held else h ∷ released k held

-- A pool in use has its data, with the count of its users.
abbrev pub MasterAt : ℕ → Option PoolData → Type 0
MasterAt zero o = o ≡ none
MasterAt (suc n) o = (nw : IpNet) × (o ≡ some (master_data nw (pos (suc n))))

-- A part of a pool is held at most once.
abbrev pub ChildAt : SubnetKey → ℕ → Option PoolData → Type 0
ChildAt k zero o = o ≡ none
ChildAt k (suc zero) o = (nw : IpNet) × (r : AddressRange) × (o ≡ some (child_data k nw r))
ChildAt k (suc (suc n)) o = ⊥

-- The map holds the pools that are in use, and nothing else.
pub record IsHeld (held : List SubnetKey) (s : Subnets) : Type 0 where
  pub masters : (k : SubnetKey) → k.child_subnet ≡ [] → MasterAt (use_count k held) (find k s)
  pub children : (k : SubnetKey) → k.child_subnet ≢ [] → ChildAt k (held_count k held) (find k s)
  pub unnamed : (k : SubnetKey) → k.address_space ≡ [] → use_count k held ≡ 0
