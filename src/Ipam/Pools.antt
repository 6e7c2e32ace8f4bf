-- ===== src/Ipam/Pools.antt =====
-- ipam/structures.go: the pools of an address space, updatePoolDBOnAdd and updatePoolDBOnRemoval. Of an
-- addrSpace the pools are kept; its id, scope and datastore do not change here. The closure that a call
-- returns is a value that says what it does. A loop over the keys of parents has fuel for the pool, its
-- parent and the key that is missing; `none` is a loop that still runs.
pub mod Held
pub mod Refine
pub mod Add
pub mod Remove
use libnetwork.Prelude.{
  ℕ, zero, suc, Bool, true, false, ◌&&◌, ◌||◌, Option, none, some, List, [], ◌∷◌, if◌then◌else◌,
}
use libnetwork.Prelude.Int.{ℤ, pos, succ, pred, is_zero}
use libnetwork.Prelude.Result.{Result, ok, err}
use libnetwork.Networkdb.Names.{Name, same}
use libnetwork.Ipam.Net.{IpNet, has_ip}
use libnetwork.Ipam.Keys.{SubnetKey, zero_key, master_of, find, put, remove}

pub record AddressRange : Type 0 where
  pub sub : IpNet
  pub start : ℕ
  pub end : ℕ

pub record PoolData : Type 0 where
  pub parent_key : SubnetKey
  pub pool : IpNet
  pub range : Option AddressRange
  pub ref_count : ℤ

-- subnets of an addrSpace
abbrev pub Subnets : Type 0
Subnets = List (SubnetKey × PoolData)

pub data PoolError : Type 0 where
  -- ErrPoolOverlap, ErrBadPool, and the MaskableError that a predefined pool is reserved
  pool_overlap bad_pool predefined_reserved : PoolError

-- What the returned closures do: nothing, insertBitMask, or Destroy of the bitmask of a pool.
pub data Effect : Type 0 where
  nothing : Effect
  insert_bit_mask : SubnetKey → IpNet → Effect
  destroy_bit_mask : SubnetKey → IpNet → Effect

abbrev pub loop_fuel : ℕ
loop_fuel = 3

-- incRefCount of the pool at a key, with the change of each count.
pub inc_ref_count : ℕ → (ℤ → ℤ) → SubnetKey → Subnets → Option Subnets
inc_ref_count zero delta k s = none
inc_ref_count (suc fuel) delta k s = elim (find k s) [
  | none ↦ some s
  | some c ↦
      inc_ref_count fuel delta c.parent_key (put k (record c { ref_count = delta c.ref_count }) s)
]

-- A pool that is part of no other.
abbrev pub master_data : IpNet → ℤ → PoolData
master_data nw n = record { parent_key = zero_key; pool = nw; range = none; ref_count = n }

abbrev pub child_data : SubnetKey → IpNet → AddressRange → PoolData
child_data k nw r = record {
  parent_key = master_of k;
  pool = nw;
  range = some r;
  ref_count = pos 1;
}

with_nothing : Option Subnets → Option (Result PoolError (Subnets × Effect))
with_nothing none = none
with_nothing (some s) = some (ok (s, nothing))

-- addrSpace.contains
pub contains : Name → IpNet → Subnets → Bool
contains space nw [] = false
contains space nw ((k, v) ∷ s) =
    ((same space k.address_space && same k.child_subnet [])
      && (has_ip nw v.pool.ip || has_ip v.pool nw.ip))
    || contains space nw s

add_to_parent :
    SubnetKey → IpNet → Subnets → Option PoolData → Option (Result PoolError (Subnets × Effect))
unfolding inc_ref_count with_nothing
add_to_parent parent nw s (some pp) = with_nothing (inc_ref_count loop_fuel succ parent s)
add_to_parent parent nw s none =
    some (ok (put parent (master_data nw (pos 1)) s, insert_bit_mask parent nw))

add_new :
    SubnetKey → IpNet → Option AddressRange → Subnets → Option (Result PoolError (Subnets × Effect))
unfolding add_to_parent contains
add_new k nw none s =
    if contains k.address_space nw s
    then some (err pool_overlap)
    else some (ok (put k (master_data nw (pos 1)) s, insert_bit_mask k nw))
add_new k nw (some r) s =
    let s' = put k (child_data k nw r) s in
    add_to_parent (master_of k) nw s' (find (master_of k) s')

add_found :
    SubnetKey
    → IpNet
    → Option AddressRange
    → Bool
    → Subnets
    → Option PoolData
    → Option (Result PoolError (Subnets × Effect))
unfolding add_new
add_found k nw ipr pdf s (some p) = some (err (if pdf then predefined_reserved else pool_overlap))
add_found k nw ipr pdf s none = add_new k nw ipr s

pub update_pool_db_on_add :
    SubnetKey
    → IpNet
    → Option AddressRange
    → Bool
    → Subnets
    → Option (Result PoolError (Subnets × Effect))
unfolding add_found
update_pool_db_on_add k nw ipr pdf s = add_found k nw ipr pdf s (find k s)

-- The loop of updatePoolDBOnRemoval.
pub remove_unused : ℕ → SubnetKey → Subnets → Option (Subnets × Effect)
remove_unused zero k s = none
remove_unused (suc fuel) k s = elim (find k s) [
  | none ↦ some (s, nothing)
  | some c ↦ elim (is_zero c.ref_count) [
    | false ↦ remove_unused fuel c.parent_key s
    | true ↦ elim c.range [
      | none ↦ some (remove k s, destroy_bit_mask k c.pool)
      | some r ↦ remove_unused fuel c.parent_key (remove k s)
    ]
  ]
]

counted_down : SubnetKey → Option Subnets → Option (Subnets × Effect)
unfolding remove_unused
counted_down k none = none
counted_down k (some s) = remove_unused loop_fuel k s

as_ok : Option (Subnets × Effect) → Option (Result PoolError (Subnets × Effect))
as_ok none = none
as_ok (some r) = some (ok r)

removal_found : SubnetKey → Subnets → Option PoolData → Option (Result PoolError (Subnets × Effect))
unfolding inc_ref_count counted_down as_ok
removal_found k s none = some (err bad_pool)
removal_found k s (some p) = as_ok (counted_down k (inc_ref_count loop_fuel pred k s))

pub update_pool_db_on_removal : SubnetKey → Subnets → Option (Result PoolError (Subnets × Effect))
unfolding removal_found
update_pool_db_on_removal k s = removal_found k s (find k s)
