-- ===== src/Ipam/Keys.antt =====
-- ipam/structures.go: SubnetKey, and Go maps keyed by it. A name is the list of its characters.
pub mod Text
use libnetwork.Prelude.{
  ◌≡◌, ◌↔◌, refl, Bool, true, ◌&&◌, Option, none, some, List, [], ◌∷◌, arith, if◌then◌else◌,
}
use libnetwork.Networkdb.Names.{Name, same, same_iff}

pub record SubnetKey : Type 0 where
  pub address_space : Name
  pub subnet : Name
  pub child_subnet : Name

-- The zero value, which a pool with no parent has for its parent's key.
abbrev pub zero_key : SubnetKey
zero_key = record { address_space = []; subnet = []; child_subnet = [] }

-- The key of the pool that a pool is, or is a part of.
abbrev pub master_of : SubnetKey → SubnetKey
master_of k = record k { child_subnet = [] }

unfoldable pub same_key : SubnetKey → SubnetKey → Bool
same_key j k =
    same j.address_space k.address_space
    && (same j.subnet k.subnet && same j.child_subnet k.child_subnet)

pub same_key_iff : (j k : SubnetKey) → (same_key j k ≡ true) ↔ (j ≡ k)
unfolding same_key
same_key_iff j k = ground (
  arith,
  same_iff j.address_space k.address_space,
  same_iff j.subnet k.subnet,
  same_iff j.child_subnet k.child_subnet,
)

pub same_key_refl : (k : SubnetKey) → same_key k k ≡ true
same_key_refl k = (same_key_iff k k).1 refl

module _ {V : Type 0} where
  -- m[k], `none` where the key is missing.
  unfoldable pub find : SubnetKey → List (SubnetKey × V) → Option V
  find k [] = none
  find k ((j, v) ∷ m) = if same_key j k then some v else find k m

  -- m[k] = v
  unfoldable pub put : SubnetKey → V → List (SubnetKey × V) → List (SubnetKey × V)
  put k v [] = (k, v) ∷ []
  put k v ((j, w) ∷ m) = if same_key j k then (k, v) ∷ m else (j, w) ∷ put k v m

  -- delete(m, k)
  unfoldable pub remove : SubnetKey → List (SubnetKey × V) → List (SubnetKey × V)
  remove k [] = []
  remove k ((j, w) ∷ m) = let rest = remove k m in if same_key j k then rest else (j, w) ∷ rest

  pub find-put :
      (k j : SubnetKey) (v : V) (m : List (SubnetKey × V))
      → find j (put k v m) ≡ (if same_key k j then some v else find j m)
  unfolding find put
  find-put k j v [] = refl
  find-put k j v ((i, w) ∷ m) =
      ground (arith, same_key_iff k j, same_key_iff i k, same_key_iff i j, find-put k j v m)

  pub find-remove :
      (k j : SubnetKey) (m : List (SubnetKey × V))
      → find j (remove k m) ≡ (if same_key k j then none else find j m)
  unfolding find remove
  find-remove k j [] = ground arith
  find-remove k j ((i, w) ∷ m) =
      ground (arith, same_key_iff k j, same_key_iff i k, same_key_iff i j, find-remove k j m)
