-- ===== src/Setmatrix/Matrix.antt =====
-- internal/setmatrix/setmatrix.go: the operations. A result beside the matrix is the pair that the
-- method returns; `none` of Get stands for no slice and `false`.
pub mod Pairs
pub mod History
use libnetwork.Prelude.{
  ℕ, ◌==◌, Bool, true, false, Option, none, some, List, [], ◌∷◌, if◌then◌else◌, map,
}
use libnetwork.Networkdb.Names.{Name, lookup, put, remove as delete}
use libnetwork.Setmatrix.Sets.{SetOps}

pub record SetMatrix (V : Type 0) ⦃sets : SetOps V⦄ : Type 0 where
  pub matrix : List (Name × sets.Set)

module _ (V : Type 0) ⦃sets : SetOps V⦄ where
  size : Option sets.Set → ℕ × Bool
  size none = (0, false)
  size (some set) = (sets.cardinality set, true)

module _ {V : Type 0} ⦃sets : SetOps V⦄ where
  pub new_set_matrix : SetMatrix V
  new_set_matrix = record { matrix = [] }

  slice : Option sets.Set → Option (List V)
  slice none = none
  slice (some set) = some (sets.to_slice set)

  pub get : Name → SetMatrix V → Option (List V)
  unfolding slice
  get key m = slice (lookup key m.matrix)

  contained : V → Option sets.Set → Bool × Bool
  contained value none = (false, false)
  contained value (some set) = (sets.contains value set, true)

  pub contains : Name → V → SetMatrix V → Bool × Bool
  unfolding contained
  contains key value m = contained value (lookup key m.matrix)

  inserted : Name → V → SetMatrix V → Option sets.Set → SetMatrix V × Bool × ℕ
  inserted key value m none =
      (record { matrix = put key (sets.add value sets.empty).0 m.matrix }, true, 1)
  inserted key value m (some set) =
      let added = sets.add value set in
      (record { matrix = put key added.0 m.matrix }, added.1, sets.cardinality added.0)

  pub insert : Name → V → SetMatrix V → SetMatrix V × Bool × ℕ
  unfolding inserted
  insert key value m = inserted key value m (lookup key m.matrix)

  -- The set after the removal, which leaves the matrix if it is empty.
  shrunk : Name → sets.Set → SetMatrix V → SetMatrix V × Bool × ℕ
  shrunk key set m =
      let rest = if sets.cardinality set == 0 then delete key m.matrix else put key set m.matrix in
      (record { matrix = rest }, true, sets.cardinality set)

  removed : Name → V → SetMatrix V → Option sets.Set → SetMatrix V × Bool × ℕ
  unfolding shrunk
  removed key value m none = (m, false, 0)
  removed key value m (some set) =
      if sets.contains value set
      then shrunk key (sets.remove value set) m
      else (m, false, sets.cardinality set)

  pub remove : Name → V → SetMatrix V → SetMatrix V × Bool × ℕ
  unfolding removed
  remove key value m = removed key value m (lookup key m.matrix)

  pub cardinality : Name → SetMatrix V → ℕ × Bool
  unfolding size
  cardinality key m = size V (lookup key m.matrix)

  pub keys : SetMatrix V → List Name
  keys m = map (λ entry. entry.0) m.matrix
