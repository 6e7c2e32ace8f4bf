-- ===== src/Networkdb/Radix.antt =====
-- What networkdb uses of go-radix and of serf's Lamport clock, as interfaces: their operations, and
-- the laws that their documentation states.
use libnetwork.Prelude.{
  ℕ, ◌≤◌, ◌<◌, ◌≡◌, Bool, true, false, ◌⊎◌, ◌&&◌, Option, none, some, List, [], ◌∷◌, if◌then◌else◌,
}
use libnetwork.Networkdb.Names.{Name, same, is_prefix}

-- The path "/a/b/c" of three names.
abbrev pub Path3 : Type 0
Path3 = Name × Name × Name

abbrev pub same_path : Path3 → Path3 → Bool
same_path p q = same p.0 q.0 && (same p.1 q.1 && same p.2 q.2)

module _ {V : Type 0} where
  -- The value of the first item at a path.
  abbrev pub find : Path3 → List (Path3 × V) → Option V
  find k [] = none
  find k ((j, v) ∷ items) = if same_path j k then some v else find k items

  -- No path stands twice.
  abbrev pub Distinct : List (Path3 × V) → Type 0
  Distinct [] = Unit
  Distinct ((j, v) ∷ items) = (find j items ≡ none) × Distinct items

-- A radix tree of values: Insert, Delete and Get, and the items that Walk and WalkPrefix visit, given
-- which of them the callback deletes. A deletion may merge a child into the node that is visited, and
-- the walk then leaves items out.
pub record Radix (V : Type 0) : Type 1 where
  pub Tree : Type 0
  pub empty : Tree
  pub insert : Path3 → V → Tree → Tree
  pub delete : Path3 → Tree → Tree
  pub get : Path3 → Tree → Option V
  pub walk : (Path3 → V → Bool) → Tree → List (Path3 × V)
  pub walk_prefix : Name → (Path3 → V → Bool) → Tree → List (Path3 × V)

pub record IsRadix {V : Type 0} (r : Radix V) : Type 0 where
  pub get-empty : (k : Path3) → r.get k r.empty ≡ none
  pub get-insert :
      (j k : Path3) (v : V) (t : r.Tree)
      → r.get k (r.insert j v t) ≡ (if same_path j k then some v else r.get k t)
  pub get-delete :
      (j k : Path3) (t : r.Tree)
      → r.get k (r.delete j t) ≡ (if same_path j k then none else r.get k t)
  pub find-walk :
      (d : Path3 → V → Bool) (k : Path3) (t : r.Tree)
      → (find k (r.walk d t) ≡ none) ⊎ (find k (r.walk d t) ≡ r.get k t)
  pub walk_distinct : (d : Path3 → V → Bool) (t : r.Tree) → Distinct (r.walk d t)
  pub find-walk_prefix :
      (nid : Name) (d : Path3 → V → Bool) (k : Path3) (t : r.Tree)
      → (find k (r.walk_prefix nid d t) ≡ none)
        ⊎ ((is_prefix nid k.0 ≡ true) × (find k (r.walk_prefix nid d t) ≡ r.get k t))
  pub walk_prefix_distinct :
      (nid : Name) (d : Path3 → V → Bool) (t : r.Tree) → Distinct (r.walk_prefix nid d t)
  -- A callback that deletes nothing sees every item.
  pub find-walk_all :
      (d : Path3 → V → Bool) (t : r.Tree)
      → ((k : Path3) (v : V) → r.get k t ≡ some v → d k v ≡ false)
      → (k : Path3) → find k (r.walk d t) ≡ r.get k t
  pub find-walk_prefix_all :
      (nid : Name) (d : Path3 → V → Bool) (t : r.Tree)
      → ((k : Path3) (v : V) → r.get k t ≡ some v → d k v ≡ false)
      → (k : Path3) → is_prefix nid k.0 ≡ true
      → find k (r.walk_prefix nid d t) ≡ r.get k t

-- LamportClock: Increment gives the clock its next time, Witness a time not before the one that was
-- seen.
pub record Clock : Type 0 where
  pub increment : ℕ → ℕ
  pub witness : ℕ → ℕ → ℕ

pub record IsClock (c : Clock) : Type 0 where
  pub increment_later : (now : ℕ) → now < c.increment now
  pub witness_keeps : (now seen : ℕ) → now ≤ c.witness now seen
  pub witness_seen : (now seen : ℕ) → seen ≤ c.witness now seen
