-- ===== src/Networkdb/Nodes/Moves.antt =====
-- networkdb/nodemgmt.go: changeNodeState.
use libnetwork.Prelude.{
  ◌≡◌, ◌⊎◌, refl, ap, subst, ◌∙◌, true, false, not, ◌&&◌, Option, none, some, List, [], ◌∷◌, arith,
  if◌then◌else◌, Bool-cases, inl, inr,
}
use libnetwork.Networkdb.Names.{Name, same, same_iff, lookup}
use libnetwork.Networkdb.Radix.{Radix, IsRadix, Path3, find}
use libnetwork.Networkdb.State.{Node, Entry, Db}
use libnetwork.Networkdb.Entries.{get_entry, purge_deletes, delete_node_table_entries}
use libnetwork.Networkdb.Entries.Indexes.{IsIndexed, delete_node_table_entries-IsIndexed}
use libnetwork.Networkdb.Entries.Leave.{purged, TableSkips, delete_node_table_entries_lem}
use libnetwork.Networkdb.Entries.Keeps.{Keeps, delete_node_table_entries-Keeps}
use libnetwork.Networkdb.Nodes.{
  NodeState, active, left, failed, same_state, set_nodes, move_node, forget_node,
  delete_node_from_networks, reaped, change_found, change_node_state, without_node, without, holds,
  participants, participants_of,
}
use libnetwork.Networkdb.Nodes.Lists.{
  same_state_iff, listed, IsPartition, find_node_cases, found-IsHome, listed-move_node,
}

pub holds-without :
    (x y : Name) (names : List Name) → holds y (without x names) ≡ (not (same x y) && holds y names)
unfolding holds without
holds-without x y [] = ground arith
holds-without x y (z ∷ names) =
    ground (arith, same_iff x y, same_iff z x, same_iff z y, holds-without x y names)

lookup-without_node :
    (x nid : Name) (m : List (Name × List Name))
    → participants_of (lookup nid (without_node x m)) ≡ without x (participants_of (lookup nid m))
unfolding lookup without_node participants_of without
lookup-without_node x nid [] = refl
lookup-without_node x nid ((k, names) ∷ m) = elim (Bool-cases (same k nid)) [
  | inl at ↦ rw at refl
  | inr apart ↦ rw apart (lookup-without_node x nid m)
]

module _ ⦃radix : Radix Entry⦄ where
  Keeps-listed : (x : Name) (s : NodeState) (a b : Db) → Keeps a b → listed x s b ≡ listed x s a
  Keeps-listed x active a b k = rw k.0 refl
  Keeps-listed x left a b k = rw k.1 refl
  Keeps-listed x failed a b k = rw k.2 refl

  listed-forget_node :
      (to : NodeState) (name x : Name) (s : NodeState) (db : Db)
      → listed x s (forget_node to name db) ≡ listed x s db
  unfolding forget_node delete_node_from_networks
  listed-forget_node active name x s db = refl
  listed-forget_node left name x s db =
      Keeps-listed x s _ _
        (delete_node_table_entries-Keeps name (delete_node_from_networks name db))
      ∙ only s
    where
      only : (s : NodeState) → listed x s (delete_node_from_networks name db) ≡ listed x s db
      only active = refl
      only left = refl
      only failed = refl
  listed-forget_node failed name x s db =
      Keeps-listed x s _ _
        (delete_node_table_entries-Keeps name (delete_node_from_networks name db))
      ∙ only s
    where
      only : (s : NodeState) → listed x s (delete_node_from_networks name db) ≡ listed x s db
      only active = refl
      only left = refl
      only failed = refl

  -- The move has changed no entry and no network.
  move_keeps :
      (name : Name) (n : Node) (from to : NodeState) (db : Db)
      → let g = move_node name n from to db in
        (g.by_table ≡ db.by_table)
        × (g.by_network ≡ db.by_network)
        × (g.network_nodes ≡ db.network_nodes)
        × (g.networks ≡ db.networks)
  unfolding move_node set_nodes
  move_keeps name n active active db = (refl, refl, refl, refl)
  move_keeps name n active left db = (refl, refl, refl, refl)
  move_keeps name n active failed db = (refl, refl, refl, refl)
  move_keeps name n left active db = (refl, refl, refl, refl)
  move_keeps name n left left db = (refl, refl, refl, refl)
  move_keeps name n left failed db = (refl, refl, refl, refl)
  move_keeps name n failed active db = (refl, refl, refl, refl)
  move_keeps name n failed left db = (refl, refl, refl, refl)
  move_keeps name n failed failed db = (refl, refl, refl, refl)

  -- What a node that goes to a state leaves of an entry, and of the participants of a network.
  abbrev pub entry_after : NodeState → Name → Option Entry → Option Entry
  entry_after active name o = o
  entry_after to name o = purged name o

  abbrev pub names_after : NodeState → Name → List Name → List Name
  names_after active name names = names
  names_after to name names = without name names

  -- The entry is what the state leaves of it, or the walk of a node that leaves or fails has left it
  -- out, and it is as it was.
  abbrev pub EntryMoves : NodeState → Name → Db → Path3 → Option Entry → Type 0
  EntryMoves to name db p new =
      let old = get_entry p.0 p.1 p.2 db in
      (new ≡ entry_after to name old)
      ⊎ ((new ≡ old) × (same_state to active ≡ false) × TableSkips name p db)

  get_entry-forget_node :
      (laws : IsRadix radix) (to : NodeState) (name t n k : Name) (db : Db)
      → EntryMoves to name db (t, n, k) (get_entry t n k (forget_node to name db))
  unfolding forget_node delete_node_from_networks get_entry same_state
  get_entry-forget_node laws active name t n k db = inl refl
  get_entry-forget_node laws left name t n k db =
      elim (delete_node_table_entries_lem laws name t n k (delete_node_from_networks name db)) [
        | inl gone ↦ inl gone
        | inr (kept, skipped) ↦ inr (kept, refl, skipped)
      ]
  get_entry-forget_node laws failed name t n k db =
      elim (delete_node_table_entries_lem laws name t n k (delete_node_from_networks name db)) [
        | inl gone ↦ inl gone
        | inr (kept, skipped) ↦ inr (kept, refl, skipped)
      ]

  participants-forgotten :
      (name nid : Name) (db : Db)
      → participants nid (delete_node_table_entries name (delete_node_from_networks name db))
        ≡ without name (participants nid db)
  unfolding delete_node_from_networks participants
  participants-forgotten name nid db =
      let keeps = delete_node_table_entries-Keeps name (delete_node_from_networks name db) in
      ap (λ m. participants_of (lookup nid m)) keeps.4
      ∙ lookup-without_node name nid db.network_nodes

  participants-forget_node :
      (to : NodeState) (name nid : Name) (db : Db)
      → participants nid (forget_node to name db) ≡ names_after to name (participants nid db)
  unfolding forget_node
  participants-forget_node active name nid db = refl
  participants-forget_node left name nid db = participants-forgotten name nid db
  participants-forget_node failed name nid db = participants-forgotten name nid db

  abbrev pub IsMoved : Name → NodeState → Db → Db → Type 0
  IsMoved name to db db' =
      (n : Node) × (from : NodeState) × (same_state from to ≡ false)
      × (listed name from db ≡ some n)
      × ((x : Name) (s : NodeState)
          → listed x s db' ≡ (
              if same name x
              then (if same_state s to then some (reaped to n) else none)
              else listed x s db))
      × ((t m k : Name) → EntryMoves to n.name db (t, m, k) (get_entry t m k db'))
      × ((nid : Name) → participants nid db' ≡ names_after to n.name (participants nid db))

  IsMoved-IsMoved :
      (laws : IsRadix radix) (name : Name) (n : Node) (from to : NodeState) (db : Db)
      → IsPartition db
      → same_state from to ≡ false
      → listed name from db ≡ some n
      → IsMoved name to db (forget_node to n.name (move_node name (reaped to n) from to db))
  unfolding get_entry participants
  IsMoved-IsMoved laws name n from to db partition differ at =
      let moved = move_node name (reaped to n) from to db in
      let keeps = move_keeps name (reaped to n) from to db in
      (
        n,
        from,
        differ,
        at,
        (λ x s.
            listed-forget_node to n.name x s moved
            ∙ listed-move_node name (reaped to n) from to s x db differ
                (found-IsHome name n from db partition at)),
        (λ t m k.
            subst
              (λ tree.
                let new = get_entry t m k (forget_node to n.name moved) in
                let old = radix.get (t, m, k) tree in
                (new ≡ entry_after to n.name old)
                ⊎ ((new ≡ old)
                    × (same_state to active ≡ false)
                    × (find (t, m, k) (radix.walk (purge_deletes n.name) tree) ≡ none)))
              keeps.0 (get_entry-forget_node laws to n.name t m k moved)),
        (λ nid.
            participants-forget_node to n.name nid moved
            ∙ ap (λ ns. names_after to n.name (participants_of (lookup nid ns))) keeps.2),
      )

  -- With any trees that satisfy the laws of a radix tree, where no name stands in two lists:
  -- changeNodeState fails for a name in no list and changes nothing, it reports no move for a node that
  -- is in the state already and changes nothing, and else it moves the node, which then stands in the
  -- list of the new state alone, all other names where they stood. A node that becomes active keeps its
  -- entries and its networks. All networks lose one that leaves or fails, and its entries are gone but
  -- for those that the walk of the table has left out; no other entry changes.
  pub change_node_state_cases :
      (laws : IsRadix radix) (name : Name) (to : NodeState) (db : Db)
      → IsPartition db
      → let r = change_node_state name to db in
        ((r ≡ (db, none)) × ((s : NodeState) → listed name s db ≡ none))
        ⊎ (((r ≡ (db, some false)) × (n : Node) × (listed name to db ≡ some n))
            ⊎ ((r.1 ≡ some true) × IsMoved name to db r.0))
  unfolding change_node_state change_found
  change_node_state_cases laws name to db partition = elim (find_node_cases name db) [
    | inl (missing, nowhere) ↦ rw missing (inl (refl, nowhere))
    | inr (n, from, found, at) ↦ elim (Bool-cases (same_state from to)) [
      | inl there ↦
          rw (found, there)
            (inr (
              inl (
                refl,
                n,
                subst (λ s. listed name s db ≡ some n) ((same_state_iff from to).0 there) at,
              )))
      | inr differ ↦
          rw (found, differ)
            (inr (inr (refl, IsMoved-IsMoved laws name n from to db partition differ at)))
    ]
  ]

  forget_node-IsIndexed :
      (laws : IsRadix radix) (to : NodeState) (name : Name) (db : Db)
      → IsIndexed db
      → IsIndexed (forget_node to name db)
  unfolding forget_node delete_node_from_networks
  forget_node-IsIndexed laws active name db h = h
  forget_node-IsIndexed laws left name db h =
      delete_node_table_entries-IsIndexed laws name (delete_node_from_networks name db) h
  forget_node-IsIndexed laws failed name db h =
      delete_node_table_entries-IsIndexed laws name (delete_node_from_networks name db) h

  pub change_node_state-IsIndexed :
      (laws : IsRadix radix) (name : Name) (to : NodeState) (db : Db)
      → IsIndexed db
      → IsIndexed (change_node_state name to db).0
  unfolding change_node_state change_found
  change_node_state-IsIndexed laws name to db h = elim (find_node_cases name db) [
    | inl (missing, nowhere) ↦ rw missing h
    | inr (n, from, found, at) ↦ elim (Bool-cases (same_state from to)) [
      | inl there ↦ rw (found, there) h
      | inr differ ↦
          let keeps = move_keeps name (reaped to n) from to db in
          rw (found, differ)
            (forget_node-IsIndexed laws to n.name (move_node name (reaped to n) from to db)
              (rw (keeps.0, keeps.1) h))
    ]
  ]

  pub Keeps-IsPartition : (a b : Db) → Keeps a b → IsPartition a → IsPartition b
  Keeps-IsPartition a b k partition x =
      let (h, home) = partition x in (h, (λ s other. Keeps-listed x s a b k ∙ home s other))

  pub change_node_state-IsPartition :
      (laws : IsRadix radix) (name : Name) (to : NodeState) (db : Db)
      → IsPartition db
      → IsPartition (change_node_state name to db).0
  change_node_state-IsPartition laws name to db partition =
      elim (change_node_state_cases laws name to db partition) [
        | inl (is, nowhere) ↦ rw is partition
        | inr (inl (is, n, at)) ↦ rw is partition
        | inr (inr (is, (n, from, differ, at, lists, entries, names))) ↦ (λ x.
            elim (Bool-cases (same name x)) [
              | inl here ↦ (to, (λ s other. lists x s ∙ (rw (here, other) refl)))
              | inr apart ↦
                  (let (h, home) = partition x in
                    (h, (λ s other. lists x s ∙ (rw apart (home s other)))))
            ])
      ]
