-- ===== src/Networkdb/Nodes/Lists.antt =====
-- networkdb/nodemgmt.go: the three lists of nodes.
use libnetwork.Prelude.{
  ◌≡◌, ◌↔◌, ◌⊎◌, refl, subst, ◌∙◌, true, false, Option, none, some, List, arith, if◌then◌else◌,
  Bool-cases, Option-cases, inl, inr,
}
use libnetwork.Networkdb.Names.{
  Name, same, same_iff, lookup, put, remove, lookup-put, lookup-remove,
}
use libnetwork.Networkdb.Radix.{Radix}
use libnetwork.Networkdb.State.{Node, Entry, Db}
use libnetwork.Networkdb.Nodes.{
  NodeState, active, left, failed, same_state, nodes_of, set_nodes, find_node, move_node,
}

pub same_state_iff : (s t : NodeState) → (same_state s t ≡ true) ↔ (s ≡ t)
unfolding same_state
same_state_iff active active = ((λ e. refl), (λ e. refl))
same_state_iff left left = ((λ e. refl), (λ e. refl))
same_state_iff failed failed = ((λ e. refl), (λ e. refl))
same_state_iff active left = ((λ e. cc), (λ e. cc))
same_state_iff active failed = ((λ e. cc), (λ e. cc))
same_state_iff left active = ((λ e. cc), (λ e. cc))
same_state_iff left failed = ((λ e. cc), (λ e. cc))
same_state_iff failed active = ((λ e. cc), (λ e. cc))
same_state_iff failed left = ((λ e. cc), (λ e. cc))

pub same_state_comm : (s t : NodeState) → same_state s t ≡ same_state t s
same_state_comm s t = ground (arith, same_state_iff s t, same_state_iff t s)

module _ ⦃radix : Radix Entry⦄ where
  pub nodes_of-set_nodes :
      (s t : NodeState) (nodes : List (Name × Node)) (db : Db)
      → nodes_of s (set_nodes t nodes db) ≡ (if same_state s t then nodes else nodes_of s db)
  unfolding set_nodes same_state
  nodes_of-set_nodes active active nodes db = refl
  nodes_of-set_nodes active left nodes db = refl
  nodes_of-set_nodes active failed nodes db = refl
  nodes_of-set_nodes left active nodes db = refl
  nodes_of-set_nodes left left nodes db = refl
  nodes_of-set_nodes left failed nodes db = refl
  nodes_of-set_nodes failed active nodes db = refl
  nodes_of-set_nodes failed left nodes db = refl
  nodes_of-set_nodes failed failed nodes db = refl

  -- The node of a name in the list of a state.
  abbrev pub listed : Name → NodeState → Db → Option Node
  listed x s db = lookup x (nodes_of s db)

  -- The name stands in the list of that state, if in any.
  abbrev pub IsHome : Name → Db → NodeState → Type 0
  IsHome x db h = (s : NodeState) → same_state s h ≡ false → listed x s db ≡ none

  -- No name stands in two lists.
  abbrev pub IsPartition : Db → Type 0
  IsPartition db = (x : Name) → (h : NodeState) × IsHome x db h

  pub find_node_cases :
      (name : Name) (db : Db)
      → ((find_node name db ≡ none) × ((s : NodeState) → listed name s db ≡ none))
        ⊎ ((n : Node) × (from : NodeState) × (find_node name db ≡ some (n, from))
            × (listed name from db ≡ some n))
  unfolding find_node
  find_node_cases name db = elim (Option-cases (lookup name db.nodes)) [
    | inr (n, at) ↦ inr (n, active, ground (arith, at), at)
    | inl none_active ↦ elim (Option-cases (lookup name db.left_nodes)) [
      | inr (n, at) ↦ inr (n, left, ground (arith, none_active, at), at)
      | inl none_left ↦ elim (Option-cases (lookup name db.failed_nodes)) [
        | inr (n, at) ↦ inr (n, failed, ground (arith, none_active, none_left, at), at)
        | inl none_failed ↦ inl (
          ground (arith, none_active, none_left, none_failed),
          nowhere none_active none_left none_failed,
        )
      ]
    ]
  ]
    where
      nowhere :
          lookup name db.nodes ≡ none
          → lookup name db.left_nodes ≡ none
          → lookup name db.failed_nodes ≡ none
          → (s : NodeState) → listed name s db ≡ none
      nowhere a l f active = a
      nowhere a l f left = l
      nowhere a l f failed = f

  -- Where no name stands in two lists, a name that stands in one stands in no other.
  pub found-IsHome :
      (name : Name) (n : Node) (from : NodeState) (db : Db)
      → IsPartition db
      → listed name from db ≡ some n
      → IsHome name db from
  found-IsHome name n from db partition at s other =
      let (h, home) = partition name in
      elim (Bool-cases (same_state from h)) [
        | inl is ↦ home s (subst (λ t. same_state s t ≡ false) ((same_state_iff from h).0 is) other)
        | inr apart ↦ (let gone = home from apart in cc)
      ]

  pub listed-move_node :
      (name : Name) (n : Node) (from to s : NodeState) (x : Name) (db : Db)
      → same_state from to ≡ false
      → IsHome name db from
      → listed x s (move_node name n from to db)
        ≡ (if same name x then (if same_state s to then some n else none) else listed x s db)
  unfolding move_node
  listed-move_node name n from to s x db differ home =
      let db' = set_nodes from (remove name (nodes_of from db)) db in
      rw (nodes_of-set_nodes s to (put name n (nodes_of to db')) db')
        (elim (Bool-cases (same_state s to)) [
          | inl is ↦
              let to_from : same_state to from ≡ false = same_state_comm to from ∙ differ in
              rw
                (
                  is,
                  lookup-put name x n (nodes_of to db'),
                  nodes_of-set_nodes to from (remove name (nodes_of from db)) db,
                  to_from,
                  (same_state_iff s to).0 is,
                )
                refl
          | inr not_to ↦ elim (Bool-cases (same_state s from)) [
            | inl is ↦
                rw
                  (
                    not_to,
                    nodes_of-set_nodes s from (remove name (nodes_of from db)) db,
                    is,
                    lookup-remove name x (nodes_of from db),
                    (same_state_iff s from).0 is,
                  )
                  refl
            | inr apart ↦
                rw (not_to, nodes_of-set_nodes s from (remove name (nodes_of from db)) db, apart)
                  (elim (Bool-cases (same name x)) [
                    | inl at ↦
                        rw at (
                          subst (λ y. listed y s db ≡ none) ((same_iff name x).0 at) (home s apart))
                    | inr not_at ↦ rw not_at refl
                  ])
          ]
        ])

  -- What findNode gives stands in the list of the state that it gives.
  abbrev pub IsListed : Name → Db → Option (Node × NodeState) → Type 0
  IsListed name db none = Unit
  IsListed name db (some (n, s)) = listed name s db ≡ some n

  pub find_node-IsListed : (name : Name) (db : Db) → IsListed name db (find_node name db)
  find_node-IsListed name db = elim (find_node_cases name db) [
    | inl (missing, nowhere) ↦ rw missing tt
    | inr (n, from, found, at) ↦ rw found at
  ]
