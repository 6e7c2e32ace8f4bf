-- ===== src/Networkdb/Nodes/Participants.antt =====
-- networkdb/networkdb.go: addNetworkNode and deleteNetworkNode.
use libnetwork.Prelude.{
  ◌≡◌, refl, ap, Bool, not, ◌&&◌, ◌||◌, Option, none, some, List, [], ◌∷◌, ◌++◌, arith, Bool-cases,
  inl, inr,
}
use libnetwork.Networkdb.Names.{Name, same, same_iff, lookup, lookup-put}
use libnetwork.Networkdb.Radix.{Radix}
use libnetwork.Networkdb.State.{Entry, Db}
use libnetwork.Networkdb.Nodes.{
  holds, without, participants, participants_of, add_network_node, without_participant,
  delete_network_node,
}
use libnetwork.Networkdb.Entries.Keeps.{Aside}
use libnetwork.Networkdb.Nodes.Moves.{holds-without}

holds-append :
    (x y : Name) (names : List Name) → holds x (names ++ y ∷ []) ≡ (same y x || holds x names)
unfolding holds
holds-append x y [] = refl
holds-append x y (z ∷ names) = ground (arith, holds-append x y names)

module _ ⦃radix : Radix Entry⦄ where
  abbrev pub is_participant : Name → Name → Db → Bool
  is_participant x nid db = holds x (participants nid db)

  pub add_network_node-Aside : (nid node : Name) (db : Db) → Aside db (add_network_node nid node db)
  unfolding add_network_node
  add_network_node-Aside nid node db = elim (Bool-cases (holds node (participants nid db))) [
    | inl there ↦ rw there (refl, refl, refl, refl, refl)
    | inr new ↦ rw new (refl, refl, refl, refl, refl)
  ]

  without_participant-Aside :
      (nid node : Name) (db : Db) (o : Option (List Name))
      → Aside db (without_participant nid node db o)
  unfolding without_participant
  without_participant-Aside nid node db none = (refl, refl, refl, refl, refl)
  without_participant-Aside nid node db (some []) = (refl, refl, refl, refl, refl)
  without_participant-Aside nid node db (some (x ∷ names)) = (refl, refl, refl, refl, refl)

  pub delete_network_node-Aside :
      (nid node : Name) (db : Db) → Aside db (delete_network_node nid node db)
  unfolding delete_network_node
  delete_network_node-Aside nid node db =
      without_participant-Aside nid node db (lookup nid db.network_nodes)

  -- After addNetworkNode the node takes part in the network, and all others in what they took part in.
  pub add_network_node_lem :
      (nid node n x : Name) (db : Db)
      → is_participant x n (add_network_node nid node db)
        ≡ ((same nid n && same node x) || is_participant x n db)
  unfolding add_network_node participants participants_of
  add_network_node_lem nid node n x db = elim (Bool-cases (holds node (participants nid db))) [
    | inl there ↦ rw there (ground (arith, there, same_iff nid n, same_iff node x))
    | inr new ↦
        rw (new, lookup-put nid n (participants nid db ++ node ∷ []) db.network_nodes)
          (elim (Bool-cases (same nid n)) [
            | inl at ↦
                rw (at, holds-append x node (participants nid db), (same_iff nid n).0 at) refl
            | inr apart ↦ rw apart refl
          ])
  ]

  nobody :
      (nid node n x : Name) (db : Db)
      → participants nid db ≡ []
      → is_participant x n db ≡ (not (same nid n && same node x) && is_participant x n db)
  unfolding holds
  nobody nid node n x db empty = elim (Bool-cases (same nid n)) [
    | inl here ↦ rw (here, ← (same_iff nid n).0 here, empty) (ground arith)
    | inr apart ↦ rw apart refl
  ]

  without_participant_lem :
      (nid node n x : Name) (db : Db) (o : Option (List Name))
      → lookup nid db.network_nodes ≡ o
      → is_participant x n (without_participant nid node db o)
        ≡ (not (same nid n && same node x) && is_participant x n db)
  unfolding without_participant participants participants_of
  without_participant_lem nid node n x db none at = nobody nid node n x db (ap participants_of at)
  without_participant_lem nid node n x db (some []) at =
      nobody nid node n x db (ap participants_of at)
  without_participant_lem nid node n x db (some (y ∷ names)) at =
      rw (lookup-put nid n (without node (y ∷ names)) db.network_nodes)
        (elim (Bool-cases (same nid n)) [
          | inl here ↦ rw (here, ← (same_iff nid n).0 here, at) (holds-without node x (y ∷ names))
          | inr apart ↦ rw apart refl
        ])

  -- After deleteNetworkNode the node does not take part in the network, and all others in what they
  -- took part in.
  pub delete_network_node_lem :
      (nid node n x : Name) (db : Db)
      → is_participant x n (delete_network_node nid node db)
        ≡ (not (same nid n && same node x) && is_participant x n db)
  unfolding delete_network_node
  delete_network_node_lem nid node n x db =
      without_participant_lem nid node n x db (lookup nid db.network_nodes) refl
