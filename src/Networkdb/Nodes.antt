-- ===== src/Networkdb/Nodes.antt =====
-- networkdb/nodemgmt.go, networkdb/event_delegate.go and, of networkdb/networkdb.go, what keeps the
-- nodes of each network: the nodes of the cluster and their state.
pub mod Lists
pub mod Moves
pub mod Sound
pub mod Participants
use libnetwork.Prelude.{
  ℕ, ◌+◌, ◌*◌, Bool, true, false, not, ◌&&◌, ◌||◌, Option, none, some, List, [], ◌∷◌, ◌++◌, ◌==◌,
  if◌then◌else◌,
}
use libnetwork.Networkdb.Names.{Name, same, lookup, put, remove}
use libnetwork.Networkdb.Radix.{Radix, Clock}
use libnetwork.Networkdb.State.{
  Config, Node, Network, Entry, Db, op_create, op_delete, of_node, write,
}
use libnetwork.Networkdb.Entries.{second, delete_node_table_entries, delete_node_network_entries}

pub data NodeState : Type 0 where
  active left failed : NodeState

abbrev pub node_reap_interval : ℕ
node_reap_interval = 86400 * second

-- Whether a list of names holds one.
unfoldable pub holds : Name → List Name → Bool
holds x [] = false
holds x (y ∷ names) = same y x || holds x names

unfoldable pub without : Name → List Name → List Name
without x [] = []
without x (y ∷ names) = let rest = without x names in if same y x then rest else y ∷ rest

unfoldable pub same_state : NodeState → NodeState → Bool
same_state active active = true
same_state left left = true
same_state failed failed = true
same_state a b = false

-- deleteNodeFromNetworks on the map of participants.
unfoldable pub without_node : Name → List (Name × List Name) → List (Name × List Name)
without_node x [] = []
without_node x ((nid, names) ∷ rest) = (nid, without x names) ∷ without_node x rest

-- The participants of a network; a missing key reads as no node.
unfoldable pub participants_of : Option (List Name) → List Name
participants_of none = []
participants_of (some names) = names

module _ ⦃radix : Radix Entry⦄ where
  unfoldable pub participants : Name → Db → List Name
  unfolding participants_of
  participants nid db = participants_of (lookup nid db.network_nodes)

  unfoldable pub add_network_node : Name → Name → Db → Db
  unfolding participants
  add_network_node nid node db =
      let names = participants nid db in
      if holds node names
      then db
      else record db { network_nodes = put nid (names ++ node ∷ []) db.network_nodes }

  without_participant : Name → Name → Db → Option (List Name) → Db
  without_participant nid node db none = db
  without_participant nid node db (some []) = db
  without_participant nid node db (some (x ∷ names)) = record db {
    network_nodes = put nid (without node (x ∷ names)) db.network_nodes;
  }

  pub delete_network_node : Name → Name → Db → Db
  unfolding without_participant
  delete_network_node nid node db = without_participant nid node db (lookup nid db.network_nodes)

  pub delete_node_from_networks : Name → Db → Db
  delete_node_from_networks node db = record db {
    network_nodes = without_node node db.network_nodes;
    networks = remove node db.networks;
  }

  -- nDB.nodes, nDB.leftNodes and nDB.failedNodes
  abbrev pub nodes_of : NodeState → Db → List (Name × Node)
  nodes_of active db = db.nodes
  nodes_of left db = db.left_nodes
  nodes_of failed db = db.failed_nodes

  unfoldable pub set_nodes : NodeState → List (Name × Node) → Db → Db
  set_nodes active nodes db = record db { nodes = nodes }
  set_nodes left nodes db = record db { left_nodes = nodes }
  set_nodes failed nodes db = record db { failed_nodes = nodes }

  unfoldable pub find_node : Name → Db → Option (Node × NodeState)
  find_node name db = elim (lookup name db.nodes) [
    | some n ↦ some (n, active)
    | none ↦ elim (lookup name db.left_nodes) [
      | some n ↦ some (n, left)
      | none ↦ elim (lookup name db.failed_nodes) [ some n ↦ some (n, failed) | none ↦ none ]
    ]
  ]

  -- `delete(m, nodeName)`, then the node is put in the list of its new state.
  unfoldable pub move_node : Name → Node → NodeState → NodeState → Db → Db
  unfolding set_nodes
  move_node name n from to db =
      let db' = set_nodes from (remove name (nodes_of from db)) db in
      set_nodes to (put name n (nodes_of to db')) db'

  -- The reap time that a node has in its new state.
  pub reaped : NodeState → Node → Node
  reaped active n = record n { reap_time = 0 }
  reaped to n = record n {
    reap_time = if n.reap_time == 0 then node_reap_interval else n.reap_time;
  }

  -- What a node that has left or failed had made is deleted.
  unfoldable pub forget_node : NodeState → Name → Db → Db
  unfolding delete_node_from_networks
  forget_node active name db = db
  forget_node to name db = delete_node_table_entries name (delete_node_from_networks name db)

  change_found : Name → NodeState → Db → Option (Node × NodeState) → Db × Option Bool
  unfolding move_node reaped forget_node same_state
  change_found name to db none = (db, none)
  change_found name to db (some (n, from)) =
      if same_state from to
      then (db, some false)
      else (forget_node to n.name (move_node name (reaped to n) from to db), some true)

  -- `none` is the error that the node is not found; else whether the node was moved.
  pub change_node_state : Name → NodeState → Db → Db × Option Bool
  unfolding change_found find_node
  change_node_state name to db = change_found name to db (find_node name db)

  -- The first node at the address and port that goes by another name; a Go map is walked in an order
  -- that is not specified, here that of the list.
  unfoldable pub incarnation : Node → List (Name × Node) → Option Name
  incarnation mn [] = none
  incarnation mn ((name, n) ∷ nodes) =
      let rest = incarnation mn nodes in
      if n.addr == mn.addr && (n.port == mn.port && not (same mn.name name))
      then some name
      else rest

  leave_found : Option Name → Db → Db × Bool → Db × Bool
  leave_found none db other = other
  leave_found (some name) db other = ((change_node_state name left db).0, true)

  pub purge_reincarnation : Node → Db → Db × Bool
  unfolding leave_found incarnation
  purge_reincarnation mn db = leave_found (incarnation mn db.nodes) db (
      leave_found (incarnation mn db.failed_nodes) db
        (leave_found (incarnation mn db.left_nodes) db (db, false)))

  join_moved : Node → Db × Option Bool → Db
  join_moved mn (db, some true) = db
  join_moved mn (db, other) =
      let db' = (purge_reincarnation mn db).0 in
      record db' { nodes = put mn.name (record mn { ltime = 0; reap_time = 0 }) db'.nodes }

  pub notify_join : Node → Db → Db
  unfolding join_moved
  notify_join mn db =
      join_moved mn (change_node_state mn.name active (write (of_node op_create mn.addr) db))

  leave_moved : Node → Db → Option (Node × NodeState) → Db
  leave_moved mn db (some (n, active)) = (change_node_state mn.name failed db).0
  leave_moved mn db other = db

  pub notify_leave : Node → Db → Db
  unfolding leave_moved find_node
  notify_leave mn db =
      let db' = write (of_node op_delete mn.addr) db in leave_moved mn db' (find_node mn.name db')
