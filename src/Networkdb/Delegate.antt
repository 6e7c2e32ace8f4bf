-- ===== src/Networkdb/Delegate.antt =====
-- networkdb/delegate.go, and JoinNetwork and LeaveNetwork of networkdb/networkdb.go: what an event of
-- the cluster does to the database. Each handler is one step, and its Boolean is whether the event is
-- sent on.
pub mod Tables
pub mod Converge
pub mod Replicate
pub mod Sound
use libnetwork.Prelude.{
  ◌^◌, ◌-◌, ℕ, ◌+◌, ◌*◌, ◌/◌, Bool, true, false, not, ◌&&◌, ◌||◌, Option, none, some, List, [], ◌∷◌,
  ltb, leb, ◌==◌, if◌then◌else◌,
}
use libnetwork.Networkdb.Names.{Name, same, lookup, put}
use libnetwork.Networkdb.Radix.{Radix, Clock}
use libnetwork.Networkdb.State.{
  Config, Node, Network, Entry, Db, OpType, op_create, op_update, op_delete, of_entry, write,
}
use libnetwork.Networkdb.Entries.{
  second, TableEvent, EventKind, create, update, delete_kind, get_entry, create_or_update_entry,
  node_network, delete_node_network_entries,
}
use libnetwork.Networkdb.Nodes.{
  NodeState, active, left, failed, holds, participants, add_network_node, delete_network_node,
  nodes_of, set_nodes, find_node, change_node_state,
}

-- NodeEvent_Type and NetworkEvent_Type
pub data EventType : Type 0 where
  invalid join leave : EventType

pub record NodeEvent : Type 0 where
  pub type : EventType
  pub ltime : ℕ
  pub node_name : Name

pub record NetworkEvent : Type 0 where
  pub type : EventType
  pub ltime : ℕ
  pub node_name : Name
  pub network_id : Name

abbrev pub is_leave : EventType → Bool
is_leave leave = true
is_leave other = false

abbrev pub is_delete : EventKind → Bool
is_delete delete_kind = true
is_delete other = false

abbrev pub op_of : EventKind → OpType
op_of create = op_create
op_of update = op_update
op_of delete_kind = op_delete

is_some {ℓ} : {A : Type ℓ} → Option A → Bool
is_some none = false
is_some (some a) = true

-- time.Duration of an int32 of seconds, both in two's complement.
abbrev pub residual_time : ℕ → ℕ
residual_time r = if ltb r (2 ^ 31) then r * second else 2 ^ 64 - (2 ^ 32 - r) * second

-- Whether one duration is less than another that is not negative.
abbrev pub is_past : ℕ → ℕ → Bool
is_past limit time = ltb limit time && ltb time (2 ^ 63)

unfoldable pub event_entry : Config → TableEvent → Entry
event_entry config e =
    let residual = residual_time e.residual_reap_time in
    record {
      node = e.node_name;
      ltime = e.ltime;
      value = e.value;
      deleting = is_delete e.kind;
      reap_time =
          if is_delete e.kind && residual == 0 then config.reap_entry_interval else residual;
    }

-- The networks of a node with one more; a node without networks is given a map.
with_network : Name → Network → Option (List (Name × Network)) → List (Name × Network)
with_network nid n none = (nid, n) ∷ []
with_network nid n (some networks) = put nid n networks

module _ ⦃radix : Radix Entry⦄ ⦃clock : Clock⦄ where
  moved_to : Db × Option Bool → Db × Bool
  moved_to (db, none) = (db, false)
  moved_to (db, some moved) = (db, moved)

  node_switch : NodeEvent → Node → EventType → Db → Db × Bool
  unfolding moved_to
  node_switch e n join db = moved_to (change_node_state n.name active db)
  node_switch e n leave db = moved_to (change_node_state n.name left db)
  node_switch e n invalid db = (db, false)

  node_found : NodeEvent → Db → Option (Node × NodeState) → Db × Bool
  unfolding node_switch is_some
  node_found e db none = (db, false)
  node_found e db (some (n, state)) =
      if leb e.ltime n.ltime
      then (db, false)
      else let n' : Node = record n { ltime = e.ltime } in
        let db' = set_nodes state (put e.node_name n' (nodes_of state db)) db in
        if is_some (lookup e.node_name db'.nodes) then node_switch e n' e.type db' else (db', false)

  pub handle_node_event : NodeEvent → Db → Db × Bool
  unfolding node_found
  handle_node_event e db =
      let db' = record db { network_clock = clock.witness db.network_clock e.ltime } in
      node_found e db' (find_node e.node_name db')

  -- nDB.networks[node][nid] = n
  pub set_network : Name → Name → Network → Db → Db
  unfolding with_network
  set_network node nid n db = record db {
    networks = put node (with_network nid n (lookup node db.networks)) db.networks;
  }

  module _ (config : Config) where
    -- A newer event of a network that is known.
    network_newer : NetworkEvent → Network → Db → Db
    unfolding set_network
    network_newer e n db =
        if is_leave e.type
        then delete_network_node e.network_id e.node_name (
            delete_node_network_entries config e.network_id e.node_name (
              set_network e.node_name e.network_id
                (record n {
                  ltime = e.ltime;
                  leaving = true;
                  reap_time = config.reap_network_interval;
                })
                db))
        else add_network_node e.network_id e.node_name (
            set_network e.node_name e.network_id (record n { ltime = e.ltime; leaving = false }) db)

    network_first : NetworkEvent → Db → Db × Bool
    unfolding is_some set_network
    network_first e db =
        if is_leave e.type
        then (db, false)
        else if not (is_some (lookup e.node_name db.nodes))
        then (db, false)
        else (
          add_network_node e.network_id e.node_name (
              set_network e.node_name e.network_id
                (record { ltime = e.ltime; in_sync = false; leaving = false; reap_time = 0 }) db),
          true,
        )

    network_known : NetworkEvent → Db → Option Network → Db × Bool
    unfolding network_newer network_first
    network_known e db none = network_first e db
    network_known e db (some n) =
        if leb e.ltime n.ltime then (db, false) else (network_newer e n db, true)

    -- `none` is a node of which no network is known.
    network_node : NetworkEvent → Db → Option (List (Name × Network)) → Db × Bool
    unfolding network_known
    network_node e db none =
        if is_leave e.type
        then (db, false)
        else network_known e (record db { networks = put e.node_name [] db.networks }) none
    network_node e db (some networks) = network_known e db (lookup e.network_id networks)

    pub handle_network_event : NetworkEvent → Db → Db × Bool
    unfolding network_node
    handle_network_event e db =
        let db' = record db { network_clock = clock.witness db.network_clock e.ltime } in
        if same e.node_name config.node_id
        then (db', false)
        else network_node e db' (lookup e.node_name db'.networks)

    -- The network of this node, where the event may be taken: this node is in the network and not
    -- leaving it, and the owner of the event takes part in it.
    pub admitted : TableEvent → Db → Option Network
    admitted e db = elim (node_network config.node_id e.network_id db) [
      | none ↦ none
      | some n ↦
          if n.leaving || not (holds e.node_name (participants e.network_id db))
          then none
          else some n
    ]

    pub store_event : TableEvent → Db → Db
    store_event e db =
        create_or_update_entry e.network_id e.table_name e.key (event_entry config e) db

    abbrev pub event_notice : TableEvent → Db → Db
    event_notice e db = write (of_entry (op_of e.kind) e.table_name e.network_id e.key e.value) db

    pub table_stored : TableEvent → Bool → Network → Db → Option Entry → Db × Bool
    table_stored e is_bulk_sync n db (some old) =
        if leb e.ltime old.ltime
        then (db, false)
        else (event_notice e (store_event e db), n.in_sync)
    table_stored e is_bulk_sync n db none =
        if is_delete e.kind
        then if is_bulk_sync
          then (
            store_event e db,
            n.in_sync && is_past (config.reap_entry_interval / 6) (event_entry config e).reap_time,
          )
          else (db, false)
        else (event_notice e (store_event e db), n.in_sync)

    table_admitted : TableEvent → Bool → Db → Option Network → Db × Bool
    unfolding table_stored
    table_admitted e is_bulk_sync db none = (db, false)
    table_admitted e is_bulk_sync db (some n) =
        table_stored e is_bulk_sync n db (get_entry e.table_name e.network_id e.key db)

    pub handle_table_event : TableEvent → Bool → Db → Db × Bool
    unfolding table_admitted
    handle_table_event e is_bulk_sync db =
        let db' = record db { table_clock = clock.witness db.table_clock e.ltime } in
        table_admitted e is_bulk_sync db' (admitted e db')

    -- handleTableMessage: what this node has sent itself is ignored.
    pub handle_table_message : TableEvent → Bool → Db → Db × Bool
    unfolding handle_table_event
    handle_table_message e is_bulk_sync db =
        if same e.node_name config.node_id
        then (db, false)
        else handle_table_event e is_bulk_sync db

    -- handleCompound of table messages.
    pub handle_compound : List TableEvent → Bool → Db → Db
    unfolding handle_table_message
    handle_compound [] is_bulk_sync db = db
    handle_compound (e ∷ parts) is_bulk_sync db =
        handle_compound parts is_bulk_sync (handle_table_message e is_bulk_sync db).0

    -- MergeRemoteState of a NetworkPushPull: a node event, and an event for each network.
    pub merge_networks : List NetworkEvent → Db → Db
    unfolding handle_network_event
    merge_networks [] db = db
    merge_networks (e ∷ es) db = merge_networks es (handle_network_event e db).0

    pub merge_remote_state : ℕ → Name → List NetworkEvent → Db → Db
    unfolding merge_networks handle_node_event
    merge_remote_state ltime node_name es db =
        merge_networks es
          (handle_node_event (record { type = join; ltime = ltime; node_name = node_name }) db).0

    -- The locked section of JoinNetwork; the entries of the other nodes come later, as table events.
    pub join_network : Name → Db → Db
    unfolding set_network
    join_network nid db =
        let ltime = clock.increment db.network_clock in
        add_network_node nid config.node_id (
          set_network config.node_id nid
            (record { ltime = ltime; in_sync = false; leaving = false; reap_time = 0 })
            (record db { network_clock = ltime }))

    leave_left : Name → ℕ → Db → Option Network → Db × Bool
    leave_left nid ltime db none = (db, false)
    leave_left nid ltime db (some n) = (
      set_network config.node_id nid
          (record n { ltime = ltime; reap_time = config.reap_network_interval; leaving = true }) db,
      true,
    )

    -- LeaveNetwork behind the message that it sends; `false` is an error.
    pub leave_network : Name → Db → Db × Bool
    unfolding leave_left set_network
    leave_network nid db =
        let ltime = clock.increment db.network_clock in
        let db' =
          delete_node_network_entries config nid config.node_id
            (delete_network_node nid config.node_id (record db { network_clock = ltime })) in
        leave_left nid ltime db' (node_network config.node_id nid db')
