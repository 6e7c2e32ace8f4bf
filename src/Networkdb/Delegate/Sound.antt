-- ===== src/Networkdb/Delegate/Sound.antt =====
-- networkdb/delegate.go: the handlers keep the invariant of the database.
use libnetwork.Prelude.{
  ℕ, ◌≡◌, refl, sym, subst, Bool, false, Option, none, some, List, [], ◌∷◌, leb, if◌then◌else◌,
  Bool-cases, inl, inr,
}
use libnetwork.Networkdb.Names.{Name, same, lookup, put}
use libnetwork.Networkdb.Radix.{Radix, IsRadix, Clock}
use libnetwork.Networkdb.State.{Config, Node, Network, Entry, Db}
use libnetwork.Networkdb.Entries.{TableEvent, delete_node_network_entries, create_or_update_entry}
use libnetwork.Networkdb.Entries.Indexes.{create_or_update-IsIndexed}
use libnetwork.Networkdb.Entries.Leave.{delete_node_network_entries-IsIndexed}
use libnetwork.Networkdb.Entries.Keeps.{Aside, delete_node_network_entries-Keeps}
use libnetwork.Networkdb.Nodes.{
  NodeState, active, left, nodes_of, set_nodes, find_node, change_node_state, add_network_node,
  delete_network_node,
}
use libnetwork.Networkdb.Nodes.Lists.{IsListed, find_node-IsListed, found-IsHome}
use libnetwork.Networkdb.Nodes.Moves.{Keeps-IsPartition}
use libnetwork.Networkdb.Nodes.Sound.{
  IsSound, write-IsSound, Aside-IsSound, put_home-IsSound, change_node_state-IsSound,
}
use libnetwork.Networkdb.Nodes.Participants.{add_network_node-Aside, delete_network_node-Aside}
use libnetwork.Networkdb.Delegate.{
  EventType, invalid, join, leave, NodeEvent, NetworkEvent, is_leave, is_some, moved_to,
  node_switch, node_found, handle_node_event, set_network, network_newer, network_first,
  network_known, network_node, handle_network_event, admitted, store_event, event_entry,
  table_stored, table_admitted, handle_table_event, handle_table_message, handle_compound,
  merge_networks, merge_remote_state, join_network, leave_left, leave_network, is_delete,
}

module _ ⦃radix : Radix Entry⦄ ⦃clock : Clock⦄ (laws : IsRadix radix) where
  moved_to_db : (r : Db × Option Bool) → (moved_to r).0 ≡ r.0
  unfolding moved_to
  moved_to_db (db, none) = refl
  moved_to_db (db, some moved) = refl

  node_switch-IsSound :
      (e : NodeEvent) (n : Node) (t : EventType) (db : Db)
      → IsSound db
      → IsSound (node_switch e n t db).0
  unfolding node_switch
  node_switch-IsSound e n invalid db h = h
  node_switch-IsSound e n join db h =
      rw (moved_to_db (change_node_state n.name active db))
        (change_node_state-IsSound laws n.name active db h)
  node_switch-IsSound e n leave db h =
      rw (moved_to_db (change_node_state n.name left db))
        (change_node_state-IsSound laws n.name left db h)

  node_found-IsSound :
      (e : NodeEvent) (db : Db) (o : Option (Node × NodeState))
      → IsListed e.node_name db o
      → IsSound db
      → IsSound (node_found e db o).0
  unfolding node_found
  node_found-IsSound e db none at h = h
  node_found-IsSound e db (some (n, s)) at h =
      let n' : Node = record n { ltime = e.ltime } in
      let db' = set_nodes s (put e.node_name n' (nodes_of s db)) db in
      let h' : IsSound db' =
        put_home-IsSound laws e.node_name n' s db (found-IsHome e.node_name n s db h.partition at)
          h in
      elim (Bool-cases (leb e.ltime n.ltime)) [
        | inl stale ↦ rw stale h
        | inr fresh ↦ elim (Bool-cases (is_some (lookup e.node_name db'.nodes))) [
          | inl known ↦ rw (fresh, known) (node_switch-IsSound e n' e.type db' h')
          | inr unknown ↦ rw (fresh, unknown) h'
        ]
      ]

  pub handle_node_event-IsSound :
      (e : NodeEvent) (db : Db) → IsSound db → IsSound (handle_node_event e db).0
  unfolding handle_node_event
  handle_node_event-IsSound e db h =
      let db' = record db { network_clock = clock.witness db.network_clock e.ltime } in
      node_found-IsSound e db' (find_node e.node_name db') (find_node-IsListed e.node_name db')
        (Aside-IsSound db db' (refl, refl, refl, refl, refl) h)

  pub delete_node_network_entries-IsSound :
      (config : Config) (nid node : Name) (db : Db)
      → IsSound db
      → IsSound (delete_node_network_entries config nid node db)
  delete_node_network_entries-IsSound config nid node db h = record {
    indexed = delete_node_network_entries-IsIndexed laws config nid node db h.indexed;
    partition =
        Keeps-IsPartition db _ (delete_node_network_entries-Keeps config nid node db) h.partition;
  }

  module _ (config : Config) where
    set_network-Aside :
        (node nid : Name) (n : Network) (db : Db) → Aside db (set_network node nid n db)
    unfolding set_network
    set_network-Aside node nid n db = (refl, refl, refl, refl, refl)

    set_network-IsSound :
        (node nid : Name) (n : Network) (db : Db) → IsSound db → IsSound (set_network node nid n db)
    set_network-IsSound node nid n db h = Aside-IsSound db _ (set_network-Aside node nid n db) h

    add_network_node-IsSound :
        (nid node : Name) (db : Db) → IsSound db → IsSound (add_network_node nid node db)
    add_network_node-IsSound nid node db h =
        Aside-IsSound db _ (add_network_node-Aside nid node db) h

    delete_network_node-IsSound :
        (nid node : Name) (db : Db) → IsSound db → IsSound (delete_network_node nid node db)
    delete_network_node-IsSound nid node db h =
        Aside-IsSound db _ (delete_network_node-Aside nid node db) h

    network_newer-IsSound :
        (e : NetworkEvent) (n : Network) (db : Db)
        → IsSound db
        → IsSound (network_newer config e n db)
    unfolding network_newer
    network_newer-IsSound e n db h = elim (Bool-cases (is_leave e.type)) [
      | inl leaves ↦ rw leaves (
          delete_network_node-IsSound e.network_id e.node_name _ (
            delete_node_network_entries-IsSound config e.network_id e.node_name _
              (set_network-IsSound e.node_name e.network_id _ db h)))
      | inr joins ↦ rw joins (
          add_network_node-IsSound e.network_id e.node_name _
            (set_network-IsSound e.node_name e.network_id _ db h))
    ]

    network_first-IsSound :
        (e : NetworkEvent) (db : Db) → IsSound db → IsSound (network_first config e db).0
    unfolding network_first
    network_first-IsSound e db h = elim (Bool-cases (is_leave e.type)) [
      | inl leaves ↦ rw leaves h
      | inr joins ↦ elim (Bool-cases (is_some (lookup e.node_name db.nodes))) [
        | inl known ↦
            rw (joins, known)
              (add_network_node-IsSound e.network_id e.node_name _
                (set_network-IsSound e.node_name e.network_id _ db h))
        | inr unknown ↦ rw (joins, unknown) h
      ]
    ]

    network_known-IsSound :
        (e : NetworkEvent) (db : Db) (o : Option Network)
        → IsSound db
        → IsSound (network_known config e db o).0
    unfolding network_known
    network_known-IsSound e db none h = network_first-IsSound e db h
    network_known-IsSound e db (some n) h = elim (Bool-cases (leb e.ltime n.ltime)) [
      | inl stale ↦ rw stale h
      | inr fresh ↦ rw fresh (network_newer-IsSound e n db h)
    ]

    network_node-IsSound :
        (e : NetworkEvent) (db : Db) (o : Option (List (Name × Network)))
        → IsSound db
        → IsSound (network_node config e db o).0
    unfolding network_node
    network_node-IsSound e db (some networks) h =
        network_known-IsSound e db (lookup e.network_id networks) h
    network_node-IsSound e db none h = elim (Bool-cases (is_leave e.type)) [
      | inl leaves ↦ rw leaves h
      | inr joins ↦
          let db' = record db { networks = put e.node_name [] db.networks } in
          subst (λ b. IsSound (if b then (db, false) else network_known config e db' none).0)
            (sym joins)
            (network_known-IsSound e db' none
              (Aside-IsSound db db' (refl, refl, refl, refl, refl) h))
    ]

    pub handle_network_event-IsSound :
        (e : NetworkEvent) (db : Db) → IsSound db → IsSound (handle_network_event config e db).0
    unfolding handle_network_event
    handle_network_event-IsSound e db h =
        let db' = record db { network_clock = clock.witness db.network_clock e.ltime } in
        let h' : IsSound db' = Aside-IsSound db db' (refl, refl, refl, refl, refl) h in
        elim (Bool-cases (same e.node_name config.node_id)) [
          | inl own ↦ rw own h'
          | inr other ↦ rw other (network_node-IsSound e db' (lookup e.node_name db'.networks) h')
        ]

    -- An entry is stored, and then what watchers are sent is written, or not.
    store_event-IsSound :
        (e : TableEvent) (db : Db) → IsSound db → IsSound (store_event config e db)
    unfolding store_event create_or_update_entry
    store_event-IsSound e db h =
        let to = create_or_update_entry e.network_id e.table_name e.key (event_entry config e) db in
        record {
          indexed =
              create_or_update-IsIndexed laws e.table_name e.network_id e.key (event_entry config e)
                db h.indexed;
          partition = Keeps-IsPartition db to (refl, refl, refl, refl, refl) h.partition;
        }

    table_stored-IsSound :
        (e : TableEvent) (b : Bool) (n : Network) (db : Db) (o : Option Entry)
        → IsSound db
        → IsSound (table_stored config e b n db o).0
    unfolding table_stored
    table_stored-IsSound e b n db (some old) h = elim (Bool-cases (leb e.ltime old.ltime)) [
      | inl stale ↦ rw stale h
      | inr fresh ↦ rw fresh (write-IsSound laws _ _ (store_event-IsSound e db h))
    ]
    table_stored-IsSound e b n db none h = elim (Bool-cases (is_delete e.kind)) [
      | inr kept ↦ rw kept (write-IsSound laws _ _ (store_event-IsSound e db h))
      | inl gone ↦ elim (Bool-cases b) [
        | inl bulk ↦ rw (gone, bulk) (store_event-IsSound e db h)
        | inr single ↦ rw (gone, single) h
      ]
    ]

    table_admitted-IsSound :
        (e : TableEvent) (b : Bool) (db : Db) (o : Option Network)
        → IsSound db
        → IsSound (table_admitted config e b db o).0
    unfolding table_admitted
    table_admitted-IsSound e b db none h = h
    table_admitted-IsSound e b db (some n) h = table_stored-IsSound e b n db _ h

    pub handle_table_message-IsSound :
        (e : TableEvent) (b : Bool) (db : Db)
        → IsSound db
        → IsSound (handle_table_message config e b db).0
    unfolding handle_table_message handle_table_event
    handle_table_message-IsSound e b db h =
        let db' = record db { table_clock = clock.witness db.table_clock e.ltime } in
        let h' : IsSound db' = Aside-IsSound db db' (refl, refl, refl, refl, refl) h in
        elim (Bool-cases (same e.node_name config.node_id)) [
          | inl own ↦ rw own h
          | inr other ↦ rw other (table_admitted-IsSound e b db' (admitted config e db') h')
        ]

    pub handle_compound-IsSound :
        (parts : List TableEvent) (b : Bool) (db : Db)
        → IsSound db
        → IsSound (handle_compound config parts b db)
    unfolding handle_compound
    handle_compound-IsSound [] b db h = h
    handle_compound-IsSound (e ∷ parts) b db h =
        handle_compound-IsSound parts b (handle_table_message config e b db).0
          (handle_table_message-IsSound e b db h)

    merge_networks-IsSound :
        (es : List NetworkEvent) (db : Db) → IsSound db → IsSound (merge_networks config es db)
    unfolding merge_networks
    merge_networks-IsSound [] db h = h
    merge_networks-IsSound (e ∷ es) db h =
        merge_networks-IsSound es (handle_network_event config e db).0
          (handle_network_event-IsSound e db h)

    pub merge_remote_state-IsSound :
        (ltime : ℕ) (name : Name) (es : List NetworkEvent) (db : Db)
        → IsSound db
        → IsSound (merge_remote_state config ltime name es db)
    unfolding merge_remote_state
    merge_remote_state-IsSound ltime name es db h =
        merge_networks-IsSound es _
          (handle_node_event-IsSound (record { type = join; ltime = ltime; node_name = name }) db h)

    pub join_network-IsSound :
        (nid : Name) (db : Db) → IsSound db → IsSound (join_network config nid db)
    unfolding join_network
    join_network-IsSound nid db h =
        let db' = record db { network_clock = clock.increment db.network_clock } in
        add_network_node-IsSound nid config.node_id _ (
          set_network-IsSound config.node_id nid _ db'
            (Aside-IsSound db db' (refl, refl, refl, refl, refl) h))

    leave_left-IsSound :
        (nid : Name) (ltime : ℕ) (db : Db) (o : Option Network)
        → IsSound db
        → IsSound (leave_left config nid ltime db o).0
    unfolding leave_left
    leave_left-IsSound nid ltime db none h = h
    leave_left-IsSound nid ltime db (some n) h = set_network-IsSound config.node_id nid _ db h

    pub leave_network-IsSound :
        (nid : Name) (db : Db) → IsSound db → IsSound (leave_network config nid db).0
    unfolding leave_network
    leave_network-IsSound nid db h =
        let db' = record db { network_clock = clock.increment db.network_clock } in
        leave_left-IsSound nid _ _ _ (
          delete_node_network_entries-IsSound config nid config.node_id _ (
            delete_network_node-IsSound nid config.node_id db'
              (Aside-IsSound db db' (refl, refl, refl, refl, refl) h)))
