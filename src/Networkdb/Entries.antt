-- ===== src/Networkdb/Entries.antt =====
-- networkdb/networkdb.go and networkdb/broadcast.go: the table entries. Both trees hold the same
-- entries, one by table and one by network. What a call sends to the cluster is its result.
pub mod Indexes
pub mod Leave
pub mod Keeps
pub mod Own
use libnetwork.Prelude.{
  ℕ, ◌+◌, ◌/◌, ◌^◌, ◌%◌, Bool, true, false, not, ◌&&◌, Option, none, some, List, [], ◌∷◌,
  if◌then◌else◌,
}
use libnetwork.Prelude.Result.{Result, ok, err}
use libnetwork.Networkdb.Names.{Name, same, is_prefix, lookup}
use libnetwork.Networkdb.Radix.{Radix, Clock, Path3}
use libnetwork.Networkdb.State.{Config, Network, Entry, Db, of_entry, OpType, op_delete, write}

pub data EventKind : Type 0 where
  create update delete_kind : EventKind

pub record TableEvent : Type 0 where
  pub kind : EventKind
  pub ltime : ℕ
  pub node_name : Name
  pub network_id : Name
  pub table_name : Name
  pub key : Name
  pub value : List ℕ
  pub residual_reap_time : ℕ

pub data EntryError : Type 0 where
  -- "already exists", "does not exist", "does not exist or is already being deleted"
  already_exists does_not_exist deleted : EntryError

abbrev pub second : ℕ
second = 1000000000

-- Which entries the callbacks of deleteNodeTableEntries and deleteNodeNetworkEntries delete.
abbrev pub purge_deletes : Name → Path3 → Entry → Bool
purge_deletes node p e = same e.node node

abbrev pub leave_deletes : Config → Name → Path3 → Entry → Bool
leave_deletes config node p e = not (same e.node node) && same node config.node_id

module _ ⦃radix : Radix Entry⦄ where
  unfoldable pub get_entry : Name → Name → Name → Db → Option Entry
  get_entry tname nid key db = radix.get (tname, nid, key) db.by_table

  visible : Option Entry → Result EntryError (List ℕ)
  visible none = err does_not_exist
  visible (some e) = if e.deleting then err deleted else ok e.value

  -- GetEntry
  pub get_value : Name → Name → Name → Db → Result EntryError (List ℕ)
  unfolding visible get_entry
  get_value tname nid key db = visible (get_entry tname nid key db)

  unfoldable pub create_or_update_entry : Name → Name → Name → Entry → Db → Db
  create_or_update_entry nid tname key e db = record db {
    by_table = radix.insert (tname, nid, key) e db.by_table;
    by_network = radix.insert (nid, tname, key) e db.by_network;
  }

  unfoldable pub delete_entry : Name → Name → Name → Db → Db
  delete_entry nid tname key db = record db {
    by_table = radix.delete (tname, nid, key) db.by_table;
    by_network = radix.delete (nid, tname, key) db.by_network;
  }

  -- nDB.networks[node][nid]
  unfoldable pub node_network : Name → Name → Db → Option Network
  node_network node nid db = elim (lookup node db.networks) [
    | none ↦ none
    | some networks ↦ lookup nid networks
  ]

  queued : TableEvent → Option Network → Option TableEvent
  queued e none = none
  queued e (some n) = some e

  -- sendTableEvent: the event is queued where this node is attached to the network. The reap time is
  -- sent in whole seconds, as an int32 in two's complement.
  pub send_table_event : Config → EventKind → Name → Name → Name → Entry → Db → Option TableEvent
  unfolding queued node_network
  send_table_event config kind nid tname key e db =
      queued
        (record {
          kind = kind;
          ltime = e.ltime;
          node_name = config.node_id;
          network_id = nid;
          table_name = tname;
          key = key;
          value = e.value;
          residual_reap_time = (e.reap_time / second) % 2 ^ 32;
        })
        (node_network config.node_id nid db)

  -- A new entry of this node at the next time of the table clock, stored and sent.
  stored :
      Config
      → EventKind
      → Name
      → Name
      → Name
      → Entry
      → Db
      → Db × Result EntryError (Option TableEvent)
  unfolding create_or_update_entry send_table_event
  stored config kind tname nid key e db =
      let db' = create_or_update_entry nid tname key e (record db { table_clock = e.ltime }) in
      (db', ok (send_table_event config kind nid tname key e db'))

  module _ ⦃clock : Clock⦄ (config : Config) (tname nid key : Name) where
    own_entry : List ℕ → Bool → ℕ → Db → Entry
    own_entry value deleting reap_time db = record {
      node = config.node_id;
      ltime = clock.increment db.table_clock;
      value = value;
      deleting = deleting;
      reap_time = reap_time;
    }

    create_with : List ℕ → Db → Option Entry → Db × Result EntryError (Option TableEvent)
    unfolding stored own_entry
    create_with value db (some old) = (db, err already_exists)
    create_with value db none = stored config create tname nid key (own_entry value false 0 db) db

    pub create_entry : List ℕ → Db → Db × Result EntryError (Option TableEvent)
    unfolding create_with get_entry
    create_entry value db = create_with value db (get_entry tname nid key db)

    update_with : List ℕ → Db → Option Entry → Db × Result EntryError (Option TableEvent)
    unfolding stored own_entry
    update_with value db none = (db, err does_not_exist)
    update_with value db (some old) =
        stored config update tname nid key (own_entry value false 0 db) db

    pub update_entry : List ℕ → Db → Db × Result EntryError (Option TableEvent)
    unfolding update_with get_entry
    update_entry value db = update_with value db (get_entry tname nid key db)

    remove_with : Db → Option Entry → Db × Result EntryError (Option TableEvent)
    unfolding stored own_entry
    remove_with db none = (db, err deleted)
    remove_with db (some old) =
        if old.deleting
        then (db, err deleted)
        else stored config delete_kind tname nid key
            (own_entry old.value true config.reap_entry_interval db) db

    -- DeleteEntry
    pub remove_entry : Db → Db × Result EntryError (Option TableEvent)
    unfolding remove_with get_entry
    remove_entry db = remove_with db (get_entry tname nid key db)

  -- The callback of a walk, on the items that the walk visits.
  pub for_each : (Path3 → Entry → Db → Db) → List (Path3 × Entry) → Db → Db
  for_each f [] db = db
  for_each f ((p, e) ∷ items) db = for_each f items (f p e db)

  notify_deleted : Name → Name → Name → Entry → Db → Db
  notify_deleted tname nid key old db =
      if old.deleting then db else write (of_entry op_delete tname nid key old.value) db

  leave_entry : Config → Name → Path3 → Entry → Db → Db
  unfolding create_or_update_entry delete_entry
  leave_entry config node (nid, tname, key) old db =
      let is_local = same node config.node_id in
      let marked : Entry = record old {
        deleting = true;
        reap_time = config.reap_entry_interval;
        ltime = if is_local then (old.ltime + 1) % 2 ^ 64 else old.ltime;
      } in
      if same old.node node
      then if old.deleting then db else create_or_update_entry nid tname key marked db
      else delete_entry nid tname key db

  -- The callback of deleteNodeNetworkEntries.
  pub leave_callback : Config → Name → Path3 → Entry → Db → Db
  unfolding leave_entry notify_deleted
  leave_callback config node (nid, tname, key) old db =
      let is_local = same node config.node_id in
      if not (same old.node node) && not is_local
      then db
      else if old.deleting && not is_local
      then db
      else notify_deleted tname nid key old (leave_entry config node (nid, tname, key) old db)

  pub delete_node_network_entries : Config → Name → Name → Db → Db
  unfolding for_each leave_callback
  delete_node_network_entries config nid node db =
      for_each (leave_callback config node)
        (radix.walk_prefix nid (leave_deletes config node) db.by_network) db

  -- The callback of deleteNodeTableEntries.
  pub purge_callback : Name → Path3 → Entry → Db → Db
  unfolding delete_entry notify_deleted
  purge_callback node (tname, nid, key) old db =
      if same old.node node
      then notify_deleted tname nid key old (delete_entry nid tname key db)
      else db

  pub delete_node_table_entries : Name → Db → Db
  unfolding for_each purge_callback
  delete_node_table_entries node db =
      for_each (purge_callback node) (radix.walk (purge_deletes node) db.by_table) db
