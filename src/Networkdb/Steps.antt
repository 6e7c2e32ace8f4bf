-- ===== src/Networkdb/Steps.antt =====
-- networkdb/: the calls and the events that change the database, as steps, and the databases that a node
-- reaches by them from its start.
use libnetwork.Prelude.{ℕ, ◌≡◌, refl, sym, ◌∙◌, Bool, none, List, []}
use libnetwork.Networkdb.Names.{Name, lookup}
use libnetwork.Networkdb.Radix.{Radix, IsRadix, Clock, Path3}
use libnetwork.Networkdb.State.{Config, Node, Entry, Db}
use libnetwork.Networkdb.Entries.{TableEvent}
use libnetwork.Networkdb.Entries.Own.{Call, run, run-IsIndexed, run-Keeps}
use libnetwork.Networkdb.Nodes.{NodeState, active, left, failed, notify_join, notify_leave}
use libnetwork.Networkdb.Nodes.Lists.{listed}
use libnetwork.Networkdb.Nodes.Moves.{Keeps-IsPartition}
use libnetwork.Networkdb.Nodes.Sound.{IsSound, notify_join-IsSound, notify_leave-IsSound}
use libnetwork.Networkdb.Delegate.{
  NodeEvent, NetworkEvent, handle_node_event, handle_network_event, handle_table_message,
  handle_compound, merge_remote_state, join_network, leave_network,
}
use libnetwork.Networkdb.Delegate.Sound.{
  handle_node_event-IsSound, handle_network_event-IsSound, handle_table_message-IsSound,
  handle_compound-IsSound, merge_remote_state-IsSound, join_network-IsSound, leave_network-IsSound,
}
use libnetwork.Networkdb.Reap.{
  reap_dead_node, reap_networks, reap_table_entries, reap_dead_node-IsIndexed,
  reap_dead_node-IsPartition, reap_networks-IsSound, reap_table_entries-IsSound,
}

module _ ⦃radix : Radix Entry⦄ where
  -- The database of New.
  unfoldable pub new_db : Db
  new_db = record {
    network_clock = 0;
    table_clock = 0;
    by_table = radix.empty;
    by_network = radix.empty;
    nodes = [];
    failed_nodes = [];
    left_nodes = [];
    networks = [];
    network_nodes = [];
    events = [];
  }

module _ ⦃radix : Radix Entry⦄ ⦃clock : Clock⦄ (config : Config) where
  pub data Step : Db → Db → Type 0 where
    wrote :
        (tname nid key : Name) (call : Call) (db : Db)
        → Step db (run config tname nid key call db).0
    joined : (nid : Name) (db : Db) → Step db (join_network config nid db)
    parted : (nid : Name) (db : Db) → Step db (leave_network config nid db).0
    met : (mn : Node) (db : Db) → Step db (notify_join mn db)
    lost : (mn : Node) (db : Db) → Step db (notify_leave mn db)
    node_told : (e : NodeEvent) (db : Db) → Step db (handle_node_event e db).0
    network_told : (e : NetworkEvent) (db : Db) → Step db (handle_network_event config e db).0
    table_told :
        (e : TableEvent) (is_bulk_sync : Bool) (db : Db)
        → Step db (handle_table_message config e is_bulk_sync db).0
    synced :
        (parts : List TableEvent) (is_bulk_sync : Bool) (db : Db)
        → Step db (handle_compound config parts is_bulk_sync db)
    merged :
        (ltime : ℕ) (name : Name) (es : List NetworkEvent) (db : Db)
        → Step db (merge_remote_state config ltime name es db)
    dead_reaped : (db : Db) → Step db (reap_dead_node db)
    networks_reaped : (db : Db) → Step db (reap_networks db)
    entries_reaped :
        (taken : Name → Path3 → ℕ) (db : Db) → Step db (reap_table_entries config taken db)

  pub data Reach : Db → Db → Type 0 where
    start : (db : Db) → Reach db db
    step : {a b c : Db} → Reach a b → Step b c → Reach a c

  module _ (laws : IsRadix radix) where
    pub step-IsSound : {a b : Db} → Step a b → IsSound a → IsSound b
    step-IsSound (wrote tname nid key call db) h = record {
      indexed = run-IsIndexed config tname nid key laws call db h.indexed;
      partition =
          Keeps-IsPartition db (run config tname nid key call db).0
            (run-Keeps config tname nid key call db) h.partition;
    }
    step-IsSound (joined nid db) h = join_network-IsSound laws config nid db h
    step-IsSound (parted nid db) h = leave_network-IsSound laws config nid db h
    step-IsSound (met mn db) h = notify_join-IsSound laws mn db h
    step-IsSound (lost mn db) h = notify_leave-IsSound laws mn db h
    step-IsSound (node_told e db) h = handle_node_event-IsSound laws e db h
    step-IsSound (network_told e db) h = handle_network_event-IsSound laws config e db h
    step-IsSound (table_told e b db) h = handle_table_message-IsSound laws config e b db h
    step-IsSound (synced parts b db) h = handle_compound-IsSound laws config parts b db h
    step-IsSound (merged ltime name es db) h =
        merge_remote_state-IsSound laws config ltime name es db h
    step-IsSound (dead_reaped db) h = record {
      indexed = reap_dead_node-IsIndexed db h.indexed;
      partition = reap_dead_node-IsPartition db h.partition;
    }
    step-IsSound (networks_reaped db) h = reap_networks-IsSound db h
    step-IsSound (entries_reaped taken db) h = reap_table_entries-IsSound laws config taken db h

    new_db-IsSound : IsSound new_db
    unfolding new_db lookup
    new_db-IsSound = record {
      indexed = (λ t n k. laws.get-empty (n, t, k) ∙ sym (laws.get-empty (t, n, k)));
      partition = (λ x. (active, λ s other. empty s x));
    }
      where
        empty : (s : NodeState) (x : Name) → listed x s new_db ≡ none
        empty active x = refl
        empty left x = refl
        empty failed x = refl

    -- With any trees that satisfy the laws of a radix tree: in every database that a node reaches from
    -- its start, by its own calls, by events of the cluster and by its reapers in any order, both trees
    -- hold the same entries, and no node stands in two of the lists of active, left and failed nodes.
    pub Reach-IsSound : (db : Db) → Reach new_db db → IsSound db
    Reach-IsSound db r = from r new_db-IsSound
      where
        from : {a b : Db} → Reach a b → IsSound a → IsSound b
        from (start db) h = h
        from (step r s) h = step-IsSound s (from r h)
