-- ===== src/Networkdb/State.antt =====
-- networkdb/networkdb.go: the structs. The statistics, the broadcast queues and what reaches the
-- network are left out; the events that watchers are sent are kept, the latest first.
use libnetwork.Prelude.{ℕ, Bool, List, ◌∷◌}
use libnetwork.Networkdb.Names.{Name}
use libnetwork.Networkdb.Radix.{Radix}

-- Times are in nanoseconds.
pub record Config : Type 0 where
  pub node_id : Name
  pub reap_entry_interval : ℕ
  pub reap_network_interval : ℕ

-- `node`, with the address and the port of its memberlist.Node.
pub record Node : Type 0 where
  pub name : Name
  pub addr : ℕ
  pub port : ℕ
  pub ltime : ℕ
  pub reap_time : ℕ

pub record Network : Type 0 where
  pub ltime : ℕ
  pub in_sync : Bool
  pub leaving : Bool
  pub reap_time : ℕ

pub record Entry : Type 0 where
  pub node : Name
  pub ltime : ℕ
  pub value : List ℕ
  pub deleting : Bool
  pub reap_time : ℕ

pub data OpType : Type 0 where
  op_create op_update op_delete : OpType

-- What watchers are sent: of an entry, its table, network and key with its value; of a node, its
-- address.
pub data Notice : Type 0 where
  of_entry : OpType → Name → Name → Name → List ℕ → Notice
  of_node : OpType → ℕ → Notice

module _ ⦃radix : Radix Entry⦄ where
  pub record Db : Type 0 where
    pub network_clock : ℕ
    pub table_clock : ℕ
    pub by_table : radix.Tree
    pub by_network : radix.Tree
    pub nodes : List (Name × Node)
    pub failed_nodes : List (Name × Node)
    pub left_nodes : List (Name × Node)
    pub networks : List (Name × List (Name × Network))
    pub network_nodes : List (Name × List Name)
    pub events : List Notice

  abbrev pub write : Notice → Db → Db
  write e db = record db { events = e ∷ db.events }
