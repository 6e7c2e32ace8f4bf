-- ===== src/Networkdb/Reap.antt =====
-- networkdb/cluster.go: the reapers, which the timers run. The time that reapTableEntries has taken at an
-- item is given. A reap time of a network that would go below 0 is 0.
use libnetwork.Prelude.{
  ℕ, ◌+◌, ◌-◌, ◌*◌, ◌==◌, ltb, ◌≡◌, refl, ◌∙◌, Bool, not, ◌&&◌, Option, none, some, List, [], ◌∷◌,
  if◌then◌else◌, map, Bool-cases, inl, inr,
}
use libnetwork.Networkdb.Names.{Name, same, lookup}
use libnetwork.Networkdb.Radix.{Radix, IsRadix, Path3}
use libnetwork.Networkdb.State.{Config, Node, Network, Entry, Db}
use libnetwork.Networkdb.Entries.{create_or_update_entry, delete_entry, for_each, second}
use libnetwork.Networkdb.Entries.Indexes.{
  for_each_keeps, IsIndexed, create_or_update-IsIndexed, delete_entry-IsIndexed,
}
use libnetwork.Networkdb.Entries.Keeps.{Keeps}
use libnetwork.Networkdb.Nodes.{NodeState, active, left, failed}
use libnetwork.Networkdb.Nodes.Lists.{listed, IsPartition}
use libnetwork.Networkdb.Nodes.Moves.{Keeps-IsPartition}
use libnetwork.Networkdb.Nodes.Sound.{IsSound}
use libnetwork.Networkdb.Delegate.{is_past}

abbrev node_reap_period : ℕ
node_reap_period = 7200 * second

abbrev reap_period : ℕ
reap_period = 5 * second

reaped_nodes : List (Name × Node) → List (Name × Node)
reaped_nodes [] = []
reaped_nodes ((k, n) ∷ nodes) =
    let rest = reaped_nodes nodes in
    if ltb node_reap_period n.reap_time
    then (k, record n { reap_time = n.reap_time - node_reap_period }) ∷ rest
    else rest

reaped_networks : List (Name × Network) → List (Name × Network)
reaped_networks [] = []
reaped_networks ((k, n) ∷ networks) =
    let rest = reaped_networks networks in
    if n.leaving
    then if n.reap_time == 0
      then rest
      else (k, record n { reap_time = n.reap_time - reap_period }) ∷ rest
    else (k, n) ∷ rest

names_of : Option (List (Name × Network)) → List Name
names_of none = []
names_of (some networks) = map (λ n. n.0) networks

-- Whether the time of a deleted entry is over.
abbrev is_over : ℕ → Entry → Bool
is_over taken e = not (is_past (reap_period + taken + second) e.reap_time)

module _ ⦃radix : Radix Entry⦄ where
  pub reap_dead_node : Db → Db
  unfolding reaped_nodes
  reap_dead_node db = record db {
    failed_nodes = reaped_nodes db.failed_nodes;
    left_nodes = reaped_nodes db.left_nodes;
  }

  pub reap_networks : Db → Db
  unfolding reaped_networks
  reap_networks db = record db { networks = map (λ nn. (nn.0, reaped_networks nn.1)) db.networks }

  -- The callback of reapTableEntries; an entry is changed through the pointer that both trees hold.
  reap_callback : (Path3 → ℕ) → Path3 → Entry → Db → Db
  reap_callback taken (nid, tname, key) e db =
      if e.deleting
      then if is_over (taken (nid, tname, key)) e
        then delete_entry nid tname key db
        else create_or_update_entry nid tname key
            (record e { reap_time = e.reap_time - (reap_period + taken (nid, tname, key)) }) db
      else db

  reap_network_entries : (Path3 → ℕ) → Name → Db → Db
  unfolding reap_callback
  reap_network_entries taken nid db =
      for_each (reap_callback taken)
        (radix.walk_prefix nid (λ p e. e.deleting && is_over (taken p) e) db.by_network) db

  reap_each : (Name → Path3 → ℕ) → List Name → Db → Db
  unfolding reap_network_entries
  reap_each taken [] db = db
  reap_each taken (nid ∷ nids) db = reap_each taken nids (reap_network_entries (taken nid) nid db)

  pub reap_table_entries : Config → (Name → Path3 → ℕ) → Db → Db
  unfolding reap_each names_of
  reap_table_entries config taken db =
      reap_each taken (names_of (lookup config.node_id db.networks)) db

  lookup-reaped_nodes :
      (x : Name) (nodes : List (Name × Node))
      → lookup x nodes ≡ none
      → lookup x (reaped_nodes nodes) ≡ none
  unfolding lookup reaped_nodes
  lookup-reaped_nodes x [] h = refl
  lookup-reaped_nodes x ((k, n) ∷ nodes) h = elim (Bool-cases (same k x)) [
    | inl here ↦ absurd (let bad : (let o : Option Node = none in some n ≡ o) = rw here at h in cc)
    | inr apart ↦
        let rest = lookup-reaped_nodes x nodes (rw apart at h) in
        elim (Bool-cases (ltb node_reap_period n.reap_time)) [
          | inl kept ↦ rw (kept, apart) rest
          | inr over ↦ rw over rest
        ]
  ]

  pub reap_dead_node-IsPartition : (db : Db) → IsPartition db → IsPartition (reap_dead_node db)
  unfolding reap_dead_node
  reap_dead_node-IsPartition db partition x =
      let (home, others) = partition x in (home, (λ s other. go s (others s other)))
    where
      go : (s : NodeState) → listed x s db ≡ none → listed x s (reap_dead_node db) ≡ none
      go active h = h
      go left h = lookup-reaped_nodes x db.left_nodes h
      go failed h = lookup-reaped_nodes x db.failed_nodes h

  pub reap_dead_node-IsIndexed : (db : Db) → IsIndexed db → IsIndexed (reap_dead_node db)
  unfolding reap_dead_node
  reap_dead_node-IsIndexed db h = h

  reap_callback-Keeps :
      (db : Db) (taken : Path3 → ℕ) (p : Path3) (e : Entry) (db' : Db)
      → Keeps db db'
      → Keeps db (reap_callback taken p e db')
  unfolding reap_callback create_or_update_entry delete_entry
  reap_callback-Keeps db taken (n, t, k) e db' h = elim (Bool-cases e.deleting) [
    | inr kept ↦ rw kept h
    | inl gone ↦ elim (Bool-cases (is_over (taken (n, t, k)) e)) [
      | inl over ↦ rw (gone, over) h
      | inr more ↦ rw (gone, more) h
    ]
  ]

  module _ (laws : IsRadix radix) where
    reap_callback-IsIndexed :
        (taken : Path3 → ℕ) (p : Path3) (e : Entry) (db : Db)
        → IsIndexed db
        → IsIndexed (reap_callback taken p e db)
    unfolding reap_callback
    reap_callback-IsIndexed taken (n, t, k) e db h = elim (Bool-cases e.deleting) [
      | inr kept ↦ rw kept h
      | inl gone ↦ elim (Bool-cases (is_over (taken (n, t, k)) e)) [
        | inl over ↦ rw (gone, over) (delete_entry-IsIndexed laws t n k db h)
        | inr more ↦ rw (gone, more) (create_or_update-IsIndexed laws t n k _ db h)
      ]
    ]

    reap_network_entries-IsSound :
        (taken : Path3 → ℕ) (nid : Name) (db : Db)
        → IsSound db
        → IsSound (reap_network_entries taken nid db)
    unfolding reap_network_entries
    reap_network_entries-IsSound taken nid db h =
        let items =
          radix.walk_prefix nid (λ p e. e.deleting && is_over (taken p) e) db.by_network in
        record {
          indexed =
              for_each_keeps IsIndexed (reap_callback taken) (reap_callback-IsIndexed taken) items
                db h.indexed;
          partition =
              Keeps-IsPartition db (for_each (reap_callback taken) items db)
                (for_each_keeps (Keeps db) (reap_callback taken) (reap_callback-Keeps db taken)
                  items db (refl, refl, refl, refl, refl))
                h.partition;
        }

    reap_each-IsSound :
        (taken : Name → Path3 → ℕ) (nids : List Name) (db : Db)
        → IsSound db
        → IsSound (reap_each taken nids db)
    unfolding reap_each
    reap_each-IsSound taken [] db h = h
    reap_each-IsSound taken (nid ∷ nids) db h =
        reap_each-IsSound taken nids (reap_network_entries (taken nid) nid db)
          (reap_network_entries-IsSound (taken nid) nid db h)

    pub reap_table_entries-IsSound :
        (config : Config) (taken : Name → Path3 → ℕ) (db : Db)
        → IsSound db
        → IsSound (reap_table_entries config taken db)
    unfolding reap_table_entries
    reap_table_entries-IsSound config taken db h =
        reap_each-IsSound taken (names_of (lookup config.node_id db.networks)) db h

  pub reap_networks-IsSound : (db : Db) → IsSound db → IsSound (reap_networks db)
  unfolding reap_networks
  reap_networks-IsSound db h = record { indexed = h.indexed; partition = parts }
    where
      same_lists : (x : Name) (s : NodeState) → listed x s (reap_networks db) ≡ listed x s db
      same_lists x active = refl
      same_lists x left = refl
      same_lists x failed = refl

      parts : IsPartition (reap_networks db)
      parts x =
          let (home, others) = h.partition x in (home, (λ s other. same_lists x s ∙ others s other))
