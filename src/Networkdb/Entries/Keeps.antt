-- ===== src/Networkdb/Entries/Keeps.antt =====
-- networkdb/networkdb.go: what the calls that walk the entries leave alone.
use libnetwork.Prelude.{◌≡◌, refl, ◌∙◌, not, ◌&&◌, Bool-cases, inl, inr}
use libnetwork.Networkdb.Names.{Name, same}
use libnetwork.Networkdb.Radix.{Radix, Path3}
use libnetwork.Networkdb.State.{Config, Entry, Db}
use libnetwork.Networkdb.Entries.{
  create_or_update_entry, delete_entry, notify_deleted, leave_entry, leave_callback, purge_deletes,
  leave_deletes, purge_callback, delete_node_network_entries, delete_node_table_entries,
}
use libnetwork.Networkdb.Entries.Indexes.{for_each_keeps}

module _ ⦃radix : Radix Entry⦄ where
  -- The second database has the nodes and the networks of the first.
  abbrev pub Keeps : Db → Db → Type 0
  Keeps db db' =
      (db'.nodes ≡ db.nodes)
      × (db'.left_nodes ≡ db.left_nodes)
      × (db'.failed_nodes ≡ db.failed_nodes)
      × (db'.networks ≡ db.networks)
      × (db'.network_nodes ≡ db.network_nodes)

  purge_callback-Keeps :
      (db : Db) (node : Name) (p : Path3) (e : Entry) (db' : Db)
      → Keeps db db'
      → Keeps db (purge_callback node p e db')
  unfolding purge_callback notify_deleted delete_entry
  purge_callback-Keeps db node (t, n, k) e db' h = elim (Bool-cases (same e.node node)) [
    | inr other ↦ rw other h
    | inl own ↦ elim (Bool-cases e.deleting) [
      | inl gone ↦ rw (own, gone) h
      | inr there ↦ rw (own, there) h
    ]
  ]

  pub delete_node_table_entries-Keeps :
      (node : Name) (db : Db) → Keeps db (delete_node_table_entries node db)
  unfolding delete_node_table_entries
  delete_node_table_entries-Keeps node db =
      for_each_keeps (Keeps db) (purge_callback node) (purge_callback-Keeps db node)
        (radix.walk (purge_deletes node) db.by_table) db (refl, refl, refl, refl, refl)

  leave_entry-Keeps :
      (config : Config) (node : Name) (p : Path3) (e : Entry) (db : Db)
      → Keeps db (leave_entry config node p e db)
  unfolding leave_entry create_or_update_entry delete_entry
  leave_entry-Keeps config node (n, t, k) e db = elim (Bool-cases (same e.node node)) [
    | inr other ↦ rw other (refl, refl, refl, refl, refl)
    | inl own ↦ elim (Bool-cases e.deleting) [
      | inl gone ↦ rw (own, gone) (refl, refl, refl, refl, refl)
      | inr there ↦ rw (own, there) (refl, refl, refl, refl, refl)
    ]
  ]

  Keeps-trans : (a b c : Db) → Keeps a b → Keeps b c → Keeps a c
  Keeps-trans a b c (p1, p2, p3, p4, p5) (q1, q2, q3, q4, q5) =
      (q1 ∙ p1, q2 ∙ p2, q3 ∙ p3, q4 ∙ p4, q5 ∙ p5)

  notify_deleted-Keeps : (t n k : Name) (e : Entry) (db : Db) → Keeps db (notify_deleted t n k e db)
  unfolding notify_deleted
  notify_deleted-Keeps t n k e db = elim (Bool-cases e.deleting) [
    | inl gone ↦ rw gone (refl, refl, refl, refl, refl)
    | inr there ↦ rw there (refl, refl, refl, refl, refl)
  ]

  leave_callback-Keeps :
      (db : Db) (config : Config) (node : Name) (p : Path3) (e : Entry) (db' : Db)
      → Keeps db db'
      → Keeps db (leave_callback config node p e db')
  unfolding leave_callback
  leave_callback-Keeps db config node (n, t, k) e db' h =
      let left_db = leave_entry config node (n, t, k) e db' in
      let told = notify_deleted t n k e left_db in
      let all : Keeps db told = Keeps-trans db db' told h (
        Keeps-trans db' left_db told (leave_entry-Keeps config node (n, t, k) e db')
          (notify_deleted-Keeps t n k e left_db)) in
      elim (Bool-cases (not (same e.node node) && not (same node config.node_id))) [
        | inl skip ↦ rw skip h
        | inr visits ↦ elim (Bool-cases (e.deleting && not (same node config.node_id))) [
          | inl skip ↦ rw (visits, skip) h
          | inr go ↦ rw (visits, go) all
        ]
      ]

  pub delete_node_network_entries-Keeps :
      (config : Config) (nid node : Name) (db : Db)
      → Keeps db (delete_node_network_entries config nid node db)
  unfolding delete_node_network_entries
  delete_node_network_entries-Keeps config nid node db =
      for_each_keeps (Keeps db) (leave_callback config node) (leave_callback-Keeps db config node)
        (radix.walk_prefix nid (leave_deletes config node) db.by_network) db
        (refl, refl, refl, refl, refl)

  -- The second database has the entries and the nodes of the first.
  abbrev pub Aside : Db → Db → Type 0
  Aside a b =
      (b.by_table ≡ a.by_table)
      × (b.by_network ≡ a.by_network)
      × (b.nodes ≡ a.nodes)
      × (b.left_nodes ≡ a.left_nodes)
      × (b.failed_nodes ≡ a.failed_nodes)

  pub Aside-trans : (a b c : Db) → Aside a b → Aside b c → Aside a c
  Aside-trans a b c (p1, p2, p3, p4, p5) (q1, q2, q3, q4, q5) =
      (q1 ∙ p1, q2 ∙ p2, q3 ∙ p3, q4 ∙ p4, q5 ∙ p5)
