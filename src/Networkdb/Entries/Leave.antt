-- ===== src/Networkdb/Entries/Leave.antt =====
-- networkdb/networkdb.go: deleteNodeTableEntries and deleteNodeNetworkEntries, by what they leave of
-- each entry.
use libnetwork.Prelude.{
  ◌+◌, ◌%◌, ◌^◌, ◌⊎◌, false, ◌≡◌, refl, sym, ◌∙◌, Bool, true, Option, none, some, arith,
  if◌then◌else◌, Bool-cases, inl, inr,
}
use libnetwork.Networkdb.Names.{Name, same, is_prefix}
use libnetwork.Networkdb.Radix.{Radix, IsRadix, Path3, same_path, find}
use libnetwork.Networkdb.State.{Config, Entry, Db}
use libnetwork.Networkdb.Entries.{
  get_entry, create_or_update_entry, delete_entry, purge_deletes, leave_deletes, notify_deleted,
  leave_entry, leave_callback, purge_callback, delete_node_network_entries,
  delete_node_table_entries,
}
use libnetwork.Networkdb.Entries.Indexes.{
  same_path_swap, changed, settled, for_each_keeps, for_each_at, IsIndexed,
}

-- What is left of an entry when a node leaves or fails: nothing of its own.
abbrev pub purged : Name → Option Entry → Option Entry
purged node none = none
purged node (some e) = if same e.node node then none else some e

-- An entry marked for deletion.
abbrev pub marked : Config → Bool → Entry → Entry
marked config is_local e = record e {
  deleting = true;
  reap_time = config.reap_entry_interval;
  ltime = if is_local then (e.ltime + 1) % 2 ^ 64 else e.ltime;
}

-- What is left of an entry of a network that a node leaves. A remote node's own entries are marked.
-- Where this node leaves, so are its own, and the others are gone.
abbrev pub left_over : Config → Name → Option Entry → Option Entry
left_over config node none = none
left_over config node (some e) =
    let is_local = same node config.node_id in
    if same e.node node
    then if e.deleting then some e else some (marked config is_local e)
    else if is_local
    then none
    else some e

purge_effect : Name → Path3 → Entry → Option (Option Entry)
purge_effect node p e = if same e.node node then some none else none

leave_effect : Config → Name → Path3 → Entry → Option (Option Entry)
leave_effect config node p e =
    let is_local = same node config.node_id in
    if same e.node node
    then if e.deleting then none else some (some (marked config is_local e))
    else if is_local
    then some none
    else none

settled_purge :
    (node : Name) (q : Path3) (o : Option Entry) → settled (purge_effect node) q o o ≡ purged node o
unfolding purge_effect
settled_purge node q none = refl
settled_purge node q (some e) = ground arith

settled_leave :
    (config : Config) (node : Name) (q : Path3) (o : Option Entry)
    → settled (leave_effect config node) q o o ≡ left_over config node o
unfolding leave_effect
settled_leave config node q none = refl
settled_leave config node q (some e) = ground arith

module _ ⦃radix : Radix Entry⦄ where
  -- The walks leave an item out.
  abbrev pub TableSkips : Name → Path3 → Db → Type 0
  TableSkips node q db = find q (radix.walk (purge_deletes node) db.by_table) ≡ none

  abbrev pub NetworkSkips : Config → Name → Name → Path3 → Db → Type 0
  NetworkSkips config nid node q db =
      find q (radix.walk_prefix nid (leave_deletes config node) db.by_network) ≡ none

module _ ⦃radix : Radix Entry⦄ (laws : IsRadix radix) where
  purge_callback_at :
      (node : Name) (p : Path3) (e : Entry) (db : Db) (q : Path3)
      → radix.get q (purge_callback node p e db).by_table
        ≡ changed (same_path p q) (purge_effect node p e) (radix.get q db.by_table)
  unfolding purge_callback notify_deleted delete_entry purge_effect
  purge_callback_at node (t, n, k) e db q = ground (arith, laws.get-delete (t, n, k) q db.by_table)

  -- After deleteNodeTableEntries an entry is as it was, unless the node made it: then it is gone, or
  -- the walk has left it out.
  pub delete_node_table_entries_lem :
      (node tname nid key : Name) (db : Db)
      → let new = get_entry tname nid key (delete_node_table_entries node db) in
        let old = get_entry tname nid key db in
        (new ≡ purged node old) ⊎ ((new ≡ old) × TableSkips node (tname, nid, key) db)
  unfolding get_entry delete_node_table_entries
  delete_node_table_entries_lem node tname nid key db =
      let q : Path3 = (tname, nid, key) in
      let items = radix.walk (purge_deletes node) db.by_table in
      let done =
        for_each_at (λ p d. radix.get p d.by_table) (purge_callback node) (purge_effect node)
          (purge_callback_at node) items db q
          (laws.walk_distinct (purge_deletes node) db.by_table) in
      elim (laws.find-walk (purge_deletes node) q db.by_table) [
        | inl skipped ↦ inr (done ∙ (rw skipped refl), skipped)
        | inr seen ↦ inl (done ∙ (rw seen (settled_purge node q (radix.get q db.by_table))))
      ]

  leave_callback_at :
      (config : Config) (node : Name) (p : Path3) (e : Entry) (db : Db) (q : Path3)
      → radix.get q (leave_callback config node p e db).by_network
        ≡ changed (same_path p q) (leave_effect config node p e) (radix.get q db.by_network)
  unfolding leave_callback leave_entry notify_deleted delete_entry create_or_update_entry
      leave_effect
  leave_callback_at config node (n, t, k) e db q = ground (
    arith,
    laws.get-delete (n, t, k) q db.by_network,
    laws.get-insert (n, t, k) q (marked config (same node config.node_id) e) db.by_network,
  )

  leave_callback_at_table :
      (config : Config) (node n t k : Name) (e : Entry) (db : Db) (q : Path3)
      → radix.get q (leave_callback config node (n, t, k) e db).by_table
        ≡ changed
            (same_path (t, n, k) q)
            (leave_effect config node (n, t, k) e)
            (radix.get q db.by_table)
  unfolding leave_callback leave_entry notify_deleted delete_entry create_or_update_entry
      leave_effect
  leave_callback_at_table config node n t k e db q = ground (
    arith,
    laws.get-delete (t, n, k) q db.by_table,
    laws.get-insert (t, n, k) q (marked config (same node config.node_id) e) db.by_table,
  )

  leave_callback-IsIndexed :
      (config : Config) (node : Name) (p : Path3) (e : Entry) (db : Db)
      → IsIndexed db
      → IsIndexed (leave_callback config node p e db)
  unfolding leave_effect
  leave_callback-IsIndexed config node (n, t, k) e db h x y z =
      rw
        (
          leave_callback_at config node (n, t, k) e db (y, x, z),
          leave_callback_at_table config node n t k e db (x, y, z),
          same_path_swap n t k y x z,
          h x y z,
        )
        refl

  pub delete_node_network_entries-IsIndexed :
      (config : Config) (nid node : Name) (db : Db)
      → IsIndexed db
      → IsIndexed (delete_node_network_entries config nid node db)
  unfolding delete_node_network_entries
  delete_node_network_entries-IsIndexed config nid node db h =
      for_each_keeps IsIndexed (leave_callback config node) (leave_callback-IsIndexed config node)
        (radix.walk_prefix nid (leave_deletes config node) db.by_network) db h

  walked_network :
      (config : Config) (nid node : Name) (db : Db) (q : Path3)
      → radix.get q (delete_node_network_entries config nid node db).by_network
        ≡ settled
            (leave_effect config node)
            q
            (find q (radix.walk_prefix nid (leave_deletes config node) db.by_network))
            (radix.get q db.by_network)
  unfolding delete_node_network_entries
  walked_network config nid node db q =
      for_each_at (λ p d. radix.get p d.by_network) (leave_callback config node)
        (leave_effect config node) (leave_callback_at config node)
        (radix.walk_prefix nid (leave_deletes config node) db.by_network) db q
        (laws.walk_prefix_distinct nid (leave_deletes config node) db.by_network)

  -- A remote node's leave deletes nothing, so that its walk leaves nothing out.
  remote_sees :
      (config : Config) (nid node : Name) (db : Db) (q : Path3)
      → same node config.node_id ≡ false
      → is_prefix nid q.0 ≡ true
      → find q (radix.walk_prefix nid (leave_deletes config node) db.by_network)
        ≡ radix.get q db.by_network
  remote_sees config nid node db q remote inside =
      laws.find-walk_prefix_all nid (leave_deletes config node) db.by_network
        (λ k e at. ground (arith, remote)) q inside

  left_or_skipped :
      (config : Config) (nid node x y z : Name) (db : Db)
      → IsIndexed db
      → let new = get_entry x y z (delete_node_network_entries config nid node db) in
        let old = get_entry x y z db in
        ((is_prefix nid y ≡ true) × (new ≡ left_over config node old))
        ⊎ ((new ≡ old) × NetworkSkips config nid node (y, x, z) db)
  unfolding get_entry
  left_or_skipped config nid node x y z db h =
      let q : Path3 = (y, x, z) in
      let done =
        sym (delete_node_network_entries-IsIndexed config nid node db h x y z)
        ∙ walked_network config nid node db q in
      elim (laws.find-walk_prefix nid (leave_deletes config node) q db.by_network) [
        | inl skipped ↦ inr (done ∙ (rw skipped (h x y z)), skipped)
        | inr (inside, seen) ↦ inl (
          inside,
          done
              ∙ (rw (seen, h x y z)
                  (settled_leave config node q (radix.get (x, y, z) db.by_table))),
        )
      ]

  -- With any trees that satisfy the laws of a radix tree, which hold the same entries: after
  -- deleteNodeNetworkEntries an entry of the network, or of a network whose name begins with the
  -- network's name, is what the leave of the node leaves of it, or as it was where the walk has left
  -- it out; all others are as they were. The walk leaves nothing out where the node is a remote one.
  pub delete_node_network_entries_lem :
      (config : Config) (nid node x y z : Name) (db : Db)
      → IsIndexed db
      → let new = get_entry x y z (delete_node_network_entries config nid node db) in
        let old = get_entry x y z db in
        ((is_prefix nid y ≡ true) × (new ≡ left_over config node old))
        ⊎ ((new ≡ old)
            × ((is_prefix nid y ≡ false)
                ⊎ ((same node config.node_id ≡ true) × NetworkSkips config nid node (y, x, z) db)))
  unfolding get_entry
  delete_node_network_entries_lem config nid node x y z db h =
      elim (left_or_skipped config nid node x y z db h) [
        | inl left ↦ inl left
        | inr (kept, skipped) ↦ elim (Bool-cases (is_prefix nid y)) [
          | inr outside ↦ inr (kept, inl outside)
          | inl inside ↦ elim (Bool-cases (same node config.node_id)) [
            | inl local ↦ inr (kept, inr (local, skipped))
            | inr remote ↦
                let seen = remote_sees config nid node db (y, x, z) remote inside in
                let gone : radix.get (x, y, z) db.by_table ≡ none =
                  sym (h x y z) ∙ sym seen ∙ skipped in
                inl (inside, kept ∙ (rw gone refl))
          ]
        ]
      ]
