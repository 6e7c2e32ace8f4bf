-- ===== src/Networkdb/Entries/Indexes.antt =====
-- networkdb/networkdb.go: the two trees, and what a walk with a callback does to them.
use libnetwork.Prelude.{
  ◌≡◌, ◌↔◌, refl, subst, ◌∙◌, Bool, true, Option, none, some, List, [], ◌∷◌, arith, if◌then◌else◌,
  Bool-cases, inl, inr,
}
use libnetwork.Networkdb.Names.{Name, same, same_iff}
use libnetwork.Networkdb.Radix.{Radix, IsRadix, Path3, same_path, find, Distinct}
use libnetwork.Networkdb.State.{Entry, Db}
use libnetwork.Networkdb.Entries.{
  get_entry, create_or_update_entry, delete_entry, for_each, purge_deletes, notify_deleted,
  purge_callback, delete_node_table_entries,
}

pub same_path_iff : (p q : Path3) → (same_path p q ≡ true) ↔ (p ≡ q)
same_path_iff (a, b, c) (x, y, z) = ground (arith, same_iff a x, same_iff b y, same_iff c z)

pub same_path_refl : (p : Path3) → same_path p p ≡ true
same_path_refl p = (same_path_iff p p).1 refl

-- The path by network is the path by table in another order.
pub same_path_swap :
    (a b c x y z : Name) → same_path (a, b, c) (x, y, z) ≡ same_path (b, a, c) (y, x, z)
same_path_swap a b c x y z = ground arith

-- What a callback makes of the entry at a path: nothing, or another one, or none.
abbrev pub changed : Bool → Option (Option Entry) → Option Entry → Option Entry
changed true (some new) old = new
changed b r old = old

abbrev pub settled :
    (Path3 → Entry → Option (Option Entry)) → Path3 → Option Entry → Option Entry → Option Entry
settled r q none old = old
settled r q (some e) old = changed true (r q e) old

module _ ⦃radix : Radix Entry⦄ where
  -- A walk keeps what its callback keeps.
  pub for_each_keeps {ℓ} :
      (P : Db → Type ℓ) (f : Path3 → Entry → Db → Db)
      → ((p : Path3) (e : Entry) (db : Db) → P db → P (f p e db))
      → (items : List (Path3 × Entry)) (db : Db) → P db
      → P (for_each f items db)
  unfolding for_each
  for_each_keeps P f step [] db h = h
  for_each_keeps P f step ((p, e) ∷ items) db h =
      for_each_keeps P f step items (f p e db) (step p e db h)

  -- A walk over distinct paths does at each path what its callback does there.
  pub for_each_at :
      (at : Path3 → Db → Option Entry) (f : Path3 → Entry → Db → Db)
      (r : Path3 → Entry → Option (Option Entry))
      → ((p : Path3) (e : Entry) (db : Db) (q : Path3)
          → at q (f p e db) ≡ changed (same_path p q) (r p e) (at q db))
      → (items : List (Path3 × Entry)) (db : Db) (q : Path3) → Distinct items
      → at q (for_each f items db) ≡ settled r q (find q items) (at q db)
  unfolding for_each
  for_each_at at f r step [] db q d = refl
  for_each_at at f r step ((p, e) ∷ items) db q d =
      for_each_at at f r step items (f p e db) q d.1
      ∙ (rw (step p e db q) (elim (Bool-cases (same_path p q)) [
        | inl here ↦
            let eq : p ≡ q = (same_path_iff p q).0 here in
            let gone : find q items ≡ none = subst (λ k. find k items ≡ none) eq d.0 in
            rw (here, gone, eq) refl
        | inr apart ↦ rw apart refl
      ]))

  -- Both trees hold the same entries.
  abbrev pub IsIndexed : Db → Type 0
  IsIndexed db =
      (tname nid key : Name)
      → radix.get (nid, tname, key) db.by_network ≡ radix.get (tname, nid, key) db.by_table

  module _ (laws : IsRadix radix) where
    pub get_entry-create_or_update :
        (t n k x y z : Name) (e : Entry) (db : Db)
        → get_entry x y z (create_or_update_entry n t k e db)
          ≡ (if same_path (t, n, k) (x, y, z) then some e else get_entry x y z db)
    unfolding get_entry create_or_update_entry
    get_entry-create_or_update t n k x y z e db = laws.get-insert (t, n, k) (x, y, z) e db.by_table

    pub create_or_update-IsIndexed :
        (t n k : Name) (e : Entry) (db : Db)
        → IsIndexed db
        → IsIndexed (create_or_update_entry n t k e db)
    unfolding create_or_update_entry
    create_or_update-IsIndexed t n k e db h x y z =
        rw
          (
            laws.get-insert (n, t, k) (y, x, z) e db.by_network,
            laws.get-insert (t, n, k) (x, y, z) e db.by_table,
            same_path_swap n t k y x z,
            h x y z,
          )
          refl

    pub delete_entry-IsIndexed :
        (t n k : Name) (db : Db) → IsIndexed db → IsIndexed (delete_entry n t k db)
    unfolding delete_entry
    delete_entry-IsIndexed t n k db h x y z =
        rw
          (
            laws.get-delete (n, t, k) (y, x, z) db.by_network,
            laws.get-delete (t, n, k) (x, y, z) db.by_table,
            same_path_swap n t k y x z,
            h x y z,
          )
          refl

    purge_callback-IsIndexed :
        (node : Name) (p : Path3) (e : Entry) (db : Db)
        → IsIndexed db
        → IsIndexed (purge_callback node p e db)
    unfolding purge_callback notify_deleted
    purge_callback-IsIndexed node (t, n, k) e db h = elim (Bool-cases (same e.node node)) [
      | inr other ↦ rw other h
      | inl own ↦ elim (Bool-cases e.deleting) [
        | inl gone ↦ rw (own, gone) (delete_entry-IsIndexed t n k db h)
        | inr there ↦ rw (own, there) (delete_entry-IsIndexed t n k db h)
      ]
    ]

    pub delete_node_table_entries-IsIndexed :
        (node : Name) (db : Db) → IsIndexed db → IsIndexed (delete_node_table_entries node db)
    unfolding delete_node_table_entries
    delete_node_table_entries-IsIndexed node db h =
        for_each_keeps IsIndexed (purge_callback node) (purge_callback-IsIndexed node)
          (radix.walk (purge_deletes node) db.by_table) db h
