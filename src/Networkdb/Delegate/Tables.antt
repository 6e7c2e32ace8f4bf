-- ===== src/Networkdb/Delegate/Tables.antt =====
-- networkdb/delegate.go: handleTableEvent, on every branch.
use libnetwork.Prelude.{
  ◌/◌, ◌≤◌, ◌<◌, ◌≡◌, ◌⊎◌, refl, Bool, true, false, not, ◌&&◌, Option, none, some, arith, leb,
  if◌then◌else◌, Bool-cases, Option-cases, inl, inr,
}
use libnetwork.Networkdb.Names.{Name}
use libnetwork.Networkdb.Radix.{Radix, IsRadix, Clock, Path3, same_path}
use libnetwork.Networkdb.State.{Config, Entry, Db, Network}
use libnetwork.Networkdb.Entries.{TableEvent, get_entry, node_network}
use libnetwork.Networkdb.Entries.Indexes.{get_entry-create_or_update}
use libnetwork.Networkdb.Nodes.{holds, participants}
use libnetwork.Networkdb.Delegate.{
  is_delete, admitted, event_entry, is_past, store_event, table_stored, table_admitted,
  handle_table_event,
}

abbrev pub path_of : TableEvent → Path3
path_of e = (e.table_name, e.network_id, e.key)

-- The event is newer than what is stored; of an entry that is not known only a bulk sync may bring the
-- deletion.
abbrev pub IsFresh : TableEvent → Bool → Option Entry → Type 0
IsFresh e is_bulk_sync none = (is_delete e.kind && not is_bulk_sync) ≡ false
IsFresh e is_bulk_sync (some old) = old.ltime < e.ltime

abbrev pub IsStale : TableEvent → Bool → Option Entry → Type 0
IsStale e is_bulk_sync none = (is_delete e.kind && not is_bulk_sync) ≡ true
IsStale e is_bulk_sync (some old) = e.ltime ≤ old.ltime

-- Whether a stored event is sent on in a network that is in sync: the deletion of an unknown entry
-- only if a sixth of the reap interval is left.
abbrev pub worth_sending : Config → TableEvent → Option Entry → Bool
worth_sending config e none =
    if is_delete e.kind
    then is_past (config.reap_entry_interval / 6) (event_entry config e).reap_time
    else true
worth_sending config e (some old) = true

module _ ⦃radix : Radix Entry⦄ where
  -- This node is in the network and does not leave it, and the owner of the event takes part.
  abbrev pub IsOpen : Config → TableEvent → Network → Db → Type 0
  IsOpen config e n db =
      (node_network config.node_id e.network_id db ≡ some n)
      × (n.leaving ≡ false)
      × (holds e.node_name (participants e.network_id db) ≡ true)

  abbrev pub IsShut : Config → TableEvent → Db → Type 0
  IsShut config e db =
      (node_network config.node_id e.network_id db ≡ none)
      ⊎ (((n : Network) × (node_network config.node_id e.network_id db ≡ some n)
            × (n.leaving ≡ true))
          ⊎ (holds e.node_name (participants e.network_id db) ≡ false))

module _ ⦃radix : Radix Entry⦄ ⦃clock : Clock⦄ (laws : IsRadix radix) (config : Config)
    (e : TableEvent) (is_bulk_sync : Bool) where
  pub admitted_cases :
      (db : Db)
      → ((n : Network) × (admitted config e db ≡ some n) × IsOpen config e n db)
        ⊎ ((admitted config e db ≡ none) × IsShut config e db)
  unfolding admitted
  admitted_cases db = elim (Option-cases (node_network config.node_id e.network_id db)) [
    | inl missing ↦ rw (missing, admitted) (inr (refl, inl refl))
    | inr (n, at) ↦ elim (Bool-cases n.leaving) [
      | inl leaving ↦ inr (ground (arith, at, leaving), inr (inl (n, at, leaving)))
      | inr stays ↦ elim (Bool-cases (holds e.node_name (participants e.network_id db))) [
        | inl here ↦ inl (n, ground (arith, at, stays, here), (at, stays, here))
        | inr gone ↦ inr (ground (arith, at, stays, gone), inr (inr gone))
      ]
    ]
  ]

  abbrev pub witnessed : Db → Db
  witnessed db = record db { table_clock = clock.witness db.table_clock e.ltime }

  -- The event's entry is stored at its path and nowhere else.
  abbrev pub Stores : Db → Db → Type 0
  Stores db db' =
      (x y z : Name)
      → get_entry x y z db' ≡ (
          if same_path (path_of e) (x, y, z)
          then some (event_entry config e)
          else get_entry x y z db)

  store_event-Stores : (db : Db) → Stores db (store_event config e db)
  unfolding store_event
  store_event-Stores db x y z =
      get_entry-create_or_update laws e.table_name e.network_id e.key x y z (event_entry config e)
        db

  stored_cases :
      (n : Network) (db : Db) (old : Option Entry)
      → let r = table_stored config e is_bulk_sync n db old in
        (IsFresh e is_bulk_sync old
          × Stores db r.0
          × (r.1 ≡ (n.in_sync && worth_sending config e old)))
        ⊎ (IsStale e is_bulk_sync old × (r ≡ (db, false)))
  unfolding table_stored get_entry
  stored_cases n db (some old) = elim (Bool-cases (leb e.ltime old.ltime)) [
    | inl stale ↦ rw stale (inr (ground arith, refl))
    | inr fresh ↦ rw fresh (inl (ground arith, store_event-Stores db, ground arith))
  ]
  stored_cases n db none = elim (Bool-cases (is_delete e.kind)) [
    | inr kept ↦ rw kept (inl (refl, store_event-Stores db, ground arith))
    | inl gone ↦ elim (Bool-cases is_bulk_sync) [
      | inl bulk ↦ rw (gone, bulk) (inl (refl, store_event-Stores db, refl))
      | inr single ↦ rw (gone, single) (inr (refl, refl))
    ]
  ]

  -- With any trees that satisfy the laws of a radix tree, handleTableEvent stores the entry of the
  -- event at its path, and nowhere else, exactly where this node is in the network and stays, the owner
  -- of the event takes part in it, and the event is newer than the entry or, of an unknown entry, no
  -- deletion outside a bulk sync; it is sent on as the network is in sync. Otherwise nothing but the
  -- clock changes.
  pub handle_table_event_cases :
      (db : Db)
      → let r = handle_table_event config e is_bulk_sync db in
        let old = get_entry e.table_name e.network_id e.key db in
        ((n : Network) × IsOpen config e n db
          × IsFresh e is_bulk_sync old
          × Stores db r.0
          × (r.1 ≡ (n.in_sync && worth_sending config e old)))
        ⊎ ((IsShut config e db ⊎ IsStale e is_bulk_sync old) × (r ≡ (witnessed db, false)))
  unfolding handle_table_event table_admitted get_entry node_network participants
  handle_table_event_cases db = elim (admitted_cases (witnessed db)) [
    | inr (shut, why) ↦ rw shut (inr (inl why, refl))
    | inl (n, at, is_open) ↦
        rw at (elim (stored_cases n (witnessed db) (get_entry e.table_name e.network_id e.key db)) [
          | inl (fresh, stores, sent) ↦ inl (n, is_open, fresh, stores, sent)
          | inr (stale, same) ↦ inr (inr stale, same)
        ])
  ]
