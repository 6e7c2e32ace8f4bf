-- ===== src/Networkdb/Entries/Own.antt =====
-- networkdb/networkdb.go: CreateEntry, UpdateEntry and DeleteEntry, the calls by which a node writes
-- its own entries.
use libnetwork.Prelude.{
  ℕ, ◌/◌, ◌%◌, ◌^◌, ◌≡◌, ◌⊎◌, refl, sym, ap, ◌∙◌, Bool, true, false, Option, none, some, List, [],
  if◌then◌else◌, Bool-cases, Option-cases, inl, inr,
}
use libnetwork.Prelude.Result.{Result, ok, err}
use libnetwork.Networkdb.Names.{Name}
use libnetwork.Networkdb.Radix.{Radix, IsRadix, Clock, same_path}
use libnetwork.Networkdb.State.{Config, Entry, Network, Db}
use libnetwork.Networkdb.Entries.{
  EventKind, create, update, delete_kind, TableEvent, EntryError, already_exists, does_not_exist,
  deleted, get_entry, create_or_update_entry, create_entry, update_entry, remove_entry, create_with,
  update_with, remove_with, own_entry, stored, send_table_event, node_network, queued, second,
}
use libnetwork.Networkdb.Entries.Indexes.{
  IsIndexed, get_entry-create_or_update, create_or_update-IsIndexed,
}
use libnetwork.Networkdb.Entries.Keeps.{Keeps}

pub data Call : Type 0 where
  to_create to_update : List ℕ → Call
  to_remove : Call

abbrev pub kind_of : Call → EventKind
kind_of (to_create value) = create
kind_of (to_update value) = update
kind_of to_remove = delete_kind

-- The error that a call ends in, by the entry that it finds.
abbrev pub refusal : Call → Option Entry → Option EntryError
refusal (to_create value) none = none
refusal (to_create value) (some old) = some already_exists
refusal (to_update value) none = some does_not_exist
refusal (to_update value) (some old) = none
refusal to_remove none = some deleted
refusal to_remove (some old) = if old.deleting then some deleted else none

-- The value that a call writes: a deletion keeps the old one.
abbrev pub value_of : Call → Option Entry → List ℕ
value_of (to_create value) o = value
value_of (to_update value) o = value
value_of to_remove none = []
value_of to_remove (some old) = old.value

abbrev pub is_removal : Call → Bool
is_removal to_remove = true
is_removal other = false

module _ ⦃radix : Radix Entry⦄ ⦃clock : Clock⦄ (config : Config) (tname nid key : Name) where
  abbrev pub run : Call → Db → Db × Result EntryError (Option TableEvent)
  run (to_create value) db = create_entry config tname nid key value db
  run (to_update value) db = update_entry config tname nid key value db
  run to_remove db = remove_entry config tname nid key db

  -- The entry that a call writes: of this node, at the next time of the table clock.
  abbrev pub written : Call → Option Entry → Db → Entry
  written call old db = record {
    node = config.node_id;
    ltime = clock.increment db.table_clock;
    value = value_of call old;
    deleting = is_removal call;
    reap_time = if is_removal call then config.reap_entry_interval else 0;
  }

  abbrev pub put_entry : Entry → Db → Db
  put_entry e db = create_or_update_entry nid tname key e (record db { table_clock = e.ltime })

  run_found :
      (call : Call) (db : Db) (old : Option Entry)
      → get_entry tname nid key db ≡ old
      → ((er : EntryError) × (refusal call old ≡ some er) × (run call db ≡ (db, err er)))
        ⊎ ((refusal call old ≡ none)
            × (run call db ≡ (
              put_entry (written call old db) db,
              ok (send_table_event config (kind_of call) nid tname key (written call old db) db),
            )))
  unfolding create_entry update_entry remove_entry create_with update_with remove_with own_entry
      stored send_table_event create_or_update_entry node_network
  run_found (to_create value) db none at = rw at (inr (refl, refl))
  run_found (to_create value) db (some old) at = rw at (inl (already_exists, refl, refl))
  run_found (to_update value) db none at = rw at (inl (does_not_exist, refl, refl))
  run_found (to_update value) db (some old) at = rw at (inr (refl, refl))
  run_found to_remove db none at = rw at (inl (deleted, refl, refl))
  run_found to_remove db (some old) at = elim (Bool-cases old.deleting) [
    | inl gone ↦ rw (at, gone) (inl (deleted, refl, refl))
    | inr there ↦ rw (at, there) (inr (refl, refl))
  ]

  abbrev pub Puts : Entry → Db → Db → Type 0
  Puts e db db' =
      (x y z : Name)
      → get_entry x y z db'
        ≡ (if same_path (tname, nid, key) (x, y, z) then some e else get_entry x y z db)

  put_entry-Puts : (laws : IsRadix radix) (e : Entry) (db : Db) → Puts e db (put_entry e db)
  unfolding get_entry
  put_entry-Puts laws e db x y z =
      unfold get_entry in
      get_entry-create_or_update laws tname nid key x y z e (record db { table_clock = e.ltime })

  -- The event that tells the cluster of an entry.
  abbrev pub event_of : EventKind → Entry → TableEvent
  event_of kind e = record {
    kind = kind;
    ltime = e.ltime;
    node_name = config.node_id;
    network_id = nid;
    table_name = tname;
    key = key;
    value = e.value;
    residual_reap_time = (e.reap_time / second) % 2 ^ 32;
  }

  -- What is sent of an entry: its event where this node is in the network, and else nothing.
  abbrev pub Sends : EventKind → Entry → Db → Result EntryError (Option TableEvent) → Type 0
  Sends kind e db r =
      (((n : Network) × (node_network config.node_id nid db ≡ some n))
        × (r ≡ ok (some (event_of kind e))))
      ⊎ ((node_network config.node_id nid db ≡ none) × (r ≡ ok none))

  send_table_event-Sends :
      (kind : EventKind) (e : Entry) (db : Db)
      → Sends kind e db (ok (send_table_event config kind nid tname key e db))
  unfolding send_table_event queued
  send_table_event-Sends kind e db = elim (Option-cases (node_network config.node_id nid db)) [
    | inl missing ↦ inr (missing, (rw missing refl))
    | inr (n, at) ↦ inl ((n, at), (rw at refl))
  ]

  -- With any trees that satisfy the laws of a radix tree: CreateEntry, UpdateEntry and DeleteEntry fail
  -- exactly as the entry that they find demands, and then change nothing; an entry that is marked for
  -- deletion refuses a create and a delete, but not an update. Otherwise they store an entry of this
  -- node at the next time of the table clock, at its path and nowhere else, and send the event with its
  -- time, its value and its reap time in seconds where this node is in the network, and else nothing.
  pub run_cases :
      (laws : IsRadix radix) (call : Call) (db : Db)
      → let r = run call db in
        let old = get_entry tname nid key db in
        let e = written call old db in
        ((er : EntryError) × (refusal call old ≡ some er) × (r ≡ (db, err er)))
        ⊎ ((refusal call old ≡ none) × Puts e db r.0 × Sends (kind_of call) e db r.1)
  run_cases laws call db = elim (run_found call db (get_entry tname nid key db) refl) [
    | inl refused ↦ inl refused
    | inr (granted, is) ↦
        let e = written call (get_entry tname nid key db) db in
        rw is (inr (granted, put_entry-Puts laws e db, send_table_event-Sends (kind_of call) e db))
  ]

  pub run-IsIndexed :
      (laws : IsRadix radix) (call : Call) (db : Db) → IsIndexed db → IsIndexed (run call db).0
  run-IsIndexed laws call db h = elim (run_found call db (get_entry tname nid key db) refl) [
    | inl (er, why, is) ↦ rw is h
    | inr (granted, is) ↦
        let e = written call (get_entry tname nid key db) db in
        rw is
          (create_or_update-IsIndexed laws tname nid key e (record db { table_clock = e.ltime }) h)
  ]

  pub run-Keeps : (call : Call) (db : Db) → Keeps db (run call db).0
  unfolding create_or_update_entry
  run-Keeps call db = elim (run_found call db (get_entry tname nid key db) refl) [
    | inl (er, why, is) ↦ rw is (refl, refl, refl, refl, refl)
    | inr (granted, is) ↦ rw is (refl, refl, refl, refl, refl)
  ]

  queued_is : (e f : TableEvent) (o : Option Network) → queued e o ≡ some f → f ≡ e
  unfolding queued
  queued_is e f none at = cc
  queued_is e f (some n) at = cc

  pub run_sent :
      (call : Call) (db : Db) (f : TableEvent)
      → (run call db).1 ≡ ok (some f)
      → (refusal call (get_entry tname nid key db) ≡ none)
        × (f ≡ event_of (kind_of call) (written call (get_entry tname nid key db) db))
  unfolding send_table_event
  run_sent call db f at =
      let e = written call (get_entry tname nid key db) db in
      elim (run_found call db (get_entry tname nid key db) refl) [
        | inl (er, why, is) ↦ absurd (clash er (sym (ap (λ r. r.1) is) ∙ at))
        | inr (granted, is) ↦ (
          granted,
          queued_is (event_of (kind_of call) e) f (node_network config.node_id nid db)
              (ok_inj _ _ (sym (ap (λ r. r.1) is) ∙ at)),
        )
      ]
    where
      clash : (er : EntryError) → err er ≡ ok (some f) → ⊥
      clash er p = cc

      ok_inj :
          (a b : Option TableEvent)
          → (let oa : Result EntryError (Option TableEvent) = ok a in oa ≡ ok b)
          → a ≡ b
      ok_inj a b p = cc

  pub run_sends :
      (call : Call) (db : Db) (n : Network)
      → refusal call (get_entry tname nid key db) ≡ none
      → node_network config.node_id nid db ≡ some n
      → (run call db).1
        ≡ ok (some (event_of (kind_of call) (written call (get_entry tname nid key db) db)))
  unfolding send_table_event queued
  run_sends call db n granted at = elim (run_found call db (get_entry tname nid key db) refl) [
    | inl (er, why, is) ↦ absurd (clash er (sym granted ∙ why))
    | inr (g, is) ↦ ap (λ r. r.1) is ∙ (rw at refl)
  ]
    where
      clash : (er : EntryError) → none ≡ some er → ⊥
      clash er p = cc
