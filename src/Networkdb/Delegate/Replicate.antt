-- ===== src/Networkdb/Delegate/Replicate.antt =====
-- networkdb/networkdb.go and networkdb/delegate.go: what one node writes, another stores.
use libnetwork.Prelude.{
  ℕ, ◌*◌, ◌/◌, ◌%◌, ◌^◌, ◌<◌, ltb, ◌≡◌, refl, sym, ap, subst, ◌∙◌, Bool, true, false, Option, none,
  some, arith, ◌==◌, inl, inr,
}
use libnetwork.Prelude.Result.{ok}
use libnetwork.Networkdb.Names.{Name, same}
use libnetwork.Networkdb.Radix.{Radix, IsRadix, Clock}
use libnetwork.Networkdb.State.{Config, Entry, Network, Db}
use libnetwork.Networkdb.Entries.{EntryError, TableEvent, get_entry, second}
use libnetwork.Networkdb.Entries.Indexes.{same_path_refl}
use libnetwork.Networkdb.Entries.Own.{
  Call, to_create, to_update, to_remove, run, run_cases, run_sent, written, event_of, kind_of,
}
use libnetwork.Networkdb.Delegate.{event_entry, handle_table_message}
use libnetwork.Networkdb.Delegate.Tables.{
  IsFresh, IsStale, IsOpen, path_of, handle_table_event_cases,
}
use libnetwork.Networkdb.Delegate.Converge.{not_shut}

module _ ⦃radix : Radix Entry⦄ ⦃clock : Clock⦄ (laws : IsRadix radix) (own other : Config)
    (tname nid key : Name) where
  -- The reap interval of deletions is whole seconds, not 0, and they fit an int32.
  abbrev pub IsWhole : ℕ → Type 0
  IsWhole interval = (s : ℕ) × (interval ≡ s * second) × (0 < s) × (s < 2 ^ 31)

  event_entry-event_of :
      (call : Call) (old : Option Entry) (db : Db)
      → IsWhole own.reap_entry_interval
      → let e = written own tname nid key call old db in
        event_entry other (event_of own tname nid key (kind_of call) e) ≡ e
  unfolding event_entry
  event_entry-event_of (to_create value) old db w = refl
  event_entry-event_of (to_update value) old db w = refl
  event_entry-event_of to_remove old db (s, is, positive, fits) =
      let sent : (own.reap_entry_interval / second) % 2 ^ 32 ≡ s = omega arith in
      let small : ltb s (2 ^ 31) ≡ true = ground arith in
      let there : s * second == 0 ≡ false = ground arith in rw (sent, small, there, is) refl

  fresh_not_stale :
      (e : TableEvent) (b : Bool) (o : Option Entry) → IsFresh e b o → IsStale e b o → ⊥
  fresh_not_stale e b none f s = cc
  fresh_not_stale e b (some old) f s = omega arith

  peer_stores :
      (f : TableEvent) (n : Network) (db' : Db)
      → same f.node_name other.node_id ≡ false
      → IsOpen other f n db'
      → IsFresh f false (get_entry f.table_name f.network_id f.key db')
      → get_entry f.table_name f.network_id f.key (handle_table_message other f false db').0
        ≡ some (event_entry other f)
  unfolding handle_table_message
  peer_stores f n db' apart is_open fresh =
      rw apart (elim (handle_table_event_cases laws other f false db') [
        | inl (m, o, fresh', stores, sent) ↦
            stores f.table_name f.network_id f.key ∙ (rw (same_path_refl (path_of f)) refl)
        | inr (inl shut, is) ↦ absurd (not_shut laws other f n db' is_open shut)
        | inr (inr stale, is) ↦ absurd (fresh_not_stale f false _ fresh stale)
      ])

  -- With any trees that satisfy the laws of a radix tree: the event that CreateEntry, UpdateEntry or
  -- DeleteEntry sends makes a peer store the very entry that the call stored, deletions with their whole
  -- reap time, if the peer is in the network and stays, knows the sender as a participant, has no entry
  -- as new and, for a deletion, has one, and the reap interval of the sender is whole seconds, of which
  -- there are less than 2 ^ 31.
  pub handle_table_message-run :
      (call : Call) (db db' : Db) (f : TableEvent) (n : Network)
      → (run own tname nid key call db).1 ≡ ok (some f)
      → IsWhole own.reap_entry_interval
      → same own.node_id other.node_id ≡ false
      → IsOpen other f n db'
      → IsFresh f false (get_entry tname nid key db')
      → get_entry tname nid key (handle_table_message other f false db').0
        ≡ get_entry tname nid key (run own tname nid key call db).0
  handle_table_message-run call db db' f n sent whole apart is_open fresh =
      let old = get_entry tname nid key db in
      let e = written own tname nid key call old db in
      let (granted, is) = run_sent own tname nid key call db f sent in
      let ev = event_of own tname nid key (kind_of call) e in
      let there =
        peer_stores ev n db' apart (subst (λ g. IsOpen other g n db') is is_open)
          (subst (λ g. IsFresh g false (get_entry tname nid key db')) is fresh) in
      let here : get_entry tname nid key (run own tname nid key call db).0 ≡ some e =
        elim (run_cases own tname nid key laws call db) [
          | inl (er, refused, r) ↦ absurd (clash er (sym granted ∙ refused))
          | inr (g, puts, r) ↦ puts tname nid key ∙ (rw (same_path_refl (tname, nid, key)) refl)
        ] in
      ap (λ g. get_entry tname nid key (handle_table_message other g false db').0) is
      ∙ there
      ∙ ap (λ x. some x) (event_entry-event_of call old db whole)
      ∙ sym here
    where
      clash : (er : EntryError) → none ≡ some er → ⊥
      clash er p = cc
