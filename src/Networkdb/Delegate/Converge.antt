-- ===== src/Networkdb/Delegate/Converge.antt =====
-- networkdb/delegate.go: a bulk sync leaves of each entry the newest version that it brought, in
-- whatever order.
use libnetwork.Prelude.{
  ◌≤◌, ◌<◌, ◌≡◌, ◌↔◌, ◌⊎◌, refl, sym, ap, subst, ◌∙◌, true, false, Option, none, some, List, [],
  ◌∷◌, arith, Bool-cases, Option-cases, inl, inr,
}
use libnetwork.Networkdb.Names.{same}
use libnetwork.Networkdb.Radix.{Radix, IsRadix, Clock, Path3, same_path}
use libnetwork.Networkdb.State.{Config, Entry, Db, Network}
use libnetwork.Networkdb.Entries.{TableEvent, get_entry, node_network, create_or_update_entry}
use libnetwork.Networkdb.Entries.Indexes.{same_path_iff}
use libnetwork.Networkdb.Nodes.{participants}
use libnetwork.Networkdb.Delegate.{
  admitted, event_entry, store_event, table_stored, table_admitted, handle_table_event,
  handle_table_message, handle_compound,
}
use libnetwork.Networkdb.Delegate.Tables.{
  path_of, IsFresh, IsStale, IsOpen, IsShut, handle_table_event_cases,
}

abbrev pub IsAbout : Path3 → TableEvent → Type 0
IsAbout p e = same_path (path_of e) p ≡ true

-- The event is one of those, and about the path.
abbrev pub Hears : Path3 → TableEvent → List TableEvent → Type 0
Hears p e [] = ⊥
Hears p e (f ∷ es) = ((e ≡ f) × IsAbout p f) ⊎ Hears p e es

-- The event is no newer, or newer, than the entry.
abbrev pub IsOld : TableEvent → Option Entry → Type 0
IsOld e none = ⊥
IsOld e (some old) = e.ltime ≤ old.ltime

abbrev pub IsNewer : TableEvent → Option Entry → Type 0
IsNewer e none = Unit
IsNewer e (some old) = old.ltime < e.ltime

-- The entry at a path is the newest of what was there and of the events about it.
abbrev pub IsNewest : Config → Path3 → List TableEvent → Option Entry → Option Entry → Type 0
IsNewest config p es old new =
    ((new ≡ old) × ((f : TableEvent) → Hears p f es → IsOld f old))
    ⊎ ((e : TableEvent) × Hears p e es
        × (new ≡ some (event_entry config e))
        × IsNewer e old
        × ((f : TableEvent) → Hears p f es → f.ltime ≤ e.ltime))

IsNewest-skip :
    (config : Config) (p : Path3) (e : TableEvent) (es : List TableEvent) (old new : Option Entry)
    → same_path (path_of e) p ≡ false
    → IsNewest config p es old new
    → IsNewest config p (e ∷ es) old new
IsNewest-skip config p e es old new apart (inl (same_new, all)) = inl (same_new, go)
  where
    go : (f : TableEvent) → Hears p f (e ∷ es) → IsOld f old
    go f (inl (at, about)) = cc
    go f (inr later) = all f later
IsNewest-skip config p e es old new apart (inr (g, hears, is, newer, all)) =
    inr (g, inr hears, is, newer, go)
  where
    go : (f : TableEvent) → Hears p f (e ∷ es) → f.ltime ≤ g.ltime
    go f (inl (at, about)) = cc
    go f (inr later) = all f later

IsNewest-stale :
    (config : Config) (p : Path3) (e : TableEvent) (es : List TableEvent) (old new : Option Entry)
    → IsOld e old
    → IsNewest config p es old new
    → IsNewest config p (e ∷ es) old new
IsNewest-stale config p e es old new stale (inl (same_new, all)) = inl (same_new, go)
  where
    go : (f : TableEvent) → Hears p f (e ∷ es) → IsOld f old
    go f (inl (at, about)) = subst (λ x. IsOld x old) (sym at) stale
    go f (inr later) = all f later
IsNewest-stale config p e es none new stale (inr (g, hears, is, newer, all)) = absurd stale
IsNewest-stale config p e es (some old) new stale (inr (g, hears, is, newer, all)) =
    inr (g, inr hears, is, newer, go)
  where
    go : (f : TableEvent) → Hears p f (e ∷ es) → f.ltime ≤ g.ltime
    go f (inl (at, about)) = subst (λ x. x.ltime ≤ g.ltime) (sym at) (omega arith)
    go f (inr later) = all f later

IsNewer-trans :
    (g e : TableEvent) (old : Option Entry) → e.ltime < g.ltime → IsNewer e old → IsNewer g old
IsNewer-trans g e none lt n = tt
IsNewer-trans g e (some old) lt n = omega arith

IsNewest-fresh :
    (config : Config) (p : Path3) (e : TableEvent) (es : List TableEvent) (old new : Option Entry)
    → IsAbout p e
    → IsNewer e old
    → IsNewest config p es (some (event_entry config e)) new
    → IsNewest config p (e ∷ es) old new
unfolding event_entry
IsNewest-fresh config p e es old new about fresh (inl (is, all)) =
    inr (e, inl (refl, about), is, fresh, go)
  where
    go : (f : TableEvent) → Hears p f (e ∷ es) → f.ltime ≤ e.ltime
    go f (inl (at, a)) = subst (λ x. x.ltime ≤ e.ltime) (sym at) (omega arith)
    go f (inr later) = all f later
IsNewest-fresh config p e es old new about fresh (inr (g, hears, is, newer, all)) =
    inr (g, inr hears, is, IsNewer-trans g e old newer fresh, go)
  where
    go : (f : TableEvent) → Hears p f (e ∷ es) → f.ltime ≤ g.ltime
    go f (inl (at, a)) = subst (λ x. x.ltime ≤ g.ltime) (sym at) (omega (arith, newer))
    go f (inr later) = all f later

-- The same events are heard about the path, and no two of them at one time.
abbrev pub HearAlike : Path3 → List TableEvent → List TableEvent → Type 0
HearAlike p es fs =
    ((e : TableEvent) → Hears p e es ↔ Hears p e fs)
    × ((e f : TableEvent) → Hears p e es → Hears p f es → e.ltime ≡ f.ltime → e ≡ f)

old_newer : (e : TableEvent) (old : Option Entry) → IsOld e old → IsNewer e old → ⊥
old_newer e none o n = o
old_newer e (some old) o n = omega arith

-- Of a node, only its reap interval is in the entry of an event.
event_entry-config :
    (config other : Config) (e : TableEvent)
    → config.reap_entry_interval ≡ other.reap_entry_interval
    → event_entry config e ≡ event_entry other e
unfolding event_entry
event_entry-config config other e interval = rw interval refl

IsNewest-unique :
    (config other : Config) (p : Path3) (es fs : List TableEvent) (old new new' : Option Entry)
    → config.reap_entry_interval ≡ other.reap_entry_interval
    → HearAlike p es fs
    → IsNewest config p es old new
    → IsNewest other p fs old new'
    → new ≡ new'
IsNewest-unique config other p es fs old new new' interval (alike, once) (inl (is, all))
      (inl (is', all')) =
    is ∙ sym is'
IsNewest-unique config other p es fs old new new' interval (alike, once) (inl (is, all))
      (inr (g, hears, is', newer, all')) =
    absurd (old_newer g old (all g ((alike g).1 hears)) newer)
IsNewest-unique config other p es fs old new new' interval (alike, once)
      (inr (g, hears, is, newer, all)) (inl (is', all')) =
    absurd (old_newer g old (all' g ((alike g).0 hears)) newer)
IsNewest-unique config other p es fs old new new' interval (alike, once)
      (inr (g, hears, is, newer, all)) (inr (h, hears', is', newer', all')) =
    let le : h.ltime ≤ g.ltime = all h ((alike h).1 hears') in
    let ge : g.ltime ≤ h.ltime = all' g ((alike g).0 hears) in
    let eq : g ≡ h = once g h hears ((alike h).1 hears') (omega arith) in
    is
    ∙ ap (λ e. some (event_entry config e)) eq
    ∙ ap (λ e. some e) (event_entry-config config other h interval)
    ∙ sym is'

module _ ⦃radix : Radix Entry⦄ ⦃clock : Clock⦄ (laws : IsRadix radix) (config : Config) where
  abbrev pub at_path : Path3 → Db → Option Entry
  at_path p db = get_entry p.0 p.1 p.2 db

  -- The database takes the event: it is open to it, and another node has made it.
  abbrev pub Takes : TableEvent → Db → Type 0
  Takes e db = ((n : Network) × IsOpen config e n db) × (same e.node_name config.node_id ≡ false)

  stored_keeps :
      (e : TableEvent) (n : Network) (db : Db) (old : Option Entry)
      → let g = (table_stored config e true n db old).0 in
        (g.networks ≡ db.networks) × (g.network_nodes ≡ db.network_nodes)
  unfolding table_stored store_event create_or_update_entry
  stored_keeps e n db none = ground arith
  stored_keeps e n db (some old) = ground arith

  handle_keeps :
      (e : TableEvent) (db : Db)
      → let g = (handle_table_message config e true db).0 in
        (g.networks ≡ db.networks) × (g.network_nodes ≡ db.network_nodes)
  unfolding handle_table_message handle_table_event table_admitted
  handle_keeps e db =
      let db' = record db { table_clock = clock.witness db.table_clock e.ltime } in
      elim (Bool-cases (same e.node_name config.node_id)) [
        | inl own ↦ rw own (refl, refl)
        | inr other ↦ elim (Option-cases (admitted config e db')) [
          | inl shut ↦ rw (other, shut) (refl, refl)
          | inr (n, at) ↦
              rw (other, at) (stored_keeps e n db' (get_entry e.table_name e.network_id e.key db'))
        ]
      ]

  pub not_shut :
      (e : TableEvent) (n : Network) (db : Db) → IsOpen config e n db → IsShut config e db → ⊥
  not_shut e n db (at, stays, here) (inl missing) = cc
  not_shut e n db (at, stays, here) (inr (inl (m, at', leaving))) = cc
  not_shut e n db (at, stays, here) (inr (inr gone)) = cc

  fresh-IsNewer : (e : TableEvent) (old : Option Entry) → IsFresh e true old → IsNewer e old
  fresh-IsNewer e none f = tt
  fresh-IsNewer e (some old) f = f

  stale-IsOld : (e : TableEvent) (old : Option Entry) → IsStale e true old → IsOld e old
  stale-IsOld e none st = absurd (ground arith)
  stale-IsOld e (some old) st = st

  at_about {ℓ} :
      (P : Option Entry → Type ℓ) (e : TableEvent) (db : Db) (p : Path3)
      → IsAbout p e
      → P (get_entry e.table_name e.network_id e.key db)
      → P (at_path p db)
  at_about P e db p about h =
      subst (λ q. P (at_path q db)) ((same_path_iff (path_of e) p).0 about) h

  handle_at :
      (e : TableEvent) (db : Db) (p : Path3)
      → Takes e db
      → let new = at_path p (handle_table_message config e true db).0 in
        let old = at_path p db in
        ((same_path (path_of e) p ≡ false) × (new ≡ old))
        ⊎ ((IsAbout p e × IsNewer e old × (new ≡ some (event_entry config e)))
            ⊎ (IsAbout p e × IsOld e old × (new ≡ old)))
  unfolding handle_table_message
  handle_at e db p ((n, is_open), other) =
      rw other (elim (handle_table_event_cases laws config e true db) [
        | inl (m, o, fresh, stores, sent) ↦ elim (Bool-cases (same_path (path_of e) p)) [
          | inr apart ↦ inl (apart, stores p.0 p.1 p.2 ∙ (rw apart refl))
          | inl about ↦ inr (
              inl (
                about,
                at_about (IsNewer e) e db p about (fresh-IsNewer e _ fresh),
                stores p.0 p.1 p.2 ∙ (rw about refl),
              ))
        ]
        | inr (inl shut, is) ↦ absurd (not_shut e n db is_open shut)
        | inr (inr stale, is) ↦ elim (Bool-cases (same_path (path_of e) p)) [
          | inr apart ↦ rw is (inl (apart, (unfold get_entry in refl)))
          | inl about ↦ rw is (
              inr (
                inr (
                  about,
                  at_about (IsOld e) e db p about (stale-IsOld e _ stale),
                  (unfold get_entry in refl),
                )))
        ]
      ])

  Takes-same :
      (e : TableEvent) (db db' : Db)
      → db'.networks ≡ db.networks
      → db'.network_nodes ≡ db.network_nodes
      → Takes e db
      → Takes e db'
  unfolding node_network participants
  Takes-same e db db' networks nodes ((n, is_open), other) =
      ((n, rw (networks, nodes) is_open), other)

  Takes-keeps :
      (e f : TableEvent) (db : Db) → Takes e db → Takes e (handle_table_message config f true db).0
  Takes-keeps e f db t =
      let keeps = handle_keeps f db in
      Takes-same e db (handle_table_message config f true db).0 keeps.0 keeps.1 t

  -- Every event is one that the database takes.
  abbrev pub TakesAll : List TableEvent → Db → Type 0
  TakesAll [] db = Unit
  TakesAll (e ∷ parts) db = Takes e db × TakesAll parts db

  TakesAll-keeps :
      (parts : List TableEvent) (f : TableEvent) (db : Db)
      → TakesAll parts db
      → TakesAll parts (handle_table_message config f true db).0
  TakesAll-keeps [] f db t = tt
  TakesAll-keeps (e ∷ parts) f db (t, ts) = (Takes-keeps e f db t, TakesAll-keeps parts f db ts)

  -- With any trees that satisfy the laws of a radix tree: a bulk sync of events that other nodes made,
  -- of networks that this node is in and stays in and that their owners take part in, leaves at each
  -- path the newest of what was there and of the events about the path. That is what was there, if no
  -- event about the path is newer, and else the entry of the event of the latest time.
  pub handle_compound-IsNewest :
      (p : Path3) (parts : List TableEvent) (db : Db)
      → TakesAll parts db
      → IsNewest config p parts (at_path p db) (at_path p (handle_compound config parts true db))
  unfolding handle_compound
  handle_compound-IsNewest p [] db t = inl (refl, (λ f h. absurd h))
  handle_compound-IsNewest p (e ∷ parts) db (t, ts) =
      let db' = (handle_table_message config e true db).0 in
      let new = at_path p (handle_compound config parts true db') in
      let rest = handle_compound-IsNewest p parts db' (TakesAll-keeps parts e db ts) in
      let keep =
        λ (is : at_path p db' ≡ at_path p db). subst (λ o. IsNewest config p parts o new) is rest in
      elim (handle_at e db p t) [
        | inl (apart, is) ↦ IsNewest-skip config p e parts (at_path p db) new apart (keep is)
        | inr (inl (about, newer, is)) ↦
            IsNewest-fresh config p e parts (at_path p db) new about newer
              (subst (λ o. IsNewest config p parts o new) is rest)
        | inr (inr (about, old, is)) ↦
            IsNewest-stale config p e parts (at_path p db) new old (keep is)
      ]

module _ ⦃radix : Radix Entry⦄ ⦃clock : Clock⦄ (laws : IsRadix radix) where
  -- With any trees that satisfy the laws of a radix tree: where two nodes with one reap interval receive
  -- in bulk syncs the same events about a path, in two orders or some of them twice, and each takes all
  -- of its events, being another node than their owners and in their networks, the path ends with the
  -- same entry on both, if it began with the same and no two events about it carry one time. Outside a
  -- bulk sync the deletion of an unknown entry is ignored, and this does not hold.
  pub handle_compound_orders :
      (config other : Config) (p : Path3) (es fs : List TableEvent) (db db' : Db)
      → config.reap_entry_interval ≡ other.reap_entry_interval
      → TakesAll laws config es db
      → TakesAll laws other fs db'
      → at_path laws config p db ≡ at_path laws other p db'
      → HearAlike p es fs
      → at_path laws config p (handle_compound config es true db)
        ≡ at_path laws other p (handle_compound other fs true db')
  handle_compound_orders config other p es fs db db' interval t t' begin alike =
      IsNewest-unique config other p es fs (at_path laws config p db) _ _ interval alike
        (handle_compound-IsNewest laws config p es db t)
        (subst
          (λ old.
            IsNewest other p fs old (at_path laws other p (handle_compound other fs true db')))
          (sym begin) (handle_compound-IsNewest laws other p fs db' t'))
