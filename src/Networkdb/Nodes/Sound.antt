-- ===== src/Networkdb/Nodes/Sound.antt =====
-- networkdb/: the invariant of the database, kept by nodemgmt.go and event_delegate.go.
use libnetwork.Prelude.{
  ◌≡◌, refl, subst, ◌∙◌, Bool, true, false, Option, none, some, List, [], ◌∷◌, arith, Bool-cases,
  inl, inr,
}
use libnetwork.Networkdb.Names.{Name, same, same_iff, same_refl, same_comm, put, lookup-put}
use libnetwork.Networkdb.Radix.{Radix, IsRadix}
use libnetwork.Networkdb.State.{Node, Entry, Db, Notice, write, of_node, op_create, op_delete}
use libnetwork.Networkdb.Entries.Indexes.{IsIndexed}
use libnetwork.Networkdb.Entries.Keeps.{Aside}
use libnetwork.Networkdb.Nodes.{
  NodeState, active, left, failed, same_state, nodes_of, set_nodes, change_node_state, incarnation,
  purge_reincarnation, leave_found, join_moved, notify_join, leave_moved, notify_leave,
}
use libnetwork.Networkdb.Nodes.Lists.{
  listed, IsHome, IsPartition, nodes_of-set_nodes, same_state_iff, found-IsHome,
}
use libnetwork.Networkdb.Nodes.Moves.{
  change_node_state_cases, change_node_state-IsIndexed, change_node_state-IsPartition,
  Keeps-IsPartition,
}

module _ ⦃radix : Radix Entry⦄ where
  -- Both trees hold the same entries, and no node stands in two lists.
  pub record IsSound (db : Db) : Type 0 where
    pub indexed : IsIndexed db
    pub partition : IsPartition db

  -- The name stands in no list but that of the active nodes.
  abbrev pub IsNoneButActive : Name → Db → Type 0
  IsNoneButActive name db = IsHome name db active

  module _ (laws : IsRadix radix) where
    pub change_node_state-IsSound :
        (name : Name) (to : NodeState) (db : Db)
        → IsSound db
        → IsSound (change_node_state name to db).0
    change_node_state-IsSound name to db h = record {
      indexed = change_node_state-IsIndexed laws name to db h.indexed;
      partition = change_node_state-IsPartition laws name to db h.partition;
    }

    set_nodes-IsIndexed :
        (s : NodeState) (nodes : List (Name × Node)) (db : Db)
        → IsIndexed db
        → IsIndexed (set_nodes s nodes db)
    unfolding set_nodes
    set_nodes-IsIndexed active nodes db h = h
    set_nodes-IsIndexed left nodes db h = h
    set_nodes-IsIndexed failed nodes db h = h

    -- A node may be put in the list that its name is at home in.
    pub put_home-IsSound :
        (name : Name) (n : Node) (s : NodeState) (db : Db)
        → IsHome name db s
        → IsSound db
        → IsSound (set_nodes s (put name n (nodes_of s db)) db)
    put_home-IsSound name n s db home h = record {
      indexed = set_nodes-IsIndexed s (put name n (nodes_of s db)) db h.indexed;
      partition = (λ x. elim (Bool-cases (same name x)) [
        | inl here ↦ (
          s,
          (λ t other.
              rw (nodes_of-set_nodes t s (put name n (nodes_of s db)) db, other)
                (subst (λ y. listed y t db ≡ none) ((same_iff name x).0 here) (home t other))),
        )
        | inr apart ↦
            (let (g, at_home) = h.partition x in
              (
                g,
                (λ t other.
                    rw (nodes_of-set_nodes t s (put name n (nodes_of s db)) db)
                      (elim (Bool-cases (same_state t s)) [
                        | inl is ↦
                            rw (is, lookup-put name x n (nodes_of s db), apart)
                              (subst (λ u. listed x u db ≡ none) ((same_state_iff t s).0 is)
                                (at_home t other))
                        | inr differs ↦ rw differs (at_home t other)
                      ])),
              ))
      ]);
    }

    incarnation-other :
        (mn : Node) (nodes : List (Name × Node)) (name : Name)
        → incarnation mn nodes ≡ some name
        → same mn.name name ≡ false
    unfolding incarnation
    incarnation-other mn [] name at = cc
    incarnation-other mn ((k, n) ∷ nodes) name at =
        ground (arith, at, incarnation-other mn nodes name)

    -- A node that another name takes the place of goes to the left ones, and the other name stays.
    leave_other :
        (mn name : Name) (db : Db)
        → same mn name ≡ false
        → IsSound db
        → IsNoneButActive mn db
        → IsNoneButActive mn (change_node_state name left db).0
    leave_other mn name db other h home s not_active =
        elim (change_node_state_cases laws name left db h.partition) [
          | inl (is, nowhere) ↦ rw is (home s not_active)
          | inr (inl (is, n, at)) ↦ rw is (home s not_active)
          | inr (inr (is, (n, from, differ, at, lists, entries, names))) ↦
              lists mn s ∙ (rw (same_comm name mn ∙ other) (home s not_active))
        ]

    -- What purgeReincarnation keeps.
    abbrev Fit : Name → Db → Type 0
    Fit mn db = IsSound db × IsNoneButActive mn db

    leave_found-Fit :
        (mn : Name) (o : Option Name) (db : Db) (r : Db × Bool)
        → ((name : Name) → o ≡ some name → same mn name ≡ false)
        → Fit mn db
        → Fit mn r.0
        → Fit mn (leave_found o db r).0
    unfolding leave_found
    leave_found-Fit mn none db r other f g = g
    leave_found-Fit mn (some name) db r other (h, home) g =
        (change_node_state-IsSound name left db h, leave_other mn name db (other name refl) h home)

    purge_reincarnation-Fit :
        (mn : Node) (db : Db) → Fit mn.name db → Fit mn.name (purge_reincarnation mn db).0
    unfolding purge_reincarnation
    purge_reincarnation-Fit mn db f =
        let third =
          leave_found-Fit mn.name (incarnation mn db.left_nodes) db (db, false)
            (incarnation-other mn db.left_nodes) f f in
        let second =
          leave_found-Fit mn.name (incarnation mn db.failed_nodes) db _
            (incarnation-other mn db.failed_nodes) f third in
        leave_found-Fit mn.name (incarnation mn db.nodes) db _ (incarnation-other mn db.nodes) f
          second

    join_put-IsSound :
        (mn : Node) (db : Db) (r : Option Bool) → Fit mn.name db → IsSound (join_moved mn (db, r))
    unfolding join_moved set_nodes
    join_put-IsSound mn db (some true) f = f.0
    join_put-IsSound mn db (some false) f =
        let g = purge_reincarnation-Fit mn db f in
        put_home-IsSound mn.name (record mn { ltime = 0; reap_time = 0 }) active
          (purge_reincarnation mn db).0 g.1 g.0
    join_put-IsSound mn db none f =
        let g = purge_reincarnation-Fit mn db f in
        put_home-IsSound mn.name (record mn { ltime = 0; reap_time = 0 }) active
          (purge_reincarnation mn db).0 g.1 g.0

    pub write-IsSound : (o : Notice) (db : Db) → IsSound db → IsSound (write o db)
    write-IsSound o db h = record {
      indexed = h.indexed;
      partition = Keeps-IsPartition db (write o db) (refl, refl, refl, refl, refl) h.partition;
    }

    active-Fit :
        (name : Name) (db : Db)
        → IsSound db
        → IsNoneButActive name (change_node_state name active db).0
    active-Fit name db h = elim (change_node_state_cases laws name active db h.partition) [
      | inl (is, nowhere) ↦ rw is (λ s other. nowhere s)
      | inr (inl (is, n, at)) ↦ rw is (found-IsHome name n active db h.partition at)
      | inr (inr (is, (n, from, differ, at, lists, entries, names))) ↦
          (λ s other. lists name s ∙ (rw (same_refl name, other) refl))
    ]

    pub notify_join-IsSound : (mn : Node) (db : Db) → IsSound db → IsSound (notify_join mn db)
    unfolding notify_join
    notify_join-IsSound mn db h =
        let db' = write (of_node op_create mn.addr) db in
        let h' = write-IsSound (of_node op_create mn.addr) db h in
        let r = change_node_state mn.name active db' in
        join_put-IsSound mn r.0 r.1
          (change_node_state-IsSound mn.name active db' h', active-Fit mn.name db' h')

    leave_moved-IsSound :
        (mn : Node) (db : Db) (o : Option (Node × NodeState))
        → IsSound db
        → IsSound (leave_moved mn db o)
    unfolding leave_moved
    leave_moved-IsSound mn db none h = h
    leave_moved-IsSound mn db (some (n, active)) h = change_node_state-IsSound mn.name failed db h
    leave_moved-IsSound mn db (some (n, left)) h = h
    leave_moved-IsSound mn db (some (n, failed)) h = h

    pub notify_leave-IsSound : (mn : Node) (db : Db) → IsSound db → IsSound (notify_leave mn db)
    unfolding notify_leave
    notify_leave-IsSound mn db h =
        leave_moved-IsSound mn _ _ (write-IsSound (of_node op_delete mn.addr) db h)

  pub Aside-IsSound : (a b : Db) → Aside a b → IsSound a → IsSound b
  Aside-IsSound a b (t, n, v, l, f) h = record {
    indexed = rw (t, n) h.indexed;
    partition = (λ x. let (g, home) = h.partition x in (g, λ s other. lists s x ∙ home s other));
  }
    where
      lists : (s : NodeState) (x : Name) → listed x s b ≡ listed x s a
      lists active x = rw v refl
      lists left x = rw l refl
      lists failed x = rw f refl
