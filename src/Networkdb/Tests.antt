-- ===== src/Networkdb/Tests.antt =====
-- Concrete runs of the theorems on networkdb/, on association lists.
use libnetwork.Prelude.{
  ℕ, ◌*◌, ◌≡◌, ◌⊎◌, refl, sym, ap, ◌∙◌, true, false, ◌&&◌, none, some, List, [], ◌∷◌, arith, inl,
  inr,
}
use libnetwork.Prelude.Result.{ok, err}
use libnetwork.Networkdb.Names.{same, is_prefix, lookup}
use libnetwork.Networkdb.Radix.{Path3}
use libnetwork.Networkdb.Assoc.{assoc_radix, next_clock, assoc_radix-IsRadix}
use libnetwork.Networkdb.State.{Config, Node, Network, Entry, Db}
use libnetwork.Networkdb.Entries.{
  create, update, TableEvent, EntryError, get_entry, second, create_or_update_entry,
  delete_node_network_entries, node_network,
}
use libnetwork.Networkdb.Entries.Indexes.{create_or_update-IsIndexed}
use libnetwork.Networkdb.Entries.Leave.{left_over, NetworkSkips, delete_node_network_entries_lem}
use libnetwork.Networkdb.Entries.Own.{
  to_create, run, run_cases, run_sends, refusal, written, Puts, Sends, event_of,
}
use libnetwork.Networkdb.Nodes.{
  NodeState, active, left, failed, same_state, change_node_state, holds, participants,
  participants_of,
}
use libnetwork.Networkdb.Nodes.Lists.{listed, IsPartition}
use libnetwork.Networkdb.Nodes.Moves.{IsMoved, change_node_state_cases}
use libnetwork.Networkdb.Nodes.Sound.{IsSound}
use libnetwork.Networkdb.Delegate.{
  handle_table_event, handle_table_message, handle_compound, join_network,
}
use libnetwork.Networkdb.Delegate.Tables.{
  IsFresh, IsStale, IsOpen, IsShut, Stores, witnessed, worth_sending, handle_table_event_cases,
}
use libnetwork.Networkdb.Delegate.Converge.{
  IsNewest, at_path, Takes, HearAlike, Hears, handle_compound-IsNewest, handle_compound_orders,
}
use libnetwork.Networkdb.Delegate.Replicate.{handle_table_message-run}
use libnetwork.Networkdb.Steps.{new_db, start, step, joined, wrote, Reach-IsSound}

abbrev alice : Config
alice = record {
  node_id = 1 ∷ [];
  reap_entry_interval = 1800 * second;
  reap_network_interval = 1825 * second;
}

abbrev bob : Config
bob = record {
  node_id = 2 ∷ [];
  reap_entry_interval = 1800 * second;
  reap_network_interval = 1825 * second;
}

abbrev attached : Network
attached = record { ltime = 1; in_sync = true; leaving = false; reap_time = 0 }

abbrev alice_node : Node
alice_node = record { name = 1 ∷ []; addr = 10; port = 7946; ltime = 4; reap_time = 0 }

-- The network 7 with alice and bob in it, as both know it.
abbrev shared : Db
shared = record {
  network_clock = 3;
  table_clock = 5;
  by_table = [];
  by_network = [];
  nodes = (1 ∷ [], alice_node) ∷ [];
  failed_nodes = [];
  left_nodes = [];
  networks = (1 ∷ [], (7 ∷ [], attached) ∷ []) ∷ (2 ∷ [], (7 ∷ [], attached) ∷ []) ∷ [];
  network_nodes = (7 ∷ [], (1 ∷ []) ∷ (2 ∷ []) ∷ []) ∷ [];
  events = [];
}

-- Entries of alice for the table 3 and the key 5.
abbrev made : ℕ → List ℕ → TableEvent
made ltime value = record {
  kind = update;
  ltime = ltime;
  node_name = 1 ∷ [];
  network_id = 7 ∷ [];
  table_name = 3 ∷ [];
  key = 5 ∷ [];
  value = value;
  residual_reap_time = 0;
}

shared-IsOpen :
    (e : TableEvent) → e.network_id ≡ 7 ∷ [] → e.node_name ≡ 1 ∷ [] → IsOpen bob e attached shared
unfolding node_network participants participants_of lookup holds same
shared-IsOpen e net node = rw (net, node) (refl, refl, refl)

shared-Takes :
    (ltime : ℕ) (value : List ℕ) → Takes assoc_radix-IsRadix bob (made ltime value) shared
unfolding same
shared-Takes ltime value = ((attached, shared-IsOpen (made ltime value) refl refl), refl)

abbrev at_key : Path3
at_key = (3 ∷ [], 7 ∷ [], 5 ∷ [])

abbrev in_order : List TableEvent
in_order = made 6 [] ∷ made 8 (1 ∷ []) ∷ []

abbrev out_of_order : List TableEvent
out_of_order = made 8 (1 ∷ []) ∷ made 6 [] ∷ made 8 (1 ∷ []) ∷ []

handle_compound-IsNewest_example :
    IsNewest bob at_key in_order
      (at_path assoc_radix-IsRadix bob at_key shared)
      (at_path assoc_radix-IsRadix bob at_key (handle_compound bob in_order true shared))
handle_compound-IsNewest_example =
    handle_compound-IsNewest assoc_radix-IsRadix bob at_key in_order shared
      (shared-Takes 6 [], (shared-Takes 8 (1 ∷ []), tt))

orders_alike : HearAlike at_key in_order out_of_order
orders_alike = (λ e. (there e, back e), once)
  where
    there : (e : TableEvent) → Hears at_key e in_order → Hears at_key e out_of_order
    there e (inl first) = inr (inl first)
    there e (inr (inl second)) = inl second
    there e (inr (inr none_left)) = absurd none_left

    back : (e : TableEvent) → Hears at_key e out_of_order → Hears at_key e in_order
    back e (inl first) = inr (inl first)
    back e (inr (inl second)) = inl second
    back e (inr (inr (inl third))) = inr (inl third)
    back e (inr (inr (inr none_left))) = absurd none_left

    apart : (e f : TableEvent) → e ≡ made 6 [] → f ≡ made 8 (1 ∷ []) → e.ltime ≡ f.ltime → ⊥
    apart e f p q eq =
        (let six : e.ltime ≡ 6 = ap (λ g. g.ltime) p in
          let eight : f.ltime ≡ 8 = ap (λ g. g.ltime) q in omega arith)

    once :
        (e f : TableEvent)
        → Hears at_key e in_order
        → Hears at_key f in_order
        → e.ltime ≡ f.ltime
        → e ≡ f
    once e f (inl (p, a)) (inl (q, b)) eq = p ∙ sym q
    once e f (inl (p, a)) (inr (inl (q, b))) eq = absurd (apart e f p q eq)
    once e f (inr (inl (p, a))) (inl (q, b)) eq = absurd (apart f e q p (sym eq))
    once e f (inr (inl (p, a))) (inr (inl (q, b))) eq = p ∙ sym q
    once e f (inr (inr n)) h eq = absurd n
    once e f (inl p) (inr (inr n)) eq = absurd n
    once e f (inr (inl p)) (inr (inr n)) eq = absurd n

handle_compound_orders_example :
    at_path assoc_radix-IsRadix bob at_key (handle_compound bob in_order true shared)
    ≡ at_path assoc_radix-IsRadix bob at_key (handle_compound bob out_of_order true shared)
handle_compound_orders_example =
    handle_compound_orders assoc_radix-IsRadix bob bob at_key in_order out_of_order shared shared
      refl (shared-Takes 6 [], (shared-Takes 8 (1 ∷ []), tt))
      (shared-Takes 8 (1 ∷ []), (shared-Takes 6 [], (shared-Takes 8 (1 ∷ []), tt))) refl
      orders_alike

handle_table_event_cases_example :
    let e = made 6 [] in
    let r = handle_table_event bob e false shared in
    let old = get_entry (3 ∷ []) (7 ∷ []) (5 ∷ []) shared in
    ((n : Network) × IsOpen bob e n shared
      × IsFresh e false old
      × Stores assoc_radix-IsRadix bob e false shared r.0
      × (r.1 ≡ (n.in_sync && worth_sending bob e old)))
    ⊎ ((IsShut bob e shared ⊎ IsStale e false old)
        × (r ≡ (witnessed assoc_radix-IsRadix bob e false shared, false)))
handle_table_event_cases_example =
    handle_table_event_cases assoc_radix-IsRadix bob (made 6 []) false shared

-- What alice sends of the entry that she creates.
abbrev sent : TableEvent
sent =
    event_of alice (3 ∷ []) (7 ∷ []) (5 ∷ []) create
      (written alice (3 ∷ []) (7 ∷ []) (5 ∷ []) (to_create (9 ∷ [])) none shared)

alice_sends : (run alice (3 ∷ []) (7 ∷ []) (5 ∷ []) (to_create (9 ∷ [])) shared).1 ≡ ok (some sent)
unfolding get_entry node_network lookup same
alice_sends =
    run_sends alice (3 ∷ []) (7 ∷ []) (5 ∷ []) (to_create (9 ∷ [])) shared attached refl refl

handle_table_message-run_example :
    get_entry (3 ∷ []) (7 ∷ []) (5 ∷ []) (handle_table_message bob sent false shared).0
    ≡ get_entry
        (3 ∷ [])
        (7 ∷ [])
        (5 ∷ [])
        (run alice (3 ∷ []) (7 ∷ []) (5 ∷ []) (to_create (9 ∷ [])) shared).0
unfolding get_entry same
handle_table_message-run_example =
    handle_table_message-run assoc_radix-IsRadix alice bob (3 ∷ []) (7 ∷ []) (5 ∷ [])
      (to_create (9 ∷ [])) shared shared sent attached alice_sends
      (1800, refl, omega arith, omega arith) refl (shared-IsOpen sent refl refl) refl

run_cases_example :
    let r = run alice (3 ∷ []) (7 ∷ []) (5 ∷ []) (to_create (9 ∷ [])) shared in
    let old = get_entry (3 ∷ []) (7 ∷ []) (5 ∷ []) shared in
    let e = written alice (3 ∷ []) (7 ∷ []) (5 ∷ []) (to_create (9 ∷ [])) old shared in
    ((er : EntryError) × (refusal (to_create (9 ∷ [])) old ≡ some er) × (r ≡ (shared, err er)))
    ⊎ ((refusal (to_create (9 ∷ [])) old ≡ none)
        × Puts alice (3 ∷ []) (7 ∷ []) (5 ∷ []) e shared r.0
        × Sends alice (3 ∷ []) (7 ∷ []) (5 ∷ []) create e shared r.1)
run_cases_example =
    run_cases alice (3 ∷ []) (7 ∷ []) (5 ∷ []) assoc_radix-IsRadix (to_create (9 ∷ [])) shared

shared-IsPartition : IsPartition shared
unfolding lookup same_state
shared-IsPartition x = (active, go)
  where
    go : (s : NodeState) → same_state s active ≡ false → listed x s shared ≡ none
    go active p = cc
    go left p = refl
    go failed p = refl

change_node_state_cases_example :
    let r = change_node_state (1 ∷ []) failed shared in
    ((r ≡ (shared, none)) × ((s : NodeState) → listed (1 ∷ []) s shared ≡ none))
    ⊎ (((r ≡ (shared, some false)) × (n : Node) × (listed (1 ∷ []) failed shared ≡ some n))
        ⊎ ((r.1 ≡ some true) × IsMoved (1 ∷ []) failed shared r.0))
change_node_state_cases_example =
    change_node_state_cases assoc_radix-IsRadix (1 ∷ []) failed shared shared-IsPartition

-- An entry of alice in the network 71, whose name begins with 7.
abbrev kept : Entry
kept = record { node = 1 ∷ []; ltime = 5; value = 9 ∷ []; deleting = false; reap_time = 0 }

abbrev stocked : Db
stocked = create_or_update_entry (7 ∷ 1 ∷ []) (3 ∷ []) (5 ∷ []) kept shared

delete_node_network_entries_lem_example :
    let new =
      get_entry
        (3 ∷ [])
        (7 ∷ 1 ∷ [])
        (5 ∷ [])
        (delete_node_network_entries bob (7 ∷ []) (1 ∷ []) stocked) in
    let old = get_entry (3 ∷ []) (7 ∷ 1 ∷ []) (5 ∷ []) stocked in
    ((is_prefix (7 ∷ []) (7 ∷ 1 ∷ []) ≡ true) × (new ≡ left_over bob (1 ∷ []) old))
    ⊎ ((new ≡ old)
        × ((is_prefix (7 ∷ []) (7 ∷ 1 ∷ []) ≡ false)
            ⊎ ((same (1 ∷ []) bob.node_id ≡ true)
                × NetworkSkips bob (7 ∷ []) (1 ∷ []) (7 ∷ 1 ∷ [], 3 ∷ [], 5 ∷ []) stocked)))
delete_node_network_entries_lem_example =
    delete_node_network_entries_lem assoc_radix-IsRadix bob (7 ∷ []) (1 ∷ []) (3 ∷ []) (7 ∷ 1 ∷ [])
      (5 ∷ []) stocked
      (create_or_update-IsIndexed assoc_radix-IsRadix (3 ∷ []) (7 ∷ 1 ∷ []) (5 ∷ []) kept shared
        (λ t n k. refl))

abbrev alice_joined : Db
alice_joined = join_network alice (7 ∷ []) new_db

Reach-IsSound_example :
    IsSound (run alice (3 ∷ []) (7 ∷ []) (5 ∷ []) (to_create (9 ∷ [])) alice_joined).0
Reach-IsSound_example =
    Reach-IsSound alice assoc_radix-IsRadix
      (run alice (3 ∷ []) (7 ∷ []) (5 ∷ []) (to_create (9 ∷ [])) alice_joined).0
      (step (step (start new_db) (joined (7 ∷ []) new_db))
        (wrote (3 ∷ []) (7 ∷ []) (5 ∷ []) (to_create (9 ∷ [])) alice_joined))
