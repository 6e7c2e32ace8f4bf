-- ===== src/Ipam/Pools/Add.antt =====
-- ipam/structures.go: updatePoolDBOnAdd, on every branch.
use libnetwork.Prelude.{
  ℕ, zero, suc, ◌≡◌, ◌≢◌, ◌⊎◌, ◌&&◌, ◌||◌, arith, inl, inr, refl, sym, ◌∙◌, Bool, true, false,
  Option, none, some, List, [], ◌∷◌, if◌then◌else◌, Bool-cases, Option-cases,
}
use libnetwork.Prelude.Int.{ℤ, pos, succ}
use libnetwork.Prelude.Result.{Result, ok, err}
use libnetwork.Networkdb.Names.{Name, same, same_iff}
use libnetwork.Ipam.Net.{IpNet, has_ip}
use libnetwork.Ipam.Keys.{SubnetKey, zero_key, master_of, same_key, find, put, find-put}
use libnetwork.Ipam.Pools.{
  AddressRange, PoolData, Subnets, PoolError, pool_overlap, predefined_reserved, master_data,
  child_data, inc_ref_count, Effect, nothing, insert_bit_mask, update_pool_db_on_add, add_found,
  add_new, add_to_parent, contains, with_nothing,
}
use libnetwork.Ipam.Pools.Held.{use_count, MasterAt, IsHeld}
use libnetwork.Ipam.Pools.Refine.{
  ne_child, ne_space, master_self, MasterAt-none, zero_missing, add_child-IsHeld, add_master-IsHeld,
}

-- The request of a part has a range, and that of a whole pool has none, as parsePoolRequest makes them.
abbrev pub IsRequest : SubnetKey → Option AddressRange → Type 0
IsRequest k none = k.child_subnet ≡ []
IsRequest k (some r) = k.child_subnet ≢ []

-- The bitmask is made for the first user of a pool.
abbrev pub added : SubnetKey → IpNet → ℕ → Effect
added m nw zero = insert_bit_mask m nw
added m nw (suc n) = nothing

pub inc_ref_count-found :
    (delta : ℤ → ℤ) (fuel : ℕ) (k : SubnetKey) (c : PoolData) (s : Subnets)
    → find k s ≡ some c
    → inc_ref_count (suc fuel) delta k s
      ≡ inc_ref_count fuel delta c.parent_key (put k (record c { ref_count = delta c.ref_count }) s)
unfolding inc_ref_count
inc_ref_count-found delta fuel k c s at = rw (at, inc_ref_count) refl

pub inc_ref_count-missing :
    (delta : ℤ → ℤ) (fuel : ℕ) (k : SubnetKey) (s : Subnets)
    → find k s ≡ none
    → inc_ref_count (suc fuel) delta k s ≡ some s
unfolding inc_ref_count
inc_ref_count-missing delta fuel k s at = rw (at, inc_ref_count) refl

pub inc_ref_count-master :
    (delta : ℤ → ℤ) (fuel : ℕ) (m : SubnetKey) (w : IpNet) (n : ℤ) (s : Subnets)
    → find m s ≡ some (master_data w n)
    → same_key m zero_key ≡ false
    → find zero_key s ≡ none
    → inc_ref_count (suc (suc fuel)) delta m s ≡ some (put m (master_data w (delta n)) s)
inc_ref_count-master delta fuel m w n s at named nowhere =
    inc_ref_count-found delta (suc fuel) m (master_data w n) s at
    ∙ inc_ref_count-missing delta fuel zero_key (put m (master_data w (delta n)) s)
        (find-put m zero_key (master_data w (delta n)) s ∙ (rw named nowhere))

add_parent :
    (held : List SubnetKey) (s : Subnets) (k : SubnetKey) (nw : IpNet) (r : AddressRange) (n : ℕ)
    → IsHeld held s
    → k.address_space ≢ []
    → k.child_subnet ≢ []
    → find k s ≡ none
    → use_count (master_of k) held ≡ n
    → MasterAt n (find (master_of k) s)
    → let s1 = put k (child_data k nw r) s in
      (s' : Subnets) × (add_to_parent (master_of k) nw s1 (find (master_of k) s1)
        ≡ some (ok (s', added (master_of k) nw n)))
      × IsHeld (k ∷ held) s'
unfolding add_to_parent with_nothing
add_parent held s k nw r zero h named part new uses at =
    let s1 = put k (child_data k nw r) s in
    let m = master_of k in
    (
      put m (master_data nw (pos 1)) s1,
      (rw (find-put k m (child_data k nw r) s, ne_child k m part, at) refl),
      add_child-IsHeld held s h k nw nw r (put m (master_data nw (pos 1)) s1) named part new (λ j.
          rw (find-put m j (master_data nw (pos 1)) s1, find-put k j (child_data k nw r) s, uses)
            refl),
    )
add_parent held s k nw r (suc n) h named part new uses (w, at) =
    let s1 = put k (child_data k nw r) s in
    let m = master_of k in
    let there : find m s1 ≡ some (master_data w (pos (suc n))) =
      find-put k m (child_data k nw r) s ∙ (rw (ne_child k m part) at) in
    let nowhere : find zero_key s1 ≡ none =
      find-put k zero_key (child_data k nw r) s
      ∙ (rw (ne_child k zero_key part) (zero_missing held s h)) in
    (
      put m (master_data w (pos (suc (suc n)))) s1,
      (rw
          (
            there,
            inc_ref_count-master succ 1 m w (pos (suc n)) s1 there (ne_space m zero_key named)
                nowhere,
          )
          refl),
      add_child-IsHeld held s h k nw w r (put m (master_data w (pos (suc (suc n)))) s1) named part
          new
          (λ j.
            rw
              (
                find-put m j (master_data w (pos (suc (suc n)))) s1,
                find-put k j (child_data k nw r) s,
                uses,
              )
              refl),
    )

abbrev pub Adds :
    List SubnetKey → SubnetKey → IpNet → Option (Result PoolError (Subnets × Effect)) → Type 0
Adds held k nw r =
    (s' : Subnets) × (r ≡ some (ok (s', added (master_of k) nw (use_count (master_of k) held))))
    × IsHeld (k ∷ held) s'

-- A whole pool of the address space in the map has an address of the network, or the network one of it.
pub data Overlaps (space : Name) (nw : IpNet) : Subnets → Type 0 where
  here :
      (k : SubnetKey) (v : PoolData) (s : Subnets)
      → k.address_space ≡ space
      → k.child_subnet ≡ []
      → (has_ip nw v.pool.ip ≡ true) ⊎ (has_ip v.pool nw.ip ≡ true)
      → Overlaps space nw ((k, v) ∷ s)
  later :
      (k : SubnetKey) (v : PoolData) (s : Subnets)
      → Overlaps space nw s
      → Overlaps space nw ((k, v) ∷ s)

and_parts : (a b : Bool) → (a && b) ≡ true → (a ≡ true) × (b ≡ true)
and_parts true b h = (refl, h)
and_parts false b h = cc

or_parts : (a b : Bool) → (a || b) ≡ true → (a ≡ true) ⊎ (b ≡ true)
or_parts true b h = inl refl
or_parts false b h = inr h

pub contains-Overlaps :
    (space : Name) (nw : IpNet) (s : Subnets) → contains space nw s ≡ true → Overlaps space nw s
unfolding contains
contains-Overlaps space nw [] h = absurd cc
contains-Overlaps space nw ((k, v) ∷ s) h = elim (or_parts _ (contains space nw s) h) [
  | inl at ↦
      let (whole, over) = and_parts (same space k.address_space && same k.child_subnet []) _ at in
      let (a, b) = and_parts (same space k.address_space) (same k.child_subnet []) whole in
      here k v s (sym ((same_iff space k.address_space).0 a)) ((same_iff k.child_subnet []).0 b)
        (or_parts (has_ip nw v.pool.ip) (has_ip v.pool nw.ip) over)
  | inr rest ↦ later k v s (contains-Overlaps space nw s rest)
]

pub Overlaps-contains :
    (space : Name) (nw : IpNet) (s : Subnets) → Overlaps space nw s → contains space nw s ≡ true
unfolding contains
Overlaps-contains space nw _ (here k v s own whole over) =
    rw ((same_iff space k.address_space).1 (sym own), (same_iff k.child_subnet []).1 whole)
      (elim over [ inl of_new ↦ rw of_new refl | inr of_old ↦ ground (arith, of_old) ])
Overlaps-contains space nw _ (later k v s rest) =
    let h = Overlaps-contains space nw s rest in ground (arith, h)

add_new_cases :
    (held : List SubnetKey) (s : Subnets) (k : SubnetKey) (nw : IpNet) (ipr : Option AddressRange)
    → IsHeld held s
    → k.address_space ≢ []
    → IsRequest k ipr
    → find k s ≡ none
    → ((ipr ≡ none)
        × Overlaps k.address_space nw s
        × (add_new k nw ipr s ≡ some (err pool_overlap)))
      ⊎ ((ipr ≡ none → ¬ Overlaps k.address_space nw s) × Adds held k nw (add_new k nw ipr s))
unfolding add_new
add_new_cases held s k nw none h named whole new =
    elim (Bool-cases (contains k.address_space nw s)) [
      | inl over ↦ inl (refl, contains-Overlaps k.address_space nw s over, (rw over refl))
      | inr apart ↦
          let own : master_of k ≡ k = sym (master_self k whole) in
          let unused = MasterAt-none (use_count k held) (find k s) (h.masters k whole) new in
          inr (
            (λ e over. let bad = Overlaps-contains k.address_space nw s over in cc),
            (
              put k (master_data nw (pos 1)) s,
              (rw (apart, own, unused) refl),
              add_master-IsHeld held s h k nw (put k (master_data nw (pos 1)) s) named whole unused
                  (λ j. find-put k j (master_data nw (pos 1)) s),
            ),
          )
    ]
add_new_cases held s k nw (some r) h named part new = inr (
  (λ e. absurd cc),
  add_parent held s k nw r (use_count (master_of k) held) h named part new refl
      (h.masters (master_of k) refl),
)

pub update_pool_db_on_add-master :
    (k : SubnetKey) (nw : IpNet) (pdf : Bool) (s : Subnets)
    → find k s ≡ none
    → contains k.address_space nw s ≡ false
    → update_pool_db_on_add k nw none pdf s
      ≡ some (ok (put k (master_data nw (pos 1)) s, insert_bit_mask k nw))
unfolding update_pool_db_on_add add_found add_new
update_pool_db_on_add-master k nw pdf s new apart = rw (new, apart) refl

-- Where the map holds the pools that are held: updatePoolDBOnAdd comes to an end. It refuses a pool
-- that is in the map, a predefined one with the error to try another, and a whole pool exactly where
-- a whole pool of its address space in the map has the address of its network, or its network that of
-- the other. Otherwise the map then holds the requested pool too, and a bitmask is made exactly
-- for the first user of the pool that it is or is a part of.
pub update_pool_db_on_add_cases :
    (held : List SubnetKey) (s : Subnets) (k : SubnetKey) (nw : IpNet) (ipr : Option AddressRange)
    (pdf : Bool)
    → IsHeld held s
    → k.address_space ≢ []
    → IsRequest k ipr
    → let r = update_pool_db_on_add k nw ipr pdf s in
      (((p : PoolData) × (find k s ≡ some p))
        × (r ≡ some (err (if pdf then predefined_reserved else pool_overlap))))
      ⊎ ((find k s ≡ none)
          × (((ipr ≡ none) × Overlaps k.address_space nw s × (r ≡ some (err pool_overlap)))
              ⊎ ((ipr ≡ none → ¬ Overlaps k.address_space nw s) × Adds held k nw r)))
unfolding update_pool_db_on_add add_found
update_pool_db_on_add_cases held s k nw ipr pdf h named shape = elim (Option-cases (find k s)) [
  | inr (p, at) ↦ rw at (inl ((p, refl), refl))
  | inl new ↦ rw new (inr (refl, add_new_cases held s k nw ipr h named shape new))
]
