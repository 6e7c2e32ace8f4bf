-- ===== src/Ipam/Pools/Remove.antt =====
-- ipam/structures.go: updatePoolDBOnRemoval, on every branch.
use libnetwork.Prelude.{
  ℕ, zero, suc, ◌<◌, ◌≡◌, ◌≢◌, ◌⊎◌, inl, inr, refl, sym, subst, ◌∙◌, Option, none, some, List, [],
  ◌∷◌, arith, if◌then◌else◌, Bool-cases,
}
use libnetwork.Prelude.Int.{pos, pred}
use libnetwork.Prelude.Result.{Result, ok, err}
use libnetwork.Ipam.Net.{IpNet}
use libnetwork.Ipam.Keys.{
  SubnetKey, zero_key, master_of, same_key, same_key_iff, same_key_refl, find, put, remove,
  find-put, find-remove,
}
use libnetwork.Ipam.Pools.{
  AddressRange, Subnets, PoolError, bad_pool, master_data, child_data, inc_ref_count, remove_unused,
  loop_fuel, Effect, nothing, destroy_bit_mask, update_pool_db_on_removal, removal_found,
  counted_down, as_ok,
}
use libnetwork.Ipam.Pools.Held.{held_count, use_count, released, MasterAt, ChildAt, IsHeld}
use libnetwork.Ipam.Pools.Refine.{
  ne_child, ne_space, master_self, zero_missing, master_found, counted, remove_child-IsHeld,
  remove_master-IsHeld, use_count-released,
}
use libnetwork.Ipam.Pools.Add.{inc_ref_count-found, inc_ref_count-master}

-- The bitmask goes with the last user of a pool.
abbrev pub dropped : SubnetKey → IpNet → ℕ → Effect
dropped m nw zero = destroy_bit_mask m nw
dropped m nw (suc n) = nothing

-- The map once the users of a pool have come down to a number.
left_with : SubnetKey → ℕ → Subnets → Subnets
left_with m zero s = remove m s
left_with m (suc n) s = s

unused_missing :
    (fuel : ℕ) (k : SubnetKey) (s : Subnets)
    → find k s ≡ none
    → remove_unused (suc fuel) k s ≡ some (s, nothing)
unfolding remove_unused
unused_missing fuel k s at = rw (at, remove_unused) refl

-- The loop at a pool that is part of no other.
unused_master :
    (fuel n : ℕ) (m : SubnetKey) (w : IpNet) (s : Subnets)
    → find m s ≡ some (master_data w (pos n))
    → find zero_key s ≡ none
    → remove_unused (suc (suc fuel)) m s ≡ some (left_with m n s, dropped m w n)
unfolding remove_unused left_with
unused_master fuel zero m w s at nowhere = rw (at, remove_unused) refl
unused_master fuel (suc n) m w s at nowhere =
    rw (at, remove_unused) (unused_missing fuel zero_key s nowhere)

-- The loop at a part of a pool that nobody holds any more.
unused_child :
    (fuel : ℕ) (k : SubnetKey) (w : IpNet) (r : AddressRange) (s : Subnets)
    → find k s ≡ some (record (child_data k w r) { ref_count = pos 0 })
    → remove_unused (suc fuel) k s ≡ remove_unused fuel (master_of k) (remove k s)
unfolding remove_unused
unused_child fuel k w r s at = rw (at, remove_unused) refl

find-left_with :
    (m j : SubnetKey) (w : IpNet) (n : ℕ) (s : Subnets)
    → find m s ≡ some (master_data w (pos n))
    → find j (left_with m n s) ≡ (if same_key m j then counted w n else find j s)
unfolding left_with
find-left_with m j w zero s at = find-remove m j s
find-left_with m j w (suc n) s at = elim (Bool-cases (same_key m j)) [
  | inl e ↦ rw (e, ← (same_key_iff m j).0 e) at
  | inr ne ↦ rw ne refl
]

-- A removal that ends well: the pool is released, with its bitmask where it was the last user.
abbrev pub Removes :
    List SubnetKey → SubnetKey → Option (Result PoolError (Subnets × Effect)) → Type 0
Removes held k r =
    (s' : Subnets) × (w : IpNet) × (r
      ≡ some (ok (s', dropped (master_of k) w (use_count (master_of k) (released k held)))))
    × IsHeld (released k held) s'

-- A removal of a pool that is part of no other takes one from its users.
abbrev pub TakesOne :
    SubnetKey → Subnets → ℕ → IpNet → Option (Result PoolError (Subnets × Effect)) → Type 0
TakesOne k s left w r =
    (s' : Subnets) × (r ≡ some (ok (s', dropped k w left)))
    × ((j : SubnetKey) → find j s' ≡ (if same_key k j then counted w left else find j s))

module _ (held : List SubnetKey) (s : Subnets) (k : SubnetKey) (h : IsHeld held s)
    (named : k.address_space ≢ []) where
  removal_of_master :
      (left : ℕ) (w : IpNet)
      → find k s ≡ some (master_data w (pos (suc left)))
      → TakesOne k s left w (update_pool_db_on_removal k s)
  unfolding update_pool_db_on_removal removal_found counted_down as_ok
  removal_of_master left w at =
      let s1 = put k (master_data w (pos left)) s in
      let apart = ne_space k zero_key named in
      let nowhere = zero_missing held s h in
      let at1 : find k s1 ≡ some (master_data w (pos left)) =
        find-put k k (master_data w (pos left)) s ∙ (rw (same_key_refl k) refl) in
      let nowhere1 : find zero_key s1 ≡ none =
        find-put k zero_key (master_data w (pos left)) s ∙ (rw apart nowhere) in
      let steps = inc_ref_count-master pred 1 k w (pos (suc left)) s at apart nowhere in
      (
        left_with k left s1,
        (rw (at, steps, unused_master 1 left k w s1 at1 nowhere1) refl),
        (λ j.
            find-left_with k j w left s1 at1
            ∙ (rw (find-put k j (master_data w (pos left)) s) (ground arith))),
      )

  remove_master :
      (n : ℕ) (w : IpNet)
      → k.child_subnet ≡ []
      → held_count k held ≡ suc n
      → find k s ≡ some (master_data w (pos (suc (use_count k (released k held)))))
      → Removes held k (update_pool_db_on_removal k s)
  remove_master n w whole some_held at =
      let own : master_of k ≡ k = sym (master_self k whole) in
      let (s', is, looks) = removal_of_master (use_count k (released k held)) w at in
      (s', w, (rw own is), remove_master-IsHeld held s h k w n s' whole some_held looks)

  remove_child :
      (nw w : IpNet) (r : AddressRange)
      → k.child_subnet ≢ []
      → held_count k held ≡ 1
      → find k s ≡ some (child_data k nw r)
      → find (master_of k) s
        ≡ some (master_data w (pos (suc (use_count (master_of k) (released k held)))))
      → Removes held k (update_pool_db_on_removal k s)
  unfolding update_pool_db_on_removal removal_found counted_down as_ok
  remove_child nw w r part once at master_at =
      let m = master_of k in
      let left = use_count m (released k held) in
      let c0 = record (child_data k nw r) { ref_count = pos 0 } in
      let s1 = put k c0 s in
      let s2 = put m (master_data w (pos left)) s1 in
      let s3 = remove k s2 in
      let apart = ne_child k m part in
      let apart' = ne_child m k (λ e. part (sym e)) in
      let zero_k = ne_child k zero_key part in
      let zero_m = ne_space m zero_key named in
      let nowhere = zero_missing held s h in
      let nowhere1 : find zero_key s1 ≡ none = find-put k zero_key c0 s ∙ (rw zero_k nowhere) in
      let master1 : find m s1 ≡ some (master_data w (pos (suc left))) =
        find-put k m c0 s ∙ (rw apart master_at) in
      let steps : inc_ref_count loop_fuel pred k s ≡ some s2 =
        inc_ref_count-found pred 2 k (child_data k nw r) s at
        ∙ inc_ref_count-master pred 0 m w (pos (suc left)) s1 master1 zero_m nowhere1 in
      let at2 : find k s2 ≡ some c0 =
        find-put m k (master_data w (pos left)) s1
        ∙ (rw (apart', find-put k k c0 s, same_key_refl k) refl) in
      let at3 : find m s3 ≡ some (master_data w (pos left)) =
        find-remove k m s2
        ∙ (rw (apart, find-put m m (master_data w (pos left)) s1, same_key_refl m) refl) in
      let nowhere3 : find zero_key s3 ≡ none =
        find-remove k zero_key s2
        ∙ (rw (zero_k, find-put m zero_key (master_data w (pos left)) s1, zero_m) nowhere1) in
      let loop : remove_unused loop_fuel k s2 ≡ some (left_with m left s3, dropped m w left) =
        unused_child 2 k nw r s2 at2 ∙ unused_master 0 left m w s3 at3 nowhere3 in
      (
        left_with m left s3,
        w,
        (rw (at, steps, loop) refl),
        remove_child-IsHeld held s h k w (left_with m left s3) part once (λ j.
            find-left_with m j w left s3 at3
            ∙ (rw
                (find-remove k j s2, find-put m j (master_data w (pos left)) s1, find-put k j c0 s)
                (ground arith))),
      )

  released_uses :
      (n : ℕ)
      → held_count k held ≡ suc n
      → use_count (master_of k) held ≡ suc (use_count (master_of k) (released k held))
  released_uses n e =
      use_count-released k (master_of k) held n e ∙ (rw (same_key_refl (master_of k)) refl)

  remove_held :
      (n : ℕ)
      → held_count k held ≡ suc n
      → (k.child_subnet ≡ []) ⊎ (k.child_subnet ≢ [])
      → Removes held k (update_pool_db_on_removal k s)
  remove_held n e (inl whole) =
      let own : master_of k ≡ k = sym (master_self k whole) in
      let (w, at) = master_found held s h k (use_count k (released k held)) whole (
        subst (λ i. use_count i held ≡ suc (use_count i (released k held))) own
          (released_uses n e)) in
      remove_master n w whole e at
  remove_held n e (inr part) =
      let (w, at) =
        master_found held s h (master_of k) (use_count (master_of k) (released k held)) refl
          (released_uses n e) in
      part_held n e part w at (h.children k part)
    where
      part_held :
          (n : ℕ)
          → held_count k held ≡ suc n
          → k.child_subnet ≢ []
          → (w : IpNet)
          → find (master_of k) s
            ≡ some (master_data w (pos (suc (use_count (master_of k) (released k held)))))
          → ChildAt k (held_count k held) (find k s)
          → Removes held k (update_pool_db_on_removal k s)
      part_held zero e part w at c =
          let (nw, r, there) = subst (λ n. ChildAt k n (find k s)) e c in
          remove_child nw w r part e there at
      part_held (suc n) e part w at c = absurd (subst (λ n. ChildAt k n (find k s)) e c)

-- Whether a name is empty.
name_cases : (a : List ℕ) → (a ≡ []) ⊎ (a ≢ [])
name_cases [] = inl refl
name_cases (x ∷ xs) = inr (λ e. cc)

-- Where the map holds the pools that are held, updatePoolDBOnRemoval comes to an end. Of a pool that is
-- held, the map then holds the others, and the bitmask of the pool that it is or is a part of is
-- destroyed exactly if no other user of that pool is left. A part of a pool that is not held, and a pool
-- that is not in use, are refused. A whole pool that is not held, but of which parts are, loses a user
-- all the same: with its last part it is deleted with its bitmask, though the part is still held.
pub update_pool_db_on_removal_cases :
    (held : List SubnetKey) (s : Subnets) (k : SubnetKey)
    → IsHeld held s
    → k.address_space ≢ []
    → let r = update_pool_db_on_removal k s in
      ((0 < held_count k held) × Removes held k r)
      ⊎ (((held_count k held ≡ 0)
            × ((k.child_subnet ≢ []) ⊎ (use_count (master_of k) held ≡ 0))
            × (r ≡ some (err bad_pool)))
          ⊎ ((held_count k held ≡ 0)
              × (k.child_subnet ≡ [])
              × (n : ℕ) × (w : IpNet) × (use_count k held ≡ suc n)
              × TakesOne k s n w r))
unfolding update_pool_db_on_removal removal_found
update_pool_db_on_removal_cases held s k h named =
    by_count (held_count k held) refl (name_cases k.child_subnet)
  where
    missing : find k s ≡ none → update_pool_db_on_removal k s ≡ some (err bad_pool)
    missing e = rw e refl

    by_use :
        (n : ℕ)
        → use_count k held ≡ n
        → held_count k held ≡ 0
        → k.child_subnet ≡ []
        → ((held_count k held ≡ 0)
            × ((k.child_subnet ≢ []) ⊎ (use_count (master_of k) held ≡ 0))
            × (update_pool_db_on_removal k s ≡ some (err bad_pool)))
          ⊎ ((held_count k held ≡ 0)
              × (k.child_subnet ≡ [])
              × (n : ℕ) × (w : IpNet) × (use_count k held ≡ suc n)
              × TakesOne k s n w (update_pool_db_on_removal k s))
    by_use zero unused e whole =
        let at = subst (λ n. MasterAt n (find k s)) unused (h.masters k whole) in
        inl (e, inr (subst (λ i. use_count i held ≡ 0) (master_self k whole) unused), missing at)
    by_use (suc n) uses e whole =
        let (w, at) = master_found held s h k n whole uses in
        inr (e, whole, n, w, uses, removal_of_master held s k h named n w at)

    by_count :
        (n : ℕ)
        → held_count k held ≡ n
        → (k.child_subnet ≡ []) ⊎ (k.child_subnet ≢ [])
        → ((0 < held_count k held) × Removes held k (update_pool_db_on_removal k s))
          ⊎ (((held_count k held ≡ 0)
                × ((k.child_subnet ≢ []) ⊎ (use_count (master_of k) held ≡ 0))
                × (update_pool_db_on_removal k s ≡ some (err bad_pool)))
              ⊎ ((held_count k held ≡ 0)
                  × (k.child_subnet ≡ [])
                  × (n : ℕ) × (w : IpNet) × (use_count k held ≡ suc n)
                  × TakesOne k s n w (update_pool_db_on_removal k s)))
    by_count (suc n) e shape = inl (omega arith, remove_held held s k h named n e shape)
    by_count zero e (inl whole) = inr (by_use (use_count k held) refl e whole)
    by_count zero e (inr part) =
        inr (inl (e, inl part, missing (subst (λ n. ChildAt k n (find k s)) e (h.children k part))))
