-- ===== src/Ipam/Allocator/Requests/Default.antt =====
-- ipam/allocator.go: RequestPool where no pool is named.
use libnetwork.Prelude.{
  ℕ, suc, ◌+◌, ◌≡◌, ◌≢◌, ◌⊎◌, inl, inr, refl, sym, ap, subst, ◌∙◌, Bool, true, false, Option, none,
  some, List, [], ◌∷◌, take, get_elem?, All,
}
use libnetwork.Prelude.Int.{pos}
use libnetwork.Prelude.Result.{Result, ok, err, ◌>>=◌}
use libnetwork.Networkdb.Names.{Name, same_refl, lookup, lookup-put}
use libnetwork.Ipam.Net.{Ip, IpNet}
use libnetwork.Ipam.Keys.{SubnetKey, same_key_iff, find, put, find-put}
use libnetwork.Ipam.Pools.{Subnets, contains, master_data, insert_bit_mask}
use libnetwork.Ipam.Pools.Held.{IsHeld, use_count}
use libnetwork.Ipam.Pools.Refine.{add_master-IsHeld, MasterAt-none}
use libnetwork.Ipam.Pools.Add.{update_pool_db_on_add-master}
use libnetwork.Bitseq.Handle.{Handle}
use libnetwork.Ipam.Allocator.{
  Allocator, IpamError, no_default_pool, new_bit_mask, insert_mask, with_bit_mask,
}
use libnetwork.Ipam.Allocator.Defaults.{
  is_default, predefined_of, update_start_index, whole_key, get_predefined_pool,
}
use libnetwork.Ipam.Allocator.Defaults.Choice.{
  not_empty, update_start_index-addr_spaces, get_predefined_pool_cases, IsOrder, IsFree, MovesTo,
  update_start_index-MovesTo, not_contains, update_start_index-addresses,
}
use libnetwork.Ipam.Allocator.Requests.{
  inserted, run_effect, with_pool, with_subnets, pool_added, add_pool, default_found,
  request_default, request_pool, parse_pool_request, requested, is_empty,
}

module _ (net_string : IpNet → Name) (parse_cidr : Name → Option (Ip × IpNet)) where
  -- What a request of the pool `nw`, the one at `i` of those tried, comes to. The bitmask of the pool
  -- is put with the others, or its error is what the request returns.
  pub record Chosen (held : List SubnetKey) (as' : Name) (v6 : Bool) (s : Subnets) (a : Allocator)
      (i : ℕ) (nw : IpNet) (r : Allocator × Result IpamError (SubnetKey × IpNet)) : Type 0 where
    pub order : List IpNet
    pub is_order : IsOrder as' a order
    pub at : get_elem? order i ≡ some nw
    pub free : IsFree net_string as' v6 s nw
    pub first : All (λ p. ¬ IsFree net_string as' v6 s p) (take i order)
    pub subnets : Subnets
    pub added : lookup as' r.0.addr_spaces ≡ some subnets
    pub holds : IsHeld (whole_key net_string as' nw ∷ held) subnets
    pub moved : MovesTo as' a (i + 1) r.0
    pub result :
        let k = whole_key net_string as' nw in
        ((h : Handle) × (new_bit_mask nw ≡ ok h)
          × (r.1 ≡ ok (k, nw))
          × (find k r.0.addresses ≡ some h))
        ⊎ ((e : IpamError) × (new_bit_mask nw ≡ err e)
            × (r.1 ≡ err e)
            × (r.0.addresses ≡ a.addresses))

  -- A pool whose bitmask is to be made.
  with_pool-made :
      (k : SubnetKey) (nw : IpNet) (a : Allocator)
      → let r = with_pool k nw (run_effect (insert_bit_mask k nw) a) in
        (r.0.addr_spaces ≡ a.addr_spaces)
        × (r.0.predefined_start_indices ≡ a.predefined_start_indices)
        × (((h : Handle) × (new_bit_mask nw ≡ ok h)
              × (r.1 ≡ ok (k, nw))
              × (find k r.0.addresses ≡ some h))
            ⊎ ((e : IpamError) × (new_bit_mask nw ≡ err e)
                × (r.1 ≡ err e)
                × (r.0.addresses ≡ a.addresses)))
  unfolding with_pool run_effect inserted insert_mask
  with_pool-made k nw a = by_mask (new_bit_mask nw) refl
    where
      by_mask :
          (m : Result IpamError Handle)
          → new_bit_mask nw ≡ m
          → let r = with_pool k nw (inserted a (m >>= λ h. ok (with_bit_mask k h a))) in
            (r.0.addr_spaces ≡ a.addr_spaces)
            × (r.0.predefined_start_indices ≡ a.predefined_start_indices)
            × (((h : Handle) × (new_bit_mask nw ≡ ok h)
                  × (r.1 ≡ ok (k, nw))
                  × (find k r.0.addresses ≡ some h))
                ⊎ ((e : IpamError) × (new_bit_mask nw ≡ err e)
                    × (r.1 ≡ err e)
                    × (r.0.addresses ≡ a.addresses)))
      by_mask (ok h) is = (
        refl,
        refl,
        inl (h, is, refl, find-put k k h a.addresses ∙ (rw ((same_key_iff k k).1 refl) refl)),
      )
      by_mask (err e) is = (refl, refl, inr (e, is, refl, refl))

  -- What one round does with the pool that is chosen.
  request_default-chosen :
      (fuel : ℕ) (as' : Name) (v6 : Bool) (a : Allocator) (s : Subnets) (i : ℕ) (nw : IpNet)
      → get_predefined_pool net_string as' v6 a ≡ (update_start_index as' (i + 1) a, ok nw)
      → lookup as' a.addr_spaces ≡ some s
      → (find (whole_key net_string as' nw) s ≡ none) × (contains as' nw s ≡ false)
      → let k = whole_key net_string as' nw in
        request_default net_string parse_cidr (suc fuel) as' v6 a
        ≡ with_pool k nw (
            run_effect (insert_bit_mask k nw) (
              with_subnets as'
                (put k (master_data nw (pos 1)) s)
                (update_start_index as' (i + 1) a)))
  unfolding request_default default_found add_pool pool_added
  request_default-chosen fuel as' v6 a s i nw is there (new, apart) =
      let k = whole_key net_string as' nw in
      rw
        (
          is,
          update_start_index-addr_spaces as' (i + 1) a,
          there,
          update_pool_db_on_add-master k nw true s new apart,
        )
        refl

  request_pool-request_default :
      (fuel : ℕ) (as' : Name) (v6 : Bool) (a : Allocator)
      → as' ≢ []
      → request_pool net_string parse_cidr fuel as' [] [] v6 a
        ≡ request_default net_string parse_cidr fuel as' v6 a
  unfolding request_pool requested parse_pool_request is_empty
  request_pool-request_default fuel [] v6 a named = absurd (named refl)
  request_pool-request_default fuel (c ∷ name) v6 a named = refl

  -- In a default address space whose map holds the pools that are held, with a round of fuel or more:
  -- RequestPool of no named pool never tries again. It takes the first of the predefined pools, from
  -- the start index on and around, that is of the version asked for, is not in the map and overlaps
  -- no whole pool of it. The map then holds that pool too, the start index is as many places further as
  -- pools were tried, or 0 where that runs past the list, and a bitmask is made for the pool, whose
  -- error is returned where it cannot be made. It fails for want of a pool only where no predefined pool
  -- of the address space is of that kind, and changes nothing then.
  pub request_pool-Chosen :
      (held : List SubnetKey) (fuel : ℕ) (as' : Name) (v6 : Bool) (a : Allocator) (s : Subnets)
      → is_default as' ≡ true
      → lookup as' a.addr_spaces ≡ some s
      → IsHeld held s
      → let r = request_pool net_string parse_cidr (suc fuel) as' [] [] v6 a in
        ((i : ℕ) × (nw : IpNet) × Chosen held as' v6 s a i nw r)
        ⊎ ((r ≡ (a, err no_default_pool))
            × All (λ p. ¬ IsFree net_string as' v6 s p) (predefined_of as' a))
  unfolding request_default default_found
  request_pool-Chosen held fuel as' v6 a s default there h =
      let unnamed = request_pool-request_default (suc fuel) as' v6 a (not_empty as' default) in
      elim (get_predefined_pool_cases net_string as' v6 a s default there) [
        | inr (is, all) ↦ inr (unnamed ∙ (rw is refl), all)
        | inl (i, nw, nws, is, order, at, free, first) ↦
            let apart = not_contains as' nw s free.2 in
            let same =
              unnamed ∙ request_default-chosen fuel as' v6 a s i nw is there (free.1, apart) in
            inl (i, nw, chosen i nw nws order at free first _ same)
      ]
    where
      chosen :
          (i : ℕ) (nw : IpNet) (nws : List IpNet)
          → IsOrder as' a nws
          → get_elem? nws i ≡ some nw
          → IsFree net_string as' v6 s nw
          → All (λ p. ¬ IsFree net_string as' v6 s p) (take i nws)
          → (r : Allocator × Result IpamError (SubnetKey × IpNet))
          → let k = whole_key net_string as' nw in
            r
              ≡ with_pool k nw (
                  run_effect (insert_bit_mask k nw) (
                    with_subnets as'
                      (put k (master_data nw (pos 1)) s)
                      (update_start_index as' (i + 1) a)))
            → Chosen held as' v6 s a i nw r
      chosen i nw nws order at free first r is =
          let k = whole_key net_string as' nw in
          let s1 = put k (master_data nw (pos 1)) s in
          let a1 = update_start_index as' (i + 1) a in
          let (spaces, starts, mask) = with_pool-made k nw (with_subnets as' s1 a1) in
          subst (λ x. Chosen held as' v6 s a i nw x) (sym is)
            (record {
              order = nws;
              is_order = order;
              at = at;
              free = free;
              first = first;
              subnets = s1;
              added =
                  ap (λ x. lookup as' x) spaces
                  ∙ lookup-put as' as' s1 a1.addr_spaces
                  ∙ (rw (same_refl as') refl);
              holds =
                  add_master-IsHeld held s h k nw s1 (not_empty as' default) refl
                    (MasterAt-none (use_count k held) (find k s) (h.masters k refl) free.1)
                    (λ j. find-put k j (master_data nw (pos 1)) s);
              moved =
                  let (st, starts_at, to) = update_start_index-MovesTo as' (i + 1) a in
                  (
                    st,
                    starts_at,
                    elim to [
                      | inl (lt, is) ↦ inl (lt, ap (λ x. lookup as' x) starts ∙ is)
                      | inr (past, is) ↦ inr (past, ap (λ x. lookup as' x) starts ∙ is)
                    ],
                  );
              result = elim mask [
                | inl made ↦ inl made
                | inr (e, fails, is, same) ↦
                    inr (e, fails, is, same ∙ update_start_index-addresses as' (i + 1) a)
              ];
            })
