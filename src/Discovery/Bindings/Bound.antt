-- ===== src/Discovery/Bindings/Bound.antt =====
-- service_common.go: what holds of the bindings after any calls.
use libnetwork.Prelude.{
  ◌≡◌, ◌≢◌, refl, ◌∙◌, sym, subst, Bool, true, false, Option, none, some, List, [], ◌∷◌,
  if◌then◌else◌, All, ◌⊎◌, inl, inr,
}
use libnetwork.Networkdb.Names.{Name}
use libnetwork.Setmatrix.Sets.{Eq, SetOps, beq_refl}
use libnetwork.Discovery.Text.{Text}
use libnetwork.Discovery.Records.{IpInfo, SvcMapEntry, Net}
use libnetwork.Discovery.Maps.{
  find, put, remove, find-put, remove-put, put-ne-nil, All-put, All-remove, find-All,
}
use libnetwork.Discovery.Services.{
  PortText, LbBackend, LoadBalancer, Binding, BindError, no_such_network, waiting, ServiceKey,
  name_eq, service_key_eq, Service, Controller, network_by_id,
}
use libnetwork.Discovery.Bindings.{
  new_service, key_of, bound, bound_service, bound_on, add_service_binding, is_none, unbound,
  unbound_backend, unbound_lb, unbound_service, rm_service_binding, remove_bindings,
  cleanup_services, cleanup_service_bindings,
}

is_none-ne : {V : Type 0} (vs : List V) → is_none vs ≡ false → vs ≢ []
unfolding is_none
is_none-ne [] h e = cc
is_none-ne (v ∷ vs) h e = cc

All-if :
    {K V : Type 0} (P : V → Type 0) (t : Bool) (xs ys : List (K × V))
    → (t ≡ true → All (λ (entry : K × V). P entry.1) xs)
    → (t ≡ false → All (λ (entry : K × V). P entry.1) ys)
    → All (λ (entry : K × V). P entry.1) (if t then xs else ys)
All-if P true xs ys f g = f refl
All-if P false xs ys f g = g refl

module _ ⦃text : Text⦄ ⦃ports : PortText⦄ ⦃entries : SetOps SvcMapEntry⦄ ⦃infos : SetOps IpInfo⦄
    ⦃ids : SetOps Name⦄ where
  -- A load balancer has a back end, and a service in the map a load balancer; it is not deleted.
  abbrev pub HasBackend : LoadBalancer → Type 0
  HasBackend lb = lb.back_ends ≢ []

  abbrev pub IsService : Service → Type 0
  IsService s =
      (s.deleted ≡ false)
      × (s.load_balancers ≢ [])
      × All (λ (entry : Name × LoadBalancer). HasBackend entry.1) s.load_balancers

  abbrev pub IsBound : Controller → Type 0
  IsBound c = All (λ (entry : ServiceKey × Service). IsService entry.1) c.service_bindings

  pub data BindCall : Type 0 where
    add_binding : Binding → BindCall
    rm_binding : Binding → Bool → Bool → BindCall
    cleanup : Name → BindCall

  abbrev pub apply : BindCall → Controller → Controller
  apply (add_binding b) c = (add_service_binding b c).0
  apply (rm_binding b delete_records full) c = rm_service_binding b delete_records full c
  apply (cleanup nid) c = cleanup_service_bindings nid c

  abbrev pub run : List BindCall → Controller → Controller
  run [] c = c
  run (x ∷ calls) c = run calls (apply x c)

  bound-IsBound :
      (n : Net) (b : Binding) (s : Service) (c : Controller)
      → (s.deleted ≡ false)
      → All (λ (entry : Name × LoadBalancer). HasBackend entry.1) s.load_balancers
      → IsBound c
      → IsBound (bound n b s c)
  unfolding bound
  bound-IsBound n b s c live lbs h =
      All-put IsService (key_of b) _ c.service_bindings
        (
          live,
          put-ne-nil b.n_id _ s.load_balancers,
          All-put HasBackend b.n_id _ s.load_balancers (put-ne-nil b.e_id _ _) lbs,
        )
        h

  -- The back end of a binding is in the map of services, and in use.
  abbrev pub IsServed : Binding → Controller → Type 0
  IsServed b c =
      (s : Service) × (lb : LoadBalancer) × (find (key_of b) c.service_bindings ≡ some s)
      × (find b.n_id s.load_balancers ≡ some lb)
      × (find b.e_id lb.back_ends ≡ some (record { ip = b.ip; disabled = false }))

  find-put_same :
      {K V : Type 0} ⦃eq : Eq K⦄ (k : K) (v : V) (entries : List (K × V))
      → find k (put k v entries) ≡ some v
  find-put_same k v entries = find-put k k v entries ∙ (rw (beq_refl k) refl)

  bound-IsServed :
      (n : Net) (b : Binding) (s : Service) (c : Controller) → IsServed b (bound n b s c)
  unfolding bound
  bound-IsServed n b s c = (
    _,
    _,
    find-put_same (key_of b) _ c.service_bindings,
    find-put_same b.n_id _ s.load_balancers,
    find-put_same b.e_id _ _,
  )

  -- A call binds the back end when the network is known, and refuses it otherwise.
  abbrev pub Binds : Binding → Controller → Controller × Option BindError → Type 0
  Binds b c r =
      ((n : Net) × (network_by_id b.n_id c ≡ some n) × (r.1 ≡ none) × IsServed b r.0)
      ⊎ ((network_by_id b.n_id c ≡ none) × (r.1 ≡ some no_such_network) × (r.0 ≡ c))

  pub add_service_binding-IsBound :
      (b : Binding) (c : Controller)
      → IsBound c
      → IsBound (add_service_binding b c).0 × Binds b c (add_service_binding b c)
  unfolding add_service_binding bound_on bound_service
  add_service_binding-IsBound b c h = by_network (network_by_id b.n_id c) refl
    where
      Bound : Controller × Option BindError → Type 0
      Bound r = IsBound r.0 × (r.1 ≡ none) × IsServed b r.0

      by_service :
          (n : Net) (o : Option Service)
          → find (key_of b) c.service_bindings ≡ o
          → Bound (bound_service n b c o)
      by_service n none at = (
        bound-IsBound n b (new_service b) c refl tt h,
        refl,
        bound-IsServed n b (new_service b) c,
      )
      by_service n (some s) at =
          let (live, some_lb, lbs) = find-All IsService (key_of b) s c.service_bindings h at in
          subst (λ d. Bound (if d then (c, some waiting) else (bound n b s c, none))) (sym live)
            (bound-IsBound n b s c live lbs h, refl, bound-IsServed n b s c)

      by_network :
          (o : Option Net)
          → network_by_id b.n_id c ≡ o
          → IsBound (bound_on b c o).0 × Binds b c (bound_on b c o)
      by_network none at = (h, inr (at, refl, refl))
      by_network (some n) at =
          let (is, ok, served) = by_service n (find (key_of b) c.service_bindings) refl in
          (is, inl (n, at, ok, served))

  unbound-IsBound :
      (b : Binding) (delete_records full : Bool) (c : Controller) (s : Service) (lb : LoadBalancer)
      (be : LbBackend)
      → IsService s
      → IsBound c
      → IsBound (unbound b delete_records full c s lb be)
  unfolding unbound
  unbound-IsBound b delete_records full c s lb be (live, some_lb, lbs) h =
      let ends =
        if full
        then remove b.e_id lb.back_ends
        else put b.e_id (record be { disabled = true }) lb.back_ends in
      let lb' : LoadBalancer = record lb { back_ends = ends } in
      let left =
        if is_none ends then remove b.n_id s.load_balancers else put b.n_id lb' s.load_balancers in
      All-if IsService (is_none left) _ _
        (λ gone.
          subst (All (λ (entry : ServiceKey × Service). IsService entry.1))
            (sym (remove-put (key_of b) _ c.service_bindings))
            (All-remove IsService (key_of b) c.service_bindings h))
        (λ kept.
          All-put IsService (key_of b) _ c.service_bindings
            (
              live,
              is_none-ne left kept,
              All-if HasBackend (is_none ends) _ _
                  (λ gone. All-remove HasBackend b.n_id s.load_balancers lbs)
                  (λ kept.
                    All-put HasBackend b.n_id lb' s.load_balancers (is_none-ne ends kept) lbs),
            )
            h)

  pub rm_service_binding-IsBound :
      (b : Binding) (delete_records full : Bool) (c : Controller)
      → IsBound c
      → IsBound (rm_service_binding b delete_records full c)
  unfolding rm_service_binding unbound_service unbound_lb unbound_backend
  rm_service_binding-IsBound b delete_records full c h =
      by_service (find (key_of b) c.service_bindings) refl
    where
      by_backend :
          (s : Service) (lb : LoadBalancer) (o : Option LbBackend)
          → IsService s
          → IsBound (unbound_backend b delete_records full c s lb o)
      by_backend s lb none is = h
      by_backend s lb (some be) is = unbound-IsBound b delete_records full c s lb be is h

      by_lb :
          (s : Service) (o : Option LoadBalancer)
          → IsService s
          → IsBound (unbound_lb b delete_records full c s o)
      by_lb s none is = h
      by_lb s (some lb) is = by_backend s lb (find b.e_id lb.back_ends) is

      by_service :
          (o : Option Service)
          → find (key_of b) c.service_bindings ≡ o
          → IsBound (unbound_service b delete_records full c o)
      by_service none at = h
      by_service (some s) at =
          by_lb s (find b.n_id s.load_balancers)
            (find-All IsService (key_of b) s c.service_bindings h at)

  remove_bindings-IsBound :
      (bs : List Binding) (c : Controller) → IsBound c → IsBound (remove_bindings bs c)
  unfolding remove_bindings
  remove_bindings-IsBound [] c h = h
  remove_bindings-IsBound (b ∷ bs) c h =
      remove_bindings-IsBound bs (rm_service_binding b false true c)
        (rm_service_binding-IsBound b false true c h)

  cleanup_service_bindings-IsBound :
      (nid : Name) (c : Controller) → IsBound c → IsBound (cleanup_service_bindings nid c)
  unfolding cleanup_service_bindings
  cleanup_service_bindings-IsBound nid c h =
      remove_bindings-IsBound (cleanup_services nid c.service_bindings) c h

  run-IsBound_from : (calls : List BindCall) (c : Controller) → IsBound c → IsBound (run calls c)
  run-IsBound_from [] c h = h
  run-IsBound_from (add_binding b ∷ calls) c h =
      run-IsBound_from calls (add_service_binding b c).0 (add_service_binding-IsBound b c h).0
  run-IsBound_from (rm_binding b delete_records full ∷ calls) c h =
      run-IsBound_from calls (rm_service_binding b delete_records full c)
        (rm_service_binding-IsBound b delete_records full c h)
  run-IsBound_from (cleanup nid ∷ calls) c h =
      run-IsBound_from calls (cleanup_service_bindings nid c)
        (cleanup_service_bindings-IsBound nid c h)

  -- A deleted service that is still in the map is not used.
  abbrev pub Waits : Binding → Controller → Controller × Option BindError → Type 0
  Waits b c r =
      ((s : Service) × (find (key_of b) c.service_bindings ≡ some s)
        × (s.deleted ≡ true)
        × (r.0 ≡ c)
        × (r.1 ≢ none))
      ⊎ Binds b c r

  add_service_binding-Waits : (b : Binding) (c : Controller) → Waits b c (add_service_binding b c)
  unfolding add_service_binding bound_on bound_service
  add_service_binding-Waits b c = by_network (network_by_id b.n_id c) refl
    where
      by_deleted :
          (n : Net) (s : Service) (deleted : Bool)
          → network_by_id b.n_id c ≡ some n
          → find (key_of b) c.service_bindings ≡ some s
          → s.deleted ≡ deleted
          → Waits b c (if deleted then (c, some waiting) else (bound n b s c, none))
      by_deleted n s true known at is = inl (s, at, is, refl, (λ e. cc))
      by_deleted n s false known at is = inr (inl (n, known, refl, bound-IsServed n b s c))

      by_service :
          (n : Net) (o : Option Service)
          → network_by_id b.n_id c ≡ some n
          → find (key_of b) c.service_bindings ≡ o
          → Waits b c (bound_service n b c o)
      by_service n none known at = inr (inl (n, known, refl, bound-IsServed n b (new_service b) c))
      by_service n (some s) known at = by_deleted n s s.deleted known at refl

      by_network : (o : Option Net) → network_by_id b.n_id c ≡ o → Waits b c (bound_on b c o)
      by_network none unknown = inr (inr (unknown, refl, refl))
      by_network (some n) known = by_service n (find (key_of b) c.service_bindings) known refl

  -- After any calls of addServiceBinding, rmServiceBinding and cleanupServiceBindings on a controller
  -- with no bindings, one after the other, every service in the map is not deleted and has a load
  -- balancer, and each of its load balancers has a back end; the next addServiceBinding keeps this, has
  -- its back end in the map, enabled and with its address, when the network is known, and fails and
  -- changes nothing when it is not. On any controller that still has a deleted service in its map,
  -- addServiceBinding does the same for other services and binds nothing for that one.
  pub run-IsBound :
      (calls : List BindCall) (b : Binding) (c : Controller)
      → c.service_bindings ≡ []
      → IsBound (run calls c)
        × IsBound (add_service_binding b (run calls c)).0
        × Binds b (run calls c) (add_service_binding b (run calls c))
        × ((d : Controller) → Waits b d (add_service_binding b d))
  run-IsBound calls b c none_bound =
      let h : IsBound c = rw none_bound tt in
      let h' = run-IsBound_from calls c h in
      let (is, binds) = add_service_binding-IsBound b (run calls c) h' in
      (h', is, binds, add_service_binding-Waits b)
