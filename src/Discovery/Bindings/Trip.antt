-- ===== src/Discovery/Bindings/Trip.antt =====
-- service_common.go: rmServiceBinding after addServiceBinding.
use libnetwork.Prelude.{
  ℕ, ◌+◌, ◌%◌, ◌^◌, ◌≡◌, refl, ap, sym, ◌∙◌, Bool, true, false, none, some, List, [], ◌∷◌,
  if◌then◌else◌,
}
use libnetwork.Networkdb.Names.{Name, same_refl}
use libnetwork.Setmatrix.Sets.{SetOps, IsSetOps, beq_refl}
use libnetwork.Setmatrix.Matrix.{insert, new_set_matrix}
use libnetwork.Setmatrix.Matrix.History.{remove-insert_new}
use libnetwork.Discovery.Text.{Text}
use libnetwork.Discovery.Records.{IpInfo, SvcMapEntry, Net}
use libnetwork.Discovery.Maps.{find, put, remove, find-put, find-remove, remove-put}
use libnetwork.Discovery.Services.{
  PortText, LbBackend, LoadBalancer, Binding, add_lb_backend, rm_lb_backend, ServiceKey,
  same_service, same_service_iff, name_eq, service_key_eq, Service, Controller, network_by_id,
  endpoint_names_added, endpoint_names_deleted,
}
use libnetwork.Discovery.Bindings.{
  is_none, key_of, lb_or_new, bound, bound_service, bound_on, add_service_binding, unbound,
  unbound_backend, unbound_lb, unbound_service, rm_service_binding, names_removed, backend_removed,
}

module _ ⦃text : Text⦄ ⦃ports : PortText⦄ ⦃entries : SetOps SvcMapEntry⦄ ⦃infos : SetOps IpInfo⦄
    ⦃ids : SetOps Name⦄ (laws : IsSetOps ids) where
  -- The load balancer of the first back ends.
  abbrev pub first_lb : Binding → ℕ → List (Name × LbBackend) → LoadBalancer
  first_lb b mark ends = record { vip = b.vip; fw_mark = mark; back_ends = ends }

  abbrev first_backend : Binding → LbBackend
  first_backend b = record { ip = b.ip; disabled = false }

  abbrev first_service : Binding → ℕ → Service
  first_service b mark = record {
    name = b.svc_name;
    id = b.svc_id;
    load_balancers = (b.n_id, first_lb b mark ((b.e_id, first_backend b) ∷ [])) ∷ [];
    ingress_ports = b.ingress_ports;
    aliases = b.service_aliases;
    ip_to_endpoint = (insert (text.ip_string b.ip) b.e_id new_set_matrix).0;
    deleted = false;
  }

  abbrev first_bound : Net → Binding → Controller → Controller
  first_bound n b c = record c {
    service_bindings = put (key_of b) (first_service b c.fw_mark_ctr) c.service_bindings;
    fw_mark_ctr = (c.fw_mark_ctr + 1) % 2 ^ 32;
    lb_calls =
        add_lb_backend n.id b.ip (first_lb b c.fw_mark_ctr ((b.e_id, first_backend b) ∷ []))
        ∷ c.lb_calls;
    svc_records = endpoint_names_added n b true c.svc_records;
  }

  add_first :
      (b : Binding) (n : Net) (c : Controller)
      → network_by_id b.n_id c ≡ some n
      → find (key_of b) c.service_bindings ≡ none
      → (add_service_binding b c).0 ≡ first_bound n b c
  unfolding add_service_binding bound_on bound_service bound lb_or_new find put
  add_first b n c there new = rw (there, new) refl

  abbrev last_unbound : Net → Binding → Controller → Controller
  last_unbound n b c =
      let c1 = first_bound n b c in
      record c1 {
        service_bindings = remove (key_of b) c1.service_bindings;
        lb_calls = rm_lb_backend n.id b.ip (first_lb b c.fw_mark_ctr []) true true ∷ c1.lb_calls;
        svc_records = endpoint_names_deleted n b true false c1.svc_records;
      }

  remove_last :
      (b : Binding) (n : Net) (c : Controller)
      → network_by_id b.n_id (first_bound n b c) ≡ some n
      → unbound b true true
          (first_bound n b c)
          (first_service b c.fw_mark_ctr)
          (first_lb b c.fw_mark_ctr ((b.e_id, first_backend b) ∷ []))
          (first_backend b)
        ≡ last_unbound n b c
  unfolding unbound is_none remove names_removed backend_removed
  remove_last b n c there =
      rw
        (
          same_refl b.e_id,
          same_refl b.n_id,
          remove-insert_new laws (text.ip_string b.ip) b.e_id,
          there,
        )
        (ap (λ bindings. record (last_unbound n b c) { service_bindings = bindings })
          (remove-put (key_of b) _ (first_bound n b c).service_bindings))

  network_kept :
      (nid : Name) (n : Net) (b : Binding) (c : Controller)
      → network_by_id nid (first_bound n b c) ≡ network_by_id nid c
  unfolding network_by_id
  network_kept [] n b c = refl
  network_kept (x ∷ nid) n b c = refl

  -- On a network of the store, a back end of a service that is not in the map is bound, and then removed
  -- with its records: the map of services is as before, and the network was given a load balancer with
  -- that back end and the next firewall mark, which was removed with the service.
  pub rm_service_binding-add_service_binding :
      (b : Binding) (n : Net) (c : Controller)
      → network_by_id b.n_id c ≡ some n
      → find (key_of b) c.service_bindings ≡ none
      → let c1 = (add_service_binding b c).0 in
        let c2 = rm_service_binding b true true c1 in
        let backend : LbBackend = record { ip = b.ip; disabled = false } in
        ((j : ServiceKey) → find j c2.service_bindings ≡ find j c.service_bindings)
        × (c2.lb_calls
            ≡ rm_lb_backend n.id b.ip (first_lb b c.fw_mark_ctr []) true true
              ∷ add_lb_backend n.id b.ip (first_lb b c.fw_mark_ctr ((b.e_id, backend) ∷ []))
              ∷ c.lb_calls)
        × (c2.fw_mark_ctr ≡ (c.fw_mark_ctr + 1) % 2 ^ 32)
  unfolding rm_service_binding unbound_service unbound_lb unbound_backend find
  rm_service_binding-add_service_binding b n c there new =
      let k = key_of b in
      let c1 = first_bound n b c in
      let s1 = first_service b c.fw_mark_ctr in
      let at : find k c1.service_bindings ≡ some s1 =
        find-put k k s1 c.service_bindings ∙ (rw (beq_refl k) refl) in
      let is : rm_service_binding b true true (add_service_binding b c).0 ≡ last_unbound n b c =
        ap (λ x. rm_service_binding b true true x) (add_first b n c there new)
        ∙ (rw (at, same_refl b.n_id, same_refl b.e_id)
            (remove_last b n c (network_kept b.n_id n b c ∙ there))) in
      (
        (λ j.
            ap (λ x. find j x.service_bindings) is
            ∙ find-remove k j c1.service_bindings
            ∙ gone j (same_service k j) refl),
        ap (λ x. x.lb_calls) is,
        ap (λ x. x.fw_mark_ctr) is,
      )
    where
      gone :
          (j : ServiceKey) (here : Bool)
          → same_service (key_of b) j ≡ here
          → (if here then none else find j (first_bound n b c).service_bindings)
            ≡ find j c.service_bindings
      gone j true here =
          sym (
            ap (λ i. find i c.service_bindings) (sym ((same_service_iff (key_of b) j).0 here))
            ∙ new)
      gone j false apart =
          find-put (key_of b) j (first_service b c.fw_mark_ctr) c.service_bindings ∙ (rw apart refl)
