-- ===== src/Discovery/Tests.antt =====
-- Concrete runs of the theorems on service discovery, on lists as sets.
use libnetwork.Prelude.{
  ◌+◌, ◌%◌, ◌^◌, ◌≡◌, refl, sym, Bool, true, false, none, some, not, ◌&&◌, ◌↔◌, arith, List, [],
  ◌∷◌,
}
use libnetwork.Networkdb.Names.{Name, same, same_iff}
use libnetwork.Setmatrix.Sets.{Eq, SetOps}
use libnetwork.Setmatrix.ListSets.{list_sets, list_sets-IsSetOps}
use libnetwork.Discovery.Text.{Text}
use libnetwork.Discovery.Records.{SvcMapEntry, IpInfo, Net}
use libnetwork.Discovery.Records.Named.{
  entry_eq, RecordCall, adding, deleting, run_entries, run_calls,
}
use libnetwork.Discovery.Resolve.{resolve_name}
use libnetwork.Discovery.Resolve.Answers.{Answers, resolve_name-run_calls}
use libnetwork.Discovery.Maps.{find}
use libnetwork.Discovery.Services.{
  name_eq, service_key_eq, PortText, Binding, LbBackend, Controller, ServiceKey, add_lb_backend,
  rm_lb_backend, network_by_id,
}
use libnetwork.Discovery.Bindings.{add_service_binding, rm_service_binding}
use libnetwork.Discovery.Bindings.Bound.{
  BindCall, add_binding, rm_binding, cleanup, run, IsBound, Binds, Waits, run-IsBound,
}
use libnetwork.Discovery.Bindings.Trip.{first_lb, rm_service_binding-add_service_binding}

-- Texts of addresses are their bytes, and names are in lower case.
instance abbrev plain_text : Text
plain_text = record { ip_string = λ ip. ip; parse_ip = λ x. some x; to_lower = λ x. x }

instance abbrev plain_ports : PortText
plain_ports = record { decimal = λ n. n ∷ []; protocol_name = λ n. n ∷ [] }

same_bool : Bool → Bool → Bool
same_bool true c = c
same_bool false c = not c

abbrev same_info : IpInfo → IpInfo → Bool
same_info a b =
    same a.name b.name
    && (same a.service_id b.service_id && same_bool a.ext_resolver b.ext_resolver)

same_bool_iff : (b c : Bool) → (same_bool b c ≡ true) ↔ (b ≡ c)
unfolding same_bool
same_bool_iff true c = ((λ h. sym h), (λ h. sym h))
same_bool_iff false true = ground arith
same_bool_iff false false = ground arith

same_info_iff : (a b : IpInfo) → (same_info a b ≡ true) ↔ (a ≡ b)
same_info_iff a b = ground (
  arith,
  same_iff a.name b.name,
  same_iff a.service_id b.service_id,
  same_bool_iff a.ext_resolver b.ext_resolver,
)

instance abbrev info_eq : Eq IpInfo
info_eq = record { beq = same_info; beq_iff = same_info_iff }

instance abbrev info_sets : SetOps IpInfo
info_sets = list_sets

instance abbrev entry_sets : SetOps SvcMapEntry
entry_sets = list_sets

instance abbrev id_sets : SetOps Name
id_sets = list_sets

abbrev frontend : Net
frontend = record { id = 1 ∷ []; name = 70 ∷ []; ingress = false; enable_ipv6 = false }

-- Two endpoints of the service 9 answer to the name 119, and one of them goes.
abbrev record_calls : List RecordCall
record_calls =
    adding frontend (119 ∷ []) (9 ∷ []) (10 ∷ 0 ∷ 0 ∷ 2 ∷ []) none true
    ∷ adding frontend (119 ∷ []) (9 ∷ []) (10 ∷ 0 ∷ 0 ∷ 3 ∷ []) none false
    ∷ deleting frontend (119 ∷ []) (9 ∷ []) (10 ∷ 0 ∷ 0 ∷ 2 ∷ []) none true
    ∷ []

resolve_name-run_calls_example :
    Answers
      (run_entries record_calls (λ v i x e. false))
      frontend
      (119 ∷ 46 ∷ [])
      false
      (resolve_name frontend (119 ∷ 46 ∷ []) false (run_calls record_calls []))
resolve_name-run_calls_example =
    resolve_name-run_calls list_sets-IsSetOps record_calls frontend (119 ∷ 46 ∷ []) false

-- The service 9 behind the virtual address 10.0.0.2, with the back end of an endpoint.
abbrev web : Name → Binding
web eid = record {
  svc_name = 119 ∷ [];
  svc_id = 9 ∷ [];
  n_id = 1 ∷ [];
  e_id = eid;
  container_name = 99 ∷ [];
  vip = 10 ∷ 0 ∷ 0 ∷ 2 ∷ [];
  ingress_ports = [];
  service_aliases = [];
  task_aliases = [];
  ip = 10 ∷ 0 ∷ 0 ∷ 3 ∷ [];
}

abbrev idle : Controller
idle = record {
  networks = (1 ∷ [], frontend) ∷ [];
  svc_records = [];
  service_bindings = [];
  fw_mark_ctr = 256;
  lb_calls = [];
}

abbrev bind_calls : List BindCall
bind_calls =
    add_binding (web (5 ∷ []))
    ∷ add_binding (web (6 ∷ []))
    ∷ rm_binding (web (5 ∷ [])) true true
    ∷ cleanup (1 ∷ [])
    ∷ []

run-IsBound_example :
    let next = add_service_binding (web (7 ∷ [])) (run bind_calls idle) in
    IsBound (run bind_calls idle)
    × IsBound next.0
    × Binds (web (7 ∷ [])) (run bind_calls idle) next
    × ((d : Controller) → Waits (web (7 ∷ [])) d (add_service_binding (web (7 ∷ [])) d))
run-IsBound_example = run-IsBound bind_calls (web (7 ∷ [])) idle refl

abbrev one : Binding
one = web (5 ∷ [])

idle_network : network_by_id (1 ∷ []) idle ≡ some frontend
unfolding network_by_id find same
idle_network = refl

rm_service_binding-add_service_binding_example :
    let c1 = (add_service_binding one idle).0 in
    let c2 = rm_service_binding one true true c1 in
    let backend : LbBackend = record { ip = one.ip; disabled = false } in
    ((j : ServiceKey) → find j c2.service_bindings ≡ find j idle.service_bindings)
    × (c2.lb_calls
        ≡ rm_lb_backend frontend.id one.ip (first_lb list_sets-IsSetOps one 256 []) true true
          ∷ add_lb_backend frontend.id one.ip
              (first_lb list_sets-IsSetOps one 256 ((one.e_id, backend) ∷ []))
          ∷ [])
    × (c2.fw_mark_ctr ≡ (256 + 1) % 2 ^ 32)
unfolding find
rm_service_binding-add_service_binding_example =
    rm_service_binding-add_service_binding list_sets-IsSetOps one frontend idle idle_network refl
