-- ===== src/Discovery/Bindings.antt =====
-- service_common.go: the bindings of services. What the platform does for a load balancer is a list of its
-- calls, the latest first. A service object is held by the map of bindings alone, so that its changes are
-- written back to it.
pub mod Bound
pub mod Trip
use libnetwork.Prelude.{
  ℕ, ◌+◌, ◌%◌, ◌^◌, ◌==◌, ltb, ◌↔◌, ◌≡◌, Bool, true, false, not, ◌&&◌, ◌||◌, Option, none, some,
  List, [], ◌∷◌, ◌++◌, arith, if◌then◌else◌,
}
use libnetwork.Networkdb.Names.{Name, same, same_iff}
use libnetwork.Ipam.Net.{Ip}
use libnetwork.Setmatrix.Sets.{Eq, SetOps}
use libnetwork.Setmatrix.Matrix as Matrix
use libnetwork.Setmatrix.Matrix.{SetMatrix, new_set_matrix}
use libnetwork.Discovery.Text.{Text}
use libnetwork.Discovery.Records.{
  IpInfo, SvcMapEntry, Net, SvcRecords, or_own, for_names, add_svc_records, delete_svc_records,
}
use libnetwork.Discovery.Maps.{find, put, remove}
use libnetwork.Discovery.Services.{
  PortConfig, PortText, port_configs_string, ServiceKey, service_key_eq, name_eq, LbBackend,
  LoadBalancer, Binding, LbCall, add_lb_backend, rm_lb_backend, BindError, no_such_network, waiting,
  Service, Controller, network_by_id, endpoint_names_added, endpoint_names_deleted,
}

is_none : {V : Type 0} → List V → Bool
is_none [] = true
is_none (v ∷ vs) = false

module _ ⦃text : Text⦄ ⦃ports : PortText⦄ ⦃entries : SetOps SvcMapEntry⦄ ⦃infos : SetOps IpInfo⦄
    ⦃ids : SetOps Name⦄ where
  -- newService
  abbrev new_service : Binding → Service
  new_service b = record {
    name = b.svc_name;
    id = b.svc_id;
    load_balancers = [];
    ingress_ports = b.ingress_ports;
    aliases = b.service_aliases;
    ip_to_endpoint = new_set_matrix;
    deleted = false;
  }

  pub key_of : Binding → ServiceKey
  key_of b = record { id = b.svc_id; ports = port_configs_string b.ingress_ports }

  -- The load balancer of a network, the counter after it, and whether it is new.
  lb_or_new : Binding → ℕ → Option LoadBalancer → LoadBalancer × ℕ × Bool
  lb_or_new b ctr none =
      (record { vip = b.vip; fw_mark = ctr; back_ends = [] }, (ctr + 1) % 2 ^ 32, true)
  lb_or_new b ctr (some lb) = (lb, ctr, false)

  -- addServiceBinding with a service that is not deleted
  bound : Net → Binding → Service → Controller → Controller
  unfolding lb_or_new
  bound n b s c =
      let (lb, ctr, add_service) = lb_or_new b c.fw_mark_ctr (find b.n_id s.load_balancers) in
      let backend : LbBackend = record { ip = b.ip; disabled = false } in
      let lb' = record lb { back_ends = put b.e_id backend lb.back_ends } in
      let s' = record s {
        load_balancers = put b.n_id lb' s.load_balancers;
        ip_to_endpoint = (Matrix.insert (text.ip_string b.ip) b.e_id s.ip_to_endpoint).0;
      } in
      record c {
        service_bindings = put (key_of b) s' c.service_bindings;
        fw_mark_ctr = ctr;
        lb_calls = add_lb_backend n.id b.ip lb' ∷ c.lb_calls;
        svc_records = endpoint_names_added n b add_service c.svc_records;
      }

  bound_service : Net → Binding → Controller → Option Service → Controller × Option BindError
  unfolding bound
  bound_service n b c none = (bound n b (new_service b) c, none)
  bound_service n b c (some s) = if s.deleted then (c, some waiting) else (bound n b s c, none)

  bound_on : Binding → Controller → Option Net → Controller × Option BindError
  unfolding bound_service
  bound_on b c none = (c, some no_such_network)
  bound_on b c (some n) = bound_service n b c (find (key_of b) c.service_bindings)

  pub add_service_binding : Binding → Controller → Controller × Option BindError
  unfolding bound_on
  add_service_binding b c = bound_on b c (network_by_id b.n_id c)

  backend_removed : Name → Ip → LoadBalancer → Bool → Bool → List LbCall → Option Net → List LbCall
  backend_removed nid ip lb rm_service full calls none = calls
  backend_removed nid ip lb rm_service full calls (some n) =
      rm_lb_backend n.id ip lb rm_service full ∷ calls

  names_removed : Binding → Bool → Bool → SvcRecords → Option Net → SvcRecords
  names_removed b rm_service multiple recs none = recs
  names_removed b rm_service multiple recs (some n) =
      endpoint_names_deleted n b rm_service multiple recs

  -- rmServiceBinding of a back end that is there, as one step; a service without load balancers is marked
  -- as deleted before it leaves the map.
  unbound : Binding → Bool → Bool → Controller → Service → LoadBalancer → LbBackend → Controller
  unfolding is_none backend_removed names_removed
  unbound b delete_records full c s lb be =
      let ends =
        if full
        then remove b.e_id lb.back_ends
        else put b.e_id (record be { disabled = true }) lb.back_ends in
      let lb' = record lb { back_ends = ends } in
      let rm_service = is_none ends in
      let lbs =
        if rm_service then remove b.n_id s.load_balancers else put b.n_id lb' s.load_balancers in
      let (rest, taken, count) = Matrix.remove (text.ip_string b.ip) b.e_id s.ip_to_endpoint in
      let s' = record s { load_balancers = lbs; ip_to_endpoint = rest } in
      record c {
        lb_calls =
            if count == 0
            then backend_removed b.n_id b.ip lb' rm_service full c.lb_calls (network_by_id b.n_id c)
            else c.lb_calls;
        svc_records =
            if delete_records
            then names_removed b rm_service (ltb 0 count) c.svc_records (network_by_id b.n_id c)
            else c.svc_records;
        service_bindings =
            if is_none lbs
            then remove (key_of b)
                (put (key_of b) (record s' { deleted = true }) c.service_bindings)
            else put (key_of b) s' c.service_bindings;
      }

  unbound_backend :
      Binding → Bool → Bool → Controller → Service → LoadBalancer → Option LbBackend → Controller
  unfolding unbound
  unbound_backend b delete_records full c s lb none = c
  unbound_backend b delete_records full c s lb (some be) = unbound b delete_records full c s lb be

  unbound_lb : Binding → Bool → Bool → Controller → Service → Option LoadBalancer → Controller
  unfolding unbound_backend
  unbound_lb b delete_records full c s none = c
  unbound_lb b delete_records full c s (some lb) =
      unbound_backend b delete_records full c s lb (find b.e_id lb.back_ends)

  unbound_service : Binding → Bool → Bool → Controller → Option Service → Controller
  unfolding unbound_lb
  unbound_service b delete_records full c none = c
  unbound_service b delete_records full c (some s) =
      unbound_lb b delete_records full c s (find b.n_id s.load_balancers)

  -- rmServiceBinding, with deleteSvcRecords and fullRemove; its error is always nil.
  pub rm_service_binding : Binding → Bool → Bool → Controller → Controller
  unfolding unbound_service
  rm_service_binding b delete_records full c =
      unbound_service b delete_records full c (find (key_of b) c.service_bindings)

  -- The arguments with which a back end is removed when its network goes.
  cleanup_ends : Service → Name → LoadBalancer → List (Name × LbBackend) → List Binding
  cleanup_ends s nid lb [] = []
  cleanup_ends s nid lb ((eid, be) ∷ ends) =
      record {
        svc_name = s.name;
        svc_id = s.id;
        n_id = nid;
        e_id = eid;
        container_name = [];
        vip = lb.vip;
        ingress_ports = s.ingress_ports;
        service_aliases = s.aliases;
        task_aliases = [];
        ip = be.ip;
      }
      ∷ cleanup_ends s nid lb ends

  cleanup_lbs : Name → Service → List (Name × LoadBalancer) → List Binding
  unfolding cleanup_ends is_none
  cleanup_lbs nid s [] = []
  cleanup_lbs nid s ((id, lb) ∷ lbs) =
      let rest = cleanup_lbs nid s lbs in
      if not (is_none nid) && not (same id nid)
      then rest
      else cleanup_ends s id lb lb.back_ends ++ rest

  cleanup_services : Name → List (ServiceKey × Service) → List Binding
  unfolding cleanup_lbs
  cleanup_services nid [] = []
  cleanup_services nid ((k, s) ∷ bindings) =
      let rest = cleanup_services nid bindings in
      if s.deleted then rest else cleanup_lbs nid s s.load_balancers ++ rest

  remove_bindings : List Binding → Controller → Controller
  remove_bindings [] c = c
  remove_bindings (b ∷ bs) c = remove_bindings bs (rm_service_binding b false true c)

  -- cleanupServiceBindings, of all networks for the empty name
  pub cleanup_service_bindings : Name → Controller → Controller
  unfolding cleanup_services remove_bindings
  cleanup_service_bindings nid c = remove_bindings (cleanup_services nid c.service_bindings) c

  lb_mark : Option LoadBalancer → Option ℕ
  lb_mark none = none
  lb_mark (some lb) = some lb.fw_mark

  service_mark : Name → Option Service → Option ℕ
  unfolding lb_mark
  service_mark nid none = some 0
  service_mark nid (some s) = lb_mark (find nid s.load_balancers)

  -- getLBIndex; `none` is the nil dereference of a service without the network.
  pub get_lb_index : Name → Name → List PortConfig → Controller → Option ℕ
  unfolding service_mark
  get_lb_index sid nid pcs c =
      let k : ServiceKey = record { id = sid; ports = port_configs_string pcs } in
      service_mark nid (find k c.service_bindings)
