-- ===== src/Discovery/Services.antt =====
-- service.go and service_common.go: services, their load balancers and back ends, and the names that go
-- with a back end. The networks are those of the store.
use libnetwork.Prelude.{
  ℕ, ◌↔◌, ◌≡◌, Bool, true, false, not, ◌&&◌, Option, none, List, [], ◌∷◌, ◌++◌, arith,
  if◌then◌else◌,
}
use libnetwork.Networkdb.Names.{Name, same, same_iff}
use libnetwork.Ipam.Net.{Ip}
use libnetwork.Setmatrix.Sets.{Eq, SetOps}
use libnetwork.Setmatrix.Matrix.{SetMatrix}
use libnetwork.Discovery.Text.{Text}
use libnetwork.Discovery.Records.{
  IpInfo, SvcMapEntry, Net, SvcRecords, or_own, for_names, add_svc_records, delete_svc_records,
}
use libnetwork.Discovery.Maps.{find}

instance abbrev pub name_eq : Eq Name
name_eq = record { beq = same; beq_iff = same_iff }

pub record PortConfig : Type 0 where
  pub published_port : ℕ
  pub target_port : ℕ
  pub protocol : ℕ

-- The decimal text of a number, and PortConfig_Protocol_name, which is generated.
pub record PortText : Type 0 where
  pub decimal : ℕ → Name
  pub protocol_name : ℕ → Name

module _ ⦃ports : PortText⦄ where
  port_config_string : PortConfig → Name
  port_config_string pc =
      ports.decimal pc.published_port
      ++ 58 ∷ (ports.decimal pc.target_port ++ 47 ∷ ports.protocol_name pc.protocol)

  more_ports : List PortConfig → Name
  more_ports [] = []
  more_ports (pc ∷ pcs) = 44 ∷ (port_config_string pc ++ more_ports pcs)

  -- portConfigs.String
  pub port_configs_string : List PortConfig → Name
  unfolding port_config_string more_ports
  port_configs_string [] = []
  port_configs_string (pc ∷ pcs) = port_config_string pc ++ more_ports pcs

pub record ServiceKey : Type 0 where
  pub id : Name
  pub ports : Name

abbrev pub same_service : ServiceKey → ServiceKey → Bool
same_service a b = same a.id b.id && same a.ports b.ports

pub same_service_iff : (a b : ServiceKey) → (same_service a b ≡ true) ↔ (a ≡ b)
same_service_iff a b = ground (arith, same_iff a.id b.id, same_iff a.ports b.ports)

instance abbrev pub service_key_eq : Eq ServiceKey
service_key_eq = record { beq = same_service; beq_iff = same_service_iff }

pub record LbBackend : Type 0 where
  pub ip : Ip
  pub disabled : Bool

pub record LoadBalancer : Type 0 where
  pub vip : Ip
  pub fw_mark : ℕ
  pub back_ends : List (Name × LbBackend)

-- The arguments of addServiceBinding and rmServiceBinding; a nil address is the empty one.
pub record Binding : Type 0 where
  pub svc_name : Name
  pub svc_id : Name
  pub n_id : Name
  pub e_id : Name
  pub container_name : Name
  pub vip : Ip
  pub ingress_ports : List PortConfig
  pub service_aliases : List Name
  pub task_aliases : List Name
  pub ip : Ip

-- addLBBackend of an address and its load balancer, and rmLBBackend with rmService and fullRemove.
pub data LbCall : Type 0 where
  add_lb_backend : Name → Ip → LoadBalancer → LbCall
  rm_lb_backend : Name → Ip → LoadBalancer → Bool → Bool → LbCall

pub data BindError : Type 0 where
  -- ErrNoSuchNetwork, and a loop that waits for a deleted service to leave the map
  no_such_network waiting : BindError

is_nil : Ip → Bool
is_nil [] = true
is_nil (b ∷ bs) = false

-- "tasks."
abbrev tasks : Name
tasks = 116 ∷ 97 ∷ 115 ∷ 107 ∷ 115 ∷ 46 ∷ []

module _ ⦃text : Text⦄ ⦃ports : PortText⦄ ⦃entries : SetOps SvcMapEntry⦄ ⦃infos : SetOps IpInfo⦄
    ⦃ids : SetOps Name⦄ where
  pub record Service : Type 0 where
    pub name : Name
    pub id : Name
    pub load_balancers : List (Name × LoadBalancer)
    pub ingress_ports : List PortConfig
    pub aliases : List Name
    pub ip_to_endpoint : SetMatrix Name
    pub deleted : Bool

  pub record Controller : Type 0 where
    pub networks : List (Name × Net)
    pub svc_records : SvcRecords
    pub service_bindings : List (ServiceKey × Service)
    pub fw_mark_ctr : ℕ
    pub lb_calls : List LbCall

  -- NetworkByID
  unfoldable pub network_by_id : Name → Controller → Option Net
  network_by_id [] c = none
  network_by_id (x ∷ id) c = find (x ∷ id) c.networks

  -- The changes of a name for an address, with or without its reverse mapping.
  abbrev Change : Type 0
  Change = Name → Name → Ip → Bool → SvcRecords → SvcRecords

  added : Net → Change
  added n name sid ip u recs = add_svc_records n name sid ip none u recs

  deleted : Net → Change
  deleted n name sid ip u recs = delete_svc_records n name sid ip none u recs

  -- A name and the aliases that go with it.
  with_aliases : Change → Name → List Name → Name → Ip → SvcRecords → SvcRecords
  with_aliases change name aliases sid ip recs =
      for_names aliases (λ a. change a sid ip false) (change name sid ip false recs)

  tasks_of : List Name → List Name
  tasks_of [] = []
  tasks_of (a ∷ aliases) = (tasks ++ a) ∷ tasks_of aliases

  -- addContainerNameResolution on a network
  pub container_names_added : Net → Binding → SvcRecords → SvcRecords
  unfolding added
  container_names_added n b recs =
      for_names b.task_aliases (λ a. added n a b.e_id b.ip false)
        (added n b.container_name b.e_id b.ip true recs)

  -- delContainerNameResolution on a network
  pub container_names_deleted : Net → Binding → SvcRecords → SvcRecords
  unfolding deleted
  container_names_deleted n b recs =
      for_names b.task_aliases (λ a. deleted n a b.e_id b.ip true)
        (deleted n b.container_name b.e_id b.ip true recs)

  -- addEndpointNameResolution on a network
  pub endpoint_names_added : Net → Binding → Bool → SvcRecords → SvcRecords
  unfolding container_names_added with_aliases tasks_of is_nil
  endpoint_names_added n b add_service recs =
      let sid = or_own b.svc_id b.e_id in
      let containers = container_names_added n b recs in
      let backends =
        with_aliases (added n) (tasks ++ b.svc_name) (tasks_of b.service_aliases) sid b.ip
          containers in
      let round_robin =
        if is_nil b.vip
        then with_aliases (added n) b.svc_name b.service_aliases sid b.ip backends
        else backends in
      if add_service && not (is_nil b.vip)
      then with_aliases (added n) b.svc_name b.service_aliases sid b.vip round_robin
      else round_robin

  -- deleteEndpointNameResolution on a network
  pub endpoint_names_deleted : Net → Binding → Bool → Bool → SvcRecords → SvcRecords
  unfolding container_names_deleted with_aliases tasks_of is_nil
  endpoint_names_deleted n b rm_service multiple_entries recs =
      let sid = or_own b.svc_id b.e_id in
      let containers = container_names_deleted n b recs in
      let backends =
        if multiple_entries
        then containers
        else with_aliases (deleted n) (tasks ++ b.svc_name) (tasks_of b.service_aliases) sid b.ip
            containers in
      let round_robin =
        if not multiple_entries && is_nil b.vip
        then with_aliases (deleted n) b.svc_name b.service_aliases sid b.ip backends
        else backends in
      if rm_service && not (is_nil b.vip) && not multiple_entries
      then with_aliases (deleted n) b.svc_name b.service_aliases sid b.vip round_robin
      else round_robin
