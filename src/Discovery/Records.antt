-- ===== src/Discovery/Records.antt =====
-- network.go: the service records of the networks, by which the resolver answers.
pub mod Named
use libnetwork.Prelude.{
  ℕ, ◌==◌, Bool, true, false, not, ◌&&◌, ◌||◌, Option, none, some, List, [], ◌∷◌, ◌++◌,
  if◌then◌else◌, map,
}
use libnetwork.Networkdb.Names.{Name, same, lookup, put, remove as delete}
use libnetwork.Ipam.Net.{Ip}
use libnetwork.Setmatrix.Sets.{SetOps}
use libnetwork.Setmatrix.Matrix.{SetMatrix, new_set_matrix, get, contains, insert, remove, keys}
use libnetwork.Discovery.Text.{Text, dot, split, join, trim_suffix, reverse_ip}

-- The keys of svcMap and svcIPv6Map have such values, those of ipMap the others.
pub record SvcMapEntry : Type 0 where
  pub ip : Name
  pub service_id : Name

pub record IpInfo : Type 0 where
  pub name : Name
  pub service_id : Name
  pub ext_resolver : Bool

pub record ServiceTarget : Type 0 where
  pub name : Name
  pub ip : Ip
  pub port : ℕ

pub record ServicePorts : Type 0 where
  pub port_name : Name
  pub proto : Name
  pub target : List ServiceTarget

-- What is used of a network.
pub record Net : Type 0 where
  pub id : Name
  pub name : Name
  pub ingress : Bool
  pub enable_ipv6 : Bool

-- What is used of an endpoint; the addresses are those of its interface.
pub record Endpoint : Type 0 where
  pub id : Name
  pub name : Name
  pub svc_id : Name
  pub my_aliases : List Name
  pub anonymous : Bool
  pub address : Option Ip
  pub address_ipv6 : Option Ip

-- The id of the service of an endpoint, or its own.
pub or_own : Name → Name → Name
or_own [] own = own
or_own (c ∷ id) own = c ∷ id

-- A step for an address that is not nil.
abbrev pub each : {A : Type 0} → Option Ip → (Ip → A → A) → A → A
each none f a = a
each (some ip) f a = f ip a

module _ ⦃text : Text⦄ ⦃entries : SetOps SvcMapEntry⦄ ⦃infos : SetOps IpInfo⦄ where
  pub record SvcInfo : Type 0 where
    pub svc_map : SetMatrix SvcMapEntry
    pub svc_ipv6_map : SetMatrix SvcMapEntry
    pub ip_map : SetMatrix IpInfo
    pub service : List (Name × List ServicePorts)

  abbrev pub SvcRecords : Type 0
  SvcRecords = List (Name × SvcInfo)

  -- addIPToName, delIPToName, addNameToIP and delNameToIP; names are keys in lower case.
  add_ip_to_name : Name → Name → Ip → SetMatrix IpInfo → SetMatrix IpInfo
  add_ip_to_name name service_id ip ip_map =
      (insert (reverse_ip (text.ip_string ip))
        (record { name = name; service_id = service_id; ext_resolver = false }) ip_map).0

  del_ip_to_name : Name → Name → Ip → SetMatrix IpInfo → SetMatrix IpInfo
  del_ip_to_name name service_id ip ip_map =
      (remove (reverse_ip (text.ip_string ip))
        (record { name = name; service_id = service_id; ext_resolver = false }) ip_map).0

  pub add_name_to_ip : Name → Name → Ip → SetMatrix SvcMapEntry → SetMatrix SvcMapEntry
  add_name_to_ip name service_id ip svc_map =
      (insert (text.to_lower name) (record { ip = text.ip_string ip; service_id = service_id })
        svc_map).0

  pub del_name_to_ip : Name → Name → Ip → SetMatrix SvcMapEntry → SetMatrix SvcMapEntry
  del_name_to_ip name service_id ip svc_map =
      (remove (text.to_lower name) (record { ip = text.ip_string ip; service_id = service_id })
        svc_map).0

  abbrev pub empty_info : SvcInfo
  empty_info = record {
    svc_map = new_set_matrix;
    svc_ipv6_map = new_set_matrix;
    ip_map = new_set_matrix;
    service = [];
  }

  info_or_new : Option SvcInfo → SvcInfo
  info_or_new none = empty_info
  info_or_new (some sr) = sr

  record_added : Name → Name → Ip → Option Ip → Bool → SvcInfo → SvcInfo
  unfolding add_ip_to_name
  record_added name service_id ip ipv6 ip_map_update sr =
      let both =
        each ipv6 (add_ip_to_name name service_id) (add_ip_to_name name service_id ip sr.ip_map) in
      record sr {
        ip_map = if ip_map_update then both else sr.ip_map;
        svc_map = add_name_to_ip name service_id ip sr.svc_map;
        svc_ipv6_map = each ipv6 (add_name_to_ip name service_id) sr.svc_ipv6_map;
      }

  pub add_svc_records : Net → Name → Name → Ip → Option Ip → Bool → SvcRecords → SvcRecords
  unfolding record_added info_or_new
  add_svc_records n name service_id ip ipv6 ip_map_update recs =
      if n.ingress
      then recs
      else put n.id
          (record_added name service_id ip ipv6 ip_map_update (info_or_new (lookup n.id recs))) recs

  record_deleted : Name → Name → Ip → Option Ip → Bool → SvcInfo → SvcInfo
  unfolding del_ip_to_name
  record_deleted name service_id ip ipv6 ip_map_update sr =
      let both =
        each ipv6 (del_ip_to_name name service_id) (del_ip_to_name name service_id ip sr.ip_map) in
      record sr {
        ip_map = if ip_map_update then both else sr.ip_map;
        svc_map = del_name_to_ip name service_id ip sr.svc_map;
        svc_ipv6_map = each ipv6 (del_name_to_ip name service_id) sr.svc_ipv6_map;
      }

  deleted_from :
      Net → Name → Name → Ip → Option Ip → Bool → SvcRecords → Option SvcInfo → SvcRecords
  unfolding record_deleted
  deleted_from n name service_id ip ipv6 ip_map_update recs none = recs
  deleted_from n name service_id ip ipv6 ip_map_update recs (some sr) =
      put n.id (record_deleted name service_id ip ipv6 ip_map_update sr) recs

  pub delete_svc_records : Net → Name → Name → Ip → Option Ip → Bool → SvcRecords → SvcRecords
  unfolding deleted_from
  delete_svc_records n name service_id ip ipv6 ip_map_update recs =
      if n.ingress
      then recs
      else deleted_from n name service_id ip ipv6 ip_map_update recs (lookup n.id recs)

  -- cleanupServiceDiscovery, of all networks for the empty name
  pub cleanup_service_discovery : Name → SvcRecords → SvcRecords
  cleanup_service_discovery [] recs = []
  cleanup_service_discovery (c ∷ nid) recs = delete (c ∷ nid) recs

  -- A step for each of some names, from the first on.
  abbrev pub for_names : List Name → (Name → SvcRecords → SvcRecords) → SvcRecords → SvcRecords
  for_names [] f recs = recs
  for_names (x ∷ xs) f recs = for_names xs f (f x recs)

  abbrev first_name : List Name → (Name → SvcRecords → SvcRecords) → SvcRecords → SvcRecords
  first_name [] f recs = recs
  first_name (x ∷ xs) f recs = f x recs

  -- An anonymous endpoint takes its first alias for the name of its address.
  endpoint_records : (Name → Bool → SvcRecords → SvcRecords) → Endpoint → SvcRecords → SvcRecords
  endpoint_records change ep recs =
      let named =
        if ep.anonymous
        then first_name ep.my_aliases (λ x. change x true) recs
        else change ep.name true recs in
      for_names ep.my_aliases (λ x. change x false) named

  svc_record_updated : Net → Endpoint → Bool → SvcRecords → Option Ip → SvcRecords
  unfolding endpoint_records or_own
  svc_record_updated n ep is_add recs none = recs
  svc_record_updated n ep is_add recs (some ip) =
      let sid = or_own ep.svc_id ep.id in
      if is_add
      then endpoint_records (λ x u. add_svc_records n x sid ip ep.address_ipv6 u) ep recs
      else endpoint_records (λ x u. delete_svc_records n x sid ip ep.address_ipv6 u) ep recs

  pub update_svc_record : Net → Endpoint → Bool → SvcRecords → SvcRecords
  unfolding svc_record_updated
  update_svc_record n ep is_add recs = svc_record_updated n ep is_add recs ep.address
