-- ===== src/Discovery/Resolve.antt =====
-- network.go: the queries of the resolver. A nil slice and an empty one are one list; the first value of a
-- set is the first that ToSlice gives.
pub mod Answers
use libnetwork.Prelude.{
  ℕ, ◌==◌, Bool, true, false, not, ◌&&◌, ◌||◌, Option, none, some, List, [], ◌∷◌, ◌++◌,
  if◌then◌else◌, map,
}
use libnetwork.Networkdb.Names.{Name, same, lookup, put}
use libnetwork.Ipam.Net.{Ip}
use libnetwork.Setmatrix.Sets.{SetOps}
use libnetwork.Setmatrix.Matrix.{SetMatrix, get, contains, insert, remove, keys}
use libnetwork.Discovery.Text.{Text, dot, split, join, trim_suffix, reverse_ip}
use libnetwork.Discovery.Records.{
  SvcMapEntry, IpInfo, ServiceTarget, ServicePorts, Net, Endpoint, SvcInfo, SvcRecords,
}

unfoldable pub is_seen : Name → List Name → Bool
is_seen ip [] = false
is_seen ip (s ∷ ss) = same s ip || is_seen ip ss

-- The loop over the entries, with the addresses that were seen.
addresses : List Name → List SvcMapEntry → List Name
unfolding is_seen
addresses seen [] = []
addresses seen (e ∷ es) =
    let rest = addresses seen es in
    let more = addresses (e.ip ∷ seen) es in if is_seen e.ip seen then rest else e.ip ∷ more

is_found : Option (List SvcMapEntry) → Bool
is_found none = false
is_found (some es) = true

-- etchosts.Record
pub record HostRecord : Type 0 where
  pub hosts : Name
  pub ip : Name

module _ ⦃text : Text⦄ ⦃entries : SetOps SvcMapEntry⦄ ⦃infos : SetOps IpInfo⦄ where
  answer : Option (List SvcMapEntry) → Bool → List (Option Ip) × Bool
  unfolding addresses
  answer none ipv6_miss = ([], ipv6_miss)
  answer (some []) ipv6_miss = ([], ipv6_miss)
  answer (some (e ∷ es)) ipv6_miss = (map text.parse_ip (addresses [] (e ∷ es)), true)

  -- The name that a query asks for.
  abbrev pub query_name : Name → Name
  query_name req = text.to_lower (trim_suffix dot req)

  resolved : Net → Name → Bool → Option SvcInfo → List (Option Ip) × Bool
  unfolding answer is_found
  resolved n req ip_v6 none = ([], false)
  resolved n req ip_v6 (some sr) =
      if ip_v6
      then answer (get (query_name req) sr.svc_ipv6_map)
          (is_found (get (query_name req) sr.svc_map) && not n.enable_ipv6)
      else answer (get (query_name req) sr.svc_map) false

  -- ResolveName for IPv4 or IPv6 addresses
  pub resolve_name : Net → Name → Bool → SvcRecords → List (Option Ip) × Bool
  unfolding resolved
  resolve_name n req ip_v6 recs = resolved n req ip_v6 (lookup n.id recs)

  -- A name that an external server resolved too gives way to that server.
  deferred : Name → Name → SvcInfo → SvcInfo
  deferred key name sr =
      let own : IpInfo = record { name = name; service_id = []; ext_resolver = false } in
      let other : IpInfo = record { name = name; service_id = []; ext_resolver = true } in
      record sr {
        ip_map =
            if (contains key own sr.ip_map).0
            then (insert key other (remove key own sr.ip_map).0).0
            else sr.ip_map;
      }

  query_handled : Net → Name → Ip → SvcRecords → Option SvcInfo → SvcRecords
  unfolding deferred
  query_handled n name ip recs none = recs
  query_handled n name ip recs (some sr) =
      put n.id (deferred (reverse_ip (text.ip_string ip)) name sr) recs

  pub handle_query_resp : Net → Name → Ip → SvcRecords → SvcRecords
  unfolding query_handled
  handle_query_resp n name ip recs = query_handled n name ip recs (lookup n.id recs)

  first_host : Net → Option (List IpInfo) → Name
  first_host n none = []
  first_host n (some []) = []
  first_host n (some (i ∷ is)) = if i.ext_resolver then [] else i.name ++ dot ∷ n.name

  host_of : Net → Name → Option SvcInfo → Name
  unfolding first_host
  host_of n ip none = []
  host_of n ip (some sr) = first_host n (get ip sr.ip_map)

  pub resolve_ip : Net → Name → SvcRecords → Name
  unfolding host_of
  resolve_ip n ip recs = host_of n ip (lookup n.id recs)

  -- The targets of the ports of a name and a protocol.
  targets : Name → Name → List ServicePorts → List ServiceTarget
  targets port_name proto [] = []
  targets port_name proto (svc ∷ svcs) =
      let rest = targets port_name proto svcs in
      if same svc.port_name port_name && same svc.proto proto then svc.target ++ rest else rest

  srv_of : List ServiceTarget → List (Name × ℕ) × List Ip
  srv_of ts = (map (λ t. (t.name, t.port)) ts, map (λ t. t.ip) ts)

  ports_found : Name → Name → Option (List ServicePorts) → List (Name × ℕ) × List Ip
  unfolding targets srv_of
  ports_found port_name proto none = ([], [])
  ports_found port_name proto (some svcs) = srv_of (targets port_name proto svcs)

  service_found : Name → Name → Name → Option SvcInfo → List (Name × ℕ) × List Ip
  unfolding ports_found
  service_found port_name proto svc_name none = ([], [])
  service_found port_name proto svc_name (some sr) =
      ports_found port_name proto (lookup svc_name sr.service)

  by_parts : Net → SvcRecords → List Name → List (Name × ℕ) × List Ip
  unfolding service_found
  by_parts n recs (port_name ∷ proto ∷ part ∷ parts) =
      service_found port_name proto (join (dot ∷ []) (part ∷ parts)) (lookup n.id recs)
  by_parts n recs parts = ([], [])

  -- ResolveService: the names and ports of the targets, and their addresses.
  pub resolve_service : Net → Name → SvcRecords → List (Name × ℕ) × List Ip
  unfolding by_parts
  resolve_service n name recs = by_parts n recs (split dot name)

  first_part : List Name → Name
  first_part [] = []
  first_part (p ∷ ps) = p

  record_of : Name → Option (List SvcMapEntry) → List HostRecord
  record_of k none = []
  record_of k (some []) = []
  record_of k (some (e ∷ es)) = record { hosts = k; ip = e.ip } ∷ []

  host_records : Name → SvcInfo → List Name → List HostRecord
  unfolding first_part record_of
  host_records ep_name sr [] = []
  host_records ep_name sr (k ∷ ks) =
      let rest = host_records ep_name sr ks in
      if same (first_part (split dot k)) ep_name
      then rest
      else record_of k (get k sr.svc_map) ++ rest

  found_records : Name → Option SvcInfo → List HostRecord
  unfolding host_records
  found_records ep_name none = []
  found_records ep_name (some sr) = host_records ep_name sr (keys sr.svc_map)

  -- getSvcRecords, for an endpoint that is not nil
  pub get_svc_records : Net → Endpoint → SvcRecords → List HostRecord
  unfolding found_records
  get_svc_records n ep recs = found_records ep.name (lookup n.id recs)
