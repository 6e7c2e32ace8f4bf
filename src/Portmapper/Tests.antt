-- ===== src/Portmapper/Tests.antt =====
-- Concrete runs of the theorems on portmapper/, with an IPv4 address as its own text.
use libnetwork.Prelude.{ℕ, ◌≡◌, ◌≢◌, refl, Bool, true, Option, none, List, [], ◌∷◌, arith}
use libnetwork.Prelude.Result.{ok, err}
use libnetwork.Ipam.Net.{Ip}
use libnetwork.Discovery.Maps.{find}
use libnetwork.Portallocator.Addresses.{new_instance, tcp, IpText}
use libnetwork.Portallocator.Addresses.Slots.{Slot, is_taken}
use libnetwork.Portallocator.Addresses.Grants.{
  slot_of, request_single, new_instance_free, new_instance-IsPortAllocator,
}
use libnetwork.Portmapper.Slots.{key_eq}
use libnetwork.Portmapper.{
  Addr, tcp_addr, sctp_addr, PortMapper, port_mapped_for_ip, Outcome, new_port_mapper, addr_of,
  protocol_of, proxy_for, registered, appended, started, deferred, with_proxy, requested, mapped,
  map_range, unmap,
}
use libnetwork.Portmapper.Hosts.{IsPortMapper, MapsRange}
use libnetwork.Portmapper.Mapped.{map_range_cases}
use libnetwork.Portmapper.History.{
  MapCall, mapping, unmapping, remapping, chaining, run, new_port_mapper-IsPortMapper,
  run-IsPortMapper,
}
use libnetwork.Portmapper.Trip.{unmap-map_range}

instance abbrev plain_text : IpText
plain_text = record { ip_string = λ ip. ip }

nil_text : (ip : Ip) → ip ≡ [] → ip ≡ []
nil_text ip h = h

abbrev docker_proxy : Outcome
docker_proxy = record { look_path = ok (47 ∷ []); forward = none; start = none }

abbrev no_proxy : Outcome
no_proxy = record { look_path = err (101 ∷ []); forward = none; start = none }

abbrev host_ip : Ip
host_ip = 192 ∷ 0 ∷ 2 ∷ 1 ∷ []

abbrev web : Addr
web = tcp_addr (172 ∷ 17 ∷ 0 ∷ 2 ∷ []) 80

abbrev fresh : PortMapper
fresh = new_port_mapper (new_instance 49153 65535) []

-- Without a docker-proxy the port stays taken.
map_range_cases_example :
    MapsRange no_proxy web host_ip 8080 8080 true fresh
      (map_range no_proxy web host_ip 8080 8080 true fresh)
map_range_cases_example =
    map_range_cases nil_text no_proxy web host_ip 8080 8080 true fresh
      (new_port_mapper-IsPortMapper 49153 65535 [] (omega arith))

abbrev map_calls : List MapCall
map_calls =
    mapping docker_proxy web host_ip 8080 8080 true
    ∷ mapping docker_proxy web host_ip 8080 8080 true
    ∷ mapping no_proxy web [] 0 0 true
    ∷ mapping docker_proxy (sctp_addr [] 9) [] 0 0 true
    ∷ chaining true (98 ∷ [])
    ∷ remapping
    ∷ unmapping (tcp_addr host_ip 8080)
    ∷ []

run-IsPortMapper_example :
    let pm = run map_calls fresh in
    IsPortMapper pm
    × ((o : Outcome) (container : Addr) (ip : Ip) (s e : ℕ) (use_proxy : Bool)
        → (map_range o container ip s e use_proxy pm).1 ≢ err port_mapped_for_ip)
run-IsPortMapper_example = run-IsPortMapper nil_text 49153 65535 [] map_calls (omega arith)

web_mapped :
    (map_range docker_proxy web host_ip 8080 8080 true fresh).1 ≡ ok (tcp_addr host_ip 8080)
unfolding map_range mapped requested with_proxy registered appended started deferred new_port_mapper
    find addr_of protocol_of proxy_for
web_mapped =
    let granted =
      request_single host_ip tcp 8080 (new_instance 49153 65535)
        (new_instance-IsPortAllocator 49153 65535 (omega arith)) (omega arith)
        (new_instance_free 49153 65535 (slot_of host_ip tcp 8080)) in
    rw granted refl

unmap-map_range_example :
    let r =
      unmap (tcp_addr host_ip 8080) (map_range docker_proxy web host_ip 8080 8080 true fresh).0 in
    (r.1 ≡ none)
    × ((k : Option Slot) → find k r.0.current_mappings ≡ find k fresh.current_mappings)
    × ((t : Slot) → is_taken r.0.allocator t ≡ is_taken fresh.allocator t)
unmap-map_range_example =
    unmap-map_range nil_text docker_proxy web host_ip 8080 8080 true fresh (tcp_addr host_ip 8080)
      (new_port_mapper-IsPortMapper 49153 65535 [] (omega arith)) web_mapped
