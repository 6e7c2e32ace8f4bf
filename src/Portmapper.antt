-- ===== src/Portmapper.antt =====
-- portmapper/mapper.go, with mapper_linux.go and what makes a proxy in proxy.go and proxy_linux.go: the
-- mappings of host ports to containers. What the platform answers is data, and its calls are a list, the
-- latest first. The text of a key determines the slot that it names.
pub mod Slots
pub mod Hosts
pub mod Mapped
pub mod Moves
pub mod History
pub mod Trip
mod Tests
use libnetwork.Prelude.{ℕ, Bool, true, false, Option, none, some, List, [], ◌∷◌, if◌then◌else◌}
use libnetwork.Prelude.Result.{Result, ok, err}
use libnetwork.Networkdb.Names.{Name}
use libnetwork.Ipam.Net.{Ip, to4}
use libnetwork.Setmatrix.Sets.{Eq}
use libnetwork.Discovery.Maps.{find, put, remove}
use libnetwork.Portallocator.Addresses.{
  Protocol, tcp, udp, sctp, IpText, PortAllocator, RequestError, request_port_in_range,
  release_port,
}
use libnetwork.Portallocator.Addresses.Slots.{Slot}
use libnetwork.Portmapper.Slots.{key_eq}

-- net.Addr: TCPAddr, UDPAddr, SCTPAddr with its addresses, and any other.
pub data Addr : Type 0 where
  tcp_addr udp_addr : Ip → ℕ → Addr
  sctp_addr : List Ip → ℕ → Addr
  other_addr : Addr

-- The command of a proxyCommand with its path, and a dummyProxy, for IPv4 or not.
pub data Proxy : Type 0 where
  proxy_command : Name → Protocol → Ip → ℕ → Ip → ℕ → Proxy
  dummy_proxy : Addr → Bool → Proxy

pub record Mapping : Type 0 where
  pub proto : Protocol
  pub userland_proxy : Proxy
  pub host : Addr
  pub container : Addr

pub data Call : Type 0 where
  start_proxy stop_proxy : Proxy → Call
  append_entry delete_entry : Name → Protocol → Ip → ℕ → Name → ℕ → Call

pub record PortMapper : Type 0 where
  pub current_mappings : List (Option Slot × Mapping)
  pub allocator : PortAllocator
  pub proxy_path : Name
  -- Whether a chain is set, and the name of its bridge.
  pub chain : Bool
  pub bridge_name : Name
  pub calls : List Call

pub data MapError : Type 0 where
  unknown_backend_address_type port_mapped_for_ip port_not_mapped sctp_addr_no_ip : MapError
  request : RequestError → MapError
  failed : Name → MapError

-- What LookPath finds, and the errors of Forward and of the start of a proxy.
pub record Outcome : Type 0 where
  pub look_path : Result Name Name
  pub forward : Option Name
  pub start : Option Name

-- NewWithPortAllocator
pub new_port_mapper : PortAllocator → Name → PortMapper
new_port_mapper allocator path = record {
  current_mappings = [];
  allocator = allocator;
  proxy_path = path;
  chain = false;
  bridge_name = [];
  calls = [];
}

-- SetIptablesChain of a chain or of nil
pub set_iptables_chain : Bool → Name → PortMapper → PortMapper
set_iptables_chain chain bridge_name pm = record pm { chain = chain; bridge_name = bridge_name }

pub addr_of : Protocol → Ip → ℕ → Addr
addr_of tcp ip port = tcp_addr ip port
addr_of udp ip port = udp_addr ip port
addr_of sctp ip port = sctp_addr (ip ∷ []) port

pub protocol_of : Addr → Option Protocol
protocol_of (tcp_addr ip port) = some tcp
protocol_of (udp_addr ip port) = some udp
protocol_of (sctp_addr ips port) = some sctp
protocol_of other_addr = none

pub get_ip_and_port : Addr → Ip × ℕ
get_ip_and_port (tcp_addr ip port) = (ip, port)
get_ip_and_port (udp_addr ip port) = (ip, port)
get_ip_and_port (sctp_addr [] port) = ([], 0)
get_ip_and_port (sctp_addr (ip ∷ ips) port) = (ip, port)
get_ip_and_port other_addr = ([], 0)

looked_up : Protocol → Ip → ℕ → Ip → ℕ → Result Name Name → Result MapError Proxy
looked_up proto ip port container_ip container_port (err e) = err (failed e)
looked_up proto ip port container_ip container_port (ok path) =
    ok (proxy_command path proto ip port container_ip container_port)

new_proxy_command : Outcome → Name → Protocol → Ip → ℕ → Ip → ℕ → Result MapError Proxy
unfolding looked_up
new_proxy_command o [] proto ip port container_ip container_port =
    looked_up proto ip port container_ip container_port o.look_path
new_proxy_command o (c ∷ path) proto ip port container_ip container_port =
    ok (proxy_command (c ∷ path) proto ip port container_ip container_port)

is_some : Option Ip → Bool
is_some none = false
is_some (some ip) = true

new_dummy_proxy : Protocol → Ip → ℕ → Proxy
unfolding addr_of is_some
new_dummy_proxy proto ip port = dummy_proxy (addr_of proto ip port) (is_some (to4 ip))

-- The proxy for a container address.
pub proxy_for : Outcome → Name → Addr → Protocol → Ip → ℕ → Bool → Result MapError Proxy
unfolding new_proxy_command new_dummy_proxy
proxy_for o path container proto ip port false = ok (new_dummy_proxy proto ip port)
proxy_for o path (sctp_addr [] p) proto ip port true = err sctp_addr_no_ip
proxy_for o path (sctp_addr (c ∷ ips) p) proto ip port true =
    new_proxy_command o path proto ip port c p
proxy_for o path (tcp_addr c p) proto ip port true = new_proxy_command o path proto ip port c p
proxy_for o path (udp_addr c p) proto ip port true = new_proxy_command o path proto ip port c p
proxy_for o path other_addr proto ip port true = new_proxy_command o path proto ip port [] 0

module _ ⦃text : IpText⦄ where
  -- `none` for the empty key
  pub get_key : Addr → Option Slot
  get_key (tcp_addr ip port) = some (record { ip = text.ip_string ip; proto = tcp; port = port })
  get_key (udp_addr ip port) = some (record { ip = text.ip_string ip; proto = udp; port = port })
  get_key (sctp_addr [] port) = none
  get_key (sctp_addr (ip ∷ ips) port) =
      some (record { ip = text.ip_string ip; proto = sctp; port = port })
  get_key other_addr = none

  -- A call of Forward, which is left out without a chain.
  forwarded : Call → PortMapper → PortMapper
  forwarded call pm = record pm { calls = if pm.chain then call ∷ pm.calls else pm.calls }

  append_of : Name → Mapping → Call
  unfolding get_ip_and_port
  append_of bridge m =
      let (ip, port) = get_ip_and_port m.host in
      let (container_ip, container_port) = get_ip_and_port m.container in
      append_entry bridge m.proto ip port (text.ip_string container_ip) container_port

  delete_of : Name → Mapping → Call
  unfolding get_ip_and_port
  delete_of bridge m =
      let (ip, port) = get_ip_and_port m.host in
      let (container_ip, container_port) = get_ip_and_port m.container in
      delete_entry bridge m.proto ip port (text.ip_string container_ip) container_port

  -- The start of the proxy, or the cleanup after it failed.
  started : Ip → ℕ → Mapping → PortMapper → Option Name → PortMapper × Result MapError Addr
  unfolding forwarded delete_of get_key
  started ip port m pm none =
      (record pm { current_mappings = put (get_key m.host) m pm.current_mappings }, ok m.host)
  started ip port m pm (some e) =
      let stopped = record pm { calls = stop_proxy m.userland_proxy ∷ pm.calls } in
      let deleted = forwarded (delete_of pm.bridge_name m) stopped in
      (
        record deleted { allocator = release_port ip m.proto port deleted.allocator },
        err (failed e),
      )

  appended :
      Outcome → Ip → ℕ → Mapping → PortMapper → Option Name → PortMapper × Result MapError Addr
  unfolding started
  appended o ip port m pm (some e) = (pm, err (failed e))
  appended o ip port m pm none =
      started ip port m (record pm { calls = start_proxy m.userland_proxy ∷ pm.calls }) o.start

  registered :
      Outcome → Ip → ℕ → Mapping → PortMapper → Option Mapping → PortMapper × Result MapError Addr
  unfolding appended forwarded append_of
  registered o ip port m pm (some n) = (pm, err port_mapped_for_ip)
  registered o ip port m pm none =
      appended o ip port m (forwarded (append_of pm.bridge_name m) pm)
        (if pm.chain then o.forward else none)

  -- The deferred release on an error.
  deferred :
      Ip → Protocol → ℕ → PortMapper × Result MapError Addr → PortMapper × Result MapError Addr
  deferred ip proto port (pm, ok host) = (pm, ok host)
  deferred ip proto port (pm, err e) =
      (record pm { allocator = release_port ip proto port pm.allocator }, err e)

  with_proxy :
      Outcome
      → Addr
      → Ip
      → ℕ
      → Protocol
      → PortMapper
      → Result MapError Proxy
      → PortMapper × Result MapError Addr
  unfolding registered deferred addr_of get_key
  with_proxy o container ip port proto pm (err e) = (pm, err e)
  with_proxy o container ip port proto pm (ok proxy) =
      let m : Mapping = record {
        proto = proto;
        userland_proxy = proxy;
        host = addr_of proto ip port;
        container = container;
      } in
      deferred ip proto port (registered o ip port m pm (find (get_key m.host) pm.current_mappings))

  requested :
      Outcome
      → Addr
      → Ip
      → Bool
      → Protocol
      → PortMapper
      → PortAllocator × Result RequestError ℕ
      → PortMapper × Result MapError Addr
  unfolding with_proxy proxy_for
  requested o container ip use_proxy proto pm (a, err e) =
      (record pm { allocator = a }, err (request e))
  requested o container ip use_proxy proto pm (a, ok port) =
      with_proxy o container ip port proto (record pm { allocator = a })
        (proxy_for o pm.proxy_path container proto ip port use_proxy)

  mapped :
      Outcome
      → Addr
      → Ip
      → ℕ
      → ℕ
      → Bool
      → PortMapper
      → Option Protocol
      → PortMapper × Result MapError Addr
  unfolding requested
  mapped o container ip port_start port_end use_proxy pm none =
      (pm, err unknown_backend_address_type)
  mapped o container ip port_start port_end use_proxy pm (some proto) =
      requested o container ip use_proxy proto pm
        (request_port_in_range ip (some proto) port_start port_end pm.allocator)

  pub map_range :
      Outcome → Addr → Ip → ℕ → ℕ → Bool → PortMapper → PortMapper × Result MapError Addr
  unfolding mapped protocol_of
  map_range o container ip port_start port_end use_proxy pm =
      mapped o container ip port_start port_end use_proxy pm (protocol_of container)

  -- Map
  pub map_port : Outcome → Addr → Ip → ℕ → Bool → PortMapper → PortMapper × Result MapError Addr
  map_port o container ip port use_proxy pm = map_range o container ip port port use_proxy pm

  -- The release of the port of a host address.
  host_released : Addr → PortMapper → PortMapper × Option MapError
  host_released (tcp_addr ip port) pm =
      (record pm { allocator = release_port ip tcp port pm.allocator }, none)
  host_released (udp_addr ip port) pm =
      (record pm { allocator = release_port ip udp port pm.allocator }, none)
  host_released (sctp_addr [] port) pm = (pm, some sctp_addr_no_ip)
  host_released (sctp_addr (ip ∷ ips) port) pm =
      (record pm { allocator = release_port ip sctp port pm.allocator }, none)
  host_released other_addr pm = (pm, some unknown_backend_address_type)

  unmapped : Addr → PortMapper → Option Mapping → PortMapper × Option MapError
  unfolding forwarded delete_of host_released get_key
  unmapped host pm none = (pm, some port_not_mapped)
  unmapped host pm (some m) =
      let stopped = record pm {
        calls = stop_proxy m.userland_proxy ∷ pm.calls;
        current_mappings = remove (get_key host) pm.current_mappings;
      } in
      host_released host (forwarded (delete_of pm.bridge_name m) stopped)

  pub unmap : Addr → PortMapper → PortMapper × Option MapError
  unfolding unmapped get_key
  unmap host pm = unmapped host pm (find (get_key host) pm.current_mappings)

  appended_all : List (Option Slot × Mapping) → PortMapper → PortMapper
  unfolding forwarded append_of
  appended_all [] pm = pm
  appended_all ((k, m) ∷ mappings) pm =
      appended_all mappings (forwarded (append_of pm.bridge_name m) pm)

  -- ReMapAll, whose errors are only logged.
  pub re_map_all : PortMapper → PortMapper
  unfolding appended_all
  re_map_all pm = appended_all pm.current_mappings pm
