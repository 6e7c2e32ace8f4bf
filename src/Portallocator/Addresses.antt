-- ===== src/Portallocator/Addresses.antt =====
-- portallocator/portallocator.go: the ports of every address and protocol, a `PortAllocator`. A nil
-- address is the empty one.
pub mod Slots
pub mod Grants
use libnetwork.Prelude.{
  ℕ, ◌==◌, Bool, true, false, not, ◌&&◌, Option, none, some, List, [], ◌∷◌, ◌++◌, replicate,
}
use libnetwork.Prelude.Result.{Result, ok, err}
use libnetwork.Networkdb.Names.{Name, same, lookup, put}
use libnetwork.Ipam.Net.{Ip}
use libnetwork.Portallocator as Ports
use libnetwork.Portallocator.{PortError, PortMap, new_port_map, has_port}

-- The texts of a request that are known.
pub data Protocol : Type 0 where
  tcp udp sctp : Protocol

-- IP.String
pub record IpText : Type 0 where
  pub ip_string : Ip → Name

pub record ProtoMap : Type 0 where
  pub tcp_ports : PortMap
  pub udp_ports : PortMap
  pub sctp_ports : PortMap

pub record PortAllocator : Type 0 where
  pub ip_map : List (Name × ProtoMap)
  pub begin : ℕ
  pub end : ℕ

pub data RequestError : Type 0 where
  -- ErrUnknownProtocol, and what the port map refuses
  unknown_protocol : RequestError
  refused : PortError → RequestError

-- The allocator of newInstance, whose range getDynamicPortRange reads, and ReleaseAll.
pub new_instance : ℕ → ℕ → PortAllocator
new_instance begin end = record { ip_map = []; begin = begin; end = end }

pub release_all : PortAllocator → PortAllocator
release_all a = record a { ip_map = [] }

-- net.ParseIP("0.0.0.0")
abbrev default_ip : Ip
default_ip = replicate 10 0 ++ 255 ∷ 255 ∷ 0 ∷ 0 ∷ 0 ∷ 0 ∷ []

unfoldable pub or_default : Ip → Ip
or_default [] = default_ip
or_default (b ∷ bs) = b ∷ bs

ports_of : Protocol → ProtoMap → PortMap
ports_of tcp m = m.tcp_ports
ports_of udp m = m.udp_ports
ports_of sctp m = m.sctp_ports

-- What a change through the pointer to a port map leaves.
set_ports : Protocol → PortMap → ProtoMap → ProtoMap
set_ports tcp pm m = record m { tcp_ports = pm }
set_ports udp pm m = record m { udp_ports = pm }
set_ports sctp pm m = record m { sctp_ports = pm }

proto_map_or_new : PortAllocator → Option ProtoMap → ProtoMap
proto_map_or_new a none =
    let pm = new_port_map a.begin a.end in
    record { tcp_ports = pm; udp_ports = pm; sctp_ports = pm }
proto_map_or_new a (some m) = m

request_error : Result PortError ℕ → Result RequestError ℕ
request_error (ok port) = ok port
request_error (err e) = err (refused e)

-- With a port map changed.
pub with_ports : Name → Protocol → PortMap → PortAllocator → PortAllocator
unfolding set_ports proto_map_or_new
with_ports ip proto pm a = record a {
  ip_map = put ip (set_ports proto pm (proto_map_or_new a (lookup ip a.ip_map))) a.ip_map;
}

-- The port map of an address and a protocol, a new one where there is none.
pub ports_at : PortAllocator → Name → Protocol → PortMap
unfolding ports_of proto_map_or_new
ports_at a ip proto = ports_of proto (proto_map_or_new a (lookup ip a.ip_map))

module _ ⦃text : IpText⦄ where
  pub request_port_in_range :
      Ip → Option Protocol → ℕ → ℕ → PortAllocator → PortAllocator × Result RequestError ℕ
  unfolding or_default request_error with_ports ports_at
  request_port_in_range ip none port_start port_end a = (a, err unknown_protocol)
  request_port_in_range ip (some proto) port_start port_end a =
      let ipstr = text.ip_string (or_default ip) in
      let r = Ports.request_port_in_range port_start port_end (ports_at a ipstr proto) in
      (with_ports ipstr proto r.0 a, request_error r.1)

  pub request_port :
      Ip → Option Protocol → ℕ → PortAllocator → PortAllocator × Result RequestError ℕ
  request_port ip proto port a = request_port_in_range ip proto port port a

  released : Name → Protocol → ℕ → PortAllocator → Option ProtoMap → PortAllocator
  unfolding with_ports ports_of
  released ip proto port a none = a
  released ip proto port a (some m) =
      with_ports ip proto (Ports.release_port port (ports_of proto m)) a

  -- ReleasePort for a known protocol; any other is a nil dereference on an address that has ports.
  pub release_port : Ip → Protocol → ℕ → PortAllocator → PortAllocator
  unfolding or_default released
  release_port ip proto port a =
      let ipstr = text.ip_string (or_default ip) in
      released ipstr proto port a (lookup ipstr a.ip_map)
