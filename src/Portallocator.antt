-- ===== src/Portallocator.antt =====
-- portallocator/portallocator.go: the ports of one address and protocol, a `portMap`. Ports are natural
-- numbers; the set of ports is a list; a range is kept under its two bounds, which the key that
-- getRangeKey prints determines. Addresses has the map from addresses and protocols to port maps.
pub mod Search
pub mod Ranges
pub mod Requests
pub mod Addresses
mod Tests
use libnetwork.Prelude.{
  ℕ, zero, suc, ◌+◌, ◌-◌, Bool, true, false, not, ◌&&◌, ◌||◌, Option, none, some, List, [], ◌∷◌,
  ltb, leb, ◌==◌, if◌then◌else◌,
}
use libnetwork.Prelude.Result.{Result, ok, err}

pub data PortError : Type 0 where
  -- ErrAllPortsAllocated, ErrPortAlreadyAllocated, "invalid port range"
  all_ports_allocated port_already_allocated invalid_port_range : PortError

pub record PortRange : Type 0 where
  pub begin : ℕ
  pub end : ℕ
  pub last : ℕ

pub record PortMap : Type 0 where
  pub p : List ℕ
  pub default_begin : ℕ
  pub default_end : ℕ
  pub port_ranges : List PortRange

pub new_port_range : ℕ → ℕ → PortRange
new_port_range port_start port_end = record { begin = port_start; end = port_end; last = port_end }

pub new_port_map : ℕ → ℕ → PortMap
unfolding new_port_range
new_port_map begin end = record {
  p = [];
  default_begin = begin;
  default_end = end;
  port_ranges = new_port_range begin end ∷ [];
}

-- Whether a port is in the set, and the set without it.
abbrev pub has_port : List ℕ → ℕ → Bool
has_port [] port = false
has_port (q ∷ ports) port = q == port || has_port ports port

pub delete_port : List ℕ → ℕ → List ℕ
delete_port [] port = []
delete_port (q ∷ ports) port =
    let rest = delete_port ports port in if q == port then rest else q ∷ rest

abbrev pub same_range : ℕ → ℕ → PortRange → Bool
same_range begin end r = r.begin == begin && r.end == end

pub lookup_range : List PortRange → ℕ → ℕ → Option PortRange
lookup_range [] begin end = none
lookup_range (r ∷ ranges) begin end =
    let rest = lookup_range ranges begin end in if same_range begin end r then some r else rest

-- `pr.last = port` through the pointer that the map holds.
pub set_last : List PortRange → ℕ → ℕ → ℕ → List PortRange
set_last [] begin end port = []
set_last (r ∷ ranges) begin end port =
    let rest = set_last ranges begin end port in
    if same_range begin end r then record r { last = port } ∷ rest else r ∷ rest

pub known_range : PortMap → ℕ → ℕ → Option PortRange → PortMap × Result PortError PortRange
unfolding new_port_range
known_range pm begin end (some r) = (pm, ok r)
known_range pm begin end none =
    let r = new_port_range begin end in (record pm { port_ranges = r ∷ pm.port_ranges }, ok r)

pub get_port_range : ℕ → ℕ → PortMap → PortMap × Result PortError PortRange
unfolding known_range lookup_range
get_port_range port_start port_end pm =
    if port_start == 0 && port_end == 0
    then known_range pm port_start port_end
        (lookup_range pm.port_ranges pm.default_begin pm.default_end)
    else if port_start == port_end
        || (port_start == 0 || (port_end == 0 || ltb port_end port_start))
    then (pm, err invalid_port_range)
    else known_range pm port_start port_end (lookup_range pm.port_ranges port_start port_end)

abbrev pub next_port : ℕ → ℕ → ℕ → ℕ
next_port begin end port = if ltb end (port + 1) then begin else port + 1

-- The loop of findPort, with the rounds that are left.
pub search_ports : ℕ → ℕ → ℕ → List ℕ → ℕ → Option ℕ
search_ports begin end zero ports port = none
search_ports begin end (suc rounds) ports port =
    let candidate = next_port begin end port in
    let rest = search_ports begin end rounds ports candidate in
    if has_port ports candidate then rest else some candidate

pub take_port : PortMap → PortRange → Option ℕ → PortMap × Result PortError ℕ
unfolding set_last
take_port pm r none = (pm, err all_ports_allocated)
take_port pm r (some port) = (
  record pm { p = port ∷ pm.p; port_ranges = set_last pm.port_ranges r.begin r.end port },
  ok port,
)

-- `for i := 0; i <= pr.end-pr.begin; i++`, on int: no round where the range is empty.
abbrev rounds_of : PortRange → ℕ
rounds_of r = r.end + 1 - r.begin

pub in_range : PortMap × Result PortError PortRange → PortMap × Result PortError ℕ
unfolding take_port search_ports
in_range (pm, err e) = (pm, err e)
in_range (pm, ok r) = take_port pm r (search_ports r.begin r.end (rounds_of r) pm.p r.last)

pub find_port : ℕ → ℕ → PortMap → PortMap × Result PortError ℕ
unfolding in_range get_port_range
find_port port_start port_end pm = in_range (get_port_range port_start port_end pm)

-- RequestPortInRange from the port map on.
pub request_port_in_range : ℕ → ℕ → PortMap → PortMap × Result PortError ℕ
unfolding find_port
request_port_in_range port_start port_end pm =
    if ltb 0 port_start && port_start == port_end
    then if has_port pm.p port_start
      then (pm, err port_already_allocated)
      else (record pm { p = port_start ∷ pm.p }, ok port_start)
    else find_port port_start port_end pm

pub release_port : ℕ → PortMap → PortMap
unfolding delete_port
release_port port pm = record pm { p = delete_port pm.p port }
