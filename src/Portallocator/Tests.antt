-- ===== src/Portallocator/Tests.antt =====
-- Concrete runs of the theorems on portallocator/portallocator.go.
use libnetwork.Prelude.{ℕ, ◌<◌, ◌≡◌, ◌⊎◌, refl, true, false, some, [], ◌∷◌, arith}
use libnetwork.Prelude.Result.{ok, err}
use libnetwork.Portallocator.{
  PortMap, has_port, lookup_range, request_port_in_range, port_already_allocated,
  invalid_port_range,
}
use libnetwork.Portallocator.Requests.{IsPortMap, Takes, Searches, request_port_in_range_cases}
use libnetwork.Ipam.Net.{Ip}
use libnetwork.Portallocator.Addresses as Addresses
use libnetwork.Portallocator.Addresses.{tcp, IpText, PortAllocator, new_instance}
use libnetwork.Portallocator.Addresses.Slots.{Slot, is_taken, IsPortAllocator}
use libnetwork.Portallocator.Addresses.Grants.{
  slot_of, new_instance-IsPortAllocator, release_port-request_port_in_range, request_single,
  new_instance_free,
}

-- The ports from 10 to 12 by default, with 11 taken last.
abbrev one_port : PortMap
one_port = record {
  p = 11 ∷ [];
  default_begin = 10;
  default_end = 12;
  port_ranges = record { begin = 10; end = 12; last = 11 } ∷ [];
}

one_port-IsPortMap : IsPortMap one_port
unfolding lookup_range
one_port-IsPortMap = record {
  ranges = ((omega arith, omega arith), tt);
  default = (record { begin = 10; end = 12; last = 11 }, refl);
}

request_port_in_range_cases_example :
    let r = request_port_in_range 10 11 one_port in
    ((0 < 10)
      × (◌≡◌ {A = ℕ} 10 11)
      × (has_port one_port.p 10 ≡ true)
      × (r ≡ (one_port, err port_already_allocated)))
    ⊎ (((0 < 10) × (◌≡◌ {A = ℕ} 10 11) × (r.1 ≡ ok 10) × Takes one_port 10 r.0)
        ⊎ (((◌≡◌ {A = ℕ} 10 0) × (◌≡◌ {A = ℕ} 11 0) × Searches one_port 10 12 r)
            ⊎ (((0 < 10) × (10 < 11) × Searches one_port 10 11 r)
                ⊎ ((((◌≡◌ {A = ℕ} 10 0) × (0 < 11)) ⊎ (11 < 10))
                    × (r ≡ (one_port, err invalid_port_range))))))
request_port_in_range_cases_example = request_port_in_range_cases 10 11 one_port one_port-IsPortMap

instance abbrev plain_text : IpText
plain_text = record { ip_string = λ ip. ip }

abbrev host_ip : Ip
host_ip = 10 ∷ 0 ∷ 0 ∷ 1 ∷ []

abbrev fresh : PortAllocator
fresh = new_instance 49153 65535

release_port-request_port_in_range_example :
    let g = (Addresses.request_port_in_range host_ip (some tcp) 8080 8080 fresh).0 in
    let k = Addresses.release_port host_ip tcp 8080 g in
    (is_taken fresh (slot_of host_ip tcp 8080) ≡ false)
    × (is_taken g (slot_of host_ip tcp 8080) ≡ true)
    × ((t : Slot) → is_taken k t ≡ is_taken fresh t)
    × IsPortAllocator k
release_port-request_port_in_range_example =
    release_port-request_port_in_range host_ip tcp 8080 8080 8080 fresh
      (new_instance-IsPortAllocator 49153 65535 (omega arith))
      (request_single host_ip tcp 8080 fresh
        (new_instance-IsPortAllocator 49153 65535 (omega arith)) (omega arith)
        (new_instance_free 49153 65535 (slot_of host_ip tcp 8080)))
