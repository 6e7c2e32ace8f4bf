-- ===== src/Portallocator/Addresses/Grants.antt =====
-- portallocator/portallocator.go: which ports a request takes and a release gives back.
use libnetwork.Prelude.{
  ℕ, ◌==◌, ◌<◌, ◌≤◌, ◌≡◌, ◌⊎◌, refl, sym, ap, subst, ◌∙◌, Bool, true, false, not, ◌&&◌, ◌||◌, none,
  some, arith, Bool-cases, Option-cases, inl, inr,
}
use libnetwork.Prelude.Result.{Result, ok, err}
use libnetwork.Networkdb.Names.{Name, lookup}
use libnetwork.Ipam.Net.{Ip}
use libnetwork.Portallocator as Ports
use libnetwork.Portallocator.{
  PortError, all_ports_allocated, port_already_allocated, invalid_port_range, PortMap, new_port_map,
  new_port_range, lookup_range, has_port,
}
use libnetwork.Portallocator.Requests.{
  IsPortMap, Takes, request_port_in_range_cases, has_port_deleted,
}
use libnetwork.Portallocator.Addresses.{
  new_instance, Protocol, tcp, udp, sctp, IpText, ProtoMap, PortAllocator, refused, or_default,
  ports_of, proto_map_or_new, request_error, ports_at, request_port_in_range, released,
  release_port,
}
use libnetwork.Portallocator.Addresses.Slots.{
  Slot, same_slot, same_slot_iff, is_taken, IsPortAllocator, Grants, Keeps,
  IsPortAllocator-with_ports, is_taken-with_ports,
}

new_port_map-IsPortMap : (begin end : ℕ) → begin ≤ end → IsPortMap (new_port_map begin end)
unfolding new_port_map lookup_range
new_port_map-IsPortMap begin end h = record {
  ranges = ((h, omega arith), tt);
  default = (new_port_range begin end, ground arith);
}

pub new_instance-IsPortAllocator :
    (begin end : ℕ) → begin ≤ end → IsPortAllocator (new_instance begin end)
unfolding new_instance ports_at ports_of proto_map_or_new lookup
new_instance-IsPortAllocator begin end h ip tcp = new_port_map-IsPortMap begin end h
new_instance-IsPortAllocator begin end h ip udp = new_port_map-IsPortMap begin end h
new_instance-IsPortAllocator begin end h ip sctp = new_port_map-IsPortMap begin end h

-- A port that a request may give: the single one that it names, or one of its range, which is the
-- default one of the port map where it names none.
abbrev pub InRequest : PortMap → ℕ → ℕ → ℕ → Type 0
InRequest pm s e port =
    ((0 < s) × (s ≡ e) × (port ≡ s))
    ⊎ (((s ≡ 0) × (e ≡ 0) × (pm.default_begin ≤ port) × (port ≤ pm.default_end))
        ⊎ ((0 < s) × (s < e) × (s ≤ port) × (port ≤ e)))

-- Why a request is refused: its port is taken, all of its range is, or its bounds are no range.
abbrev pub Refuses : PortMap → ℕ → ℕ → PortError → Type 0
Refuses pm s e why =
    ((why ≡ port_already_allocated) × (0 < s) × (s ≡ e) × (has_port pm.p s ≡ true))
    ⊎ (((why ≡ all_ports_allocated)
          × (((s ≡ 0) × (e ≡ 0)) ⊎ ((0 < s) × (s < e)))
          × ((q : ℕ) → InRequest pm s e q → has_port pm.p q ≡ true))
        ⊎ ((why ≡ invalid_port_range) × (((s ≡ 0) × (0 < e)) ⊎ (e < s))))

-- What a request of the port map leaves: a port of it is taken, or none.
Leaves : PortMap → ℕ → ℕ → PortMap × Result PortError ℕ → Type 0
Leaves pm s e r =
    ((port : ℕ) × (r.1 ≡ ok port) × Takes pm port r.0 × InRequest pm s e port)
    ⊎ ((why : PortError) × (r.1 ≡ err why)
        × ((q : ℕ) → has_port r.0.p q ≡ has_port pm.p q)
        × IsPortMap r.0
        × Refuses pm s e why)

request-Leaves :
    (s e : ℕ) (pm : PortMap) → IsPortMap pm → Leaves pm s e (Ports.request_port_in_range s e pm)
unfolding Leaves
request-Leaves s e pm v = elim (request_port_in_range_cases s e pm v) [
  | inl (pos, one, busy, is) ↦
      rw is (inr (port_already_allocated, refl, (λ q. refl), v, inl (refl, pos, one, busy)))
  | inr (inl (pos, one, is, takes)) ↦ inl (s, is, takes, inl (pos, one, refl))
  | inr (inr (inl (s0, e0, inl (port, is, lo, hi, takes)))) ↦
      inl (port, is, takes, inr (inl (s0, e0, lo, hi)))
  | inr (inr (inl (s0, e0, inr (is, kept, w, all)))) ↦ inr (
    all_ports_allocated,
    is,
    (λ q. ap (λ ports. has_port ports q) kept),
    w,
    inr (inl (refl, inl (s0, e0), default_all s0 e0 all)),
  )
  | inr (inr (inr (inl (pos, lt, inl (port, is, lo, hi, takes))))) ↦
      inl (port, is, takes, inr (inr (pos, lt, lo, hi)))
  | inr (inr (inr (inl (pos, lt, inr (is, kept, w, all))))) ↦ inr (
    all_ports_allocated,
    is,
    (λ q. ap (λ ports. has_port ports q) kept),
    w,
    inr (inl (refl, inr (pos, lt), named_all pos lt all)),
  )
  | inr (inr (inr (inr (bad, is)))) ↦
      rw is (inr (invalid_port_range, refl, (λ q. refl), v, inr (inr (refl, bad))))
]
  where
    default_all :
        s ≡ 0
        → e ≡ 0
        → ((q : ℕ) → pm.default_begin ≤ q → q ≤ pm.default_end → has_port pm.p q ≡ true)
        → (q : ℕ) → InRequest pm s e q
        → has_port pm.p q ≡ true
    default_all s0 e0 all q (inl (pos, one, is)) = absurd (omega arith)
    default_all s0 e0 all q (inr (inl (a, b, lo, hi))) = all q lo hi
    default_all s0 e0 all q (inr (inr (pos, lt, lo, hi))) = absurd (omega arith)

    named_all :
        0 < s
        → s < e
        → ((q : ℕ) → s ≤ q → q ≤ e → has_port pm.p q ≡ true)
        → (q : ℕ) → InRequest pm s e q
        → has_port pm.p q ≡ true
    named_all pos lt all q (inl (p, one, is)) = absurd (omega arith)
    named_all pos lt all q (inr (inl (a, b, lo, hi))) = absurd (omega arith)
    named_all pos lt all q (inr (inr (p, l, lo, hi))) = all q lo hi

-- An address without port maps has no port taken.
free_new :
    (ip : Name) (proto : Protocol) (port : ℕ) (a : PortAllocator)
    → lookup ip a.ip_map ≡ none
    → has_port (ports_at a ip proto).p port ≡ false
unfolding ports_at ports_of proto_map_or_new new_port_map
free_new ip tcp port a gone = rw gone refl
free_new ip udp port a gone = rw gone refl
free_new ip sctp port a gone = rw gone refl

ports_at_known :
    (ip : Name) (proto : Protocol) (a : PortAllocator) (m : ProtoMap)
    → lookup ip a.ip_map ≡ some m
    → ports_at a ip proto ≡ ports_of proto m
unfolding ports_at proto_map_or_new
ports_at_known ip proto a m there = rw there refl

IsPortMap-release :
    (port : ℕ) (pm : PortMap) → IsPortMap pm → IsPortMap (Ports.release_port port pm)
unfolding Ports.release_port
IsPortMap-release port pm v = record { ranges = v.ranges; default = v.default }

release_has_port :
    (port q : ℕ) (pm : PortMap)
    → has_port (Ports.release_port port pm).p q ≡ (not (q == port) && has_port pm.p q)
unfolding Ports.release_port
release_has_port port q pm = has_port_deleted pm.p port q

module _ ⦃text : IpText⦄ where
  -- The slot of an address that a request names.
  abbrev pub slot_of : Ip → Protocol → ℕ → Slot
  slot_of ip proto port = record { ip = text.ip_string (or_default ip); proto = proto; port = port }

  -- The port map of a request.
  abbrev pub ports_for : Ip → Protocol → PortAllocator → PortMap
  ports_for ip proto a = ports_at a (text.ip_string (or_default ip)) proto

  -- RequestPortInRange of an allocator whose port maps are valid takes a port of the request that was
  -- free, or is refused for a reason and leaves the ports as they are.
  pub request_cases :
      (ip : Ip) (proto : Protocol) (s e : ℕ) (a : PortAllocator)
      → IsPortAllocator a
      → let r = request_port_in_range ip (some proto) s e a in
        ((port : ℕ) × (r.1 ≡ ok port)
          × Grants a (slot_of ip proto port) r.0
          × InRequest (ports_for ip proto a) s e port)
        ⊎ ((why : PortError) × (r.1 ≡ err (refused why))
            × Keeps a r.0
            × Refuses (ports_for ip proto a) s e why)
  unfolding request_port_in_range request_error Leaves
  request_cases ip proto s e a v =
      let name = text.ip_string (or_default ip) in
      let pm = ports_at a name proto in
      let r = Ports.request_port_in_range s e pm in
      elim (request-Leaves s e pm (v name proto)) [
        | inl (port, is, takes, within) ↦ inl (
          port,
          ap request_error is,
          record {
            was_free = takes.was_free;
            now = λ t.
                is_taken-with_ports name proto r.0 a (λ k b. k == port || b) takes.ports t
                ∙ ground arith;
            valid = IsPortAllocator-with_ports name proto r.0 a v takes.valid;
          },
          within,
        )
        | inr (why, is, kept, w, reason) ↦ inr (
          why,
          ap request_error is,
          record {
            as_before = λ t. is_taken-with_ports name proto r.0 a (λ k b. b) kept t ∙ ground arith;
            valid = IsPortAllocator-with_ports name proto r.0 a v w;
          },
          reason,
        )
      ]

  -- ReleasePort frees the slot, and nothing else.
  pub release_lem :
      (ip : Ip) (proto : Protocol) (port : ℕ) (a : PortAllocator)
      → IsPortAllocator a
      → ((t : Slot)
          → is_taken (release_port ip proto port a) t
            ≡ (not (same_slot (slot_of ip proto port) t) && is_taken a t))
        × IsPortAllocator (release_port ip proto port a)
  unfolding release_port released
  release_lem ip proto port a v =
      elim (Option-cases (lookup (text.ip_string (or_default ip)) a.ip_map)) [
        | inl gone ↦ rw gone ((λ t. absent t gone (same_slot (slot_of ip proto port) t) refl), v)
        | inr (m, there) ↦
            let name = text.ip_string (or_default ip) in
            let known = ports_at_known name proto a m there in
            rw there (
              (λ t.
                  is_taken-with_ports name proto (Ports.release_port port (ports_of proto m)) a
                    (λ k b. not (k == port) && b)
                    (λ k.
                      release_has_port port k (ports_of proto m)
                      ∙ ap (λ pm. not (k == port) && has_port pm.p k) (sym known))
                    t
                  ∙ ground arith),
              IsPortAllocator-with_ports name proto (Ports.release_port port (ports_of proto m)) a v
                  (IsPortMap-release port (ports_of proto m)
                    (subst (λ pm. IsPortMap pm) known (v name proto))),
            )
      ]
    where
      absent :
          (t : Slot)
          → lookup (text.ip_string (or_default ip)) a.ip_map ≡ none
          → (here : Bool) → same_slot (slot_of ip proto port) t ≡ here
          → is_taken a t ≡ (not here && is_taken a t)
      absent t gone false apart = refl
      absent t gone true here =
          let s = slot_of ip proto port in
          let is : s ≡ t = (same_slot_iff s t).0 here in
          subst (λ x. is_taken a x ≡ false) is (free_new s.ip proto port a gone)

  -- A port that was taken is given back.
  pub release-Grants :
      (ip : Ip) (proto : Protocol) (port : ℕ) (a g : PortAllocator)
      → Grants a (slot_of ip proto port) g
      → Keeps a (release_port ip proto port g)
  release-Grants ip proto port a g h =
      let (frees, w) = release_lem ip proto port g h.valid in
      record {
        as_before = λ t.
            let s = slot_of ip proto port in
            frees t ∙ (elim (Bool-cases (same_slot s t)) [
              | inl here ↦
                  rw here
                    (sym (ap (λ x. is_taken a x) (sym ((same_slot_iff s t).0 here)) ∙ h.was_free))
              | inr apart ↦ rw apart (h.now t ∙ (rw apart refl))
            ]);
        valid = w;
      }

  -- A port that RequestPortInRange of an allocator with valid port maps gives is taken, and was not;
  -- ReleasePort of the same address, protocol and port then makes every port of every address as free
  -- or taken as before the request, and leaves valid port maps.
  pub release_port-request_port_in_range :
      (ip : Ip) (proto : Protocol) (s e port : ℕ) (a : PortAllocator)
      → IsPortAllocator a
      → (request_port_in_range ip (some proto) s e a).1 ≡ ok port
      → let g = (request_port_in_range ip (some proto) s e a).0 in
        let k = release_port ip proto port g in
        (is_taken a (slot_of ip proto port) ≡ false)
        × (is_taken g (slot_of ip proto port) ≡ true)
        × ((t : Slot) → is_taken k t ≡ is_taken a t)
        × IsPortAllocator k
  release_port-request_port_in_range ip proto s e port a v done =
      elim (request_cases ip proto s e a v) [
        | inl (port', is, grants, within) ↦
            let same : port' ≡ port = (let both = sym is ∙ done in cc) in
            let g = (request_port_in_range ip (some proto) s e a).0 in
            given_back g (subst (λ q. Grants a (slot_of ip proto q) g) same grants)
        | inr (why, is, keeps, reason) ↦ absurd (let both = sym is ∙ done in cc)
      ]
    where
      given_back :
          (g : PortAllocator)
          → Grants a (slot_of ip proto port) g
          → (is_taken a (slot_of ip proto port) ≡ false)
            × (is_taken g (slot_of ip proto port) ≡ true)
            × ((t : Slot) → is_taken (release_port ip proto port g) t ≡ is_taken a t)
            × IsPortAllocator (release_port ip proto port g)
      given_back g h =
          let keeps = release-Grants ip proto port a g h in
          let s = slot_of ip proto port in
          (
            h.was_free,
            h.now s ∙ (rw ((same_slot_iff s s).1 refl) refl),
            keeps.as_before,
            keeps.valid,
          )

  -- A single port that is free is taken.
  pub request_single :
      (ip : Ip) (proto : Protocol) (port : ℕ) (a : PortAllocator)
      → IsPortAllocator a
      → 0 < port
      → is_taken a (slot_of ip proto port) ≡ false
      → (request_port_in_range ip (some proto) port port a).1 ≡ ok port
  unfolding request_port_in_range request_error
  request_single ip proto port a v pos free =
      let name = text.ip_string (or_default ip) in
      elim (request_port_in_range_cases port port (ports_at a name proto) (v name proto)) [
        | inl (p, one, busy, is) ↦ absurd (let bad = sym free ∙ busy in cc)
        | inr (inl (p, one, is, takes)) ↦ ap request_error is
        | inr (inr (inl (zero_port, end_zero, more))) ↦ absurd (omega arith)
        | inr (inr (inr (inl (p, lt, more)))) ↦ absurd (omega arith)
        | inr (inr (inr (inr (inl (s, lt), is)))) ↦ absurd (omega arith)
        | inr (inr (inr (inr (inr lt, is)))) ↦ absurd (omega arith)
      ]

pub new_instance_free : (begin end : ℕ) (s : Slot) → is_taken (new_instance begin end) s ≡ false
unfolding new_instance lookup
new_instance_free begin end s = free_new s.ip s.proto s.port (new_instance begin end) refl
