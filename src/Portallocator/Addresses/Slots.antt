-- ===== src/Portallocator/Addresses/Slots.antt =====
-- portallocator/portallocator.go: the ports of all addresses, and a port map that is changed.
use libnetwork.Prelude.{
  ℕ, ◌==◌, ==_iff, ◌≡◌, ◌↔◌, refl, sym, ap, subst, ◌∙◌, Bool, true, false, ◌&&◌, ◌||◌, arith,
  if◌then◌else◌, Bool-cases, inl, inr,
}
use libnetwork.Networkdb.Names.{Name, same, same_iff, lookup, lookup-put}
use libnetwork.Portallocator.{PortMap, has_port}
use libnetwork.Portallocator.Requests.{IsPortMap}
use libnetwork.Portallocator.Addresses.{
  Protocol, tcp, udp, sctp, ProtoMap, PortAllocator, ports_of, set_ports, proto_map_or_new,
  with_ports, ports_at,
}

-- A port of an address, by its text, and a protocol.
pub record Slot : Type 0 where
  pub ip : Name
  pub proto : Protocol
  pub port : ℕ

abbrev pub same_protocol : Protocol → Protocol → Bool
same_protocol tcp tcp = true
same_protocol udp udp = true
same_protocol sctp sctp = true
same_protocol tcp udp = false
same_protocol tcp sctp = false
same_protocol udp tcp = false
same_protocol udp sctp = false
same_protocol sctp tcp = false
same_protocol sctp udp = false

pub same_protocol_iff : (p q : Protocol) → (same_protocol p q ≡ true) ↔ (p ≡ q)
same_protocol_iff tcp tcp = ((λ h. refl), (λ h. refl))
same_protocol_iff udp udp = ((λ h. refl), (λ h. refl))
same_protocol_iff sctp sctp = ((λ h. refl), (λ h. refl))
same_protocol_iff tcp udp = ((λ h. cc), (λ h. cc))
same_protocol_iff tcp sctp = ((λ h. cc), (λ h. cc))
same_protocol_iff udp tcp = ((λ h. cc), (λ h. cc))
same_protocol_iff udp sctp = ((λ h. cc), (λ h. cc))
same_protocol_iff sctp tcp = ((λ h. cc), (λ h. cc))
same_protocol_iff sctp udp = ((λ h. cc), (λ h. cc))

abbrev pub same_slot : Slot → Slot → Bool
same_slot s t = same s.ip t.ip && (same_protocol s.proto t.proto && t.port == s.port)

pub same_slot_iff : (s t : Slot) → (same_slot s t ≡ true) ↔ (s ≡ t)
same_slot_iff s t =
    ground (arith, same_iff s.ip t.ip, same_protocol_iff s.proto t.proto, ==_iff t.port s.port)

abbrev pub is_taken : PortAllocator → Slot → Bool
is_taken a s = has_port (ports_at a s.ip s.proto).p s.port

abbrev pub IsPortAllocator : PortAllocator → Type 0
IsPortAllocator a = (ip : Name) (proto : Protocol) → IsPortMap (ports_at a ip proto)

-- The slot was free and is taken, and nothing else has changed.
pub record Grants (a : PortAllocator) (s : Slot) (g : PortAllocator) : Type 0 where
  pub was_free : is_taken a s ≡ false
  pub now : (t : Slot) → is_taken g t ≡ (same_slot s t || is_taken a t)
  pub valid : IsPortAllocator g

-- The same ports are taken.
pub record Keeps (a g : PortAllocator) : Type 0 where
  pub as_before : (t : Slot) → is_taken g t ≡ is_taken a t
  pub valid : IsPortAllocator g

ports_of-set_ports :
    (p q : Protocol) (pm : PortMap) (m : ProtoMap)
    → ports_of q (set_ports p pm m) ≡ (if same_protocol p q then pm else ports_of q m)
unfolding ports_of set_ports
ports_of-set_ports tcp tcp pm m = refl
ports_of-set_ports tcp udp pm m = refl
ports_of-set_ports tcp sctp pm m = refl
ports_of-set_ports udp tcp pm m = refl
ports_of-set_ports udp udp pm m = refl
ports_of-set_ports udp sctp pm m = refl
ports_of-set_ports sctp tcp pm m = refl
ports_of-set_ports sctp udp pm m = refl
ports_of-set_ports sctp sctp pm m = refl

pub ports_at-with_ports :
    (ip j : Name) (p q : Protocol) (pm : PortMap) (a : PortAllocator)
    → ports_at (with_ports ip p pm a) j q
      ≡ (if same ip j && same_protocol p q then pm else ports_at a j q)
unfolding ports_at with_ports proto_map_or_new
ports_at-with_ports ip j p q pm a =
    let m = proto_map_or_new a (lookup ip a.ip_map) in
    ap (λ o. ports_of q (proto_map_or_new a o)) (lookup-put ip j (set_ports p pm m) a.ip_map)
    ∙ (elim (Bool-cases (same ip j)) [
      | inl here ↦
          let is : ip ≡ j = (same_iff ip j).0 here in
          rw here (
            ports_of-set_ports p q pm m
            ∙ ap
                (λ i.
                  if same_protocol p q
                  then pm
                  else ports_of q (proto_map_or_new a (lookup i a.ip_map)))
                is)
      | inr apart ↦ rw apart refl
    ])

-- A changed port map in its place.
pub IsPortAllocator-with_ports :
    (ip : Name) (p : Protocol) (pm : PortMap) (a : PortAllocator)
    → IsPortAllocator a
    → IsPortMap pm
    → IsPortAllocator (with_ports ip p pm a)
IsPortAllocator-with_ports ip p pm a v w j q =
    subst (λ x. IsPortMap x) (sym (ports_at-with_ports ip j p q pm a))
      (elim (Bool-cases (same ip j && same_protocol p q)) [
        | inl here ↦ rw here w
        | inr apart ↦ rw apart (v j q)
      ])

pub is_taken-with_ports :
    (ip : Name) (p : Protocol) (pm : PortMap) (a : PortAllocator) (f : ℕ → Bool → Bool)
    → ((k : ℕ) → has_port pm.p k ≡ f k (has_port (ports_at a ip p).p k))
    → (t : Slot)
    → is_taken (with_ports ip p pm a) t
      ≡ (if same ip t.ip && same_protocol p t.proto then f t.port (is_taken a t) else is_taken a t)
is_taken-with_ports ip p pm a f h t =
    ap (λ x. has_port x.p t.port) (ports_at-with_ports ip t.ip p t.proto pm a)
    ∙ by_slot (same ip t.ip && same_protocol p t.proto) refl
  where
    by_slot :
        (here : Bool)
        → (same ip t.ip && same_protocol p t.proto) ≡ here
        → has_port (let x : PortMap = if here then pm else ports_at a t.ip t.proto in x.p) t.port
          ≡ (if here then f t.port (is_taken a t) else is_taken a t)
    by_slot false apart = refl
    by_slot true here =
        let ip_is : ip ≡ t.ip = ground (arith, here, same_iff ip t.ip) in
        let p_is : p ≡ t.proto = ground (arith, here, same_protocol_iff p t.proto) in
        h t.port
        ∙ ap (λ i. f t.port (has_port (ports_at a i p).p t.port)) ip_is
        ∙ ap (λ q. f t.port (has_port (ports_at a t.ip q).p t.port)) p_is
