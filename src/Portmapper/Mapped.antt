-- ===== src/Portmapper/Mapped.antt =====
-- portmapper/mapper.go: what MapRange leaves.
use libnetwork.Prelude.{
  ℕ, ◌≡◌, ◌⊎◌, refl, sym, ap, subst, ◌∙◌, Bool, true, false, not, ◌&&◌, Option, none, some, [],
  if◌then◌else◌, Option-cases, inl, inr,
}
use libnetwork.Prelude.Result.{Result, ok, err}
use mathlib.Core.Option.{some-injective}
use libnetwork.Networkdb.Names.{Name}
use libnetwork.Ipam.Net.{Ip}
use libnetwork.Discovery.Maps.{find, put}
use libnetwork.Portallocator.Addresses.{
  Protocol, tcp, udp, sctp, IpText, PortAllocator, refused, request_port_in_range, release_port,
}
use libnetwork.Portallocator.Addresses.Slots.{
  Slot, same_slot, same_slot_iff, is_taken, Grants, Keeps,
}
use libnetwork.Portallocator.Addresses.Grants.{slot_of, request_cases, release_lem, release-Grants}
use libnetwork.Portmapper.Slots.{key_eq}
use libnetwork.Portmapper.{
  Proxy, Addr, tcp_addr, udp_addr, sctp_addr, other_addr, Mapping, PortMapper, MapError,
  unknown_backend_address_type, request, failed, Outcome, addr_of, protocol_of, proxy_for, get_key,
  forwarded, append_of, started, appended, registered, deferred, with_proxy, requested, mapped,
  map_range,
}
use libnetwork.Portmapper.Hosts.{
  host_slot_of, IsPortMapper, IsMapped, Unchanged, MapsRange, same_slot_of_key, SameKind, of_tcp,
  of_udp, of_sctp, proxy_for_why, Fails, unknown, no_port, no_rule, no_start, IsAsked,
}

module _ ⦃text : IpText⦄ where
  -- What becomes of a port that was taken: it is mapped, or given back.
  Registers :
      Outcome
      → Addr
      → Ip
      → Protocol
      → ℕ
      → ℕ
      → ℕ
      → PortMapper
      → PortMapper × Result MapError Addr
      → Type 0
  Registers o container ip proto port s e pm r =
      ((host : Addr) × (r.1 ≡ ok host) × IsMapped container ip proto port pm r.0 host)
      ⊎ ((why : MapError) × (r.1 ≡ err why) × Fails o container ip s e pm why × Unchanged pm r.0)

  -- A port that is free already is given back again.
  release_kept :
      (ip : Ip) (proto : Protocol) (port : ℕ) (a g : PortAllocator)
      → Keeps a g
      → is_taken a (slot_of ip proto port) ≡ false
      → Keeps a (release_port ip proto port g)
  release_kept ip proto port a g k free =
      let (frees, w) = release_lem ip proto port g k.valid in
      record {
        as_before = λ t. frees t ∙ kept t (same_slot (slot_of ip proto port) t) refl;
        valid = w;
      }
    where
      kept :
          (t : Slot) (here : Bool)
          → same_slot (slot_of ip proto port) t ≡ here
          → (not here && is_taken g t) ≡ is_taken a t
      kept t false apart = k.as_before t
      kept t true here =
          sym
            (ap (λ x. is_taken a x) (sym ((same_slot_iff (slot_of ip proto port) t).0 here)) ∙ free)

  started_cases :
      (o : Outcome) (container : Addr) (ip : Ip) (proto : Protocol) (port s e : ℕ) (m : Mapping)
      (pm g : PortMapper) (f : Option Name)
      → o.start ≡ f
      → m.proto ≡ proto
      → m.host ≡ addr_of proto ip port
      → m.container ≡ container
      → g.current_mappings ≡ pm.current_mappings
      → Grants pm.allocator (slot_of ip proto port) g.allocator
      → find (get_key m.host) pm.current_mappings ≡ none
      → Registers o container ip proto port s e pm (deferred ip proto port (started ip port m g f))
  unfolding Registers deferred started forwarded
  started_cases o container ip proto port s e m pm g none at p h c same grants absent = inl (
    m.host,
    refl,
    record {
      mapping = m;
      host_is = h;
      of_host = h;
      of_container = c;
      was_absent = absent;
      mappings = ap (λ x. put (get_key m.host) m x) same;
      port_taken = grants;
    },
  )
  started_cases o container ip proto port s e m pm g (some x) at p h c same grants absent = inr (
    failed x,
    refl,
    no_start x at,
    (
      same,
      release_kept ip proto port pm.allocator (release_port ip m.proto port g.allocator)
          (subst (λ q. Keeps pm.allocator (release_port ip q port g.allocator)) (sym p)
            (release-Grants ip proto port pm.allocator g.allocator grants))
          grants.was_free,
    ),
  )

  ruled :
      (chain : Bool) (f : Option Name) (x : Name)
      → (if chain then f else none) ≡ some x
      → (chain ≡ true) × (f ≡ some x)
  ruled true f x h = (refl, h)
  ruled false f x h = absurd cc

  appended_cases :
      (o : Outcome) (container : Addr) (ip : Ip) (proto : Protocol) (port s e : ℕ) (m : Mapping)
      (pm g : PortMapper) (f : Option Name)
      → (if pm.chain then o.forward else none) ≡ f
      → m.proto ≡ proto
      → m.host ≡ addr_of proto ip port
      → m.container ≡ container
      → g.current_mappings ≡ pm.current_mappings
      → Grants pm.allocator (slot_of ip proto port) g.allocator
      → find (get_key m.host) pm.current_mappings ≡ none
      → Registers o container ip proto port s e pm
          (deferred ip proto port (appended o ip port m g f))
  unfolding Registers deferred appended
  appended_cases o container ip proto port s e m pm g none at p h c same grants absent =
      started_cases o container ip proto port s e m pm _ o.start refl p h c same grants absent
  appended_cases o container ip proto port s e m pm g (some x) at p h c same grants absent = inr (
    failed x,
    refl,
    (let (chain, fails) = ruled pm.chain o.forward x at in no_rule x chain fails),
    (same, release-Grants ip proto port pm.allocator g.allocator grants),
  )

  module _ (nil_text : (ip : Ip) → text.ip_string ip ≡ text.ip_string [] → ip ≡ []) where
    -- A port that is free has no mapping.
    absent_of_free :
        (proto : Protocol) (ip : Ip) (port : ℕ) (pm : PortMapper)
        → IsPortMapper pm
        → is_taken pm.allocator (slot_of ip proto port) ≡ false
        → find (get_key (addr_of proto ip port)) pm.current_mappings ≡ none
    absent_of_free proto ip port pm v free =
        elim (Option-cases (find (get_key (addr_of proto ip port)) pm.current_mappings)) [
          | inl gone ↦ gone
          | inr (m, there) ↦
              let (s, at, taken) = v.backed _ m there in
              let slots =
                same_slot_of_key nil_text (addr_of proto ip port) m.host (v.under_key _ m there) in
              let is : slot_of ip proto port ≡ s =
                some-injective _ _ (sym (host_slot_of proto ip port) ∙ slots ∙ at) in
              absurd (
                let bad : is_taken pm.allocator s ≡ false =
                  subst (λ x. is_taken pm.allocator x ≡ false) is free in
                cc)
        ]

    with_proxy_cases :
        (o : Outcome) (container : Addr) (ip : Ip) (use_proxy : Bool) (proto : Protocol)
        (port s e : ℕ) (pm : PortMapper) (g : PortAllocator) (proxy : Result MapError Proxy)
        → IsPortMapper pm
        → IsAsked container ip s e pm proto port
        → Grants pm.allocator (slot_of ip proto port) g
        → proxy_for o pm.proxy_path container proto ip port use_proxy ≡ proxy
        → MapsRange o container ip s e use_proxy pm
            (with_proxy o container ip port proto (record pm { allocator = g }) proxy)
    unfolding with_proxy registered forwarded Registers
    with_proxy_cases o container ip use_proxy proto port s e pm g (err x) v asked grants is =
        let (used, why) = proxy_for_why o pm.proxy_path container proto ip port use_proxy x is in
        inr (inr (proto, port, x, refl, used, why, refl, grants, asked))
    with_proxy_cases o container ip use_proxy proto port s e pm g (ok proxy) v asked grants is =
        let absent = absent_of_free proto ip port pm v grants.was_free in
        let m : Mapping = record {
          proto = proto;
          userland_proxy = proxy;
          host = addr_of proto ip port;
          container = container;
        } in
        rw absent
          (elim (appended_cases o container ip proto port s e m pm
            (forwarded (append_of pm.bridge_name m) (record pm { allocator = g }))
            (if pm.chain then o.forward else none) refl refl refl refl refl grants absent) [
              | inl (host, done, is_mapped) ↦ inl (proto, port, host, done, is_mapped, asked)
              | inr (x, bad, why, kept) ↦ inr (inl (x, bad, why, kept))
            ])

    requested_cases :
        (o : Outcome) (container : Addr) (ip : Ip) (s e : ℕ) (use_proxy : Bool) (pm : PortMapper)
        (proto : Protocol)
        → IsPortMapper pm
        → SameKind container proto
        → MapsRange o container ip s e use_proxy pm (
            requested o container ip use_proxy proto pm
              (request_port_in_range ip (some proto) s e pm.allocator))
    unfolding requested
    requested_cases o container ip s e use_proxy pm proto v kind =
        let r = request_port_in_range ip (some proto) s e pm.allocator in
        elim (request_cases ip proto s e pm.allocator v.valid) [
          | inl (port, is, grants, within) ↦ rw is (
              with_proxy_cases o container ip use_proxy proto port s e pm r.0 _ v (kind, within)
                grants refl)
          | inr (why, is, keeps, reason) ↦ rw is (
              inr (inl (request (refused why), refl, no_port proto why kind reason, (refl, keeps))))
        ]

    -- Where each mapping is under the key of its host and its port is taken, once each, and only the
    -- nil address has its text: MapRange maps a port that was free, of the protocol of the container
    -- and of the range asked for (the single port, or the default range of the address for bounds of 0),
    -- and takes it, or it fails and leaves the mappings and the ports as they were, where the address
    -- has no known type, the request for a port is refused (the port or all of the range is taken, or
    -- the bounds are no range), a rule of a chain that is set fails, or the start of the proxy does. One
    -- failure is left: where a proxy is to be used and cannot be made, as the container has no IP or the
    -- command is not found, the port that was taken stays taken.
    pub map_range_cases :
        (o : Outcome) (container : Addr) (ip : Ip) (s e : ℕ) (use_proxy : Bool) (pm : PortMapper)
        → IsPortMapper pm
        → MapsRange o container ip s e use_proxy pm (map_range o container ip s e use_proxy pm)
    unfolding map_range protocol_of mapped
    map_range_cases o (tcp_addr c p) ip s e use_proxy pm v =
        requested_cases o (tcp_addr c p) ip s e use_proxy pm tcp v (of_tcp c p)
    map_range_cases o (udp_addr c p) ip s e use_proxy pm v =
        requested_cases o (udp_addr c p) ip s e use_proxy pm udp v (of_udp c p)
    map_range_cases o (sctp_addr cs p) ip s e use_proxy pm v =
        requested_cases o (sctp_addr cs p) ip s e use_proxy pm sctp v (of_sctp cs p)
    map_range_cases o other_addr ip s e use_proxy pm v = inr (
        inl (
          unknown_backend_address_type,
          refl,
          unknown refl,
          (refl, record { as_before = λ t. refl; valid = v.valid }),
        ))
