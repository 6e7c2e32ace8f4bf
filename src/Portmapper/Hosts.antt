-- ===== src/Portmapper/Hosts.antt =====
-- portmapper/mapper.go: the host addresses, what holds of a mapper, and what MapRange is to leave.
use libnetwork.Prelude.{
  ℕ, ◌≡◌, ◌≢◌, ◌⊎◌, refl, sym, ap, ◌∙◌, Bool, true, false, Option, none, some, List, [], ◌∷◌, subst,
}
use libnetwork.Prelude.Result.{Result, ok, err}
use mathlib.Core.Option.{some-injective}
use libnetwork.Networkdb.Names.{Name}
use libnetwork.Ipam.Net.{Ip}
use libnetwork.Discovery.Maps.{find, put}
use libnetwork.Portallocator.Addresses.{Protocol, tcp, udp, sctp, IpText, refused, or_default}
use libnetwork.Portallocator.Addresses.Slots.{Slot, is_taken, IsPortAllocator, Grants, Keeps}
use libnetwork.Portallocator.{PortError}
use libnetwork.Portallocator.Addresses.Grants.{slot_of, ports_for, InRequest, Refuses}
use libnetwork.Portmapper.Slots.{key_eq}
use libnetwork.Portmapper.{
  Addr, tcp_addr, udp_addr, sctp_addr, other_addr, Mapping, PortMapper, MapError,
  unknown_backend_address_type, sctp_addr_no_ip, request, failed, port_mapped_for_ip, Outcome,
  addr_of, looked_up, new_proxy_command, proxy_for, get_key,
}

-- What a host address is made of.
abbrev pub Parts : Type 0
Parts = Option (Ip × Protocol × ℕ)

abbrev pub parts : Addr → Parts
parts (tcp_addr ip port) = some (ip, tcp, port)
parts (udp_addr ip port) = some (ip, udp, port)
parts (sctp_addr [] port) = none
parts (sctp_addr (ip ∷ ips) port) = some (ip, sctp, port)
parts other_addr = none

parts_of :
    (proto : Protocol) (ip : Ip) (port : ℕ) → parts (addr_of proto ip port) ≡ some (ip, proto, port)
unfolding addr_of
parts_of tcp ip port = refl
parts_of udp ip port = refl
parts_of sctp ip port = refl

-- The protocol of a container address.
pub data SameKind : Addr → Protocol → Type 0 where
  of_tcp : (ip : Ip) (port : ℕ) → SameKind (tcp_addr ip port) tcp
  of_udp : (ip : Ip) (port : ℕ) → SameKind (udp_addr ip port) udp
  of_sctp : (ips : List Ip) (port : ℕ) → SameKind (sctp_addr ips port) sctp

-- Why no proxy can be made: a container address without an IP, or a command that is not found.
pub data NoProxy (o : Outcome) (path : Name) : Addr → MapError → Type 0 where
  no_ip : (port : ℕ) → NoProxy o path (sctp_addr [] port) sctp_addr_no_ip
  not_found :
      (container : Addr) (e : Name)
      → path ≡ []
      → o.look_path ≡ err e
      → NoProxy o path container (failed e)

looked_up_why :
    (o : Outcome) (container : Addr) (proto : Protocol) (ip : Ip) (port : ℕ) (c : Ip) (p : ℕ)
    (r : Result Name Name) (e : MapError)
    → o.look_path ≡ r
    → looked_up proto ip port c p r ≡ err e
    → NoProxy o [] container e
unfolding looked_up
looked_up_why o container proto ip port c p (ok path) e at h = absurd cc
looked_up_why o container proto ip port c p (err x) e at h =
    let is : failed x ≡ e = cc in
    subst (λ y. NoProxy o [] container y) is (not_found container x refl at)

new_proxy_command_why :
    (o : Outcome) (path : Name) (container : Addr) (proto : Protocol) (ip : Ip) (port : ℕ) (c : Ip)
    (p : ℕ) (e : MapError)
    → new_proxy_command o path proto ip port c p ≡ err e
    → NoProxy o path container e
unfolding new_proxy_command
new_proxy_command_why o [] container proto ip port c p e h =
    looked_up_why o container proto ip port c p o.look_path e refl h
new_proxy_command_why o (x ∷ path) container proto ip port c p e h = absurd cc

pub proxy_for_why :
    (o : Outcome) (path : Name) (container : Addr) (proto : Protocol) (ip : Ip) (port : ℕ)
    (use_proxy : Bool) (e : MapError)
    → proxy_for o path container proto ip port use_proxy ≡ err e
    → (use_proxy ≡ true) × NoProxy o path container e
unfolding proxy_for
proxy_for_why o path container proto ip port false e h = absurd cc
proxy_for_why o path (sctp_addr [] p) proto ip port true e h =
    let is : sctp_addr_no_ip ≡ e = cc in
    (refl, subst (λ y. NoProxy o path (sctp_addr [] p) y) is (no_ip p))
proxy_for_why o path (sctp_addr (c ∷ ips) p) proto ip port true e h =
    (refl, new_proxy_command_why o path (sctp_addr (c ∷ ips) p) proto ip port c p e h)
proxy_for_why o path (tcp_addr c p) proto ip port true e h =
    (refl, new_proxy_command_why o path (tcp_addr c p) proto ip port c p e h)
proxy_for_why o path (udp_addr c p) proto ip port true e h =
    (refl, new_proxy_command_why o path (udp_addr c p) proto ip port c p e h)
proxy_for_why o path other_addr proto ip port true e h =
    (refl, new_proxy_command_why o path other_addr proto ip port [] 0 e h)

-- No proxy fails for a port that is mapped.
pub NoProxy-ne :
    (o : Outcome) (path : Name) (container : Addr) (e : MapError)
    → NoProxy o path container e
    → e ≢ port_mapped_for_ip
NoProxy-ne o path _ _ (no_ip port) h = cc
NoProxy-ne o path container _ (not_found _ e at found) h = cc

module _ ⦃text : IpText⦄ where
  abbrev key_at : Parts → Option Slot
  key_at none = none
  key_at (some (ip, proto, port)) =
      some (record { ip = text.ip_string ip; proto = proto; port = port })

  abbrev pub slot_at : Parts → Option Slot
  slot_at none = none
  slot_at (some (ip, proto, port)) = some (slot_of ip proto port)

  get_key-parts : (a : Addr) → get_key a ≡ key_at (parts a)
  unfolding get_key
  get_key-parts (tcp_addr ip port) = refl
  get_key-parts (udp_addr ip port) = refl
  get_key-parts (sctp_addr [] port) = refl
  get_key-parts (sctp_addr (ip ∷ ips) port) = refl
  get_key-parts other_addr = refl

  -- The slot in the allocator of a host address.
  abbrev pub host_slot : Addr → Option Slot
  host_slot a = slot_at (parts a)

  pub host_slot_of :
      (proto : Protocol) (ip : Ip) (port : ℕ)
      → host_slot (addr_of proto ip port) ≡ some (slot_of ip proto port)
  host_slot_of proto ip port = ap slot_at (parts_of proto ip port)

  -- Each mapping is under the key of its host, whose slot is taken, and no two have one slot.
  pub record IsPortMapper (pm : PortMapper) : Type 0 where
    pub valid : IsPortAllocator pm.allocator
    pub under_key :
        (k : Option Slot) (m : Mapping) → find k pm.current_mappings ≡ some m → k ≡ get_key m.host
    pub backed :
        (k : Option Slot) (m : Mapping)
        → find k pm.current_mappings ≡ some m
        → (s : Slot) × (host_slot m.host ≡ some s) × (is_taken pm.allocator s ≡ true)
    pub apart :
        (j k : Option Slot) (m n : Mapping)
        → find j pm.current_mappings ≡ some m
        → find k pm.current_mappings ≡ some n
        → host_slot m.host ≡ host_slot n.host
        → j ≡ k

  -- A new mapping of a port that was free.
  pub record IsMapped (container : Addr) (ip : Ip) (proto : Protocol) (port : ℕ) (pm g : PortMapper)
      (host : Addr) : Type 0 where
    pub mapping : Mapping
    pub host_is : host ≡ addr_of proto ip port
    pub of_host : mapping.host ≡ addr_of proto ip port
    pub of_container : mapping.container ≡ container
    pub was_absent : find (get_key host) pm.current_mappings ≡ none
    pub mappings : g.current_mappings ≡ put (get_key host) mapping pm.current_mappings
    pub port_taken : Grants pm.allocator (slot_of ip proto port) g.allocator

  -- The mappings and the ports that are taken are as before.
  abbrev pub Unchanged : PortMapper → PortMapper → Type 0
  Unchanged pm g = (g.current_mappings ≡ pm.current_mappings) × Keeps pm.allocator g.allocator

  -- Why nothing is mapped and no port taken: an address of no known type, a request for a port that is
  -- refused, a rule of the chain or a start of the proxy that fails.
  pub data Fails (o : Outcome) (container : Addr) (ip : Ip) (s e : ℕ) (pm : PortMapper)
      : MapError → Type 0 where
    unknown : container ≡ other_addr → Fails o container ip s e pm unknown_backend_address_type
    no_port :
        (proto : Protocol) (why : PortError)
        → SameKind container proto
        → Refuses (ports_for ip proto pm.allocator) s e why
        → Fails o container ip s e pm (request (refused why))
    no_rule :
        (x : Name) → pm.chain ≡ true → o.forward ≡ some x → Fails o container ip s e pm (failed x)
    no_start : (x : Name) → o.start ≡ some x → Fails o container ip s e pm (failed x)

  pub Fails-ne :
      (o : Outcome) (container : Addr) (ip : Ip) (s e : ℕ) (pm : PortMapper) (why : MapError)
      → Fails o container ip s e pm why
      → why ≢ port_mapped_for_ip
  Fails-ne o container ip s e pm _ (unknown is) h = cc
  Fails-ne o container ip s e pm _ (no_port proto why kind refuses) h = cc
  Fails-ne o container ip s e pm _ (no_rule x chain at) h = cc
  Fails-ne o container ip s e pm _ (no_start x at) h = cc

  -- A port of the protocol of the container and of the request.
  abbrev pub IsAsked : Addr → Ip → ℕ → ℕ → PortMapper → Protocol → ℕ → Type 0
  IsAsked container ip s e pm proto port =
      SameKind container proto × InRequest (ports_for ip proto pm.allocator) s e port

  abbrev pub MapsRange :
      Outcome → Addr → Ip → ℕ → ℕ → Bool → PortMapper → PortMapper × Result MapError Addr → Type 0
  MapsRange o container ip s e use_proxy pm r =
      ((proto : Protocol) × (port : ℕ) × (host : Addr) × (r.1 ≡ ok host)
        × IsMapped container ip proto port pm r.0 host
        × IsAsked container ip s e pm proto port)
      ⊎ (((why : MapError) × (r.1 ≡ err why) × Fails o container ip s e pm why × Unchanged pm r.0)
          ⊎ ((proto : Protocol) × (port : ℕ) × (why : MapError) × (r.1 ≡ err why)
              × (use_proxy ≡ true)
              × NoProxy o pm.proxy_path container why
              × (r.0.current_mappings ≡ pm.current_mappings)
              × Grants pm.allocator (slot_of ip proto port) r.0.allocator
              × IsAsked container ip s e pm proto port))

  module _ (nil_text : (ip : Ip) → text.ip_string ip ≡ text.ip_string [] → ip ≡ []) where
    default_text :
        (x y : Ip)
        → text.ip_string x ≡ text.ip_string y
        → text.ip_string (or_default x) ≡ text.ip_string (or_default y)
    unfolding or_default
    default_text [] [] h = refl
    default_text [] (b ∷ bs) h = absurd (let bad = nil_text (b ∷ bs) (sym h) in cc)
    default_text (b ∷ bs) [] h = absurd (let bad = nil_text (b ∷ bs) h in cc)
    default_text (b ∷ bs) (d ∷ ds) h = h

    slot_at_key : (a b : Parts) → key_at a ≡ key_at b → slot_at a ≡ slot_at b
    slot_at_key none none h = refl
    slot_at_key none (some b) h = absurd (let bad : none ≡ key_at (some b) = h in cc)
    slot_at_key (some a) none h = absurd (let bad : key_at (some a) ≡ none = h in cc)
    slot_at_key (some (ip, proto, port)) (some (ip', proto', port')) h =
        let is = some-injective _ _ h in
        let t = default_text ip ip' (ap (λ s. s.ip) is) in
        let p : proto ≡ proto' = ap (λ s. s.proto) is in
        let n : port ≡ port' = ap (λ s. s.port) is in cc

    -- Hosts of one key have one slot.
    pub same_slot_of_key : (a b : Addr) → get_key a ≡ get_key b → host_slot a ≡ host_slot b
    same_slot_of_key a b h =
        slot_at_key (parts a) (parts b) (sym (get_key-parts a) ∙ h ∙ get_key-parts b)
