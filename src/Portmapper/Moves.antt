-- ===== src/Portmapper/Moves.antt =====
-- portmapper/mapper.go: that MapRange and Unmap keep the mappings and the ports together.
use libnetwork.Prelude.{
  ℕ, ◌≡◌, ◌≢◌, refl, sym, ap, subst, ◌∙◌, Bool, true, false, not, ◌&&◌, Option, none, some, [], ◌∷◌,
  arith, Option-cases, Bool-cases, inl, inr,
}
use libnetwork.Prelude.Result.{err}
use mathlib.Core.Option.{some-injective}
use libnetwork.Ipam.Net.{Ip}
use libnetwork.Discovery.Maps.{find, remove, found-put, found-remove}
use libnetwork.Portallocator.Addresses.{
  Protocol, tcp, udp, sctp, IpText, PortAllocator, release_port,
}
use libnetwork.Portallocator.Addresses.Slots.{
  Slot, same_slot, same_slot_iff, is_taken, IsPortAllocator, Grants,
}
use libnetwork.Portallocator.Addresses.Grants.{slot_of, release_lem}
use libnetwork.Portmapper.Slots.{key_eq}
use libnetwork.Portmapper.{
  Addr, tcp_addr, udp_addr, sctp_addr, other_addr, Mapping, PortMapper, MapError,
  port_mapped_for_ip, Outcome, get_key, forwarded, stop_proxy, delete_of, host_released, unmapped,
  unmap, map_range,
}
use libnetwork.Portmapper.Hosts.{
  Parts, parts, slot_at, host_slot, host_slot_of, IsPortMapper, IsMapped, same_slot_of_key,
  Fails-ne, NoProxy-ne,
}
use libnetwork.Portmapper.Mapped.{map_range_cases}

module _ ⦃text : IpText⦄ where
  -- With the same mappings and no port given back.
  pub IsPortMapper-more :
      (pm g : PortMapper)
      → IsPortMapper pm
      → g.current_mappings ≡ pm.current_mappings
      → ((t : Slot) → is_taken pm.allocator t ≡ true → is_taken g.allocator t ≡ true)
      → IsPortAllocator g.allocator
      → IsPortMapper g
  IsPortMapper-more pm g v same more w =
      let at = λ (k : Option Slot). ap (λ l. find k l) (sym same) in
      record {
        valid = w;
        under_key = λ k m h. v.under_key k m (at k ∙ h);
        backed = λ k m h. let (s, is, taken) = v.backed k m (at k ∙ h) in (s, is, more s taken);
        apart = λ j k m n h i slots. v.apart j k m n (at j ∙ h) (at k ∙ i) slots;
      }

  more_taken :
      (a g : PortAllocator) (s t : Slot) → Grants a s g → is_taken a t ≡ true → is_taken g t ≡ true
  more_taken a g s t grants h = grants.now t ∙ ground (arith, h)

  -- A free slot is of no mapping.
  free_apart :
      {P : Type 0} (pm : PortMapper) (s : Slot) (k : Option Slot) (m : Mapping)
      → IsPortMapper pm
      → is_taken pm.allocator s ≡ false
      → find k pm.current_mappings ≡ some m
      → host_slot m.host ≡ some s
      → P
  free_apart pm s k m v free at slot =
      let (t, slot', taken) = v.backed k m at in
      let is : t ≡ s = some-injective _ _ (sym slot' ∙ slot) in
      absurd (
        let bad : is_taken pm.allocator s ≡ true =
          subst (λ x. is_taken pm.allocator x ≡ true) is taken in
        cc)

  -- A new mapping.
  pub IsPortMapper-mapped :
      (container : Addr) (ip : Ip) (proto : Protocol) (port : ℕ) (pm g : PortMapper) (host : Addr)
      → IsPortMapper pm
      → IsMapped container ip proto port pm g host
      → IsPortMapper g
  IsPortMapper-mapped container ip proto port pm g host v h =
      let s = slot_of ip proto port in
      let k0 = get_key host in
      let m0 = h.mapping in
      let slot0 : host_slot m0.host ≡ some s =
        ap (λ a. host_slot a) h.of_host ∙ host_slot_of proto ip port in
      let found = λ (j : Option Slot) (m : Mapping) (at : find j g.current_mappings ≡ some m).
        found-put k0 j m0 m pm.current_mappings (ap (λ l. find j l) (sym h.mappings) ∙ at) in
      record {
        valid = h.port_taken.valid;
        under_key = λ j m at. elim (found j m at) [
          | inl (here, is) ↦
              sym here
              ∙ ap (λ a. get_key a) (h.host_is ∙ sym h.of_host)
              ∙ ap (λ x. get_key x.host) is
          | inr old ↦ v.under_key j m old
        ];
        backed = λ j m at. elim (found j m at) [
          | inl (here, is) ↦ (
            s,
            ap (λ x. host_slot x.host) (sym is) ∙ slot0,
            h.port_taken.now s ∙ (rw ((same_slot_iff s s).1 refl) refl),
          )
          | inr old ↦
              let (t, slot, taken) = v.backed j m old in
              (t, slot, more_taken pm.allocator g.allocator s t h.port_taken taken)
        ];
        apart = λ j k m n at at' slots. elim (found j m at) [
          | inl (here, is) ↦ elim (found k n at') [
            | inl (here', is') ↦ sym here ∙ here'
            | inr old ↦
                free_apart pm s k n v h.port_taken.was_free old
                  (sym slots ∙ ap (λ x. host_slot x.host) (sym is) ∙ slot0)
          ]
          | inr old ↦ elim (found k n at') [
            | inl (here, is) ↦
                free_apart pm s j m v h.port_taken.was_free old
                  (slots ∙ ap (λ x. host_slot x.host) (sym is) ∙ slot0)
            | inr old' ↦ v.apart j k m n old old' slots
          ]
        ];
      }

  -- With the port of an address given back.
  abbrev given_back : PortMapper → Ip × Protocol × ℕ → PortMapper × Option MapError
  given_back pm (ip, proto, port) =
      (record pm { allocator = release_port ip proto port pm.allocator }, none)

  -- What a host address with a slot gives back.
  host_released_lem :
      (host : Addr) (ip : Ip) (proto : Protocol) (port : ℕ) (pm : PortMapper)
      → parts host ≡ some (ip, proto, port)
      → host_released host pm
        ≡ (record pm { allocator = release_port ip proto port pm.allocator }, none)
  unfolding host_released
  host_released_lem (tcp_addr x p) ip proto port pm h =
      ap (given_back pm) (some-injective (x, tcp, p) (ip, proto, port) h)
  host_released_lem (udp_addr x p) ip proto port pm h =
      ap (given_back pm) (some-injective (x, udp, p) (ip, proto, port) h)
  host_released_lem (sctp_addr [] p) ip proto port pm h =
      absurd (let bad : (let o : Parts = none in o ≡ some (ip, proto, port)) = h in cc)
  host_released_lem (sctp_addr (x ∷ xs) p) ip proto port pm h =
      ap (given_back pm) (some-injective (x, sctp, p) (ip, proto, port) h)
  host_released_lem other_addr ip proto port pm h =
      absurd (let bad : (let o : Parts = none in o ≡ some (ip, proto, port)) = h in cc)

  -- A mapping that goes, and its port with it.
  pub record IsUnmapped (pm g : PortMapper) (k : Option Slot) (s : Slot) : Type 0 where
    pub mappings : g.current_mappings ≡ remove k pm.current_mappings
    pub ports :
        (t : Slot) → is_taken g.allocator t ≡ (not (same_slot s t) && is_taken pm.allocator t)
    pub valid : IsPortAllocator g.allocator

  IsPortMapper-unmapped :
      (pm g : PortMapper) (k : Option Slot) (m : Mapping) (s : Slot)
      → IsPortMapper pm
      → find k pm.current_mappings ≡ some m
      → host_slot m.host ≡ some s
      → IsUnmapped pm g k s
      → IsPortMapper g
  IsPortMapper-unmapped pm g k m s v there slot u =
      let found = λ (j : Option Slot) (n : Mapping) (at : find j g.current_mappings ≡ some n).
        found-remove k j n pm.current_mappings (ap (λ l. find j l) (sym u.mappings) ∙ at) in
      record {
        valid = u.valid;
        under_key = λ j n at. v.under_key j n (found j n at).1;
        backed = λ j n at.
            let (ne, old) = found j n at in
            let (t, slot', taken) = v.backed j n old in
            (
              t,
              slot',
              u.ports t ∙ (elim (Bool-cases (same_slot s t)) [
                | inl here ↦
                    let is : s ≡ t = (same_slot_iff s t).0 here in
                    absurd (ne (v.apart k j m n there old (slot ∙ ap (λ x. some x) is ∙ sym slot')))
                | inr apart ↦ rw apart taken
              ]),
            );
        apart = λ i j n n' at at' slots. v.apart i j n n' (found i n at).1 (found j n' at').1 slots;
      }

  module _ (nil_text : (ip : Ip) → text.ip_string ip ≡ text.ip_string [] → ip ≡ []) where
    -- Unmap of a host that is mapped.
    pub unmap_there :
        (host : Addr) (m : Mapping) (pm : PortMapper)
        → IsPortMapper pm
        → find (get_key host) pm.current_mappings ≡ some m
        → (s : Slot) × (host_slot host ≡ some s)
          × (host_slot m.host ≡ some s)
          × ((unmap host pm).1 ≡ none)
          × IsUnmapped pm (unmap host pm).0 (get_key host) s
    unfolding unmap unmapped forwarded
    unmap_there host m pm v there =
        let (s, slot, taken) = v.backed (get_key host) m there in
        let slots = same_slot_of_key nil_text host m.host (v.under_key (get_key host) m there) in
        let hs : host_slot host ≡ some s = slots ∙ slot in
        let g = forwarded (delete_of pm.bridge_name m) (record pm {
          calls = stop_proxy m.userland_proxy ∷ pm.calls;
          current_mappings = remove (get_key host) pm.current_mappings;
        }) in
        elim (Option-cases (parts host)) [
          | inl p ↦
              absurd (
                let bad : (let o : Option Slot = none in o ≡ some s) = ap slot_at (sym p) ∙ hs in
                cc)
          | inr ((ip, proto, port), p) ↦
              let is : slot_of ip proto port ≡ s = some-injective _ _ (ap slot_at (sym p) ∙ hs) in
              let done : unmap host pm
                  ≡ (record g { allocator = release_port ip proto port g.allocator }, none) =
                rw there (host_released_lem host ip proto port g p) in
              let (frees, w) = release_lem ip proto port pm.allocator v.valid in
              (
                s,
                hs,
                slot,
                ap (λ r. r.1) done,
                record {
                  mappings = ap (λ r. r.0.current_mappings) done;
                  ports = λ t.
                      ap (λ r. is_taken r.0.allocator t) done
                      ∙ frees t
                      ∙ ap (λ x. not (same_slot x t) && is_taken pm.allocator t) is;
                  valid = subst (λ a. IsPortAllocator a) (sym (ap (λ r. r.0.allocator) done)) w;
                },
              )
        ]

    pub unmap-IsPortMapper :
        (host : Addr) (pm : PortMapper) → IsPortMapper pm → IsPortMapper (unmap host pm).0
    unfolding unmap unmapped
    unmap-IsPortMapper host pm v = elim (Option-cases (find (get_key host) pm.current_mappings)) [
      | inl gone ↦ rw gone v
      | inr (m, there) ↦
          let (s, hs, slot, done, u) = unmap_there host m pm v there in
          IsPortMapper-unmapped pm (unmap host pm).0 (get_key host) m s v there slot u
    ]

    pub map_range-IsPortMapper :
        (o : Outcome) (container : Addr) (ip : Ip) (s e : ℕ) (use_proxy : Bool) (pm : PortMapper)
        → IsPortMapper pm
        → let r = map_range o container ip s e use_proxy pm in
          IsPortMapper r.0 × (r.1 ≢ err port_mapped_for_ip)
    map_range-IsPortMapper o container ip s e use_proxy pm v =
        let r = map_range o container ip s e use_proxy pm in
        elim (map_range_cases nil_text o container ip s e use_proxy pm v) [
          | inl (proto, port, host, done, h, asked) ↦ (
            IsPortMapper-mapped container ip proto port pm r.0 host v h,
            (λ z. let bad = sym done ∙ z in cc),
          )
          | inr (inl (why, bad, fails, (same, keeps))) ↦ (
            IsPortMapper-more pm r.0 v same (λ t h. keeps.as_before t ∙ h) keeps.valid,
            (λ z. Fails-ne o container ip s e pm why fails (let is = sym bad ∙ z in cc)),
          )
          | inr (inr (proto, port, why, bad, used, reason, same, grants, asked)) ↦ (
            IsPortMapper-more pm r.0 v same
                (λ t h. more_taken pm.allocator r.0.allocator (slot_of ip proto port) t grants h)
                grants.valid,
            (λ z. NoProxy-ne o pm.proxy_path container why reason (let is = sym bad ∙ z in cc)),
          )
        ]
