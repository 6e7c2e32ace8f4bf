-- ===== src/Portmapper/Trip.antt =====
-- portmapper/mapper.go: Unmap after MapRange.
use libnetwork.Prelude.{
  ℕ, ◌≡◌, refl, sym, ap, subst, ◌∙◌, Bool, true, false, not, ◌&&◌, Option, none, some, List, [],
  if◌then◌else◌, inl, inr,
}
use libnetwork.Prelude.Result.{ok}
use mathlib.Core.Option.{some-injective}
use libnetwork.Ipam.Net.{Ip}
use libnetwork.Discovery.Maps.{find, put, remove, find-put, find-remove}
use libnetwork.Portallocator.Addresses.{Protocol, IpText, PortAllocator}
use libnetwork.Portallocator.Addresses.Slots.{Slot, same_slot, same_slot_iff, is_taken, Grants}
use libnetwork.Portallocator.Addresses.Grants.{slot_of}
use libnetwork.Portmapper.Slots.{same_key, same_key_iff, key_eq}
use libnetwork.Portmapper.{Addr, Mapping, PortMapper, Outcome, get_key, unmap, map_range}
use libnetwork.Portmapper.Hosts.{host_slot, host_slot_of, IsPortMapper, IsMapped}
use libnetwork.Portmapper.Mapped.{map_range_cases}
use libnetwork.Portmapper.Moves.{IsPortMapper-mapped, unmap_there}

module _ ⦃text : IpText⦄ where
  module _ (nil_text : (ip : Ip) → text.ip_string ip ≡ text.ip_string [] → ip ≡ []) where
    -- What a mapping took and put is gone with it.
    gone_again :
        (k0 k : Option Slot) (m0 : Mapping) (l : List (Option Slot × Mapping)) (here : Bool)
        → same_key k0 k ≡ here
        → find k0 l ≡ none
        → (if here then none else find k (put k0 m0 l)) ≡ find k l
    gone_again k0 k m0 l true here absent =
        sym (ap (λ j. find j l) (sym ((same_key_iff k0 k).0 here)) ∙ absent)
    gone_again k0 k m0 l false apart absent = find-put k0 k m0 l ∙ (rw apart refl)

    free_again :
        (a g : PortAllocator) (s t : Slot) (here : Bool)
        → same_slot s t ≡ here
        → Grants a s g
        → (not here && is_taken g t) ≡ is_taken a t
    free_again a g s t true here grants =
        sym (ap (λ x. is_taken a x) (sym ((same_slot_iff s t).0 here)) ∙ grants.was_free)
    free_again a g s t false apart grants = grants.now t ∙ (rw apart refl)

    unmap_mapped :
        (container : Addr) (ip : Ip) (proto : Protocol) (port : ℕ) (pm g : PortMapper) (host : Addr)
        → IsPortMapper pm
        → IsMapped container ip proto port pm g host
        → let r = unmap host g in
          (r.1 ≡ none)
          × ((k : Option Slot) → find k r.0.current_mappings ≡ find k pm.current_mappings)
          × ((t : Slot) → is_taken r.0.allocator t ≡ is_taken pm.allocator t)
    unmap_mapped container ip proto port pm g host v h =
        let k0 = get_key host in
        let there : find k0 g.current_mappings ≡ some h.mapping =
          ap (λ l. find k0 l) h.mappings
          ∙ find-put k0 k0 h.mapping pm.current_mappings
          ∙ (rw ((same_key_iff k0 k0).1 refl) refl) in
        let (s, hs, slot, done, u) =
          unmap_there nil_text host h.mapping g
            (IsPortMapper-mapped container ip proto port pm g host v h) there in
        let is : slot_of ip proto port ≡ s =
          some-injective _ _
            (sym (host_slot_of proto ip port) ∙ ap (λ a. host_slot a) (sym h.host_is) ∙ hs) in
        (
          done,
          (λ k.
              ap (λ l. find k l) (u.mappings ∙ ap (λ l. remove k0 l) h.mappings)
              ∙ find-remove k0 k (put k0 h.mapping pm.current_mappings)
              ∙ gone_again k0 k h.mapping pm.current_mappings (same_key k0 k) refl h.was_absent),
          (λ t.
              u.ports t
              ∙ free_again pm.allocator g.allocator s t (same_slot s t) refl
                  (subst (λ x. Grants pm.allocator x g.allocator) is h.port_taken)),
        )

    -- Where each mapping is under the key of its host and its port is taken, once each, and only the
    -- nil address has its text: a host address that MapRange returns can be unmapped, and Unmap of it
    -- leaves the mappings of all keys and the ports of all addresses as they were before the two.
    pub unmap-map_range :
        (o : Outcome) (container : Addr) (ip : Ip) (s e : ℕ) (use_proxy : Bool) (pm : PortMapper)
        (host : Addr)
        → IsPortMapper pm
        → (map_range o container ip s e use_proxy pm).1 ≡ ok host
        → let r = unmap host (map_range o container ip s e use_proxy pm).0 in
          (r.1 ≡ none)
          × ((k : Option Slot) → find k r.0.current_mappings ≡ find k pm.current_mappings)
          × ((t : Slot) → is_taken r.0.allocator t ≡ is_taken pm.allocator t)
    unmap-map_range o container ip s e use_proxy pm host v done =
        let r = map_range o container ip s e use_proxy pm in
        elim (map_range_cases nil_text o container ip s e use_proxy pm v) [
          | inl (proto, port, host', done', h, asked) ↦
              let is : host' ≡ host = (let both = sym done' ∙ done in cc) in
              unmap_mapped container ip proto port pm r.0 host v
                (subst (λ x. IsMapped container ip proto port pm r.0 x) is h)
          | inr (inl (e, bad, ne, kept)) ↦ absurd (let both = sym bad ∙ done in cc)
          | inr (inr (proto, port, why, bad, used, reason, same, grants, asked)) ↦
              absurd (let both = sym bad ∙ done in cc)
        ]
