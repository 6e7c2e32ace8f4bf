-- ===== src/Portmapper/History.antt =====
-- portmapper/mapper.go: what holds of the mappings after any calls.
use libnetwork.Prelude.{
  ℕ, ◌≤◌, ◌≡◌, ◌≢◌, refl, sym, ap, subst, ◌∙◌, Bool, Option, none, some, List, [], ◌∷◌,
}
use libnetwork.Prelude.Result.{err}
use libnetwork.Networkdb.Names.{Name}
use libnetwork.Ipam.Net.{Ip}
use libnetwork.Discovery.Maps.{find}
use libnetwork.Portallocator.Addresses.{new_instance, IpText}
use libnetwork.Portallocator.Addresses.Slots.{Slot, is_taken, IsPortAllocator}
use libnetwork.Portallocator.Addresses.Grants.{new_instance-IsPortAllocator}
use libnetwork.Portmapper.Slots.{key_eq}
use libnetwork.Portmapper.{
  Addr, Mapping, PortMapper, port_mapped_for_ip, Outcome, forwarded, append_of, unmap, appended_all,
  re_map_all, set_iptables_chain, map_range, new_port_mapper,
}
use libnetwork.Portmapper.Hosts.{IsPortMapper}
use libnetwork.Portmapper.Moves.{IsPortMapper-more, unmap-IsPortMapper, map_range-IsPortMapper}

module _ ⦃text : IpText⦄ where
  appended_all-same :
      (mappings : List (Option Slot × Mapping)) (pm : PortMapper)
      → ((appended_all mappings pm).current_mappings ≡ pm.current_mappings)
        × ((appended_all mappings pm).allocator ≡ pm.allocator)
  unfolding appended_all forwarded
  appended_all-same [] pm = (refl, refl)
  appended_all-same ((k, m) ∷ mappings) pm =
      appended_all-same mappings (forwarded (append_of pm.bridge_name m) pm)

  pub data MapCall : Type 0 where
    mapping : Outcome → Addr → Ip → ℕ → ℕ → Bool → MapCall
    unmapping : Addr → MapCall
    remapping : MapCall
    chaining : Bool → Name → MapCall

  abbrev pub apply : MapCall → PortMapper → PortMapper
  apply (mapping o container ip s e use_proxy) pm = (map_range o container ip s e use_proxy pm).0
  apply (unmapping host) pm = (unmap host pm).0
  apply remapping pm = re_map_all pm
  apply (chaining chain bridge_name) pm = set_iptables_chain chain bridge_name pm

  abbrev pub run : List MapCall → PortMapper → PortMapper
  run [] pm = pm
  run (c ∷ calls) pm = run calls (apply c pm)

  pub new_port_mapper-IsPortMapper :
      (begin end : ℕ) (path : Name)
      → begin ≤ end
      → IsPortMapper (new_port_mapper (new_instance begin end) path)
  unfolding new_port_mapper find
  new_port_mapper-IsPortMapper begin end path h = record {
    valid = new_instance-IsPortAllocator begin end h;
    under_key =
        λ k m at. absurd (let bad : (let o : Option Mapping = none in o ≡ some m) = at in cc);
    backed = λ k m at. absurd (let bad : (let o : Option Mapping = none in o ≡ some m) = at in cc);
    apart = λ j k m n at at' slots.
        absurd (let bad : (let o : Option Mapping = none in o ≡ some m) = at in cc);
  }

  module _ (nil_text : (ip : Ip) → text.ip_string ip ≡ text.ip_string [] → ip ≡ []) where
    apply-IsPortMapper :
        (c : MapCall) (pm : PortMapper) → IsPortMapper pm → IsPortMapper (apply c pm)
    unfolding re_map_all set_iptables_chain
    apply-IsPortMapper (mapping o container ip s e use_proxy) pm v =
        (map_range-IsPortMapper nil_text o container ip s e use_proxy pm v).0
    apply-IsPortMapper (unmapping host) pm v = unmap-IsPortMapper nil_text host pm v
    apply-IsPortMapper (chaining chain bridge_name) pm v =
        IsPortMapper-more pm (set_iptables_chain chain bridge_name pm) v refl (λ t h. h) v.valid
    apply-IsPortMapper remapping pm v =
        let (same, kept) = appended_all-same pm.current_mappings pm in
        IsPortMapper-more pm (re_map_all pm) v same (λ t h. ap (λ a. is_taken a t) kept ∙ h)
          (subst (λ a. IsPortAllocator a) (sym kept) v.valid)

    run_from :
        (calls : List MapCall) (pm : PortMapper) → IsPortMapper pm → IsPortMapper (run calls pm)
    run_from [] pm v = v
    run_from (c ∷ calls) pm v = run_from calls (apply c pm) (apply-IsPortMapper c pm v)

    -- Where only the nil address has its text: after any calls of MapRange, Unmap, ReMapAll and SetIptablesChain on a new
    -- mapper with an allocator of its own, whatever the platform answered, each mapping is under the
    -- key of its host, the port of each is taken, and no two have one port of an address and a
    -- protocol; the next MapRange never fails for a port that is mapped already.
    pub run-IsPortMapper :
        (begin end : ℕ) (path : Name) (calls : List MapCall)
        → begin ≤ end
        → let pm = run calls (new_port_mapper (new_instance begin end) path) in
          IsPortMapper pm
          × ((o : Outcome) (container : Addr) (ip : Ip) (s e : ℕ) (use_proxy : Bool)
              → (map_range o container ip s e use_proxy pm).1 ≢ err port_mapped_for_ip)
    run-IsPortMapper begin end path calls h =
        let v =
          run_from calls (new_port_mapper (new_instance begin end) path)
            (new_port_mapper-IsPortMapper begin end path h) in
        let pm = run calls (new_port_mapper (new_instance begin end) path) in
        (
          v,
          (λ o container ip s e use_proxy.
              (map_range-IsPortMapper nil_text o container ip s e use_proxy pm v).1),
        )
