-- ===== src/Discovery/Records/Named.antt =====
-- network.go: which names the service records have after calls of addSvcRecords and deleteSvcRecords.
use libnetwork.Prelude.{
  ◌≡◌, ◌↔◌, refl, sym, ap, subst, ◌∙◌, Bool, true, false, not, ◌&&◌, ◌||◌, Option, none, some, List,
  [], ◌∷◌, arith, if◌then◌else◌, Bool-cases, Option-cases, inl, inr,
}
use libnetwork.Networkdb.Names.{Name, same, same_iff, lookup, put, lookup-put}
use libnetwork.Ipam.Net.{Ip}
use libnetwork.Setmatrix.Sets.{Eq, SetOps, IsSetOps}
use libnetwork.Setmatrix.Matrix.{SetMatrix, new_set_matrix}
use libnetwork.Setmatrix.Matrix.Pairs.{holds, IsTight, holds-insert, holds-remove}
use libnetwork.Setmatrix.Matrix.History.{IsTight-insert, IsTight-remove, holds-new, IsTight-new}
use libnetwork.Discovery.Text.{Text}
use libnetwork.Discovery.Records.{
  SvcMapEntry, IpInfo, Net, each, SvcInfo, SvcRecords, info_or_new, add_name_to_ip, del_name_to_ip,
  record_added, add_svc_records, record_deleted, deleted_from, delete_svc_records,
}

abbrev pub same_entry : SvcMapEntry → SvcMapEntry → Bool
same_entry a b = same a.ip b.ip && same a.service_id b.service_id

pub same_entry_iff : (a b : SvcMapEntry) → (same_entry a b ≡ true) ↔ (a ≡ b)
same_entry_iff a b = ground (arith, same_iff a.ip b.ip, same_iff a.service_id b.service_id)

instance abbrev pub entry_eq : Eq SvcMapEntry
entry_eq = record { beq = same_entry; beq_iff = same_entry_iff }

-- A call of addSvcRecords or deleteSvcRecords on a network.
pub data RecordCall : Type 0 where
  adding deleting : Net → Name → Name → Ip → Option Ip → Bool → RecordCall

-- For IPv4 or IPv6, the entries that a network has at a name.
abbrev pub Entries : Type 0
Entries = Bool → Name → Name → SvcMapEntry → Bool

module _ ⦃text : Text⦄ where
  -- Whether an entry at a name is the one of a call.
  abbrev pub is_entry : Name → Name → Option Ip → Name → SvcMapEntry → Bool
  is_entry name service_id none x e = false
  is_entry name service_id (some ip) x e =
      same (text.to_lower name) x
      && same_entry (record { ip = text.ip_string ip; service_id = service_id }) e

  abbrev pub is_asked : Net → Name → Name → Ip → Option Ip → Bool → Name → Name → SvcMapEntry → Bool
  is_asked n name service_id ip ipv6 ip_v6 i x e =
      not n.ingress
      && (same n.id i && is_entry name service_id (if ip_v6 then ipv6 else some ip) x e)

  abbrev pub apply_entries : RecordCall → Entries → Entries
  apply_entries (adding n name service_id ip ipv6 u) has =
      λ ip_v6 i x e. is_asked n name service_id ip ipv6 ip_v6 i x e || has ip_v6 i x e
  apply_entries (deleting n name service_id ip ipv6 u) has =
      λ ip_v6 i x e. not (is_asked n name service_id ip ipv6 ip_v6 i x e) && has ip_v6 i x e

  abbrev pub run_entries : List RecordCall → Entries → Entries
  run_entries [] has = has
  run_entries (c ∷ calls) has = run_entries calls (apply_entries c has)

module _ ⦃text : Text⦄ ⦃entries : SetOps SvcMapEntry⦄ ⦃infos : SetOps IpInfo⦄ where
  abbrev pub apply_call : RecordCall → SvcRecords → SvcRecords
  apply_call (adding n name service_id ip ipv6 u) recs =
      add_svc_records n name service_id ip ipv6 u recs
  apply_call (deleting n name service_id ip ipv6 u) recs =
      delete_svc_records n name service_id ip ipv6 u recs

  abbrev pub run_calls : List RecordCall → SvcRecords → SvcRecords
  run_calls [] recs = recs
  run_calls (c ∷ calls) recs = run_calls calls (apply_call c recs)

  -- The map for IPv4 or for IPv6.
  abbrev pub map_of : Bool → SvcInfo → SetMatrix SvcMapEntry
  map_of ip_v6 sr = if ip_v6 then sr.svc_ipv6_map else sr.svc_map

  abbrev pub map_found : Bool → Option SvcInfo → SetMatrix SvcMapEntry
  map_found ip_v6 none = new_set_matrix
  map_found ip_v6 (some sr) = map_of ip_v6 sr

  abbrev pub map_at : Bool → Name → SvcRecords → SetMatrix SvcMapEntry
  map_at ip_v6 i recs = map_found ip_v6 (lookup i recs)

  abbrev pub Records : SvcRecords → Entries → Type 0
  Records recs has =
      (ip_v6 : Bool) (i : Name)
      → IsTight (map_at ip_v6 i recs)
        × ((x : Name) (e : SvcMapEntry) → holds x e (map_at ip_v6 i recs) ≡ has ip_v6 i x e)

  map_of-added :
      (name service_id : Name) (ip : Ip) (ipv6 : Option Ip) (u : Bool) (o : Option SvcInfo)
      (ip_v6 : Bool)
      → map_of ip_v6 (record_added name service_id ip ipv6 u (info_or_new o))
        ≡ each
            (if ip_v6 then ipv6 else some ip)
            (add_name_to_ip name service_id)
            (map_found ip_v6 o)
  unfolding record_added info_or_new
  map_of-added name service_id ip ipv6 u none true = refl
  map_of-added name service_id ip ipv6 u none false = refl
  map_of-added name service_id ip ipv6 u (some sr) true = refl
  map_of-added name service_id ip ipv6 u (some sr) false = refl

  map_of-deleted :
      (name service_id : Name) (ip : Ip) (ipv6 : Option Ip) (u : Bool) (sr : SvcInfo) (ip_v6 : Bool)
      → map_of ip_v6 (record_deleted name service_id ip ipv6 u sr)
        ≡ each (if ip_v6 then ipv6 else some ip) (del_name_to_ip name service_id) (map_of ip_v6 sr)
  unfolding record_deleted
  map_of-deleted name service_id ip ipv6 u sr true = refl
  map_of-deleted name service_id ip ipv6 u sr false = refl

  module _ (laws : IsSetOps entries) where
    -- What one call makes of one map.
    each_added :
        (name service_id : Name) (o : Option Ip) (m : SetMatrix SvcMapEntry)
        → IsTight m
        → IsTight (each o (add_name_to_ip name service_id) m)
          × ((x : Name) (e : SvcMapEntry)
              → holds x e (each o (add_name_to_ip name service_id) m)
                ≡ (is_entry name service_id o x e || holds x e m))
    unfolding add_name_to_ip
    each_added name service_id none m t = (t, (λ x e. refl))
    each_added name service_id (some ip) m t =
        let v : SvcMapEntry = record { ip = text.ip_string ip; service_id = service_id } in
        (
          IsTight-insert laws (text.to_lower name) v m t,
          (λ x e. holds-insert laws (text.to_lower name) x v e m),
        )

    each_deleted :
        (name service_id : Name) (o : Option Ip) (m : SetMatrix SvcMapEntry)
        → IsTight m
        → IsTight (each o (del_name_to_ip name service_id) m)
          × ((x : Name) (e : SvcMapEntry)
              → holds x e (each o (del_name_to_ip name service_id) m)
                ≡ (not (is_entry name service_id o x e) && holds x e m))
    unfolding del_name_to_ip
    each_deleted name service_id none m t = (t, (λ x e. refl))
    each_deleted name service_id (some ip) m t =
        let v : SvcMapEntry = record { ip = text.ip_string ip; service_id = service_id } in
        (
          IsTight-remove laws (text.to_lower name) v m t,
          (λ x e. holds-remove laws (text.to_lower name) x v e m),
        )

    map_at-put :
        (i j : Name) (sr : SvcInfo) (recs : SvcRecords) (ip_v6 : Bool)
        → map_at ip_v6 j (put i sr recs)
          ≡ (if same i j then map_of ip_v6 sr else map_at ip_v6 j recs)
    map_at-put i j sr recs ip_v6 =
        ap (λ o. map_found ip_v6 o) (lookup-put i j sr recs) ∙ by_key (same i j)
      where
        by_key :
            (here : Bool)
            → map_found ip_v6 (if here then some sr else lookup j recs)
              ≡ (if here then map_of ip_v6 sr else map_at ip_v6 j recs)
        by_key true = refl
        by_key false = refl

    -- A network gets new maps, whose entries are those that it had, changed where a call asks for it.
    Records-put :
        (k : Name) (sr : SvcInfo) (asked : Bool → Name → SvcMapEntry → Bool)
        (change : Bool → Bool → Bool) (recs : SvcRecords) (has : Entries)
        → ((b : Bool) → change false b ≡ b)
        → Records recs has
        → ((ip_v6 : Bool)
            → IsTight (map_of ip_v6 sr)
              × ((x : Name) (e : SvcMapEntry)
                  → holds x e (map_of ip_v6 sr)
                    ≡ change (asked ip_v6 x e) (holds x e (map_at ip_v6 k recs))))
        → Records
            (put k sr recs)
            (λ ip_v6 i x e. change (same k i && asked ip_v6 x e) (has ip_v6 i x e))
    Records-put k sr asked change recs has keeps h new ip_v6 i =
        subst
          (λ m.
            IsTight m
            × ((x : Name) (e : SvcMapEntry)
                → holds x e m ≡ change (same k i && asked ip_v6 x e) (has ip_v6 i x e)))
          (sym (map_at-put k i sr recs ip_v6)) (by_key (same k i) refl)
      where
        by_key :
            (here : Bool)
            → same k i ≡ here
            → let m = if here then map_of ip_v6 sr else map_at ip_v6 i recs in
              IsTight m
              × ((x : Name) (e : SvcMapEntry)
                  → holds x e m ≡ change (here && asked ip_v6 x e) (has ip_v6 i x e))
        by_key false apart =
            ((h ip_v6 i).0, (λ x e. (h ip_v6 i).1 x e ∙ sym (keeps (has ip_v6 i x e))))
        by_key true here =
            let is : k ≡ i = (same_iff k i).0 here in
            (
              (new ip_v6).0,
              (λ x e.
                  (new ip_v6).1 x e
                  ∙ ap (λ b. change (asked ip_v6 x e) b)
                      ((h ip_v6 k).1 x e ∙ ap (λ j. has ip_v6 j x e) is)),
            )

    Records-add :
        (n : Net) (name service_id : Name) (ip : Ip) (ipv6 : Option Ip) (u : Bool)
        (recs : SvcRecords) (has : Entries)
        → Records recs has
        → Records
            (add_svc_records n name service_id ip ipv6 u recs)
            (apply_entries (adding n name service_id ip ipv6 u) has)
    unfolding add_svc_records
    Records-add n name service_id ip ipv6 u recs has h = elim (Bool-cases n.ingress) [
      | inl ingress ↦ rw ingress h
      | inr routed ↦
          let o = λ (ip_v6 : Bool). (if ip_v6 then ipv6 else some ip) in
          rw routed (
            Records-put n.id
              (record_added name service_id ip ipv6 u (info_or_new (lookup n.id recs)))
              (λ ip_v6. is_entry name service_id (o ip_v6)) (λ a b. a || b) recs has (λ b. refl) h
              (λ ip_v6.
                subst
                  (λ m.
                    IsTight m
                    × ((x : Name) (e : SvcMapEntry)
                        → holds x e m ≡ (
                            is_entry name service_id (o ip_v6) x e
                            || holds x e (map_at ip_v6 n.id recs))))
                  (sym (map_of-added name service_id ip ipv6 u (lookup n.id recs) ip_v6))
                  (each_added name service_id (o ip_v6) (map_at ip_v6 n.id recs) (h ip_v6 n.id).0)))
    ]

    -- A network without records has no entry that a call could delete.
    nothing_there :
        (n : Net) (recs : SvcRecords) (has : Entries) (asked : Bool → Name → SvcMapEntry → Bool)
        → Records recs has
        → lookup n.id recs ≡ none
        → Records recs (λ ip_v6 i x e. not (same n.id i && asked ip_v6 x e) && has ip_v6 i x e)
    nothing_there n recs has asked h gone ip_v6 i =
        ((h ip_v6 i).0, (λ x e. (h ip_v6 i).1 x e ∙ kept x e (same n.id i) refl))
      where
        kept :
            (x : Name) (e : SvcMapEntry) (here : Bool)
            → same n.id i ≡ here
            → has ip_v6 i x e ≡ (not (here && asked ip_v6 x e) && has ip_v6 i x e)
        kept x e false apart = refl
        kept x e true here =
            let is : n.id ≡ i = (same_iff n.id i).0 here in
            let none_has : has ip_v6 i x e ≡ false =
              ap (λ j. has ip_v6 j x e) (sym is)
              ∙ sym ((h ip_v6 n.id).1 x e)
              ∙ ap (λ o. holds x e (map_found ip_v6 o)) gone
              ∙ holds-new x e in
            ground (arith, none_has)

    Records-delete :
        (n : Net) (name service_id : Name) (ip : Ip) (ipv6 : Option Ip) (u : Bool)
        (recs : SvcRecords) (has : Entries)
        → Records recs has
        → Records
            (delete_svc_records n name service_id ip ipv6 u recs)
            (apply_entries (deleting n name service_id ip ipv6 u) has)
    unfolding delete_svc_records deleted_from
    Records-delete n name service_id ip ipv6 u recs has h = elim (Bool-cases n.ingress) [
      | inl ingress ↦ rw ingress h
      | inr routed ↦
          let o = λ (ip_v6 : Bool). (if ip_v6 then ipv6 else some ip) in
          elim (Option-cases (lookup n.id recs)) [
            | inl gone ↦
                rw (routed, gone)
                  (nothing_there n recs has (λ ip_v6. is_entry name service_id (o ip_v6)) h gone)
            | inr (sr, there) ↦
                rw (routed, there)
                  (Records-put n.id (record_deleted name service_id ip ipv6 u sr)
                    (λ ip_v6. is_entry name service_id (o ip_v6)) (λ a b. not a && b) recs has
                    (λ b. refl) h
                    (λ ip_v6.
                      let at : map_at ip_v6 n.id recs ≡ map_of ip_v6 sr =
                        ap (λ f. map_found ip_v6 f) there in
                      subst
                        (λ m.
                          IsTight m
                          × ((x : Name) (e : SvcMapEntry)
                              → holds x e m ≡ (
                                  not (is_entry name service_id (o ip_v6) x e)
                                  && holds x e (map_at ip_v6 n.id recs))))
                        (ap (λ m. each (o ip_v6) (del_name_to_ip name service_id) m) at
                          ∙ sym (map_of-deleted name service_id ip ipv6 u sr ip_v6))
                        (each_deleted name service_id (o ip_v6) (map_at ip_v6 n.id recs)
                          (h ip_v6 n.id).0)))
          ]
    ]

    Records-call :
        (c : RecordCall) (recs : SvcRecords) (has : Entries)
        → Records recs has
        → Records (apply_call c recs) (apply_entries c has)
    Records-call (adding n name service_id ip ipv6 u) recs has h =
        Records-add n name service_id ip ipv6 u recs has h
    Records-call (deleting n name service_id ip ipv6 u) recs has h =
        Records-delete n name service_id ip ipv6 u recs has h

    pub Records-run :
        (calls : List RecordCall) (recs : SvcRecords) (has : Entries)
        → Records recs has
        → Records (run_calls calls recs) (run_entries calls has)
    Records-run [] recs has h = h
    Records-run (c ∷ calls) recs has h =
        Records-run calls (apply_call c recs) (apply_entries c has) (Records-call c recs has h)

  pub Records-none : Records [] (λ ip_v6 i x e. false)
  unfolding lookup
  Records-none ip_v6 i = (IsTight-new SvcMapEntry, holds-new)
