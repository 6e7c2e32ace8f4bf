-- ===== src/Discovery/Resolve/Answers.antt =====
-- network.go: what ResolveName answers.
use libnetwork.Prelude.{
  ℕ, ◌≡◌, ◌≢◌, ◌↔◌, refl, sym, ap, ◌∙◌, Bool, true, false, not, ◌&&◌, ◌||◌, Option, none, some,
  List, [], ◌∷◌, arith, if◌then◌else◌, map, Bool-cases, inl, inr,
}
use libnetwork.Networkdb.Names.{Name, same, same_iff, same_refl, lookup}
use libnetwork.Ipam.Net.{Ip}
use libnetwork.Setmatrix.Sets.{SetOps, IsSetOps, count}
use libnetwork.Setmatrix.Matrix.{get}
use libnetwork.Setmatrix.Matrix.Pairs.{values}
use libnetwork.Setmatrix.Matrix.History.{get_lem, get-new}
use libnetwork.Discovery.Text.{Text}
use libnetwork.Discovery.Records.{SvcMapEntry, IpInfo, Net, SvcInfo, SvcRecords}
use libnetwork.Discovery.Records.Named.{
  entry_eq, RecordCall, Entries, run_entries, run_calls, map_found, map_at, Records, Records-run,
  Records-none,
}
use libnetwork.Discovery.Resolve.{
  is_seen, addresses, is_found, answer, query_name, resolved, resolve_name,
}

-- No name stands twice.
abbrev pub Unrepeated : List Name → Type 0
Unrepeated [] = Unit
Unrepeated (x ∷ xs) = (is_seen x xs ≡ false) × Unrepeated xs

-- Whether an entry has an address.
has_address : Name → List SvcMapEntry → Bool
has_address ip [] = false
has_address ip (e ∷ es) = same e.ip ip || has_address ip es

addresses_seen :
    (ip : Name) (seen : List Name) (es : List SvcMapEntry)
    → is_seen ip (addresses seen es) ≡ (not (is_seen ip seen) && has_address ip es)
unfolding addresses is_seen has_address
addresses_seen ip seen [] = ground arith
addresses_seen ip seen (e ∷ es) =
    ground (arith, same_iff e.ip ip, addresses_seen ip seen es, addresses_seen ip (e.ip ∷ seen) es)

addresses-Unrepeated : (seen : List Name) (es : List SvcMapEntry) → Unrepeated (addresses seen es)
unfolding addresses is_seen
addresses-Unrepeated seen [] = tt
addresses-Unrepeated seen (e ∷ es) = elim (Bool-cases (is_seen e.ip seen)) [
  | inl again ↦ rw again (addresses-Unrepeated seen es)
  | inr first ↦ rw first (
    addresses_seen e.ip (e.ip ∷ seen) es ∙ (rw (same_refl e.ip) refl),
    addresses-Unrepeated (e.ip ∷ seen) es,
  )
]

-- An address is that of an entry with some service.
entry_of :
    (ip : Name) (es : List SvcMapEntry)
    → has_address ip es ≡ true
    → (sid : Name) × (count (record { ip = ip; service_id = sid }) es ≢ 0)
unfolding has_address
entry_of ip [] h = absurd (let bad : false ≡ true = h in cc)
entry_of ip (e ∷ es) h = elim (Bool-cases (same e.ip ip)) [
  | inl here ↦ (e.service_id, ground (arith, same_refl e.service_id))
  | inr apart ↦ let (sid, there) = entry_of ip es (ground arith) in (sid, ground (arith, there))
]

address_of :
    (ip sid : Name) (es : List SvcMapEntry)
    → count (record { ip = ip; service_id = sid }) es ≢ 0
    → has_address ip es ≡ true
unfolding has_address
address_of ip sid [] h = absurd (h refl)
address_of ip sid (e ∷ es) h = ground (arith, address_of ip sid es)

positive : (b : Bool) → (let n : ℕ = if b then 1 else 0 in n ≢ 0) → b ≡ true
positive true h = refl
positive false h = absurd (h refl)

-- Of entries that stand once each, the addresses are those of some service.
exact_lem :
    (ip : Name) (es : List SvcMapEntry) (there : SvcMapEntry → Bool)
    → ((e : SvcMapEntry) → count e es ≡ (if there e then 1 else 0))
    → (is_seen ip (addresses [] es) ≡ true)
      ↔ ((sid : Name) × (there (record { ip = ip; service_id = sid }) ≡ true))
unfolding is_seen
exact_lem ip es there once = (
  (λ h.
      let (sid, ne) = entry_of ip es (sym (addresses_seen ip [] es) ∙ h) in
      let e : SvcMapEntry = record { ip = ip; service_id = sid } in
      (sid, positive (there e) (λ z. ne (once e ∙ z)))),
  (λ (sid, h).
      addresses_seen ip [] es
      ∙ address_of ip sid es (λ z.
        let e : SvcMapEntry = record { ip = ip; service_id = sid } in
        absurd (
          omega (
            arith,
            once e,
            z,
            (let one : (let n : ℕ = if there e then 1 else 0 in n ≡ 1) = rw h refl in one),
          )))),
)

missed :
    (ip_v6 enabled : Bool) (o : Option (List SvcMapEntry)) (P : Type 0)
    → ((o ≡ none) ↔ P)
    → ((ip_v6 && (is_found o && not enabled)) ≡ true) ↔ ((ip_v6 ≡ true) × (enabled ≡ false) × ¬ P)
unfolding is_found
missed false enabled o P iff = (
  (λ h. absurd (let bad : false ≡ true = h in cc)),
  (λ (h, e, n). absurd (let bad : false ≡ true = h in cc)),
)
missed true true none P iff = (
  (λ h. absurd (let bad : false ≡ true = h in cc)),
  (λ (h, e, n). absurd (let bad : true ≡ false = e in cc)),
)
missed true true (some es) P iff = (
  (λ h. absurd (let bad : false ≡ true = h in cc)),
  (λ (h, e, n). absurd (let bad : true ≡ false = e in cc)),
)
missed true false none P iff =
    ((λ h. absurd (let bad : false ≡ true = h in cc)), (λ (h, e, n). absurd (n (iff.0 refl))))
missed true false (some es) P iff =
    ((λ h. (refl, refl, (λ p. let bad = iff.1 p in cc))), (λ h. refl))

module _ ⦃text : Text⦄ ⦃entries : SetOps SvcMapEntry⦄ ⦃infos : SetOps IpInfo⦄ where
  -- What is answered for a name, given the entries that the networks have.
  pub record Answers (has : Entries) (n : Net) (req : Name) (ip_v6 : Bool)
      (r : List (Option Ip) × Bool) : Type 0 where
    pub ips : List Name
    pub unrepeated : Unrepeated ips
    pub parsed : r.0 ≡ map text.parse_ip ips
    pub exact :
        (ip : Name)
        → (is_seen ip ips ≡ true) ↔ (
            (sid : Name) × (has ip_v6 n.id (query_name req) (record { ip = ip; service_id = sid })
              ≡ true))
    pub some_found : ips ≢ [] → r.1 ≡ true
    pub none_found :
        ips ≡ []
        → (r.1 ≡ true) ↔ (
            (ip_v6 ≡ true)
            × (n.enable_ipv6 ≡ false)
            × ¬ ((e : SvcMapEntry) → has false n.id (query_name req) e ≡ false))

  answer_lem :
      (o : Option (List SvcMapEntry)) (miss : Bool)
      → ((answer o miss).0 ≡ map text.parse_ip (addresses [] (values o)))
        × (addresses [] (values o) ≢ [] → (answer o miss).1 ≡ true)
        × (addresses [] (values o) ≡ [] → (answer o miss).1 ≡ miss)
  unfolding answer addresses is_seen
  answer_lem none miss = (refl, (λ h. absurd (h refl)), (λ h. refl))
  answer_lem (some []) miss = (refl, (λ h. absurd (h refl)), (λ h. refl))
  answer_lem (some (e ∷ es)) miss = (refl, (λ h. refl), (λ h. cc))

  resolved_lem :
      (n : Net) (req : Name) (ip_v6 : Bool) (o : Option SvcInfo)
      → resolved n req ip_v6 o
        ≡ answer
            (get (query_name req) (map_found ip_v6 o))
            (ip_v6 && (is_found (get (query_name req) (map_found false o)) && not n.enable_ipv6))
  unfolding resolved answer is_found
  resolved_lem n req true none = rw (get-new SvcMapEntry (query_name req)) refl
  resolved_lem n req false none = rw (get-new SvcMapEntry (query_name req)) refl
  resolved_lem n req true (some sr) = refl
  resolved_lem n req false (some sr) = refl

  module _ (laws : IsSetOps entries) where
    resolve_name-Answers :
        (recs : SvcRecords) (has : Entries) (n : Net) (req : Name) (ip_v6 : Bool)
        → Records recs has
        → Answers has n req ip_v6 (resolve_name n req ip_v6 recs)
    unfolding resolve_name
    resolve_name-Answers recs has n req ip_v6 h =
        let x = query_name req in
        let m = map_at ip_v6 n.id recs in
        let (tight, at) = h ip_v6 n.id in
        let (tight4, at4) = h false n.id in
        let (once, whether) = get_lem laws x m tight in
        let (once4, whether4) = get_lem laws x (map_at false n.id recs) tight4 in
        let miss = ip_v6 && (is_found (get x (map_at false n.id recs)) && not n.enable_ipv6) in
        let (is, full, empty) = answer_lem (get x m) miss in
        let whole = resolved_lem n req ip_v6 (lookup n.id recs) in
        record {
          ips = addresses [] (values (get x m));
          unrepeated = addresses-Unrepeated [] (values (get x m));
          parsed = ap (λ r. r.0) whole ∙ is;
          exact = λ ip.
              exact_lem ip (values (get x m)) (λ e. has ip_v6 n.id x e)
                (λ e. once e ∙ ap (λ b. if b then 1 else 0) (at x e));
          some_found = λ h. ap (λ r. r.1) whole ∙ full h;
          none_found = λ h.
              let answered : (resolve_name n req ip_v6 recs).1 ≡ miss =
                ap (λ r. r.1) whole ∙ empty h in
              let (to, from) =
                missed ip_v6 n.enable_ipv6 (get x (map_at false n.id recs))
                  ((e : SvcMapEntry) → has false n.id x e ≡ false)
                  (
                    (λ none e. sym (at4 x e) ∙ whether4.0 none e),
                    (λ no. whether4.1 (λ e. at4 x e ∙ no e)),
                  ) in
              ((λ yes. to (sym answered ∙ yes)), (λ yes. answered ∙ from yes));
        }

    -- With sets that satisfy their laws: after any calls of addSvcRecords and deleteSvcRecords on any
    -- networks, from no records on, ResolveName answers a name with the addresses of exactly the
    -- entries that were added to the network under the name, in lower case, and not deleted since, each
    -- address once, and with true if there are any. With no address, it answers with true exactly for
    -- a query of IPv6 addresses on a network without IPv6 that has an IPv4 entry of the name.
    pub resolve_name-run_calls :
        (calls : List RecordCall) (n : Net) (req : Name) (ip_v6 : Bool)
        → Answers
            (run_entries calls (λ v i x e. false))
            n
            req
            ip_v6
            (resolve_name n req ip_v6 (run_calls calls []))
    resolve_name-run_calls calls n req ip_v6 =
        resolve_name-Answers (run_calls calls []) (run_entries calls (λ v i x e. false)) n req ip_v6
          (Records-run laws calls [] (λ v i x e. false) Records-none)
