-- ===== src/Portallocator/Requests.antt =====
-- portallocator/portallocator.go: what RequestPortInRange and ReleasePort do to the ports of a map.
use libnetwork.Prelude.{
  ℕ, ◌≤◌, ◌<◌, ◌≡◌, ◌⊎◌, refl, ap, subst, ◌∙◌, true, false, not, ◌&&◌, ◌||◌, inl, inr, List, [],
  ◌∷◌, arith, ltb, ◌==◌, Bool-cases, Option-cases, All,
}
use libnetwork.Prelude.Result.{Result, ok, err}
use libnetwork.Portallocator.{
  new_port_range, PortError, all_ports_allocated, port_already_allocated, invalid_port_range,
  PortRange, PortMap, has_port, delete_port, get_port_range, known_range, lookup_range, take_port,
  in_range, find_port, request_port_in_range,
}
use libnetwork.Portallocator.Search.{search_range}
use libnetwork.Portallocator.Ranges.{
  IsRange, Knows, lookup_range_good, set_last-IsRange, set_last-Knows,
}

-- The last port of every known range lies in it, and the default range is known.
pub record IsPortMap (pm : PortMap) : Type 0 where
  pub ranges : All IsRange pm.port_ranges
  pub default : Knows pm.port_ranges pm.default_begin pm.default_end

-- `g` is `pm` with the port, which was free, in the set.
pub record Takes (pm : PortMap) (port : ℕ) (g : PortMap) : Type 0 where
  pub was_free : has_port pm.p port ≡ false
  pub ports : (q : ℕ) → has_port g.p q ≡ (q == port || has_port pm.p q)
  pub valid : IsPortMap g

-- The answer of a search in the range from `lo` to `hi`.
abbrev pub Searches : PortMap → ℕ → ℕ → PortMap × Result PortError ℕ → Type 0
Searches pm lo hi r =
    ((port : ℕ) × (r.1 ≡ ok port) × (lo ≤ port) × (port ≤ hi) × Takes pm port r.0)
    ⊎ ((r.1 ≡ err all_ports_allocated)
        × (r.0.p ≡ pm.p)
        × IsPortMap r.0
        × ((q : ℕ) → lo ≤ q → q ≤ hi → has_port pm.p q ≡ true))

has_port_cons :
    (ports : List ℕ) (port q : ℕ) → has_port (port ∷ ports) q ≡ (q == port || has_port ports q)
has_port_cons ports port q = ground arith

in_range-Searches :
    (pm g : PortMap) (r : PortRange)
    → g.p ≡ pm.p
    → IsPortMap g
    → IsRange r
    → Searches pm r.begin r.end (in_range (g, ok r))
unfolding in_range take_port
in_range-Searches pm g r same v (lo, hi) = elim (search_range r.begin r.end g.p r.last lo hi) [
  | inl (q, e, a, b, free) ↦ rw e (
      inl (
        q,
        refl,
        a,
        b,
        record {
          was_free = subst (λ ports. has_port ports q ≡ false) same free;
          ports = λ k. has_port_cons g.p q k ∙ ap (λ ports. k == q || has_port ports k) same;
          valid = record {
            ranges = set_last-IsRange g.port_ranges r.begin r.end q a b v.ranges;
            default =
                set_last-Knows g.port_ranges r.begin r.end q g.default_begin g.default_end
                  v.default;
          };
        },
      ))
  | inr (e, all) ↦ rw e (
      inr (
        refl,
        same,
        v,
        subst (λ ports. (q : ℕ) → r.begin ≤ q → q ≤ r.end → has_port ports q ≡ true) same all,
      ))
]

-- A search that starts from a range whose bounds are these.
range-Searches :
    (pm g : PortMap) (r : PortRange) (lo hi : ℕ)
    → g.p ≡ pm.p
    → IsPortMap g
    → IsRange r
    → r.begin ≡ lo
    → r.end ≡ hi
    → Searches pm lo hi (in_range (g, ok r))
range-Searches pm g r lo hi same v good b e =
    subst (λ y. Searches pm lo y (in_range (g, ok r))) e
      (subst (λ x. Searches pm x r.end (in_range (g, ok r))) b
        (in_range-Searches pm g r same v good))

new_range-IsPortMap :
    (pm : PortMap) (lo hi : ℕ)
    → IsPortMap pm
    → lo ≤ hi
    → IsPortMap
        (record pm { port_ranges = record { begin = lo; end = hi; last = hi } ∷ pm.port_ranges })
unfolding lookup_range
new_range-IsPortMap pm lo hi v le = record {
  ranges = ((le, omega arith), v.ranges);
  default = elim (Bool-cases (lo == pm.default_begin && hi == pm.default_end)) [
    | inl same ↦ (record { begin = lo; end = hi; last = hi }, rw same refl)
    | inr other ↦ (v.default.0, rw other v.default.1)
  ];
}

known-Searches :
    (pm : PortMap) (lo hi : ℕ)
    → IsPortMap pm
    → lo < hi
    → Searches pm lo hi (in_range (known_range pm lo hi (lookup_range pm.port_ranges lo hi)))
unfolding known_range new_port_range
known-Searches pm lo hi v lt = elim (Option-cases (lookup_range pm.port_ranges lo hi)) [
  | inl e ↦ rw e (
      range-Searches pm _ _ lo hi refl (new_range-IsPortMap pm lo hi v (omega arith))
        (omega arith, omega arith) refl refl)
  | inr (r, e) ↦
      let (good, b, f) = lookup_range_good pm.port_ranges lo hi r v.ranges e in
      rw e (range-Searches pm pm r lo hi refl v good b f)
]

default-Searches :
    (pm : PortMap)
    → IsPortMap pm
    → Searches pm pm.default_begin pm.default_end (
        in_range (known_range pm 0 0 (lookup_range pm.port_ranges pm.default_begin pm.default_end)))
unfolding known_range
default-Searches pm v =
    let (r, e) = v.default in
    let (good, b, f) =
      lookup_range_good pm.port_ranges pm.default_begin pm.default_end r v.ranges e in
    rw e (range-Searches pm pm r pm.default_begin pm.default_end refl v good b f)

-- On a port map whose default range is known and whose ranges each hold their last port,
-- RequestPortInRange takes a single port that is asked for, or refuses it where it is taken; it
-- searches the default range for bounds of 0, and the range asked for otherwise, taking a free port of
-- it or failing exactly where all are taken; it refuses bounds that are no range.
pub request_port_in_range_cases :
    (s e : ℕ) (pm : PortMap)
    → IsPortMap pm
    → let r = request_port_in_range s e pm in
      ((0 < s) × (s ≡ e) × (has_port pm.p s ≡ true) × (r ≡ (pm, err port_already_allocated)))
      ⊎ (((0 < s) × (s ≡ e) × (r.1 ≡ ok s) × Takes pm s r.0)
          ⊎ (((s ≡ 0) × (e ≡ 0) × Searches pm pm.default_begin pm.default_end r)
              ⊎ (((0 < s) × (s < e) × Searches pm s e r)
                  ⊎ ((((s ≡ 0) × (0 < e)) ⊎ (e < s)) × (r ≡ (pm, err invalid_port_range))))))
unfolding request_port_in_range find_port get_port_range
request_port_in_range_cases s e pm v = elim (Bool-cases (ltb 0 s && s == e)) [
  | inl single ↦ rw single (elim (Bool-cases (has_port pm.p s)) [
    | inl busy ↦ rw busy (inl (ground arith, ground arith, refl, refl))
    | inr free ↦ rw free (
        inr (
          inl (
            ground arith,
            ground arith,
            refl,
            record {
              was_free = free;
              ports = λ q. has_port_cons pm.p s q;
              valid = record { ranges = v.ranges; default = v.default };
            },
          )))
  ])
  | inr many ↦ rw many (elim (Bool-cases (s == 0 && e == 0)) [
    | inl zeros ↦
        let s0 : s ≡ 0 = ground (arith, zeros) in
        let e0 : e ≡ 0 = ground (arith, zeros) in
        rw (s0, e0) (inr (inr (inl (refl, refl, default-Searches pm v))))
    | inr some_bound ↦
        rw some_bound (elim (Bool-cases (s == e || (s == 0 || (e == 0 || ltb e s)))) [
          | inl bad ↦ rw bad (
              inr (
                inr (inr (inr (ground (arith, many, some_bound, bad), (unfold in_range in refl))))))
          | inr good ↦ rw good (
              inr (
                inr (
                  inr (
                    inl (
                      ground (arith, good),
                      ground (arith, good),
                      known-Searches pm s e v (ground (arith, good)),
                    )))))
        ])
  ])
]

pub has_port_deleted :
    (ports : List ℕ) (port q : ℕ)
    → has_port (delete_port ports port) q ≡ (not (q == port) && has_port ports q)
unfolding delete_port
has_port_deleted [] port q = ground arith
has_port_deleted (x ∷ ports) port q = elim (Bool-cases (x == port)) [
  | inl same ↦ rw same (ground (arith, has_port_deleted ports port q, same))
  | inr other ↦ rw other (ground (arith, has_port_deleted ports port q, other))
]
