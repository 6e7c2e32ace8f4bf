-- ===== src/Portallocator/Search.antt =====
-- portallocator/portallocator.go: the search of findPort goes once around its range.
use libnetwork.Prelude.{
  ℕ, zero, suc, ◌+◌, ◌-◌, ◌≤◌, ◌<◌, ◌≡◌, ◌⊎◌, refl, true, false, inl, inr, none, some, List, arith,
  ltb, if◌then◌else◌, Bool-cases,
}
use libnetwork.Portallocator.{has_port, next_port, search_ports}

-- The steps from a port to another one of the range.
abbrev pub steps : ℕ → ℕ → ℕ → ℕ → ℕ
steps begin end port q = if ltb port q then q - port else end + 1 - port + (q - begin)

steps_next :
    (begin end port q : ℕ)
    → begin ≤ port
    → port ≤ end
    → begin ≤ q
    → q ≤ end
    → let c = next_port begin end port in
      ((q ≡ c) × (steps begin end port q ≡ 1)) ⊎ (steps begin end port q ≡ steps begin end c q + 1)
steps_next begin end port q lo hi a b = elim (Bool-cases (ltb end (port + 1))) [
  | inl wraps ↦ ground arith
  | inr inside ↦ ground arith
]

next_port-bounds :
    (begin end port : ℕ)
    → begin ≤ port
    → port ≤ end
    → (begin ≤ next_port begin end port) × (next_port begin end port ≤ end)
next_port-bounds begin end port lo hi = ground arith

-- The first free port behind `port` is found, or every port within the rounds is taken.
pub search_ports_around :
    (begin end rounds : ℕ) (ports : List ℕ) (port : ℕ)
    → begin ≤ port
    → port ≤ end
    → ((q : ℕ) × (search_ports begin end rounds ports port ≡ some q)
        × (begin ≤ q)
        × (q ≤ end)
        × (has_port ports q ≡ false)
        × ((r : ℕ)
            → begin ≤ r
            → r ≤ end
            → steps begin end port r < steps begin end port q
            → has_port ports r ≡ true))
      ⊎ ((search_ports begin end rounds ports port ≡ none)
          × ((q : ℕ)
              → begin ≤ q
              → q ≤ end
              → steps begin end port q ≤ rounds
              → has_port ports q ≡ true))
unfolding search_ports
search_ports_around begin end zero ports port lo hi = inr (refl, λ q a b c. absurd (ground arith))
search_ports_around begin end (suc rounds) ports port lo hi =
    let c = next_port begin end port in
    elim (Bool-cases (has_port ports c)) [
      | inr free ↦
          rw (search_ports, free)
            (inl (c, refl, ground arith, ground arith, free, λ r a b less. absurd (ground arith)))
      | inl busy ↦
          let (lo', hi') = next_port-bounds begin end port lo hi in
          rw (search_ports, busy)
            (elim (search_ports_around begin end rounds ports c lo' hi') [
              | inl (q, e, a, b, free, before) ↦ inl (
                q,
                e,
                a,
                b,
                free,
                λ r x y less. elim (steps_next begin end port r lo hi x y) [
                  | inl (at, one) ↦ rw at busy
                  | inr later ↦
                      before r x y
                        (ground (arith, steps_next begin end port q lo hi a b, less, later))
                ],
              )
              | inr (e, all) ↦ inr (
                e,
                λ q x y near. elim (steps_next begin end port q lo hi x y) [
                  | inl (at, one) ↦ rw at busy
                  | inr later ↦ all q x y (omega arith)
                ],
              )
            ])
    ]

-- The search of a whole range finds a free port of it, or every port of it is taken.
pub search_range :
    (begin end : ℕ) (ports : List ℕ) (last : ℕ)
    → begin ≤ last
    → last ≤ end
    → let r = search_ports begin end (end + 1 - begin) ports last in
      ((q : ℕ) × (r ≡ some q) × (begin ≤ q) × (q ≤ end) × (has_port ports q ≡ false))
      ⊎ ((r ≡ none) × ((q : ℕ) → begin ≤ q → q ≤ end → has_port ports q ≡ true))
search_range begin end ports last lo hi =
    elim (search_ports_around begin end (end + 1 - begin) ports last lo hi) [
      | inl (q, e, a, b, free, before) ↦ inl (q, e, a, b, free)
      | inr (e, all) ↦ inr (e, λ q a b. all q a b (ground arith))
    ]
