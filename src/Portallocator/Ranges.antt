-- ===== src/Portallocator/Ranges.antt =====
-- portallocator/portallocator.go: the known ranges of a port map.
use libnetwork.Prelude.{
  ℕ, ◌≤◌, ◌≡◌, refl, subst, inl, inr, some, List, [], ◌∷◌, arith, Bool-cases, All,
}
use mathlib.Core.Option.{some-injective}
use libnetwork.Portallocator.{PortRange, lookup_range, set_last, same_range}

-- The last port of a range lies in it.
abbrev pub IsRange : PortRange → Type 0
IsRange r = (r.begin ≤ r.last) × (r.last ≤ r.end)

-- A range is kept under the two bounds.
abbrev pub Knows : List PortRange → ℕ → ℕ → Type 0
Knows ranges begin end = (r : PortRange) × (lookup_range ranges begin end ≡ some r)

pub lookup_range_good :
    (ranges : List PortRange) (begin end : ℕ) (r : PortRange)
    → All IsRange ranges
    → lookup_range ranges begin end ≡ some r
    → IsRange r × (r.begin ≡ begin) × (r.end ≡ end)
unfolding lookup_range
lookup_range_good [] begin end r good e = cc
lookup_range_good (x ∷ ranges) begin end r good e = elim (Bool-cases (same_range begin end x)) [
  | inl same ↦
      let found : some x ≡ some r = rw same at e in
      subst (λ y. IsRange y × (y.begin ≡ begin) × (y.end ≡ end)) (some-injective _ _ found)
        (good.0, ground (arith, same), ground (arith, same))
  | inr other ↦
      let later : lookup_range ranges begin end ≡ some r = rw other at e in
      lookup_range_good ranges begin end r good.1 later
]

pub set_last-IsRange :
    (ranges : List PortRange) (begin end port : ℕ)
    → begin ≤ port
    → port ≤ end
    → All IsRange ranges
    → All IsRange (set_last ranges begin end port)
unfolding set_last
set_last-IsRange [] begin end port lo hi good = tt
set_last-IsRange (x ∷ ranges) begin end port lo hi good =
    elim (Bool-cases (same_range begin end x)) [
      | inl same ↦
          rw same (ground (arith, same), set_last-IsRange ranges begin end port lo hi good.1)
      | inr other ↦ rw other (good.0, set_last-IsRange ranges begin end port lo hi good.1)
    ]

pub set_last-Knows :
    (ranges : List PortRange) (x y port begin end : ℕ)
    → Knows ranges begin end
    → Knows (set_last ranges x y port) begin end
unfolding set_last lookup_range
set_last-Knows [] x y port begin end k = k
set_last-Knows (r ∷ ranges) x y port begin end k = elim (Bool-cases (same_range begin end r)) [
  | inl same ↦ elim (Bool-cases (same_range x y r)) [
    | inl this ↦ rw (this, same) (_, refl)
    | inr other ↦ rw (other, same) (_, refl)
  ]
  | inr apart ↦
      let rest = set_last-Knows ranges x y port begin end (rw apart at k) in
      elim (Bool-cases (same_range x y r)) [
        | inl this ↦ rw (this, apart) rest
        | inr other ↦ rw (other, apart) rest
      ]
]
