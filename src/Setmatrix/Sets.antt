-- ===== src/Setmatrix/Sets.antt =====
-- What setmatrix uses of golang-set, as an interface: its operations, and the laws that its
-- documentation states.
use libnetwork.Prelude.{
  ℕ, ◌+◌, ◌≡◌, ◌≢◌, ◌↔◌, Bool, true, false, not, ◌&&◌, ◌||◌, List, [], ◌∷◌, arith, if◌then◌else◌,
  length, refl, sym, ◌∙◌,
}

-- Values that can be compared, as the keys of a Go map are.
pub record Eq (A : Type 0) : Type 0 where
  pub beq : A → A → Bool
  pub beq_iff : (a b : A) → (beq a b ≡ true) ↔ (a ≡ b)

-- NewSet, Add with its answer, Remove, Contains, Cardinality and ToSlice.
pub record SetOps (V : Type 0) : Type 1 where
  pub Set : Type 0
  pub empty : Set
  pub add : V → Set → Set × Bool
  pub remove : V → Set → Set
  pub contains : V → Set → Bool
  pub cardinality : Set → ℕ
  pub to_slice : Set → List V

module _ {V : Type 0} ⦃e : Eq V⦄ where
  -- How often a value stands in a slice.
  abbrev pub count : V → List V → ℕ
  count v [] = 0
  count v (w ∷ ws) = (if e.beq w v then 1 else 0) + count v ws

  -- A set holds each value at most once, and its slice each of its values once.
  pub record IsSetOps (sets : SetOps V) : Type 0 where
    pub contains-empty : (v : V) → sets.contains v sets.empty ≡ false
    pub contains-add :
        (v w : V) (s : sets.Set)
        → sets.contains w (sets.add v s).0 ≡ (e.beq v w || sets.contains w s)
    pub add_new : (v : V) (s : sets.Set) → (sets.add v s).1 ≡ not (sets.contains v s)
    pub contains-remove :
        (v w : V) (s : sets.Set)
        → sets.contains w (sets.remove v s) ≡ (not (e.beq v w) && sets.contains w s)
    pub count-to_slice :
        (v : V) (s : sets.Set) → count v (sets.to_slice s) ≡ (if sets.contains v s then 1 else 0)
    pub cardinality_lem : (s : sets.Set) → sets.cardinality s ≡ length (sets.to_slice s)

  pub beq_refl : (v : V) → e.beq v v ≡ true
  beq_refl v = (e.beq_iff v v).1 refl

  count_head : (v : V) (vs : List V) → count v (v ∷ vs) ≢ 0
  count_head v vs h =
      absurd
        (omega (arith, h, (let x : count v (v ∷ vs) ≡ 1 + count v vs = rw (beq_refl v) refl in x)))

  count_none : (v : V) (vs : List V) → length vs ≡ 0 → count v vs ≡ 0
  count_none v [] h = refl
  count_none v (w ∷ ws) h = absurd (omega arith)

  module _ (sets : SetOps V) (laws : IsSetOps sets) where
    -- A set of no elements contains nothing, and one that contains nothing has none.
    pub cardinality_none :
        (v : V) (s : sets.Set) → sets.cardinality s ≡ 0 → sets.contains v s ≡ false
    cardinality_none v s h = ground (
      arith,
      laws.count-to_slice v s,
      count_none v (sets.to_slice s) (sym (laws.cardinality_lem s) ∙ h),
    )

    pub cardinality_some :
        (v : V) (s : sets.Set) → sets.contains v s ≡ true → sets.cardinality s ≢ 0
    cardinality_some v s h none = absurd (let bad = cardinality_none v s none in cc)

    -- A set that has elements contains one of them.
    pub member_of : (s : sets.Set) → sets.cardinality s ≢ 0 → (v : V) × (sets.contains v s ≡ true)
    member_of s h = go (sets.to_slice s) refl
      where
        go : (vs : List V) → sets.to_slice s ≡ vs → (v : V) × (sets.contains v s ≡ true)
        go [] is = absurd (h (laws.cardinality_lem s ∙ (rw is refl)))
        go (v ∷ vs) is = (
          v,
          ground (
            arith,
            laws.count-to_slice v s,
            count_head v vs,
            (let x : count v (sets.to_slice s) ≡ count v (v ∷ vs) = rw is refl in x),
          ),
        )
