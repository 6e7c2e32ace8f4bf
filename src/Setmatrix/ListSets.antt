-- ===== src/Setmatrix/ListSets.antt =====
-- Lists as sets: the interface of golang-set can be met.
use libnetwork.Prelude.{
  ◌≡◌, refl, Bool, false, not, ◌||◌, List, [], ◌∷◌, arith, if◌then◌else◌, length,
}
use libnetwork.Setmatrix.Sets.{Eq, SetOps, IsSetOps, count}

module _ {V : Type 0} ⦃e : Eq V⦄ where
  unfoldable pub member : V → List V → Bool
  member v [] = false
  member v (w ∷ ws) = e.beq w v || member v ws

  -- The values but one.
  unfoldable pub dropping : V → List V → List V
  dropping v [] = []
  dropping v (w ∷ ws) = let rest = dropping v ws in if e.beq w v then rest else w ∷ rest

  -- Each value once.
  unfoldable pub distinct : List V → List V
  distinct [] = []
  distinct (w ∷ ws) = w ∷ dropping w (distinct ws)

  abbrev pub list_sets : SetOps V
  list_sets = record {
    Set = List V;
    empty = [];
    add = λ v s. (v ∷ s, not (member v s));
    remove = dropping;
    contains = member;
    cardinality = λ s. length (distinct s);
    to_slice = distinct;
  }

  member-dropping :
      (v w : V) (s : List V) → member w (dropping v s) ≡ (if e.beq v w then false else member w s)
  unfolding member dropping
  member-dropping v w [] = ground arith
  member-dropping v w (x ∷ xs) =
      ground (arith, e.beq_iff v w, e.beq_iff x v, e.beq_iff x w, member-dropping v w xs)

  count-dropping :
      (v w : V) (s : List V) → count w (dropping v s) ≡ (if e.beq v w then 0 else count w s)
  unfolding dropping
  count-dropping v w [] = ground arith
  count-dropping v w (x ∷ xs) =
      ground (arith, e.beq_iff v w, e.beq_iff x v, e.beq_iff x w, count-dropping v w xs)

  count-distinct : (v : V) (s : List V) → count v (distinct s) ≡ (if member v s then 1 else 0)
  unfolding distinct member
  count-distinct v [] = refl
  count-distinct v (x ∷ xs) =
      ground (arith, e.beq_iff x v, count-dropping x v (distinct xs), count-distinct v xs)

  pub list_sets-IsSetOps : IsSetOps list_sets
  unfolding member
  list_sets-IsSetOps = record {
    contains-empty = λ v. refl;
    contains-add = λ v w s. refl;
    add_new = λ v s. refl;
    contains-remove = λ v w s. ground (arith, member-dropping v w s);
    count-to_slice = count-distinct;
    cardinality_lem = λ s. refl;
  }
