-- ===== src/Setmatrix/Matrix/Pairs.antt =====
-- internal/setmatrix/setmatrix.go: a matrix is a set of pairs of a key and a value.
use libnetwork.Prelude.{
  ◌==◌, ==_iff, ◌≡◌, ◌≢◌, refl, sym, ap, ◌∙◌, Bool, true, false, not, ◌&&◌, ◌||◌, Option, none,
  some, List, [], if◌then◌else◌, Bool-cases, Option-cases, inl, inr,
}
use libnetwork.Networkdb.Names.{Name, same, same_iff, lookup, lookup-put, lookup-remove}
use libnetwork.Setmatrix.Sets.{Eq, SetOps, IsSetOps, cardinality_none}
use libnetwork.Setmatrix.Matrix.{
  SetMatrix, contained, contains, inserted, insert, shrunk, removed, remove,
}

module _ (V : Type 0) ⦃sets : SetOps V⦄ where
  -- The set that a key has or would have.
  pub set_of : Option sets.Set → sets.Set
  set_of none = sets.empty
  set_of (some set) = set

  -- The set that a key has after a removal.
  unfoldable pub left : sets.Set → Option sets.Set
  left set = if sets.cardinality set == 0 then none else some set

module _ {V : Type 0} ⦃e : Eq V⦄ ⦃sets : SetOps V⦄ where
  -- Whether a pair is in the matrix.
  abbrev pub holds : Name → V → SetMatrix V → Bool
  holds key value m = (contains key value m).0

  -- What Get returns, without the answer that tells no set from none.
  abbrev pub values : Option (List V) → List V
  values none = []
  values (some vs) = vs

  -- No set of the matrix is empty.
  abbrev pub IsTight : SetMatrix V → Type 0
  IsTight m =
      (key : Name) (set : sets.Set) → lookup key m.matrix ≡ some set → sets.cardinality set ≢ 0

  pub lookup-insert :
      (key j : Name) (value : V) (m : SetMatrix V)
      → lookup j (insert key value m).0.matrix ≡ (
          if same key j
          then some (sets.add value (set_of V (lookup key m.matrix))).0
          else lookup j m.matrix)
  unfolding insert inserted set_of
  lookup-insert key j value m = elim (Option-cases (lookup key m.matrix)) [
    | inl gone ↦ rw gone (lookup-put key j (sets.add value sets.empty).0 m.matrix)
    | inr (set, there) ↦ rw there (lookup-put key j (sets.add value set).0 m.matrix)
  ]

  pub lookup-remove_absent :
      (key : Name) (value : V) (m : SetMatrix V)
      → holds key value m ≡ false
      → (remove key value m).0 ≡ m
  unfolding remove removed contains contained
  lookup-remove_absent key value m h = go (lookup key m.matrix) h
    where
      go : (o : Option sets.Set) → (contained value o).0 ≡ false → (removed key value m o).0 ≡ m
      go none h = refl
      go (some set) h = rw h refl

  pub lookup-remove_present :
      (key j : Name) (value : V) (m : SetMatrix V)
      → holds key value m ≡ true
      → lookup j (remove key value m).0.matrix ≡ (
          if same key j
          then left V (sets.remove value (set_of V (lookup key m.matrix)))
          else lookup j m.matrix)
  unfolding remove removed shrunk contains contained set_of left
  lookup-remove_present key j value m h = go (lookup key m.matrix) h
    where
      go :
          (o : Option sets.Set)
          → (contained value o).0 ≡ true
          → lookup j (removed key value m o).0.matrix
            ≡ (if same key j then left V (sets.remove value (set_of V o)) else lookup j m.matrix)
      go none h = absurd (let bad : false ≡ true = h in cc)
      go (some set) h = elim (Bool-cases (sets.cardinality (sets.remove value set) == 0)) [
        | inl no_more ↦ rw (h, no_more) (lookup-remove key j m.matrix)
        | inr more ↦ rw (h, more) (lookup-put key j (sets.remove value set) m.matrix)
      ]

  module _ (laws : IsSetOps sets) where
    contained-set_of :
        (value : V) (o : Option sets.Set) → sets.contains value (set_of V o) ≡ (contained value o).0
    unfolding set_of contained
    contained-set_of value none = laws.contains-empty value
    contained-set_of value (some set) = refl

    contained-left :
        (value : V) (set : sets.Set) → (contained value (left V set)).0 ≡ sets.contains value set
    unfolding left contained
    contained-left value set = elim (Bool-cases (sets.cardinality set == 0)) [
      | inl no_more ↦
          rw no_more (sym (cardinality_none sets laws value set ((==_iff _ _).0 no_more)))
      | inr more ↦ rw more refl
    ]

    -- Insert puts the pair in and changes no other.
    pub holds-insert :
        (key j : Name) (value w : V) (m : SetMatrix V)
        → holds j w (insert key value m).0 ≡ (same key j && e.beq value w || holds j w m)
    unfolding contains
    holds-insert key j value w m =
        ap (λ o. (contained w o).0) (lookup-insert key j value m) ∙ by_key (same key j) refl
      where
        by_key :
            (here : Bool)
            → same key j ≡ here
            → (contained w (
                if here
                then some (sets.add value (set_of V (lookup key m.matrix))).0
                else lookup j m.matrix)).0
              ≡ (here && e.beq value w || (contained w (lookup j m.matrix)).0)
        by_key false apart = refl
        by_key true here =
            unfold contained in
            let is : key ≡ j = (same_iff key j).0 here in
            laws.contains-add value w (set_of V (lookup key m.matrix))
            ∙ ap (λ b. e.beq value w || b)
                (contained-set_of w (lookup key m.matrix)
                  ∙ ap (λ i. (contained w (lookup i m.matrix)).0) is)

    -- Remove takes the pair out and changes no other.
    pub holds-remove :
        (key j : Name) (value w : V) (m : SetMatrix V)
        → holds j w (remove key value m).0 ≡ (not (same key j && e.beq value w) && holds j w m)
    unfolding contains
    holds-remove key j value w m = elim (Bool-cases (holds key value m)) [
      | inr absent ↦
          ap (λ m. holds j w m) (lookup-remove_absent key value m absent)
          ∙ unchanged absent (same key j) refl (e.beq value w) refl
      | inl present ↦
          ap (λ o. (contained w o).0) (lookup-remove_present key j value m present)
          ∙ by_key (same key j) refl
    ]
      where
        unchanged :
            holds key value m ≡ false
            → (a : Bool) → same key j ≡ a
            → (b : Bool) → e.beq value w ≡ b
            → holds j w m ≡ (not (a && b) && holds j w m)
        unchanged absent false is b is' = refl
        unchanged absent true is false is' = refl
        unchanged absent true is true is' =
            sym (ap (λ i. holds i w m) ((same_iff key j).0 is))
            ∙ sym (ap (λ v. holds key v m) ((e.beq_iff value w).0 is'))
            ∙ absent

        by_key :
            (here : Bool)
            → same key j ≡ here
            → (contained w (
                if here
                then left V (sets.remove value (set_of V (lookup key m.matrix)))
                else lookup j m.matrix)).0
              ≡ (not (here && e.beq value w) && (contained w (lookup j m.matrix)).0)
        by_key false apart = refl
        by_key true here =
            let is : key ≡ j = (same_iff key j).0 here in
            contained-left w (sets.remove value (set_of V (lookup key m.matrix)))
            ∙ laws.contains-remove value w (set_of V (lookup key m.matrix))
            ∙ ap (λ b. not (e.beq value w) && b)
                (contained-set_of w (lookup key m.matrix)
                  ∙ ap (λ i. (contained w (lookup i m.matrix)).0) is)
