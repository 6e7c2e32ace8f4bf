-- ===== src/Setmatrix/Matrix/History.antt =====
-- internal/setmatrix/setmatrix.go: any calls of Insert and Remove, one after another.
use libnetwork.Prelude.{
  ◌==◌, ==_iff, ◌≡◌, ◌≢◌, ◌↔◌, refl, sym, ap, subst, ◌∙◌, Bool, true, false, not, ◌&&◌, ◌||◌,
  Option, none, some, List, [], ◌∷◌, arith, if◌then◌else◌, Bool-cases, inl, inr,
}
use libnetwork.Networkdb.Names.{Name, same, same_refl, lookup, put}
use libnetwork.Setmatrix.Sets.{Eq, SetOps, IsSetOps, count, beq_refl, cardinality_some, member_of}
use libnetwork.Setmatrix.Matrix.{
  SetMatrix, new_set_matrix, slice, get, contained, contains, inserted, insert, shrunk, removed,
  remove,
}
use libnetwork.Setmatrix.Matrix.Pairs.{
  holds, values, IsTight, set_of, left, lookup-insert, lookup-remove_absent, lookup-remove_present,
  holds-insert, holds-remove,
}

pub data Change (V : Type 0) : Type 0 where
  insertion removal : Name → V → Change V

-- A set of pairs.
abbrev pub Pairs : Type 0 → Type 0
Pairs V = Name → V → Bool

pub IsTight-new : (V : Type 0) ⦃e : Eq V⦄ ⦃sets : SetOps V⦄ → IsTight (new_set_matrix {V = V})
unfolding new_set_matrix lookup
IsTight-new V ⦃e⦄ ⦃sets⦄ key set at = cc

pub get-new : (V : Type 0) ⦃sets : SetOps V⦄ (key : Name) → get key (new_set_matrix {V = V}) ≡ none
unfolding get slice new_set_matrix lookup
get-new V key = refl

module _ {V : Type 0} ⦃e : Eq V⦄ where
  abbrev pub apply_pairs : Change V → Pairs V → Pairs V × Bool
  apply_pairs (insertion key value) pairs =
      ((λ j w. same key j && e.beq value w || pairs j w), not (pairs key value))
  apply_pairs (removal key value) pairs =
      ((λ j w. not (same key j && e.beq value w) && pairs j w), pairs key value)

  abbrev pub run_pairs : List (Change V) → Pairs V → Pairs V × List Bool
  run_pairs [] pairs = (pairs, [])
  run_pairs (c ∷ changes) pairs =
      let r = apply_pairs c pairs in let rest = run_pairs changes r.0 in (rest.0, r.1 ∷ rest.1)

module _ {V : Type 0} ⦃e : Eq V⦄ ⦃sets : SetOps V⦄ where
  -- A call, with the answer whether it changed the set.
  abbrev pub apply : Change V → SetMatrix V → SetMatrix V × Bool
  apply (insertion key value) m = let r = insert key value m in (r.0, r.1)
  apply (removal key value) m = let r = remove key value m in (r.0, r.1)

  abbrev pub run : List (Change V) → SetMatrix V → SetMatrix V × List Bool
  run [] m = (m, [])
  run (c ∷ changes) m = let r = apply c m in let rest = run changes r.0 in (rest.0, r.1 ∷ rest.1)

  pub holds-new : (key : Name) (value : V) → holds key value new_set_matrix ≡ false
  unfolding new_set_matrix lookup contains contained
  holds-new key value = refl

  module _ (laws : IsSetOps sets) where
    insert_new :
        (key : Name) (value : V) (m : SetMatrix V)
        → (insert key value m).1 ≡ not (holds key value m)
    unfolding insert inserted contains contained
    insert_new key value m = go (lookup key m.matrix)
      where
        go : (o : Option sets.Set) → (inserted key value m o).1 ≡ not (contained value o).0
        go none = refl
        go (some set) = laws.add_new value set

    remove_there :
        (key : Name) (value : V) (m : SetMatrix V) → (remove key value m).1 ≡ holds key value m
    unfolding remove removed shrunk contains contained
    remove_there key value m = go (lookup key m.matrix)
      where
        go : (o : Option sets.Set) → (removed key value m o).1 ≡ (contained value o).0
        go none = refl
        go (some set) = elim (Bool-cases (sets.contains value set)) [
          | inl there ↦ rw there refl
          | inr absent ↦ rw absent refl
        ]

    -- Of a matrix with one pair, Remove leaves no value of the key.
    pub remove-insert_new :
        (key : Name) (value : V) → (remove key value (insert key value new_set_matrix).0).2 ≡ 0
    unfolding remove removed shrunk insert inserted new_set_matrix lookup same put
    remove-insert_new key value =
        let set = (sets.add value sets.empty).0 in
        let there : sets.contains value set ≡ true =
          laws.contains-add value value sets.empty ∙ (rw (beq_refl value) refl) in
        rw (same_refl key, there)
          (elim (Bool-cases (sets.cardinality (sets.remove value set) == 0)) [
            | inl empty ↦ (==_iff _ _).0 empty
            | inr more ↦
                let (w, stays) =
                  member_of sets laws (sets.remove value set)
                    (λ z. let bad = (==_iff _ _).1 z in cc) in
                absurd (
                  ground (
                    arith,
                    stays,
                    laws.contains-remove value w set,
                    laws.contains-add value w sets.empty,
                    laws.contains-empty w,
                  ))
          ])

    pub IsTight-insert :
        (key : Name) (value : V) (m : SetMatrix V) → IsTight m → IsTight (insert key value m).0
    IsTight-insert key value m t j set at =
        by_key (same key j) (sym (lookup-insert key j value m) ∙ at)
      where
        by_key :
            (here : Bool)
            → (if here
                then some (sets.add value (set_of V (lookup key m.matrix))).0
                else lookup j m.matrix)
              ≡ some set
            → sets.cardinality set ≢ 0
        by_key false at = t j set at
        by_key true at =
            let is : (sets.add value (set_of V (lookup key m.matrix))).0 ≡ set = cc in
            cardinality_some sets laws value set (
              ap (λ s. sets.contains value s) (sym is)
              ∙ laws.contains-add value value (set_of V (lookup key m.matrix))
              ∙ (rw (beq_refl value) refl))

    pub IsTight-remove :
        (key : Name) (value : V) (m : SetMatrix V) → IsTight m → IsTight (remove key value m).0
    unfolding left
    IsTight-remove key value m t = elim (Bool-cases (holds key value m)) [
      | inr absent ↦ subst (λ m. IsTight m) (sym (lookup-remove_absent key value m absent)) t
      | inl present ↦ λ j set at.
          by_key j set (same key j) (sym (lookup-remove_present key j value m present) ∙ at)
    ]
      where
        by_key :
            (j : Name) (set : sets.Set) (here : Bool)
            → (if here
                then left V (sets.remove value (set_of V (lookup key m.matrix)))
                else lookup j m.matrix)
              ≡ some set
            → sets.cardinality set ≢ 0
        by_key j set false at = t j set at
        by_key j set true at =
            let rest = sets.remove value (set_of V (lookup key m.matrix)) in
            elim (Bool-cases (sets.cardinality rest == 0)) [
              | inl no_more ↦ absurd (
                  let bad : (let o : Option sets.Set = none in o ≡ some set) = rw no_more at at in
                  cc)
              | inr more ↦
                  let is : rest ≡ set =
                    (let same_set : some rest ≡ some set = rw more at at in cc) in
                  λ z.
                    absurd (
                      let bad : (sets.cardinality rest == 0) ≡ true = (==_iff _ _).1 (rw is z) in
                      cc)
            ]

    -- Get gives each value of a key once, and no slice exactly where the key has none.
    pub get_lem :
        (key : Name) (m : SetMatrix V)
        → IsTight m
        → ((value : V) → count value (values (get key m)) ≡ (if holds key value m then 1 else 0))
          × ((get key m ≡ none) ↔ ((value : V) → holds key value m ≡ false))
    unfolding get slice contains contained
    get_lem key m t = go (lookup key m.matrix) (λ set at. t key set at)
      where
        go :
            (o : Option sets.Set)
            → ((set : sets.Set) → o ≡ some set → sets.cardinality set ≢ 0)
            → ((value : V)
                → count value (values (slice {V = V} o)) ≡ (if (contained value o).0 then 1 else 0))
              × ((slice {V = V} o ≡ none) ↔ ((value : V) → (contained value o).0 ≡ false))
        go none tight = ((λ value. refl), ((λ h value. refl), (λ h. refl)))
        go (some set) tight = (
          (λ value. laws.count-to_slice value set),
          (
            (λ h. absurd (let bad : some (sets.to_slice set) ≡ none = h in cc)),
            (λ h.
                let (value, there) = member_of sets laws set (tight set refl) in
                absurd (let bad = h value in cc)),
          ),
        )

    apply_lem :
        (c : Change V) (m : SetMatrix V) (pairs : Pairs V)
        → IsTight m
        → ((j : Name) (w : V) → holds j w m ≡ pairs j w)
        → IsTight (apply c m).0
          × ((j : Name) (w : V) → holds j w (apply c m).0 ≡ (apply_pairs c pairs).0 j w)
          × ((apply c m).1 ≡ (apply_pairs c pairs).1)
    apply_lem (insertion key value) m pairs t h = (
      IsTight-insert key value m t,
      (λ j w.
          holds-insert laws key j value w m ∙ ap (λ b. same key j && e.beq value w || b) (h j w)),
      insert_new key value m ∙ ap not (h key value),
    )
    apply_lem (removal key value) m pairs t h = (
      IsTight-remove key value m t,
      (λ j w.
          holds-remove laws key j value w m
          ∙ ap (λ b. not (same key j && e.beq value w) && b) (h j w)),
      remove_there key value m ∙ h key value,
    )

    pub run-run_pairs :
        (changes : List (Change V)) (m : SetMatrix V) (pairs : Pairs V)
        → IsTight m
        → ((j : Name) (w : V) → holds j w m ≡ pairs j w)
        → IsTight (run changes m).0
          × ((j : Name) (w : V) → holds j w (run changes m).0 ≡ (run_pairs changes pairs).0 j w)
          × ((run changes m).1 ≡ (run_pairs changes pairs).1)
    run-run_pairs [] m pairs t h = (t, h, refl)
    run-run_pairs (c ∷ changes) m pairs t h =
        let (t', h', answer) = apply_lem c m pairs t h in
        let (t'', h'', answers) =
          run-run_pairs changes (apply c m).0 (apply_pairs c pairs).0 t' h' in
        (
          t'',
          h'',
          ap (λ b. b ∷ (run changes (apply c m).0).1) answer
              ∙ ap (λ bs. (apply_pairs c pairs).1 ∷ bs) answers,
        )

    -- With sets that satisfy their laws: after any calls of Insert and Remove on a new matrix, each
    -- has answered whether it changed the set of pairs that they describe, Contains says of each pair
    -- whether it is in that set, Get gives each value of a key once, and it gives no slice exactly for
    -- the keys with no pair.
    pub run-Pairs :
        (changes : List (Change V))
        → let r = run changes new_set_matrix in
          let s = run_pairs changes (λ j w. false) in
          (r.1 ≡ s.1)
          × ((key : Name) (value : V) → (contains key value r.0).0 ≡ s.0 key value)
          × ((key : Name) (value : V)
              → count value (values (get key r.0)) ≡ (if s.0 key value then 1 else 0))
          × ((key : Name) → (get key r.0 ≡ none) ↔ ((value : V) → s.0 key value ≡ false))
    unfolding new_set_matrix contains contained lookup
    run-Pairs changes =
        let (t, h, answers) =
          run-run_pairs changes new_set_matrix (λ j w. false) (λ key set at. cc) (λ j w. refl) in
        let m = (run changes new_set_matrix).0 in
        (
          answers,
          h,
          (λ key value. (get_lem key m t).0 value ∙ ap (λ b. if b then 1 else 0) (h key value)),
          (λ key.
              let (to, from) = (get_lem key m t).1 in
              (
                (λ gone value. sym (h key value) ∙ to gone value),
                (λ none. from (λ value. h key value ∙ none value)),
              )),
        )
