-- ===== src/Discovery/Maps.antt =====
-- Go maps with keys that can be compared.
use libnetwork.Prelude.{
  ◌≡◌, ◌≢◌, ◌⊎◌, refl, sym, ◌∙◌, subst, Bool, true, false, Option, none, some, List, [], ◌∷◌, arith,
  if◌then◌else◌, All, Bool-cases, inl, inr,
}
use mathlib.Core.Option.{some-injective}
use libnetwork.Setmatrix.Sets.{Eq}

module _ {K V : Type 0} ⦃e : Eq K⦄ where
  unfoldable pub find : K → List (K × V) → Option V
  find k [] = none
  find k ((j, v) ∷ m) = if e.beq j k then some v else find k m

  unfoldable pub put : K → V → List (K × V) → List (K × V)
  put k v [] = (k, v) ∷ []
  put k v ((j, w) ∷ m) = if e.beq j k then (k, v) ∷ m else (j, w) ∷ put k v m

  unfoldable pub remove : K → List (K × V) → List (K × V)
  remove k [] = []
  remove k ((j, w) ∷ m) = let rest = remove k m in if e.beq j k then rest else (j, w) ∷ rest

  pub find-put :
      (k j : K) (v : V) (m : List (K × V))
      → find j (put k v m) ≡ (if e.beq k j then some v else find j m)
  unfolding find put
  find-put k j v [] = refl
  find-put k j v ((i, w) ∷ m) =
      ground (arith, e.beq_iff k j, e.beq_iff i k, e.beq_iff i j, find-put k j v m)

  pub find-remove :
      (k j : K) (m : List (K × V)) → find j (remove k m) ≡ (if e.beq k j then none else find j m)
  unfolding find remove
  find-remove k j [] = ground arith
  find-remove k j ((i, w) ∷ m) =
      ground (arith, e.beq_iff k j, e.beq_iff i k, e.beq_iff i j, find-remove k j m)

  pub put-ne-nil : (k : K) (v : V) (m : List (K × V)) → put k v m ≢ []
  unfolding put
  put-ne-nil k v [] h = cc
  put-ne-nil k v ((j, w) ∷ m) h = elim (Bool-cases (e.beq j k)) [
    | inl here ↦ absurd (let bad : (k, v) ∷ m ≡ [] = rw here at h in cc)
    | inr apart ↦ absurd (let bad : (j, w) ∷ put k v m ≡ [] = rw apart at h in cc)
  ]

  pub All-put :
      (P : V → Type 0) (k : K) (v : V) (m : List (K × V))
      → P v
      → All (λ (entry : K × V). P entry.1) m
      → All (λ (entry : K × V). P entry.1) (put k v m)
  unfolding put
  All-put P k v [] p all = (p, tt)
  All-put P k v ((j, w) ∷ m) p (q, all) = elim (Bool-cases (e.beq j k)) [
    | inl here ↦ rw here (p, all)
    | inr apart ↦ rw apart (q, All-put P k v m p all)
  ]

  pub All-remove :
      (P : V → Type 0) (k : K) (m : List (K × V))
      → All (λ (entry : K × V). P entry.1) m
      → All (λ (entry : K × V). P entry.1) (remove k m)
  unfolding remove
  All-remove P k [] all = tt
  All-remove P k ((j, w) ∷ m) (q, all) = elim (Bool-cases (e.beq j k)) [
    | inl here ↦ rw here (All-remove P k m all)
    | inr apart ↦ rw apart (q, All-remove P k m all)
  ]

  pub remove-put : (k : K) (v : V) (m : List (K × V)) → remove k (put k v m) ≡ remove k m
  unfolding remove put
  remove-put k v [] = rw ((e.beq_iff k k).1 refl) refl
  remove-put k v ((j, w) ∷ m) = ground (arith, e.beq_iff k k, remove-put k v m)

  pub find-All :
      (P : V → Type 0) (k : K) (v : V) (m : List (K × V))
      → All (λ (entry : K × V). P entry.1) m
      → find k m ≡ some v
      → P v
  unfolding find
  find-All P k v [] all h = absurd (let bad : (let o : Option V = none in o ≡ some v) = h in cc)
  find-All P k v ((j, w) ∷ m) (q, all) h = elim (Bool-cases (e.beq j k)) [
    | inl here ↦ let is : w ≡ v = (let s : some w ≡ some v = rw here at h in cc) in subst P is q
    | inr apart ↦ find-All P k v m all (rw apart at h)
  ]

  pub found-put :
      (k j : K) (v w : V) (m : List (K × V))
      → find j (put k v m) ≡ some w
      → ((k ≡ j) × (v ≡ w)) ⊎ (find j m ≡ some w)
  found-put k j v w m h = by_key (e.beq k j) refl (sym (find-put k j v m) ∙ h)
    where
      by_key :
          (here : Bool)
          → e.beq k j ≡ here
          → (if here then some v else find j m) ≡ some w
          → ((k ≡ j) × (v ≡ w)) ⊎ (find j m ≡ some w)
      by_key true here at = inl ((e.beq_iff k j).0 here, some-injective v w at)
      by_key false apart at = inr at

  pub found-remove :
      (k j : K) (w : V) (m : List (K × V))
      → find j (remove k m) ≡ some w
      → (k ≢ j) × (find j m ≡ some w)
  found-remove k j w m h = by_key (e.beq k j) refl (sym (find-remove k j m) ∙ h)
    where
      by_key :
          (here : Bool)
          → e.beq k j ≡ here
          → (if here then none else find j m) ≡ some w
          → (k ≢ j) × (find j m ≡ some w)
      by_key true here at = absurd (let bad : (let o : Option V = none in o ≡ some w) = at in cc)
      by_key false apart at = ((λ z. let t = (e.beq_iff k j).1 z in cc), at)
