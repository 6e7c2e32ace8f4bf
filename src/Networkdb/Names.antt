-- ===== src/Networkdb/Names.antt =====
-- Names of nodes, networks, tables and keys, and Go maps keyed by them. A name is the list of its
-- characters; names hold no slash, so that the path that a name is part of determines it.
use libnetwork.Prelude.{
  ℕ, ◌≡◌, ◌↔◌, refl, Bool, true, false, ◌&&◌, Option, none, some, List, [], ◌∷◌, arith, ◌==◌,
  if◌then◌else◌,
}

abbrev pub Name : Type 0
Name = List ℕ

unfoldable pub same : Name → Name → Bool
same [] [] = true
same [] (b ∷ bs) = false
same (a ∷ as') [] = false
same (a ∷ as') (b ∷ bs) = a == b && same as' bs

pub same_iff : (a b : Name) → (same a b ≡ true) ↔ (a ≡ b)
unfolding same
same_iff [] [] = ((λ e. refl), (λ e. refl))
same_iff [] (b ∷ bs) = ((λ e. cc), (λ e. cc))
same_iff (a ∷ as') [] = ((λ e. cc), (λ e. cc))
same_iff (a ∷ as') (b ∷ bs) = ground (arith, same_iff as' bs)

pub same_refl : (a : Name) → same a a ≡ true
same_refl a = (same_iff a a).1 refl

pub same_comm : (a b : Name) → same a b ≡ same b a
same_comm a b = ground (arith, same_iff a b, same_iff b a)

-- strings.HasPrefix, in the order of WalkPrefix.
unfoldable pub is_prefix : Name → Name → Bool
is_prefix [] b = true
is_prefix (x ∷ a) [] = false
is_prefix (x ∷ a) (y ∷ b) = x == y && is_prefix a b

pub is_prefix_refl : (a : Name) → is_prefix a a ≡ true
unfolding is_prefix
is_prefix_refl [] = refl
is_prefix_refl (x ∷ a) = ground (arith, is_prefix_refl a)

module _ {ℓ} {V : Type ℓ} where
  -- m[k], `none` where the key is missing.
  unfoldable pub lookup : Name → List (Name × V) → Option V
  lookup k [] = none
  lookup k ((j, v) ∷ m) = if same j k then some v else lookup k m

  -- m[k] = v
  unfoldable pub put : Name → V → List (Name × V) → List (Name × V)
  put k v [] = (k, v) ∷ []
  put k v ((j, w) ∷ m) = if same j k then (k, v) ∷ m else (j, w) ∷ put k v m

  -- delete(m, k)
  unfoldable pub remove : Name → List (Name × V) → List (Name × V)
  remove k [] = []
  remove k ((j, w) ∷ m) = let rest = remove k m in if same j k then rest else (j, w) ∷ rest

  pub lookup-put :
      (k j : Name) (v : V) (m : List (Name × V))
      → lookup j (put k v m) ≡ (if same k j then some v else lookup j m)
  unfolding lookup put
  lookup-put k j v [] = refl
  lookup-put k j v ((i, w) ∷ m) =
      ground (arith, same_iff k j, same_iff i k, same_iff i j, lookup-put k j v m)

  pub lookup-remove :
      (k j : Name) (m : List (Name × V))
      → lookup j (remove k m) ≡ (if same k j then none else lookup j m)
  unfolding lookup remove
  lookup-remove k j [] = ground arith
  lookup-remove k j ((i, w) ∷ m) =
      ground (arith, same_iff k j, same_iff i k, same_iff i j, lookup-remove k j m)
