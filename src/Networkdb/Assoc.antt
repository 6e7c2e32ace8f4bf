-- ===== src/Networkdb/Assoc.antt =====
-- Association lists as trees: the interface of go-radix can be met.
use libnetwork.Prelude.{
  ◌+◌, ◌≡◌, ◌⊎◌, refl, ◌∙◌, Bool, true, false, none, some, List, [], ◌∷◌, arith, leb, if◌then◌else◌,
  Bool-cases, inl, inr,
}
use libnetwork.Networkdb.Names.{Name, same_comm, is_prefix}
use libnetwork.Networkdb.Radix.{Radix, IsRadix, Clock, IsClock, Path3, same_path, find, Distinct}
use libnetwork.Networkdb.State.{Entry}
use libnetwork.Networkdb.Entries.Indexes.{same_path_iff, same_path_refl}

-- The items but those at a path.
unfoldable pub dropping : Path3 → List (Path3 × Entry) → List (Path3 × Entry)
dropping k [] = []
dropping k ((j, v) ∷ t) = let rest = dropping k t in if same_path j k then rest else (j, v) ∷ rest

-- The first item of each path.
unfoldable pub firsts : List (Path3 × Entry) → List (Path3 × Entry)
firsts [] = []
firsts ((j, v) ∷ t) = (j, v) ∷ dropping j (firsts t)

-- The items below the path of a network.
unfoldable pub under : Name → List (Path3 × Entry) → List (Path3 × Entry)
under nid [] = []
under nid ((p, e) ∷ items) =
    let rest = under nid items in if is_prefix nid p.0 then (p, e) ∷ rest else rest

find-under :
    (nid : Name) (q : Path3) (items : List (Path3 × Entry))
    → find q (under nid items) ≡ (if is_prefix nid q.0 then find q items else none)
unfolding under
find-under nid q [] = ground arith
find-under nid q ((p, e) ∷ items) = elim (Bool-cases (same_path p q)) [
  | inl here ↦
      let at : p ≡ q = (same_path_iff p q).0 here in
      elim (Bool-cases (is_prefix nid q.0)) [
        | inl inside ↦ rw (at, inside, same_path_refl q) refl
        | inr outside ↦ rw (at, outside) (find-under nid q items ∙ (rw outside refl))
      ]
  | inr apart ↦ elim (Bool-cases (is_prefix nid p.0)) [
    | inl inside ↦ rw (inside, apart) (find-under nid q items)
    | inr outside ↦ rw (outside, apart) (find-under nid q items)
  ]
]

Distinct-under :
    (nid : Name) (items : List (Path3 × Entry)) → Distinct items → Distinct (under nid items)
unfolding under
Distinct-under nid [] d = tt
Distinct-under nid ((p, e) ∷ items) d = elim (Bool-cases (is_prefix nid p.0)) [
  | inl inside ↦
      rw inside ((find-under nid p items ∙ (rw (inside, d.0) refl)), Distinct-under nid items d.1)
  | inr outside ↦ rw outside (Distinct-under nid items d.1)
]

instance abbrev pub assoc_radix : Radix Entry
assoc_radix = record {
  Tree = List (Path3 × Entry);
  empty = [];
  insert = λ k v t. (k, v) ∷ t;
  delete = dropping;
  get = find;
  walk = λ d t. firsts t;
  walk_prefix = λ nid d t. under nid (firsts t);
}

-- The clock of serf: Witness of a time that is not before now goes to the next one.
instance abbrev pub next_clock : Clock
next_clock = record {
  increment = λ now. now + 1;
  witness = λ now seen. if leb now seen then seen + 1 else now;
}

find-dropping :
    (j k : Path3) (t : List (Path3 × Entry))
    → find k (dropping j t) ≡ (if same_path j k then none else find k t)
unfolding dropping
find-dropping j k [] = ground arith
find-dropping j k ((i, v) ∷ t) = elim (Bool-cases (same_path i j)) [
  | inl here ↦ rw (here, (same_path_iff i j).0 here) (find-dropping j k t ∙ again (same_path j k))
  | inr apart ↦ elim (Bool-cases (same_path i k)) [
    | inl at ↦ rw (apart, at) (rw (← (same_path_iff i k).0 at, other apart) refl)
    | inr not_at ↦ rw (apart, not_at) (find-dropping j k t)
  ]
]
  where
    again :
        (b : Bool)
        → (if b then none else find k t) ≡ (if b then none else if b then some v else find k t)
    again true = refl
    again false = refl

    other : same_path i j ≡ false → same_path j i ≡ false
    other p = ground (arith, same_comm (j.0) (i.0), same_comm (j.1) (i.1), same_comm (j.2) (i.2))

Distinct-dropping : (j : Path3) (t : List (Path3 × Entry)) → Distinct t → Distinct (dropping j t)
unfolding dropping
Distinct-dropping j [] d = tt
Distinct-dropping j ((i, v) ∷ t) (gone, d) = elim (Bool-cases (same_path i j)) [
  | inl here ↦ rw here (Distinct-dropping j t d)
  | inr apart ↦ rw apart ((find-dropping j i t ∙ again (same_path j i)), Distinct-dropping j t d)
]
  where
    again : (b : Bool) → (if b then none else find i t) ≡ none
    again true = refl
    again false = gone

find-firsts : (k : Path3) (t : List (Path3 × Entry)) → find k (firsts t) ≡ find k t
unfolding firsts
find-firsts k [] = refl
find-firsts k ((j, v) ∷ t) = elim (Bool-cases (same_path j k)) [
  | inl here ↦ rw here refl
  | inr apart ↦ rw apart (find-dropping j k (firsts t) ∙ (rw apart (find-firsts k t)))
]

firsts-Distinct : (t : List (Path3 × Entry)) → Distinct (firsts t)
unfolding firsts
firsts-Distinct [] = tt
firsts-Distinct ((j, v) ∷ t) = (
  (find-dropping j j (firsts t) ∙ (rw (same_path_refl j) refl)),
  Distinct-dropping j (firsts t) (firsts-Distinct t),
)

find-prefixed :
    (nid : Name) (d : Path3 → Entry → Bool) (k : Path3) (t : List (Path3 × Entry))
    → (find k (under nid (firsts t)) ≡ none)
      ⊎ ((is_prefix nid k.0 ≡ true) × (find k (under nid (firsts t)) ≡ find k t))
find-prefixed nid d k t = elim (Bool-cases (is_prefix nid k.0)) [
  | inl inside ↦ inr (inside, find-under nid k (firsts t) ∙ (rw inside (find-firsts k t)))
  | inr outside ↦ inl (find-under nid k (firsts t) ∙ (rw outside refl))
]

pub assoc_radix-IsRadix : IsRadix assoc_radix
assoc_radix-IsRadix = record {
  get-empty = λ k. refl;
  get-insert = λ j k v t. refl;
  get-delete = find-dropping;
  find-walk = λ d k t. inr (find-firsts k t);
  walk_distinct = λ d t. firsts-Distinct t;
  find-walk_prefix = find-prefixed;
  walk_prefix_distinct = λ nid d t. Distinct-under nid (firsts t) (firsts-Distinct t);
  find-walk_all = λ d t still k. find-firsts k t;
  find-walk_prefix_all =
      λ nid d t still k inside. find-under nid k (firsts t) ∙ (rw inside (find-firsts k t));
}

pub next_clock-IsClock : IsClock next_clock
next_clock-IsClock = record {
  increment_later = λ now. omega arith;
  witness_keeps = λ now seen. ground arith;
  witness_seen = λ now seen. ground arith;
}
