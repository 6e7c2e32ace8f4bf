-- ===== src/Ipam/Allocator/Defaults/Choice.antt =====
-- ipam/allocator.go: which predefined pool getPredefinedPool chooses.
use libnetwork.Prelude.{
  ℕ, zero, suc, ◌+◌, ◌≡◌, ◌≢◌, ◌⊎◌, inl, inr, refl, ap, sym, ◌∙◌, ◌↔◌, ◌<◌, ◌≤◌, Bool, true, false,
  not, none, some, List, [], ◌∷◌, ◌++◌, arith, if◌then◌else◌, length, leb, take, drop, get_elem?,
  All, Bool-cases, Option-cases,
}
use libnetwork.Prelude.Result.{ok, err}
use libnetwork.Networkdb.Names.{Name, same, same_refl, lookup, put, lookup-put}
use libnetwork.Ipam.Net.{Ip, IpNet, to4}
use libnetwork.Ipam.Keys.{find}
use libnetwork.Ipam.Pools.{Subnets, contains}
use libnetwork.Ipam.Pools.Add.{Overlaps, contains-Overlaps, Overlaps-contains}
use libnetwork.Ipam.Allocator.{Allocator, is_v4, no_default_pool}
use libnetwork.Ipam.Allocator.Defaults.{
  is_default, predefined_of, get_predefineds, update_start_index, whole_key, is_usable,
  first_usable, pool_chosen, choose_pool, get_predefined_pool, missing, start_index, index,
}

-- The start index of an address space, 0 where it has none.
abbrev pub StartsAt : Name → Allocator → ℕ → Type 0
StartsAt as' a st =
    (lookup as' a.predefined_start_indices ≡ some st)
    ⊎ ((lookup as' a.predefined_start_indices ≡ none) × (st ≡ 0))

start_index-StartsAt : (as' : Name) (a : Allocator) → StartsAt as' a (start_index as' a)
unfolding start_index index
start_index-StartsAt as' a = elim (Option-cases (lookup as' a.predefined_start_indices)) [
  | inl gone ↦ rw gone (inr (refl, refl))
  | inr (st, there) ↦ rw there (inl refl)
]

take-drop : (i : ℕ) (xs : List IpNet) → take i xs ++ drop i xs ≡ xs
take-drop zero xs = refl
take-drop (suc i) [] = refl
take-drop (suc i) (x ∷ xs) = ap (λ ys. x ∷ ys) (take-drop i xs)

length-take : (i : ℕ) (xs : List IpNet) → i < length xs → length (take i xs) ≡ i
length-take zero xs h = refl
length-take (suc i) [] h = absurd (omega arith)
length-take (suc i) (x ∷ xs) h = ap suc (length-take i xs (omega arith))

All-weaken {κ μ} :
    {A : Type 0} {P : A → Type κ} {Q : A → Type μ} (f : (x : A) → P x → Q x) (xs : List A)
    → All P xs
    → All Q xs
All-weaken f [] all = tt
All-weaken f (x ∷ xs) (p, all) = (f x p, All-weaken f xs all)

All-append {ℓ κ} :
    {A : Type ℓ} (P : A → Type κ) (xs ys : List A) → All P (xs ++ ys) → All P xs × All P ys
All-append P [] ys all = (tt, all)
All-append P (x ∷ xs) ys (h, all) = let (left, right) = All-append P xs ys all in ((h, left), right)

All-split {ℓ κ} :
    {A : Type ℓ} (P : A → Type κ) (i : ℕ) (xs : List A)
    → All P (drop i xs)
    → All P (take i xs)
    → All P xs
All-split P zero xs after before = after
All-split P (suc i) [] after before = tt
All-split P (suc i) (x ∷ xs) after (h, before) = (h, All-split P i xs after before)

-- The rotation leaves no pool out.
All-get_predefineds {κ} :
    (P : IpNet → Type κ) (as' : Name) (a : Allocator)
    → All P (get_predefineds as' a)
    → All P (predefined_of as' a)
unfolding get_predefineds
All-get_predefineds P as' a all =
    let p = predefined_of as' a in
    let i : ℕ = if leb (length p) (start_index as' a) then 0 else start_index as' a in
    let (after, before) = All-append P (drop i p) (take i p) all in All-split P i p after before

-- The order in which the predefined pools of an address space are tried: those from the start index
-- on, and then those before it; all in their order without an index, or with one past the end.
pub record IsOrder (as' : Name) (a : Allocator) (nws : List IpNet) : Type 0 where
  pub skipped : List IpNet
  pub rest : List IpNet
  pub all : predefined_of as' a ≡ skipped ++ rest
  pub rotated : nws ≡ rest ++ skipped
  pub index : ℕ
  pub is_index : StartsAt as' a index
  pub placed :
      ((index < length (predefined_of as' a)) × (length skipped ≡ index))
      ⊎ ((length (predefined_of as' a) ≤ index) × (skipped ≡ []))

get_predefineds-IsOrder : (as' : Name) (a : Allocator) → IsOrder as' a (get_predefineds as' a)
unfolding get_predefineds
get_predefineds-IsOrder as' a =
    let p = predefined_of as' a in
    let st = start_index as' a in
    elim (Bool-cases (leb (length p) st)) [
      | inl past ↦ rw past (record {
        skipped = [];
        rest = p;
        all = refl;
        rotated = refl;
        index = st;
        is_index = start_index-StartsAt as' a;
        placed = inr (ground (arith, past), refl);
      })
      | inr within ↦ rw within (record {
        skipped = take st p;
        rest = drop st p;
        all = sym (take-drop st p);
        rotated = refl;
        index = st;
        is_index = start_index-StartsAt as' a;
        placed = inl (ground (arith, within), length-take st p (ground (arith, within)));
      })
    ]

-- The index after a choice `amt` places behind the start: 0 where it runs past the list.
abbrev pub MovesTo : Name → Allocator → ℕ → Allocator → Type 0
MovesTo as' a amt g =
    (st : ℕ) × StartsAt as' a st
    × (((st + amt < length (predefined_of as' a))
          × (lookup as' g.predefined_start_indices ≡ some (st + amt)))
        ⊎ ((length (predefined_of as' a) ≤ st + amt)
            × (lookup as' g.predefined_start_indices ≡ some 0)))

pub update_start_index-MovesTo :
    (as' : Name) (amt : ℕ) (a : Allocator) → MovesTo as' a amt (update_start_index as' amt a)
unfolding update_start_index
update_start_index-MovesTo as' amt a =
    let i = start_index as' a + amt in
    let n = length (predefined_of as' a) in
    let at : lookup as' (put as' (if leb n i then 0 else i) a.predefined_start_indices)
        ≡ some (if leb n i then 0 else i) =
      lookup-put as' as' (if leb n i then 0 else i) a.predefined_start_indices
      ∙ (rw (same_refl as') refl) in
    (
      start_index as' a,
      start_index-StartsAt as' a,
      elim (Bool-cases (leb n i)) [
        | inl past ↦ inr (ground (arith, past), at ∙ (rw past refl))
        | inr within ↦ inl (ground (arith, within), at ∙ (rw within refl))
      ],
    )

pub not_empty : (as' : Name) → is_default as' ≡ true → as' ≢ []
unfolding is_default same
not_empty [] is e = absurd (let bad : false ≡ true = is in cc)
not_empty (c ∷ name) is e = cc

module _ (net_string : IpNet → Name) where
  -- A pool of the version asked for that is not in the map and overlaps no whole pool of it.
  abbrev pub IsFree : Name → Bool → Subnets → IpNet → Type 0
  IsFree as' ip_v6 s nw =
      (if ip_v6 then to4 nw.ip ≡ none else to4 nw.ip ≢ none)
      × (find (whole_key net_string as' nw) s ≡ none)
      × ¬ Overlaps as' nw s

  version :
      (ip_v6 : Bool) (ip : Ip)
      → ((if ip_v6 then is_v4 ip else not (is_v4 ip)) ≡ false)
        ↔ (if ip_v6 then to4 ip ≡ none else to4 ip ≢ none)
  unfolding is_v4
  version true ip = elim (Option-cases (to4 ip)) [
    | inl none' ↦ ((λ h. none'), (λ h. rw (none', is_v4) refl))
    | inr (short, is) ↦ (
      (λ h. absurd (let bad : true ≡ false = rw (is, is_v4) at h in cc)),
      (λ h. absurd (let bad = sym is ∙ h in cc)),
    )
  ]
  version false ip = elim (Option-cases (to4 ip)) [
    | inl none' ↦ (
      (λ h. absurd (let bad : true ≡ false = rw (none', not, is_v4) at h in cc)),
      (λ h. absurd (h none')),
    )
    | inr (short, is) ↦ ((λ h e. let bad = sym is ∙ e in cc), (λ h. rw (is, not, is_v4) refl))
  ]

  pub usable_iff :
      (as' : Name) (ip_v6 : Bool) (s : Subnets) (nw : IpNet)
      → (is_usable net_string as' ip_v6 s nw ≡ true) ↔ IsFree as' ip_v6 s nw
  unfolding is_usable missing
  usable_iff as' ip_v6 s nw =
      let (to, from) = version ip_v6 nw.ip in
      elim (Bool-cases (if ip_v6 then is_v4 nw.ip else not (is_v4 nw.ip))) [
        | inl other ↦ rw other ((λ h. absurd cc), (λ f. absurd (let bad = from f.0 in cc)))
        | inr right ↦ rw right (elim (Option-cases (find (whole_key net_string as' nw) s)) [
          | inr (p, there) ↦ rw there ((λ h. absurd cc), (λ f. absurd (let bad = f.1 in cc)))
          | inl new ↦ rw new (elim (Bool-cases (contains as' nw s)) [
            | inr apart ↦ rw apart (
              (λ h. (to right, refl, (λ over. let bad = Overlaps-contains as' nw s over in cc))),
              (λ f. refl),
            )
            | inl overlaps ↦
                rw overlaps
                  ((λ h. absurd cc), (λ f. absurd (f.2 (contains-Overlaps as' nw s overlaps))))
          ])
        ])
      ]

  usable_false :
      (as' : Name) (ip_v6 : Bool) (s : Subnets) (nw : IpNet)
      → is_usable net_string as' ip_v6 s nw ≡ false
      → ¬ IsFree as' ip_v6 s nw
  usable_false as' ip_v6 s nw h f = let bad = (usable_iff as' ip_v6 s nw).1 f in cc

  -- The loop stops at the first pool that is usable.
  first_usable_cases :
      (as' : Name) (ip_v6 : Bool) (s : Subnets) (i : ℕ) (nws : List IpNet)
      → ((j : ℕ) × (nw : IpNet) × (first_usable net_string as' ip_v6 s i nws ≡ some (i + j, nw))
          × (get_elem? nws j ≡ some nw)
          × (is_usable net_string as' ip_v6 s nw ≡ true)
          × All (λ p. is_usable net_string as' ip_v6 s p ≡ false) (take j nws))
        ⊎ ((first_usable net_string as' ip_v6 s i nws ≡ none)
            × All (λ p. is_usable net_string as' ip_v6 s p ≡ false) nws)
  unfolding first_usable
  first_usable_cases as' ip_v6 s i [] = inr (refl, tt)
  first_usable_cases as' ip_v6 s i (nw ∷ nws) =
      elim (Bool-cases (is_usable net_string as' ip_v6 s nw)) [
        | inl fits ↦ inl (
          0,
          nw,
          (rw fits (ap (λ n. some (n, nw)) (let e : i ≡ i + 0 = omega arith in e))),
          refl,
          fits,
          tt,
        )
        | inr fails ↦ elim (first_usable_cases as' ip_v6 s (suc i) nws) [
          | inl (j, w, is, at, fits, before) ↦ inl (
            suc j,
            w,
            (rw fails
                (is ∙ ap (λ n. some (n, w)) (let e : suc i + j ≡ i + suc j = omega arith in e))),
            at,
            fits,
            (fails, before),
          )
          | inr (is, all) ↦ inr ((rw fails is), (fails, all))
        ]
      ]

  -- The first free pool in the order, or an error where no predefined pool is free.
  pub get_predefined_pool_cases :
      (as' : Name) (ip_v6 : Bool) (a : Allocator) (s : Subnets)
      → is_default as' ≡ true
      → lookup as' a.addr_spaces ≡ some s
      → let r = get_predefined_pool net_string as' ip_v6 a in
        ((i : ℕ) × (nw : IpNet) × (nws : List IpNet) × (r
            ≡ (update_start_index as' (i + 1) a, ok nw))
          × IsOrder as' a nws
          × (get_elem? nws i ≡ some nw)
          × IsFree as' ip_v6 s nw
          × All (λ p. ¬ IsFree as' ip_v6 s p) (take i nws))
        ⊎ ((r ≡ (a, err no_default_pool)) × All (λ p. ¬ IsFree as' ip_v6 s p) (predefined_of as' a))
  unfolding get_predefined_pool choose_pool pool_chosen
  get_predefined_pool_cases as' ip_v6 a s default there =
      elim (first_usable_cases as' ip_v6 s 0 (get_predefineds as' a)) [
        | inl (i, nw, is, at, fits, before) ↦
            rw (default, there, is, (let e : 0 + i ≡ i = omega arith in e))
              (inl (
                i,
                nw,
                get_predefineds as' a,
                refl,
                get_predefineds-IsOrder as' a,
                at,
                ((usable_iff as' ip_v6 s nw).0 fits),
                All-weaken (usable_false as' ip_v6 s) (take i (get_predefineds as' a)) before,
              ))
        | inr (is, all) ↦
            rw (default, there, is)
              (inr (
                refl,
                All-weaken (usable_false as' ip_v6 s) (predefined_of as' a) (
                    All-get_predefineds (λ p. is_usable net_string as' ip_v6 s p ≡ false) as' a
                      all),
              ))
      ]

pub update_start_index-addr_spaces :
    (as' : Name) (n : ℕ) (a : Allocator) → (update_start_index as' n a).addr_spaces ≡ a.addr_spaces
unfolding update_start_index
update_start_index-addr_spaces as' n a = refl

pub update_start_index-addresses :
    (as' : Name) (n : ℕ) (a : Allocator) → (update_start_index as' n a).addresses ≡ a.addresses
unfolding update_start_index
update_start_index-addresses as' n a = refl

pub not_contains :
    (as' : Name) (nw : IpNet) (s : Subnets) → ¬ Overlaps as' nw s → contains as' nw s ≡ false
not_contains as' nw s apart = elim (Bool-cases (contains as' nw s)) [
  | inl over ↦ absurd (apart (contains-Overlaps as' nw s over))
  | inr free ↦ free
]
