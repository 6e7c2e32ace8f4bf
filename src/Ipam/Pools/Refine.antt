-- ===== src/Ipam/Pools/Refine.antt =====
-- ipam/structures.go: updatePoolDBOnAdd and updatePoolDBOnRemoval keep the pools that are held.
use libnetwork.Prelude.{
  ℕ, zero, suc, ◌≡◌, ◌≢◌, inl, inr, refl, sym, ap, subst, ◌∙◌, Bool, false, Option, none, some,
  List, [], ◌∷◌, arith, if◌then◌else◌, Bool-cases,
}
use libnetwork.Prelude.Int.{pos}
use libnetwork.Ipam.Net.{IpNet}
use libnetwork.Ipam.Keys.{SubnetKey, zero_key, master_of, same_key, same_key_iff, find}
use libnetwork.Ipam.Pools.{AddressRange, PoolData, Subnets, master_data, child_data}
use libnetwork.Ipam.Pools.Held.{held_count, use_count, released, MasterAt, ChildAt, IsHeld}

-- Keys that differ in a part.
pub ne_child : (a b : SubnetKey) → a.child_subnet ≢ b.child_subnet → same_key a b ≡ false
ne_child a b h = elim (Bool-cases (same_key a b)) [
  | inl e ↦ absurd (h (ap (λ k. k.child_subnet) ((same_key_iff a b).0 e)))
  | inr n ↦ n
]

pub ne_space : (a b : SubnetKey) → a.address_space ≢ b.address_space → same_key a b ≡ false
ne_space a b h = elim (Bool-cases (same_key a b)) [
  | inl e ↦ absurd (h (ap (λ k. k.address_space) ((same_key_iff a b).0 e)))
  | inr n ↦ n
]

-- The release of a held key takes one from the users of its master.
pub use_count-released :
    (k j : SubnetKey) (held : List SubnetKey) (n : ℕ)
    → held_count k held ≡ suc n
    → use_count j held ≡ (
        if same_key (master_of k) j
        then suc (use_count j (released k held))
        else use_count j (released k held))
use_count-released k j [] n h = absurd (omega arith)
use_count-released k j (i ∷ held) n h = elim (Bool-cases (same_key i k)) [
  | inl here ↦ rw (here, (same_key_iff i k).0 here) refl
  | inr apart ↦
      let rest = use_count-released k j held n (sym (rw apart refl) ∙ h) in
      rw apart (ground (arith, rest))
]

held_count-released :
    (k j : SubnetKey) (held : List SubnetKey) (n : ℕ)
    → held_count k held ≡ suc n
    → held_count j held ≡ (
        if same_key k j
        then suc (held_count j (released k held))
        else held_count j (released k held))
held_count-released k j [] n h = absurd (omega arith)
held_count-released k j (i ∷ held) n h = elim (Bool-cases (same_key i k)) [
  | inl here ↦ rw (here, (same_key_iff i k).0 here) refl
  | inr apart ↦
      let rest = held_count-released k j held n (sym (rw apart refl) ∙ h) in
      rw apart (ground (arith, rest))
]

-- A pool that is part of no other is its own master.
pub master_self : (k : SubnetKey) → k.child_subnet ≡ [] → k ≡ master_of k
master_self k e = ground arith

pub ChildAt-none : (k : SubnetKey) (n : ℕ) (o : Option PoolData) → ChildAt k n o → o ≡ none → n ≡ 0
ChildAt-none k zero o h e = refl
ChildAt-none k (suc zero) o (nw, r, is) e = absurd (let x = sym is ∙ e in cc)
ChildAt-none k (suc (suc n)) o h e = absurd h

pub MasterAt-none : (n : ℕ) (o : Option PoolData) → MasterAt n o → o ≡ none → n ≡ 0
MasterAt-none zero o h e = refl
MasterAt-none (suc n) o (nw, is) e = absurd (let x = sym is ∙ e in cc)

pub suc_inj : {a b : ℕ} → suc a ≡ suc b → a ≡ b
suc_inj e = omega arith

used_less : (a b : ℕ) (t : Bool) → a ≡ (if t then suc b else b) → a ≡ 0 → b ≡ 0
used_less a b t e z = ground arith

-- A master with so many users.
abbrev pub counted : IpNet → ℕ → Option PoolData
counted w zero = none
counted w (suc n) = some (master_data w (pos (suc n)))

counted-MasterAt : (w : IpNet) (n : ℕ) → MasterAt n (counted w n)
counted-MasterAt w zero = refl
counted-MasterAt w (suc n) = (w, refl)

module _ (held : List SubnetKey) (s : Subnets) (h : IsHeld held s) where
  pub zero_missing : find zero_key s ≡ none
  zero_missing =
      subst (λ n. MasterAt n (find zero_key s)) (h.unnamed zero_key refl) (h.masters zero_key refl)

  pub master_found :
      (m : SubnetKey) (n : ℕ)
      → m.child_subnet ≡ []
      → use_count m held ≡ suc n
      → (nw : IpNet) × (find m s ≡ some (master_data nw (pos (suc n))))
  master_found m n c e = subst (λ n. MasterAt n (find m s)) e (h.masters m c)

  -- The map after a part of a pool is added, with the count of its master.
  pub add_child-IsHeld :
      (k : SubnetKey) (nw w : IpNet) (r : AddressRange) (s' : Subnets)
      → k.address_space ≢ []
      → k.child_subnet ≢ []
      → find k s ≡ none
      → ((j : SubnetKey)
          → find j s' ≡ (
              if same_key (master_of k) j
              then some (master_data w (pos (suc (use_count (master_of k) held))))
              else if same_key k j
              then some (child_data k nw r)
              else find j s))
      → IsHeld (k ∷ held) s'
  add_child-IsHeld k nw w r s' named part new at = record {
    masters = λ j c. elim (Bool-cases (same_key (master_of k) j)) [
      | inl e ↦
          let m = (same_key_iff (master_of k) j).0 e in
          rw (at j, e)
            (w, ap (λ (i : SubnetKey). some (master_data w (pos (suc (use_count i held))))) m)
      | inr n ↦ rw (at j, n, ne_child k j (λ e. part (e ∙ c))) (h.masters j c)
    ];
    children = λ j c. elim (Bool-cases (same_key k j)) [
      | inl e ↦
          let is = (same_key_iff k j).0 e in
          let none_held : held_count j held ≡ 0 =
            ChildAt-none j (held_count j held) (find j s) (h.children j c)
              (subst (λ i. find i s ≡ none) is new) in
          rw (at j, ne_child (master_of k) j (λ e. c (sym e)), e, none_held)
            (nw, r, ap (λ (i : SubnetKey). some (child_data i nw r)) is)
      | inr n ↦ rw (at j, ne_child (master_of k) j (λ e. c (sym e)), n) (h.children j c)
    ];
    unnamed = λ j a. rw (ne_space (master_of k) j (λ e. named (e ∙ a))) (h.unnamed j a);
  }

  -- The map after a pool that no pool is a part of is added.
  pub add_master-IsHeld :
      (k : SubnetKey) (nw : IpNet) (s' : Subnets)
      → k.address_space ≢ []
      → k.child_subnet ≡ []
      → use_count k held ≡ 0
      → ((j : SubnetKey)
          → find j s' ≡ (if same_key k j then some (master_data nw (pos 1)) else find j s))
      → IsHeld (k ∷ held) s'
  add_master-IsHeld k nw s' named whole unused at =
      let own : master_of k ≡ k = sym (master_self k whole) in
      record {
        masters = λ j c. elim (Bool-cases (same_key k j)) [
          | inl e ↦
              let unused_j : use_count j held ≡ 0 =
                subst (λ i. use_count i held ≡ 0) ((same_key_iff k j).0 e) unused in
              rw (at j, own, e, unused_j) (nw, refl)
          | inr n ↦ rw (at j, own, n) (h.masters j c)
        ];
        children = λ j c. rw (at j, ne_child k j (λ e. c (sym e ∙ whole))) (h.children j c);
        unnamed = λ j a. rw (own, ne_space k j (λ e. named (e ∙ a))) (h.unnamed j a);
      }

  -- The map after a part of a pool is released; its master goes with its last user.
  pub remove_child-IsHeld :
      (k : SubnetKey) (w : IpNet) (s' : Subnets)
      → k.child_subnet ≢ []
      → held_count k held ≡ 1
      → ((j : SubnetKey)
          → find j s' ≡ (
              if same_key (master_of k) j
              then counted w (use_count (master_of k) (released k held))
              else if same_key k j
              then none
              else find j s))
      → IsHeld (released k held) s'
  remove_child-IsHeld k w s' part once at = record {
    masters = λ j c. elim (Bool-cases (same_key (master_of k) j)) [
      | inl e ↦
          rw (at j, e, (same_key_iff (master_of k) j).0 e)
            (counted-MasterAt w (use_count j (released k held)))
      | inr n ↦
          let same_use : use_count j held ≡ use_count j (released k held) =
            use_count-released k j held 0 once ∙ (rw n refl) in
          rw (at j, n, ne_child k j (λ e. part (e ∙ c)), ← same_use) (h.masters j c)
    ];
    children = λ j c. elim (Bool-cases (same_key k j)) [
      | inl e ↦
          let is = (same_key_iff k j).0 e in
          let gone : held_count j (released k held) ≡ 0 = suc_inj (
            sym (held_count-released k j held 0 once ∙ (rw e refl))
            ∙ subst (λ i. held_count i held ≡ 1) is once) in
          rw (at j, ne_child (master_of k) j (λ e. c (sym e)), e, gone) refl
      | inr n ↦
          let same_held : held_count j held ≡ held_count j (released k held) =
            held_count-released k j held 0 once ∙ (rw n refl) in
          rw (at j, ne_child (master_of k) j (λ e. c (sym e)), n, ← same_held) (h.children j c)
    ];
    unnamed = λ j a.
        used_less (use_count j held) (use_count j (released k held)) (same_key (master_of k) j)
          (use_count-released k j held 0 once) (h.unnamed j a);
  }

  pub remove_master-IsHeld :
      (k : SubnetKey) (w : IpNet) (n : ℕ) (s' : Subnets)
      → k.child_subnet ≡ []
      → held_count k held ≡ suc n
      → ((j : SubnetKey)
          → find j s'
            ≡ (if same_key k j then counted w (use_count k (released k held)) else find j s))
      → IsHeld (released k held) s'
  remove_master-IsHeld k w n s' whole some_held at =
      let own : master_of k ≡ k = sym (master_self k whole) in
      record {
        masters = λ j c. elim (Bool-cases (same_key k j)) [
          | inl e ↦
              rw (at j, e)
                (subst
                  (λ i.
                    MasterAt (use_count i (released k held))
                      (counted w (use_count k (released k held))))
                  ((same_key_iff k j).0 e) (counted-MasterAt w (use_count k (released k held))))
          | inr ne ↦
              let same_use : use_count j held ≡ use_count j (released k held) =
                use_count-released k j held n some_held ∙ (rw (own, ne) refl) in
              rw (at j, ne, ← same_use) (h.masters j c)
        ];
        children = λ j c.
            let apart = ne_child k j (λ e. c (sym e ∙ whole)) in
            let same_held : held_count j held ≡ held_count j (released k held) =
              held_count-released k j held n some_held ∙ (rw apart refl) in
            rw (at j, apart, ← same_held) (h.children j c);
        unnamed = λ j a.
            used_less (use_count j held) (use_count j (released k held)) (same_key (master_of k) j)
              (use_count-released k j held n some_held) (h.unnamed j a);
      }
