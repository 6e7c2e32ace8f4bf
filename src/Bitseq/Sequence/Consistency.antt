-- ===== src/Bitseq/Sequence/Consistency.antt =====
-- bitseq/sequence.go: runConsistencyCheck, and CheckConsistency of a handle on it.
use libnetwork.Prelude.{
  ℕ, ◌-◌, ◌/◌, ◌<◌, ◌≡◌, refl, ap, subst, ◌↔◌, false, inl, inr, List, [], ◌∷◌, arith, ◌==◌,
  Bool-cases, All,
}
use libnetwork.Bitseq.Sequence.{Node, unlink_empty, run_consistency_check}
use libnetwork.Bitseq.Sequence.Mask.{block_at, is_set}

-- The nodes that hold no block are gone, the bits are as they were, and the answer tells whether
-- there was such a node.
unlink_empty_lem :
    (s : List Node)
    → let (kept, corrupted) = unlink_empty s in
      ((i : ℕ) → block_at kept i ≡ block_at s i)
      × All (λ n. 0 < n.count) kept
      × ((corrupted ≡ false) → kept ≡ s)
      × (All (λ n. 0 < n.count) s → corrupted ≡ false)
unfolding unlink_empty
unlink_empty_lem [] = ((λ i. refl), tt, (λ e. refl), (λ p. refl))
unlink_empty_lem (c ∷ rest) =
    let (same, positive, untouched, sound) = unlink_empty_lem rest in
    elim (Bool-cases (c.count == 0)) [
      | inl empty ↦
          rw (empty, unlink_empty)
            ((λ i. ground (arith, same i)), positive, (λ e. cc), (λ p. absurd (ground arith)))
      | inr full ↦
          rw (full, unlink_empty)
            (
              (λ i. ground (arith, same (i - c.count))),
              (ground arith, positive),
              (λ e. ap (λ t. c ∷ t) (untouched e)),
              (λ p. sound p.1),
            )
    ]

-- runConsistencyCheck keeps every bit of the mask, leaves no empty node behind the head, and reports
-- corruption exactly where there was one, which is where it changed the list.
pub run_consistency_check_lem :
    (head : Node) (rest : List Node)
    → let (kept, corrupted) = run_consistency_check (head ∷ rest) in
      ((o : ℕ) → is_set kept o ≡ is_set (head ∷ rest) o)
      × ((tail : List Node) × (kept ≡ head ∷ tail) × All (λ n. 0 < n.count) tail)
      × ((corrupted ≡ false) ↔ All (λ n. 0 < n.count) rest)
      × ((corrupted ≡ false) ↔ (kept ≡ head ∷ rest))
unfolding run_consistency_check
run_consistency_check_lem head rest =
    let (same, positive, untouched, sound) = unlink_empty_lem rest in
    let P : List Node → Type 0 = All (λ n. 0 < n.count) in
    (
      (λ o. ground (arith, same (o / 32 - head.count))),
      (_, refl, positive),
      ((λ e. subst P (untouched e) positive), sound),
      (
        (λ e. ap (λ t. head ∷ t) (untouched e)),
        (λ e. sound (let tail : (unlink_empty rest).0 ≡ rest = cc in subst P tail positive)),
      ),
    )
