-- ===== src/Bitseq/Sequence/Merge.antt =====
-- bitseq/sequence.go: mergeSequences keeps every block and leaves no two neighbours alike.
use libnetwork.Prelude.{
  ℕ, ◌+◌, ◌-◌, ◌^◌, ◌≤◌, ◌<◌, ◌≡◌, ◌≢◌, refl, sym, subst, ◌∙◌, inl, inr, List, [], ◌∷◌, arith, ◌==◌,
  Bool-cases, All,
}
use libnetwork.Prelude.Word.{u64}
use libnetwork.Bitseq.Sequence.{Node, merge_sequences}
use libnetwork.Bitseq.Sequence.Mask.{size, block_at, IsMerged}

abbrev joined : Node → Node → Node
joined seq next = record seq { count = u64 (seq.count + next.count) }

pub block_at-merge_sequences :
    (seq : Node) (rest : List Node) (i : ℕ)
    → size (seq ∷ rest) ≤ 2 ^ 59
    → block_at (merge_sequences seq rest) i ≡ block_at (seq ∷ rest) i
unfolding merge_sequences
block_at-merge_sequences seq [] i small = refl
block_at-merge_sequences seq (next ∷ rest) i small = elim (Bool-cases (seq.block == next.block)) [
  | inl same ↦
      rw (same, merge_sequences) (ground (arith, block_at-merge_sequences (joined seq next) rest i))
  | inr other ↦
      rw (other, merge_sequences)
        (ground (arith, block_at-merge_sequences next rest (i - seq.count)))
]

pub size-merge_sequences :
    (seq : Node) (rest : List Node)
    → size (seq ∷ rest) ≤ 2 ^ 59
    → size (merge_sequences seq rest) ≡ size (seq ∷ rest)
unfolding merge_sequences
size-merge_sequences seq [] small = refl
size-merge_sequences seq (next ∷ rest) small = elim (Bool-cases (seq.block == next.block)) [
  | inl same ↦
      rw (same, merge_sequences)
        (omega (arith, size-merge_sequences (joined seq next) rest (omega arith)))
  | inr other ↦
      rw (other, merge_sequences) (omega (arith, size-merge_sequences next rest (omega arith)))
]

pub positive-merge_sequences :
    (seq : Node) (rest : List Node)
    → size (seq ∷ rest) ≤ 2 ^ 59
    → All (λ n. 0 < n.count) (seq ∷ rest)
    → All (λ n. 0 < n.count) (merge_sequences seq rest)
unfolding merge_sequences
positive-merge_sequences seq [] small h = h
positive-merge_sequences seq (next ∷ rest) small h = elim (Bool-cases (seq.block == next.block)) [
  | inl same ↦
      rw (same, merge_sequences)
        (positive-merge_sequences (joined seq next) rest (omega arith) (omega arith, h.1.1))
  | inr other ↦
      rw (other, merge_sequences) (h.0, positive-merge_sequences next rest (omega arith) h.1)
]

pub words-merge_sequences :
    (seq : Node) (rest : List Node)
    → All (λ n. n.block < 2 ^ 32) (seq ∷ rest)
    → All (λ n. n.block < 2 ^ 32) (merge_sequences seq rest)
unfolding merge_sequences
words-merge_sequences seq [] h = h
words-merge_sequences seq (next ∷ rest) h = elim (Bool-cases (seq.block == next.block)) [
  | inl same ↦
      rw (same, merge_sequences) (words-merge_sequences (joined seq next) rest (h.0, h.1.1))
  | inr other ↦ rw (other, merge_sequences) (h.0, words-merge_sequences next rest h.1)
]

-- The result begins with the block of `seq`, and no two neighbours are alike.
abbrev pub StartsMerged : Node → List Node → Type 0
StartsMerged seq out =
    (head : Node) × (tail : List Node) × (out ≡ head ∷ tail)
    × (head.block ≡ seq.block)
    × IsMerged (head ∷ tail)

starts_apart :
    (seq next : Node) (out : List Node)
    → seq.block ≢ next.block
    → StartsMerged next out
    → StartsMerged seq (seq ∷ out)
starts_apart seq next out other (head, tail, e, same, merged) =
    (seq, head ∷ tail, rw e, refl, (λ q. other (q ∙ same), merged))

pub merge_sequences-StartsMerged :
    (seq : Node) (rest : List Node) → StartsMerged seq (merge_sequences seq rest)
unfolding merge_sequences
merge_sequences-StartsMerged seq [] = (seq, [], refl, refl, (tt, tt))
merge_sequences-StartsMerged seq (next ∷ rest) = elim (Bool-cases (seq.block == next.block)) [
  | inl same ↦ rw (same, merge_sequences) (merge_sequences-StartsMerged (joined seq next) rest)
  | inr other ↦
      rw (other, merge_sequences)
        (starts_apart seq next _ (ground arith) (merge_sequences-StartsMerged next rest))
]

-- mergeSequences keeps the block at every index and the number of blocks, and leaves no two
-- neighbours alike, as long as the blocks are at most 2 ^ 59.
pub merge_sequences_lem :
    (seq : Node) (rest : List Node)
    → size (seq ∷ rest) ≤ 2 ^ 59
    → let out = merge_sequences seq rest in
      ((i : ℕ) → block_at out i ≡ block_at (seq ∷ rest) i)
      × (size out ≡ size (seq ∷ rest))
      × IsMerged out
merge_sequences_lem seq rest small =
    let (head, tail, e, same, merged) = merge_sequences-StartsMerged seq rest in
    (
      λ i. block_at-merge_sequences seq rest i small,
      size-merge_sequences seq rest small,
      subst IsMerged (sym e) merged,
    )
