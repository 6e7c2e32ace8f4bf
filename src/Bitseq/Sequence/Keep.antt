-- ===== src/Bitseq/Sequence/Keep.antt =====
-- bitseq/sequence.go, pushReservation: the new list is well formed and merged where the old one was.
use libnetwork.Prelude.{
  ℕ, ◌+◌, ◌^◌, ◌≤◌, ◌<◌, ◌≡◌, ◌≢◌, refl, sym, ap, subst, ◌∙◌, List, ◌∷◌, arith, All, reverse_append,
}
use libnetwork.Bitseq.Sequence.{Node, Location, remove_current_if_empty}
use libnetwork.Bitseq.Sequence.Mask.{
  size, IsMerged, All-splice, All-unsplice, splice-IsMerged, IsMerged-behind,
}
use libnetwork.Bitseq.Sequence.Merge.{
  positive-merge_sequences, words-merge_sequences, StartsMerged, merge_sequences-StartsMerged,
}
use libnetwork.Bitseq.Sequence.Insert.{
  shrunk, single, split_at, behind_first, insert_cases, old, new, first_rest, size-first_rest,
}

abbrev Positive : Node → Type 0
Positive n = 0 < n.count

abbrev Word : Node → Type 0
Word n = n.block < 2 ^ 32

Positive-first :
    (b : ℕ) (current : Node) (after : List Node)
    → 0 < current.count
    → current.count ≤ 2 ^ 59
    → All Positive after
    → All Positive (single b ∷ behind_first current after)
unfolding remove_current_if_empty
Positive-first b current after h small rest = ground arith

words_first :
    (b : ℕ) (current : Node) (after : List Node)
    → b < 2 ^ 32
    → All Word (current ∷ after)
    → All Word (single b ∷ behind_first current after)
unfolding remove_current_if_empty
words_first b current after h rest = ground arith

IsMerged-StartsMerged : (seq : Node) {out : List Node} → StartsMerged seq out → IsMerged out
IsMerged-StartsMerged seq (head, tail, e, same, merged) = rw e merged

splice-StartsMerged :
    (r : List Node) (x seq : Node) (xs out : List Node)
    → seq.block ≡ x.block
    → IsMerged (reverse_append r (x ∷ xs))
    → StartsMerged seq out
    → IsMerged (reverse_append r out)
splice-StartsMerged r x seq xs out alike h (head, tail, e, same, merged) =
    rw e (splice-IsMerged r x head xs tail (sym (same ∙ alike)) h merged)

module _ (l : Location) (b : ℕ) (within : l.prec_blocks < l.current.count)
    (small : size l.before + size (l.current ∷ l.after) ≤ 2 ^ 59) where
  pub insert_block-Positive :
      All Positive (old l b within small) → All Positive (new l b within small)
  insert_block-Positive h =
      let parts = All-unsplice Positive l.before (l.current ∷ l.after) h in
      let first = Positive-first b l.current l.after (omega arith) (omega arith) parts.1.1 in
      insert_cases (All Positive) b l.current l.after l.before l.prec_blocks l.in_block_byte_pos
        (λ z e.
          positive-merge_sequences (single b) _ (omega (arith, size-first_rest l b within small))
            first)
        (λ p front z e.
          let before : All Positive (p ∷ front) = rw e at parts.0 in
          All-splice Positive front _ before.1 (
            positive-merge_sequences p (first_rest l b within small)
              (omega (arith, ap size e, size-first_rest l b within small)) (before.0, first)))
        (λ pos e. All-splice Positive l.before _ parts.0 (
          positive-merge_sequences (shrunk l.current) (single b ∷ l.after) (omega arith)
            (omega arith, (omega arith, parts.1.1))))
        (λ pos e.
          All-splice Positive l.before (split_at l.current l.prec_blocks b l.after) parts.0
            (pos, (omega arith, (omega arith, parts.1.1))))

  pub insert_block-words :
      b < 2 ^ 32 → All Word (old l b within small) → All Word (new l b within small)
  insert_block-words hb h =
      let parts = All-unsplice Word l.before (l.current ∷ l.after) h in
      let first = words_first b l.current l.after hb parts.1 in
      insert_cases (All Word) b l.current l.after l.before l.prec_blocks l.in_block_byte_pos
        (λ z e. words-merge_sequences (single b) _ first)
        (λ p front z e.
          let before : All Word (p ∷ front) = rw e at parts.0 in
          All-splice Word front _ before.1
            (words-merge_sequences p (first_rest l b within small) (before.0, first)))
        (λ pos e. All-splice Word l.before _ parts.0 (
          words-merge_sequences (shrunk l.current) (single b ∷ l.after)
            (parts.1.0, (hb, parts.1.1))))
        (λ pos e.
          All-splice Word l.before (split_at l.current l.prec_blocks b l.after) parts.0
            (parts.1.0, (hb, (parts.1.0, parts.1.1))))

  pub insert_block-IsMerged :
      l.current.block ≢ b → IsMerged (old l b within small) → IsMerged (new l b within small)
  insert_block-IsMerged differs h =
      let behind = IsMerged-behind l.before (l.current ∷ l.after) h in
      insert_cases IsMerged b l.current l.after l.before l.prec_blocks l.in_block_byte_pos
        (λ z e. IsMerged-StartsMerged (single b) (merge_sequences-StartsMerged (single b) _))
        (λ p front z e.
          splice-StartsMerged front p p (l.current ∷ l.after) _ refl
            (let h' : IsMerged (reverse_append (p ∷ front) (l.current ∷ l.after)) =
                subst (λ x. IsMerged (reverse_append x (l.current ∷ l.after))) e h in
              h')
            (merge_sequences-StartsMerged p (first_rest l b within small)))
        (λ pos e.
          splice-StartsMerged l.before l.current (shrunk l.current) l.after _ refl h
            (merge_sequences-StartsMerged (shrunk l.current) (single b ∷ l.after)))
        (λ pos e.
          splice-IsMerged l.before l.current
            (record { block = l.current.block; count = l.prec_blocks }) l.after _ refl h
            (differs, ((λ q. differs (sym q)), behind)))
