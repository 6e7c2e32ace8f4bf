-- ===== src/Bitseq/Sequence/Insert.antt =====
-- bitseq/sequence.go, the list surgery of pushReservation: each of the three forms is the old list
-- with one block replaced, and is well formed and merged if the old one was.
use libnetwork.Prelude.{
  ℕ, zero, suc, ◌+◌, ◌^◌, ◌≤◌, ◌<◌, ◌≡◌, ◌≢◌, refl, ap, ◌∙◌, false, inl, inr, List, [], ◌∷◌, arith,
  ◌==◌, ==_iff, Bool-cases, reverse_append,
}
use libnetwork.Prelude.Word.{sub64}
use libnetwork.Bitseq.Sequence.{
  Node, Location, merge_sequences, insert_block, remove_current_if_empty,
}
use libnetwork.Bitseq.Sequence.Mask.{size, IsUpdate, splice-IsUpdate, splice_ext, size-splice}
use libnetwork.Bitseq.Sequence.Merge.{block_at-merge_sequences, size-merge_sequences}

-- The node that has lost a block, and the new block.
abbrev pub shrunk : Node → Node
shrunk n = record n { count = sub64 n.count 1 }

abbrev pub single : ℕ → Node
single b = record { block = b; count = 1 }

-- The three parts of `current` in form (C).
abbrev pub split_at : Node → ℕ → ℕ → List Node → List Node
split_at current prec b after =
    record { block = current.block; count = prec }
    ∷ single b
    ∷ record current { count = sub64 (sub64 current.count 1) prec }
    ∷ after

abbrev pub behind_first : Node → List Node → List Node
behind_first current after = remove_current_if_empty (shrunk current) after

-- What holds of the list in each form holds of the result.
module _ {ℓ} (P : List Node → Type ℓ) (b : ℕ) (current : Node) (after : List Node) where
  pub insert_cases :
      (before : List Node) (prec in_block : ℕ)
      → (prec ≡ 0 → before ≡ [] → P (merge_sequences (single b) (behind_first current after)))
      → ((previous : Node) (front : List Node)
          → prec ≡ 0
          → before ≡ previous ∷ front
          → P (
              reverse_append front
                (merge_sequences previous (single b ∷ behind_first current after))))
      → (0 < prec
          → prec ≡ sub64 current.count 1
          → P (reverse_append before (merge_sequences (shrunk current) (single b ∷ after))))
      → (0 < prec
          → prec ≢ sub64 current.count 1
          → P (reverse_append before (split_at current prec b after)))
      → P (
          insert_block
            (record {
              before = before;
              current = current;
              after = after;
              prec_blocks = prec;
              in_block_byte_pos = in_block;
            })
            (shrunk current)
            b)
  unfolding insert_block
  insert_cases [] zero in_block head first last inner = head refl refl
  insert_cases (p ∷ front) zero in_block head first last inner = first p front refl refl
  insert_cases before (suc k) in_block head first last inner =
      let later : (suc k == 0) ≡ false = ground arith in
      elim (Bool-cases (suc k == sub64 current.count 1)) [
        | inl e ↦ rw (later, e) (last (omega arith) ((==_iff _ _).0 e))
        | inr e ↦ rw (later, e) (inner (omega arith) (ground arith))
      ]

module _ (b : ℕ) (current : Node) (after : List Node) (prec : ℕ) (within : prec < current.count)
    (small : size (current ∷ after) ≤ 2 ^ 59) where
  size_first : size (single b ∷ behind_first current after) ≡ size (current ∷ after)
  unfolding remove_current_if_empty
  size_first = ground arith

  first-IsUpdate : IsUpdate (current ∷ after) 0 b (single b ∷ behind_first current after)
  unfolding remove_current_if_empty
  first-IsUpdate i = ground arith

  last-IsUpdate :
      prec ≡ sub64 current.count 1
      → IsUpdate (current ∷ after) prec b (shrunk current ∷ single b ∷ after)
  last-IsUpdate e i = ground arith

  inner-IsUpdate :
      prec ≢ sub64 current.count 1
      → IsUpdate (current ∷ after) prec b (split_at current prec b after)
  inner-IsUpdate e i = ground arith

size-splice_merged :
    (r : List Node) (seq : Node) (rest : List Node)
    → size (seq ∷ rest) ≤ 2 ^ 59
    → size (reverse_append r (merge_sequences seq rest)) ≡ size r + size (seq ∷ rest)
size-splice_merged r seq rest small =
    omega (arith, size-splice r (merge_sequences seq rest), size-merge_sequences seq rest small)

splice_merged-IsUpdate :
    (s : List Node) (k b : ℕ) (r : List Node) (seq : Node) (rest : List Node)
    → size (seq ∷ rest) ≤ 2 ^ 59
    → IsUpdate s k b (reverse_append r (seq ∷ rest))
    → IsUpdate s k b (reverse_append r (merge_sequences seq rest))
splice_merged-IsUpdate s k b r seq rest small h i =
    splice_ext r (merge_sequences seq rest) (seq ∷ rest)
      (λ j. block_at-merge_sequences seq rest j small) i
    ∙ h i

module _ (l : Location) (b : ℕ) (within : l.prec_blocks < l.current.count)
    (small : size l.before + size (l.current ∷ l.after) ≤ 2 ^ 59) where
  abbrev pub old : List Node
  old = reverse_append l.before (l.current ∷ l.after)

  abbrev pub new : List Node
  new = insert_block l (shrunk l.current) b

  abbrev pub first_rest : List Node
  first_rest = single b ∷ behind_first l.current l.after

  pub size-first_rest : size first_rest ≡ size (l.current ∷ l.after)
  size-first_rest = size_first b l.current l.after l.prec_blocks within (omega arith)

  pub size-insert_block : size new ≡ size l.before + size (l.current ∷ l.after)
  size-insert_block =
      insert_cases (λ t. size t ≡ size l.before + size (l.current ∷ l.after)) b l.current l.after
        l.before l.prec_blocks l.in_block_byte_pos
        (λ z e. omega (
          arith,
          ap size e,
          size-first_rest,
          size-splice_merged [] (single b) (behind_first l.current l.after),
        ))
        (λ p front z e.
          omega (arith, ap size e, size-first_rest, size-splice_merged front p first_rest))
        (λ pos e.
          omega (arith, size-splice_merged l.before (shrunk l.current) (single b ∷ l.after)))
        (λ pos e. omega (arith, size-splice l.before (split_at l.current l.prec_blocks b l.after)))

  pub insert_block-IsUpdate : IsUpdate old (size l.before + l.prec_blocks) b new
  insert_block-IsUpdate =
      insert_cases (IsUpdate old (size l.before + l.prec_blocks) b) b l.current l.after l.before
        l.prec_blocks l.in_block_byte_pos
        (λ z e.
          splice_merged-IsUpdate old _ b [] (single b) (behind_first l.current l.after)
            (omega (arith, size-first_rest))
            (rw (z, e) (first-IsUpdate b l.current l.after l.prec_blocks within (omega arith))))
        (λ p front z e.
          splice_merged-IsUpdate old _ b front p first_rest
            (omega (arith, ap size e, size-first_rest))
            (rw (z, e)
              (splice-IsUpdate (p ∷ front) (l.current ∷ l.after) first_rest 0 b
                (first-IsUpdate b l.current l.after l.prec_blocks within (omega arith)))))
        (λ pos e.
          splice_merged-IsUpdate old _ b l.before (shrunk l.current) (single b ∷ l.after)
            (omega arith)
            (splice-IsUpdate l.before _ _ l.prec_blocks b
              (last-IsUpdate b l.current l.after l.prec_blocks within (omega arith) e)))
        (λ pos e.
          splice-IsUpdate l.before _ _ l.prec_blocks b
            (inner-IsUpdate b l.current l.after l.prec_blocks within (omega arith) e))
