-- ===== src/Bitseq/Sequence/Push.antt =====
-- bitseq/sequence.go: pushReservation writes one bit of the mask, and keeps the form of the list.
use libnetwork.Prelude.{
  ℕ, ◌+◌, ◌*◌, ◌/◌, ◌%◌, ◌^◌, ◌≤◌, ◌<◌, ◌≡◌, ◌≢◌, refl, sym, ap, subst, Bool, not, inl, inr, some,
  List, ◌∷◌, arith, ◌==◌, ==_iff, if◌then◌else◌, Bool-cases, All, reverse_append,
}
use libnetwork.Bitseq.Sequence.{
  Node, Location, ordinal_to_pos, selector, updated_block, push_at, push_reservation, find_sequence,
  insert_block,
}
use libnetwork.Bitseq.Sequence.Mask.{
  size, size-splice, block_at, is_set, IsSequence, IsUpdate, IsMerged,
}
use libnetwork.Bitseq.Sequence.Block.{bit_at, bit_at-updated_block, updated_block-lt}
use libnetwork.Bitseq.Sequence.Find.{
  selector-IsFound, word-IsFound, IsFound, find_sequence-Finds, block_at-IsFound,
}
use libnetwork.Bitseq.Sequence.Insert.{size-insert_block, insert_block-IsUpdate, shrunk}
use libnetwork.Bitseq.Sequence.Keep.{
  insert_block-Positive, insert_block-words, insert_block-IsMerged,
}

module _ (s : List Node) (o : ℕ) (release : Bool) (v : IsSequence s) where
  abbrev place : ℕ
  place = o / 32

  abbrev pushed : List Node
  pushed = push_reservation (ordinal_to_pos o) s release

  module _ (l : Location) (found : find_sequence s (o / 8) ≡ some l) (f : IsFound s (o / 8) l) where
    abbrev target : ℕ
    target = updated_block l.current.block (selector l (o % 8)) release

    fits : size l.before + size (l.current ∷ l.after) ≤ 2 ^ 59
    fits = omega (arith, v.fits, ap size f.split, size-splice l.before (l.current ∷ l.after))

    redundant : l.current.block ≡ target → pushed ≡ s
    unfolding push_reservation
    redundant e = rw found (rw ((==_iff _ _).1 e, push_at) refl)

    written : l.current.block ≢ target → pushed ≡ insert_block l (shrunk l.current) target
    unfolding push_reservation
    written e = rw found (elim (Bool-cases (l.current.block == target)) [
      | inl same ↦ absurd (e ((==_iff _ _).0 same))
      | inr other ↦ rw (other, push_at) refl
    ])

    selected : selector l (o % 8) ≡ 2 ^ 31 / 2 ^ (o % 32)
    selected = selector-IsFound o l f

    word : l.current.block < 2 ^ 32
    word = word-IsFound l v f

    target-lt : target < 2 ^ 32
    target-lt = rw selected (updated_block-lt l.current.block (o % 32) release word (omega arith))

    bit_at-target :
        (q : ℕ)
        → q < 32
        → bit_at target q ≡ (if q == o % 32 then not release else bit_at l.current.block q)
    bit_at-target q h =
        rw selected (bit_at-updated_block l.current.block (o % 32) q release (omega arith) h)

    block_at-place : block_at s place ≡ some l.current.block
    block_at-place = let e : o / 8 / 4 ≡ o / 32 = omega arith in rw e at (block_at-IsFound l f)

    push-IsUpdate : IsUpdate s place target pushed
    push-IsUpdate = elim (Bool-cases (l.current.block == target)) [
      | inl same ↦
          let e : l.current.block ≡ target = (==_iff _ _).0 same in
          rw (redundant e) (λ i. ground (arith, block_at-place, e))
      | inr other ↦ rw (written (ground arith)) (
          subst (λ t. IsUpdate t place target (insert_block l (shrunk l.current) target))
            (sym f.split)
            (let k : size l.before + l.prec_blocks ≡ place = omega (arith, f.index) in
              subst
                (λ n.
                  IsUpdate (reverse_append l.before (l.current ∷ l.after)) n target
                    (insert_block l (shrunk l.current) target))
                k (insert_block-IsUpdate l target f.within fits)))
    ]

    push-is_set : (j : ℕ) → is_set pushed j ≡ (if j == o then not release else is_set s j)
    push-is_set j = rw (push-IsUpdate (j / 32)) (elim (Bool-cases (j / 32 == place)) [
      | inl same ↦
          let e : j / 32 ≡ place = (==_iff _ _).0 same in
          rw same
            (rw (e, block_at-place) (rw (bit_at-target (j % 32) (omega arith)) (ground arith)))
      | inr other ↦ rw other (ground arith)
    ])

    push-IsSequence : IsSequence pushed
    push-IsSequence = elim (Bool-cases (l.current.block == target)) [
      | inl same ↦ rw (redundant ((==_iff _ _).0 same)) v
      | inr other ↦ rw (written (ground arith)) (record {
        positive =
            insert_block-Positive l target f.within fits
              (subst (All (λ n. 0 < n.count)) f.split v.positive);
        words =
            insert_block-words l target f.within fits target-lt
              (subst (All (λ n. n.block < 2 ^ 32)) f.split v.words);
        fits = omega (arith, size-insert_block l target f.within fits, fits);
        has_head = omega (arith, size-insert_block l target f.within fits, f.within);
      })
    ]

    push-IsMerged : IsMerged s → IsMerged pushed
    push-IsMerged h = elim (Bool-cases (l.current.block == target)) [
      | inl same ↦ rw (redundant ((==_iff _ _).0 same)) h
      | inr other ↦
          rw (written (ground arith))
            (insert_block-IsMerged l target f.within fits (ground arith) (subst IsMerged f.split h))
    ]

    size-push : size pushed ≡ size s
    size-push = elim (Bool-cases (l.current.block == target)) [
      | inl same ↦ rw (redundant ((==_iff _ _).0 same))
      | inr other ↦ rw (written (ground arith)) (
          omega (
            arith,
            size-insert_block l target f.within fits,
            ap size f.split,
            size-splice l.before (l.current ∷ l.after),
          ))
    ]

-- An ordinal beyond the list leaves it as it is.
pub push_beyond :
    (s : List Node) (o : ℕ) (release : Bool)
    → IsSequence s
    → 32 * size s ≤ o
    → push_reservation (ordinal_to_pos o) s release ≡ s
unfolding push_reservation
push_beyond s o release v h = elim (find_sequence-Finds s (o / 8) v.fits) [
  | inl (beyond, e) ↦ rw e (unfold push_at in refl)
  | inr (l, e, f) ↦ absurd (
      omega (arith, f.index, f.within, ap size f.split, size-splice l.before (l.current ∷ l.after)))
]

-- What holds of every found bit holds of every bit within the list.
within_list {ℓ} :
    (P : Type ℓ) (s : List Node) (o : ℕ)
    → IsSequence s
    → o < 32 * size s
    → ((l : Location) → find_sequence s (o / 8) ≡ some l → IsFound s (o / 8) l → P)
    → P
within_list P s o v h use_it = elim (find_sequence-Finds s (o / 8) v.fits) [
  | inl (beyond, e) ↦ absurd (omega arith)
  | inr (l, e, f) ↦ use_it l e f
]

pub push_reservation_lem :
    (s : List Node) (o : ℕ) (release : Bool)
    → IsSequence s
    → o < 32 * size s
    → let t = push_reservation (ordinal_to_pos o) s release in
      ((j : ℕ) → is_set t j ≡ (if j == o then not release else is_set s j))
      × IsSequence t
      × (size t ≡ size s)
      × (IsMerged s → IsMerged t)
push_reservation_lem s o release v h = within_list _ s o v h λ l e f. (
  push-is_set s o release v l e f,
  push-IsSequence s o release v l e f,
  size-push s o release v l e f,
  push-IsMerged s o release v l e f,
)

-- On a well-formed merged list pushReservation writes the bit at an ordinal of the list, set on
-- allocation and clear on release, and every other bit is as it was; the list stays well formed and
-- merged, of as many blocks.
pub push_reservation_writes :
    (s : List Node) (o : ℕ) (release : Bool)
    → IsSequence s
    → IsMerged s
    → o < 32 * size s
    → let t = push_reservation (ordinal_to_pos o) s release in
      ((j : ℕ) → is_set t j ≡ (if j == o then not release else is_set s j))
      × IsSequence t
      × IsMerged t
      × (size t ≡ size s)
push_reservation_writes s o release v m h =
    let (bits, sequence, sizes, merged) = push_reservation_lem s o release v h in
    (bits, sequence, merged m, sizes)
