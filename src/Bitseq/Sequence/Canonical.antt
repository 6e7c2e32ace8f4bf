-- ===== src/Bitseq/Sequence/Canonical.antt =====
-- bitseq/sequence.go: the merged list of a mask is the only one, so that `equal` compares masks and
-- a release undoes an allocation to the very list.
use libnetwork.Prelude.{
  ℕ, ◌+◌, ◌-◌, ◌*◌, ◌/◌, ◌%◌, ◌^◌, ◌≤◌, ◌<◌, ◌≡◌, ◌≢◌, ◌↔◌, refl, sym, ap, ◌∙◌, Bool, true, not,
  inl, inr, none, some, List, [], ◌∷◌, arith, ltb, Bool-cases, All,
}
use libnetwork.Bitseq.Sequence.{Node, ordinal_to_pos, push_reservation, equal}
use libnetwork.Bitseq.Sequence.Mask.{
  size, block_at, block_at_beyond, is_set, IsSequence, IsMerged, Differs,
}
use libnetwork.Bitseq.Sequence.Block.{bit_at_ext}
use libnetwork.Bitseq.Sequence.Push.{push_reservation_lem}

abbrev Positive : Node → Type 0
Positive n = 0 < n.count

head-Differs : (b : ℕ) (s : List Node) → All Positive s → Differs b s → block_at s 0 ≢ some b
head-Differs b [] p d e = cc
head-Differs b (n ∷ s) p d e = ground (arith, d)

no_shorter :
    (m n : Node) (s t : List Node)
    → All Positive (m ∷ s)
    → IsMerged (m ∷ s)
    → ((i : ℕ) → block_at (m ∷ s) i ≡ block_at (n ∷ t) i)
    → m.block ≡ n.block
    → n.count ≤ m.count
no_shorter m n s t p h same e = ground (arith, head-Differs m.block s p.1 h.0, same m.count)

node_ext : (m n : Node) → m.block ≡ n.block → m.count ≡ n.count → m ≡ n
node_ext m n e f = ground arith

not_empty : (n : Node) (t : List Node) → 0 < n.count → block_at (n ∷ t) 0 ≢ none
not_empty n t h = ground arith

same_head :
    (m n : Node) (s t : List Node)
    → 0 < m.count
    → 0 < n.count
    → block_at (m ∷ s) 0 ≡ block_at (n ∷ t) 0
    → m.block ≡ n.block
same_head m n s t h k e = ground arith

tails_agree :
    (m n : Node) (s t : List Node)
    → m.count ≡ n.count
    → ((i : ℕ) → block_at (m ∷ s) i ≡ block_at (n ∷ t) i)
    → (i : ℕ) → block_at s i ≡ block_at t i
tails_agree m n s t e same i = ground (arith, same (i + m.count))

block_at_ext :
    (s t : List Node)
    → All Positive s
    → All Positive t
    → IsMerged s
    → IsMerged t
    → ((i : ℕ) → block_at s i ≡ block_at t i)
    → s ≡ t
block_at_ext [] [] p q h k same = refl
block_at_ext [] (n ∷ t) p q h k same = absurd (not_empty n t q.0 (sym (same 0)))
block_at_ext (m ∷ s) [] p q h k same = absurd (not_empty m s p.0 (same 0))
block_at_ext (m ∷ s) (n ∷ t) p q h k same =
    let blocks = same_head m n s t p.0 q.0 (same 0) in
    let le : n.count ≤ m.count = no_shorter m n s t p h same blocks in
    let ge : m.count ≤ n.count = no_shorter n m t s q k (λ i. sym (same i)) (sym blocks) in
    let counts : m.count ≡ n.count = omega arith in
    let rest = block_at_ext s t p.1 q.1 h.1 k.1 (tails_agree m n s t counts same) in
    let heads = node_ext m n blocks counts in rw (heads, rest)

abbrev Word : Node → Type 0
Word n = n.block < 2 ^ 32

block_at_within :
    (s : List Node) (i : ℕ)
    → All Word s
    → i < size s
    → (b : ℕ) × (block_at s i ≡ some b) × (b < 2 ^ 32)
block_at_within [] i w h = absurd (omega arith)
block_at_within (n ∷ s) i w h = elim (Bool-cases (ltb i n.count)) [
  | inl here ↦ rw here (n.block, refl, w.0)
  | inr there ↦ rw there (block_at_within s (i - n.count) w.1 (ground arith))
]

same_blocks :
    (s t : List Node)
    → All Word s
    → All Word t
    → size s ≡ size t
    → ((o : ℕ) → is_set s o ≡ is_set t o)
    → (i : ℕ) → block_at s i ≡ block_at t i
same_blocks s t v w sizes same i = elim (Bool-cases (ltb i (size s))) [
  | inl inside ↦
      let (a, ea, ha) = block_at_within s i v (ground arith) in
      let (b, eb, hb) = block_at_within t i w (ground arith) in
      rw (ea, eb)
        (ap some (
          bit_at_ext a b ha hb λ p h.
            let q : (32 * i + p) / 32 ≡ i = omega arith in
            let r : (32 * i + p) % 32 ≡ p = omega arith in
            rw (q, r, ea, eb) at (same (32 * i + p))))
  | inr beyond ↦ block_at_beyond s i (ground arith) ∙ sym (block_at_beyond t i (ground arith))
]

-- Two well-formed merged lists of as many blocks and with the same bits are one list.
pub is_set_ext :
    (s t : List Node)
    → IsSequence s
    → IsSequence t
    → IsMerged s
    → IsMerged t
    → size s ≡ size t
    → ((o : ℕ) → is_set s o ≡ is_set t o)
    → s ≡ t
is_set_ext s t v w h k sizes same =
    block_at_ext s t v.positive w.positive h k (same_blocks s t v.words w.words sizes same)

pub equal_iff : (s t : List Node) → (equal s t ≡ true) ↔ (s ≡ t)
unfolding equal
equal_iff [] [] = ((λ _. refl), (λ _. refl))
equal_iff [] (n ∷ t) = ((λ e. cc), (λ e. cc))
equal_iff (m ∷ s) [] = ((λ e. cc), (λ e. cc))
equal_iff (m ∷ s) (n ∷ t) = ground (arith, equal_iff s t, node_ext m n)

-- `equal` compares masks: of well-formed merged lists it answers true exactly when they have as many
-- blocks and every bit agrees.
pub equal-is_set_iff :
    (s t : List Node)
    → IsSequence s
    → IsSequence t
    → IsMerged s
    → IsMerged t
    → (equal s t ≡ true) ↔ ((size s ≡ size t) × ((o : ℕ) → is_set s o ≡ is_set t o))
equal-is_set_iff s t v w h k = (
  (λ e. let one = (equal_iff s t).0 e in (ap size one, (λ o. ap (λ l. is_set l o) one))),
  (λ same. (equal_iff s t).1 (is_set_ext s t v w h k same.0 same.1)),
)

-- On a well-formed merged list, writing a bit and then writing its old value back gives the very
-- list that was there: a release undoes an allocation, and an allocation a release.
pub push_reservation_undo :
    (s : List Node) (o : ℕ) (release : Bool)
    → IsSequence s
    → IsMerged s
    → o < 32 * size s
    → is_set s o ≡ release
    → push_reservation
        (ordinal_to_pos o)
        (push_reservation (ordinal_to_pos o) s release)
        (not release)
      ≡ s
push_reservation_undo s o release v h inside was =
    let p = ordinal_to_pos o in
    let (bits, w, sizes, merged) = push_reservation_lem s o release v inside in
    let (bits', w', sizes', merged') =
      push_reservation_lem (push_reservation p s release) o (not release) w (omega arith) in
    is_set_ext _ s w' v (merged' (merged h)) h (sizes' ∙ sizes)
      (λ j. ground (arith, bits j, bits' j))
