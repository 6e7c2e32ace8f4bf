-- ===== src/Bitseq/Sequence/Find.antt =====
-- bitseq/sequence.go: findSequence.
use libnetwork.Prelude.{
  ℕ, ◌+◌, ◌-◌, ◌*◌, ◌/◌, ◌%◌, ◌^◌, ◌≤◌, ◌<◌, ◌≡◌, refl, ◌⊎◌, inl, inr, Option, none, some, List, [],
  ◌∷◌, arith, leb, leb→le, Bool-cases, reverse_append,
}
use libnetwork.Prelude.{All, ap, subst}
use libnetwork.Prelude.Word.{shr}
use libnetwork.Bitseq.Sequence.{
  selector, block_first_bit, Node, Location, byte_count, locate, find_loop, find_sequence,
}
use libnetwork.Bitseq.Sequence.Mask.{
  All-unsplice, IsSequence, size, block_at, block_at-splice, size-splice,
}

-- `l` is the node of the list `s` that holds the byte, and where in the node the byte stands.
pub record IsFound (s : List Node) (byte : ℕ) (l : Location) : Type 0 where
  pub split : s ≡ reverse_append l.before (l.current ∷ l.after)
  pub index : size l.before + l.prec_blocks ≡ byte / 4
  pub within : l.prec_blocks < l.current.count
  pub offset : l.in_block_byte_pos ≡ byte % 4

-- The byte is beyond the list, or it is found.
abbrev pub Finds : List Node → ℕ → Option Location → Type 0
Finds s byte r =
    ((size s ≤ byte / 4) × (r ≡ none)) ⊎ ((l : Location) × (r ≡ some l) × IsFound s byte l)

module _ (byte : ℕ) where
  locate-Finds :
      (n : ℕ) (before : List Node) (current : Node) (after : List Node)
      → n + 4 * size before ≡ byte
      → current.count ≤ 2 ^ 59
      → (byte_count current ≤ n → after ≡ [])
      → Finds (reverse_append before (current ∷ after)) byte (locate byte n before current after)
  unfolding locate
  locate-Finds n before current after e small end = elim (Bool-cases (leb (byte_count current) n)) [
    | inl beyond ↦ inl (
      rw (end (leb→le _ _ beyond), size-splice before (current ∷ [])) (ground arith),
      rw (beyond, locate),
    )
    | inr inside ↦ rw inside (
        inr (
          _,
          refl,
          record { split = refl; index = omega arith; within = ground arith; offset = refl },
        ))
  ]

  find_loop-Finds :
      (n : ℕ) (before : List Node) (current : Node) (after : List Node)
      → n + 4 * size before ≡ byte
      → size (current ∷ after) ≤ 2 ^ 59
      → Finds (reverse_append before (current ∷ after)) byte (find_loop byte n before current after)
  unfolding find_loop
  find_loop-Finds n before current [] e small =
      locate-Finds n before current [] e (omega arith) (λ _. refl)
  find_loop-Finds n before current (next ∷ after) e small =
      elim (Bool-cases (leb (byte_count current) n)) [
        | inl beyond ↦
            rw (beyond, find_loop)
              (find_loop-Finds (n - byte_count current) (current ∷ before) next after (ground arith)
                (omega arith))
        | inr inside ↦
            rw (inside, find_loop)
              (locate-Finds n before current (next ∷ after) e (omega arith)
                (λ h. absurd (ground arith)))
      ]

-- On a list of at most 2 ^ 59 blocks findSequence finds the node and the block that hold a byte, and
-- nothing where the byte is beyond the list.
pub find_sequence-Finds :
    (s : List Node) (byte : ℕ) → size s ≤ 2 ^ 59 → Finds s byte (find_sequence s byte)
unfolding find_sequence
find_sequence-Finds [] byte small = inl (omega arith, refl)
find_sequence-Finds (head ∷ rest) byte small =
    find_loop-Finds byte byte [] head rest (omega arith) small

pub block_at-IsFound :
    {s : List Node} {byte : ℕ} (l : Location)
    → IsFound s byte l
    → block_at s (byte / 4) ≡ some l.current.block
block_at-IsFound {s} {byte} l f =
    rw (f.split, block_at-splice l.before (l.current ∷ l.after) (byte / 4))
      (ground (arith, f.index, f.within))

pub word-IsFound :
    {s : List Node} {byte : ℕ} (l : Location)
    → IsSequence s
    → IsFound s byte l
    → l.current.block < 2 ^ 32
word-IsFound l v f =
    (All-unsplice _ l.before (l.current ∷ l.after)
      (subst (All (λ n. n.block < 2 ^ 32)) f.split v.words)).1.0

-- The selector of a bit depends on the ordinal's place in its block only.
pub selector-IsFound :
    {s : List Node} (o : ℕ) (l : Location)
    → IsFound s (o / 8) l
    → selector l (o % 8) ≡ shr block_first_bit (o % 32)
selector-IsFound o l f =
    let e : l.in_block_byte_pos * 8 + o % 8 ≡ o % 32 = omega (arith, f.offset) in rw e

pub index-lt-size : {s : List Node} {byte : ℕ} (l : Location) → IsFound s byte l → byte / 4 < size s
index-lt-size l f =
    omega (arith, f.index, f.within, ap size f.split, size-splice l.before (l.current ∷ l.after))
