-- ===== src/Bitseq/Sequence/First.antt =====
-- bitseq/sequence.go: getFirstAvailable and getAvailableFromCurrent over the whole list.
use libnetwork.Prelude.{
  ℕ, ◌+◌, ◌-◌, ◌*◌, ◌/◌, ◌%◌, ◌^◌, ◌≤◌, ◌<◌, ◌≡◌, ◌⊎◌, refl, sym, ap, subst, ◌∙◌, true, false, inl,
  inr, List, [], ◌∷◌, arith, ltb, lt→ltb, ltb→lt, Bool-cases, All, reverse_append,
}
use libnetwork.Prelude.Word.{sub64}
use libnetwork.Prelude.Result.{Result, ok, err}
use libnetwork.Bitseq.Sequence.{
  Node, Position, Error, no_bit_available, out_of_fuel, Retry, found, last_block, no_fuel,
  next_offset, search_nodes, search_from, get_first_available, ordinal_to_pos,
}
use libnetwork.Bitseq.Sequence.Mask.{
  size, is_set, IsSequence, block_at-splice, size-splice, All-unsplice,
}
use libnetwork.Bitseq.Sequence.Block.{bit_at}
use libnetwork.Bitseq.Sequence.Find.{find_sequence-Finds}
use libnetwork.Bitseq.Sequence.Search.{Finding, Leaves, try_node-Leaves}

-- The bits of a list, by node.
is_set_head :
    (n : Node) (s : List Node) (j : ℕ)
    → j < 32 * n.count
    → is_set (n ∷ s) j ≡ bit_at n.block (j % 32)
is_set_head n s j h = let e = lt→ltb (j / 32) n.count (omega arith) in rw e

is_set_tail :
    (n : Node) (s : List Node) (j : ℕ)
    → 32 * n.count ≤ j
    → is_set (n ∷ s) j ≡ is_set s (j - 32 * n.count)
is_set_tail n s j h =
    let e : ltb (j / 32) n.count ≡ false = ground arith in
    let q : j / 32 - n.count ≡ (j - 32 * n.count) / 32 = omega arith in
    let r : j % 32 ≡ (j - 32 * n.count) % 32 = omega arith in rw (e, q, r)

by_node :
    (n : Node) (s : List Node) (j : ℕ)
    → (j < 32 * n.count → bit_at n.block (j % 32) ≡ true)
    → (32 * n.count ≤ j → is_set s (j - 32 * n.count) ≡ true)
    → is_set (n ∷ s) j ≡ true
by_node n s j head tail = elim (Bool-cases (ltb j (32 * n.count))) [
  | inl here ↦ is_set_head n s j (ltb→lt _ _ here) ∙ head (ltb→lt _ _ here)
  | inr there ↦ is_set_tail n s j (ground arith) ∙ tail (ground arith)
]

-- What a search behind the node `n` finds is found from `n` on, if the bits of `n` are set.
behind-Finding :
    (n : Node) (s : List Node) (base t : ℕ) (r : Result Error Position)
    → t ≤ 32 * n.count
    → ((j : ℕ) → t ≤ j → j < 32 * n.count → bit_at n.block (j % 32) ≡ true)
    → Finding (is_set s) (size s) (base + n.count) 0 r
    → Finding (is_set (n ∷ s)) (size (n ∷ s)) base t r
behind-Finding n s base t (ok p) h all (o, le, lt, at, bit, clear, before) = (
  32 * n.count + o,
  omega arith,
  omega arith,
  omega arith,
  bit,
  is_set_tail n s (32 * n.count + o) (omega arith)
      ∙ (let e : 32 * n.count + o - 32 * n.count ≡ o = omega arith in rw e clear),
  λ j a b. by_node n s j (all j a) (λ c. before (j - 32 * n.count) (omega arith) (omega arith)),
)
behind-Finding n s base t (err e) h all (is, before) = (
  is,
  λ j a b. by_node n s j (all j a) (λ c. before (j - 32 * n.count) (omega arith) (omega arith)),
)

-- What is found in the node itself is found in the list.
within-Finding :
    (n : Node) (s : List Node) (base t : ℕ) (p : Position)
    → Finding (λ j. bit_at n.block (j % 32)) n.count base t (ok p)
    → Finding (is_set (n ∷ s)) (size (n ∷ s)) base t (ok p)
within-Finding n s base t p (o, le, lt, at, bit, clear, before) = (
  o,
  le,
  omega arith,
  at,
  bit,
  is_set_head n s o lt ∙ clear,
  λ j a b. is_set_head n s j (omega arith) ∙ before j a b,
)

module _ (n : Node) (rest : List Node) (base t : ℕ) (inside : t ≤ 32 * n.count)
    (small : base + n.count ≤ 2 ^ 59)
    (search_rest : Finding
      (is_set rest)
      (size rest)
      (base + n.count)
      0
      (search_nodes rest 0 (4 * (base + n.count)) 0)) where
  continue-Finding :
      (r : Retry)
      → Leaves n base t r
      → Finding (is_set (n ∷ rest)) (size (n ∷ rest)) base t (elim r [
        | found p ↦ ok p
        | last_block offset prec ↦ search_nodes rest 0 (next_offset n offset prec) 0
        | no_fuel ↦ err out_of_fuel
      ])
  continue-Finding (found p) h = within-Finding n rest base t p h
  continue-Finding (last_block offset prec) (at, within, all) =
      let e : next_offset n offset prec ≡ 4 * (base + n.count) = rw at (omega arith) in
      rw e (behind-Finding n rest base t _ inside all search_rest)
  continue-Finding no_fuel h = absurd h

-- The head of the list, if there is one, has more than `prec` blocks.
abbrev HeadHolds : ℕ → List Node → Type 0
HeadHolds prec [] = Unit
HeadHolds prec (n ∷ s) = prec < n.count

HeadHolds-start : (s : List Node) → All (λ n. 0 < n.count) s → HeadHolds 0 s
HeadHolds-start [] p = tt
HeadHolds-start (n ∷ s) p = p.0

search_nodes-Finding :
    (s : List Node) (base from prec : ℕ)
    → All (λ n. 0 < n.count) s
    → All (λ n. n.block < 2 ^ 32) s
    → base + size s ≤ 2 ^ 59
    → from < 32
    → HeadHolds prec s
    → Finding
        (is_set s)
        (size s)
        base
        (32 * prec + from)
        (search_nodes s from (4 * (base + prec)) prec)
unfolding search_nodes
search_nodes-Finding [] base from prec p w small h within = (refl, λ j a b. absurd (omega arith))
search_nodes-Finding (n ∷ rest) base from prec p w small h within =
    continue-Finding n rest base (32 * prec + from) (omega (arith, within)) (omega arith)
      (let z : base + n.count + 0 ≡ base + n.count = omega arith in
        rw z at (
          search_nodes-Finding rest (base + n.count) 0 0 p.1 w.1 (omega arith) (omega arith)
            (HeadHolds-start rest p.1)))
      _ (try_node-Leaves n base p.0 w.0 (omega arith) from prec h (within))

-- The answer of a search for a clear bit from `start` on: the first one, or an error because every
-- bit of the list from there on is set.
abbrev pub FirstClear : List Node → ℕ → Result Error Position → Type 0
FirstClear s start r =
    ((o : ℕ) × (r ≡ ok (ordinal_to_pos o))
      × (start ≤ o)
      × (o < 32 * size s)
      × (is_set s o ≡ false)
      × ((j : ℕ) → start ≤ j → j < o → is_set s j ≡ true))
    ⊎ ((r ≡ err no_bit_available) × ((j : ℕ) → start ≤ j → j < 32 * size s → is_set s j ≡ true))

-- The bits behind a pointer.
is_set-splice :
    (r xs : List Node) (j : ℕ)
    → 32 * size r ≤ j
    → is_set (reverse_append r xs) j ≡ is_set xs (j - 32 * size r)
is_set-splice r xs j h =
    let e : ltb (j / 32) (size r) ≡ false = ground arith in
    let q : j / 32 - size r ≡ (j - 32 * size r) / 32 = omega arith in
    let m : j % 32 ≡ (j - 32 * size r) % 32 = omega arith in
    rw (block_at-splice r xs (j / 32), e, q, m)

position_of : (p : Position) (o : ℕ) → p.byte * 8 + p.bit ≡ o → p.bit < 8 → p ≡ ordinal_to_pos o
position_of p o e h = ground arith

spliced-FirstClear :
    (before xs : List Node) (t start : ℕ) (r : Result Error Position)
    → start ≡ 32 * size before + t
    → Finding (is_set xs) (size xs) (size before) t r
    → FirstClear (reverse_append before xs) start r
spliced-FirstClear before xs t start (ok p) e (o, le, lt, at, bit, clear, all) = inl (
  32 * size before + o,
  ap ok (position_of p _ at bit),
  omega arith,
  omega (arith, size-splice before xs),
  is_set-splice before xs _ (omega arith)
      ∙ (let z : 32 * size before + o - 32 * size before ≡ o = omega arith in rw z clear),
  λ j a b.
      is_set-splice before xs j (omega arith)
      ∙ all (j - 32 * size before) (omega arith) (omega arith),
)
spliced-FirstClear before xs t start (err e) q (is, all) = inr (
  ap err is,
  λ j a b.
      is_set-splice before xs j (omega arith)
      ∙ all (j - 32 * size before) (omega arith) (omega (arith, size-splice before xs)),
)

-- getFirstAvailable returns the first clear bit of a well-formed list from an ordinal on, and the
-- error that no bit is available exactly where there is none; its loops end.
pub get_first_available-FirstClear :
    (s : List Node) (start : ℕ) → IsSequence s → FirstClear s start (get_first_available s start)
unfolding get_first_available search_from
get_first_available-FirstClear s start v = elim (find_sequence-Finds s (start / 8) v.fits) [
  | inl (beyond, e) ↦ rw e (inr (refl, λ j a b. absurd (omega arith)))
  | inr (l, e, f) ↦
      let xs = l.current ∷ l.after in
      let fits : size l.before + size xs ≤ 2 ^ 59 =
        omega (arith, v.fits, ap size f.split, size-splice l.before xs) in
      let positive =
        All-unsplice _ l.before xs (subst (All (λ k. 0 < k.count)) f.split v.positive) in
      let words =
        All-unsplice _ l.before xs (subst (All (λ k. k.block < 2 ^ 32)) f.split v.words) in
      let offset : sub64 (start / 8) l.in_block_byte_pos ≡ 4 * (size l.before + l.prec_blocks) =
        omega (arith, f.index, f.offset) in
      let from = l.in_block_byte_pos * 8 + start % 8 in
      let found =
        search_nodes-Finding xs (size l.before) from l.prec_blocks positive.1 words.1 fits
          (omega (arith, f.offset)) f.within in
      let lifted =
        spliced-FirstClear l.before xs (32 * l.prec_blocks + from) start
          (search_nodes xs from (4 * (size l.before + l.prec_blocks)) l.prec_blocks)
          (omega (arith, f.index, f.offset)) found in
      rw (e, offset)
        (subst
          (λ t.
            FirstClear t start
              (search_nodes xs from (4 * (size l.before + l.prec_blocks)) l.prec_blocks))
          (sym f.split) lifted)
]
