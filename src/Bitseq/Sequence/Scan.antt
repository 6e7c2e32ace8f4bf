-- ===== src/Bitseq/Sequence/Scan.antt =====
-- bitseq/sequence.go: getAvailableBit finds the first clear bit of a block from an offset on, and
-- checkIfAvailable reads one bit.
use libnetwork.Prelude.{
  ℕ, zero, suc, ◌+◌, ◌*◌, ◌/◌, ◌%◌, ◌^◌, ◌≤◌, ◌<◌, ◌≡◌, ◌⊎◌, refl, ◌∙◌, true, false, not, ◌&&◌, inl,
  inr, some, List, arith, ltb, lt→ltb, ltb→lt, ◌==◌, ==_iff, if◌then◌else◌, Bool-cases,
}
use libnetwork.Prelude.Word.{shr}
use libnetwork.Prelude.Result.{Result, ok, err}
use libnetwork.Bitseq.Sequence.{
  Node, Location, Position, Error, no_bit_available, bit_allocated, block_first_bit, block_max,
  scan_block, available_in_block, get_available_bit, ordinal_to_pos, check_if_available, check_at,
}
use libnetwork.Bitseq.Sequence.Mask.{size, block_at, is_set, IsSequence}
use libnetwork.Bitseq.Sequence.Find.{
  selector-IsFound, word-IsFound, index-lt-size, IsFound, find_sequence-Finds, block_at-IsFound,
}
use libnetwork.Bitseq.Sequence.Block.{
  every, every_holds, bit_at, bit_at_full, selected_iff, selector_pow, selector-pos,
}

halving_table : every (λ p. 2 ^ 31 / 2 ^ p / 2 == 2 ^ 31 / 2 ^ (p + 1)) 32 ≡ true
unfolding every
halving_table = refl

selector_halves : (p : ℕ) → p < 32 → shr block_first_bit p / 2 ≡ shr block_first_bit (p + 1)
selector_halves p h =
    (==_iff _ _).0
      (every_holds (λ q. 2 ^ 31 / 2 ^ q / 2 == 2 ^ 31 / 2 ^ (q + 1)) 32 halving_table p h)

selector_nonzero : (p : ℕ) → p < 32 → 0 < shr block_first_bit p
selector_nonzero p h = rw (selector_pow p h) (selector-pos p)

-- The scan from `from` stops at `k`: the bits in between are set, and either the block ends there or
-- the bit at `k` is clear.
pub record Stops (block from k : ℕ) : Type 0 where
  pub from_le : from ≤ k
  pub le_end : k ≤ 32
  pub clear : k < 32 → bit_at block k ≡ false
  pub before : (q : ℕ) → from ≤ q → q < k → bit_at block q ≡ true

module _ (fuel block from : ℕ) (hb : block < 2 ^ 32) (inside : from < 32) where
  scan_set :
      bit_at block from ≡ true
      → scan_block (suc fuel) block (shr block_first_bit from) from
        ≡ scan_block fuel block (shr block_first_bit (from + 1)) (from + 1)
  unfolding scan_block
  scan_set set = rw (
    selector_halves from inside,
    lt→ltb 0 _ (selector_nonzero from inside),
    selected_iff block from hb inside,
    set,
  )

  scan_clear :
      bit_at block from ≡ false
      → scan_block (suc fuel) block (shr block_first_bit from) from
        ≡ (shr block_first_bit from, from)
  unfolding scan_block
  scan_clear clear =
      rw (lt→ltb 0 _ (selector_nonzero from inside), selected_iff block from hb inside, clear)

scan_block-Stops :
    (fuel block from : ℕ)
    → block < 2 ^ 32
    → from ≤ 32
    → 32 ≤ fuel + from
    → (k : ℕ) × (scan_block fuel block (shr block_first_bit from) from ≡ (shr block_first_bit k, k))
      × Stops block from k
unfolding scan_block
scan_block-Stops zero block from hb h enough = (
  from,
  refl,
  record {
    from_le = omega arith;
    le_end = h;
    clear = λ k. absurd (omega arith);
    before = λ q a b. absurd (omega arith);
  },
)
scan_block-Stops (suc fuel) block from hb h enough = elim (Bool-cases (ltb from 32)) [
  | inl inside ↦ elim (Bool-cases (bit_at block from)) [
    | inl set ↦
        let (k, e, st) = scan_block-Stops fuel block (from + 1) hb (ground arith) (omega arith) in
        (
          k,
          scan_set fuel block from hb (ground arith) set ∙ e,
          record {
            from_le = omega (arith, st.from_le);
            le_end = st.le_end;
            clear = st.clear;
            before = λ q a b. ground (arith, st.before q, set);
          },
        )
    | inr clear ↦ (
      from,
      scan_clear fuel block from hb (ground arith) clear,
      record {
        from_le = omega arith;
        le_end = h;
        clear = λ _. clear;
        before = λ q a b. absurd (omega arith);
      },
    )
  ]
  | inr at_end ↦
      let e : from ≡ 32 = ground arith in
      (
        from,
        rw e,
        record {
          from_le = omega arith;
          le_end = h;
          clear = λ k. absurd (omega arith);
          before = λ q a b. absurd (omega arith);
        },
      )
]

check_at_found :
    (s : List Node) (o : ℕ) (l : Location)
    → IsSequence s
    → IsFound s (o / 8) l
    → check_at (ordinal_to_pos o) (some l) ≡ (
        if ltb o (32 * size s) && not (is_set s o)
        then ok (ordinal_to_pos o)
        else err bit_allocated)
unfolding check_at
check_at_found s o l v f =
    let inside = lt→ltb o (32 * size s) (omega (arith, index-lt-size l f)) in
    let place : o / 8 / 4 ≡ o / 32 = omega arith in
    let here : block_at s (o / 32) ≡ some l.current.block = rw place at (block_at-IsFound l f) in
    rw (
      inside,
      here,
      selector-IsFound o l f,
      selected_iff l.current.block (o % 32) (word-IsFound l v f) (omega arith),
    )

-- On a well-formed list checkIfAvailable answers with the position of a bit of the list that is
-- clear; any other ordinal, set or beyond the list, is an error.
pub check_if_available_lem :
    (s : List Node) (o : ℕ)
    → IsSequence s
    → check_if_available s o ≡ (
        if ltb o (32 * size s) && not (is_set s o)
        then ok (ordinal_to_pos o)
        else err bit_allocated)
unfolding check_if_available
check_if_available_lem s o v = elim (find_sequence-Finds s (o / 8) v.fits) [
  | inl (beyond, e) ↦ rw e (unfold check_at in ground arith)
  | inr (l, e, f) ↦ rw e (check_at_found s o l v f)
]

-- The first clear bit of a block from an offset on is found, or all of them are set.
abbrev pub FindsBit : Node → ℕ → Result Error Position → Type 0
FindsBit n from r =
    ((k : ℕ) × (r ≡ ok (record { byte = k / 8; bit = k % 8 }))
      × (k < 32)
      × (bit_at n.block k ≡ false)
      × Stops n.block from k)
    ⊎ ((r ≡ err no_bit_available) × ((q : ℕ) → from ≤ q → q < 32 → bit_at n.block q ≡ true))

stopped-FindsBit :
    (n : Node) (from k : ℕ)
    → Stops n.block from k
    → FindsBit n from (available_in_block (shr block_first_bit k, k))
unfolding available_in_block
stopped-FindsBit n from k st = elim (Bool-cases (ltb k 32)) [
  | inl inside ↦
      let here : k < 32 = ltb→lt _ _ inside in
      let nonzero : (shr block_first_bit k == 0) ≡ false =
        ground (arith, selector_nonzero k here) in
      inl (k, rw nonzero, here, st.clear here, st)
  | inr at_end ↦
      let e : k ≡ 32 = ground (arith, st.le_end) in
      inr (rw e refl, λ q a b. st.before q a (omega arith))
]

-- On a node of at least one block, a word, getAvailableBit finds the first clear bit from an offset
-- of at most 32 on, or fails where all bits from there on are set.
pub get_available_bit-FindsBit :
    (n : Node) (from : ℕ)
    → 0 < n.count
    → n.block < 2 ^ 32
    → from ≤ 32
    → FindsBit n from (get_available_bit n from)
unfolding get_available_bit
get_available_bit-FindsBit n from pos word h = elim (Bool-cases (n.block == block_max)) [
  | inl full ↦
      let e : n.block ≡ block_max = (==_iff _ _).0 full in
      inr (rw full refl, λ q a b. rw e (bit_at_full q))
  | inr other ↦
      let counted : (n.count == 0) ≡ false = ground arith in
      let (k, e, st) = scan_block-Stops 32 n.block from word h (omega arith) in
      rw (other, counted, e) (stopped-FindsBit n from k st)
]
