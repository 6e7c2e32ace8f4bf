-- ===== src/Bitseq/Handle/Calls.antt =====
-- bitseq/sequence.go: the calls of a handle that has no store. Each either writes exactly the bit
-- that it returns or fails and leaves the mask alone.
use libnetwork.Prelude.{
  ℕ, ◌+◌, ◌-◌, ◌*◌, ◌≤◌, ◌<◌, ◌≡◌, ◌≢◌, ◌⊎◌, refl, sym, ◌∙◌, Bool, true, false, ◌&&◌, inl, inr,
  none, arith, ltb, lt→ltb, ltb→lt, leb, ◌==◌, ==_iff, if◌then◌else◌, Bool-cases,
}
use libnetwork.Prelude.Word.{u64, sub64}
use libnetwork.Prelude.Result.{Result, ok, err}
use libnetwork.Bitseq.Sequence.{
  Error, no_bit_available, bit_allocated, invalid_range, not_in_sequence, ordinal_to_pos,
  push_reservation,
}
use libnetwork.Bitseq.Sequence.Mask.{size, is_set}
use libnetwork.Bitseq.Sequence.Push.{push_reservation_lem}
use libnetwork.Bitseq.Sequence.Canonical.{is_set_ext}
use libnetwork.Bitseq.Sequence.Range.{AllSet, IsFirstClear, begin_at}
use libnetwork.Bitseq.Sequence.Scan.{check_if_available_lem}
use libnetwork.Bitseq.Handle.{
  Handle, reserve, select_bit, set, set_any_in_range, set_any, set_bit, unset_bit, is_set_bit,
}
use libnetwork.Bitseq.Handle.Count.{count_clear, count_clear-le, count_clear_zero}
use libnetwork.Bitseq.Handle.Reserve.{IsHandle, Writes, reserve-Writes, select_any, select_exact}

-- A move of `curr` is no change of the mask.
pub moved-IsHandle : (h : Handle) (c : ℕ) → IsHandle h → IsHandle (record h { curr = c })
moved-IsHandle h c v = record {
  sequence = v.sequence;
  merged = v.merged;
  covered = v.covered;
  some_bits = v.some_bits;
  word = v.word;
  counted = v.counted;
}

pub moved-Writes :
    (h : Handle) (c o : ℕ) (b : Bool) (g : Handle)
    → Writes (record h { curr = c }) o b g
    → Writes h o b g
moved-Writes h c o b g w = record {
  within = w.within;
  was = w.was;
  valid = w.valid;
  same_bits = w.same_bits;
  written = w.written;
  moved = w.moved;
}

-- The free bit that a search in a range picks.
abbrev pub Picks : Handle → ℕ → ℕ → Bool → ℕ → Type 0
Picks h start end serial o =
    let from = begin_at start (if serial then h.curr else 0) in
    (o ≤ end)
    × (IsFirstClear h.head from o ⊎ (AllSet h.head from end × IsFirstClear h.head start o))

abbrev pub Allocates : Handle → ℕ → ℕ → Bool → Handle × Result Error ℕ → Type 0
Allocates h start end serial r =
    ((o : ℕ) × (r.1 ≡ ok o) × (r.0.curr ≡ o + 1) × Picks h start end serial o × Writes h o true r.0)
    ⊎ ((r ≡ (h, err no_bit_available)) × AllSet h.head start end)

pub Picks-clear :
    (h : Handle) (start end : ℕ) (serial : Bool) (o : ℕ)
    → Picks h start end serial o
    → is_set h.head o ≡ false
Picks-clear h start end serial o (le, inl first) = first.clear
Picks-clear h start end serial o (le, inr (all, first)) = first.clear

set-Allocates :
    (start end : ℕ) (serial : Bool) (h : Handle)
    → IsHandle h
    → end < h.bits
    → Allocates h start end serial (set 0 start end true false serial none h)
unfolding set reserve
set-Allocates start end serial h v lt = elim (select_any start end serial h v lt) [
  | inl (o, e, le, first) ↦ rw e (
      inl (
        o,
        refl,
        refl,
        (le, first),
        moved-Writes h (o + 1) o true _ (
            reserve-Writes (record h { curr = o + 1 }) o false (moved-IsHandle h (o + 1) v)
              (omega arith) (Picks-clear h start end serial o (le, first))),
      ))
  | inr (e, all) ↦ rw e (inr (refl, all))
]

pub all_selected :
    (h : Handle) (start end : ℕ)
    → IsHandle h
    → end < h.bits
    → h.unselected ≡ 0
    → AllSet h.head start end
all_selected h start end v lt e j a b c =
    count_clear_zero h.bits (is_set h.head) (sym v.counted ∙ e) j (omega arith)

-- On a handle that satisfies the invariant and has no store, SetAnyInRange refuses a range that is
-- empty or not within the handle; in any other it allocates a free ordinal of the range, the first
-- from the current one on or else the first of the range, and fails exactly where every ordinal of
-- the range is taken.
pub set_any_in_range-Allocates :
    (start end : ℕ) (serial : Bool) (h : Handle)
    → IsHandle h
    → let r = set_any_in_range start end serial none h in
      (((end < start) ⊎ (h.bits ≤ end)) × (r ≡ (h, err invalid_range)))
      ⊎ ((start ≤ end) × (end < h.bits) × Allocates h start end serial r)
unfolding set_any_in_range
set_any_in_range-Allocates start end serial h v = elim (Bool-cases (ltb end start)) [
  | inl empty ↦ rw empty (inl (inl (ltb→lt _ _ empty), refl))
  | inr some_range ↦ elim (Bool-cases (leb h.bits end)) [
    | inl beyond ↦ rw (some_range, beyond) (inl (inr (ground arith), refl))
    | inr inside ↦
        let lt : end < h.bits = ground arith in
        elim (Bool-cases (h.unselected == 0)) [
          | inl full ↦
              rw (some_range, inside, full)
                (inr (
                  ground arith,
                  lt,
                  inr (refl, all_selected h start end v lt ((==_iff _ _).0 full)),
                ))
          | inr free ↦
              rw (some_range, inside, free)
                (inr (ground arith, lt, set-Allocates start end serial h v lt))
        ]
  ]
]

-- On a handle that satisfies the invariant and has no store, SetAny allocates the first free ordinal
-- from the current one on, or else the first of all, and fails exactly where every ordinal of the
-- handle is taken.
pub set_any-Allocates :
    (serial : Bool) (h : Handle)
    → IsHandle h
    → Allocates h 0 (h.bits - 1) serial (set_any serial none h)
unfolding set_any
set_any-Allocates serial h v =
    let last : sub64 h.bits 1 ≡ h.bits - 1 = omega (arith, v.word, v.some_bits) in
    let lt : h.bits - 1 < h.bits = omega (arith, v.some_bits) in
    rw last (elim (Bool-cases (h.unselected == 0)) [
      | inl full ↦ rw full (inr (refl, all_selected h 0 (h.bits - 1) v lt ((==_iff _ _).0 full)))
      | inr free ↦ rw free (set-Allocates 0 (h.bits - 1) serial h v lt)
    ])

-- On a handle that satisfies the invariant and has no store, Set takes a free ordinal of the handle,
-- and refuses one that is taken or that the handle does not have, the handle unchanged.
pub set_bit_cases :
    (o : ℕ) (h : Handle)
    → IsHandle h
    → let r = set_bit o none h in
      ((h.bits ≤ o) × (r ≡ (h, err not_in_sequence)))
      ⊎ (((o < h.bits) × (is_set h.head o ≡ true) × (r ≡ (h, err bit_allocated)))
          ⊎ ((r.1 ≡ ok o) × Writes h o true r.0))
unfolding set_bit set
set_bit_cases o h v = elim (Bool-cases (ltb o h.bits)) [
  | inr beyond ↦ rw beyond (inl (ground arith, refl))
  | inl inside ↦
      let lt : o < h.bits = ltb→lt _ _ inside in
      rw (inside, select_exact o h v lt)
        (elim (Bool-cases (is_set h.head o)) [
          | inl taken ↦ rw taken (inr (inl (lt, refl, refl)))
          | inr free ↦ rw free (inr (inr (refl, reserve-Writes h o false v lt free)))
        ])
]

-- On a handle that satisfies the invariant and has no store, Unset frees an ordinal of the handle
-- that is taken.
pub unset_bit-Writes :
    (o : ℕ) (h : Handle)
    → IsHandle h
    → o < h.bits
    → is_set h.head o ≡ true
    → Writes h o false (unset_bit o none h).0
unfolding unset_bit set select_bit
unset_bit-Writes o h v lt taken = rw (lt→ltb _ _ lt) (reserve-Writes h o true v lt taken)

-- Unset with no store of an ordinal of the handle does not fail.
pub unset_bit_granted : (o : ℕ) (h : Handle) → o < h.bits → (unset_bit o none h).1 ≡ ok 0
unfolding unset_bit set select_bit
unset_bit_granted o h lt = rw (lt→ltb _ _ lt) refl

-- Unset refuses an ordinal that the handle does not have.
pub unset_bit_beyond :
    (o : ℕ) (h : Handle) → h.bits ≤ o → unset_bit o none h ≡ (h, err not_in_sequence)
unfolding unset_bit
unset_bit_beyond o h le = ground (arith, le)

-- On a handle that satisfies the invariant and has no store, Unset of an ordinal that is free
-- already leaves the mask as it is and counts one more free bit all the same, so that `unselected`
-- no longer counts the free bits.
pub unset_bit_free :
    (o : ℕ) (h : Handle)
    → IsHandle h
    → o < h.bits
    → is_set h.head o ≡ false
    → let g = (unset_bit o none h).0 in
      (g.head ≡ h.head)
      × (g.unselected ≡ u64 (h.unselected + 1))
      × (g.unselected ≢ count_clear g.bits (is_set g.head))
unfolding unset_bit set select_bit reserve
unset_bit_free o h v lt free =
    let (bits, sequence, sizes, merged) =
      push_reservation_lem h.head o true v.sequence (omega (arith, v.covered)) in
    let same : push_reservation (ordinal_to_pos o) h.head true ≡ h.head =
      is_set_ext _ h.head sequence v.sequence (merged v.merged) v.merged sizes
        (λ j. ground (arith, bits j)) in
    let small = count_clear-le h.bits (is_set h.head) in
    rw (lt→ltb _ _ lt, same) (refl, refl, λ e. omega (arith, v.word, v.counted, small))

-- On a handle that satisfies the invariant, IsSet reads the bit at an ordinal of the handle, and is
-- false of any other.
pub is_set_bit_lem :
    (o : ℕ) (h : Handle) → IsHandle h → is_set_bit o h ≡ (ltb o h.bits && is_set h.head o)
unfolding is_set_bit
is_set_bit_lem o h v = elim (Bool-cases (ltb o h.bits)) [
  | inr beyond ↦ rw beyond
  | inl inside ↦
      let lt : o < h.bits = ltb→lt _ _ inside in
      let within = lt→ltb o (32 * size h.head) (omega (arith, v.covered)) in
      rw (inside, check_if_available_lem h.head o v.sequence, within) (ground arith)
]
