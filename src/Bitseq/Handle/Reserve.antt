-- ===== src/Bitseq/Handle/Reserve.antt =====
-- bitseq/sequence.go: the invariant of a handle, and how a reservation keeps it.
use libnetwork.Prelude.{
  ℕ, ◌+◌, ◌*◌, ◌^◌, ◌≤◌, ◌<◌, ◌≡◌, ◌⊎◌, refl, ◌∙◌, Bool, true, false, not, inl, inr, List, arith,
  lt→ltb, ◌==◌, if◌then◌else◌,
}
use libnetwork.Prelude.Word.{u64, sub64}
use libnetwork.Prelude.Result.{ok, err}
use libnetwork.Bitseq.Sequence.{
  Node, no_bit_available, bit_allocated, ordinal_to_pos, pos_to_ordinal, push_reservation,
}
use libnetwork.Bitseq.Sequence.Mask.{size, is_set, IsSequence, IsMerged}
use libnetwork.Bitseq.Sequence.Push.{push_reservation_lem}
use libnetwork.Bitseq.Sequence.Range.{
  AllSet, IsFirstClear, begin_at, get_available_from_current-PicksInRange,
}
use libnetwork.Bitseq.Sequence.Scan.{check_if_available_lem}
use libnetwork.Bitseq.Handle.{Handle, reserve, select_bit}
use libnetwork.Bitseq.Handle.Count.{count_clear, count_clear_write, count_clear-le}

-- The list is well formed and merged and has a bit for every ordinal, and `unselected` counts the
-- ordinals that are free.
pub record IsHandle (h : Handle) : Type 0 where
  pub sequence : IsSequence h.head
  pub merged : IsMerged h.head
  pub covered : h.bits ≤ 32 * size h.head
  pub some_bits : 0 < h.bits
  pub word : h.bits < 2 ^ 64
  pub counted : h.unselected ≡ count_clear h.bits (is_set h.head)

-- `g` is `h` with the bit at `o`, which was not `b`, written to `b`; `unselected` goes along.
pub record Writes (h : Handle) (o : ℕ) (b : Bool) (g : Handle) : Type 0 where
  pub within : o < h.bits
  pub was : is_set h.head o ≡ not b
  pub valid : IsHandle g
  pub same_bits : g.bits ≡ h.bits
  pub written : (j : ℕ) → is_set g.head j ≡ (if j == o then b else is_set h.head j)
  pub moved : g.unselected + (if b then 1 else 0) ≡ h.unselected + (if b then 0 else 1)

unselected_reserve :
    (n u m : ℕ) (release : Bool)
    → n < 2 ^ 64
    → u ≤ n
    → m ≤ n
    → (if not release then 1 else 0) + m ≡ (if release then 1 else 0) + u
    → (if release then u64 (u + 1) else sub64 u 1) ≡ m
unselected_reserve n u m true h k l e = omega arith
unselected_reserve n u m false h k l e = omega arith

moved_reserve :
    (u m x : ℕ) (release : Bool)
    → x ≡ m
    → (if not release then 1 else 0) + m ≡ (if release then 1 else 0) + u
    → x + (if not release then 1 else 0) ≡ u + (if not release then 0 else 1)
moved_reserve u m x true e h = omega arith
moved_reserve u m x false e h = omega arith

not-not : (b : Bool) → b ≡ not (not b)
not-not true = refl
not-not false = refl

-- A reservation of a free bit, and a release of one that is set, keep the invariant and write that
-- one bit.
pub reserve-Writes :
    (h : Handle) (o : ℕ) (release : Bool)
    → IsHandle h
    → o < h.bits
    → is_set h.head o ≡ release
    → Writes h o (not release) (reserve (ordinal_to_pos o) release h)
unfolding reserve
reserve-Writes h o release v lt was =
    let (bits, sequence, sizes, merged) =
      push_reservation_lem h.head o release v.sequence (omega (arith, v.covered)) in
    record {
      within = lt;
      was = was ∙ not-not release;
      valid = record {
        sequence = sequence;
        merged = merged v.merged;
        covered = omega (arith, v.covered, sizes);
        some_bits = v.some_bits;
        word = v.word;
        counted = counts bits;
      };
      same_bits = refl;
      written = bits;
      moved = moved_reserve h.unselected _ _ release (counts bits) (balance bits);
    }
  where
    t : List Node
    t = push_reservation (ordinal_to_pos o) h.head release

    balance :
        ((j : ℕ) → is_set t j ≡ (if j == o then not release else is_set h.head j))
        → (if not release then 1 else 0) + count_clear h.bits (is_set t)
          ≡ (if release then 1 else 0) + h.unselected
    balance bits =
        rw v.counted
          (rw was at (count_clear_write h.bits o (is_set h.head) (is_set t) (not release) lt bits))

    counts :
        ((j : ℕ) → is_set t j ≡ (if j == o then not release else is_set h.head j))
        → (if release then u64 (h.unselected + 1) else sub64 h.unselected 1)
          ≡ count_clear h.bits (is_set t)
    counts bits =
        unselected_reserve h.bits h.unselected (count_clear h.bits (is_set t)) release v.word
          (omega (arith, v.counted, count_clear-le h.bits (is_set h.head)))
          (count_clear-le h.bits (is_set t)) (balance bits)

-- The search of `set` with `any`: the handle with `curr` moved behind the ordinal that it picks.
pub select_any :
    (start end : ℕ) (serial : Bool) (h : Handle)
    → IsHandle h
    → end < h.bits
    → let curr = if serial then h.curr else 0 in
      ((o : ℕ) × (select_bit 0 start end true false serial h
          ≡ (record h { curr = o + 1 }, ok (ordinal_to_pos o, o)))
        × (o ≤ end)
        × (IsFirstClear h.head (begin_at start curr) o
            ⊎ (AllSet h.head (begin_at start curr) end × IsFirstClear h.head start o)))
      ⊎ ((select_bit 0 start end true false serial h ≡ (h, err no_bit_available))
          × AllSet h.head start end)
unfolding select_bit
select_any start end serial h v lt =
    elim (get_available_from_current-PicksInRange h.head start (if serial then h.curr else 0) end
      v.sequence) [
        | inl (o, e, le, first) ↦
            let back : pos_to_ordinal (ordinal_to_pos o) ≡ o = omega (arith, v.word) in
            let next : u64 (o + 1) ≡ o + 1 = omega (arith, v.word) in
            inl (o, rw (e, back, next), le, first)
        | inr (e, all) ↦ inr (rw e, all)
      ]

pub select_exact :
    (o : ℕ) (h : Handle)
    → IsHandle h
    → o < h.bits
    → select_bit o 0 0 false false false h
      ≡ (h, (if is_set h.head o then err bit_allocated else ok (ordinal_to_pos o, o)))
unfolding select_bit
select_exact o h v lt =
    let inside = lt→ltb o (32 * size h.head) (omega (arith, v.covered)) in
    rw (check_if_available_lem h.head o v.sequence, inside) (ground arith)
