-- ===== src/Bitseq/Handle/New.antt =====
-- bitseq/sequence.go: NewHandle.
use libnetwork.Prelude.{
  ℕ, zero, suc, ◌+◌, ◌-◌, ◌*◌, ◌%◌, ◌^◌, ◌≤◌, ◌<◌, ◌≡◌, refl, sym, false, none, [], ◌∷◌, arith,
}
use libnetwork.Prelude.Word.{bit_of}
use libnetwork.Prelude.Result.{ok}
use libnetwork.Bitseq.Sequence.{get_num_blocks}
use libnetwork.Bitseq.Sequence.Mask.{is_set}
use libnetwork.Bitseq.Handle.{Handle, new_handle}
use libnetwork.Bitseq.Handle.Count.{count_none}
use libnetwork.Bitseq.Handle.Reserve.{IsHandle}

-- The blocks of a new handle cover its bits, with fewer than 32 to spare.
get_num_blocks_bounds :
    (n : ℕ)
    → n < 2 ^ 64
    → (n ≤ 32 * get_num_blocks n) × (32 * get_num_blocks n < n + 32) × (get_num_blocks n ≤ 2 ^ 59)
unfolding get_num_blocks
get_num_blocks_bounds n h = ground arith

zero_block : (k : ℕ) → bit_of 0 k ≡ 0
zero_block zero = refl
zero_block (suc k) = zero_block k

clear_block : (c : ℕ) (j : ℕ) → is_set (record { block = 0; count = c } ∷ []) j ≡ false
clear_block c j = ground (arith, zero_block (31 - j % 32))

-- A new handle of at least one element and less than 2 ^ 64, with no store, satisfies the invariant,
-- has the bits that were asked for, and all of them are free.
pub new_handle-IsHandle :
    (n : ℕ)
    → 0 < n
    → n < 2 ^ 64
    → (h : Handle) × (new_handle n none ≡ ok h)
      × IsHandle h
      × (h.bits ≡ n)
      × (h.unselected ≡ n)
      × ((o : ℕ) → is_set h.head o ≡ false)
unfolding new_handle
new_handle-IsHandle n pos fits =
    let (covers, tight, small) = get_num_blocks_bounds n fits in
    (
      _,
      refl,
      record {
        sequence = record {
          positive = (omega arith, tt);
          words = (omega arith, tt);
          fits = omega arith;
          has_head = omega arith;
        };
        merged = (tt, tt);
        covered = omega arith;
        some_bits = pos;
        word = fits;
        counted = sym (count_none n _ (clear_block (get_num_blocks n)));
      },
      refl,
      refl,
      clear_block (get_num_blocks n),
    )
