-- ===== src/Bitseq/Tests.antt =====
-- Concrete runs of the theorems on bitseq/sequence.go.
use libnetwork.Prelude.{
  length, ◌%◌, ℕ, ◌≤◌, ◌<◌, ◌≡◌, ◌⊎◌, ◌≢◌, ◌↔◌, refl, true, false, none, some, List, [], ◌∷◌, ◌==◌,
  if◌then◌else◌, arith,
}
use libnetwork.Prelude.Result.{ok, err}
use libnetwork.Bitseq.Sequence.{
  Node, invalid_range, not_in_sequence, bit_allocated, ordinal_to_pos, push_reservation,
  get_first_available, equal,
}
use libnetwork.Bitseq.Sequence.Mask.{size, is_set, IsSequence, IsMerged}
use libnetwork.Bitseq.Sequence.Push.{push_reservation_writes}
use libnetwork.Bitseq.Sequence.Canonical.{equal-is_set_iff, push_reservation_undo}
use libnetwork.Bitseq.Sequence.First.{FirstClear, get_first_available-FirstClear}
use libnetwork.Bitseq.Handle.{
  Handle, decoded, stored, conflict, Round, new_handle, set, set_any_in_range, set_any, set_bit,
  unset_bit,
}
use libnetwork.Bitseq.Handle.Count.{count_clear}
use libnetwork.Bitseq.Handle.Reserve.{IsHandle, Writes}
use libnetwork.Bitseq.Handle.Calls.{
  Allocates, set_any_in_range-Allocates, set_any-Allocates, set_bit_cases, unset_bit_free,
}
use libnetwork.Bitseq.Handle.New.{new_handle-IsHandle}
use libnetwork.Bitseq.Handle.Store.{Reports, set-Reports}
use libnetwork.Bitseq.Codec.{
  decoded, bad_length, slice_panic, to_byte_array, from_byte_array, handle_to_byte_array,
  handle_from_byte_array,
}
use libnetwork.Bitseq.Codec.Bytes.{handle_from_byte_array-handle_to_byte_array}
use libnetwork.Bitseq.Codec.Total.{from_byte_array_cases}

-- A full block, three blocks with their bits 1 and 2 set, and two clear blocks.
abbrev three_nodes : List Node
three_nodes =
    record { block = 4294967295; count = 1 }
    ∷ record { block = 1610612736; count = 3 }
    ∷ record { block = 0; count = 2 }
    ∷ []

three_nodes-IsSequence : IsSequence three_nodes
three_nodes-IsSequence = record {
  positive = (omega arith, (omega arith, (omega arith, tt)));
  words = (omega arith, (omega arith, (omega arith, tt)));
  fits = omega arith;
  has_head = omega arith;
}

three_nodes-IsMerged : IsMerged three_nodes
three_nodes-IsMerged = ((λ e. omega arith), ((λ e. omega arith), (tt, tt)))

-- A handle of 40 ordinals with 0 and 1 taken.
abbrev two_taken : Handle
two_taken = record {
  bits = 40;
  unselected = 38;
  head = record { block = 3221225472; count = 1 } ∷ record { block = 0; count = 1 } ∷ [];
  db_index = 0;
  db_exists = false;
  curr = 2;
}

two_taken-IsHandle : IsHandle two_taken
unfolding count_clear
two_taken-IsHandle = record {
  sequence = record {
    positive = (omega arith, (omega arith, tt));
    words = (omega arith, (omega arith, tt));
    fits = omega arith;
    has_head = omega arith;
  };
  merged = ((λ e. omega arith), (tt, tt));
  covered = omega arith;
  some_bits = omega arith;
  word = omega arith;
  counted = refl;
}

-- A conflicting write by another process, then a write that succeeds.
abbrev two_rounds : List Round
two_rounds =
    record { fetched = decoded 40 38 two_taken.head 7; written = conflict }
    ∷ record { fetched = decoded 40 38 two_taken.head 8; written = stored 9 }
    ∷ []

stored-IsHandle :
    (index : ℕ) → IsHandle (record two_taken { db_index = index; db_exists = true; curr = 0 })
stored-IsHandle index = record {
  sequence = two_taken-IsHandle.sequence;
  merged = two_taken-IsHandle.merged;
  covered = two_taken-IsHandle.covered;
  some_bits = two_taken-IsHandle.some_bits;
  word = two_taken-IsHandle.word;
  counted = two_taken-IsHandle.counted;
}

push_reservation_writes_example :
    let t = push_reservation (ordinal_to_pos 64) three_nodes false in
    ((j : ℕ) → is_set t j ≡ (if j == 64 then true else is_set three_nodes j))
    × IsSequence t
    × IsMerged t
    × (size t ≡ 6)
push_reservation_writes_example =
    push_reservation_writes three_nodes 64 false three_nodes-IsSequence three_nodes-IsMerged
      (omega arith)

push_reservation_undo_example :
    push_reservation
      (ordinal_to_pos 64)
      (push_reservation (ordinal_to_pos 64) three_nodes false)
      true
    ≡ three_nodes
push_reservation_undo_example =
    push_reservation_undo three_nodes 64 false three_nodes-IsSequence three_nodes-IsMerged
      (omega arith) refl

equal-is_set_iff_example : (equal three_nodes three_nodes ≡ true) ↔ (
    (size three_nodes ≡ size three_nodes) × ((o : ℕ) → is_set three_nodes o ≡ is_set three_nodes o))
equal-is_set_iff_example =
    equal-is_set_iff three_nodes three_nodes three_nodes-IsSequence three_nodes-IsSequence
      three_nodes-IsMerged three_nodes-IsMerged

get_first_available-FirstClear_example :
    FirstClear three_nodes 5 (get_first_available three_nodes 5)
get_first_available-FirstClear_example =
    get_first_available-FirstClear three_nodes 5 three_nodes-IsSequence

new_handle-IsHandle_example :
    (h : Handle) × (new_handle 40 none ≡ ok h)
    × IsHandle h
    × (h.bits ≡ 40)
    × (h.unselected ≡ 40)
    × ((o : ℕ) → is_set h.head o ≡ false)
new_handle-IsHandle_example = new_handle-IsHandle 40 (omega arith) (omega arith)

set_any_in_range-Allocates_example :
    let r = set_any_in_range 0 1 true none two_taken in
    (((1 < 0) ⊎ (40 ≤ 1)) × (r ≡ (two_taken, err invalid_range)))
    ⊎ ((0 ≤ 1) × (1 < 40) × Allocates two_taken 0 1 true r)
set_any_in_range-Allocates_example =
    set_any_in_range-Allocates 0 1 true two_taken two_taken-IsHandle

set_any-Allocates_example : Allocates two_taken 0 39 true (set_any true none two_taken)
set_any-Allocates_example = set_any-Allocates true two_taken two_taken-IsHandle

set_bit_cases_example :
    let r = set_bit 39 none two_taken in
    ((40 ≤ 39) × (r ≡ (two_taken, err not_in_sequence)))
    ⊎ (((39 < 40) × (is_set two_taken.head 39 ≡ true) × (r ≡ (two_taken, err bit_allocated)))
        ⊎ ((r.1 ≡ ok 39) × Writes two_taken 39 true r.0))
set_bit_cases_example = set_bit_cases 39 two_taken two_taken-IsHandle

unset_bit_free_example :
    let g = (unset_bit 5 none two_taken).0 in
    (g.head ≡ two_taken.head)
    × (g.unselected ≡ 39)
    × (g.unselected ≢ count_clear g.bits (is_set g.head))
unset_bit_free_example = unset_bit_free 5 two_taken two_taken-IsHandle (omega arith) refl

set-Reports_example :
    Reports 40 0 39 true two_rounds two_taken
      (set 0 0 39 true false true (some two_rounds) two_taken)
set-Reports_example =
    set-Reports 40 0 39 true two_rounds two_taken (omega arith)
      ((refl, stored-IsHandle 7), ((refl, stored-IsHandle 8), tt)) (refl, two_taken-IsHandle)

from_byte_array_cases_example :
    let bytes : List ℕ = 192 ∷ 0 ∷ 0 ∷ 0 ∷ 0 ∷ 0 ∷ 0 ∷ 0 ∷ 0 ∷ 0 ∷ 0 ∷ 1 ∷ [] in
    ((length bytes % 12 ≢ 0) × (from_byte_array bytes ≡ bad_length))
    ⊎ (((bytes ≡ []) × (from_byte_array bytes ≡ slice_panic))
        ⊎ ((s : List Node) × (from_byte_array bytes ≡ decoded s) × (to_byte_array s ≡ bytes)))
from_byte_array_cases_example =
    from_byte_array_cases (192 ∷ 0 ∷ 0 ∷ 0 ∷ 0 ∷ 0 ∷ 0 ∷ 0 ∷ 0 ∷ 0 ∷ 0 ∷ 1 ∷ []) (
      omega arith,
      (
        omega arith,
        (
          omega arith,
          (
            omega arith,
            (
              omega arith,
              (
                omega arith,
                (
                  omega arith,
                  (omega arith, (omega arith, (omega arith, (omega arith, (omega arith, tt))))),
                ),
              ),
            ),
          ),
        ),
      ),
    )

handle_from_byte_array-handle_to_byte_array_example :
    handle_from_byte_array
      (some (handle_to_byte_array two_taken))
      (record two_taken { curr = 0; head = [] })
    ≡ decoded (record two_taken { curr = 0 })
handle_from_byte_array-handle_to_byte_array_example =
    handle_from_byte_array-handle_to_byte_array two_taken (record two_taken { curr = 0; head = [] })
      two_taken-IsHandle
