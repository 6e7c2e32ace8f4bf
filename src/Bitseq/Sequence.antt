-- ===== src/Bitseq/Sequence.antt =====
-- bitseq/sequence.go, the functions on the run-length encoded list. A `*sequence` is the list of
-- the nodes that hang on it and nil is the empty list; every function that writes nodes is given a
-- private copy of the list, so the result is the new list. A pointer to the middle of a list is a
-- `Location`. Blocks are uint32; counts, ordinals and positions are uint64.
pub mod Mask
pub mod Find
pub mod Block
pub mod Merge
pub mod Insert
pub mod Keep
pub mod Push
pub mod Canonical
pub mod Scan
pub mod Search
pub mod First
pub mod Range
pub mod Consistency
use Prim.Native.Nat.{bit_and, bit_or}
use libnetwork.Prelude.{
  ℕ, zero, suc, ◌+◌, ◌-◌, ◌*◌, ◌/◌, ◌%◌, ◌^◌, Bool, true, false, not, ◌&&◌, ◌||◌, Option, none,
  some, List, [], ◌∷◌, ltb, leb, ◌==◌, if◌then◌else◌, reverse_append,
}
use libnetwork.Prelude.Word.{u64, sub64, shr, and_not32}
use libnetwork.Prelude.Result.{Result, ok, err}

abbrev pub block_len : ℕ
block_len = 32

abbrev pub block_bytes : ℕ
block_bytes = 4

abbrev pub block_max : ℕ
block_max = 2 ^ 32 - 1

abbrev pub block_first_bit : ℕ
block_first_bit = 2 ^ 31

pub data Error : Type 0 where
  -- ErrNoBitAvailable and ErrBitAllocated
  no_bit_available bit_allocated : Error
  -- "invalid bit range", "bit does not belong to the sequence"
  invalid_range not_in_sequence : Error
  -- an error of the datastore that is handed on
  store_failure : Error
  -- not an error of the source: a bound on rounds that the model puts on a loop was met
  out_of_fuel : Error

-- One node of the list: `count` consecutive blocks with the bits `block`.
pub record Node : Type 0 where
  pub block : ℕ
  pub count : ℕ

-- The two values of ordinalToPos: a byte of the mask and a bit of that byte.
pub record Position : Type 0 where
  pub byte : ℕ
  pub bit : ℕ

unfoldable pub get_num_blocks : ℕ → ℕ
get_num_blocks num_bits =
    let num_blocks = num_bits / block_len in
    if num_bits % block_len == 0 then num_blocks else u64 (num_blocks + 1)

abbrev pub ordinal_to_pos : ℕ → Position
ordinal_to_pos ordinal = record { byte = ordinal / 8; bit = ordinal % 8 }

abbrev pub pos_to_ordinal : Position → ℕ
pos_to_ordinal p = u64 (p.byte * 8 + p.bit)

-- The loop of getAvailableBit: the selector shifts right past bits that are set. It ends by its own
-- test within 32 rounds, since a selector is below 2 ^ 32.
pub scan_block : ℕ → ℕ → ℕ → ℕ → ℕ × ℕ
scan_block zero block bit_sel bits = (bit_sel, bits)
scan_block (suc fuel) block bit_sel bits =
    let rest = scan_block fuel block (bit_sel / 2) (bits + 1) in
    if ltb 0 bit_sel && not (bit_and block bit_sel == 0) then rest else (bit_sel, bits)

pub available_in_block : ℕ × ℕ → Result Error Position
available_in_block (bit_sel, bits) =
    if bit_sel == 0 then err no_bit_available else ok (record { byte = bits / 8; bit = bits % 8 })

pub get_available_bit : Node → ℕ → Result Error Position
unfolding scan_block available_in_block
get_available_bit s from =
    if s.block == block_max || s.count == 0
    then err no_bit_available
    else available_in_block (scan_block 32 s.block (shr block_first_bit from) from)

-- The pointers and numbers that findSequence returns. `before` holds the nodes in front of
-- `current`, the nearest first: its head is `previous`, and where it is empty `current` is the head
-- of the list.
pub record Location : Type 0 where
  pub before : List Node
  pub current : Node
  pub after : List Node
  pub prec_blocks : ℕ
  pub in_block_byte_pos : ℕ

abbrev pub byte_count : Node → ℕ
byte_count s = u64 (s.count * block_bytes)

-- What follows the loop of findSequence. `none` stands for (nil, nil, 0, invalidPos).
pub locate : ℕ → ℕ → List Node → Node → List Node → Option Location
locate byte_pos n before current after =
    if leb (byte_count current) n
    then none
    else some (record {
      before = before;
      current = current;
      after = after;
      prec_blocks = n / block_bytes;
      in_block_byte_pos = byte_pos % block_bytes;
    })

pub find_loop : ℕ → ℕ → List Node → Node → List Node → Option Location
unfolding locate
find_loop byte_pos n before current [] = locate byte_pos n before current []
find_loop byte_pos n before current (next ∷ after) = elim (leb (byte_count current) n) [
  | true ↦ find_loop byte_pos (n - byte_count current) (current ∷ before) next after
  | false ↦ locate byte_pos n before current (next ∷ after)
]

-- A nil head, which no handle holds, is a nil dereference in the source.
pub find_sequence : List Node → ℕ → Option Location
unfolding find_loop
find_sequence [] byte_pos = none
find_sequence (head ∷ rest) byte_pos = find_loop byte_pos byte_pos [] head rest

-- The selector of a bit, counted from the most significant bit of the block.
abbrev pub selector : Location → ℕ → ℕ
selector l bit_pos = shr block_first_bit (l.in_block_byte_pos * 8 + bit_pos)

pub check_at : Position → Option Location → Result Error Position
check_at p none = err bit_allocated
check_at p (some l) =
    if bit_and l.current.block (selector l p.bit) == 0 then ok p else err bit_allocated

pub check_if_available : List Node → ℕ → Result Error Position
unfolding check_at find_sequence
check_if_available head ordinal =
    let p : Position = ordinal_to_pos ordinal in check_at p (find_sequence head p.byte)

-- mergeSequences, from a node and what hangs on it.
pub merge_sequences : Node → List Node → List Node
merge_sequences seq [] = seq ∷ []
merge_sequences seq (next ∷ rest) = elim (seq.block == next.block) [
  | true ↦ merge_sequences (record seq { count = u64 (seq.count + next.count) }) rest
  | false ↦ seq ∷ merge_sequences next rest
]

pub remove_current_if_empty : Node → List Node → List Node
remove_current_if_empty current after = if current.count == 0 then after else current ∷ after

-- (A): the new block stands in front of `current`, and merging starts at `previous`, or at the new
-- node where that has become the head.
pub insert_first : List Node → Node → List Node → List Node
unfolding merge_sequences
insert_first [] fresh rest = merge_sequences fresh rest
insert_first (previous ∷ before) fresh rest =
    reverse_append before (merge_sequences previous (fresh ∷ rest))

-- The three forms of the resulting list. `current` has lost one block already.
pub insert_block : Location → Node → ℕ → List Node
unfolding insert_first remove_current_if_empty merge_sequences
insert_block l current new_block =
    let fresh : Node = record { block = new_block; count = 1 } in
    if l.prec_blocks == 0
    then insert_first l.before fresh (remove_current_if_empty current l.after)
    else if l.prec_blocks == current.count
    then reverse_append l.before (merge_sequences current (fresh ∷ l.after))
    else reverse_append l.before (
        record { block = current.block; count = l.prec_blocks }
        ∷ fresh
        ∷ record current { count = sub64 current.count l.prec_blocks }
        ∷ l.after)

abbrev pub updated_block : ℕ → ℕ → Bool → ℕ
updated_block block bit_sel release =
    if release then and_not32 block bit_sel else bit_or block bit_sel

pub push_at : List Node → ℕ → Bool → Option Location → List Node
unfolding insert_block
push_at head bit_pos release none = head
push_at head bit_pos release (some l) =
    let new_block = updated_block l.current.block (selector l bit_pos) release in
    if l.current.block == new_block
    then head
    else insert_block l (record l.current { count = sub64 l.current.count 1 }) new_block

pub push_reservation : Position → List Node → Bool → List Node
unfolding push_at find_sequence
push_reservation p head release = push_at head p.bit release (find_sequence head p.byte)

-- How the `retry` loop of getFirstAvailable leaves a node: with a position, or at its last block
-- with the offsets that it has reached.
pub data Retry : Type 0 where
  found : Position → Retry
  last_block : ℕ → ℕ → Retry
  no_fuel : Retry

pub retry : ℕ → Node → ℕ → ℕ → ℕ → Retry
retry zero current bit_offset byte_offset prec_blocks = no_fuel
retry (suc fuel) current bit_offset byte_offset prec_blocks =
    elim (get_available_bit current bit_offset) [
      | ok p ↦ found (record { byte = u64 (byte_offset + p.byte); bit = p.bit })
      | err _ ↦ elim (prec_blocks == sub64 current.count 1) [
        | true ↦ last_block byte_offset prec_blocks
        | false ↦ retry fuel current 0 (u64 (byte_offset + block_bytes)) (u64 (prec_blocks + 1))
      ]
    ]

-- The byte offset of the node behind `current`.
abbrev pub next_offset : Node → ℕ → ℕ → ℕ
next_offset current byte_offset prec_blocks =
    u64 (byte_offset + sub64 (byte_count current) (u64 (prec_blocks * block_bytes)))

-- A full block is skipped; any other is tried at each of its instances.
abbrev pub try_node : Node → ℕ → ℕ → ℕ → Retry
try_node current bit_offset byte_offset prec_blocks =
    if current.block == block_max
    then last_block byte_offset prec_blocks
    else retry (suc current.count) current bit_offset byte_offset prec_blocks

-- The outer loop, over the nodes from `current` on.
pub search_nodes : List Node → ℕ → ℕ → ℕ → Result Error Position
unfolding retry get_available_bit
search_nodes [] bit_offset byte_offset prec_blocks = err no_bit_available
search_nodes (current ∷ rest) bit_offset byte_offset prec_blocks =
    elim (try_node current bit_offset byte_offset prec_blocks) [
      | found p ↦ ok p
      | last_block offset prec ↦ search_nodes rest 0 (next_offset current offset prec) 0
      | no_fuel ↦ err out_of_fuel
    ]

pub search_from : Position → Option Location → Result Error Position
unfolding search_nodes
search_from p none = err no_bit_available
search_from p (some l) =
    search_nodes (l.current ∷ l.after) (l.in_block_byte_pos * 8 + p.bit)
      (sub64 p.byte l.in_block_byte_pos) l.prec_blocks

pub get_first_available : List Node → ℕ → Result Error Position
unfolding search_from find_sequence
get_first_available head start =
    let p : Position = ordinal_to_pos start in search_from p (find_sequence head p.byte)

-- `if end < ret || err != nil`
pub up_to : ℕ → Result Error Position → Result Error Position
up_to end (ok p) = if ltb end (pos_to_ordinal p) then err no_bit_available else ok p
up_to end (err out_of_fuel) = err out_of_fuel
up_to end (err e) = err no_bit_available

-- The `goto begin` of a search that found nothing.
pub or_begin : Result Error Position → Result Error Position → Result Error Position
or_begin (ok p) again = ok p
or_begin (err out_of_fuel) again = err out_of_fuel
or_begin (err e) again = again

pub get_available_from_current : List Node → ℕ → ℕ → ℕ → Result Error Position
unfolding up_to or_begin get_first_available
get_available_from_current head start curr end =
    let from_start = up_to end (get_first_available head start) in
    if not (curr == 0) && ltb start curr
    then or_begin (up_to end (get_first_available head curr)) from_start
    else from_start

pub equal : List Node → List Node → Bool
equal [] [] = true
equal [] (o ∷ other) = false
equal (s ∷ this) [] = false
equal (s ∷ this) (o ∷ other) =
    if not (s.block == o.block) || not (s.count == o.count) then false else equal this other

-- The loop of runConsistencyCheck behind the node `p`: nodes with no block are unlinked.
pub unlink_empty : List Node → List Node × Bool
unlink_empty [] = ([], false)
unlink_empty (c ∷ rest) =
    let (kept, corrupted) = unlink_empty rest in
    if c.count == 0 then (kept, true) else (c ∷ kept, corrupted)

pub run_consistency_check : List Node → List Node × Bool
unfolding unlink_empty
run_consistency_check [] = ([], false)
run_consistency_check (head ∷ rest) =
    let (kept, corrupted) = unlink_empty rest in (head ∷ kept, corrupted)
