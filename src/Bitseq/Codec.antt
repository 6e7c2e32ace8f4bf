-- ===== src/Bitseq/Codec.antt =====
-- bitseq/sequence.go: the encoding of a list of nodes and of a handle to bytes, and back. A byte is a
-- number below 256; a slice expression that is out of range panics.
pub mod Bytes
pub mod Total
use libnetwork.Prelude.{
  ℕ, zero, suc, ◌+◌, ◌*◌, ◌/◌, ◌%◌, Bool, not, Option, none, some, List, [], ◌∷◌, ltb, ◌==◌,
  if◌then◌else◌, length,
}
use libnetwork.Bitseq.Sequence.{Node}
use libnetwork.Bitseq.Handle.{Handle}

-- binary.BigEndian.PutUint32 and PutUint64, for `k` bytes, in front of `out`.
abbrev pub put : ℕ → ℕ → List ℕ → List ℕ
put zero value out = out
put (suc k) value out = put k (value / 256) (value % 256 ∷ out)

-- binary.BigEndian.Uint32 and Uint64 of a slice of `k` bytes, with what stands behind it.
abbrev pub take_number : ℕ → ℕ → List ℕ → Option (ℕ × List ℕ)
take_number zero value ba = some (value, ba)
take_number (suc k) value [] = none
take_number (suc k) value (b ∷ ba) = take_number k (value * 256 + b) ba

-- The bytes of a list, and of a node in front of others.
abbrev pub put_node : Node → List ℕ → List ℕ
put_node n out = put 4 n.block (put 8 n.count out)

pub to_byte_array : List Node → List ℕ
to_byte_array [] = []
to_byte_array (p ∷ next) = put_node p (to_byte_array next)

-- What a decoding comes to. `unfinished` is not of the source: the fuel of the loop was used up.
pub data Decoded {ℓ} (A : Type ℓ) : Type ℓ where
  decoded : A → Decoded A
  bad_length nil_bytes slice_panic unfinished : Decoded A

count_of : ℕ → Option (ℕ × List ℕ) → Option (Node × List ℕ)
count_of block none = none
count_of block (some (count, rest)) = some (record { block = block; count = count }, rest)

pub node_of : Option (ℕ × List ℕ) → Option (Node × List ℕ)
unfolding count_of
node_of none = none
node_of (some (block, rest)) = count_of block (take_number 8 0 rest)

pub add_node : Node → Decoded (List Node) → Decoded (List Node)
add_node n (decoded s) = decoded (n ∷ s)
add_node n bad_length = bad_length
add_node n nil_bytes = nil_bytes
add_node n slice_panic = slice_panic
add_node n unfinished = unfinished

-- The loop of fromByteArray: the node at hand is read, and another one if bytes are left.
pub read_nodes : ℕ → List ℕ → Decoded (List Node)
unfolding node_of add_node
read_nodes zero ba = unfinished
read_nodes (suc fuel) ba = elim (node_of (take_number 4 0 ba)) [
  | none ↦ slice_panic
  | some (n, []) ↦ decoded (n ∷ [])
  | some (n, b ∷ rest) ↦ add_node n (read_nodes fuel (b ∷ rest))
]

-- A node takes twelve bytes, so that the length is enough fuel.
pub from_byte_array : List ℕ → Decoded (List Node)
unfolding read_nodes
from_byte_array ba =
    if not (length ba % 12 == 0) then bad_length else read_nodes (suc (length ba)) ba

pub handle_to_byte_array : Handle → List ℕ
handle_to_byte_array h = put 8 h.bits (put 8 h.unselected (to_byte_array h.head))

set_decoded : ℕ → ℕ → Handle → Decoded (List Node) → Decoded Handle
set_decoded bits unselected h (decoded s) =
    decoded (record h { bits = bits; unselected = unselected; head = s })
set_decoded bits unselected h bad_length = bad_length
set_decoded bits unselected h nil_bytes = nil_bytes
set_decoded bits unselected h slice_panic = slice_panic
set_decoded bits unselected h unfinished = unfinished

behind_bits : Handle → ℕ → Option (ℕ × List ℕ) → Decoded Handle
unfolding set_decoded
behind_bits h bits none = slice_panic
behind_bits h bits (some (unselected, ba)) = set_decoded bits unselected h (from_byte_array ba)

read_handle : Handle → Option (ℕ × List ℕ) → Decoded Handle
unfolding behind_bits
read_handle h none = slice_panic
read_handle h (some (bits, rest)) = behind_bits h bits (take_number 8 0 rest)

-- `none` is the nil slice.
pub handle_from_byte_array : Option (List ℕ) → Handle → Decoded Handle
unfolding read_handle
handle_from_byte_array none h = nil_bytes
handle_from_byte_array (some ba) h = read_handle h (take_number 8 0 ba)
