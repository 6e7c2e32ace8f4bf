-- ===== src/Bitseq/Codec/Bytes.antt =====
-- bitseq/sequence.go: what is encoded is decoded again, and the other way round.
use libnetwork.Prelude.{
  ℕ, zero, suc, ◌*◌, ◌%◌, ◌^◌, ◌≤◌, ◌<◌, ◌≡◌, refl, ap, ◌∙◌, false, not, some, List, [], ◌∷◌, arith,
  ◌==◌, All, length,
}
use libnetwork.Bitseq.Sequence.{Node}
use libnetwork.Bitseq.Sequence.Mask.{size, IsSequence}
use libnetwork.Bitseq.Handle.{Handle}
use libnetwork.Bitseq.Handle.Count.{count_clear-le}
use libnetwork.Bitseq.Handle.Reserve.{IsHandle}
use libnetwork.Bitseq.Sequence.Mask.{is_set}
use libnetwork.Bitseq.Codec.{
  decoded, put, take_number, put_node, to_byte_array, from_byte_array, count_of, node_of, add_node,
  read_nodes, handle_to_byte_array, handle_from_byte_array, set_decoded, behind_bits, read_handle,
}

take_number-put4 :
    (v : ℕ) (out : List ℕ) → v < 2 ^ 32 → take_number 4 0 (put 4 v out) ≡ some (v, out)
take_number-put4 v out h = ap (λ x. some (x, out)) (omega arith)

take_number-put8 :
    (v : ℕ) (out : List ℕ) → v < 2 ^ 64 → take_number 8 0 (put 8 v out) ≡ some (v, out)
take_number-put8 v out h = ap (λ x. some (x, out)) (omega arith)

node_of-put_node :
    (n : Node) (out : List ℕ)
    → n.block < 2 ^ 32
    → n.count < 2 ^ 64
    → node_of (take_number 4 0 (put_node n out)) ≡ some (n, out)
unfolding node_of count_of
node_of-put_node n out h k =
    ap node_of (take_number-put4 n.block (put 8 n.count out) h)
    ∙ ap (count_of n.block) (take_number-put8 n.count out k)

pub read_last :
    (fuel : ℕ) (bytes : List ℕ) (n : Node)
    → node_of (take_number 4 0 bytes) ≡ some (n, [])
    → read_nodes (suc fuel) bytes ≡ decoded (n ∷ [])
unfolding read_nodes
read_last fuel bytes n e = rw (e, read_nodes) refl

pub read_more :
    (fuel : ℕ) (bytes : List ℕ) (n : Node) (b : ℕ) (rest : List ℕ)
    → node_of (take_number 4 0 bytes) ≡ some (n, b ∷ rest)
    → read_nodes (suc fuel) bytes ≡ add_node n (read_nodes fuel (b ∷ rest))
unfolding read_nodes
read_more fuel bytes n b rest e = rw (e, read_nodes) refl

-- Nodes whose numbers fit.
abbrev pub AllFit : List Node → Type 0
AllFit s = All (λ n. (n.block < 2 ^ 32) × (n.count < 2 ^ 64)) s

read_nodes-to_byte_array :
    (fuel : ℕ) (n : Node) (s : List Node)
    → length s ≤ fuel
    → AllFit (n ∷ s)
    → read_nodes (suc fuel) (to_byte_array (n ∷ s)) ≡ decoded (n ∷ s)
unfolding to_byte_array
read_nodes-to_byte_array fuel n [] le fit =
    read_last fuel (put_node n []) n (node_of-put_node n [] fit.0.0 fit.0.1)
read_nodes-to_byte_array zero n (m ∷ s) le fit = absurd (omega arith)
read_nodes-to_byte_array (suc fuel) n (m ∷ s) le fit =
    read_more (suc fuel) (put_node n (put_node m (to_byte_array s))) n _ _
      (node_of-put_node n (put_node m (to_byte_array s)) fit.0.0 fit.0.1)
    ∙ ap (add_node n) (read_nodes-to_byte_array fuel m s (omega arith) fit.1)
    ∙ (unfold add_node in refl)

length-to_byte_array : (s : List Node) → length (to_byte_array s) ≡ 12 * length s
unfolding to_byte_array
length-to_byte_array [] = refl
length-to_byte_array (n ∷ s) = omega (arith, length-to_byte_array s)

-- fromByteArray reads back the very list that toByteArray wrote, for a list of at least one node whose
-- blocks and counts are words.
pub from_byte_array-to_byte_array :
    (n : Node) (s : List Node)
    → AllFit (n ∷ s)
    → from_byte_array (to_byte_array (n ∷ s)) ≡ decoded (n ∷ s)
unfolding from_byte_array
from_byte_array-to_byte_array n s fit =
    let len = length-to_byte_array (n ∷ s) in
    let multiple : not (length (to_byte_array (n ∷ s)) % 12 == 0) ≡ false = ground arith in
    rw multiple (read_nodes-to_byte_array (length (to_byte_array (n ∷ s))) n s (omega arith) fit)

words-AllFit : (s : List Node) → All (λ n. n.block < 2 ^ 32) s → size s ≤ 2 ^ 59 → AllFit s
words-AllFit [] w small = tt
words-AllFit (n ∷ s) w small = ((w.0, omega arith), words-AllFit s w.1 (omega arith))

sequence_trip : (s : List Node) → IsSequence s → from_byte_array (to_byte_array s) ≡ decoded s
sequence_trip [] v = absurd (omega (arith, v.has_head))
sequence_trip (n ∷ s) v = from_byte_array-to_byte_array n s (words-AllFit (n ∷ s) v.words v.fits)

-- FromByteArray reads back the bits, the free count and the list that ToByteArray wrote for a handle
-- that satisfies the invariant, into whatever handle it is given.
pub handle_from_byte_array-handle_to_byte_array :
    (h g : Handle)
    → IsHandle h
    → handle_from_byte_array (some (handle_to_byte_array h)) g
      ≡ decoded (record g { bits = h.bits; unselected = h.unselected; head = h.head })
unfolding handle_from_byte_array handle_to_byte_array read_handle behind_bits set_decoded
handle_from_byte_array-handle_to_byte_array h g v =
    let small = count_clear-le h.bits (is_set h.head) in
    let bytes = to_byte_array h.head in
    ap (read_handle g) (take_number-put8 h.bits (put 8 h.unselected bytes) v.word)
    ∙ ap (behind_bits g h.bits)
        (take_number-put8 h.unselected bytes (omega (arith, v.word, v.counted)))
    ∙ ap (set_decoded h.bits h.unselected g) (sequence_trip h.head v.sequence)
