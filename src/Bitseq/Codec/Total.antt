-- ===== src/Bitseq/Codec/Total.antt =====
-- bitseq/sequence.go: what fromByteArray makes of any bytes.
use libnetwork.Prelude.{
  ℕ, zero, suc, ◌+◌, ◌%◌, ◌≤◌, ◌<◌, ◌≡◌, ◌≢◌, ◌⊎◌, refl, ap, ◌∙◌, inl, inr, some, List, [], ◌∷◌,
  arith, ◌==◌, ==_iff, Bool-cases, All, length,
}
use libnetwork.Bitseq.Sequence.{Node}
use libnetwork.Bitseq.Codec.{
  decoded, bad_length, slice_panic, put, take_number, put_node, to_byte_array, from_byte_array,
  count_of, node_of, add_node, read_nodes,
}
use libnetwork.Bitseq.Codec.Bytes.{read_last, read_more}

abbrev pub AllBytes : List ℕ → Type 0
AllBytes bytes = All (λ b. b < 256) bytes

-- A number of `k` bytes is read off the front.
abbrev Reads : ℕ → List ℕ → Type 0
Reads k bytes =
    (v : ℕ) × (rest : List ℕ) × (take_number k 0 bytes ≡ some (v, rest))
    × (put k v rest ≡ bytes)
    × (length bytes ≡ k + length rest)
    × AllBytes rest

cons_same : {a b : ℕ} {s t : List ℕ} → a ≡ b → s ≡ t → a ∷ s ≡ b ∷ t
cons_same p q i = p i ∷ q i

four_bytes : (bytes : List ℕ) → 4 ≤ length bytes → AllBytes bytes → Reads 4 bytes
four_bytes [] le h = absurd (omega arith)
four_bytes (a ∷ []) le h = absurd (omega arith)
four_bytes (a ∷ b ∷ []) le h = absurd (omega arith)
four_bytes (a ∷ b ∷ c ∷ []) le h = absurd (omega arith)
four_bytes (a ∷ b ∷ c ∷ d ∷ rest) le (ha, (hb, (hc, (hd, hr)))) = (
  _,
  rest,
  refl,
  cons_same (omega arith)
      (cons_same (omega arith) (cons_same (omega arith) (cons_same (omega arith) refl))),
  omega arith,
  hr,
)

eight_bytes : (bytes : List ℕ) → 8 ≤ length bytes → AllBytes bytes → Reads 8 bytes
eight_bytes [] le h = absurd (omega arith)
eight_bytes (a ∷ []) le h = absurd (omega arith)
eight_bytes (a ∷ b ∷ []) le h = absurd (omega arith)
eight_bytes (a ∷ b ∷ c ∷ []) le h = absurd (omega arith)
eight_bytes (a ∷ b ∷ c ∷ d ∷ []) le h = absurd (omega arith)
eight_bytes (a ∷ b ∷ c ∷ d ∷ e ∷ []) le h = absurd (omega arith)
eight_bytes (a ∷ b ∷ c ∷ d ∷ e ∷ f ∷ []) le h = absurd (omega arith)
eight_bytes (a ∷ b ∷ c ∷ d ∷ e ∷ f ∷ g ∷ []) le h = absurd (omega arith)
eight_bytes (a ∷ b ∷ c ∷ d ∷ e ∷ f ∷ g ∷ k ∷ rest) le
      (ha, (hb, (hc, (hd, (he, (hf, (hg, (hk, hr)))))))) =
    (
      _,
      rest,
      refl,
      cons_same (omega arith) (
          cons_same (omega arith) (
            cons_same (omega arith) (
              cons_same (omega arith) (
                cons_same (omega arith) (
                  cons_same (omega arith)
                    (cons_same (omega arith) (cons_same (omega arith) refl))))))),
      omega arith,
      hr,
    )

-- A node is read off the front of twelve bytes or more.
node_bytes :
    (bytes : List ℕ)
    → 12 ≤ length bytes
    → AllBytes bytes
    → (n : Node) × (rest : List ℕ) × (node_of (take_number 4 0 bytes) ≡ some (n, rest))
      × (put_node n rest ≡ bytes)
      × (length bytes ≡ 12 + length rest)
      × AllBytes rest
unfolding node_of count_of
node_bytes bytes le h =
    let (v, rest, e, p, l, hr) = four_bytes bytes (omega arith) h in
    let (c, rest', e', p', l', hr') = eight_bytes rest (omega arith) hr in
    (
      record { block = v; count = c },
      rest',
      ap node_of e ∙ ap (count_of v) e',
      ap (put 4 v) p' ∙ p,
      omega arith,
      hr',
    )

add_decoded : (n : Node) (s : List Node) → add_node n (decoded s) ≡ decoded (n ∷ s)
unfolding add_node
add_decoded n s = refl

to_byte_array_cons :
    (n : Node) (s : List Node) → to_byte_array (n ∷ s) ≡ put_node n (to_byte_array s)
unfolding to_byte_array
to_byte_array_cons n s = refl

nil_bytes_of : to_byte_array [] ≡ []
unfolding to_byte_array
nil_bytes_of = refl

-- The bytes are those of a list, and the loop reads it.
abbrev Decodes : ℕ → List ℕ → Type 0
Decodes fuel bytes =
    (s : List Node) × (read_nodes fuel bytes ≡ decoded s) × (to_byte_array s ≡ bytes)

node-Decodes :
    (fuel : ℕ) (bytes : List ℕ) (n : Node) (rest : List ℕ)
    → node_of (take_number 4 0 bytes) ≡ some (n, rest)
    → put_node n rest ≡ bytes
    → (0 < length rest → Decodes fuel rest)
    → Decodes (suc fuel) bytes
node-Decodes fuel bytes n [] e p more =
    (n ∷ [], read_last fuel bytes n e, to_byte_array_cons n [] ∙ ap (put_node n) nil_bytes_of ∙ p)
node-Decodes fuel bytes n (b ∷ rest) e p more =
    let (s, decodes, back) = more (omega arith) in
    (
      n ∷ s,
      read_more fuel bytes n b rest e ∙ ap (add_node n) decodes ∙ add_decoded n s,
      to_byte_array_cons n s ∙ ap (put_node n) back ∙ p,
    )

read_nodes-Decodes :
    (fuel : ℕ) (bytes : List ℕ)
    → 0 < length bytes
    → length bytes % 12 ≡ 0
    → length bytes ≤ fuel
    → AllBytes bytes
    → Decodes fuel bytes
read_nodes-Decodes zero bytes pos multiple le h = absurd (omega arith)
read_nodes-Decodes (suc fuel) bytes pos multiple le h =
    let (n, rest, e, p, l, hr) = node_bytes bytes (omega arith) h in
    node-Decodes fuel bytes n rest e p
      (λ some_left. read_nodes-Decodes fuel rest some_left (omega arith) (omega arith) hr)

-- fromByteArray of any bytes: an error where the length is no multiple of twelve, a slice out of range
-- where there are none, and in every other case the list that toByteArray writes as these bytes.
pub from_byte_array_cases :
    (bytes : List ℕ)
    → AllBytes bytes
    → ((length bytes % 12 ≢ 0) × (from_byte_array bytes ≡ bad_length))
      ⊎ (((bytes ≡ []) × (from_byte_array bytes ≡ slice_panic))
          ⊎ ((s : List Node) × (from_byte_array bytes ≡ decoded s) × (to_byte_array s ≡ bytes)))
unfolding from_byte_array
from_byte_array_cases [] h = inr (inl (refl, (unfold read_nodes node_of in refl)))
from_byte_array_cases (b ∷ bytes) h = elim (Bool-cases (length (b ∷ bytes) % 12 == 0)) [
  | inr other ↦ rw other (inl (ground (arith, other), refl))
  | inl multiple ↦
      let (s, decodes, back) =
        read_nodes-Decodes (suc (length (b ∷ bytes))) (b ∷ bytes) (omega arith)
          ((==_iff _ _).0 multiple) (omega arith) h in
      rw multiple (inr (inr (s, decodes, back)))
]
