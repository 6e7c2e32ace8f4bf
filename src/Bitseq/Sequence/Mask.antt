-- ===== src/Bitseq/Sequence/Mask.antt =====
-- What a list of nodes stands for: the block at each index, the bit at each ordinal. The notions by
-- which the theorems on bitseq/sequence.go speak, with how they go through a pointer's split.
use libnetwork.Prelude.{
  ℕ, ◌+◌, ◌-◌, ◌/◌, ◌%◌, ◌^◌, ◌≤◌, ◌<◌, ◌≡◌, ◌≢◌, refl, sym, ◌∙◌, Bool, false, Option, none, some,
  List, [], ◌∷◌, arith, ltb, ◌==◌, if◌then◌else◌, reverse_append, All,
}
use libnetwork.Prelude.Word.{bit_of}
use libnetwork.Bitseq.Sequence.{Node}

-- The number of blocks.
abbrev pub size : List Node → ℕ
size [] = 0
size (n ∷ s) = n.count + size s

-- The block at an index.
abbrev pub block_at : List Node → ℕ → Option ℕ
block_at [] i = none
block_at (n ∷ s) i = if ltb i n.count then some n.block else block_at s (i - n.count)

abbrev pub bit_in : Option ℕ → ℕ → Bool
bit_in none p = false
bit_in (some b) p = bit_of b (31 - p) == 1

-- The bit at an ordinal: bit 0 is the most significant of its block.
abbrev pub is_set : List Node → ℕ → Bool
is_set s o = bit_in (block_at s (o / 32)) (o % 32)

-- Every node holds a block, the blocks are words, and positions stay within a uint64.
pub record IsSequence (s : List Node) : Type 0 where
  pub positive : All (λ n. 0 < n.count) s
  pub words : All (λ n. n.block < 2 ^ 32) s
  pub fits : size s ≤ 2 ^ 59
  pub has_head : 0 < size s

-- The first block of the list, if there is one, is not `b`.
abbrev pub Differs : ℕ → List Node → Type 0
Differs b [] = Unit
Differs b (n ∷ s) = b ≢ n.block

-- Neighbours hold different blocks: no two nodes can be merged.
abbrev pub IsMerged : List Node → Type 0
IsMerged [] = Unit
IsMerged (n ∷ s) = Differs n.block s × IsMerged s

-- `t` is `s` with the block at index `k` replaced by `b`.
abbrev pub IsUpdate : List Node → ℕ → ℕ → List Node → Type 0
IsUpdate s k b t = (i : ℕ) → block_at t i ≡ (if i == k then some b else block_at s i)

pub size-splice : (r xs : List Node) → size (reverse_append r xs) ≡ size r + size xs
size-splice [] xs = omega arith
size-splice (x ∷ r) xs = omega (arith, size-splice r (x ∷ xs))

pub block_at-splice :
    (r xs : List Node) (i : ℕ)
    → block_at (reverse_append r xs) i
      ≡ (if ltb i (size r) then block_at (reverse_append r []) i else block_at xs (i - size r))
block_at-splice [] xs i = ground arith
block_at-splice (x ∷ r) xs i =
    ground (arith, block_at-splice r (x ∷ xs) i, block_at-splice r (x ∷ []) i)

pub block_at_beyond : (s : List Node) (i : ℕ) → size s ≤ i → block_at s i ≡ none
block_at_beyond [] i h = refl
block_at_beyond (n ∷ s) i h = ground (arith, block_at_beyond s (i - n.count))

module _ {κ} (P : Node → Type κ) where
  pub All-splice : (r xs : List Node) → All P r → All P xs → All P (reverse_append r xs)
  All-splice [] xs hr hx = hx
  All-splice (x ∷ r) xs hr hx = All-splice r (x ∷ xs) hr.1 (hr.0, hx)

  pub All-unsplice : (r xs : List Node) → All P (reverse_append r xs) → All P r × All P xs
  All-unsplice [] xs h = (tt, h)
  All-unsplice (x ∷ r) xs h = let rest = All-unsplice r (x ∷ xs) h in ((rest.1.0, rest.0), rest.1.1)

-- A change behind a pointer is a change of the list.
pub splice-IsUpdate :
    (r xs ys : List Node) (k b : ℕ)
    → IsUpdate xs k b ys
    → IsUpdate (reverse_append r xs) (size r + k) b (reverse_append r ys)
splice-IsUpdate r xs ys k b h i =
    ground (arith, block_at-splice r xs i, block_at-splice r ys i, h (i - size r))

-- So is a list that agrees with another at every index.
pub splice_ext :
    (r xs ys : List Node)
    → ((i : ℕ) → block_at xs i ≡ block_at ys i)
    → (i : ℕ) → block_at (reverse_append r xs) i ≡ block_at (reverse_append r ys) i
splice_ext r xs ys h i =
    ground (arith, block_at-splice r xs i, block_at-splice r ys i, h (i - size r))

pub IsMerged-behind : (r xs : List Node) → IsMerged (reverse_append r xs) → IsMerged xs
IsMerged-behind [] xs h = h
IsMerged-behind (x ∷ r) xs h = (IsMerged-behind r (x ∷ xs) h).1

-- Behind a pointer only the first block matters to the nodes in front.
pub splice-IsMerged :
    (r : List Node) (x y : Node) (xs ys : List Node)
    → x.block ≡ y.block
    → IsMerged (reverse_append r (x ∷ xs))
    → IsMerged (y ∷ ys)
    → IsMerged (reverse_append r (y ∷ ys))
splice-IsMerged [] x y xs ys e h k = k
splice-IsMerged (z ∷ r) x y xs ys e h k =
    splice-IsMerged r z z (x ∷ xs) (y ∷ ys) refl h (λ q. (IsMerged-behind r _ h).0 (q ∙ sym e), k)
