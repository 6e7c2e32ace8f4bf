-- ===== src/Bitseq/Sequence/Search.antt =====
-- bitseq/sequence.go: getFirstAvailable finds the first clear bit from an ordinal on, within the
-- rounds that the model grants its loops.
use libnetwork.Prelude.{
  ℕ, suc, ◌+◌, ◌-◌, ◌*◌, ◌/◌, ◌%◌, ◌^◌, ◌≤◌, ◌<◌, ◌≡◌, ◌≢◌, refl, sym, subst, ◌∙◌, Bool, true,
  false, inl, inr, arith, ltb, ltb→lt, ◌==◌, ==_iff, Bool-cases,
}
use libnetwork.Prelude.Word.{u64, sub64}
use libnetwork.Prelude.Result.{Result, ok, err}
use libnetwork.Bitseq.Sequence.{
  Node, Position, Error, no_bit_available, block_max, get_available_bit, Retry, found, last_block,
  no_fuel, retry, try_node,
}
use libnetwork.Bitseq.Sequence.Block.{bit_at, bit_at_ext, bit_at_full}
use libnetwork.Bitseq.Sequence.Scan.{Stops, get_available_bit-FindsBit}

-- What a search from ordinal `t` on has to find, in a list that stands `base` blocks behind the head
-- of the whole: the first clear bit, or none because there is none.
abbrev pub Finding : (ℕ → Bool) → ℕ → ℕ → ℕ → Result Error Position → Type 0
Finding set blocks base t (ok p) =
    (o : ℕ) × (t ≤ o)
    × (o < 32 * blocks)
    × (p.byte * 8 + p.bit ≡ 32 * base + o)
    × (p.bit < 8)
    × (set o ≡ false)
    × ((j : ℕ) → t ≤ j → j < o → set j ≡ true)
Finding set blocks base t (err e) =
    (e ≡ no_bit_available) × ((j : ℕ) → t ≤ j → j < 32 * blocks → set j ≡ true)

module _ (n : Node) (fuel from offset prec : ℕ) where
  retry_hit :
      (p : Position)
      → get_available_bit n from ≡ ok p
      → retry (suc fuel) n from offset prec
        ≡ found (record { byte = u64 (offset + p.byte); bit = p.bit })
  unfolding retry
  retry_hit p e = rw (e, retry)

  module _ (e : Error) (miss : get_available_bit n from ≡ err e) where
    retry_last :
        prec ≡ sub64 n.count 1 → retry (suc fuel) n from offset prec ≡ last_block offset prec
    unfolding retry
    retry_last last = rw (miss, retry) (rw ((==_iff _ _).1 last))

    retry_next :
        prec ≢ sub64 n.count 1
        → retry (suc fuel) n from offset prec ≡ retry fuel n 0 (u64 (offset + 4)) (u64 (prec + 1))
    unfolding retry
    retry_next more =
        let e : (prec == sub64 n.count 1) ≡ false = ground arith in rw (miss, retry) (rw e)

-- The same of one node, whose blocks are all alike.
abbrev pub Leaves : Node → ℕ → ℕ → Retry → Type 0
Leaves n base t (found p) = Finding (λ j. bit_at n.block (j % 32)) n.count base t (ok p)
Leaves n base t (last_block offset prec) =
    (offset ≡ 4 * (base + prec))
    × (prec < n.count)
    × ((j : ℕ) → t ≤ j → j < 32 * n.count → bit_at n.block (j % 32) ≡ true)
Leaves n base t no_fuel = ⊥

module _ (n : Node) (base : ℕ) (pos : 0 < n.count) (word : n.block < 2 ^ 32)
    (small : base + n.count ≤ 2 ^ 59) where
  hit-Leaves :
      (from prec k : ℕ)
      → prec < n.count
      → k < 32
      → bit_at n.block k ≡ false
      → Stops n.block from k
      → Leaves n base
          (32 * prec + from)
          (found (record { byte = u64 (4 * (base + prec) + k / 8); bit = k % 8 }))
  hit-Leaves from prec k within h clear st = (
    32 * prec + k,
    omega (arith, st.from_le),
    omega arith,
    omega arith,
    omega arith,
    (let e : (32 * prec + k) % 32 ≡ k = omega arith in rw e clear),
    λ j a b. st.before (j % 32) (omega arith) (omega arith),
  )

  -- From the start of a block that is not full the search succeeds.
  retry_at_start :
      (fuel prec : ℕ)
      → prec < n.count
      → n.block ≢ block_max
      → Leaves n base (32 * prec) (retry (suc fuel) n 0 (4 * (base + prec)) prec)
  retry_at_start fuel prec within partial =
      elim (get_available_bit-FindsBit n 0 pos word (omega arith)) [
        | inl (k, e, lt, clear, st) ↦
            let t : 32 * prec ≡ 32 * prec + 0 = omega arith in
            rw (retry_hit n fuel 0 (4 * (base + prec)) prec _ e)
              (rw t (hit-Leaves 0 prec k within lt clear st))
        | inr (e, all) ↦ absurd (
            partial (
              bit_at_ext _ _ word (omega arith)
                (λ p h. all p (omega arith) h ∙ sym (bit_at_full p))))
      ]

  last-Leaves :
      (from prec : ℕ)
      → prec < n.count
      → prec ≡ sub64 n.count 1
      → ((q : ℕ) → from ≤ q → q < 32 → bit_at n.block q ≡ true)
      → Leaves n base (32 * prec + from) (last_block (4 * (base + prec)) prec)
  last-Leaves from prec within last all =
      (refl, within, λ j a b. all (j % 32) (omega arith) (omega arith))

  skip_block :
      (from prec j : ℕ)
      → from < 32
      → ((q : ℕ) → from ≤ q → q < 32 → bit_at n.block q ≡ true)
      → 32 * prec + from ≤ j
      → (32 * (prec + 1) ≤ j → bit_at n.block (j % 32) ≡ true)
      → bit_at n.block (j % 32) ≡ true
  skip_block from prec j h all a later = elim (Bool-cases (ltb j (32 * (prec + 1)))) [
    | inl here ↦
        let lt : j < 32 * (prec + 1) = ltb→lt _ _ here in all (j % 32) (omega arith) (omega arith)
    | inr there ↦ later (ground arith)
  ]

  -- A search that goes on behind a block's end skips bits that are set.
  earlier-Leaves :
      (from prec : ℕ) (r : Retry)
      → from < 32
      → ((q : ℕ) → from ≤ q → q < 32 → bit_at n.block q ≡ true)
      → Leaves n base (32 * (prec + 1)) r
      → Leaves n base (32 * prec + from) r
  earlier-Leaves from prec (found p) h all (o, le, lt, at, bit, clear, before) = (
    o,
    omega arith,
    lt,
    at,
    bit,
    clear,
    λ j a b. skip_block from prec j h all a (λ c. before j c b),
  )
  earlier-Leaves from prec (last_block offset prec') h all (at, within, before) =
      (at, within, λ j a b. skip_block from prec j h all a (λ c. before j c b))
  earlier-Leaves from prec no_fuel h all l = l

  retry-Leaves :
      (fuel from prec : ℕ)
      → from < 32
      → prec < n.count
      → n.block ≢ block_max
      → Leaves n base (32 * prec + from) (retry (suc (suc fuel)) n from (4 * (base + prec)) prec)
  retry-Leaves fuel from prec a within partial =
      elim (get_available_bit-FindsBit n from pos word (omega arith)) [
        | inl (k, e, lt, clear, st) ↦
            rw (retry_hit n (suc fuel) from (4 * (base + prec)) prec _ e)
              (hit-Leaves from prec k within lt clear st)
        | inr (e, all) ↦ elim (Bool-cases (prec == sub64 n.count 1)) [
          | inl last ↦
              let q = (==_iff _ _).0 last in
              rw (retry_last n (suc fuel) from (4 * (base + prec)) prec _ e q)
                (last-Leaves from prec within q all)
          | inr more ↦
              let offset : u64 (4 * (base + prec) + 4) ≡ 4 * (base + (prec + 1)) = omega arith in
              let prec' : u64 (prec + 1) ≡ prec + 1 = omega arith in
              rw (retry_next n (suc fuel) from (4 * (base + prec)) prec _ e (ground arith)) (
                rw (offset, prec')
                  (earlier-Leaves from prec _ a all
                    (retry_at_start fuel (prec + 1) (ground arith) partial)))
        ]
      ]

  pub try_node-Leaves :
      (from prec : ℕ)
      → from < 32
      → prec < n.count
      → Leaves n base (32 * prec + from) (try_node n from (4 * (base + prec)) prec)
  try_node-Leaves from prec a within = elim (Bool-cases (n.block == block_max)) [
    | inl full ↦
        let e : n.block ≡ block_max = (==_iff _ _).0 full in
        rw full (refl, within, λ j a b. rw e (bit_at_full (j % 32)))
    | inr other ↦
        let e : suc (n.count - 1) ≡ n.count = omega arith in
        rw other (
          subst
            (λ f. Leaves n base (32 * prec + from) (retry (suc f) n from (4 * (base + prec)) prec))
            e (retry-Leaves (n.count - 1) from prec a within (ground arith)))
  ]
