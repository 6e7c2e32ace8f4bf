-- ===== src/Bitseq/Sequence/Range.antt =====
-- bitseq/sequence.go: getAvailableFromCurrent, the search in a range that starts at the current
-- ordinal and falls back to the start of the range.
use libnetwork.Prelude.{
  ℕ, ◌*◌, ◌≤◌, ◌<◌, ◌≡◌, ◌⊎◌, refl, true, false, not, ◌&&◌, inl, inr, List, arith, ltb, ◌==◌,
  if◌then◌else◌, Bool-cases,
}
use libnetwork.Prelude.Result.{Result, ok, err}
use libnetwork.Bitseq.Sequence.{
  Node, Position, Error, no_bit_available, get_available_from_current, up_to, or_begin,
  ordinal_to_pos, pos_to_ordinal,
}
use libnetwork.Bitseq.Sequence.Mask.{size, is_set, IsSequence}
use libnetwork.Bitseq.Sequence.First.{FirstClear, get_first_available-FirstClear}

-- Every bit of the list from `lo` to `hi` is set.
abbrev pub AllSet : List Node → ℕ → ℕ → Type 0
AllSet s lo hi = (j : ℕ) → lo ≤ j → j ≤ hi → j < 32 * size s → is_set s j ≡ true

-- `o` is a clear bit of the list, with none before it from `lo` on.
pub record IsFirstClear (s : List Node) (lo o : ℕ) : Type 0 where
  pub from_lo : lo ≤ o
  pub within : o < 32 * size s
  pub clear : is_set s o ≡ false
  pub before : (j : ℕ) → lo ≤ j → j < o → is_set s j ≡ true

-- The answer of a search in the range from `lo` to `hi`.
abbrev pub FirstInRange : List Node → ℕ → ℕ → Result Error Position → Type 0
FirstInRange s lo hi r =
    ((o : ℕ) × (r ≡ ok (ordinal_to_pos o)) × (o ≤ hi) × IsFirstClear s lo o)
    ⊎ ((r ≡ err no_bit_available) × AllSet s lo hi)

up_to-FirstInRange :
    (s : List Node) (lo hi : ℕ) (r : Result Error Position)
    → IsSequence s
    → FirstClear s lo r
    → FirstInRange s lo hi (up_to hi r)
unfolding up_to
up_to-FirstInRange s lo hi r v (inl (o, e, le, lt, clear, before)) =
    rw e (elim (Bool-cases (ltb hi o)) [
      | inl beyond ↦ inr (rw (back, beyond), λ j a b c. before j a (ground arith))
      | inr fits ↦ inl (
        o,
        rw (back, fits),
        ground arith,
        record { from_lo = le; within = lt; clear = clear; before = before },
      )
    ])
  where
    back : pos_to_ordinal (ordinal_to_pos o) ≡ o
    back = omega (arith, v.fits)
up_to-FirstInRange s lo hi r v (inr (e, all)) = rw e (inr (refl, λ j a b c. all j a c))

-- Where getAvailableFromCurrent begins to look.
abbrev pub begin_at : ℕ → ℕ → ℕ
begin_at start curr = if ltb start curr then curr else start

-- The first clear bit from the current ordinal on, or if there is none in the range, the first from
-- its start on; or none.
abbrev pub PicksInRange : List Node → ℕ → ℕ → ℕ → Result Error Position → Type 0
PicksInRange s start curr hi r =
    ((o : ℕ) × (r ≡ ok (ordinal_to_pos o))
      × (o ≤ hi)
      × (IsFirstClear s (begin_at start curr) o
          ⊎ (AllSet s (begin_at start curr) hi × IsFirstClear s start o)))
    ⊎ ((r ≡ err no_bit_available) × AllSet s start hi)

-- On a well-formed list getAvailableFromCurrent picks the first clear bit of the range at or after
-- the current ordinal, wraps to the start of the range if there is none, and fails exactly where
-- every bit of the range is set.
pub get_available_from_current-PicksInRange :
    (s : List Node) (start curr hi : ℕ)
    → IsSequence s
    → PicksInRange s start curr hi (get_available_from_current s start curr hi)
unfolding get_available_from_current or_begin
get_available_from_current-PicksInRange s start curr hi v = elim (Bool-cases (ltb start curr)) [
  | inl later ↦
      let nonzero : (curr == 0) ≡ false = ground arith in
      rw (later, nonzero)
        (elim (up_to-FirstInRange s curr hi _ v (get_first_available-FirstClear s curr v)) [
          | inl (o, e, le, first) ↦ rw e (inl (o, refl, le, inl first))
          | inr (e, all) ↦
              rw e
                (elim (up_to-FirstInRange s start hi _ v
                  (get_first_available-FirstClear s start v)) [
                    | inl (o, e', le, first) ↦ rw e' (inl (o, refl, le, inr (all, first)))
                    | inr (e', all') ↦ rw e' (inr (refl, all'))
                  ])
        ])
  | inr sooner ↦
      let test : (not (curr == 0) && ltb start curr) ≡ false = ground arith in
      rw (test, sooner)
        (elim (up_to-FirstInRange s start hi _ v (get_first_available-FirstClear s start v)) [
          | inl (o, e', le, first) ↦ rw e' (inl (o, refl, le, inl first))
          | inr (e', all') ↦ rw e' (inr (refl, all'))
        ])
]
