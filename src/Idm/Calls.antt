-- ===== src/Idm/Calls.antt =====
-- idm/idm.go: how each call changes which ids are taken.
use libnetwork.Prelude.{
  ℕ, ◌+◌, ◌-◌, ◌^◌, ◌≤◌, ◌<◌, ◌≡◌, ◌⊎◌, refl, subst, Bool, true, false, ◌||◌, inl, inr, none, some,
  arith, ltb, if◌then◌else◌, Bool-cases,
}
use libnetwork.Prelude.Word.{u64, sub64}
use libnetwork.Prelude.Result.{Result, ok, err}
use libnetwork.Bitseq.Sequence.{Error, no_bit_available, bit_allocated, invalid_range}
use libnetwork.Bitseq.Sequence.Mask.{is_set}
use libnetwork.Bitseq.Sequence.Range.{AllSet, begin_at}
use libnetwork.Bitseq.Handle.{Handle, set_bit, unset_bit}
use libnetwork.Bitseq.Handle.Reserve.{Writes}
use libnetwork.Bitseq.Handle.Calls.{
  Picks, set_any-Allocates, set_any_in_range-Allocates, set_bit_cases, unset_bit-Writes,
  unset_bit_beyond, unset_bit_free,
}
use libnetwork.Idm.{
  not_in_set, sequence_error, get_id, get_specific_id, get_id_in_range, release, shifted,
}
use libnetwork.Idm.Ids.{manager, IsRange, taken, Moves, id_upper, writes-Moves}

module _ (start end : ℕ) (h : Handle) (v : IsRange start end h) where
  -- What a call of the handle that wrote the bit `o` becomes: an id is handed out.
  shifted_ok :
      (o : ℕ) (r : Handle × Result Error ℕ)
      → r.1 ≡ ok o
      → Writes h o true r.0
      → (shifted (manager start end h) r ≡ (manager start end r.0, ok (start + o)))
        × Moves start end h (start + o) true r.0
  unfolding shifted
  shifted_ok o (g, x) e w =
      let same : u64 (start + o) ≡ start + o =
        omega (arith, id_upper start end h v o true g w, v.word) in
      (rw (e, same), writes-Moves start end h v o true g w)

  all_taken :
      (a b : ℕ)
      → start ≤ a
      → b ≤ end
      → AllSet h.head (a - start) (b - start)
      → (k : ℕ) → a ≤ k
      → k ≤ b
      → taken start end h k ≡ true
  unfolding taken
  all_taken a b l u all k m n = ground (arith, all (k - start))

  taken_bit : (id : ℕ) → taken start end h id ≡ true → is_set h.head (id - start) ≡ true
  unfolding taken
  taken_bit id busy = ground (arith, busy)

  -- An ordinal that is picked in the range from `a` to `b`, as an id.
  picked_bounds :
      (a b : ℕ) (serial : Bool) (o : ℕ)
      → (ltb a start || ltb end b) ≡ false
      → start ≤ b
      → a < 2 ^ 64
      → b < 2 ^ 64
      → Picks h (sub64 a start) (sub64 b start) serial o
      → (a ≤ start + o) × (start + o ≤ b)
  picked_bounds a b serial o inside bs fits_a fits (le, inl first) =
      let c : a - start ≤ begin_at (sub64 a start) (if serial then h.curr else 0) =
        ground (arith, v.word) in
      (ground (arith, first.from_lo), ground (arith, v.word))
  picked_bounds a b serial o inside bs fits_a fits (le, inr (all, first)) =
      (ground (arith, v.word, first.from_lo), ground (arith, v.word))

  -- On a manager that satisfies the invariant and has no store, GetSpecificID takes an id of the
  -- range that is free, and refuses one that is taken or outside the range; nothing changes then.
  pub get_specific_id_cases :
      (id : ℕ)
      → id < 2 ^ 64
      → let r = get_specific_id id none (manager start end h) in
        (((id < start) ⊎ (end < id)) × (r ≡ (manager start end h, err not_in_set)))
        ⊎ (((taken start end h id ≡ true)
              × (r ≡ (manager start end h, err (sequence_error bit_allocated))))
            ⊎ ((g : Handle) × (r ≡ (manager start end g, ok id)) × Moves start end h id true g))
  unfolding get_specific_id shifted taken
  get_specific_id_cases id fits = elim (Bool-cases (ltb id start || ltb end id)) [
    | inl outside ↦ rw outside (inl (ground arith, refl))
    | inr inside ↦
        let o : sub64 id start ≡ id - start = ground (arith, v.word) in
        let back : start + (id - start) ≡ id = ground arith in
        rw (inside, o)
          (elim (set_bit_cases (id - start) h v.valid) [
            | inl (beyond, e) ↦ absurd (ground (arith, v.one_each, v.ordered))
            | inr (inl (lt, busy, e)) ↦ rw e (inr (inl (ground (arith, busy), refl)))
            | inr (inr (e, w)) ↦
                let (f, m) =
                  subst
                    (λ x.
                      (shifted (manager start end h) (set_bit (id - start) none h)
                        ≡ (manager start end (set_bit (id - start) none h).0, ok x))
                      × Moves start end h x true (set_bit (id - start) none h).0)
                    back (shifted_ok (id - start) _ e w) in
                inr (inr (_, f, m))
          ])
  ]

  -- On a manager that satisfies the invariant and has no store, GetID takes a free id, and fails
  -- exactly where every id of the range is taken.
  pub get_id_cases :
      (serial : Bool)
      → let r = get_id serial none (manager start end h) in
        ((id : ℕ) × (g : Handle) × (r ≡ (manager start end g, ok id)) × Moves start end h id true g)
        ⊎ ((r ≡ (manager start end h, err (sequence_error no_bit_available)))
            × ((k : ℕ) → start ≤ k → k ≤ end → taken start end h k ≡ true))
  unfolding get_id shifted
  get_id_cases serial =
      let zero_off : 0 ≡ start - start = omega arith in
      let last : h.bits - 1 ≡ end - start = omega (arith, v.one_each) in
      elim (set_any-Allocates serial h v.valid) [
        | inl (o, e, curr, picks, w) ↦ let (f, m) = shifted_ok o _ e w in inl (start + o, _, f, m)
        | inr (e, all) ↦ rw e (
            inr (
              refl,
              all_taken start end (omega arith) (omega arith) (
                  subst (AllSet h.head (start - start)) last
                    (subst (λ x. AllSet h.head x (h.bits - 1)) zero_off all)),
            ))
      ]

  -- On a manager that satisfies the invariant and has no store, with bounds below 2 ^ 64,
  -- GetIDInRange takes a free id of a range within the manager's, and fails exactly where every id
  -- of that range is taken, where the range is empty, or where it is not within the manager's.
  pub get_id_in_range_cases :
      (a b : ℕ) (serial : Bool)
      → a < 2 ^ 64
      → b < 2 ^ 64
      → let r = get_id_in_range a b serial none (manager start end h) in
        (((a < start) ⊎ (end < b)) × (r ≡ (manager start end h, err not_in_set)))
        ⊎ (((b < a) × (r ≡ (manager start end h, err (sequence_error invalid_range))))
            ⊎ (((id : ℕ) × (g : Handle) × (a ≤ id)
                  × (id ≤ b)
                  × (r ≡ (manager start end g, ok id))
                  × Moves start end h id true g)
                ⊎ ((r ≡ (manager start end h, err (sequence_error no_bit_available)))
                    × ((k : ℕ) → a ≤ k → k ≤ b → taken start end h k ≡ true))))
  unfolding get_id_in_range shifted
  get_id_in_range_cases a b serial fits_a fits = elim (Bool-cases (ltb a start || ltb end b)) [
    | inl outside ↦ rw outside (inl (ground arith, refl))
    | inr inside ↦
        rw inside
          (elim (set_any_in_range-Allocates (sub64 a start) (sub64 b start) serial h v.valid) [
            | inl (empty, e) ↦
                rw e (inr (inl (ground (arith, v.one_each, v.word, v.ordered), refl)))
            | inr (le, lt, inl (o, e, curr, picks, w)) ↦
                let bs : start ≤ b = ground (arith, v.one_each, v.word, v.ordered) in
                let (f, m) = shifted_ok o _ e w in
                inr (
                  inr (
                    inl (
                      start + o,
                      _,
                      (picked_bounds a b serial o inside bs fits_a fits picks).0,
                      (picked_bounds a b serial o inside bs fits_a fits picks).1,
                      f,
                      m,
                    )))
            | inr (le, lt, inr (e, all)) ↦
                let bs : start ≤ b = ground (arith, v.one_each, v.word, v.ordered) in
                rw e (
                  inr (
                    inr (
                      inr (
                        refl,
                        all_taken a b (ground arith) (ground arith)
                            (λ j l u. all j (ground (arith, v.word)) (ground (arith, v.word))),
                      ))))
          ])
  ]

  -- On a manager that satisfies the invariant and has no store, Release of an id below 2 ^ 64 frees
  -- it if it is taken. It changes no id where the id is not in the range, the manager being the
  -- same, or where the id is free already.
  pub release_cases :
      (id : ℕ)
      → id < 2 ^ 64
      → let r = release id none (manager start end h) in
        (((id < start) ⊎ (end < id)) × (r ≡ some (manager start end h)))
        ⊎ ((g : Handle) × (r ≡ some (manager start end g))
            × (Moves start end h id false g
                ⊎ ((taken start end h id ≡ false)
                    × ((k : ℕ) → taken start end g k ≡ taken start end h k))))
  unfolding release taken
  release_cases id fits = elim (Bool-cases (ltb id start || ltb end id)) [
    | inl outside ↦
        let le : h.bits ≤ sub64 id start = ground (arith, v.one_each, v.word, v.ordered) in
        rw (unset_bit_beyond (sub64 id start) h le) (inl (ground arith, refl))
    | inr inside ↦
        let o : sub64 id start ≡ id - start = ground (arith, v.word) in
        let back : start + (id - start) ≡ id = ground arith in
        let lt : id - start < h.bits = ground (arith, v.one_each) in
        rw o (
          inr (
            _,
            refl,
            elim (Bool-cases (is_set h.head (id - start))) [
              | inl busy ↦
                  let w = unset_bit-Writes (id - start) h v.valid lt busy in
                  inl (
                    subst (λ x. Moves start end h x false (unset_bit (id - start) none h).0) back
                      (writes-Moves start end h v (id - start) false _ w))
              | inr free ↦
                  let (same, count, wrong) = unset_bit_free (id - start) h v.valid lt free in
                  inr (ground (arith, free), λ k. rw same)
            ],
          ))
  ]
