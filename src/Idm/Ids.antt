-- ===== src/Idm/Ids.antt =====
-- idm/idm.go: which ids are taken, and New.
use libnetwork.Prelude.{
  ℕ, ◌+◌, ◌-◌, ◌^◌, ◌≤◌, ◌<◌, ◌≡◌, ◌⊎◌, refl, ◌∙◌, Bool, true, false, not, ◌&&◌, inl, inr, none,
  some, arith, leb, ◌==◌, if◌then◌else◌, Bool-cases,
}
use libnetwork.Prelude.Word.{u64, sub64}
use libnetwork.Prelude.Result.{ok, err}
use libnetwork.Bitseq.Sequence.Mask.{is_set}
use libnetwork.Bitseq.Handle.{Handle}
use libnetwork.Bitseq.Handle.Reserve.{IsHandle, Writes}
use libnetwork.Bitseq.Handle.New.{new_handle-IsHandle}
use libnetwork.Idm.{Idm, invalid_id, invalid_set_range, new}

-- The manager of the ids from `start` to `end` over a handle.
abbrev pub manager : ℕ → ℕ → Handle → Idm
manager start end h = record { start = start; end = end; handle = some h }

-- The handle has one bit for each id of the range.
pub record IsRange (start end : ℕ) (h : Handle) : Type 0 where
  pub valid : IsHandle h
  pub ordered : start < end
  pub word : end < 2 ^ 64
  pub one_each : h.bits ≡ end - start + 1

-- Whether an id is taken; no id outside the range is.
unfoldable pub taken : ℕ → ℕ → Handle → ℕ → Bool
taken start end h id = leb start id && leb id end && is_set h.head (id - start)

-- The handle `g` is `h` with the id `id`, which was free or taken, made what `b` says.
pub record Moves (start end : ℕ) (h : Handle) (id : ℕ) (b : Bool) (g : Handle) : Type 0 where
  pub valid : IsRange start end g
  pub lower : start ≤ id
  pub upper : id ≤ end
  pub was : taken start end h id ≡ not b
  pub now : (k : ℕ) → taken start end g k ≡ (if k == id then b else taken start end h k)

module _ (start end : ℕ) (h : Handle) (v : IsRange start end h) (o : ℕ) (b : Bool) (g : Handle)
    (w : Writes h o b g) where
  pub id_upper : start + o ≤ end
  id_upper = omega (arith, w.within, v.one_each, v.ordered)

  was_taken : taken start end h (start + o) ≡ not b
  unfolding taken
  was_taken =
      let e : start + o - start ≡ o = omega arith in rw (e, w.was) (ground (arith, id_upper))

  now_taken : (k : ℕ) → taken start end g k ≡ (if k == start + o then b else taken start end h k)
  unfolding taken
  now_taken k = ground (arith, w.written (k - start), id_upper)

  pub writes-Moves : Moves start end h (start + o) b g
  writes-Moves = record {
    valid = record {
      valid = w.valid;
      ordered = v.ordered;
      word = v.word;
      one_each = w.same_bits ∙ v.one_each;
    };
    lower = omega arith;
    upper = id_upper;
    was = was_taken;
    now = now_taken;
  }

-- With no store, New refuses an empty name and a range with fewer than two ids; for any other it
-- makes a manager whose ids are all free. The end is below 2 ^ 64, and a range of all 2 ^ 64 ids,
-- whose size wraps to 0, is left out.
pub new_cases :
    (id_is_empty : Bool) (start end : ℕ)
    → end < 2 ^ 64
    → end - start + 1 < 2 ^ 64
    → ((id_is_empty ≡ true) × (new id_is_empty start end none ≡ err invalid_id))
      ⊎ (((id_is_empty ≡ false)
            × (end ≤ start)
            × (new id_is_empty start end none ≡ err invalid_set_range))
          ⊎ ((h : Handle) × (new id_is_empty start end none ≡ ok (manager start end h))
              × IsRange start end h
              × ((k : ℕ) → taken start end h k ≡ false)))
unfolding new taken
new_cases true start end fits small = inl (refl, refl)
new_cases false start end fits small = elim (Bool-cases (leb end start)) [
  | inl empty ↦ rw empty (inr (inl (refl, ground arith, refl)))
  | inr some_ids ↦
      let n : sub64 (u64 (1 + end)) start ≡ end - start + 1 = ground arith in
      let (h, e, v, bits, u, free) = new_handle-IsHandle (end - start + 1) (omega arith) small in
      rw (some_ids, n, e)
        (inr (
          inr (
            h,
            refl,
            record { valid = v; ordered = ground arith; word = fits; one_each = bits },
            λ k. rw (free (k - start)) (ground arith),
          )))
]
