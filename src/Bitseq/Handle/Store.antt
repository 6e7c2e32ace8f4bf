-- ===== src/Bitseq/Handle/Store.antt =====
-- bitseq/sequence.go: `set` of a handle with a store, whatever the other processes write to the
-- store between its rounds.
use libnetwork.Prelude.{
  ◌⊎◌, none, inl, inr, ℕ, ◌+◌, ◌<◌, ◌≡◌, refl, sym, ap, subst, Bool, true, false, inl, inr, some,
  List, [], ◌∷◌, arith, Option-cases, All,
}
use mathlib.Core.Option.{some-injective}
use libnetwork.Prelude.Result.{Result, ok, err}
use libnetwork.Bitseq.Sequence.{Error, no_bit_available, store_failure, out_of_fuel, ordinal_to_pos}
use libnetwork.Bitseq.Sequence.Range.{AllSet}
use libnetwork.Bitseq.Handle.{
  Handle, Fetched, absent, unreadable, decoded, cached, Written, stored, conflict, refused, Round,
  fetch, set_index, set, set_stored, set_round,
}
use libnetwork.Bitseq.Handle.Reserve.{IsHandle, Writes, reserve-Writes, select_any}
use libnetwork.Bitseq.Handle.Calls.{Picks, Picks-clear, moved-IsHandle, moved-Writes}

-- What the store holds is a handle of `n` bits that satisfies the invariant.
abbrev pub GoodFetch : ℕ → Fetched → Type 0
GoodFetch n absent = Unit
GoodFetch n unreadable = Unit
GoodFetch n (decoded bits unselected head index) =
    (bits ≡ n)
    × IsHandle (record {
      bits = bits;
      unselected = unselected;
      head = head;
      db_index = index;
      db_exists = true;
      curr = 0;
    })
GoodFetch n (cached h) = (h.bits ≡ n) × IsHandle h

abbrev pub GoodRound : ℕ → Round → Type 0
GoodRound n r = GoodFetch n r.fetched

-- A handle of `n` bits that satisfies the invariant.
abbrev pub Good : ℕ → Handle → Type 0
Good n h = (h.bits ≡ n) × IsHandle h

fetch-Good :
    (n : ℕ) (f : Fetched) (h g : Handle) → GoodFetch n f → Good n h → fetch f h ≡ some g → Good n g
unfolding fetch
fetch-Good n absent h g gf gh e = subst (Good n) (some-injective _ _ e) gh
fetch-Good n unreadable h g gf gh e = cc
fetch-Good n (decoded bits unselected head index) h g gf gh e =
    subst (Good n) (some-injective _ _ e) (
      gf.0,
      record {
        sequence = gf.1.sequence;
        merged = gf.1.merged;
        covered = gf.1.covered;
        some_bits = gf.1.some_bits;
        word = gf.1.word;
        counted = gf.1.counted;
      },
    )
fetch-Good n (cached other) h g gf gh e = subst (Good n) (some-injective _ _ e) gf

indexed-Writes :
    (h : Handle) (o : ℕ) (b : Bool) (g : Handle) (i : ℕ)
    → Writes h o b g
    → Writes h o b (set_index i g)
indexed-Writes h o b g i w = record {
  within = w.within;
  was = w.was;
  valid = record {
    sequence = w.valid.sequence;
    merged = w.valid.merged;
    covered = w.valid.covered;
    some_bits = w.valid.some_bits;
    word = w.valid.word;
    counted = w.valid.counted;
  };
  same_bits = w.same_bits;
  written = w.written;
  moved = w.moved;
}

-- `g` is what a read gives to the handle `h`: `h` itself where the key is absent, the fields that
-- were decoded, or the handle of the cache.
abbrev pub Reads : Fetched → Handle → Handle → Type 0
Reads absent h g = g ≡ h
Reads unreadable h g = ⊥
Reads (decoded bits unselected head index) h g =
    (g.bits ≡ bits) × (g.unselected ≡ unselected) × (g.head ≡ head) × (g.curr ≡ h.curr)
Reads (cached other) h g = g ≡ other

fetch-Reads : (f : Fetched) (h g : Handle) → fetch f h ≡ some g → Reads f h g
unfolding fetch
fetch-Reads absent h g e = sym (some-injective _ _ e)
fetch-Reads unreadable h g e = cc
fetch-Reads (decoded bits unselected head index) h g e =
    let is = some-injective _ _ e in
    (
      sym (ap (λ x. x.bits) is),
      sym (ap (λ x. x.unselected) is),
      sym (ap (λ x. x.head) is),
      sym (ap (λ x. x.curr) is),
    )
fetch-Reads (cached other) h g e = sym (some-injective _ _ e)

fetch-none : (f : Fetched) (h : Handle) → fetch f h ≡ none → f ≡ unreadable
unfolding fetch
fetch-none absent h e = cc
fetch-none unreadable h e = refl
fetch-none (decoded bits unselected head index) h e = cc
fetch-none (cached other) h e = cc

module _ (n start end : ℕ) (serial : Bool) where
  -- What a search of `set` reports, one round after the other, the handle that the round has read being
  -- the reference: a failed read ends it; no bit is available exactly where all of the range was taken;
  -- otherwise an ordinal is picked, and written over the handle where the store takes it, or the search
  -- ends in a refused write, or goes on behind the ordinal after a conflict.
  abbrev pub Reports : List Round → Handle → Handle × Result Error ℕ → Type 0
  Reports [] h x = x ≡ (h, err out_of_fuel)
  Reports (r ∷ rounds) h x =
      ((r.fetched ≡ unreadable) × (x ≡ (h, err store_failure)))
      ⊎ ((g : Handle) × Reads r.fetched h g
          × Good n g
          × ((AllSet g.head start end × (x ≡ (g, err no_bit_available)))
              ⊎ ((o : ℕ) × Picks g start end serial o
                  × (((i : ℕ) × (r.written ≡ stored i) × (x.1 ≡ ok o) × Writes g o true x.0)
                      ⊎ (((r.written ≡ refused) × (x.1 ≡ err store_failure))
                          ⊎ ((r.written ≡ conflict)
                              × Reports rounds (record g { curr = o + 1 }) x))))))

  set_round-Reports :
      (r : Round) (rounds : List Round) (h g : Handle) (o : ℕ) (w : Written)
      → r.written ≡ w
      → Reads r.fetched h g
      → Good n g
      → end < g.bits
      → Picks g start end serial o
      → ((k : Handle)
          → Good n k
          → Reports rounds k (set_stored 0 start end true false serial rounds k))
      → Reports (r ∷ rounds) h (
          set_round 0 start end true false serial w
            (set_stored 0 start end true false serial rounds)
            (record g { curr = o + 1 }, ok (ordinal_to_pos o, o)))
  unfolding set_round
  set_round-Reports r rounds h g o (stored index) e reads good lt picks again =
      let writes = indexed-Writes g o true _ index (
        moved-Writes g (o + 1) o true _ (
          reserve-Writes (record g { curr = o + 1 }) o false (moved-IsHandle g (o + 1) good.1)
            (omega (arith, picks.0)) (Picks-clear g start end serial o picks))) in
      inr (g, reads, good, inr (o, picks, inl (index, e, refl, writes)))
  set_round-Reports r rounds h g o conflict e reads good lt picks again =
      let rest = again (record g { curr = o + 1 }) (good.0, moved-IsHandle g (o + 1) good.1) in
      inr (g, reads, good, inr (o, picks, inr (inr (e, rest))))
  set_round-Reports r rounds h g o refused e reads good lt picks again =
      inr (g, reads, good, inr (o, picks, inr (inl (e, refl))))

  set_round_err :
      (w : Written) (again : Handle → Handle × Result Error ℕ) (g : Handle) (e : Error)
      → set_round 0 start end true false serial w again (g, err e) ≡ (g, err e)
  unfolding set_round
  set_round_err (stored index) again g e = refl
  set_round_err conflict again g e = refl
  set_round_err refused again g e = refl

  set_stored-Reports :
      (rounds : List Round) (h : Handle)
      → end < n
      → All (GoodRound n) rounds
      → Good n h
      → Reports rounds h (set_stored 0 start end true false serial rounds h)
  unfolding set_stored
  set_stored-Reports [] h lt gs good = refl
  set_stored-Reports (r ∷ rounds) h lt gs good = elim (Option-cases (fetch r.fetched h)) [
    | inl e ↦ rw (e, set_stored) (inl (fetch-none r.fetched h e, refl))
    | inr (g, e) ↦
        let gg = fetch-Good n r.fetched h g gs.0 good e in
        let reads = fetch-Reads r.fetched h g e in
        let inside : end < g.bits = omega (arith, gg.0) in
        rw (e, set_stored)
          (elim (select_any start end serial g gg.1 inside) [
            | inl (o, e', le, first) ↦ rw e' (
                set_round-Reports r rounds h g o r.written refl reads gg inside (le, first)
                  (λ k gk. set_stored-Reports rounds k lt gs.1 gk))
            | inr (e', all) ↦ rw e' (
                inr (
                  g,
                  reads,
                  gg,
                  inl (
                    all,
                    set_round_err r.written (set_stored 0 start end true false serial rounds) g
                        no_bit_available,
                  ),
                ))
          ])
  ]

  -- From a well-formed handle of `n` bits with a store, with the end of the range below `n`,
  -- whatever the other processes write between the rounds, as long as the store holds well-formed
  -- handles of as many bits: each round of a search goes by the handle that it has read from the store.
  -- It ends with a failed read; it reports that no bit is available exactly where that handle has none
  -- in the range; otherwise it picks an ordinal of that handle, which it returns with the handle written
  -- over when the store takes the write. A refused write ends the search, and a conflict leads to
  -- the next round, which starts behind the ordinal. It is still retrying when the rounds are used up,
  -- all of them with conflicts.
  pub set-Reports :
      (rounds : List Round) (h : Handle)
      → end < n
      → All (GoodRound n) rounds
      → Good n h
      → Reports rounds h (set 0 start end true false serial (some rounds) h)
  unfolding set
  set-Reports rounds h lt gs good = set_stored-Reports rounds h lt gs good
