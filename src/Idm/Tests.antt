-- ===== src/Idm/Tests.antt =====
-- Concrete runs of the theorems on idm/idm.go.
use libnetwork.Prelude.{ℕ, ◌≤◌, ◌<◌, ◌≡◌, ◌⊎◌, refl, true, false, none, some, [], ◌∷◌, arith}
use libnetwork.Prelude.Result.{ok, err}
use libnetwork.Bitseq.Sequence.{no_bit_available, invalid_range}
use libnetwork.Bitseq.Handle.{Handle}
use libnetwork.Bitseq.Handle.Count.{count_clear}
use libnetwork.Idm.{get_id, get_id_in_range, release, not_in_set, sequence_error}
use libnetwork.Idm.Ids.{manager, IsRange, taken, Moves}
use libnetwork.Idm.Calls.{get_id_cases, get_id_in_range_cases, release_cases}

-- The ids from 10 to 12, with 11 taken.
abbrev one_taken : Handle
one_taken = record {
  bits = 3;
  unselected = 2;
  head = record { block = 1073741824; count = 1 } ∷ [];
  db_index = 0;
  db_exists = false;
  curr = 2;
}

one_taken-IsRange : IsRange 10 12 one_taken
unfolding count_clear
one_taken-IsRange = record {
  valid = record {
    sequence = record {
      positive = (omega arith, tt);
      words = (omega arith, tt);
      fits = omega arith;
      has_head = omega arith;
    };
    merged = (tt, tt);
    covered = omega arith;
    some_bits = omega arith;
    word = omega arith;
    counted = refl;
  };
  ordered = omega arith;
  word = omega arith;
  one_each = refl;
}

get_id_cases_example :
    let r = get_id true none (manager 10 12 one_taken) in
    ((id : ℕ) × (g : Handle) × (r ≡ (manager 10 12 g, ok id)) × Moves 10 12 one_taken id true g)
    ⊎ ((r ≡ (manager 10 12 one_taken, err (sequence_error no_bit_available)))
        × ((k : ℕ) → 10 ≤ k → k ≤ 12 → taken 10 12 one_taken k ≡ true))
get_id_cases_example = get_id_cases 10 12 one_taken one_taken-IsRange true

get_id_in_range_cases_example :
    let r = get_id_in_range 11 12 false none (manager 10 12 one_taken) in
    (((11 < 10) ⊎ (12 < 12)) × (r ≡ (manager 10 12 one_taken, err not_in_set)))
    ⊎ (((12 < 11) × (r ≡ (manager 10 12 one_taken, err (sequence_error invalid_range))))
        ⊎ (((id : ℕ) × (g : Handle) × (11 ≤ id)
              × (id ≤ 12)
              × (r ≡ (manager 10 12 g, ok id))
              × Moves 10 12 one_taken id true g)
            ⊎ ((r ≡ (manager 10 12 one_taken, err (sequence_error no_bit_available)))
                × ((k : ℕ) → 11 ≤ k → k ≤ 12 → taken 10 12 one_taken k ≡ true))))
get_id_in_range_cases_example =
    get_id_in_range_cases 10 12 one_taken one_taken-IsRange 11 12 false (omega arith) (omega arith)

release_cases_example :
    let r = release 11 none (manager 10 12 one_taken) in
    (((11 < 10) ⊎ (12 < 11)) × (r ≡ some (manager 10 12 one_taken)))
    ⊎ ((g : Handle) × (r ≡ some (manager 10 12 g))
        × (Moves 10 12 one_taken 11 false g
            ⊎ ((taken 10 12 one_taken 11 ≡ false)
                × ((k : ℕ) → taken 10 12 g k ≡ taken 10 12 one_taken k))))
release_cases_example = release_cases 10 12 one_taken one_taken-IsRange 11 (omega arith)
