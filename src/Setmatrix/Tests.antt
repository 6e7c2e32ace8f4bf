-- ===== src/Setmatrix/Tests.antt =====
-- Concrete runs of the theorem on setmatrix.go, on lists as sets.
use libnetwork.Prelude.{ℕ, ◌==◌, ==_iff, ◌≡◌, ◌↔◌, false, none, List, [], ◌∷◌, if◌then◌else◌}
use libnetwork.Networkdb.Names.{Name}
use libnetwork.Setmatrix.Sets.{Eq, SetOps, count}
use libnetwork.Setmatrix.ListSets.{list_sets, list_sets-IsSetOps}
use libnetwork.Setmatrix.Matrix.{new_set_matrix, get, contains}
use libnetwork.Setmatrix.Matrix.Pairs.{values}
use libnetwork.Setmatrix.Matrix.History.{Change, insertion, removal, run, run_pairs, run-Pairs}

instance abbrev number_eq : Eq ℕ
number_eq = record { beq = ◌==◌; beq_iff = ==_iff }

instance abbrev number_sets : SetOps ℕ
number_sets = list_sets

-- The value 8 goes in twice and out once, and the last value of the key 2 is taken.
abbrev changes : List (Change ℕ)
changes =
    insertion (1 ∷ []) 7
    ∷ insertion (1 ∷ []) 8
    ∷ insertion (1 ∷ []) 8
    ∷ insertion (2 ∷ []) 9
    ∷ removal (1 ∷ []) 8
    ∷ removal (2 ∷ []) 9
    ∷ removal (2 ∷ []) 9
    ∷ []

run-Pairs_example :
    let r = run changes new_set_matrix in
    let s = run_pairs changes (λ j w. false) in
    (r.1 ≡ s.1)
    × ((key : Name) (value : ℕ) → (contains key value r.0).0 ≡ s.0 key value)
    × ((key : Name) (value : ℕ)
        → count value (values (get key r.0)) ≡ (if s.0 key value then 1 else 0))
    × ((key : Name) → (get key r.0 ≡ none) ↔ ((value : ℕ) → s.0 key value ≡ false))
run-Pairs_example = run-Pairs list_sets-IsSetOps changes
