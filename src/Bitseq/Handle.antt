-- ===== src/Bitseq/Handle.antt =====
-- bitseq/sequence.go and bitseq/store.go: the handle, its calls, and their rounds with the
-- datastore. A handle is read and written under its mutex, so each round is a step of its own. What
-- the datastore answers, which other processes may have written, is given round by round: `Round`.
-- The fields app and id only name the key in the store and are left out.
pub mod Count
pub mod Reserve
pub mod Calls
pub mod New
pub mod Store
use libnetwork.Prelude.{
  ℕ, zero, suc, ◌+◌, ◌-◌, ◌^◌, Bool, true, false, Option, none, some, List, [], ◌∷◌, ltb, leb, ◌==◌,
  if◌then◌else◌,
}
use libnetwork.Prelude.Word.{u64, sub64}
use libnetwork.Prelude.Result.{Result, ok, err}
use libnetwork.Bitseq.Sequence.{
  Node, Position, Error, no_bit_available, invalid_range, not_in_sequence, store_failure,
  out_of_fuel, get_num_blocks, ordinal_to_pos, pos_to_ordinal, check_if_available,
  get_available_from_current, push_reservation, run_consistency_check,
}

pub record Handle : Type 0 where
  pub bits : ℕ
  pub unselected : ℕ
  pub head : List Node
  pub db_index : ℕ
  pub db_exists : Bool
  pub curr : ℕ

-- What GetObject does to the handle: the key is not there, the read fails, the bytes of the store
-- are decoded into the handle with their index, or the cache's handle is copied onto it.
pub data Fetched : Type 0 where
  absent unreadable : Fetched
  decoded : ℕ → ℕ → List Node → ℕ → Fetched
  cached : Handle → Fetched

-- What writeToStore answers: the new index, ErrKeyModified as a RetryError, or another error.
pub data Written : Type 0 where
  stored : ℕ → Written
  conflict refused : Written

pub record Round : Type 0 where
  pub fetched : Fetched
  pub written : Written

-- `none` is a failed read.
pub fetch : Fetched → Handle → Option Handle
fetch absent h = some h
fetch unreadable h = none
fetch (decoded bits unselected head index) h = some (record h {
  bits = bits;
  unselected = unselected;
  head = head;
  db_index = index;
  db_exists = true;
})
fetch (cached other) h = some other

abbrev pub set_index : ℕ → Handle → Handle
set_index index h = record h { db_index = index; db_exists = true }

abbrev fresh_handle : ℕ → Handle
fresh_handle num_elements = record {
  bits = num_elements;
  unselected = num_elements;
  head = record { block = 0; count = get_num_blocks num_elements } ∷ [];
  db_index = 0;
  db_exists = false;
  curr = 0;
}

first_write : Written → Handle → Result Error Handle
first_write (stored index) h = ok (set_index index h)
first_write conflict h = err store_failure
first_write refused h = err store_failure

unfoldable pub new_handle : ℕ → Option Round → Result Error Handle
unfolding fetch first_write
new_handle num_elements none = ok (fresh_handle num_elements)
new_handle num_elements (some r) = elim (fetch r.fetched (fresh_handle num_elements)) [
  | none ↦ err store_failure
  | some h ↦ if h.db_exists then ok h else first_write r.written h
]

-- The bit that `set` is about, with the ordinal that it returns; a search moves `curr`.
picked : Handle → Result Error Position → Handle × Result Error (Position × ℕ)
picked h (ok p) = (record h { curr = u64 (pos_to_ordinal p + 1) }, ok (p, pos_to_ordinal p))
picked h (err e) = (h, err e)

checked : ℕ → Result Error Position → Result Error (Position × ℕ)
checked ordinal (ok p) = ok (p, ordinal)
checked ordinal (err e) = err e

pub select_bit : ℕ → ℕ → ℕ → Bool → Bool → Bool → Handle → Handle × Result Error (Position × ℕ)
unfolding picked checked
select_bit ordinal start end any release serial h =
    if release
    then (h, ok (ordinal_to_pos ordinal, 0))
    else if any
    then picked h (get_available_from_current h.head start (if serial then h.curr else 0) end)
    else (h, checked ordinal (check_if_available h.head ordinal))

-- The private copy `nh` with the reservation pushed.
pub reserve : Position → Bool → Handle → Handle
reserve p release h = record h {
  head = push_reservation p h.head release;
  unselected = if release then u64 (h.unselected + 1) else sub64 h.unselected 1;
}

set_memory : Bool → Handle × Result Error (Position × ℕ) → Handle × Result Error ℕ
set_memory release (h, err e) = (h, err e)
set_memory release (h, ok (p, ret)) = (reserve p release h, ok ret)

module _ (ordinal start end : ℕ) (any release serial : Bool) where
  -- One round behind the fetch; `again` is the `continue` of the loop.
  set_round :
      Written
      → (Handle → Handle × Result Error ℕ)
      → Handle × Result Error (Position × ℕ)
      → Handle × Result Error ℕ
  set_round w again (h, err e) = (h, err e)
  set_round (stored index) again (h, ok (p, ret)) = (set_index index (reserve p release h), ok ret)
  set_round conflict again (h, ok (p, ret)) = again h
  set_round refused again (h, ok (p, ret)) = (h, err store_failure)

  -- The loop of `set`, one answer of the datastore to each round; it is still retrying when the
  -- answers are used up.
  set_stored : List Round → Handle → Handle × Result Error ℕ
  unfolding fetch select_bit set_round
  set_stored [] h = (h, err out_of_fuel)
  set_stored (r ∷ rounds) h = elim (fetch r.fetched h) [
    | none ↦ (h, err store_failure)
    | some h' ↦
        set_round r.written (set_stored rounds) (select_bit ordinal start end any release serial h')
  ]

  -- `none` is a handle with no store.
  pub set : Option (List Round) → Handle → Handle × Result Error ℕ
  unfolding set_memory set_stored
  set none h = set_memory release (select_bit ordinal start end any release serial h)
  set (some rounds) h = set_stored rounds h

pub set_any_in_range : ℕ → ℕ → Bool → Option (List Round) → Handle → Handle × Result Error ℕ
unfolding set
set_any_in_range start end serial store h =
    if ltb end start
    then (h, err invalid_range)
    else if leb h.bits end
    then (h, err invalid_range)
    else if h.unselected == 0
    then (h, err no_bit_available)
    else set 0 start end true false serial store h

pub set_any : Bool → Option (List Round) → Handle → Handle × Result Error ℕ
unfolding set
set_any serial store h =
    if h.unselected == 0
    then (h, err no_bit_available)
    else set 0 0 (sub64 h.bits 1) true false serial store h

abbrev pub validate_ordinal : ℕ → Handle → Bool
validate_ordinal ordinal h = ltb ordinal h.bits

pub set_bit : ℕ → Option (List Round) → Handle → Handle × Result Error ℕ
unfolding set
set_bit ordinal store h =
    if validate_ordinal ordinal h
    then set ordinal 0 0 false false false store h
    else (h, err not_in_sequence)

pub unset_bit : ℕ → Option (List Round) → Handle → Handle × Result Error ℕ
unfolding set
unset_bit ordinal store h =
    if validate_ordinal ordinal h
    then set ordinal 0 0 false true false store h
    else (h, err not_in_sequence)

is_err : Result Error Position → Bool
is_err (ok p) = false
is_err (err e) = true

pub is_set_bit : ℕ → Handle → Bool
unfolding is_err
is_set_bit ordinal h =
    if validate_ordinal ordinal h then is_err (check_if_available h.head ordinal) else false

-- The loop of CheckConsistency, with a store or without one.
consistency_write :
    Written
    → (Handle → Handle × Result Error (Unit {0}))
    → Handle
    → Handle
    → Handle × Result Error (Unit {0})
consistency_write (stored index) again h nh = (record h { head = nh.head }, ok tt)
consistency_write conflict again h nh = again h
consistency_write refused again h nh = (h, err store_failure)

consistency_round :
    Written
    → (Handle → Handle × Result Error (Unit {0}))
    → Handle
    → Handle × Result Error (Unit {0})
unfolding consistency_write
consistency_round w again h =
    let (kept, corrupted) = run_consistency_check h.head in
    if corrupted then consistency_write w again h (record h { head = kept }) else (h, ok tt)

pub check_consistency_stored : List Round → Handle → Handle × Result Error (Unit {0})
unfolding consistency_round fetch
check_consistency_stored [] h = (h, err out_of_fuel)
check_consistency_stored (r ∷ rounds) h = elim (fetch r.fetched h) [
  | none ↦ (h, err store_failure)
  | some h' ↦ consistency_round r.written (check_consistency_stored rounds) h'
]

-- Without a store writeToStore succeeds and assigns nothing.
pub check_consistency : Option (List Round) → Handle → Handle × Result Error (Unit {0})
unfolding check_consistency_stored consistency_round
check_consistency none h = consistency_round (stored 0) (λ h'. (h', err out_of_fuel)) h
check_consistency (some rounds) h = check_consistency_stored rounds h
