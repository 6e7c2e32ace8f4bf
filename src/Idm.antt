-- ===== src/Idm.antt =====
-- idm/idm.go: numerical ids from a contiguous range, over a bit sequence. The datastore of the
-- handle answers as in `Bitseq.Handle`; `none` is a nil store, and a nil handle is `none` too.
pub mod Ids
pub mod Calls
mod Tests
use libnetwork.Prelude.{
  ℕ, ◌+◌, ◌-◌, Bool, true, false, ◌||◌, Option, none, some, List, ltb, leb, if◌then◌else◌,
}
use libnetwork.Prelude.Word.{u64, sub64}
use libnetwork.Prelude.Result.{Result, ok, err}
use libnetwork.Bitseq.Sequence.{Error}
use libnetwork.Bitseq.Handle.{
  Handle, Round, new_handle, set_any, set_any_in_range, set_bit, unset_bit,
}

pub data IdError : Type 0 where
  -- "Invalid id", "Invalid set range"
  invalid_id invalid_set_range : IdError
  -- "ID set is not initialized", "Requested id does not belong to the set"
  not_initialized not_in_set : IdError
  -- an error of the bit sequence
  sequence_error : Error → IdError

pub record Idm : Type 0 where
  pub start : ℕ
  pub end : ℕ
  pub handle : Option Handle

handle_error : ℕ → ℕ → Result Error Handle → Result IdError Idm
handle_error start end (ok h) = ok (record { start = start; end = end; handle = some h })
handle_error start end (err e) = err (sequence_error e)

pub new : Bool → ℕ → ℕ → Option Round → Result IdError Idm
unfolding handle_error
new id_is_empty start end store =
    if id_is_empty
    then err invalid_id
    else if leb end start
    then err invalid_set_range
    else handle_error start end (new_handle (sub64 (u64 (1 + end)) start) store)

-- What a call of the handle becomes: the handle is shared, so its new state is the manager's.
shifted : Idm → Handle × Result Error ℕ → Idm × Result IdError ℕ
shifted i (h, ok ordinal) = (record i { handle = some h }, ok (u64 (i.start + ordinal)))
shifted i (h, err e) = (record i { handle = some h }, err (sequence_error e))

get_id_with : Bool → Option (List Round) → Idm → Option Handle → Idm × Result IdError ℕ
unfolding shifted
get_id_with serial store i none = (i, err not_initialized)
get_id_with serial store i (some h) = shifted i (set_any serial store h)

pub get_id : Bool → Option (List Round) → Idm → Idm × Result IdError ℕ
unfolding get_id_with
get_id serial store i = get_id_with serial store i i.handle

specific_with : ℕ → Option (List Round) → Idm → Option Handle → Idm × Result IdError ℕ
unfolding shifted
specific_with id store i none = (i, err not_initialized)
specific_with id store i (some h) =
    if ltb id i.start || ltb i.end id
    then (i, err not_in_set)
    else shifted i (set_bit (sub64 id i.start) store h)

pub get_specific_id : ℕ → Option (List Round) → Idm → Idm × Result IdError ℕ
unfolding specific_with
get_specific_id id store i = specific_with id store i i.handle

in_range_with : ℕ → ℕ → Bool → Option (List Round) → Idm → Option Handle → Idm × Result IdError ℕ
unfolding shifted
in_range_with start end serial store i none = (i, err not_initialized)
in_range_with start end serial store i (some h) =
    if ltb start i.start || ltb i.end end
    then (i, err not_in_set)
    else shifted i (set_any_in_range (sub64 start i.start) (sub64 end i.start) serial store h)

pub get_id_in_range : ℕ → ℕ → Bool → Option (List Round) → Idm → Idm × Result IdError ℕ
unfolding in_range_with
get_id_in_range start end serial store i = in_range_with start end serial store i i.handle

release_with : ℕ → Option (List Round) → Idm → Option Handle → Option Idm
release_with id store i none = none
release_with id store i (some h) =
    some (record i { handle = some (unset_bit (sub64 id i.start) store h).0 })

-- The error of Unset is dropped; a nil handle is a nil dereference, `none`.
pub release : ℕ → Option (List Round) → Idm → Option Idm
unfolding release_with
release id store i = release_with id store i i.handle
