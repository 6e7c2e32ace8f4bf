-- ===== src/Ipam/Allocator/Addresses.antt =====
-- ipam/allocator.go: getAddress where no address is preferred, on every branch.
use libnetwork.Prelude.{
  ℕ, ◌-◌, ◌≤◌, ◌<◌, ◌≡◌, ◌⊎◌, refl, ap, Bool, true, arith, ◌==◌, ==_iff, inl, inr, Option, none,
  some, Bool-cases,
}
use libnetwork.Prelude.Result.{Result, ok, err}
use libnetwork.Bitseq.Sequence.{Error}
use libnetwork.Bitseq.Sequence.Range.{AllSet}
use libnetwork.Bitseq.Handle.{Handle, set_any, set_any_in_range}
use libnetwork.Bitseq.Handle.Reserve.{IsHandle, Writes}
use libnetwork.Bitseq.Handle.Calls.{
  Picks, Allocates, all_selected, set_any-Allocates, set_any_in_range-Allocates,
}
use libnetwork.Ipam.Net.{IpNet, Ip}
use libnetwork.Ipam.Pools.{AddressRange}
use libnetwork.Ipam.Addresses.{generate_address}
use libnetwork.Ipam.Allocator.{IpamError, no_available_ips, taken_address, chosen, get_address}

-- The first and the last ordinal of a request: of the range of a part of a pool, or of the whole pool.
abbrev pub first_of_range : Option AddressRange → ℕ
first_of_range none = 0
first_of_range (some r) = r.start

abbrev pub last_of_range : Option AddressRange → Handle → ℕ
last_of_range none h = h.bits - 1
last_of_range (some r) h = r.end

abbrev pub IsWithin : Option AddressRange → Handle → Type 0
IsWithin none h = Unit {0}
IsWithin (some r) h = (r.start ≤ r.end) × (r.end < h.bits)

abbrev pub GivesFirst : IpNet → Handle → ℕ → ℕ → Bool → Handle × Result IpamError Ip → Type 0
GivesFirst nw h start end serial r =
    ((o : ℕ) × (r.1 ≡ ok (generate_address o nw))
      × Picks h start end serial o
      × Writes h o true r.0)
    ⊎ ((r ≡ (h, err no_available_ips)) × AllSet h.head start end)

taken-GivesFirst :
    (nw : IpNet) (h : Handle) (start end : ℕ) (serial : Bool) (r : Handle × Result Error ℕ)
    → Allocates h start end serial r
    → GivesFirst nw h start end serial (taken_address nw r)
unfolding taken_address
taken-GivesFirst nw h start end serial (g, ok p) (inl (o, is, moved, picks, w)) =
    inl (o, ap (λ q. ok (generate_address q nw)) (ok_inj p o is), picks, w)
  where
    ok_inj : (p o : ℕ) → (let r : Result Error ℕ = ok p in r ≡ ok o) → p ≡ o
    ok_inj p o e = cc
taken-GivesFirst nw h start end serial (g, err e) (inl (o, is, moved, picks, w)) =
    absurd (let bad : (let r : Result Error ℕ = err e in r ≡ ok o) = is in cc)
taken-GivesFirst nw h start end serial r (inr (is, all)) =
    inr (ap (λ r. taken_address nw r) is, all)

-- On a bitmask that satisfies the invariant of bitseq, for a whole pool or for a range of ordinals that
-- are in order and within it: where no address is preferred, getAddress takes the address of the first
-- free ordinal of the range from the current one on, or else of the first of the range, and fails
-- exactly where every ordinal of the range is taken, the bitmask unchanged.
pub get_address_cases :
    (nw : IpNet) (h : Handle) (ipr : Option AddressRange) (serial : Bool)
    → IsHandle h
    → IsWithin ipr h
    → GivesFirst nw h
        (first_of_range ipr)
        (last_of_range ipr h)
        serial
        (get_address nw h none ipr serial)
unfolding get_address chosen
get_address_cases nw h none serial v within = elim (Bool-cases (h.unselected == 0)) [
  | inl full ↦
      let lt : h.bits - 1 < h.bits = omega (arith, v.some_bits) in
      rw full (inr (refl, all_selected h 0 (h.bits - 1) v lt ((==_iff _ _).0 full)))
  | inr free ↦ rw free (
      taken-GivesFirst nw h 0 (h.bits - 1) serial (set_any serial none h)
        (set_any-Allocates serial h v))
]
get_address_cases nw h (some r) serial v (le, lt) = elim (Bool-cases (h.unselected == 0)) [
  | inl full ↦ rw full (inr (refl, all_selected h r.start r.end v lt ((==_iff _ _).0 full)))
  | inr free ↦ rw free (
      taken-GivesFirst nw h r.start r.end serial (set_any_in_range r.start r.end serial none h)
        (elim (set_any_in_range-Allocates r.start r.end serial h v) [
          | inl (inl empty, is) ↦ absurd (omega arith)
          | inl (inr beyond, is) ↦ absurd (omega arith)
          | inr (le, lt, allocates) ↦ allocates
        ]))
]
