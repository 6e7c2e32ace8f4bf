-- ===== src/Ipam/Allocator/Trip.antt =====
-- ipam/allocator.go: an address that RequestAddress returned, given back by ReleaseAddress.
use libnetwork.Prelude.{
  ℕ, ◌-◌, ◌%◌, ◌^◌, ◌<◌, ◌≡◌, ◌⊎◌, refl, sym, ap, ◌∙◌, Bool, true, false, List, arith, length, map,
  ◌==◌, ==_iff, inl, inr, subst, Option, none, some, Bool-cases, if◌then◌else◌,
}
use libnetwork.Prelude.Result.{Result, ok, err}
use libnetwork.Networkdb.Names.{lookup, is_prefix}
use libnetwork.Bitseq.Sequence.{Error, bit_allocated, no_bit_available}
use libnetwork.Bitseq.Sequence.Mask.{is_set}
use libnetwork.Bitseq.Handle.{Handle, set_bit, set_any, set_any_in_range, unset_bit}
use libnetwork.Bitseq.Handle.Reserve.{IsHandle, Writes}
use libnetwork.Bitseq.Handle.Calls.{
  Allocates, set_bit_cases, set_any-Allocates, set_any_in_range-Allocates, unset_bit-Writes,
  unset_bit_granted,
}
use libnetwork.Ipam.Net.{Ip, IpNet, has_ip, v4_prefix}
use libnetwork.Ipam.Keys.{SubnetKey, same_key, find, find-put, same_key_refl}
use libnetwork.Ipam.Pools.{AddressRange, PoolData, Subnets}
use libnetwork.Ipam.Addresses.{
  AddressError, generate_address, get_host_part_ip, ip_to_uint64, get_minimal_ip,
}
use libnetwork.Ipam.Addresses.Cells.{
  Cell, IsPrefixed, network, ip_byte, host_bits_of, length-map, length-address, Fits-ordinal_bytes,
}
use libnetwork.Ipam.Addresses.Ordinals.{
  IsPlain, generate_address-network, generate_address-ip_to_uint64,
}
use libnetwork.Ipam.Allocator.Sizes.{pow-le, host_bits-le}
use libnetwork.Ipam.Allocator.{
  Allocator, IpamError, of_address, no_available_ips, ip_out_of_range, with_bit_mask, taken_address,
  preferred, chosen, get_address, owner, owner_fuel, outside, stored_address, request_from,
  request_owned, request_found, request_space, request_address, unset_result, release_from,
  release_owned, release_in, release_pool_found, release_space, release_address, retrieve_bitmask,
}

-- A call of the bitmask that grants an ordinal writes its bit.
abbrev pub Grants : Handle → Handle × Result Error ℕ → Type 0
Grants h r = (o : ℕ) → r.1 ≡ ok o → Writes h o true r.0

ok_inj {ℓ κ} : {E : Type ℓ} {A : Type κ} (a b : A) → (let r : Result E A = ok a in r ≡ ok b) → a ≡ b
ok_inj a b e = cc

Allocates-Grants :
    (h : Handle) (start end : ℕ) (serial : Bool) (r : Handle × Result Error ℕ)
    → Allocates h start end serial r
    → Grants h r
Allocates-Grants h start end serial r (inl (o, is, moved, picks, w)) p e =
    subst (λ o. Writes h o true r.0) (ok_inj {E = Error} o p (sym is ∙ e)) w
Allocates-Grants h start end serial r (inr (is, all)) p e =
    absurd (let bad = sym (ap (λ r. r.1) is) ∙ e in cc)

set_bit-Grants : (o : ℕ) (h : Handle) → IsHandle h → Grants h (set_bit o none h)
set_bit-Grants o h v p e = elim (set_bit_cases o h v) [
  | inl (beyond, is) ↦ absurd (let bad = sym (ap (λ r. r.1) is) ∙ e in cc)
  | inr (inl (lt, taken, is)) ↦ absurd (let bad = sym (ap (λ r. r.1) is) ∙ e in cc)
  | inr (inr (is, w)) ↦
      subst (λ q. Writes h q true (set_bit o none h).0) (ok_inj {E = Error} o p (sym is ∙ e)) w
]

set_any_in_range-Grants :
    (start end : ℕ) (serial : Bool) (h : Handle)
    → IsHandle h
    → Grants h (set_any_in_range start end serial none h)
set_any_in_range-Grants start end serial h v p e =
    elim (set_any_in_range-Allocates start end serial h v) [
      | inl (bad, is) ↦ absurd (let bad = sym (ap (λ r. r.1) is) ∙ e in cc)
      | inr (le, lt, r) ↦
          Allocates-Grants h start end serial (set_any_in_range start end serial none h) r p e
    ]

-- The address of an ordinal that was free and is taken now.
abbrev pub Gives : IpNet → Handle → Ip → Handle → Type 0
Gives nw h ip g = (o : ℕ) × (ip ≡ generate_address o nw) × Writes h o true g

taken_error :
    (nw : IpNet) (h : Handle) (e : Error) (ip : Ip) → (taken_address nw (h, err e)).1 ≡ ok ip → ⊥
unfolding taken_address
taken_error nw h no_bit_available ip at = cc
taken_error nw h bit_allocated ip at = cc
taken_error nw h Error.invalid_range ip at = cc
taken_error nw h Error.not_in_sequence ip at = cc
taken_error nw h Error.store_failure ip at = cc
taken_error nw h Error.out_of_fuel ip at = cc

taken-Gives :
    (nw : IpNet) (h : Handle) (r : Handle × Result Error ℕ) (ip : Ip)
    → Grants h r
    → (taken_address nw r).1 ≡ ok ip
    → Gives nw h ip (taken_address nw r).0
unfolding taken_address
taken-Gives nw h (g, ok o) ip grants at =
    (o, ok_inj {E = IpamError} ip (generate_address o nw) (sym at), grants o refl)
taken-Gives nw h (g, err e) ip grants at = absurd (taken_error nw g e ip at)

from_host :
    (nw : IpNet) (h : Handle) (ip : Ip)
    → IsHandle h
    → (host : Result AddressError Ip) → (preferred nw h host).1 ≡ ok ip
    → Gives nw h ip (preferred nw h host).0
unfolding preferred
from_host nw h ip v (err e) at =
    absurd (let bad : (let x : Result IpamError Ip = err (of_address e) in x ≡ ok ip) = at in cc)
from_host nw h ip v (ok host) at =
    let o = ip_to_uint64 (get_minimal_ip host) in
    taken-Gives nw h (set_bit o none h) ip (set_bit-Grants o h v) at

chosen-Gives :
    (nw : IpNet) (h : Handle) (pref : Option Ip) (ipr : Option AddressRange) (serial : Bool)
    (ip : Ip)
    → IsHandle h
    → (chosen nw h pref ipr serial).1 ≡ ok ip
    → Gives nw h ip (chosen nw h pref ipr serial).0
unfolding chosen
chosen-Gives nw h (some pref) ipr serial ip v at =
    from_host nw h ip v (get_host_part_ip pref nw.mask) at
chosen-Gives nw h none none serial ip v at =
    taken-Gives nw h (set_any serial none h) ip
      (Allocates-Grants h 0 (h.bits - 1) serial (set_any serial none h)
        (set_any-Allocates serial h v))
      at
chosen-Gives nw h none (some r) serial ip v at =
    taken-Gives nw h (set_any_in_range r.start r.end serial none h) ip
      (set_any_in_range-Grants r.start r.end serial h v) at

-- An address that getAddress returns is that of an ordinal that was free and is taken now.
pub get_address-Gives :
    (nw : IpNet) (h : Handle) (pref : Option Ip) (ipr : Option AddressRange) (serial : Bool)
    (ip : Ip)
    → IsHandle h
    → (get_address nw h pref ipr serial).1 ≡ ok ip
    → Gives nw h ip (get_address nw h pref ipr serial).0
unfolding get_address
get_address-Gives nw h pref ipr serial ip v = elim (Bool-cases (h.unselected == 0)) [
  | inl full ↦ rw full (λ at.
      absurd
        (let bad : (let e : Result IpamError Ip = err no_available_ips in e ≡ ok ip) = at in cc))
  | inr some_left ↦ rw some_left (chosen-Gives nw h pref ipr serial ip v)
]

-- The allocator has the pool `p` under the key `k`, and the bitmask `h` of the pool under the key `k'`
-- that it is or is a part of.
pub record IsPool (a : Allocator) (k : SubnetKey) (p : PoolData) (k' : SubnetKey) (h : Handle)
    : Type 0 where
  pub subnets : Subnets
  pub master : PoolData
  pub space_there : lookup k.address_space a.addr_spaces ≡ some subnets
  pub pool_there : find k subnets ≡ some p
  pub owned : owner owner_fuel k p subnets ≡ ok (k', master)
  pub mask_there : find k' a.addresses ≡ some h

module _ (a : Allocator) (k : SubnetKey) (p : PoolData) (k' : SubnetKey) (h : Handle)
    (is : IsPool a k p k' h) where
  pub request_address-pool :
      (pref : Option Ip) (serial : Bool)
      → request_address k pref serial a ≡ (
          if outside p.pool pref
          then (a, err ip_out_of_range)
          else stored_address k' a (get_address p.pool h pref p.range serial))
  unfolding request_address request_space request_found request_owned request_from retrieve_bitmask
  request_address-pool pref serial = elim (Bool-cases (outside p.pool pref)) [
    | inl out ↦ rw (is.space_there, is.pool_there, out) refl
    | inr inside ↦ rw (is.space_there, is.pool_there, inside, is.owned, is.mask_there) refl
  ]

  pub release_address-pool :
      (ip host : Ip)
      → has_ip p.pool ip ≡ true
      → get_host_part_ip ip p.pool.mask ≡ ok host
      → release_address k (some ip) a ≡ unset_result k' a (unset_bit (ip_to_uint64 host) none h)
  unfolding release_address release_space release_pool_found release_in release_owned release_from
      retrieve_bitmask
  release_address-pool ip host inside host_is =
      rw (is.space_there, is.pool_there, inside, host_is, is.owned, is.mask_there) refl

  pub with_bit_mask-IsPool : (g : Handle) → IsPool (with_bit_mask k' g a) k p k' g
  with_bit_mask-IsPool g = record {
    subnets = is.subnets;
    master = is.master;
    space_there = is.space_there;
    pool_there = is.pool_there;
    owned = is.owned;
    mask_there = find-put k' k' g a.addresses ∙ (rw (same_key_refl k') refl);
  }

unset_ok :
    (k : SubnetKey) (a : Allocator) (n : ℕ) (r : Handle × Result Error ℕ)
    → r.1 ≡ ok n
    → unset_result k a r ≡ (with_bit_mask k r.0 a, ok n)
unfolding unset_result
unset_ok k a n (h, ok m) e = ap (λ (i : ℕ). (with_bit_mask k h a, ok i)) (ok_inj {E = Error} m n e)
unset_ok k a n (h, err x) e =
    absurd (let bad : (let r : Result Error ℕ = err x in r ≡ ok n) = e in cc)

stored_ok :
    (k : SubnetKey) (a b : Allocator) (ip : Ip) (r : Handle × Result IpamError Ip)
    → stored_address k a r ≡ (b, ok ip)
    → (r.1 ≡ ok ip) × (b ≡ with_bit_mask k r.0 a)
unfolding stored_address
stored_ok k a b ip (h, x) e = (ap (λ r. r.1) e, sym (ap (λ r. r.0) e))

-- A bit written and written back.
written_back :
    (h g e : Handle) (o : ℕ)
    → Writes h o true g
    → Writes g o false e
    → ((j : ℕ) → is_set e.head j ≡ is_set h.head j) × (e.unselected ≡ h.unselected)
written_back h g e o w x = (
  (λ j. ground (arith, x.written j, w.written j, w.was, ==_iff j o)),
  omega (arith, w.moved, x.moved),
)

-- What a request that returns an address did.
request_granted :
    (a b : Allocator) (k : SubnetKey) (p : PoolData) (k' : SubnetKey) (h : Handle)
    (pref : Option Ip) (serial : Bool) (ip : Ip)
    → IsPool a k p k' h
    → request_address k pref serial a ≡ (b, ok ip)
    → let r = get_address p.pool h pref p.range serial in
      (r.1 ≡ ok ip) × (b ≡ with_bit_mask k' r.0 a)
request_granted a b k p k' h pref serial ip is done = elim (Bool-cases (outside p.pool pref)) [
  | inl out ↦
      let step : request_address k pref serial a ≡ (a, err ip_out_of_range) =
        request_address-pool a k p k' h is pref serial ∙ (rw out refl) in
      absurd (clash (ap (λ r. r.1) (sym step ∙ done)))
  | inr inside ↦
      let r = get_address p.pool h pref p.range serial in
      let step : request_address k pref serial a ≡ stored_address k' a r =
        request_address-pool a k p k' h is pref serial ∙ (rw inside refl) in
      stored_ok k' a b ip r (sym step ∙ done)
]
  where
    clash : (let e : Result IpamError Ip = err ip_out_of_range in e ≡ ok ip) → ⊥
    clash e = cc

-- The address of an ordinal of an IPv4 network lies in it, and its host part is the ordinal.
v4_address :
    (cells : List Cell) (o : ℕ)
    → IsPrefixed cells
    → length cells ≡ 4
    → o < 2 ^ host_bits_of cells
    → let nw = network cells in
      let a = generate_address o nw in
      (has_ip nw a ≡ true)
      × (host : Ip) × (get_host_part_ip a nw.mask ≡ ok host)
      × (ip_to_uint64 host ≡ o)
v4_address cells o prefixed four lt =
    let bound = pow-le (host_bits_of cells) 32 (omega (arith, host_bits-le cells prefixed)) in
    let plain_net : IsPlain (map ip_byte cells) = inl (length-map ip_byte cells ∙ four) in
    let fits = (Fits-ordinal_bytes cells o prefixed lt).0 in
    let plain : IsPlain (generate_address o (network cells)) = inl (
      ap (λ x. length x) (generate_address-network cells o plain_net)
      ∙ length-address cells _ fits
      ∙ four) in
    let (there, host, host_is, back) =
      generate_address-ip_to_uint64 cells o prefixed plain_net lt (omega arith) plain in
    (there, host, host_is, whole host back)
  where
    whole :
        (host : Ip)
        → (ip_to_uint64 host ≡ o)
          ⊎ ((length cells ≡ 16)
              × (is_prefix v4_prefix host ≡ true)
              × (ip_to_uint64 host ≡ o % 2 ^ 32))
        → ip_to_uint64 host ≡ o
    whole host (inl e) = e
    whole host (inr (long, mapped, low)) = absurd (omega (arith, four))

-- An IPv4 pool whose bitmask satisfies the invariant of bitseq and has a bit for each of its addresses:
-- an address that RequestAddress returns, whichever was preferred and from the whole pool or a part of
-- it, lies in the pool, and ReleaseAddress of it succeeds and gives back exactly what the request took:
-- the same addresses are taken as before, as many are free, and the other bitmasks are as they were.
pub release_address-request_address :
    (cells : List Cell) (a b : Allocator) (k : SubnetKey) (p : PoolData) (k' : SubnetKey)
    (h : Handle) (pref : Option Ip) (serial : Bool) (ip : Ip)
    → IsPrefixed cells
    → length cells ≡ 4
    → p.pool ≡ network cells
    → h.bits ≡ 2 ^ host_bits_of cells
    → IsHandle h
    → IsPool a k p k' h
    → request_address k pref serial a ≡ (b, ok ip)
    → (has_ip p.pool ip ≡ true)
      × (c : Allocator) × (e : Handle) × (release_address k (some ip) b ≡ (c, ok 0))
      × IsPool c k p k' e
      × IsHandle e
      × ((j : ℕ) → is_set e.head j ≡ is_set h.head j)
      × (e.unselected ≡ h.unselected)
      × ((j : SubnetKey) → same_key k' j ≡ false → find j c.addresses ≡ find j a.addresses)
release_address-request_address cells a b k p k' h pref serial ip prefixed four pool bits v is
      done =
    let g = (get_address p.pool h pref p.range serial).0 in
    let (granted, now) = request_granted a b k p k' h pref serial ip is done in
    let (o, ip_is, w) = get_address-Gives p.pool h pref p.range serial ip v granted in
    let (there, host, host_is, back) =
      v4_address cells o prefixed four (omega (arith, w.within, bits)) in
    let a1 = with_bit_mask k' g a in
    let is1 = with_bit_mask-IsPool a k p k' h is g in
    let ip_is' : ip ≡ generate_address o (network cells) =
      ip_is ∙ ap (λ nw. generate_address o nw) pool in
    let there' : has_ip p.pool ip ≡ true = rw (pool, ip_is') there in
    let host_is' : get_host_part_ip ip p.pool.mask ≡ ok host = rw (pool, ip_is') host_is in
    let lt : o < g.bits = omega (arith, w.within, w.same_bits) in
    let taken : is_set g.head o ≡ true = w.written o ∙ (rw ((==_iff o o).1 refl) refl) in
    let x = unset_bit-Writes o g w.valid lt taken in
    let e = (unset_bit o none g).0 in
    let released : release_address k (some ip) a1 ≡ (with_bit_mask k' e a1, ok 0) =
      release_address-pool a1 k p k' g is1 ip host there' host_is'
      ∙ (rw back (unset_ok k' a1 0 (unset_bit o none g) (unset_bit_granted o g lt))) in
    let (bits_back, count_back) = written_back h g e o w x in
    (
      there',
      with_bit_mask k' e a1,
      e,
      ap (λ c. release_address k (some ip) c) now ∙ released,
      with_bit_mask-IsPool a1 k p k' g is1 e,
      x.valid,
      bits_back,
      count_back,
      (λ j ne. find-put k' j e a1.addresses ∙ (rw ne (find-put k' j g a.addresses ∙ (rw ne refl)))),
    )

pub stored_granted :
    (k : SubnetKey) (a : Allocator) (ip : Ip) (r : Handle × Result IpamError Ip)
    → r.1 ≡ ok ip
    → stored_address k a r ≡ (with_bit_mask k r.0 a, ok ip)
unfolding stored_address
stored_granted k a ip (h, x) e = ap (λ y. (with_bit_mask k h a, y)) e
