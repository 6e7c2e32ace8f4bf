-- ===== src/Ipam/Allocator/Ids.antt =====
-- ipam/allocator.go: ReleasePool, RequestAddress and ReleaseAddress by the id of a pool.
use libnetwork.Prelude.{ℕ, ◌≡◌, ◌⊎◌, inr, inl, refl, Bool, Option, none, some, []}
use libnetwork.Prelude.Result.{Result, err}
use libnetwork.Networkdb.Names.{Name}
use libnetwork.Ipam.Net.{Ip}
use libnetwork.Ipam.Keys.{SubnetKey, zero_key}
use libnetwork.Ipam.Keys.Text.{string_of, from_string, HasNoSlash, IsCidr, from_string-string_of}
use libnetwork.Ipam.Allocator.{
  Allocator, IpamError, invalid_pool_id, request_address, release_address,
}
use libnetwork.Ipam.Allocator.Requests.{release_pool}

abbrev pub Call : Type 0 → Type 0
Call A = SubnetKey → Allocator → Allocator × Result IpamError A

with_key : {A : Type 0} → Call A → Allocator → Option SubnetKey → Allocator × Result IpamError A
with_key call a none = (a, err invalid_pool_id)
with_key call a (some k) = call k a

pub by_id : {A : Type 0} → Call A → Name → Allocator → Allocator × Result IpamError A
unfolding with_key
by_id call id a = with_key call a (from_string id zero_key)

pub release_pool_id : Name → Allocator → Allocator × Result IpamError ℕ
unfolding by_id
release_pool_id id a = by_id release_pool id a

pub request_address_id : Name → Option Ip → Bool → Allocator → Allocator × Result IpamError Ip
unfolding by_id
request_address_id id pref serial a = by_id (λ k b. request_address k pref serial b) id a

pub release_address_id : Name → Option Ip → Allocator → Allocator × Result IpamError ℕ
unfolding by_id
release_address_id id address a = by_id (λ k b. release_address k address b) id a

-- A call by the id that String wrote for a key, of a name with no slash, of an address and a length, and
-- of no child subnet or one that is an address and a length too, is the call on the key.
pub by_id-string_of :
    {A : Type 0} (call : Call A) (k : SubnetKey) (a : Allocator)
    → HasNoSlash k.address_space
    → IsCidr k.subnet
    → (k.child_subnet ≡ []) ⊎ IsCidr k.child_subnet
    → by_id call (string_of k) a ≡ call k a
unfolding by_id with_key
by_id-string_of call k a h cidr (inl whole) =
    rw (from_string-string_of k zero_key h cidr (inl (whole, refl))) refl
by_id-string_of call k a h cidr (inr part) =
    rw (from_string-string_of k zero_key h cidr (inr part)) refl
