-- ===== src/Ipam/Tests.antt =====
-- Concrete runs of the theorems on ipam.
use libnetwork.Prelude.{
  ℕ, ◌-◌, ◌^◌, ◌%◌, ◌<◌, ◌≡◌, ◌≢◌, ◌⊎◌, inl, inr, refl, sym, ap, ◌∙◌, true, false, ◌||◌, ◌==◌,
  Option, none, some, List, [], ◌∷◌, arith, length, All,
}
use libnetwork.Prelude.Int.{pos}
use libnetwork.Prelude.Result.{ok, err}
use libnetwork.Networkdb.Names.{Name, is_prefix, lookup, same}
use libnetwork.Bitseq.Sequence.Mask.{is_set}
use libnetwork.Bitseq.Handle.{Handle}
use libnetwork.Bitseq.Handle.Reserve.{IsHandle}
use libnetwork.Ipam.Net.{Ip, IpNet, has_ip, v4_prefix}
use libnetwork.Ipam.Keys.{SubnetKey, zero_key, same_key, find, put, find-put}
use libnetwork.Ipam.Keys.Text.{string_of, from_string, from_string-string_of}
use libnetwork.Ipam.Pools.{
  AddressRange, PoolData, Subnets, pool_overlap, bad_pool, master_data, update_pool_db_on_add,
  update_pool_db_on_removal,
}
use libnetwork.Ipam.Pools.Held.{IsHeld, held_count, use_count}
use libnetwork.Ipam.Pools.Refine.{add_master-IsHeld}
use libnetwork.Ipam.Pools.Add.{Adds, Overlaps, update_pool_db_on_add_cases}
use libnetwork.Ipam.Pools.Remove.{Removes, TakesOne, update_pool_db_on_removal_cases}
use libnetwork.Ipam.Addresses.{get_host_part_ip, ip_to_uint64, generate_address}
use libnetwork.Ipam.Addresses.Cells.{Cell, IsPrefixed, network, host_bits_of}
use libnetwork.Ipam.Addresses.Ordinals.{generate_address-network, generate_address-ip_to_uint64}
use libnetwork.Ipam.Allocator.{
  Allocator, no_default_pool, new_bit_mask, get_address, request_address, release_address, outside,
  with_bit_mask, owner,
}
use libnetwork.Ipam.Allocator.Sizes.{new_bit_mask-network}
use libnetwork.Ipam.Allocator.Addresses.{GivesFirst, get_address_cases}
use libnetwork.Ipam.Allocator.Defaults.{is_default, predefined_of, local_address_space}
use libnetwork.Ipam.Allocator.Defaults.Choice.{IsFree}
use libnetwork.Ipam.Allocator.Requests.{request_pool}
use libnetwork.Ipam.Allocator.Requests.Default.{Chosen, request_pool-Chosen}
use libnetwork.Ipam.Allocator.Trip.{
  IsPool, request_address-pool, stored_granted, release_address-request_address,
}

-- 10.1.32.0/20
abbrev lan : List Cell
lan =
    record { high = 10; host_bits = 0 }
    ∷ record { high = 1; host_bits = 0 }
    ∷ record { high = 2; host_bits = 4 }
    ∷ record { high = 0; host_bits = 8 }
    ∷ []

lan-IsPrefixed : IsPrefixed lan
lan-IsPrefixed = (
  (omega arith, omega arith),
  inl (
    refl,
    (
      (omega arith, omega arith),
      inl (refl, ((omega arith, omega arith), inr ((omega arith, omega arith), refl, tt))),
    ),
  ),
)

abbrev lan_key : SubnetKey
lan_key = record { address_space = 1 ∷ []; subnet = 2 ∷ []; child_subnet = [] }

abbrev part_key : SubnetKey
part_key = record { address_space = 1 ∷ []; subnet = 2 ∷ []; child_subnet = 3 ∷ [] }

abbrev part_range : AddressRange
part_range = record { sub = network lan; start = 256; end = 511 }

generate_address-ip_to_uint64_example :
    let nw = network lan in
    let a = generate_address 1000 nw in
    (has_ip nw a ≡ true)
    × (h : Ip) × (get_host_part_ip a nw.mask ≡ ok h)
    × ((ip_to_uint64 h ≡ 1000)
        ⊎ ((length lan ≡ 16) × (is_prefix v4_prefix h ≡ true) × (ip_to_uint64 h ≡ 1000 % 2 ^ 32)))
generate_address-ip_to_uint64_example =
    generate_address-ip_to_uint64 lan 1000 lan-IsPrefixed (inl refl) (omega arith) (omega arith)
      (inl (ap length (generate_address-network lan 1000 (inl refl)) ∙ refl))

nothing-IsHeld : IsHeld [] []
unfolding find
nothing-IsHeld = record { masters = λ k c. refl; children = λ k c. refl; unnamed = λ k c. refl }

abbrev lan_space : Subnets
lan_space = put lan_key (master_data (network lan) (pos 1)) []

lan_space-IsHeld : IsHeld (lan_key ∷ []) lan_space
unfolding find
lan_space-IsHeld =
    add_master-IsHeld [] [] nothing-IsHeld lan_key (network lan) lan_space (λ e. cc) refl refl
      (λ j. find-put lan_key j (master_data (network lan) (pos 1)) [])

update_pool_db_on_add_cases_example :
    let r = update_pool_db_on_add part_key (network lan) (some part_range) false lan_space in
    (((p : PoolData) × (find part_key lan_space ≡ some p)) × (r ≡ some (err pool_overlap)))
    ⊎ ((find part_key lan_space ≡ none)
        × (((let o : Option AddressRange = some part_range in o ≡ none)
              × Overlaps (1 ∷ []) (network lan) lan_space
              × (r ≡ some (err pool_overlap)))
            ⊎ (((let o : Option AddressRange = some part_range in o ≡ none)
                  → ¬ Overlaps (1 ∷ []) (network lan) lan_space)
                × Adds (lan_key ∷ []) part_key (network lan) r)))
update_pool_db_on_add_cases_example =
    update_pool_db_on_add_cases (lan_key ∷ []) lan_space part_key (network lan) (some part_range)
      false lan_space-IsHeld (λ e. cc) (λ e. cc)

update_pool_db_on_removal_cases_example :
    let held = lan_key ∷ [] in
    let r = update_pool_db_on_removal lan_key lan_space in
    ((0 < held_count lan_key held) × Removes held lan_key r)
    ⊎ (((held_count lan_key held ≡ 0)
          × ((let n : List ℕ = [] in n ≢ []) ⊎ (use_count lan_key held ≡ 0))
          × (r ≡ some (err bad_pool)))
        ⊎ ((held_count lan_key held ≡ 0)
            × (let n : List ℕ = [] in n ≡ [])
            × (n : ℕ) × (w : IpNet) × (use_count lan_key held ≡ ℕ.suc n)
            × TakesOne lan_key lan_space n w r))
update_pool_db_on_removal_cases_example =
    update_pool_db_on_removal_cases (lan_key ∷ []) lan_space lan_key lan_space-IsHeld (λ e. cc)

new_bit_mask-network_example :
    (h : Handle) × (new_bit_mask (network lan) ≡ ok h)
    × IsHandle h
    × (h.bits ≡ 2 ^ host_bits_of lan)
    × ((o : ℕ) → is_set h.head o ≡ (o == 2 ^ host_bits_of lan - 1 || o == 0))
new_bit_mask-network_example = new_bit_mask-network lan lan-IsPrefixed refl

lan_mask : Handle
lan_mask = (new_bit_mask-network lan lan-IsPrefixed refl).0

lan_mask-IsHandle : IsHandle lan_mask
unfolding lan_mask
lan_mask-IsHandle = (new_bit_mask-network lan lan-IsPrefixed refl).2

lan_mask_bits : lan_mask.bits ≡ 2 ^ host_bits_of lan
unfolding lan_mask
lan_mask_bits = (new_bit_mask-network lan lan-IsPrefixed refl).3

lan_mask_free : is_set lan_mask.head 1 ≡ false
unfolding lan_mask
lan_mask_free = (new_bit_mask-network lan lan-IsPrefixed refl).4 1

get_address_cases_example :
    GivesFirst
      (network lan)
      lan_mask
      256
      511
      true
      (get_address (network lan) lan_mask none (some part_range) true)
get_address_cases_example =
    get_address_cases (network lan) lan_mask (some part_range) true lan_mask-IsHandle
      (omega arith, omega (arith, lan_mask_bits))

-- The allocator with that pool and a bitmask for it.
lan_allocator : Allocator
lan_allocator = record {
  addr_spaces = (1 ∷ [], lan_space) ∷ [];
  addresses = (lan_key, lan_mask) ∷ [];
  predefined = [];
  predefined_start_indices = [];
}

abbrev lan_pool : PoolData
lan_pool = master_data (network lan) (pos 1)

lan_allocator-IsPool : IsPool lan_allocator lan_key lan_pool lan_key lan_mask
unfolding lan_allocator lookup same find put same_key owner
lan_allocator-IsPool = record {
  subnets = lan_space;
  master = lan_pool;
  space_there = refl;
  pool_there = refl;
  owned = refl;
  mask_there = refl;
}

lan_request :
    (b : Allocator) × (ip : Ip) × (request_address lan_key none false lan_allocator ≡ (b, ok ip))
unfolding outside
lan_request = elim (get_address_cases (network lan) lan_mask none false lan_mask-IsHandle tt) [
  | inl (o, is, picks, w) ↦
      let r = get_address (network lan) lan_mask none none false in
      (
        with_bit_mask lan_key r.0 lan_allocator,
        generate_address o (network lan),
        request_address-pool lan_allocator lan_key lan_pool lan_key lan_mask lan_allocator-IsPool
              none false
            ∙ stored_granted lan_key lan_allocator (generate_address o (network lan)) r is,
      )
  | inr (is, all) ↦ absurd (
      let bad =
        sym lan_mask_free
        ∙ all 1 (omega arith) (omega (arith, lan_mask_bits))
            (omega (arith, lan_mask_bits, lan_mask-IsHandle.covered)) in
      cc)
]

release_address-request_address_example :
    let (b, ip, done) = lan_request in
    (has_ip lan_pool.pool ip ≡ true)
    × (c : Allocator) × (e : Handle) × (release_address lan_key (some ip) b ≡ (c, ok 0))
    × IsPool c lan_key lan_pool lan_key e
    × IsHandle e
    × ((j : ℕ) → is_set e.head j ≡ is_set lan_mask.head j)
    × (e.unselected ≡ lan_mask.unselected)
    × ((j : SubnetKey)
        → same_key lan_key j ≡ false
        → find j c.addresses ≡ find j lan_allocator.addresses)
release_address-request_address_example =
    release_address-request_address lan lan_allocator lan_request.0 lan_key lan_pool lan_key
      lan_mask none false lan_request.1 lan-IsPrefixed refl refl lan_mask_bits lan_mask-IsHandle
      lan_allocator-IsPool lan_request.2

-- An allocator with one predefined pool, which nobody holds.
abbrev default_allocator : Allocator
default_allocator = record {
  addr_spaces = (local_address_space, []) ∷ [];
  addresses = [];
  predefined = (local_address_space, network lan ∷ []) ∷ [];
  predefined_start_indices = [];
}

request_pool-Chosen_example :
    let text : IpNet → Name = λ nw. nw.ip in
    let parse : Name → Option (Ip × IpNet) = λ name. none in
    let r = request_pool text parse 1 local_address_space [] [] false default_allocator in
    ((i : ℕ) × (nw : IpNet) × Chosen text parse [] local_address_space false [] default_allocator i
        nw r)
    ⊎ ((r ≡ (default_allocator, err no_default_pool))
        × All
            (λ p. ¬ IsFree text local_address_space false [] p)
            (predefined_of local_address_space default_allocator))
unfolding is_default same lookup
request_pool-Chosen_example =
    request_pool-Chosen (λ nw. nw.ip) (λ name. none) [] 0 local_address_space false
      default_allocator [] refl refl nothing-IsHeld

-- "Lo/10/8/1/9"
abbrev text_key : SubnetKey
text_key = record {
  address_space = 76 ∷ 111 ∷ [];
  subnet = 49 ∷ 48 ∷ 47 ∷ 56 ∷ [];
  child_subnet = 49 ∷ 47 ∷ 57 ∷ [];
}

from_string-string_of_example : from_string (string_of text_key) zero_key ≡ some text_key
from_string-string_of_example =
    from_string-string_of text_key zero_key (refl, (refl, tt))
      (49 ∷ 48 ∷ [], 56 ∷ [], (refl, (refl, tt)), (refl, tt), refl)
      (inr (49 ∷ [], 57 ∷ [], (refl, tt), (refl, tt), refl))
