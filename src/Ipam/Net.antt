-- ===== src/Ipam/Net.antt =====
-- What ipam uses of Go's package net, over its structs: IP.To4, IPMask.Size and IPNet.Contains.
use libnetwork.Prelude.{
  ℕ, Bool, true, ◌&&◌, Option, none, some, List, [], ◌∷◌, ◌==◌, if◌then◌else◌, length, drop,
}
use libnetwork.Networkdb.Names.{is_prefix}
use Prim.Native.Nat.{bit_and}

-- net.IP, a list of bytes.
abbrev pub Ip : Type 0
Ip = List ℕ

-- net.IPNet
pub record IpNet : Type 0 where
  pub ip : Ip
  pub mask : List ℕ

abbrev pub v4_prefix : List ℕ
v4_prefix = 0 ∷ 0 ∷ 0 ∷ 0 ∷ 0 ∷ 0 ∷ 0 ∷ 0 ∷ 0 ∷ 0 ∷ 255 ∷ 255 ∷ []

-- IP.To4, whose nil is `none`.
unfoldable pub to4 : Ip → Option Ip
to4 ip =
    if length ip == 4
    then some ip
    else if length ip == 16 && is_prefix v4_prefix ip
    then some (drop 12 ip)
    else none

-- The address in four bytes if there is such a form.
unfoldable pub shortest : Option Ip → Ip → Ip
shortest (some short) ip = short
shortest none ip = ip

-- The number and the mask that Contains compares by; none of either is an empty list.
unfoldable pub number_and_mask : IpNet → Ip → List ℕ × List ℕ
number_and_mask nw ip =
    if length ip == 4 && length nw.mask == 4
    then (ip, nw.mask)
    else if length ip == 4 && length nw.mask == 16
    then (ip, drop 12 nw.mask)
    else if length ip == 16 && length nw.mask == 16
    then (ip, nw.mask)
    else ([], [])

unfoldable pub agree : List ℕ → List ℕ → List ℕ → Bool
agree (n ∷ ns) (m ∷ ms) (b ∷ bs) = bit_and n m == bit_and b m && agree ns ms bs
agree ns ms bs = true

-- IPNet.Contains
unfoldable pub has_ip : IpNet → Ip → Bool
unfolding number_and_mask
has_ip nw ip =
    let (ns, ms) = number_and_mask nw (shortest (to4 nw.ip) nw.ip) in
    let bs = shortest (to4 ip) ip in length bs == length ns && agree ns ms bs
