-- ===== src/Ipam/Keys/Text.antt =====
-- ipam/structures.go: the text of a SubnetKey, which is the id of a pool.
use libnetwork.Prelude.{
  ℕ, ◌≡◌, ◌⊎◌, inl, inr, refl, ap, ◌∙◌, Bool, true, false, not, ◌||◌, Option, none, some, List, [],
  ◌∷◌, ◌++◌, ◌==◌, arith, if◌then◌else◌, All,
}
use mathlib.Core.List.{append_assoc}
use libnetwork.Networkdb.Names.{Name}
use libnetwork.Ipam.Keys.{SubnetKey}

abbrev pub slash : ℕ
slash = 47

is_empty : Name → Bool
is_empty [] = true
is_empty (c ∷ name) = false

-- strings.Contains(str, "/")
has_slash : Name → Bool
has_slash [] = false
has_slash (c ∷ str) = c == slash || has_slash str

first_with : ℕ → List Name → List Name
first_with c [] = (c ∷ []) ∷ []
first_with c (p ∷ ps) = (c ∷ p) ∷ ps

-- strings.Split(str, "/")
split : Name → List Name
unfolding first_with
split [] = [] ∷ []
split (c ∷ str) = let rest = split str in if c == slash then [] ∷ rest else first_with c rest

-- SubnetKey.String
pub string_of : SubnetKey → Name
unfolding is_empty
string_of k =
    let s = k.address_space ++ slash ∷ k.subnet in
    if is_empty k.child_subnet then s else s ++ slash ∷ k.child_subnet

-- What FromString makes of the parts, `none` for the error; three parts leave ChildSubnet as it was.
from_parts : List Name → SubnetKey → Option SubnetKey
from_parts (a ∷ b ∷ c ∷ []) k = some (record k { address_space = a; subnet = b ++ slash ∷ c })
from_parts (a ∷ b ∷ c ∷ d ∷ e ∷ []) k =
    some (record { address_space = a; subnet = b ++ slash ∷ c; child_subnet = d ++ slash ∷ e })
from_parts ps k = none

-- SubnetKey.FromString, into the key that is there.
pub from_string : Name → SubnetKey → Option SubnetKey
unfolding from_parts split has_slash is_empty
from_string str k = if is_empty str || not (has_slash str) then none else from_parts (split str) k

abbrev pub HasNoSlash : Name → Type 0
HasNoSlash = All (λ c. (c == slash) ≡ false)

-- An address and a length, as net.IPNet.String writes them.
abbrev pub IsCidr : Name → Type 0
IsCidr name = (a : Name) × (b : Name) × HasNoSlash a × HasNoSlash b × (name ≡ a ++ slash ∷ b)

split-part : (a : Name) → HasNoSlash a → split a ≡ a ∷ []
unfolding split first_with
split-part [] h = refl
split-part (c ∷ a) (h, hs) = rw (h, split-part a hs) refl

split-append : (a r : Name) → HasNoSlash a → split (a ++ slash ∷ r) ≡ a ∷ split r
unfolding split first_with
split-append [] r h = refl
split-append (c ∷ a) r (h, hs) = rw (h, split-append a r hs) refl

has_slash-append : (a r : Name) → has_slash (a ++ slash ∷ r) ≡ true
unfolding has_slash
has_slash-append [] r = refl
has_slash-append (c ∷ a) r = ground (arith, has_slash-append a r)

split-cidr : (a b : Name) → HasNoSlash a → HasNoSlash b → split (a ++ slash ∷ b) ≡ a ∷ b ∷ []
split-cidr a b ha hb = split-append a b ha ∙ ap (λ ps. a ∷ ps) (split-part b hb)

from_string-parts :
    (a r : Name) (k : SubnetKey)
    → from_string (a ++ slash ∷ r) k ≡ from_parts (split (a ++ slash ∷ r)) k
unfolding from_string is_empty
from_string-parts [] r k = refl
from_string-parts (c ∷ a) r k = rw (has_slash-append (c ∷ a) r) refl

abbrev key_with : Name → Name → Name → SubnetKey
key_with as' sub child = record { address_space = as'; subnet = sub; child_subnet = child }

read_whole :
    (as' sub : Name) (s : SubnetKey)
    → HasNoSlash as'
    → IsCidr sub
    → s.child_subnet ≡ []
    → from_string (as' ++ slash ∷ sub) s ≡ some (key_with as' sub [])
unfolding from_parts
read_whole as' sub s h (a, b, ha, hb, is) free =
    from_string-parts as' sub s ∙ (rw (split-append as' sub h, is, split-cidr a b ha hb, free) refl)

read_part :
    (as' sub child : Name) (s : SubnetKey)
    → HasNoSlash as'
    → IsCidr sub
    → IsCidr child
    → from_string ((as' ++ slash ∷ sub) ++ slash ∷ child) s ≡ some (key_with as' sub child)
unfolding from_parts
read_part as' sub child s h (a, b, ha, hb, is) (d, e, hd, he, child_is) =
    let str : (as' ++ slash ∷ sub) ++ slash ∷ child ≡ as' ++ slash ∷ (sub ++ slash ∷ child) =
      append_assoc as' (slash ∷ sub) (slash ∷ child) in
    let rest : sub ++ slash ∷ child ≡ a ++ slash ∷ (b ++ slash ∷ child) =
      rw is (append_assoc a (slash ∷ b) (slash ∷ child)) in
    let parts : split (sub ++ slash ∷ child) ≡ a ∷ b ∷ d ∷ e ∷ [] =
      ap (λ r. split r) rest
      ∙ split-append a (b ++ slash ∷ child) ha
      ∙ ap (λ ps. a ∷ ps) (split-append b child hb)
      ∙ ap (λ ps. a ∷ b ∷ ps) (ap (λ r. split r) child_is ∙ split-cidr d e hd he) in
    ap (λ r. from_string r s) str
    ∙ from_string-parts as' (sub ++ slash ∷ child) s
    ∙ (rw (split-append as' (sub ++ slash ∷ child) h, parts, is, child_is) refl)

not_empty : (name : Name) → IsCidr name → is_empty name ≡ false
unfolding is_empty
not_empty [] ([], b, ha, hb, is) = absurd (let bad : [] ≡ slash ∷ b = is in cc)
not_empty [] (c ∷ a, b, ha, hb, is) = absurd (let bad : [] ≡ c ∷ (a ++ slash ∷ b) = is in cc)
not_empty (c ∷ name) cidr = refl

-- The name of an address space with no slash, a subnet that is an address and a length, and a child
-- subnet that is one too, or is empty and empty in the key that is read into: FromString of what String
-- writes is the key, so that the id of a pool stands for one key.
pub from_string-string_of :
    (k s : SubnetKey)
    → HasNoSlash k.address_space
    → IsCidr k.subnet
    → ((k.child_subnet ≡ []) × (s.child_subnet ≡ [])) ⊎ IsCidr k.child_subnet
    → from_string (string_of k) s ≡ some k
unfolding string_of is_empty
from_string-string_of k s h cidr (inl (whole, free)) =
    rw whole (read_whole k.address_space k.subnet s h cidr free)
from_string-string_of k s h cidr (inr part) =
    rw (not_empty k.child_subnet part)
      (read_part k.address_space k.subnet k.child_subnet s h cidr part)
