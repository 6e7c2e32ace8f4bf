-- ===== src/Discovery/Text.antt =====
-- Texts, which are lists of characters: what is used of package strings, and netutils/utils.go, ReverseIP.
-- What net and strings.ToLower make of a text is a parameter.
use libnetwork.Prelude.{
  ℕ, zero, suc, ◌+◌, ◌-◌, ◌==◌, Bool, true, false, Option, none, some, List, [], ◌∷◌, ◌++◌,
  if◌then◌else◌, map, length, ltb, replicate, reverse_append,
}
use libnetwork.Networkdb.Names.{Name}
use libnetwork.Ipam.Net.{Ip, to4}

-- IP.String, ParseIP (`none` for nil) and ToLower.
pub record Text : Type 0 where
  pub ip_string : Ip → Name
  pub parse_ip : Name → Option Ip
  pub to_lower : Name → Name

first_with : ℕ → List Name → List Name
first_with c [] = (c ∷ []) ∷ []
first_with c (p ∷ ps) = (c ∷ p) ∷ ps

-- strings.Split at one character
unfoldable pub split : ℕ → Name → List Name
unfolding first_with
split sep [] = [] ∷ []
split sep (c ∷ str) = let rest = split sep str in if c == sep then [] ∷ rest else first_with c rest

-- strings.Join
unfoldable pub join : Name → List Name → Name
join sep [] = []
join sep (p ∷ []) = p
join sep (p ∷ q ∷ ps) = p ++ (sep ++ join sep (q ∷ ps))

-- strings.TrimSuffix of one character
unfoldable pub trim_suffix : ℕ → Name → Name
trim_suffix sep [] = []
trim_suffix sep (c ∷ []) = if c == sep then [] else c ∷ []
trim_suffix sep (c ∷ d ∷ str) = c ∷ trim_suffix sep (d ∷ str)

abbrev pub dot : ℕ
dot = 46

abbrev colon : ℕ
colon = 58

abbrev digit_zero : ℕ
digit_zero = 48

-- strings.Count of one character
count_char : ℕ → Name → ℕ
count_char sep [] = 0
count_char sep (c ∷ str) = (if c == sep then 1 else 0) + count_char sep str

repeat : ℕ → Name → Name
repeat zero str = []
repeat (suc n) str = str ++ repeat n str

-- A group of an IPv6 address, the compressed one written out and the others padded with zeros.
full_group : Name → Name → Name
unfolding repeat count_char
full_group ip group =
    if length group == 0
    then repeat (8 - count_char colon ip) (replicate 4 digit_zero)
    else if ltb (length group) 4
    then replicate (4 - length group) digit_zero ++ group
    else group

is_v4_text : Option Ip → Bool
is_v4_text none = false
is_v4_text (some ip) = elim (to4 ip) [ none ↦ false | some short ↦ true ]

reversed : List Name → List Name
reversed ps = reverse_append ps []

-- ReverseIP
pub reverse_ip : ⦃text : Text⦄ → Name → Name
unfolding full_group is_v4_text reversed
reverse_ip ⦃text⦄ ip =
    if is_v4_text (text.parse_ip ip)
    then join (dot ∷ []) (reversed (split dot ip))
    else join (dot ∷ [])
        (reversed (map (λ c. c ∷ []) (join [] (map (full_group ip) (split colon ip)))))
