-- ===== src/GoText.antt =====
-- The functions of Go's package strings that the programs of cmd call, on texts.
pub mod Split
use raftra.Common.{
  ℕ, zero, suc, ◌+◌, ◌-◌, ◌≤◌, ◌<◌, ◌^◌, String, ◌≡◌, ◌≢◌, refl, sym, ap, ◌∙◌, ◌⊎◌, ◌↔◌, inl, inr,
  Bool, true, false, not, ◌&&◌, ◌||◌, Option, none, some, List, [], ◌∷◌, ◌++◌, min, arith, ◌==◌,
  string_eq, nat_eq, u64, u64-eq_of_lt, eq_iff, ltb, leb, if◌then◌else◌, length, take, drop,
  get_elem?, last_or, Bool-cases, Option-cases,
}
use Prim.Native.Char.{Char, code}
use Prim.Native.String
use Prim.Native.String.{◌++◌ as concat}

-- unicode.IsSpace
unfoldable pub is_space : ℕ → Bool
is_space c =
    leb 9 c && leb c 13
    || c == 32
    || c == 0x85
    || c == 0xa0
    || c == 0x1680
    || leb 0x2000 c && leb c 0x200a
    || c == 0x2028
    || c == 0x2029
    || c == 0x202f
    || c == 0x205f
    || c == 0x3000

unfoldable pub trim_start : String → String
unfolding is_space
trim_start String.[] = ""
trim_start (String.◌∷◌ c s) =
    let rest = trim_start s in if is_space (code c) then rest else String.◌∷◌ c s

is_empty : String → Bool
is_empty String.[] = true
is_empty (String.◌∷◌ c s) = false

unfoldable pub trim_end : (ℕ → Bool) → String → String
unfolding is_empty
trim_end drops String.[] = ""
trim_end drops (String.◌∷◌ c s) =
    let rest = trim_end drops s in if is_empty rest && drops (code c) then "" else String.◌∷◌ c rest

-- strings.TrimSpace
unfoldable pub trim_space : String → String
trim_space s = trim_end is_space (trim_start s)

abbrev pub prepend : Char → List String → List String
prepend c [] = String.◌∷◌ c "" ∷ []
prepend c (t ∷ ts) = String.◌∷◌ c t ∷ ts

-- strings.Split, by a separator of one character
unfoldable pub split : Char → String → List String
split sep String.[] = "" ∷ []
split sep (String.◌∷◌ c s) =
    let rest = split sep s in if code c == code sep then "" ∷ rest else prepend c rest

-- strings.SplitN with n = 2, by a separator of one character
unfoldable pub split_two : Char → String → List String
split_two sep String.[] = "" ∷ []
split_two sep (String.◌∷◌ c s) =
    let rest = split_two sep s in if code c == code sep then "" ∷ s ∷ [] else prepend c rest

-- strings.Join, by a separator of one character
unfoldable pub join : Char → List String → String
join sep [] = ""
join sep (t ∷ []) = t
join sep (t ∷ u ∷ ts) = concat t (String.◌∷◌ sep (join sep (u ∷ ts)))

drop_blank : List String → List String
unfolding is_empty
drop_blank [] = []
drop_blank (t ∷ ts) = let rest = drop_blank ts in if is_empty t then rest else t ∷ rest

split_spaces : String → List String
unfolding is_space
split_spaces String.[] = "" ∷ []
split_spaces (String.◌∷◌ c s) =
    let rest = split_spaces s in if is_space (code c) then "" ∷ rest else prepend c rest

-- strings.Fields
unfoldable pub fields : String → List String
unfolding drop_blank split_spaces
fields s = drop_blank (split_spaces s)
