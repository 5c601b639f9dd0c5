-- ===== src/Text/Defs.antt =====
-- Strings as lists of UTF-16 code units, and the methods of `String.prototype` that the code calls.
use Prim.Native.Char.{code}
use Prim.Native.String.{String}
use mathlib.Core.List.{reverse}
use rune_terminal.Base.{
  ℕ, ◌+◌, ◌-◌, ◌/◌, ◌%◌, zero, suc, ltb, Bool, true, false, ◌&&◌, ◌||◌, Option, none, some, List,
  [], ◌∷◌, ◌++◌, length, drop, if◌then◌else◌, leb, ◌==◌, any,
}

abbrev pub Text : Type 0
Text = List ℕ

-- The code units of a literal, all of whose characters lie in the basic multilingual plane.
abbrev pub text : String → Text
text String.[] = []
text (String.◌∷◌ c s) = code c ∷ text s

-- `a === b`
unfoldable pub text_eq : Text → Text → Bool
text_eq [] [] = true
text_eq (c ∷ s) (d ∷ t) = c == d && text_eq s t
text_eq _ _ = false

abbrev pub is_empty : Text → Bool
is_empty [] = true
is_empty (_ ∷ _) = false

-- A string or null where it is tested as a condition: null and "" are falsy.
abbrev pub truthy : Option Text → Option Text
truthy none = none
truthy (some []) = none
truthy (some (c ∷ s)) = some (c ∷ s)

-- `ids.includes(id)`, and `new Set(ids).has(id)`
unfoldable pub includes : List Text → Text → Bool
includes ids id = any (λ x. text_eq x id) ids

-- White space and line terminators, as `trim` and `\s` know them.
unfoldable pub is_space : ℕ → Bool
is_space c =
    leb 9 c && leb c 13
    || c == 32
    || c == 160
    || c == 0x1680
    || leb 0x2000 c && leb c 0x200a
    || c == 0x2028
    || c == 0x2029
    || c == 0x202f
    || c == 0x205f
    || c == 0x3000
    || c == 0xfeff

unfoldable pub trim_start : Text → Text
trim_start [] = []
trim_start (c ∷ s) = let rest = trim_start s in if is_space c then rest else c ∷ s

-- `s.trim()`
unfoldable pub trim : Text → Text
trim s = reverse (trim_start (reverse (trim_start s)))

unfoldable pub starts_with : Text → Text → Bool
starts_with s [] = true
starts_with [] (p ∷ ps) = false
starts_with (c ∷ s) (p ∷ ps) = c == p && starts_with s ps

-- `s.endsWith(suffix)`
unfoldable pub ends_with : Text → Text → Bool
ends_with s suffix =
    leb (length suffix) (length s) && text_eq (drop (length s - length suffix) s) suffix

-- `s.includes(part)`
unfoldable pub contains : Text → Text → Bool
contains [] part = is_empty part
contains (c ∷ s) part = starts_with (c ∷ s) part || contains s part

-- `parts.join('')`
unfoldable pub join : List Text → Text
join [] = []
join (part ∷ parts) = part ++ join parts

-- `Array.from(new Set(names))`, of which the first occurrences stay
unfoldable pub dedupe_from : List Text → List Text → List Text
dedupe_from seen [] = []
dedupe_from seen (x ∷ xs) =
    let rest = x ∷ dedupe_from (x ∷ seen) xs in
    let skipped = dedupe_from seen xs in if includes seen x then skipped else rest

abbrev pub dedupe : List Text → List Text
dedupe = dedupe_from []

-- the decimal digits of a number, `String(counter)`, with one round of fuel for each digit
unfoldable pub decimal_from : ℕ → ℕ → Text → Text
decimal_from zero n digits = digits
decimal_from (suc fuel) n digits =
    let here = (b'0' + n % 10) ∷ digits in
    let more = decimal_from fuel (n / 10) here in if ltb n 10 then here else more

unfoldable pub decimal : ℕ → Text
decimal n = decimal_from (suc n) n []
