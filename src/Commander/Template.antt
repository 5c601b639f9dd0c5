-- ===== src/Commander/Template.antt =====
-- Rename templates, frontend/src/features/commander/model/operation-preview.ts: the tokens
-- `[C:start:width:step]`, `[N]`, `[E]` and `[F]`, each with its modifiers.
pub mod Counter
pub mod Tokens
use rune_terminal.Base.{
  ℕ, zero, suc, ◌+◌, ◌-◌, ◌*◌, ◌/◌, ◌%◌, Bool, true, false, not, ◌&&◌, ◌||◌, Option, none, some,
  List, [], ◌∷◌, ◌++◌, if◌then◌else◌, ltb, leb, ◌==◌, length, take, first?, get_elem?, get_or,
  is_some,
}
use mathlib.Core.Option
use rune_terminal.Text.{Text, text, is_empty, trim, ends_with, contains, decimal}
use rune_terminal.Locale.{Locale, locale_lower_case, locale_upper_case}
use rune_terminal.Commander.Types.{CommanderDirectoryEntry, CommanderRowKind}

abbrev pub is_file : CommanderRowKind → Bool
is_file CommanderRowKind.file = true
is_file _ = false

pub record NameParts : Type 0 where
  pub base_name : Text
  pub ext : Text

unfoldable pub zeros : ℕ → Text
zeros zero = []
zeros (suc n) = b'0' ∷ zeros n

-- a missing width and the width 0 leave the counter as it is
unfoldable pub format_rename_counter : ℕ → Option ℕ → Text
format_rename_counter counter width =
    if leb (get_or width 0) (length (decimal counter))
    then decimal counter
    else zeros (get_or width 0 - length (decimal counter)) ++ decimal counter

-- `s.replace(pattern, callback)` with the flag `g`: `match` reads a token at the head of a text and
-- returns its length and its replacement. The number counts the code units that are left of the
-- last token.
unfoldable pub replace_from : (Text → Option (ℕ × Text)) → ℕ → Text → Text
replace_from match skip [] = []
replace_from match (suc skip) (c ∷ s) = replace_from match skip s
replace_from match zero (c ∷ s) = elim (match (c ∷ s)) [
  | none ↦ c ∷ replace_from match 0 s
  | some (n, replacement) ↦ replacement ++ replace_from match (n - 1) s
]

unfoldable pub is_digit : ℕ → Bool
is_digit c = leb b'0' c && leb c b'9'

-- the letter with either case, as the flag `i` reads it
unfoldable pub is_letter : ℕ → ℕ → Bool
is_letter upper c = c == upper || c == upper + 32

unfoldable pub is_any_letter : ℕ → Bool
is_any_letter c = leb b'a' c && leb c b'z' || leb b'A' c && leb c b'Z'

-- `\d+` at the head of a text: its value, its length and the rest
unfoldable pub read_digits : ℕ → ℕ → Text → ℕ × ℕ × Text
read_digits value count [] = (value, count, [])
read_digits value count (c ∷ s) =
    let more = read_digits (10 * value + (c - b'0')) (count + 1) s in
    if is_digit c then more else (value, count, c ∷ s)

-- `:(\d+)`
unfoldable pub read_group : Text → Option (ℕ × ℕ × Text)
read_group [] = none
read_group (c ∷ s) =
    let (value, count, rest) = read_digits 0 0 s in
    if c == b':' && ltb 0 count then some (value, count + 1, rest) else none

-- at most so many groups: their values, their length and the rest
unfoldable pub read_groups : ℕ → Text → List ℕ × ℕ × Text
read_groups zero s = ([], 0, s)
read_groups (suc n) s = elim (read_group s) [
  | none ↦ ([], 0, s)
  | some (value, count, rest) ↦
      let (values, more, rest') = read_groups n rest in (value ∷ values, count + more, rest')
]

-- the counter that the groups of a token `[C…]` describe
unfoldable pub counter_text : ℕ → List ℕ → Text
counter_text index groups = elim (get_elem? groups 1) [
  | none ↦ format_rename_counter (1 + index) (get_elem? groups 0)
  | some width ↦
      format_rename_counter (get_or (get_elem? groups 0) 1 + index * get_or (get_elem? groups 2) 1)
        (some width)
]

-- the closing bracket of a token whose first code units are already read
unfoldable pub closes : Text → Bool
closes s = elim s [ [] ↦ false | c ∷ rest ↦ c == b']' ]

-- `/\[C(?::(\d+))?(?::(\d+))?(?::(\d+))?\]/gi`
unfoldable pub match_counter : ℕ → Text → Option (ℕ × Text)
match_counter index (bracket ∷ letter ∷ s) =
    let (groups, count, rest) = read_groups 3 s in
    if bracket == b'[' && is_letter b'C' letter && closes rest
    then some (count + 3, counter_text index groups)
    else none
match_counter index s = none

-- `(?::([a-z]))?\]` behind the letter of a token: the modifier and the length
unfoldable pub read_modifier : Text → Option (Option ℕ × ℕ)
read_modifier (colon ∷ letter ∷ s) =
    if colon == b']'
    then some (none, 1)
    else if colon == b':' && is_any_letter letter && closes s
    then some (some letter, 3)
    else none
read_modifier s = if closes s then some (none, 1) else none

module _ ⦃l : Locale⦄ where
  unfoldable pub split_entry_base_name_and_ext : CommanderDirectoryEntry → NameParts
  split_entry_base_name_and_ext e =
      let suffix = b'.' ∷ e.ext in
      if not (is_file e.kind) || is_empty e.ext
      then record { base_name = e.name; ext = [] }
      else if ends_with (locale_lower_case e.name) (locale_lower_case suffix)
      then record { base_name = take (length e.name - length suffix) e.name; ext = e.ext }
      else record { base_name = e.name; ext = e.ext }

  unfoldable pub apply_rename_text_transform : Text → Option ℕ → Text
  apply_rename_text_transform value none = value
  apply_rename_text_transform value (some modifier) =
      if is_letter b'L' modifier
      then locale_lower_case value
      else if is_letter b'U' modifier
      then locale_upper_case value
      else value

  -- `token === 'N' ? baseName : token === 'E' ? ext : entry.name`
  unfoldable pub raw_value : CommanderDirectoryEntry → ℕ → Text
  raw_value e token =
      if token == b'N'
      then (split_entry_base_name_and_ext e).base_name
      else if token == b'E'
      then (split_entry_base_name_and_ext e).ext
      else e.name

  -- `/\[(N|E|F)(?::([a-z]))?\]/gi`
  unfoldable pub match_name : CommanderDirectoryEntry → Text → Option (ℕ × Text)
  match_name e (bracket ∷ token ∷ s) =
      if bracket == b'[' && (is_letter b'N' token || is_letter b'E' token || is_letter b'F' token)
      then Option.map (λ m. (m.1 + 2, apply_rename_text_transform (raw_value e token) m.0))
          (read_modifier s)
      else none
  match_name e s = none

-- `/\[F(?::[a-z])?\]/i.test(s)`, for the letter given
unfoldable pub uses_token : ℕ → Text → Bool
uses_token letter [] = false
uses_token letter (c ∷ []) = false
uses_token letter (c ∷ d ∷ s) =
    c == b'[' && is_letter letter d && is_some (read_modifier s) || uses_token letter (d ∷ s)

module _ ⦃l : Locale⦄ where
  -- the two replacements and the `trim` of the template
  unfoldable pub expand_template : CommanderDirectoryEntry → Text → ℕ → Text
  expand_template e template index =
      trim (replace_from (match_name e) 0 (replace_from (match_counter index) 0 template))

  unfoldable pub apply_commander_rename_template : CommanderDirectoryEntry → Text → ℕ → Text
  apply_commander_rename_template e template index =
      let normalized = trim template in
      let ext = (split_entry_base_name_and_ext e).ext in
      let next_name = expand_template e normalized index in
      if is_empty normalized || is_empty next_name
      then []
      else if is_file e.kind
          && not (is_empty ext)
          && not (uses_token b'F' normalized)
          && not (uses_token b'E' normalized)
          && not (contains next_name (b'.' ∷ []))
      then next_name ++ b'.' ∷ ext
      else next_name
