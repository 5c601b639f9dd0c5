-- ===== src/Commander/Mask.antt =====
-- The wildcard masks of frontend/src/features/commander/model/store-selection.ts, and as much of
-- `RegExp` as the expressions that they are compiled to use.
pub mod Expression
pub mod Entries
pub mod Matching
pub mod Patterns
pub mod Tokens
use rune_terminal.Base.{
  ℕ, Bool, true, false, not, ◌||◌, Option, none, some, List, [], ◌∷◌, ◌++◌, if◌then◌else◌, ◌==◌,
  filter, any, map,
}
use mathlib.Core.List.{filter_map}
use mathlib.Core.Option
use rune_terminal.Text.{Text, is_space, is_empty, trim, join}
use rune_terminal.Locale.{Locale, canonicalize}
use rune_terminal.Commander.Types.{CommanderDirectoryEntry}

-- the class `[.*+?^${}()|[\]\\]`
unfoldable pub is_syntax : ℕ → Bool
is_syntax c =
    c == b'.'
    || c == b'*'
    || c == b'+'
    || c == b'?'
    || c == b'^'
    || c == b'$'
    || c == b'{'
    || c == b'}'
    || c == b'('
    || c == b')'
    || c == b'|'
    || c == b'['
    || c == b']'
    || c == b'\\'

-- `escapeCommanderMaskRegExp`, of one code unit
unfoldable pub escape_commander_mask_reg_exp : ℕ → Text
escape_commander_mask_reg_exp c = if is_syntax c then b'\\' ∷ c ∷ [] else c ∷ []

-- The runs that `/[;,]+|\s+/` splits at, and `outside` for a code unit of a pattern.
pub data Run : Type 0 where
  punctuation space outside : Run

unfoldable pub run_of : ℕ → Run
run_of c = if c == b';' || c == b',' then punctuation else if is_space c then space else outside

unfoldable pub same_run : Run → Run → Bool
same_run punctuation punctuation = true
same_run space space = true
same_run outside outside = true
same_run _ _ = false

-- `mask.split(/[;,]+|\s+/)`: the part read so far, the run that is being skipped, and the rest
unfoldable pub split_from : Text → Run → Text → List Text
split_from part run [] = part ∷ []
split_from part run (c ∷ s) =
    let longer = split_from (part ++ c ∷ []) outside s in
    let skipped = split_from part run s in
    let closed = part ∷ split_from [] (run_of c) s in
    if same_run (run_of c) outside
    then longer
    else if same_run run (run_of c)
    then skipped
    else closed

unfoldable pub split_commander_mask_patterns : Text → List Text
split_commander_mask_patterns mask =
    filter (λ part. not (is_empty part)) (map trim (split_from [] outside mask))

-- one round of the `map` in `commanderMaskPatternToRegExp`
unfoldable pub expression_of : ℕ → Text
expression_of c =
    if c == b'*'
    then b'.' ∷ b'*' ∷ []
    else if c == b'?'
    then b'.' ∷ []
    else escape_commander_mask_reg_exp c

-- The terms of the expressions: `.*`, `.`, and one code unit, escaped or plain.
pub data Term : Type 0 where
  stars wild : Term
  unit : ℕ → Term

-- `new RegExp(source, 'i')` for a source `^…$` over these terms; `none` is any other source.
-- `parse_terms` reads what follows `^`.
unfoldable pub parse_terms : Text → Option (List Term)
parse_terms [] = none
parse_terms (c ∷ []) = if c == b'$' then some [] else none
parse_terms (c ∷ d ∷ s) =
    let after_one = parse_terms (d ∷ s) in
    let after_two = parse_terms s in
    if c == b'.'
    then (if d == b'*' then Option.map (◌∷◌ stars) after_two else Option.map (◌∷◌ wild) after_one)
    else if c == b'\\'
    then (if is_syntax d then Option.map (◌∷◌ (unit d)) after_two else none)
    else if is_syntax c
    then none
    else Option.map (◌∷◌ (unit c)) after_one

unfoldable pub reg_exp : Text → Option (List Term)
reg_exp [] = none
reg_exp (c ∷ s) = if c == b'^' then parse_terms s else none

-- The source text `^…$` that is handed to `RegExp`, or `null`.
unfoldable pub commander_mask_pattern_source : Text → Option Text
commander_mask_pattern_source pattern =
    let normalized = trim pattern in
    if is_empty normalized
    then none
    else some (b'^' ∷ (join (map expression_of normalized) ++ b'$' ∷ []))

unfoldable pub commander_mask_pattern_to_reg_exp : Text → Option (List Term)
commander_mask_pattern_to_reg_exp pattern =
    Option.bind (commander_mask_pattern_source pattern) reg_exp

-- `.` matches all but a line terminator.
unfoldable pub is_line_terminator : ℕ → Bool
is_line_terminator c = c == 10 || c == 13 || c == 0x2028 || c == 0x2029

module _ ⦃l : Locale⦄ where
  -- `expression.test(name)`: the terms must take up the whole name
  unfoldable pub test : List Term → Text → Bool
  test [] s = is_empty s
  test (stars ∷ ts) [] = test ts []
  test (stars ∷ ts) (c ∷ s) =
      let none_taken = test ts (c ∷ s) in
      let one_taken = test (stars ∷ ts) s in
      if none_taken then true else if is_line_terminator c then false else one_taken
  test (wild ∷ ts) [] = false
  test (wild ∷ ts) (c ∷ s) = let rest = test ts s in if is_line_terminator c then false else rest
  test (unit d ∷ ts) [] = false
  test (unit d ∷ ts) (c ∷ s) =
      let rest = test ts s in if canonicalize c == canonicalize d then rest else false

  unfoldable pub get_commander_matched_entries :
      List CommanderDirectoryEntry → Text → Bool → List CommanderDirectoryEntry
  get_commander_matched_entries entries mask empty_means_all =
      let expressions =
        filter_map commander_mask_pattern_to_reg_exp (split_commander_mask_patterns mask) in
      elim expressions [
        | [] ↦ if empty_means_all then entries else []
        | e ∷ es ↦ filter (λ entry. any (λ terms. test terms entry.name) (e ∷ es)) entries
      ]

  -- `filterEntriesByMask` passes its arguments on.
  unfoldable pub filter_entries_by_mask :
      List CommanderDirectoryEntry → Text → Bool → List CommanderDirectoryEntry
  filter_entries_by_mask = get_commander_matched_entries
