-- ===== src/Commander/Mask/Entries.antt =====
-- `getCommanderMatchedEntries` of frontend/src/features/commander/model/store-selection.ts, from a
-- mask to the entries that it keeps.
use mathlib.Core.List.{filter_map}
use rune_terminal.Base.{
  ◌≡◌, refl, ◌↔◌, ◌⊎◌, Bool, true, false, List, [], ◌∷◌, if◌then◌else◌, arith, All, any, filter,
  map, ap, sym, filter_id,
}
use rune_terminal.Text.{Text}
use rune_terminal.Locale.{Locale}
use rune_terminal.Commander.Types.{CommanderDirectoryEntry}
use rune_terminal.Commander.Mask.{
  split_commander_mask_patterns, commander_mask_pattern_to_reg_exp, test,
  get_commander_matched_entries,
}
use rune_terminal.Commander.Mask.Expression.{term_of, commander_mask_pattern_to_reg_exp-term_of}
use rune_terminal.Commander.Mask.Matching.{Accepts, test_iff}
use rune_terminal.Commander.Mask.Patterns.{
  IsPattern, trim_of_NoSeparator, split_commander_mask_patterns-IsPattern,
}

compile_every :
    (parts : List Text)
    → All IsPattern parts
    → filter_map commander_mask_pattern_to_reg_exp parts ≡ map (map term_of) parts
unfolding filter_map
compile_every [] h = refl
compile_every (part ∷ parts) ((filled, plain), h) =
    let same = trim_of_NoSeparator part plain in
    rw (commander_mask_pattern_to_reg_exp-term_of part (rw same filled), same)
      (ap (map term_of part ∷◌) (compile_every parts h))

-- Each pattern of a mask compiles: none is dropped on the way.
pub expressions-map :
    (mask : Text)
    → filter_map commander_mask_pattern_to_reg_exp (split_commander_mask_patterns mask)
      ≡ map (map term_of) (split_commander_mask_patterns mask)
expressions-map mask = compile_every _ (split_commander_mask_patterns-IsPattern mask)

module _ ⦃l : Locale⦄ where
  -- Some pattern of the list stands for the name.
  abbrev pub MatchesSome : List Text → Text → Type 0
  MatchesSome [] name = ⊥
  MatchesSome (part ∷ parts) name = Accepts (map term_of part) name ⊎ MatchesSome parts name

  any-MatchesSome :
      (parts : List Text) (name : Text)
      → (any (λ terms. test terms name) (map (map term_of) parts) ≡ true) ↔ MatchesSome parts name
  unfolding any
  any-MatchesSome [] name = (λ h. cc, λ h. absurd h)
  any-MatchesSome (part ∷ parts) name =
      grind (arith, test_iff (map term_of part) name, any-MatchesSome parts name)

  -- The test by which entries are kept.
  pub keeps : Text → Bool → CommanderDirectoryEntry → Bool
  keeps mask empty_means_all e = elim (split_commander_mask_patterns mask) [
    | [] ↦ empty_means_all
    | part ∷ parts ↦ any (λ terms. test terms e.name) (map (map term_of) (part ∷ parts))
  ]

  filter_none : (xs : List CommanderDirectoryEntry) → filter (λ e. false) xs ≡ []
  unfolding filter
  filter_none [] = refl
  filter_none (x ∷ xs) = filter_none xs

  filter_flag :
      (flag : Bool) (entries : List CommanderDirectoryEntry)
      → (if flag then entries else []) ≡ filter (λ e. flag) entries
  filter_flag true entries = sym (filter_id (λ e. true) entries (λ e. refl))
  filter_flag false entries = sym (filter_none entries)

  pub get_commander_matched_entries-filter :
      (entries : List CommanderDirectoryEntry) (mask : Text) (flag : Bool)
      → get_commander_matched_entries entries mask flag ≡ filter (keeps mask flag) entries
  unfolding get_commander_matched_entries keeps
  get_commander_matched_entries-filter entries mask flag =
      rw (expressions-map mask, get_commander_matched_entries)
        (go (split_commander_mask_patterns mask))
    where
      go :
          (parts : List Text)
          → (elim (map (map term_of) parts) [
            | [] ↦ if flag then entries else []
            | e ∷ es ↦ filter (λ entry. any (λ terms. test terms entry.name) (e ∷ es)) entries
          ])
            ≡ filter
                (λ e. elim parts [
                  | [] ↦ flag
                  | part ∷ more ↦ any (λ terms. test terms e.name) (map (map term_of) (part ∷ more))
                ])
                entries
      go [] = filter_flag flag entries
      go (part ∷ parts) = refl

  -- An entry is kept exactly if the mask holds no pattern and the flag says to keep all, or one of
  -- the patterns stands for the entry's name.
  pub keeps_iff :
      (mask : Text) (flag : Bool) (e : CommanderDirectoryEntry)
      → (keeps mask flag e ≡ true) ↔ (
          ((split_commander_mask_patterns mask ≡ []) × (flag ≡ true))
          ⊎ MatchesSome (split_commander_mask_patterns mask) e.name)
  unfolding keeps
  keeps_iff mask flag e = go (split_commander_mask_patterns mask)
    where
      go :
          (parts : List Text)
          → ((elim parts [
            | [] ↦ flag
            | part ∷ more ↦ any (λ terms. test terms e.name) (map (map term_of) (part ∷ more))
          ])
              ≡ true)
            ↔ (((parts ≡ []) × (flag ≡ true)) ⊎ MatchesSome parts e.name)
      go [] = ground arith
      go (part ∷ parts) = ground (arith, any-MatchesSome (part ∷ parts) e.name)

  -- Of the entries that are passed in, a mask keeps in their order exactly those whose name one of the
  -- mask's patterns stands for, and all of them where the mask holds no pattern and the flag says so.
  pub get_commander_matched_entries_lem :
      (entries : List CommanderDirectoryEntry) (mask : Text) (flag : Bool)
      → (get_commander_matched_entries entries mask flag ≡ filter (keeps mask flag) entries)
        × ((e : CommanderDirectoryEntry)
            → (keeps mask flag e ≡ true) ↔ (
                ((split_commander_mask_patterns mask ≡ []) × (flag ≡ true))
                ⊎ MatchesSome (split_commander_mask_patterns mask) e.name))
  get_commander_matched_entries_lem entries mask flag =
      (get_commander_matched_entries-filter entries mask flag, keeps_iff mask flag)
