-- ===== src/Commander/Ordering/Placing.antt =====
-- Where an entry stands in a sorted directory, read off the entries alone: `sortCommanderEntries` of
-- frontend/src/features/commander/model/pane-state.ts, over a consistent collation.
use Prim.Native.Nat.{Ordering}
use mathlib.Core.List.{Perm}
use rune_terminal.Base.{
  ℕ, suc, ◌<◌, ◌≡◌, ◌⊎◌, Bool, true, false, none, some, List, [], ◌∷◌, arith, All, All-imp,
}
use rune_terminal.Text.{Text}
use rune_terminal.Locale.{Locale, locale_compare}
use rune_terminal.Sort.{IsConsistent, is_gt}
use rune_terminal.Sort.Laws.{IsSorted, sort-perm, sort-IsSorted}
use rune_terminal.Commander.Types.{
  CommanderDirectoryEntry, CommanderSortMode, CommanderSortDirection, folder,
}
use rune_terminal.Commander.Ordering.{
  ext_or_name, size_rank, compare_by_mode, compare_commander_entries, sort_commander_entries,
}
use rune_terminal.Commander.Ordering.Consistency.{compare_commander_entries-IsConsistent}

abbrev pub is_directory : CommanderDirectoryEntry → Bool
is_directory e = elim e.kind [ folder ↦ true | _ ↦ false ]

-- the size in bytes, one higher, so that an unknown one is below all others
abbrev pub bytes : CommanderDirectoryEntry → ℕ
bytes e = elim e.size_bytes [ none ↦ 0 | some n ↦ suc n ]

-- the extension, or the name where there is none
abbrev pub extension : CommanderDirectoryEntry → Text
extension e = elim e.ext [ [] ↦ e.name | c ∷ s ↦ c ∷ s ]

module _ ⦃l : Locale⦄ where
  abbrev pub NotAfter : Text → Text → Type 0
  NotAfter a b = is_gt (locale_compare a b) ≡ false

  -- In ascending direction one entry may stand in front of another: by its name; by its extension, then
  -- its name; the larger one first, then by its name; the one that was modified later first, then by its
  -- name.
  abbrev pub Before : CommanderSortMode → CommanderDirectoryEntry → CommanderDirectoryEntry → Type 0
  Before CommanderSortMode.name x y = NotAfter x.name y.name
  Before CommanderSortMode.ext x y =
      (locale_compare (extension x) (extension y) ≡ Ordering.lt)
      ⊎ ((locale_compare (extension x) (extension y) ≡ Ordering.eq) × NotAfter x.name y.name)
  Before CommanderSortMode.size x y =
      (bytes y < bytes x) ⊎ ((bytes x ≡ bytes y) × NotAfter x.name y.name)
  Before CommanderSortMode.modified x y =
      (locale_compare x.modified y.modified ≡ Ordering.gt)
      ⊎ ((locale_compare x.modified y.modified ≡ Ordering.eq) × NotAfter x.name y.name)

  -- The descending direction is the ascending one turned round.
  abbrev pub Directed :
      CommanderSortMode
      → CommanderSortDirection
      → CommanderDirectoryEntry
      → CommanderDirectoryEntry
      → Type 0
  Directed mode CommanderSortDirection.asc x y = Before mode x y
  Directed mode CommanderSortDirection.desc x y = Before mode y x

  -- Where directories come first, one never stands behind an entry that is none, and the order counts
  -- among the directories and among the others.
  abbrev pub Placed :
      CommanderSortMode
      → CommanderSortDirection
      → Bool
      → CommanderDirectoryEntry
      → CommanderDirectoryEntry
      → Type 0
  Placed mode direction true x y =
      (is_directory y ≡ true → is_directory x ≡ true)
      × (is_directory x ≡ is_directory y → Directed mode direction x y)
  Placed mode direction false x y = Directed mode direction x y

  abbrev pub IsPlaced :
      CommanderSortMode → CommanderSortDirection → Bool → List CommanderDirectoryEntry → Type 0
  IsPlaced mode direction dirs_first [] = Unit
  IsPlaced mode direction dirs_first (x ∷ xs) =
      All (Placed mode direction dirs_first x) xs × IsPlaced mode direction dirs_first xs

  module _ (collates : IsConsistent locale_compare) where
    Directed-of_compare :
        (mode : CommanderSortMode) (direction : CommanderSortDirection)
        (x y : CommanderDirectoryEntry)
        → is_gt (compare_commander_entries mode direction false x y) ≡ false
        → Directed mode direction x y
    unfolding compare_commander_entries compare_by_mode ext_or_name size_rank
    Directed-of_compare CommanderSortMode.name CommanderSortDirection.asc x y h = ground (arith, h)
    Directed-of_compare CommanderSortMode.name CommanderSortDirection.desc x y h =
        ground (arith, h, collates.swaps x.name y.name)
    Directed-of_compare CommanderSortMode.ext CommanderSortDirection.asc x y h = ground (arith, h)
    Directed-of_compare CommanderSortMode.ext CommanderSortDirection.desc x y h =
        ground (arith, h, collates.swaps x.name y.name, collates.swaps (extension x) (extension y))
    Directed-of_compare CommanderSortMode.size CommanderSortDirection.asc x y h = ground (arith, h)
    Directed-of_compare CommanderSortMode.size CommanderSortDirection.desc x y h =
        ground (arith, h, collates.swaps x.name y.name)
    Directed-of_compare CommanderSortMode.modified CommanderSortDirection.asc x y h =
        ground (arith, h, collates.swaps x.modified y.modified)
    Directed-of_compare CommanderSortMode.modified CommanderSortDirection.desc x y h =
        ground (arith, h, collates.swaps x.name y.name, collates.swaps x.modified y.modified)

    Placed-of_compare :
        (mode : CommanderSortMode) (direction : CommanderSortDirection) (dirs_first : Bool)
        (x y : CommanderDirectoryEntry)
        → is_gt (compare_commander_entries mode direction dirs_first x y) ≡ false
        → Placed mode direction dirs_first x y
    Placed-of_compare mode direction false x y h = Directed-of_compare mode direction x y h
    Placed-of_compare mode direction true x y h = (
      unfold compare_commander_entries in ground (arith, h),
      λ same.
          Directed-of_compare mode direction x y
            (unfold compare_commander_entries in ground (arith, h, same)),
    )

    IsPlaced-of_IsSorted :
        (mode : CommanderSortMode) (direction : CommanderSortDirection) (dirs_first : Bool)
        (xs : List CommanderDirectoryEntry)
        → IsSorted (compare_commander_entries mode direction dirs_first) xs
        → IsPlaced mode direction dirs_first xs
    IsPlaced-of_IsSorted mode direction dirs_first [] s = tt
    IsPlaced-of_IsSorted mode direction dirs_first (x ∷ xs) (first, s) = (
      All-imp xs (λ y. Placed-of_compare mode direction dirs_first x y) first,
      IsPlaced-of_IsSorted mode direction dirs_first xs s,
    )

    -- If the host's string comparison is consistent, a sorted directory holds the same entries, and of
    -- any two the first may stand in front of the second: with the setting "directories first" no
    -- directory stands behind an entry that is none, and it is only within the two groups that the rest
    -- counts. In ascending direction they go by the name; by the extension, for which the name stands in,
    -- and then the name; from the largest size to the smallest, an unknown one being the smallest, and
    -- then by the name; or from the one modified last to the one modified first, and then by the name. In
    -- descending direction all of it is turned round, the names included.
    pub sort_commander_entries-IsPlaced :
        (entries : List CommanderDirectoryEntry) (mode : CommanderSortMode)
        (direction : CommanderSortDirection) (dirs_first : Bool)
        → Perm (sort_commander_entries entries mode direction dirs_first) entries
          × IsPlaced mode direction dirs_first
              (sort_commander_entries entries mode direction dirs_first)
    unfolding sort_commander_entries
    sort_commander_entries-IsPlaced entries mode direction dirs_first =
        let c = compare_commander_entries mode direction dirs_first in
        (
          sort-perm c entries,
          IsPlaced-of_IsSorted mode direction dirs_first _ (
              sort-IsSorted c
                (compare_commander_entries-IsConsistent collates mode direction dirs_first)
                entries),
        )
