-- ===== src/Commander/Ordering.antt =====
-- The order of directory entries: `sortCommanderEntries` of
-- frontend/src/features/commander/model/pane-state.ts.
pub mod Consistency
pub mod Placing
use Prim.Native.Nat.{Ordering, compare}
use rune_terminal.Base.{
  ℕ, suc, Bool, true, false, not, ◌&&◌, Option, none, some, List, [], ◌∷◌, if◌then◌else◌,
}
use rune_terminal.Text.{Text}
use rune_terminal.Locale.{Locale, locale_compare}
use rune_terminal.Sort.{Comparator, swap, or_then, sort}
use rune_terminal.Commander.Types.{
  CommanderDirectoryEntry, CommanderRowKind, CommanderSortMode, CommanderSortDirection,
}

abbrev pub is_folder : CommanderRowKind → Bool
is_folder CommanderRowKind.folder = true
is_folder _ = false

-- `entry.ext || entry.name`
unfoldable pub ext_or_name : CommanderDirectoryEntry → Text
ext_or_name e = elim e.ext [ [] ↦ e.name | c ∷ s ↦ c ∷ s ]

-- `entry.sizeBytes ?? -1`, one higher
unfoldable pub size_rank : CommanderDirectoryEntry → ℕ
size_rank e = elim e.size_bytes [ none ↦ 0 | some n ↦ suc n ]

module _ ⦃l : Locale⦄ where
  -- the comparison that the sort mode asks for, before the names are compared
  unfoldable pub compare_by_mode : CommanderSortMode → Comparator CommanderDirectoryEntry
  compare_by_mode CommanderSortMode.name a b = Ordering.eq
  compare_by_mode CommanderSortMode.ext a b = locale_compare (ext_or_name a) (ext_or_name b)
  compare_by_mode CommanderSortMode.size a b = compare (size_rank b) (size_rank a)
  compare_by_mode CommanderSortMode.modified a b = locale_compare b.modified a.modified

  abbrev pub directed : CommanderSortDirection → Ordering → Ordering
  directed CommanderSortDirection.asc o = o
  directed CommanderSortDirection.desc o = swap o

  -- the function that is passed to `sort`
  unfoldable pub compare_commander_entries :
      CommanderSortMode → CommanderSortDirection → Bool → Comparator CommanderDirectoryEntry
  compare_commander_entries mode direction dirs_first a b =
      if dirs_first && is_folder a.kind && not (is_folder b.kind)
      then Ordering.lt
      else if dirs_first && not (is_folder a.kind) && is_folder b.kind
      then Ordering.gt
      else directed direction (or_then (compare_by_mode mode a b) (locale_compare a.name b.name))

  unfoldable pub sort_commander_entries :
      List CommanderDirectoryEntry
      → CommanderSortMode
      → CommanderSortDirection
      → Bool
      → List CommanderDirectoryEntry
  sort_commander_entries entries mode direction dirs_first =
      sort (compare_commander_entries mode direction dirs_first) entries
