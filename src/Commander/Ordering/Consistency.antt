-- ===== src/Commander/Ordering/Consistency.antt =====
-- The comparison of `sortCommanderEntries`, frontend/src/features/commander/model/pane-state.ts, is
-- consistent over a consistent collation.
use Prim.Native.Nat.{Ordering, compare}
use rune_terminal.Base.{ℕ, ◌≡◌, refl, sym, ap, ◌∙◌, Bool, true, false, if◌then◌else◌, arith}
use rune_terminal.Locale.{Locale, locale_compare}
use rune_terminal.Sort.{Comparator, IsConsistent, swap, or_then}
use rune_terminal.Sort.Compare.{
  swap-IsConsistent, on-IsConsistent, flip-IsConsistent, or_then-IsConsistent, compare-IsConsistent,
}
use rune_terminal.Commander.Types.{
  CommanderDirectoryEntry, CommanderSortMode, CommanderSortDirection, asc, desc,
}
use rune_terminal.Commander.Ordering.{
  is_folder, ext_or_name, size_rank, compare_by_mode, directed, compare_commander_entries,
}

IsConsistent-eq :
    {A : Type 0} {c d : Comparator A}
    → ((x y : A) → c x y ≡ d x y)
    → IsConsistent d
    → IsConsistent c
IsConsistent-eq h ok = record {
  swaps = λ x y. h y x ∙ ok.swaps x y ∙ ap swap (sym (h x y));
  chains = λ x y z p q. rw (h x z) (ok.chains x y z (rw (h x y) at p) (rw (h y z) at q));
}

equal-IsConsistent : {A : Type 0} → IsConsistent (λ (x y : A). Ordering.eq)
equal-IsConsistent = record { swaps = λ x y. refl; chains = λ x y z h k. refl }

-- folders before the rest
abbrev folder_rank : CommanderDirectoryEntry → ℕ
folder_rank e = if is_folder e.kind then 0 else 1

module _ ⦃l : Locale⦄ where
  module _ (collates : IsConsistent locale_compare) where
    compare_by_mode-IsConsistent : (mode : CommanderSortMode) → IsConsistent (compare_by_mode mode)
    unfolding compare_by_mode
    compare_by_mode-IsConsistent CommanderSortMode.name = equal-IsConsistent
    compare_by_mode-IsConsistent CommanderSortMode.ext =
        on-IsConsistent locale_compare collates ext_or_name
    compare_by_mode-IsConsistent CommanderSortMode.size =
        flip-IsConsistent compare compare-IsConsistent size_rank
    compare_by_mode-IsConsistent CommanderSortMode.modified =
        flip-IsConsistent locale_compare collates (λ e. e.modified)

    by_mode_and_name : CommanderSortMode → Comparator CommanderDirectoryEntry
    by_mode_and_name mode a b = or_then (compare_by_mode mode a b) (locale_compare a.name b.name)

    by_mode_and_name-IsConsistent :
        (mode : CommanderSortMode) → IsConsistent (by_mode_and_name mode)
    unfolding by_mode_and_name
    by_mode_and_name-IsConsistent mode =
        or_then-IsConsistent (compare_by_mode mode) (compare_by_mode-IsConsistent mode)
          (λ a b. locale_compare a.name b.name)
          (on-IsConsistent locale_compare collates (λ (e : CommanderDirectoryEntry). e.name))

    directed-IsConsistent :
        (mode : CommanderSortMode) (direction : CommanderSortDirection)
        → IsConsistent (λ a b. directed direction (by_mode_and_name mode a b))
    directed-IsConsistent mode asc = by_mode_and_name-IsConsistent mode
    directed-IsConsistent mode desc =
        swap-IsConsistent (by_mode_and_name mode) (by_mode_and_name-IsConsistent mode)

    -- The folder tests of the comparison are a comparison of ranks.
    compare_commander_entries_ranked :
        (mode : CommanderSortMode) (direction : CommanderSortDirection)
        (a b : CommanderDirectoryEntry)
        → compare_commander_entries mode direction true a b
          ≡ or_then
              (compare (folder_rank a) (folder_rank b))
              (directed direction (by_mode_and_name mode a b))
    unfolding compare_commander_entries by_mode_and_name
    compare_commander_entries_ranked mode direction a b = ground arith

    compare_commander_entries_unranked :
        (mode : CommanderSortMode) (direction : CommanderSortDirection)
        (a b : CommanderDirectoryEntry)
        → compare_commander_entries mode direction false a b
          ≡ directed direction (by_mode_and_name mode a b)
    unfolding compare_commander_entries by_mode_and_name
    compare_commander_entries_unranked mode direction a b = refl

    pub compare_commander_entries-IsConsistent :
        (mode : CommanderSortMode) (direction : CommanderSortDirection) (dirs_first : Bool)
        → IsConsistent (compare_commander_entries mode direction dirs_first)
    compare_commander_entries-IsConsistent mode direction true =
        IsConsistent-eq (compare_commander_entries_ranked mode direction) (
          or_then-IsConsistent _ (on-IsConsistent compare compare-IsConsistent folder_rank) _
            (directed-IsConsistent mode direction))
    compare_commander_entries-IsConsistent mode direction false =
        IsConsistent-eq (compare_commander_entries_unranked mode direction)
          (directed-IsConsistent mode direction)
