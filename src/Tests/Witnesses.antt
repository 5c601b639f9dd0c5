-- ===== src/Tests/Witnesses.antt =====
-- The theorems at concrete inputs.
use rune_terminal.Base.{◌≡◌, ◌↔◌, ◌⊎◌, true, none, List, [], ◌∷◌, pos, filter}
use mathlib.Core.List.{Perm}
use rune_terminal.Text.{text}
use rune_terminal.Commander.Types.{CommanderDirectoryEntry, CommanderSortMode, left, desc}
use rune_terminal.Commander.Mask.{split_commander_mask_patterns, get_commander_matched_entries}
use rune_terminal.Commander.Mask.Entries.{keeps, MatchesSome, get_commander_matched_entries_lem}
use rune_terminal.Commander.Ordering.{sort_commander_entries}
use rune_terminal.Commander.Ordering.Placing.{IsPlaced, sort_commander_entries-IsPlaced}
use rune_terminal.Commander.Store.{Event, mount, to_widget, WidgetEvent, run}
use rune_terminal.Commander.Store.Runs.{AllSound, run-AllSound}
use rune_terminal.Tests.Fixtures.{ascii, compare_units-IsConsistent, listing}

abbrev script : List Event
script =
    mount (text "w1") none
    ∷ to_widget (text "w1") (
        WidgetEvent.hydrate (record {
          pane_id = left;
          directory_entries = listing;
          cursor_entry_id = none;
          filter_query = none;
          history_mode = none;
          path = text "/home/u";
          selected_ids = none;
          selection_anchor_entry_id = none;
        }))
    ∷ to_widget (text "w1") (WidgetEvent.move_cursor left (pos 1) true)
    ∷ to_widget (text "w1") WidgetEvent.invert_selection
    ∷ []

run-AllSound_example : AllSound (run script [])
run-AllSound_example = run-AllSound script

get_commander_matched_entries_lem_example :
    (get_commander_matched_entries listing (text "n*") true
      ≡ filter (keeps (text "n*") true) listing)
    × ((e : CommanderDirectoryEntry)
        → (keeps (text "n*") true e ≡ true) ↔ (
            ((split_commander_mask_patterns (text "n*") ≡ []) × (true ≡ true))
            ⊎ MatchesSome (split_commander_mask_patterns (text "n*")) e.name))
get_commander_matched_entries_lem_example =
    get_commander_matched_entries_lem listing (text "n*") true

sort_commander_entries-IsPlaced_example :
    Perm (sort_commander_entries listing CommanderSortMode.size desc true) listing
    × IsPlaced CommanderSortMode.size desc true
        (sort_commander_entries listing CommanderSortMode.size desc true)
sort_commander_entries-IsPlaced_example =
    sort_commander_entries-IsPlaced compare_units-IsConsistent listing CommanderSortMode.size desc
      true
