-- ===== src/Commander/Selection.antt =====
-- frontend/src/features/commander/model/store-selection.ts: the cursor, the range anchor and the
-- selected rows of a pane, and the matches of masks and of the quick search.
pub mod Grounded
pub mod Marks
pub mod Membership
pub mod Shown
use rune_terminal.Base.{
  ℕ, zero, suc, ◌+◌, ◌-◌, ◌≤◌, min, max, ℤ, max_zero_add, Bool, true, false, not, ◌||◌, Option,
  none, some, List, [], ◌∷◌, ◌++◌, map, if◌then◌else◌, leb, length, get_elem?, slice, last?, filter,
  any, find_idx?, first?, or_else, get_or, is_nil,
}
use mathlib.Core.Option
use rune_terminal.Text.{Text, text_eq, truthy, includes, is_empty, contains, trim}
use rune_terminal.Locale.{Locale, locale_lower_case}
use rune_terminal.Commander.Types.{
  CommanderDirectoryEntry, CommanderPaneId, CommanderPaneRuntimeState, CommanderWidgetRuntimeState,
}
use rune_terminal.Commander.Mask.{get_commander_matched_entries}
use rune_terminal.Commander.PaneState.{entry_ids, first_id, visible_entries}
use rune_terminal.Commander.Navigation.{get_pane_state}

pub data Boundary : Type 0 where
  start end : Boundary

pub data SelectionMode : Type 0 where
  select unselect : SelectionMode

-- `entries.findIndex((entry) => entry.id === id)`
unfoldable pub index_of_id : List CommanderDirectoryEntry → Text → Option ℕ
index_of_id entries id = find_idx? (λ entry. text_eq entry.id id) entries

-- `entries[i]?.id ?? null`
abbrev pub id_at : List CommanderDirectoryEntry → ℕ → Option Text
id_at entries i = Option.map (λ e. e.id) (get_elem? entries i)

-- the index of the cursor, and 0 where it is on no row
unfoldable pub cursor_start_index : CommanderPaneRuntimeState → ℕ
cursor_start_index pane = elim (truthy pane.cursor_entry_id) [
  | none ↦ 0
  | some id ↦ get_or (index_of_id pane.entries id) 0
]

-- `Math.min(entries.length - 1, Math.max(0, startIndex + delta))`
unfoldable pub next_cursor_index : CommanderPaneRuntimeState → ℤ → ℕ
next_cursor_index pane delta =
    min (length pane.entries - 1) (max_zero_add (cursor_start_index pane) delta)

unfoldable pub move_pane_cursor : CommanderPaneRuntimeState → ℤ → CommanderPaneRuntimeState
move_pane_cursor pane delta = if is_nil pane.entries then pane else record pane {
  cursor_entry_id = id_at pane.entries (next_cursor_index pane delta);
  selection_anchor_entry_id = id_at pane.entries (next_cursor_index pane delta);
}

unfoldable pub boundary_id : List CommanderDirectoryEntry → Boundary → Option Text
boundary_id entries start = first_id entries
boundary_id entries end = id_at entries (length entries - 1)

unfoldable pub set_cursor_to_boundary :
    CommanderPaneRuntimeState → Boundary → CommanderPaneRuntimeState
set_cursor_to_boundary pane boundary = if is_nil pane.entries then pane else record pane {
  cursor_entry_id = boundary_id pane.entries boundary;
  selection_anchor_entry_id = boundary_id pane.entries boundary;
}

-- `selectionAnchorEntryId ?? cursorEntryId ?? targetEntryId`
unfoldable pub range_anchor : CommanderPaneRuntimeState → Text → Text
range_anchor pane target =
    get_or (or_else pane.selection_anchor_entry_id pane.cursor_entry_id) target

-- The ids between two rows, in either order.
unfoldable pub range_ids : List CommanderDirectoryEntry → ℕ → ℕ → List Text
range_ids entries anchor target =
    if leb anchor target
    then entry_ids (slice entries anchor (target + 1))
    else entry_ids (slice entries target (anchor + 1))

unfoldable pub set_selection_range_at_cursor :
    CommanderPaneRuntimeState → Text → CommanderPaneRuntimeState
set_selection_range_at_cursor pane target = elim (index_of_id pane.entries target) [
  | none ↦ pane
  | some target_index ↦
      let anchor_index =
        get_or (index_of_id pane.entries (range_anchor pane target)) target_index in
      record pane {
        cursor_entry_id = some target;
        selection_anchor_entry_id = some (range_anchor pane target);
        selected_ids = range_ids pane.entries anchor_index target_index;
      }
]

-- `if (!id) { return paneState }` before the range is set
unfoldable pub extend_to : CommanderPaneRuntimeState → Option Text → CommanderPaneRuntimeState
extend_to pane id = elim (truthy id) [
  | none ↦ pane
  | some target ↦ set_selection_range_at_cursor pane target
]

unfoldable pub move_pane_cursor_with_selection :
    CommanderPaneRuntimeState → ℤ → CommanderPaneRuntimeState
move_pane_cursor_with_selection pane delta =
    if is_nil pane.entries
    then pane
    else extend_to pane (id_at pane.entries (next_cursor_index pane delta))

unfoldable pub set_cursor_to_boundary_with_selection :
    CommanderPaneRuntimeState → Boundary → CommanderPaneRuntimeState
set_cursor_to_boundary_with_selection pane boundary =
    if is_nil pane.entries then pane else extend_to pane (boundary_id pane.entries boundary)

unfoldable pub toggle_entry_selection : CommanderPaneRuntimeState → Text → CommanderPaneRuntimeState
toggle_entry_selection pane id =
    if any (λ entry. text_eq entry.id id) pane.entries
    then record pane {
      selected_ids =
          if includes pane.selected_ids id
          then filter (λ selected. not (text_eq selected id)) pane.selected_ids
          else pane.selected_ids ++ id ∷ [];
      selection_anchor_entry_id = some id;
    }
    else pane

-- `{ entryIds, entryNames }`
pub record Matches : Type 0 where
  pub entry_ids : List Text
  pub entry_names : List Text

unfoldable pub matches_of : List CommanderDirectoryEntry → Matches
matches_of entries = record {
  entry_ids = map (λ e. e.id) entries;
  entry_names = map (λ e. e.name) entries;
}

module _ ⦃l : Locale⦄ where
  unfoldable pub get_commander_mask_matches : CommanderPaneRuntimeState → Text → Matches
  get_commander_mask_matches pane mask =
      matches_of (get_commander_matched_entries pane.entries mask false)

  unfoldable pub get_commander_filter_matches :
      CommanderWidgetRuntimeState → CommanderPaneId → Text → Matches
  get_commander_filter_matches w pane_id mask = matches_of (
      get_commander_matched_entries
        (visible_entries w.show_hidden (get_pane_state w pane_id).directory_entries) mask true)

  unfoldable pub get_commander_search_matches : CommanderPaneRuntimeState → Text → Matches
  get_commander_search_matches pane query =
      let normalized = locale_lower_case (trim query) in
      if is_empty normalized
      then matches_of []
      else matches_of
          (filter (λ entry. contains (locale_lower_case entry.name) normalized) pane.entries)

  unfoldable pub apply_selection_mask_to_pane :
      CommanderPaneRuntimeState → Text → SelectionMode → CommanderPaneRuntimeState
  apply_selection_mask_to_pane pane mask mode =
      let matched = (get_commander_mask_matches pane mask).entry_ids in
      let next_selected : List Text = elim mode [
        | select ↦
            entry_ids
              (filter (λ e. includes pane.selected_ids e.id || includes matched e.id) pane.entries)
        | unselect ↦ filter (λ id. not (includes matched id)) pane.selected_ids
      ] in
      record pane {
        selected_ids = next_selected;
        selection_anchor_entry_id =
            or_else (or_else pane.selection_anchor_entry_id pane.cursor_entry_id)
              (first? next_selected);
      }

-- `none` is the index -1, as a result and as the fallback.
unfoldable pub get_commander_resolved_search_match_index :
    List Text → Option Text → Option ℕ → Option ℕ
get_commander_resolved_search_match_index [] cursor fallback = none
get_commander_resolved_search_match_index (first ∷ rest) cursor fallback =
    let clamped = some (min (get_or fallback 0) (length rest)) in
    elim (truthy cursor) [
      | none ↦ clamped
      | some id ↦ or_else (find_idx? (λ entry_id. text_eq entry_id id) (first ∷ rest)) clamped
    ]

unfoldable pub invert_pane_selection : CommanderPaneRuntimeState → CommanderPaneRuntimeState
invert_pane_selection pane =
    let next_selected =
      entry_ids (filter (λ e. not (includes pane.selected_ids e.id)) pane.entries) in
    record pane {
      selected_ids = next_selected;
      selection_anchor_entry_id = or_else pane.cursor_entry_id (first? next_selected);
    }
