-- ===== src/Commander/PaneState.antt =====
-- frontend/src/features/commander/model/pane-state.ts and commander-defaults.ts: how a pane's
-- visible rows are projected from its directory, and the state of a new widget.
pub mod Projection
use rune_terminal.Base.{
  Bool, true, false, not, ◌||◌, Option, none, some, List, [], ◌∷◌, map, if◌then◌else◌, filter,
  first?, or_else, get_or,
}
use mathlib.Core.Option
use rune_terminal.Text.{Text, text, truthy, includes}
use rune_terminal.Locale.{Locale}
use rune_terminal.Commander.Types.{
  CommanderDirectoryEntry, CommanderPaneId, CommanderSortMode, CommanderSortDirection,
  CommanderViewMode, CommanderFooterHint, CommanderPaneRuntimeState, CommanderPanePersistedState,
  CommanderWidgetRuntimeState, CommanderWidgetPersistedState, left, right, asc, commander,
}
use rune_terminal.Commander.Mask.{filter_entries_by_mask}
use rune_terminal.Commander.Ordering.{sort_commander_entries}

-- the argument `options`, and the fields of the widget that it is taken from
pub record ProjectionOptions : Type 0 where
  pub show_hidden : Bool
  pub sort_mode : CommanderSortMode
  pub sort_direction : CommanderSortDirection
  pub dirs_first : Bool

abbrev pub projection_options : CommanderWidgetRuntimeState → ProjectionOptions
projection_options w = record {
  show_hidden = w.show_hidden;
  sort_mode = w.sort_mode;
  sort_direction = w.sort_direction;
  dirs_first = w.dirs_first;
}

abbrev pub entry_ids : List CommanderDirectoryEntry → List Text
entry_ids = map (λ e. e.id)

abbrev pub first_id : List CommanderDirectoryEntry → Option Text
first_id entries = Option.map (λ e. e.id) (first? entries)

-- `id && visibleIds.has(id) ? id : fallback`
unfoldable pub keep_if_visible : List Text → Option Text → Option Text → Option Text
keep_if_visible visible id fallback = elim (truthy id) [
  | none ↦ fallback
  | some i ↦ if includes visible i then some i else fallback
]

-- `entries.filter((entry) => options.showHidden || !entry.hidden)`
unfoldable pub visible_entries : Bool → List CommanderDirectoryEntry → List CommanderDirectoryEntry
visible_entries show_hidden = filter (λ entry. show_hidden || not entry.hidden)

module _ ⦃l : Locale⦄ where
  unfoldable pub project_commander_entries :
      List CommanderDirectoryEntry → ProjectionOptions → Text → List CommanderDirectoryEntry
  project_commander_entries directory_entries options filter_query =
      let sorted =
        sort_commander_entries (visible_entries options.show_hidden directory_entries)
          options.sort_mode options.sort_direction options.dirs_first in
      filter_entries_by_mask sorted filter_query true

  unfoldable pub build_commander_pane_state :
      (pane_id : CommanderPaneId) (path : Text) (directory_entries : List CommanderDirectoryEntry)
      (filter_query : Text) (selected_ids : List Text) (cursor anchor : Option Text)
      (back forward : List Text) (options : ProjectionOptions)
      → CommanderPaneRuntimeState
  build_commander_pane_state pane_id path directory_entries filter_query selected_ids cursor anchor
        back forward options =
      let entries = project_commander_entries directory_entries options filter_query in
      let next_cursor = keep_if_visible (entry_ids entries) cursor (first_id entries) in
      record {
        id = pane_id;
        path = path;
        filter_query = filter_query;
        directory_entries = directory_entries;
        entries = entries;
        cursor_entry_id = next_cursor;
        selection_anchor_entry_id = keep_if_visible (entry_ids entries) anchor next_cursor;
        selected_ids = filter (includes (entry_ids entries)) selected_ids;
        history_back = back;
        history_forward = forward;
        is_loading = false;
        error_message = none;
      }

  -- `{ ...paneState, ...overrides }` is the second argument: the callers write the update.
  unfoldable pub rebuild_commander_pane_state :
      CommanderWidgetRuntimeState → CommanderPaneRuntimeState → CommanderPaneRuntimeState
  rebuild_commander_pane_state w next =
      build_commander_pane_state next.id next.path next.directory_entries next.filter_query
        next.selected_ids next.cursor_entry_id next.selection_anchor_entry_id next.history_back
        next.history_forward (projection_options w)

unfoldable pub create_pane_state_from_persisted :
    CommanderPaneId → CommanderPanePersistedState → CommanderPaneRuntimeState
create_pane_state_from_persisted pane_id p = record {
  id = pane_id;
  path = p.path;
  filter_query = p.filter_query;
  directory_entries = [];
  entries = [];
  cursor_entry_id = p.cursor_entry_id;
  selection_anchor_entry_id = p.selection_anchor_entry_id;
  selected_ids = p.selected_ids;
  history_back = p.history_back;
  history_forward = p.history_forward;
  is_loading = true;
  error_message = none;
}

unfoldable pub create_empty_pane_state : CommanderPaneId → CommanderPaneRuntimeState
create_empty_pane_state pane_id = record {
  id = pane_id;
  path = [];
  filter_query = [];
  directory_entries = [];
  entries = [];
  cursor_entry_id = none;
  selection_anchor_entry_id = none;
  selected_ids = [];
  history_back = [];
  history_forward = [];
  is_loading = true;
  error_message = none;
}

abbrev pub default_commander_footer_hints : List CommanderFooterHint
default_commander_footer_hints =
    record { key = text "F2"; label = text "Rename" }
    ∷ record { key = text "F3"; label = text "View" }
    ∷ record { key = text "F4"; label = text "Edit" }
    ∷ record { key = text "F5"; label = text "Copy" }
    ∷ record { key = text "F6"; label = text "Move" }
    ∷ record { key = text "F7"; label = text "Mkdir" }
    ∷ record { key = text "F8"; label = text "Delete" }
    ∷ record { key = text "CTRL+L"; label = text "Path" }
    ∷ record { key = text "CTRL+S"; label = text "Search" }
    ∷ record { key = text "CTRL+F"; label = text "Filter" }
    ∷ record { key = text "CTRL+BS"; label = text "Clear filter" }
    ∷ []

unfoldable pub create_commander_widget_runtime_state :
    Text → Option CommanderWidgetPersistedState → CommanderWidgetRuntimeState
create_commander_widget_runtime_state widget_id none = record {
  widget_id = widget_id;
  view_mode = commander;
  active_pane = left;
  show_hidden = true;
  sort_mode = CommanderSortMode.name;
  sort_direction = asc;
  dirs_first = true;
  footer_hints = default_commander_footer_hints;
  pending_operation = none;
  file_dialog = none;
  left_pane = create_empty_pane_state left;
  right_pane = create_empty_pane_state right;
}
create_commander_widget_runtime_state widget_id (some p) = record {
  widget_id = widget_id;
  view_mode = p.view_mode;
  active_pane = p.active_pane;
  show_hidden = p.show_hidden;
  sort_mode = p.sort_mode;
  sort_direction = p.sort_direction;
  dirs_first = p.dirs_first;
  footer_hints = default_commander_footer_hints;
  pending_operation = none;
  file_dialog = none;
  left_pane = create_pane_state_from_persisted left p.left_pane;
  right_pane = create_pane_state_from_persisted right p.right_pane;
}
