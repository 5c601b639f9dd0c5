-- ===== src/Commander/Persistence.antt =====
-- frontend/src/features/commander/model/persistence.ts: what of a widget is stored, and how a stored
-- widget is completed when it is read.
pub mod Reload
use rune_terminal.Base.{Bool, Option, none, some, List, [], get_or, or_else}
use rune_terminal.Text.{Text}
use rune_terminal.Commander.Types.{
  CommanderDirectoryEntry, CommanderPaneId, CommanderViewMode, CommanderSortMode,
  CommanderSortDirection, CommanderPaneRuntimeState, CommanderPanePersistedState,
  CommanderWidgetRuntimeState, CommanderWidgetPersistedState, asc,
}
use rune_terminal.Commander.PaneState.{create_commander_widget_runtime_state}

-- The object that `commanderPanePersistedStateSchema` transforms. A field that is null and one that
-- is absent are both `none`.
pub record StoredPane : Type 0 where
  pub path : Text
  pub filter_query : Option Text
  pub directory_entries : Option (List CommanderDirectoryEntry)
  pub entries : Option (List CommanderDirectoryEntry)
  pub cursor_entry_id : Option Text
  pub selection_anchor_entry_id : Option Text
  pub selected_ids : List Text
  pub history_back : List Text
  pub history_forward : List Text

-- The object that `commanderWidgetPersistedRuntimeSchema` reads.
pub record StoredWidget : Type 0 where
  pub active_pane : CommanderPaneId
  pub view_mode : CommanderViewMode
  pub show_hidden : Bool
  pub sort_mode : CommanderSortMode
  pub sort_direction : Option CommanderSortDirection
  pub dirs_first : Option Bool
  pub left_pane : StoredPane
  pub right_pane : StoredPane

-- the `transform` of the pane schema, with the default of its filter
unfoldable pub complete_pane : StoredPane → CommanderPanePersistedState
complete_pane p = record {
  path = p.path;
  filter_query = get_or p.filter_query [];
  directory_entries = some (get_or (or_else p.directory_entries p.entries) []);
  entries = some (get_or (or_else p.entries p.directory_entries) []);
  cursor_entry_id = p.cursor_entry_id;
  selection_anchor_entry_id = or_else p.selection_anchor_entry_id p.cursor_entry_id;
  selected_ids = p.selected_ids;
  history_back = p.history_back;
  history_forward = p.history_forward;
}

-- the widget schema, with its defaults
unfoldable pub complete_widget : StoredWidget → CommanderWidgetPersistedState
complete_widget w = record {
  active_pane = w.active_pane;
  view_mode = w.view_mode;
  show_hidden = w.show_hidden;
  sort_mode = w.sort_mode;
  sort_direction = get_or w.sort_direction asc;
  dirs_first = get_or w.dirs_first Bool.true;
  left_pane = complete_pane w.left_pane;
  right_pane = complete_pane w.right_pane;
}

unfoldable pub serialize_pane_state : CommanderPaneRuntimeState → CommanderPanePersistedState
serialize_pane_state p = record {
  path = p.path;
  filter_query = p.filter_query;
  directory_entries = none;
  entries = none;
  cursor_entry_id = p.cursor_entry_id;
  selection_anchor_entry_id = p.selection_anchor_entry_id;
  selected_ids = p.selected_ids;
  history_back = p.history_back;
  history_forward = p.history_forward;
}

unfoldable pub serialize_commander_widget_runtime_state :
    CommanderWidgetRuntimeState → CommanderWidgetPersistedState
serialize_commander_widget_runtime_state w = record {
  active_pane = w.active_pane;
  view_mode = w.view_mode;
  show_hidden = w.show_hidden;
  sort_mode = w.sort_mode;
  sort_direction = w.sort_direction;
  dirs_first = w.dirs_first;
  left_pane = serialize_pane_state w.left_pane;
  right_pane = serialize_pane_state w.right_pane;
}
