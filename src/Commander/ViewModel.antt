-- ===== src/Commander/ViewModel.antt =====
-- frontend/src/features/commander/model/view-model.ts: what a pane shows, and the display of a path by
-- frontend/src/shared/api/runtime.ts.
pub mod Marking
use rune_terminal.Base.{
  ℕ, ◌+◌, ◌*◌, ◌/◌, ◌%◌, Bool, true, false, not, ◌&&◌, ◌||◌, Option, none, some, List, [], ◌∷◌,
  ◌++◌, if◌then◌else◌, leb, ltb, ◌==◌, length, drop, map, filter, is_nil,
}
use rune_terminal.Text.{Text, text, text_eq, includes, is_empty, starts_with, decimal}
use rune_terminal.Commander.Types.{
  CommanderDirectoryEntry, CommanderFileRow, CommanderPaneId, CommanderPaneRuntimeState,
  CommanderWidgetRuntimeState, left, right,
}
use rune_terminal.Commander.ParentPath.{normalize_slashes, trim_slashes}

unfoldable pub is_ascii_letter : ℕ → Bool
is_ascii_letter c = (leb b'A' c && leb c b'Z') || (leb b'a' c && leb c b'z')

-- `/^[A-Za-z]:\/$/.test(path)`
unfoldable pub is_drive_root : Text → Bool
is_drive_root (c ∷ d ∷ s ∷ []) = is_ascii_letter c && d == b':' && s == b'/'
is_drive_root _ = false

unfoldable pub trim_trailing_separators : Text → Text
trim_trailing_separators path =
    let normalized = normalize_slashes path in
    if is_drive_root normalized || text_eq normalized (text "/")
    then normalized
    else trim_slashes normalized

-- The home directory is the field `homeDir` of the context.
unfoldable pub format_runtime_path_for_display : Text → (home_dir : Text) → Text
format_runtime_path_for_display path home_dir =
    let normalized = trim_trailing_separators path in
    let home = trim_trailing_separators home_dir in
    if is_empty normalized || is_empty home
    then normalized
    else if text_eq normalized home
    then text "~"
    else if starts_with normalized (home ++ text "/")
    then b'~' ∷ drop (length home) normalized
    else normalized

-- `(total / unit).toFixed(1)` for a unit that is a power of two, by which a double divides exactly
unfoldable pub to_fixed_1 : ℕ → (unit : ℕ) → Text
to_fixed_1 total unit =
    let tenths = (20 * total + unit) / (2 * unit) in
    decimal (tenths / 10) ++ text "." ++ decimal (tenths % 10)

unfoldable pub format_selected_size : ℕ → Text
format_selected_size total =
    if leb total 0
    then text "0 B"
    else if ltb total 1024
    then decimal total ++ text " B"
    else if ltb total (1024 * 1024)
    then to_fixed_1 total 1024 ++ text " KB"
    else to_fixed_1 total (1024 * 1024) ++ text " MB"

unfoldable pub total_bytes : List CommanderDirectoryEntry → ℕ
total_bytes [] = 0
total_bytes (e ∷ es) = elim e.size_bytes [ none ↦ 0 | some n ↦ n ] + total_bytes es

unfoldable pub get_commander_selected_size :
    List CommanderDirectoryEntry → (selected_ids : List Text) → Text
get_commander_selected_size entries selected_ids =
    format_selected_size (total_bytes (filter (λ e. includes selected_ids e.id) entries))

pub record CommanderPaneCounters : Type 0 where
  pub items : ℕ
  pub selected_items : ℕ
  pub selected_size : Text

pub record CommanderPaneViewState : Type 0 where
  pub id : CommanderPaneId
  pub path : Text
  pub display_path : Text
  pub filter_query : Text
  pub can_go_back : Bool
  pub can_go_forward : Bool
  pub is_loading : Bool
  pub error_message : Option Text
  pub counters : CommanderPaneCounters
  pub rows : List CommanderFileRow

unfoldable pub same_pane : CommanderPaneId → CommanderPaneId → Bool
same_pane left left = true
same_pane right right = true
same_pane _ _ = false

unfoldable pub is_at : Option Text → Text → Bool
is_at none id = false
is_at (some cursor) id = text_eq cursor id

unfoldable pub to_file_row :
    CommanderWidgetRuntimeState
    → CommanderPaneRuntimeState
    → CommanderDirectoryEntry
    → CommanderFileRow
to_file_row w pane entry = record {
  id = entry.id;
  name = entry.name;
  ext = entry.ext;
  kind = entry.kind;
  size = entry.size_label;
  modified = entry.modified;
  hidden = entry.hidden;
  selected = includes pane.selected_ids entry.id;
  focused = same_pane w.active_pane pane.id && is_at pane.cursor_entry_id entry.id;
  git_status = entry.git_status;
  executable = entry.executable;
  symlink_target = entry.symlink_target;
}

-- The runtime context counts by its home directory only.
unfoldable pub to_pane_view_state :
    CommanderWidgetRuntimeState
    → CommanderPaneRuntimeState
    → (home_dir : Option Text) → CommanderPaneViewState
to_pane_view_state w pane home_dir = record {
  id = pane.id;
  path = pane.path;
  display_path = elim home_dir [
    | none ↦ pane.path
    | some home ↦ format_runtime_path_for_display pane.path home
  ];
  filter_query = pane.filter_query;
  can_go_back = not (is_nil pane.history_back);
  can_go_forward = not (is_nil pane.history_forward);
  is_loading = pane.is_loading;
  error_message = pane.error_message;
  counters = record {
    items = length pane.entries;
    selected_items = length pane.selected_ids;
    selected_size = get_commander_selected_size pane.entries pane.selected_ids;
  };
  rows = map (to_file_row w pane) pane.entries;
}
