-- ===== src/Commander/Handlers.antt =====
-- The handlers of frontend/src/features/commander/model/store.ts that load a directory, change the
-- projection, or move the cursor and the selection, each on the state of one widget.
use rune_terminal.Base.{
  ℤ, pos, Bool, true, false, not, Option, none, some, List, [], ◌∷◌, ◌++◌, if◌then◌else◌, any,
  drop_last, get_or,
}
use rune_terminal.Text.{Text, text, text_eq, truthy}
use rune_terminal.Locale.{Locale}
use rune_terminal.Commander.Types.{
  CommanderDirectoryEntry, CommanderPaneId, CommanderPaneRuntimeState, CommanderWidgetRuntimeState,
  CommanderSortMode, CommanderSortDirection, asc, desc,
}
use rune_terminal.Commander.PaneState.{rebuild_commander_pane_state}
use rune_terminal.Commander.Navigation.{get_pane_state, update_pane_state, rebuild_pane_state}
use rune_terminal.Commander.Selection.{
  Boundary, move_pane_cursor, move_pane_cursor_with_selection, set_cursor_to_boundary,
  set_cursor_to_boundary_with_selection, set_selection_range_at_cursor, toggle_entry_selection,
}
use rune_terminal.Commander.Confirm.{place_cursor}

pub data HistoryMode : Type 0 where
  back forward push replace : HistoryMode

-- `CommanderHydratePanePayload`. The outer option of a field is whether the payload has it; a cursor
-- or an anchor that is given may be null.
pub record HydratePayload : Type 0 where
  pub pane_id : CommanderPaneId
  pub directory_entries : List CommanderDirectoryEntry
  pub cursor_entry_id : Option (Option Text)
  pub filter_query : Option Text
  pub history_mode : Option HistoryMode
  pub path : Text
  pub selected_ids : Option (List Text)
  pub selection_anchor_entry_id : Option (Option Text)

-- `[...history, path]`, for a path that is not empty
unfoldable pub push_path : List Text → Text → List Text
push_path history [] = history
push_path history (c ∷ path) = history ++ (c ∷ path) ∷ []

unfoldable pub next_history_back : Option HistoryMode → CommanderPaneRuntimeState → List Text
next_history_back (some HistoryMode.push) p = push_path p.history_back p.path
next_history_back (some HistoryMode.forward) p = push_path p.history_back p.path
next_history_back (some HistoryMode.back) p = drop_last p.history_back
next_history_back _ p = p.history_back

unfoldable pub next_history_forward : Option HistoryMode → CommanderPaneRuntimeState → List Text
next_history_forward (some HistoryMode.push) p = []
next_history_forward (some HistoryMode.back) p = push_path p.history_forward p.path
next_history_forward (some HistoryMode.forward) p = drop_last p.history_forward
next_history_forward _ p = p.history_forward

module _ ⦃l : Locale⦄ where
  -- `setCommanderPaneLoading`
  unfoldable pub set_pane_loading :
      CommanderPaneId → CommanderWidgetRuntimeState → CommanderWidgetRuntimeState
  set_pane_loading pane_id w =
      update_pane_state w pane_id (λ p. record p { is_loading = true; error_message = none })

  -- `setCommanderPaneLoadError`
  unfoldable pub set_pane_load_error :
      CommanderPaneId
      → Option Text
      → Option Text
      → CommanderWidgetRuntimeState
      → CommanderWidgetRuntimeState
  set_pane_load_error pane_id path error_message w = update_pane_state w pane_id (λ p.
      let next_path = get_or path p.path in
      let path_changed = not (text_eq next_path p.path) in
      rebuild_commander_pane_state w (record p {
        path = next_path;
        directory_entries = if path_changed then [] else p.directory_entries;
        selected_ids = if path_changed then [] else p.selected_ids;
        cursor_entry_id = if path_changed then none else p.cursor_entry_id;
        selection_anchor_entry_id = if path_changed then none else p.selection_anchor_entry_id;
        is_loading = false;
        error_message = some (get_or error_message (text "Unable to load directory"));
      }))

  -- `hydrateCommanderPaneDirectory`
  unfoldable pub hydrate_pane_directory :
      HydratePayload → CommanderWidgetRuntimeState → CommanderWidgetRuntimeState
  hydrate_pane_directory payload w =
      let current = get_pane_state w payload.pane_id in
      let path_changed = not (text_eq current.path payload.path) in
      let next_w = record w { active_pane = payload.pane_id } in
      update_pane_state next_w payload.pane_id (λ p. rebuild_commander_pane_state next_w (record p {
        path = payload.path;
        filter_query = get_or payload.filter_query (if path_changed then [] else p.filter_query);
        directory_entries = payload.directory_entries;
        selected_ids = get_or payload.selected_ids (if path_changed then [] else p.selected_ids);
        cursor_entry_id =
            get_or payload.cursor_entry_id (if path_changed then none else p.cursor_entry_id);
        selection_anchor_entry_id =
            get_or payload.selection_anchor_entry_id
              (if path_changed then none else p.selection_anchor_entry_id);
        history_back = next_history_back payload.history_mode current;
        history_forward = next_history_forward payload.history_mode current;
        is_loading = false;
        error_message = none;
      }))

  -- both panes, rebuilt under the settings of a widget
  unfoldable pub rebuild_both :
      CommanderWidgetRuntimeState → CommanderWidgetRuntimeState → CommanderWidgetRuntimeState
  rebuild_both next_w w = record next_w {
    left_pane = rebuild_pane_state next_w w.left_pane (w.left_pane).path;
    right_pane = rebuild_pane_state next_w w.right_pane (w.right_pane).path;
  }

  -- `toggleCommanderShowHidden`
  unfoldable pub toggle_show_hidden : CommanderWidgetRuntimeState → CommanderWidgetRuntimeState
  toggle_show_hidden w = rebuild_both (record w { show_hidden = not w.show_hidden }) w

  -- `toggleCommanderDirsFirst`
  unfoldable pub toggle_dirs_first : CommanderWidgetRuntimeState → CommanderWidgetRuntimeState
  toggle_dirs_first w = rebuild_both (record w { dirs_first = not w.dirs_first }) w

  abbrev pub same_sort_mode : CommanderSortMode → CommanderSortMode → Bool
  same_sort_mode CommanderSortMode.name CommanderSortMode.name = true
  same_sort_mode CommanderSortMode.ext CommanderSortMode.ext = true
  same_sort_mode CommanderSortMode.size CommanderSortMode.size = true
  same_sort_mode CommanderSortMode.modified CommanderSortMode.modified = true
  same_sort_mode _ _ = false

  abbrev pub flip_direction : CommanderSortDirection → CommanderSortDirection
  flip_direction asc = desc
  flip_direction desc = asc

  -- `setCommanderSortMode`
  unfoldable pub set_sort_mode :
      CommanderSortMode → CommanderWidgetRuntimeState → CommanderWidgetRuntimeState
  set_sort_mode mode w =
      let direction =
        if same_sort_mode w.sort_mode mode then flip_direction w.sort_direction else asc in
      rebuild_both (record w { sort_mode = mode; sort_direction = direction }) w

-- the pane updater of `setCommanderPaneCursor`
unfoldable pub pane_cursor_updater :
    Text → Bool → CommanderPaneRuntimeState → CommanderPaneRuntimeState
pane_cursor_updater entry_id range_select p =
    if any (λ entry. text_eq entry.id entry_id) p.entries
    then (if range_select
        then set_selection_range_at_cursor p entry_id
        else place_cursor entry_id p)
    else p

-- `setCommanderPaneCursor`
unfoldable pub set_pane_cursor :
    CommanderPaneId → Text → Bool → CommanderWidgetRuntimeState → CommanderWidgetRuntimeState
set_pane_cursor pane_id entry_id range_select w =
    update_pane_state (record w { active_pane = pane_id }) pane_id
      (pane_cursor_updater entry_id range_select)

-- `payload.extendSelection ? movePaneCursorWithSelection(…) : movePaneCursor(…)`
unfoldable pub move_cursor : ℤ → Bool → CommanderPaneRuntimeState → CommanderPaneRuntimeState
move_cursor delta extend p =
    if extend then move_pane_cursor_with_selection p delta else move_pane_cursor p delta

-- `moveCommanderPaneCursor`
unfoldable pub move_pane_cursor_event :
    CommanderPaneId → ℤ → Bool → CommanderWidgetRuntimeState → CommanderWidgetRuntimeState
move_pane_cursor_event pane_id delta extend w =
    update_pane_state (record w { active_pane = pane_id }) pane_id (move_cursor delta extend)

-- `moveCommanderActivePaneCursor`
unfoldable pub move_active_pane_cursor :
    ℤ → Bool → CommanderWidgetRuntimeState → CommanderWidgetRuntimeState
move_active_pane_cursor delta extend w =
    update_pane_state w w.active_pane (move_cursor delta extend)

-- `toggleCommanderPaneSelection`
unfoldable pub toggle_pane_selection :
    CommanderPaneId → Text → CommanderWidgetRuntimeState → CommanderWidgetRuntimeState
toggle_pane_selection pane_id entry_id w =
    update_pane_state (record w { active_pane = pane_id }) pane_id
      (λ p. toggle_entry_selection p entry_id)

-- `toggleCommanderActivePaneSelection`
unfoldable pub toggle_active_pane_selection :
    Bool → CommanderWidgetRuntimeState → Option CommanderWidgetRuntimeState
toggle_active_pane_selection advance w =
    elim (truthy (get_pane_state w w.active_pane).cursor_entry_id) [
      | none ↦ none
      | some id ↦
          let toggled = update_pane_state w w.active_pane (λ p. toggle_entry_selection p id) in
          some (
            if advance
            then update_pane_state toggled w.active_pane (λ p. move_pane_cursor p (pos 1))
            else toggled)
    ]

-- the pane updater of `setCommanderPaneBoundaryCursor`
unfoldable pub boundary_updater :
    Boundary → Bool → CommanderPaneRuntimeState → CommanderPaneRuntimeState
boundary_updater boundary extend p =
    if extend
    then set_cursor_to_boundary_with_selection p boundary
    else set_cursor_to_boundary p boundary

-- `setCommanderPaneBoundaryCursor`
unfoldable pub set_pane_boundary_cursor :
    CommanderPaneId → Boundary → Bool → CommanderWidgetRuntimeState → CommanderWidgetRuntimeState
set_pane_boundary_cursor pane_id boundary extend w =
    update_pane_state (record w { active_pane = pane_id }) pane_id
      (boundary_updater boundary extend)
