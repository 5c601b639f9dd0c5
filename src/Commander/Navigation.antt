-- ===== src/Commander/Navigation.antt =====
-- frontend/src/features/commander/model/store-navigation.ts: one pane of a widget, its rebuilding
-- and its history.
pub mod History
pub mod Panes
use rune_terminal.Base.{
  Bool, true, false, Option, none, some, List, [], ◌∷◌, ◌++◌, if◌then◌else◌, drop_last, last?,
}
use rune_terminal.Text.{Text, text_eq, truthy}
use rune_terminal.Locale.{Locale}
use rune_terminal.Commander.Types.{
  CommanderPaneId, CommanderPaneRuntimeState, CommanderWidgetRuntimeState, left, right,
}
use rune_terminal.Commander.PaneState.{rebuild_commander_pane_state}

pub data HistoryDirection : Type 0 where
  back forward : HistoryDirection

unfoldable pub get_pane_state :
    CommanderWidgetRuntimeState → CommanderPaneId → CommanderPaneRuntimeState
get_pane_state w left = w.left_pane
get_pane_state w right = w.right_pane

unfoldable pub set_pane_state :
    CommanderWidgetRuntimeState
    → CommanderPaneId
    → CommanderPaneRuntimeState
    → CommanderWidgetRuntimeState
set_pane_state w left pane = record w { left_pane = pane }
set_pane_state w right pane = record w { right_pane = pane }

unfoldable pub update_pane_state :
    CommanderWidgetRuntimeState
    → CommanderPaneId
    → (CommanderPaneRuntimeState → CommanderPaneRuntimeState)
    → CommanderWidgetRuntimeState
update_pane_state w pane_id updater = set_pane_state w pane_id (updater (get_pane_state w pane_id))

module _ ⦃l : Locale⦄ where
  unfoldable pub rebuild_pane_state :
      CommanderWidgetRuntimeState → CommanderPaneRuntimeState → Text → CommanderPaneRuntimeState
  rebuild_pane_state w pane next_path =
      if text_eq next_path pane.path
      then rebuild_commander_pane_state w pane
      else rebuild_commander_pane_state w (record pane {
        path = next_path;
        directory_entries = [];
        selected_ids = [];
        cursor_entry_id = none;
        selection_anchor_entry_id = none;
        is_loading = true;
        error_message = none;
      })

  -- `navigatePaneState`, of one pane
  unfoldable pub navigate_pane :
      CommanderWidgetRuntimeState → Text → CommanderPaneRuntimeState → CommanderPaneRuntimeState
  navigate_pane w next_path pane =
      if text_eq pane.path next_path
      then rebuild_pane_state w pane pane.path
      else record (rebuild_pane_state w pane next_path) {
        history_back = pane.history_back ++ pane.path ∷ [];
        history_forward = [];
      }

  unfoldable pub navigate_pane_state :
      CommanderWidgetRuntimeState → CommanderPaneId → Text → CommanderWidgetRuntimeState
  navigate_pane_state w pane_id next_path = update_pane_state w pane_id (navigate_pane w next_path)

  -- `navigatePaneHistory`, of one pane
  unfoldable pub navigate_history :
      CommanderWidgetRuntimeState
      → HistoryDirection
      → CommanderPaneRuntimeState
      → CommanderPaneRuntimeState
  navigate_history w back pane = elim (truthy (last? pane.history_back)) [
    | none ↦ pane
    | some target ↦ record (rebuild_pane_state w pane target) {
      history_back = drop_last pane.history_back;
      history_forward = pane.history_forward ++ pane.path ∷ [];
    }
  ]
  navigate_history w forward pane = elim (truthy (last? pane.history_forward)) [
    | none ↦ pane
    | some target ↦ record (rebuild_pane_state w pane target) {
      history_back = pane.history_back ++ pane.path ∷ [];
      history_forward = drop_last pane.history_forward;
    }
  ]

  unfoldable pub navigate_pane_history :
      CommanderWidgetRuntimeState → CommanderPaneId → HistoryDirection → CommanderWidgetRuntimeState
  navigate_pane_history w pane_id direction =
      update_pane_state w pane_id (navigate_history w direction)
