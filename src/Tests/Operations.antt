-- ===== src/Tests/Operations.antt =====
-- The theorems on climbing, navigating and storing at concrete inputs.
use rune_terminal.Base.{◌≡◌, refl, true, none, some, [], ◌∷◌, last?}
use rune_terminal.Text.{text}
use rune_terminal.Commander.Types.{CommanderWidgetRuntimeState}
use rune_terminal.Commander.PaneState.{
  create_empty_pane_state, create_commander_widget_runtime_state,
}
use rune_terminal.Commander.ParentPath.Climbing.{climb, climb-length}
use rune_terminal.Commander.Navigation.{back, forward, navigate_history}
use rune_terminal.Commander.Navigation.History.{position, navigate_history-back_forward}
use rune_terminal.Commander.Persistence.{serialize_commander_widget_runtime_state}
use rune_terminal.Commander.Persistence.Reload.{reload, reload-KeepsAll, KeepsAll}
use rune_terminal.Tests.Fixtures.{ascii, pane_of_u, widget_w1}

climb-length_example : climb 8 (text "/home/u") ≡ none
climb-length_example = climb-length (text "/home/u")

navigate_history-back_forward_example :
    position (navigate_history widget_w1 forward (navigate_history widget_w1 back pane_of_u))
    ≡ position pane_of_u
unfolding last?
navigate_history-back_forward_example =
    navigate_history-back_forward widget_w1 pane_of_u (text "/home") refl refl

-- A widget that is still without rows, and without a cursor.
abbrev fresh : CommanderWidgetRuntimeState
fresh = create_commander_widget_runtime_state (text "w2") none

-- a widget of which the left pane was used
abbrev used : CommanderWidgetRuntimeState
used = record fresh {
  show_hidden = true;
  left_pane = record (fresh.left_pane) {
    path = text "/home/u";
    cursor_entry_id = some (text "b");
    selection_anchor_entry_id = some (text "a");
    selected_ids = text "a" ∷ text "b" ∷ [];
    history_back = text "/home" ∷ [];
  };
}

reload-KeepsAll_example :
    KeepsAll used (reload used)
    × (serialize_commander_widget_runtime_state (reload used)
        ≡ serialize_commander_widget_runtime_state used)
unfolding create_commander_widget_runtime_state create_empty_pane_state
reload-KeepsAll_example = reload-KeepsAll used refl refl
