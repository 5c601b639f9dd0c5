-- ===== src/Commander/Navigation/Panes.antt =====
-- Reading a pane that was updated: `getPaneState` and `updatePaneState` of frontend/src/features/
-- commander/model/store-navigation.ts.
use rune_terminal.Base.{◌≡◌, refl}
use rune_terminal.Commander.Types.{
  CommanderPaneId, CommanderPaneRuntimeState, CommanderWidgetRuntimeState, left, right,
}
use rune_terminal.Commander.Navigation.{get_pane_state, set_pane_state, update_pane_state}

pub get-update_pane_state :
    (w : CommanderWidgetRuntimeState) (id : CommanderPaneId)
    (f : CommanderPaneRuntimeState → CommanderPaneRuntimeState)
    → get_pane_state (update_pane_state w id f) id ≡ f (get_pane_state w id)
unfolding get_pane_state set_pane_state update_pane_state
get-update_pane_state w left f = refl
get-update_pane_state w right f = refl

pub pending-update_pane_state :
    (w : CommanderWidgetRuntimeState) (id : CommanderPaneId)
    (f : CommanderPaneRuntimeState → CommanderPaneRuntimeState)
    → (update_pane_state w id f).pending_operation ≡ w.pending_operation
unfolding get_pane_state set_pane_state update_pane_state
pending-update_pane_state w left f = refl
pending-update_pane_state w right f = refl
