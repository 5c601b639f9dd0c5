-- ===== src/Commander/Store/Loading.antt =====
-- Loading a directory into a pane, and failing to: `setCommanderPaneLoadError` and
-- `hydrateCommanderPaneDirectory` of frontend/src/features/commander/model/store.ts.
use rune_terminal.Base.{◌≡◌, refl, false, Option, none}
use rune_terminal.Text.{Text}
use rune_terminal.Locale.{Locale}
use rune_terminal.Commander.Types.{CommanderPaneId, CommanderWidgetRuntimeState}
use rune_terminal.Commander.PaneState.{rebuild_commander_pane_state, build_commander_pane_state}
use rune_terminal.Commander.Navigation.{get_pane_state}
use rune_terminal.Commander.Navigation.Panes.{get-update_pane_state}
use rune_terminal.Commander.Handlers.{set_pane_load_error}

module _ ⦃l : Locale⦄ where
  -- Whatever message is given, a pane whose loading failed shows none: the pane that is built from
  -- the update has no error message, and does not load.
  pub set_pane_load_error-get_pane_state :
      (id : CommanderPaneId) (path message : Option Text) (w : CommanderWidgetRuntimeState)
      → ((get_pane_state (set_pane_load_error id path message w) id).error_message ≡ none)
        × ((get_pane_state (set_pane_load_error id path message w) id).is_loading ≡ false)
  unfolding set_pane_load_error rebuild_commander_pane_state build_commander_pane_state
  set_pane_load_error-get_pane_state id path message w = rw get-update_pane_state (refl, refl)
