-- ===== src/Commander/Store/Invariant.antt =====
-- The invariant of the store of frontend/src/features/commander/model/store.ts: every event keeps
-- every widget sound, and so does every sequence of events.
use mathlib.Core.Option
use rune_terminal.Base.{
  ◌≡◌, refl, Bool, true, false, Option, none, some, [], if◌then◌else◌, arith, pos,
}
use rune_terminal.Text.{Text, truthy}
use rune_terminal.Locale.{Locale}
use rune_terminal.Commander.Types.{
  CommanderPaneId, CommanderPaneRuntimeState, CommanderWidgetRuntimeState,
  CommanderPendingOperation, transfer, delete, mkdir, rename, mask, search, clone, pane,
}
use rune_terminal.Commander.Navigation.{get_pane_state, update_pane_state, rebuild_pane_state}
use rune_terminal.Commander.PaneState.Projection.{rebuild_commander_pane_state-IsSound}
use rune_terminal.Commander.Selection.{toggle_entry_selection, move_pane_cursor}
use rune_terminal.Commander.Selection.Marks.{
  invert_pane_selection-KeepsRows, invert_pane_selection-IsGrounded,
  toggle_entry_selection-KeepsRows, toggle_entry_selection-IsGrounded,
}
use rune_terminal.Commander.Selection.Grounded.{
  move_pane_cursor-KeepsRows, move_pane_cursor-IsGrounded,
}
use rune_terminal.Commander.Operations.{with_operation, update_commander_pending_operation_input}
use rune_terminal.Commander.Request.{
  create_pending_operation, request_commander_widget_pending_operation,
}
use rune_terminal.Commander.Handlers.{
  HydratePayload, set_pane_loading, set_pane_load_error, hydrate_pane_directory, rebuild_both,
  toggle_show_hidden, toggle_dirs_first, set_sort_mode, set_pane_cursor, move_pane_cursor_event,
  move_active_pane_cursor, toggle_pane_selection, toggle_active_pane_selection,
  set_pane_boundary_cursor,
}
use rune_terminal.Commander.Store
use rune_terminal.Commander.Store.{WidgetEvent, handle}
use rune_terminal.Commander.Store.Updaters.{
  KeepsSound, move_cursor-KeepsSound, boundary_updater-KeepsSound, pane_cursor_updater-KeepsSound,
}
use rune_terminal.Commander.Store.Soundness.{
  WidgetIsSound, update-IsSound, update-IsSound_keeps, activate-IsSound, same_panes-IsSound,
  rebuild_pane_state-IsSound,
}
use rune_terminal.Commander.Store.Searching.{
  Holds, with_operation-IsSound, step_commander_widget_pending_search_match-IsSound,
}
use rune_terminal.Commander.Store.Confirming.{confirm_commander_widget_pending_operation-IsSound}

module _ ⦃l : Locale⦄ where
  Holds-map :
      {A B : Type 0} (P : B → Type 0) (f : A → B) (o : Option A)
      → ((a : A) → P (f a))
      → Holds P (Option.map f o)
  Holds-map P f none h = tt
  Holds-map P f (some a) h = h a

  unless-IsSound :
      {w : CommanderWidgetRuntimeState} (b : Bool)
      → WidgetIsSound w
      → Holds WidgetIsSound (if b then none else some w)
  unless-IsSound true s = tt
  unless-IsSound false s = s

  rebuild_both-IsSound :
      (next w : CommanderWidgetRuntimeState) → WidgetIsSound (rebuild_both next w)
  unfolding rebuild_both
  rebuild_both-IsSound next w = record {
    left_sound = rebuild_pane_state-IsSound next w.left_pane _;
    right_sound = rebuild_pane_state-IsSound next w.right_pane _;
  }

  update_commander_pending_operation_input-IsSound :
      (w : CommanderWidgetRuntimeState) (input : Text)
      → WidgetIsSound w
      → Holds WidgetIsSound (update_commander_pending_operation_input w input)
  unfolding update_commander_pending_operation_input
  update_commander_pending_operation_input-IsSound w input s = go w.pending_operation refl
    where
      go :
          (o : Option CommanderPendingOperation)
          → w.pending_operation ≡ o
          → Holds WidgetIsSound (update_commander_pending_operation_input w input)
      go none e = rw (e, update_commander_pending_operation_input) tt
      go (some (transfer (pane op))) e = rw (e, update_commander_pending_operation_input) tt
      go (some (transfer (clone op))) e =
          rw (e, update_commander_pending_operation_input) (with_operation-IsSound w _ s)
      go (some (delete op)) e = rw (e, update_commander_pending_operation_input) tt
      go (some (mkdir op)) e =
          rw (e, update_commander_pending_operation_input) (with_operation-IsSound w _ s)
      go (some (mask op)) e =
          rw (e, update_commander_pending_operation_input) (with_operation-IsSound w _ s)
      go (some (search op)) e =
          rw (e, update_commander_pending_operation_input) (with_operation-IsSound w _ s)
      go (some (rename op)) e =
          rw (e, update_commander_pending_operation_input) (with_operation-IsSound w _ s)

  toggle-KeepsSound : (id : Text) → KeepsSound (λ p. toggle_entry_selection p id)
  toggle-KeepsSound id p =
      (toggle_entry_selection-KeepsRows p id, toggle_entry_selection-IsGrounded p id)

  advance-KeepsSound : KeepsSound (λ p. move_pane_cursor p (pos 1))
  advance-KeepsSound p =
      (move_pane_cursor-KeepsRows p (pos 1), move_pane_cursor-IsGrounded p (pos 1))

  toggle_active_pane_selection-IsSound :
      (advance : Bool) (w : CommanderWidgetRuntimeState)
      → WidgetIsSound w
      → Holds WidgetIsSound (toggle_active_pane_selection advance w)
  unfolding toggle_active_pane_selection
  toggle_active_pane_selection-IsSound advance w s =
      on_cursor advance (truthy (get_pane_state w w.active_pane).cursor_entry_id)
    where
      on_cursor :
          (further : Bool) (o : Option Text)
          → Holds WidgetIsSound (elim o [
            | none ↦ none
            | some id ↦
                let toggled =
                  update_pane_state w w.active_pane (λ p. toggle_entry_selection p id) in
                some (
                  if further
                  then update_pane_state toggled w.active_pane (λ p. move_pane_cursor p (pos 1))
                  else toggled)
          ])
      on_cursor further none = tt
      on_cursor false (some id) = update-IsSound_keeps w _ _ (toggle-KeepsSound id) s
      on_cursor true (some id) =
          update-IsSound_keeps _ _ _ advance-KeepsSound
            (update-IsSound_keeps w _ _ (toggle-KeepsSound id) s)

  set_pane_loading-IsSound :
      (id : CommanderPaneId) (w : CommanderWidgetRuntimeState)
      → WidgetIsSound w
      → WidgetIsSound (set_pane_loading id w)
  unfolding set_pane_loading
  set_pane_loading-IsSound id w = update-IsSound_keeps w id _ (λ p.
      (ground arith, λ g. record { cursor = g.cursor; anchor = g.anchor; selected = g.selected }))

  rebuilt-IsSound :
      (w : CommanderWidgetRuntimeState) (id : CommanderPaneId)
      (change : CommanderPaneRuntimeState → CommanderPaneRuntimeState)
      → WidgetIsSound w
      → WidgetIsSound (update_pane_state w id (λ p. rebuild_pane_state w (change p) p.path))
  rebuilt-IsSound w id change = update-IsSound w id _ (rebuild_pane_state-IsSound w _ _)

  set_pane_load_error-IsSound :
      (id : CommanderPaneId) (path message : Option Text) (w : CommanderWidgetRuntimeState)
      → WidgetIsSound w
      → WidgetIsSound (set_pane_load_error id path message w)
  unfolding set_pane_load_error
  set_pane_load_error-IsSound id path message w =
      update-IsSound w id _ (rebuild_commander_pane_state-IsSound w _)

  hydrate_pane_directory-IsSound :
      (payload : HydratePayload) (w : CommanderWidgetRuntimeState)
      → WidgetIsSound w
      → WidgetIsSound (hydrate_pane_directory payload w)
  unfolding hydrate_pane_directory
  hydrate_pane_directory-IsSound payload w s =
      update-IsSound (record w { active_pane = payload.pane_id }) payload.pane_id _
        (rebuild_commander_pane_state-IsSound (record w { active_pane = payload.pane_id }) _)
        (activate-IsSound payload.pane_id s)

  -- Whatever the event, the widget that the handler returns is sound.
  pub handle-IsSound :
      (event : WidgetEvent) (w : CommanderWidgetRuntimeState)
      → WidgetIsSound w
      → Holds WidgetIsSound (handle event w)
  unfolding handle toggle_show_hidden toggle_dirs_first set_sort_mode set_pane_cursor
      move_pane_cursor_event move_active_pane_cursor toggle_pane_selection set_pane_boundary_cursor
      request_commander_widget_pending_operation
  handle-IsSound (WidgetEvent.set_active_pane id) w s = activate-IsSound id s
  handle-IsSound (WidgetEvent.set_loading id) w s = set_pane_loading-IsSound id w s
  handle-IsSound (WidgetEvent.set_load_error id path message) w s =
      set_pane_load_error-IsSound id path message w s
  handle-IsSound (WidgetEvent.hydrate payload) w s = hydrate_pane_directory-IsSound payload w s
  handle-IsSound WidgetEvent.toggle_hidden w s = rebuild_both-IsSound _ w
  handle-IsSound WidgetEvent.toggle_dirs w s = rebuild_both-IsSound _ w
  handle-IsSound WidgetEvent.switch_active_pane w s = activate-IsSound _ s
  handle-IsSound (WidgetEvent.set_view_mode mode) w s =
      unless-IsSound (Store.same_view_mode w.view_mode mode) (same_panes-IsSound _ refl refl refl s)
  handle-IsSound (WidgetEvent.sort_by mode) w s = rebuild_both-IsSound _ w
  handle-IsSound (WidgetEvent.set_cursor id entry range) w s =
      update-IsSound_keeps _ id _ (pane_cursor_updater-KeepsSound entry range)
        (activate-IsSound id s)
  handle-IsSound (WidgetEvent.move_cursor id delta extend) w s =
      update-IsSound_keeps _ id _ (move_cursor-KeepsSound delta extend) (activate-IsSound id s)
  handle-IsSound (WidgetEvent.move_active_cursor delta extend) w s =
      update-IsSound_keeps w _ _ (move_cursor-KeepsSound delta extend) s
  handle-IsSound (WidgetEvent.toggle_selection id entry) w s =
      update-IsSound_keeps _ id _ (toggle-KeepsSound entry) (activate-IsSound id s)
  handle-IsSound (WidgetEvent.toggle_active_selection advance) w s =
      toggle_active_pane_selection-IsSound advance w s
  handle-IsSound (WidgetEvent.set_file_dialog dialog) w s = same_panes-IsSound _ refl refl refl s
  handle-IsSound (WidgetEvent.set_file_dialog_draft draft) w s =
      Holds-map WidgetIsSound _ w.file_dialog (λ _. same_panes-IsSound _ refl refl refl s)
  handle-IsSound WidgetEvent.close_file_dialog w s =
      Holds-map WidgetIsSound _ w.file_dialog (λ _. same_panes-IsSound _ refl refl refl s)
  handle-IsSound (WidgetEvent.set_boundary_cursor id boundary extend) w s =
      update-IsSound_keeps _ id _ (boundary_updater-KeepsSound boundary extend)
        (activate-IsSound id s)
  handle-IsSound (WidgetEvent.request_operation kind) w s =
      Holds-map WidgetIsSound (with_operation w) (create_pending_operation w kind)
        (λ op. with_operation-IsSound w op s)
  handle-IsSound (WidgetEvent.step_search_match delta) w s =
      step_commander_widget_pending_search_match-IsSound w delta s
  handle-IsSound WidgetEvent.clear_filter w s =
      rebuilt-IsSound w w.active_pane (λ p. record p { filter_query = [] }) s
  handle-IsSound WidgetEvent.invert_selection w s =
      update-IsSound_keeps w w.active_pane _
        (λ p. (invert_pane_selection-KeepsRows p, invert_pane_selection-IsGrounded p)) s
  handle-IsSound (WidgetEvent.set_filter_query id query) w s =
      rebuilt-IsSound w id (λ p. record p { filter_query = query }) s
  handle-IsSound (WidgetEvent.set_operation_input input) w s =
      update_commander_pending_operation_input-IsSound w input s
  handle-IsSound (WidgetEvent.set_operation op) w s = same_panes-IsSound _ refl refl refl s
  handle-IsSound WidgetEvent.confirm_operation w s =
      confirm_commander_widget_pending_operation-IsSound w s
  handle-IsSound WidgetEvent.cancel_operation w s =
      Holds-map WidgetIsSound _ w.pending_operation (λ _. same_panes-IsSound _ refl refl refl s)
