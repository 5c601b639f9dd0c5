-- ===== src/Commander/Store/Confirming.antt =====
-- Confirming a mask, a filter or a search keeps a widget sound:
-- `confirmCommanderWidgetPendingOperation` of
-- frontend/src/features/commander/model/store-operations.ts.
use mathlib.Core.Option
use rune_terminal.Base.{◌≡◌, refl, Option, none, some, get_elem?, ℕ}
use rune_terminal.Text.{Text, truthy, trim}
use rune_terminal.Locale.{Locale}
use rune_terminal.Commander.Types.{
  CommanderPaneRuntimeState, CommanderWidgetRuntimeState, CommanderMaskKind,
  CommanderMaskPendingOperation, CommanderSearchPendingOperation, CommanderPendingOperation,
  CommanderPaneId, mask, search, left, right,
}
use rune_terminal.Commander.Navigation.{get_pane_state, update_pane_state, rebuild_pane_state}
use rune_terminal.Commander.Selection.{
  SelectionMode, select, unselect, Matches, get_commander_search_matches,
  get_commander_resolved_search_match_index, apply_selection_mask_to_pane,
}
use rune_terminal.Commander.Selection.Shown.{Shown}
use rune_terminal.Commander.Selection.Marks.{
  apply_selection_mask_to_pane-KeepsRows, apply_selection_mask_to_pane-IsGrounded,
}
use rune_terminal.Commander.Confirm.{
  place_cursor, closed, confirm_mask, confirm_search, confirm_commander_widget_pending_operation,
}
use rune_terminal.Commander.Store.Updaters.{id-KeepsSound}
use rune_terminal.Commander.Store.Soundness.{
  WidgetIsSound, update-IsSound, update-IsSound_keeps, rebuild_pane_state-IsSound,
}
use rune_terminal.Commander.Store.Searching.{
  Holds, All-get_elem?, Holds-truthy, get_commander_search_matches-Shown, place_match-IsSound,
  closed-IsSound,
}

Holds-bind :
    (P : Text → Type 0) (o : Option ℕ) (f : ℕ → Option Text)
    → ((i : ℕ) → Holds P (f i))
    → Holds P (Option.bind o f)
unfolding Option.bind
Holds-bind P none f h = tt
Holds-bind P (some i) f h = h i

get_pane_state-closed :
    ⦃l : Locale⦄
    → (w : CommanderWidgetRuntimeState) (id : CommanderPaneId)
    → get_pane_state (closed w) id ≡ get_pane_state w id
unfolding get_pane_state
get_pane_state-closed w left = refl
get_pane_state-closed w right = refl

module _ ⦃l : Locale⦄ where
  select-IsSound :
      (w : CommanderWidgetRuntimeState) (op : CommanderMaskPendingOperation) (mode : SelectionMode)
      → WidgetIsSound w
      → WidgetIsSound (
          update_pane_state
            (closed w)
            op.source_pane_id
            (λ p. apply_selection_mask_to_pane p (trim op.input_value) mode))
  select-IsSound w op mode s =
      update-IsSound_keeps (closed w) op.source_pane_id _
        (λ p. (
          apply_selection_mask_to_pane-KeepsRows p (trim op.input_value) mode,
          apply_selection_mask_to_pane-IsGrounded p (trim op.input_value) mode,
        ))
        (closed-IsSound w s)

  confirm_mask-IsSound :
      (w : CommanderWidgetRuntimeState) (op : CommanderMaskPendingOperation)
      → WidgetIsSound w
      → WidgetIsSound (confirm_mask w op)
  unfolding confirm_mask
  confirm_mask-IsSound w op s = on_kind op.kind
    where
      on_kind :
          (kind : CommanderMaskKind) → WidgetIsSound (confirm_mask w (record op { kind = kind }))
      on_kind CommanderMaskKind.select = select-IsSound w op select s
      on_kind CommanderMaskKind.unselect = select-IsSound w op unselect s
      on_kind CommanderMaskKind.filter =
          update-IsSound (closed w) op.source_pane_id
            (λ p. rebuild_pane_state w (record p { filter_query = trim op.input_value }) p.path)
            (rebuild_pane_state-IsSound w _ _) (closed-IsSound w s)

  confirm_search-IsSound :
      (w : CommanderWidgetRuntimeState) (op : CommanderSearchPendingOperation)
      → WidgetIsSound w
      → WidgetIsSound (confirm_search w op)
  unfolding confirm_search
  confirm_search-IsSound w op s = on_match (truthy chosen) chosen-Shown
    where
      source : CommanderPaneRuntimeState
      source = get_pane_state w op.source_pane_id

      matches : Matches
      matches = get_commander_search_matches source op.input_value

      resolved : Option ℕ
      resolved =
          get_commander_resolved_search_match_index matches.entry_ids source.cursor_entry_id
            op.match_index

      chosen : Option Text
      chosen = Option.bind resolved (get_elem? matches.entry_ids)

      chosen-Shown : Holds (Shown source.entries) (truthy chosen)
      chosen-Shown = Holds-truthy (Shown source.entries) chosen (
          Holds-bind (Shown source.entries) resolved (get_elem? matches.entry_ids) (λ i.
            All-get_elem? (Shown source.entries) matches.entry_ids i
              (get_commander_search_matches-Shown source op.input_value)))

      on_match :
          (o : Option Text)
          → Holds (Shown source.entries) o
          → WidgetIsSound (
              update_pane_state
                (closed w)
                op.source_pane_id
                (λ p. elim o [ none ↦ p | some id ↦ place_cursor id p ]))
      on_match none _ =
          update-IsSound_keeps (closed w) op.source_pane_id _ id-KeepsSound (closed-IsSound w s)
      on_match (some id) shown =
          place_match-IsSound (closed w) op.source_pane_id id (rw get_pane_state-closed shown)
            (closed-IsSound w s)

  pub confirm_commander_widget_pending_operation-IsSound :
      (w : CommanderWidgetRuntimeState)
      → WidgetIsSound w
      → Holds WidgetIsSound (confirm_commander_widget_pending_operation w)
  unfolding confirm_commander_widget_pending_operation
  confirm_commander_widget_pending_operation-IsSound w s = on_operation w.pending_operation
    where
      on_operation :
          (o : Option CommanderPendingOperation)
          → Holds WidgetIsSound (elim o [
            | none ↦ none
            | some (mask op) ↦ some (confirm_mask w op)
            | some (search op) ↦ some (confirm_search w op)
            | some _ ↦ none
          ])
      on_operation none = tt
      on_operation (some (mask op)) = confirm_mask-IsSound w op s
      on_operation (some (search op)) = confirm_search-IsSound w op s
      on_operation (some _) = tt
