-- ===== src/Commander/Confirm.antt =====
-- The local flows of frontend/src/features/commander/model/store-operations.ts: stepping through the
-- matches of the quick search, and confirming a mask, a filter or a search.
pub mod Filtering
pub mod Stepping
pub mod Wrapping
use rune_terminal.Base.{ℕ, ◌+◌, ◌-◌, ◌%◌, Option, none, some, length, take, get_elem?}
use mathlib.Core.Option
use rune_terminal.Text.{Text, truthy, trim}
use rune_terminal.Locale.{Locale}
use rune_terminal.Commander.Types.{
  CommanderPaneRuntimeState, CommanderWidgetRuntimeState, CommanderMaskKind,
  CommanderMaskPendingOperation, CommanderSearchPendingOperation, mask, search,
}
use rune_terminal.Commander.Navigation.{get_pane_state, update_pane_state, rebuild_pane_state}
use rune_terminal.Commander.Selection.{
  select, unselect, get_commander_search_matches, get_commander_resolved_search_match_index,
  apply_selection_mask_to_pane,
}
use rune_terminal.Commander.Operations.{with_operation}

-- the argument `delta`, 1 or -1
pub data SearchDelta : Type 0 where
  next previous : SearchDelta

-- `(currentIndex + delta + n) % n` for an index below `n`
unfoldable pub wrapped_index : ℕ → SearchDelta → ℕ → ℕ
wrapped_index current next n = (current + 1 + n) % n
wrapped_index current previous n = (current + n - 1) % n

unfoldable pub place_cursor : Text → CommanderPaneRuntimeState → CommanderPaneRuntimeState
place_cursor id p = record p { cursor_entry_id = some id; selection_anchor_entry_id = some id }

module _ ⦃l : Locale⦄ where
  -- `stepCommanderWidgetPendingSearchMatch` for an operation of the kind 'search'
  unfoldable pub step_search :
      CommanderWidgetRuntimeState
      → CommanderSearchPendingOperation
      → SearchDelta
      → Option CommanderWidgetRuntimeState
  step_search w op delta =
      let source = get_pane_state w op.source_pane_id in
      let matches = get_commander_search_matches source op.input_value in
      elim (get_commander_resolved_search_match_index matches.entry_ids source.cursor_entry_id
        op.match_index) [
          | none ↦ none
          | some current ↦
              let index = wrapped_index current delta (length matches.entry_ids) in
              elim (truthy (get_elem? matches.entry_ids index)) [
                | none ↦ none
                | some id ↦ some (
                    with_operation (update_pane_state w op.source_pane_id (place_cursor id)) (
                      search (record op {
                        match_count = length matches.entry_ids;
                        match_preview = take 6 matches.entry_names;
                        match_index = some index;
                      })))
              ]
        ]

  unfoldable pub step_commander_widget_pending_search_match :
      CommanderWidgetRuntimeState → SearchDelta → Option CommanderWidgetRuntimeState
  step_commander_widget_pending_search_match w delta = elim w.pending_operation [
    | none ↦ none
    | some (search op) ↦ step_search w op delta
    | some _ ↦ none
  ]

  abbrev pub closed : CommanderWidgetRuntimeState → CommanderWidgetRuntimeState
  closed w = record w { pending_operation = none }

  -- confirming a mask: a selection, or the filter of the pane
  unfoldable pub confirm_mask :
      CommanderWidgetRuntimeState → CommanderMaskPendingOperation → CommanderWidgetRuntimeState
  confirm_mask w op = elim op.kind [
    | CommanderMaskKind.select ↦
        update_pane_state (closed w) op.source_pane_id
          (λ p. apply_selection_mask_to_pane p (trim op.input_value) select)
    | CommanderMaskKind.unselect ↦
        update_pane_state (closed w) op.source_pane_id
          (λ p. apply_selection_mask_to_pane p (trim op.input_value) unselect)
    | CommanderMaskKind.filter ↦
        update_pane_state (closed w) op.source_pane_id
          (λ p. rebuild_pane_state w (record p { filter_query = trim op.input_value }) p.path)
  ]

  -- confirming a search: the cursor goes to the match that the index resolves to
  unfoldable pub confirm_search :
      CommanderWidgetRuntimeState → CommanderSearchPendingOperation → CommanderWidgetRuntimeState
  confirm_search w op =
      let source = get_pane_state w op.source_pane_id in
      let matches = get_commander_search_matches source op.input_value in
      let resolved =
        get_commander_resolved_search_match_index matches.entry_ids source.cursor_entry_id
          op.match_index in
      update_pane_state (closed w) op.source_pane_id (λ p.
        elim (truthy (Option.bind resolved (get_elem? matches.entry_ids))) [
          | none ↦ p
          | some id ↦ place_cursor id p
        ])

  -- The kinds that change files are confirmed elsewhere, by requests to the backend.
  unfoldable pub confirm_commander_widget_pending_operation :
      CommanderWidgetRuntimeState → Option CommanderWidgetRuntimeState
  confirm_commander_widget_pending_operation w = elim w.pending_operation [
    | none ↦ none
    | some (mask op) ↦ some (confirm_mask w op)
    | some (search op) ↦ some (confirm_search w op)
    | some _ ↦ none
  ]
