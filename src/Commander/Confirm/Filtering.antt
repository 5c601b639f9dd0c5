-- ===== src/Commander/Confirm/Filtering.antt =====
-- Filtering a pane: what the prompt of a filter announces, and what confirming it shows, frontend/src/
-- features/commander/model/store-operations.ts.
use rune_terminal.Base.{
  ◌≡◌, refl, sym, ap, ◌∙◌, Bool, true, none, some, List, length, length-map, take,
}
use rune_terminal.Text.{Text, text_eq_refl, trim}
use rune_terminal.Locale.{Locale}
use rune_terminal.Sort.Laws.{length-filter-sort}
use rune_terminal.Commander.Types.{
  CommanderDirectoryEntry, CommanderPaneId, CommanderPaneRuntimeState, CommanderWidgetRuntimeState,
  CommanderPendingOperation, CommanderMaskKind, CommanderMaskPendingOperation, mask, left, right,
}
use rune_terminal.Commander.Mask.{get_commander_matched_entries, filter_entries_by_mask}
use rune_terminal.Commander.Mask.Tokens.{split_commander_mask_patterns-trim}
use rune_terminal.Commander.Mask.Entries.{keeps, get_commander_matched_entries-filter}
use rune_terminal.Commander.Ordering.{sort_commander_entries}
use rune_terminal.Commander.PaneState.{
  visible_entries, project_commander_entries, build_commander_pane_state,
  rebuild_commander_pane_state, projection_options,
}
use rune_terminal.Commander.Navigation.{get_pane_state, update_pane_state, rebuild_pane_state}
use rune_terminal.Commander.Navigation.Panes.{get-update_pane_state, pending-update_pane_state}
use rune_terminal.Commander.Selection.{matches_of, get_commander_filter_matches}
use rune_terminal.Commander.Operations.{
  mask_matches, update_commander_pending_operation_input, with_operation,
}
use rune_terminal.Commander.Confirm.{
  closed, confirm_mask, confirm_commander_widget_pending_operation,
}

module _ ⦃l : Locale⦄ where
  matched-trim :
      (es : List CommanderDirectoryEntry) (input : Text) (flag : Bool)
      → get_commander_matched_entries es (trim input) flag
        ≡ get_commander_matched_entries es input flag
  unfolding get_commander_matched_entries
  matched-trim es input flag =
      rw (split_commander_mask_patterns-trim input, get_commander_matched_entries) refl

  -- As many rows are shown as entries of the directory match.
  length-project :
      (w : CommanderWidgetRuntimeState) (es : List CommanderDirectoryEntry) (input : Text)
      → length (project_commander_entries es (projection_options w) (trim input))
        ≡ length (get_commander_matched_entries (visible_entries w.show_hidden es) input true)
  unfolding project_commander_entries filter_entries_by_mask sort_commander_entries
  length-project w es input =
      let visible = visible_entries w.show_hidden es in
      let sorted = sort_commander_entries visible w.sort_mode w.sort_direction w.dirs_first in
      ap length (matched-trim sorted input true)
      ∙ ap length (get_commander_matched_entries-filter sorted input true)
      ∙ length-filter-sort _ (keeps input true) visible
      ∙ ap length (sym (get_commander_matched_entries-filter visible input true))

  -- a pane that is rebuilt where it is
  rebuilt-entries :
      (w : CommanderWidgetRuntimeState) (p : CommanderPaneRuntimeState)
      → (rebuild_pane_state w p p.path).entries
        ≡ project_commander_entries p.directory_entries (projection_options w) p.filter_query
  unfolding rebuild_pane_state rebuild_commander_pane_state build_commander_pane_state
  rebuilt-entries w p = rw (text_eq_refl p.path) refl

  -- the pane updater that confirming a filter applies
  abbrev filtered :
      CommanderWidgetRuntimeState → Text → CommanderPaneRuntimeState → CommanderPaneRuntimeState
  filtered w input p = rebuild_pane_state w (record p { filter_query = trim input }) p.path

  confirm_filter :
      (w : CommanderWidgetRuntimeState) (op : CommanderMaskPendingOperation)
      → op.kind ≡ CommanderMaskKind.filter
      → confirm_mask w op
        ≡ update_pane_state (closed w) op.source_pane_id (filtered w op.input_value)
  unfolding confirm_mask
  confirm_filter w op h = rw (h, confirm_mask) refl

  filtered-length :
      (w : CommanderWidgetRuntimeState) (id : CommanderPaneId) (input : Text)
      → length (filtered w input (get_pane_state w id)).entries
        ≡ length (get_commander_filter_matches w id input).entry_ids
  unfolding get_commander_filter_matches matches_of
  filtered-length w id input =
      let p = get_pane_state w id in
      ap length (rebuilt-entries w (record p { filter_query = trim input }))
      ∙ length-project w p.directory_entries input
      ∙ sym (
          length-map
            (get_commander_matched_entries (visible_entries w.show_hidden p.directory_entries) input
              true)
            (λ e. e.id))

  shown_length :
      (w : CommanderWidgetRuntimeState) (op : CommanderPendingOperation) (id : CommanderPaneId)
      (input : Text)
      → length
          (filtered
            (with_operation w op)
            input
            (get_pane_state (closed (with_operation w op)) id)).entries
        ≡ length (get_commander_filter_matches w id input).entry_ids
  unfolding get_pane_state get_commander_filter_matches
  shown_length w op left input = filtered-length (with_operation w op) left input
  shown_length w op right input = filtered-length (with_operation w op) right input

  -- Editing the pending filter of a widget and confirming it closes the operation and shows in the
  -- pane exactly as many rows as the edited operation announces.
  pub confirm-update_commander_pending_operation_input :
      (w : CommanderWidgetRuntimeState) (op : CommanderMaskPendingOperation) (input : Text)
      → w.pending_operation ≡ some (mask op)
      → op.kind ≡ CommanderMaskKind.filter
      → (edited : CommanderMaskPendingOperation) × (shown : CommanderWidgetRuntimeState)
        × (update_commander_pending_operation_input w input ≡ some (with_operation w (mask edited)))
        × (confirm_commander_widget_pending_operation (with_operation w (mask edited)) ≡ some shown)
        × (shown.pending_operation ≡ none)
        × (length (get_pane_state shown edited.source_pane_id).entries ≡ edited.match_count)
  unfolding update_commander_pending_operation_input confirm_commander_widget_pending_operation
      mask_matches
  confirm-update_commander_pending_operation_input w op input pending is_filter =
      let matches = mask_matches w op.kind op.source_pane_id input in
      let announced : length (get_commander_filter_matches w op.source_pane_id input).entry_ids
          ≡ length matches.entry_ids =
        rw is_filter refl in
      let edited = record op {
        input_value = input;
        match_count = length matches.entry_ids;
        match_preview = take 6 matches.entry_names;
      } in
      let shown_is = confirm_filter (with_operation w (mask edited)) edited is_filter in
      (
        edited,
        confirm_mask (with_operation w (mask edited)) edited,
        simp (pending, update_commander_pending_operation_input) refl,
        refl,
        rw (shown_is, pending-update_pane_state) refl,
        rw (shown_is, get-update_pane_state)
            (shown_length w (mask edited) op.source_pane_id input ∙ announced),
      )
