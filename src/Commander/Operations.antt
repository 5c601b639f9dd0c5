-- ===== src/Commander/Operations.antt =====
-- frontend/src/features/commander/model/store-operations.ts: the pending operation of a widget, how
-- it is opened, edited, stepped through and confirmed. `none` is the result `null`.
use rune_terminal.Base.{
  ℕ, zero, suc, Bool, true, not, ◌&&◌, Option, none, some, List, [], ◌∷◌, if◌then◌else◌, length,
  take, first?, filter, find_idx?,
}
use rune_terminal.Text.{Text, text_eq, truthy, is_empty, trim}
use rune_terminal.Locale.{Locale}
use rune_terminal.Commander.Types.{
  CommanderPaneId, CommanderPaneRuntimeState, CommanderWidgetRuntimeState,
  CommanderPendingOperation, CommanderPendingOperationBase, CommanderTransferPendingOperation,
  CommanderClonePendingOperation, CommanderMaskKind, transfer, delete, mkdir, rename, mask, search,
  clone, pane, single, batch,
}
use rune_terminal.Commander.Navigation.{get_pane_state}
use rune_terminal.Commander.Selection.{
  Matches, get_commander_mask_matches, get_commander_filter_matches, get_commander_search_matches,
  get_commander_resolved_search_match_index,
}
use rune_terminal.Commander.Preview.{
  get_commander_entry_name_conflict, preview_commander_clone_entries,
  preview_commander_rename_entries,
}

-- `pane` names a transfer between panes here, so a pane's state is called `p`.
unfoldable pub get_operation_entry_ids : CommanderPaneRuntimeState → List Text
get_operation_entry_ids p = elim p.selected_ids [
  | [] ↦ elim (truthy p.cursor_entry_id) [ none ↦ [] | some id ↦ id ∷ [] ]
  | id ∷ ids ↦ id ∷ ids
]

-- the fields that both transfers have
abbrev pub transfer_base : CommanderTransferPendingOperation → CommanderPendingOperationBase
transfer_base (clone op) = op.base
transfer_base (pane op) = op.base

abbrev pub transfer_conflicts : CommanderTransferPendingOperation → List Text
transfer_conflicts (clone op) = op.conflict_entry_names
transfer_conflicts (pane op) = op.conflict_entry_names

-- `{ ...pendingOperation, entryIds, entryNames, conflictEntryNames }`
abbrev pub with_transfer_entries :
    CommanderTransferPendingOperation
    → List Text
    → List Text
    → List Text
    → CommanderTransferPendingOperation
with_transfer_entries (clone op) ids names conflicts = clone (record op {
  base = record (op.base) { entry_ids = ids; entry_names = names };
  conflict_entry_names = conflicts;
})
with_transfer_entries (pane op) ids names conflicts = pane (record op {
  base = record (op.base) { entry_ids = ids; entry_names = names };
  conflict_entry_names = conflicts;
})

unfoldable pub get_current_pending_conflict_name : CommanderTransferPendingOperation → Option Text
get_current_pending_conflict_name op = first? (transfer_conflicts op)

-- `xs.filter((_x, index) => index !== i)`
unfoldable pub erase_idx {ℓ} : {A : Type ℓ} → ℕ → List A → List A
erase_idx i [] = []
erase_idx zero (x ∷ xs) = xs
erase_idx (suc i) (x ∷ xs) = x ∷ erase_idx i xs

unfoldable pub remove_pending_transfer_entry :
    CommanderTransferPendingOperation → Text → CommanderTransferPendingOperation
remove_pending_transfer_entry op entry_name =
    elim (find_idx? (λ name. text_eq name entry_name) (transfer_base op).entry_names) [
      | none ↦ op
      | some i ↦
          with_transfer_entries op (erase_idx i (transfer_base op).entry_ids)
            (erase_idx i (transfer_base op).entry_names)
            (filter (λ name. not (text_eq name entry_name)) (transfer_conflicts op))
    ]

abbrev pub with_operation :
    CommanderWidgetRuntimeState → CommanderPendingOperation → CommanderWidgetRuntimeState
with_operation w op = record w { pending_operation = some op }

-- `name !== pendingOperation.entryNames[0]`
abbrev pub differs_from_first : Text → List Text → Bool
differs_from_first name [] = true
differs_from_first name (first ∷ names) = not (text_eq name first)

module _ ⦃l : Locale⦄ where
  -- the case 'copy' of `updateCommanderPendingOperationInput`
  unfoldable pub update_clone_input :
      CommanderWidgetRuntimeState
      → CommanderClonePendingOperation
      → Text
      → CommanderClonePendingOperation
  update_clone_input w op input =
      let source = get_pane_state w op.source_pane_id in
      let preview = preview_commander_clone_entries source op.entry_ids input in
      let next_name = trim input in
      let has_conflict =
        not (is_empty next_name)
        && differs_from_first next_name op.entry_names
        && get_commander_entry_name_conflict source next_name (first? op.entry_ids) in
      elim op.clone_mode [
        | batch ↦ record op {
          input_value = input;
          conflict_entry_names = preview.conflict_entry_names;
          duplicate_target_names = preview.duplicate_target_names;
          rename_preview = preview.preview;
        }
        | single ↦ record op {
          input_value = input;
          conflict_entry_names = if has_conflict then next_name ∷ [] else [];
          duplicate_target_names = [];
          rename_preview = [];
        }
      ]

  -- the matches that the prompt of a mask shows
  unfoldable pub mask_matches :
      CommanderWidgetRuntimeState → CommanderMaskKind → CommanderPaneId → Text → Matches
  mask_matches w CommanderMaskKind.filter pane_id input =
      get_commander_filter_matches w pane_id input
  mask_matches w _ pane_id input = get_commander_mask_matches (get_pane_state w pane_id) input

  unfoldable pub update_commander_pending_operation_input :
      CommanderWidgetRuntimeState → Text → Option CommanderWidgetRuntimeState
  update_commander_pending_operation_input w input = elim w.pending_operation [
    | none ↦ none
    | some (transfer (pane op)) ↦ none
    | some (transfer (clone op)) ↦
        some (with_operation w (transfer (clone (update_clone_input w op input))))
    | some (delete op) ↦ none
    | some (mkdir op) ↦ some (with_operation w (mkdir (record op { input_value = input })))
    | some (mask op) ↦
        let matches = mask_matches w op.kind op.source_pane_id input in
        some (
          with_operation w (
            mask (record op {
              input_value = input;
              match_count = length matches.entry_ids;
              match_preview = take 6 matches.entry_names;
            })))
    | some (search op) ↦
        let source = get_pane_state w op.source_pane_id in
        let matches = get_commander_search_matches source input in
        some (
          with_operation w (
            search (record op {
              input_value = input;
              match_count = length matches.entry_ids;
              match_preview = take 6 matches.entry_names;
              match_index =
                  get_commander_resolved_search_match_index matches.entry_ids source.cursor_entry_id
                    (some 0);
            })))
    | some (rename op) ↦
        let result =
          preview_commander_rename_entries (get_pane_state w op.source_pane_id) op.entry_ids
            input in
        some (
          with_operation w (
            rename (record op {
              input_value = input;
              conflict_entry_names = result.conflict_entry_names;
              duplicate_target_names = result.duplicate_target_names;
              rename_preview = result.preview;
            })))
  ]
