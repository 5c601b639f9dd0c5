-- ===== src/Commander/Request.antt =====
-- Opening a pending operation: `createPendingOperation` and
-- `requestCommanderWidgetPendingOperation` of
-- frontend/src/features/commander/model/store-operations.ts.
pub mod Pairing
use rune_terminal.Base.{
  ℕ, Bool, true, false, Option, none, some, List, [], ◌∷◌, map, if◌then◌else◌, length, take, filter,
}
use mathlib.Core.Option
use rune_terminal.Text.{Text, text, text_eq, truthy, includes}
use rune_terminal.Locale.{Locale}
use rune_terminal.Commander.Types.{
  CommanderDirectoryEntry, CommanderPaneRuntimeState, CommanderWidgetRuntimeState,
  CommanderPendingOperation, CommanderPendingOperationKind, CommanderPendingOperationBase,
  CommanderTransferPendingOperation, CommanderPaneTransferKind, CommanderMaskKind, transfer, delete,
  mkdir, rename, mask, search, clone, pane, single, batch, ok,
}
use rune_terminal.Commander.PaneState.{entry_ids}
use rune_terminal.Commander.Navigation.{get_pane_state}
use rune_terminal.Commander.Selection.{
  get_commander_search_matches, get_commander_resolved_search_match_index,
}
use rune_terminal.Commander.Preview.{
  other_pane, get_commander_conflicting_entry_names, suggest_commander_clone_name,
  preview_commander_clone_entries, preview_commander_rename_entries,
}
use rune_terminal.Commander.Operations.{get_operation_entry_ids, mask_matches, with_operation}

-- the visible entries among the ids, in the order of the rows
unfoldable pub operation_entries :
    CommanderPaneRuntimeState → List Text → List CommanderDirectoryEntry
operation_entries p ids = filter (λ e. includes ids e.id) p.entries

abbrev pub names_of : List CommanderDirectoryEntry → List Text
names_of = map (λ e. e.name)

abbrev pub source_of : CommanderWidgetRuntimeState → CommanderPaneRuntimeState
source_of w = get_pane_state w w.active_pane

abbrev pub operation_base :
    CommanderWidgetRuntimeState → List Text → List Text → CommanderPendingOperationBase
operation_base w ids names = record {
  source_pane_id = w.active_pane;
  source_path = (source_of w).path;
  entry_ids = ids;
  entry_names = names;
}

module _ ⦃l : Locale⦄ where
  -- the kinds 'select', 'unselect' and 'filter', with the text that their prompt starts from
  unfoldable pub create_mask :
      CommanderWidgetRuntimeState → CommanderMaskKind → Text → CommanderPendingOperation
  create_mask w kind input =
      let matches = mask_matches w kind w.active_pane input in
      mask (record {
        base = operation_base w [] [];
        kind = kind;
        input_value = input;
        match_count = length matches.entry_ids;
        match_preview = take 6 matches.entry_names;
      })

  unfoldable pub create_search : CommanderWidgetRuntimeState → CommanderPendingOperation
  create_search w =
      let matches = get_commander_search_matches (source_of w) [] in
      search (record {
        base = operation_base w [] [];
        input_value = [];
        match_count = length matches.entry_ids;
        match_preview = take 6 matches.entry_names;
        match_index =
            get_commander_resolved_search_match_index matches.entry_ids
              (source_of w).cursor_entry_id (some 0);
      })

  unfoldable pub create_rename :
      CommanderWidgetRuntimeState → List CommanderDirectoryEntry → Option CommanderPendingOperation
  create_rename w [] = none
  create_rename w (e ∷ []) = some (
      rename (record {
        base = operation_base w (e.id ∷ []) (e.name ∷ []);
        input_value = e.name;
        conflict_entry_names = [];
        duplicate_target_names = [];
        rename_mode = single;
        rename_preview =
            record {
              entry_id = e.id;
              current_name = e.name;
              next_name = e.name;
              status = ok;
              conflict = false;
            }
            ∷ [];
      }))
  create_rename w (e ∷ e' ∷ es) =
      let entries = e ∷ e' ∷ es in
      let template = text "[N]-[C:2]" in
      let result = preview_commander_rename_entries (source_of w) (entry_ids entries) template in
      some (
        rename (record {
          base = operation_base w (entry_ids entries) (names_of entries);
          input_value = template;
          conflict_entry_names = result.conflict_entry_names;
          duplicate_target_names = result.duplicate_target_names;
          rename_mode = batch;
          rename_preview = result.preview;
        }))

  -- copying within one directory
  unfoldable pub create_clone :
      CommanderWidgetRuntimeState → List Text → List Text → Option CommanderPendingOperation
  create_clone w (id ∷ []) names = elim (truthy (suggest_commander_clone_name (source_of w) id)) [
    | none ↦ none
    | some clone_name ↦ some (
        transfer (
          clone (record {
            base = operation_base w (id ∷ []) names;
            input_value = clone_name;
            target_pane_id = w.active_pane;
            target_path = (source_of w).path;
            clone_mode = single;
            conflict_entry_names = [];
            duplicate_target_names = [];
            rename_preview = [];
          })))
  ]
  create_clone w ids names =
      let template = text "[N]-copy" in
      let result = preview_commander_clone_entries (source_of w) ids template in
      some (
        transfer (
          clone (record {
            base = operation_base w ids names;
            input_value = template;
            target_pane_id = w.active_pane;
            target_path = (source_of w).path;
            clone_mode = batch;
            conflict_entry_names = result.conflict_entry_names;
            duplicate_target_names = result.duplicate_target_names;
            rename_preview = result.preview;
          })))

  -- copying or moving to the other pane
  unfoldable pub create_pane_transfer :
      CommanderWidgetRuntimeState
      → CommanderPaneTransferKind
      → List Text
      → List Text
      → CommanderPendingOperation
  create_pane_transfer w kind ids names = transfer (
      pane (record {
        base = operation_base w ids names;
        kind = kind;
        target_pane_id = other_pane w.active_pane;
        target_path = (get_pane_state w (other_pane w.active_pane)).path;
        conflict_entry_names = get_commander_conflicting_entry_names w w.active_pane ids;
      }))

  -- the kinds 'copy' and 'move', by whether both panes show one directory
  unfoldable pub create_transfer :
      CommanderWidgetRuntimeState
      → CommanderPaneTransferKind
      → List Text
      → Option CommanderPendingOperation
  create_transfer w kind ids =
      let names = names_of (operation_entries (source_of w) ids) in
      if text_eq (source_of w).path (get_pane_state w (other_pane w.active_pane)).path
      then elim kind [
        | CommanderPaneTransferKind.copy ↦ create_clone w ids names
        | CommanderPaneTransferKind.move ↦ none
      ]
      else some (create_pane_transfer w kind ids names)

  -- the kinds that need an entry to work on
  unfoldable pub create_for_entries :
      CommanderWidgetRuntimeState
      → CommanderPendingOperationKind
      → List Text
      → Option CommanderPendingOperation
  create_for_entries w kind [] = none
  create_for_entries w CommanderPendingOperationKind.rename (id ∷ ids) =
      create_rename w (operation_entries (source_of w) (id ∷ ids))
  create_for_entries w CommanderPendingOperationKind.delete (id ∷ ids) =
      some (
        delete
          (operation_base w (id ∷ ids) (names_of (operation_entries (source_of w) (id ∷ ids)))))
  create_for_entries w CommanderPendingOperationKind.copy (id ∷ ids) =
      create_transfer w CommanderPaneTransferKind.copy (id ∷ ids)
  create_for_entries w _ (id ∷ ids) = create_transfer w CommanderPaneTransferKind.move (id ∷ ids)

  unfoldable pub create_pending_operation :
      CommanderWidgetRuntimeState → CommanderPendingOperationKind → Option CommanderPendingOperation
  create_pending_operation w CommanderPendingOperationKind.mkdir =
      some (mkdir (record { base = operation_base w [] []; input_value = text "New folder" }))
  create_pending_operation w CommanderPendingOperationKind.select =
      some (create_mask w CommanderMaskKind.select (text "*"))
  create_pending_operation w CommanderPendingOperationKind.unselect =
      some (create_mask w CommanderMaskKind.unselect (text "*"))
  create_pending_operation w CommanderPendingOperationKind.filter =
      some (create_mask w CommanderMaskKind.filter (source_of w).filter_query)
  create_pending_operation w CommanderPendingOperationKind.search = some (create_search w)
  create_pending_operation w kind =
      create_for_entries w kind (get_operation_entry_ids (source_of w))

  unfoldable pub request_commander_widget_pending_operation :
      CommanderWidgetRuntimeState
      → CommanderPendingOperationKind
      → Option CommanderWidgetRuntimeState
  request_commander_widget_pending_operation w kind =
      Option.map (with_operation w) (create_pending_operation w kind)
