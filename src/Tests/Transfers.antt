-- ===== src/Tests/Transfers.antt =====
-- The theorems on renaming, transferring and the store, at concrete inputs.
use rune_terminal.Base.{◌≡◌, refl, ◌≢◌, ◌↔◌, false, true, some, List, [], ◌∷◌, map, find?}
use rune_terminal.Text.{Text, text, text_eq, text_eq_iff}
use rune_terminal.Commander.Types.{
  CommanderDirectoryEntry, CommanderWidgetRuntimeState, CommanderPendingOperationKind,
  CommanderTransferPendingOperation, left, right, file, copy, transfer, pane,
}
use rune_terminal.Commander.PaneState.{
  entry_ids, create_commander_widget_runtime_state, create_empty_pane_state,
}
use rune_terminal.Commander.Navigation.{get_pane_state}
use rune_terminal.Commander.Preview.{
  find_entry, suggest_commander_clone_name, preview_commander_rename_entries,
  resolve_entries_in_order, normalize_entry_name,
}
use rune_terminal.Commander.Preview.Judging.{IsClear}
use rune_terminal.Commander.Preview.Safety.{IsSafe, preview_commander_rename_entries-IsSafe}
use rune_terminal.Commander.Preview.Cloning.{Suggested, suggest_commander_clone_name-Suggested}
use rune_terminal.Commander.Operations.{transfer_base, remove_pending_transfer_entry}
use rune_terminal.Commander.Request.{create_pending_operation}
use rune_terminal.Commander.Request.Pairing.{remove_pending_transfer_entry-swapped}
use rune_terminal.Tests.Fixtures.{ascii, entry, pane_of_u, widget_w1}

abbrev report : CommanderDirectoryEntry
report = record (entry (text "report.pdf") file) { ext = text "pdf" }

abbrev renamed : List Text
renamed = text "notes" ∷ text "README" ∷ []

preview_commander_rename_entries-IsSafe_example :
    IsClear (preview_commander_rename_entries pane_of_u renamed (text "d[C]"))
    ↔ IsSafe pane_of_u (entry_ids (resolve_entries_in_order pane_of_u renamed)) (
        map
          (λ item. normalize_entry_name item.next_name)
          (preview_commander_rename_entries pane_of_u renamed (text "d[C]")).preview)
preview_commander_rename_entries-IsSafe_example =
    preview_commander_rename_entries-IsSafe pane_of_u renamed (text "d[C]")

suggest_commander_clone_name-Suggested_example :
    (name : Text) × (suggest_commander_clone_name pane_of_u (text "notes") ≡ some name)
    × Suggested pane_of_u (entry (text "notes") file) 1 1000 name
unfolding find_entry find? text_eq
suggest_commander_clone_name-Suggested_example =
    suggest_commander_clone_name-Suggested pane_of_u (text "notes") (entry (text "notes") file) refl
      refl

-- A pane with two rows that were selected from the lower to the upper one.
abbrev two_rows : CommanderWidgetRuntimeState
two_rows = record widget_w1 {
  left_pane = record pane_of_u {
    entries = entry (text "a") file ∷ entry (text "b") file ∷ [];
    selected_ids = text "b" ∷ text "a" ∷ [];
  };
}

remove_pending_transfer_entry-swapped_example :
    (op : CommanderTransferPendingOperation) × (create_pending_operation two_rows
        CommanderPendingOperationKind.copy
      ≡ some (transfer op))
    × ((transfer_base (remove_pending_transfer_entry op (text "a"))).entry_ids ≡ text "a" ∷ [])
    × ((transfer_base (remove_pending_transfer_entry op (text "a"))).entry_names ≡ text "b" ∷ [])
unfolding get_pane_state text_eq create_commander_widget_runtime_state create_empty_pane_state
remove_pending_transfer_entry-swapped_example =
    remove_pending_transfer_entry-swapped two_rows (entry (text "a") file) (entry (text "b") file)
      refl refl refl

abbrev ordered : CommanderTransferPendingOperation
ordered = pane (record {
  base = record {
    source_pane_id = left;
    source_path = text "/home/u";
    entry_ids = text "notes" ∷ text "docs" ∷ text "README" ∷ [];
    entry_names = text "notes" ∷ text "docs" ∷ text "README" ∷ [];
  };
  kind = copy;
  target_pane_id = right;
  target_path = text "/tmp";
  conflict_entry_names = text "docs" ∷ [];
})

w1_ne_w2 : text "w1" ≢ text "w2"
unfolding text_eq
w1_ne_w2 e = let same : false ≡ true = (text_eq_iff (text "w1") (text "w2")).1 e in cc
