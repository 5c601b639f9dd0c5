-- ===== src/Tests/Storing.antt =====
-- The theorems on masks, filters, searches and stored widgets, at concrete inputs.
use rune_terminal.Base.{
  ◌+◌, ◌≡◌, refl, true, none, some, [], ◌∷◌, ◌++◌, if◌then◌else◌, leb, length, get_elem?, filter,
  any, find_idx?,
}
use rune_terminal.Text.{text, trim, trim_start, is_space, contains, starts_with, includes, text_eq}
use rune_terminal.Commander.Types.{
  CommanderMaskKind, CommanderMaskPendingOperation, CommanderSearchPendingOperation,
  CommanderWidgetRuntimeState, left, mask, search,
}
use rune_terminal.Commander.Navigation.{get_pane_state}
use rune_terminal.Commander.Mask.{split_commander_mask_patterns}
use rune_terminal.Commander.Mask.Tokens.{stretches, split_commander_mask_patterns-stretches}
use rune_terminal.Commander.Operations.{update_commander_pending_operation_input, with_operation}
use rune_terminal.Commander.Selection.{
  get_commander_search_matches, matches_of, get_commander_resolved_search_match_index,
}
use rune_terminal.Commander.Confirm.{
  confirm_commander_widget_pending_operation, step_search, next, previous,
}
use rune_terminal.Commander.Confirm.Stepping.{ids_of, step_search-opposite}
use rune_terminal.Commander.Confirm.Filtering.{confirm-update_commander_pending_operation_input}
use rune_terminal.Commander.StorePersistence.{
  PersistenceState, watch, timer, signals, serialize_widgets,
}
use rune_terminal.Commander.StorePersistence.Bursts.{watches, signals-burst}
use rune_terminal.Tests.Fixtures.{ascii, widget_w1}

split_commander_mask_patterns-stretches_example :
    split_commander_mask_patterns (text "*.ts, *.md;") ≡ stretches [] (text "*.ts, *.md;")
split_commander_mask_patterns-stretches_example =
    split_commander_mask_patterns-stretches (text "*.ts, *.md;")

abbrev filtering : CommanderMaskPendingOperation
filtering = record {
  base = record {
    source_pane_id = left;
    source_path = text "/home/u";
    entry_ids = [];
    entry_names = [];
  };
  kind = CommanderMaskKind.filter;
  input_value = [];
  match_count = 3;
  match_preview = [];
}

abbrev asking : CommanderWidgetRuntimeState
asking = record widget_w1 { pending_operation = some (mask filtering) }

confirm-update_commander_pending_operation_input_example :
    (edited : CommanderMaskPendingOperation) × (shown : CommanderWidgetRuntimeState)
    × (update_commander_pending_operation_input asking (text " n* ")
        ≡ some (with_operation asking (mask edited)))
    × (confirm_commander_widget_pending_operation (with_operation asking (mask edited))
        ≡ some shown)
    × (shown.pending_operation ≡ none)
    × (length (get_pane_state shown edited.source_pane_id).entries ≡ edited.match_count)
confirm-update_commander_pending_operation_input_example =
    confirm-update_commander_pending_operation_input asking filtering (text " n* ") refl refl

abbrev attached : PersistenceState
attached = record { has_initialized = true; timeout = none; subscribed = true; written = [] }

signals-burst_example :
    (signals
      (watches ((0, []) ∷ []) ++ watch 50 ((text "w1", widget_w1) ∷ []) ∷ timer 200 ∷ [])
      attached).written
    ≡ (if leb (50 + 120) 200 then serialize_widgets ((text "w1", widget_w1) ∷ []) ∷ [] else [])
signals-burst_example =
    signals-burst attached ((0, []) ∷ []) 50 ((text "w1", widget_w1) ∷ []) 200
      (record { initialized = refl; subscribed = refl })

abbrev searching : CommanderSearchPendingOperation
searching = record {
  base = record {
    source_pane_id = left;
    source_path = text "/home/u";
    entry_ids = [];
    entry_names = [];
  };
  input_value = text "o";
  match_count = 2;
  match_preview = text "notes" ∷ text "docs" ∷ [];
  match_index = some 0;
}

step_search-opposite_example :
    (there back : CommanderWidgetRuntimeState) × (op : CommanderSearchPendingOperation)
    × (step_search widget_w1 searching next ≡ some there)
    × (there.pending_operation ≡ some (search op))
    × (step_search there op previous ≡ some back)
    × ((get_pane_state back left).cursor_entry_id ≡ get_elem? (ids_of widget_w1 searching) 1)
unfolding get_pane_state get_commander_search_matches trim trim_start is_space matches_of filter
    contains starts_with includes any text_eq get_commander_resolved_search_match_index find_idx?
step_search-opposite_example =
    step_search-opposite widget_w1 searching next 1 (refl, (refl, tt)) (refl, (refl, tt)) refl
