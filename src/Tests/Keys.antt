-- ===== src/Tests/Keys.antt =====
-- The theorems on the keys at concrete inputs.
use rune_terminal.Base.{◌≡◌, refl, true, false, none, some, List, [], ◌∷◌, find?, find_idx?}
use rune_terminal.Text.{Text, text, starts_with}
use rune_terminal.Commander.Types.{CommanderFileRow, CommanderPendingOperation, search, file, left}
use rune_terminal.Commander.Keyboard.{
  KeyEvent, CommanderTypeaheadState, handle_key, find_next_typeahead_match,
}
use rune_terminal.Commander.Keyboard.Modes.{permits, is_for, handle_key-pending}
use rune_terminal.Tests.Fixtures.{ascii}

abbrev press : Text → KeyEvent
press key = record {
  alt_key = false;
  ctrl_key = false;
  meta_key = false;
  shift_key = false;
  key = key;
  code = key;
  in_text_target = false;
}

abbrev row : Text → CommanderFileRow
row name = record {
  id = name;
  name = name;
  ext = [];
  kind = file;
  size = [];
  modified = [];
  hidden = false;
  selected = false;
  focused = false;
  git_status = none;
  executable = none;
  symlink_target = none;
}

abbrev shown : List CommanderFileRow
shown =
    row (text "main.ts")
    ∷ record (row (text "Makefile")) { focused = true }
    ∷ row (text "notes")
    ∷ []

abbrev untyped : CommanderTypeaheadState
untyped = record { prefix = []; timestamp = 0 }

abbrev searching : CommanderPendingOperation
searching = search (record {
  base = record { source_pane_id = left; source_path = text "/"; entry_ids = []; entry_names = [] };
  input_value = text "m";
  match_count = 2;
  match_preview = [];
  match_index = some 0;
})

-- From the focused row on, the first match is the row at the top.
wraps : find_next_typeahead_match shown (text "MA") ≡ some (row (text "main.ts"))
unfolding find_next_typeahead_match find? find_idx? starts_with
wraps = refl

handle_key-pending_example :
    let result =
      handle_key (press (text "ArrowDown")) false (some searching) left shown untyped 5 in
    (permits (is_for searching) result.action ≡ true) × (result.typeahead_state ≡ untyped)
handle_key-pending_example =
    handle_key-pending (press (text "ArrowDown")) left shown untyped 5 searching (refl, refl, refl)
