-- ===== src/Commander/Keyboard.antt =====
-- frontend/src/features/commander/model/keyboard-handlers.ts and keyboard.ts: from a key to the action
-- it triggers. A handler's result is `none` where it declines the key, and else the action that it
-- triggers, if any. `preventDefault` is called exactly where an action is triggered.
pub mod Modes
pub mod Typeahead
use rune_terminal.Base.{
  ℕ, ◌+◌, ◌<◌, ℤ, pos, negsuc, Bool, true, false, not, ◌&&◌, ◌||◌, Option, none, some, List, [],
  ◌∷◌, ◌++◌, if◌then◌else◌, leb, ltb, ◌==◌, length, take, drop, find?, find_idx?, is_nil, or_else,
}
use mathlib.Core.Option
use rune_terminal.Text.{Text, text, text_eq, is_empty, starts_with, trim}
use rune_terminal.Locale.{Locale, locale_lower_case}
use rune_terminal.Commander.Types.{
  CommanderFileRow, CommanderPaneId, CommanderPendingOperation, transfer, search,
}
use rune_terminal.Commander.Operations.{transfer_conflicts}
use rune_terminal.Commander.Selection.{Boundary, start, end}
use rune_terminal.Commander.Confirm.{SearchDelta, next, previous}

abbrev pub commander_typeahead_reset_ms : ℕ
commander_typeahead_reset_ms = 700

-- `CommanderKeyboardEvent`, its code, and whether its target is an interactive text field
pub record KeyEvent : Type 0 where
  pub alt_key : Bool
  pub ctrl_key : Bool
  pub meta_key : Bool
  pub shift_key : Bool
  pub key : Text
  pub code : Text
  pub in_text_target : Bool

-- the argument `commanderActions`, and the option `onRequestPathEdit`
pub data Action : Type 0 where
  clear_active_pane_filter close_file_dialog copy_selection delete_selection : Action
  edit_active_file filter_active_pane go_back go_forward go_parent invert_selection : Action
  mkdir move_selection open_active_entry overwrite_all_pending_conflicts : Action
  overwrite_pending_conflict rename_selection request_path_edit search_active_pane : Action
  select_by_mask skip_all_pending_conflicts skip_pending_conflict switch_active_pane : Action
  unselect_by_mask view_active_file confirm_pending_operation cancel_pending_operation : Action
  move_cursor : (delta : ℤ) → (extend_selection : Bool) → Action
  set_boundary_cursor : CommanderPaneId → Boundary → (extend_selection : Bool) → Action
  set_cursor : CommanderPaneId → Text → Action
  step_search_match : SearchDelta → Action
  toggle_selection_at_cursor : (advance : Bool) → Action

pub record CommanderTypeaheadState : Type 0 where
  pub prefix : Text
  pub timestamp : ℕ

-- `switch (key)`, whose cases each trigger an action
unfoldable pub switch : Text → List (Text × Action) → Option Action
switch key [] = none
switch key ((name, action) ∷ cases) =
    let rest = switch key cases in if text_eq key name then some action else rest

unfoldable pub has_commander_pending_conflict_resolution : CommanderPendingOperation → Bool
has_commander_pending_conflict_resolution (transfer op) = not (is_nil (transfer_conflicts op))
has_commander_pending_conflict_resolution _ = false

unfoldable pub is_typeahead_character : KeyEvent → Bool
is_typeahead_character e =
    not (e.alt_key || e.ctrl_key || e.meta_key) && length e.key == 1 && not (is_empty (trim e.key))

unfoldable pub handle_commander_file_dialog_keys : KeyEvent → Bool → Option (Option Action)
handle_commander_file_dialog_keys e is_open =
    if not is_open
    then none
    else some (switch e.key ((text "Escape", Action.close_file_dialog) ∷ []))

unfoldable pub handle_commander_alt_navigation_keys : KeyEvent → Option (Option Action)
handle_commander_alt_navigation_keys e =
    if not e.alt_key || e.meta_key || e.ctrl_key
    then none
    else some (
        switch e.key
          ((text "ArrowLeft", Action.go_back) ∷ (text "ArrowRight", Action.go_forward) ∷ []))

unfoldable pub handle_commander_modifier_keys : KeyEvent → Option (Option Action)
handle_commander_modifier_keys e =
    if not e.meta_key && not e.ctrl_key
    then none
    else if e.meta_key
    then some none
    else some (
        switch e.key (
          (text "f", Action.filter_active_pane)
          ∷ (text "F", Action.filter_active_pane)
          ∷ (text "s", Action.search_active_pane)
          ∷ (text "S", Action.search_active_pane)
          ∷ (text "Backspace", Action.clear_active_pane_filter)
          ∷ (text "l", Action.request_path_edit)
          ∷ (text "L", Action.request_path_edit)
          ∷ (text "PageUp", Action.go_parent)
          ∷ (text "PageDown", Action.open_active_entry)
          ∷ []))

-- the keys of a pending operation whose conflicts are to be resolved
unfoldable pub conflict_keys : KeyEvent → Option Action
conflict_keys e = switch e.key (
    (
      text "Enter",
      if e.shift_key
          then Action.overwrite_all_pending_conflicts
          else Action.overwrite_pending_conflict,
    )
    ∷ (
      text " ",
      if e.shift_key then Action.skip_all_pending_conflicts else Action.skip_pending_conflict,
    )
    ∷ (text "Escape", Action.cancel_pending_operation)
    ∷ [])

-- the keys of any other pending operation
unfoldable pub prompt_keys : KeyEvent → CommanderPendingOperation → Option Action
prompt_keys e op =
    let stepping : List (Text × Action) = elim op [
      | search _ ↦
          (text "ArrowDown", Action.step_search_match next)
          ∷ (text "ArrowUp", Action.step_search_match previous)
          ∷ []
      | _ ↦ []
    ] in
    switch e.key (
      stepping
      ++ (text "Enter", Action.confirm_pending_operation)
        ∷ (text "Escape", Action.cancel_pending_operation)
        ∷ [])

unfoldable pub handle_commander_pending_operation_keys :
    KeyEvent → Option CommanderPendingOperation → Option (Option Action)
handle_commander_pending_operation_keys e none = none
handle_commander_pending_operation_keys e (some op) =
    some
      (if has_commander_pending_conflict_resolution op then conflict_keys e else prompt_keys e op)

unfoldable pub handle_commander_selection_shortcut_keys : KeyEvent → Option (Option Action)
handle_commander_selection_shortcut_keys e =
    if e.alt_key || e.ctrl_key || e.meta_key
    then none
    else Option.map some (
        switch e.code (
          (text "NumpadAdd", Action.select_by_mask)
          ∷ (text "NumpadSubtract", Action.unselect_by_mask)
          ∷ (text "NumpadMultiply", Action.invert_selection)
          ∷ []))

unfoldable pub handle_commander_shift_navigation_keys :
    KeyEvent → CommanderPaneId → Option (Option Action)
handle_commander_shift_navigation_keys e active_pane =
    if not e.shift_key
    then none
    else Option.map some (
        switch e.key (
          (text "ArrowUp", Action.move_cursor (negsuc 0) true)
          ∷ (text "ArrowDown", Action.move_cursor (pos 1) true)
          ∷ (text "PageUp", Action.move_cursor (negsuc 9) true)
          ∷ (text "PageDown", Action.move_cursor (pos 10) true)
          ∷ (text "Home", Action.set_boundary_cursor active_pane start true)
          ∷ (text "End", Action.set_boundary_cursor active_pane end true)
          ∷ (text "F6", Action.rename_selection)
          ∷ []))

unfoldable pub handle_commander_navigation_keys : KeyEvent → CommanderPaneId → Option Action
handle_commander_navigation_keys e active_pane = switch e.key (
    (text "ArrowUp", Action.move_cursor (negsuc 0) false)
    ∷ (text "ArrowDown", Action.move_cursor (pos 1) false)
    ∷ (text "PageUp", Action.move_cursor (negsuc 9) false)
    ∷ (text "PageDown", Action.move_cursor (pos 10) false)
    ∷ (text "Home", Action.set_boundary_cursor active_pane start false)
    ∷ (text "End", Action.set_boundary_cursor active_pane end false)
    ∷ (text "Tab", Action.switch_active_pane)
    ∷ (text "Backspace", Action.go_parent)
    ∷ (text "Enter", Action.open_active_entry)
    ∷ (text "Insert", Action.toggle_selection_at_cursor true)
    ∷ (text " ", Action.toggle_selection_at_cursor false)
    ∷ (text "Spacebar", Action.toggle_selection_at_cursor false)
    ∷ (text "F5", Action.copy_selection)
    ∷ (text "F6", Action.move_selection)
    ∷ (text "F7", Action.mkdir)
    ∷ (text "F8", Action.delete_selection)
    ∷ (text "F2", Action.rename_selection)
    ∷ (text "F3", Action.view_active_file)
    ∷ (text "F4", Action.edit_active_file)
    ∷ [])

pub record CommanderTypeaheadResult : Type 0 where
  pub handled : Bool
  pub action : Option Action
  pub next_typeahead_state : CommanderTypeaheadState

-- what `useCommanderKeyboard` does with a key: the action, and the typeahead it remembers
pub record KeyResult : Type 0 where
  pub action : Option Action
  pub typeahead_state : CommanderTypeaheadState

module _ ⦃l : Locale⦄ where
  unfoldable pub find_next_typeahead_match : List CommanderFileRow → Text → Option CommanderFileRow
  find_next_typeahead_match rows prefix =
      let normalized = locale_lower_case prefix in
      let search_rows : List CommanderFileRow = elim (find_idx? (λ row. row.focused) rows) [
        | none ↦ rows
        | some i ↦ drop (i + 1) rows ++ take (i + 1) rows
      ] in
      if is_nil rows || is_empty prefix
      then none
      else find? (λ row. starts_with (locale_lower_case row.name) normalized) search_rows

  -- the match of the whole prefix, and else of its last character, with the prefix that matched
  unfoldable pub resolve_typeahead :
      List CommanderFileRow → Text → Text → Option (Text × CommanderFileRow)
  resolve_typeahead rows next_prefix character = elim (find_next_typeahead_match rows next_prefix) [
    | some row ↦ some (next_prefix, row)
    | none ↦
        if ltb 1 (length next_prefix)
        then Option.map (λ row. (character, row)) (find_next_typeahead_match rows character)
        else none
  ]

  unfoldable pub handle_commander_typeahead_key :
      KeyEvent
      → CommanderPaneId
      → List CommanderFileRow
      → CommanderTypeaheadState
      → (now : ℕ) → CommanderTypeaheadResult
  handle_commander_typeahead_key e active_pane rows state now =
      let character = locale_lower_case e.key in
      let next_prefix =
        if leb now (state.timestamp + commander_typeahead_reset_ms)
        then state.prefix ++ character
        else character in
      if not (is_typeahead_character e)
      then record { handled = false; action = none; next_typeahead_state = state }
      else elim (resolve_typeahead rows next_prefix character) [
        | none ↦ record {
          handled = true;
          action = none;
          next_typeahead_state = record { prefix = []; timestamp = 0 };
        }
        | some (resolved, row) ↦ record {
          handled = true;
          action = some (Action.set_cursor active_pane row.id);
          next_typeahead_state = record { prefix = resolved; timestamp = now };
        }
      ]

  -- the handlers before the typeahead, in their order
  unfoldable pub handle_before_typeahead :
      KeyEvent → Bool → Option CommanderPendingOperation → CommanderPaneId → Option (Option Action)
  handle_before_typeahead e file_dialog_open pending active_pane =
      or_else (handle_commander_file_dialog_keys e file_dialog_open) (
        or_else (handle_commander_alt_navigation_keys e) (
          or_else (handle_commander_modifier_keys e) (
            or_else (handle_commander_pending_operation_keys e pending) (
              or_else (handle_commander_selection_shortcut_keys e)
                (handle_commander_shift_navigation_keys e active_pane)))))

  unfoldable pub handle_key :
      KeyEvent
      → (file_dialog_open : Bool) → Option CommanderPendingOperation
      → CommanderPaneId
      → List CommanderFileRow
      → CommanderTypeaheadState
      → (now : ℕ) → KeyResult
  handle_key e file_dialog_open pending active_pane rows state now =
      if e.in_text_target
      then record { action = none; typeahead_state = state }
      else elim (handle_before_typeahead e file_dialog_open pending active_pane) [
        | some action ↦ record { action = action; typeahead_state = state }
        | none ↦
            let typed = handle_commander_typeahead_key e active_pane rows state now in
            record {
              action =
                  if typed.handled
                  then typed.action
                  else handle_commander_navigation_keys e active_pane;
              typeahead_state = typed.next_typeahead_state;
            }
      ]
