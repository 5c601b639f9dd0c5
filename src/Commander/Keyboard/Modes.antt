-- ===== src/Commander/Keyboard/Modes.antt =====
-- frontend/src/features/commander/model/keyboard.ts: a dialog and a pending operation keep the keys to
-- themselves.
use rune_terminal.Base.{
  ◌≡◌, refl, ◌⊎◌, ℕ, Bool, true, false, not, ◌&&◌, is_nil, Option, none, some, List, [], ◌∷◌,
  if◌then◌else◌, arith,
}
use rune_terminal.Text.{Text}
use rune_terminal.Locale.{Locale}
use rune_terminal.Commander.Types.{
  CommanderFileRow, CommanderPaneId, CommanderPendingOperation, clone, pane, transfer, delete,
  mkdir, rename, mask, search,
}
use rune_terminal.Commander.Keyboard.{
  KeyEvent, Action, switch, CommanderTypeaheadState, handle_key, handle_before_typeahead,
  handle_commander_file_dialog_keys, handle_commander_alt_navigation_keys,
  handle_commander_modifier_keys, handle_commander_pending_operation_keys, conflict_keys,
  prompt_keys, has_commander_pending_conflict_resolution,
}

-- The action that is triggered, if any, is of a kind.
abbrev pub permits : (Action → Bool) → Option Action → Bool
permits p none = true
permits p (some a) = p a

abbrev pub permits_all : (Action → Bool) → List (Text × Action) → Bool
permits_all p [] = true
permits_all p ((name, a) ∷ cases) = p a && permits_all p cases

switch-permits :
    (p : Action → Bool) (key : Text) (cases : List (Text × Action))
    → permits_all p cases ≡ true
    → permits p (switch key cases) ≡ true
unfolding switch
switch-permits p key [] h = refl
switch-permits p key ((name, a) ∷ cases) h = ground (arith, switch-permits p key cases)

-- What a pending operation lets through: the resolution of its conflicts, or else its confirmation, and
-- the steps of a search; and always that it is cancelled.
abbrev pub resolves_conflict : Action → Bool
resolves_conflict Action.overwrite_all_pending_conflicts = true
resolves_conflict Action.overwrite_pending_conflict = true
resolves_conflict Action.skip_all_pending_conflicts = true
resolves_conflict Action.skip_pending_conflict = true
resolves_conflict Action.cancel_pending_operation = true
resolves_conflict _ = false

abbrev pub answers_prompt : CommanderPendingOperation → Action → Bool
answers_prompt op Action.confirm_pending_operation = true
answers_prompt op Action.cancel_pending_operation = true
answers_prompt (search s) (Action.step_search_match delta) = true
answers_prompt op _ = false

-- the names that are still in conflict, which a copy or a move may have
abbrev pub conflicts : CommanderPendingOperation → List Text
conflicts (transfer (clone op)) = op.conflict_entry_names
conflicts (transfer (pane op)) = op.conflict_entry_names
conflicts (delete op) = []
conflicts (mkdir op) = []
conflicts (rename op) = []
conflicts (mask op) = []
conflicts (search op) = []

abbrev pub is_for : CommanderPendingOperation → Action → Bool
is_for op a = elim (conflicts op) [ [] ↦ answers_prompt op a | _ ∷ _ ↦ resolves_conflict a ]

has_conflicts :
    (op : CommanderPendingOperation)
    → has_commander_pending_conflict_resolution op ≡ not (is_nil (conflicts op))
unfolding has_commander_pending_conflict_resolution
has_conflicts (transfer (clone op)) = refl
has_conflicts (transfer (pane op)) = refl
has_conflicts (delete op) = refl
has_conflicts (mkdir op) = refl
has_conflicts (rename op) = refl
has_conflicts (mask op) = refl
has_conflicts (search op) = refl

conflict_keys-permits : (e : KeyEvent) → permits resolves_conflict (conflict_keys e) ≡ true
unfolding conflict_keys
conflict_keys-permits e = switch-permits resolves_conflict e.key _ (ground arith)

prompt_keys-permits :
    (e : KeyEvent) (op : CommanderPendingOperation)
    → permits (answers_prompt op) (prompt_keys e op) ≡ true
unfolding prompt_keys
prompt_keys-permits e (transfer x) = switch-permits (answers_prompt (transfer x)) e.key _ refl
prompt_keys-permits e (delete x) = switch-permits (answers_prompt (delete x)) e.key _ refl
prompt_keys-permits e (mkdir x) = switch-permits (answers_prompt (mkdir x)) e.key _ refl
prompt_keys-permits e (rename x) = switch-permits (answers_prompt (rename x)) e.key _ refl
prompt_keys-permits e (mask x) = switch-permits (answers_prompt (mask x)) e.key _ refl
prompt_keys-permits e (search x) = switch-permits (answers_prompt (search x)) e.key _ refl

pending_keys-permits :
    (e : KeyEvent) (op : CommanderPendingOperation)
    → (action : Option Action) × (handle_commander_pending_operation_keys e (some op) ≡ some action)
      × (permits (is_for op) action ≡ true)
unfolding handle_commander_pending_operation_keys
pending_keys-permits e op =
    rw (has_conflicts op)
      (elim (conflicts op)
        as (λ names.
          (action : Option Action) × (some
              (if not (is_nil names) then conflict_keys e else prompt_keys e op)
            ≡ some action)
          × (permits
                (λ a. elim names as (λ _. Bool) [
                  | [] ↦ answers_prompt op a
                  | _ ∷ _ ↦ resolves_conflict a
                ])
                action
              ≡ true)) [
                | [] ↦ (_, refl, prompt_keys-permits e op)
                | _ ∷ _ ↦ (_, refl, conflict_keys-permits e)
              ])

module _ ⦃l : Locale⦄ (e : KeyEvent) (pane : CommanderPaneId) (rows : List CommanderFileRow)
    (state : CommanderTypeaheadState) (now : ℕ) where
  -- While the file dialog is open, no key triggers anything but its closing, whatever else is pending,
  -- and the typeahead stays as it is.
  pub handle_key-dialog :
      (pending : Option CommanderPendingOperation)
      → let result = handle_key e true pending pane rows state now in
        ((result.action ≡ none) ⊎ (result.action ≡ some Action.close_file_dialog))
        × (result.typeahead_state ≡ state)
  unfolding handle_key handle_before_typeahead handle_commander_file_dialog_keys switch
  handle_key-dialog pending = ground arith

  -- While an operation is pending and no dialog is open, a key without Alt, Ctrl and Meta triggers
  -- nothing but the resolution of the operation's conflicts, or, where it has none, its confirmation and
  -- the steps of its search, or that it is cancelled; and the typeahead stays as it is.
  pub handle_key-pending :
      (op : CommanderPendingOperation)
      → (e.alt_key ≡ false) × (e.ctrl_key ≡ false) × (e.meta_key ≡ false)
      → let result = handle_key e false (some op) pane rows state now in
        (permits (is_for op) result.action ≡ true) × (result.typeahead_state ≡ state)
  unfolding handle_key handle_before_typeahead handle_commander_file_dialog_keys
      handle_commander_alt_navigation_keys handle_commander_modifier_keys
  handle_key-pending op (alt, ctrl, meta) =
      let (action, step, good) = pending_keys-permits e op in
      ground (arith, alt, ctrl, meta, step, good)
