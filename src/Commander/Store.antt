-- ===== src/Commander/Store.antt =====
-- The store of frontend/src/features/commander/model/store.ts and store-widget-state.ts: the events
-- that reach a widget, and the widgets by their id.
pub mod Confirming
pub mod Invariant
pub mod Runs
pub mod Frame
pub mod Loading
pub mod Searching
pub mod Soundness
pub mod Updaters
use rune_terminal.Base.{
  ℤ, Bool, true, false, Option, none, some, List, [], ◌∷◌, ◌++◌, if◌then◌else◌,
}
use mathlib.Core.Option
use rune_terminal.Text.{Text, text_eq}
use rune_terminal.Locale.{Locale}
use rune_terminal.Commander.Types.{
  CommanderPaneId, CommanderViewMode, CommanderSortMode, CommanderFileDialogState,
  CommanderPendingOperation, CommanderPendingOperationKind, CommanderWidgetRuntimeState,
  CommanderWidgetPersistedState, commander, split, terminal,
}
use rune_terminal.Commander.PaneState.{create_commander_widget_runtime_state}
use rune_terminal.Commander.Preview.{other_pane}
use rune_terminal.Commander.Navigation.{update_pane_state, rebuild_pane_state}
use rune_terminal.Commander.Selection.{Boundary, invert_pane_selection}
use rune_terminal.Commander.Operations.{update_commander_pending_operation_input}
use rune_terminal.Commander.Confirm.{
  SearchDelta, closed, step_commander_widget_pending_search_match,
  confirm_commander_widget_pending_operation,
}
use rune_terminal.Commander.Request.{request_commander_widget_pending_operation}
use rune_terminal.Commander.Handlers.{
  HydratePayload, set_pane_loading, set_pane_load_error, hydrate_pane_directory, toggle_show_hidden,
  toggle_dirs_first, set_sort_mode, set_pane_cursor, move_pane_cursor_event,
  move_active_pane_cursor, toggle_pane_selection, toggle_active_pane_selection,
  set_pane_boundary_cursor,
}

-- The events with a handler in the store, each with its payload but for the widget's id. The nine
-- events `requestCommanderActivePane…` are one constructor.
pub data WidgetEvent : Type 0 where
  set_active_pane set_loading : CommanderPaneId → WidgetEvent
  set_load_error : CommanderPaneId → (path error_message : Option Text) → WidgetEvent
  hydrate : HydratePayload → WidgetEvent
  toggle_hidden toggle_dirs switch_active_pane : WidgetEvent
  set_view_mode : CommanderViewMode → WidgetEvent
  sort_by : CommanderSortMode → WidgetEvent
  set_cursor : CommanderPaneId → (entry_id : Text) → (range_select : Bool) → WidgetEvent
  move_cursor : CommanderPaneId → (delta : ℤ) → (extend_selection : Bool) → WidgetEvent
  move_active_cursor : (delta : ℤ) → (extend_selection : Bool) → WidgetEvent
  toggle_selection : CommanderPaneId → (entry_id : Text) → WidgetEvent
  toggle_active_selection : (advance : Bool) → WidgetEvent
  set_file_dialog : Option CommanderFileDialogState → WidgetEvent
  set_file_dialog_draft : Text → WidgetEvent
  close_file_dialog : WidgetEvent
  set_boundary_cursor : CommanderPaneId → Boundary → (extend_selection : Bool) → WidgetEvent
  request_operation : CommanderPendingOperationKind → WidgetEvent
  step_search_match : SearchDelta → WidgetEvent
  clear_filter invert_selection : WidgetEvent
  set_filter_query : CommanderPaneId → Text → WidgetEvent
  set_operation_input : Text → WidgetEvent
  set_operation : Option CommanderPendingOperation → WidgetEvent
  confirm_operation cancel_operation : WidgetEvent

abbrev pub same_view_mode : CommanderViewMode → CommanderViewMode → Bool
same_view_mode commander commander = true
same_view_mode split split = true
same_view_mode terminal terminal = true
same_view_mode _ _ = false

module _ ⦃l : Locale⦄ where
  -- the handler's updater: `none` leaves the widget as it is
  unfoldable pub handle :
      WidgetEvent → CommanderWidgetRuntimeState → Option CommanderWidgetRuntimeState
  handle (set_active_pane pane_id) w = some (record w { active_pane = pane_id })
  handle (set_loading pane_id) w = some (set_pane_loading pane_id w)
  handle (set_load_error pane_id path error_message) w =
      some (set_pane_load_error pane_id path error_message w)
  handle (hydrate payload) w = some (hydrate_pane_directory payload w)
  handle toggle_hidden w = some (toggle_show_hidden w)
  handle toggle_dirs w = some (toggle_dirs_first w)
  handle switch_active_pane w = some (record w { active_pane = other_pane w.active_pane })
  handle (set_view_mode mode) w =
      if same_view_mode w.view_mode mode then none else some (record w { view_mode = mode })
  handle (sort_by mode) w = some (set_sort_mode mode w)
  handle (set_cursor pane_id entry_id range_select) w =
      some (set_pane_cursor pane_id entry_id range_select w)
  handle (move_cursor pane_id delta extend) w = some (move_pane_cursor_event pane_id delta extend w)
  handle (move_active_cursor delta extend) w = some (move_active_pane_cursor delta extend w)
  handle (toggle_selection pane_id entry_id) w = some (toggle_pane_selection pane_id entry_id w)
  handle (toggle_active_selection advance) w = toggle_active_pane_selection advance w
  handle (set_file_dialog dialog) w = some (record w { file_dialog = dialog })
  handle (set_file_dialog_draft draft) w =
      Option.map (λ dialog. record w { file_dialog = some (record dialog { draft_value = draft }) })
        w.file_dialog
  handle close_file_dialog w = Option.map (λ _. record w { file_dialog = none }) w.file_dialog
  handle (set_boundary_cursor pane_id boundary extend) w =
      some (set_pane_boundary_cursor pane_id boundary extend w)
  handle (request_operation kind) w = request_commander_widget_pending_operation w kind
  handle (step_search_match delta) w = step_commander_widget_pending_search_match w delta
  handle clear_filter w = some (
      update_pane_state w w.active_pane
        (λ p. rebuild_pane_state w (record p { filter_query = [] }) p.path))
  handle invert_selection w = some (update_pane_state w w.active_pane invert_pane_selection)
  handle (set_filter_query pane_id query) w = some (
      update_pane_state w pane_id
        (λ p. rebuild_pane_state w (record p { filter_query = query }) p.path))
  handle (set_operation_input input) w = update_commander_pending_operation_input w input
  handle (set_operation op) w = some (record w { pending_operation = op })
  handle confirm_operation w = confirm_commander_widget_pending_operation w
  handle cancel_operation w = Option.map (λ _. closed w) w.pending_operation

-- `Record<string, CommanderWidgetRuntimeState>`, in the order of insertion
abbrev pub Widgets : Type 0
Widgets = List (Text × CommanderWidgetRuntimeState)

unfoldable pub lookup : Text → Widgets → Option CommanderWidgetRuntimeState
lookup id [] = none
lookup id ((k, w) ∷ rest) = if text_eq k id then some w else lookup id rest

-- `{ ...widgets, [id]: w }`
unfoldable pub insert : Text → CommanderWidgetRuntimeState → Widgets → Widgets
insert id w [] = (id, w) ∷ []
insert id w ((k, v) ∷ rest) = if text_eq k id then (k, w) ∷ rest else (k, v) ∷ insert id w rest

unfoldable pub with_commander_widget_state :
    Widgets → Text → (CommanderWidgetRuntimeState → Option CommanderWidgetRuntimeState) → Widgets
with_commander_widget_state widgets id update = elim (lookup id widgets) [
  | none ↦ widgets
  | some w ↦ elim (update w) [ none ↦ widgets | some next ↦ insert id next widgets ]
]

pub data Event : Type 0 where
  mount : Text → Option CommanderWidgetPersistedState → Event
  to_widget : Text → WidgetEvent → Event

module _ ⦃l : Locale⦄ where
  unfoldable pub reduce : Event → Widgets → Widgets
  reduce (mount id persisted) widgets = elim (lookup id widgets) [
    | some w ↦ widgets
    | none ↦ insert id (create_commander_widget_runtime_state id persisted) widgets
  ]
  reduce (to_widget id event) widgets = with_commander_widget_state widgets id (handle event)

  -- the store after a sequence of events
  unfoldable pub run : List Event → Widgets → Widgets
  run [] widgets = widgets
  run (event ∷ events) widgets = run events (reduce event widgets)
