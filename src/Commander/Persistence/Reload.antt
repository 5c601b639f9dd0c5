-- ===== src/Commander/Persistence/Reload.antt =====
-- Storing a widget and mounting it again, frontend/src/features/commander/model/persistence.ts and
-- pane-state.ts.
use rune_terminal.Base.{◌≡◌, refl, sym, Option, none, some, or_else}
use rune_terminal.Text.{Text}
use rune_terminal.Commander.Types.{
  CommanderPaneId, CommanderPaneRuntimeState, CommanderPanePersistedState,
  CommanderWidgetRuntimeState, CommanderWidgetPersistedState,
}
use rune_terminal.Commander.PaneState.{
  create_commander_widget_runtime_state, create_pane_state_from_persisted,
}
use rune_terminal.Commander.Persistence.{
  StoredPane, StoredWidget, complete_pane, complete_widget, serialize_pane_state,
  serialize_commander_widget_runtime_state,
}

-- The object that is read back: every field that was written is there.
abbrev pub stored_pane : CommanderPanePersistedState → StoredPane
stored_pane p = record {
  path = p.path;
  filter_query = some p.filter_query;
  directory_entries = p.directory_entries;
  entries = p.entries;
  cursor_entry_id = p.cursor_entry_id;
  selection_anchor_entry_id = p.selection_anchor_entry_id;
  selected_ids = p.selected_ids;
  history_back = p.history_back;
  history_forward = p.history_forward;
}

abbrev pub stored_widget : CommanderWidgetPersistedState → StoredWidget
stored_widget w = record {
  active_pane = w.active_pane;
  view_mode = w.view_mode;
  show_hidden = w.show_hidden;
  sort_mode = w.sort_mode;
  sort_direction = some w.sort_direction;
  dirs_first = some w.dirs_first;
  left_pane = stored_pane w.left_pane;
  right_pane = stored_pane w.right_pane;
}

-- The widget that is mounted from what another one stored.
pub reload : CommanderWidgetRuntimeState → CommanderWidgetRuntimeState
reload w =
    create_commander_widget_runtime_state w.widget_id
      (some (complete_widget (stored_widget (serialize_commander_widget_runtime_state w))))

-- The anchor is that of the cursor where there is no anchor.
abbrev pub IsAnchored : CommanderPaneRuntimeState → Type 0
IsAnchored p = p.selection_anchor_entry_id ≡ or_else p.selection_anchor_entry_id p.cursor_entry_id

-- What of a pane outlives a mount.
pub record Keeps (p q : CommanderPaneRuntimeState) : Type 0 where
  pub path : q.path ≡ p.path
  pub filter : q.filter_query ≡ p.filter_query
  pub cursor : q.cursor_entry_id ≡ p.cursor_entry_id
  pub anchor : q.selection_anchor_entry_id ≡ p.selection_anchor_entry_id
  pub selection : q.selected_ids ≡ p.selected_ids
  pub back : q.history_back ≡ p.history_back
  pub forward : q.history_forward ≡ p.history_forward

-- What of a widget outlives a mount.
pub record KeepsAll (w v : CommanderWidgetRuntimeState) : Type 0 where
  pub active : v.active_pane ≡ w.active_pane
  pub view : v.view_mode ≡ w.view_mode
  pub hidden : v.show_hidden ≡ w.show_hidden
  pub mode : v.sort_mode ≡ w.sort_mode
  pub direction : v.sort_direction ≡ w.sort_direction
  pub directories : v.dirs_first ≡ w.dirs_first
  pub left : Keeps w.left_pane v.left_pane
  pub right : Keeps w.right_pane v.right_pane

create_pane-Keeps :
    (id : CommanderPaneId) (p : CommanderPaneRuntimeState)
    → IsAnchored p
    → Keeps p
        (create_pane_state_from_persisted id (complete_pane (stored_pane (serialize_pane_state p))))
unfolding serialize_pane_state complete_pane create_pane_state_from_persisted
create_pane-Keeps id p anchored = record {
  path = refl;
  filter = refl;
  cursor = refl;
  anchor = sym anchored;
  selection = refl;
  back = refl;
  forward = refl;
}

-- A widget whose panes have an anchor, or no cursor either, is mounted with its settings and with the
-- path, the filter, the cursor, the anchor, the selection and the history of both panes as they were when
-- it was stored; and it stores the same again.
pub reload-KeepsAll :
    (w : CommanderWidgetRuntimeState)
    → IsAnchored w.left_pane
    → IsAnchored w.right_pane
    → KeepsAll w (reload w)
      × (serialize_commander_widget_runtime_state (reload w)
          ≡ serialize_commander_widget_runtime_state w)
unfolding reload serialize_commander_widget_runtime_state serialize_pane_state
    create_commander_widget_runtime_state complete_widget complete_pane
    create_pane_state_from_persisted
reload-KeepsAll w left_anchored right_anchored = (
  record {
    active = refl;
    view = refl;
    hidden = refl;
    mode = refl;
    direction = refl;
    directories = refl;
    left = create_pane-Keeps CommanderPaneId.left w.left_pane left_anchored;
    right = create_pane-Keeps CommanderPaneId.right w.right_pane right_anchored;
  },
  rw (← left_anchored, ← right_anchored) refl,
)

or_else_again : (a b : Option Text) → or_else (or_else a b) b ≡ or_else a b
or_else_again none none = refl
or_else_again none (some b) = refl
or_else_again (some a) b = refl

-- Mounting a second time from what the mounted widget stored changes nothing, for every widget.
pub reload-reload : (w : CommanderWidgetRuntimeState) → reload (reload w) ≡ reload w
unfolding reload serialize_commander_widget_runtime_state serialize_pane_state
    create_commander_widget_runtime_state complete_widget complete_pane
    create_pane_state_from_persisted
reload-reload w =
    rw (or_else_again (w.left_pane).selection_anchor_entry_id (w.left_pane).cursor_entry_id) (
      rw (or_else_again (w.right_pane).selection_anchor_entry_id (w.right_pane).cursor_entry_id)
        refl)
