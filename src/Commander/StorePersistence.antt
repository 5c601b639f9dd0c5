-- ===== src/Commander/StorePersistence.antt =====
-- frontend/src/features/commander/model/store-persistence.ts: the widgets are written to the browser's
-- storage a while after they changed last. Time is counted in milliseconds; a browser window exists.
pub mod Bursts
use rune_terminal.Base.{
  ℕ, ◌+◌, Bool, true, false, not, Option, none, some, List, [], ◌∷◌, map, if◌then◌else◌, leb,
}
use rune_terminal.Text.{Text}
use rune_terminal.Commander.Types.{CommanderWidgetPersistedState}
use rune_terminal.Commander.Persistence.{serialize_commander_widget_runtime_state}
use rune_terminal.Commander.Store.{Widgets}

abbrev pub commander_persist_debounce_ms : ℕ
commander_persist_debounce_ms = 120

-- the widgets as they are stored, by their id
abbrev pub Snapshot : Type 0
Snapshot = List (Text × CommanderWidgetPersistedState)

-- The variables of `attachCommanderWidgetsPersistence`: the timeout holds the time that it is due
-- and the widgets that its callback closes over. `written` is what was written so far, the last first.
pub record PersistenceState : Type 0 where
  pub has_initialized : Bool
  pub timeout : Option (ℕ × Widgets)
  pub subscribed : Bool
  pub written : List Snapshot

pub data Signal : Type 0 where
  watch : (now : ℕ) → Widgets → Signal
  timer : (now : ℕ) → Signal
  dispose : Signal

abbrev pub attach_commander_widgets_persistence : PersistenceState
attach_commander_widgets_persistence = record {
  has_initialized = false;
  timeout = none;
  subscribed = true;
  written = [];
}

unfoldable pub serialize_widgets : Widgets → Snapshot
serialize_widgets = map (λ entry. (entry.0, serialize_commander_widget_runtime_state entry.1))

-- the watcher
unfoldable pub on_watch : ℕ → Widgets → PersistenceState → PersistenceState
on_watch now widgets s =
    if not s.subscribed
    then s
    else if not s.has_initialized
    then record s { has_initialized = true }
    else record s { timeout = some (now + commander_persist_debounce_ms, widgets) }

-- the callback of the timeout, once it is due
unfoldable pub on_timer : ℕ → PersistenceState → PersistenceState
on_timer now s = elim s.timeout [
  | none ↦ s
  | some (due, widgets) ↦
      if leb due now
      then record s { timeout = none; written = serialize_widgets widgets ∷ s.written }
      else s
]

-- the function that is returned
unfoldable pub on_dispose : PersistenceState → PersistenceState
on_dispose s = record s { timeout = none; subscribed = false }

unfoldable pub signal : Signal → PersistenceState → PersistenceState
signal (watch now widgets) s = on_watch now widgets s
signal (timer now) s = on_timer now s
signal dispose s = on_dispose s

unfoldable pub signals : List Signal → PersistenceState → PersistenceState
signals [] s = s
signals (x ∷ xs) s = signals xs (signal x s)
