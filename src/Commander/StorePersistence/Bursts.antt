-- ===== src/Commander/StorePersistence/Bursts.antt =====
-- What is written after changes, and after the end, frontend/src/features/commander/model/
-- store-persistence.ts.
use rune_terminal.Base.{
  ℕ, ◌+◌, ◌≡◌, refl, true, false, Option, none, some, List, [], ◌∷◌, ◌++◌, map, if◌then◌else◌, leb,
  arith,
}
use rune_terminal.Commander.Store.{Widgets}
use rune_terminal.Commander.StorePersistence.{
  PersistenceState, Signal, watch, timer, dispose, serialize_widgets, on_watch, on_timer,
  on_dispose, signal, signals,
}

-- The watcher runs, and has skipped the first call.
pub record IsRunning (s : PersistenceState) : Type 0 where
  pub initialized : s.has_initialized ≡ true
  pub subscribed : s.subscribed ≡ true

abbrev pub watches : List (ℕ × Widgets) → List Signal
watches = map (λ change. watch change.0 change.1)

on_watch_running :
    (now : ℕ) (widgets : Widgets) (s : PersistenceState)
    → IsRunning s
    → on_watch now widgets s ≡ record s { timeout = some (now + 120, widgets) }
unfolding on_watch
on_watch_running now widgets s r = simp (r.subscribed, r.initialized) refl

on_watch_off :
    (now : ℕ) (widgets : Widgets) (s : PersistenceState)
    → s.subscribed ≡ false
    → on_watch now widgets s ≡ s
unfolding on_watch
on_watch_off now widgets s u = simp u refl

on_timer-none : (now : ℕ) (s : PersistenceState) → s.timeout ≡ none → on_timer now s ≡ s
unfolding on_timer
on_timer-none now s t = go s.timeout t
  where
    go :
        (o : Option (ℕ × Widgets))
        → o ≡ none
        → (elim o [
          | none ↦ s
          | some (due, widgets) ↦
              if leb due now
              then record s { timeout = none; written = serialize_widgets widgets ∷ s.written }
              else s
        ])
          ≡ s
    go none h = refl
    go (some x) h = cc

-- Once the watcher runs: after a burst of changes with no timer between them, the timer that is due
-- 120 ms after the last change, or any later one, writes exactly once, and writes the widgets as they
-- were at the last change; before it is due the timer writes nothing.
pub signals-burst :
    (s : PersistenceState) (burst : List (ℕ × Widgets)) (now : ℕ) (widgets : Widgets) (later : ℕ)
    → IsRunning s
    → (signals (watches burst ++ watch now widgets ∷ timer later ∷ []) s).written
      ≡ (if leb (now + 120) later then serialize_widgets widgets ∷ s.written else s.written)
unfolding signals signal on_timer
signals-burst s [] now widgets later r = rw (on_watch_running now widgets s r) (ground arith)
signals-burst s ((t, ws) ∷ burst) now widgets later r =
    rw (on_watch_running t ws s r, signals, signal)
      (signals-burst (record s { timeout = some (t + 120, ws) }) burst now widgets later
        (record { initialized = r.initialized; subscribed = r.subscribed }))

quiet_signals :
    (xs : List Signal) (s : PersistenceState)
    → s.timeout ≡ none
    → s.subscribed ≡ false
    → (signals xs s).written ≡ s.written
unfolding signals signal on_dispose
quiet_signals [] s t u = refl
quiet_signals (watch now ws ∷ xs) s t u =
    rw (on_watch_off now ws s u, signals, signal) (quiet_signals xs s t u)
quiet_signals (timer now ∷ xs) s t u =
    rw (on_timer-none now s t, signals, signal) (quiet_signals xs s t u)
quiet_signals (dispose ∷ xs) s t u = quiet_signals xs (on_dispose s) refl refl

-- After the end nothing is written any more, whatever was pending and whatever still happens.
pub signals-dispose :
    (s : PersistenceState) (xs : List Signal) → (signals (dispose ∷ xs) s).written ≡ s.written
unfolding signals signal on_dispose
signals-dispose s xs = quiet_signals xs (on_dispose s) refl refl
