-- ===== src/Commander/Store/Runs.antt =====
-- The whole store over a sequence of events: `$commanderWidgets` of
-- frontend/src/features/commander/model/store.ts.
use rune_terminal.Base.{
  ◌≡◌, refl, sym, inl, inr, true, Option, none, some, List, [], ◌∷◌, Bool-cases, Option-cases, All,
  filter,
}
use rune_terminal.Text.{Text, text_eq}
use rune_terminal.Locale.{Locale}
use rune_terminal.Sort.{sort}
use rune_terminal.Commander.Types.{CommanderWidgetRuntimeState, CommanderWidgetPersistedState}
use rune_terminal.Commander.Mask.{filter_entries_by_mask}
use rune_terminal.Commander.Mask.Entries.{get_commander_matched_entries-filter}
use rune_terminal.Commander.Ordering.{sort_commander_entries}
use rune_terminal.Commander.PaneState.{
  ProjectionOptions, visible_entries, project_commander_entries,
  create_commander_widget_runtime_state, create_pane_state_from_persisted, create_empty_pane_state,
}
use rune_terminal.Commander.Store.{
  Widgets, Event, mount, to_widget, lookup, insert, handle, with_commander_widget_state, reduce,
  run,
}
use rune_terminal.Commander.Store.Soundness.{WidgetIsSound}
use rune_terminal.Commander.Store.Searching.{Holds}
use rune_terminal.Commander.Store.Invariant.{handle-IsSound}

module _ ⦃l : Locale⦄ where
  -- An empty directory projects to no rows.
  project_commander_entries-nil :
      (options : ProjectionOptions) (query : Text) → project_commander_entries [] options query ≡ []
  unfolding project_commander_entries sort_commander_entries visible_entries sort filter
      filter_entries_by_mask
  project_commander_entries-nil options query = get_commander_matched_entries-filter [] query true

  create_commander_widget_runtime_state-IsSound :
      (id : Text) (persisted : Option CommanderWidgetPersistedState)
      → WidgetIsSound (create_commander_widget_runtime_state id persisted)
  unfolding create_commander_widget_runtime_state create_pane_state_from_persisted
      create_empty_pane_state
  create_commander_widget_runtime_state-IsSound id none = record {
    left_sound = record { projected = sym (project_commander_entries-nil _ _); settled = inl refl };
    right_sound = record {
      projected = sym (project_commander_entries-nil _ _);
      settled = inl refl;
    };
  }
  create_commander_widget_runtime_state-IsSound id (some p) = record {
    left_sound = record { projected = sym (project_commander_entries-nil _ _); settled = inl refl };
    right_sound = record {
      projected = sym (project_commander_entries-nil _ _);
      settled = inl refl;
    };
  }

  -- Every widget of the store is sound.
  abbrev pub AllSound : Widgets → Type 0
  AllSound = All (λ entry. WidgetIsSound entry.1)

  lookup-IsSound : (id : Text) (ws : Widgets) → AllSound ws → Holds WidgetIsSound (lookup id ws)
  unfolding lookup
  lookup-IsSound id [] h = tt
  lookup-IsSound id ((k, w) ∷ ws) (s, h) = elim (Bool-cases (text_eq k id)) [
    | inl e ↦ rw e s
    | inr e ↦ rw e (lookup-IsSound id ws h)
  ]

  insert-AllSound :
      (id : Text) (w : CommanderWidgetRuntimeState) (ws : Widgets)
      → WidgetIsSound w
      → AllSound ws
      → AllSound (insert id w ws)
  unfolding insert
  insert-AllSound id w [] s h = (s, tt)
  insert-AllSound id w ((k, v) ∷ ws) s (t, h) = elim (Bool-cases (text_eq k id)) [
    | inl e ↦ rw e (s, h)
    | inr e ↦ rw e (t, insert-AllSound id w ws s h)
  ]

  reduce-AllSound : (event : Event) (ws : Widgets) → AllSound ws → AllSound (reduce event ws)
  unfolding reduce with_commander_widget_state
  reduce-AllSound (mount id persisted) ws h = elim (Option-cases (lookup id ws)) [
    | inl e ↦
        rw (e, reduce)
          (insert-AllSound id _ ws (create_commander_widget_runtime_state-IsSound id persisted) h)
    | inr (w, e) ↦ rw (e, reduce) h
  ]
  reduce-AllSound (to_widget id event) ws h = elim (Option-cases (lookup id ws)) [
    | inl e ↦ rw (e, reduce, with_commander_widget_state) h
    | inr (w, e) ↦
        rw (e, reduce, with_commander_widget_state)
          (on_result (handle event w) (handle-IsSound event w (rw e at (lookup-IsSound id ws h))))
  ]
    where
      on_result :
          (o : Option CommanderWidgetRuntimeState)
          → Holds WidgetIsSound o
          → AllSound (elim o [ none ↦ ws | some next ↦ insert id next ws ])
      on_result none _ = h
      on_result (some next) s = insert-AllSound id next ws s h

  run-AllSound_from : (events : List Event) (ws : Widgets) → AllSound ws → AllSound (run events ws)
  unfolding run
  run-AllSound_from [] ws h = h
  run-AllSound_from (event ∷ events) ws h =
      run-AllSound_from events (reduce event ws) (reduce-AllSound event ws h)

  -- After any sequence of events from the empty store, each pane of each widget shows exactly the
  -- projection of its directory under the widget's settings, and, unless it has no rows, its cursor,
  -- its anchor and all that it selects are on rows that it shows.
  pub run-AllSound : (events : List Event) → AllSound (run events [])
  run-AllSound events = run-AllSound_from events [] tt
