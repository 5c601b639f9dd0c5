-- ===== src/Commander/PaneState/Projection.antt =====
-- A rebuilt pane shows the projection of its directory, and its cursor, its anchor and its selection
-- are on the rows: `buildCommanderPaneState` of frontend/src/features/commander/model/pane-state.ts.
use mathlib.Core.Path.{subst}
use rune_terminal.Base.{
  ◌≡◌, refl, sym, ◌⊎◌, inl, inr, Option, none, some, List, [], ◌∷◌, Bool-cases, All, filter,
  filter-All,
}
use rune_terminal.Text.{Text, includes, includes-cons, text_eq_refl}
use rune_terminal.Locale.{Locale}
use rune_terminal.Commander.Types.{
  CommanderDirectoryEntry, CommanderPaneRuntimeState, CommanderWidgetRuntimeState,
}
use rune_terminal.Commander.PaneState.{
  ProjectionOptions, projection_options, entry_ids, first_id, keep_if_visible,
  project_commander_entries, build_commander_pane_state, rebuild_commander_pane_state,
}
use rune_terminal.Commander.Selection.Shown.{Shown, OnRow}
use rune_terminal.Commander.Selection.Grounded.{IsSettled}

keep_if_visible-OnRow :
    (es : List CommanderDirectoryEntry) (id fallback : Option Text)
    → OnRow es fallback
    → OnRow es (keep_if_visible (entry_ids es) id fallback)
unfolding keep_if_visible
keep_if_visible-OnRow es none fallback h = h
keep_if_visible-OnRow es (some []) fallback h = h
keep_if_visible-OnRow es (some (c ∷ s)) fallback h =
    elim (Bool-cases (includes (entry_ids es) (c ∷ s))) [
      | inl e ↦ rw e (c ∷ s, refl, e)
      | inr e ↦ rw e h
    ]

first_id-OnRow : (es : List CommanderDirectoryEntry) → (es ≡ []) ⊎ OnRow es (first_id es)
first_id-OnRow [] = inl refl
first_id-OnRow (e ∷ es) = inr (e.id, refl, rw (includes-cons, text_eq_refl))

-- A pane whose cursor, anchor and selection are cut down to its rows is settled.
IsSettled-of_cut :
    (q : CommanderPaneRuntimeState) (cursor anchor : Option Text) (selected : List Text)
    → q.cursor_entry_id ≡ keep_if_visible (entry_ids q.entries) cursor (first_id q.entries)
    → q.selection_anchor_entry_id
      ≡ keep_if_visible
          (entry_ids q.entries)
          anchor
          (keep_if_visible (entry_ids q.entries) cursor (first_id q.entries))
    → q.selected_ids ≡ filter (includes (entry_ids q.entries)) selected
    → IsSettled q
IsSettled-of_cut q cursor anchor selected c a s = elim (first_id-OnRow q.entries) [
  | inl none_shown ↦ inl none_shown
  | inr first ↦
      let at_cursor = keep_if_visible-OnRow q.entries cursor _ first in
      inr (record {
        cursor = subst (OnRow q.entries) (sym c) at_cursor;
        anchor =
            subst (OnRow q.entries) (sym a) (keep_if_visible-OnRow q.entries anchor _ at_cursor);
        selected = subst (All (Shown q.entries)) (sym s) (filter-All _ selected);
      })
]

module _ ⦃l : Locale⦄ where
  -- The rows are the projection of the directory under the options.
  abbrev pub IsProjected : ProjectionOptions → CommanderPaneRuntimeState → Type 0
  IsProjected options p =
      p.entries ≡ project_commander_entries p.directory_entries options p.filter_query

  -- What holds of a pane between two events.
  pub record IsSound (options : ProjectionOptions) (p : CommanderPaneRuntimeState) : Type 0 where
    pub projected : IsProjected options p
    pub settled : IsSettled p

  -- A rebuilt pane is sound, whatever it was.
  pub rebuild_commander_pane_state-IsSound :
      (w : CommanderWidgetRuntimeState) (p : CommanderPaneRuntimeState)
      → IsSound (projection_options w) (rebuild_commander_pane_state w p)
  unfolding rebuild_commander_pane_state build_commander_pane_state
  rebuild_commander_pane_state-IsSound w p = record {
    projected = refl;
    settled =
        IsSettled-of_cut (rebuild_commander_pane_state w p) p.cursor_entry_id
          p.selection_anchor_entry_id p.selected_ids refl refl refl;
  }
