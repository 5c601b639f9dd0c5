-- ===== src/Commander/ViewModel/Marking.antt =====
-- frontend/src/features/commander/model/view-model.ts: the rows that a pane marks.
use mathlib.Core.Path.{subst}
use rune_terminal.Base.{
  ◌≡◌, inl, inr, true, not, ◌&&◌, Option, some, List, [], ◌∷◌, arith, any, All, map, is_nil, ◌∙◌,
  Bool-cases,
}
use rune_terminal.Text.{Text, text_eq, text_eq_iff, eq_of_text_eq, includes}
use rune_terminal.Commander.Types.{
  CommanderDirectoryEntry, CommanderPaneRuntimeState, CommanderWidgetRuntimeState,
}
use rune_terminal.Commander.PaneState.{entry_ids}
use rune_terminal.Commander.Selection.Shown.{Shown}
use rune_terminal.Commander.Selection.Grounded.{IsSettled, rows_nonempty}
use rune_terminal.Commander.ViewModel.{is_at, same_pane, to_file_row, to_pane_view_state}

-- A row of the pane is shown as focused exactly if the pane is active and its cursor is on a row.
any-focused :
    (w : CommanderWidgetRuntimeState) (p : CommanderPaneRuntimeState) (id : Text)
    (es : List CommanderDirectoryEntry)
    → p.cursor_entry_id ≡ some id
    → any (λ row. row.focused) (map (to_file_row w p) es)
      ≡ (same_pane w.active_pane p.id && includes (entry_ids es) id)
unfolding any includes to_file_row is_at
any-focused w p id [] h = ground arith
any-focused w p id (e ∷ es) h =
    ground (arith, any-focused w p id es h, text_eq_iff e.id id, text_eq_iff id e.id, h)

any-selected :
    (w : CommanderWidgetRuntimeState) (p : CommanderPaneRuntimeState) (id : Text)
    (es : List CommanderDirectoryEntry)
    → any (λ row. row.selected && text_eq row.id id) (map (to_file_row w p) es)
      ≡ (includes p.selected_ids id && includes (entry_ids es) id)
unfolding any includes to_file_row
any-selected w p id [] = ground arith
any-selected w p id (e ∷ es) = ground (arith, any-selected w p id es, text_eq_iff e.id id)

Shown-of_includes :
    (es : List CommanderDirectoryEntry) (ids : List Text) (id : Text)
    → All (Shown es) ids
    → includes ids id ≡ true
    → Shown es id
unfolding includes any
Shown-of_includes es [] id h selected = cc
Shown-of_includes es (x ∷ ids) id (shown, h) selected = elim (Bool-cases (text_eq x id)) [
  | inl e ↦ subst (Shown es) (eq_of_text_eq x id e) shown
  | inr e ↦ Shown-of_includes es ids id h (ground (arith, e, selected))
]

none-focused :
    (w : CommanderWidgetRuntimeState) (p : CommanderPaneRuntimeState)
    (es : List CommanderDirectoryEntry)
    → es ≡ []
    → any (λ row. row.focused) (map (to_file_row w p) es)
      ≡ (same_pane w.active_pane p.id && not (is_nil es))
unfolding any
none-focused w p [] e = ground arith
none-focused w p (x ∷ es) e = cc

none-selected :
    (w : CommanderWidgetRuntimeState) (p : CommanderPaneRuntimeState) (id : Text)
    (es : List CommanderDirectoryEntry)
    → es ≡ []
    → any (λ row. row.selected && text_eq row.id id) (map (to_file_row w p) es)
      ≡ (includes p.selected_ids id && not (is_nil es))
unfolding any
none-selected w p id [] e = ground arith
none-selected w p id (x ∷ es) e = cc

-- Of a pane that has no rows, or has its cursor, its anchor and its selection on its rows: some row is
-- shown as focused exactly if the pane is the active one and has rows; and of each id, a row of that
-- id is shown as selected exactly if the id is selected and the pane has rows.
pub to_pane_view_state-marks :
    (w : CommanderWidgetRuntimeState) (p : CommanderPaneRuntimeState) (home : Option Text)
    → IsSettled p
    → let rows = (to_pane_view_state w p home).rows in
      (any (λ row. row.focused) rows ≡ (same_pane w.active_pane p.id && not (is_nil p.entries)))
      × ((id : Text)
          → any (λ row. row.selected && text_eq row.id id) rows
            ≡ (includes p.selected_ids id && not (is_nil p.entries)))
unfolding to_pane_view_state
to_pane_view_state-marks w p home (inl e) =
    (none-focused w p p.entries e, λ id. none-selected w p id p.entries e)
to_pane_view_state-marks w p home (inr g) =
    let (cursor, at, shown) = g.cursor in
    (
      any-focused w p cursor p.entries at ∙ ground (arith, shown, rows_nonempty g),
      λ id.
          any-selected w p id p.entries
          ∙ ground
              (arith, rows_nonempty g, Shown-of_includes p.entries p.selected_ids id g.selected),
    )
