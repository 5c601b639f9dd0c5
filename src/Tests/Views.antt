-- ===== src/Tests/Views.antt =====
-- What a pane shows, at a concrete pane.
use rune_terminal.Base.{◌≡◌, refl, inr, not, ◌&&◌, none, some, any, is_nil}
use rune_terminal.Text.{Text, text, text_eq, includes, decimal, decimal_from, starts_with}
use rune_terminal.Commander.Types.{CommanderPaneRuntimeState}
use rune_terminal.Commander.Selection.Grounded.{IsSettled}
use rune_terminal.Commander.ParentPath.{normalize_slashes, trim_slashes, drop_slashes}
use rune_terminal.Commander.ViewModel.{
  same_pane, format_selected_size, to_fixed_1, trim_trailing_separators, is_drive_root,
  format_runtime_path_for_display, to_pane_view_state,
}
use rune_terminal.Commander.ViewModel.Marking.{to_pane_view_state-marks}
use rune_terminal.Tests.Fixtures.{ascii, pane_of_u, widget_w1}

abbrev pane : CommanderPaneRuntimeState
pane = record pane_of_u { selection_anchor_entry_id = some (text "docs") }

pane-IsSettled : IsSettled pane
unfolding includes any text_eq
pane-IsSettled = inr (record {
  cursor = (text "docs", refl, refl);
  anchor = (text "docs", refl, refl);
  selected = (refl, (refl, tt));
})

to_pane_view_state-marks_example :
    let rows = (to_pane_view_state widget_w1 pane none).rows in
    (any (λ row. row.focused) rows
      ≡ (same_pane widget_w1.active_pane pane.id && not (is_nil pane.entries)))
    × ((id : Text)
        → any (λ row. row.selected && text_eq row.id id) rows
          ≡ (includes pane.selected_ids id && not (is_nil pane.entries)))
to_pane_view_state-marks_example = to_pane_view_state-marks widget_w1 pane none pane-IsSettled

kilobytes : format_selected_size 1587 ≡ text "1.5 KB"
unfolding format_selected_size to_fixed_1 decimal decimal_from
kilobytes = refl

at_home : format_runtime_path_for_display (text "/home/u/src/") (text "/home/u") ≡ text "~/src"
unfolding format_runtime_path_for_display trim_trailing_separators is_drive_root normalize_slashes
    text_eq trim_slashes drop_slashes starts_with
at_home = refl
