-- ===== src/Commander/Selection/Marks.antt =====
-- Marking rows keeps a pane grounded: `toggleEntrySelection`, `applySelectionMaskToPane` and
-- `invertPaneSelection` of frontend/src/features/commander/model/store-selection.ts.
use rune_terminal.Base.{
  refl, sym, ◌∙◌, inl, inr, Bool, not, Option, List, [], ◌∷◌, ◌++◌, if◌then◌else◌, arith,
  Bool-cases, All, All-filter, All-append, filter, any, or_else,
}
use rune_terminal.Text.{Text, text_eq, includes}
use rune_terminal.Locale.{Locale}
use rune_terminal.Commander.Types.{CommanderDirectoryEntry, CommanderPaneRuntimeState}
use rune_terminal.Commander.PaneState.{entry_ids}
use rune_terminal.Commander.Selection.{
  toggle_entry_selection, SelectionMode, select, unselect, apply_selection_mask_to_pane,
  invert_pane_selection,
}
use rune_terminal.Commander.Selection.Shown.{Shown, OnRow, rows-Shown, any-Shown, All-entry_ids}
use rune_terminal.Commander.Selection.Grounded.{IsGrounded, KeepsRows}

-- The ids of the rows that pass a test are shown.
filter-Shown :
    (es : List CommanderDirectoryEntry) (keep : CommanderDirectoryEntry → Bool)
    → All (Shown es) (entry_ids (filter keep es))
filter-Shown es keep =
    All-entry_ids (Shown es) _ (All-filter (λ e. Shown es e.id) keep es (rows-Shown es))

pub toggle_entry_selection-KeepsRows :
    (p : CommanderPaneRuntimeState) (id : Text) → KeepsRows p (toggle_entry_selection p id)
unfolding toggle_entry_selection
toggle_entry_selection-KeepsRows p id = ground arith

toggled-Shown :
    (p : CommanderPaneRuntimeState) (id : Text)
    → Shown p.entries id
    → All (Shown p.entries) p.selected_ids
    → All (Shown p.entries) (
        if includes p.selected_ids id
        then filter (λ selected. not (text_eq selected id)) p.selected_ids
        else p.selected_ids ++ id ∷ [])
toggled-Shown p id shown h = elim (Bool-cases (includes p.selected_ids id)) [
  | inl e ↦ rw e (All-filter (Shown p.entries) _ p.selected_ids h)
  | inr e ↦ rw e (All-append (Shown p.entries) p.selected_ids (id ∷ []) h (shown, tt))
]

pub toggle_entry_selection-IsGrounded :
    (p : CommanderPaneRuntimeState) (id : Text)
    → IsGrounded p
    → IsGrounded (toggle_entry_selection p id)
unfolding toggle_entry_selection
toggle_entry_selection-IsGrounded p id g =
    elim (Bool-cases (any (λ entry. text_eq entry.id id) p.entries)) [
      | inl e ↦
          let shown : Shown p.entries id = sym (any-Shown p.entries id) ∙ e in
          rw e (record {
            cursor = g.cursor;
            anchor = (id, refl, shown);
            selected = toggled-Shown p id shown g.selected;
          })
      | inr e ↦ rw e g
    ]

-- what is set stays the choice
or_else-OnRow :
    (es : List CommanderDirectoryEntry) (a b : Option Text) → OnRow es a → OnRow es (or_else a b)
or_else-OnRow es a b (i, set, shown) = (i, rw set, shown)

pub invert_pane_selection-KeepsRows :
    (p : CommanderPaneRuntimeState) → KeepsRows p (invert_pane_selection p)
unfolding invert_pane_selection
invert_pane_selection-KeepsRows p = ground arith

pub invert_pane_selection-IsGrounded :
    (p : CommanderPaneRuntimeState) → IsGrounded p → IsGrounded (invert_pane_selection p)
unfolding invert_pane_selection
invert_pane_selection-IsGrounded p g = record {
  cursor = g.cursor;
  anchor = or_else-OnRow p.entries p.cursor_entry_id _ g.cursor;
  selected = filter-Shown p.entries _;
}

module _ ⦃l : Locale⦄ where
  pub apply_selection_mask_to_pane-KeepsRows :
      (p : CommanderPaneRuntimeState) (mask : Text) (mode : SelectionMode)
      → KeepsRows p (apply_selection_mask_to_pane p mask mode)
  unfolding apply_selection_mask_to_pane
  apply_selection_mask_to_pane-KeepsRows p mask mode = ground arith

  pub apply_selection_mask_to_pane-IsGrounded :
      (p : CommanderPaneRuntimeState) (mask : Text) (mode : SelectionMode)
      → IsGrounded p
      → IsGrounded (apply_selection_mask_to_pane p mask mode)
  unfolding apply_selection_mask_to_pane
  apply_selection_mask_to_pane-IsGrounded p mask select g = record {
    cursor = g.cursor;
    anchor = or_else-OnRow p.entries _ _ (or_else-OnRow p.entries _ p.cursor_entry_id g.anchor);
    selected = filter-Shown p.entries _;
  }
  apply_selection_mask_to_pane-IsGrounded p mask unselect g = record {
    cursor = g.cursor;
    anchor = or_else-OnRow p.entries _ _ (or_else-OnRow p.entries _ p.cursor_entry_id g.anchor);
    selected = All-filter (Shown p.entries) _ p.selected_ids g.selected;
  }
