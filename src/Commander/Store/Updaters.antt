-- ===== src/Commander/Store/Updaters.antt =====
-- The pane updaters that the handlers of frontend/src/features/commander/model/store.ts apply, each
-- shown to keep the rows of a pane and to keep a grounded pane grounded.
use rune_terminal.Base.{
  refl, sym, ◌∙◌, inl, inr, ℤ, Bool, true, false, if◌then◌else◌, arith, Bool-cases, any,
}
use rune_terminal.Text.{Text, text_eq}
use rune_terminal.Commander.Types.{CommanderPaneRuntimeState}
use rune_terminal.Commander.Selection.{Boundary}
use rune_terminal.Commander.Selection.Shown.{Shown, any-Shown}
use rune_terminal.Commander.Selection.Grounded.{
  IsGrounded, KeepsRows, KeepsRows-refl, move_pane_cursor-KeepsRows, move_pane_cursor-IsGrounded,
  set_cursor_to_boundary-KeepsRows, set_cursor_to_boundary-IsGrounded,
  set_selection_range_at_cursor-KeepsRows, set_selection_range_at_cursor-IsGrounded,
  move_pane_cursor_with_selection-KeepsRows, move_pane_cursor_with_selection-IsGrounded,
  set_cursor_to_boundary_with_selection-KeepsRows, set_cursor_to_boundary_with_selection-IsGrounded,
}
use rune_terminal.Commander.Confirm.{place_cursor}
use rune_terminal.Commander.Handlers.{move_cursor, pane_cursor_updater, boundary_updater}

-- the rows stay, and a grounded pane stays grounded
abbrev pub KeepsSound : (CommanderPaneRuntimeState → CommanderPaneRuntimeState) → Type 0
KeepsSound f =
    (p : CommanderPaneRuntimeState) → KeepsRows p (f p) × (IsGrounded p → IsGrounded (f p))

pub id-KeepsSound : KeepsSound (λ p. p)
id-KeepsSound p = (KeepsRows-refl p, λ g. g)

-- The branches of a test may be shown apart.
if-KeepsSound :
    (b : Bool) (p q r : CommanderPaneRuntimeState)
    → KeepsRows p q × (IsGrounded p → IsGrounded q)
    → KeepsRows p r × (IsGrounded p → IsGrounded r)
    → KeepsRows p (if b then q else r) × (IsGrounded p → IsGrounded (if b then q else r))
if-KeepsSound true p q r h k = h
if-KeepsSound false p q r h k = k

pub move_cursor-KeepsSound : (delta : ℤ) (extend : Bool) → KeepsSound (move_cursor delta extend)
unfolding move_cursor
move_cursor-KeepsSound delta extend p =
    if-KeepsSound extend p _ _
      (
        move_pane_cursor_with_selection-KeepsRows p delta,
        move_pane_cursor_with_selection-IsGrounded p delta,
      )
      (move_pane_cursor-KeepsRows p delta, move_pane_cursor-IsGrounded p delta)

pub boundary_updater-KeepsSound :
    (b : Boundary) (extend : Bool) → KeepsSound (boundary_updater b extend)
unfolding boundary_updater
boundary_updater-KeepsSound b extend p =
    if-KeepsSound extend p _ _
      (
        set_cursor_to_boundary_with_selection-KeepsRows p b,
        set_cursor_to_boundary_with_selection-IsGrounded p b,
      )
      (set_cursor_to_boundary-KeepsRows p b, set_cursor_to_boundary-IsGrounded p b)

-- The cursor may be placed on any row.
pub place_cursor-KeepsRows :
    (id : Text) (p : CommanderPaneRuntimeState) → KeepsRows p (place_cursor id p)
unfolding place_cursor
place_cursor-KeepsRows id p = ground arith

pub place_cursor-IsGrounded :
    (id : Text) (p : CommanderPaneRuntimeState)
    → Shown p.entries id
    → IsGrounded p
    → IsGrounded (place_cursor id p)
unfolding place_cursor
place_cursor-IsGrounded id p shown g = record {
  cursor = (id, refl, shown);
  anchor = (id, refl, shown);
  selected = g.selected;
}

pub pane_cursor_updater-KeepsSound :
    (id : Text) (range : Bool) → KeepsSound (pane_cursor_updater id range)
unfolding pane_cursor_updater
pane_cursor_updater-KeepsSound id range p =
    elim (Bool-cases (any (λ entry. text_eq entry.id id) p.entries)) [
      | inl e ↦ rw e (
          if-KeepsSound range p _ _
            (
              set_selection_range_at_cursor-KeepsRows p id,
              set_selection_range_at_cursor-IsGrounded p id,
            )
            (
              place_cursor-KeepsRows id p,
              place_cursor-IsGrounded id p (sym (any-Shown p.entries id) ∙ e),
            ))
      | inr e ↦ rw e (KeepsRows-refl p, λ g. g)
    ]
