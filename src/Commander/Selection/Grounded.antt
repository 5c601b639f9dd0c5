-- ===== src/Commander/Selection/Grounded.antt =====
-- The cursor, the anchor and the selection of a pane stay on its visible rows: every operation of
-- frontend/src/features/commander/model/store-selection.ts on one pane.
use rune_terminal.Base.{
  ℕ, ◌+◌, ◌<◌, ◌≡◌, refl, ◌∙◌, ◌⊎◌, inl, inr, Bool, true, false, Option, none, some, List, [], ◌∷◌,
  if◌then◌else◌, arith, Bool-cases, Option-cases, length, ℤ, slice, leb, All, is_nil,
}
use rune_terminal.Text.{Text, includes-nil}
use rune_terminal.Commander.Types.{CommanderDirectoryEntry, CommanderPaneRuntimeState}
use rune_terminal.Commander.PaneState.{entry_ids}
use rune_terminal.Commander.Selection.{
  index_of_id, next_cursor_index, move_pane_cursor, Boundary, set_cursor_to_boundary, range_anchor,
  range_ids, set_selection_range_at_cursor, extend_to, move_pane_cursor_with_selection,
  set_cursor_to_boundary_with_selection,
}
use rune_terminal.Commander.Selection.Shown.{
  Shown, OnRow, rows-Shown, id_at-OnRow, boundary_id-OnRow, index_of_id-Shown, All-take, All-drop,
  All-entry_ids,
}

pub record IsGrounded (p : CommanderPaneRuntimeState) : Type 0 where
  pub cursor : OnRow p.entries p.cursor_entry_id
  pub anchor : OnRow p.entries p.selection_anchor_entry_id
  pub selected : All (Shown p.entries) p.selected_ids

-- Before its directory is loaded a pane has no rows, and what it selects is a stored wish.
abbrev pub IsSettled : CommanderPaneRuntimeState → Type 0
IsSettled p = (p.entries ≡ []) ⊎ IsGrounded p

-- What the operations on the selection leave as it is.
pub record KeepsRows (p q : CommanderPaneRuntimeState) : Type 0 where
  pub entries : q.entries ≡ p.entries
  pub directory_entries : q.directory_entries ≡ p.directory_entries
  pub filter_query : q.filter_query ≡ p.filter_query
  pub path : q.path ≡ p.path

pub move_pane_cursor-KeepsRows :
    (p : CommanderPaneRuntimeState) (delta : ℤ) → KeepsRows p (move_pane_cursor p delta)
unfolding move_pane_cursor
move_pane_cursor-KeepsRows p delta = ground arith

next_cursor_index_lt :
    (p : CommanderPaneRuntimeState) (delta : ℤ)
    → is_nil p.entries ≡ false
    → next_cursor_index p delta < length p.entries
unfolding next_cursor_index
next_cursor_index_lt p delta h = ground arith

pub rows_nonempty : {p : CommanderPaneRuntimeState} → IsGrounded p → is_nil p.entries ≡ false
rows_nonempty {p} g = go p.entries g.cursor
  where
    go : (es : List CommanderDirectoryEntry) → OnRow es p.cursor_entry_id → is_nil es ≡ false
    go [] (i, _, shown) = cc (includes-nil i)
    go (e ∷ es) _ = refl

-- An operation that keeps the rows settles a settled pane if it keeps a grounded one grounded.
pub settle :
    {p q : CommanderPaneRuntimeState}
    → KeepsRows p q
    → (IsGrounded p → IsGrounded q)
    → IsSettled p
    → IsSettled q
settle keeps f (inl e) = inl (keeps.entries ∙ e)
settle keeps f (inr g) = inr (f g)

pub move_pane_cursor-IsGrounded :
    (p : CommanderPaneRuntimeState) (delta : ℤ)
    → IsGrounded p
    → IsGrounded (move_pane_cursor p delta)
unfolding move_pane_cursor
move_pane_cursor-IsGrounded p delta g = rw (rows_nonempty g) (record {
  cursor = id_at-OnRow p.entries _ (next_cursor_index_lt p delta (rows_nonempty g));
  anchor = id_at-OnRow p.entries _ (next_cursor_index_lt p delta (rows_nonempty g));
  selected = g.selected;
})

pub set_cursor_to_boundary-KeepsRows :
    (p : CommanderPaneRuntimeState) (b : Boundary) → KeepsRows p (set_cursor_to_boundary p b)
unfolding set_cursor_to_boundary
set_cursor_to_boundary-KeepsRows p b = ground arith

pub set_cursor_to_boundary-IsGrounded :
    (p : CommanderPaneRuntimeState) (b : Boundary)
    → IsGrounded p
    → IsGrounded (set_cursor_to_boundary p b)
unfolding set_cursor_to_boundary
set_cursor_to_boundary-IsGrounded p b g = rw (rows_nonempty g) (record {
  cursor = boundary_id-OnRow p.entries b (rows_nonempty g);
  anchor = boundary_id-OnRow p.entries b (rows_nonempty g);
  selected = g.selected;
})

pub set_selection_range_at_cursor-KeepsRows :
    (p : CommanderPaneRuntimeState) (target : Text)
    → KeepsRows p (set_selection_range_at_cursor p target)
unfolding set_selection_range_at_cursor
set_selection_range_at_cursor-KeepsRows p target = ground arith

slice-Shown :
    (es : List CommanderDirectoryEntry) (from until : ℕ)
    → All (Shown es) (entry_ids (slice es from until))
slice-Shown es from until =
    All-entry_ids (Shown es) _ (
      All-drop (λ e. Shown es e.id) from _ (All-take (λ e. Shown es e.id) until es (rows-Shown es)))

range_ids-Shown : (es : List CommanderDirectoryEntry) (a t : ℕ) → All (Shown es) (range_ids es a t)
unfolding range_ids
range_ids-Shown es a t = elim (Bool-cases (leb a t)) [
  | inl e ↦ rw e (slice-Shown es a (t + 1))
  | inr e ↦ rw e (slice-Shown es t (a + 1))
]

range_anchor-Shown :
    (p : CommanderPaneRuntimeState) (target : Text)
    → IsGrounded p
    → Shown p.entries (range_anchor p target)
unfolding range_anchor
range_anchor-Shown p target g = let (i, at, shown) = g.anchor in rw at shown

pub set_selection_range_at_cursor-IsGrounded :
    (p : CommanderPaneRuntimeState) (target : Text)
    → IsGrounded p
    → IsGrounded (set_selection_range_at_cursor p target)
unfolding set_selection_range_at_cursor
set_selection_range_at_cursor-IsGrounded p target g =
    elim (Option-cases (index_of_id p.entries target)) [
      | inl missing ↦ rw (missing, set_selection_range_at_cursor) g
      | inr (i, found) ↦
          rw (found, set_selection_range_at_cursor)
            (record {
              cursor = (target, refl, index_of_id-Shown p.entries target found);
              anchor = (range_anchor p target, refl, range_anchor-Shown p target g);
              selected = range_ids-Shown p.entries _ i;
            })
    ]

pub extend_to-KeepsRows :
    (p : CommanderPaneRuntimeState) (id : Option Text) → KeepsRows p (extend_to p id)
unfolding extend_to
extend_to-KeepsRows p none = ground arith
extend_to-KeepsRows p (some []) = ground arith
extend_to-KeepsRows p (some (c ∷ s)) = set_selection_range_at_cursor-KeepsRows p (c ∷ s)

pub extend_to-IsGrounded :
    (p : CommanderPaneRuntimeState) (id : Option Text) → IsGrounded p → IsGrounded (extend_to p id)
unfolding extend_to
extend_to-IsGrounded p none g = g
extend_to-IsGrounded p (some []) g = g
extend_to-IsGrounded p (some (c ∷ s)) g = set_selection_range_at_cursor-IsGrounded p (c ∷ s) g

pub KeepsRows-refl : (p : CommanderPaneRuntimeState) → KeepsRows p p
KeepsRows-refl p = ground arith

-- a guard that leaves a pane without rows alone
KeepsRows-if :
    {p q : CommanderPaneRuntimeState} (b : Bool) → KeepsRows p q → KeepsRows p (if b then p else q)
KeepsRows-if {p} true h = KeepsRows-refl p
KeepsRows-if false h = h

pub move_pane_cursor_with_selection-KeepsRows :
    (p : CommanderPaneRuntimeState) (delta : ℤ)
    → KeepsRows p (move_pane_cursor_with_selection p delta)
unfolding move_pane_cursor_with_selection
move_pane_cursor_with_selection-KeepsRows p delta = KeepsRows-if _ (extend_to-KeepsRows p _)

pub move_pane_cursor_with_selection-IsGrounded :
    (p : CommanderPaneRuntimeState) (delta : ℤ)
    → IsGrounded p
    → IsGrounded (move_pane_cursor_with_selection p delta)
unfolding move_pane_cursor_with_selection
move_pane_cursor_with_selection-IsGrounded p delta g =
    rw (rows_nonempty g) (extend_to-IsGrounded p _ g)

pub set_cursor_to_boundary_with_selection-KeepsRows :
    (p : CommanderPaneRuntimeState) (b : Boundary)
    → KeepsRows p (set_cursor_to_boundary_with_selection p b)
unfolding set_cursor_to_boundary_with_selection
set_cursor_to_boundary_with_selection-KeepsRows p b = KeepsRows-if _ (extend_to-KeepsRows p _)

pub set_cursor_to_boundary_with_selection-IsGrounded :
    (p : CommanderPaneRuntimeState) (b : Boundary)
    → IsGrounded p
    → IsGrounded (set_cursor_to_boundary_with_selection p b)
unfolding set_cursor_to_boundary_with_selection
set_cursor_to_boundary_with_selection-IsGrounded p b g =
    rw (rows_nonempty g) (extend_to-IsGrounded p _ g)
