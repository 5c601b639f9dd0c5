-- ===== src/Commander/Selection/Membership.antt =====
-- Which rows the selecting operations mark: `toggleEntrySelection`, `applySelectionMaskToPane`,
-- `invertPaneSelection` and the ranges of frontend/src/features/commander/model/store-selection.ts.
use rune_terminal.Base.{
  ℕ, zero, suc, ◌+◌, min, max, ◌≡◌, refl, sym, ap, ◌∙◌, inl, inr, Bool, true, false, not, ◌&&◌,
  ◌||◌, none, List, [], ◌∷◌, if◌then◌else◌, arith, Bool-cases, filter, any, leb, get_elem?, take,
  drop, slice,
}
use rune_terminal.Text.{
  Text, text_eq, text_eq_iff, text_eq_sym, includes, includes-filter, includes-append,
  includes-cons, includes-nil,
}
use rune_terminal.Locale.{Locale}
use rune_terminal.Commander.Types.{CommanderDirectoryEntry, CommanderPaneRuntimeState}
use rune_terminal.Commander.PaneState.{entry_ids}
use rune_terminal.Commander.Selection.{
  id_at, range_ids, toggle_entry_selection, select, unselect, apply_selection_mask_to_pane,
  invert_pane_selection, get_commander_mask_matches,
}
use rune_terminal.Commander.Selection.Shown.{any-Shown}

-- The id is that of a row.
abbrev pub is_shown : CommanderPaneRuntimeState → Text → Bool
is_shown p id = includes (entry_ids p.entries) id

includes-entry_ids-filter :
    (keep : Text → Bool) (es : List CommanderDirectoryEntry) (id : Text)
    → includes (entry_ids (filter (λ e. keep e.id) es)) id ≡ (includes (entry_ids es) id && keep id)
unfolding filter includes any
includes-entry_ids-filter keep [] id = refl
includes-entry_ids-filter keep (e ∷ es) id =
    ground (arith, includes-entry_ids-filter keep es id, text_eq_iff e.id id)

-- Toggling a row that is shown changes whether that row is selected, and of no other; toggling
-- anything else changes nothing that is selected.
pub toggle_entry_selection-includes :
    (p : CommanderPaneRuntimeState) (id other : Text)
    → includes (toggle_entry_selection p id).selected_ids other ≡ (
        if is_shown p id && text_eq id other
        then not (includes p.selected_ids other)
        else includes p.selected_ids other)
unfolding toggle_entry_selection
toggle_entry_selection-includes p id other =
    elim (Bool-cases (any (λ entry. text_eq entry.id id) p.entries)) [
      | inr e ↦
          let hidden : is_shown p id ≡ false = sym (any-Shown p.entries id) ∙ e in
          rw (e, hidden) refl
      | inl e ↦
          let shown : is_shown p id ≡ true = sym (any-Shown p.entries id) ∙ e in
          rw (e, shown)
            (elim (Bool-cases (includes p.selected_ids id)) [
              | inl there ↦
                  rw (there, includes-filter)
                    (ground (arith, text_eq_iff id other, text_eq_sym id other))
              | inr absent ↦
                  rw (absent, includes-append, includes-cons, includes-nil)
                    (ground (arith, text_eq_iff id other))
            ])
    ]

-- Inverting selects exactly the rows that are shown and were not selected.
pub invert_pane_selection-includes :
    (p : CommanderPaneRuntimeState) (id : Text)
    → includes (invert_pane_selection p).selected_ids id
      ≡ (is_shown p id && not (includes p.selected_ids id))
unfolding invert_pane_selection
invert_pane_selection-includes p id =
    includes-entry_ids-filter (λ i. not (includes p.selected_ids i)) p.entries id

module _ ⦃l : Locale⦄ where
  -- Selecting by a mask selects exactly the rows that were selected or match the mask; unselecting
  -- leaves selected exactly what was selected and does not match.
  pub apply_selection_mask_to_pane-includes :
      (p : CommanderPaneRuntimeState) (mask id : Text)
      → (includes (apply_selection_mask_to_pane p mask select).selected_ids id ≡ (
          is_shown p id
          && (includes p.selected_ids id
              || includes (get_commander_mask_matches p mask).entry_ids id)))
        × (includes (apply_selection_mask_to_pane p mask unselect).selected_ids id ≡ (
            includes p.selected_ids id
            && not (includes (get_commander_mask_matches p mask).entry_ids id)))
  unfolding apply_selection_mask_to_pane
  apply_selection_mask_to_pane-includes p mask id = (
    includes-entry_ids-filter
        (λ i. includes p.selected_ids i || includes (get_commander_mask_matches p mask).entry_ids i)
        p.entries id,
    includes-filter _ p.selected_ids id,
  )

get_elem?-take {ℓ} :
    {A : Type ℓ} (xs : List A) (to i : ℕ)
    → get_elem? (take to xs) i ≡ (if leb (suc i) to then get_elem? xs i else none)
get_elem?-take xs zero i = ground arith
get_elem?-take [] (suc to) i = ground arith
get_elem?-take (x ∷ xs) (suc to) zero = ground arith
get_elem?-take (x ∷ xs) (suc to) (suc i) = ground (arith, get_elem?-take xs to i)

get_elem?-drop {ℓ} :
    {A : Type ℓ} (xs : List A) (from i : ℕ) → get_elem? (drop from xs) i ≡ get_elem? xs (from + i)
get_elem?-drop xs zero i = let same : i ≡ 0 + i = omega arith in ap (get_elem? xs) same
get_elem?-drop [] (suc from) i = refl
get_elem?-drop (x ∷ xs) (suc from) i =
    let step : suc (from + i) ≡ suc from + i = omega arith in
    get_elem?-drop xs from i ∙ ap (get_elem? (x ∷ xs)) step

get_elem?-slice {ℓ} :
    {A : Type ℓ} (xs : List A) (from to i : ℕ)
    → get_elem? (slice xs from to) i
      ≡ (if leb (suc (from + i)) to then get_elem? xs (from + i) else none)
get_elem?-slice xs from to i = get_elem?-drop (take to xs) from i ∙ get_elem?-take xs to (from + i)

get_elem?-entry_ids :
    (es : List CommanderDirectoryEntry) (i : ℕ) → get_elem? (entry_ids es) i ≡ id_at es i
get_elem?-entry_ids [] i = refl
get_elem?-entry_ids (e ∷ es) zero = refl
get_elem?-entry_ids (e ∷ es) (suc i) = get_elem?-entry_ids es i

between :
    (es : List CommanderDirectoryEntry) (from to i : ℕ)
    → get_elem? (entry_ids (slice es from (to + 1))) i
      ≡ (if leb (from + i) to then id_at es (from + i) else none)
between es from to i =
    get_elem?-entry_ids (slice es from (to + 1)) i
    ∙ rw (get_elem?-slice es from (to + 1) i) (ground arith)

-- The range between two rows holds, in the order of the rows, the ids from the upper row to the lower
-- one, both included, whichever of the two is the anchor.
pub get_elem?-range_ids :
    (es : List CommanderDirectoryEntry) (anchor target i : ℕ)
    → get_elem? (range_ids es anchor target) i ≡ (
        if leb (min anchor target + i) (max anchor target)
        then id_at es (min anchor target + i)
        else none)
unfolding range_ids
get_elem?-range_ids es anchor target i = elim (Bool-cases (leb anchor target)) [
  | inl e ↦
      let low : min anchor target ≡ anchor = ground arith in
      let high : max anchor target ≡ target = ground arith in
      rw (e, low, high) (between es anchor target i)
  | inr e ↦
      let low : min anchor target ≡ target = ground arith in
      let high : max anchor target ≡ anchor = ground arith in
      rw (e, low, high) (between es target anchor i)
]
