-- ===== src/Commander/Store/Searching.antt =====
-- The quick search and the masks keep a widget sound: the local flows of
-- frontend/src/features/commander/model/store-operations.ts.
use rune_terminal.Base.{
  ℕ, zero, suc, refl, inl, inr, Option, none, some, List, [], ◌∷◌, Bool-cases, Option-cases,
  get_elem?, All, All-filter, length,
}
use rune_terminal.Text.{Text, truthy, trim, is_empty}
use rune_terminal.Locale.{Locale, locale_lower_case}
use rune_terminal.Commander.Types.{
  CommanderPaneId, CommanderPaneRuntimeState, CommanderWidgetRuntimeState,
  CommanderSearchPendingOperation, CommanderPendingOperation, search,
}
use rune_terminal.Commander.Navigation.{get_pane_state, update_pane_state}
use rune_terminal.Commander.Selection.{
  Matches, matches_of, get_commander_search_matches, get_commander_resolved_search_match_index,
}
use rune_terminal.Commander.Selection.Shown.{Shown, rows-Shown, All-entry_ids}
use rune_terminal.Commander.Operations.{with_operation}
use rune_terminal.Commander.Confirm.{
  SearchDelta, wrapped_index, place_cursor, step_search, step_commander_widget_pending_search_match,
  closed,
}
use rune_terminal.Commander.Store.Updaters.{place_cursor-KeepsRows, place_cursor-IsGrounded}
use rune_terminal.Commander.Store.Soundness.{
  WidgetIsSound, get-IsSound, update-IsSound, IsSound-of_KeepsSound, same_panes-IsSound,
}

-- What an updater returns, if it returns a state.
abbrev pub Holds {ℓ κ} : {A : Type ℓ} → (A → Type κ) → Option A → Type κ
Holds P none = Unit
Holds P (some a) = P a

pub All-get_elem? {ℓ κ} :
    {A : Type ℓ} (P : A → Type κ) (xs : List A) (i : ℕ) → All P xs → Holds P (get_elem? xs i)
All-get_elem? P [] i h = tt
All-get_elem? P (x ∷ xs) zero (p, h) = p
All-get_elem? P (x ∷ xs) (suc i) (p, h) = All-get_elem? P xs i h

pub Holds-truthy : (P : Text → Type 0) (o : Option Text) → Holds P o → Holds P (truthy o)
Holds-truthy P none h = tt
Holds-truthy P (some []) h = tt
Holds-truthy P (some (c ∷ s)) h = h

module _ ⦃l : Locale⦄ where
  -- The matches of a search are visible rows.
  pub get_commander_search_matches-Shown :
      (p : CommanderPaneRuntimeState) (query : Text)
      → All (Shown p.entries) (get_commander_search_matches p query).entry_ids
  unfolding get_commander_search_matches matches_of
  get_commander_search_matches-Shown p query =
      elim (Bool-cases (is_empty (locale_lower_case (trim query)))) [
        | inl e ↦ rw e tt
        | inr e ↦ rw e (
            All-entry_ids (Shown p.entries) _
              (All-filter (λ x. Shown p.entries x.id) _ p.entries (rows-Shown p.entries)))
      ]

  -- The cursor may be placed on a match.
  pub place_match-IsSound :
      (w : CommanderWidgetRuntimeState) (id : CommanderPaneId) (entry_id : Text)
      → Shown (get_pane_state w id).entries entry_id
      → WidgetIsSound w
      → WidgetIsSound (update_pane_state w id (place_cursor entry_id))
  place_match-IsSound w id entry_id shown s =
      update-IsSound w id (place_cursor entry_id)
        (IsSound-of_KeepsSound w (place_cursor entry_id) (get_pane_state w id)
          (place_cursor-KeepsRows entry_id _, place_cursor-IsGrounded entry_id _ shown)
          (get-IsSound id s))
        s

  pub with_operation-IsSound :
      (w : CommanderWidgetRuntimeState) (op : CommanderPendingOperation)
      → WidgetIsSound w
      → WidgetIsSound (with_operation w op)
  with_operation-IsSound w op = same_panes-IsSound (with_operation w op) refl refl refl

  pub closed-IsSound :
      (w : CommanderWidgetRuntimeState) → WidgetIsSound w → WidgetIsSound (closed w)
  closed-IsSound w = same_panes-IsSound (closed w) refl refl refl

  step_search-IsSound :
      (w : CommanderWidgetRuntimeState) (op : CommanderSearchPendingOperation) (delta : SearchDelta)
      → WidgetIsSound w
      → Holds WidgetIsSound (step_search w op delta)
  unfolding step_search
  step_search-IsSound w op delta s =
      elim (Option-cases (
        get_commander_resolved_search_match_index matches.entry_ids
          (get_pane_state w op.source_pane_id).cursor_entry_id op.match_index)) [
            | inl none_found ↦ rw (none_found, step_search) tt
            | inr (current, found) ↦
                let index = wrapped_index current delta (length matches.entry_ids) in
                elim (Option-cases (truthy (get_elem? matches.entry_ids index))) [
                  | inl no_id ↦ rw (found, no_id, step_search) tt
                  | inr (id, at_index) ↦
                      rw (found, at_index, step_search)
                        (with_operation-IsSound _ _ (
                          place_match-IsSound w op.source_pane_id id
                            (rw at_index at (shown_at index)) s))
                ]
          ]
    where
      matches : Matches
      matches = get_commander_search_matches (get_pane_state w op.source_pane_id) op.input_value

      shown_at :
          (i : ℕ)
          → Holds
              (Shown (get_pane_state w op.source_pane_id).entries)
              (truthy (get_elem? matches.entry_ids i))
      shown_at i =
          let p = get_pane_state w op.source_pane_id in
          Holds-truthy (Shown p.entries) (get_elem? matches.entry_ids i) (
            All-get_elem? (Shown p.entries) matches.entry_ids i
              (get_commander_search_matches-Shown p op.input_value))

  pub step_commander_widget_pending_search_match-IsSound :
      (w : CommanderWidgetRuntimeState) (delta : SearchDelta)
      → WidgetIsSound w
      → Holds WidgetIsSound (step_commander_widget_pending_search_match w delta)
  unfolding step_commander_widget_pending_search_match
  step_commander_widget_pending_search_match-IsSound w delta s = on_operation w.pending_operation
    where
      on_operation :
          (o : Option CommanderPendingOperation)
          → Holds WidgetIsSound
              (elim o [ none ↦ none | some (search op) ↦ step_search w op delta | some _ ↦ none ])
      on_operation none = tt
      on_operation (some (search op)) = step_search-IsSound w op delta s
      on_operation (some _) = tt
