-- ===== src/Commander/Confirm/Stepping.antt =====
-- Stepping through the matches of the quick search, there and back:
-- stepCommanderWidgetPendingSearchMatch of frontend/src/features/commander/model/store-operations.ts.
use mathlib.Core.Option
use rune_terminal.Base.{
  ℕ, zero, suc, min, ◌<◌, ◌≡◌, refl, sym, ap, ◌∙◌, inl, inr, true, false, Option, some, List, [],
  ◌∷◌, arith, Bool-cases, Option-cases, All, length, get_elem?, take, lt-length_of_get_elem?,
  find_idx?, find_idx?_sound, get_or,
}
use rune_terminal.Text.{
  Text, text_eq, text_eq_refl, eq_of_text_eq, truthy, is_empty, includes, includes-cons, Distinct,
}
use rune_terminal.Locale.{Locale}
use rune_terminal.Commander.Types.{
  CommanderPaneId, CommanderPendingOperation, CommanderSearchPendingOperation,
  CommanderWidgetRuntimeState, search, left, right,
}
use rune_terminal.Commander.Navigation.{get_pane_state, update_pane_state}
use rune_terminal.Commander.Navigation.Panes.{get-update_pane_state}
use rune_terminal.Commander.Selection.{
  get_commander_search_matches, get_commander_resolved_search_match_index,
}
use rune_terminal.Commander.Operations.{with_operation}
use rune_terminal.Commander.Confirm.{SearchDelta, wrapped_index, place_cursor, step_search}
use rune_terminal.Commander.Confirm.Wrapping.{opposite, wrapped_index-lt, wrapped_index-opposite}

abbrev resolve : List Text → Option Text → Option ℕ → Option ℕ
resolve = get_commander_resolved_search_match_index

clamped-lt : (m n i : ℕ) → some (min m n) ≡ some i → i < suc n
clamped-lt m n i h = ground arith

includes_of_get_elem? :
    (ids : List Text) (i : ℕ) (id : Text) → get_elem? ids i ≡ some id → includes ids id ≡ true
includes_of_get_elem? [] i id h = cc
includes_of_get_elem? (x ∷ ids) zero id h =
    rw (Option.some-injective _ _ h) (rw (includes-cons, text_eq_refl) refl)
includes_of_get_elem? (x ∷ ids) (suc i) id h =
    rw includes-cons (ground (arith, includes_of_get_elem? ids i id h))

resolve-lt :
    (ids : List Text) (cursor : Option Text) (fallback : Option ℕ) (i : ℕ)
    → resolve ids cursor fallback ≡ some i
    → i < length ids
unfolding get_commander_resolved_search_match_index
resolve-lt [] cursor fallback i h = cc
resolve-lt (first ∷ rest) cursor fallback i h = elim (Option-cases (truthy cursor)) [
  | inl e ↦
      clamped-lt (get_or fallback 0) (length rest) i
        (rw (e, get_commander_resolved_search_match_index) at h)
  | inr (id, e) ↦ elim (Option-cases (find_idx? (λ x. text_eq x id) (first ∷ rest))) [
    | inl missed ↦
        clamped-lt (get_or fallback 0) (length rest) i
          (rw missed at (rw (e, get_commander_resolved_search_match_index) at h))
    | inr (j, found) ↦
        let (_, there, _) = find_idx?_sound _ (first ∷ rest) found in
        let same : j ≡ i =
          Option.some-injective _ _
            (rw found at (rw (e, get_commander_resolved_search_match_index) at h)) in
        rw (← same) (lt-length_of_get_elem? (first ∷ rest) j there)
  ]
]

-- distinct ids are found where they stand
find-get_elem? :
    (ids : List Text) (i : ℕ) (id : Text)
    → Distinct ids
    → get_elem? ids i ≡ some id
    → find_idx? (λ e. text_eq e id) ids ≡ some i
unfolding find_idx?
find-get_elem? [] i id d h = cc
find-get_elem? (x ∷ ids) zero id d h = rw (Option.some-injective _ _ h) (rw text_eq_refl refl)
find-get_elem? (x ∷ ids) (suc i) id (absent, d) h = elim (Bool-cases (text_eq x id)) [
  | inr e ↦ rw (e, find-get_elem? ids i id d h) refl
  | inl e ↦
      let there : includes ids x ≡ true =
        rw (eq_of_text_eq x id e) (includes_of_get_elem? ids i id h) in
      absurd (ground arith)
]

resolve_found :
    (ids : List Text) (id : Text) (i : ℕ)
    → is_empty id ≡ false
    → find_idx? (λ e. text_eq e id) ids ≡ some i
    → resolve ids (some id) (some i) ≡ some i
unfolding get_commander_resolved_search_match_index
resolve_found [] id i filled h = unfold find_idx? in cc
resolve_found (x ∷ ids) [] i filled h = cc
resolve_found (x ∷ ids) (c ∷ s) i filled h = rw h refl

filled_at :
    (ids : List Text) (i : ℕ)
    → All (λ id. is_empty id ≡ false) ids
    → i < length ids
    → (id : Text) × (get_elem? ids i ≡ some id)
      × (truthy (get_elem? ids i) ≡ some id)
      × (is_empty id ≡ false)
filled_at [] i h lt = absurd (omega arith)
filled_at ([] ∷ ids) zero (p, h) lt = cc
filled_at ((c ∷ s) ∷ ids) zero (p, h) lt = (c ∷ s, refl, refl, refl)
filled_at (x ∷ ids) (suc i) (p, h) lt = filled_at ids i h (omega arith)

module _ ⦃l : Locale⦄ where
  abbrev pub ids_of : CommanderWidgetRuntimeState → CommanderSearchPendingOperation → List Text
  ids_of w op =
      (get_commander_search_matches (get_pane_state w op.source_pane_id) op.input_value).entry_ids

  abbrev pub current_of : CommanderWidgetRuntimeState → CommanderSearchPendingOperation → Option ℕ
  current_of w op =
      resolve (ids_of w op) (get_pane_state w op.source_pane_id).cursor_entry_id op.match_index

  abbrev stepped_op :
      CommanderWidgetRuntimeState
      → CommanderSearchPendingOperation
      → ℕ
      → CommanderSearchPendingOperation
  stepped_op w op i = record op {
    match_count = length (ids_of w op);
    match_preview =
        take 6
          (get_commander_search_matches (get_pane_state w op.source_pane_id)
            op.input_value).entry_names;
    match_index = some i;
  }

  abbrev stepped :
      CommanderWidgetRuntimeState
      → CommanderSearchPendingOperation
      → Text
      → ℕ
      → CommanderWidgetRuntimeState
  stepped w op id i =
      with_operation (update_pane_state w op.source_pane_id (place_cursor id))
        (search (stepped_op w op i))

  step_at :
      (w : CommanderWidgetRuntimeState) (op : CommanderSearchPendingOperation) (d : SearchDelta)
      (current : ℕ) (id : Text)
      → current_of w op ≡ some current
      → truthy (get_elem? (ids_of w op) (wrapped_index current d (length (ids_of w op)))) ≡ some id
      → step_search w op d ≡ some (stepped w op id (wrapped_index current d (length (ids_of w op))))
  unfolding step_search
  step_at w op d current id r t = rw (r, step_search) (rw t refl)

  get-stepped :
      (w : CommanderWidgetRuntimeState) (op : CommanderPendingOperation) (id : CommanderPaneId)
      → get_pane_state (with_operation w op) id ≡ get_pane_state w id
  unfolding get_pane_state
  get-stepped w op left = refl
  get-stepped w op right = refl

  pane-stepped :
      (w : CommanderWidgetRuntimeState) (op : CommanderSearchPendingOperation) (id : Text) (i : ℕ)
      → get_pane_state (stepped w op id i) op.source_pane_id
        ≡ place_cursor id (get_pane_state w op.source_pane_id)
  pane-stepped w op id i =
      get-stepped _ _ op.source_pane_id
      ∙ get-update_pane_state w op.source_pane_id (place_cursor id)

  ids-stepped :
      (w : CommanderWidgetRuntimeState) (op : CommanderSearchPendingOperation) (id : Text) (i : ℕ)
      → ids_of (stepped w op id i) (stepped_op w op i) ≡ ids_of w op
  unfolding get_commander_search_matches place_cursor
  ids-stepped w op id i =
      ap (λ p. (get_commander_search_matches p op.input_value).entry_ids) (pane-stepped w op id i)

  -- the match that a step leads to
  landing :
      (w : CommanderWidgetRuntimeState) (op : CommanderSearchPendingOperation) (d : SearchDelta)
      (current : ℕ)
      → All (λ id. is_empty id ≡ false) (ids_of w op)
      → current_of w op ≡ some current
      → (id : Text) × (get_elem? (ids_of w op) (wrapped_index current d (length (ids_of w op)))
          ≡ some id)
        × (step_search w op d
            ≡ some (stepped w op id (wrapped_index current d (length (ids_of w op)))))
        × (is_empty id ≡ false)
  landing w op d current filled r =
      let below = resolve-lt (ids_of w op) _ op.match_index current r in
      let (id, at, shown, full) =
        filled_at (ids_of w op) _ filled (wrapped_index-lt current d _ below) in
      (id, at, step_at w op d current id r shown, full)

  -- the cursor of a stepped widget is on the match, so the next step starts there
  current-stepped :
      (w : CommanderWidgetRuntimeState) (op : CommanderSearchPendingOperation) (id : Text) (i : ℕ)
      → Distinct (ids_of w op)
      → is_empty id ≡ false
      → get_elem? (ids_of w op) i ≡ some id
      → current_of (stepped w op id i) (stepped_op w op i) ≡ some i
  unfolding get_commander_search_matches place_cursor
  current-stepped w op id i d filled at =
      ap
        (λ p.
          resolve (get_commander_search_matches p op.input_value).entry_ids p.cursor_entry_id
            (some i))
        (pane-stepped w op id i)
      ∙ resolve_found (ids_of w op) id i filled (find-get_elem? (ids_of w op) i id d at)

  -- For a search whose matches have different ids, none of them empty, and that resolves to the match
  -- with the index `current`: a step in either direction and then a step the other way both succeed
  -- and put the cursor on that match.
  pub step_search-opposite :
      (w : CommanderWidgetRuntimeState) (op : CommanderSearchPendingOperation) (d : SearchDelta)
      (current : ℕ)
      → Distinct (ids_of w op)
      → All (λ id. is_empty id ≡ false) (ids_of w op)
      → current_of w op ≡ some current
      → (there back : CommanderWidgetRuntimeState) × (op' : CommanderSearchPendingOperation)
        × (step_search w op d ≡ some there)
        × (there.pending_operation ≡ some (search op'))
        × (step_search there op' (opposite d) ≡ some back)
        × ((get_pane_state back op.source_pane_id).cursor_entry_id
            ≡ get_elem? (ids_of w op) current)
  unfolding place_cursor
  step_search-opposite w op d current distinct filled r =
      let (id, at, first_step, full) = landing w op d current filled r in
      let i = wrapped_index current d (length (ids_of w op)) in
      let there = stepped w op id i in
      let op' = stepped_op w op i in
      let same = ids-stepped w op id i in
      let (id', at', second_step, _) =
        landing there op' (opposite d) i (rw same filled)
          (current-stepped w op id i distinct full at) in
      let below = resolve-lt (ids_of w op) _ op.match_index current r in
      (
        there,
        _,
        op',
        first_step,
        refl,
        second_step,
        ap (λ p. p.cursor_entry_id) (pane-stepped there op' id' _)
            ∙ sym at'
            ∙ rw same (ap (get_elem? (ids_of w op)) (wrapped_index-opposite current d _ below)),
      )
