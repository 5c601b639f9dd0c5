-- ===== src/Agent/Context/Selection.antt =====
-- The widgets that stay selected as context: `filterContextWidgetSelection` of
-- frontend/src/features/agent/model/agent-panel-context.ts.
use rune_terminal.Base.{
  ◌≡◌, Bool, not, ◌&&◌, ◌||◌, List, [], ◌∷◌, ◌++◌, arith, map, any, inl, inr, Bool-cases,
}
use rune_terminal.Text.{
  Text, text_eq, text_eq_iff, is_empty, trim, includes, includes-append, includes-cons,
  includes-nil, includes-filter, Distinct, Distinct-append, Distinct-filter,
}
use rune_terminal.Agent.Context.{
  AiContextWidgetOption, deduplicate_from, deduplicate_widget_ids, filter_context_widget_selection,
}

-- A name that is not empty is one of the ids, trimmed.
abbrev pub is_named : List Text → Text → Bool
is_named ids id = any (λ s. text_eq (trim s) id) ids && not (is_empty id)

includes-deduplicate :
    (accumulator ids : List Text) (id : Text)
    → includes (deduplicate_from accumulator ids) id ≡ (includes accumulator id || is_named ids id)
unfolding deduplicate_from any
includes-deduplicate accumulator [] id = ground arith
includes-deduplicate accumulator (s ∷ ids) id = ground (
  arith,
  includes-deduplicate accumulator ids id,
  includes-deduplicate (accumulator ++ trim s ∷ []) ids id,
  includes-append accumulator (trim s ∷ []) id,
  includes-cons (trim s) id [],
  includes-nil id,
  text_eq_iff (trim s) id,
)

deduplicate-Distinct :
    (accumulator ids : List Text)
    → Distinct accumulator
    → Distinct (deduplicate_from accumulator ids)
unfolding deduplicate_from
deduplicate-Distinct accumulator [] d = d
deduplicate-Distinct accumulator (s ∷ ids) d =
    elim (Bool-cases (is_empty (trim s) || includes accumulator (trim s))) [
      | inl skipped ↦ rw skipped (deduplicate-Distinct accumulator ids d)
      | inr added ↦ rw added (
          deduplicate-Distinct (accumulator ++ trim s ∷ []) ids
            (Distinct-append accumulator (trim s) d (ground (arith, added))))
    ]

-- Whatever is selected, with blanks around it, twice or not at all: no id occurs twice in the selection
-- that is left, and an id is in it exactly if it is not empty, was selected, and is that of an option.
pub filter_context_widget_selection_lem :
    (selected : List Text) (options : List AiContextWidgetOption)
    → Distinct (filter_context_widget_selection selected options)
      × ((id : Text)
          → includes (filter_context_widget_selection selected options) id
            ≡ (is_named selected id && includes (map (λ option. option.value) options) id))
unfolding filter_context_widget_selection deduplicate_widget_ids
filter_context_widget_selection_lem selected options =
    let values = map (λ option. option.value) options in
    (
      Distinct-filter (includes values) (deduplicate_from [] selected)
          (deduplicate-Distinct [] selected tt),
      λ id. ground (
        arith,
        includes-filter (includes values) (deduplicate_from [] selected) id,
        includes-deduplicate [] selected id,
        includes-nil id,
      ),
    )
