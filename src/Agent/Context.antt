-- ===== src/Agent/Context.antt =====
-- The widgets that an agent is given as context:
-- frontend/src/features/agent/model/agent-panel-context.ts, but for the summaries.
pub mod Selection
pub mod Terminals
pub mod Widgets
use mathlib.Core.List.{reverse}
use rune_terminal.Base.{
  Bool, not, ◌||◌, Option, none, some, List, [], ◌∷◌, ◌++◌, map, filter, find?, if◌then◌else◌, take,
  drop,
}
use rune_terminal.Text.{Text, text, text_eq, is_empty, trim, includes}
use rune_terminal.Locale.{Locale, lower_case, upper_case}
use rune_terminal.Agent.Conversation.{trimmed}
use rune_terminal.Agent.MessageView.{join_dots}

-- `WorkspaceWidgetSnapshot`
pub record WorkspaceWidgetSnapshot : Type 0 where
  pub id : Text
  pub kind : Text
  pub title : Text
  pub description : Option Text
  pub terminal_id : Option Text
  pub connection_id : Option Text
  pub path : Option Text

pub record AiContextWidgetOption : Type 0 where
  pub value : Text
  pub label : Text
  pub title : Option Text
  pub meta : Option Text
  pub group : Option Text

unfoldable pub deduplicate_from : (accumulator ids : List Text) → List Text
deduplicate_from accumulator [] = accumulator
deduplicate_from accumulator (id ∷ ids) =
    let skipped = deduplicate_from accumulator ids in
    let added = deduplicate_from (accumulator ++ trim id ∷ []) ids in
    if is_empty (trim id) || includes accumulator (trim id) then skipped else added

unfoldable pub deduplicate_widget_ids : List Text → List Text
deduplicate_widget_ids ids = deduplicate_from [] ids

-- `widget.title?.trim() || widget.id`
unfoldable pub widget_title : WorkspaceWidgetSnapshot → Text
widget_title widget = if is_empty (trim widget.title) then widget.id else trim widget.title

-- the value trimmed, if there is one that is not blank
unfoldable pub push_trimmed : Option Text → List Text
push_trimmed value = elim (trimmed value) [ none ↦ [] | some part ↦ part ∷ [] ]

unfoldable pub format_context_widget_label : WorkspaceWidgetSnapshot → Text
format_context_widget_label widget =
    let meta =
      join_dots (widget.kind ∷ push_trimmed widget.connection_id ++ push_trimmed widget.path) in
    if text_eq (widget_title widget) widget.id
    then widget_title widget ++ text " · " ++ meta
    else widget_title widget ++ text " (" ++ widget.id ++ text ") · " ++ meta

-- `new Set(ids).has(id)` of the values of the options
unfoldable pub filter_context_widget_selection : List Text → List AiContextWidgetOption → List Text
filter_context_widget_selection selected options =
    filter (includes (map (λ option. option.value) options)) (deduplicate_widget_ids selected)

-- The map of the widgets by their ids keeps the last one of an id.
unfoldable pub get_widget : Text → List WorkspaceWidgetSnapshot → Option WorkspaceWidgetSnapshot
get_widget id widgets = find? (λ widget. text_eq widget.id id) (reverse widgets)

module _ ⦃l : Locale⦄ where
  unfoldable pub format_context_widget_group : Text → Text
  format_context_widget_group widget_kind =
      let kind = trim widget_kind in
      if text_eq (lower_case kind) (text "terminal")
      then text "Terminal widgets"
      else if text_eq (lower_case kind) (text "commander")
      then text "Commander widgets"
      else if text_eq (lower_case kind) (text "ai")
      then text "AI widgets"
      else if is_empty kind
      then text "Other widgets"
      else upper_case (take 1 kind) ++ drop 1 kind ++ text " widgets"

  unfoldable pub map_context_widget_option : WorkspaceWidgetSnapshot → AiContextWidgetOption
  map_context_widget_option widget =
      let title = widget_title widget in
      let kinds = widget.kind ∷ [] in
      let meta = if text_eq widget.id title then kinds else widget.id ∷ kinds in
      record {
        value = widget.id;
        label = format_context_widget_label widget;
        title = some title;
        meta =
            some
              (join_dots (meta ++ push_trimmed widget.connection_id ++ push_trimmed widget.path));
        group = some (format_context_widget_group widget.kind);
      }

  unfoldable pub map_context_widget_options :
      List WorkspaceWidgetSnapshot → List AiContextWidgetOption
  map_context_widget_options widgets = map map_context_widget_option widgets

  unfoldable pub is_terminal_workspace_widget : WorkspaceWidgetSnapshot → Bool
  is_terminal_workspace_widget widget = text_eq (lower_case (trim widget.kind)) (text "terminal")

  -- the loop over the candidates
  unfoldable pub first_terminal :
      List WorkspaceWidgetSnapshot → List Text → Option WorkspaceWidgetSnapshot
  first_terminal widgets [] = none
  first_terminal widgets (id ∷ ids) =
      let rest = first_terminal widgets ids in
      elim (get_widget id widgets) [
        | none ↦ rest
        | some widget ↦ if is_terminal_workspace_widget widget then some widget else rest
      ]

  unfoldable pub resolve_context_terminal_widget :
      List WorkspaceWidgetSnapshot → List Text → Option WorkspaceWidgetSnapshot
  resolve_context_terminal_widget widgets candidates =
      first_terminal widgets (deduplicate_widget_ids candidates)
