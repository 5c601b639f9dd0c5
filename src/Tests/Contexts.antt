-- ===== src/Tests/Contexts.antt =====
-- The theorems on the widgets of a context at concrete inputs.
use rune_terminal.Base.{none, some, List, [], ◌∷◌}
use rune_terminal.Text.{Text, text}
use rune_terminal.Agent.Context.{
  WorkspaceWidgetSnapshot, AiContextWidgetOption, resolve_context_terminal_widget,
  map_context_widget_options,
}
use rune_terminal.Agent.Context.Terminals.{
  Resolves, candidate_names, resolve_context_terminal_widget-Resolves,
}
use rune_terminal.Tests.Fixtures.{ascii}

abbrev widget : Text → Text → WorkspaceWidgetSnapshot
widget id kind = record {
  id = id;
  kind = kind;
  title = text "shell";
  description = none;
  terminal_id = none;
  connection_id = some (text "ssh");
  path = none;
}

abbrev widgets : List WorkspaceWidgetSnapshot
widgets = widget (text "w1") (text "ai") ∷ widget (text "w2") (text " Terminal") ∷ []

abbrev options : List AiContextWidgetOption
options = map_context_widget_options widgets

abbrev candidates : List Text
candidates = text " w1" ∷ text "w9" ∷ text "w2 " ∷ text "w1" ∷ text " " ∷ []

resolve_context_terminal_widget-Resolves_example :
    Resolves widgets
      (candidate_names candidates)
      (resolve_context_terminal_widget widgets candidates)
resolve_context_terminal_widget-Resolves_example =
    resolve_context_terminal_widget-Resolves widgets candidates
