-- ===== src/Agent/Context/Terminals.antt =====
-- The terminal that a prompt goes to: `resolveContextTerminalWidget` of
-- frontend/src/features/agent/model/agent-panel-context.ts.
use rune_terminal.Base.{
  ◌≡◌, refl, sym, ap, ◌∙◌, ◌⊎◌, true, false, not, Option, none, some, List, [], ◌∷◌, ◌++◌, arith,
  map, filter, All, inl, inr, Bool-cases, Option-cases, if◌then◌else◌,
}
use mathlib.Core.Option
use mathlib.Core.Path.{subst}
use mathlib.Core.List.{append_assoc, append-nil}
use rune_terminal.Text.{
  Text, text, text_eq, text_eq_iff, is_empty, trim, includes, includes-cons, includes-nil,
}
use rune_terminal.Locale.{Locale, lower_case}
use rune_terminal.Agent.Context.{
  WorkspaceWidgetSnapshot, deduplicate_from, deduplicate_widget_ids, first_terminal, get_widget,
  is_terminal_workspace_widget, resolve_context_terminal_widget,
}
use rune_terminal.Agent.Context.Widgets.{or_first, get_widget-last, get_widget_found}

-- the candidates as they are, without their blanks and those that are nothing but blanks
abbrev pub candidate_names : List Text → List Text
candidate_names ids = filter (λ id. not (is_empty id)) (map trim ids)

module _ ⦃l : Locale⦄ (widgets : List WorkspaceWidgetSnapshot) where
  -- the widget of a name, if it is a terminal
  chosen : Text → Option WorkspaceWidgetSnapshot
  chosen id = elim (get_widget id widgets) [
    | none ↦ none
    | some w ↦ if is_terminal_workspace_widget w then some w else none
  ]

  or_first-choice :
      (found rest : Option WorkspaceWidgetSnapshot)
      → (elim found as (λ _. Option WorkspaceWidgetSnapshot) [
        | none ↦ rest
        | some w ↦ if is_terminal_workspace_widget w then some w else rest
      ])
        ≡ or_first
            (elim found as (λ _. Option WorkspaceWidgetSnapshot) [
              | none ↦ none
              | some w ↦ if is_terminal_workspace_widget w then some w else none
            ])
            rest
  or_first-choice none rest = refl
  or_first-choice (some w) rest = ground arith

  first_terminal-cons :
      (id : Text) (ids : List Text)
      → first_terminal widgets (id ∷ ids) ≡ or_first (chosen id) (first_terminal widgets ids)
  unfolding first_terminal chosen
  first_terminal-cons id ids = or_first-choice (get_widget id widgets) (first_terminal widgets ids)

  first_terminal-append :
      (xs ys : List Text)
      → first_terminal widgets (xs ++ ys)
        ≡ or_first (first_terminal widgets xs) (first_terminal widgets ys)
  first_terminal-append [] ys = unfold first_terminal in refl
  first_terminal-append (x ∷ xs) ys = ground (
    arith,
    first_terminal-cons x (xs ++ ys),
    first_terminal-cons x xs,
    first_terminal-append xs ys,
  )

  -- A name that stands further in front changes nothing.
  first_terminal-again :
      (xs : List Text) (id : Text) (ys : List Text)
      → includes xs id ≡ true
      → or_first (first_terminal widgets xs) (first_terminal widgets (id ∷ ys))
        ≡ or_first (first_terminal widgets xs) (first_terminal widgets ys)
  first_terminal-again [] id ys h = ground (arith, h, includes-nil id)
  first_terminal-again (x ∷ xs) id ys h = ground (
    arith,
    h,
    includes-cons x id xs,
    text_eq_iff x id,
    first_terminal-cons x xs,
    first_terminal-cons id ys,
    first_terminal-again xs id ys,
  )

  first_terminal-deduplicate :
      (accumulator ids : List Text)
      → first_terminal widgets (deduplicate_from accumulator ids)
        ≡ first_terminal widgets (accumulator ++ candidate_names ids)
  unfolding deduplicate_from filter
  first_terminal-deduplicate accumulator [] = rw (append-nil accumulator) refl
  first_terminal-deduplicate accumulator (s ∷ ids) = elim (Bool-cases (is_empty (trim s))) [
    | inl blank ↦ rw blank (first_terminal-deduplicate accumulator ids)
    | inr named ↦ rw named (elim (Bool-cases (includes accumulator (trim s))) [
      | inl seen ↦ rw seen (
          first_terminal-deduplicate accumulator ids
          ∙ first_terminal-append accumulator (candidate_names ids)
          ∙ sym (first_terminal-again accumulator (trim s) (candidate_names ids) seen)
          ∙ sym (first_terminal-append accumulator (trim s ∷ candidate_names ids)))
      | inr fresh ↦ rw fresh (
          first_terminal-deduplicate (accumulator ++ trim s ∷ []) ids
          ∙ ap (first_terminal widgets)
              (append_assoc accumulator (trim s ∷ []) (candidate_names ids)))
    ])
  ]

  -- The last widget of an id is a terminal.
  abbrev pub NamesTerminal : Text → WorkspaceWidgetSnapshot → Type 0
  NamesTerminal id w =
      (before after : List WorkspaceWidgetSnapshot) × (widgets ≡ before ++ w ∷ after)
      × (w.id ≡ id)
      × All (λ v. text_eq v.id id ≡ false) after
      × (lower_case (trim w.kind) ≡ text "terminal")

  -- The result is the terminal of the first id that names one, or there is none.
  abbrev pub Resolves : List Text → Option WorkspaceWidgetSnapshot → Type 0
  Resolves [] result = result ≡ none
  Resolves (id ∷ ids) result =
      ((w : WorkspaceWidgetSnapshot) × NamesTerminal id w × (result ≡ some w))
      ⊎ (((w : WorkspaceWidgetSnapshot) → ¬ NamesTerminal id w) × Resolves ids result)

  NamesTerminal-get_widget :
      (id : Text) (w : WorkspaceWidgetSnapshot)
      → NamesTerminal id w
      → (get_widget id widgets ≡ some w) × (is_terminal_workspace_widget w ≡ true)
  unfolding is_terminal_workspace_widget
  NamesTerminal-get_widget id w (before, after, e, same, last, kind) = (
    rw e (get_widget-last id before w after ((text_eq_iff w.id id).1 same) last),
    (text_eq_iff (lower_case (trim w.kind)) (text "terminal")).1 kind,
  )

  named_or_not :
      (id : Text)
      → ((w : WorkspaceWidgetSnapshot) × NamesTerminal id w × (chosen id ≡ some w))
        ⊎ (((w : WorkspaceWidgetSnapshot) → ¬ NamesTerminal id w) × (chosen id ≡ none))
  unfolding chosen
  named_or_not id = elim (Option-cases (get_widget id widgets)) [
    | inl e ↦
        inr (
          λ w named. ground (arith, e, (NamesTerminal-get_widget id w named).0),
          rw (chosen, e) refl,
        )
    | inr (w, e) ↦ elim (Bool-cases (is_terminal_workspace_widget w)) [
      | inl kind ↦
          let (before, after, split, same, last) = get_widget_found id widgets w e in
          inl (
            w,
            (
              before,
              after,
              split,
              (text_eq_iff w.id id).0 same,
              last,
              (text_eq_iff (lower_case (trim w.kind)) (text "terminal")).0
                  (unfold is_terminal_workspace_widget in kind),
            ),
            rw (chosen, e, kind) refl,
          )
      | inr other ↦ inr (
        λ v named.
            let (found, kind) = NamesTerminal-get_widget id v named in
            let same : v ≡ w = Option.some-injective _ _ (sym found ∙ e) in
            ground (arith, other, rw same at kind),
        rw (chosen, e, other) refl,
      )
    ]
  ]

  first_terminal-Resolves : (ids : List Text) → Resolves ids (first_terminal widgets ids)
  first_terminal-Resolves [] = unfold first_terminal in refl
  first_terminal-Resolves (id ∷ ids) = elim (named_or_not id) [
    | inl (w, named, e) ↦ inl (w, named, first_terminal-cons id ids ∙ rw e refl)
    | inr (unnamed, e) ↦ inr (
      unnamed,
      subst (Resolves ids) (sym (first_terminal-cons id ids ∙ rw e refl))
          (first_terminal-Resolves ids),
    )
  ]

  -- The candidates count without the blanks around them, and those that are blank not at all. The first
  -- of them, in their order, that is the id of a terminal is resolved: of the widgets with that id the
  -- last one, if its kind is "terminal", in whatever case and with blanks around it. If no candidate is
  -- such an id, there is no result.
  pub resolve_context_terminal_widget-Resolves :
      (candidates : List Text)
      → Resolves (candidate_names candidates) (resolve_context_terminal_widget widgets candidates)
  unfolding resolve_context_terminal_widget deduplicate_widget_ids
  resolve_context_terminal_widget-Resolves candidates =
      subst (Resolves (candidate_names candidates)) (sym (first_terminal-deduplicate [] candidates))
        (first_terminal-Resolves (candidate_names candidates))
