-- ===== src/Commander/Navigation/History.antt =====
-- Going back and forward through a pane's history, frontend/src/features/commander/model/
-- store-navigation.ts.
use rune_terminal.Base.{
  ◌≡◌, refl, sym, ap, ◌∙◌, inl, inr, false, Option, none, some, List, [], ◌∷◌, ◌++◌, drop_last,
  last?, drop_last-append, last?-append, append-drop_last, Bool-cases,
}
use rune_terminal.Text.{Text, text_eq, eq_of_text_eq, truthy, is_empty}
use rune_terminal.Locale.{Locale}
use rune_terminal.Commander.Types.{CommanderPaneRuntimeState, CommanderWidgetRuntimeState}
use rune_terminal.Commander.PaneState.{rebuild_commander_pane_state, build_commander_pane_state}
use rune_terminal.Commander.Navigation.{
  back, forward, rebuild_pane_state, navigate_pane, navigate_history,
}

-- Where a pane is, and what its history holds on either side.
abbrev pub position : CommanderPaneRuntimeState → Text × List Text × List Text
position p = (p.path, p.history_back, p.history_forward)

truthy_of_filled : (s : Text) → is_empty s ≡ false → truthy (some s) ≡ some s
truthy_of_filled [] h = cc
truthy_of_filled (c ∷ s) h = refl

some_of_truthy : (o : Option Text) {s : Text} → truthy o ≡ some s → o ≡ some s
some_of_truthy none h = cc
some_of_truthy (some []) h = cc
some_of_truthy (some (c ∷ s)) h = h

module _ ⦃l : Locale⦄ where
  pub rebuild_pane_state-path :
      (w : CommanderWidgetRuntimeState) (p : CommanderPaneRuntimeState) (path : Text)
      → (rebuild_pane_state w p path).path ≡ path
  unfolding rebuild_pane_state rebuild_commander_pane_state build_commander_pane_state
  rebuild_pane_state-path w p path = elim (Bool-cases (text_eq path p.path)) [
    | inl same ↦ rw same (sym (eq_of_text_eq path p.path same))
    | inr other ↦ rw other refl
  ]

  position-back :
      (w : CommanderWidgetRuntimeState) (p : CommanderPaneRuntimeState) {target : Text}
      → truthy (last? p.history_back) ≡ some target
      → position (navigate_history w back p)
        ≡ (target, drop_last p.history_back, p.history_forward ++ p.path ∷ [])
  unfolding navigate_history
  position-back w p {target} h = rw (h, navigate_history) (rw rebuild_pane_state-path)

  position-forward :
      (w : CommanderWidgetRuntimeState) (p : CommanderPaneRuntimeState) {target : Text}
      → truthy (last? p.history_forward) ≡ some target
      → position (navigate_history w forward p)
        ≡ (target, p.history_back ++ p.path ∷ [], drop_last p.history_forward)
  unfolding navigate_history
  position-forward w p {target} h = rw (h, navigate_history) (rw rebuild_pane_state-path)

  position-navigate :
      (w : CommanderWidgetRuntimeState) (p : CommanderPaneRuntimeState) (path : Text)
      → text_eq p.path path ≡ false
      → position (navigate_pane w path p) ≡ (path, p.history_back ++ p.path ∷ [], [])
  unfolding navigate_pane
  position-navigate w p path h = rw h (rw rebuild_pane_state-path)

  -- For a pane whose path is not empty and that has an entry behind it in its history: going back and
  -- then forward leads to the same path with the same history on either side.
  pub navigate_history-back_forward :
      (w : CommanderWidgetRuntimeState) (p : CommanderPaneRuntimeState) (target : Text)
      → is_empty p.path ≡ false
      → truthy (last? p.history_back) ≡ some target
      → position (navigate_history w forward (navigate_history w back p)) ≡ position p
  navigate_history-back_forward w p target filled h =
      go (navigate_history w back p) (position-back w p h)
    where
      go :
          (q : CommanderPaneRuntimeState)
          → position q ≡ (target, drop_last p.history_back, p.history_forward ++ p.path ∷ [])
          → position (navigate_history w forward q) ≡ position p
      go q e =
          let at_path : q.path ≡ target = ap (λ x. x.0) e in
          let at_back : q.history_back ≡ drop_last p.history_back = ap (λ x. x.1) e in
          let at_forward : q.history_forward ≡ p.history_forward ++ p.path ∷ [] = ap (λ x. x.2) e in
          let there : truthy (last? q.history_forward) ≡ some p.path =
            rw (at_forward, last?-append) (truthy_of_filled p.path filled) in
          position-forward w q there
          ∙ rw (at_path, at_back, at_forward, drop_last-append)
              (rw (append-drop_last p.history_back (some_of_truthy _ h)) refl)

  -- For a pane whose path is not empty: going to another path and then back leads to the same path
  -- with the same history behind it, and exactly the other path ahead.
  pub navigate_pane-back :
      (w : CommanderWidgetRuntimeState) (p : CommanderPaneRuntimeState) (path : Text)
      → is_empty p.path ≡ false
      → text_eq p.path path ≡ false
      → position (navigate_history w back (navigate_pane w path p))
        ≡ (p.path, p.history_back, path ∷ [])
  navigate_pane-back w p path filled other =
      go (navigate_pane w path p) (position-navigate w p path other)
    where
      go :
          (q : CommanderPaneRuntimeState)
          → position q ≡ (path, p.history_back ++ p.path ∷ [], [])
          → position (navigate_history w back q) ≡ (p.path, p.history_back, path ∷ [])
      go q e =
          let at_path : q.path ≡ path = ap (λ x. x.0) e in
          let at_back : q.history_back ≡ p.history_back ++ p.path ∷ [] = ap (λ x. x.1) e in
          let at_forward : q.history_forward ≡ [] = ap (λ x. x.2) e in
          let there : truthy (last? q.history_back) ≡ some p.path =
            rw (at_back, last?-append) (truthy_of_filled p.path filled) in
          position-back w q there ∙ rw (at_path, at_back, at_forward, drop_last-append) refl
