-- ===== src/Agent/Context/Widgets.antt =====
-- The map of the widgets by their ids, in which the last one of an id stands: `widgetsByID` of
-- frontend/src/features/agent/model/agent-panel-context.ts.
use mathlib.Core.Path.{subst}
use mathlib.Core.List.{reverse, reverse-append}
use rune_terminal.Base.{
  ◌≡◌, refl, ap, ◌∙◌, Bool, true, false, Option, none, some, List, [], ◌∷◌, ◌++◌, arith, find?, All,
  inl, inr, Bool-cases, Option-cases, if◌then◌else◌,
}
use rune_terminal.Text.{Text, text_eq}
use rune_terminal.Agent.Context.{WorkspaceWidgetSnapshot, get_widget}

-- the first of two, if it is there
abbrev pub or_first {ℓ} : {A : Type ℓ} → Option A → Option A → Option A
or_first none b = b
or_first (some a) b = some a

find?-append :
    (p : WorkspaceWidgetSnapshot → Bool) (xs ys : List WorkspaceWidgetSnapshot)
    → find? p (xs ++ ys) ≡ or_first (find? p xs) (find? p ys)
unfolding find?
find?-append p [] ys = refl
find?-append p (x ∷ xs) ys = ground (arith, find?-append p xs ys)

-- the last widget of an id
get_widget-cons :
    (id : Text) (x : WorkspaceWidgetSnapshot) (xs : List WorkspaceWidgetSnapshot)
    → get_widget id (x ∷ xs)
      ≡ or_first (get_widget id xs) (if text_eq x.id id then some x else none)
unfolding get_widget
get_widget-cons id x xs =
    ap (find? (λ w. text_eq w.id id)) (reverse-append (x ∷ []) xs)
    ∙ find?-append (λ w. text_eq w.id id) (reverse xs) (x ∷ [])
    ∙ ap (or_first (find? (λ w. text_eq w.id id) (reverse xs))) (unfold find? in ground arith)

get_widget-none :
    (id : Text) (xs : List WorkspaceWidgetSnapshot)
    → All (λ v. text_eq v.id id ≡ false) xs
    → get_widget id xs ≡ none
get_widget-none id [] h = unfold get_widget find? in refl
get_widget-none id (x ∷ xs) (other, h) =
    get_widget-cons id x xs ∙ rw (get_widget-none id xs h, other) refl

pub get_widget-last :
    (id : Text) (before : List WorkspaceWidgetSnapshot) (w : WorkspaceWidgetSnapshot)
    (after : List WorkspaceWidgetSnapshot)
    → text_eq w.id id ≡ true
    → All (λ v. text_eq v.id id ≡ false) after
    → get_widget id (before ++ w ∷ after) ≡ some w
get_widget-last id [] w after same h =
    get_widget-cons id w after ∙ rw (get_widget-none id after h, same) refl
get_widget-last id (x ∷ before) w after same h =
    get_widget-cons id x (before ++ w ∷ after) ∙ rw (get_widget-last id before w after same h) refl

none-get_widget :
    (id : Text) (xs : List WorkspaceWidgetSnapshot)
    → get_widget id xs ≡ none
    → All (λ v. text_eq v.id id ≡ false) xs
none-get_widget id [] h = tt
none-get_widget id (x ∷ xs) h = (
  ground (arith, get_widget-cons id x xs, h),
  none-get_widget id xs (ground (arith, get_widget-cons id x xs, h)),
)

pub get_widget_found :
    (id : Text) (xs : List WorkspaceWidgetSnapshot) (w : WorkspaceWidgetSnapshot)
    → get_widget id xs ≡ some w
    → (before after : List WorkspaceWidgetSnapshot) × (xs ≡ before ++ w ∷ after)
      × (text_eq w.id id ≡ true)
      × All (λ v. text_eq v.id id ≡ false) after
get_widget_found id [] w h = absurd (unfold get_widget find? in cc)
get_widget_found id (x ∷ xs) w h = elim (Option-cases (get_widget id xs)) [
  | inr (v, e) ↦
      let found : get_widget id xs ≡ some w = ground (arith, get_widget-cons id x xs, e, h) in
      let (before, after, split, same, last) = get_widget_found id xs w found in
      (x ∷ before, after, ap (λ ys. x ∷ ys) split, same, last)
  | inl e ↦ elim (Bool-cases (text_eq x.id id)) [
    | inl same ↦
        let here : x ≡ w = ground (arith, get_widget-cons id x xs, e, same, h) in
        subst
          (λ u.
            (before after : List WorkspaceWidgetSnapshot) × (x ∷ xs ≡ before ++ u ∷ after)
            × (text_eq u.id id ≡ true)
            × All (λ v. text_eq v.id id ≡ false) after)
          here ([], xs, refl, same, none-get_widget id xs e)
    | inr other ↦ ground (arith, get_widget-cons id x xs, e, other, h)
  ]
]
