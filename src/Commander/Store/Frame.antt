-- ===== src/Commander/Store/Frame.antt =====
-- What an event leaves alone: the record of widgets in frontend/src/features/commander/model/store.ts
-- and store-widget-state.ts.
use rune_terminal.Base.{
  ◌≡◌, refl, ◌≢◌, inl, inr, false, Option, none, some, [], ◌∷◌, arith, Bool-cases, Option-cases,
}
use rune_terminal.Text.{Text, text_eq, text_eq_refl, eq_of_text_eq, text_eq_iff}
use rune_terminal.Locale.{Locale}
use rune_terminal.Commander.Types.{CommanderWidgetRuntimeState, CommanderWidgetPersistedState}
use rune_terminal.Commander.PaneState.{create_commander_widget_runtime_state}
use rune_terminal.Commander.Store.{
  Widgets, lookup, insert, with_commander_widget_state, Event, mount, to_widget, reduce,
  WidgetEvent, handle,
}

pub lookup-insert :
    (id : Text) (w : CommanderWidgetRuntimeState) (ws : Widgets)
    → lookup id (insert id w ws) ≡ some w
unfolding lookup insert
lookup-insert id w [] = rw text_eq_refl refl
lookup-insert id w ((k, v) ∷ ws) = elim (Bool-cases (text_eq k id)) [
  | inl same ↦ rw (same, insert) (rw same refl)
  | inr other ↦ rw (other, insert) (rw other (lookup-insert id w ws))
]

pub lookup-insert_ne :
    (id other : Text) (w : CommanderWidgetRuntimeState) (ws : Widgets)
    → text_eq id other ≡ false
    → lookup other (insert id w ws) ≡ lookup other ws
unfolding lookup insert
lookup-insert_ne id other w [] h = rw h refl
lookup-insert_ne id other w ((k, v) ∷ ws) h = elim (Bool-cases (text_eq k id)) [
  | inl same ↦
      let apart : text_eq k other ≡ false = rw (eq_of_text_eq k id same) h in
      rw (same, insert, lookup) (rw apart refl)
  | inr e ↦
      rw (e, insert)
        (elim (Bool-cases (text_eq k other)) [
          | inl found ↦ rw found refl
          | inr missed ↦ rw missed (lookup-insert_ne id other w ws h)
        ])
]

abbrev pub target : Event → Text
target (mount id _) = id
target (to_widget id _) = id

module _ ⦃l : Locale⦄ where
  reduce-apart :
      (event : Event) (other : Text) (ws : Widgets)
      → text_eq (target event) other ≡ false
      → lookup other (reduce event ws) ≡ lookup other ws
  unfolding reduce with_commander_widget_state
  reduce-apart (mount id persisted) other ws h = elim (Option-cases (lookup id ws)) [
    | inl e ↦ rw (e, reduce) (lookup-insert_ne id other _ ws h)
    | inr (w, e) ↦ rw (e, reduce) refl
  ]
  reduce-apart (to_widget id event) other ws h = elim (Option-cases (lookup id ws)) [
    | inl e ↦ rw (e, reduce, with_commander_widget_state) refl
    | inr (w, e) ↦ rw (e, reduce, with_commander_widget_state) (go (handle event w))
  ]
    where
      go :
          (o : Option CommanderWidgetRuntimeState)
          → lookup other (elim o [ none ↦ ws | some next ↦ insert id next ws ]) ≡ lookup other ws
      go none = refl
      go (some next) = lookup-insert_ne id other next ws h

  -- An event for another widget, a mount or any other, leaves a widget as it is.
  pub reduce-lookup_ne :
      (event : Event) (other : Text) (ws : Widgets)
      → target event ≢ other
      → lookup other (reduce event ws) ≡ lookup other ws
  reduce-lookup_ne event other ws h =
      reduce-apart event other ws (ground (arith, text_eq_iff (target event) other))

  -- A widget that is there meets its handler: it is what the handler returns, or what it was where the
  -- handler returns null; and an event for a widget that is not there does nothing.
  pub reduce-lookup :
      (event : WidgetEvent) (id : Text) (ws : Widgets)
      → ((w : CommanderWidgetRuntimeState)
          → lookup id ws ≡ some w
          → lookup id (reduce (to_widget id event) ws)
            ≡ some (elim (handle event w) [ none ↦ w | some v ↦ v ]))
        × (lookup id ws ≡ none → reduce (to_widget id event) ws ≡ ws)
  unfolding reduce with_commander_widget_state
  reduce-lookup event id ws = (
    λ w h. rw (h, reduce, with_commander_widget_state) (go w h (handle event w)),
    λ h. rw (h, reduce, with_commander_widget_state) refl,
  )
    where
      go :
          (w : CommanderWidgetRuntimeState)
          → lookup id ws ≡ some w
          → (o : Option CommanderWidgetRuntimeState)
          → lookup id (elim o [ none ↦ ws | some next ↦ insert id next ws ])
            ≡ some (elim o [ none ↦ w | some v ↦ v ])
      go w h none = h
      go w h (some next) = lookup-insert id next ws

  mount_present :
      (id : Text) (persisted : Option CommanderWidgetPersistedState) (ws : Widgets)
      (w : CommanderWidgetRuntimeState)
      → lookup id ws ≡ some w
      → reduce (mount id persisted) ws ≡ ws
  unfolding reduce
  mount_present id persisted ws w h = rw (h, reduce) refl

  lookup-mount :
      (id : Text) (persisted : Option CommanderWidgetPersistedState) (ws : Widgets)
      → (w : CommanderWidgetRuntimeState) × (lookup id (reduce (mount id persisted) ws) ≡ some w)
  unfolding reduce
  lookup-mount id persisted ws = elim (Option-cases (lookup id ws)) [
    | inl e ↦
        (create_commander_widget_runtime_state id persisted, rw (e, reduce) (lookup-insert id _ ws))
    | inr (w, e) ↦ (w, rw (e, reduce) e)
  ]

  -- Mounting a widget again, whatever is stored of it, changes nothing.
  pub mount-mount :
      (id : Text) (first second : Option CommanderWidgetPersistedState) (ws : Widgets)
      → reduce (mount id second) (reduce (mount id first) ws) ≡ reduce (mount id first) ws
  mount-mount id first second ws =
      let (w, there) = lookup-mount id first ws in
      mount_present id second (reduce (mount id first) ws) w there
