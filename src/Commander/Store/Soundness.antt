-- ===== src/Commander/Store/Soundness.antt =====
-- The invariant of a widget between two events, and the updaters that keep it, for
-- frontend/src/features/commander/model/store.ts.
use rune_terminal.Base.{◌≡◌, inl, inr, Bool-cases}
use rune_terminal.Text.{Text, text_eq}
use rune_terminal.Locale.{Locale}
use rune_terminal.Commander.Types.{
  CommanderPaneId, CommanderPaneRuntimeState, CommanderWidgetRuntimeState, left, right,
}
use rune_terminal.Commander.PaneState.{projection_options}
use rune_terminal.Commander.PaneState.Projection.{IsSound, rebuild_commander_pane_state-IsSound}
use rune_terminal.Commander.Navigation.{
  get_pane_state, set_pane_state, update_pane_state, rebuild_pane_state,
}
use rune_terminal.Commander.Selection.Grounded.{IsGrounded, KeepsRows, settle}
use rune_terminal.Commander.Store.Updaters.{KeepsSound}

module _ ⦃l : Locale⦄ where
  -- Both panes show what the settings of the widget project, and mark only rows.
  pub record WidgetIsSound (w : CommanderWidgetRuntimeState) : Type 0 where
    pub left_sound : IsSound (projection_options w) w.left_pane
    pub right_sound : IsSound (projection_options w) w.right_pane

  pub IsSound-of_KeepsSound :
      (w : CommanderWidgetRuntimeState) (f : CommanderPaneRuntimeState → CommanderPaneRuntimeState)
      (p : CommanderPaneRuntimeState)
      → KeepsRows p (f p) × (IsGrounded p → IsGrounded (f p))
      → IsSound (projection_options w) p
      → IsSound (projection_options w) (f p)
  IsSound-of_KeepsSound w f p keeps s =
      let (rows, grounded) = keeps in
      record {
        projected = rw (rows.entries, rows.directory_entries, rows.filter_query) s.projected;
        settled = settle rows grounded s.settled;
      }

  pub get-IsSound :
      {w : CommanderWidgetRuntimeState} (id : CommanderPaneId)
      → WidgetIsSound w
      → IsSound (projection_options w) (get_pane_state w id)
  unfolding get_pane_state
  get-IsSound left s = s.left_sound
  get-IsSound right s = s.right_sound

  -- It is enough that the updated pane is sound.
  pub update-IsSound :
      (w : CommanderWidgetRuntimeState) (id : CommanderPaneId)
      (f : CommanderPaneRuntimeState → CommanderPaneRuntimeState)
      → IsSound (projection_options w) (f (get_pane_state w id))
      → WidgetIsSound w
      → WidgetIsSound (update_pane_state w id f)
  unfolding update_pane_state set_pane_state get_pane_state
  update-IsSound w left f h s = record { left_sound = h; right_sound = s.right_sound }
  update-IsSound w right f h s = record { left_sound = s.left_sound; right_sound = h }

  pub update-IsSound_keeps :
      (w : CommanderWidgetRuntimeState) (id : CommanderPaneId)
      (f : CommanderPaneRuntimeState → CommanderPaneRuntimeState)
      → KeepsSound f
      → WidgetIsSound w
      → WidgetIsSound (update_pane_state w id f)
  update-IsSound_keeps w id f keeps s =
      update-IsSound w id f (IsSound-of_KeepsSound w f _ (keeps _) (get-IsSound id s)) s

  -- What the operations leave open is no part of the invariant.
  pub same_panes-IsSound :
      {w : CommanderWidgetRuntimeState} (v : CommanderWidgetRuntimeState)
      → projection_options v ≡ projection_options w
      → v.left_pane ≡ w.left_pane
      → v.right_pane ≡ w.right_pane
      → WidgetIsSound w
      → WidgetIsSound v
  same_panes-IsSound v o a b s = record {
    left_sound = rw (o, a) s.left_sound;
    right_sound = rw (o, b) s.right_sound;
  }

  -- The active pane is no part of the invariant.
  pub activate-IsSound :
      {w : CommanderWidgetRuntimeState} (id : CommanderPaneId)
      → WidgetIsSound w
      → WidgetIsSound (record w { active_pane = id })
  activate-IsSound id s = record { left_sound = s.left_sound; right_sound = s.right_sound }

  pub rebuild_pane_state-IsSound :
      (w : CommanderWidgetRuntimeState) (p : CommanderPaneRuntimeState) (path : Text)
      → IsSound (projection_options w) (rebuild_pane_state w p path)
  unfolding rebuild_pane_state
  rebuild_pane_state-IsSound w p path = elim (Bool-cases (text_eq path p.path)) [
    | inl e ↦ rw e (rebuild_commander_pane_state-IsSound w p)
    | inr e ↦ rw e (rebuild_commander_pane_state-IsSound w _)
  ]
