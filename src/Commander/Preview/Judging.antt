-- ===== src/Commander/Preview/Judging.antt =====
-- The second loop of `previewCommanderRenameEntries`, frontend/src/features/commander/model/
-- operation-preview.ts: what its lists hold when every item is fine.
use rune_terminal.Base.{
  ◌≤◌, ◌≡◌, refl, ap, ◌↔◌, inl, inr, false, not, ◌&&◌, List, [], ◌∷◌, map, arith, Bool-cases, All,
  any, filter,
}
use rune_terminal.Text.{Text, text_eq, is_empty, includes}
use rune_terminal.Locale.{Locale}
use rune_terminal.Commander.Types.{
  CommanderDirectoryEntry, CommanderPaneRuntimeState, CommanderRenamePreviewItem,
  CommanderRenamePreviewStatus, ok, duplicate, conflict, invalid,
}
use rune_terminal.Commander.Preview.{
  CommanderRenamePreview, count_name, normalize_entry_name, generated_names, has_directory_conflict,
  status_of, push_judged, judge_items,
}

-- Nothing is listed as a conflict or as a duplicate.
abbrev pub IsClear : CommanderRenamePreview → Type 0
IsClear r = (r.conflict_entry_names ≡ []) × (r.duplicate_target_names ≡ [])

module _ (status : CommanderRenamePreviewItem → CommanderRenamePreviewStatus) where
  push-IsClear :
      (item : CommanderRenamePreviewItem) (s : CommanderRenamePreviewStatus)
      (r : CommanderRenamePreview)
      → IsClear (push_judged item s r) ↔ ((s ≡ ok) × IsClear r)
  unfolding push_judged
  push-IsClear item ok r = (λ h. (refl, h), λ h. h.1)
  push-IsClear item duplicate r = (λ h. cc, λ h. cc)
  push-IsClear item conflict r = (λ h. cc, λ h. cc)
  push-IsClear item invalid r = (λ h. cc, λ h. cc)

  pub judge_items-IsClear :
      (items : List CommanderRenamePreviewItem)
      → IsClear (judge_items status items) ↔ All (λ item. status item ≡ ok) items
  unfolding judge_items
  judge_items-IsClear [] = (λ h. tt, λ h. (refl, refl))
  judge_items-IsClear (item ∷ items) =
      let step = push-IsClear item (status item) (judge_items status items) in
      let rest = judge_items-IsClear items in
      (λ h. let (fine, clear) = step.0 h in (fine, rest.0 clear), λ h. step.1 (h.0, rest.1 h.1))

  push-names :
      (f : Text → Text) (item : CommanderRenamePreviewItem) (s : CommanderRenamePreviewStatus)
      (r : CommanderRenamePreview)
      → map (λ i. f i.next_name) (push_judged item s r).preview
        ≡ f item.next_name ∷ map (λ i. f i.next_name) r.preview
  unfolding push_judged
  push-names f item ok r = refl
  push-names f item duplicate r = refl
  push-names f item conflict r = refl
  push-names f item invalid r = refl

  -- The names of the items stay.
  pub judge_items-names :
      (f : Text → Text) (items : List CommanderRenamePreviewItem)
      → map (λ i. f i.next_name) (judge_items status items).preview ≡ map (λ i. f i.next_name) items
  unfolding judge_items
  judge_items-names f [] = refl
  judge_items-names f (item ∷ items) =
      rw (push-names f item (status item) (judge_items status items))
        (ap (f item.next_name ∷◌) (judge_items-names f items))

module _ ⦃l : Locale⦄ where
  -- No entry of the directory that is not itself renamed has the name.
  abbrev pub IsFree : CommanderPaneRuntimeState → List Text → Text → Type 0
  IsFree pane renamed_ids name =
      All
        (λ e.
          includes renamed_ids e.id ≡ false → text_eq (normalize_entry_name e.name) name ≡ false)
        pane.directory_entries

  free_iff :
      (renamed_ids : List Text) (name : Text) (es : List CommanderDirectoryEntry)
      → (any (λ e. not (includes renamed_ids e.id) && text_eq (normalize_entry_name e.name) name) es
          ≡ false)
        ↔ All
            (λ e.
              includes renamed_ids e.id ≡ false
              → text_eq (normalize_entry_name e.name) name ≡ false)
            es
  unfolding any
  free_iff renamed_ids name [] = (λ h. tt, λ h. refl)
  free_iff renamed_ids name (e ∷ es) =
      let rest = free_iff renamed_ids name es in
      (
        λ h. (λ out. ground arith, rest.0 (ground arith)),
        λ h. elim (Bool-cases (includes renamed_ids e.id)) [
          | inl inside ↦ rw inside (rest.1 h.1)
          | inr out ↦ rw (out, h.0 out) (rest.1 h.1)
        ],
      )

  pub has_directory_conflict_iff :
      (pane : CommanderPaneRuntimeState) (renamed_ids : List Text) (name : Text)
      → (has_directory_conflict pane renamed_ids name ≡ false) ↔ IsFree pane renamed_ids name
  unfolding has_directory_conflict
  has_directory_conflict_iff pane renamed_ids name =
      free_iff renamed_ids name pane.directory_entries

  -- An item is fine exactly if its name is filled, generated once, and free.
  pub status_of_iff :
      (pane : CommanderPaneRuntimeState) (renamed_ids names : List Text)
      (item : CommanderRenamePreviewItem)
      → (status_of pane renamed_ids names item ≡ ok) ↔ (
          (is_empty (normalize_entry_name item.next_name) ≡ false)
          × (count_name (normalize_entry_name item.next_name) names ≤ 1)
          × (has_directory_conflict pane renamed_ids (normalize_entry_name item.next_name) ≡ false))
  unfolding status_of
  status_of_iff pane renamed_ids names item = ground arith

  -- Where every name is filled, all are counted.
  pub generated_names_of_filled :
      (items : List CommanderRenamePreviewItem)
      → All (λ item. is_empty (normalize_entry_name item.next_name) ≡ false) items
      → generated_names items ≡ map (λ item. normalize_entry_name item.next_name) items
  unfolding generated_names filter
  generated_names_of_filled [] h = refl
  generated_names_of_filled (item ∷ items) (p, h) =
      rw p (ap (normalize_entry_name item.next_name ∷◌) (generated_names_of_filled items h))
