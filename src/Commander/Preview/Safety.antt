-- ===== src/Commander/Preview/Safety.antt =====
-- When a batch rename is safe: `previewCommanderRenameEntries` of frontend/src/features/commander/
-- model/operation-preview.ts.
use rune_terminal.Base.{
  ◌≤◌, ◌≡◌, refl, ◌↔◌, false, List, map, All, All-each, All-zip, All-map, map-All,
}
use rune_terminal.Text.{Text, is_empty, dedupe_from, Distinct}
use rune_terminal.Locale.{Locale}
use rune_terminal.Commander.Types.{CommanderPaneRuntimeState, CommanderRenamePreviewItem, ok}
use rune_terminal.Commander.PaneState.{entry_ids}
use rune_terminal.Commander.Preview.{
  count_name, normalize_entry_name, generate_items, generated_names, status_of,
  resolve_entries_in_order, preview_commander_rename_entries,
}
use rune_terminal.Commander.Preview.Counting.{Distinct-of_count, count_of_Distinct, dedupe_nil}
use rune_terminal.Commander.Preview.Judging.{
  IsClear, IsFree, judge_items-IsClear, judge_items-names, status_of_iff,
  has_directory_conflict_iff, generated_names_of_filled,
}

module _ ⦃l : Locale⦄ where
  -- Carried out at once, renames to these names lose no file: each name is filled, no two renamed
  -- entries get the same name, and no entry that keeps its name has one of them.
  pub record IsSafe (pane : CommanderPaneRuntimeState) (renamed_ids names : List Text)
      : Type 0 where
    pub filled : All (λ name. is_empty name ≡ false) names
    pub distinct : Distinct names
    pub free : All (IsFree pane renamed_ids) names

  abbrev names_of : List CommanderRenamePreviewItem → List Text
  names_of = map (λ item. normalize_entry_name item.next_name)

  abbrev AllOk : CommanderPaneRuntimeState → List Text → List CommanderRenamePreviewItem → Type 0
  AllOk pane renamed_ids items =
      All (λ item. status_of pane renamed_ids (generated_names items) item ≡ ok) items

  IsSafe-of_ok :
      (pane : CommanderPaneRuntimeState) (renamed_ids : List Text)
      (items : List CommanderRenamePreviewItem)
      → AllOk pane renamed_ids items
      → IsSafe pane renamed_ids (names_of items)
  IsSafe-of_ok pane renamed_ids items h =
      let parts = All-each items h (λ item. (status_of_iff pane renamed_ids _ item).0) in
      let filled = All-each items parts (λ item p. p.0) in
      let once = All-each items parts (λ item p. p.1) in
      let free =
        All-each items parts (λ item p. (has_directory_conflict_iff pane renamed_ids _).0 p.2) in
      record {
        filled = All-map _ (λ name. is_empty name ≡ false) items filled;
        distinct = Distinct-of_count _ (
            All-map _ (λ name. count_name name (names_of items) ≤ 1) items
              (rw (generated_names_of_filled items filled) at once));
        free = All-map _ (IsFree pane renamed_ids) items free;
      }

  ok_of_safe :
      (pane : CommanderPaneRuntimeState) (renamed_ids : List Text)
      (items : List CommanderRenamePreviewItem)
      → IsSafe pane renamed_ids (names_of items)
      → AllOk pane renamed_ids items
  ok_of_safe pane renamed_ids items s =
      let filled = map-All _ (λ name. is_empty name ≡ false) items s.filled in
      let once =
        map-All _ (λ name. count_name name (names_of items) ≤ 1) items
          (count_of_Distinct _ s.distinct) in
      let free = map-All _ (IsFree pane renamed_ids) items s.free in
      rw (generated_names_of_filled items filled) (
        All-each items (All-zip _ _ items filled (All-zip _ _ items once free)) (λ item p.
          (status_of_iff pane renamed_ids _ item).1
            (p.0, p.1.0, (has_directory_conflict_iff pane renamed_ids _).1 p.1.1)))

  -- The preview of a batch rename lists no conflict and no duplicate exactly if the renames are safe:
  -- their normalized names are not empty, pairwise different, and none is the normalized name of an
  -- entry of the directory that is not itself renamed.
  pub preview_commander_rename_entries-IsSafe :
      (pane : CommanderPaneRuntimeState) (ids : List Text) (template : Text)
      → IsClear (preview_commander_rename_entries pane ids template)
        ↔ IsSafe pane
            (entry_ids (resolve_entries_in_order pane ids))
            (names_of (preview_commander_rename_entries pane ids template).preview)
  unfolding preview_commander_rename_entries
  preview_commander_rename_entries-IsSafe pane ids template =
      let entries = resolve_entries_in_order pane ids in
      let renamed = entry_ids entries in
      let items = generate_items template 0 entries in
      let status = status_of pane renamed (generated_names items) in
      let clear = judge_items-IsClear status items in
      rw (judge_items-names status normalize_entry_name items) (
        λ h. IsSafe-of_ok pane renamed items (clear.0 (dedupe_nil _ h.0, dedupe_nil _ h.1)),
        λ s.
            let (no_conflict, no_duplicate) = clear.1 (ok_of_safe pane renamed items s) in
            (
              rw no_conflict (unfold dedupe_from in refl),
              rw no_duplicate (unfold dedupe_from in refl),
            ),
      )
