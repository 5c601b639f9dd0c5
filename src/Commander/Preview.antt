-- ===== src/Commander/Preview.antt =====
-- frontend/src/features/commander/model/operation-preview.ts: name conflicts, clone names, and the
-- preview of a batch rename.
pub mod Counting
pub mod Judging
pub mod Cloning
pub mod Safety
use rune_terminal.Base.{
  ℕ, zero, suc, ◌+◌, Bool, true, false, not, ◌&&◌, ◌||◌, Option, none, some, List, [], ◌∷◌, ◌++◌,
  map, if◌then◌else◌, ltb, leb, filter, any, find?, is_some,
}
use mathlib.Core.List.{filter_map}
use mathlib.Core.Option
use rune_terminal.Text.{
  Text, text, text_eq, truthy, is_empty, includes, trim, dedupe, dedupe_from, decimal,
}
use rune_terminal.Locale.{Locale, lower_case}
use rune_terminal.Commander.Types.{
  CommanderDirectoryEntry, CommanderPaneId, CommanderPaneRuntimeState, CommanderWidgetRuntimeState,
  CommanderRenamePreviewItem, CommanderRenamePreviewStatus, ok, duplicate, conflict, invalid, left,
  right,
}
use rune_terminal.Commander.PaneState.{entry_ids}
use rune_terminal.Commander.Navigation.{get_pane_state}
use rune_terminal.Commander.Template.{
  is_file, NameParts, split_entry_base_name_and_ext, apply_commander_rename_template,
}

-- `pane.directoryEntries.find((entry) => entry.id === id)`
unfoldable pub find_entry : CommanderPaneRuntimeState → Text → Option CommanderDirectoryEntry
find_entry pane id = find? (λ entry. text_eq entry.id id) pane.directory_entries

unfoldable pub resolve_entries_in_order :
    CommanderPaneRuntimeState → List Text → List CommanderDirectoryEntry
resolve_entries_in_order pane ids = filter_map (find_entry pane) ids

abbrev pub other_pane : CommanderPaneId → CommanderPaneId
other_pane left = right
other_pane right = left

-- `generatedNameCounts.get(name) ?? 0` after the first loop: how often a name was generated
unfoldable pub count_name : Text → List Text → ℕ
count_name name [] = 0
count_name name (x ∷ xs) = if text_eq x name then suc (count_name name xs) else count_name name xs

pub record CommanderRenamePreview : Type 0 where
  pub preview : List CommanderRenamePreviewItem
  pub conflict_entry_names : List Text
  pub duplicate_target_names : List Text

module _ ⦃l : Locale⦄ where
  unfoldable pub normalize_entry_name : Text → Text
  normalize_entry_name name = lower_case (trim name)

  unfoldable pub build_commander_clone_name : CommanderDirectoryEntry → ℕ → Text
  build_commander_clone_name e suffix_index =
      let parts = split_entry_base_name_and_ext e in
      let suffix : Text =
        if leb suffix_index 1 then text "-copy" else text "-copy-" ++ decimal suffix_index in
      if is_file e.kind && not (is_empty parts.ext)
      then parts.base_name ++ (suffix ++ text "." ++ parts.ext)
      else e.name ++ suffix

  unfoldable pub get_commander_conflicting_entry_names :
      CommanderWidgetRuntimeState → CommanderPaneId → List Text → List Text
  get_commander_conflicting_entry_names w source_pane_id ids =
      let source = get_pane_state w source_pane_id in
      let target = get_pane_state w (other_pane source_pane_id) in
      let target_names = map (λ e. normalize_entry_name e.name) target.directory_entries in
      if text_eq source.path target.path
      then []
      else filter (λ name. includes target_names (normalize_entry_name name))
          (map (λ e. e.name) (resolve_entries_in_order source ids))

  unfoldable pub get_commander_entry_name_conflict :
      CommanderPaneRuntimeState → Text → Option Text → Bool
  get_commander_entry_name_conflict pane name ignore_entry_id =
      any
        (λ entry.
          not (elim (truthy ignore_entry_id) [ none ↦ false | some id ↦ text_eq entry.id id ])
          && text_eq (normalize_entry_name entry.name) (normalize_entry_name name))
        pane.directory_entries

  -- the loop of `suggestCommanderCloneName`, by the number of rounds that are left
  unfoldable pub suggest_from : CommanderPaneRuntimeState → CommanderDirectoryEntry → ℕ → ℕ → Text
  suggest_from pane e zero suffix_index = build_commander_clone_name e suffix_index
  suggest_from pane e (suc rounds) suffix_index =
      let next = suggest_from pane e rounds (suffix_index + 1) in
      let candidate = build_commander_clone_name e suffix_index in
      if get_commander_entry_name_conflict pane candidate (some e.id) then next else candidate

  unfoldable pub suggest_commander_clone_name : CommanderPaneRuntimeState → Text → Option Text
  suggest_commander_clone_name pane id =
      Option.map (λ e. suggest_from pane e 999 1) (find_entry pane id)

  -- the first loop of `previewCommanderRenameEntries`, from the index of the first entry
  unfoldable pub generate_items :
      Text → ℕ → List CommanderDirectoryEntry → List CommanderRenamePreviewItem
  generate_items template index [] = []
  generate_items template index (e ∷ entries) =
      record {
        entry_id = e.id;
        current_name = e.name;
        next_name = apply_commander_rename_template e template index;
        status = ok;
        conflict = false;
      }
      ∷ generate_items template (index + 1) entries

  -- the normalized names that the first loop counts
  unfoldable pub generated_names : List CommanderRenamePreviewItem → List Text
  generated_names items =
      filter (λ name. not (is_empty name)) (map (λ item. normalize_entry_name item.next_name) items)

  -- an entry that is not itself renamed has the name already
  unfoldable pub has_directory_conflict : CommanderPaneRuntimeState → List Text → Text → Bool
  has_directory_conflict pane renamed_ids normalized =
      any
        (λ entry.
          not (includes renamed_ids entry.id)
          && text_eq (normalize_entry_name entry.name) normalized)
        pane.directory_entries

  -- what the second loop finds of one item
  unfoldable pub status_of :
      CommanderPaneRuntimeState
      → List Text
      → List Text
      → CommanderRenamePreviewItem
      → CommanderRenamePreviewStatus
  status_of pane renamed_ids names item =
      let normalized = normalize_entry_name item.next_name in
      if is_empty normalized
      then invalid
      else if ltb 1 (count_name normalized names)
      then duplicate
      else if has_directory_conflict pane renamed_ids normalized
      then conflict
      else ok

abbrev pub is_ok : CommanderRenamePreviewStatus → Bool
is_ok ok = true
is_ok _ = false

-- one round of the second loop, over what the rounds behind it push
unfoldable pub push_judged :
    CommanderRenamePreviewItem
    → CommanderRenamePreviewStatus
    → CommanderRenamePreview
    → CommanderRenamePreview
push_judged item status result =
    let judged = record item { status = status; conflict = not (is_ok status) } in
    elim status [
      | ok ↦ record result { preview = judged ∷ result.preview }
      | invalid ↦ record result {
        preview = judged ∷ result.preview;
        duplicate_target_names = item.current_name ∷ result.duplicate_target_names;
      }
      | duplicate ↦ record result {
        preview = judged ∷ result.preview;
        duplicate_target_names = item.next_name ∷ result.duplicate_target_names;
      }
      | conflict ↦ record result {
        preview = judged ∷ result.preview;
        conflict_entry_names = item.next_name ∷ result.conflict_entry_names;
      }
    ]

unfoldable pub judge_items :
    (CommanderRenamePreviewItem → CommanderRenamePreviewStatus)
    → List CommanderRenamePreviewItem
    → CommanderRenamePreview
judge_items status [] = record {
  preview = [];
  conflict_entry_names = [];
  duplicate_target_names = [];
}
judge_items status (item ∷ items) = push_judged item (status item) (judge_items status items)

module _ ⦃l : Locale⦄ where
  unfoldable pub preview_commander_rename_entries :
      CommanderPaneRuntimeState → List Text → Text → CommanderRenamePreview
  preview_commander_rename_entries pane ids template =
      let entries = resolve_entries_in_order pane ids in
      let items = generate_items template 0 entries in
      let result = judge_items (status_of pane (entry_ids entries) (generated_names items)) items in
      record result {
        conflict_entry_names = dedupe result.conflict_entry_names;
        duplicate_target_names = dedupe result.duplicate_target_names;
      }

  -- `previewCommanderCloneEntries` passes its arguments on.
  unfoldable pub preview_commander_clone_entries :
      CommanderPaneRuntimeState → List Text → Text → CommanderRenamePreview
  preview_commander_clone_entries = preview_commander_rename_entries
