-- ===== src/Commander/Types.antt =====
-- frontend/src/features/commander/model/types.ts: the data of the two-pane file manager.
-- An optional or nullable field is an `Option`; byte sizes are natural numbers.
use rune_terminal.Base.{ℕ, Bool, Option, List}
use rune_terminal.Text.{Text}

pub data CommanderPaneId : Type 0 where
  left right : CommanderPaneId

pub data CommanderViewMode : Type 0 where
  commander split terminal : CommanderViewMode

pub data CommanderSortMode : Type 0 where
  name ext size modified : CommanderSortMode

pub data CommanderSortDirection : Type 0 where
  asc desc : CommanderSortDirection

pub data CommanderRowKind : Type 0 where
  file folder symlink : CommanderRowKind

pub record CommanderFooterHint : Type 0 where
  pub key : Text
  pub label : Text

pub data CommanderPendingOperationKind : Type 0 where
  copy move delete mkdir rename select unselect filter search : CommanderPendingOperationKind

-- `CommanderRenameMode` and `CommanderCloneMode`
pub data CommanderBatchMode : Type 0 where
  single batch : CommanderBatchMode

pub data CommanderRenamePreviewStatus : Type 0 where
  ok duplicate conflict invalid : CommanderRenamePreviewStatus

pub data CommanderFileDialogMode : Type 0 where
  view edit blocked : CommanderFileDialogMode

pub data CommanderFilePreviewKind : Type 0 where
  text hex : CommanderFilePreviewKind

pub record CommanderRenamePreviewItem : Type 0 where
  pub entry_id : Text
  pub current_name : Text
  pub next_name : Text
  pub status : CommanderRenamePreviewStatus
  pub conflict : Bool

-- `CommanderPendingOperationBase` without the kind, which the constructors of
-- `CommanderPendingOperation` and the fields below carry.
pub record CommanderPendingOperationBase : Type 0 where
  pub source_pane_id : CommanderPaneId
  pub source_path : Text
  pub entry_ids : List Text
  pub entry_names : List Text

pub record CommanderClonePendingOperation : Type 0 where
  pub base : CommanderPendingOperationBase
  pub open base use *
  pub input_value : Text
  pub target_pane_id : CommanderPaneId
  pub target_path : Text
  pub clone_mode : CommanderBatchMode
  pub conflict_entry_names : List Text
  pub duplicate_target_names : List Text
  pub rename_preview : List CommanderRenamePreviewItem

pub data CommanderPaneTransferKind : Type 0 where
  copy move : CommanderPaneTransferKind

pub record CommanderPaneTransferPendingOperation : Type 0 where
  pub base : CommanderPendingOperationBase
  pub open base use *
  pub kind : CommanderPaneTransferKind
  pub target_pane_id : CommanderPaneId
  pub target_path : Text
  pub conflict_entry_names : List Text

-- The tag is the field `transferMode`.
pub data CommanderTransferPendingOperation : Type 0 where
  clone : CommanderClonePendingOperation → CommanderTransferPendingOperation
  pane : CommanderPaneTransferPendingOperation → CommanderTransferPendingOperation

pub record CommanderMkdirPendingOperation : Type 0 where
  pub base : CommanderPendingOperationBase
  pub open base use *
  pub input_value : Text

pub record CommanderRenamePendingOperation : Type 0 where
  pub base : CommanderPendingOperationBase
  pub open base use *
  pub input_value : Text
  pub conflict_entry_names : List Text
  pub duplicate_target_names : List Text
  pub rename_mode : CommanderBatchMode
  pub rename_preview : List CommanderRenamePreviewItem

pub data CommanderMaskKind : Type 0 where
  select unselect filter : CommanderMaskKind

pub record CommanderMaskPendingOperation : Type 0 where
  pub base : CommanderPendingOperationBase
  pub open base use *
  pub kind : CommanderMaskKind
  pub input_value : Text
  pub match_count : ℕ
  pub match_preview : List Text

-- `match_index` is `none` for the index -1, "no match".
pub record CommanderSearchPendingOperation : Type 0 where
  pub base : CommanderPendingOperationBase
  pub open base use *
  pub input_value : Text
  pub match_count : ℕ
  pub match_preview : List Text
  pub match_index : Option ℕ

pub data CommanderPendingOperation : Type 0 where
  transfer : CommanderTransferPendingOperation → CommanderPendingOperation
  delete : CommanderPendingOperationBase → CommanderPendingOperation
  mkdir : CommanderMkdirPendingOperation → CommanderPendingOperation
  rename : CommanderRenamePendingOperation → CommanderPendingOperation
  mask : CommanderMaskPendingOperation → CommanderPendingOperation
  search : CommanderSearchPendingOperation → CommanderPendingOperation

pub record CommanderDirectoryEntry : Type 0 where
  pub id : Text
  pub name : Text
  pub ext : Text
  pub kind : CommanderRowKind
  pub size_label : Text
  pub size_bytes : Option ℕ
  pub modified : Text
  pub hidden : Bool
  pub git_status : Option Text
  pub executable : Option Bool
  pub symlink_target : Option Text

pub record CommanderPaneRuntimeState : Type 0 where
  pub id : CommanderPaneId
  pub path : Text
  pub filter_query : Text
  pub directory_entries : List CommanderDirectoryEntry
  pub entries : List CommanderDirectoryEntry
  pub cursor_entry_id : Option Text
  pub selection_anchor_entry_id : Option Text
  pub selected_ids : List Text
  pub history_back : List Text
  pub history_forward : List Text
  pub is_loading : Bool
  pub error_message : Option Text

pub record CommanderPanePersistedState : Type 0 where
  pub path : Text
  pub filter_query : Text
  pub directory_entries : Option (List CommanderDirectoryEntry)
  pub entries : Option (List CommanderDirectoryEntry)
  pub cursor_entry_id : Option Text
  pub selection_anchor_entry_id : Option Text
  pub selected_ids : List Text
  pub history_back : List Text
  pub history_forward : List Text

pub record CommanderFileDialogState : Type 0 where
  pub pane_id : CommanderPaneId
  pub path : Text
  pub entry_id : Text
  pub entry_name : Text
  pub mode : CommanderFileDialogMode
  pub content : Text
  pub draft_value : Text
  pub preview_kind : Option CommanderFilePreviewKind
  pub preview_bytes : Option ℕ
  pub size_bytes : Option ℕ
  pub truncated : Option Bool
  pub blocked_reason : Option Text
  pub blocked_title : Option Text
  pub blocked_hint : Option Text

-- The constant fields `dataSource` and `mode` are left out.
pub record CommanderWidgetRuntimeState : Type 0 where
  pub widget_id : Text
  pub view_mode : CommanderViewMode
  pub active_pane : CommanderPaneId
  pub show_hidden : Bool
  pub sort_mode : CommanderSortMode
  pub sort_direction : CommanderSortDirection
  pub dirs_first : Bool
  pub footer_hints : List CommanderFooterHint
  pub pending_operation : Option CommanderPendingOperation
  pub file_dialog : Option CommanderFileDialogState
  pub left_pane : CommanderPaneRuntimeState
  pub right_pane : CommanderPaneRuntimeState

pub record CommanderWidgetPersistedState : Type 0 where
  pub active_pane : CommanderPaneId
  pub view_mode : CommanderViewMode
  pub show_hidden : Bool
  pub sort_mode : CommanderSortMode
  pub sort_direction : CommanderSortDirection
  pub dirs_first : Bool
  pub left_pane : CommanderPanePersistedState
  pub right_pane : CommanderPanePersistedState

pub record CommanderFileRow : Type 0 where
  pub id : Text
  pub name : Text
  pub ext : Text
  pub kind : CommanderRowKind
  pub size : Text
  pub modified : Text
  pub hidden : Bool
  pub selected : Bool
  pub focused : Bool
  pub git_status : Option Text
  pub executable : Option Bool
  pub symlink_target : Option Text
