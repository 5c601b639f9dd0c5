-- ===== src/Commander/RuntimePath.antt =====
-- The paths of frontend/src/shared/api/runtime.ts, how they are joined and resolved, with the ids and
-- names of frontend/src/features/commander/model/view-model.ts that are made from them.
pub mod Joining
pub mod Names
pub mod Parents
use rune_terminal.Base.{
  ℕ, zero, suc, Bool, true, false, not, ◌&&◌, ◌||◌, Option, none, some, List, [], ◌∷◌, ◌++◌,
  if◌then◌else◌, ◌==◌, take, drop, map, filter, any, last?, drop_last,
}
use rune_terminal.Text.{Text, text, text_eq, is_empty, starts_with, trim}
use rune_terminal.Commander.ParentPath.{normalize_slashes, trim_slashes, last_slash?}
use rune_terminal.Commander.ViewModel.{is_ascii_letter, is_drive_root, trim_trailing_separators}

-- `/^[A-Za-z]:/`, what it matches
unfoldable pub drive_prefix : Text → Option Text
drive_prefix (c ∷ d ∷ s) = if is_ascii_letter c && d == b':' then some (c ∷ d ∷ []) else none
drive_prefix _ = none

unfoldable pub is_absolute_path : Text → Bool
is_absolute_path path =
    starts_with path (text "/")
    || elim (drive_prefix path) [
      | none ↦ false
      | some drive ↦ starts_with (drop 2 path) (text "\\") || starts_with (drop 2 path) (text "/")
    ]
    || starts_with path (text "\\\\")

-- `path.split('/')`, as its first part and the others
unfoldable pub split_slashes : Text → Text × List Text
split_slashes [] = ([], [])
split_slashes (c ∷ s) =
    let (part, parts) = split_slashes s in
    if c == b'/' then ([], part ∷ parts) else (c ∷ part, parts)

unfoldable pub split_path : Text → List Text
split_path path = let (part, parts) = split_slashes path in part ∷ parts

-- `parts.join('/')`
unfoldable pub join_path : List Text → Text
join_path [] = []
join_path (part ∷ []) = part
join_path (part ∷ next ∷ parts) = part ++ b'/' ∷ join_path (next ∷ parts)

abbrev pub keeps_segment : Text → Bool
keeps_segment segment = not (is_empty segment) && not (text_eq segment (text "."))

-- one round of `reduce`
unfoldable pub push_segment : List Text → Text → List Text
push_segment segments segment =
    if text_eq segment (text "..")
    then elim (last? segments) [
      | none ↦ segments
      | some last ↦ if text_eq last (text "..") then segments else drop_last segments
    ]
    else segments ++ segment ∷ []

unfoldable pub reduce_segments : List Text → List Text → List Text
reduce_segments segments [] = segments
reduce_segments segments (segment ∷ rest) = reduce_segments (push_segment segments segment) rest

unfoldable pub path_segments : Text → List Text
path_segments path = reduce_segments [] (filter keeps_segment (split_path path))

-- `joinedPath.replace(new RegExp('^' + drivePrefix + '/?'), '')`
unfoldable pub without_drive : (drive path : Text) → Text
without_drive drive path =
    if starts_with path drive
    then if starts_with (drop 2 path) (text "/") then drop 3 path else drop 2 path
    else path

-- the joined segments below the drive or the slash of the base
unfoldable pub with_root : (base joined : Text) → Text
with_root base joined = elim (drive_prefix base) [
  | some drive ↦
      if is_empty (without_drive drive joined)
      then drive ++ text "/"
      else drive ++ b'/' ∷ without_drive drive joined
  | none ↦
      if starts_with base (text "/")
      then (if is_empty joined then text "/" else b'/' ∷ joined)
      else joined
]

unfoldable pub normalize_joined_path : (base_path next_path : Text) → Text
normalize_joined_path base_path next_path =
    let base = trim_trailing_separators base_path in
    with_root base (join_path (path_segments (base ++ b'/' ∷ normalize_slashes next_path)))

-- `joinRuntimePath`, and `toCommanderEntryPath` of features/commander/api/client.ts
unfoldable pub join_runtime_path : (path name : Text) → Text
join_runtime_path path name = normalize_joined_path path name

-- the text in front of the last slash
unfoldable pub cut_parent : Text → Option Text
cut_parent path = elim (last_slash? path) [
  | none ↦ none
  | some zero ↦ some (text "/")
  | some (suc i) ↦ some (take (suc i) path)
]

unfoldable pub get_runtime_path_parent : Text → Option Text
get_runtime_path_parent path =
    let normalized = trim_trailing_separators path in
    if is_empty normalized || text_eq normalized (text "/") || is_drive_root normalized
    then none
    else cut_parent normalized

-- The home directory is the field `homeDir` of the context.
unfoldable pub resolve_runtime_path_input : (input_value home_dir current_path : Text) → Text
resolve_runtime_path_input input_value home_dir current_path =
    let input = normalize_slashes (trim input_value) in
    if is_empty (trim input_value)
    then current_path
    else if text_eq input (text "~") && not (is_empty home_dir)
    then trim_trailing_separators home_dir
    else if starts_with input (text "~/") && not (is_empty home_dir)
    then normalize_joined_path home_dir (drop 2 input)
    else if is_absolute_path input
    then trim_trailing_separators input
    else normalize_joined_path current_path input

-- `hasSinglePathSegment` of view-model.ts
unfoldable pub has_single_path_segment : Text → Bool
has_single_path_segment input_value =
    let value = trim input_value in
    not (is_empty value)
    && not (text_eq value (text "."))
    && not (text_eq value (text ".."))
    && not (any (λ c. c == b'\\' || c == b'/') value)

abbrev pub parent_or_root : Text → Text
parent_or_root path = elim (get_runtime_path_parent path) [ none ↦ text "/" | some parent ↦ parent ]

-- `normalizedPath.split('/').pop()`
abbrev pub last_part : Text → Text
last_part path = elim (last? (split_path path)) [ none ↦ path | some part ↦ part ]

unfoldable pub to_entry_id_from_path : Text → Text
to_entry_id_from_path path =
    let trimmed = trim_slashes (normalize_slashes path) in
    let normalized = if is_empty trimmed then text "/" else trimmed in
    parent_or_root normalized ++ text "::" ++ last_part normalized

unfoldable pub to_entry_ids_from_paths : (directory_path : Text) (paths : List Text) → List Text
to_entry_ids_from_paths directory_path paths =
    map to_entry_id_from_path (filter (λ path. text_eq (parent_or_root path) directory_path) paths)
