-- ===== src/Tests/Paths.antt =====
-- The theorems on joined paths at concrete inputs.
use rune_terminal.Base.{◌≡◌, refl, true, some, List, [], ◌∷◌, ◌++◌, any, All}
use rune_terminal.Text.{Text, text, text_eq, starts_with}
use rune_terminal.Commander.ParentPath.{normalize_slashes, trim_slashes, drop_slashes}
use rune_terminal.Commander.ViewModel.{trim_trailing_separators, is_drive_root, is_ascii_letter}
use rune_terminal.Commander.RuntimePath.{join_path, join_runtime_path, get_runtime_path_parent}
use rune_terminal.Commander.RuntimePath.Joining.{is_plain, join_runtime_path-All}
use rune_terminal.Commander.RuntimePath.Parents.{get_runtime_path_parent-join_runtime_path}

join_runtime_path-All_example :
    (segments : List Text) × (join_runtime_path (text "/home/") (text "../../etc/./x")
      ≡ b'/' ∷ join_path segments)
    × All (λ s. is_plain s ≡ true) segments
unfolding trim_trailing_separators is_drive_root is_ascii_letter normalize_slashes trim_slashes
    drop_slashes text_eq starts_with
join_runtime_path-All_example = join_runtime_path-All (text "/home/") (text "../../etc/./x") refl

get_runtime_path_parent-join_runtime_path_example :
    let path = b'/' ∷ join_path (text "home" ∷ text "me" ∷ []) in
    (join_runtime_path path (text "a.txt")
      ≡ b'/' ∷ join_path ((text "home" ∷ text "me" ∷ []) ++ text "a.txt" ∷ []))
    × (get_runtime_path_parent (join_runtime_path path (text "a.txt")) ≡ some path)
unfolding text_eq any
get_runtime_path_parent-join_runtime_path_example =
    get_runtime_path_parent-join_runtime_path (text "home" ∷ text "me" ∷ []) (text "a.txt")
      (refl, (refl, tt)) refl
