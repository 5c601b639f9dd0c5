-- ===== src/Commander/ParentPath.antt =====
-- `getCommanderParentPath` of frontend/src/features/commander/model/pane-state.ts.
pub mod Climbing
use mathlib.Core.List.{reverse}
use rune_terminal.Base.{
  ℕ, zero, suc, Bool, Option, none, some, List, [], ◌∷◌, map, if◌then◌else◌, ◌==◌, take,
}
use mathlib.Core.Option
use rune_terminal.Text.{Text, is_empty}

-- `path.replace(/\\/g, '/')`
unfoldable pub normalize_slashes : Text → Text
normalize_slashes = map (λ c. if c == b'\\' then b'/' else c)

unfoldable pub drop_slashes : Text → Text
drop_slashes [] = []
drop_slashes (c ∷ s) = let rest = drop_slashes s in if c == b'/' then rest else c ∷ s

-- `path.replace(/\/+$/g, '')`
unfoldable pub trim_slashes : Text → Text
trim_slashes s = reverse (drop_slashes (reverse s))

-- `s.lastIndexOf('/')`, with `none` for -1
unfoldable pub last_slash? : Text → Option ℕ
last_slash? [] = none
last_slash? (c ∷ s) = elim (last_slash? s) [
  | some i ↦ some (suc i)
  | none ↦ if c == b'/' then some 0 else none
]

-- The trimmed path can be no "/" here, so the second test of that condition is left out.
unfoldable pub get_commander_parent_path : Text → Option Text
get_commander_parent_path path =
    let trimmed = trim_slashes (normalize_slashes path) in
    if is_empty path then none else if is_empty trimmed then none else elim (last_slash? trimmed) [
      | none ↦ none
      | some zero ↦ some (b'/' ∷ [])
      | some (suc i) ↦ some (take (suc i) trimmed)
    ]
