-- ===== src/Commander/ParentPath/Climbing.antt =====
-- Going up from a path ends: `getCommanderParentPath` of frontend/src/features/commander/model/
-- pane-state.ts, over and over.
use mathlib.Core.List.{reverse, reverse_aux}
use rune_terminal.Base.{
  ℕ, zero, suc, ◌+◌, ◌≤◌, ◌<◌, ◌≡◌, refl, sym, ◌⊎◌, inl, inr, false, Option, none, some, [], ◌∷◌,
  if◌then◌else◌, ◌==◌, arith, Option-cases, length, length-map, take, length-take-le,
}
use mathlib.Core.Option
use rune_terminal.Text.{Text, is_empty}
use rune_terminal.Commander.ParentPath.{
  normalize_slashes, drop_slashes, trim_slashes, last_slash?, get_commander_parent_path,
}

-- So many steps up from a path: `none` is above the root.
abbrev pub climb : ℕ → Text → Option Text
climb zero path = some path
climb (suc n) path = elim (get_commander_parent_path path) [ none ↦ none | some q ↦ climb n q ]

length-reverse_aux : (s t : Text) → length (reverse_aux s t) ≡ length s + length t
length-reverse_aux [] t = omega arith
length-reverse_aux (c ∷ s) t = omega (arith, length-reverse_aux s (c ∷ t))

length-drop_slashes-le : (s : Text) → length (drop_slashes s) ≤ length s
unfolding drop_slashes
length-drop_slashes-le [] = omega arith
length-drop_slashes-le (c ∷ s) = ground (arith, length-drop_slashes-le s)

length-trim_slashes-le : (s : Text) → length (trim_slashes s) ≤ length s
unfolding trim_slashes
length-trim_slashes-le s = omega (
  arith,
  length-reverse_aux s [],
  length-drop_slashes-le (reverse s),
  length-reverse_aux (drop_slashes (reverse s)) [],
)

last_slash?-lt-length : (s : Text) (i : ℕ) → last_slash? s ≡ some i → i < length s
unfolding last_slash?
last_slash?-lt-length [] i h = cc
last_slash?-lt-length (c ∷ s) i h = elim (Option-cases (last_slash? s)) [
  | inl e ↦ ground arith
  | inr (j, e) ↦ ground (arith, last_slash?-lt-length s j e)
]

trimmed-le : (path : Text) → length (trim_slashes (normalize_slashes path)) ≤ length path
unfolding normalize_slashes
trimmed-le path = omega (
  arith,
  length-trim_slashes-le (normalize_slashes path),
  length-map path (λ c. if c == b'\\' then b'/' else c),
)

shorter_of :
    (path trimmed q : Text) (at : Option ℕ)
    → length trimmed ≤ length path
    → ((i : ℕ) → at ≡ some i → i < length trimmed)
    → (if is_empty path then none else if is_empty trimmed then none else elim at [
      | none ↦ none
      | some zero ↦ some (b'/' ∷ [])
      | some (suc i) ↦ some (take (suc i) trimmed)
    ])
      ≡ some q
    → (is_empty path ≡ false) × ((q ≡ b'/' ∷ []) ⊎ (length q < length path))
shorter_of [] trimmed q at le lt h = cc
shorter_of (c ∷ path) [] q at le lt h = cc
shorter_of (c ∷ path) (d ∷ trimmed) q none le lt h = cc
shorter_of (c ∷ path) (d ∷ trimmed) q (some zero) le lt h =
    (refl, inl (sym (Option.some-injective _ _ h)))
shorter_of (c ∷ path) (d ∷ trimmed) q (some (suc i)) le lt h =
    let cut : q ≡ take (suc i) (d ∷ trimmed) = sym (Option.some-injective _ _ h) in
    let bound = length-take-le (suc i) (d ∷ trimmed) in
    let before = lt (suc i) refl in (refl, inr (rw cut (omega (arith, bound, before, le))))

-- A parent is the root, or shorter.
parent_shorter :
    (path q : Text)
    → get_commander_parent_path path ≡ some q
    → (is_empty path ≡ false) × ((q ≡ b'/' ∷ []) ⊎ (length q < length path))
unfolding get_commander_parent_path
parent_shorter path q h =
    shorter_of path _ q (last_slash? (trim_slashes (normalize_slashes path))) (trimmed-le path)
      (last_slash?-lt-length _) h

climb_root : (n : ℕ) → climb (suc n) (b'/' ∷ []) ≡ none
unfolding get_commander_parent_path trim_slashes normalize_slashes drop_slashes
climb_root n = refl

climb_root_within : (n : ℕ) → 0 < n → climb n (b'/' ∷ []) ≡ none
climb_root_within zero h = absurd (omega arith)
climb_root_within (suc n) h = climb_root n

filled_within : (n : ℕ) (path : Text) → is_empty path ≡ false → length path < suc n → 0 < n
filled_within n [] h k = cc
filled_within n (c ∷ path) h k = omega arith

climb_within : (n : ℕ) (path : Text) → length path < n → climb n path ≡ none
climb_within zero path h = absurd (omega arith)
climb_within (suc n) path h = elim (Option-cases (get_commander_parent_path path)) [
  | inl e ↦ rw (e, climb) refl
  | inr (q, e) ↦
      rw (e, climb)
        (elim (parent_shorter path q e).1 [
          | inl at_root ↦
              rw at_root (climb_root_within n (filled_within n path (parent_shorter path q e).0 h))
          | inr shorter ↦ climb_within n q (omega arith)
        ])
]

-- From every path, going up to the parent over and over ends, within one step more than the path has
-- code units.
pub climb-length : (path : Text) → climb (suc (length path)) path ≡ none
climb-length path = climb_within (suc (length path)) path (omega arith)
