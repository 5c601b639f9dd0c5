-- ===== src/Commander/RuntimePath/Joining.antt =====
-- What a joined path is made of: `normalizeJoinedPath` of frontend/src/shared/api/runtime.ts.
use rune_terminal.Base.{
  ◌≡◌, refl, inl, inr, Bool, true, not, ◌&&◌, List, [], ◌∷◌, ◌++◌, ◌==◌, arith, any, All,
  All-append, filter, last?, drop_last, Bool-cases, Option-cases,
}
use rune_terminal.Text.{Text, text, text_eq, is_empty, starts_with}
use rune_terminal.Commander.ParentPath.{normalize_slashes}
use rune_terminal.Commander.ViewModel.{is_ascii_letter, trim_trailing_separators}
use rune_terminal.Commander.RuntimePath.{
  split_slashes, split_path, join_path, keeps_segment, push_segment, reduce_segments, path_segments,
  normalize_joined_path, join_runtime_path, drive_prefix, with_root,
}

abbrev pub is_slash_free : Text → Bool
is_slash_free segment = not (any (λ c. c == b'/') segment)

-- A name of one entry: not empty, neither `.` nor `..`, and without a slash.
abbrev pub is_plain : Text → Bool
is_plain segment =
    not (is_empty segment)
    && not (text_eq segment (text "."))
    && not (text_eq segment (text ".."))
    && is_slash_free segment

split_slashes-free :
    (path : Text)
    → (is_slash_free (split_slashes path).0 ≡ true)
      × All (λ part. is_slash_free part ≡ true) (split_slashes path).1
unfolding split_slashes any
split_slashes-free [] = (refl, tt)
split_slashes-free (c ∷ s) = elim (Bool-cases (c == b'/')) [
  | inl slash ↦ rw slash (refl, split_slashes-free s)
  | inr other ↦ rw other (ground (arith, (split_slashes-free s).0), (split_slashes-free s).1)
]

drop_last-All :
    (segments : List Text)
    → All (λ s. is_plain s ≡ true) segments
    → All (λ s. is_plain s ≡ true) (drop_last segments)
unfolding drop_last
drop_last-All [] h = tt
drop_last-All (s ∷ []) h = tt
drop_last-All (s ∷ t ∷ segments) (p, h) = (p, drop_last-All (t ∷ segments) h)

push_segment-All :
    (segments : List Text) (segment : Text)
    → All (λ s. is_plain s ≡ true) segments
    → keeps_segment segment && is_slash_free segment ≡ true
    → All (λ s. is_plain s ≡ true) (push_segment segments segment)
unfolding push_segment
push_segment-All segments segment h k = elim (Bool-cases (text_eq segment (text ".."))) [
  | inl up ↦ rw up (elim (Option-cases (last? segments)) [
    | inl e ↦ rw e h
    | inr (last, e) ↦ rw e (elim (Bool-cases (text_eq last (text ".."))) [
      | inl same ↦ rw same h
      | inr other ↦ rw other (drop_last-All segments h)
    ])
  ])
  | inr name ↦
      rw name (
        All-append (λ s. is_plain s ≡ true) segments (segment ∷ []) h (ground (arith, name, k), tt))
]

reduce_segments-All :
    (segments rest : List Text)
    → All (λ s. is_plain s ≡ true) segments
    → All (λ s. keeps_segment s && is_slash_free s ≡ true) rest
    → All (λ s. is_plain s ≡ true) (reduce_segments segments rest)
unfolding reduce_segments
reduce_segments-All segments [] h k = h
reduce_segments-All segments (segment ∷ rest) h (first, k) =
    reduce_segments-All (push_segment segments segment) rest
      (push_segment-All segments segment h first) k

kept-All :
    (parts : List Text)
    → All (λ s. is_slash_free s ≡ true) parts
    → All (λ s. keeps_segment s && is_slash_free s ≡ true) (filter keeps_segment parts)
unfolding filter
kept-All [] h = tt
kept-All (s ∷ parts) (free, h) = elim (Bool-cases (keeps_segment s)) [
  | inl kept ↦ rw kept (ground (arith, kept, free), kept-All parts h)
  | inr gone ↦ rw gone (kept-All parts h)
]

pub path_segments-All : (path : Text) → All (λ s. is_plain s ≡ true) (path_segments path)
unfolding path_segments split_path
path_segments-All path = reduce_segments-All [] _ tt (kept-All _ (split_slashes-free path))

pub with_root-rooted :
    (base joined : Text)
    → starts_with base (text "/") ≡ true
    → with_root base joined ≡ b'/' ∷ joined
unfolding with_root drive_prefix is_ascii_letter starts_with
with_root-rooted [] joined h = cc
with_root-rooted (c ∷ []) [] h = ground (arith, h)
with_root-rooted (c ∷ []) (x ∷ joined) h = ground (arith, h)
with_root-rooted (c ∷ d ∷ s) [] h = ground (arith, h)
with_root-rooted (c ∷ d ∷ s) (x ∷ joined) h = ground (arith, h)

-- Whatever is joined to a path that starts with a slash once its trailing separators are cut: the result
-- is a slash and then segments with slashes between them, of which none is empty, `.` or `..`, however
-- many of those the two paths hold; so it never leads above the root.
pub join_runtime_path-All :
    (path name : Text)
    → starts_with (trim_trailing_separators path) (text "/") ≡ true
    → (segments : List Text) × (join_runtime_path path name ≡ b'/' ∷ join_path segments)
      × All (λ s. is_plain s ≡ true) segments
unfolding join_runtime_path normalize_joined_path
join_runtime_path-All path name rooted =
    let base = trim_trailing_separators path in
    let segments = path_segments (base ++ b'/' ∷ normalize_slashes name) in
    (
      segments,
      with_root-rooted base (join_path segments) rooted,
      path_segments-All (base ++ b'/' ∷ normalize_slashes name),
    )
