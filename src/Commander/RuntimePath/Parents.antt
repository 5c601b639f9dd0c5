-- ===== src/Commander/RuntimePath/Parents.antt =====
-- Down to an entry and up again: `joinRuntimePath` and `getRuntimePathParent` of
-- frontend/src/shared/api/runtime.ts.
use mathlib.Core.List.{reverse, reverse-append, reverse-reverse, append_assoc}
use rune_terminal.Base.{
  ℕ, ◌≡◌, refl, sym, ap, ◌∙◌, inl, inr, false, true, none, some, List, [], ◌∷◌, ◌++◌, ◌==◌, arith,
  any, take, length, All, All-append, Bool-cases,
}
use rune_terminal.Text.{Text, text, text_eq, starts_with}
use rune_terminal.Commander.ParentPath.{normalize_slashes, drop_slashes, trim_slashes, last_slash?}
use rune_terminal.Commander.ViewModel.{is_drive_root, is_ascii_letter, trim_trailing_separators}
use rune_terminal.Commander.RuntimePath.{
  join_path, normalize_joined_path, join_runtime_path, cut_parent, get_runtime_path_parent,
}
use rune_terminal.Commander.RuntimePath.Joining.{is_slash_free, with_root-rooted}
use rune_terminal.Commander.RuntimePath.Names.{
  IsName, normalize_slashes_free, backslash_free-append, backslash_free-join, join_path-snoc,
  path_segments-below,
}

-- Nothing is cut from a text whose last unit is no slash.
trim_slashes-snoc :
    (s : Text) (c : ℕ) → c == b'/' ≡ false → trim_slashes (s ++ c ∷ []) ≡ s ++ c ∷ []
unfolding trim_slashes drop_slashes
trim_slashes-snoc s c h =
    rw (reverse-append s (c ∷ []))
      (rw h (ap reverse (sym (reverse-append s (c ∷ []))) ∙ reverse-reverse (s ++ c ∷ [])))

last_slash?_free : (name : Text) → is_slash_free name ≡ true → last_slash? name ≡ none
unfolding last_slash? any
last_slash?_free [] h = refl
last_slash?_free (c ∷ name) h = rw (last_slash?_free name (ground (arith, h))) (ground (arith, h))

last_slash?-name :
    (s name : Text) → is_slash_free name ≡ true → last_slash? (s ++ b'/' ∷ name) ≡ some (length s)
unfolding last_slash?
last_slash?-name [] name h = rw (last_slash?_free name h) refl
last_slash?-name (c ∷ s) name h = rw (last_slash?-name s name h) refl

take-length : (s t : Text) → take (length s) (s ++ t) ≡ s
take-length [] t = refl
take-length (c ∷ s) t = ap (λ rest. c ∷ rest) (take-length s t)

-- The text ends by a unit that is no slash.
abbrev EndsBelow : Text → Type 0
EndsBelow s = (t : Text) × (c : ℕ) × (s ≡ t ++ c ∷ []) × (c == b'/' ≡ false)

EndsBelow-append : (s t : Text) → EndsBelow t → EndsBelow (s ++ t)
EndsBelow-append s t (u, c, e, h) =
    (s ++ u, c, ap (λ v. s ++ v) e ∙ sym (append_assoc s u (c ∷ [])), h)

EndsBelow-name : (c : ℕ) (s : Text) → is_slash_free (c ∷ s) ≡ true → EndsBelow (c ∷ s)
unfolding any
EndsBelow-name c [] h = ([], c, refl, ground (arith, h))
EndsBelow-name c (d ∷ s) h =
    EndsBelow-append (c ∷ []) (d ∷ s) (EndsBelow-name d s (ground (arith, h)))

EndsBelow-join :
    (s : Text) (segments : List Text)
    → All IsName (s ∷ segments)
    → EndsBelow (join_path (s ∷ segments))
unfolding join_path
EndsBelow-join [] [] (p, h) = ground (arith, p)
EndsBelow-join (c ∷ s) [] (p, h) = EndsBelow-name c s (ground (arith, p))
EndsBelow-join s (t ∷ segments) (p, h) =
    EndsBelow-append s (b'/' ∷ join_path (t ∷ segments))
      (EndsBelow-append (b'/' ∷ []) (join_path (t ∷ segments)) (EndsBelow-join t segments h))

trim_slashes-below : (s : Text) → EndsBelow s → trim_slashes s ≡ s
trim_slashes-below s (t, c, e, h) = rw e (trim_slashes-snoc t c h)

is_drive_root-rooted : (t : Text) → is_drive_root (b'/' ∷ t) ≡ false
unfolding is_drive_root is_ascii_letter
is_drive_root-rooted [] = refl
is_drive_root-rooted (c ∷ []) = refl
is_drive_root-rooted (c ∷ d ∷ []) = refl
is_drive_root-rooted (c ∷ d ∷ e ∷ s) = refl

trim_trailing_separators-names :
    (segments : List Text)
    → All IsName segments
    → trim_trailing_separators (b'/' ∷ join_path segments) ≡ b'/' ∷ join_path segments
unfolding trim_trailing_separators
trim_trailing_separators-names [] h =
    unfold normalize_slashes text_eq join_path is_drive_root in refl
trim_trailing_separators-names (s ∷ segments) h =
    let path = b'/' ∷ join_path (s ∷ segments) in
    let kept : normalize_slashes path ≡ path = normalize_slashes_free path (
      backslash_free-append (b'/' ∷ []) (join_path (s ∷ segments)) (unfold any in refl)
        (backslash_free-join (s ∷ segments) h)) in
    rw (kept, is_drive_root-rooted (join_path (s ∷ segments)))
      (elim (Bool-cases (text_eq path (text "/"))) [
        | inl root ↦ rw root refl
        | inr below ↦ rw below (
            trim_slashes-below path (
              EndsBelow-append (b'/' ∷ []) (join_path (s ∷ segments))
                (EndsBelow-join s segments h)))
      ])

not_root : (s name : Text) → text_eq (b'/' ∷ (s ++ b'/' ∷ name)) (text "/") ≡ false
unfolding text_eq
not_root [] name = refl
not_root (c ∷ s) name = refl

cut_parent-name :
    (s name : Text)
    → is_slash_free name ≡ true
    → cut_parent ((b'/' ∷ s) ++ b'/' ∷ name) ≡ some (b'/' ∷ s)
unfolding cut_parent last_slash?
cut_parent-name s name h =
    rw (last_slash?-name (b'/' ∷ s) name h) (ap some (take-length (b'/' ∷ s) (b'/' ∷ name)))

parent-names :
    (segments : List Text) (name : Text)
    → All IsName segments
    → IsName name
    → get_runtime_path_parent (b'/' ∷ join_path (segments ++ name ∷ []))
      ≡ some (b'/' ∷ join_path segments)
unfolding get_runtime_path_parent text_eq join_path last_slash?
parent-names [] [] h k = ground (arith, k)
parent-names [] (c ∷ s) h k =
    rw (trim_trailing_separators-names ((c ∷ s) ∷ []) (k, tt), is_drive_root-rooted (c ∷ s))
      (unfold cut_parent text_eq join_path in
        rw (last_slash?-name [] (c ∷ s) (ground (arith, k))) refl)
parent-names (s ∷ segments) name h k =
    rw
      (trim_trailing_separators-names ((s ∷ segments) ++ name ∷ [])
        (All-append IsName (s ∷ segments) (name ∷ []) h (k, tt)))
      (rw (join_path-snoc s segments name) (
        rw
          (
            is_drive_root-rooted (join_path (s ∷ segments) ++ b'/' ∷ name),
            not_root (join_path (s ∷ segments)) name,
          )
          (cut_parent-name (join_path (s ∷ segments)) name (ground (arith, k)))))

-- For an absolute path of names and one more name, each of them neither empty nor `.` nor `..` and without
-- slashes and backslashes: joining the name to the path appends it, and the parent of the result is the
-- path again.
pub get_runtime_path_parent-join_runtime_path :
    (segments : List Text) (name : Text)
    → All IsName segments
    → IsName name
    → let path = b'/' ∷ join_path segments in
      (join_runtime_path path name ≡ b'/' ∷ join_path (segments ++ name ∷ []))
      × (get_runtime_path_parent (join_runtime_path path name) ≡ some path)
unfolding join_runtime_path normalize_joined_path
get_runtime_path_parent-join_runtime_path segments name h k =
    let path = b'/' ∷ join_path segments in
    let joined : join_runtime_path path name ≡ b'/' ∷ join_path (segments ++ name ∷ []) =
      rw
        (
          trim_trailing_separators-names segments h,
          normalize_slashes_free name (ground (arith, k)),
          path_segments-below segments name h k,
        )
        (with_root-rooted path (join_path (segments ++ name ∷ [])) (unfold starts_with in refl)) in
    (joined, ap get_runtime_path_parent joined ∙ parent-names segments name h k)
