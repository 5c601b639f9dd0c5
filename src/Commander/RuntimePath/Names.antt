-- ===== src/Commander/RuntimePath/Names.antt =====
-- Paths that are made of names: how they are split and taken together again by
-- `normalizeJoinedPath` of frontend/src/shared/api/runtime.ts.
use mathlib.Core.List.{append_assoc, append-nil}
use rune_terminal.Base.{
  ◌≡◌, refl, sym, ap, ◌∙◌, inl, inr, Bool, true, false, not, ◌&&◌, List, [], ◌∷◌, ◌++◌, ◌==◌, arith,
  any, All, All-append, filter, Bool-cases,
}
use rune_terminal.Text.{Text, text, text_eq}
use rune_terminal.Commander.ParentPath.{normalize_slashes}
use rune_terminal.Commander.RuntimePath.{
  split_slashes, split_path, join_path, keeps_segment, push_segment, reduce_segments, path_segments,
}
use rune_terminal.Commander.RuntimePath.Joining.{is_plain, is_slash_free}

abbrev pub is_backslash_free : Text → Bool
is_backslash_free s = not (any (λ c. c == b'\\') s)

-- A name that stands in a path as it is.
abbrev pub IsName : Text → Type 0
IsName segment = is_plain segment && is_backslash_free segment ≡ true

pub normalize_slashes_free : (s : Text) → is_backslash_free s ≡ true → normalize_slashes s ≡ s
unfolding normalize_slashes any
normalize_slashes_free [] h = refl
normalize_slashes_free (c ∷ s) h = ground (arith, h, normalize_slashes_free s)

pub backslash_free-append :
    (s t : Text)
    → is_backslash_free s ≡ true
    → is_backslash_free t ≡ true
    → is_backslash_free (s ++ t) ≡ true
unfolding any
backslash_free-append [] t h k = k
backslash_free-append (c ∷ s) t h k = ground (arith, h, backslash_free-append s t)

pub backslash_free-join :
    (segments : List Text) → All IsName segments → is_backslash_free (join_path segments) ≡ true
unfolding join_path any
backslash_free-join [] h = refl
backslash_free-join (s ∷ []) (p, h) = ground (arith, p)
backslash_free-join (s ∷ t ∷ segments) (p, h) =
    backslash_free-append s (b'/' ∷ join_path (t ∷ segments)) (ground (arith, p))
      (ground (arith, backslash_free-join (t ∷ segments) h))

-- A part without a slash, up to the slash behind it or to the end.
pub split_slashes-part :
    (part rest : Text)
    → is_slash_free part ≡ true
    → split_slashes (part ++ b'/' ∷ rest) ≡ (part, split_path rest)
unfolding split_path split_slashes any
split_slashes-part [] rest h = refl
split_slashes-part (c ∷ part) rest h = elim (Bool-cases (c == b'/')) [
  | inl slash ↦ ground (arith, h, slash)
  | inr other ↦ rw (other, split_slashes-part part rest (ground (arith, h))) refl
]

pub split_slashes_free : (part : Text) → is_slash_free part ≡ true → split_slashes part ≡ (part, [])
unfolding split_slashes any
split_slashes_free [] h = refl
split_slashes_free (c ∷ part) h = elim (Bool-cases (c == b'/')) [
  | inl slash ↦ ground (arith, h, slash)
  | inr other ↦ rw (other, split_slashes_free part (ground (arith, h))) refl
]

pub split_path-join :
    (segments : List Text) (name : Text)
    → All IsName segments
    → IsName name
    → split_path (join_path (segments ++ name ∷ [])) ≡ segments ++ name ∷ []
unfolding split_path join_path
split_path-join [] name h k = rw (split_slashes_free name (ground (arith, k))) refl
split_path-join (s ∷ []) name (p, h) k =
    rw (split_slashes-part s name (ground (arith, p)))
      (ap (λ parts. s ∷ parts) (split_path-join [] name tt k))
split_path-join (s ∷ t ∷ segments) name (p, h) k =
    rw (split_slashes-part s (join_path (t ∷ segments ++ name ∷ [])) (ground (arith, p)))
      (ap (λ parts. s ∷ parts) (split_path-join (t ∷ segments) name h k))

pub filter-names :
    (segments : List Text) → All IsName segments → filter keeps_segment segments ≡ segments
unfolding filter
filter-names [] h = refl
filter-names (s ∷ segments) (p, h) =
    let kept : keeps_segment s ≡ true = ground (arith, p) in
    rw kept (ap (λ rest. s ∷ rest) (filter-names segments h))

pub reduce-names :
    (front segments : List Text)
    → All IsName segments
    → reduce_segments front segments ≡ front ++ segments
unfolding reduce_segments push_segment
reduce-names front [] h = sym (append-nil front)
reduce-names front (s ∷ segments) (p, h) =
    let name : text_eq s (text "..") ≡ false = ground (arith, p) in
    rw name (reduce-names (front ++ s ∷ []) segments h ∙ append_assoc front (s ∷ []) segments)

-- the path with one slash behind it, or two behind the root
pub join_path-snoc :
    (s : Text) (segments : List Text) (name : Text)
    → join_path ((s ∷ segments) ++ name ∷ []) ≡ join_path (s ∷ segments) ++ b'/' ∷ name
unfolding join_path
join_path-snoc s [] name = refl
join_path-snoc s (t ∷ segments) name =
    ap (λ rest. s ++ b'/' ∷ rest) (join_path-snoc t segments name)
    ∙ sym (append_assoc s (b'/' ∷ join_path (t ∷ segments)) (b'/' ∷ name))

pub path_segments-slash : (t : Text) → path_segments (b'/' ∷ t) ≡ path_segments t
unfolding path_segments filter split_path split_slashes
path_segments-slash t = refl

pub path_segments-names :
    (segments : List Text) (name : Text)
    → All IsName segments
    → IsName name
    → path_segments (join_path (segments ++ name ∷ [])) ≡ segments ++ name ∷ []
unfolding path_segments
path_segments-names segments name h k =
    let names = segments ++ name ∷ [] in
    let all : All IsName names = All-append IsName segments (name ∷ []) h (k, tt) in
    rw (split_path-join segments name h k)
      (ap (reduce_segments []) (filter-names names all) ∙ reduce-names [] names all)

pub path_segments-below :
    (segments : List Text) (name : Text)
    → All IsName segments
    → IsName name
    → path_segments ((b'/' ∷ join_path segments) ++ b'/' ∷ name) ≡ segments ++ name ∷ []
unfolding join_path
path_segments-below [] name h k =
    path_segments-slash (b'/' ∷ name) ∙ path_segments-slash name ∙ path_segments-names [] name h k
path_segments-below (s ∷ segments) name h k =
    path_segments-slash (join_path (s ∷ segments) ++ b'/' ∷ name)
    ∙ ap path_segments (sym (join_path-snoc s segments name))
    ∙ path_segments-names (s ∷ segments) name h k
