-- ===== src/Commander/Mask/Patterns.antt =====
-- Splitting a mask into patterns: `splitCommanderMaskPatterns` of
-- frontend/src/features/commander/model/store-selection.ts.
use rune_terminal.Base.{
  ℕ, ◌≡◌, refl, inl, inr, true, false, not, List, [], ◌∷◌, ◌++◌, arith, Bool-cases, All, All-append,
  filter, map,
}
use mathlib.Core.Path.{ap₂}
use mathlib.Core.List.{reverse, reverse_aux, reverse-reverse}
use rune_terminal.Text.{Text, is_empty, trim, is_space, trim_start}
use rune_terminal.Commander.Mask.{
  Run, outside, run_of, same_run, split_from, split_commander_mask_patterns,
}

-- No code unit of a pattern separates patterns.
abbrev pub NoSeparator : Text → Type 0
NoSeparator s = All (λ c. run_of c ≡ outside) s

eq-outside_of_same_run : (k : Run) → same_run k outside ≡ true → k ≡ outside
unfolding same_run
eq-outside_of_same_run Run.punctuation h = cc
eq-outside_of_same_run Run.space h = cc
eq-outside_of_same_run outside h = refl

pub split_from-NoSeparator :
    (part : Text) (run : Run) (s : Text)
    → NoSeparator part
    → All NoSeparator (split_from part run s)
unfolding split_from
split_from-NoSeparator part run [] h = (h, tt)
split_from-NoSeparator part run (c ∷ s) h = elim (Bool-cases (same_run (run_of c) outside)) [
  | inl e ↦ rw e (
      split_from-NoSeparator (part ++ c ∷ []) outside s
        (All-append (λ d. run_of d ≡ outside) part (c ∷ []) h (eq-outside_of_same_run _ e, tt)))
  | inr e ↦ elim (Bool-cases (same_run run (run_of c))) [
    | inl f ↦ rw (e, f) (split_from-NoSeparator part run s h)
    | inr f ↦ rw (e, f) (h, split_from-NoSeparator [] (run_of c) s tt)
  ]
]

-- A pattern that holds no separator is left alone by `trim`.
space-run_of : (c : ℕ) → run_of c ≡ outside → is_space c ≡ false
unfolding run_of
space-run_of c h = ground arith

trim_start_of_NoSeparator : (s : Text) → NoSeparator s → trim_start s ≡ s
unfolding trim_start
trim_start_of_NoSeparator [] h = refl
trim_start_of_NoSeparator (c ∷ s) (e, h) = rw (space-run_of c e)

NoSeparator-reverse_aux :
    (xs ys : Text) → NoSeparator xs → NoSeparator ys → NoSeparator (reverse_aux xs ys)
NoSeparator-reverse_aux [] ys h k = k
NoSeparator-reverse_aux (x ∷ xs) ys (e, h) k = NoSeparator-reverse_aux xs (x ∷ ys) h (e, k)

pub trim_of_NoSeparator : (s : Text) → NoSeparator s → trim s ≡ s
unfolding trim
trim_of_NoSeparator s h = rw (
  trim_start_of_NoSeparator s h,
  trim_start_of_NoSeparator (reverse s) (NoSeparator-reverse_aux s [] h tt),
  reverse-reverse,
)

pub map-trim : (parts : List Text) → All NoSeparator parts → map trim parts ≡ parts
map-trim [] h = refl
map-trim (part ∷ parts) (k, h) = ap₂ ◌∷◌ (trim_of_NoSeparator part k) (map-trim parts h)

-- Each pattern that a mask is split into is not empty and holds no separator.
abbrev pub IsPattern : Text → Type 0
IsPattern part = (is_empty part ≡ false) × NoSeparator part

patterns-IsPattern :
    (parts : List Text)
    → All NoSeparator parts
    → All IsPattern (filter (λ part. not (is_empty part)) parts)
unfolding filter
patterns-IsPattern [] h = tt
patterns-IsPattern ([] ∷ parts) (k, h) = patterns-IsPattern parts h
patterns-IsPattern ((c ∷ s) ∷ parts) (k, h) = ((refl, k), patterns-IsPattern parts h)

pub split_commander_mask_patterns-IsPattern :
    (mask : Text) → All IsPattern (split_commander_mask_patterns mask)
unfolding split_commander_mask_patterns
split_commander_mask_patterns-IsPattern mask =
    let h = split_from-NoSeparator [] outside mask tt in rw (map-trim _ h) (patterns-IsPattern _ h)
