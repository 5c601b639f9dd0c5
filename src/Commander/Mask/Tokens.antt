-- ===== src/Commander/Mask/Tokens.antt =====
-- Splitting a mask against a plain reading of it: `splitCommanderMaskPatterns` of frontend/src/
-- features/commander/model/store-selection.ts.
use mathlib.Core.List.{reverse, reverse_aux, reverse-reverse}
use rune_terminal.Base.{
  ℕ, ◌≡◌, refl, sym, ap, ◌∙◌, ◌⊎◌, inl, inr, Bool, true, false, not, ◌||◌, ◌==◌, List, [], ◌∷◌,
  ◌++◌, if◌then◌else◌, arith, Bool-cases, filter,
}
use rune_terminal.Text.{Text, is_empty, is_space, trim, trim_start}
use rune_terminal.Commander.Mask.{
  Run, outside, punctuation, space, run_of, same_run, split_from, split_commander_mask_patterns,
}
use rune_terminal.Commander.Mask.Patterns.{map-trim, split_from-NoSeparator}

-- white space, a comma or a semicolon
abbrev pub separates : ℕ → Bool
separates c = is_space c || c == b',' || c == b';'

run_of_outside : (c : ℕ) → same_run (run_of c) outside ≡ not (separates c)
unfolding run_of same_run
run_of_outside c = ground arith

-- a pattern that is read to its end, unless it is empty
abbrev pub emit : Text → List Text → List Text
emit [] rest = rest
emit (c ∷ part) rest = (c ∷ part) ∷ rest

-- The longest stretches of a text that hold no separator, from a stretch that is begun.
pub stretches : Text → Text → List Text
stretches part [] = emit part []
stretches part (c ∷ s) =
    let longer = stretches (part ++ c ∷ []) s in
    let closed = emit part (stretches [] s) in if separates c then closed else longer

filter-emit :
    (part : Text) (rest : List Text)
    → filter (λ p. not (is_empty p)) (part ∷ rest) ≡ emit part (filter (λ p. not (is_empty p)) rest)
unfolding filter
filter-emit [] rest = refl
filter-emit (c ∷ part) rest = refl

-- A run that is skipped has closed its part.
abbrev Fits : Text → Run → Type 0
Fits part run = (run ≡ outside) ⊎ (part ≡ [])

skips :
    (part : Text) (run k : Run)
    → Fits part run
    → same_run k outside ≡ false
    → same_run run k ≡ true
    → part ≡ []
unfolding same_run
skips part run outside (inl e) h m = cc
skips part run punctuation (inl e) h m = absurd (ground arith)
skips part run space (inl e) h m = absurd (ground arith)
skips part run k (inr e) h m = e

filter-split_from :
    (part : Text) (run : Run) (s : Text)
    → Fits part run
    → filter (λ p. not (is_empty p)) (split_from part run s) ≡ stretches part s
unfolding split_from stretches
filter-split_from part run [] h = filter-emit part [] ∙ ap (emit part) (unfold filter in refl)
filter-split_from part run (c ∷ s) h = elim (Bool-cases (separates c)) [
  | inr e ↦
      rw (run_of_outside c, e, split_from, stretches)
        (filter-split_from (part ++ c ∷ []) outside s (inl refl))
  | inl e ↦ elim (Bool-cases (same_run run (run_of c))) [
    | inl m ↦
        let gone = skips part run (run_of c) h (ground (arith, run_of_outside c, e)) m in
        rw (run_of_outside c, e, m, split_from, stretches)
          (rw gone (filter-split_from [] run s (inr refl)))
    | inr m ↦
        rw (run_of_outside c, e, m, split_from, stretches)
          (filter-emit part _ ∙ ap (emit part) (filter-split_from [] (run_of c) s (inr refl)))
  ]
]

-- A mask is split into exactly its longest stretches without white space, commas and semicolons, in
-- their order.
pub split_commander_mask_patterns-stretches :
    (mask : Text) → split_commander_mask_patterns mask ≡ stretches [] mask
unfolding split_commander_mask_patterns
split_commander_mask_patterns-stretches mask =
    rw (map-trim _ (split_from-NoSeparator [] outside mask tt))
      (filter-split_from [] outside mask (inl refl))

space_separates : (c : ℕ) → is_space c ≡ true → separates c ≡ true
space_separates c h = ground arith

stretches_space :
    (part : Text) (c : ℕ) (s : Text)
    → is_space c ≡ true
    → stretches part (c ∷ s) ≡ emit part (stretches [] s)
unfolding stretches
stretches_space part c s h = rw (space_separates c h, stretches) refl

stretches_trailing :
    (part : Text) (s : Text) (c : ℕ)
    → is_space c ≡ true
    → stretches part (s ++ c ∷ []) ≡ stretches part s
unfolding stretches
stretches_trailing part [] c h = stretches_space part c [] h
stretches_trailing part (d ∷ s) c h = elim (Bool-cases (separates d)) [
  | inr e ↦ rw (e, stretches) (stretches_trailing (part ++ d ∷ []) s c h)
  | inl e ↦ rw (e, stretches) (ap (emit part) (stretches_trailing [] s c h))
]

stretches-trim_start : (s : Text) → stretches [] (trim_start s) ≡ stretches [] s
unfolding trim_start
stretches-trim_start [] = refl
stretches-trim_start (c ∷ s) = elim (Bool-cases (is_space c)) [
  | inl e ↦ rw (e, trim_start) (stretches-trim_start s ∙ sym (stretches_space [] c s e))
  | inr e ↦ rw (e, trim_start) refl
]

reverse_aux-split : (s t u : Text) → reverse_aux s (t ++ u) ≡ reverse_aux s t ++ u
reverse_aux-split [] t u = refl
reverse_aux-split (c ∷ s) t u = reverse_aux-split s (c ∷ t) u

-- white space that is cut from the end makes no difference
stretches-reverse :
    (part : Text) (s : Text) → stretches part (reverse (trim_start s)) ≡ stretches part (reverse s)
unfolding trim_start
stretches-reverse part [] = refl
stretches-reverse part (c ∷ s) = elim (Bool-cases (is_space c)) [
  | inl e ↦
      rw (e, trim_start)
        (stretches-reverse part s
          ∙ sym (stretches_trailing part (reverse s) c e)
          ∙ ap (stretches part) (sym (reverse_aux-split s [] (c ∷ []))))
  | inr e ↦ rw (e, trim_start) refl
]

-- Trimming a mask does not change its patterns.
pub split_commander_mask_patterns-trim :
    (mask : Text) → split_commander_mask_patterns (trim mask) ≡ split_commander_mask_patterns mask
unfolding trim
split_commander_mask_patterns-trim mask =
    split_commander_mask_patterns-stretches (trim mask)
    ∙ stretches-reverse [] (reverse (trim_start mask))
    ∙ rw reverse-reverse (stretches-trim_start mask)
    ∙ sym (split_commander_mask_patterns-stretches mask)
