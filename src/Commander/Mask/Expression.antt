-- ===== src/Commander/Mask/Expression.antt =====
-- Compiling a mask pattern: `escapeCommanderMaskRegExp` and `commanderMaskPatternToRegExp` of
-- frontend/src/features/commander/model/store-selection.ts.
use rune_terminal.Base.{
  ℕ, ◌≡◌, refl, inl, inr, true, false, some, [], ◌∷◌, ◌++◌, if◌then◌else◌, ◌==◌, map, arith,
  Bool-cases,
}
use mathlib.Core.List.{append_assoc}
use mathlib.Core.Option
use rune_terminal.Text.{Text, trim, is_empty, join}
use rune_terminal.Commander.Mask.{
  is_syntax, escape_commander_mask_reg_exp, expression_of, Term, stars, wild, unit, parse_terms,
  reg_exp, commander_mask_pattern_source, commander_mask_pattern_to_reg_exp,
}

-- What a code unit of a pattern stands for.
abbrev pub term_of : ℕ → Term
term_of c = if c == b'*' then stars else if c == b'?' then wild else unit c

-- The four ways in which a code unit of a pattern is written into the source.
data Written (c : ℕ) : Type 0 where
  as_stars : expression_of c ≡ b'.' ∷ b'*' ∷ [] → term_of c ≡ stars → Written c
  as_wild : expression_of c ≡ b'.' ∷ [] → term_of c ≡ wild → Written c
  escaped : expression_of c ≡ b'\\' ∷ c ∷ [] → term_of c ≡ unit c → is_syntax c ≡ true → Written c
  plain : expression_of c ≡ c ∷ [] → term_of c ≡ unit c → is_syntax c ≡ false → Written c

written : (c : ℕ) → Written c
unfolding expression_of escape_commander_mask_reg_exp
written c = elim (Bool-cases (c == b'*')) [
  | inl e ↦ as_stars (rw e) (rw e)
  | inr e ↦ elim (Bool-cases (c == b'?')) [
    | inl f ↦ as_wild (rw (e, f)) (rw (e, f))
    | inr f ↦ elim (Bool-cases (is_syntax c)) [
      | inl g ↦ escaped (rw (e, f, g)) (rw (e, f)) g
      | inr g ↦ plain (rw (e, f, g)) (rw (e, f)) g
    ]
  ]
]

plain_ne :
    (c : ℕ)
    → is_syntax c ≡ false
    → ((c == b'*') ≡ false) × ((c == b'.') ≡ false) × ((c == b'\\') ≡ false)
unfolding is_syntax
plain_ne c h = ground arith

-- What follows a code unit in a source never begins with `*`.
data StartsPlain : Text → Type 0 where
  starts_plain : (d : ℕ) (s : Text) → (d == b'*') ≡ false → StartsPlain (d ∷ s)

source_of : Text → Text
unfolding join
source_of p = join (map expression_of p) ++ b'$' ∷ []

source_of-cons : (c : ℕ) (p : Text) → source_of (c ∷ p) ≡ expression_of c ++ source_of p
unfolding source_of
source_of-cons c p = append_assoc (expression_of c) (join (map expression_of p)) (b'$' ∷ [])

source_of-StartsPlain : (p : Text) → StartsPlain (source_of p)
unfolding source_of
source_of-StartsPlain [] = starts_plain b'$' [] refl
source_of-StartsPlain (c ∷ p) = elim (written c) [
  | as_stars e _ ↦ rw e (starts_plain b'.' _ refl)
  | as_wild e _ ↦ rw e (starts_plain b'.' _ refl)
  | escaped e _ _ ↦ rw e (starts_plain b'\\' _ refl)
  | plain e _ g ↦ rw e (starts_plain c _ (plain_ne c g).0)
]

parse_terms_wild :
    (s : Text) → StartsPlain s → parse_terms (b'.' ∷ s) ≡ Option.map (◌∷◌ wild) (parse_terms s)
unfolding parse_terms
parse_terms_wild s (starts_plain d t e) = rw e

parse_terms_plain :
    (c : ℕ) (s : Text)
    → is_syntax c ≡ false
    → StartsPlain s
    → parse_terms (c ∷ s) ≡ Option.map (◌∷◌ (unit c)) (parse_terms s)
unfolding parse_terms
parse_terms_plain c s g (starts_plain d t e) = rw ((plain_ne c g).1, (plain_ne c g).2, g)

parse_terms_escaped :
    (c : ℕ) (s : Text)
    → is_syntax c ≡ true
    → parse_terms (b'\\' ∷ c ∷ s) ≡ Option.map (◌∷◌ (unit c)) (parse_terms s)
unfolding parse_terms
parse_terms_escaped c s g = rw g

parse_terms-source_of : (p : Text) → parse_terms (source_of p) ≡ some (map term_of p)
unfolding parse_terms
parse_terms-source_of [] = unfold source_of in refl
parse_terms-source_of (c ∷ p) = rw source_of-cons (elim (written c) [
  | as_stars e t ↦ rw (e, t) (rw (parse_terms-source_of p))
  | as_wild e t ↦
      rw (e, t, parse_terms_wild _ (source_of-StartsPlain p)) (rw (parse_terms-source_of p))
  | escaped e t g ↦ rw (e, t, parse_terms_escaped c _ g) (rw (parse_terms-source_of p))
  | plain e t g ↦
      rw (e, t, parse_terms_plain c _ g (source_of-StartsPlain p)) (rw (parse_terms-source_of p))
])

pub commander_mask_pattern_to_reg_exp-term_of :
    (pattern : Text)
    → is_empty (trim pattern) ≡ false
    → commander_mask_pattern_to_reg_exp pattern ≡ some (map term_of (trim pattern))
unfolding commander_mask_pattern_to_reg_exp commander_mask_pattern_source reg_exp Option.bind
    parse_terms
commander_mask_pattern_to_reg_exp-term_of pattern h =
    rw h (unfold join source_of in parse_terms-source_of (trim pattern))
