-- ===== src/Commander/Mask/Matching.antt =====
-- What a compiled mask matches: `expression.test` in `getCommanderMatchedEntries` of
-- frontend/src/features/commander/model/store-selection.ts.
use rune_terminal.Base.{
  ℕ, ◌≡◌, refl, ◌↔◌, inl, inr, true, false, List, [], ◌∷◌, ◌++◌, arith, Bool-cases, All, ap,
}
use rune_terminal.Text.{Text}
use rune_terminal.Locale.{Locale, canonicalize}
use rune_terminal.Commander.Mask.{Term, stars, wild, unit, is_line_terminator, test}

module _ ⦃l : Locale⦄ where
  -- The texts that a list of terms stands for, with no order of trials: a `.*` is any text without
  -- a line terminator.
  abbrev pub Accepts : List Term → Text → Type 0
  Accepts [] s = s ≡ []
  Accepts (stars ∷ ts) s =
      (front rest : Text) × (s ≡ front ++ rest)
      × All (λ c. is_line_terminator c ≡ false) front
      × Accepts ts rest
  Accepts (wild ∷ ts) s =
      (c : ℕ) × (rest : Text) × (s ≡ c ∷ rest) × (is_line_terminator c ≡ false) × Accepts ts rest
  Accepts (unit d ∷ ts) s =
      (c : ℕ) × (rest : Text) × (s ≡ c ∷ rest) × (canonicalize c ≡ canonicalize d) × Accepts ts rest

  test-Accepts : (ts : List Term) (s : Text) → test ts s ≡ true → Accepts ts s
  unfolding test
  test-Accepts [] [] h = refl
  test-Accepts [] (c ∷ s) h = cc
  test-Accepts (stars ∷ ts) [] h = ([], [], refl, tt, test-Accepts ts [] h)
  test-Accepts (stars ∷ ts) (c ∷ s) h = elim (Bool-cases (test ts (c ∷ s))) [
    | inl e ↦ ([], c ∷ s, refl, tt, test-Accepts ts (c ∷ s) e)
    | inr e ↦ elim (Bool-cases (is_line_terminator c)) [
      | inl f ↦ absurd (ground arith)
      | inr f ↦
          let (front, rest, eq, plain, more) = test-Accepts (stars ∷ ts) s (ground arith) in
          (c ∷ front, rest, ap (c ∷◌) eq, (f, plain), more)
    ]
  ]
  test-Accepts (wild ∷ ts) [] h = cc
  test-Accepts (wild ∷ ts) (c ∷ s) h = (c, s, refl, ground arith, test-Accepts ts s (ground arith))
  test-Accepts (unit d ∷ ts) [] h = cc
  test-Accepts (unit d ∷ ts) (c ∷ s) h =
      (c, s, refl, ground arith, test-Accepts ts s (ground arith))

  test_skip :
      (ts : List Term) (front rest : Text)
      → All (λ c. is_line_terminator c ≡ false) front
      → test ts rest ≡ true
      → test (stars ∷ ts) (front ++ rest) ≡ true
  unfolding test
  test_skip ts [] [] h e = e
  test_skip ts [] (c ∷ rest) h e = rw e
  test_skip ts (c ∷ front) rest (f, h) e = ground (arith, test_skip ts front rest h e)

  Accepts-test : (ts : List Term) (s : Text) → Accepts ts s → test ts s ≡ true
  unfolding test
  Accepts-test [] s h = rw h
  Accepts-test (stars ∷ ts) s (front, rest, eq, plain, more) =
      rw eq (test_skip ts front rest plain (Accepts-test ts rest more))
  Accepts-test (wild ∷ ts) s (c, rest, eq, plain, more) =
      rw eq (rw (plain, Accepts-test ts rest more))
  Accepts-test (unit d ∷ ts) s (c, rest, eq, same, more) =
      rw eq (ground (arith, Accepts-test ts rest more))

  -- The backtracking match decides the texts that the terms stand for, on every name.
  pub test_iff : (ts : List Term) (s : Text) → (test ts s ≡ true) ↔ Accepts ts s
  test_iff ts s = (test-Accepts ts s, Accepts-test ts s)
