-- ===== src/Commander/Keyboard/Typeahead.antt =====
-- frontend/src/features/commander/model/keyboard-handlers.ts: the row that the typeahead finds.
use rune_terminal.Base.{
  ◌≡◌, refl, ◌↔◌, ◌⊎◌, ℕ, zero, suc, ◌+◌, Bool, true, false, ◌||◌, Option, none, some, List, [],
  ◌∷◌, ◌++◌, if◌then◌else◌, arith, any, drop, take, find?, find_idx?, is_nil,
}
use rune_terminal.Text.{Text, is_empty, starts_with}
use rune_terminal.Locale.{Locale, locale_lower_case}
use rune_terminal.Commander.Types.{CommanderFileRow}
use rune_terminal.Commander.Keyboard.{find_next_typeahead_match}

any-append :
    {A : Type 0} (p : A → Bool) (xs ys : List A) → any p (xs ++ ys) ≡ (any p xs || any p ys)
unfolding any
any-append p [] ys = refl
any-append p (x ∷ xs) ys = ground (arith, any-append p xs ys)

any-take-drop :
    {A : Type 0} (p : A → Bool) (k : ℕ) (xs : List A)
    → (any p (take k xs) || any p (drop k xs)) ≡ any p xs
unfolding any
any-take-drop p zero xs = refl
any-take-drop p (suc k) [] = refl
any-take-drop p (suc k) (x ∷ xs) = ground (arith, any-take-drop p k xs)

-- A rotated list has the same elements.
any-rotate :
    {A : Type 0} (p : A → Bool) (k : ℕ) (xs : List A) → any p (drop k xs ++ take k xs) ≡ any p xs
any-rotate p k xs = ground (arith, any-append p (drop k xs) (take k xs), any-take-drop p k xs)

find?-any : {A : Type 0} (p : A → Bool) (xs : List A) → (find? p xs ≡ none) ↔ (any p xs ≡ false)
unfolding any find?
find?-any p [] = (λ _. refl, λ _. refl)
find?-any p (x ∷ xs) = ground (arith, find?-any p xs)

-- The same elements in another order are searched alike.
find?-searched :
    {A : Type 0} (p : A → Bool) (stop : Bool) (searched xs : List A)
    → any p searched ≡ any p xs
    → ((if is_nil xs || stop then none else find? p searched) ≡ none)
      ↔ ((stop ≡ true) ⊎ (any p xs ≡ false))
unfolding any
find?-searched p stop searched [] h = ground (arith, find?-any p searched)
find?-searched p stop searched (x ∷ xs) h = ground (arith, find?-any p searched)

module _ ⦃l : Locale⦄ (rows : List CommanderFileRow) (prefix : Text) where
  -- The name of a row starts with the prefix, whatever the case.
  abbrev pub continues : CommanderFileRow → Bool
  continues row = starts_with (locale_lower_case row.name) (locale_lower_case prefix)

  -- There is no row, or its name starts with the prefix.
  abbrev pub continues_if_any : Option CommanderFileRow → Bool
  continues_if_any none = true
  continues_if_any (some row) = continues row

  found-continues :
      (stop : Bool) (xs : List CommanderFileRow)
      → continues_if_any (if stop then none else find? continues xs) ≡ true
  unfolding find?
  found-continues true xs = refl
  found-continues false [] = refl
  found-continues false (x ∷ xs) = ground (arith, found-continues false xs)

  -- No row is found exactly if there is no prefix, or no row of the whole pane has a name that starts
  -- with it, whatever the case and wherever the focus is; and the row that is found has such a name.
  pub find_next_typeahead_match-any :
      ((find_next_typeahead_match rows prefix ≡ none)
        ↔ ((is_empty prefix ≡ true) ⊎ (any continues rows ≡ false)))
      × (continues_if_any (find_next_typeahead_match rows prefix) ≡ true)
  unfolding find_next_typeahead_match
  find_next_typeahead_match-any =
      elim (find_idx? (λ row. row.focused) rows)
        as (λ focused.
          let searched : List CommanderFileRow = elim focused [
            | none ↦ rows
            | some i ↦ drop (i + 1) rows ++ take (i + 1) rows
          ] in
          let found = if is_nil rows || is_empty prefix then none else find? continues searched in
          ((found ≡ none) ↔ ((is_empty prefix ≡ true) ⊎ (any continues rows ≡ false)))
          × (continues_if_any found ≡ true)) [
            | none ↦
                (find?-searched continues (is_empty prefix) rows rows refl, found-continues _ rows)
            | some i ↦ (
              find?-searched continues (is_empty prefix) _ rows (any-rotate continues (i + 1) rows),
              found-continues _ _,
            )
          ]
