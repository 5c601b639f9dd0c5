-- ===== src/Commander/Template/Counter.antt =====
-- The counter of a rename template: `formatRenameCounter` of frontend/src/features/commander/model/
-- operation-preview.ts, and the digits that `\d+` reads.
use rune_terminal.Base.{
  ℕ, zero, suc, ◌+◌, ◌-◌, ◌*◌, ◌/◌, ◌%◌, ◌≤◌, ◌<◌, ◌≡◌, refl, ap, ◌∙◌, inl, inr, true, Option, [],
  ◌∷◌, ◌++◌, if◌then◌else◌, ltb, leb, arith, Bool-cases, length, length-append, get_or,
}
use rune_terminal.Text.{Text, decimal_from, decimal}
use rune_terminal.Commander.Template.{zeros, format_rename_counter, is_digit, read_digits}

-- The number that the digits at the head of a text spell, behind those already read.
value : ℕ → Text → ℕ
value n [] = n
value n (c ∷ s) = let more = value (10 * n + (c - b'0')) s in if is_digit c then more else n

read_digits-value : (n k : ℕ) (s : Text) → (read_digits n k s).0 ≡ value n s
unfolding read_digits value
read_digits-value n k [] = refl
read_digits-value n k (c ∷ s) = elim (Bool-cases (is_digit c)) [
  | inl e ↦ rw (e, read_digits, value) (read_digits-value (10 * n + (c - b'0')) (k + 1) s)
  | inr e ↦ rw (e, read_digits, value) refl
]

value_digit : (n d : ℕ) (s : Text) → d < 10 → value n ((b'0' + d) ∷ s) ≡ value (10 * n + d) s
unfolding value is_digit
value_digit n d s h =
    let low : leb b'0' (b'0' + d) ≡ true = ground arith in
    let high : leb (b'0' + d) b'9' ≡ true = ground arith in
    let digit : 10 * n + (b'0' + d - b'0') ≡ 10 * n + d = omega arith in
    rw (low, high) (ap (λ m. value m s) digit)

value-decimal_from :
    (fuel n : ℕ) (s : Text) → n < fuel → value 0 (decimal_from fuel n s) ≡ value n s
unfolding decimal_from
value-decimal_from zero n s h = absurd (omega arith)
value-decimal_from (suc fuel) n s h = elim (Bool-cases (ltb n 10)) [
  | inl e ↦
      let one : 10 * 0 + n % 10 ≡ n = ground arith in
      rw (e, decimal_from) (value_digit 0 (n % 10) s (omega arith) ∙ ap (λ m. value m s) one)
  | inr e ↦
      let big : 10 ≤ n = ground arith in
      let whole : 10 * (n / 10) + n % 10 ≡ n = omega arith in
      rw (e, decimal_from)
        (value-decimal_from fuel (n / 10) _ (omega arith)
          ∙ value_digit (n / 10) (n % 10) s (omega arith)
          ∙ ap (λ m. value m s) whole)
]

value-zeros : (n : ℕ) (s : Text) → value 0 (zeros n ++ s) ≡ value 0 s
unfolding zeros
value-zeros zero s = refl
value-zeros (suc n) s = value_digit 0 0 (zeros n ++ s) (omega arith) ∙ value-zeros n s

length-zeros : (n : ℕ) → length (zeros n) ≡ n
unfolding zeros
length-zeros zero = refl
length-zeros (suc n) = ap suc (length-zeros n)

value-decimal : (n : ℕ) → value 0 (decimal n) ≡ n
unfolding decimal value
value-decimal n = value-decimal_from (suc n) n [] (omega arith)

value-format : (n : ℕ) (width : Option ℕ) → value 0 (format_rename_counter n width) ≡ n
unfolding format_rename_counter
value-format n width = elim (Bool-cases (leb (get_or width 0) (length (decimal n)))) [
  | inl e ↦ rw e (value-decimal n)
  | inr e ↦ rw e (value-zeros _ (decimal n) ∙ value-decimal n)
]

-- A formatted counter reads back as the number it was made from, at every width, and is at least as
-- long as the width.
pub format_rename_counter-read_digits :
    (counter : ℕ) (width : Option ℕ)
    → ((read_digits 0 0 (format_rename_counter counter width)).0 ≡ counter)
      × (get_or width 0 ≤ length (format_rename_counter counter width))
unfolding format_rename_counter
format_rename_counter-read_digits counter width = (
  read_digits-value 0 0 _ ∙ value-format counter width,
  elim (Bool-cases (leb (get_or width 0) (length (decimal counter)))) [
    | inl e ↦ rw e (ground arith)
    | inr e ↦ rw e (
        ground (
          arith,
          length-append (zeros (get_or width 0 - length (decimal counter))) (decimal counter),
          length-zeros (get_or width 0 - length (decimal counter)),
        ))
  ],
)
