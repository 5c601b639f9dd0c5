-- ===== src/Commander/Preview/Counting.antt =====
-- Counting names and the lists of names without repetition, for the preview of a batch rename in
-- frontend/src/features/commander/model/operation-preview.ts.
use rune_terminal.Base.{suc, ◌≤◌, ◌≡◌, refl, false, List, [], ◌∷◌, ◌∙◌, arith, All, All-imp, any}
use rune_terminal.Text.{
  Text, text_eq, includes, text_eq_sym, text_eq_refl, dedupe_from, dedupe, Distinct,
}
use rune_terminal.Commander.Preview.{count_name}

absent_of_count : (x : Text) (xs : List Text) → count_name x xs ≡ 0 → includes xs x ≡ false
unfolding count_name includes any
absent_of_count x [] h = refl
absent_of_count x (y ∷ xs) h = ground (arith, absent_of_count x xs)

count_of_absent : (x : Text) (xs : List Text) → includes xs x ≡ false → count_name x xs ≡ 0
unfolding count_name includes any
count_of_absent x [] h = refl
count_of_absent x (y ∷ xs) h = ground (arith, count_of_absent x xs)

count_grows : (x y : Text) (xs : List Text) → count_name x xs ≤ count_name x (y ∷ xs)
unfolding count_name
count_grows x y xs = ground arith

count_self : (x : Text) (xs : List Text) → count_name x (x ∷ xs) ≡ suc (count_name x xs)
unfolding count_name
count_self x xs = rw text_eq_refl

-- Names that are each counted at most once are distinct.
pub Distinct-of_count : (xs : List Text) → All (λ x. count_name x xs ≤ 1) xs → Distinct xs
Distinct-of_count [] h = tt
Distinct-of_count (x ∷ xs) (p, h) = (
  absent_of_count x xs (omega (arith, count_self x xs)),
  Distinct-of_count xs (All-imp xs (λ y q. omega (arith, count_grows y x xs)) h),
)

count_cons_other :
    (x y : Text) (xs : List Text) → text_eq x y ≡ false → count_name y (x ∷ xs) ≡ count_name y xs
unfolding count_name
count_cons_other x y xs h = rw h

-- what occurs in the tail of distinct names is not their head
others :
    (x : Text) (xs ys : List Text)
    → includes ys x ≡ false
    → All (λ y. count_name y xs ≤ 1) ys
    → All (λ y. count_name y (x ∷ xs) ≤ 1) ys
unfolding includes any
others x xs [] h k = tt
others x xs (y ∷ ys) h (p, k) =
    let away : text_eq y x ≡ false = ground arith in
    let apart : text_eq x y ≡ false = text_eq_sym x y ∙ away in
    (omega (arith, count_cons_other x y xs apart), others x xs ys (ground arith) k)

pub count_of_Distinct : (xs : List Text) → Distinct xs → All (λ x. count_name x xs ≤ 1) xs
count_of_Distinct [] h = tt
count_of_Distinct (x ∷ xs) (absent, h) = (
  omega (arith, count_self x xs, count_of_absent x xs absent),
  others x xs xs absent (count_of_Distinct xs h),
)

-- Removing repetitions leaves something of a list that has anything.
pub dedupe_nil : (xs : List Text) → dedupe xs ≡ [] → xs ≡ []
unfolding dedupe_from includes any
dedupe_nil [] h = refl
dedupe_nil (x ∷ xs) h = cc
