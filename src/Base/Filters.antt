-- ===== src/Base/Filters.antt =====
-- Boolean filters and searches, as the array methods make them, and predicates on lists.
use Prim.Native.Nat.{ℕ, suc, ◌≤◌}
use mathlib.Core.Path.{◌≡◌, refl, ap, subst}
use mathlib.Core.Logic.{inl, inr}
use mathlib.Core.Bool.{Bool, true, false, ◌&&◌, ◌||◌}
use mathlib.Core.List.{List, [], ◌∷◌, ◌++◌, map}
use mathlib.Core.Option
use mathlib.Core.Option.{Option, none, some}
use native.Mathlib.Omega.{arith}
use rune_terminal.Base.Tests.{if◌then◌else◌, Bool-cases}
use rune_terminal.Base.Lists.{length, get_elem?}

module _ {ℓ} {A : Type ℓ} where
  -- `xs.filter(p)`
  unfoldable pub filter : (A → Bool) → List A → List A
  filter p [] = []
  filter p (x ∷ xs) = let rest = filter p xs in if p x then x ∷ rest else rest

  -- `xs.some(p)`
  unfoldable pub any : (A → Bool) → List A → Bool
  any p [] = false
  any p (x ∷ xs) = p x || any p xs

  -- `xs.find(p)`
  unfoldable pub find? : (A → Bool) → List A → Option A
  find? p [] = none
  find? p (x ∷ xs) = let rest = find? p xs in if p x then some x else rest

  -- `xs.findIndex(p)`, with `none` for -1
  unfoldable pub find_idx? : (A → Bool) → List A → Option ℕ
  find_idx? p [] = none
  find_idx? p (x ∷ xs) = let rest = Option.map suc (find_idx? p xs) in if p x then some 0 else rest

  pub filter_id : (p : A → Bool) (xs : List A) → ((x : A) → p x ≡ true) → filter p xs ≡ xs
  unfolding filter
  filter_id p [] h = refl
  filter_id p (x ∷ xs) h = rw (h x) (ap (x ∷◌) (filter_id p xs h))

  pub filter-filter :
      (p q : A → Bool) (xs : List A) → filter p (filter q xs) ≡ filter (λ x. q x && p x) xs
  unfolding filter
  filter-filter p q [] = refl
  filter-filter p q (x ∷ xs) = ground (arith, filter-filter p q xs)

  pub length-filter-le : (p : A → Bool) (xs : List A) → length (filter p xs) ≤ length xs
  unfolding filter
  length-filter-le p [] = omega arith
  length-filter-le p (x ∷ xs) = ground (arith, length-filter-le p xs)

  pub find?_sound : (p : A → Bool) (xs : List A) {x : A} → find? p xs ≡ some x → p x ≡ true
  unfolding find?
  find?_sound p [] h = cc
  find?_sound p (y ∷ xs) {x} h = ground (arith, find?_sound p xs {x = x})

  pub find_idx?_sound :
      (p : A → Bool) (xs : List A) {i : ℕ}
      → find_idx? p xs ≡ some i
      → (x : A) × (get_elem? xs i ≡ some x) × (p x ≡ true)
  unfolding find_idx?
  find_idx?_sound p [] h = cc
  find_idx?_sound p (y ∷ xs) {i} h = elim (Bool-cases (p y)) [
    | inl hit ↦ (y, ground arith, hit)
    | inr miss ↦
        let (j, found, step) = (Option.map-eq-some_iff _ _).0 (rw miss at h) in
        let (x, at_j, good) = find_idx?_sound p xs found in
        (x, subst (λ k. get_elem? (y ∷ xs) k ≡ some x) step at_j, good)
  ]

  abbrev pub All {κ} : (A → Type κ) → List A → Type κ
  All P [] = Unit
  All P (x ∷ xs) = P x × All P xs

  pub All-imp {κ μ} :
      {P : A → Type κ} {Q : A → Type μ} (xs : List A) → ((x : A) → P x → Q x) → All P xs → All Q xs
  All-imp [] f h = tt
  All-imp (x ∷ xs) f (p, h) = (f x p, All-imp xs f h)

  pub All-filter {κ} :
      (P : A → Type κ) (q : A → Bool) (xs : List A) → All P xs → All P (filter q xs)
  unfolding filter
  All-filter P q [] h = tt
  All-filter P q (x ∷ xs) (p, h) = elim (Bool-cases (q x)) [
    | inl e ↦ rw e (p, All-filter P q xs h)
    | inr e ↦ rw e (All-filter P q xs h)
  ]

  -- what passes a filter satisfies its test
  pub filter-All : (q : A → Bool) (xs : List A) → All (λ x. q x ≡ true) (filter q xs)
  unfolding filter
  filter-All q [] = tt
  filter-All q (x ∷ xs) = elim (Bool-cases (q x)) [
    | inl e ↦ rw e (e, filter-All q xs)
    | inr e ↦ rw e (filter-All q xs)
  ]

  pub All-append {κ} : (P : A → Type κ) (xs ys : List A) → All P xs → All P ys → All P (xs ++ ys)
  All-append P [] ys h k = k
  All-append P (x ∷ xs) ys (p, h) k = (p, All-append P xs ys h k)

  -- the list first, where the step is a long term
  pub All-each {κ μ} :
      {P : A → Type κ} {Q : A → Type μ} (xs : List A) → All P xs → ((x : A) → P x → Q x) → All Q xs
  All-each xs h f = All-imp xs f h

  pub All-zip {κ μ} :
      (P : A → Type κ) (Q : A → Type μ) (xs : List A)
      → All P xs
      → All Q xs
      → All (λ x. P x × Q x) xs
  All-zip P Q [] h k = tt
  All-zip P Q (x ∷ xs) (p, h) (q, k) = ((p, q), All-zip P Q xs h k)

module _ {ℓ κ μ} {A : Type ℓ} {B : Type κ} (f : A → B) (P : B → Type μ) where
  pub All-map : (xs : List A) → All (λ x. P (f x)) xs → All P (map f xs)
  All-map [] h = tt
  All-map (x ∷ xs) (p, h) = (p, All-map xs h)

  pub map-All : (xs : List A) → All P (map f xs) → All (λ x. P (f x)) xs
  map-All [] h = tt
  map-All (x ∷ xs) (p, h) = (p, map-All xs h)
