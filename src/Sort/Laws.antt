-- ===== src/Sort/Laws.antt =====
-- The sort permutes, puts in order, and keeps the order of what compares equal.
use mathlib.Core.List.{Perm}
use mathlib.Core.List.Perm
use rune_terminal.Base.{
  ◌≡◌, refl, inl, inr, false, List, [], ◌∷◌, arith, Bool-cases, All, All-imp, filter, ◌∙◌, length,
  Bool,
}
use rune_terminal.Sort.{Comparator, IsConsistent, is_gt, is_eq, insert, sort}

module _ {ℓ} {A : Type ℓ} (c : Comparator A) where
  insert-perm : (x : A) (ys : List A) → Perm (insert c x ys) (x ∷ ys)
  unfolding insert
  insert-perm x [] = Perm.refl (x ∷ [])
  insert-perm x (y ∷ ys) = elim (Bool-cases (is_gt (c x y))) [
    | inl e ↦ rw e (Perm.trans (Perm.cons y (insert-perm x ys)) (Perm.swap x y ys))
    | inr e ↦ rw e (Perm.refl (x ∷ y ∷ ys))
  ]

  pub sort-perm : (xs : List A) → Perm (sort c xs) xs
  unfolding sort
  sort-perm [] = Perm.refl []
  sort-perm (x ∷ xs) = Perm.trans (insert-perm x (sort c xs)) (Perm.cons x (sort-perm xs))

  -- Every value goes before or beside all that follow it.
  abbrev pub IsSorted : List A → Type ℓ
  IsSorted [] = Unit
  IsSorted (x ∷ xs) = All (λ y. is_gt (c x y) ≡ false) xs × IsSorted xs

  module _ {κ} (P : A → Type κ) where
    insert-All : (x : A) (ys : List A) → P x → All P ys → All P (insert c x ys)
    unfolding insert
    insert-All x [] p h = (p, tt)
    insert-All x (y ∷ ys) p (q, h) = elim (Bool-cases (is_gt (c x y))) [
      | inl e ↦ rw e (q, insert-All x ys p h)
      | inr e ↦ rw e (p, (q, h))
    ]

    pub sort-All : (xs : List A) → All P xs → All P (sort c xs)
    unfolding sort
    sort-All [] h = tt
    sort-All (x ∷ xs) (p, h) = insert-All x (sort c xs) p (sort-All xs h)

  module _ (ok : IsConsistent c) where
    insert-IsSorted : (x : A) (ys : List A) → IsSorted ys → IsSorted (insert c x ys)
    unfolding insert
    insert-IsSorted x [] s = (tt, tt)
    insert-IsSorted x (y ∷ ys) (first, s) = elim (Bool-cases (is_gt (c x y))) [
      | inl e ↦ rw e (
        insert-All (λ z. is_gt (c y z) ≡ false) x ys (ground (arith, ok.swaps x y)) first,
        insert-IsSorted x ys s,
      )
      | inr e ↦ rw e ((e, All-imp ys (λ z h. ok.chains x y z e h) first), (first, s))
    ]

    pub sort-IsSorted : (xs : List A) → IsSorted (sort c xs)
    unfolding sort
    sort-IsSorted [] = tt
    sort-IsSorted (x ∷ xs) = insert-IsSorted x (sort c xs) (sort-IsSorted xs)

    -- Values that compare equal to `v` keep their order.
    insert_stable :
        (v x : A) (ys : List A)
        → filter (λ y. is_eq (c v y)) (insert c x ys) ≡ filter (λ y. is_eq (c v y)) (x ∷ ys)
    unfolding insert filter
    insert_stable v x [] = refl
    insert_stable v x (y ∷ ys) = elim (Bool-cases (is_gt (c x y))) [
      | inl e ↦
          rw e (ground (arith, insert_stable v x ys, ok.swaps v x, ok.swaps v y, ok.chains x v y))
      | inr e ↦ rw e
    ]

    filter-cons :
        (v x : A) (ys zs : List A)
        → filter (λ y. is_eq (c v y)) ys ≡ filter (λ y. is_eq (c v y)) zs
        → filter (λ y. is_eq (c v y)) (x ∷ ys) ≡ filter (λ y. is_eq (c v y)) (x ∷ zs)
    unfolding filter
    filter-cons v x ys zs h = rw h

    pub sort_stable :
        (v : A) (xs : List A)
        → filter (λ y. is_eq (c v y)) (sort c xs) ≡ filter (λ y. is_eq (c v y)) xs
    unfolding sort
    sort_stable v [] = refl
    sort_stable v (x ∷ xs) =
        insert_stable v x (sort c xs) ∙ filter-cons v x (sort c xs) xs (sort_stable v xs)

module _ {ℓ} {A : Type ℓ} (c : Comparator A) (p : A → Bool) where
  length-filter-insert :
      (x : A) (ys : List A) → length (filter p (insert c x ys)) ≡ length (filter p (x ∷ ys))
  unfolding insert filter
  length-filter-insert x [] = refl
  length-filter-insert x (y ∷ ys) = ground (arith, length-filter-insert x ys)

  -- Sorting does not change how many values pass a test.
  pub length-filter-sort : (xs : List A) → length (filter p (sort c xs)) ≡ length (filter p xs)
  unfolding sort filter
  length-filter-sort [] = refl
  length-filter-sort (x ∷ xs) =
      ground (arith, length-filter-insert x (sort c xs), length-filter-sort xs)
