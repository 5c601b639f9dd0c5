-- ===== src/Sort.antt =====
-- `Array.prototype.sort` as a stable sort by a comparison function, of which the sign counts.
pub mod Laws
pub mod Compare
use Prim.Native.Nat.{Ordering}
use rune_terminal.Base.{◌≡◌, Bool, true, false, List, [], ◌∷◌, if◌then◌else◌}

abbrev pub Comparator {ℓ} : Type ℓ → Type ℓ
Comparator A = A → A → Ordering

-- The sign is positive: the first argument goes behind the second.
abbrev pub is_gt : Ordering → Bool
is_gt Ordering.gt = true
is_gt _ = false

abbrev pub is_eq : Ordering → Bool
is_eq Ordering.eq = true
is_eq _ = false

-- `compareResult * -1`
abbrev pub swap : Ordering → Ordering
swap Ordering.lt = Ordering.gt
swap Ordering.eq = Ordering.eq
swap Ordering.gt = Ordering.lt

-- the second comparison where the first finds no difference
abbrev pub or_then : Ordering → Ordering → Ordering
or_then Ordering.eq o = o
or_then o _ = o

module _ {ℓ} {A : Type ℓ} (c : Comparator A) where
  unfoldable pub insert : A → List A → List A
  insert x [] = x ∷ []
  insert x (y ∷ ys) = let rest = y ∷ insert x ys in if is_gt (c x y) then rest else x ∷ y ∷ ys

  unfoldable pub sort : List A → List A
  sort [] = []
  sort (x ∷ xs) = insert x (sort xs)

-- A comparison function that the language asks for: consistent, so that its outcomes rank the
-- values.
pub record IsConsistent {ℓ} {A : Type ℓ} (c : Comparator A) : Type ℓ where
  pub swaps : (x y : A) → c y x ≡ swap (c x y)
  pub chains : (x y z : A) → is_gt (c x y) ≡ false → is_gt (c y z) ≡ false → is_gt (c x z) ≡ false
