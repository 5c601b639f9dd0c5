-- ===== src/Text/Laws.antt =====
-- Equality of strings is decided, and what membership and trimming satisfy.
use rune_terminal.Base.{
  ◌≡◌, refl, ◌↔◌, Bool, true, false, ◌||◌, ◌&&◌, List, [], ◌∷◌, ◌++◌, arith, any, filter, inl, inr,
  Bool-cases,
}
use rune_terminal.Text.Defs.{Text, text_eq, includes}

pub text_eq_refl : (s : Text) → text_eq s s ≡ true
unfolding text_eq
text_eq_refl [] = refl
text_eq_refl (c ∷ s) = ground (arith, text_eq_refl s)

pub eq_of_text_eq : (s t : Text) → text_eq s t ≡ true → s ≡ t
unfolding text_eq
eq_of_text_eq [] [] h = refl
eq_of_text_eq [] (d ∷ t) h = cc
eq_of_text_eq (c ∷ s) [] h = cc
eq_of_text_eq (c ∷ s) (d ∷ t) h = ground (arith, eq_of_text_eq s t)

pub text_eq_iff : (s t : Text) → (text_eq s t ≡ true) ↔ (s ≡ t)
text_eq_iff s t = (eq_of_text_eq s t, λ e. rw (← e) (text_eq_refl s))

pub text_eq_sym : (s t : Text) → text_eq s t ≡ text_eq t s
unfolding text_eq
text_eq_sym [] [] = refl
text_eq_sym [] (d ∷ t) = refl
text_eq_sym (c ∷ s) [] = refl
text_eq_sym (c ∷ s) (d ∷ t) = ground (arith, text_eq_sym s t)

pub includes-cons :
    (x id : Text) (ids : List Text) → includes (x ∷ ids) id ≡ (text_eq x id || includes ids id)
unfolding includes any
includes-cons x id ids = refl

pub includes-nil : (id : Text) → includes [] id ≡ false
unfolding includes any
includes-nil id = refl

pub includes-append :
    (xs ys : List Text) (id : Text) → includes (xs ++ ys) id ≡ (includes xs id || includes ys id)
unfolding includes any
includes-append [] ys id = refl
includes-append (x ∷ xs) ys id = ground (arith, includes-append xs ys id)

-- Membership in a filtered list.
pub includes-filter :
    (p : Text → Bool) (ids : List Text) (id : Text)
    → includes (filter p ids) id ≡ (includes ids id && p id)
unfolding includes any filter
includes-filter p [] id = refl
includes-filter p (x ∷ ids) id = ground (arith, includes-filter p ids id, text_eq_iff x id)

-- No name of the list occurs twice.
abbrev pub Distinct : List Text → Type 0
Distinct [] = Unit
Distinct (x ∷ xs) = (includes xs x ≡ false) × Distinct xs

pub Distinct-append :
    (ids : List Text) (id : Text)
    → Distinct ids
    → includes ids id ≡ false
    → Distinct (ids ++ id ∷ [])
Distinct-append [] id d h = (includes-nil id, tt)
Distinct-append (x ∷ ids) id (dx, d) h = ground (
  arith,
  Distinct-append ids id d,
  includes-cons x id ids,
  includes-append ids (id ∷ []) x,
  includes-cons id x [],
  includes-nil x,
  text_eq_sym x id,
)

-- A filter makes no name occur twice.
pub Distinct-filter : (p : Text → Bool) (ids : List Text) → Distinct ids → Distinct (filter p ids)
unfolding filter
Distinct-filter p [] d = tt
Distinct-filter p (x ∷ ids) (once, d) = elim (Bool-cases (p x)) [
  | inl kept ↦ rw kept (ground (arith, includes-filter p ids x, once), Distinct-filter p ids d)
  | inr gone ↦ rw gone (Distinct-filter p ids d)
]

-- A common front makes no difference to equality.
pub text_eq-append : (s t u : Text) → text_eq (s ++ t) (s ++ u) ≡ text_eq t u
unfolding text_eq
text_eq-append [] t u = refl
text_eq-append (c ∷ s) t u = ground (arith, text_eq-append s t u)
