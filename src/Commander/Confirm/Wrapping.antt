-- ===== src/Commander/Confirm/Wrapping.antt =====
-- Indexes that wrap around: `(currentIndex + delta + n) % n` in stepCommanderWidgetPendingSearchMatch,
-- frontend/src/features/commander/model/store-operations.ts.
use native.Mathlib.Nat.{mod-lt, mod-eq_of_lt, mod_self, add-mod_right}
use rune_terminal.Base.{zero, ℕ, suc, ◌+◌, ◌-◌, ◌<◌, ◌≡◌, refl, inl, inr, arith, Bool-cases, ltb}
use rune_terminal.Commander.Confirm.{SearchDelta, next, previous, wrapped_index}

-- the step the other way
abbrev pub opposite : SearchDelta → SearchDelta
opposite next = previous
opposite previous = next

pub wrapped_index-lt : (c : ℕ) (d : SearchDelta) (n : ℕ) → c < n → wrapped_index c d n < n
unfolding wrapped_index
wrapped_index-lt c next n h = mod-lt (c + 1 + n) (omega arith)
wrapped_index-lt c previous n h = mod-lt (c + n - 1) (omega arith)

next_within : (c n : ℕ) → suc c < n → wrapped_index c next n ≡ suc c
unfolding wrapped_index
next_within c n h =
    let one : c + 1 ≡ suc c = omega arith in rw add-mod_right (rw one (mod-eq_of_lt h))

next_around : (c n : ℕ) → suc c ≡ n → wrapped_index c next n ≡ 0
unfolding wrapped_index
next_around c n h = let one : c + 1 ≡ n = omega arith in rw add-mod_right (rw one (mod_self n))

previous_within : (c n : ℕ) → suc c < n → wrapped_index (suc c) previous n ≡ c
unfolding wrapped_index
previous_within c n h =
    let below : suc c + n - 1 ≡ c + n = omega arith in
    let small : c < n = omega arith in rw below (rw add-mod_right (mod-eq_of_lt small))

previous_around : (c n : ℕ) → suc c ≡ n → wrapped_index 0 previous n ≡ c
unfolding wrapped_index
previous_around c n h =
    let last : 0 + n - 1 ≡ c = omega arith in
    let small : c < n = omega arith in rw last (mod-eq_of_lt small)

next-previous : (c n : ℕ) → c < n → wrapped_index (wrapped_index c next n) previous n ≡ c
next-previous c n h = elim (Bool-cases (ltb (suc c) n)) [
  | inl e ↦
      let within : suc c < n = ground arith in
      rw (next_within c n within) (previous_within c n within)
  | inr e ↦
      let last : suc c ≡ n = ground arith in rw (next_around c n last) (previous_around c n last)
]

previous-next : (c n : ℕ) → c < n → wrapped_index (wrapped_index c previous n) next n ≡ c
previous-next zero (suc m) h = rw (previous_around m (suc m) refl) (next_around m (suc m) refl)
previous-next zero zero h = absurd (omega arith)
previous-next (suc c) n h = rw (previous_within c n h) (next_within c n h)

-- A step the other way leads back.
pub wrapped_index-opposite :
    (c : ℕ) (d : SearchDelta) (n : ℕ)
    → c < n
    → wrapped_index (wrapped_index c d n) (opposite d) n ≡ c
wrapped_index-opposite c next n h = next-previous c n h
wrapped_index-opposite c previous n h = previous-next c n h
