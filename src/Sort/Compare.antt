-- ===== src/Sort/Compare.antt =====
-- Consistent comparison functions, and how they are combined.
use Prim.Native.Nat.{Ordering, compare}
use rune_terminal.Base.{◌≡◌, false, arith}
use rune_terminal.Sort.{Comparator, IsConsistent, is_gt, swap, or_then}

module _ {ℓ} {A : Type ℓ} (c : Comparator A) (ok : IsConsistent c) where
  -- a strict step before a step is strict
  lt_chains : (x y z : A) → c x y ≡ Ordering.lt → is_gt (c y z) ≡ false → c x z ≡ Ordering.lt
  lt_chains x y z h k = ground (arith, ok.chains x y z, ok.chains y z x, ok.swaps x y, ok.swaps x z)

  chains_lt : (x y z : A) → is_gt (c x y) ≡ false → c y z ≡ Ordering.lt → c x z ≡ Ordering.lt
  chains_lt x y z h k = ground (arith, ok.chains x y z, ok.chains z x y, ok.swaps y z, ok.swaps x z)

  eq_chains : (x y z : A) → c x y ≡ Ordering.eq → c y z ≡ Ordering.eq → c x z ≡ Ordering.eq
  eq_chains x y z h k =
      ground (arith, ok.chains x y z, ok.chains z y x, ok.swaps x y, ok.swaps y z, ok.swaps x z)

  pub swap-IsConsistent : IsConsistent (λ x y. swap (c x y))
  swap-IsConsistent = record {
    swaps = λ x y. ground (arith, ok.swaps x y);
    chains = λ x y z h k. ground (arith, ok.chains z y x, ok.swaps x y, ok.swaps y z, ok.swaps x z);
  }

  pub on-IsConsistent {κ} : {B : Type κ} (f : B → A) → IsConsistent (λ x y. c (f x) (f y))
  on-IsConsistent f = record {
    swaps = λ x y. ok.swaps (f x) (f y);
    chains = λ x y z. ok.chains (f x) (f y) (f z);
  }

  -- the arguments the other way round, for a descending criterion
  pub flip-IsConsistent {κ} : {B : Type κ} (f : B → A) → IsConsistent (λ x y. c (f y) (f x))
  flip-IsConsistent f = record {
    swaps = λ x y. ok.swaps (f y) (f x);
    chains = λ x y z h k. ok.chains (f z) (f y) (f x) k h;
  }

  pub or_then-IsConsistent :
      (d : Comparator A) → IsConsistent d → IsConsistent (λ x y. or_then (c x y) (d x y))
  or_then-IsConsistent d also = record {
    swaps = λ x y. ground (arith, ok.swaps x y, also.swaps x y);
    chains = λ x y z h k.
        ground (arith, lt_chains x y z, chains_lt x y z, eq_chains x y z, also.chains x y z);
  }

pub compare-IsConsistent : IsConsistent compare
compare-IsConsistent = record { swaps = λ x y. ground arith; chains = λ x y z h k. ground arith }
