-- ===== src/EventStream/Blocks.antt =====
-- The cutting of a text into blocks goes on where it stopped.
use rune_terminal.Base.{
  ℕ, ◌≡◌, refl, sym, ap, ◌∙◌, Bool, true, false, ◌&&◌, List, [], ◌∷◌, ◌++◌, ◌==◌, arith, Bool-cases,
  inl, inr, All,
}
use rune_terminal.Text.{Text}
use rune_terminal.EventStream.{line_feed, carriage_return, push_unit, split_blocks, normalize_from}

-- A cut text with more text behind it.
abbrev pub resume : List Text × Text → Text → List Text × Text
resume (blocks, rest) more =
    let (next_blocks, next_rest) = split_blocks (rest ++ more) in (blocks ++ next_blocks, next_rest)

abbrev pub is_cut : ℕ → ℕ → Bool
is_cut c d = c == line_feed && d == line_feed

pub split_blocks_cut :
    (c d : ℕ) (s : Text)
    → is_cut c d ≡ true
    → split_blocks (c ∷ d ∷ s) ≡ ([] ∷ (split_blocks s).0, (split_blocks s).1)
unfolding split_blocks
split_blocks_cut c d s h = rw h

pub split_blocks_longer :
    (c d : ℕ) (s : Text)
    → is_cut c d ≡ false
    → split_blocks (c ∷ d ∷ s) ≡ push_unit c (split_blocks (d ∷ s))
unfolding split_blocks
split_blocks_longer c d s h = rw h

push_unit-none :
    (c : ℕ) (s : Text) (p : List Text × Text)
    → (p.0 ≡ [] → p.1 ≡ s)
    → (push_unit c p).0 ≡ []
    → (push_unit c p).1 ≡ c ∷ s
unfolding push_unit
push_unit-none c s ([], r) all h = ap (c ∷◌) (all refl)
push_unit-none c s (b ∷ bs, r) all h = cc

-- Without a block, all remains.
split_blocks_none : (s : Text) → (split_blocks s).0 ≡ [] → (split_blocks s).1 ≡ s
unfolding split_blocks
split_blocks_none [] h = refl
split_blocks_none (c ∷ []) h = refl
split_blocks_none (c ∷ d ∷ s) h = elim (Bool-cases (is_cut c d)) [
  | inl cut ↦ cc (ap (λ p. p.0) (split_blocks_cut c d s cut))
  | inr long ↦
      let e = split_blocks_longer c d s long in
      ap (λ p. p.1) e
      ∙ push_unit-none c (d ∷ s) (split_blocks (d ∷ s)) (split_blocks_none (d ∷ s))
          (sym (ap (λ p. p.0) e) ∙ h)
]

resume-push_unit :
    (c : ℕ) (p : List Text × Text) (t : Text)
    → (p.0 ≡ [] → split_blocks (c ∷ p.1 ++ t) ≡ push_unit c (split_blocks (p.1 ++ t)))
    → push_unit c (resume p t) ≡ resume (push_unit c p) t
unfolding push_unit
resume-push_unit c ([], r) t next = sym (next refl)
resume-push_unit c (b ∷ bs, r) t next = refl

-- Cutting a text and going on with more behind what remains is cutting the whole.
pub split_blocks-append : (s t : Text) → split_blocks (s ++ t) ≡ resume (split_blocks s) t
unfolding split_blocks
split_blocks-append [] t = refl
split_blocks-append (c ∷ []) t = refl
split_blocks-append (c ∷ d ∷ s) t = elim (Bool-cases (is_cut c d)) [
  | inl cut ↦
      rw (split_blocks_cut c d (s ++ t) cut, split_blocks_cut c d s cut, split_blocks-append s t)
  | inr long ↦
      split_blocks_longer c d (s ++ t) long
      ∙ ap (push_unit c) (split_blocks-append (d ∷ s) t)
      ∙ resume-push_unit c (split_blocks (d ∷ s)) t (λ none.
        let whole = split_blocks_none (d ∷ s) none in
        rw whole (split_blocks_longer c d (s ++ t) long))
      ∙ ap (λ p. resume p t) (sym (split_blocks_longer c d s long))
]

-- No code unit is a carriage return.
abbrev pub HasNoReturn : Text → Type 0
HasNoReturn = All (λ c. c == carriage_return ≡ false)

push_unit-HasNoReturn :
    (c : ℕ) (p : List Text × Text)
    → c == carriage_return ≡ false
    → HasNoReturn p.1
    → HasNoReturn (push_unit c p).1
unfolding push_unit
push_unit-HasNoReturn c ([], r) h k = (h, k)
push_unit-HasNoReturn c (b ∷ bs, r) h k = k

pub split_blocks-HasNoReturn : (s : Text) → HasNoReturn s → HasNoReturn (split_blocks s).1
unfolding split_blocks
split_blocks-HasNoReturn [] h = tt
split_blocks-HasNoReturn (c ∷ []) h = h
split_blocks-HasNoReturn (c ∷ d ∷ s) (hc, (hd, hs)) = elim (Bool-cases (is_cut c d)) [
  | inl cut ↦ rw (split_blocks_cut c d s cut) (split_blocks-HasNoReturn s hs)
  | inr long ↦ rw (split_blocks_longer c d s long) (
      push_unit-HasNoReturn c (split_blocks (d ∷ s)) hc (split_blocks-HasNoReturn (d ∷ s) (hd, hs)))
]

pub normalize_from-HasNoReturn :
    (after_return : Bool) (s : Text) → HasNoReturn (normalize_from after_return s)
unfolding normalize_from
normalize_from-HasNoReturn after_return [] = tt
normalize_from-HasNoReturn after_return (c ∷ s) =
    ground (arith, normalize_from-HasNoReturn true s, normalize_from-HasNoReturn false s)

-- A text without one stays as it is, before any other.
pub normalize_from-append :
    (s t : Text) → HasNoReturn s → normalize_from false (s ++ t) ≡ s ++ normalize_from false t
unfolding normalize_from
normalize_from-append [] t h = refl
normalize_from-append (c ∷ s) t (hc, hs) = rw hc (ap (c ∷◌) (normalize_from-append s t hs))
