-- ===== src/Commander/Preview/Cloning.antt =====
-- The suggested name of a clone: `suggestCommanderCloneName` of frontend/src/features/commander/
-- model/operation-preview.ts.
use rune_terminal.Base.{
  ℕ, zero, suc, ◌+◌, ◌≤◌, ◌<◌, ◌≡◌, refl, inl, inr, Bool, true, false, not, ◌&&◌, some, [], ◌∷◌,
  ◌==◌, any, arith, Bool-cases,
}
use mathlib.Core.Path.{subst}
use rune_terminal.Text.{Text, text_eq, is_empty, trim}
use rune_terminal.Locale.{Locale, lower_case}
use rune_terminal.Commander.Types.{CommanderDirectoryEntry, CommanderPaneRuntimeState}
use rune_terminal.Commander.Preview.{
  find_entry, normalize_entry_name, build_commander_clone_name, get_commander_entry_name_conflict,
  suggest_from, suggest_commander_clone_name,
}

conflict_ignoring :
    ⦃l : Locale⦄ (pane : CommanderPaneRuntimeState) (name id : Text)
    → is_empty id ≡ false
    → get_commander_entry_name_conflict pane name (some id)
      ≡ any
          (λ other.
            not (text_eq other.id id)
            && text_eq (lower_case (trim other.name)) (lower_case (trim name)))
          pane.directory_entries
unfolding get_commander_entry_name_conflict normalize_entry_name
conflict_ignoring pane name [] named = cc
conflict_ignoring pane name (c ∷ id) named = refl

module _ ⦃l : Locale⦄ (pane : CommanderPaneRuntimeState) (e : CommanderDirectoryEntry) where
  -- Another entry of the directory, shown or not, has the clone name with the suffix index, whatever the
  -- case and the blanks around it.
  abbrev pub taken : ℕ → Bool
  taken k =
      any
        (λ other.
          not (text_eq other.id e.id)
          && text_eq (lower_case (trim other.name))
              (lower_case (trim (build_commander_clone_name e k))))
        pane.directory_entries

  conflict-taken :
      is_empty e.id ≡ false
      → (k : ℕ)
      → get_commander_entry_name_conflict pane (build_commander_clone_name e k) (some e.id)
        ≡ taken k
  conflict-taken named k = conflict_ignoring pane (build_commander_clone_name e k) e.id named

  -- The first suffix index at or above `from` whose name is not taken is below `to`, and the name is
  -- that one; or all of them are taken, and the name is the one after them.
  abbrev pub Suggested : ℕ → ℕ → Text → Type 0
  Suggested from to name =
      (k : ℕ) × (from ≤ k)
      × (k ≤ to)
      × (name ≡ build_commander_clone_name e k)
      × ((k < to → taken k ≡ false))
      × ((j : ℕ) → from ≤ j → j < k → taken j ≡ true)

  later :
      {from to : ℕ} (j : ℕ)
      → taken from ≡ true
      → ((i : ℕ) → from + 1 ≤ i → i < to → taken i ≡ true)
      → from ≤ j
      → j < to
      → taken j ≡ true
  later {from} j used above h m = elim (Bool-cases (j == from)) [
    | inl e ↦ let same : from ≡ j = ground arith in subst (λ i. taken i ≡ true) same used
    | inr e ↦ above j (ground arith) m
  ]

  suggest_from-Suggested :
      is_empty e.id ≡ false
      → (rounds from : ℕ) → Suggested from (from + rounds) (suggest_from pane e rounds from)
  unfolding suggest_from
  suggest_from-Suggested named zero from = (
    from,
    omega arith,
    omega arith,
    refl,
    λ h. absurd (omega arith),
    λ j h k. absurd (omega arith),
  )
  suggest_from-Suggested named (suc rounds) from = elim (Bool-cases (taken from)) [
    | inr free ↦
        rw (conflict-taken named from, free, suggest_from)
          (from, omega arith, omega arith, refl, λ h. free, λ j h k. absurd (omega arith))
    | inl used ↦
        let (k, low, high, name, at_k, below) = suggest_from-Suggested named rounds (from + 1) in
        rw (conflict-taken named from, used, suggest_from)
          (
            k,
            omega arith,
            omega arith,
            name,
            λ h. at_k (omega arith),
            λ j h m. later j used below h m,
          )
  ]

module _ ⦃l : Locale⦄ where
  -- For an entry of the pane whose id is not empty, the suggestion is its clone name with some suffix
  -- index k from 1 to 1000: every lower index gives a name that another entry of the directory has, shown
  -- or not, the case and the blanks around it not counted; and unless k is 1000, k itself gives a name that
  -- no other entry has.
  pub suggest_commander_clone_name-Suggested :
      (pane : CommanderPaneRuntimeState) (id : Text) (e : CommanderDirectoryEntry)
      → find_entry pane id ≡ some e
      → is_empty e.id ≡ false
      → (name : Text) × (suggest_commander_clone_name pane id ≡ some name)
        × Suggested pane e 1 1000 name
  unfolding suggest_commander_clone_name
  suggest_commander_clone_name-Suggested pane id e h named =
      (suggest_from pane e 999 1, rw h refl, suggest_from-Suggested pane e named 999 1)
