-- ===== src/Tests/Fixtures.antt =====
-- A host with the letters of ASCII and the order of code units, and a few directories.
use Prim.Native.Nat.{Ordering, compare}
use rune_terminal.Base.{
  ℕ, ◌+◌, ◌-◌, ◌≡◌, refl, false, ◌&&◌, none, some, List, [], ◌∷◌, map, arith, if◌then◌else◌, leb,
}
use rune_terminal.Text.{Text, text}
use rune_terminal.Locale.{Locale}
use rune_terminal.Sort.{IsConsistent, is_gt, or_then}
use rune_terminal.Commander.Types.{
  CommanderDirectoryEntry, CommanderPaneRuntimeState, CommanderWidgetRuntimeState, CommanderRowKind,
  file, folder, left,
}
use rune_terminal.Commander.PaneState.{
  create_empty_pane_state, create_commander_widget_runtime_state,
}

unfoldable pub compare_units : Text → Text → Ordering
compare_units [] [] = Ordering.eq
compare_units [] (_ ∷ _) = Ordering.lt
compare_units (_ ∷ _) [] = Ordering.gt
compare_units (c ∷ s) (d ∷ t) = or_then (compare c d) (compare_units s t)

compare_units-swaps : (s t : Text) → compare_units t s ≡ rune_terminal.Sort.swap (compare_units s t)
unfolding compare_units
compare_units-swaps [] [] = refl
compare_units-swaps [] (_ ∷ _) = refl
compare_units-swaps (_ ∷ _) [] = refl
compare_units-swaps (c ∷ s) (d ∷ t) = ground (arith, compare_units-swaps s t)

compare_units-chains :
    (s t u : Text)
    → is_gt (compare_units s t) ≡ false
    → is_gt (compare_units t u) ≡ false
    → is_gt (compare_units s u) ≡ false
unfolding compare_units
compare_units-chains [] t [] h k = refl
compare_units-chains [] t (e ∷ u) h k = refl
compare_units-chains (c ∷ s) [] u h k = cc
compare_units-chains (c ∷ s) (d ∷ t) [] h k = cc
compare_units-chains (c ∷ s) (d ∷ t) (e ∷ u) h k = ground (arith, compare_units-chains s t u)

pub compare_units-IsConsistent : IsConsistent compare_units
compare_units-IsConsistent = record { swaps = compare_units-swaps; chains = compare_units-chains }

abbrev pub lower_unit : ℕ → ℕ
lower_unit c = if leb 65 c && leb c 90 then c + 32 else c

abbrev pub upper_unit : ℕ → ℕ
upper_unit c = if leb 97 c && leb c 122 then c - 32 else c

instance abbrev pub ascii : Locale
ascii = record {
  locale_compare = compare_units;
  lower_case = map lower_unit;
  upper_case = map upper_unit;
  locale_lower_case = map lower_unit;
  locale_upper_case = map upper_unit;
  canonicalize = upper_unit;
}

abbrev pub entry : Text → CommanderRowKind → CommanderDirectoryEntry
entry name kind = record {
  id = name;
  name = name;
  ext = [];
  kind = kind;
  size_label = [];
  size_bytes = none;
  modified = [];
  hidden = false;
  git_status = none;
  executable = none;
  symlink_target = none;
}

abbrev pub listing : List CommanderDirectoryEntry
listing = entry (text "notes") file ∷ entry (text "docs") folder ∷ entry (text "README") file ∷ []

-- A pane that shows the listing as it is.
abbrev pub pane_of_u : CommanderPaneRuntimeState
pane_of_u = record (create_empty_pane_state left) {
  path = text "/home/u";
  directory_entries = listing;
  entries = listing;
  cursor_entry_id = some (text "docs");
  selected_ids = text "README" ∷ text "notes" ∷ [];
  history_back = text "/" ∷ text "/home" ∷ [];
}

abbrev pub widget_w1 : CommanderWidgetRuntimeState
widget_w1 = record (create_commander_widget_runtime_state (text "w1") none) {
  left_pane = pane_of_u;
}
