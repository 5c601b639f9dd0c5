-- ===== src/Commander/Selection/Shown.antt =====
-- The rows of a pane and their ids: what a search, a slice or a filter of the rows yields is an id
-- that is shown.
use mathlib.Core.Option
use mathlib.Core.Path.{subst}
use rune_terminal.Base.{
  ℕ, zero, suc, ◌-◌, ◌<◌, ◌≡◌, refl, true, false, Option, some, List, [], ◌∷◌, arith, length,
  get_elem?, get_elem?_lt, take, drop, All, All-imp, any, find_idx?_sound, is_nil,
}
use rune_terminal.Text.{Text, text_eq, includes, includes-cons, text_eq_refl, text_eq_iff}
use rune_terminal.Commander.Types.{CommanderDirectoryEntry}
use rune_terminal.Commander.PaneState.{entry_ids}
use rune_terminal.Commander.Selection.{index_of_id, id_at, boundary_id, Boundary, start, end}

-- The id is that of a visible row.
abbrev pub Shown : List CommanderDirectoryEntry → Text → Type 0
Shown entries id = includes (entry_ids entries) id ≡ true

-- The cursor or the anchor is set, and is on a visible row.
abbrev pub OnRow : List CommanderDirectoryEntry → Option Text → Type 0
OnRow entries id = (i : Text) × (id ≡ some i) × Shown entries i

Shown-cons :
    (e : CommanderDirectoryEntry) (es : List CommanderDirectoryEntry) (id : Text)
    → Shown es id
    → Shown (e ∷ es) id
Shown-cons e es id h = rw (includes-cons, h) (ground arith)

Shown-head : (e : CommanderDirectoryEntry) (es : List CommanderDirectoryEntry) → Shown (e ∷ es) e.id
Shown-head e es = rw (includes-cons, text_eq_refl)

-- every row is shown
pub rows-Shown : (entries : List CommanderDirectoryEntry) → All (λ e. Shown entries e.id) entries
rows-Shown [] = tt
rows-Shown (e ∷ es) = (Shown-head e es, All-imp es (λ x h. Shown-cons e es x.id h) (rows-Shown es))

pub Shown-of_get_elem? :
    (entries : List CommanderDirectoryEntry) (i : ℕ) {e : CommanderDirectoryEntry}
    → get_elem? entries i ≡ some e
    → Shown entries e.id
Shown-of_get_elem? [] i h = cc
Shown-of_get_elem? (x ∷ xs) zero h =
    subst (λ y. Shown (x ∷ xs) y.id) (Option.some-injective _ _ h) (Shown-head x xs)
Shown-of_get_elem? (x ∷ xs) (suc i) {e} h = Shown-cons x xs e.id (Shown-of_get_elem? xs i h)

pub id_at-OnRow :
    (entries : List CommanderDirectoryEntry) (i : ℕ)
    → i < length entries
    → OnRow entries (id_at entries i)
id_at-OnRow entries i h =
    let (e, found) = get_elem?_lt entries i h in
    (e.id, rw found, Shown-of_get_elem? entries i found)

pub boundary_id-OnRow :
    (entries : List CommanderDirectoryEntry) (b : Boundary)
    → is_nil entries ≡ false
    → OnRow entries (boundary_id entries b)
unfolding boundary_id
boundary_id-OnRow [] b h = cc
boundary_id-OnRow (e ∷ es) start h = (e.id, refl, Shown-head e es)
boundary_id-OnRow (e ∷ es) end h = id_at-OnRow (e ∷ es) (length (e ∷ es) - 1) (omega arith)

-- A row that is found by its id is shown.
pub index_of_id-Shown :
    (entries : List CommanderDirectoryEntry) (id : Text) {i : ℕ}
    → index_of_id entries id ≡ some i
    → Shown entries id
unfolding index_of_id
index_of_id-Shown entries id {i} h =
    let (e, at_i, same) = find_idx?_sound (λ entry. text_eq entry.id id) entries h in
    rw ((text_eq_iff e.id id).0 same) at (Shown-of_get_elem? entries i at_i)

pub any-Shown :
    (entries : List CommanderDirectoryEntry) (id : Text)
    → any (λ entry. text_eq entry.id id) entries ≡ includes (entry_ids entries) id
unfolding any includes
any-Shown [] id = refl
any-Shown (e ∷ es) id = rw (any-Shown es id)

-- What holds of every row holds of the rows of a slice.
module _ {ℓ κ} {A : Type ℓ} (P : A → Type κ) where
  pub All-take : (n : ℕ) (xs : List A) → All P xs → All P (take n xs)
  All-take zero xs h = tt
  All-take (suc n) [] h = tt
  All-take (suc n) (x ∷ xs) (p, h) = (p, All-take n xs h)

  pub All-drop : (n : ℕ) (xs : List A) → All P xs → All P (drop n xs)
  All-drop zero xs h = h
  All-drop (suc n) [] h = tt
  All-drop (suc n) (x ∷ xs) (p, h) = All-drop n xs h

pub All-entry_ids :
    (P : Text → Type 0) (es : List CommanderDirectoryEntry)
    → All (λ e. P e.id) es
    → All P (entry_ids es)
All-entry_ids P [] h = tt
All-entry_ids P (e ∷ es) (p, h) = (p, All-entry_ids P es h)
