-- ===== src/Locale.antt =====
-- What the code takes from the host's Unicode tables and collation: case mapping, the comparison
-- of `localeCompare`, and the case folding of a regular expression with the flag `i`.
use Prim.Native.Nat.{Ordering}
use rune_terminal.Base.{ℕ}
use rune_terminal.Text.{Text}

pub record Locale : Type 0 where
  pub locale_compare : Text → Text → Ordering
  pub lower_case : Text → Text
  pub upper_case : Text → Text
  pub locale_lower_case : Text → Text
  pub locale_upper_case : Text → Text
  pub canonicalize : ℕ → ℕ

-- `a.localeCompare(b)`, by its sign
abbrev pub locale_compare : ⦃l : Locale⦄ → Text → Text → Ordering
locale_compare ⦃l⦄ = l.locale_compare

-- `s.toLowerCase()`
abbrev pub lower_case : ⦃l : Locale⦄ → Text → Text
lower_case ⦃l⦄ = l.lower_case

-- `s.toUpperCase()`
abbrev pub upper_case : ⦃l : Locale⦄ → Text → Text
upper_case ⦃l⦄ = l.upper_case

-- `s.toLocaleLowerCase()`
abbrev pub locale_lower_case : ⦃l : Locale⦄ → Text → Text
locale_lower_case ⦃l⦄ = l.locale_lower_case

-- `s.toLocaleUpperCase()`
abbrev pub locale_upper_case : ⦃l : Locale⦄ → Text → Text
locale_upper_case ⦃l⦄ = l.locale_upper_case

-- the folding of one code unit by the flag `i`
abbrev pub canonicalize : ⦃l : Locale⦄ → ℕ → ℕ
canonicalize ⦃l⦄ = l.canonicalize
