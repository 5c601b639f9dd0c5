-- ===== src/Commander/Template/Tokens.antt =====
-- The tokens `[N]`, `[E]` and `[F]` of a rename template, frontend/src/features/commander/model/
-- operation-preview.ts.
use rune_terminal.Base.{◌≡◌, refl, some, [], ◌∷◌}
use rune_terminal.Text.{Text}
use rune_terminal.Locale.{Locale}
use rune_terminal.Commander.Types.{CommanderDirectoryEntry}
use rune_terminal.Commander.Template.{
  split_entry_base_name_and_ext, apply_rename_text_transform, raw_value, read_modifier, closes,
  match_name, is_letter,
}

module _ ⦃l : Locale⦄ where
  -- The tokens in capitals stand for the base name, the extension and the full name of the entry;
  -- but `[n]` and `[e]`, which the expressions accept too, both stand for the full name.
  pub match_name-case :
      (e : CommanderDirectoryEntry) (s : Text)
      → (match_name e (b'[' ∷ b'N' ∷ b']' ∷ s)
          ≡ some (3, (split_entry_base_name_and_ext e).base_name))
        × (match_name e (b'[' ∷ b'E' ∷ b']' ∷ s) ≡ some (3, (split_entry_base_name_and_ext e).ext))
        × (match_name e (b'[' ∷ b'F' ∷ b']' ∷ s) ≡ some (3, e.name))
        × (match_name e (b'[' ∷ b'n' ∷ b']' ∷ s) ≡ some (3, e.name))
        × (match_name e (b'[' ∷ b'e' ∷ b']' ∷ s) ≡ some (3, e.name))
  unfolding match_name raw_value read_modifier closes apply_rename_text_transform is_letter
  match_name-case e [] = (refl, refl, refl, refl, refl)
  match_name-case e (c ∷ s) = (refl, refl, refl, refl, refl)
