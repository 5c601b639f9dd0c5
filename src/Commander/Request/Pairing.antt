-- ===== src/Commander/Request/Pairing.antt =====
-- How the ids and the names of a transfer belong together, frontend/src/features/commander/model/
-- store-operations.ts: `createPendingOperation` and `removePendingTransferEntry`.
use rune_terminal.Base.{
  ℕ, zero, suc, ◌≡◌, refl, ap, inl, inr, true, false, some, List, [], ◌∷◌, map, arith, Option-cases,
  find_idx?, filter, any,
}
use rune_terminal.Text.{Text, text_eq, text_eq_refl, includes}
use rune_terminal.Locale.{Locale}
use rune_terminal.Commander.Types.{
  CommanderDirectoryEntry, CommanderPendingOperationKind, CommanderPaneTransferKind,
  CommanderTransferPendingOperation, CommanderPaneRuntimeState, CommanderWidgetRuntimeState,
  transfer, pane, clone,
}
use rune_terminal.Commander.PaneState.{entry_ids}
use rune_terminal.Commander.Navigation.{get_pane_state}
use rune_terminal.Commander.Preview.{other_pane, get_commander_conflicting_entry_names}
use rune_terminal.Commander.Operations.{
  get_operation_entry_ids, transfer_base, with_transfer_entries, erase_idx,
  remove_pending_transfer_entry,
}
use rune_terminal.Commander.Request.{
  operation_entries, operation_base, names_of, source_of, create_pane_transfer, create_transfer,
  create_for_entries, create_pending_operation,
}

map-erase_idx {ℓ κ} :
    {A : Type ℓ} {B : Type κ} (f : A → B) (i : ℕ) (xs : List A)
    → erase_idx i (map f xs) ≡ map f (erase_idx i xs)
unfolding erase_idx
map-erase_idx f zero [] = refl
map-erase_idx f (suc i) [] = refl
map-erase_idx f zero (x ∷ xs) = refl
map-erase_idx f (suc i) (x ∷ xs) = ap (f x ∷◌) (map-erase_idx f i xs)

-- The ids and the names of a transfer are those of the entries, in one order.
pub record Lists (op : CommanderTransferPendingOperation) (es : List CommanderDirectoryEntry)
    : Type 0 where
  pub ids : (transfer_base op).entry_ids ≡ entry_ids es
  pub names : (transfer_base op).entry_names ≡ names_of es

-- A transfer whose ids and names list the same entries in the same order still does after an entry
-- was removed by its name.
pub remove_pending_transfer_entry-Lists :
    (op : CommanderTransferPendingOperation) (es : List CommanderDirectoryEntry) (name : Text)
    → Lists op es
    → (rest : List CommanderDirectoryEntry) × Lists (remove_pending_transfer_entry op name) rest
unfolding remove_pending_transfer_entry
remove_pending_transfer_entry-Lists op es name h =
    elim (Option-cases (find_idx? (λ n. text_eq n name) (transfer_base op).entry_names)) [
      | inl e ↦ (es, rw (e, remove_pending_transfer_entry) h)
      | inr (i, e) ↦ (erase_idx i es, rw (e, remove_pending_transfer_entry) (go op i _ h))
    ]
  where
    go :
        (o : CommanderTransferPendingOperation) (i : ℕ) (conflicts : List Text)
        → Lists o es
        → Lists
            (with_transfer_entries o
              (erase_idx i (transfer_base o).entry_ids)
              (erase_idx i (transfer_base o).entry_names)
              conflicts)
            (erase_idx i es)
    go (clone o) i conflicts k = record {
      ids = rw k.ids (map-erase_idx (λ e. e.id) i es);
      names = rw k.names (map-erase_idx (λ e. e.name) i es);
    }
    go (pane o) i conflicts k = record {
      ids = rw k.ids (map-erase_idx (λ e. e.id) i es);
      names = rw k.names (map-erase_idx (λ e. e.name) i es);
    }

both_included : (a b : Text) → (includes (b ∷ a ∷ []) a ≡ true) × (includes (b ∷ a ∷ []) b ≡ true)
unfolding includes any
both_included a b = (ground (arith, text_eq_refl a), ground (arith, text_eq_refl b))

entries_of_pair :
    (p : CommanderPaneRuntimeState) (upper lower : CommanderDirectoryEntry)
    → p.entries ≡ upper ∷ lower ∷ []
    → operation_entries p (lower.id ∷ upper.id ∷ []) ≡ upper ∷ lower ∷ []
unfolding operation_entries filter
entries_of_pair p upper lower h =
    let (first, second) = both_included upper.id lower.id in rw h (rw (first, second) refl)

module _ ⦃l : Locale⦄ where
  -- A copy to the other pane of two rows that were selected from the lower to the upper one lists
  -- the ids in the order of selection and the names in the order of the rows: removing the name of
  -- the upper row then removes the id of the lower one, and keeps the id of the upper row beside the
  -- name of the lower one.
  pub remove_pending_transfer_entry-swapped :
      (w : CommanderWidgetRuntimeState) (upper lower : CommanderDirectoryEntry)
      → (source_of w).entries ≡ upper ∷ lower ∷ []
      → (source_of w).selected_ids ≡ lower.id ∷ upper.id ∷ []
      → text_eq (source_of w).path (get_pane_state w (other_pane w.active_pane)).path ≡ false
      → (op : CommanderTransferPendingOperation) × (create_pending_operation w
            CommanderPendingOperationKind.copy
          ≡ some (transfer op))
        × ((transfer_base (remove_pending_transfer_entry op upper.name)).entry_ids ≡ upper.id ∷ [])
        × ((transfer_base (remove_pending_transfer_entry op upper.name)).entry_names
            ≡ lower.name ∷ [])
  unfolding create_pending_operation create_for_entries create_transfer create_pane_transfer
      remove_pending_transfer_entry find_idx? erase_idx get_operation_entry_ids
  remove_pending_transfer_entry-swapped w upper lower rows selected apart = (
    pane (record {
      base = operation_base w (lower.id ∷ upper.id ∷ []) (upper.name ∷ lower.name ∷ []);
      kind = CommanderPaneTransferKind.copy;
      target_pane_id = other_pane w.active_pane;
      target_path = (get_pane_state w (other_pane w.active_pane)).path;
      conflict_entry_names =
          get_commander_conflicting_entry_names w w.active_pane (lower.id ∷ upper.id ∷ []);
    }),
    rw selected (rw apart (rw (entries_of_pair (source_of w) upper lower rows) refl)),
    rw (text_eq_refl upper.name, remove_pending_transfer_entry, find_idx?) refl,
    rw (text_eq_refl upper.name, remove_pending_transfer_entry, find_idx?) refl,
  )
