-- ===== src/Agent/Audit.antt =====
-- The audit entries of a plan that runs: createAuditMessage, advanceAuditEntries,
-- completeAuditEntries and failAuditEntries of frontend/src/features/agent/model/interaction-flow.ts.
-- The clock `now` gives the time that `Date.now()` returns at the entry with an index.
pub mod Progress
pub mod Ending
pub mod Runs
use rune_terminal.Base.{
  ℕ, zero, suc, ◌+◌, Bool, true, false, ◌&&◌, Option, none, some, List, [], ◌∷◌, if◌then◌else◌, ltb,
  ◌==◌, find_idx?, or_else,
}
use mathlib.Core.Option
use rune_terminal.Text.{Text}
use rune_terminal.Agent.Types.{
  AuditEntry, AuditEntryStatus, PlanTool, pending, running, done, error,
}

abbrev pub is_running : AuditEntryStatus → Bool
is_running running = true
is_running _ = false

abbrev pub is_pending : AuditEntryStatus → Bool
is_pending pending = true
is_pending _ = false

module _ {ℓ κ} {A : Type ℓ} {B : Type κ} where
  -- `xs.map((x, index) => …)`, from the index of the first value
  unfoldable pub map_idx : (ℕ → A → B) → ℕ → List A → List B
  map_idx f i [] = []
  map_idx f i (x ∷ xs) = f i x ∷ map_idx f (i + 1) xs

-- `xs.findIndex((x, index) => …)`, from the index of the first value
unfoldable pub find_idx_from? {ℓ} : {A : Type ℓ} → (ℕ → A → Bool) → ℕ → List A → Option ℕ
find_idx_from? p i [] = none
find_idx_from? p i (x ∷ xs) =
    let rest = find_idx_from? p (i + 1) xs in if p i x then some i else rest

-- the entries of a new audit message
unfoldable pub create_audit_entries : (now : ℕ → ℕ) → List PlanTool → List AuditEntry
create_audit_entries now tools =
    map_idx
      (λ i tool. record {
        tool = tool.name;
        status = if i == 0 then running else pending;
        timestamp = if i == 0 then some (now i) else none;
      })
      0 tools

-- `{ ...entry, status, timestamp: Date.now() }`
abbrev pub set_status : AuditEntryStatus → ℕ → AuditEntry → AuditEntry
set_status status time entry = record entry { status = status; timestamp = some time }

-- one entry in `advanceAuditEntries`, by the two indexes that were found
unfoldable pub advance_entry :
    (now : ℕ → ℕ) (running_index next_index i : ℕ) → AuditEntry → AuditEntry
advance_entry now running_index next_index i entry =
    if i == running_index
    then set_status done (now i) entry
    else if i == next_index
    then set_status running (now i) entry
    else entry

unfoldable pub advance_audit_entries : (now : ℕ → ℕ) → List AuditEntry → List AuditEntry
advance_audit_entries now entries = elim (find_idx? (λ e. is_running e.status) entries) [
  | none ↦ entries
  | some running_index ↦
      elim (find_idx_from? (λ i e. ltb running_index i && is_pending e.status) 0 entries) [
        | none ↦ entries
        | some next_index ↦ map_idx (advance_entry now running_index next_index) 0 entries
      ]
]

unfoldable pub complete_audit_entries : (now : ℕ → ℕ) → List AuditEntry → List AuditEntry
complete_audit_entries now entries = map_idx (λ i entry. set_status done (now i) entry) 0 entries

unfoldable pub fail_audit_entries : (now : ℕ → ℕ) → List AuditEntry → List AuditEntry
fail_audit_entries now entries =
    elim (or_else (find_idx? (λ e. is_running e.status) entries)
      (find_idx? (λ e. is_pending e.status) entries)) [
        | none ↦ entries
        | some target ↦
            map_idx (λ i entry. if i == target then set_status error (now i) entry else entry) 0
              entries
      ]
