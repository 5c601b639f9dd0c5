-- ===== src/Agent/Audit/Ending.antt =====
-- The end of an audit: completeAuditEntries and failAuditEntries of frontend/src/features/agent/model/
-- interaction-flow.ts.
use rune_terminal.Base.{
  ℕ, zero, suc, ◌+◌, ◌<◌, ◌≡◌, refl, ap, ◌∙◌, some, List, [], ◌∷◌, ◌++◌, if◌then◌else◌, ◌==◌, arith,
  length, find_idx?,
}
use rune_terminal.Agent.Types.{AuditEntry, AuditEntryStatus, pending, running, done, error}
use rune_terminal.Agent.Audit.{
  is_running, map_idx, set_status, complete_audit_entries, fail_audit_entries,
}
use rune_terminal.Agent.Audit.Progress.{
  statuses, tools_of, times, IsAt, map_idx-tools, map_idx-statuses, find-statuses, find_running,
}

abbrev mark : ℕ → ℕ → AuditEntryStatus → AuditEntryStatus
mark target j s = if j == target then error else s

marked_behind :
    (target i m : ℕ) → target < i → map_idx (mark target) i (times m pending) ≡ times m pending
unfolding map_idx
marked_behind target i zero h = refl
marked_behind target i (suc m) h =
    let stays : mark target i pending ≡ pending = ground arith in
    rw stays (ap (pending ∷◌) (marked_behind target (i + 1) m (omega arith)))

marked :
    (target i k m : ℕ)
    → target ≡ i + k
    → map_idx (mark target) i (times k done ++ running ∷ times m pending)
      ≡ times k done ++ error ∷ times m pending
unfolding map_idx
marked target i zero m h =
    let here : mark target i running ≡ error = ground arith in
    rw here (ap (error ∷◌) (marked_behind target (i + 1) m (omega arith)))
marked target i (suc k) m h =
    let stays : mark target i done ≡ done = ground arith in
    rw stays (ap (done ∷◌) (marked target (i + 1) k m (omega arith)))

-- Failing an audit of which k entries are done, one runs and m wait marks exactly the running entry
-- as failed: the done entries stay done, the others go on waiting, and all keep their tools.
pub fail_audit_entries-IsAt :
    (now : ℕ → ℕ) (k m : ℕ) (es : List AuditEntry)
    → IsAt k running m es
    → IsAt k error m (fail_audit_entries now es)
      × (tools_of (fail_audit_entries now es) ≡ tools_of es)
unfolding fail_audit_entries
fail_audit_entries-IsAt now k m es at =
    let found : find_idx? (λ e. is_running e.status) es ≡ some k =
      find-statuses is_running es ∙ rw at.shape (find_running k m) in
    (
      record {
        shape =
            rw (found, fail_audit_entries)
              (map_idx-statuses _ (mark k) 0 es (λ j e. ground arith)
                ∙ rw at.shape (marked k 0 k m (omega arith)));
      },
      rw (found, fail_audit_entries) (map_idx-tools _ 0 es (λ j e. ground arith)),
    )

all_done :
    (now : ℕ → ℕ) (i : ℕ) (es : List AuditEntry)
    → statuses (map_idx (λ j entry. set_status done (now j) entry) i es) ≡ times (length es) done
unfolding map_idx
all_done now i [] = refl
all_done now i (e ∷ es) = ap (done ∷◌) (all_done now (i + 1) es)

-- Completing an audit, whatever its progress, makes every entry done and keeps the tools.
pub complete_audit_entries-times :
    (now : ℕ → ℕ) (es : List AuditEntry)
    → (statuses (complete_audit_entries now es) ≡ times (length es) done)
      × (tools_of (complete_audit_entries now es) ≡ tools_of es)
unfolding complete_audit_entries
complete_audit_entries-times now es =
    (all_done now 0 es, map_idx-tools (λ j entry. set_status done (now j) entry) 0 es (λ j e. refl))
