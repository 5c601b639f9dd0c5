-- ===== src/Agent/Audit/Progress.antt =====
-- The progress of an audit: the entries before the running one are done, those behind it wait.
use rune_terminal.Base.{
  ℕ, zero, suc, ◌+◌, ◌<◌, ◌≡◌, refl, ap, ◌∙◌, Bool, ◌&&◌, none, some, List, [], ◌∷◌, ◌++◌, map,
  if◌then◌else◌, ltb, ◌==◌, arith, find_idx?,
}
use rune_terminal.Text.{Text}
use rune_terminal.Agent.Types.{AuditEntry, AuditEntryStatus, pending, running, done}
use rune_terminal.Agent.Audit.{
  is_running, is_pending, map_idx, find_idx_from?, advance_entry, advance_audit_entries,
}

abbrev pub statuses : List AuditEntry → List AuditEntryStatus
statuses = map (λ e. e.status)

abbrev pub tools_of : List AuditEntry → List Text
tools_of = map (λ e. e.tool)

-- a status so many times
abbrev pub times : ℕ → AuditEntryStatus → List AuditEntryStatus
times zero s = []
times (suc n) s = s ∷ times n s

-- Behind `k` entries that are done one has the status given, and `m` wait.
pub record IsAt (k : ℕ) (s : AuditEntryStatus) (m : ℕ) (es : List AuditEntry) : Type 0 where
  pub shape : statuses es ≡ times k done ++ s ∷ times m pending

pub map_idx-tools :
    (f : ℕ → AuditEntry → AuditEntry) (i : ℕ) (es : List AuditEntry)
    → ((j : ℕ) (e : AuditEntry) → (f j e).tool ≡ e.tool)
    → tools_of (map_idx f i es) ≡ tools_of es
unfolding map_idx
map_idx-tools f i [] h = refl
map_idx-tools f i (e ∷ es) h = rw (h i e) (ap (e.tool ∷◌) (map_idx-tools f (i + 1) es h))

-- The clock does not count for the statuses: they are those of a map on statuses.
pub map_idx-statuses :
    (f : ℕ → AuditEntry → AuditEntry) (g : ℕ → AuditEntryStatus → AuditEntryStatus) (i : ℕ)
    (es : List AuditEntry)
    → ((j : ℕ) (e : AuditEntry) → (f j e).status ≡ g j e.status)
    → statuses (map_idx f i es) ≡ map_idx g i (statuses es)
unfolding map_idx
map_idx-statuses f g i [] h = refl
map_idx-statuses f g i (e ∷ es) h =
    rw (h i e) (ap (g i e.status ∷◌) (map_idx-statuses f g (i + 1) es h))

pub find-statuses :
    (p : AuditEntryStatus → Bool) (es : List AuditEntry)
    → find_idx? (λ e. p e.status) es ≡ find_idx? p (statuses es)
unfolding find_idx?
find-statuses p [] = refl
find-statuses p (e ∷ es) = rw (find-statuses p es) refl

find_from-statuses :
    (p : ℕ → AuditEntryStatus → Bool) (i : ℕ) (es : List AuditEntry)
    → find_idx_from? (λ j e. p j e.status) i es ≡ find_idx_from? p i (statuses es)
unfolding find_idx_from?
find_from-statuses p i [] = refl
find_from-statuses p i (e ∷ es) = rw (find_from-statuses p (i + 1) es) refl

abbrev progress : ℕ → AuditEntryStatus → ℕ → List AuditEntryStatus
progress k s m = times k done ++ s ∷ times m pending

pub find_running : (k m : ℕ) → find_idx? is_running (progress k running m) ≡ some k
unfolding find_idx?
find_running zero m = refl
find_running (suc k) m = rw (find_running k m) refl

no_pending :
    (r i k : ℕ) → find_idx_from? (λ j s. ltb r j && is_pending s) i (progress k running 0) ≡ none
unfolding find_idx_from?
no_pending r i zero = ground arith
no_pending r i (suc k) = ground (arith, no_pending r (i + 1) k)

find_next :
    (r i k m : ℕ)
    → r ≡ i + k
    → find_idx_from? (λ j s. ltb r j && is_pending s) i (progress k running (suc m)) ≡ some (suc r)
unfolding find_idx_from?
find_next r i zero m h = ground arith
find_next r i (suc k) m h = ground (arith, find_next r (i + 1) k m (omega arith))

-- what `advance_entry` does to a status
abbrev step : ℕ → ℕ → ℕ → AuditEntryStatus → AuditEntryStatus
step r n j s = if j == r then done else if j == n then running else s

step_behind :
    (r i m : ℕ) → suc r < i → map_idx (step r (suc r)) i (times m pending) ≡ times m pending
unfolding map_idx
step_behind r i zero h = refl
step_behind r i (suc m) h =
    let stays : step r (suc r) i pending ≡ pending = ground arith in
    rw stays (ap (pending ∷◌) (step_behind r (i + 1) m (omega arith)))

step-progress :
    (r i k m : ℕ)
    → r ≡ i + k
    → map_idx (step r (suc r)) i (progress k running (suc m)) ≡ progress (suc k) running m
unfolding map_idx
step-progress r i zero m h =
    let here : step r (suc r) i running ≡ done = ground arith in
    let next : step r (suc r) (i + 1) pending ≡ running = ground arith in
    rw (here, next) (ap (λ ss. done ∷ running ∷ ss) (step_behind r (i + 1 + 1) m (omega arith)))
step-progress r i (suc k) m h =
    let stays : step r (suc r) i done ≡ done = ground arith in
    rw stays (ap (done ∷◌) (step-progress r (i + 1) k m (omega arith)))

advance_entry-status :
    (now : ℕ → ℕ) (r n j : ℕ) (e : AuditEntry)
    → (advance_entry now r n j e).status ≡ step r n j e.status
unfolding advance_entry
advance_entry-status now r n j e = ground arith

-- Advancing an audit with an entry that waits finishes the running entry and starts the next one.
pub advance_audit_entries-IsAt :
    (now : ℕ → ℕ) (k m : ℕ) (es : List AuditEntry)
    → IsAt k running (suc m) es
    → IsAt (suc k) running m (advance_audit_entries now es)
unfolding advance_audit_entries
advance_audit_entries-IsAt now k m es at =
    let found : find_idx? (λ e. is_running e.status) es ≡ some k =
      find-statuses is_running es ∙ rw at.shape (find_running k (suc m)) in
    let next : find_idx_from? (λ i e. ltb k i && is_pending e.status) 0 es ≡ some (suc k) =
      find_from-statuses (λ i s. ltb k i && is_pending s) 0 es
      ∙ rw at.shape (find_next k 0 k m (omega arith)) in
    record {
      shape =
          rw (found, next, advance_audit_entries)
            (map_idx-statuses _ (step k (suc k)) 0 es (advance_entry-status now k (suc k))
              ∙ rw at.shape (step-progress k 0 k m (omega arith)));
    }

-- Advancing an audit with none that waits changes nothing.
pub advance_audit_entries_last :
    (now : ℕ → ℕ) (k : ℕ) (es : List AuditEntry)
    → IsAt k running 0 es
    → advance_audit_entries now es ≡ es
unfolding advance_audit_entries
advance_audit_entries_last now k es at =
    let found : find_idx? (λ e. is_running e.status) es ≡ some k =
      find-statuses is_running es ∙ rw at.shape (find_running k 0) in
    let next : find_idx_from? (λ i e. ltb k i && is_pending e.status) 0 es ≡ none =
      find_from-statuses (λ i s. ltb k i && is_pending s) 0 es ∙ rw at.shape (no_pending k 0 k) in
    rw (found, next, advance_audit_entries) refl
