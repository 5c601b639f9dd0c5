-- ===== src/Agent/Audit/Runs.antt =====
-- An audit from its creation to its end, frontend/src/features/agent/model/interaction-flow.ts.
use rune_terminal.Base.{
  ℕ, zero, suc, ◌+◌, ◌-◌, min, ◌<◌, ◌≡◌, refl, ap, ◌∙◌, inl, inr, ◌&&◌, Option, none, some, List,
  [], ◌∷◌, map, if◌then◌else◌, ltb, ◌==◌, arith, length, find_idx?, Bool-cases,
}
use mathlib.Core.Path.{subst}
use rune_terminal.Agent.Types.{AuditEntry, PlanTool, pending, running}
use rune_terminal.Agent.Audit.{
  is_running, is_pending, map_idx, find_idx_from?, create_audit_entries, advance_entry,
  advance_audit_entries,
}
use rune_terminal.Agent.Audit.Progress.{
  statuses, tools_of, times, IsAt, map_idx-tools, advance_audit_entries-IsAt,
  advance_audit_entries_last,
}

created_behind :
    (now : ℕ → ℕ) (i : ℕ) (tools : List PlanTool)
    → 0 < i
    → (statuses (
          map_idx
            (λ j tool. record {
              tool = tool.name;
              status = if j == 0 then running else pending;
              timestamp = if j == 0 then some (now j) else none;
            })
            i
            tools)
        ≡ times (length tools) pending)
unfolding map_idx
created_behind now i [] h = refl
created_behind now i (t ∷ tools) h =
    let waits : (if i == 0 then running else pending) ≡ pending = ground arith in
    rw waits (ap (pending ∷◌) (created_behind now (i + 1) tools (omega arith)))

create_audit_entries-IsAt :
    (now : ℕ → ℕ) (tool : PlanTool) (tools : List PlanTool)
    → IsAt 0 running (length tools) (create_audit_entries now (tool ∷ tools))
unfolding create_audit_entries map_idx
create_audit_entries-IsAt now tool tools = record {
  shape = ap (running ∷◌) (created_behind now 1 tools (omega arith));
}

created-tools :
    (now : ℕ → ℕ) (i : ℕ) (tools : List PlanTool)
    → (tools_of (
          map_idx
            (λ j tool. record {
              tool = tool.name;
              status = if j == 0 then running else pending;
              timestamp = if j == 0 then some (now j) else none;
            })
            i
            tools)
        ≡ map (λ t. t.name) tools)
unfolding map_idx
created-tools now i [] = refl
created-tools now i (t ∷ tools) = ap (t.name ∷◌) (created-tools now (i + 1) tools)

advance_entry-tool :
    (now : ℕ → ℕ) (r n j : ℕ) (e : AuditEntry) → (advance_entry now r n j e).tool ≡ e.tool
unfolding advance_entry
advance_entry-tool now r n j e = ground arith

advance-tools :
    (now : ℕ → ℕ) (es : List AuditEntry) → tools_of (advance_audit_entries now es) ≡ tools_of es
unfolding advance_audit_entries
advance-tools now es = go (find_idx? (λ e. is_running e.status) es)
  where
    go_next :
        (r : ℕ) (o : Option ℕ)
        → tools_of (elim o [ none ↦ es | some n ↦ map_idx (advance_entry now r n) 0 es ])
          ≡ tools_of es
    go_next r none = refl
    go_next r (some n) = map_idx-tools _ 0 es (advance_entry-tool now r n)

    go :
        (o : Option ℕ)
        → tools_of (elim o [
          | none ↦ es
          | some r ↦ elim (find_idx_from? (λ i e. ltb r i && is_pending e.status) 0 es) [
            | none ↦ es
            | some n ↦ map_idx (advance_entry now r n) 0 es
          ]
        ])
          ≡ tools_of es
    go none = refl
    go (some r) = go_next r (find_idx_from? (λ i e. ltb r i && is_pending e.status) 0 es)

-- The audit after so many advances, the one with the index i at the time that `clocks i` tells.
abbrev pub advance_times : (clocks : ℕ → ℕ → ℕ) → ℕ → List AuditEntry → List AuditEntry
advance_times clocks zero es = es
advance_times clocks (suc n) es = advance_audit_entries (clocks n) (advance_times clocks n es)

advance_bounded :
    (now : ℕ → ℕ) (n m : ℕ) (es : List AuditEntry)
    → IsAt (min n m) running (m - n) es
    → IsAt (min (suc n) m) running (m - suc n) (advance_audit_entries now es)
advance_bounded now n m es at = elim (Bool-cases (ltb n m)) [
  | inl e ↦
      let k : min n m ≡ n = ground arith in
      let left : m - n ≡ suc (m - suc n) = ground arith in
      let next : suc n ≡ min (suc n) m = ground arith in
      subst (λ j. IsAt j running (m - suc n) (advance_audit_entries now es)) next
        (advance_audit_entries-IsAt now n (m - suc n) es (rw (k, left) at at))
  | inr e ↦
      let k : min n m ≡ m = ground arith in
      let left : m - n ≡ 0 = ground arith in
      let next : min (suc n) m ≡ m = ground arith in
      let none_left : m - suc n ≡ 0 = ground arith in
      let here : IsAt m running 0 es = rw (k, left) at at in
      rw (next, none_left, advance_audit_entries_last now m es here) here
]

-- The audit of a plan with at least one tool names the plan's tools in their order; after n advances
-- the first n entries are done, the next one runs and the others wait, and once the last entry runs
-- it goes on running.
pub advance_times-IsAt :
    (now : ℕ → ℕ) (clocks : ℕ → ℕ → ℕ) (tool : PlanTool) (tools : List PlanTool) (n : ℕ)
    → IsAt
        (min n (length tools))
        running
        (length tools - n)
        (advance_times clocks n (create_audit_entries now (tool ∷ tools)))
      × (tools_of (advance_times clocks n (create_audit_entries now (tool ∷ tools)))
          ≡ map (λ t. t.name) (tool ∷ tools))
advance_times-IsAt now clocks tool tools zero =
    let none_done : min 0 (length tools) ≡ 0 = omega arith in
    let all_wait : length tools - 0 ≡ length tools = omega arith in
    (
      rw (none_done, all_wait) (create_audit_entries-IsAt now tool tools),
      unfold create_audit_entries in created-tools now 0 (tool ∷ tools),
    )
advance_times-IsAt now clocks tool tools (suc n) =
    let (at, names) = advance_times-IsAt now clocks tool tools n in
    (advance_bounded (clocks n) n (length tools) _ at, advance-tools (clocks n) _ ∙ names)
