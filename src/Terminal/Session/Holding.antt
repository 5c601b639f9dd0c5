-- ===== src/Terminal/Session/Holding.antt =====
-- A predicate on the record of a widget, through the changes of the map.
use rune_terminal.Base.{
  ℕ, ◌-◌, inl, inr, Bool, true, false, none, some, ◌==◌, if◌then◌else◌, Bool-cases, Option-cases,
}
use rune_terminal.Terminal.Session.{ReloadOptions, begin_reload}
use rune_terminal.Terminal.Session.Store.{
  TerminalSessionRecord, Store, create_terminal_session_record, ensure_record, update_record,
  update_active, start_reload, release,
}

-- The record in the map satisfies a predicate, if there is one.
abbrev pub Holds : (TerminalSessionRecord → Type 0) → Store → Type 0
Holds P w = elim w.session [ none ↦ Unit | some r ↦ P r ]

-- What holds of both branches holds of a test.
pub if_both :
    {A : Type 0} (P : A → Type 0) (b : Bool) (x y : A) → P x → P y → P (if b then x else y)
if_both P true x y h k = h
if_both P false x y h k = k

module _ (P : TerminalSessionRecord → Type 0) where
  pub update_record-Holds :
      (f : TerminalSessionRecord → TerminalSessionRecord) (w : Store)
      → ((r : TerminalSessionRecord) → P r → P (f r))
      → Holds P w
      → Holds P (update_record f w)
  unfolding update_record
  update_record-Holds f w keeps h = elim (Option-cases w.session) [
    | inl e ↦ rw (e, update_record) h
    | inr (r, e) ↦ rw (e, update_record) (keeps r (rw e at h))
  ]

  pub update_active-Holds :
      (g : ℕ) (f : TerminalSessionRecord → TerminalSessionRecord) (w : Store)
      → ((r : TerminalSessionRecord) → P r → P (f r))
      → Holds P w
      → Holds P (update_active g f w)
  unfolding update_active
  update_active-Holds g f w keeps =
      update_record-Holds _ w
        (λ r h. elim (Bool-cases (r.generation == g)) [ inl e ↦ rw e (keeps r h) | inr e ↦ rw e h ])

  pub ensure_record-Holds :
      (w : Store)
      → ((g : ℕ) → P (create_terminal_session_record g))
      → Holds P w
      → Holds P (ensure_record w)
  unfolding ensure_record
  ensure_record-Holds w created h = elim (Option-cases w.session) [
    | inl e ↦ rw (e, ensure_record) (created w.next_generation)
    | inr (r, e) ↦ rw (e, ensure_record) h
  ]

  pub start_reload-Holds :
      (options : ReloadOptions) (w : Store)
      → ((r : TerminalSessionRecord)
          → P r
          → P (record r {
            stream = none;
            stream_reconnect_timer = none;
            state = begin_reload options r.state;
          }))
      → Holds P w
      → Holds P (start_reload options w)
  unfolding start_reload
  start_reload-Holds options w keeps h = elim (Option-cases w.session) [
    | inl e ↦ rw (e, start_reload) h
    | inr (r, e) ↦ rw (e, start_reload) (keeps r (rw e at h))
  ]

  pub release-Holds :
      (w : Store)
      → ((r : TerminalSessionRecord) → P r → P (record r { retainers = r.retainers - 1 }))
      → Holds P w
      → Holds P (release w)
  unfolding release
  release-Holds w keeps h = elim (Option-cases w.session) [
    | inl e ↦ rw (e, release) h
    | inr (r, e) ↦ elim (Bool-cases (r.retainers - 1 == 0)) [
      | inl last ↦ rw (e, release) (rw last tt)
      | inr more ↦ rw (e, release) (rw more (keeps r (rw e at h)))
    ]
  ]
