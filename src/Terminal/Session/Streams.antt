-- ===== src/Terminal/Session/Streams.antt =====
-- The connections that a terminal session has opened.
pub mod Serial
use rune_terminal.Base.{
  ℕ, suc, ◌-◌, ◌≡◌, refl, sym, ap, ◌∙◌, inl, inr, Bool, true, false, not, ◌&&◌, Option, none, some,
  List, [], ◌∷◌, if◌then◌else◌, ◌==◌, arith, Bool-cases, Option-cases, any, filter, All, All-filter,
  All-imp,
}
use rune_terminal.Text.{Text}
use rune_terminal.Terminal.Types.{TerminalOutputChunk, TerminalSnapshot}
use rune_terminal.Terminal.Session.{
  TerminalSessionRecordState, initial_state, should_auto_recover_stream, ReloadOptions, plain,
  recovering, begin_reload, finish_reload, end_recovery, receive_output, append_terminal_chunk,
  reconnect_delay, fail_reload, begin_ensure, finish_ensure, fail_ensure, Operation, restart,
  interrupt, create, switch_shell, focus, close, is_refused, begin_operation, finish_operation,
  finish_interrupt, fail_operation, refuses_shell_options, begin_shell_options,
  finish_shell_options, fail_shell_options, refuses_recovery, needs_restart, begin_recovery,
  finish_input, fail_input,
}
use rune_terminal.Terminal.Session.Holding.{if_both}
use rune_terminal.Terminal.Session.Store.{
  TerminalSessionRecord, Store, create_terminal_session_record, ensure_record, update_record,
  update_active, with_state, start_reload, schedule_terminal_stream_reconnect, release, attach,
  is_active, close_connection, Event, unless, request_recovery, fire_timer, current_state, step,
  run, empty_store,
}

-- Every open connection is the one that the record closes.
abbrev pub Owned : Option TerminalSessionRecord → List ℕ → Type 0
Owned none connections = connections ≡ []
Owned (some r) connections = All (λ c. r.stream ≡ some c) connections

abbrev pub IsOwned : Store → Type 0
IsOwned w = Owned w.session w.open_connections

close_connection-nil :
    (stream : Option ℕ) (connections : List ℕ)
    → All (λ c. stream ≡ some c) connections
    → close_connection stream connections ≡ []
unfolding close_connection filter
close_connection-nil none [] h = refl
close_connection-nil none (c ∷ connections) (e, h) = cc
close_connection-nil (some d) [] h = refl
close_connection-nil (some d) (c ∷ connections) (e, h) =
    ground (arith, e, close_connection-nil (some d) connections h)

pub update_record-IsOwned :
    (f : TerminalSessionRecord → TerminalSessionRecord) (w : Store)
    → ((r : TerminalSessionRecord) → (f r).stream ≡ r.stream)
    → IsOwned w
    → IsOwned (update_record f w)
unfolding update_record
update_record-IsOwned f w keeps h = elim (Option-cases w.session) [
  | inl e ↦ rw (e, update_record) h
  | inr (r, e) ↦ rw (e, update_record) (All-imp w.open_connections (λ c k. keeps r ∙ k) (rw e at h))
]

pub update_active-IsOwned :
    (g : ℕ) (f : TerminalSessionRecord → TerminalSessionRecord) (w : Store)
    → ((r : TerminalSessionRecord) → (f r).stream ≡ r.stream)
    → IsOwned w
    → IsOwned (update_active g f w)
unfolding update_active
update_active-IsOwned g f w keeps = update_record-IsOwned _ w (λ r. ground (arith, keeps r))

pub ensure_record-IsOwned : (w : Store) → IsOwned w → IsOwned (ensure_record w)
unfolding ensure_record create_terminal_session_record
ensure_record-IsOwned w h = elim (Option-cases w.session) [
  | inl e ↦
      let none_open : w.open_connections ≡ [] = rw e at h in rw (e, ensure_record) (rw none_open tt)
  | inr (r, e) ↦ rw (e, ensure_record) h
]

pub start_reload-IsOwned :
    (options : ReloadOptions) (w : Store) → IsOwned w → IsOwned (start_reload options w)
unfolding start_reload
start_reload-IsOwned options w h = elim (Option-cases w.session) [
  | inl e ↦ rw (e, start_reload) h
  | inr (r, e) ↦
      let closed = close_connection-nil r.stream w.open_connections (rw e at h) in
      rw (e, start_reload) (rw closed tt)
]

pub release-IsOwned : (w : Store) → IsOwned w → IsOwned (release w)
unfolding release
release-IsOwned w h = elim (Option-cases w.session) [
  | inl e ↦ rw (e, release) h
  | inr (r, e) ↦ elim (Bool-cases (r.retainers - 1 == 0)) [
    | inl last ↦
        rw (e, release) (rw last (close_connection-nil r.stream w.open_connections (rw e at h)))
    | inr more ↦ rw (e, release) (rw more (rw e at h))
  ]
]

-- The record has no stream.
abbrev pub HasNoStream : Store → Type 0
HasNoStream w = elim w.session [ none ↦ Unit | some r ↦ r.stream ≡ none ]

no_connection :
    (stream : Option ℕ) (connections : List ℕ)
    → stream ≡ none
    → All (λ c. stream ≡ some c) connections
    → connections ≡ []
no_connection stream [] e h = refl
no_connection stream (c ∷ connections) e (k, h) = cc

pub attach-IsOwned :
    (g connection : ℕ) (reloads : Bool) (w : Store)
    → HasNoStream w
    → IsOwned w
    → IsOwned (attach g connection reloads w)
unfolding attach update_record
attach-IsOwned g connection reloads w free h = elim (Option-cases w.session) [
  | inl e ↦ rw (e, attach) (rw e at h)
  | inr (r, e) ↦
      let gone = no_connection r.stream w.open_connections (rw e at free) (rw e at h) in
      elim (Bool-cases (r.generation == g)) [
        | inl active ↦ rw (e, attach) (rw active (rw gone (refl, tt)))
        | inr stale ↦ rw (e, attach) (rw stale (rw e at h))
      ]
]

pub schedule-stream :
    (fallback : Text) (message : Option Text) (r : TerminalSessionRecord)
    → (schedule_terminal_stream_reconnect fallback message r).stream ≡ r.stream
unfolding schedule_terminal_stream_reconnect
schedule-stream fallback message r = ground arith

pub unless-stream :
    (refused : TerminalSessionRecordState → Bool)
    (f : TerminalSessionRecordState → TerminalSessionRecordState) (r : TerminalSessionRecord)
    → (unless refused f r).stream ≡ r.stream
unfolding unless
unless-stream refused f r = ground arith

close_connection-Owned :
    (connection : Option ℕ) (session : Option TerminalSessionRecord) (connections : List ℕ)
    → Owned session connections
    → Owned session (close_connection connection connections)
unfolding close_connection filter
close_connection-Owned none session connections h = h
close_connection-Owned (some c) none connections h = rw h refl
close_connection-Owned (some c) (some r) connections h =
    All-filter (λ d. r.stream ≡ some d) (λ d. not (c == d)) connections h

-- A connection that is gone.
pub shrink-IsOwned :
    (connection : ℕ) (w : Store)
    → IsOwned w
    → IsOwned
        (record w { open_connections = close_connection (some connection) w.open_connections })
shrink-IsOwned connection w h =
    close_connection-Owned (some connection) w.session w.open_connections h

pub fire_timer-IsOwned : (w : Store) → IsOwned w → IsOwned (fire_timer w)
unfolding fire_timer
fire_timer-IsOwned w h = elim (Option-cases w.session) [
  | inl e ↦ rw (e, fire_timer) h
  | inr (r, e) ↦ elim (Option-cases r.stream_reconnect_timer) [
    | inl idle ↦ rw (e, fire_timer) (rw idle h)
    | inr (delay, armed) ↦
        rw (e, fire_timer)
          (rw armed (
            if_both IsOwned (r.retainers == 0) _ _ (rw e at h)
              (start_reload-IsOwned recovering w h)))
  ]
]

pub request_recovery-IsOwned : (w : Store) → IsOwned w → IsOwned (request_recovery w)
unfolding request_recovery
request_recovery-IsOwned w h = if_both IsOwned (refuses_recovery (current_state w)) w _ h (
    if_both IsOwned (needs_restart (current_state w)) _ _
      (update_record-IsOwned _ w (unless-stream _ _) h)
      (start_reload-IsOwned recovering _ (update_record-IsOwned _ w (λ r. refl) h)))
