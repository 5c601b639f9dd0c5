-- ===== src/Terminal/Session/Exclusive.antt =====
-- The flags of a terminal session's operations exclude one another, and the timer has a delay within
-- bounds.
use rune_terminal.Base.{
  ℕ, suc, ◌≤◌, ◌≡◌, refl, inl, inr, Bool, false, ◌&&◌, Option, none, some, ◌∷◌, if◌then◌else◌, ◌==◌,
  arith, Bool-cases,
}
use rune_terminal.Text.{Text}
use rune_terminal.Terminal.Types.{TerminalOutputChunk, TerminalSnapshot}
use rune_terminal.Terminal.Session.{
  TerminalSessionRecordState, initial_state, should_auto_recover_stream, ReloadOptions, plain,
  recovering, begin_reload, finish_reload, end_recovery, receive_output, append_terminal_chunk,
  reconnect_delay, fail_reload, Operation, restart, interrupt, create, switch_shell, focus, close,
  is_refused, begin_operation, finish_operation, fail_operation, finish_input,
}
use rune_terminal.Terminal.Session.Holding.{Holds, update_record-Holds, update_active-Holds}
use rune_terminal.Terminal.Session.Store.{
  TerminalSessionRecord, Store, create_terminal_session_record, update_record, update_active,
  with_state, schedule_terminal_stream_reconnect, attach, is_active, unless,
}

-- At most one of the flags for the session's creation, its interruption and its restart is set.
pub record IsExclusive (s : TerminalSessionRecordState) : Type 0 where
  pub creating_interrupting : (s.is_creating_session && s.is_interrupting) ≡ false
  pub creating_restarting : (s.is_creating_session && s.is_restarting) ≡ false
  pub interrupting_restarting : (s.is_interrupting && s.is_restarting) ≡ false

pub begin_operation-IsExclusive :
    (op : Operation) (s : TerminalSessionRecordState)
    → is_refused op s ≡ false
    → IsExclusive s
    → IsExclusive (begin_operation op s)
unfolding begin_operation is_refused
begin_operation-IsExclusive restart s h e = ground arith
begin_operation-IsExclusive interrupt s h e = ground arith
begin_operation-IsExclusive create s h e = ground arith
begin_operation-IsExclusive (switch_shell path) s h e = ground arith
begin_operation-IsExclusive (focus id) s h e = ground arith
begin_operation-IsExclusive (close id) s h e = ground arith

pub finish_operation-IsExclusive :
    (op : Operation) (s : TerminalSessionRecordState)
    → IsExclusive s
    → IsExclusive (finish_operation op s)
unfolding finish_operation
finish_operation-IsExclusive restart s e = ground arith
finish_operation-IsExclusive interrupt s e = e
finish_operation-IsExclusive create s e = ground arith
finish_operation-IsExclusive (switch_shell path) s e = ground arith
finish_operation-IsExclusive (focus id) s e = e
finish_operation-IsExclusive (close id) s e = e

pub fail_operation-IsExclusive :
    (op : Operation) (message : Text) (s : TerminalSessionRecordState)
    → IsExclusive s
    → IsExclusive (fail_operation op message s)
unfolding fail_operation
fail_operation-IsExclusive restart message s e = ground arith
fail_operation-IsExclusive interrupt message s e = ground arith
fail_operation-IsExclusive create message s e = ground arith
fail_operation-IsExclusive (switch_shell path) message s e = ground arith
fail_operation-IsExclusive (focus id) message s e = ground arith
fail_operation-IsExclusive (close id) message s e = ground arith

pub receive_output-IsExclusive :
    (chunk : TerminalOutputChunk) (s : TerminalSessionRecordState)
    → IsExclusive s
    → IsExclusive (receive_output chunk s)
unfolding receive_output append_terminal_chunk
receive_output-IsExclusive chunk s e = ground arith

end_recovery-IsExclusive :
    (s : TerminalSessionRecordState) → IsExclusive s → IsExclusive (end_recovery s)
unfolding end_recovery
end_recovery-IsExclusive s e = ground arith

pub finish_input-IsExclusive :
    (refreshes : Bool) (s : TerminalSessionRecordState)
    → IsExclusive s
    → IsExclusive (finish_input refreshes s)
unfolding finish_input
finish_input-IsExclusive refreshes s e = ground arith

-- The delay of the timer, in milliseconds.
abbrev pub IsWithin : Option ℕ → Type 0
IsWithin none = Unit
IsWithin (some delay) = (500 ≤ delay) × (delay ≤ 4000)

reconnect_delay-IsWithin : (n : ℕ) → IsWithin (some (reconnect_delay (suc n)))
unfolding reconnect_delay
reconnect_delay-IsWithin n = ground arith

-- What holds of the record of a widget.
pub record IsSound (r : TerminalSessionRecord) : Type 0 where
  pub exclusive : IsExclusive r.state
  pub within : IsWithin r.stream_reconnect_timer

pub with_state-IsSound :
    (f : TerminalSessionRecordState → TerminalSessionRecordState) (r : TerminalSessionRecord)
    → (IsExclusive r.state → IsExclusive (f r.state))
    → IsSound r
    → IsSound (with_state f r)
with_state-IsSound f r keeps h = record { exclusive = keeps h.exclusive; within = h.within }

pub created-IsSound : (g : ℕ) → IsSound (create_terminal_session_record g)
unfolding create_terminal_session_record initial_state
created-IsSound g = record {
  exclusive = record {
    creating_interrupting = refl;
    creating_restarting = refl;
    interrupting_restarting = refl;
  };
  within = tt;
}

pub begin_reload-IsSound :
    (options : ReloadOptions) (r : TerminalSessionRecord)
    → IsSound r
    → IsSound (record r {
      stream = none;
      stream_reconnect_timer = none;
      state = begin_reload options r.state;
    })
unfolding begin_reload
begin_reload-IsSound plain r h = record { exclusive = ground (arith, h.exclusive); within = tt }
begin_reload-IsSound recovering r h = record { exclusive = h.exclusive; within = tt }

pub finish_reload-IsExclusive :
    (options : ReloadOptions) (snapshot : TerminalSnapshot) (s : TerminalSessionRecordState)
    → IsExclusive s
    → IsExclusive (finish_reload options snapshot s)
unfolding finish_reload
finish_reload-IsExclusive plain snapshot s e = ground arith
finish_reload-IsExclusive recovering snapshot s e = ground arith

pub fail_reload-IsExclusive :
    (fallback : Text) (message : Option Text) (s : TerminalSessionRecordState)
    → IsExclusive s
    → IsExclusive (fail_reload fallback message s)
unfolding fail_reload
fail_reload-IsExclusive fallback message s e = ground arith

pub schedule-IsSound :
    (fallback : Text) (message : Option Text) (r : TerminalSessionRecord)
    → IsSound r
    → IsSound (schedule_terminal_stream_reconnect fallback message r)
unfolding schedule_terminal_stream_reconnect
schedule-IsSound fallback message r h = elim (Bool-cases (r.retainers == 0)) [
  | inl unused ↦ rw unused h
  | inr used ↦ rw used (elim (Bool-cases (should_auto_recover_stream r.state.snapshot)) [
    | inl recovers ↦ rw recovers (record {
      exclusive = ground (arith, h.exclusive);
      within = reconnect_delay-IsWithin r.state.stream_retry_count;
    })
    | inr stays ↦ rw stays (record { exclusive = ground (arith, h.exclusive); within = h.within })
  ])
]

pub unless-IsSound :
    (refused : TerminalSessionRecordState → Bool)
    (f : TerminalSessionRecordState → TerminalSessionRecordState) (r : TerminalSessionRecord)
    → ((s : TerminalSessionRecordState) → refused s ≡ false → IsExclusive s → IsExclusive (f s))
    → IsSound r
    → IsSound (unless refused f r)
unfolding unless
unless-IsSound refused f r keeps h = elim (Bool-cases (refused r.state)) [
  | inl e ↦ rw e h
  | inr e ↦ rw e (with_state-IsSound f r (keeps r.state e) h)
]

-- A change of the state, and of the state of a generation, that keeps the operations exclusive.
pub changed-IsSound :
    (f : TerminalSessionRecordState → TerminalSessionRecordState) (w : Store)
    → ((s : TerminalSessionRecordState) → IsExclusive s → IsExclusive (f s))
    → Holds IsSound w
    → Holds IsSound (update_record (with_state f) w)
changed-IsSound f w keeps =
    update_record-Holds IsSound (with_state f) w (λ r. with_state-IsSound f r (keeps r.state))

pub changed_active-IsSound :
    (g : ℕ) (f : TerminalSessionRecordState → TerminalSessionRecordState) (w : Store)
    → ((s : TerminalSessionRecordState) → IsExclusive s → IsExclusive (f s))
    → Holds IsSound w
    → Holds IsSound (update_active g (with_state f) w)
changed_active-IsSound g f w keeps =
    update_active-Holds IsSound g (with_state f) w (λ r. with_state-IsSound f r (keeps r.state))

pub attach-IsSound :
    (g connection : ℕ) (reloads : Bool) (w : Store)
    → Holds IsSound w
    → Holds IsSound (attach g connection reloads w)
unfolding attach
attach-IsSound g connection reloads w h = elim (Bool-cases (is_active g w)) [
  | inl active ↦ rw active (
      update_record-Holds IsSound _
        (record w { open_connections = connection ∷ w.open_connections })
        (λ r k. record { exclusive = ended reloads r.state k.exclusive; within = k.within }) h)
  | inr stale ↦ rw stale h
]
  where
    ended :
        (reloads : Bool) (s : TerminalSessionRecordState)
        → IsExclusive s
        → IsExclusive (if reloads then end_recovery s else s)
    ended reloads s e = ground (arith, end_recovery-IsExclusive s e)
