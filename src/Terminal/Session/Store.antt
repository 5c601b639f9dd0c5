-- ===== src/Terminal/Session/Store.antt =====
-- The record of one widget in `terminalSessionRecords`, its stream and its timer, over the events that
-- reach it: the calls of the hook, and what the requests, the streams and the timer bring back. After a
-- wait the code looks whether its record is still the one in the map: each record has a generation here,
-- and what comes back names the one it belongs to. A connection is named by a number.
use rune_terminal.Base.{
  ℕ, suc, ◌-◌, Bool, true, false, not, Option, none, some, List, [], ◌∷◌, if◌then◌else◌, ◌==◌,
  filter, any,
}
use rune_terminal.Text.{Text}
use rune_terminal.Terminal.Types.{
  TerminalRuntimeState, TerminalOutputChunk, TerminalSnapshot, TerminalShellOption,
}
use rune_terminal.Terminal.Session.{
  TerminalSessionRecordState, initial_state, to_terminal_error_message, should_auto_recover_stream,
  ReloadOptions, plain, recovering, begin_reload, finish_reload, end_recovery, receive_output,
  reconnect_delay, fail_reload, begin_ensure, finish_ensure, fail_ensure, Operation, restart,
  is_refused, begin_operation, finish_operation, finish_interrupt, fail_operation,
  refuses_shell_options, begin_shell_options, finish_shell_options, fail_shell_options,
  refuses_recovery, needs_restart, begin_recovery, finish_input, fail_input,
}

-- `TerminalSessionRecord`. Of the timer the delay that it was set with.
pub record TerminalSessionRecord : Type 0 where
  pub generation : ℕ
  pub retainers : ℕ
  pub is_load_pending : Bool
  pub state : TerminalSessionRecordState
  pub stream : Option ℕ
  pub stream_reconnect_timer : Option ℕ

pub record Store : Type 0 where
  pub session : Option TerminalSessionRecord
  pub next_generation : ℕ
  pub open_connections : List ℕ

unfoldable pub create_terminal_session_record : (generation : ℕ) → TerminalSessionRecord
create_terminal_session_record generation = record {
  generation = generation;
  retainers = 0;
  is_load_pending = false;
  state = initial_state;
  stream = none;
  stream_reconnect_timer = none;
}

-- `getTerminalSessionRecord`
unfoldable pub ensure_record : Store → Store
ensure_record w = elim w.session [
  | some _ ↦ w
  | none ↦ record w {
    session = some (create_terminal_session_record w.next_generation);
    next_generation = suc w.next_generation;
  }
]

unfoldable pub close_connection : Option ℕ → List ℕ → List ℕ
close_connection none connections = connections
close_connection (some c) connections = filter (λ d. not (c == d)) connections

-- a change of the record in the map
unfoldable pub update_record : (TerminalSessionRecord → TerminalSessionRecord) → Store → Store
update_record f w = elim w.session [ none ↦ w | some r ↦ record w { session = some (f r) } ]

abbrev pub with_state :
    (TerminalSessionRecordState → TerminalSessionRecordState)
    → TerminalSessionRecord
    → TerminalSessionRecord
with_state f r = record r { state = f r.state }

-- a change of the record of a generation, if it is still in the map
unfoldable pub update_active :
    (generation : ℕ) (f : TerminalSessionRecord → TerminalSessionRecord) → Store → Store
update_active generation f w = update_record (λ r. if r.generation == generation then f r else r) w

abbrev pub is_active : ℕ → Store → Bool
is_active generation w = elim w.session [ none ↦ false | some r ↦ r.generation == generation ]

-- the first statements of `reloadTerminalSessionRecord`, up to its request
unfoldable pub start_reload : ReloadOptions → Store → Store
start_reload options w = elim w.session [
  | none ↦ w
  | some r ↦ record w {
    session = some (record r {
      stream = none;
      stream_reconnect_timer = none;
      state = begin_reload options r.state;
    });
    open_connections = close_connection r.stream w.open_connections;
  }
]

unfoldable pub schedule_terminal_stream_reconnect :
    (fallback : Text) (message : Option Text) → TerminalSessionRecord → TerminalSessionRecord
schedule_terminal_stream_reconnect fallback message r =
    let retry = suc r.state.stream_retry_count in
    if r.retainers == 0
    then r
    else if should_auto_recover_stream r.state.snapshot
    then record r {
      stream_reconnect_timer = some (reconnect_delay retry);
      state = record (r.state) {
        error = none;
        is_recovering_stream = true;
        stream_retry_count = retry;
      };
    }
    else record r {
      state = record (r.state) {
        error = some (to_terminal_error_message message fallback);
        is_recovering_stream = false;
      };
    }

-- `releaseTerminalSession`
unfoldable pub release : Store → Store
release w = elim w.session [
  | none ↦ w
  | some r ↦
      if r.retainers - 1 == 0
      then record w {
        session = none;
        open_connections = close_connection r.stream w.open_connections;
      }
      else record w { session = some (record r { retainers = r.retainers - 1 }) }
]

-- `attachTerminalStream`, once it is connected; a reload ends the recovery then
unfoldable pub attach : (generation connection : ℕ) (reloads : Bool) → Store → Store
attach generation connection reloads w =
    let attached =
      update_record
        (λ r. record r {
          stream = some connection;
          state = if reloads then end_recovery r.state else r.state;
        })
        (record w { open_connections = connection ∷ w.open_connections }) in
    if is_active generation w then attached else w

-- What reaches the record. The names of the widget in the messages are in `fallback`.
pub data Event : Type 0 where
  observed retained released ensured timer_fired recovery_requested shells_requested : Event
  ensure_loaded : (generation : ℕ) → TerminalSnapshot → Event
  ensure_failed : (generation : ℕ) (fallback : Text) (message : Option Text) → Event
  ensure_settled : (generation : ℕ) → Event
  reload_loaded : (generation : ℕ) → ReloadOptions → TerminalSnapshot → Event
  reload_failed :
      (generation : ℕ)
      → ReloadOptions
      → (fallback follow_fallback : Text) (message : Option Text) → Event
  stream_attached : (generation connection : ℕ) (reloads : Bool) → Event
  output : (connection : ℕ) → TerminalOutputChunk → Event
  stream_ended : (connection : ℕ) (fallback : Text) (message : Option Text) → Event
  operation_requested : Operation → Event
  operation_answered : (generation : ℕ) → Event
  interrupt_answered : TerminalRuntimeState → Event
  operation_finished : (generation : ℕ) → Operation → Event
  operation_failed : (generation : ℕ) → Operation → (message : Text) → Event
  shells_loaded : (generation : ℕ) → List TerminalShellOption → Event
  shells_failed : (generation : ℕ) (message : Option Text) → Event
  input_sent : (refreshes : Bool) → Event
  input_failed : (fallback : Text) (message : Option Text) → Event

unfoldable pub unless :
    (TerminalSessionRecordState → Bool)
    → (TerminalSessionRecordState → TerminalSessionRecordState)
    → TerminalSessionRecord
    → TerminalSessionRecord
unless refused f r = if refused r.state then r else with_state f r

abbrev pub current_state : Store → TerminalSessionRecordState
current_state w = elim w.session [ none ↦ initial_state | some r ↦ r.state ]

-- `recoverSession`, to its first wait
unfoldable pub request_recovery : Store → Store
request_recovery w =
    if refuses_recovery (current_state w)
    then w
    else if needs_restart (current_state w)
    then update_record (unless (is_refused restart) (begin_operation restart)) w
    else start_reload recovering (update_record (with_state begin_recovery) w)

-- the callback of the timer
unfoldable pub fire_timer : Store → Store
fire_timer w = elim w.session [
  | none ↦ w
  | some r ↦ elim r.stream_reconnect_timer [
    | none ↦ w
    | some _ ↦
        if r.retainers == 0
        then record w { session = some (record r { stream_reconnect_timer = none }) }
        else start_reload recovering w
  ]
]

unfoldable pub step : Event → Store → Store
step observed w = ensure_record w
step retained w = update_record (λ r. record r { retainers = suc r.retainers }) (ensure_record w)
step released w = release w
step ensured w =
    update_record
      (λ r.
        if r.is_load_pending
        then r
        else record r { state = begin_ensure r.state; is_load_pending = true })
      w
step (ensure_loaded g snapshot) w = update_active g (with_state (finish_ensure snapshot)) w
step (ensure_failed g fallback message) w =
    update_active g (with_state (fail_ensure fallback message)) w
step (ensure_settled g) w = update_active g (λ r. record r { is_load_pending = false }) w
step timer_fired w = fire_timer w
step (reload_loaded g options snapshot) w =
    update_active g (with_state (finish_reload options snapshot)) w
step (reload_failed g plain fallback follow_fallback message) w =
    update_active g (with_state (fail_reload fallback message)) w
step (reload_failed g recovering fallback follow_fallback message) w =
    update_active g
      (λ r.
        if should_auto_recover_stream r.state.snapshot
        then schedule_terminal_stream_reconnect follow_fallback message r
        else with_state (fail_reload fallback message) r)
      w
step (stream_attached g connection reloads) w = attach g connection reloads w
step (output connection chunk) w =
    if any (λ c. connection == c) w.open_connections
    then update_record (with_state (receive_output chunk)) w
    else w
step (stream_ended connection fallback message) w =
    if any (λ c. connection == c) w.open_connections
    then update_record (schedule_terminal_stream_reconnect fallback message)
        (record w { open_connections = close_connection (some connection) w.open_connections })
    else w
step recovery_requested w = request_recovery (ensure_record w)
step shells_requested w =
    update_record (unless refuses_shell_options begin_shell_options) (ensure_record w)
step (operation_requested op) w =
    update_record (unless (is_refused op) (begin_operation op)) (ensure_record w)
step (operation_answered g) w = if is_active g w then start_reload plain w else w
step (interrupt_answered state) w = update_record (with_state (finish_interrupt state)) w
step (operation_finished g op) w = update_active g (with_state (finish_operation op)) w
step (operation_failed g op message) w = update_active g (with_state (fail_operation op message)) w
step (shells_loaded g options) w = update_active g (with_state (finish_shell_options options)) w
step (shells_failed g message) w = update_active g (with_state (fail_shell_options message)) w
step (input_sent refreshes) w = update_record (with_state (finish_input refreshes)) w
step (input_failed fallback message) w =
    update_record (with_state (fail_input fallback message)) (ensure_record w)

unfoldable pub run : List Event → Store → Store
run [] w = w
run (event ∷ events) w = run events (step event w)

unfoldable pub empty_store : Store
empty_store = record { session = none; next_generation = 0; open_connections = [] }
