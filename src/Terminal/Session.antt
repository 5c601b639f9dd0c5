-- ===== src/Terminal/Session.antt =====
-- The session of a terminal widget: frontend/src/features/terminal/model/use-terminal-session.ts. The
-- state of the record of one widget, and what each operation does to it at its start, at its end and
-- where it fails; Session/Store puts these in the order in which they happen.
pub mod Store
pub mod Holding
pub mod Exclusive
pub mod Runs
pub mod Streams
pub mod Reconnecting
use rune_terminal.Base.{
  ℕ, suc, ◌+◌, ◌*◌, ◌-◌, min, max, Bool, true, false, not, ◌&&◌, ◌||◌, Option, none, some, List, [],
  ◌∷◌, ◌++◌, if◌then◌else◌, leb, ltb, length, any, ◌==◌, or_else,
}
use mathlib.Core.Option
use rune_terminal.Text.{Text, text, text_eq, is_empty, trim, truthy}
use rune_terminal.Terminal.Types.{
  TerminalRuntimeState, TerminalOutputChunk, TerminalSnapshot, TerminalShellOption,
}

pub record TerminalSessionRecordState : Type 0 where
  pub command_input_version : ℕ
  pub error : Option Text
  pub is_creating_session : Bool
  pub is_recovering_stream : Bool
  pub is_interrupting : Bool
  pub is_loading : Bool
  pub is_loading_shells : Bool
  pub is_restarting : Bool
  pub is_switching_shell : Bool
  pub snapshot : Option TerminalSnapshot
  pub shell_options : List TerminalShellOption
  pub shell_options_loaded : Bool
  pub stream_retry_count : ℕ

unfoldable pub initial_state : TerminalSessionRecordState
initial_state = record {
  command_input_version = 0;
  error = none;
  is_creating_session = false;
  is_recovering_stream = false;
  is_interrupting = false;
  is_loading = false;
  is_loading_shells = false;
  is_restarting = false;
  is_switching_shell = false;
  snapshot = none;
  shell_options = [];
  shell_options_loaded = false;
  stream_retry_count = 0;
}

-- The message of the exception, if it has one that is not blank.
unfoldable pub to_terminal_error_message : (message : Option Text) → (fallback : Text) → Text
to_terminal_error_message none fallback = fallback
to_terminal_error_message (some message) fallback =
    if is_empty (trim message) then fallback else message

unfoldable pub should_auto_recover_stream : Option TerminalSnapshot → Bool
should_auto_recover_stream none = false
should_auto_recover_stream (some snapshot) =
    text_eq snapshot.state.status (text "running")
    || text_eq snapshot.state.status (text "starting")

-- `mapConnectionKind(…) === 'local'`
unfoldable pub is_local : Option TerminalSnapshot → Bool
is_local none = true
is_local (some snapshot) = elim snapshot.state.connection_kind [
  | none ↦ true
  | some kind ↦ not (text_eq kind (text "ssh"))
]

unfoldable pub append_terminal_chunk :
    TerminalOutputChunk → TerminalSessionRecordState → TerminalSessionRecordState
append_terminal_chunk chunk state = elim state.snapshot [
  | none ↦ state
  | some snapshot ↦ record state {
    snapshot = some (record snapshot {
      state = record (snapshot.state) { last_output_at = some chunk.timestamp };
      chunks = snapshot.chunks ++ chunk ∷ [];
      next_seq = max snapshot.next_seq (chunk.seq + 1);
    });
  }
]

-- `{ preserveRecoveryState: true, silent: true }`, which are always given together, or neither
pub data ReloadOptions : Type 0 where
  plain recovering : ReloadOptions

unfoldable pub begin_reload :
    ReloadOptions → TerminalSessionRecordState → TerminalSessionRecordState
begin_reload plain state = record state { error = none; is_loading = true }
begin_reload recovering state = state

unfoldable pub finish_reload :
    ReloadOptions → TerminalSnapshot → TerminalSessionRecordState → TerminalSessionRecordState
finish_reload plain snapshot state = record state {
  error = none;
  is_loading = false;
  is_recovering_stream = false;
  snapshot = some snapshot;
  stream_retry_count = 0;
}
finish_reload recovering snapshot state = record state {
  error = none;
  is_loading = false;
  snapshot = some snapshot;
}

-- The stream works again: after it was attached by a reload. Of a chunk that arrives the error goes too.
unfoldable pub end_recovery : TerminalSessionRecordState → TerminalSessionRecordState
end_recovery state =
    if state.is_recovering_stream || ltb 0 state.stream_retry_count
    then record state { is_recovering_stream = false; stream_retry_count = 0 }
    else state

unfoldable pub receive_output :
    TerminalOutputChunk → TerminalSessionRecordState → TerminalSessionRecordState
receive_output chunk state =
    let next = append_terminal_chunk chunk state in
    if next.is_recovering_stream || ltb 0 next.stream_retry_count
    then record next { error = none; is_recovering_stream = false; stream_retry_count = 0 }
    else next

-- `Math.min(4000, 500 * nextRetryCount)`, in milliseconds
unfoldable pub reconnect_delay : ℕ → ℕ
reconnect_delay retry_count = min 4000 (500 * retry_count)

unfoldable pub fail_reload :
    (fallback : Text) (message : Option Text)
    → TerminalSessionRecordState
    → TerminalSessionRecordState
fail_reload fallback message state = record state {
  error = some (to_terminal_error_message message fallback);
  is_loading = false;
}

unfoldable pub begin_ensure : TerminalSessionRecordState → TerminalSessionRecordState
begin_ensure state = record state {
  is_loading = true;
  is_creating_session = false;
  is_interrupting = false;
  is_restarting = false;
  error = none;
}

unfoldable pub finish_ensure :
    TerminalSnapshot → TerminalSessionRecordState → TerminalSessionRecordState
finish_ensure snapshot state = record state {
  error = none;
  is_creating_session = false;
  is_recovering_stream = false;
  is_interrupting = false;
  is_loading = false;
  is_restarting = false;
  is_switching_shell = false;
  snapshot = some snapshot;
  stream_retry_count = 0;
}

unfoldable pub fail_ensure :
    (fallback : Text) (message : Option Text)
    → TerminalSessionRecordState
    → TerminalSessionRecordState
fail_ensure fallback message state = record state {
  error = some (to_terminal_error_message message fallback);
  is_creating_session = false;
  is_interrupting = false;
  is_recovering_stream = false;
  is_loading = false;
  is_restarting = false;
}

-- The operations that wait for a request and then, but for an interrupt, for a reload.
pub data Operation : Type 0 where
  restart interrupt create : Operation
  switch_shell : (shell_path : Text) → Operation
  focus close : (session_id : Text) → Operation

-- `record.state.snapshot?.active_session_id ?? record.state.snapshot?.state.session_id`
unfoldable pub active_session_id : TerminalSessionRecordState → Option Text
active_session_id state = elim state.snapshot [
  | none ↦ none
  | some snapshot ↦ or_else snapshot.active_session_id (some snapshot.state.session_id)
]

abbrev pub equals_some : Option Text → Text → Bool
equals_some none b = false
equals_some (some a) b = text_eq a b

abbrev pub current_shell : TerminalSessionRecordState → Text
current_shell state = elim state.snapshot [ none ↦ [] | some snapshot ↦ trim snapshot.state.shell ]

abbrev pub session_count : TerminalSessionRecordState → ℕ
session_count state = elim state.snapshot [ none ↦ 0 | some snapshot ↦ length snapshot.sessions ]

abbrev pub can_interrupt : TerminalSessionRecordState → Bool
can_interrupt state = elim state.snapshot [ none ↦ false | some s ↦ s.state.can_interrupt ]

-- whether the operation returns at once
unfoldable pub is_refused : Operation → TerminalSessionRecordState → Bool
is_refused restart state = state.is_interrupting || state.is_restarting
is_refused interrupt state =
    state.is_interrupting || state.is_restarting || not (can_interrupt state)
is_refused create state = state.is_creating_session || state.is_interrupting || state.is_restarting
is_refused (switch_shell shell_path) state =
    is_empty (trim shell_path)
    || text_eq (trim shell_path) (current_shell state)
    || not (is_local state.snapshot)
    || state.is_creating_session
    || state.is_interrupting
    || state.is_restarting
    || state.is_switching_shell
is_refused (focus session_id) state =
    is_empty (trim session_id)
    || equals_some (active_session_id state) session_id
    || state.is_creating_session
    || state.is_interrupting
    || state.is_restarting
is_refused (close session_id) state =
    is_empty (trim session_id)
    || leb (session_count state) 1
    || state.is_creating_session
    || state.is_interrupting
    || state.is_restarting

-- before the request
unfoldable pub begin_operation : Operation → TerminalSessionRecordState → TerminalSessionRecordState
begin_operation restart state = record state {
  error = none;
  is_creating_session = false;
  is_interrupting = false;
  is_restarting = true;
}
begin_operation interrupt state = record state {
  error = none;
  is_creating_session = false;
  is_interrupting = true;
}
begin_operation create state = record state { error = none; is_creating_session = true }
begin_operation (switch_shell _) state = record state {
  error = none;
  is_creating_session = false;
  is_interrupting = false;
  is_restarting = true;
  is_switching_shell = true;
}
begin_operation (focus _) state = record state { error = none; is_loading = true }
begin_operation (close _) state = record state { error = none; is_loading = true }

-- after the request, and after the reload that follows it; of an interrupt the runtime state that the
-- request gave
unfoldable pub finish_operation :
    Operation → TerminalSessionRecordState → TerminalSessionRecordState
finish_operation restart state = record state { is_interrupting = false; is_restarting = false }
finish_operation interrupt state = state
finish_operation create state = record state { is_creating_session = false }
finish_operation (switch_shell _) state = record state {
  is_interrupting = false;
  is_restarting = false;
  is_switching_shell = false;
}
finish_operation (focus _) state = state
finish_operation (close _) state = state

unfoldable pub finish_interrupt :
    TerminalRuntimeState → TerminalSessionRecordState → TerminalSessionRecordState
finish_interrupt next_state state = record state {
  error = none;
  is_creating_session = false;
  is_interrupting = false;
  snapshot = elim state.snapshot [ none ↦ none | some s ↦ some (record s { state = next_state }) ];
}

-- where the request fails; `message` is the result of `toTerminalErrorMessage`
unfoldable pub fail_operation :
    Operation → (message : Text) → TerminalSessionRecordState → TerminalSessionRecordState
fail_operation restart message state = record state {
  error = some message;
  is_creating_session = false;
  is_interrupting = false;
  is_restarting = false;
}
fail_operation interrupt message state = record state {
  error = some message;
  is_creating_session = false;
  is_interrupting = false;
}
fail_operation create message state = record state {
  error = some message;
  is_creating_session = false;
}
fail_operation (switch_shell _) message state = record state {
  error = some message;
  is_creating_session = false;
  is_interrupting = false;
  is_restarting = false;
  is_switching_shell = false;
}
fail_operation (focus _) message state = record state { error = some message; is_loading = false }
fail_operation (close _) message state = record state { error = some message; is_loading = false }

-- `loadShellOptions`
unfoldable pub refuses_shell_options : TerminalSessionRecordState → Bool
refuses_shell_options state =
    not (is_local state.snapshot) || state.shell_options_loaded || state.is_loading_shells

unfoldable pub begin_shell_options : TerminalSessionRecordState → TerminalSessionRecordState
begin_shell_options state = record state { error = none; is_loading_shells = true }

unfoldable pub finish_shell_options :
    List TerminalShellOption → TerminalSessionRecordState → TerminalSessionRecordState
finish_shell_options options state = record state {
  error = none;
  is_loading_shells = false;
  shell_options = options;
  shell_options_loaded = true;
}

unfoldable pub fail_shell_options :
    (message : Option Text) → TerminalSessionRecordState → TerminalSessionRecordState
fail_shell_options message state = record state {
  error = some (to_terminal_error_message message (text "Unable to load local shells."));
  is_loading_shells = false;
}

-- `recoverSession`: whether it returns at once, and whether it restarts instead
unfoldable pub refuses_recovery : TerminalSessionRecordState → Bool
refuses_recovery state =
    state.is_creating_session || state.is_interrupting || state.is_loading || state.is_restarting

unfoldable pub needs_restart : TerminalSessionRecordState → Bool
needs_restart state = elim state.snapshot [
  | none ↦ false
  | some snapshot ↦
      text_eq snapshot.state.status (text "exited")
      || text_eq snapshot.state.status (text "failed")
      || text_eq snapshot.state.status (text "disconnected")
]

unfoldable pub begin_recovery : TerminalSessionRecordState → TerminalSessionRecordState
begin_recovery state = record state {
  error = none;
  is_recovering_stream = true;
  stream_retry_count = 0;
}

-- `sendInputChunk`, after the input was sent; `refreshes` if it has a carriage return or a line feed
unfoldable pub finish_input :
    (refreshes : Bool) → TerminalSessionRecordState → TerminalSessionRecordState
finish_input refreshes state =
    let version =
      if refreshes then state.command_input_version + 1 else state.command_input_version in
    let cleared = record state { command_input_version = version; error = none } in
    let refreshed = record state { command_input_version = version } in
    elim state.snapshot [
      | none ↦ if refreshes then refreshed else state
      | some _ ↦ elim state.error [
        | none ↦ if refreshes then refreshed else state
        | some _ ↦ cleared
      ]
    ]

unfoldable pub fail_input :
    (fallback : Text) (message : Option Text)
    → TerminalSessionRecordState
    → TerminalSessionRecordState
fail_input fallback message state = record state {
  error = some (to_terminal_error_message message fallback);
}
