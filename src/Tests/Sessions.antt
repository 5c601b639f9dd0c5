-- ===== src/Tests/Sessions.antt =====
-- The theorems on terminal sessions at concrete inputs.
use rune_terminal.Base.{ℕ, ◌≡◌, refl, false, true, none, some, List, [], ◌∷◌, arith, any, ◌==◌}
use rune_terminal.Text.{text, text_eq}
use rune_terminal.Terminal.Types.{TerminalRuntimeState, TerminalOutputChunk, TerminalSnapshot}
use rune_terminal.Terminal.Session.{
  initial_state, recovering, Operation, should_auto_recover_stream,
}
use rune_terminal.Terminal.Session.Holding.{Holds}
use rune_terminal.Terminal.Session.Exclusive.{IsSound}
use rune_terminal.Terminal.Session.Runs.{run-IsSound}
use rune_terminal.Terminal.Session.Streams.{IsOwned}
use rune_terminal.Terminal.Session.Streams.Serial.{run-IsOwned}
use rune_terminal.Terminal.Session.Reconnecting.{
  store_of, run-recovered, run-leaked, receive_all, Extended, receive_all-Extended,
}
use rune_terminal.Terminal.Session.Store.{
  TerminalSessionRecord, Event, create_terminal_session_record, close_connection, release, run,
  empty_store, ensure_record, update_record, update_active, stream_ended, timer_fired,
  reload_loaded, stream_attached, ensured, ensure_loaded, ensure_settled, step,
}

abbrev runtime : TerminalRuntimeState
runtime = record {
  widget_id = text "w1";
  session_id = text "s1";
  shell = text "/bin/zsh";
  restored = none;
  status_detail = none;
  connection_id = none;
  connection_name = none;
  connection_kind = none;
  remote_launch_mode = none;
  remote_session_name = none;
  pid = 9;
  status = text "running";
  started_at = text "t";
  last_output_at = none;
  exit_code = none;
  can_send_input = true;
  can_interrupt = true;
  working_dir = none;
}

abbrev chunk : ℕ → TerminalOutputChunk
chunk seq = record { seq = seq; content = text "$ "; timestamp = text "t" }

abbrev snapshot : TerminalSnapshot
snapshot = record {
  state = runtime;
  chunks = chunk 0 ∷ chunk 1 ∷ [];
  next_seq = 2;
  active_session_id = none;
  sessions = runtime ∷ [];
}

abbrev mounting : List Event
mounting =
    Event.retained
    ∷ ensured
    ∷ ensure_loaded 0 snapshot
    ∷ stream_attached 0 1 false
    ∷ Event.operation_requested Operation.interrupt
    ∷ Event.released
    ∷ []

run-IsSound_example : Holds IsSound (run mounting empty_store)
run-IsSound_example = run-IsSound mounting

run-IsOwned_example : IsOwned (run mounting empty_store)
unfolding step empty_store ensure_record update_record update_active create_terminal_session_record
run-IsOwned_example = run-IsOwned mounting (tt, (tt, (tt, (refl, (tt, (tt, tt))))))

abbrev followed : TerminalSessionRecord
followed = record {
  generation = 5;
  retainers = 1;
  is_load_pending = false;
  state = record initial_state { snapshot = some snapshot };
  stream = some 1;
  stream_reconnect_timer = none;
}

run-recovered_example :
    run
      (stream_ended 1 (text "f") none
        ∷ timer_fired
        ∷ reload_loaded 5 recovering snapshot
        ∷ stream_attached 5 2 true
        ∷ [])
      (store_of followed 6 (1 ∷ []))
    ≡ store_of
        (record followed {
          stream = some 2;
          stream_reconnect_timer = none;
          state = record (followed.state) {
            error = none;
            is_loading = false;
            is_recovering_stream = false;
            snapshot = some snapshot;
            stream_retry_count = 0;
          };
        })
        6
        (2 ∷ close_connection (some 1) (close_connection (some 1) (1 ∷ [])))
unfolding should_auto_recover_stream text_eq any
run-recovered_example =
    run-recovered followed 6 1 2 (1 ∷ []) snapshot (text "f") none refl refl refl

run-leaked_example :
    let w =
      run
        (ensured ∷ ensure_loaded 5 snapshot ∷ stream_attached 5 2 false ∷ ensure_settled 5 ∷ [])
        (store_of followed 6 (1 ∷ [])) in
    any (λ e. 1 == e) (release w).open_connections ≡ true
unfolding any
run-leaked_example = run-leaked followed 6 1 2 (1 ∷ []) snapshot refl refl refl refl

receive_all-Extended_example :
    Extended snapshot
      (chunk 2 ∷ chunk 5 ∷ [])
      (receive_all (chunk 2 ∷ chunk 5 ∷ []) (followed.state))
receive_all-Extended_example =
    receive_all-Extended (chunk 2 ∷ chunk 5 ∷ []) (followed.state) snapshot refl (omega arith)
