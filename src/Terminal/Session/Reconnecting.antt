-- ===== src/Terminal/Session/Reconnecting.antt =====
-- A stream that ends unexpectedly, a second mount of a widget, and the output that arrives.
use rune_terminal.Base.{
  ==_refl, ℕ, ◌+◌, ◌-◌, ◌≤◌, ◌<◌, ◌≡◌, refl, sym, ap, ◌∙◌, inl, inr, true, false, Option, none,
  some, List, [], ◌∷◌, ◌++◌, ◌==◌, arith, Bool-cases, any, filter, max, All, All-imp, All-append,
}
use mathlib.Core.List.{append_assoc, append-nil}
use rune_terminal.Text.{Text}
use rune_terminal.Terminal.Types.{TerminalOutputChunk, TerminalSnapshot}
use rune_terminal.Terminal.Session.{
  TerminalSessionRecordState, should_auto_recover_stream, recovering, begin_reload, finish_reload,
  end_recovery, receive_output, append_terminal_chunk,
}
use rune_terminal.Terminal.Session.Store.{
  TerminalSessionRecord, Store, close_connection, update_record, update_active, start_reload,
  schedule_terminal_stream_reconnect, release, attach, stream_ended, timer_fired, reload_loaded,
  stream_attached, ensured, ensure_loaded, ensure_settled, fire_timer, step, run,
}

any-close_connection :
    (c d : ℕ) (connections : List ℕ)
    → (c == d) ≡ false
    → any (λ e. c == e) (close_connection (some d) connections) ≡ any (λ e. c == e) connections
unfolding close_connection filter any
any-close_connection c d [] other = refl
any-close_connection c d (e ∷ connections) other =
    ground (arith, any-close_connection c d connections other)

-- A store that has a record.
abbrev pub store_of : TerminalSessionRecord → (next_generation : ℕ) → List ℕ → Store
store_of r next connections = record {
  session = some r;
  next_generation = next;
  open_connections = connections;
}

module _ (r : TerminalSessionRecord) (next c d : ℕ) (connections : List ℕ)
    (snapshot : TerminalSnapshot) where
  -- Where the stream of a session that runs and is in use ends unexpectedly, the timer fires, the
  -- snapshot comes and a new stream is attached: the session shows the snapshot without an error, no
  -- longer recovers, counts its retries anew, has no timer and holds the new connection; the old ones are
  -- no longer open.
  pub run-recovered :
      (fallback : Text) (message : Option Text)
      → (r.retainers == 0) ≡ false
      → should_auto_recover_stream r.state.snapshot ≡ true
      → any (λ e. c == e) connections ≡ true
      → run
          (stream_ended c fallback message
            ∷ timer_fired
            ∷ reload_loaded r.generation recovering snapshot
            ∷ stream_attached r.generation d true
            ∷ [])
          (store_of r next connections)
        ≡ store_of
            (record r {
              stream = some d;
              stream_reconnect_timer = none;
              state = record (r.state) {
                error = none;
                is_loading = false;
                is_recovering_stream = false;
                snapshot = some snapshot;
                stream_retry_count = 0;
              };
            })
            next
            (d ∷ close_connection r.stream (close_connection (some c) connections))
  unfolding run step update_record update_active schedule_terminal_stream_reconnect fire_timer
      start_reload begin_reload finish_reload attach end_recovery
  run-recovered fallback message used running opened =
      rw (opened, used, running) (rw (used, ==_refl r.generation) (rw (==_refl r.generation) refl))

  -- Where a widget is mounted once more while its session has a stream, a second stream is attached in
  -- place of the first, whose connection nothing closes any more: it is still open after the release.
  pub run-leaked :
      r.is_load_pending ≡ false
      → r.stream ≡ some c
      → any (λ e. c == e) connections ≡ true
      → (c == d) ≡ false
      → let w =
          run
            (ensured
              ∷ ensure_loaded r.generation snapshot
              ∷ stream_attached r.generation d false
              ∷ ensure_settled r.generation
              ∷ [])
            (store_of r next connections) in
        any (λ e. c == e) (release w).open_connections ≡ true
  unfolding run step update_record update_active attach release any
  run-leaked idle held opened other =
      rw (idle, ==_refl r.generation)
        (rw (==_refl r.generation) (
          rw (==_refl r.generation) (elim (Bool-cases (r.retainers - 1 == 0)) [
            | inl last ↦ rw last (any-close_connection c d (d ∷ connections) other ∙ still)
            | inr more ↦ rw more still
          ])))
    where
      still : any (λ e. c == e) (d ∷ connections) ≡ true
      still = ground (arith, opened)

-- The chunks in the order of arrival.
abbrev pub receive_all :
    List TerminalOutputChunk → TerminalSessionRecordState → TerminalSessionRecordState
receive_all [] s = s
receive_all (chunk ∷ chunks) s = receive_all chunks (receive_output chunk s)

-- Every chunk of a snapshot has a number below the snapshot's next one.
abbrev pub IsBounded : TerminalSnapshot → Type 0
IsBounded snapshot = All (λ chunk. chunk.seq < snapshot.next_seq) snapshot.chunks

-- The snapshot of a state, to which chunks were added.
abbrev pub Extended :
    TerminalSnapshot → List TerminalOutputChunk → TerminalSessionRecordState → Type 0
Extended before chunks s =
    (after : TerminalSnapshot) × (s.snapshot ≡ some after)
    × (after.chunks ≡ before.chunks ++ chunks)
    × (before.next_seq ≤ after.next_seq)
    × IsBounded after
    × ((bound : ℕ)
        → before.next_seq ≤ bound
        → All (λ chunk. chunk.seq < bound) chunks
        → after.next_seq ≤ bound)

receive_output-snapshot :
    (chunk : TerminalOutputChunk) (s : TerminalSessionRecordState)
    → (receive_output chunk s).snapshot ≡ (append_terminal_chunk chunk s).snapshot
unfolding receive_output
receive_output-snapshot chunk s = ground arith

receive_output-Extended :
    (chunk : TerminalOutputChunk) (s : TerminalSessionRecordState) (before : TerminalSnapshot)
    → s.snapshot ≡ some before
    → IsBounded before
    → Extended before (chunk ∷ []) (receive_output chunk s)
unfolding append_terminal_chunk
receive_output-Extended chunk s before e bounded = (
  record before {
    state = record (before.state) { last_output_at = some chunk.timestamp };
    chunks = before.chunks ++ chunk ∷ [];
    next_seq = max before.next_seq (chunk.seq + 1);
  },
  receive_output-snapshot chunk s ∙ ground (arith, e),
  refl,
  omega arith,
  All-append (λ c. c.seq < max before.next_seq (chunk.seq + 1)) before.chunks (chunk ∷ [])
      (All-imp before.chunks (λ c h. omega arith) bounded) (omega arith, tt),
  λ bound low (high, _). omega arith,
)

-- Whatever chunks arrive for a snapshot whose next number is above the numbers of its chunks: its chunks
-- are followed by those, in the order of arrival, and its next number is the least one that is no lower
-- than it was and above the numbers of all chunks that are there, in whatever order they came.
pub receive_all-Extended :
    (chunks : List TerminalOutputChunk) (s : TerminalSessionRecordState) (before : TerminalSnapshot)
    → s.snapshot ≡ some before
    → IsBounded before
    → Extended before chunks (receive_all chunks s)
receive_all-Extended [] s before e bounded =
    (before, e, sym (append-nil before.chunks), omega arith, bounded, λ bound low h. low)
receive_all-Extended (chunk ∷ chunks) s before e bounded =
    let (next, found, same, rises, ok, least) = receive_output-Extended chunk s before e bounded in
    let (after, found_after, same_after, rises_after, ok_after, least_after) =
      receive_all-Extended chunks (receive_output chunk s) next found ok in
    (
      after,
      found_after,
      same_after ∙ ap (λ cs. cs ++ chunks) same ∙ append_assoc before.chunks (chunk ∷ []) chunks,
      omega arith,
      ok_after,
      λ bound low (first, rest). least_after bound (least bound low (first, tt)) rest,
    )
