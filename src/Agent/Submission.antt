-- ===== src/Agent/Submission.antt =====
-- A prompt that is sent to the backend, from its start to its end or its cancellation:
-- frontend/src/features/agent/model/agent-panel-streaming.ts. What happens between two waits is one
-- step, and the steps come in the order of arrival.
pub mod Stale
pub mod Cancelling
use rune_terminal.Base.{
  ℕ, suc, ◌+◌, Bool, true, false, not, ◌&&◌, ◌||◌, Option, none, some, List, [], ◌∷◌, ◌++◌, ◌==◌,
  any, if◌then◌else◌,
}
use rune_terminal.Text.{Text, text, text_eq, trim, truthy, decimal}
use rune_terminal.Agent.Types.{AuditEntry, AuditMessage}
use rune_terminal.Agent.Audit.{advance_audit_entries, complete_audit_entries, fail_audit_entries}
use rune_terminal.Agent.Conversation.{
  AgentConversationMessage, AgentConversationStreamEvent, message_start, message_complete,
  text_delta, reasoning_delta, tool_call, failure, error, assistant, is_streaming, trimmed, or_text,
  append_agent_conversation_message, finalize_agent_conversation_streaming_messages,
  apply_agent_conversation_stream_event,
}

-- What the callbacks of the input read and set. A connection is named by a number, and the abort
-- controller by the nonce of its submission; `closed` lists the connections that were closed or
-- cancelled.
pub record Panel : Type 0 where
  pub submission_nonce : ℕ
  pub is_submitting : Bool
  pub is_response_cancellable : Bool
  pub is_blocked : Bool
  pub load_error : Option Text
  pub submit_error : Option Text
  pub messages : Option (List AgentConversationMessage)
  pub active_stream : Option ℕ
  pub active_submission_abort : Option ℕ
  pub active_audit_message_id : Option Text
  pub audits : List AuditMessage
  pub closed : List ℕ

-- How far a submission is: it waits for its connection, follows its stream, waits for the snapshot
-- after the stream's end, or has returned.
pub data Stage : Type 0 where
  opening following awaiting_snapshot ended : Stage

-- The variables of one call of `runBackendPromptForPanel`.
pub record Submission : Type 0 where
  pub nonce : ℕ
  pub audit_message_id : Option Text
  pub audit_progressed : Bool
  pub stream_errored : Bool
  pub connection : Option ℕ
  pub stage : Stage

abbrev pub is_active_submission : Panel → Submission → Bool
is_active_submission p s = p.submission_nonce == s.nonce

abbrev pub same_text : Option Text → Option Text → Bool
same_text none none = true
same_text (some a) (some b) = text_eq a b
same_text _ _ = false

-- `updateAuditMessageEntries`: the entries of the audit message with an id
unfoldable pub update_entries :
    (List AuditEntry → List AuditEntry) → Text → List AuditMessage → List AuditMessage
update_entries update id [] = []
update_entries update id (m ∷ audits) =
    let rest = m ∷ update_entries update id audits in
    if text_eq m.id id then record m { entries = update m.entries } ∷ audits else rest

unfoldable pub update_audit : (List AuditEntry → List AuditEntry) → Option Text → Panel → Panel
update_audit update none p = p
update_audit update (some id) p = record p { audits = update_entries update id p.audits }

abbrev pub current_messages : Panel → List AgentConversationMessage
current_messages p = elim p.messages [ none ↦ [] | some messages ↦ messages ]

-- until the first wait
unfoldable pub start_submission :
    (audit_message_id : Option Text) (cancellable : Bool) → Panel → Panel × Submission
start_submission audit_message_id cancellable p = (
  record p {
    submission_nonce = suc p.submission_nonce;
    is_submitting = true;
    is_response_cancellable = cancellable;
    load_error = none;
    submit_error = none;
    is_blocked = true;
    active_submission_abort = some (suc p.submission_nonce);
    active_audit_message_id = audit_message_id;
  },
  record {
    nonce = suc p.submission_nonce;
    audit_message_id = audit_message_id;
    audit_progressed = false;
    stream_errored = false;
    connection = none;
    stage = opening;
  },
)

-- the block `finally`
unfoldable pub finish : Panel → Submission → Panel × Submission
finish p s =
    let ended_submission = record s { stage = ended } in
    if is_active_submission p s
    then (
      record p {
        active_stream = elim s.connection [ none ↦ p.active_stream | some _ ↦ none ];
        active_audit_message_id =
            if same_text p.active_audit_message_id s.audit_message_id
            then none
            else p.active_audit_message_id;
        active_submission_abort = none;
        is_blocked = false;
        is_submitting = false;
        is_response_cancellable = false;
      },
      ended_submission,
    )
    else (p, ended_submission)

abbrev pub is_text_delta : AgentConversationStreamEvent → Bool
is_text_delta (text_delta _ _) = true
is_text_delta _ = false

-- the first two statements of `onEvent`
unfoldable pub receive_delta :
    (now : ℕ → ℕ) → AgentConversationStreamEvent → Panel → Submission → Panel × Submission
receive_delta now event p s =
    let received = record p {
      messages = some (apply_agent_conversation_stream_event (current_messages p) event);
    } in
    elim s.audit_message_id [
      | none ↦ (received, s)
      | some id ↦
          if is_text_delta event && not s.audit_progressed
          then (
            update_audit (advance_audit_entries now) (some id) received,
            record s { audit_progressed = true },
          )
          else (received, s)
    ]

-- the rest of `onEvent`, by the type of the event
unfoldable pub receive_end :
    (now : ℕ → ℕ) → AgentConversationStreamEvent → Panel → Submission → Panel × Submission
receive_end now (message_complete id message) p s =
    (update_audit (complete_audit_entries now) s.audit_message_id p, s)
receive_end now (failure event) p s =
    let failed = update_audit (fail_audit_entries now) s.audit_message_id p in
    (
      elim event.message [
        | some message ↦ failed
        | none ↦ elim (trimmed event.error) [
          | none ↦ failed
          | some reason ↦ record failed { submit_error = some reason }
        ]
      ],
      record s { stream_errored = true },
    )
receive_end now event p s = (p, s)

unfoldable pub receive_event :
    (now : ℕ → ℕ) → AgentConversationStreamEvent → Panel → Submission → Panel × Submission
receive_event now event p s =
    let (q, t) = receive_delta now event p s in
    let received = receive_end now event q t in
    if is_active_submission p s then received else (p, s)

-- the block `catch`, and then `finally`
unfoldable pub fail_submission :
    (now : ℕ → ℕ) (host_id : Text) (message : Option Text) → Panel → Submission → Panel × Submission
fail_submission now host_id message p s =
    let error_message : Text = elim message [
      | some m ↦ elim (truthy (some (trim m))) [
        | some _ ↦ m
        | none ↦ text "Unable to send backend conversation message for " ++ host_id ++ text "."
      ]
      | none ↦ text "Unable to send backend conversation message for " ++ host_id ++ text "."
    ] in
    if is_active_submission p s
    then finish
        (record (update_audit (fail_audit_entries now) s.audit_message_id (record p {
          messages =
              some
                (finalize_agent_conversation_streaming_messages (current_messages p) error_message);
        })) { submit_error = some error_message })
        s
    else finish p s

-- What a submission waits for.
pub data Step : Type 0 where
  terminal_answered stream_done : Step
  connected : (connection : ℕ) → Step
  event : AgentConversationStreamEvent → Step
  snapshot_arrived : List AgentConversationMessage → Step
  rejected : (message : Option Text) → Step

unfoldable pub connect : ℕ → Panel → Submission → Panel × Submission
connect connection p s =
    if is_active_submission p s
    then (
      record p { active_stream = some connection },
      record s { connection = some connection; stage = following },
    )
    else finish (record p { closed = connection ∷ p.closed })
        (record s { connection = some connection })

-- `await connection.done`, and then the request of the snapshot or the end
unfoldable pub close_stream : Panel → Submission → Panel × Submission
close_stream p s =
    if is_active_submission p s && not s.stream_errored
    then (p, record s { stage = awaiting_snapshot })
    else finish p s

-- One step of a submission at its stage; of the snapshot the messages.
unfoldable pub step_submission :
    (now : ℕ → ℕ) (host_id : Text) → Stage → Step → Panel → Submission → Panel × Submission
step_submission now host_id _ (event e) p s = receive_event now e p s
step_submission now host_id opening terminal_answered p s = finish p s
step_submission now host_id opening (connected connection) p s = connect connection p s
step_submission now host_id following stream_done p s = close_stream p s
step_submission now host_id awaiting_snapshot (snapshot_arrived messages) p s =
    finish (record p { messages = some messages }) s
step_submission now host_id opening (rejected message) p s = fail_submission now host_id message p s
step_submission now host_id following (rejected message) p s =
    fail_submission now host_id message p s
step_submission now host_id awaiting_snapshot (rejected message) p s =
    fail_submission now host_id message p s
step_submission now host_id _ _ p s = (p, s)

-- The steps of one submission, in the order of arrival.
unfoldable pub run_steps :
    (now : ℕ → ℕ) (host_id : Text) → List Step → Panel → Submission → Panel × Submission
run_steps now host_id [] p s = (p, s)
run_steps now host_id (step ∷ steps) p s =
    let (q, t) = step_submission now host_id s.stage step p s in run_steps now host_id steps q t

abbrev pub is_idle : Panel → Bool
is_idle p =
    not p.is_submitting
    && elim p.active_stream [ none ↦ true | some _ ↦ false ]
    && elim p.active_submission_abort [ none ↦ true | some _ ↦ false ]

abbrev pub cancellation_message : Text
cancellation_message = text "Response cancelled by operator."

-- the message that is added where none was streaming
unfoldable pub cancelled_message :
    (host_id : Text) (nonce : ℕ) (time : Text) → AgentConversationMessage
cancelled_message host_id nonce time = record {
  id = text "agent-local-cancelled-" ++ host_id ++ text "-" ++ decimal nonce;
  role = assistant;
  content = cancellation_message;
  attachments = none;
  status = error;
  provider = none;
  model = none;
  reasoning = none;
  created_at = time;
}

-- `cancelActiveSubmissionForPanel`, at a time as `toISOString` gives it
unfoldable pub cancel_active_submission : (now : ℕ → ℕ) (host_id time : Text) → Panel → Panel
cancel_active_submission now host_id time p =
    let nonce = suc p.submission_nonce in
    let finalized =
      finalize_agent_conversation_streaming_messages (current_messages p) cancellation_message in
    if is_idle p
    then p
    else record (update_audit (fail_audit_entries now) p.active_audit_message_id p) {
      submission_nonce = nonce;
      active_submission_abort = none;
      active_stream = none;
      active_audit_message_id = none;
      closed = elim p.active_stream [ none ↦ p.closed | some c ↦ c ∷ p.closed ];
      messages = some (
          if any is_streaming (current_messages p)
          then finalized
          else append_agent_conversation_message finalized (cancelled_message host_id nonce time));
      submit_error = none;
      is_submitting = false;
      is_response_cancellable = false;
      is_blocked = false;
    }
