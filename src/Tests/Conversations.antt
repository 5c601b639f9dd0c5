-- ===== src/Tests/Conversations.antt =====
-- The theorems on conversations and submissions at concrete inputs.
use rune_terminal.Base.{
  ℕ, ◌≡◌, refl, false, true, none, some, List, [], ◌∷◌, ◌++◌, arith, get_elem?, length, any, find?,
}
use rune_terminal.Text.{Text, text, text_eq, includes, trim, trim_start, is_space}
use rune_terminal.Agent.Conversation.{
  AgentConversationMessage, AgentConversationStreamEvent, MessageRole, MessageStatus, user,
  assistant, streaming, complete, text_delta, reasoning_delta, apply_events, is_streaming,
}
use rune_terminal.Agent.Conversation.Answers.{Shows, texts_of, apply_events-Shows}
use rune_terminal.Agent.Conversation.Identity.{Continues, message_ids, apply_events-Continues}
use rune_terminal.Agent.MessageView.{
  Dates, get_message_content, map_conversation_message_to_chat_message_view,
  map_conversation_messages_to_chat_message_views,
}
use rune_terminal.Agent.MessageView.Prompts.{first_user_content, map_conversation_messages-prompt}
use rune_terminal.Agent.Submission.{
  Panel, Submission, Step, event, connected, rejected, opening, snapshot_arrived, awaiting_snapshot,
  run_steps, step_submission, cancel_active_submission, is_active_submission, current_messages,
}
use rune_terminal.Agent.Submission.Stale.{Untouched, run_steps-Untouched}
use rune_terminal.Agent.Submission.Cancelling.{
  IsAtRest, loaded, cancel_active_submission-IsAtRest, step_submission-IsAtRest,
  cancel_active_submission-overwritten,
}

abbrev message : Text → MessageRole → Text → MessageStatus → AgentConversationMessage
message id role content status = record {
  id = id;
  role = role;
  content = content;
  attachments = none;
  status = status;
  provider = none;
  model = none;
  reasoning = none;
  created_at = text "now";
}

abbrev answer : AgentConversationMessage
answer = message (text "m2") assistant (text "Let ") streaming

abbrev pub talk : List AgentConversationMessage
talk = message (text "m1") user (text "hi") complete ∷ answer ∷ []

abbrev deltas : List AgentConversationStreamEvent
deltas =
    text_delta (text "m2") (text "me ")
    ∷ reasoning_delta (text "m2") (text "think")
    ∷ text_delta (text "m2") (text "see")
    ∷ []

apply_events-Shows_example :
    Shows (text "m2") (text "Let " ++ texts_of (text "m2") deltas) (apply_events talk deltas)
unfolding text_eq find?
apply_events-Shows_example =
    apply_events-Shows (text "m2") (text "Let ") deltas talk (refl, (refl, (refl, tt)))
      (answer, refl, refl)

apply_events-Continues_example :
    Continues (message_ids talk) (message_ids (apply_events talk deltas))
unfolding includes any text_eq
apply_events-Continues_example = apply_events-Continues talk deltas (refl, (refl, tt))

abbrev dates : Dates
dates = record {
  parse = λ _. none;
  utc_full_year = λ _. 0;
  utc_month = λ _. 0;
  utc_date = λ _. 0;
  utc_hours = λ _. 0;
  utc_minutes = λ _. 0;
}

abbrev next_question : List AgentConversationMessage
next_question = message (text "m3") user (text "and now?") complete ∷ []

map_conversation_messages-prompt_example :
    get_elem?
      (map_conversation_messages_to_chat_message_views dates
        ((message (text "m1") user (text "hi") complete ∷ []) ++ answer ∷ next_question))
      (length (message (text "m1") user (text "hi") complete ∷ []))
    ≡ some (
        map_conversation_message_to_chat_message_view dates answer
          (first_user_content next_question)
          2)
unfolding includes any text_eq
map_conversation_messages-prompt_example =
    map_conversation_messages-prompt dates (message (text "m1") user (text "hi") complete ∷ [])
      next_question answer refl refl

-- That is the question that was asked after the answer.
next_content : first_user_content next_question ≡ some (text "and now?")
unfolding get_message_content trim trim_start is_space
next_content = refl

abbrev pub idle_panel : Panel
idle_panel = record {
  submission_nonce = 3;
  is_submitting = false;
  is_response_cancellable = false;
  is_blocked = false;
  load_error = none;
  submit_error = none;
  messages = some talk;
  active_stream = none;
  active_submission_abort = none;
  active_audit_message_id = none;
  audits = [];
  closed = [];
}

abbrev sent : Panel
sent = record idle_panel {
  submission_nonce = 4;
  is_submitting = true;
  is_blocked = true;
  active_stream = some 7;
  active_submission_abort = some 4;
}

abbrev submission : Submission
submission = record {
  nonce = 4;
  audit_message_id = none;
  audit_progressed = false;
  stream_errored = false;
  connection = some 7;
  stage = awaiting_snapshot;
}

abbrev clock : ℕ → ℕ
clock i = i

abbrev late : List Step
late =
    event (text_delta (text "m2") (text "late")) ∷ connected 9 ∷ rejected (some (text "gone")) ∷ []

-- a submission that still waits for its connection
abbrev unconnected : Submission
unconnected = record submission { connection = none; stage = opening }

run_steps-Untouched_example :
    Untouched
      (9 ∷ [])
      (record sent { submission_nonce = 5 })
      unconnected
      (run_steps clock (text "h") late (record sent { submission_nonce = 5 }) unconnected)
run_steps-Untouched_example =
    run_steps-Untouched clock (text "h") late (record sent { submission_nonce = 5 }) unconnected
      refl (refl, (refl, (refl, tt)))

cancel_active_submission-IsAtRest_example :
    let q = cancel_active_submission clock (text "h") (text "t") sent in
    IsAtRest q
    × (q.submit_error ≡ none)
    × (any is_streaming (current_messages q) ≡ false)
    × (is_active_submission q submission ≡ false)
cancel_active_submission-IsAtRest_example =
    cancel_active_submission-IsAtRest clock (text "h") (text "t") sent submission refl (omega arith)

step_submission-IsAtRest_example :
    IsAtRest
      (step_submission clock (text "h") awaiting_snapshot (snapshot_arrived talk) sent submission).0
step_submission-IsAtRest_example =
    step_submission-IsAtRest clock (text "h") sent submission awaiting_snapshot
      (snapshot_arrived talk) refl (λ none. cc) (loaded talk)

cancel_active_submission-overwritten_example :
    let q = cancel_active_submission clock (text "h") (text "t") sent in
    (step_submission clock (text "h") awaiting_snapshot (snapshot_arrived talk) q submission).0
    ≡ record q { messages = some talk }
cancel_active_submission-overwritten_example =
    cancel_active_submission-overwritten clock (text "h") (text "t") talk sent submission refl
      (omega arith)
