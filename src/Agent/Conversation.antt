-- ===== src/Agent/Conversation.antt =====
-- The messages of a conversation while an answer streams in:
-- frontend/src/features/agent/model/panel-state.ts, and the types of its events in
-- frontend/src/features/agent/api/client.ts.
pub mod Events
pub mod Answers
pub mod Identity
pub mod Finalizing
use rune_terminal.Base.{
  ℕ, zero, suc, ℤ, pos, negsuc, ◌+◌, Bool, true, false, not, Option, none, some, List, [], ◌∷◌,
  ◌++◌, map, filter, any, find_idx?, get_elem?, if◌then◌else◌, or_else,
}
use mathlib.Core.Option
use rune_terminal.Text.{Text, text, text_eq, is_empty, trim, truthy, decimal}
use rune_terminal.EventStream.{join_lines}

pub data MessageRole : Type 0 where
  system user assistant : MessageRole

pub data MessageStatus : Type 0 where
  streaming complete error : MessageStatus

pub record AgentAttachmentReference : Type 0 where
  pub id : Text
  pub name : Text
  pub path : Text
  pub mime_type : Text
  pub size : ℕ
  pub modified_time : ℕ

pub record AgentConversationMessage : Type 0 where
  pub id : Text
  pub role : MessageRole
  pub content : Text
  pub attachments : Option (List AgentAttachmentReference)
  pub status : MessageStatus
  pub provider : Option Text
  pub model : Option Text
  pub reasoning : Option Text
  pub created_at : Text

pub record AgentConversationToolCall : Type 0 where
  pub id : Option Text
  pub kind : Option Text
  pub name : Option Text
  pub status : Option Text
  pub summary : Option Text
  pub input : Option Text
  pub output : Option Text
  pub exit_code : Option ℤ

pub record AgentConversationErrorEvent : Type 0 where
  pub stream_id : Option Text
  pub message_id : Option Text
  pub message : Option AgentConversationMessage
  pub error_code : Option Text
  pub error : Option Text

-- The events by their `type`.
pub data AgentConversationStreamEvent : Type 0 where
  message_start message_complete :
      (message_id : Text) → (message : AgentConversationMessage) → AgentConversationStreamEvent
  text_delta reasoning_delta : (message_id delta : Text) → AgentConversationStreamEvent
  tool_call : (message_id : Text) → AgentConversationToolCall → AgentConversationStreamEvent
  failure : AgentConversationErrorEvent → AgentConversationStreamEvent

abbrev pub is_streaming : AgentConversationMessage → Bool
is_streaming m = elim m.status [ streaming ↦ true | _ ↦ false ]

-- `nextMessages[index] = update(nextMessages[index])`
unfoldable pub update_at :
    (AgentConversationMessage → AgentConversationMessage)
    → ℕ
    → List AgentConversationMessage
    → List AgentConversationMessage
update_at update i [] = []
update_at update zero (m ∷ messages) = update m ∷ messages
update_at update (suc i) (m ∷ messages) = m ∷ update_at update i messages

unfoldable pub upsert_conversation_message :
    List AgentConversationMessage → AgentConversationMessage → List AgentConversationMessage
upsert_conversation_message messages message =
    elim (find_idx? (λ m. text_eq m.id message.id) messages) [
      | none ↦ messages ++ message ∷ []
      | some index ↦ update_at (λ _. message) index messages
    ]

unfoldable pub update_conversation_message :
    List AgentConversationMessage
    → Text
    → (AgentConversationMessage → AgentConversationMessage)
    → List AgentConversationMessage
update_conversation_message messages message_id update =
    elim (find_idx? (λ m. text_eq m.id message_id) messages) [
      | none ↦ messages
      | some index ↦ update_at update index messages
    ]

-- `value?.trim()`, where it is not empty
abbrev pub trimmed : Option Text → Option Text
trimmed value = truthy (Option.map trim value)

-- `a || b` of a text that may be missing
abbrev pub or_text : Option Text → Text → Text
or_text none b = b
or_text (some a) b = a

unfoldable pub append_conversation_reasoning :
    AgentConversationMessage → Text → AgentConversationMessage
append_conversation_reasoning message delta =
    let added = trim delta in
    if is_empty added then message else record message {
      reasoning = some (elim (trimmed message.reasoning) [
        | none ↦ added
        | some current ↦ current ++ text "\n\n" ++ added
      ]);
      status = streaming;
    }

-- `String(exit_code)`
unfoldable pub signed_decimal : ℤ → Text
signed_decimal (pos n) = decimal n
signed_decimal (negsuc n) = b'-' ∷ decimal (n + 1)

unfoldable pub format_tool_call_reasoning_line : AgentConversationToolCall → Text
format_tool_call_reasoning_line call =
    let status = or_text (trimmed call.status) (text "updated") in
    let name =
      or_text (or_else (trimmed call.summary) (or_else (trimmed call.name) (trimmed call.kind)))
        (text "tool") in
    let head = text "Tool " ++ status ++ text ": " ++ name in
    let detail : List Text = elim (trimmed call.output) [
      | some output ↦ (text "Output: " ++ output) ∷ []
      | none ↦ elim (trimmed call.input) [ some input ↦ (text "Input: " ++ input) ∷ [] | none ↦ [] ]
    ] in
    let exit : List Text = elim call.exit_code [
      | none ↦ []
      | some code ↦ (text "Exit code: " ++ signed_decimal code) ∷ []
    ] in
    join_lines (head ∷ detail ++ exit)

unfoldable pub append_agent_conversation_message :
    List AgentConversationMessage → AgentConversationMessage → List AgentConversationMessage
append_agent_conversation_message messages message = messages ++ message ∷ []

unfoldable pub remove_agent_conversation_message :
    List AgentConversationMessage → Text → List AgentConversationMessage
remove_agent_conversation_message messages message_id =
    filter (λ m. not (text_eq m.id message_id)) messages

-- one message in `finalizeAgentConversationStreamingMessages`
unfoldable pub finalize_message : Text → AgentConversationMessage → AgentConversationMessage
finalize_message error_message m =
    if is_streaming m
    then record m {
      content = or_text (truthy (some (trim m.content))) error_message;
      status = error;
    }
    else m

unfoldable pub finalize_agent_conversation_streaming_messages :
    List AgentConversationMessage → (error_message : Text) → List AgentConversationMessage
finalize_agent_conversation_streaming_messages messages error_message =
    map (finalize_message error_message) messages

-- the case of a text delta
unfoldable pub append_content : Text → AgentConversationMessage → AgentConversationMessage
append_content delta m = record m { content = m.content ++ delta; status = streaming }

unfoldable pub apply_agent_conversation_stream_event :
    List AgentConversationMessage → AgentConversationStreamEvent → List AgentConversationMessage
apply_agent_conversation_stream_event messages (message_start id message) =
    upsert_conversation_message messages message
apply_agent_conversation_stream_event messages (text_delta id delta) =
    update_conversation_message messages id (append_content delta)
apply_agent_conversation_stream_event messages (reasoning_delta id delta) =
    update_conversation_message messages id (λ m. append_conversation_reasoning m delta)
apply_agent_conversation_stream_event messages (tool_call id call) =
    update_conversation_message messages id
      (λ m. append_conversation_reasoning m (format_tool_call_reasoning_line call))
apply_agent_conversation_stream_event messages (message_complete id message) =
    upsert_conversation_message messages message
apply_agent_conversation_stream_event messages (failure event) = elim event.message [
  | some message ↦ upsert_conversation_message messages message
  | none ↦
      finalize_agent_conversation_streaming_messages messages
        (or_text (trimmed event.error) (text "Agent stream failed."))
]

-- the events of a stream, in the order of arrival
unfoldable pub apply_events :
    List AgentConversationMessage
    → List AgentConversationStreamEvent
    → List AgentConversationMessage
apply_events messages [] = messages
apply_events messages (event ∷ events) =
    apply_events (apply_agent_conversation_stream_event messages event) events
