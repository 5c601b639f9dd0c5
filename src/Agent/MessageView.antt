-- ===== src/Agent/MessageView.antt =====
-- The chat messages that the panel shows for a conversation:
-- frontend/src/features/agent/model/chat-message-view.ts.
pub mod Prompts
use mathlib.Core.List.{reverse}
use rune_terminal.Base.{
  ℕ, suc, ◌+◌, ◌*◌, ◌-◌, ◌==◌, Bool, true, false, Option, none, some, List, [], ◌∷◌, ◌++◌, map, any,
  length, if◌then◌else◌, leb,
}
use mathlib.Core.Option
use rune_terminal.Text.{Text, text, text_eq, is_empty, trim, truthy, decimal}
use rune_terminal.EventStream.{join_lines}
use rune_terminal.Agent.Conversation.{
  AgentAttachmentReference, AgentConversationMessage, MessageRole, MessageStatus, system, user,
  assistant, streaming, complete, error, trimmed, or_text,
}

-- What the code asks of `Date`: the time of a timestamp, `none` for NaN, and the parts of a time in UTC.
pub record Dates : Type 0 where
  pub parse : Text → Option ℕ
  pub utc_full_year : ℕ → ℕ
  pub utc_month : ℕ → ℕ
  pub utc_date : ℕ → ℕ
  pub utc_hours : ℕ → ℕ
  pub utc_minutes : ℕ → ℕ

pub record MessageMeta : Type 0 where
  pub provider : Option Text
  pub model : Option Text
  pub status : Option Text
  pub reasoning : Option Text
  pub prompt : Option Text
  pub summary : Option Text

pub record ChatTextMessage : Type 0 where
  pub id : Text
  pub is_user : Bool
  pub content : Text
  pub attachments : Option (List AgentAttachmentReference)
  pub meta : Option MessageMeta
  pub sort_key : ℕ

abbrev pub is_user_message : AgentConversationMessage → Bool
is_user_message m = elim m.role [ user ↦ true | _ ↦ false ]

-- `value.charAt(0).toUpperCase() + value.slice(1)` of the name of a role
unfoldable pub role_label : MessageRole → Text
role_label system = text "System"
role_label user = text "User"
role_label assistant = text "Assistant"

unfoldable pub status_text : MessageStatus → Text
status_text streaming = text "streaming"
status_text complete = text "complete"
status_text error = text "error"

-- `String(n).padStart(2, '0')`
unfoldable pub two_digits : ℕ → Text
two_digits n = if leb n 9 then b'0' ∷ decimal n else decimal n

-- `values.join(' · ')`
unfoldable pub join_dots : List Text → Text
join_dots [] = []
join_dots (part ∷ []) = part
join_dots (part ∷ next ∷ parts) = part ++ text " · " ++ join_dots (next ∷ parts)

-- a line or a part for a value that is given
abbrev pub line_of : Text → Option Text → List Text
line_of label value = elim (truthy value) [ none ↦ [] | some v ↦ (label ++ v) ∷ [] ]

abbrev pub attachments_of : AgentConversationMessage → List AgentAttachmentReference
attachments_of m = elim m.attachments [ none ↦ [] | some attachments ↦ attachments ]

unfoldable pub get_message_content : AgentConversationMessage → Text
get_message_content m = or_text (truthy (some (trim m.content))) m.content

-- The prompts of the messages, by their ids. `seen` is `lastUserPrompt`; the map keeps the last entry
-- of an id, so that the newest stands first.
unfoldable pub collect_prompts :
    (seen : Option Text)
    → List AgentConversationMessage
    → List (Text × Option Text)
    → List (Text × Option Text)
collect_prompts seen [] prompts = prompts
collect_prompts seen (m ∷ ms) prompts =
    let as_prompt = collect_prompts (truthy (some (get_message_content m))) ms prompts in
    let as_answer = collect_prompts seen ms ((m.id, seen) ∷ prompts) in
    if is_user_message m then as_prompt else as_answer

-- `assistantPrompts.get(id)`
unfoldable pub get_prompt : Text → List (Text × Option Text) → Option Text
get_prompt id [] = none
get_prompt id ((key, prompt) ∷ prompts) =
    let rest = get_prompt id prompts in if text_eq key id then prompt else rest

unfoldable pub assistant_prompts : List AgentConversationMessage → List (Text × Option Text)
assistant_prompts messages = collect_prompts none (reverse messages) []

abbrev pub is_assistant_message : AgentConversationMessage → Bool
is_assistant_message m = elim m.role [ assistant ↦ true | _ ↦ false ]

module _ (dates : Dates) where
  unfoldable pub format_conversation_timestamp : Text → Text
  format_conversation_timestamp timestamp = elim (dates.parse timestamp) [
    | none ↦ []
    | some time ↦
        decimal (dates.utc_full_year time)
        ++ b'-' ∷ two_digits (dates.utc_month time + 1)
        ++ b'-' ∷ two_digits (dates.utc_date time)
        ++ b' ' ∷ two_digits (dates.utc_hours time)
        ++ b':' ∷ two_digits (dates.utc_minutes time)
  ]

  unfoldable pub create_conversation_message_sort_key : Text → (fallback_index : ℕ) → ℕ
  create_conversation_message_sort_key timestamp fallback_index = elim (dates.parse timestamp) [
    | none ↦ fallback_index
    | some value ↦ value * 1000 + fallback_index
  ]

  unfoldable pub build_fallback_assistant_reasoning : AgentConversationMessage → Text
  build_fallback_assistant_reasoning m = join_lines (
      (text "Status: " ++ status_text m.status)
        ∷ line_of (text "Created: ") (some (format_conversation_timestamp m.created_at))
      ++ line_of (text "Provider: ") m.provider
      ++ line_of (text "Model: ") m.model
      ++ map (λ a. text "Attachment: " ++ a.name ++ text " (" ++ a.path ++ text ")")
          (attachments_of m))

  unfoldable pub build_assistant_reasoning : AgentConversationMessage → Text
  build_assistant_reasoning m = or_text (trimmed m.reasoning) (build_fallback_assistant_reasoning m)

  unfoldable pub count_attachments : List AgentAttachmentReference → List Text
  count_attachments [] = []
  count_attachments (a ∷ []) = text "1 attachment" ∷ []
  count_attachments (a ∷ b ∷ more) = (decimal (length (a ∷ b ∷ more)) ++ text " attachments") ∷ []

  unfoldable pub build_assistant_summary : AgentConversationMessage → Text
  build_assistant_summary m = join_dots (
      role_label m.role ∷ status_text m.status ∷ line_of [] m.provider
      ++ line_of [] m.model
      ++ count_attachments (attachments_of m)
      ++ line_of [] (some (format_conversation_timestamp m.created_at)))

  -- The status is never empty, so that there always is a value.
  unfoldable pub build_assistant_meta :
      AgentConversationMessage → (prompt : Option Text) → MessageMeta
  build_assistant_meta m prompt = record {
    status = some (status_text m.status);
    provider = m.provider;
    model = m.model;
    reasoning = some (build_assistant_reasoning m);
    prompt = prompt;
    summary = some (build_assistant_summary m);
  }

  unfoldable pub map_conversation_message_to_chat_message_view :
      AgentConversationMessage → (prompt : Option Text) → (fallback_index : ℕ) → ChatTextMessage
  map_conversation_message_to_chat_message_view m prompt fallback_index = record {
    id = m.id;
    is_user = is_user_message m;
    content = get_message_content m;
    attachments = m.attachments;
    meta = if is_user_message m then none else some (build_assistant_meta m prompt);
    sort_key = create_conversation_message_sort_key m.created_at fallback_index;
  }

  -- the views of the messages from one on, whose fallback index is the number of those left
  unfoldable pub view_messages :
      List (Text × Option Text) → List AgentConversationMessage → List ChatTextMessage
  view_messages prompts [] = []
  view_messages prompts (m ∷ ms) =
      map_conversation_message_to_chat_message_view m
        (if is_assistant_message m then get_prompt m.id prompts else none) (length (m ∷ ms))
      ∷ view_messages prompts ms

  unfoldable pub map_conversation_messages_to_chat_message_views :
      List AgentConversationMessage → List ChatTextMessage
  map_conversation_messages_to_chat_message_views messages =
      view_messages (assistant_prompts messages) messages
