-- ===== src/Agent/Conversation/Answers.antt =====
-- An answer that streams in.
use rune_terminal.Base.{
  ◌≡◌, refl, ◌∙◌, sym, ap, inl, inr, Bool, true, false, some, List, [], ◌∷◌, ◌++◌, if◌then◌else◌,
  arith, All, Bool-cases,
}
use mathlib.Core.Option
use mathlib.Core.Path.{subst}
use mathlib.Core.List.{append_assoc, append-nil}
use rune_terminal.Text.{Text, text_eq, text_eq_iff}
use rune_terminal.Agent.Conversation.{
  AgentConversationMessage, AgentConversationStreamEvent, message_start, message_complete,
  text_delta, reasoning_delta, tool_call, failure, update_conversation_message,
  append_conversation_reasoning, append_content, format_tool_call_reasoning_line,
  apply_agent_conversation_stream_event, apply_events,
}
use rune_terminal.Agent.Conversation.Events.{find_message, find_message-update}

-- The event adds to a message.
abbrev pub is_delta : AgentConversationStreamEvent → Bool
is_delta (text_delta _ _) = true
is_delta (reasoning_delta _ _) = true
is_delta (tool_call _ _) = true
is_delta _ = false

-- The text that an event has for the message of an id, and that all have, one after the other.
abbrev pub text_of : Text → AgentConversationStreamEvent → Text
text_of id (text_delta message_id delta) = if text_eq message_id id then delta else []
text_of id _ = []

abbrev pub texts_of : Text → List AgentConversationStreamEvent → Text
texts_of id [] = []
texts_of id (event ∷ events) = text_of id event ++ texts_of id events

pub reasoning-id :
    (m : AgentConversationMessage) (delta : Text)
    → (append_conversation_reasoning m delta).id ≡ m.id
unfolding append_conversation_reasoning
reasoning-id m delta = ground arith

reasoning-content :
    (m : AgentConversationMessage) (delta : Text)
    → (append_conversation_reasoning m delta).content ≡ m.content
unfolding append_conversation_reasoning
reasoning-content m delta = ground arith

-- A message with its content, under an id.
abbrev pub Shows : Text → Text → List AgentConversationMessage → Type 0
Shows id content ms =
    (m : AgentConversationMessage) × (find_message id ms ≡ some m) × (m.content ≡ content)

-- A step that adds a text to the messages of an id.
update-Shows :
    (id other content added : Text) (update : AgentConversationMessage → AgentConversationMessage)
    (ms : List AgentConversationMessage)
    → ((m : AgentConversationMessage) → (update m).id ≡ m.id)
    → ((m : AgentConversationMessage) → (update m).content ≡ m.content ++ added)
    → Shows other content ms
    → Shows other
        (content ++ (if text_eq id other then added else []))
        (update_conversation_message ms id update)
update-Shows id other content added update ms keeps adds (m, found, shown) =
    elim (Bool-cases (text_eq id other)) [
      | inl same ↦
          let e = (text_eq_iff id other).0 same in
          (
            update m,
            find_message-update id other update ms keeps
                ∙ rw same (ap (Option.map update) (ap (λ x. find_message x ms) e ∙ found)),
            rw same (adds m ∙ ap (λ s. s ++ added) shown),
          )
      | inr different ↦ (
        m,
        find_message-update id other update ms keeps ∙ rw different found,
        rw different (shown ∙ sym (append-nil content)),
      )
    ]

-- Reasoning leaves the contents as they are.
reasoning-Shows :
    (id other content delta : Text) (ms : List AgentConversationMessage)
    → Shows other content ms
    → Shows other
        (content ++ [])
        (update_conversation_message ms id (λ m. append_conversation_reasoning m delta))
reasoning-Shows id other content delta ms s =
    subst
      (λ added.
        Shows other (content ++ added)
          (update_conversation_message ms id (λ m. append_conversation_reasoning m delta)))
      (ground arith)
      (update-Shows id other content [] (λ m. append_conversation_reasoning m delta) ms
        (λ m. reasoning-id m delta) (λ m. reasoning-content m delta ∙ sym (append-nil m.content)) s)

step-Shows :
    (id content : Text) (event : AgentConversationStreamEvent) (ms : List AgentConversationMessage)
    → is_delta event ≡ true
    → Shows id content ms
    → Shows id (content ++ text_of id event) (apply_agent_conversation_stream_event ms event)
unfolding apply_agent_conversation_stream_event
step-Shows id content (text_delta to delta) ms h s =
    update-Shows to id content delta (append_content delta) ms (λ m. unfold append_content in refl)
      (λ m. unfold append_content in refl) s
step-Shows id content (reasoning_delta to delta) ms h s = reasoning-Shows to id content delta ms s
step-Shows id content (tool_call to call) ms h s =
    reasoning-Shows to id content (format_tool_call_reasoning_line call) ms s
step-Shows id content (message_start _ _) ms h s = cc
step-Shows id content (message_complete _ _) ms h s = cc
step-Shows id content (failure _) ms h s = cc

-- While an answer streams in, in whatever order its texts come with reasoning, calls of tools and what
-- is for other messages, the message holds the text it had, followed by the texts that were sent for
-- it, in their order.
pub apply_events-Shows :
    (id content : Text) (events : List AgentConversationStreamEvent)
    (ms : List AgentConversationMessage)
    → All (λ event. is_delta event ≡ true) events
    → Shows id content ms
    → Shows id (content ++ texts_of id events) (apply_events ms events)
unfolding apply_events
apply_events-Shows id content [] ms h s = rw (append-nil content) s
apply_events-Shows id content (event ∷ events) ms (he, h) s =
    rw (← append_assoc content (text_of id event) (texts_of id events)) (
      apply_events-Shows id (content ++ text_of id event) events
        (apply_agent_conversation_stream_event ms event) h (step-Shows id content event ms he s))
