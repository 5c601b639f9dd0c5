-- ===== src/Agent/Conversation/Events.antt =====
-- Updating and adding messages by their id, message by message.
use rune_terminal.Base.{◌≡◌, Option, List, [], ◌∷◌, find?, find_idx?, if◌then◌else◌, arith}
use mathlib.Core.Option
use rune_terminal.Text.{Text, text_eq, text_eq_iff}
use rune_terminal.Agent.Conversation.{
  AgentConversationMessage, update_at, update_conversation_message, upsert_conversation_message,
}

pub update-cons :
    (m : AgentConversationMessage) (ms : List AgentConversationMessage) (id : Text)
    (update : AgentConversationMessage → AgentConversationMessage)
    → update_conversation_message (m ∷ ms) id update
      ≡ (if text_eq m.id id then update m ∷ ms else m ∷ update_conversation_message ms id update)
unfolding update_conversation_message update_at find_idx?
update-cons m ms id update = ground arith

pub upsert-cons :
    (m : AgentConversationMessage) (ms : List AgentConversationMessage)
    (message : AgentConversationMessage)
    → upsert_conversation_message (m ∷ ms) message ≡ (
        if text_eq m.id message.id
        then message ∷ ms
        else m ∷ upsert_conversation_message ms message)
unfolding upsert_conversation_message update_at find_idx?
upsert-cons m ms message = ground arith

-- The first message of an id.
abbrev pub find_message : Text → List AgentConversationMessage → Option AgentConversationMessage
find_message id = find? (λ m. text_eq m.id id)

-- An update that keeps the id changes what is found under its id, and nothing else.
pub find_message-update :
    (id other : Text) (update : AgentConversationMessage → AgentConversationMessage)
    (ms : List AgentConversationMessage)
    → ((m : AgentConversationMessage) → (update m).id ≡ m.id)
    → find_message other (update_conversation_message ms id update)
      ≡ (if text_eq id other then Option.map update (find_message id ms) else find_message other ms)
unfolding find?
find_message-update id other update [] keeps =
    unfold update_conversation_message find_idx? in ground arith
find_message-update id other update (m ∷ ms) keeps = rw (update-cons m ms id update) (
    ground (
      arith,
      find_message-update id other update ms keeps,
      keeps m,
      text_eq_iff m.id id,
      text_eq_iff id other,
      text_eq_iff m.id other,
    ))
