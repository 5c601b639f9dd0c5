-- ===== src/Agent/Conversation/Finalizing.antt =====
-- The end of an answer that fails.
use rune_terminal.Base.{◌≡◌, refl, false, List, [], ◌∷◌, arith, any}
use rune_terminal.Text.{Text}
use rune_terminal.Agent.Conversation.{
  AgentConversationMessage, is_streaming, finalize_message,
  finalize_agent_conversation_streaming_messages,
}

-- No message goes on streaming.
pub finalize-any :
    (ms : List AgentConversationMessage) (message : Text)
    → any is_streaming (finalize_agent_conversation_streaming_messages ms message) ≡ false
unfolding finalize_agent_conversation_streaming_messages finalize_message any
finalize-any [] message = refl
finalize-any (m ∷ ms) message = ground (arith, finalize-any ms message)

-- A list without one stays as it is.
pub finalize_id :
    (ms : List AgentConversationMessage) (message : Text)
    → any is_streaming ms ≡ false
    → finalize_agent_conversation_streaming_messages ms message ≡ ms
unfolding finalize_agent_conversation_streaming_messages finalize_message any
finalize_id [] message h = refl
finalize_id (m ∷ ms) message h = ground (arith, finalize_id ms message)
