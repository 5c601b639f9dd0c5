-- ===== src/Agent/Client.antt =====
-- consumeAgentConversationStream of frontend/src/features/agent/api/client.ts.
use rune_terminal.Base.{Bool, Option, none, some, List, [], if◌then◌else◌, ◌∷◌, not}
use rune_terminal.Text.{Text, text, text_eq, includes}
use rune_terminal.EventStream.{
  Delivery, skipped, delivered, thrown, Delivered, ParsedEvent, parse_event_block, consume_stream,
}
use rune_terminal.Agent.Conversation.{
  AgentConversationStreamEvent, message_start, message_complete, text_delta, reasoning_delta,
  tool_call, failure,
}

unfoldable pub event_type : AgentConversationStreamEvent → Text
event_type (message_start _ _) = text "message-start"
event_type (text_delta _ _) = text "text-delta"
event_type (reasoning_delta _ _) = text "reasoning-delta"
event_type (tool_call _ _) = text "tool-call"
event_type (message_complete _ _) = text "message-complete"
event_type (failure _) = text "error"

unfoldable pub is_supported_agent_conversation_stream_event_type : Text → Bool
is_supported_agent_conversation_stream_event_type value =
    includes
      (text "message-start"
        ∷ text "text-delta"
        ∷ text "reasoning-delta"
        ∷ text "tool-call"
        ∷ text "message-complete"
        ∷ text "error"
        ∷ [])
      value

-- `parse` is `JSON.parse`, with `none` for its exception and for a payload of none of the types, which
-- the comparison of the types refuses.
module _ (parse : Text → Option AgentConversationStreamEvent) where
  unfoldable pub deliver_event : Option ParsedEvent → Delivery AgentConversationStreamEvent
  deliver_event none = skipped
  deliver_event (some parsed) =
      if not (is_supported_agent_conversation_stream_event_type parsed.event)
      then thrown
      else elim (parse parsed.content) [
        | none ↦ thrown
        | some payload ↦
            if text_eq (event_type payload) parsed.event then delivered payload else thrown
      ]

  unfoldable pub on_agent_block : Text → Delivery AgentConversationStreamEvent
  on_agent_block block = deliver_event (parse_event_block block)

  unfoldable pub consume_agent_conversation_stream :
      (reads : List Text) (last : Text) → Delivered AgentConversationStreamEvent
  consume_agent_conversation_stream reads last = consume_stream on_agent_block [] reads last
