-- ===== src/Agent/Conversation/Identity.antt =====
-- The ids of the messages of a conversation.
use rune_terminal.Base.{
  ◌≡◌, refl, sym, ap, ◌∙◌, ◌⊎◌, inl, inr, List, [], ◌∷◌, ◌++◌, if◌then◌else◌, arith, map, find_idx?,
  any, Option-cases, Bool-cases,
}
use mathlib.Core.Path.{subst}
use mathlib.Core.List.{append_assoc, append-nil}
use rune_terminal.Text.{Text, text_eq_iff, includes, includes-cons, Distinct, Distinct-append}
use rune_terminal.Agent.Conversation.{
  AgentConversationMessage, AgentConversationStreamEvent, message_start, message_complete,
  text_delta, reasoning_delta, tool_call, failure, update_conversation_message,
  upsert_conversation_message, append_conversation_reasoning, append_content,
  format_tool_call_reasoning_line, finalize_message, finalize_agent_conversation_streaming_messages,
  apply_agent_conversation_stream_event, apply_events,
}
use rune_terminal.Agent.Conversation.Events.{update-cons, upsert-cons}
use rune_terminal.Agent.Conversation.Answers.{reasoning-id}

abbrev pub message_ids : List AgentConversationMessage → List Text
message_ids = map (λ m. m.id)

ids-update :
    (id : Text) (update : AgentConversationMessage → AgentConversationMessage)
    (ms : List AgentConversationMessage)
    → ((m : AgentConversationMessage) → (update m).id ≡ m.id)
    → message_ids (update_conversation_message ms id update) ≡ message_ids ms
ids-update id update [] keeps = unfold update_conversation_message find_idx? in refl
ids-update id update (m ∷ ms) keeps =
    rw (update-cons m ms id update) (ground (arith, keeps m, ids-update id update ms keeps))

-- The ids of an upsert: a new one stands at the end.
abbrev pub with_id : List Text → Text → List Text
with_id ids id = if includes ids id then ids else ids ++ id ∷ []

ids-upsert :
    (ms : List AgentConversationMessage) (message : AgentConversationMessage)
    → message_ids (upsert_conversation_message ms message) ≡ with_id (message_ids ms) message.id
ids-upsert [] message = unfold upsert_conversation_message find_idx? includes any in refl
ids-upsert (m ∷ ms) message = rw (upsert-cons m ms message) (
    ground (
      arith,
      ids-upsert ms message,
      includes-cons m.id message.id (message_ids ms),
      text_eq_iff m.id message.id,
    ))

ids-finalize :
    (ms : List AgentConversationMessage) (message : Text)
    → message_ids (finalize_agent_conversation_streaming_messages ms message) ≡ message_ids ms
unfolding finalize_agent_conversation_streaming_messages finalize_message
ids-finalize [] message = refl
ids-finalize (m ∷ ms) message = ground (arith, ids-finalize ms message)

-- What a step does to the ids: it leaves them, or adds one that is new.
abbrev pub Extends : List Text → List Text → Type 0
Extends ids next = (next ≡ ids) ⊎ ((id : Text) × (next ≡ with_id ids id))

step-Extends :
    (ms : List AgentConversationMessage) (event : AgentConversationStreamEvent)
    → Extends (message_ids ms) (message_ids (apply_agent_conversation_stream_event ms event))
unfolding apply_agent_conversation_stream_event
step-Extends ms (message_start id message) = inr (message.id, ids-upsert ms message)
step-Extends ms (message_complete id message) = inr (message.id, ids-upsert ms message)
step-Extends ms (text_delta id delta) =
    inl (ids-update id (append_content delta) ms (λ m. unfold append_content in refl))
step-Extends ms (reasoning_delta id delta) =
    inl (ids-update id (λ m. append_conversation_reasoning m delta) ms (λ m. reasoning-id m delta))
step-Extends ms (tool_call id call) = inl (
    ids-update id (λ m. append_conversation_reasoning m (format_tool_call_reasoning_line call)) ms
      (λ m. reasoning-id m (format_tool_call_reasoning_line call)))
step-Extends ms (failure event) = elim (Option-cases event.message) [
  | inl e ↦ rw e (inl (ids-finalize ms _))
  | inr (message, e) ↦ rw e (inr (message.id, ids-upsert ms message))
]

-- The ids are different, and continue a list of ids.
abbrev pub Continues : List Text → List Text → Type 0
Continues ids next = Distinct next × ((added : List Text) × (next ≡ ids ++ added))

Continues-with_id :
    (ids next : List Text) (id : Text) → Continues ids next → Continues ids (with_id next id)
Continues-with_id ids next id (d, (added, e)) = elim (Bool-cases (includes next id)) [
  | inl old ↦ rw old (d, (added, e))
  | inr new ↦ rw new (
    Distinct-append next id d new,
    (added ++ id ∷ [], ap (λ l. l ++ id ∷ []) e ∙ append_assoc ids added (id ∷ [])),
  )
]

run-Continues :
    (ids : List Text) (ms : List AgentConversationMessage)
    (events : List AgentConversationStreamEvent)
    → Continues ids (message_ids ms)
    → Continues ids (message_ids (apply_events ms events))
unfolding apply_events
run-Continues ids ms [] h = h
run-Continues ids ms (event ∷ events) h =
    run-Continues ids (apply_agent_conversation_stream_event ms event) events
      (elim (step-Extends ms event) [
        | inl e ↦ subst (Continues ids) (sym e) h
        | inr (id, e) ↦ subst (Continues ids) (sym e) (Continues-with_id ids (message_ids ms) id h)
      ])

-- Whatever events a stream sends to a conversation whose messages have different ids: they still have
-- different ids, and those that were there are still there, in their places.
pub apply_events-Continues :
    (ms : List AgentConversationMessage) (events : List AgentConversationStreamEvent)
    → Distinct (message_ids ms)
    → Continues (message_ids ms) (message_ids (apply_events ms events))
apply_events-Continues ms events d =
    run-Continues (message_ids ms) ms events (d, ([], sym (append-nil (message_ids ms))))
