-- ===== src/Agent/Conversations/Deleting.antt =====
-- A deletion, an archiving or a restoring while the list is refreshed:
-- `mutateConversationCollectionForPanel` of
-- frontend/src/features/agent/model/agent-panel-conversations.ts.
use rune_terminal.Base.{suc, ◌≡◌, refl, false, some, [], ◌∷◌, ==_refl, inl, inr, Bool-cases}
use rune_terminal.Text.{Text, is_empty, text_eq}
use rune_terminal.Locale.{Locale}
use rune_terminal.Agent.MessageView.{Dates}
use rune_terminal.Agent.Conversations.{
  ConversationPanel, AgentConversationList, AgentConversationSnapshot, refresh_requested,
  refresh_answered, requested, mutated, mutate, step_conversations, run_conversations,
  finish_refresh, finish_mutation, is_refused, begin_move, begin_refresh,
  reset_conversation_interaction_state, apply_conversation_snapshot, sort_conversation_summaries,
}

-- The list that comes with a mutation does not overtake a refresh that was requested before it: if the
-- answer to that refresh comes later, its conversations and its active one, if it names one, replace
-- those that were shown after the mutation.
pub run_conversations-overwritten :
    (dates : Dates) ⦃l : Locale⦄ (id : Text) (snapshot : AgentConversationSnapshot)
    (new old : AgentConversationList) (q : ConversationPanel)
    → is_refused (mutate id) q ≡ false
    → is_empty old.active_conversation_id ≡ false
    → let after =
        run_conversations dates
          (refresh_requested
            ∷ requested (mutate id)
            ∷ mutated (suc q.panel_state_epoch) id q.active_conversation_id snapshot new
            ∷ refresh_answered (suc q.request_nonce) (some old)
            ∷ [])
          q in
      (after.conversations ≡ sort_conversation_summaries dates old.conversations)
      × (after.active_conversation_id ≡ old.active_conversation_id)
unfolding run_conversations step_conversations finish_refresh finish_mutation begin_move
    begin_refresh reset_conversation_interaction_state apply_conversation_snapshot is_refused
run_conversations-overwritten dates id snapshot new old q runs named =
    rw (runs, ==_refl (suc q.panel_state_epoch))
      (elim (Bool-cases (text_eq q.active_conversation_id id)) [
        | inl same ↦ rw (same, ==_refl (suc q.request_nonce), named) (refl, refl)
        | inr other ↦ rw (other, ==_refl (suc q.request_nonce), named) (refl, refl)
      ])
