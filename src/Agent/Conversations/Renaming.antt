-- ===== src/Agent/Conversations/Renaming.antt =====
-- The renaming of a conversation that is not the active one: `renameConversationForPanel` of
-- frontend/src/features/agent/model/agent-panel-conversations.ts.
use rune_terminal.Base.{suc, ◌≡◌, refl, false, some, [], ◌∷◌, ==_refl}
use rune_terminal.Text.{Text, is_empty}
use rune_terminal.Locale.{Locale}
use rune_terminal.Agent.MessageView.{Dates}
use rune_terminal.Agent.Conversations.{
  ConversationPanel, AgentConversationList, AgentConversationSnapshot, refresh_answered, requested,
  renamed, rename, step_conversations, run_conversations, finish_refresh, is_refused, begin_move,
  apply_conversation_snapshot, begin_refresh,
}

-- Whichever conversation is renamed, the active one or another: after the answer and the refresh of the
-- list, which names the active conversation, the panel holds the messages of the renamed conversation
-- under the id of the active one, and no move is pending.
pub run_conversations-renamed :
    (dates : Dates) ⦃l : Locale⦄ (title : Text) (snapshot : AgentConversationSnapshot)
    (list : AgentConversationList) (q : ConversationPanel)
    → is_refused (rename snapshot.id title) q ≡ false
    → list.active_conversation_id ≡ q.active_conversation_id
    → is_empty q.active_conversation_id ≡ false
    → let after =
        run_conversations dates
          (requested (rename snapshot.id title)
            ∷ renamed snapshot
            ∷ refresh_answered (suc q.request_nonce) (some list)
            ∷ [])
          q in
      (after.panel.messages ≡ some snapshot.messages)
      × (after.active_conversation_id ≡ q.active_conversation_id)
      × (after.is_conversation_pending ≡ false)
unfolding run_conversations step_conversations finish_refresh begin_move apply_conversation_snapshot
    begin_refresh
run_conversations-renamed dates title snapshot list q runs active named =
    rw (runs, ==_refl (suc q.request_nonce), active, named) (refl, refl, refl)
