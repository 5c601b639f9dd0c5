-- ===== src/Agent/Conversations/Refreshing.antt =====
-- The answers to the requests of the list of conversations, of which the last one counts:
-- `refreshConversationListForPanel` of frontend/src/features/agent/model/agent-panel-conversations.ts.
use rune_terminal.Base.{
  ℕ, ◌≡◌, refl, ap, ◌∙◌, inl, inr, Bool, true, false, not, none, some, List, [], ◌∷◌, ◌==◌, filter,
  All, Bool-cases, arith,
}
use rune_terminal.Text.{text_eq}
use rune_terminal.Locale.{Locale}
use rune_terminal.Agent.MessageView.{Dates}
use rune_terminal.Agent.Conversations.{
  ConversationPanel, ConversationStep, Move, refresh_requested, epoch_begun, refresh_answered,
  refresh_reported, requested, entered, renamed, mutated, move_settled, move_failed,
  step_conversations, run_conversations, finish_refresh, finish_mutation, begin_move,
  reset_conversation_interaction_state, apply_conversation_snapshot,
}

-- the answer to a refresh that is not the last one
abbrev pub is_overtaken : ℕ → ConversationStep → Bool
is_overtaken nonce (refresh_answered n answer) = not (nonce == n)
is_overtaken nonce _ = false

-- the steps by which no refresh begins
abbrev pub begins_none : ConversationStep → Bool
begins_none refresh_requested = false
begins_none (entered _ _) = false
begins_none (renamed _) = false
begins_none _ = true

module _ (dates : Dates) ⦃l : Locale⦄ where
  step_conversations-nonce :
      (step : ConversationStep) (q : ConversationPanel)
      → begins_none step ≡ true
      → (step_conversations dates step q).request_nonce ≡ q.request_nonce
  unfolding step_conversations finish_refresh finish_mutation begin_move
      reset_conversation_interaction_state apply_conversation_snapshot
  step_conversations-nonce refresh_requested q h = ground (arith, h)
  step_conversations-nonce epoch_begun q h = refl
  step_conversations-nonce (refresh_answered n none) q h = ground arith
  step_conversations-nonce (refresh_answered n (some list)) q h = ground arith
  step_conversations-nonce (refresh_reported fallback message) q h = refl
  step_conversations-nonce (requested (Move.rename id title)) q h = ground arith
  step_conversations-nonce (requested (Move.switch id)) q h = ground arith
  step_conversations-nonce (requested (Move.mutate id)) q h = ground arith
  step_conversations-nonce (requested Move.create) q h = ground arith
  step_conversations-nonce (entered epoch snapshot) q h = ground (arith, h)
  step_conversations-nonce (renamed snapshot) q h = ground (arith, h)
  step_conversations-nonce (mutated epoch id active snapshot list) q h =
      elim (Bool-cases (q.panel_state_epoch == epoch)) [
        | inl e ↦ rw e (elim (Bool-cases (text_eq active id)) [
          | inl same ↦ rw same refl
          | inr other ↦ rw other refl
        ])
        | inr e ↦ rw e refl
      ]
  step_conversations-nonce move_settled q h = refl
  step_conversations-nonce (move_failed fallback message) q h = refl

  step_conversations-overtaken :
      (nonce : ℕ) (step : ConversationStep) (q : ConversationPanel)
      → q.request_nonce ≡ nonce
      → is_overtaken nonce step ≡ true
      → step_conversations dates step q ≡ q
  unfolding step_conversations finish_refresh
  step_conversations-overtaken nonce (refresh_answered n none) q e h = ground (arith, e, h)
  step_conversations-overtaken nonce (refresh_answered n (some list)) q e h = ground (arith, e, h)
  step_conversations-overtaken nonce refresh_requested q e h = ground (arith, h)
  step_conversations-overtaken nonce epoch_begun q e h = ground (arith, h)
  step_conversations-overtaken nonce (refresh_reported _ _) q e h = ground (arith, h)
  step_conversations-overtaken nonce (requested _) q e h = ground (arith, h)
  step_conversations-overtaken nonce (entered _ _) q e h = ground (arith, h)
  step_conversations-overtaken nonce (renamed _) q e h = ground (arith, h)
  step_conversations-overtaken nonce (mutated _ _ _ _ _) q e h = ground (arith, h)
  step_conversations-overtaken nonce move_settled q e h = ground (arith, h)
  step_conversations-overtaken nonce (move_failed _ _) q e h = ground (arith, h)

  run_current_from :
      (nonce : ℕ) (steps : List ConversationStep) (q : ConversationPanel)
      → q.request_nonce ≡ nonce
      → All (λ step. begins_none step ≡ true) steps
      → run_conversations dates steps q
        ≡ run_conversations dates (filter (λ step. not (is_overtaken nonce step)) steps) q
  unfolding run_conversations filter
  run_current_from nonce [] q e h = refl
  run_current_from nonce (step ∷ steps) q e (hs, h) = elim (Bool-cases (is_overtaken nonce step)) [
    | inl late ↦ rw late (
        ap (run_conversations dates steps) (step_conversations-overtaken nonce step q e late)
        ∙ run_current_from nonce steps q e h)
    | inr kept ↦ rw kept (
        run_current_from nonce steps (step_conversations dates step q)
          (step_conversations-nonce step q hs ∙ e) h)
  ]

  -- As long as no further refresh of the list begins, the answers to the refreshes before the last one
  -- count for nothing: whatever else arrives, and in whatever order, the panel becomes what it would
  -- become if only the answer to the last one came.
  pub run_conversations-current :
      (steps : List ConversationStep) (q : ConversationPanel)
      → All (λ step. begins_none step ≡ true) steps
      → run_conversations dates steps q
        ≡ run_conversations dates (filter (λ step. not (is_overtaken q.request_nonce step)) steps) q
  run_conversations-current steps q h = run_current_from q.request_nonce steps q refl h
