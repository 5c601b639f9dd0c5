-- ===== src/Agent/Conversations.antt =====
-- The list of conversations and the moves between them:
-- frontend/src/features/agent/model/agent-panel-conversations.ts with the summaries of
-- agent-panel-context.ts and, of use-agent-panel.ts, the callbacks that it is given. What happens
-- between two waits is one step, and the steps come in the order of arrival.
pub mod Listing
pub mod Refreshing
pub mod Deleting
pub mod Renaming
use Prim.Native.Nat.{Ordering, compare}
use rune_terminal.Base.{
  ℕ, suc, ◌≡◌, Bool, true, false, not, ◌&&◌, ◌||◌, Option, none, some, List, [], ◌∷◌, ◌++◌, ◌==◌,
  filter, length, if◌then◌else◌,
}
use rune_terminal.Text.{Text, text_eq, is_empty, trim}
use rune_terminal.Locale.{Locale, locale_compare}
use rune_terminal.Sort.{sort, or_then}
use rune_terminal.Agent.Conversation.{AgentConversationMessage}
use rune_terminal.Agent.Submission.{Panel}
use rune_terminal.Agent.MessageView.{Dates}

pub record AgentConversationSummary : Type 0 where
  pub archived_at : Option Text
  pub id : Text
  pub title : Text
  pub created_at : Text
  pub updated_at : Text
  pub message_count : ℕ

pub record AgentConversationListCounts : Type 0 where
  pub recent : ℕ
  pub archived : ℕ
  pub all : ℕ

pub record AgentConversationList : Type 0 where
  pub active_conversation_id : Text
  pub counts : AgentConversationListCounts
  pub conversations : List AgentConversationSummary

-- Of a snapshot what the list and the messages are made from.
pub record AgentConversationSnapshot : Type 0 where
  pub id : Text
  pub title : Text
  pub messages : List AgentConversationMessage
  pub created_at : Text
  pub updated_at : Text
  pub archived_at : Option Text

unfoldable pub summary_from_conversation_snapshot :
    AgentConversationSnapshot → AgentConversationSummary
summary_from_conversation_snapshot snapshot = record {
  archived_at = snapshot.archived_at;
  id = snapshot.id;
  title = snapshot.title;
  created_at = snapshot.created_at;
  updated_at = snapshot.updated_at;
  message_count = length snapshot.messages;
}

-- `archived_at?.trim() ?? ''`
abbrev pub archive_time : AgentConversationSummary → Text
archive_time c = elim c.archived_at [ none ↦ [] | some time ↦ trim time ]

abbrev pub is_listed : AgentConversationSummary → Bool
is_listed c = is_empty (archive_time c)

abbrev pub sort_key : AgentConversationSummary → Text
sort_key c = if is_listed c then c.updated_at else archive_time c

-- The newer time first, and then what is given. A difference that is no number counts as zero.
unfoldable pub compare_times : Option ℕ → Option ℕ → Ordering → Ordering
compare_times (some left) (some right) next = or_then (compare right left) next
compare_times _ _ next = Ordering.eq

-- What `setActiveConversationID` and the other callbacks set, beside the panel of a submission.
-- `has_interaction` tells whether there is a pending flow or a message of one.
pub record ConversationPanel : Type 0 where
  pub panel : Panel
  pub active_conversation_id : Text
  pub active_conversation_summary : Option AgentConversationSummary
  pub conversations : List AgentConversationSummary
  pub conversation_counts : AgentConversationListCounts
  pub is_conversation_list_pending : Bool
  pub request_nonce : ℕ
  pub panel_state_epoch : ℕ
  pub is_conversation_pending : Bool
  pub has_interaction : Bool

-- The moves; a deletion, an archiving and a restoring differ in their request only.
pub data Move : Type 0 where
  switch mutate : (conversation_id : Text) → Move
  create : Move
  rename : (conversation_id title : Text) → Move

-- `resetConversationSubmissionRuntime`
unfoldable pub reset_conversation_submission_runtime : Panel → Panel
reset_conversation_submission_runtime p = record p {
  submission_nonce = suc p.submission_nonce;
  active_submission_abort = none;
  active_audit_message_id = none;
  active_stream = none;
  closed = elim p.active_stream [ none ↦ p.closed | some c ↦ c ∷ p.closed ];
}

abbrev pub with_error : Text → ConversationPanel → ConversationPanel
with_error message q = record q { panel = record (q.panel) { submit_error = some message } }

unfoldable pub reset_conversation_interaction_state : ConversationPanel → ConversationPanel
reset_conversation_interaction_state q = record q {
  has_interaction = false;
  panel = record (q.panel) { submit_error = none };
}

unfoldable pub get_error_message : (message : Option Text) (fallback : Text) → Text
get_error_message none fallback = fallback
get_error_message (some message) fallback = if is_empty (trim message) then fallback else message

-- until the request of `refreshConversationListForPanel`
unfoldable pub begin_refresh : ConversationPanel → ConversationPanel
begin_refresh q = record q {
  request_nonce = suc q.request_nonce;
  is_conversation_list_pending = true;
}

-- whether the move returns at once
unfoldable pub is_refused : Move → ConversationPanel → Bool
is_refused (switch conversation_id) q =
    is_empty (trim conversation_id)
    || text_eq (trim conversation_id) q.active_conversation_id
    || q.panel.is_submitting
    || q.is_conversation_pending
is_refused create q = q.panel.is_submitting || q.is_conversation_pending
is_refused (rename conversation_id title) q =
    is_empty (trim conversation_id) || q.panel.is_submitting || q.is_conversation_pending
is_refused (mutate conversation_id) q =
    is_empty (trim conversation_id) || q.panel.is_submitting || q.is_conversation_pending

-- until the request of the move
unfoldable pub begin_move : Move → ConversationPanel → ConversationPanel
begin_move (rename conversation_id title) q = record q { is_conversation_pending = true }
begin_move move q = record q {
  panel = reset_conversation_submission_runtime q.panel;
  panel_state_epoch = suc q.panel_state_epoch;
  is_conversation_pending = true;
}

-- `finally`
abbrev pub settle : ConversationPanel → ConversationPanel
settle q = record q { is_conversation_pending = false }

-- What reaches the list. An answer carries what its call remembers: the nonce of a refresh, the
-- epoch of a move, and the conversation that was active when it began.
pub data ConversationStep : Type 0 where
  refresh_requested epoch_begun : ConversationStep
  refresh_answered : (nonce : ℕ) → Option AgentConversationList → ConversationStep
  refresh_reported : (fallback : Text) (message : Option Text) → ConversationStep
  requested : Move → ConversationStep
  entered : (epoch : ℕ) → AgentConversationSnapshot → ConversationStep
  renamed : AgentConversationSnapshot → ConversationStep
  mutated :
      (epoch : ℕ) (conversation_id active_conversation_id : Text)
      → AgentConversationSnapshot
      → AgentConversationList
      → ConversationStep
  move_settled : ConversationStep
  move_failed : (fallback : Text) (message : Option Text) → ConversationStep

module _ (dates : Dates) ⦃l : Locale⦄ where
  unfoldable pub compare_conversation_summaries :
      AgentConversationSummary → AgentConversationSummary → Ordering
  compare_conversation_summaries left right =
      if is_listed left && not (is_listed right)
      then Ordering.lt
      else if not (is_listed left) && is_listed right
      then Ordering.gt
      else compare_times (dates.parse (sort_key left)) (dates.parse (sort_key right))
          (locale_compare right.id left.id)

  unfoldable pub sort_conversation_summaries :
      List AgentConversationSummary → List AgentConversationSummary
  sort_conversation_summaries conversations = sort compare_conversation_summaries conversations

  unfoldable pub upsert_conversation_summary :
      List AgentConversationSummary → AgentConversationSummary → List AgentConversationSummary
  upsert_conversation_summary conversations next =
      sort_conversation_summaries
        (filter (λ c. not (text_eq c.id next.id)) conversations ++ next ∷ [])

  -- `applyConversationSnapshot` of use-agent-panel.ts
  unfoldable pub apply_conversation_snapshot :
      AgentConversationSnapshot → ConversationPanel → ConversationPanel
  apply_conversation_snapshot snapshot q =
      let summary = summary_from_conversation_snapshot snapshot in
      record q {
        panel = record (q.panel) { messages = some snapshot.messages };
        active_conversation_id = snapshot.id;
        active_conversation_summary = some summary;
        conversations = upsert_conversation_summary q.conversations summary;
      }

  abbrev pub show_list : AgentConversationList → ConversationPanel → ConversationPanel
  show_list list q = record q {
    conversations = sort_conversation_summaries list.conversations;
    conversation_counts = list.counts;
  }

  -- the rest of `refreshConversationListForPanel`, `none` for a request that fails
  unfoldable pub finish_refresh :
      (nonce : ℕ) → Option AgentConversationList → ConversationPanel → ConversationPanel
  finish_refresh nonce answer q =
      let shown : ConversationPanel = elim answer [
        | none ↦ q
        | some list ↦ record (show_list list q) {
          active_conversation_id =
              if is_empty list.active_conversation_id
              then q.active_conversation_id
              else list.active_conversation_id;
        }
      ] in
      if q.request_nonce == nonce then record shown { is_conversation_list_pending = false } else q

  -- the rest of `mutateConversationCollectionForPanel`
  unfoldable pub finish_mutation :
      (conversation_id active_conversation_id : Text)
      → AgentConversationSnapshot
      → AgentConversationList
      → ConversationPanel
      → ConversationPanel
  finish_mutation conversation_id active_conversation_id snapshot list q =
      let left = reset_conversation_interaction_state (apply_conversation_snapshot snapshot q) in
      record (show_list list (if text_eq active_conversation_id conversation_id then left else q)) {
        active_conversation_id =
            if is_empty list.active_conversation_id
            then snapshot.id
            else list.active_conversation_id;
        is_conversation_pending = false;
      }

  unfoldable pub step_conversations : ConversationStep → ConversationPanel → ConversationPanel
  step_conversations refresh_requested q = begin_refresh q
  step_conversations epoch_begun q = record q { panel_state_epoch = suc q.panel_state_epoch }
  step_conversations (refresh_answered nonce answer) q = finish_refresh nonce answer q
  step_conversations (refresh_reported fallback message) q =
      with_error (get_error_message message fallback) q
  step_conversations (requested move) q = if is_refused move q then q else begin_move move q
  step_conversations (entered epoch snapshot) q =
      if q.panel_state_epoch == epoch
      then begin_refresh
          (reset_conversation_interaction_state (apply_conversation_snapshot snapshot q))
      else settle q
  step_conversations (renamed snapshot) q =
      settle (begin_refresh (apply_conversation_snapshot snapshot q))
  step_conversations (mutated epoch conversation_id active_conversation_id snapshot list) q =
      if q.panel_state_epoch == epoch
      then finish_mutation conversation_id active_conversation_id snapshot list q
      else settle q
  step_conversations move_settled q = settle q
  step_conversations (move_failed fallback message) q =
      settle (with_error (get_error_message message fallback) q)

  unfoldable pub run_conversations : List ConversationStep → ConversationPanel → ConversationPanel
  run_conversations [] q = q
  run_conversations (step ∷ steps) q = run_conversations steps (step_conversations step q)
