-- ===== src/Tests/Moves.antt =====
-- The theorems on the list of conversations at concrete inputs.
use mathlib.Core.List.{Perm}
use rune_terminal.Base.{◌≡◌, refl, false, not, none, some, List, [], ◌∷◌, filter, length}
use rune_terminal.Text.{Text, text, trim, trim_start, is_space}
use rune_terminal.Sort.Laws.{IsSorted}
use rune_terminal.Agent.MessageView.{Dates}
use rune_terminal.Agent.Conversations.{
  AgentConversationSummary, AgentConversationList, AgentConversationSnapshot, ConversationPanel,
  ConversationStep, refresh_answered, refresh_requested, requested, renamed, mutated, move_settled,
  switch, rename, mutate, is_refused, compare_conversation_summaries, sort_conversation_summaries,
  run_conversations,
}
use rune_terminal.Agent.Conversations.Listing.{ListedFirst, sort_conversation_summaries_lem}
use rune_terminal.Agent.Conversations.Refreshing.{is_overtaken, run_conversations-current}
use rune_terminal.Agent.Conversations.Renaming.{run_conversations-renamed}
use rune_terminal.Agent.Conversations.Deleting.{run_conversations-overwritten}
use rune_terminal.Tests.Fixtures.{ascii, compare_units-IsConsistent}
use rune_terminal.Tests.Conversations.{idle_panel, talk}

-- A text stands for the time of its length.
abbrev length_dates : Dates
length_dates = record {
  parse = λ time. some (length time);
  utc_full_year = λ _. 0;
  utc_month = λ _. 0;
  utc_date = λ _. 0;
  utc_hours = λ _. 0;
  utc_minutes = λ _. 0;
}

abbrev conversation : Text → AgentConversationSummary
conversation id = record {
  archived_at = none;
  id = id;
  title = id;
  created_at = text "t";
  updated_at = text "t";
  message_count = 0;
}

abbrev history : List AgentConversationSummary
history =
    record (conversation (text "c1")) { archived_at = some (text "t") }
    ∷ conversation (text "c2")
    ∷ record (conversation (text "c3")) { updated_at = text "later" }
    ∷ []

sort_conversation_summaries_lem_example :
    Perm (sort_conversation_summaries length_dates history) history
    × IsSorted
        (compare_conversation_summaries length_dates)
        (sort_conversation_summaries length_dates history)
    × ListedFirst (sort_conversation_summaries length_dates history)
unfolding trim trim_start is_space
sort_conversation_summaries_lem_example =
    sort_conversation_summaries_lem length_dates history compare_units-IsConsistent
      ((1, refl), ((1, refl), ((5, refl), tt)))

abbrev list_of : List AgentConversationSummary → AgentConversationList
list_of conversations = record {
  active_conversation_id = text "c2";
  counts = record { recent = 2; archived = 1; all = 3 };
  conversations = conversations;
}

abbrev shown : ConversationPanel
shown = record {
  panel = idle_panel;
  active_conversation_id = text "c2";
  active_conversation_summary = none;
  conversations = history;
  conversation_counts = record { recent = 2; archived = 1; all = 3 };
  is_conversation_list_pending = false;
  request_nonce = 4;
  panel_state_epoch = 2;
  is_conversation_pending = false;
  has_interaction = false;
}

abbrev snapshot_of : Text → AgentConversationSnapshot
snapshot_of id = record {
  id = id;
  title = id;
  messages = talk;
  created_at = text "t";
  updated_at = text "t";
  archived_at = none;
}

-- The answer to the refresh with the nonce 3 comes behind that to the last one.
abbrev answers : List ConversationStep
answers =
    refresh_answered 4 (some (list_of history))
    ∷ requested (switch (text "c1"))
    ∷ refresh_answered 3 (some (list_of []))
    ∷ move_settled
    ∷ []

run_conversations-current_example :
    run_conversations length_dates answers shown
    ≡ run_conversations length_dates (filter (λ step. not (is_overtaken 4 step)) answers) shown
run_conversations-current_example =
    run_conversations-current length_dates answers shown (refl, (refl, (refl, (refl, tt))))

run_conversations-renamed_example :
    let after =
      run_conversations length_dates
        (requested (rename (text "c3") (text "new"))
          ∷ renamed (snapshot_of (text "c3"))
          ∷ refresh_answered 5 (some (list_of history))
          ∷ [])
        shown in
    (after.panel.messages ≡ some talk)
    × (after.active_conversation_id ≡ text "c2")
    × (after.is_conversation_pending ≡ false)
unfolding is_refused trim trim_start is_space
run_conversations-renamed_example =
    run_conversations-renamed length_dates (text "new") (snapshot_of (text "c3")) (list_of history)
      shown refl refl refl

run_conversations-overwritten_example :
    let after =
      run_conversations length_dates
        (refresh_requested
          ∷ requested (mutate (text "c3"))
          ∷ mutated 3 (text "c3") (text "c2") (snapshot_of (text "c2")) (list_of [])
          ∷ refresh_answered 5 (some (list_of history))
          ∷ [])
        shown in
    (after.conversations ≡ sort_conversation_summaries length_dates history)
    × (after.active_conversation_id ≡ text "c2")
unfolding is_refused trim trim_start is_space
run_conversations-overwritten_example =
    run_conversations-overwritten length_dates (text "c3") (snapshot_of (text "c2")) (list_of [])
      (list_of history) shown refl refl
