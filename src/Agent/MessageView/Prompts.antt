-- ===== src/Agent/MessageView/Prompts.antt =====
-- The prompt that is shown with an answer.
use mathlib.Core.List.{reverse, reverse-append}
use rune_terminal.Base.{
  suc, ◌≡◌, refl, ap, ◌∙◌, false, Option, none, some, List, [], ◌∷◌, ◌++◌, arith, length, get_elem?,
  if◌then◌else◌, inl, inr, Bool-cases,
}
use rune_terminal.Text.{Text, text_eq, text_eq_refl, includes, includes-cons, truthy}
use rune_terminal.Agent.Conversation.{AgentConversationMessage, assistant}
use rune_terminal.Agent.Conversation.Identity.{message_ids}
use rune_terminal.Agent.MessageView.{
  Dates, is_user_message, get_message_content, collect_prompts, get_prompt, assistant_prompts,
  map_conversation_message_to_chat_message_view, view_messages,
  map_conversation_messages_to_chat_message_views,
}

-- The content of the first message of the user, and none if that is empty.
abbrev pub first_user_content : List AgentConversationMessage → Option Text
first_user_content [] = none
first_user_content (m ∷ ms) =
    if is_user_message m then truthy (some (get_message_content m)) else first_user_content ms

-- `lastUserPrompt` after the messages
abbrev seen_after : Option Text → List AgentConversationMessage → Option Text
seen_after seen [] = seen
seen_after seen (m ∷ ms) =
    seen_after (if is_user_message m then truthy (some (get_message_content m)) else seen) ms

collect_prompts-append :
    (seen : Option Text) (xs ys : List AgentConversationMessage) (ps : List (Text × Option Text))
    → collect_prompts seen (xs ++ ys) ps
      ≡ collect_prompts (seen_after seen xs) ys (collect_prompts seen xs ps)
unfolding collect_prompts
collect_prompts-append seen [] ys ps = refl
collect_prompts-append seen (x ∷ xs) ys ps = ground (
  arith,
  collect_prompts-append (truthy (some (get_message_content x))) xs ys ps,
  collect_prompts-append seen xs ys ((x.id, seen) ∷ ps),
)

seen_after-append :
    (seen : Option Text) (xs : List AgentConversationMessage) (m : AgentConversationMessage)
    → seen_after seen (xs ++ m ∷ [])
      ≡ (if is_user_message m then truthy (some (get_message_content m)) else seen_after seen xs)
seen_after-append seen [] m = refl
seen_after-append seen (x ∷ xs) m =
    seen_after-append (if is_user_message x then truthy (some (get_message_content x)) else seen) xs
      m

reverse-cons :
    (m : AgentConversationMessage) (ms : List AgentConversationMessage)
    → reverse (m ∷ ms) ≡ reverse ms ++ m ∷ []
reverse-cons m ms = reverse-append (m ∷ []) ms

seen_after-reverse :
    (ms : List AgentConversationMessage) → seen_after none (reverse ms) ≡ first_user_content ms
seen_after-reverse [] = refl
seen_after-reverse (m ∷ ms) =
    rw (reverse-cons m ms)
      (seen_after-append none (reverse ms) m ∙ ground (arith, seen_after-reverse ms))

-- Message by message, from the first one on.
assistant_prompts-cons :
    (m : AgentConversationMessage) (ms : List AgentConversationMessage)
    → assistant_prompts (m ∷ ms) ≡ (
        if is_user_message m
        then assistant_prompts ms
        else (m.id, first_user_content ms) ∷ assistant_prompts ms)
unfolding assistant_prompts
assistant_prompts-cons m ms = rw (reverse-cons m ms) (
    collect_prompts-append none (reverse ms) (m ∷ []) []
    ∙ rw (seen_after-reverse ms) (unfold collect_prompts in refl))

get_prompt-assistant_prompts :
    (earlier later : List AgentConversationMessage) (a : AgentConversationMessage)
    → is_user_message a ≡ false
    → includes (message_ids earlier) a.id ≡ false
    → get_prompt a.id (assistant_prompts (earlier ++ a ∷ later)) ≡ first_user_content later
unfolding get_prompt
get_prompt-assistant_prompts [] later a h k =
    rw (assistant_prompts-cons a later) (rw h (rw (text_eq_refl a.id) refl))
get_prompt-assistant_prompts (m ∷ earlier) later a h k =
    let (other, rest) = apart in
    rw (assistant_prompts-cons m (earlier ++ a ∷ later)) (elim (Bool-cases (is_user_message m)) [
      | inl by_user ↦ rw by_user (get_prompt-assistant_prompts earlier later a h rest)
      | inr by_other ↦ rw by_other (rw other (get_prompt-assistant_prompts earlier later a h rest))
    ])
  where
    apart : (text_eq m.id a.id ≡ false) × (includes (message_ids earlier) a.id ≡ false)
    apart = ground (arith, includes-cons m.id a.id (message_ids earlier), k)

get_elem?-view_messages :
    (dates : Dates) (ps : List (Text × Option Text)) (earlier later : List AgentConversationMessage)
    (a : AgentConversationMessage)
    → a.role ≡ assistant
    → get_elem? (view_messages dates ps (earlier ++ a ∷ later)) (length earlier)
      ≡ some (
          map_conversation_message_to_chat_message_view dates a
            (get_prompt a.id ps)
            (suc (length later)))
unfolding view_messages
get_elem?-view_messages dates ps [] later a h = rw h refl
get_elem?-view_messages dates ps (m ∷ earlier) later a h =
    get_elem?-view_messages dates ps earlier later a h

-- The prompt that is shown with an answer is the first message of the user behind the answer, if one
-- stands there, and if its text is not empty; whatever stands before the answer.
pub map_conversation_messages-prompt :
    (dates : Dates) (earlier later : List AgentConversationMessage) (a : AgentConversationMessage)
    → a.role ≡ assistant
    → includes (message_ids earlier) a.id ≡ false
    → get_elem?
        (map_conversation_messages_to_chat_message_views dates (earlier ++ a ∷ later))
        (length earlier)
      ≡ some (
          map_conversation_message_to_chat_message_view dates a
            (first_user_content later)
            (suc (length later)))
unfolding map_conversation_messages_to_chat_message_views
map_conversation_messages-prompt dates earlier later a h k =
    get_elem?-view_messages dates (assistant_prompts (earlier ++ a ∷ later)) earlier later a h
    ∙ ap
        (λ prompt.
          some (map_conversation_message_to_chat_message_view dates a prompt (suc (length later))))
        (get_prompt-assistant_prompts earlier later a (rw h refl) k)
