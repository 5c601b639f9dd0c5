-- ===== src/Agent/Intent/Answering.antt =====
-- Answering the questionnaire of a flow, frontend/src/features/agent/model/interaction-flow.ts.
use rune_terminal.Base.{
  ◌≡◌, refl, Bool, true, false, not, ◌&&◌, none, some, List, [], ◌∷◌, ◌++◌, if◌then◌else◌, arith,
  any, is_nil,
}
use rune_terminal.Text.{Text, contains, trim}
use rune_terminal.Locale.{Locale, lower_case}
use rune_terminal.Agent.Types.{PlanTool, chat, execution, question}
use rune_terminal.Agent.Intent.{
  InteractionClassification, contains_any_keyword, explicit_environment_keywords, build_plan_tools,
  needs_environment_questionnaire, classify_message_intent,
}

contains-append : (s t part : Text) → contains t part ≡ true → contains (s ++ t) part ≡ true
unfolding contains
contains-append [] t part h = h
contains-append (c ∷ s) t part h = ground (arith, contains-append s t part h)

contains_any-append :
    (s t : Text) (keywords : List Text)
    → contains_any_keyword t keywords ≡ true
    → contains_any_keyword (s ++ t) keywords ≡ true
unfolding contains_any_keyword any
contains_any-append s t [] h = h
contains_any-append s t (k ∷ keywords) h =
    ground (arith, contains-append s t k, contains_any-append s t keywords)

-- the classification of tools, by whether an environment is wanted
abbrev chosen : Bool → List PlanTool → InteractionClassification
chosen needs tools =
    if needs && not (is_nil tools)
    then record { intent = question; tools = tools }
    else if is_nil tools
    then record { intent = chat; tools = [] }
    else record { intent = execution; tools = tools }

chosen_settled :
    (needs : Bool) (tools : List PlanTool)
    → (chosen needs tools).intent ≡ question
    → chosen false tools ≡ record { intent = execution; tools = (chosen needs tools).tools }
chosen_settled false [] h = cc
chosen_settled false (t ∷ tools) h = cc
chosen_settled true [] h = cc
chosen_settled true (t ∷ tools) h = refl

module _ ⦃l : Locale⦄ where
  -- An answer that names an environment settles the question.
  settled :
      (prompt answer : Text)
      → contains_any_keyword (lower_case (trim answer)) explicit_environment_keywords ≡ true
      → needs_environment_questionnaire prompt (some answer) ≡ false
  unfolding needs_environment_questionnaire
  settled prompt answer h =
      let found =
        contains_any-append (lower_case prompt) (b'\n' ∷ lower_case (trim answer))
          explicit_environment_keywords
          (contains_any-append (b'\n' ∷ []) (lower_case (trim answer)) explicit_environment_keywords
            h) in
      rw found (ground arith)

  -- A prompt that leads to a question leads to the execution of the same tools once it is answered
  -- with a text of which the trimmed lower-case form names an environment: it never leads to another
  -- question.
  pub classify_message_intent-answer :
      (prompt answer : Text) (has_terminal_context : Bool)
      → (classify_message_intent prompt none has_terminal_context).intent ≡ question
      → contains_any_keyword (lower_case (trim answer)) explicit_environment_keywords ≡ true
      → classify_message_intent prompt (some answer) has_terminal_context ≡ record {
        intent = execution;
        tools = (classify_message_intent prompt none has_terminal_context).tools;
      }
  unfolding classify_message_intent
  classify_message_intent-answer prompt answer context asked named =
      rw (settled prompt answer named) (
        chosen_settled (needs_environment_questionnaire prompt none)
          (build_plan_tools prompt context) asked)
