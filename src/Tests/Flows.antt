-- ===== src/Tests/Flows.antt =====
-- The theorems on the agent panel's flows, at concrete inputs.
use rune_terminal.Base.{
  ℕ, suc, ◌+◌, ◌-◌, min, ◌≡◌, refl, true, none, some, List, [], ◌∷◌, arith, any,
}
use rune_terminal.Text.{Text, text, contains, starts_with, trim, trim_start, is_space, includes}
use rune_terminal.Agent.Types.{PlanTool, AuditEntry, running, done, execution}
use rune_terminal.Agent.Audit.{create_audit_entries}
use rune_terminal.Agent.Audit.Progress.{IsAt, tools_of}
use rune_terminal.Agent.Audit.Runs.{advance_times, advance_times-IsAt}
use rune_terminal.Agent.Intent.{
  classify_message_intent, contains_any_keyword, build_plan_tools, needs_environment_questionnaire,
  dedupe_tools_from,
}
use rune_terminal.Agent.Intent.Answering.{classify_message_intent-answer}
use rune_terminal.Agent.Flow.{create_pending_interaction_flow}
use rune_terminal.Agent.Flow.Start.{IsStarted, create_pending_interaction_flow-IsStarted}
use rune_terminal.Tests.Fixtures.{ascii}

abbrev tool : Text → PlanTool
tool name = record { name = name; description = none }

abbrev clock : ℕ → ℕ
clock i = 100 + i

advance_times-IsAt_example :
    IsAt (min 1 2) running (2 - 1) (
      advance_times
        (λ n. clock)
        1
        (create_audit_entries clock (tool (text "a") ∷ tool (text "b") ∷ tool (text "c") ∷ [])))
    × (tools_of (
          advance_times
            (λ n. clock)
            1
            (create_audit_entries clock (tool (text "a") ∷ tool (text "b") ∷ tool (text "c") ∷ [])))
        ≡ text "a" ∷ text "b" ∷ text "c" ∷ [])
advance_times-IsAt_example =
    advance_times-IsAt clock (λ n. clock) (tool (text "a")) (tool (text "b") ∷ tool (text "c") ∷ [])
      1

abbrev halfway : List AuditEntry
halfway =
    record { tool = text "a"; status = done; timestamp = some 1 }
    ∷ record { tool = text "b"; status = running; timestamp = some 2 }
    ∷ []

classify_message_intent-answer_example :
    classify_message_intent (text "Deploy it") (some (text " Staging ")) true ≡ record {
      intent = execution;
      tools = (classify_message_intent (text "Deploy it") none true).tools;
    }
unfolding contains_any_keyword any contains starts_with classify_message_intent
    needs_environment_questionnaire build_plan_tools dedupe_tools_from includes trim trim_start
    is_space
classify_message_intent-answer_example =
    classify_message_intent-answer (text "Deploy it") (text " Staging ") true refl refl

create_pending_interaction_flow-IsStarted_example :
    IsStarted
      (create_pending_interaction_flow
        (λ s. (s, suc s))
        1
        (text "host")
        (text "Run the api checks")
        3
        none
        true).0
create_pending_interaction_flow-IsStarted_example =
    create_pending_interaction_flow-IsStarted (λ s. (s, suc s)) (λ s. omega arith) 1 (text "host")
      (text "Run the api checks") 3 none true
