-- ===== src/Agent/Intent.antt =====
-- What a prompt asks for: buildPlanTools, buildPlanSteps, needsEnvironmentQuestionnaire and
-- classifyMessageIntent of frontend/src/features/agent/model/interaction-flow.ts.
pub mod Answering
use rune_terminal.Base.{
  Bool, true, false, not, ◌&&◌, ◌||◌, Option, none, some, List, [], ◌∷◌, ◌++◌, map, if◌then◌else◌,
  any, get_or, is_nil, is_some,
}
use mathlib.Core.Option
use rune_terminal.Text.{Text, text, truthy, contains, includes, trim, dedupe}
use rune_terminal.Locale.{Locale, lower_case}
use rune_terminal.Agent.Types.{MessageIntent, PlanTool, chat, execution, question}

abbrev pub read_keywords : List Text
read_keywords =
    text "config"
    ∷ text "file"
    ∷ text "read"
    ∷ text "open file"
    ∷ text "inspect file"
    ∷ text "файл"
    ∷ text "прочитай"
    ∷ text "прочесть"
    ∷ text "читать"
    ∷ text "конфиг"
    ∷ []

abbrev pub api_keywords : List Text
api_keywords =
    text "api"
    ∷ text "http"
    ∷ text "request"
    ∷ text "fetch"
    ∷ text "webhook"
    ∷ text "запрос"
    ∷ text "апи"
    ∷ text "вебхук"
    ∷ []

abbrev pub save_keywords : List Text
save_keywords =
    text "save"
    ∷ text "write"
    ∷ text "update"
    ∷ text "persist"
    ∷ text "edit"
    ∷ text "change"
    ∷ text "сохрани"
    ∷ text "запиши"
    ∷ text "обнови"
    ∷ text "измени"
    ∷ []

abbrev pub execution_keywords : List Text
execution_keywords =
    text "deploy"
    ∷ text "run"
    ∷ text "execute"
    ∷ text "release"
    ∷ text "apply"
    ∷ text "migrate"
    ∷ text "запусти"
    ∷ text "выполни"
    ∷ text "деплой"
    ∷ text "релиз"
    ∷ text "примени"
    ∷ text "миграц"
    ∷ []

abbrev pub terminal_execution_keywords : List Text
terminal_execution_keywords =
    text "check"
    ∷ text "show"
    ∷ text "inspect"
    ∷ text "status"
    ∷ text "logs"
    ∷ text "disk"
    ∷ text "space"
    ∷ text "memory"
    ∷ text "cpu"
    ∷ text "process"
    ∷ text "service"
    ∷ text "port"
    ∷ text "console"
    ∷ text "terminal"
    ∷ text "ssh"
    ∷ text "проверь"
    ∷ text "посмотри"
    ∷ text "покажи"
    ∷ text "статус"
    ∷ text "логи"
    ∷ text "диск"
    ∷ text "место"
    ∷ text "память"
    ∷ text "процесс"
    ∷ text "сервис"
    ∷ text "порт"
    ∷ text "консоль"
    ∷ text "терминал"
    ∷ text "ssh"
    ∷ []

abbrev pub environment_hint_keywords : List Text
environment_hint_keywords =
    text "environment"
    ∷ text "production"
    ∷ text "staging"
    ∷ text "development"
    ∷ text "prod"
    ∷ text "stage"
    ∷ text "deploy"
    ∷ text "release"
    ∷ text "окружен"
    ∷ text "прод"
    ∷ text "стейдж"
    ∷ text "разработк"
    ∷ text "деплой"
    ∷ text "релиз"
    ∷ []

abbrev pub explicit_environment_keywords : List Text
explicit_environment_keywords =
    text "production"
    ∷ text "staging"
    ∷ text "development"
    ∷ text "dev"
    ∷ text "prod"
    ∷ text "stage"
    ∷ text "прод"
    ∷ text "стейдж"
    ∷ text "разработк"
    ∷ []

unfoldable pub contains_any_keyword : Text → List Text → Bool
contains_any_keyword value keywords = any (λ keyword. contains value keyword) keywords

-- the tools whose name is not among the names seen
unfoldable pub dedupe_tools_from : List Text → List PlanTool → List PlanTool
dedupe_tools_from seen [] = []
dedupe_tools_from seen (tool ∷ tools) =
    let skipped = dedupe_tools_from seen tools in
    let kept = tool ∷ dedupe_tools_from (tool.name ∷ seen) tools in
    if includes seen tool.name then skipped else kept

abbrev pub dedupe_tools : List PlanTool → List PlanTool
dedupe_tools = dedupe_tools_from []

abbrev pub plan_tool : Text → Text → PlanTool
plan_tool name description = record { name = name; description = some description }

-- `if (condition) { xs.push(x) }` in front of what is pushed later
abbrev pub push_if {ℓ} : {A : Type ℓ} → Bool → List A → List A → List A
push_if condition pushed later = if condition then pushed ++ later else later

pub record InteractionClassification : Type 0 where
  pub intent : MessageIntent
  pub tools : List PlanTool

module _ ⦃l : Locale⦄ where
  -- `options.hasTerminalContext` is the flag.
  unfoldable pub build_plan_tools : Text → Bool → List PlanTool
  build_plan_tools prompt has_terminal_context =
      let normalized = lower_case prompt in
      dedupe_tools (
        push_if (contains_any_keyword normalized read_keywords)
          (plan_tool (text "read_file")
              (text "Inspect the relevant project files before execution.")
            ∷ [])
          (push_if (contains_any_keyword normalized api_keywords)
            (plan_tool (text "http_request") (text "Call the required backend or external API.")
              ∷ [])
            (push_if (contains_any_keyword normalized save_keywords)
              (plan_tool (text "save_result")
                  (text "Persist the resulting change after the checks pass.")
                ∷ [])
              (push_if (contains_any_keyword normalized execution_keywords)
                (plan_tool (text "execute_plan") (text "Run the approved execution step.") ∷ [])
                (push_if
                  (has_terminal_context
                    && contains_any_keyword normalized terminal_execution_keywords)
                  (plan_tool (text "execute_terminal") (
                      text
                        "Plan and run the approved terminal command in the selected shell context.")
                    ∷ [])
                  [])))))

  -- the steps before the default ones and the answer are added
  unfoldable pub keyword_steps : Text → Bool → List Text
  keyword_steps normalized confirms =
      push_if confirms (text "Confirm the target environment" ∷ []) (
        push_if
          (contains normalized (text "config")
            || contains normalized (text "file")
            || contains normalized (text "read"))
          (text "Read config" ∷ [])
          (push_if
            (contains normalized (text "api")
              || contains normalized (text "http")
              || contains normalized (text "request")
              || contains normalized (text "fetch"))
            (text "Call API" ∷ [])
            (push_if
              (contains normalized (text "save")
                || contains normalized (text "write")
                || contains normalized (text "update")
                || contains normalized (text "persist"))
              (text "Save result" ∷ []) [])))

  unfoldable pub build_plan_steps : Text → Bool → Option Text → List Text
  build_plan_steps prompt needs_questionnaire answer =
      let steps =
        keyword_steps (lower_case prompt) (needs_questionnaire && not (is_some (truthy answer))) in
      let filled : List Text =
        if is_nil steps
        then text "Inspect the request"
          ∷ text "Run the approved execution"
          ∷ text "Summarize the result"
          ∷ []
        else steps in
      dedupe (elim (truthy answer) [
        | none ↦ filled
        | some a ↦ (text "Target environment: " ++ a) ∷ filled
      ])

  unfoldable pub needs_environment_questionnaire : Text → Option Text → Bool
  needs_environment_questionnaire prompt answer =
      let normalized = lower_case prompt in
      let normalized_answer = get_or (Option.map (λ a. lower_case (trim a)) answer) [] in
      contains_any_keyword normalized environment_hint_keywords
      && not (
          contains_any_keyword (normalized ++ b'\n' ∷ normalized_answer)
            explicit_environment_keywords)

  unfoldable pub classify_message_intent : Text → Option Text → Bool → InteractionClassification
  classify_message_intent prompt answer has_terminal_context =
      let tools = build_plan_tools prompt has_terminal_context in
      if needs_environment_questionnaire prompt answer && not (is_nil tools)
      then record { intent = question; tools = tools }
      else if is_nil tools
      then record { intent = chat; tools = [] }
      else record { intent = execution; tools = tools }
