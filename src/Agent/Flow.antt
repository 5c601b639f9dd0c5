-- ===== src/Agent/Flow.antt =====
-- Starting a flow of interaction: the messages of frontend/src/features/agent/model/
-- interaction-flow.ts. A generator of sort keys is a function from its state to a key and its next
-- state, and a function that draws keys returns that state beside its result.
pub mod Start
use rune_terminal.Base.{ℕ, Bool, true, false, Option, none, some, List, [], ◌∷◌, ◌++◌}
use rune_terminal.Text.{Text, text, decimal}
use rune_terminal.Locale.{Locale}
use rune_terminal.Agent.Types.{
  MessageIntent, PlanTool, PlanMessage, ApprovalMessage, ApprovalState, AuditMessage,
  QuestionnaireMessage, QuestionnaireOption, QuestionnaireStatus, FlowMessage, chat, execution,
  question, plan, approval, questionnaire,
}
use rune_terminal.Agent.Audit.{create_audit_entries}
use rune_terminal.Agent.Intent.{
  InteractionClassification, classify_message_intent, build_plan_steps,
  needs_environment_questionnaire,
}

-- `PendingInteractionFlow`, without the attachments and the approval of a run, which are added later.
pub record PendingInteractionFlow : Type 0 where
  pub approval_message_id : Option Text
  pub audit_message_id : Option Text
  pub audit_progressed : Bool
  pub flow_id : Text
  pub prompt : Text
  pub questionnaire_message_id : Option Text
  pub tools : List PlanTool

-- the result of `createPendingInteractionFlow`
pub record StartedFlow : Type 0 where
  pub classification : InteractionClassification
  pub flow : Option PendingInteractionFlow
  pub messages : List FlowMessage

abbrev pub environment_options : List QuestionnaireOption
environment_options =
    record { label = text "Production"; value = text "production" }
    ∷ record { label = text "Staging"; value = text "staging" }
    ∷ record { label = text "Development"; value = text "development" }
    ∷ []

-- `agent-flow-${hostID}-${sequence}`
unfoldable pub flow_id_of : Text → ℕ → Text
flow_id_of host_id sequence = text "agent-flow-" ++ (host_id ++ text "-" ++ decimal sequence)

module _ {ℓ} {S : Type ℓ} (next_sort_key : S → ℕ × S) where
  unfoldable pub create_approval_message : S → Text → ApprovalState → ApprovalMessage × S
  create_approval_message s flow_id status =
      let (key, s') = next_sort_key s in
      (
        record {
          id = flow_id ++ text "-approval";
          plan_id = flow_id;
          status = status;
          sort_key = some key;
        },
        s',
      )

  unfoldable pub create_questionnaire_message : S → Text → QuestionnaireMessage × S
  create_questionnaire_message s flow_id =
      let (key, s') = next_sort_key s in
      (
        record {
          id = flow_id ++ text "-questionnaire";
          question = text "Choose environment:";
          options = environment_options;
          allow_custom = true;
          answer = none;
          status = QuestionnaireStatus.pending;
          sort_key = some key;
        },
        s',
      )

  unfoldable pub create_audit_message : (now : ℕ → ℕ) → S → Text → List PlanTool → AuditMessage × S
  create_audit_message now s flow_id tools =
      let (key, s') = next_sort_key s in
      (
        record {
          id = flow_id ++ text "-audit";
          entries = create_audit_entries now tools;
          sort_key = some key;
        },
        s',
      )

  unfoldable pub update_approval_message_status :
      S → ApprovalMessage → ApprovalState → ApprovalMessage × S
  update_approval_message_status s message status =
      let (key, s') = next_sort_key s in
      (record message { status = status; sort_key = some key }, s')

  unfoldable pub update_questionnaire_message_answer :
      S → QuestionnaireMessage → Text → QuestionnaireMessage × S
  update_questionnaire_message_answer s message answer =
      let (key, s') = next_sort_key s in
      (
        record message {
          answer = some answer;
          status = QuestionnaireStatus.answered;
          sort_key = some key;
        },
        s',
      )

  module _ ⦃l : Locale⦄ where
    unfoldable pub create_plan_message :
        S → Text → Text → List PlanTool → Option Text → PlanMessage × S
    create_plan_message s flow_id prompt tools answer =
        let needs_questionnaire = needs_environment_questionnaire prompt answer in
        let (key, s') = next_sort_key s in
        (
          record {
            id = flow_id ++ text "-plan";
            plan_id = flow_id;
            steps = build_plan_steps prompt needs_questionnaire answer;
            tools = tools;
            sort_key = some key;
          },
          s',
        )

    -- the flow by its classification
    unfoldable pub start_flow :
        S → Text → Text → Option Text → InteractionClassification → StartedFlow × S
    start_flow s flow_id prompt answer classification = elim classification.intent [
      | chat ↦ (record { classification = classification; flow = none; messages = [] }, s)
      | question ↦
          let (message, s') = create_questionnaire_message s flow_id in
          (
            record {
              classification = classification;
              flow = some (record {
                approval_message_id = none;
                audit_message_id = none;
                audit_progressed = false;
                flow_id = flow_id;
                prompt = prompt;
                questionnaire_message_id = some message.id;
                tools = classification.tools;
              });
              messages = questionnaire message ∷ [];
            },
            s',
          )
      | execution ↦
          let (plan_message, s') =
            create_plan_message s flow_id prompt classification.tools answer in
          let (approval_message, s'') = create_approval_message s' flow_id ApprovalState.pending in
          (
            record {
              classification = classification;
              flow = some (record {
                approval_message_id = some approval_message.id;
                audit_message_id = none;
                audit_progressed = false;
                flow_id = flow_id;
                prompt = prompt;
                questionnaire_message_id = none;
                tools = classification.tools;
              });
              messages = plan plan_message ∷ approval approval_message ∷ [];
            },
            s'',
          )
    ]

    unfoldable pub create_pending_interaction_flow :
        S → Text → Text → ℕ → Option Text → Bool → StartedFlow × S
    create_pending_interaction_flow s host_id prompt sequence answer has_terminal_context =
        start_flow s (flow_id_of host_id sequence) prompt answer
          (classify_message_intent prompt answer has_terminal_context)
