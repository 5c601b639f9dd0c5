-- ===== src/Agent/Types.antt =====
-- frontend/src/features/agent/model/types.ts: the messages of the agent panel that a flow of
-- interaction creates.
use rune_terminal.Base.{ℕ, Bool, Option, List}
use rune_terminal.Text.{Text}

pub data MessageIntent : Type 0 where
  chat execution question : MessageIntent

pub record PlanTool : Type 0 where
  pub name : Text
  pub description : Option Text

pub record PlanMessage : Type 0 where
  pub id : Text
  pub plan_id : Text
  pub steps : List Text
  pub tools : List PlanTool
  pub sort_key : Option ℕ

pub data ApprovalState : Type 0 where
  pending approved cancelled : ApprovalState

pub record ApprovalMessage : Type 0 where
  pub id : Text
  pub plan_id : Text
  pub status : ApprovalState
  pub sort_key : Option ℕ

pub data AuditEntryStatus : Type 0 where
  pending running done error : AuditEntryStatus

pub record AuditEntry : Type 0 where
  pub tool : Text
  pub status : AuditEntryStatus
  pub timestamp : Option ℕ

pub record AuditMessage : Type 0 where
  pub id : Text
  pub entries : List AuditEntry
  pub sort_key : Option ℕ

pub record QuestionnaireOption : Type 0 where
  pub label : Text
  pub value : Text

pub data QuestionnaireStatus : Type 0 where
  pending answered : QuestionnaireStatus

pub record QuestionnaireMessage : Type 0 where
  pub id : Text
  pub question : Text
  pub options : List QuestionnaireOption
  pub allow_custom : Bool
  pub answer : Option Text
  pub status : QuestionnaireStatus
  pub sort_key : Option ℕ

-- `ChatMessageView`, without the text messages, which no flow creates
pub data FlowMessage : Type 0 where
  plan : PlanMessage → FlowMessage
  approval : ApprovalMessage → FlowMessage
  audit : AuditMessage → FlowMessage
  questionnaire : QuestionnaireMessage → FlowMessage
