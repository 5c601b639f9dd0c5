-- ===== src/Agent/Flow/Start.antt =====
-- What a started flow holds: createPendingInteractionFlow of frontend/src/features/agent/model/
-- interaction-flow.ts.
use rune_terminal.Base.{
  ℕ, ◌<◌, ◌≡◌, refl, Bool, true, false, Option, none, some, List, [], ◌∷◌, ◌++◌, map, All, length,
  arith,
}
use rune_terminal.Text.{
  Text, text, text_eq, text_eq_refl, text_eq-append, includes, includes-cons, includes-nil,
  Distinct,
}
use rune_terminal.Locale.{Locale}
use rune_terminal.Agent.Types.{
  MessageIntent, PlanTool, FlowMessage, chat, execution, question, plan, approval, audit,
  questionnaire,
}
use rune_terminal.Agent.Intent.{classify_message_intent}
use rune_terminal.Agent.Flow.{
  PendingInteractionFlow, StartedFlow, create_plan_message, create_approval_message,
  create_questionnaire_message, start_flow, flow_id_of, create_pending_interaction_flow,
}

abbrev pub message_id : FlowMessage → Text
message_id (plan m) = m.id
message_id (approval m) = m.id
message_id (audit m) = m.id
message_id (questionnaire m) = m.id

abbrev pub message_key : FlowMessage → Option ℕ
message_key (plan m) = m.sort_key
message_key (approval m) = m.sort_key
message_key (audit m) = m.sort_key
message_key (questionnaire m) = m.sort_key

-- Each key is drawn, and lower than those behind it.
abbrev pub Ascending : List (Option ℕ) → Type 0
Ascending [] = Unit
Ascending (k ∷ ks) =
    (n : ℕ) × (k ≡ some n) × All (λ k'. (m : ℕ) × (k' ≡ some m) × (n < m)) ks × Ascending ks

abbrev one : Option Text → List Text
one none = []
one (some id) = id ∷ []

-- the messages that a flow waits for
abbrev pub awaited : PendingInteractionFlow → List Text
awaited f = one f.questionnaire_message_id ++ one f.approval_message_id

-- What a flow and its messages have to do with each other.
abbrev pub Waits : StartedFlow → Type 0
Waits r = elim r.flow [
  | none ↦ r.messages ≡ []
  | some f ↦
      (f.tools ≡ (r.classification).tools)
      × (length (awaited f) ≡ 1)
      × All (λ id. includes (map message_id r.messages) id ≡ true) (awaited f)
]

-- The messages of a started flow have ids of their own and ascending keys; the flow keeps the tools of
-- the classification and waits for exactly one of its messages, and without a flow there is none.
pub record IsStarted (r : StartedFlow) : Type 0 where
  pub ids : Distinct (map message_id r.messages)
  pub keys : Ascending (map message_key r.messages)
  pub waits : Waits r

module _ {ℓ} {S : Type ℓ} (next : S → ℕ × S) ⦃l : Locale⦄
    (ascends : (s : S) → (next s).0 < (next (next s).1).0) where
  plan_before_approval :
      (flow_id : Text)
      → includes ((flow_id ++ text "-approval") ∷ []) (flow_id ++ text "-plan") ≡ false
  unfolding text_eq
  plan_before_approval flow_id = rw (includes-cons, text_eq-append, includes-nil) refl

  approval_included :
      (plan_id approval_id : Text) → includes (plan_id ∷ approval_id ∷ []) approval_id ≡ true
  approval_included plan_id approval_id =
      rw (includes-cons, includes-cons, text_eq_refl) (ground arith)

  start_flow-IsStarted :
      (s : S) (flow_id prompt : Text) (answer : Option Text) (intent : MessageIntent)
      (tools : List PlanTool)
      → IsStarted
          (start_flow next s flow_id prompt answer (record { intent = intent; tools = tools })).0
  unfolding start_flow create_plan_message create_approval_message create_questionnaire_message
  start_flow-IsStarted s flow_id prompt answer chat tools = record {
    ids = tt;
    keys = tt;
    waits = refl;
  }
  start_flow-IsStarted s flow_id prompt answer question tools = record {
    ids = (includes-nil _, tt);
    keys = ((next s).0, refl, tt, tt);
    waits = (refl, refl, (rw (includes-cons, text_eq_refl) refl, tt));
  }
  start_flow-IsStarted s flow_id prompt answer execution tools = record {
    ids = (plan_before_approval flow_id, (includes-nil _, tt));
    keys = ((next s).0, refl, ((_, refl, ascends s), tt), (_, refl, tt, tt));
    waits = (refl, refl, (approval_included _ _, tt));
  }

  -- With a generator of ascending sort keys, for every prompt and answer: the messages of the flow that
  -- is started have different ids and ascending keys; the flow keeps the tools of the classification
  -- and waits for exactly one message, which is among them; and without a flow there are no messages.
  pub create_pending_interaction_flow-IsStarted :
      (s : S) (host_id prompt : Text) (sequence : ℕ) (answer : Option Text) (context : Bool)
      → IsStarted (create_pending_interaction_flow next s host_id prompt sequence answer context).0
  unfolding create_pending_interaction_flow
  create_pending_interaction_flow-IsStarted s host_id prompt sequence answer context =
      let c = classify_message_intent prompt answer context in
      start_flow-IsStarted s (flow_id_of host_id sequence) prompt answer c.intent c.tools
