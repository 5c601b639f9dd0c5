-- ===== src/Agent/Submission/Cancelling.antt =====
-- The cancellation of a submission, and the ends of one.
use rune_terminal.Base.{
  ℕ, ◌≤◌, ◌≡◌, refl, sym, true, false, Option, none, some, List, [], ◌∷◌, ◌++◌, if◌then◌else◌,
  arith, ◌∙◌, any,
}
use mathlib.Core.Path.{subst}
use rune_terminal.Text.{Text}
use rune_terminal.Agent.Types.{AuditEntry}
use rune_terminal.Agent.Conversation.{
  AgentConversationMessage, is_streaming, append_agent_conversation_message,
  finalize_agent_conversation_streaming_messages,
}
use rune_terminal.Agent.Conversation.Finalizing.{finalize-any}
use rune_terminal.Agent.Submission.{
  Panel, Submission, Stage, opening, following, awaiting_snapshot, Step, terminal_answered,
  stream_done, snapshot_arrived, rejected, is_active_submission, finish, close_stream,
  fail_submission, step_submission, is_idle, cancel_active_submission, cancelled_message,
  current_messages, update_audit, cancellation_message,
}

-- Nothing is submitted, and nothing waits for an answer.
pub record IsAtRest (p : Panel) : Type 0 where
  pub submitting : p.is_submitting ≡ false
  pub cancellable : p.is_response_cancellable ≡ false
  pub blocked : p.is_blocked ≡ false
  pub stream : p.active_stream ≡ none
  pub abort : p.active_submission_abort ≡ none

any-append :
    (ms : List AgentConversationMessage) (m : AgentConversationMessage)
    → any is_streaming ms ≡ false
    → is_streaming m ≡ false
    → any is_streaming (ms ++ m ∷ []) ≡ false
unfolding any
any-append [] m h k = ground arith
any-append (x ∷ ms) m h k = ground (arith, any-append ms m)

cancelled-any :
    (ms : List AgentConversationMessage) (message : Text) (m : AgentConversationMessage)
    → is_streaming m ≡ false
    → let finalized = finalize_agent_conversation_streaming_messages ms message in
      any is_streaming (if any is_streaming ms then finalized else finalized ++ m ∷ []) ≡ false
cancelled-any ms message m h = ground (
  arith,
  finalize-any ms message,
  any-append (finalize_agent_conversation_streaming_messages ms message) m,
)

-- A cancellation while something is submitted leaves the panel at rest without an error, no message
-- streams on, and every submission that was started until then is no longer the active one.
pub cancel_active_submission-IsAtRest :
    (now : ℕ → ℕ) (host_id time : Text) (p : Panel) (s : Submission)
    → is_idle p ≡ false
    → s.nonce ≤ p.submission_nonce
    → let q = cancel_active_submission now host_id time p in
      IsAtRest q
      × (q.submit_error ≡ none)
      × (any is_streaming (current_messages q) ≡ false)
      × (is_active_submission q s ≡ false)
unfolding cancel_active_submission append_agent_conversation_message cancelled_message
cancel_active_submission-IsAtRest now host_id time p s busy older = rw busy (
  record { submitting = refl; cancellable = refl; blocked = refl; stream = refl; abort = refl },
  refl,
  cancelled-any (current_messages p) cancellation_message _ refl,
  ground arith,
)

cleared :
    (connection stream : Option ℕ)
    → (connection ≡ none → stream ≡ none)
    → elim connection as (λ _. Option ℕ) [ none ↦ stream | some _ ↦ none ] ≡ none
cleared none stream h = h refl
cleared (some _) stream h = refl

-- A step after which a submission has returned.
pub data Ends (s : Submission) : Stage → Step → Type 0 where
  by_terminal : Ends s opening terminal_answered
  unopened : (message : Option Text) → Ends s opening (rejected message)
  broken : (message : Option Text) → Ends s following (rejected message)
  reported : s.stream_errored ≡ true → Ends s following stream_done
  loaded : (ms : List AgentConversationMessage) → Ends s awaiting_snapshot (snapshot_arrived ms)
  unloaded : (message : Option Text) → Ends s awaiting_snapshot (rejected message)

finish-IsAtRest :
    (p : Panel) (s : Submission)
    → is_active_submission p s ≡ true
    → (s.connection ≡ none → p.active_stream ≡ none)
    → IsAtRest (finish p s).0
unfolding finish
finish-IsAtRest p s active streamless = rw active (record {
  submitting = refl;
  cancellable = refl;
  blocked = refl;
  stream = cleared s.connection p.active_stream streamless;
  abort = refl;
})

update_audit-nonce :
    (update : List AuditEntry → List AuditEntry) (id : Option Text) (p : Panel)
    → (update_audit update id p).submission_nonce ≡ p.submission_nonce
unfolding update_audit
update_audit-nonce update none p = refl
update_audit-nonce update (some id) p = refl

update_audit-stream :
    (update : List AuditEntry → List AuditEntry) (id : Option Text) (p : Panel)
    → (update_audit update id p).active_stream ≡ p.active_stream
unfolding update_audit
update_audit-stream update none p = refl
update_audit-stream update (some id) p = refl

fail_submission-IsAtRest :
    (now : ℕ → ℕ) (host_id : Text) (message : Option Text) (p : Panel) (s : Submission)
    → is_active_submission p s ≡ true
    → (s.connection ≡ none → p.active_stream ≡ none)
    → IsAtRest (fail_submission now host_id message p s).0
unfolding fail_submission
fail_submission-IsAtRest now host_id message p s active streamless = rw active (
    finish-IsAtRest _ s (rw (update_audit-nonce _ s.audit_message_id _) active)
      (λ none. update_audit-stream _ s.audit_message_id _ ∙ streamless none))

close_stream_errored :
    (p : Panel) (s : Submission) → s.stream_errored ≡ true → close_stream p s ≡ finish p s
unfolding close_stream
close_stream_errored p s errored = ground arith

-- However the active submission ends, by an answer of the terminal, by an error at any of its waits or
-- one that its stream reports, or by the snapshot after its stream, it leaves the panel at rest,
-- provided that the panel holds no stream but that of the submission.
pub step_submission-IsAtRest :
    (now : ℕ → ℕ) (host_id : Text) (p : Panel) (s : Submission) (stage : Stage) (step : Step)
    → is_active_submission p s ≡ true
    → (s.connection ≡ none → p.active_stream ≡ none)
    → Ends s stage step
    → IsAtRest (step_submission now host_id stage step p s).0
unfolding step_submission
step_submission-IsAtRest now host_id p s _ _ active streamless by_terminal =
    finish-IsAtRest p s active streamless
step_submission-IsAtRest now host_id p s _ _ active streamless (unopened message) =
    fail_submission-IsAtRest now host_id message p s active streamless
step_submission-IsAtRest now host_id p s _ _ active streamless (broken message) =
    fail_submission-IsAtRest now host_id message p s active streamless
step_submission-IsAtRest now host_id p s _ _ active streamless (reported errored) =
    subst (λ q. IsAtRest q.0) (sym (close_stream_errored p s errored))
      (finish-IsAtRest p s active streamless)
step_submission-IsAtRest now host_id p s _ _ active streamless (loaded ms) =
    finish-IsAtRest (record p { messages = some ms }) s active streamless
step_submission-IsAtRest now host_id p s _ _ active streamless (unloaded message) =
    fail_submission-IsAtRest now host_id message p s active streamless

-- A submission that is cancelled while it waits for the snapshot is not stopped: when the snapshot
-- arrives, its messages replace those of the panel, the notice of the cancellation included.
pub cancel_active_submission-overwritten :
    (now : ℕ → ℕ) (host_id time : Text) (ms : List AgentConversationMessage) (p : Panel)
    (s : Submission)
    → is_idle p ≡ false
    → s.nonce ≤ p.submission_nonce
    → let q = cancel_active_submission now host_id time p in
      (step_submission now host_id awaiting_snapshot (snapshot_arrived ms) q s).0
      ≡ record q { messages = some ms }
unfolding step_submission finish
cancel_active_submission-overwritten now host_id time ms p s busy older =
    let (_, _, _, stale) = cancel_active_submission-IsAtRest now host_id time p s busy older in
    rw stale refl
