-- ===== src/Agent/Submission/Stale.antt =====
-- A submission that was cancelled or replaced.
use rune_terminal.Base.{
  ℕ, ◌≡◌, refl, sym, Bool, true, false, Option, some, List, [], ◌∷◌, ◌++◌, arith, ap, ◌∙◌, All,
}
use mathlib.Core.List.{append_assoc, append-nil}
use rune_terminal.Text.{Text}
use rune_terminal.Agent.Conversation.{AgentConversationStreamEvent}
use rune_terminal.Agent.Submission.{
  Panel, Submission, Stage, opening, following, awaiting_snapshot, ended, Step, terminal_answered,
  stream_done, connected, event, snapshot_arrived, rejected, is_active_submission, finish, connect,
  close_stream, receive_event, fail_submission, step_submission, run_steps,
}

-- The step brings a snapshot.
abbrev pub is_snapshot : Step → Bool
is_snapshot (snapshot_arrived _) = true
is_snapshot _ = false

-- The connections that a submission gets after it is no longer the active one: the first that comes while
-- it still waits for one, unless the terminal or an error comes before.
abbrev pub late_connections : List Step → List ℕ
late_connections [] = []
late_connections (connected connection ∷ steps) = connection ∷ []
late_connections (terminal_answered ∷ steps) = []
late_connections (rejected message ∷ steps) = []
late_connections (event e ∷ steps) = late_connections steps
late_connections (stream_done ∷ steps) = late_connections steps
late_connections (snapshot_arrived messages ∷ steps) = late_connections steps

abbrev pub closes : Stage → List Step → List ℕ
closes opening steps = late_connections steps
closes following steps = []
closes awaiting_snapshot steps = []
closes ended steps = []

-- The panel is as it was, but for these connections, which were closed, and the submission is still the
-- same.
abbrev pub Untouched : List ℕ → Panel → Submission → Panel × Submission → Type 0
Untouched late p s (q, t) = (q ≡ record p { closed = late ++ p.closed }) × (t.nonce ≡ s.nonce)

-- One step closes so much of what all steps close, and leaves the rest.
abbrev pub StepUntouched : Stage → Step → Panel → Submission → Panel × Submission → Type 0
StepUntouched stage step p s (q, t) =
    (late : List ℕ) × Untouched late p s (q, t)
    × ((steps : List Step) → closes stage (step ∷ steps) ≡ closes t.stage steps ++ late)

module _ (now : ℕ → ℕ) (host_id : Text) (p : Panel) (s : Submission)
    (stale : is_active_submission p s ≡ false) where
  finish-Untouched : finish p s ≡ (p, record s { stage = ended })
  unfolding finish
  finish-Untouched = rw stale refl

  connect-Untouched :
      (connection : ℕ)
      → connect connection p s ≡ (
        record p { closed = connection ∷ p.closed },
        record s { connection = some connection; stage = ended },
      )
  unfolding connect finish
  connect-Untouched connection = rw stale refl

  close_stream-Untouched : close_stream p s ≡ (p, record s { stage = ended })
  unfolding close_stream finish
  close_stream-Untouched = rw stale refl

  receive_event-Untouched : (e : AgentConversationStreamEvent) → receive_event now e p s ≡ (p, s)
  unfolding receive_event
  receive_event-Untouched e = rw stale refl

  fail_submission-Untouched :
      (message : Option Text)
      → fail_submission now host_id message p s ≡ (p, record s { stage = ended })
  unfolding fail_submission finish
  fail_submission-Untouched message = rw stale refl

  kept : (stage : Stage) → Untouched [] p s (p, record s { stage = stage })
  kept stage = (refl, refl)

  step-Untouched :
      (stage : Stage) (step : Step)
      → s.stage ≡ stage
      → is_snapshot step ≡ false
      → StepUntouched stage step p s (step_submission now host_id stage step p s)
  unfolding step_submission
  step-Untouched stage (snapshot_arrived _) e h = cc
  step-Untouched opening (event message) e h =
      rw (receive_event-Untouched message)
        ([], (refl, refl), λ steps. rw e (sym (append-nil (late_connections steps))))
  step-Untouched following (event message) e h =
      rw (receive_event-Untouched message) ([], (refl, refl), λ steps. rw e refl)
  step-Untouched awaiting_snapshot (event message) e h =
      rw (receive_event-Untouched message) ([], (refl, refl), λ steps. rw e refl)
  step-Untouched ended (event message) e h =
      rw (receive_event-Untouched message) ([], (refl, refl), λ steps. rw e refl)
  step-Untouched opening terminal_answered e h =
      rw finish-Untouched ([], (refl, refl), λ steps. refl)
  step-Untouched opening (connected connection) e h =
      rw (connect-Untouched connection) (connection ∷ [], (refl, refl), λ steps. refl)
  step-Untouched opening stream_done e h =
      ([], (refl, refl), λ steps. rw e (sym (append-nil (late_connections steps))))
  step-Untouched opening (rejected message) e h =
      rw (fail_submission-Untouched message) ([], (refl, refl), λ steps. refl)
  step-Untouched following terminal_answered e h = ([], (refl, refl), λ steps. rw e refl)
  step-Untouched following (connected connection) e h = ([], (refl, refl), λ steps. rw e refl)
  step-Untouched following stream_done e h =
      rw close_stream-Untouched ([], (refl, refl), λ steps. refl)
  step-Untouched following (rejected message) e h =
      rw (fail_submission-Untouched message) ([], (refl, refl), λ steps. refl)
  step-Untouched awaiting_snapshot terminal_answered e h = ([], (refl, refl), λ steps. rw e refl)
  step-Untouched awaiting_snapshot (connected connection) e h =
      ([], (refl, refl), λ steps. rw e refl)
  step-Untouched awaiting_snapshot stream_done e h = ([], (refl, refl), λ steps. rw e refl)
  step-Untouched awaiting_snapshot (rejected message) e h =
      rw (fail_submission-Untouched message) ([], (refl, refl), λ steps. refl)
  step-Untouched ended terminal_answered e h = ([], (refl, refl), λ steps. rw e refl)
  step-Untouched ended (connected connection) e h = ([], (refl, refl), λ steps. rw e refl)
  step-Untouched ended stream_done e h = ([], (refl, refl), λ steps. rw e refl)
  step-Untouched ended (rejected message) e h = ([], (refl, refl), λ steps. rw e refl)

reclosed : List ℕ → Panel → Panel
reclosed closed p = record p { closed = closed }

closes_none : (stage : Stage) → closes stage [] ≡ []
closes_none opening = refl
closes_none following = refl
closes_none awaiting_snapshot = refl
closes_none ended = refl

-- Once a submission was cancelled or another one was started, nothing that still arrives for it changes
-- the panel, in whatever order it arrives and whatever it is, but for a snapshot. Only a connection that
-- it was still waiting for is closed, and that one exactly: the first that comes, unless an answer of the
-- terminal or an error comes before.
pub run_steps-Untouched :
    (now : ℕ → ℕ) (host_id : Text) (steps : List Step) (p : Panel) (s : Submission)
    → is_active_submission p s ≡ false
    → All (λ step. is_snapshot step ≡ false) steps
    → Untouched (closes s.stage steps) p s (run_steps now host_id steps p s)
unfolding run_steps reclosed
run_steps-Untouched now host_id [] p s stale h = rw (closes_none s.stage) (refl, refl)
run_steps-Untouched now host_id (step ∷ steps) p s stale (hs, h) =
    let next = step_submission now host_id s.stage step p s in
    let (late, (same, kept), split) = step-Untouched now host_id p s stale s.stage step refl hs in
    let still : is_active_submission next.0 next.1 ≡ false =
      ground (arith, ap (λ q. q.submission_nonce) same, kept, stale) in
    let (later, kept_later) = run_steps-Untouched now host_id steps next.0 next.1 still h in
    let closed : closes (next.1).stage steps ++ (next.0).closed
        ≡ closes s.stage (step ∷ steps) ++ p.closed =
      ap (λ q. closes (next.1).stage steps ++ q.closed) same
      ∙ sym (append_assoc (closes (next.1).stage steps) late p.closed)
      ∙ ap (λ cs. cs ++ p.closed) (sym (split steps)) in
    (
      later
          ∙ ap (reclosed (closes (next.1).stage steps ++ (next.0).closed)) same
          ∙ ap (λ cs. reclosed cs p) closed,
      kept_later ∙ kept,
    )
