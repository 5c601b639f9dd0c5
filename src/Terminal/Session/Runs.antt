-- ===== src/Terminal/Session/Runs.antt =====
-- A terminal session over any sequence of events.
use rune_terminal.Base.{refl, inl, inr, List, [], ◌∷◌, ◌==◌, arith, Bool-cases, Option-cases, any}
use rune_terminal.Terminal.Session.{
  should_auto_recover_stream, ReloadOptions, plain, recovering, finish_reload, receive_output,
  fail_reload, begin_ensure, finish_ensure, fail_ensure, restart, is_refused, begin_operation,
  finish_operation, finish_interrupt, fail_operation, refuses_shell_options, begin_shell_options,
  finish_shell_options, fail_shell_options, refuses_recovery, needs_restart, begin_recovery,
  finish_input, fail_input,
}
use rune_terminal.Terminal.Session.Holding.{
  Holds, if_both, update_record-Holds, update_active-Holds, ensure_record-Holds, start_reload-Holds,
  release-Holds,
}
use rune_terminal.Terminal.Session.Store.{
  Store, ensure_record, start_reload, is_active, Event, request_recovery, fire_timer, current_state,
  step, run, empty_store,
}
use rune_terminal.Terminal.Session.Exclusive.{
  IsSound, created-IsSound, begin_reload-IsSound, finish_reload-IsExclusive,
  fail_reload-IsExclusive, schedule-IsSound, unless-IsSound, changed-IsSound,
  changed_active-IsSound, attach-IsSound, begin_operation-IsExclusive, finish_operation-IsExclusive,
  fail_operation-IsExclusive, receive_output-IsExclusive, finish_input-IsExclusive,
  with_state-IsSound,
}

reload-IsSound :
    (options : ReloadOptions) (w : Store) → Holds IsSound w → Holds IsSound (start_reload options w)
reload-IsSound options w = start_reload-Holds IsSound options w (begin_reload-IsSound options)

request_recovery-IsSound : (w : Store) → Holds IsSound w → Holds IsSound (request_recovery w)
unfolding request_recovery begin_recovery
request_recovery-IsSound w h = elim (Bool-cases (refuses_recovery (current_state w))) [
  | inl refused ↦ rw refused h
  | inr free ↦ rw free (elim (Bool-cases (needs_restart (current_state w))) [
    | inl dead ↦ rw dead (
        update_record-Holds IsSound _ w
          (λ r.
            unless-IsSound (is_refused restart) (begin_operation restart) r
              (begin_operation-IsExclusive restart))
          h)
    | inr alive ↦ rw alive (
        reload-IsSound recovering _ (changed-IsSound begin_recovery w (λ s e. ground (arith, e)) h))
  ])
]

fire_timer-IsSound : (w : Store) → Holds IsSound w → Holds IsSound (fire_timer w)
unfolding fire_timer
fire_timer-IsSound w h = elim (Option-cases w.session) [
  | inl e ↦ rw (e, fire_timer) h
  | inr (r, e) ↦ elim (Option-cases r.stream_reconnect_timer) [
    | inl idle ↦ rw (e, fire_timer) (rw idle h)
    | inr (delay, armed) ↦
        let k : IsSound r = rw e at h in
        rw (e, fire_timer)
          (rw armed (
            if_both (Holds IsSound) (r.retainers == 0) _ _
              (record { exclusive = k.exclusive; within = tt }) (reload-IsSound recovering w h)))
  ]
]

-- Each step keeps the record sound.
step-IsSound : (event : Event) (w : Store) → Holds IsSound w → Holds IsSound (step event w)
unfolding step begin_ensure
step-IsSound Event.observed w h = ensure_record-Holds IsSound w created-IsSound h
step-IsSound Event.retained w h =
    update_record-Holds IsSound _ (ensure_record w)
      (λ r k. record { exclusive = k.exclusive; within = k.within })
      (ensure_record-Holds IsSound w created-IsSound h)
step-IsSound Event.released w h =
    release-Holds IsSound w (λ r k. record { exclusive = k.exclusive; within = k.within }) h
step-IsSound Event.ensured w h =
    update_record-Holds IsSound _ w
      (λ r k. if_both IsSound r.is_load_pending r _ k (record {
        exclusive = record {
          creating_interrupting = refl;
          creating_restarting = refl;
          interrupting_restarting = refl;
        };
        within = k.within;
      }))
      h
step-IsSound (Event.ensure_loaded g snapshot) w h =
    changed_active-IsSound g (finish_ensure snapshot) w
      (λ s e.
        unfold finish_ensure in
        record {
          creating_interrupting = refl;
          creating_restarting = refl;
          interrupting_restarting = refl;
        })
      h
step-IsSound (Event.ensure_failed g fallback message) w h =
    changed_active-IsSound g (fail_ensure fallback message) w
      (λ s e.
        unfold fail_ensure in
        record {
          creating_interrupting = refl;
          creating_restarting = refl;
          interrupting_restarting = refl;
        })
      h
step-IsSound (Event.ensure_settled g) w h =
    update_active-Holds IsSound g _ w (λ r k. record { exclusive = k.exclusive; within = k.within })
      h
step-IsSound Event.timer_fired w h = fire_timer-IsSound w h
step-IsSound (Event.reload_loaded g options snapshot) w h =
    changed_active-IsSound g (finish_reload options snapshot) w
      (finish_reload-IsExclusive options snapshot) h
step-IsSound (Event.reload_failed g plain fallback follow message) w h =
    changed_active-IsSound g (fail_reload fallback message) w
      (fail_reload-IsExclusive fallback message) h
step-IsSound (Event.reload_failed g recovering fallback follow message) w h =
    update_active-Holds IsSound g _ w
      (λ r k.
        if_both IsSound (should_auto_recover_stream r.state.snapshot) _ _
          (schedule-IsSound follow message r k)
          (with_state-IsSound (fail_reload fallback message) r
            (fail_reload-IsExclusive fallback message r.state) k))
      h
step-IsSound (Event.stream_attached g connection reloads) w h =
    attach-IsSound g connection reloads w h
step-IsSound (Event.output connection chunk) w h =
    if_both (Holds IsSound) (any (λ c. connection == c) w.open_connections) _ w
      (changed-IsSound (receive_output chunk) w (receive_output-IsExclusive chunk) h) h
step-IsSound (Event.stream_ended connection fallback message) w h =
    if_both (Holds IsSound) (any (λ c. connection == c) w.open_connections) _ w
      (update_record-Holds IsSound _ _ (schedule-IsSound fallback message) h) h
step-IsSound Event.recovery_requested w h =
    request_recovery-IsSound (ensure_record w) (ensure_record-Holds IsSound w created-IsSound h)
step-IsSound Event.shells_requested w h =
    update_record-Holds IsSound _ (ensure_record w)
      (λ r.
        unless-IsSound refuses_shell_options begin_shell_options r
          (λ s _ e. unfold begin_shell_options in ground (arith, e)))
      (ensure_record-Holds IsSound w created-IsSound h)
step-IsSound (Event.operation_requested op) w h =
    update_record-Holds IsSound _ (ensure_record w)
      (λ r. unless-IsSound (is_refused op) (begin_operation op) r (begin_operation-IsExclusive op))
      (ensure_record-Holds IsSound w created-IsSound h)
step-IsSound (Event.operation_answered g) w h = elim (Bool-cases (is_active g w)) [
  | inl active ↦ rw active (reload-IsSound plain w h)
  | inr stale ↦ rw stale h
]
step-IsSound (Event.interrupt_answered state) w h =
    changed-IsSound (finish_interrupt state) w (λ s e. unfold finish_interrupt in ground (arith, e))
      h
step-IsSound (Event.operation_finished g op) w h =
    changed_active-IsSound g (finish_operation op) w (finish_operation-IsExclusive op) h
step-IsSound (Event.operation_failed g op message) w h =
    changed_active-IsSound g (fail_operation op message) w (fail_operation-IsExclusive op message) h
step-IsSound (Event.shells_loaded g options) w h =
    changed_active-IsSound g (finish_shell_options options) w
      (λ s e. unfold finish_shell_options in ground (arith, e)) h
step-IsSound (Event.shells_failed g message) w h =
    changed_active-IsSound g (fail_shell_options message) w
      (λ s e. unfold fail_shell_options in ground (arith, e)) h
step-IsSound (Event.input_sent refreshes) w h =
    changed-IsSound (finish_input refreshes) w (finish_input-IsExclusive refreshes) h
step-IsSound (Event.input_failed fallback message) w h =
    changed-IsSound (fail_input fallback message) (ensure_record w)
      (λ s e. unfold fail_input in ground (arith, e))
      (ensure_record-Holds IsSound w created-IsSound h)

run-IsSound_from :
    (events : List Event) (w : Store) → Holds IsSound w → Holds IsSound (run events w)
unfolding run
run-IsSound_from [] w h = h
run-IsSound_from (event ∷ events) w h =
    run-IsSound_from events (step event w) (step-IsSound event w h)

-- Whatever happens to the terminal session of a widget from the start on, in whatever order: at most one
-- of the flags for its creation, its interruption and its restart is set, and a timer that is set to
-- reconnect the stream has a delay from half a second to four seconds.
pub run-IsSound : (events : List Event) → Holds IsSound (run events empty_store)
unfolding empty_store
run-IsSound events = run-IsSound_from events empty_store tt
