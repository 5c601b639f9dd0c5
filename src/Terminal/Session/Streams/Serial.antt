-- ===== src/Terminal/Session/Streams/Serial.antt =====
-- A terminal session whose streams are attached one after the other.
use rune_terminal.Base.{refl, List, [], ◌∷◌, ◌==◌, arith, any}
use rune_terminal.Terminal.Session.{plain, recovering}
use rune_terminal.Terminal.Session.Holding.{if_both}
use rune_terminal.Terminal.Session.Store.{
  Store, ensure_record, is_active, Event, step, run, empty_store,
}
use rune_terminal.Terminal.Session.Streams.{
  IsOwned, HasNoStream, update_record-IsOwned, update_active-IsOwned, ensure_record-IsOwned,
  start_reload-IsOwned, release-IsOwned, attach-IsOwned, schedule-stream, unless-stream,
  shrink-IsOwned, fire_timer-IsOwned, request_recovery-IsOwned,
}

-- A stream is attached only where the record has none.
abbrev pub IsSerial : Event → Store → Type 0
IsSerial (Event.stream_attached g connection reloads) w = HasNoStream w
IsSerial event w = Unit

abbrev pub AllSerial : List Event → Store → Type 0
AllSerial [] w = Unit
AllSerial (event ∷ events) w = IsSerial event w × AllSerial events (step event w)

step-IsOwned : (event : Event) (w : Store) → IsSerial event w → IsOwned w → IsOwned (step event w)
unfolding step
step-IsOwned Event.observed w serial h = ensure_record-IsOwned w h
step-IsOwned Event.retained w serial h =
    update_record-IsOwned _ (ensure_record w) (λ r. refl) (ensure_record-IsOwned w h)
step-IsOwned Event.released w serial h = release-IsOwned w h
step-IsOwned Event.ensured w serial h = update_record-IsOwned _ w (λ r. ground arith) h
step-IsOwned (Event.ensure_loaded g snapshot) w serial h = update_active-IsOwned g _ w (λ r. refl) h
step-IsOwned (Event.ensure_failed g fallback message) w serial h =
    update_active-IsOwned g _ w (λ r. refl) h
step-IsOwned (Event.ensure_settled g) w serial h = update_active-IsOwned g _ w (λ r. refl) h
step-IsOwned (Event.reload_loaded g options snapshot) w serial h =
    update_active-IsOwned g _ w (λ r. refl) h
step-IsOwned (Event.operation_finished g op) w serial h = update_active-IsOwned g _ w (λ r. refl) h
step-IsOwned (Event.operation_failed g op message) w serial h =
    update_active-IsOwned g _ w (λ r. refl) h
step-IsOwned (Event.shells_loaded g options) w serial h = update_active-IsOwned g _ w (λ r. refl) h
step-IsOwned (Event.shells_failed g message) w serial h = update_active-IsOwned g _ w (λ r. refl) h
step-IsOwned (Event.reload_failed g plain fallback follow message) w serial h =
    update_active-IsOwned g _ w (λ r. refl) h
step-IsOwned (Event.reload_failed g recovering fallback follow message) w serial h =
    update_active-IsOwned g _ w (λ r. ground (arith, schedule-stream follow message r)) h
step-IsOwned Event.timer_fired w serial h = fire_timer-IsOwned w h
step-IsOwned (Event.stream_attached g connection reloads) w serial h =
    attach-IsOwned g connection reloads w serial h
step-IsOwned (Event.output connection chunk) w serial h =
    if_both IsOwned (any (λ c. connection == c) w.open_connections) _ w
      (update_record-IsOwned _ w (λ r. refl) h) h
step-IsOwned (Event.stream_ended connection fallback message) w serial h =
    if_both IsOwned (any (λ c. connection == c) w.open_connections) _ w
      (update_record-IsOwned _ _ (schedule-stream fallback message) (shrink-IsOwned connection w h))
      h
step-IsOwned Event.recovery_requested w serial h =
    request_recovery-IsOwned (ensure_record w) (ensure_record-IsOwned w h)
step-IsOwned Event.shells_requested w serial h =
    update_record-IsOwned _ (ensure_record w) (unless-stream _ _) (ensure_record-IsOwned w h)
step-IsOwned (Event.operation_requested op) w serial h =
    update_record-IsOwned _ (ensure_record w) (unless-stream _ _) (ensure_record-IsOwned w h)
step-IsOwned (Event.operation_answered g) w serial h =
    if_both IsOwned (is_active g w) _ w (start_reload-IsOwned plain w h) h
step-IsOwned (Event.interrupt_answered state) w serial h = update_record-IsOwned _ w (λ r. refl) h
step-IsOwned (Event.input_sent refreshes) w serial h = update_record-IsOwned _ w (λ r. refl) h
step-IsOwned (Event.input_failed fallback message) w serial h =
    update_record-IsOwned _ (ensure_record w) (λ r. refl) (ensure_record-IsOwned w h)

run-IsOwned_from :
    (events : List Event) (w : Store) → AllSerial events w → IsOwned w → IsOwned (run events w)
unfolding run
run-IsOwned_from [] w serial h = h
run-IsOwned_from (event ∷ events) w (one, serial) h =
    run-IsOwned_from events (step event w) serial (step-IsOwned event w one h)

-- As long as a stream is attached only where the record has none, whatever else happens and in whatever
-- order: every connection that is open is the one that the record closes, and none is open where the
-- widget has no record, as after its last release.
pub run-IsOwned :
    (events : List Event) → AllSerial events empty_store → IsOwned (run events empty_store)
unfolding empty_store
run-IsOwned events serial = run-IsOwned_from events empty_store serial refl
