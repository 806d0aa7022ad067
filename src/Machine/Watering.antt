-- ===== src/Machine/Watering.antt =====
-- The WATERING handlers of state_machine.py.
use moisture_loop.Base.{
  ℕ, ◌+◌, Bool, true, false, ◌&&◌, ◌||◌, not, Option, none, some, [], ◌∷◌, ltb, is_some,
  if◌then◌else◌, Result, ok, assertion_error, or_raise, ◌>>=◌,
}
use moisture_loop.Model.Enums.{
  ControllerState, SessionMode, MoistureClassification, FaultCode, CompletionReason,
  RuntimeEstimationReason, BlockerReason, ActuatorFinding, TimerKind,
}
use moisture_loop.Model.Observation.{MoistureObservation, WatchdogToken, seconds, token_eq}
use moisture_loop.Model.Session.{SessionContext}
use moisture_loop.Model.Event.{ControllerEvent, Action, PersistTag}
use moisture_loop.Model.Decision.{TransitionInput, Decision, decision, Guard, Row}
use moisture_loop.Machine.Guards.{no_op}
use moisture_loop.Machine.Finalize.{
  commit_termination, finalize_watering, pulse_off_to_soaking, off_not_confirmed,
}
use moisture_loop.Machine.Idle.{refused}

abbrev pub is_auto : SessionMode → Bool
is_auto SessionMode.auto = true
is_auto SessionMode.manual = false

-- The deadline that an ON confirmation arms, and its timer.
abbrev confirmed_end : TransitionInput → SessionContext → SessionMode → ℕ → Result (ℕ × TimerKind)
confirmed_end inp session SessionMode.auto at_utc =
    ok (at_utc + seconds inp.config.pulse_duration_s, TimerKind.pulse_end)
confirmed_end inp session SessionMode.manual at_utc = do
  effective ← or_raise session.manual_effective_duration_s assertion_error
  ok (at_utc + effective, TimerKind.manual_end)

unfoldable pub on_on_confirmed : TransitionInput → SessionContext → ℕ → Result Decision
on_on_confirmed inp session at_utc = confirmed_end inp session session.mode at_utc >>= λ ends.
    ok
      (record (decision none none (
        Action.persist_state PersistTag.on_confirmed
        ∷ (if is_some session.pending_termination_reason
            then []
            else Action.arm_timer ends.1 ends.0 ∷ []))) {
              session = some (record session {
                pulse_confirmed_at_utc = some at_utc;
                pulse_ends_at_utc = some ends.0;
              });
            })

-- An older report can never shorten the deadline.
abbrev pub is_older : ℕ → Option ℕ → Bool
is_older new_fresh none = false
is_older new_fresh (some current) = ltb new_fresh current

-- T56, for a report with the freshness deadline `new_fresh`.
unfoldable pub extend_watchdog : SessionContext → ℕ → Decision
extend_watchdog session new_fresh =
    if is_older new_fresh session.sensor_fresh_until_utc
    then no_op
    else (let generation = session.sensor_freshness_watchdog_generation + 1 in
        record (decision (some Row.t56) (some ControllerState.watering) (
          Action.arm_watchdog (record { generation = generation; deadline_utc = new_fresh })
          ∷ [])) {
            session = some (record session {
              sensor_fresh_until_utc = some new_fresh;
              sensor_freshness_watchdog_generation = generation;
            });
          })

unfoldable pub watering_report :
    TransitionInput
    → SessionContext
    → MoistureObservation
    → MoistureClassification
    → Result Decision
unfolding extend_watchdog commit_termination
watering_report inp session obs MoistureClassification.valid = do
  reported_at ← or_raise obs.reported_at_utc assertion_error
  ok (extend_watchdog session (reported_at + seconds inp.config.sensor_max_age_s))
watering_report inp session obs MoistureClassification.invalid =
    ok (
      commit_termination session CompletionReason.sensor_fault (some FaultCode.sensor_invalid)
        false)
watering_report inp session obs MoistureClassification.unavailable = ok (
    commit_termination session CompletionReason.sensor_fault (some FaultCode.sensor_unavailable)
      false)
watering_report inp session obs MoistureClassification.stale = ok no_op

unfoldable pub watering_moisture :
    TransitionInput → SessionContext → SessionMode → MoistureObservation → Result Decision
unfolding watering_report
watering_moisture inp session SessionMode.manual obs =
    ok (decision (some Row.t12) (some ControllerState.watering) [])
watering_moisture inp session SessionMode.auto obs =
    if is_some session.pending_termination_reason
    then ok no_op
    else watering_report inp session obs obs.classification

abbrev is_armed : Option WatchdogToken → WatchdogToken → Bool
is_armed none token = false
is_armed (some armed) token = token_eq token armed

-- Steps 5 and 6 of the watchdog callback.
abbrev watchdog_expiry : TransitionInput → SessionContext → ℕ → Decision
watchdog_expiry inp session fresh_until =
    if ltb inp.now_utc fresh_until
    then decision none none (
        Action.arm_watchdog (record {
          generation = session.sensor_freshness_watchdog_generation;
          deadline_utc = fresh_until;
        })
        ∷ [])
    else commit_termination session CompletionReason.sensor_fault (some FaultCode.sensor_stale)
        false

unfoldable pub on_watchdog_fired :
    TransitionInput → SessionContext → WatchdogToken → Result Decision
unfolding commit_termination
on_watchdog_fired inp session token =
    if is_auto session.mode
      && (not (is_some session.pending_termination_reason) && is_armed inp.armed_watchdog token)
    then (or_raise session.sensor_fresh_until_utc assertion_error >>= λ fresh_until.
        ok (watchdog_expiry inp session fresh_until))
    else ok no_op

abbrev estimation_of : ActuatorFinding → RuntimeEstimationReason
estimation_of ActuatorFinding.on = RuntimeEstimationReason.restart_found_on
estimation_of _ = RuntimeEstimationReason.off_unconfirmed

-- A restart found a session in WATERING: it is never resumed.
unfoldable pub on_startup_persisted_watering :
    TransitionInput → SessionContext → ActuatorFinding → Result Decision
unfolding finalize_watering
on_startup_persisted_watering inp session ActuatorFinding.off =
    finalize_watering inp
      (record session {
        pending_termination_reason = some CompletionReason.restart_recovery;
        runtime_estimated = true;
        runtime_estimation_reason = RuntimeEstimationReason.restart_found_off_unknown_stop;
      })
      CompletionReason.restart_recovery inp.now_utc []
on_startup_persisted_watering inp session finding =
    ok
      (record (decision none none (
        Action.persist_state PersistTag.restart_recovery
        ∷ Action.add_blocker BlockerReason.integration_off_unconfirmed
        ∷ Action.execute_off true
        ∷ [])) {
          session = some (record session {
            pending_termination_reason = some CompletionReason.restart_recovery;
            runtime_estimated = true;
            runtime_estimation_reason = estimation_of finding;
          });
        })

-- The first terminal request owns the reason; a later one changes nothing.
abbrev commit_first : SessionContext → CompletionReason → Option FaultCode → Bool → Decision
commit_first session reason fault defensive =
    if is_some session.pending_termination_reason
    then no_op
    else commit_termination session reason fault defensive

-- OFF evidence for the committed reason, or for none.
abbrev pub external_off :
    TransitionInput → SessionContext → Option CompletionReason → ℕ → Result Decision
external_off inp session (some pending) at_utc = finalize_watering inp session pending at_utc []
external_off inp session none at_utc =
    finalize_watering inp session CompletionReason.external_actuator_state_change at_utc
      (Action.execute_off true ∷ [])

abbrev pub uncommitted_off : TransitionInput → SessionContext → SessionMode → ℕ → Result Decision
uncommitted_off inp session SessionMode.auto at_utc = ok (pulse_off_to_soaking inp session at_utc)
uncommitted_off inp session SessionMode.manual at_utc =
    finalize_watering inp session CompletionReason.manual_complete at_utc []

abbrev pub confirmed_off :
    TransitionInput → SessionContext → Option CompletionReason → ℕ → Result Decision
confirmed_off inp session (some pending) at_utc = finalize_watering inp session pending at_utc []
confirmed_off inp session none at_utc = uncommitted_off inp session session.mode at_utc

unfoldable pub watering_on : TransitionInput → SessionContext → ControllerEvent → Result Decision
unfolding on_on_confirmed watering_moisture on_watchdog_fired on_startup_persisted_watering
    commit_termination finalize_watering pulse_off_to_soaking off_not_confirmed
watering_on inp session (ControllerEvent.on_confirmed at_utc) = on_on_confirmed inp session at_utc
watering_on inp session ControllerEvent.on_confirm_timeout = ok (
    if is_some session.pending_termination_reason || is_some session.pulse_confirmed_at_utc
    then no_op
    else commit_termination session CompletionReason.actuator_fault
        (some FaultCode.actuator_on_timeout) true)
watering_on inp session ControllerEvent.pulse_deadline_reached = ok (
    if is_auto session.mode && not (is_some session.pending_termination_reason)
    then decision none none (Action.execute_off false ∷ [])
    else no_op)
watering_on inp session ControllerEvent.manual_deadline_reached = ok (
    if not (is_auto session.mode) && not (is_some session.pending_termination_reason)
    then commit_termination session CompletionReason.manual_complete none false
    else no_op)
watering_on inp session (ControllerEvent.moisture_report obs) =
    watering_moisture inp session session.mode obs
watering_on inp session (ControllerEvent.watchdog_fired token) = on_watchdog_fired inp session token
watering_on inp session ControllerEvent.stop_requested =
    ok (commit_first session CompletionReason.user_stop none false)
watering_on inp session ControllerEvent.disable_requested =
    ok (commit_first session CompletionReason.zone_disabled none false)
watering_on inp session ControllerEvent.home_assistant_shutdown =
    ok (commit_first session CompletionReason.home_assistant_shutdown none false)
watering_on inp session ControllerEvent.config_entry_reload =
    ok (commit_first session CompletionReason.config_reload none false)
watering_on inp session ControllerEvent.config_changed_prepare =
    ok (commit_first session CompletionReason.config_changed none false)
watering_on inp session ControllerEvent.actuator_became_unavailable = ok (
    commit_first session CompletionReason.actuator_fault (some FaultCode.actuator_unavailable) true)
watering_on inp session (ControllerEvent.external_actuator_off at_utc) =
    external_off inp session session.pending_termination_reason at_utc
watering_on inp session (ControllerEvent.off_confirmed at_utc) =
    confirmed_off inp session session.pending_termination_reason at_utc
watering_on inp session ControllerEvent.off_not_confirmed = ok (off_not_confirmed inp session)
watering_on inp session (ControllerEvent.startup_persisted_watering finding) =
    on_startup_persisted_watering inp session finding
watering_on inp session (ControllerEvent.manual_start_requested _) =
    ok (refused Guard.active_session)
watering_on inp session _ = ok no_op
