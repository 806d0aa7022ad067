-- ===== src/Machine/Soaking.antt =====
-- The SOAKING handlers of state_machine.py.
mod Ends
pub use Ends.*
use moisture_loop.Base.{
  ℕ, Bool, true, false, ◌&&◌, not, Option, none, some, List, [], ◌∷◌, ltb, leb, if◌then◌else◌,
  Result, ok, value_error, assertion_error, or_raise, ◌>>=◌, String,
}
use moisture_loop.Model.Enums.{
  ControllerState, MoistureClassification, FaultCode, CompletionReason, RuntimeEstimationReason,
  BlockerReason, TimerKind,
}
use moisture_loop.Model.Observation.{MoistureObservation}
use moisture_loop.Model.Session.{SessionContext}
use moisture_loop.Model.Event.{ControllerEvent, Action, PersistTag}
use moisture_loop.Model.Decision.{TransitionInput, Decision, decision, Guard, Row, refusal}
use moisture_loop.Machine.Guards.{daily_fits, session_fits, post_qualifies, no_op}
use moisture_loop.Machine.Auto.{start_auto_pulse, slot_wait}
use moisture_loop.Machine.Finalize.{close_runtime}
use moisture_loop.Machine.Idle.{refused}

-- The resource test of a recheck that wants the next pulse.
abbrev pulse_possible : TransitionInput → Bool
pulse_possible inp =
    inp.resource.slot_granted && (inp.resource.blockers_empty && inp.actuator.proven_off)

-- The part of a recheck below the budget tests: T32, the slot wait or T25.
unfoldable pub recheck_pulse : TransitionInput → SessionContext → Result Decision
unfolding finalize_soaking_fault start_auto_pulse
recheck_pulse inp updated =
    if inp.actuator.available
    then (if pulse_possible inp
        then start_auto_pulse inp (some updated)
        else ok (record slot_wait { session = some updated }))
    else ok (
        finalize_soaking_fault updated Row.t32 CompletionReason.actuator_fault
          FaultCode.actuator_unavailable)

-- A recheck with the reading `value`: T24, T26, T27 or T28, or the next pulse.
unfoldable pub recheck_value : TransitionInput → SessionContext → ℕ → Result Decision
unfolding finalize_soaking_completion recheck_pulse
recheck_value inp updated value =
    if leb inp.config.target_threshold value
    then ok (finalize_soaking_completion inp updated Row.t24 CompletionReason.target_reached)
    else if not (ltb updated.cycle inp.config.max_cycles)
    then ok (finalize_soaking_completion inp updated Row.t26 CompletionReason.max_cycles)
    else if not (session_fits inp updated)
    then ok (finalize_soaking_completion inp updated Row.t27 CompletionReason.max_session_runtime)
    else if not (daily_fits inp)
    then ok (finalize_soaking_completion inp updated Row.t28 CompletionReason.daily_runtime_limit)
    else recheck_pulse inp updated

unfoldable pub soaking_recheck : TransitionInput → SessionContext → Result Decision
unfolding recheck_value
soaking_recheck inp session = do
  value ← or_raise inp.observation.value assertion_error
  recheck_value inp (record session { last_recheck_value = some value }) value

-- `obs.reported_at_utc if obs.reported_at_utc is not None else inp.now_utc`
abbrev pub effective_at : TransitionInput → MoistureObservation → ℕ
effective_at inp obs = elim obs.reported_at_utc [ none ↦ inp.now_utc | some at ↦ at ]

-- A report at or after the soak deadline.
unfoldable pub late_report :
    TransitionInput → SessionContext → MoistureClassification → Result Decision
unfolding finalize_soaking_fault
late_report inp session MoistureClassification.invalid =
    ok (
      finalize_soaking_fault session Row.t29 CompletionReason.sensor_fault FaultCode.sensor_invalid)
late_report inp session MoistureClassification.unavailable = ok (
    finalize_soaking_fault session Row.t30 CompletionReason.sensor_fault
      FaultCode.sensor_unavailable)
late_report inp session _ = if post_qualifies inp then soaking_recheck inp session else ok no_op

unfoldable pub soaking_moisture :
    TransitionInput → SessionContext → MoistureObservation → Result Decision
unfolding late_report
soaking_moisture inp session obs =
    or_raise session.soak_ends_at_utc assertion_error >>= λ soak_ends.
    if ltb (effective_at inp obs) soak_ends
    then ok (decision (some Row.t22) (some ControllerState.soaking) [])
    else late_report inp session obs.classification

-- What a trigger does when the reading does not qualify: only the soak deadline arms the grace
-- wait (T23), and an offered grant is declined.
unfoldable pub unqualified_trigger : SessionContext → ControllerEvent → Result Decision
unqualified_trigger session ControllerEvent.slot_granted =
    ok (record (decision none none (Action.release_slot ∷ [])) {
      guard_result = refusal (Guard.post ∷ []);
    })
unqualified_trigger session ControllerEvent.soak_deadline_reached = do
  deadline ← or_raise session.recheck_grace_deadline_at_utc assertion_error
  ok (
      decision (some Row.t23) (some ControllerState.soaking)
        (Action.arm_timer TimerKind.grace deadline ∷ []))
unqualified_trigger session _ = ok no_op

unfoldable pub soaking_deadline_or_evaluate :
    TransitionInput → SessionContext → ControllerEvent → Result Decision
unfolding unqualified_trigger
soaking_deadline_or_evaluate inp session event =
    or_raise session.soak_ends_at_utc assertion_error >>= λ soak_ends.
    if ltb inp.now_utc soak_ends
    then ok no_op
    else if post_qualifies inp
    then soaking_recheck inp session
    else unqualified_trigger session event

-- The fault of a grace deadline that no qualifying report has met.
unfoldable pub grace_fault :
    TransitionInput → SessionContext → ℕ → MoistureClassification → Decision
unfolding finalize_soaking_fault
grace_fault inp session soak_ends MoistureClassification.invalid =
    if leb soak_ends (effective_at inp inp.observation)
    then finalize_soaking_fault session Row.t29 CompletionReason.sensor_fault
        FaultCode.sensor_invalid
    else finalize_soaking_fault session Row.t31 CompletionReason.sensor_fault FaultCode.sensor_stale
grace_fault inp session soak_ends MoistureClassification.unavailable =
    finalize_soaking_fault session Row.t30 CompletionReason.sensor_fault
      FaultCode.sensor_unavailable
grace_fault inp session soak_ends _ =
    finalize_soaking_fault session Row.t31 CompletionReason.sensor_fault FaultCode.sensor_stale

unfoldable pub soaking_grace : TransitionInput → SessionContext → Result Decision
unfolding grace_fault
soaking_grace inp session =
    if post_qualifies inp
    then soaking_recheck inp session
    else (or_raise session.soak_ends_at_utc assertion_error >>= λ soak_ends.
        ok (grace_fault inp session soak_ends inp.observation.classification))

-- The timers of an adopted soak.
abbrev adopted_timers : TransitionInput → ℕ → ℕ → List Action
adopted_timers inp soak_ends deadline =
    if ltb inp.now_utc soak_ends
    then Action.arm_timer TimerKind.soak_end soak_ends ∷ []
    else if ltb inp.now_utc deadline
    then Action.arm_timer TimerKind.grace deadline ∷ []
    else []

-- T50: a trusted soak goes on under the new run.
unfoldable pub adopt_soaking : TransitionInput → SessionContext → Option String → Result Decision
adopt_soaking inp session current_run_id = do
  run_id ← or_raise current_run_id value_error
  soak_ends ← or_raise session.soak_ends_at_utc assertion_error
  deadline ← or_raise session.recheck_grace_deadline_at_utc assertion_error
  ok
      (record (decision (some Row.t50) (some ControllerState.soaking) (
        Action.persist_state PersistTag.soaking_owner_rebase
        ∷ adopted_timers inp soak_ends deadline)) {
          session = some (record session { owner_run_id = run_id });
        })

-- T51: an untrusted soak ends, in FAULT where the termination is unsafe.
unfoldable pub reject_soaking : TransitionInput → SessionContext → Option FaultCode → Decision
reject_soaking inp session (some unsafe_fault) =
    record (ended Row.t51 ControllerState.fault
      (Action.persist_state PersistTag.session_finalized
        ∷ Action.emit_fault_set unsafe_fault inp.active_fault
        ∷ Action.emit_session_finished
        ∷ [])
      CompletionReason.restart_recovery session) { fault = some unsafe_fault }
reject_soaking inp session none =
    ended Row.t51 (resting inp)
      (Action.persist_state PersistTag.session_finalized ∷ Action.emit_session_finished ∷ [])
      CompletionReason.restart_recovery session

unfoldable pub on_startup_persisted_soaking :
    TransitionInput → SessionContext → Bool → Option String → Option FaultCode → Result Decision
unfolding adopt_soaking reject_soaking
on_startup_persisted_soaking inp session true current_run_id unsafe_fault =
    adopt_soaking inp session current_run_id
on_startup_persisted_soaking inp session false current_run_id unsafe_fault =
    ok (reject_soaking inp session unsafe_fault)

-- External flow during a soak: the interference is committed, and OFF evidence ends the session.
unfoldable pub commit_interference : SessionContext → Decision
commit_interference session =
    record (decision none none (
      Action.persist_state PersistTag.external_interference
      ∷ Action.add_blocker BlockerReason.integration_off_unconfirmed
      ∷ Action.execute_off true
      ∷ [])) {
        session = some (record session {
          pending_termination_reason = some CompletionReason.external_actuator_state_change;
          last_recheck_value = none;
        });
      }

-- With a termination committed only OFF evidence advances the session.
unfoldable pub soaking_pending_on :
    TransitionInput → SessionContext → ControllerEvent → Result Decision
unfolding finalize_soaking_external soaking_off_not_confirmed
soaking_pending_on inp session (ControllerEvent.off_confirmed at) =
    ok (finalize_soaking_external inp session at)
soaking_pending_on inp session (ControllerEvent.external_actuator_off at) =
    ok (finalize_soaking_external inp session at)
soaking_pending_on inp session ControllerEvent.off_not_confirmed =
    ok (soaking_off_not_confirmed inp session)
soaking_pending_on inp session _ = ok no_op

unfoldable pub soaking_open_on :
    TransitionInput → SessionContext → ControllerEvent → Result Decision
unfolding soaking_moisture soaking_deadline_or_evaluate soaking_grace finalize_soaking_fault
    finalize_soaking_cancel commit_interference on_startup_persisted_soaking
soaking_open_on inp session (ControllerEvent.moisture_report obs) = soaking_moisture inp session obs
soaking_open_on inp session ControllerEvent.soak_deadline_reached =
    soaking_deadline_or_evaluate inp session ControllerEvent.soak_deadline_reached
soaking_open_on inp session ControllerEvent.auto_evaluate =
    soaking_deadline_or_evaluate inp session ControllerEvent.auto_evaluate
soaking_open_on inp session ControllerEvent.slot_granted =
    soaking_deadline_or_evaluate inp session ControllerEvent.slot_granted
soaking_open_on inp session ControllerEvent.grace_deadline_reached = soaking_grace inp session
soaking_open_on inp session ControllerEvent.actuator_became_unavailable = ok (
    finalize_soaking_fault session Row.t32 CompletionReason.actuator_fault
      FaultCode.actuator_unavailable)
soaking_open_on inp session ControllerEvent.external_actuator_on = ok (commit_interference session)
soaking_open_on inp session ControllerEvent.stop_requested =
    ok (finalize_soaking_cancel session Row.t35 CompletionReason.user_stop ControllerState.idle)
soaking_open_on inp session ControllerEvent.disable_requested = ok (
    finalize_soaking_cancel session Row.t36 CompletionReason.zone_disabled ControllerState.disabled)
soaking_open_on inp session ControllerEvent.home_assistant_shutdown = ok (
    decision (some Row.t37) (some ControllerState.soaking)
      (Action.persist_state PersistTag.soaking_preserved ∷ []))
soaking_open_on inp session ControllerEvent.config_entry_reload =
    ok (finalize_soaking_cancel session Row.t38 CompletionReason.config_reload ControllerState.idle)
soaking_open_on inp session ControllerEvent.config_changed_prepare =
    ok
      (finalize_soaking_cancel session Row.t39 CompletionReason.config_changed ControllerState.idle)
soaking_open_on inp session
      (ControllerEvent.startup_persisted_soaking trusted run_id unsafe_fault) =
    on_startup_persisted_soaking inp session trusted run_id unsafe_fault
soaking_open_on inp session (ControllerEvent.manual_start_requested _) =
    ok (refused Guard.active_session)
soaking_open_on inp session _ = ok no_op

unfoldable pub soaking_on :
    TransitionInput → SessionContext → Option CompletionReason → Result Decision
unfolding soaking_pending_on soaking_open_on
soaking_on inp session none = soaking_open_on inp session inp.event
soaking_on inp session (some _) = soaking_pending_on inp session inp.event
