-- ===== src/Machine/Soaking/Ends.antt =====
-- How a soak ends, by the `_finalize_soaking` functions of state_machine.py.
use moisture_loop.Base.{ℕ, true, some, List, [], ◌∷◌, if◌then◌else◌}
use moisture_loop.Model.Enums.{
  ControllerState, FaultCode, CompletionReason, RuntimeEstimationReason, BlockerReason,
}
use moisture_loop.Model.Session.{SessionContext}
use moisture_loop.Model.Event.{Action, PersistTag}
use moisture_loop.Model.Decision.{TransitionInput, Decision, decision, Row}
use moisture_loop.Machine.Finalize.{close_runtime}

-- A session that ends: the destination, the closing actions and the reason.
abbrev pub ended :
    Row → ControllerState → List Action → CompletionReason → SessionContext → Decision
ended row destination actions reason session =
    record (decision (some row) (some destination) actions) {
      reason = some reason;
      clear_session = true;
      final_session = some session;
    }

-- `IDLE if inp.enabled else DISABLED`
abbrev pub resting : TransitionInput → ControllerState
resting inp = if inp.enabled then ControllerState.idle else ControllerState.disabled

unfoldable pub finalize_soaking_completion :
    TransitionInput → SessionContext → Row → CompletionReason → Decision
finalize_soaking_completion inp session row reason =
    ended row (resting inp)
      (Action.persist_state PersistTag.session_finalized
        ∷ Action.release_slot
        ∷ Action.emit_session_finished
        ∷ [])
      reason session

unfoldable pub finalize_soaking_fault :
    SessionContext → Row → CompletionReason → FaultCode → Decision
finalize_soaking_fault session row reason fault =
    record (ended row ControllerState.fault
      (Action.persist_state PersistTag.session_finalized
        ∷ Action.emit_fault_set fault session.retained_sensor_fault
        ∷ Action.release_slot
        ∷ Action.emit_session_finished
        ∷ [])
      reason session) { fault = some fault }

unfoldable pub finalize_soaking_cancel :
    SessionContext → Row → CompletionReason → ControllerState → Decision
finalize_soaking_cancel session row reason destination =
    ended row destination
      (Action.persist_state PersistTag.session_finalized
        ∷ Action.execute_off true
        ∷ Action.release_slot
        ∷ Action.emit_session_finished
        ∷ [])
      reason session

-- T33.
unfoldable pub finalize_soaking_external : TransitionInput → SessionContext → ℕ → Decision
unfolding close_runtime
finalize_soaking_external inp session off_at =
    ended Row.t33 (resting inp)
      (Action.persist_state PersistTag.session_finalized
        ∷ Action.remove_blocker BlockerReason.integration_off_unconfirmed
        ∷ Action.release_slot
        ∷ Action.emit_session_finished
        ∷ [])
      CompletionReason.external_actuator_state_change
      (close_runtime session off_at CompletionReason.external_actuator_state_change)

-- T34.
unfoldable pub soaking_off_not_confirmed : TransitionInput → SessionContext → Decision
soaking_off_not_confirmed inp session =
    record (decision (some Row.t34) (some ControllerState.fault) (
      Action.persist_state PersistTag.off_unconfirmed
      ∷ Action.emit_fault_set FaultCode.actuator_off_timeout inp.active_fault
      ∷ [])) {
        reason = some CompletionReason.actuator_fault;
        fault = some FaultCode.actuator_off_timeout;
        secondary_fault = session.retained_sensor_fault;
        session = some (record session {
          pending_termination_reason = some CompletionReason.actuator_fault;
          runtime_estimated = true;
          runtime_estimation_reason = RuntimeEstimationReason.off_unconfirmed;
        });
      }
