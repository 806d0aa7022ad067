-- ===== src/Machine/Fault.antt =====
-- The FAULT handlers of state_machine.py.
use moisture_loop.Base.{
  ℕ, Bool, true, ◌&&◌, not, Option, none, some, [], ◌∷◌, is_some, if◌then◌else◌, Result, ok,
}
use moisture_loop.Model.Enums.{
  ControllerState, FaultCode, is_sensor_only, auto_clears, requires_reconfigure,
}
use moisture_loop.Model.Session.{SessionContext}
use moisture_loop.Model.Event.{ControllerEvent, Action, PersistTag}
use moisture_loop.Model.Decision.{TransitionInput, Decision, decision, Guard, Row, refusal}
use moisture_loop.Machine.Guards.{fresh_valid, actuator_ready, no_op}
use moisture_loop.Machine.Manual.{ManualRow, manual_start}
use moisture_loop.Machine.Finalize.{close_open_accounting}
use moisture_loop.Machine.Idle.{
  on_configuration_invalid, occupy, vacate, disable_actions, close_if_open,
}

-- A sensor fault resolves on a fresh valid reading, any other on proven OFF.
unfoldable pub fault_resolved : TransitionInput → FaultCode → Bool
fault_resolved inp fault = if is_sensor_only fault then fresh_valid inp else actuator_ready inp

-- T42 and T43 share everything but the row.
abbrev cleared : Row → FaultCode → Decision
cleared row fault =
    record (decision (some row) (some ControllerState.idle)
      (Action.persist_state PersistTag.fault_cleared ∷ Action.emit_fault_cleared fault ∷ [])) {
        clear_fault = true;
      }

unfoldable pub fault_auto_clear_check : TransitionInput → Option FaultCode → Decision
unfolding fault_resolved
fault_auto_clear_check inp none = no_op
fault_auto_clear_check inp (some fault) =
    if auto_clears fault && (not (is_some inp.session) && fault_resolved inp fault)
    then cleared Row.t42 fault
    else no_op

abbrev still_faulted : Guard → Decision
still_faulted guard = record (decision (some Row.t44) (some ControllerState.fault) []) {
  guard_result = refusal (guard ∷ []);
}

unfoldable pub on_clear_fault_request : TransitionInput → Option FaultCode → Decision
unfolding fault_resolved
on_clear_fault_request inp none = no_op
on_clear_fault_request inp (some fault) =
    if requires_reconfigure fault
    then still_faulted Guard.fault_requires_reconfigure
    else if fault_resolved inp fault
    then cleared Row.t43 fault
    else still_faulted Guard.fault_condition_unresolved

abbrev fault_external_off : TransitionInput → Option SessionContext → ℕ → Result Decision
fault_external_off inp (some session) at_utc = close_open_accounting inp session at_utc
fault_external_off inp none at_utc = ok (
    if inp.external_on
    then decision none none vacate
    else fault_auto_clear_check inp inp.active_fault)

abbrev fault_configuration_invalid : TransitionInput → Option FaultCode → Decision
fault_configuration_invalid inp (some FaultCode.configuration_invalid) = no_op
fault_configuration_invalid inp _ = on_configuration_invalid inp Row.t5

unfoldable pub fault_on : TransitionInput → ControllerEvent → Result Decision
unfolding manual_start fault_auto_clear_check close_open_accounting on_clear_fault_request
    on_configuration_invalid
fault_on inp (ControllerEvent.manual_start_requested requested) =
    manual_start inp requested ManualRow.t40
fault_on inp (ControllerEvent.moisture_report _) = ok (fault_auto_clear_check inp inp.active_fault)
fault_on inp (ControllerEvent.external_actuator_off at_utc) =
    fault_external_off inp inp.session at_utc
fault_on inp (ControllerEvent.off_confirmed at_utc) = close_if_open inp inp.session at_utc
fault_on inp ControllerEvent.external_actuator_on =
    ok (if inp.external_on then no_op else decision none none occupy)
fault_on inp ControllerEvent.clear_fault_requested =
    ok (on_clear_fault_request inp inp.active_fault)
fault_on inp ControllerEvent.disable_requested =
    ok (decision (some Row.t45) (some ControllerState.disabled) disable_actions)
fault_on inp (ControllerEvent.configuration_invalid _) =
    ok (fault_configuration_invalid inp inp.active_fault)
fault_on inp _ = ok no_op
