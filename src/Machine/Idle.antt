-- ===== src/Machine/Idle.antt =====
-- The cross-state rows and the IDLE and DISABLED handlers of state_machine.py.
use moisture_loop.Base.{
  ℕ, true, false, Option, none, some, List, [], ◌∷◌, if◌then◌else◌, Result, ok,
}
use moisture_loop.Model.Enums.{ControllerState, FaultCode, BlockerReason}
use moisture_loop.Model.Session.{SessionContext}
use moisture_loop.Model.Event.{ControllerEvent, Action, PersistTag}
use moisture_loop.Model.Decision.{TransitionInput, Decision, decision, Guard, Row, refusal}
use moisture_loop.Machine.Guards.{no_op}
use moisture_loop.Machine.Auto.{evaluate_auto_start}
use moisture_loop.Machine.Manual.{ManualRow, manual_start}
use moisture_loop.Machine.Finalize.{close_open_accounting}

unfoldable pub integrity_lost : TransitionInput → Decision
integrity_lost inp =
    record (decision (some Row.t52) (some ControllerState.fault) (
      Action.persist_state PersistTag.integrity_reconstruction
      ∷ Action.emit_fault_set FaultCode.restored_from_unsafe_state inp.active_fault
      ∷ [])) { fault = some FaultCode.restored_from_unsafe_state }

unfoldable pub on_configuration_invalid : TransitionInput → Row → Decision
on_configuration_invalid inp row =
    record (decision (some row) (some ControllerState.fault) (
      Action.persist_state PersistTag.configuration_invalid
      ∷ Action.emit_fault_set FaultCode.configuration_invalid inp.active_fault
      ∷ [])) { fault = some FaultCode.configuration_invalid }

-- `SetExternalOn` with the matching change of the EXTERNAL_FLOW blocker.
abbrev pub occupy : List Action
occupy = Action.set_external_on true ∷ Action.add_blocker BlockerReason.external_flow ∷ []

abbrev pub vacate : List Action
vacate = Action.set_external_on false ∷ Action.remove_blocker BlockerReason.external_flow ∷ []

-- T4 and T45 share these actions.
abbrev pub disable_actions : List Action
disable_actions = Action.persist_state PersistTag.disabled ∷ Action.release_slot ∷ []

unfoldable pub idle_on : TransitionInput → ControllerEvent → Result Decision
unfolding evaluate_auto_start manual_start on_configuration_invalid
idle_on inp ControllerEvent.auto_evaluate = evaluate_auto_start inp
idle_on inp (ControllerEvent.moisture_report _) = evaluate_auto_start inp
idle_on inp ControllerEvent.slot_granted = evaluate_auto_start inp
idle_on inp (ControllerEvent.manual_start_requested requested) =
    manual_start inp requested ManualRow.t3
idle_on inp ControllerEvent.disable_requested =
    ok (decision (some Row.t4) (some ControllerState.disabled) disable_actions)
idle_on inp (ControllerEvent.configuration_invalid _) = ok (on_configuration_invalid inp Row.t5)
idle_on inp ControllerEvent.external_actuator_on =
    ok (
      if inp.external_on then no_op else decision (some Row.t54) (some ControllerState.idle) occupy)
idle_on inp (ControllerEvent.external_actuator_off _) =
    ok (
      if inp.external_on then decision (some Row.t58) (some ControllerState.idle) vacate else no_op)
idle_on inp _ = ok no_op

-- Delayed OFF proof for a session kept across Disable or a fault; nothing without one.
abbrev pub close_if_open : TransitionInput → Option SessionContext → ℕ → Result Decision
close_if_open inp none off_at = ok no_op
close_if_open inp (some session) off_at = close_open_accounting inp session off_at

abbrev enable_decision : TransitionInput → Option FaultCode → Decision
enable_decision inp none =
    decision (some Row.t47) (some ControllerState.idle)
      (Action.persist_state PersistTag.enabled ∷ Action.schedule_evaluation ∷ [])
enable_decision inp (some fault) =
    record (decision (some Row.t46) (some ControllerState.fault)
      (Action.persist_state PersistTag.enabled ∷ [])) { fault = some fault }

-- A manual request that the state refuses by itself.
abbrev pub refused : Guard → Decision
refused guard = record (decision none none []) { guard_result = refusal (guard ∷ []) }

unfoldable pub disabled_on : TransitionInput → ControllerEvent → Result Decision
unfolding close_open_accounting
disabled_on inp ControllerEvent.enable_requested = ok (enable_decision inp inp.active_fault)
disabled_on inp ControllerEvent.external_actuator_on = ok (
    if inp.external_on
    then no_op
    else decision (some Row.t55) (some ControllerState.disabled) occupy)
disabled_on inp (ControllerEvent.external_actuator_off at_utc) =
    if inp.external_on
    then ok (decision (some Row.t59) (some ControllerState.disabled) vacate)
    else close_if_open inp inp.session at_utc
disabled_on inp (ControllerEvent.off_confirmed at_utc) = close_if_open inp inp.session at_utc
disabled_on inp (ControllerEvent.manual_start_requested _) = ok (refused Guard.enabled)
disabled_on inp _ = ok no_op
