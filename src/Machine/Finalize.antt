-- ===== src/Machine/Finalize.antt =====
-- How a session ends in state_machine.py: the committed termination, the closed accounting, the
-- destination and the rows of the WATERING exits.
use moisture_loop.Base.{
  ℕ, ◌+◌, ◌-◌, Bool, true, false, Option, none, some, List, [], ◌∷◌, ◌++◌, if◌then◌else◌, Result,
  ok, raised, assertion_error, key_error, or_raise, ◌>>=◌, ite,
}
use moisture_loop.Model.Enums.{
  ControllerState, FaultCode, FaultCode-discrete, CompletionReason, RuntimeEstimationReason,
  BlockerReason, TimerKind,
}
use moisture_loop.Model.Observation.{seconds}
use moisture_loop.Model.Session.{SessionContext}
use moisture_loop.Model.Event.{Action, PersistTag}
use moisture_loop.Model.Decision.{TransitionInput, Decision, decision, Row}
use moisture_loop.Machine.Guards.{fresh_valid}

-- `EmitFaultSet` where a termination is committed with a fault.
abbrev fault_set : Option FaultCode → Option FaultCode → List Action
fault_set none replaces = []
fault_set (some fault) replaces = Action.emit_fault_set fault replaces ∷ []

unfoldable pub commit_termination :
    SessionContext → CompletionReason → Option FaultCode → Bool → Decision
commit_termination session reason fault defensive =
    record (decision none none (
      Action.persist_state PersistTag.termination_committed
      ∷ (fault_set fault session.retained_sensor_fault ++ Action.execute_off defensive ∷ []))) {
        fault = fault;
        session = some (record session { pending_termination_reason = some reason });
      }

abbrev accounting_anchor : SessionContext → CompletionReason → Option ℕ
accounting_anchor session CompletionReason.restart_recovery = session.pulse_intent_at_utc
accounting_anchor session _ = session.pulse_commanded_at_utc

-- `max(0.0, off_at - anchor)`, and 0 without an anchor.
abbrev pub interval : Option ℕ → ℕ → ℕ
interval none off_at = 0
interval (some anchor) off_at = off_at - anchor

unfoldable pub close_runtime : SessionContext → ℕ → CompletionReason → SessionContext
close_runtime session off_at reason = record session {
  off_confirmed_at_utc = some off_at;
  session_runtime_s =
      session.session_runtime_s + interval (accounting_anchor session reason) off_at;
}

-- `inp.active_fault if inp.active_fault is not retained else None`
abbrev pub new_fault : Option FaultCode → Option FaultCode → Option FaultCode
new_fault none retained = none
new_fault (some fault) none = some fault
new_fault (some fault) (some retained) = ite (FaultCode-discrete fault retained) none (some fault)

pub record Destination : Type 0 where
  pub state : ControllerState
  pub fault : Option FaultCode
  pub clear_actions : List Action
  pub clear_fault : Bool

abbrev to_state : ControllerState → Option FaultCode → Destination
to_state state fault = record {
  state = state;
  fault = fault;
  clear_actions = [];
  clear_fault = false;
}

abbrev retained_destination : TransitionInput → Option FaultCode → Destination
retained_destination inp none = to_state ControllerState.idle none
retained_destination inp (some retained) =
    if fresh_valid inp
    then record {
      state = ControllerState.idle;
      fault = none;
      clear_actions = Action.emit_fault_cleared retained ∷ [];
      clear_fault = true;
    }
    else to_state ControllerState.fault (some retained)

abbrev new_fault_destination : TransitionInput → Option FaultCode → Option FaultCode → Destination
new_fault_destination inp (some fault) retained = to_state ControllerState.fault (some fault)
new_fault_destination inp none retained = retained_destination inp retained

abbrev fault_destination : TransitionInput → Destination
fault_destination inp =
    to_state (if inp.enabled then ControllerState.fault else ControllerState.disabled)
      inp.active_fault

unfoldable pub post_destination : TransitionInput → SessionContext → CompletionReason → Destination
post_destination inp closed CompletionReason.zone_disabled = to_state ControllerState.disabled none
post_destination inp closed CompletionReason.sensor_fault = fault_destination inp
post_destination inp closed CompletionReason.actuator_fault = fault_destination inp
post_destination inp closed _ =
    if inp.enabled
    then new_fault_destination inp (new_fault inp.active_fault closed.retained_sensor_fault)
        closed.retained_sensor_fault
    else to_state ControllerState.disabled none

-- `_SENSOR_FAULT_ROWS[inp.active_fault]` under its assertion.
unfoldable pub sensor_fault_row : Option FaultCode → Result Row
sensor_fault_row none = raised assertion_error
sensor_fault_row (some FaultCode.sensor_unavailable) = ok Row.t10
sensor_fault_row (some FaultCode.sensor_invalid) = ok Row.t11
sensor_fault_row (some FaultCode.sensor_stale) = ok Row.t57
sensor_fault_row (some _) = raised key_error

abbrev actuator_fault_row : Option FaultCode → Row
actuator_fault_row (some FaultCode.actuator_unavailable) = Row.t13
actuator_fault_row _ = Row.t14

-- The row of a WATERING exit; the last six are `_CANCELLATION_ROWS`.
unfoldable pub finalize_row : TransitionInput → CompletionReason → Result Row
unfolding sensor_fault_row
finalize_row inp CompletionReason.restart_recovery = ok Row.t48
finalize_row inp CompletionReason.sensor_fault = sensor_fault_row inp.active_fault
finalize_row inp CompletionReason.actuator_fault = ok (actuator_fault_row inp.active_fault)
finalize_row inp CompletionReason.user_stop = ok Row.t17
finalize_row inp CompletionReason.zone_disabled = ok Row.t18
finalize_row inp CompletionReason.home_assistant_shutdown = ok Row.t19
finalize_row inp CompletionReason.config_reload = ok Row.t20
finalize_row inp CompletionReason.config_changed = ok Row.t21
finalize_row inp CompletionReason.external_actuator_state_change = ok Row.t16
finalize_row inp _ = raised key_error

abbrev secondary_of : CompletionReason → Option FaultCode → Option FaultCode
secondary_of CompletionReason.actuator_fault retained = retained
secondary_of _ retained = none

-- The actions that every confirmed WATERING exit shares.
abbrev pub closing_actions : List Action → List Action → List Action
closing_actions extra last =
    extra
    ++ (Action.persist_state PersistTag.session_finalized
        ∷ Action.remove_blocker BlockerReason.integration_off_unconfirmed
        ∷ Action.release_slot
        ∷ Action.emit_session_finished
        ∷ last)

-- Where T7, T8 and T9 lead, before Disable overrides it.
abbrev manual_row_to : TransitionInput → Option FaultCode → Row × Destination
manual_row_to inp none = (Row.t7, to_state ControllerState.idle none)
manual_row_to inp (some retained) =
    if fresh_valid inp
    then (
      Row.t9,
      record {
        state = ControllerState.idle;
        fault = none;
        clear_actions = Action.emit_fault_cleared retained ∷ [];
        clear_fault = true;
      },
    )
    else (Row.t8, to_state ControllerState.fault (some retained))

unfoldable pub finalize_manual_complete : TransitionInput → SessionContext → List Action → Decision
finalize_manual_complete inp closed extra =
    let to = manual_row_to inp closed.retained_sensor_fault in
    record (decision (some to.0)
      (some (if inp.enabled then to.1.state else ControllerState.disabled))
      (closing_actions extra to.1.clear_actions)) {
        reason = some CompletionReason.manual_complete;
        fault = to.1.fault;
        clear_fault = to.1.clear_fault;
        clear_session = true;
        final_session = some closed;
      }

-- `_finalize_watering` for a reason other than MANUAL_COMPLETE.
unfoldable pub finalize_committed :
    TransitionInput → SessionContext → CompletionReason → List Action → Result Decision
unfolding finalize_row post_destination
finalize_committed inp closed reason extra = do
  row ← finalize_row inp reason
  let to = post_destination inp closed reason
  ok (record (decision (some row) (some to.state) (closing_actions extra to.clear_actions)) {
    reason = some reason;
    fault = to.fault;
    secondary_fault = secondary_of reason closed.retained_sensor_fault;
    clear_fault = to.clear_fault;
    clear_session = true;
    final_session = some closed;
  })

unfoldable pub finalize_watering :
    TransitionInput → SessionContext → CompletionReason → ℕ → List Action → Result Decision
unfolding close_runtime finalize_manual_complete finalize_committed
finalize_watering inp session CompletionReason.manual_complete off_at extra = ok (
    finalize_manual_complete inp (close_runtime session off_at CompletionReason.manual_complete)
      extra)
finalize_watering inp session reason off_at extra =
    finalize_committed inp (close_runtime session off_at reason) reason extra

-- T6.
unfoldable pub pulse_off_to_soaking : TransitionInput → SessionContext → ℕ → Decision
unfolding close_runtime
pulse_off_to_soaking inp session off_at =
    let soak_ends = off_at + seconds inp.config.soak_duration_s in
    record (decision (some Row.t6) (some ControllerState.soaking) (
      Action.persist_state PersistTag.soaking
      ∷ Action.arm_timer TimerKind.soak_end soak_ends
      ∷ Action.release_slot
      ∷ [])) {
        session = some (record (close_runtime session off_at CompletionReason.target_reached) {
          soak_ends_at_utc = some soak_ends;
          recheck_not_before_utc = some soak_ends;
          recheck_grace_deadline_at_utc = some (soak_ends + seconds inp.config.sensor_max_age_s);
        });
      }

-- The row and the reason of an OFF that stays unproven: T49 in recovery, T15 otherwise.
abbrev unconfirmed_row : Option CompletionReason → Row
unconfirmed_row (some CompletionReason.restart_recovery) = Row.t49
unconfirmed_row _ = Row.t15

abbrev pub unconfirmed_reason : Option CompletionReason → CompletionReason
unconfirmed_reason (some CompletionReason.restart_recovery) = CompletionReason.restart_recovery
unconfirmed_reason _ = CompletionReason.actuator_fault

unfoldable pub off_not_confirmed : TransitionInput → SessionContext → Decision
off_not_confirmed inp session =
    let committed = unconfirmed_reason session.pending_termination_reason in
    record (decision (some (unconfirmed_row session.pending_termination_reason))
      (some ControllerState.fault)
      (Action.persist_state PersistTag.off_unconfirmed
        ∷ Action.add_blocker BlockerReason.integration_off_unconfirmed
        ∷ Action.emit_fault_set FaultCode.actuator_off_timeout inp.active_fault
        ∷ [])) {
          reason = some committed;
          fault = some FaultCode.actuator_off_timeout;
          secondary_fault = session.retained_sensor_fault;
          session = some (record session {
            pending_termination_reason = some committed;
            runtime_estimated = true;
            runtime_estimation_reason = RuntimeEstimationReason.off_unconfirmed;
          });
        }

-- The later OFF proof for a session whose OFF stayed unproven.
unfoldable pub close_open_accounting : TransitionInput → SessionContext → ℕ → Result Decision
unfolding close_runtime
close_open_accounting inp session off_at = do
  reason ← or_raise session.pending_termination_reason assertion_error
  ok
      (record (decision none none (
        Action.persist_state PersistTag.delayed_accounting_closed
        ∷ Action.remove_blocker BlockerReason.integration_off_unconfirmed
        ∷ Action.release_slot
        ∷ Action.emit_session_finished
        ∷ [])) {
          reason = some reason;
          clear_session = true;
          final_session = some (close_runtime session off_at reason);
        })
