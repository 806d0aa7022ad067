-- ===== src/Model/Enums.antt =====
-- The enumerations of models.py, and the fault property matrix.
use moisture_loop.Base.{Bool, true, false}

pub data ControllerState : Type 0 where
  disabled idle watering soaking fault : ControllerState

pub data SessionMode : Type 0 where
  auto manual : SessionMode

pub data MoistureClassification : Type 0 where
  valid stale invalid unavailable : MoistureClassification

pub data FaultCode : Type 0 where
  sensor_unavailable sensor_stale sensor_invalid actuator_unavailable actuator_on_timeout
        actuator_off_timeout configuration_invalid restored_from_unsafe_state :
      FaultCode

pub FaultCode-discrete : Discrete FaultCode
FaultCode-discrete = hlevel

unfoldable pub is_sensor_only : FaultCode → Bool
is_sensor_only FaultCode.sensor_unavailable = true
is_sensor_only FaultCode.sensor_stale = true
is_sensor_only FaultCode.sensor_invalid = true
is_sensor_only _ = false

unfoldable pub allows_manual : FaultCode → Bool
unfolding is_sensor_only
allows_manual f = is_sensor_only f

unfoldable pub auto_clears : FaultCode → Bool
auto_clears FaultCode.sensor_unavailable = true
auto_clears FaultCode.sensor_stale = true
auto_clears FaultCode.sensor_invalid = true
auto_clears FaultCode.actuator_unavailable = true
auto_clears FaultCode.actuator_on_timeout = true
auto_clears _ = false

unfoldable pub requires_user_ack : FaultCode → Bool
requires_user_ack FaultCode.actuator_off_timeout = true
requires_user_ack FaultCode.restored_from_unsafe_state = true
requires_user_ack _ = false

unfoldable pub requires_reconfigure : FaultCode → Bool
requires_reconfigure FaultCode.configuration_invalid = true
requires_reconfigure _ = false

pub data CompletionReason : Type 0 where
  target_reached manual_complete max_cycles max_session_runtime daily_runtime_limit user_stop
        zone_disabled external_actuator_state_change config_reload config_changed
        home_assistant_shutdown restart_recovery sensor_fault actuator_fault :
      CompletionReason

pub data ReasonClass : Type 0 where
  success constrained cancellation recovery fault : ReasonClass

unfoldable pub reason_class : CompletionReason → ReasonClass
reason_class CompletionReason.target_reached = ReasonClass.success
reason_class CompletionReason.manual_complete = ReasonClass.success
reason_class CompletionReason.max_cycles = ReasonClass.constrained
reason_class CompletionReason.max_session_runtime = ReasonClass.constrained
reason_class CompletionReason.daily_runtime_limit = ReasonClass.constrained
reason_class CompletionReason.user_stop = ReasonClass.cancellation
reason_class CompletionReason.zone_disabled = ReasonClass.cancellation
reason_class CompletionReason.external_actuator_state_change = ReasonClass.cancellation
reason_class CompletionReason.config_reload = ReasonClass.cancellation
reason_class CompletionReason.config_changed = ReasonClass.cancellation
reason_class CompletionReason.home_assistant_shutdown = ReasonClass.cancellation
reason_class CompletionReason.restart_recovery = ReasonClass.recovery
reason_class CompletionReason.sensor_fault = ReasonClass.fault
reason_class CompletionReason.actuator_fault = ReasonClass.fault

pub data RuntimeEstimationReason : Type 0 where
  none restart_found_on restart_found_off_unknown_stop off_unconfirmed : RuntimeEstimationReason

pub data BlockerReason : Type 0 where
  external_flow integration_off_unconfirmed actuator_not_proven_off : BlockerReason

pub data ManualClampReason : Type 0 where
  manual_max_duration max_session_runtime remaining_daily_budget : ManualClampReason

pub data ActuatorFinding : Type 0 where
  on off unproven : ActuatorFinding

pub data TimerKind : Type 0 where
  pulse_end manual_end soak_end grace on_confirm_timeout : TimerKind
