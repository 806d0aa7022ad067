-- ===== src/Model/Event.antt =====
-- The controller events and the requested side effects of models.py.
use moisture_loop.Base.{ℕ, Bool, Option, String}
use moisture_loop.Model.Enums.{ActuatorFinding, FaultCode, BlockerReason, TimerKind}
use moisture_loop.Model.Observation.{MoistureObservation, WatchdogToken}

-- A requested duration is a float: a finite amount of microseconds, which is negative or not, or an
-- infinity or NaN.
pub data Duration : Type 0 where
  not_negative : ℕ → Duration
  negative : ℕ → Duration
  not_finite : Duration

pub data ControllerEvent : Type 0 where
  auto_evaluate : ControllerEvent
  manual_start_requested : Duration → ControllerEvent
  stop_requested disable_requested enable_requested clear_fault_requested : ControllerEvent
  pulse_deadline_reached manual_deadline_reached : ControllerEvent
  soak_deadline_reached grace_deadline_reached : ControllerEvent
  watchdog_fired : WatchdogToken → ControllerEvent
  moisture_report : MoistureObservation → ControllerEvent
  on_confirmed : ℕ → ControllerEvent
  on_confirm_timeout : ControllerEvent
  off_confirmed : ℕ → ControllerEvent
  off_not_confirmed actuator_became_unavailable external_actuator_on : ControllerEvent
  external_actuator_off : ℕ → ControllerEvent
  home_assistant_shutdown config_entry_reload config_changed_prepare : ControllerEvent
  configuration_invalid : Bool → ControllerEvent
  store_integrity_lost : ControllerEvent
  startup_persisted_watering : ActuatorFinding → ControllerEvent
  startup_persisted_soaking : Bool → Option String → Option FaultCode → ControllerEvent
  slot_granted : ControllerEvent

-- The tag of `PersistState`.
pub data PersistTag : Type 0 where
  integrity_reconstruction configuration_invalid hazard_intent enabled disabled on_confirmed
        termination_committed soaking session_finalized off_unconfirmed restart_recovery
        external_interference soaking_preserved soaking_owner_rebase fault_cleared
        delayed_accounting_closed :
      PersistTag

pub data Action : Type 0 where
  persist_state : PersistTag → Action
  turn_on : Action
  execute_off : Bool → Action
  arm_timer : TimerKind → ℕ → Action
  arm_watchdog : WatchdogToken → Action
  request_slot release_slot requeue_slot_tail : Action
  add_blocker remove_blocker : BlockerReason → Action
  set_external_on : Bool → Action
  emit_session_started emit_session_finished : Action
  emit_fault_set : FaultCode → Option FaultCode → Action
  emit_fault_cleared : FaultCode → Action
  schedule_evaluation : Action
