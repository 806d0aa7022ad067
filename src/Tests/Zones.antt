-- ===== src/Tests/Zones.antt =====
-- Theorems on a zone, at concrete zones.
use moisture_loop.Base.{◌≡◌, refl, true, some, none, Option, Error, value_error, Returns}
use moisture_loop.Model.Enums.{FaultCode, is_sensor_only, requires_reconfigure}
use moisture_loop.Model.Observation.{seconds, validate}
use moisture_loop.Model.Event.{ControllerEvent, Action}
use moisture_loop.Model.Decision.{TransitionInput}
use moisture_loop.Machine.Guards.{actuator_ready, fresh_valid, interval_elapsed, daily_fits}
use moisture_loop.Machine.Fault.{fault_resolved}
use moisture_loop.Machine.Decide.{decide}
use moisture_loop.Zone.{Zone, build_input, dispatch, take_request, session_after}
use moisture_loop.Zone.Total.{After, decide-Returns}
use moisture_loop.Zone.Reach.{Coherent, Settles, Reach, Step, dispatch-Settles, Reach-Coherent}
use moisture_loop.Zone.Stranded.{Strands, clear_fault-Strands}
use moisture_loop.Tests.Inputs.{idle_zone, surroundings, idle_input, fault_input, open_session}

decide-Returns_example :
    Returns
      (After (idle_input ControllerEvent.auto_evaluate))
      (decide (idle_input ControllerEvent.auto_evaluate))
unfolding validate
decide-Returns_example = decide-Returns (idle_input ControllerEvent.auto_evaluate) refl refl refl tt

-- A start whose persist raises a `ValueError`.
abbrev invalid_write : Action → Option Error
invalid_write _ = some value_error

dispatch-Settles_example :
    Returns
      (λ d.
        Settles invalid_write d
          (dispatch idle_zone surroundings invalid_write ControllerEvent.auto_evaluate))
      (decide (build_input idle_zone surroundings ControllerEvent.auto_evaluate))
unfolding validate
dispatch-Settles_example =
    dispatch-Settles idle_zone surroundings invalid_write ControllerEvent.auto_evaluate refl
      (refl, tt)

-- The zone that an evaluation starts, after its task has taken the ON request.
abbrev started : Zone
started = (dispatch idle_zone surroundings (λ _. none) ControllerEvent.auto_evaluate).zone

Reach-Coherent_example : Coherent (take_request started)
unfolding dispatch decide fresh_valid interval_elapsed actuator_ready daily_fits validate
Reach-Coherent_example = Reach-Coherent idle_zone (take_request started) refl (
    Reach.next
      (Reach.next Reach.here
        (Step.dispatched surroundings (λ _. none) ControllerEvent.auto_evaluate (refl, tt) refl))
      (Step.taken refl))

abbrev acknowledged : TransitionInput
acknowledged = fault_input ControllerEvent.clear_fault_requested

-- The OFF evidence that comes after the acknowledgement.
abbrev late_evidence : TransitionInput
late_evidence = record (idle_input (ControllerEvent.external_actuator_off (seconds 100001))) {
  session = some open_session;
}

clear_fault-Strands_example :
    Returns (Strands acknowledged open_session) (decide acknowledged)
    × Returns
        (λ d. (d.no_op ≡ true) × (session_after late_evidence.session d ≡ late_evidence.session))
        (decide late_evidence)
unfolding requires_reconfigure fault_resolved is_sensor_only actuator_ready
clear_fault-Strands_example =
    clear_fault-Strands acknowledged late_evidence open_session FaultCode.actuator_off_timeout refl
      refl refl refl refl refl refl refl refl
