-- ===== src/Tests/Gates.antt =====
-- Theorems on the final ON gate, at concrete zones.
use moisture_loop.Base.{◌≡◌, ◌≢◌, ◌<◌, ◌↔◌, ◌+◌, refl, some, none, [], Option, Error, arith}
use moisture_loop.Model.Enums.{ControllerState}
use moisture_loop.Model.Observation.{seconds}
use moisture_loop.Model.Event.{ControllerEvent, Action}
use moisture_loop.Model.Decision.{TransitionInput}
use moisture_loop.Machine.AutoStart.{AutoReady}
use moisture_loop.Machine.Decide.{decide}
use moisture_loop.Zone.{Zone, Applied, build_input, dispatch}
use moisture_loop.Zone.Gate.{final_on_guard_failures}
use moisture_loop.Zone.Gate.Starting.{asked, HasPulse, auto_start_passes_gate}
use moisture_loop.Zone.Gate.Closing.{terminal_event_closes_gate}
use moisture_loop.Tests.Inputs.{idle_zone, surroundings, pulse, value_of}

ready : AutoReady (build_input idle_zone surroundings ControllerEvent.auto_evaluate)
unfolding build_input
ready = record {
  enabled = refl;
  valid = refl;
  fresh = omega arith;
  dry = omega arith;
  rested = tt;
  available = refl;
  proven_off = refl;
  fits_day = omega arith;
  slot_granted = refl;
  blockers_empty = refl;
}

has_pulse : HasPulse surroundings.config
has_pulse = record { one_cycle = omega arith; fits_session = omega arith }

abbrev started : Applied
started = dispatch idle_zone surroundings (λ _. none) ControllerEvent.auto_evaluate

auto_start_passes_gate_example :
    (started.error ≡ none)
    × ((final_on_guard_failures started.zone (asked surroundings (seconds 100001)) "s1" ≡ [])
        ↔ (seconds 100001 < seconds 99990 + seconds 3600))
auto_start_passes_gate_example =
    auto_start_passes_gate idle_zone surroundings ControllerEvent.auto_evaluate (seconds 99990)
      (seconds 100001) refl refl refl refl refl refl ready has_pulse (omega arith)

-- A zone in its first pulse, and the zone after a stop whose store write fails.
abbrev watering_zone : Zone
watering_zone = record idle_zone { state = ControllerState.watering; session = some pulse }

abbrev unverified : Action → Option Error
unverified _ = some Error.store_write_verification

abbrev stop_input : TransitionInput
stop_input = build_input watering_zone surroundings ControllerEvent.stop_requested

abbrev stopped_zone : Zone
stopped_zone = (dispatch watering_zone surroundings unverified ControllerEvent.stop_requested).zone

terminal_event_closes_gate_example :
    final_on_guard_failures stopped_zone (asked surroundings (seconds 100001)) "s1" ≢ []
unfolding decide build_input
terminal_event_closes_gate_example =
    terminal_event_closes_gate watering_zone surroundings unverified ControllerEvent.stop_requested
      pulse (value_of (decide stop_input)) (asked surroundings (seconds 100001)) "s1" refl refl refl
      refl
