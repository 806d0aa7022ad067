-- ===== src/Machine/Decide.antt =====
-- `decide` of state_machine.py.
use moisture_loop.Base.{Option, none, some, true, Result, ok, raised, value_error}
use moisture_loop.Model.Enums.{ControllerState}
use moisture_loop.Model.Session.{SessionContext}
use moisture_loop.Model.Event.{ControllerEvent}
use moisture_loop.Model.Decision.{TransitionInput, Decision, Row}
use moisture_loop.Machine.Idle.{integrity_lost, on_configuration_invalid, idle_on, disabled_on}
use moisture_loop.Machine.Watering.{watering_on}
use moisture_loop.Machine.Soaking.{soaking_on}
use moisture_loop.Machine.Fault.{fault_on}

-- WATERING and SOAKING require a session.
unfoldable pub decide_watering : TransitionInput → Option SessionContext → Result Decision
unfolding watering_on
decide_watering inp none = raised value_error
decide_watering inp (some session) = watering_on inp session inp.event

unfoldable pub decide_soaking : TransitionInput → Option SessionContext → Result Decision
unfolding soaking_on
decide_soaking inp none = raised value_error
decide_soaking inp (some session) = soaking_on inp session session.pending_termination_reason

unfoldable pub decide_in : TransitionInput → ControllerState → Result Decision
unfolding idle_on disabled_on decide_watering decide_soaking fault_on
decide_in inp ControllerState.idle = idle_on inp inp.event
decide_in inp ControllerState.disabled = disabled_on inp inp.event
decide_in inp ControllerState.watering = decide_watering inp inp.session
decide_in inp ControllerState.soaking = decide_soaking inp inp.session
decide_in inp ControllerState.fault = fault_on inp inp.event

-- The cross-state rows come first.
unfoldable pub decide_on : TransitionInput → ControllerEvent → Result Decision
unfolding integrity_lost on_configuration_invalid decide_in
decide_on inp ControllerEvent.store_integrity_lost = ok (integrity_lost inp)
decide_on inp (ControllerEvent.configuration_invalid true) =
    ok (on_configuration_invalid inp Row.t53)
decide_on inp _ = decide_in inp inp.state

unfoldable pub decide : TransitionInput → Result Decision
unfolding decide_on
decide inp = decide_on inp inp.event
