-- ===== src/Machine/Safety.antt =====
-- When a decision of state_machine.py turns the actuator on.
use moisture_loop.Base.{◌≡◌, Bool, true, false, some, any, ok, Ensures, Ensures-eq_ok, arith}
use moisture_loop.Model.Enums.{ControllerState}
use moisture_loop.Model.Event.{ControllerEvent, Action, Duration}
use moisture_loop.Model.Session.{SessionContext}
use moisture_loop.Model.Decision.{TransitionInput, Decision}
use moisture_loop.Machine.Guards.{actuator_ready}
use moisture_loop.Machine.Auto.{evaluate_auto_start}
use moisture_loop.Machine.Manual.{ManualRow, manual_start}
use moisture_loop.Machine.Idle.{integrity_lost, on_configuration_invalid, idle_on, disabled_on}
use moisture_loop.Machine.Watering.{watering_on}
use moisture_loop.Machine.Soaking.{soaking_recheck, soaking_open_on, soaking_pending_on}
use moisture_loop.Machine.Fault.{fault_on}
use moisture_loop.Machine.Decide.{decide}
use moisture_loop.Machine.Rule.{Handlers, decide_rule}

abbrev is_turn_on : Action → Bool
is_turn_on Action.turn_on = true
is_turn_on _ = false

abbrev pub turns_on : Decision → Bool
turns_on d = any is_turn_on d.actions

-- The states in which no commanded water flows and a zone is not disabled.
abbrev pub MayStart : ControllerState → Type 0
MayStart ControllerState.idle = Unit
MayStart ControllerState.soaking = Unit
MayStart ControllerState.fault = Unit
MayStart _ = ⊥

-- The water resource is free for this zone and its actuator is proven OFF.
pub record MayFlow (inp : TransitionInput) : Type 0 where
  pub available : inp.actuator.available ≡ true
  pub proven_off : inp.actuator.proven_off ≡ true
  pub slot_granted : inp.resource.slot_granted ≡ true
  pub blockers_empty : inp.resource.blockers_empty ≡ true

pub record StartsSafely (inp : TransitionInput) (d : Decision) : Type 0 where
  pub may_flow : MayFlow inp
  pub may_start : MayStart inp.state
  pub to_watering : d.new_state ≡ some ControllerState.watering

abbrev SafeOn : TransitionInput → Decision → Type 0
SafeOn inp d = turns_on d ≡ true → StartsSafely inp d

evaluate-SafeOn :
    (inp : TransitionInput) → MayStart inp.state → Ensures (SafeOn inp) (evaluate_auto_start inp)
unfolding evaluate_auto_start actuator_ready
evaluate-SafeOn inp rest = ground arith

manual-SafeOn :
    (inp : TransitionInput) (requested : Duration) (row : ManualRow)
    → MayStart inp.state
    → Ensures (SafeOn inp) (manual_start inp requested row)
unfolding manual_start actuator_ready
manual-SafeOn inp requested row rest = ground arith

recheck-SafeOn :
    (inp : TransitionInput) (session : SessionContext)
    → MayStart inp.state
    → Ensures (SafeOn inp) (soaking_recheck inp session)
unfolding soaking_recheck
recheck-SafeOn inp session rest = ground arith

idle-SafeOn :
    (inp : TransitionInput) (e : ControllerEvent)
    → MayStart inp.state
    → Ensures (SafeOn inp) (idle_on inp e)
unfolding idle_on
idle-SafeOn inp ControllerEvent.auto_evaluate rest = evaluate-SafeOn inp rest
idle-SafeOn inp (ControllerEvent.moisture_report obs) rest = evaluate-SafeOn inp rest
idle-SafeOn inp ControllerEvent.slot_granted rest = evaluate-SafeOn inp rest
idle-SafeOn inp (ControllerEvent.manual_start_requested r) rest =
    manual-SafeOn inp r ManualRow.t3 rest
idle-SafeOn inp _ rest = ground arith

disabled-quiet :
    (inp : TransitionInput) (e : ControllerEvent) → Ensures (SafeOn inp) (disabled_on inp e)
unfolding disabled_on
disabled-quiet inp ControllerEvent.auto_evaluate = ground arith
disabled-quiet inp _ = ground arith

watering-quiet :
    (inp : TransitionInput) (session : SessionContext) (e : ControllerEvent)
    → Ensures (SafeOn inp) (watering_on inp session e)
unfolding watering_on
watering-quiet inp session ControllerEvent.auto_evaluate = ground arith
watering-quiet inp session _ = ground arith

soaking_open-SafeOn :
    (inp : TransitionInput) (session : SessionContext) (e : ControllerEvent)
    → MayStart inp.state
    → Ensures (SafeOn inp) (soaking_open_on inp session e)
unfolding soaking_open_on
soaking_open-SafeOn inp session ControllerEvent.auto_evaluate rest =
    ground (arith, recheck-SafeOn inp session rest)
soaking_open-SafeOn inp session _ rest = ground (arith, recheck-SafeOn inp session rest)

soaking_pending-quiet :
    (inp : TransitionInput) (session : SessionContext) (e : ControllerEvent)
    → Ensures (SafeOn inp) (soaking_pending_on inp session e)
unfolding soaking_pending_on
soaking_pending-quiet inp session ControllerEvent.auto_evaluate = ground arith
soaking_pending-quiet inp session _ = ground arith

fault-SafeOn :
    (inp : TransitionInput) (e : ControllerEvent)
    → MayStart inp.state
    → Ensures (SafeOn inp) (fault_on inp e)
unfolding fault_on
fault-SafeOn inp (ControllerEvent.manual_start_requested r) rest =
    manual-SafeOn inp r ManualRow.t40 rest
fault-SafeOn inp _ rest = ground arith

handlers-SafeOn : Handlers SafeOn
unfolding integrity_lost on_configuration_invalid
handlers-SafeOn = record {
  integrity = λ inp h. cc;
  setup = λ inp h. cc;
  idle = λ inp e ev at. idle-SafeOn inp e (rw at tt);
  disabled = λ inp e ev at. disabled-quiet inp e;
  watering = λ inp session e ev at s. watering-quiet inp session e;
  soaking_open = λ inp session e ev at s free. soaking_open-SafeOn inp session e (rw at tt);
  soaking_pending = λ inp session e ev at s. soaking_pending-quiet inp session e;
  fault = λ inp e ev at. fault-SafeOn inp e (rw at tt);
}

-- A decision that turns the actuator on is made in IDLE, SOAKING or FAULT only, leads to WATERING,
-- and finds the actuator available and proven OFF, the global slot granted to this zone, and no
-- water-resource blocker anywhere.
pub turn_on_is_safe :
    (inp : TransitionInput) (d : Decision)
    → decide inp ≡ ok d
    → turns_on d ≡ true
    → StartsSafely inp d
turn_on_is_safe inp d e =
    Ensures-eq_ok (SafeOn inp) (decide inp) (decide_rule SafeOn handlers-SafeOn inp) e
