-- ===== src/Machine/Watchdog.antt =====
-- The AUTO freshness watchdog of state_machine.py.
use moisture_loop.Base.{
  ℕ, ◌≡◌, ◌≤◌, ◌↔◌, Option, none, some, List, [], ◌∷◌, Result, ok, Ensures, Ensures-eq_ok, Returns,
  arith, subst, sym,
}
use moisture_loop.Model.Enums.{ControllerState, SessionMode, FaultCode}
use moisture_loop.Model.Observation.{WatchdogToken}
use moisture_loop.Model.Session.{SessionContext}
use moisture_loop.Model.Event.{ControllerEvent, Action, Duration}
use moisture_loop.Model.Decision.{TransitionInput, Decision}
use moisture_loop.Machine.Auto.{evaluate_auto_start}
use moisture_loop.Machine.Manual.{ManualRow, manual_start}
use moisture_loop.Machine.Idle.{integrity_lost, on_configuration_invalid, idle_on, disabled_on}
use moisture_loop.Machine.Watering.{watering_on}
use moisture_loop.Machine.Soaking.{soaking_recheck, soaking_open_on, soaking_pending_on}
use moisture_loop.Machine.Fault.{fault_on}
use moisture_loop.Machine.Decide.{decide, decide_in, decide_watering}
use moisture_loop.Machine.Rule.{Handlers, decide_rule, decide-eq-decide_in}

-- The token names the generation and the freshness deadline of the session.
abbrev Names : WatchdogToken → Option SessionContext → Type 0
Names token none = ⊥
Names token (some s) =
    (token.generation ≡ s.sensor_freshness_watchdog_generation)
    × (s.sensor_fresh_until_utc ≡ some token.deadline_utc)

-- Every token that the actions arm names that session.
abbrev pub ArmsOnly : Option SessionContext → List Action → Type 0
ArmsOnly session [] = Unit
ArmsOnly session (Action.arm_watchdog token ∷ actions) =
    Names token session × ArmsOnly session actions
ArmsOnly session (a ∷ actions) = ArmsOnly session actions

-- The session after the decision, where it does not end one.
abbrev current : Option SessionContext → Option SessionContext → Option SessionContext
current session none = session
current session (some s) = some s

abbrev pub ArmsCurrent : TransitionInput → Decision → Type 0
ArmsCurrent inp d = ArmsOnly (current inp.session d.session) d.actions

module _ (inp : TransitionInput) where
  evaluate-ArmsCurrent : Ensures (ArmsCurrent inp) (evaluate_auto_start inp)
  unfolding evaluate_auto_start
  evaluate-ArmsCurrent = ground arith

  manual-ArmsCurrent :
      (requested : Duration) (row : ManualRow)
      → Ensures (ArmsCurrent inp) (manual_start inp requested row)
  unfolding manual_start
  manual-ArmsCurrent requested row = ground arith

  recheck-ArmsCurrent : (s : SessionContext) → Ensures (ArmsCurrent inp) (soaking_recheck inp s)
  unfolding soaking_recheck
  recheck-ArmsCurrent s = ground arith

  idle-ArmsCurrent : (e : ControllerEvent) → Ensures (ArmsCurrent inp) (idle_on inp e)
  unfolding idle_on
  idle-ArmsCurrent ControllerEvent.auto_evaluate = evaluate-ArmsCurrent
  idle-ArmsCurrent (ControllerEvent.moisture_report obs) = evaluate-ArmsCurrent
  idle-ArmsCurrent ControllerEvent.slot_granted = evaluate-ArmsCurrent
  idle-ArmsCurrent (ControllerEvent.manual_start_requested r) = manual-ArmsCurrent r ManualRow.t3
  idle-ArmsCurrent _ = ground arith

  disabled-ArmsCurrent : (e : ControllerEvent) → Ensures (ArmsCurrent inp) (disabled_on inp e)
  unfolding disabled_on
  disabled-ArmsCurrent ControllerEvent.auto_evaluate = ground arith
  disabled-ArmsCurrent _ = ground arith

  watering-ArmsCurrent :
      (s : SessionContext) (e : ControllerEvent)
      → inp.session ≡ some s
      → Ensures (ArmsCurrent inp) (watering_on inp s e)
  unfolding watering_on
  watering-ArmsCurrent s ControllerEvent.auto_evaluate es = ground arith
  watering-ArmsCurrent s _ es = ground arith

  soaking_open-ArmsCurrent :
      (s : SessionContext) (e : ControllerEvent)
      → Ensures (ArmsCurrent inp) (soaking_open_on inp s e)
  unfolding soaking_open_on
  soaking_open-ArmsCurrent s ControllerEvent.auto_evaluate = ground (arith, recheck-ArmsCurrent s)
  soaking_open-ArmsCurrent s _ = ground (arith, recheck-ArmsCurrent s)

  soaking_pending-ArmsCurrent :
      (s : SessionContext) (e : ControllerEvent)
      → Ensures (ArmsCurrent inp) (soaking_pending_on inp s e)
  unfolding soaking_pending_on
  soaking_pending-ArmsCurrent s ControllerEvent.auto_evaluate = ground arith
  soaking_pending-ArmsCurrent s _ = ground arith

  fault-ArmsCurrent : (e : ControllerEvent) → Ensures (ArmsCurrent inp) (fault_on inp e)
  unfolding fault_on
  fault-ArmsCurrent (ControllerEvent.manual_start_requested r) = manual-ArmsCurrent r ManualRow.t40
  fault-ArmsCurrent _ = ground arith

handlers-ArmsCurrent : Handlers ArmsCurrent
unfolding integrity_lost on_configuration_invalid
handlers-ArmsCurrent = record {
  integrity = λ inp. tt;
  setup = λ inp. tt;
  idle = λ inp e ev at. idle-ArmsCurrent inp e;
  disabled = λ inp e ev at. disabled-ArmsCurrent inp e;
  watering = λ inp s e ev at es. watering-ArmsCurrent inp s e es;
  soaking_open = λ inp s e ev at es free. soaking_open-ArmsCurrent inp s e;
  soaking_pending = λ inp s e ev at es. soaking_pending-ArmsCurrent inp s e;
  fault = λ inp e ev at. fault-ArmsCurrent inp e;
}

-- Whenever a decision arms the freshness watchdog, the token carries the generation and the
-- freshness deadline of the session as it stands after the decision.
pub watchdog_names_session :
    (inp : TransitionInput) (d : Decision) → decide inp ≡ ok d → ArmsCurrent inp d
watchdog_names_session inp d e =
    Ensures-eq_ok (ArmsCurrent inp) (decide inp) (decide_rule ArmsCurrent handlers-ArmsCurrent inp)
      e

fired-exact :
    (inp : TransitionInput) (s : SessionContext) (token : WatchdogToken) (fresh_until : ℕ)
    → s.mode ≡ SessionMode.auto
    → s.pending_termination_reason ≡ none
    → s.sensor_fresh_until_utc ≡ some fresh_until
    → Returns
        (λ d.
          (d.fault ≡ some FaultCode.sensor_stale)
          ↔ ((inp.armed_watchdog ≡ some token) × (fresh_until ≤ inp.now_utc)))
        (watering_on inp s (ControllerEvent.watchdog_fired token))
unfolding watering_on
fired-exact inp s token fresh_until m p f = ground arith

-- In an AUTO pulse with no termination committed, a watchdog callback returns a decision, and
-- faults the session as stale exactly if its token is the armed one and the freshness deadline of
-- the session has been reached; a superseded token or a prolonged deadline never does.
pub watchdog_faults_exactly :
    (inp : TransitionInput) (s : SessionContext) (token : WatchdogToken) (fresh_until : ℕ)
    → inp.state ≡ ControllerState.watering
    → inp.session ≡ some s
    → inp.event ≡ ControllerEvent.watchdog_fired token
    → s.mode ≡ SessionMode.auto
    → s.pending_termination_reason ≡ none
    → s.sensor_fresh_until_utc ≡ some fresh_until
    → Returns
        (λ d.
          (d.fault ≡ some FaultCode.sensor_stale)
          ↔ ((inp.armed_watchdog ≡ some token) × (fresh_until ≤ inp.now_utc)))
        (decide inp)
unfolding decide_in decide_watering
watchdog_faults_exactly inp s token fresh_until at es ev m p f =
    let Exact : Result Decision → Type 0 = Returns (λ d.
      (d.fault ≡ some FaultCode.sensor_stale)
      ↔ ((inp.armed_watchdog ≡ some token) × (fresh_until ≤ inp.now_utc))) in
    subst Exact (sym (decide-eq-decide_in inp ControllerState.watering (rw ev) at)) (
      subst (λ o. Exact (decide_watering inp o)) (sym es)
        (subst (λ e. Exact (watering_on inp s e)) (sym ev)
          (fired-exact inp s token fresh_until m p f)))
