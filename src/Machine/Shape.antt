-- ===== src/Machine/Shape.antt =====
-- What every decision of state_machine.py satisfies as a value: the checks of the `__post_init__`
-- methods of models.py, and what a closed session comes with.
use moisture_loop.Base.{
  ◌≡◌, Bool, true, false, ◌&&◌, ◌||◌, not, Option, none, some, is_some, is_empty, any, ok, Ensures,
  Ensures-eq_ok, arith,
}
use moisture_loop.Model.Enums.{is_sensor_only}
use moisture_loop.Model.Event.{ControllerEvent, Duration, Action}
use moisture_loop.Model.Session.{SessionContext, retained_fault_ok}
use moisture_loop.Model.Decision.{TransitionInput, Decision, GuardResult}
use moisture_loop.Machine.Auto.{evaluate_auto_start}
use moisture_loop.Machine.Manual.{ManualRow, manual_start}
use moisture_loop.Machine.Idle.{integrity_lost, on_configuration_invalid, idle_on, disabled_on}
use moisture_loop.Machine.Watering.{watering_on}
use moisture_loop.Machine.Soaking.{soaking_recheck, soaking_open_on, soaking_pending_on}
use moisture_loop.Machine.Fault.{fault_on}
use moisture_loop.Machine.Decide.{decide}
use moisture_loop.Machine.Rule.{Handlers, decide_rule}

abbrev guard_result_ok : Option GuardResult → Bool
guard_result_ok none = true
guard_result_ok (some g) = if_passed g.passed
  where
    if_passed : Bool → Bool
    if_passed true = is_empty g.failed_guards
    if_passed false = not (is_empty g.failed_guards)

abbrev pub new_session_ok : Option SessionContext → Bool
unfolding is_sensor_only
new_session_ok none = true
new_session_ok (some s) = retained_fault_ok s.retained_sensor_fault

-- The tests of `Decision.__post_init__`, `GuardResult.__post_init__` and, for the session that the
-- decision sets, `SessionContext.__post_init__`: true where none of them raises.
unfoldable pub post_init_ok : Decision → Bool
unfolding is_sensor_only
post_init_ok d =
    not (d.no_op && (is_some d.new_state || not (is_empty d.actions)))
    && (not (is_some d.session && d.clear_session)
        && (not (is_some d.final_session && not d.clear_session)
            && (guard_result_ok d.guard_result && new_session_ok d.session)))

abbrev is_finish : Action → Bool
is_finish Action.emit_session_finished = true
is_finish _ = false

-- A decision announces the end of a session exactly if it clears the session, and then carries
-- the closed session and its one completion reason.
pub record Closes (d : Decision) : Type 0 where
  pub announced : any is_finish d.actions ≡ d.clear_session
  pub with_final : is_some d.final_session ≡ d.clear_session
  pub with_reason : d.clear_session ≡ true → is_some d.reason ≡ true

pub record IsShaped (inp : TransitionInput) (d : Decision) : Type 0 where
  pub constructs : new_session_ok inp.session ≡ true → post_init_ok d ≡ true
  pub closes : Closes d

module _ (inp : TransitionInput) where
  evaluate-IsShaped : Ensures (IsShaped inp) (evaluate_auto_start inp)
  unfolding evaluate_auto_start post_init_ok
  evaluate-IsShaped = ground arith

  manual-IsShaped :
      (requested : Duration) (row : ManualRow)
      → Ensures (IsShaped inp) (manual_start inp requested row)
  unfolding manual_start post_init_ok
  manual-IsShaped requested row = ground arith

  recheck-IsShaped :
      (session : SessionContext)
      → inp.session ≡ some session
      → Ensures (IsShaped inp) (soaking_recheck inp session)
  unfolding soaking_recheck post_init_ok
  recheck-IsShaped session e = ground arith

  idle-IsShaped : (e : ControllerEvent) → Ensures (IsShaped inp) (idle_on inp e)
  unfolding idle_on post_init_ok
  idle-IsShaped ControllerEvent.auto_evaluate = evaluate-IsShaped
  idle-IsShaped (ControllerEvent.moisture_report obs) = evaluate-IsShaped
  idle-IsShaped ControllerEvent.slot_granted = evaluate-IsShaped
  idle-IsShaped (ControllerEvent.manual_start_requested r) = manual-IsShaped r ManualRow.t3
  idle-IsShaped _ = ground arith

  disabled-IsShaped : (e : ControllerEvent) → Ensures (IsShaped inp) (disabled_on inp e)
  unfolding disabled_on post_init_ok
  disabled-IsShaped ControllerEvent.auto_evaluate = ground arith
  disabled-IsShaped _ = ground arith

  watering-IsShaped :
      (session : SessionContext) (e : ControllerEvent)
      → inp.session ≡ some session
      → Ensures (IsShaped inp) (watering_on inp session e)
  unfolding watering_on post_init_ok
  watering-IsShaped session ControllerEvent.auto_evaluate at = ground arith
  watering-IsShaped session _ at = ground arith

  soaking_open-IsShaped :
      (session : SessionContext) (e : ControllerEvent)
      → inp.session ≡ some session
      → Ensures (IsShaped inp) (soaking_open_on inp session e)
  unfolding soaking_open_on post_init_ok
  soaking_open-IsShaped session ControllerEvent.auto_evaluate at =
      ground (arith, recheck-IsShaped session at)
  soaking_open-IsShaped session _ at = ground (arith, recheck-IsShaped session at)

  soaking_pending-IsShaped :
      (session : SessionContext) (e : ControllerEvent)
      → inp.session ≡ some session
      → Ensures (IsShaped inp) (soaking_pending_on inp session e)
  unfolding soaking_pending_on post_init_ok
  soaking_pending-IsShaped session ControllerEvent.auto_evaluate at = ground arith
  soaking_pending-IsShaped session _ at = ground arith

  fault-IsShaped : (e : ControllerEvent) → Ensures (IsShaped inp) (fault_on inp e)
  unfolding fault_on post_init_ok
  fault-IsShaped (ControllerEvent.manual_start_requested r) = manual-IsShaped r ManualRow.t40
  fault-IsShaped _ = ground arith

handlers-IsShaped : Handlers IsShaped
unfolding integrity_lost on_configuration_invalid post_init_ok
handlers-IsShaped = record {
  integrity = λ inp. ground arith;
  setup = λ inp. ground arith;
  idle = λ inp e ev at. idle-IsShaped inp e;
  disabled = λ inp e ev at. disabled-IsShaped inp e;
  watering = λ inp session e ev at s. watering-IsShaped inp session e s;
  soaking_open = λ inp session e ev at s free. soaking_open-IsShaped inp session e s;
  soaking_pending = λ inp session e ev at s. soaking_pending-IsShaped inp session e s;
  fault = λ inp e ev at. fault-IsShaped inp e;
}

shaped : (inp : TransitionInput) (d : Decision) → decide inp ≡ ok d → IsShaped inp d
shaped inp d e =
    Ensures-eq_ok (IsShaped inp) (decide inp) (decide_rule IsShaped handlers-IsShaped inp) e

-- Where the session of the input, if any, retains no fault but a sensor fault, the dataclass checks
-- of the decision, of its guard result and of its new session all pass, so that building the
-- decision raises nothing.
pub decide_constructs :
    (inp : TransitionInput) (d : Decision)
    → decide inp ≡ ok d
    → new_session_ok inp.session ≡ true
    → post_init_ok d ≡ true
decide_constructs inp d e h = (shaped inp d e).constructs h

-- A decision announces the end of a session exactly if it clears the session; it then carries the
-- closed session and a completion reason, and it carries a closed session in no other case.
pub decide-Closes : (inp : TransitionInput) (d : Decision) → decide inp ≡ ok d → Closes d
decide-Closes inp d e = (shaped inp d e).closes
