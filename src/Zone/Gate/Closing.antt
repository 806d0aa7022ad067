-- ===== src/Zone/Gate/Closing.antt =====
-- zone_controller.py: the final ON gate, asked after a terminal event.
use moisture_loop.Base.{
  ℕ, raised, ◌≡◌, ◌≢◌, refl, Bool, true, false, ◌||◌, not, Option, none, some, [], String, is_some,
  is_empty, Error, Result, ok, Ensures, Ensures-eq_ok, arith, subst, sym, if◌then◌else◌, Bool-cases,
  inl, inr,
}
use moisture_loop.Model.Enums.{ControllerState}
use moisture_loop.Model.Session.{SessionContext}
use moisture_loop.Model.Event.{ControllerEvent, Action}
use moisture_loop.Model.Decision.{TransitionInput, Decision, ActuatorAssessment}
use moisture_loop.Machine.Watering.{watering_on}
use moisture_loop.Machine.Decide.{decide, decide_in, decide_watering}
use moisture_loop.Machine.Rule.{is_cross_state, decide-eq-decide_in}
use moisture_loop.Zone.{
  Zone, Surroundings, build_input, apply_action, persist_failure, apply_fields, after_end,
  apply_decision, after_decide, dispatch, state_after, session_after, session_end,
}
use moisture_loop.Zone.Applying.{actions-Keeps}
use moisture_loop.Zone.Gate.{GateContext, in_watering, final_on_guard_failures}

abbrev pub is_terminal : ControllerEvent → Bool
is_terminal ControllerEvent.stop_requested = true
is_terminal ControllerEvent.disable_requested = true
is_terminal ControllerEvent.home_assistant_shutdown = true
is_terminal ControllerEvent.config_entry_reload = true
is_terminal ControllerEvent.config_changed_prepare = true
is_terminal ControllerEvent.actuator_became_unavailable = true
is_terminal (ControllerEvent.external_actuator_off _) = true
is_terminal (ControllerEvent.off_confirmed _) = true
is_terminal ControllerEvent.off_not_confirmed = true
is_terminal _ = false

abbrev is_committed : Option SessionContext → Bool
is_committed none = true
is_committed (some s) = is_some s.pending_termination_reason

-- Not in WATERING, or no session without a committed termination.
abbrev Shut : ControllerState → Option SessionContext → Type 0
Shut state session = (not (in_watering state) || is_committed session) ≡ true

final_on_guard_failures-Shut :
    (z : Zone) (g : GateContext) (session_id : String)
    → Shut z.state z.session
    → is_empty (final_on_guard_failures z g session_id) ≡ false
unfolding final_on_guard_failures
final_on_guard_failures-Shut z g session_id h = ground arith

-- The decision shuts a WATERING zone with the session, or finds it shut.
abbrev Closing : SessionContext → Decision → Type 0
Closing s d =
    Shut (if d.no_op then ControllerState.watering else state_after ControllerState.watering d)
      (if d.no_op then some s else session_after (some s) d)

terminal-Shut :
    (inp : TransitionInput) (s : SessionContext) (e : ControllerEvent)
    → is_terminal e ≡ true
    → Ensures (Closing s) (watering_on inp s e)
unfolding watering_on
terminal-Shut inp s ControllerEvent.auto_evaluate h = ground arith
terminal-Shut inp s _ h = ground arith

abbrev ShutZone : Zone → Type 0
ShutZone z = Shut z.state z.session

persist_failure-Shut :
    (z : Zone) (assessment : ActuatorAssessment)
    → Shut (persist_failure z assessment).state (persist_failure z assessment).session
unfolding persist_failure
persist_failure-Shut z assessment = refl

action-Shut :
    (z : Zone) (a : Action)
    → Shut z.state z.session
    → Shut (apply_action z a).state (apply_action z a).session
unfolding apply_action
action-Shut z (Action.persist_state _) h = h
action-Shut z _ h = h

terminal_not_cross : (e : ControllerEvent) → is_terminal e ≡ true → is_cross_state e ≡ false
terminal_not_cross ControllerEvent.auto_evaluate h = cc
terminal_not_cross _ h = ground arith

decide-Closing :
    (inp : TransitionInput) (s : SessionContext)
    → inp.state ≡ ControllerState.watering
    → inp.session ≡ some s
    → is_terminal inp.event ≡ true
    → Ensures (Closing s) (decide inp)
unfolding decide_in decide_watering
decide-Closing inp s at es h =
    subst (Ensures (Closing s))
      (sym (decide-eq-decide_in inp ControllerState.watering (terminal_not_cross inp.event h) at))
      (subst (λ o. Ensures (Closing s) (decide_watering inp o)) (sym es)
        (terminal-Shut inp s inp.event h))

fields-Shut :
    (z : Zone) (s : SessionContext) (d : Decision) (ended : Option ℕ)
    → z.state ≡ ControllerState.watering
    → z.session ≡ some s
    → d.no_op ≡ false
    → Closing s d
    → ShutZone (apply_fields z d ended)
unfolding apply_fields
fields-Shut z s d ended at es acts h = ground arith

ended-Shut :
    (r : Result (Option ℕ)) (z : Zone) (assessment : ActuatorAssessment)
    (awaited : Action → Option Error) (d : Decision)
    → ((ended : Option ℕ) → ShutZone (apply_fields z d ended))
    → ShutZone (after_end z assessment awaited d r).zone
unfolding after_end
ended-Shut (ok ended) z assessment awaited d h =
    actions-Keeps ShutZone action-Shut persist_failure-Shut assessment awaited
      (apply_fields z d ended) d.actions (h ended)
ended-Shut (raised x) z assessment awaited d h = h none

apply-Shut :
    (z : Zone) (inp : TransitionInput) (awaited : Action → Option Error) (s : SessionContext)
    (d : Decision)
    → z.state ≡ ControllerState.watering
    → z.session ≡ some s
    → Closing s d
    → ShutZone (apply_decision z inp awaited d).zone
unfolding apply_decision
apply-Shut z inp awaited s d at es h = elim (Bool-cases d.no_op) [
  | inl quiet ↦ simp quiet (ground (arith, quiet))
  | inr acts ↦ simp acts (
      ended-Shut (session_end inp d) z inp.actuator awaited d
        (λ ended. fields-Shut z s d ended at es acts h))
]

-- After a terminal event is dispatched to a WATERING zone and decided, the final ON gate refuses every
-- ON of every session, whatever the gate is asked with, whatever store writes fail on the way and
-- whatever an awaited call raises.
pub terminal_event_closes_gate :
    (z : Zone) (w : Surroundings) (awaited : Action → Option Error) (e : ControllerEvent)
    (s : SessionContext) (d : Decision) (g : GateContext) (session_id : String)
    → z.state ≡ ControllerState.watering
    → z.session ≡ some s
    → is_terminal e ≡ true
    → decide (build_input z w e) ≡ ok d
    → final_on_guard_failures (dispatch z w awaited e).zone g session_id ≢ []
unfolding dispatch after_decide
terminal_event_closes_gate z w awaited e s d g session_id at es h decides empty =
    let closing : Closing s d =
      Ensures-eq_ok (Closing s) (decide (build_input z w e))
        (decide-Closing (build_input z w e) s (unfold build_input in at) (unfold build_input in es)
          (unfold build_input in h))
        decides in
    let shut : ShutZone (dispatch z w awaited e).zone =
      simp decides (apply-Shut z (build_input z w e) awaited s d at es closing) in
    let refused = final_on_guard_failures-Shut (dispatch z w awaited e).zone g session_id shut in
    ground (arith, refused, empty)
