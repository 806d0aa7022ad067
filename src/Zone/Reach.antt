-- ===== src/Zone/Reach.antt =====
-- What a zone can go through: decisions applied by `zone_controller.py`, with failed store writes and
-- with calls that raise among them, and the session task taking the ON and OFF requests.
use moisture_loop.Base.{
  ◌≡◌, refl, Bool, true, false, Option, none, some, ℕ, String, sym, inl, inr, Bool-cases, Error,
  Result, ok, raised, Returns, arith, subst, if◌then◌else◌, store_write_verification,
}
use moisture_loop.Model.Enums.{ControllerState}
use moisture_loop.Model.Observation.{validate}
use moisture_loop.Model.Session.{SessionContext}
use moisture_loop.Model.Event.{ControllerEvent, Action}
use moisture_loop.Model.Decision.{TransitionInput, Decision, ActuatorAssessment}
use moisture_loop.Machine.Decide.{decide}
use moisture_loop.Machine.Shape.{Closes, decide-Closes}
use moisture_loop.Zone.{
  Zone, Applied, Surroundings, build_input, apply_action, persist_failure, apply_fields,
  session_end, after_end, apply_decision, after_decide, dispatch, set_enabled,
  record_possible_command, command_anchor, take_request,
}
use moisture_loop.Zone.Applying.{
  first_error, escaping, Blocked, actions-Keeps, apply_actions-error, actions-Blocked,
}
use moisture_loop.Zone.Coherent.{StateOk, EventOk}
use moisture_loop.Zone.Total.{After, decide-Returns}

abbrev pub Coherent : Zone → Type 0
Coherent z = StateOk z.state z.session z.active_fault

persist_failure-Coherent :
    (z : Zone) (assessment : ActuatorAssessment) → Coherent (persist_failure z assessment)
unfolding persist_failure
persist_failure-Coherent z assessment = ground arith

action-Coherent : (z : Zone) (a : Action) → Coherent z → Coherent (apply_action z a)
unfolding apply_action
action-Coherent z (Action.persist_state _) h = h
action-Coherent z _ h = h

-- The decision `d` of a coherent input, applied to the zone that the input was built from.
fields-Coherent :
    (z : Zone) (w : Surroundings) (e : ControllerEvent) (d : Decision) (ended : Option ℕ)
    → After (build_input z w e) d
    → Coherent (apply_fields z d ended)
unfolding build_input apply_fields
fields-Coherent z w e d ended h = h

session_end-Returns :
    (inp : TransitionInput) (d : Decision) → Closes d → (o : Option ℕ) × (session_end inp d ≡ ok o)
unfolding session_end
session_end-Returns inp d c = by_end (session_end inp d) refl
  where
    by_end :
        (r : Result (Option ℕ))
        → session_end inp d ≡ r
        → (o : Option ℕ) × (session_end inp d ≡ ok o)
    by_end (ok o) e = (o, e)
    by_end (raised x) e = absurd (ground arith)

-- What a dispatch with the decision `d` leaves and raises: the zone is coherent; the error is the first
-- that the awaited writes of the actions raise, unless that is a failed verification; and if it is one,
-- the zone is blocked.
pub record Settles (awaited : Action → Option Error) (d : Decision) (r : Applied) : Type 0 where
  pub coherent : Coherent r.zone
  pub raises : r.error ≡ escaping (if d.no_op then none else first_error awaited d.actions)
  pub blocks :
      d.no_op ≡ false
      → first_error awaited d.actions ≡ some store_write_verification
      → Blocked r.zone

apply-Settles :
    (z : Zone) (w : Surroundings) (awaited : Action → Option Error) (e : ControllerEvent)
    (d : Decision)
    → Coherent z
    → After (build_input z w e) d
    → Closes d
    → Settles awaited d (apply_decision z (build_input z w e) awaited d)
unfolding apply_decision build_input after_end
apply-Settles z w awaited e d h after c =
    let (ended, at) = session_end-Returns (build_input z w e) d c in
    let fields = apply_fields z d ended in
    elim (Bool-cases d.no_op) [
      | inl quiet ↦ record {
        coherent = rw quiet h;
        raises = rw quiet refl;
        blocks = λ acts. ground (arith, quiet, acts);
      }
      | inr acts ↦ record {
        coherent =
            simp (acts, at)
              (actions-Keeps Coherent action-Coherent persist_failure-Coherent w.actuator awaited
                fields d.actions (fields-Coherent z w e d ended after));
        raises = simp (acts, at) (apply_actions-error w.actuator awaited fields d.actions);
        blocks =
            λ _ first. simp (acts, at) (actions-Blocked w.actuator awaited fields d.actions first);
      }
    ]

-- What the surroundings of a dispatch guarantee.
abbrev pub InputOk : Zone → Surroundings → ControllerEvent → Type 0
InputOk z w e = (validate w.observation ≡ true) × EventOk z.session e

decided :
    (z : Zone) (w : Surroundings) (e : ControllerEvent)
    → Coherent z
    → InputOk z w e
    → Returns (After (build_input z w e)) (decide (build_input z w e))
decided z w e h ok_input =
    decide-Returns (build_input z w e) (unfold build_input in h) (unfold build_input in ok_input.0)
      (unfold build_input in refl) (unfold build_input in ok_input.1)

-- A dispatch to a coherent zone, with a valid reading and an event that `EventOk` admits, is decided, and
-- leaves the zone coherent, whatever its awaited writes raise: IDLE without a session, WATERING and
-- SOAKING with one that has what its rows read, FAULT with a fault, and an open session in FAULT or
-- DISABLED with a committed reason. It raises exactly the first error that the awaited writes of its
-- decision's actions raise, unless that is a failed verification; then it returns, in FAULT, marked as
-- failed and without a requested ON.
pub dispatch-Settles :
    (z : Zone) (w : Surroundings) (awaited : Action → Option Error) (e : ControllerEvent)
    → Coherent z
    → InputOk z w e
    → Returns (λ d. Settles awaited d (dispatch z w awaited e)) (decide (build_input z w e))
unfolding dispatch after_decide
dispatch-Settles z w awaited e h input =
    by_decision (decide (build_input z w e)) refl (decided z w e h input)
  where
    by_decision :
        (r : Result Decision)
        → decide (build_input z w e) ≡ r
        → Returns (After (build_input z w e)) r
        → Returns (λ d. Settles awaited d (after_decide z (build_input z w e) awaited r)) r
    by_decision (ok d) at after =
        apply-Settles z w awaited e d h after (decide-Closes (build_input z w e) d at)
    by_decision (raised x) at after = absurd after

dispatch-Coherent :
    (z : Zone) (w : Surroundings) (awaited : Action → Option Error) (e : ControllerEvent)
    → Coherent z
    → InputOk z w e
    → Coherent (dispatch z w awaited e).zone
dispatch-Coherent z w awaited e h input =
    settled (decide (build_input z w e)) (dispatch-Settles z w awaited e h input)
  where
    settled :
        (r : Result Decision)
        → Returns (λ d. Settles awaited d (dispatch z w awaited e)) r
        → Coherent (dispatch z w awaited e).zone
    settled (ok d) s = s.coherent
    settled (raised x) s = absurd s

-- One move of a zone: a dispatch, which may raise, the enable switch, the command anchor, or a request
-- taken.
pub data Step (z z' : Zone) : Type 0 where
  dispatched :
      (w : Surroundings) (awaited : Action → Option Error) (e : ControllerEvent)
      → InputOk z w e
      → z' ≡ (dispatch z w awaited e).zone
      → Step z z'
  switched :
      (w : Surroundings) (awaited : Action → Option Error) (enabled : Bool)
      → validate w.observation ≡ true
      → z' ≡ (set_enabled z w awaited enabled).zone
      → Step z z'
  commanded :
      (session_id : String) (at : ℕ) → z' ≡ record_possible_command z session_id at → Step z z'
  taken : z' ≡ take_request z → Step z z'

pub data Reach (z : Zone) : Zone → Type 0 where
  here : Reach z z
  next : {y y' : Zone} → Reach z y → Step y y' → Reach z y'

switch-InputOk :
    (z : Zone) (w : Surroundings) (b : Bool)
    → validate w.observation ≡ true
    → InputOk z w
        (if b then ControllerEvent.enable_requested else ControllerEvent.disable_requested)
switch-InputOk z w true v = (v, tt)
switch-InputOk z w false v = (v, tt)

Step-Coherent : (z z' : Zone) → Step z z' → Coherent z → Coherent z'
unfolding set_enabled record_possible_command take_request
Step-Coherent z z' (dispatched w awaited e input at) h =
    subst Coherent (sym at) (dispatch-Coherent z w awaited e h input)
Step-Coherent z z' (switched w awaited b v at) h = subst Coherent (sym at) (
    dispatch-Coherent (record z { enabled = b }) w awaited
      (if b then ControllerEvent.enable_requested else ControllerEvent.disable_requested) h
      (switch-InputOk (record z { enabled = b }) w b v))
Step-Coherent z z' (commanded session_id at e) h =
    subst Coherent (sym e) (anchored z.state z.session h)
  where
    anchored :
        (st : ControllerState) (s : Option SessionContext)
        → StateOk st s z.active_fault
        → StateOk st (command_anchor at s session_id) z.active_fault
    anchored st none k = k
    anchored ControllerState.idle (some s) k = absurd (ground arith)
    anchored ControllerState.disabled (some s) k = ground arith
    anchored ControllerState.watering (some s) k = ground arith
    anchored ControllerState.soaking (some s) k = ground arith
    anchored ControllerState.fault (some s) k = ground arith
Step-Coherent z z' (taken e) h = subst Coherent (sym e) (ground arith)

-- Every zone that a coherent one can reach is coherent: through any decisions, failed writes and
-- calls that raise, switches of the enable flag, command anchors and taken requests, in any order, where each
-- dispatch has a valid reading and an event that `EventOk` admits.
pub Reach-Coherent : (z z' : Zone) → Coherent z → Reach z z' → Coherent z'
Reach-Coherent z z' h here = h
Reach-Coherent z z' h (next {y} {y'} r s) = Step-Coherent y y' s (Reach-Coherent z y h r)
