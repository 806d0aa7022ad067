-- ===== src/Zone/Stranded.antt =====
-- An acknowledged fault with a session still open.
use moisture_loop.Base.{◌≡◌, Bool, true, false, some, Returns, arith, subst, sym}
use moisture_loop.Model.Enums.{ControllerState, FaultCode, requires_reconfigure}
use moisture_loop.Model.Session.{SessionContext}
use moisture_loop.Model.Event.{ControllerEvent}
use moisture_loop.Model.Decision.{TransitionInput, Decision, Row}
use moisture_loop.Machine.Idle.{idle_on}
use moisture_loop.Machine.Fault.{fault_on, fault_resolved}
use moisture_loop.Machine.Decide.{decide, decide_in}
use moisture_loop.Machine.Rule.{is_cross_state, decide-eq-decide_in}
use moisture_loop.Zone.{state_after, session_after}

-- The decision leaves the zone in IDLE with the session that was open.
pub record Strands (inp : TransitionInput) (s : SessionContext) (d : Decision) : Type 0 where
  pub row : d.transition_id ≡ some Row.t43
  pub to_idle : state_after inp.state d ≡ ControllerState.idle
  pub still_open : session_after inp.session d ≡ some s

clear-Strands :
    (inp : TransitionInput) (s : SessionContext) (fault : FaultCode)
    → inp.session ≡ some s
    → inp.active_fault ≡ some fault
    → requires_reconfigure fault ≡ false
    → fault_resolved inp fault ≡ true
    → Returns (Strands inp s) (fault_on inp ControllerEvent.clear_fault_requested)
unfolding fault_on
clear-Strands inp s fault es ef rec_fault res = ground arith

-- OFF evidence that would close the accounting of a session.
abbrev pub is_off_evidence : ControllerEvent → Bool
is_off_evidence (ControllerEvent.off_confirmed _) = true
is_off_evidence (ControllerEvent.external_actuator_off _) = true
is_off_evidence _ = false

ignored :
    (inp : TransitionInput) (e : ControllerEvent)
    → inp.external_on ≡ false
    → is_off_evidence e ≡ true
    → Returns (λ d. (d.no_op ≡ true) × (session_after inp.session d ≡ inp.session)) (idle_on inp e)
unfolding idle_on
ignored inp ControllerEvent.auto_evaluate x h = cc
ignored inp _ x h = ground arith

evidence_not_cross : (e : ControllerEvent) → is_off_evidence e ≡ true → is_cross_state e ≡ false
evidence_not_cross ControllerEvent.auto_evaluate h = cc
evidence_not_cross _ h = ground arith

-- In FAULT with a session open, an acknowledgement of a fault whose condition is resolved and that
-- needs no reconfiguration moves the zone to IDLE by T43 and keeps the session. Later OFF
-- evidence in IDLE without external flow is then ignored: the accounting of that session is not
-- closed by it.
pub clear_fault-Strands :
    (inp later : TransitionInput) (s : SessionContext) (fault : FaultCode)
    → inp.state ≡ ControllerState.fault
    → inp.event ≡ ControllerEvent.clear_fault_requested
    → inp.session ≡ some s
    → inp.active_fault ≡ some fault
    → requires_reconfigure fault ≡ false
    → fault_resolved inp fault ≡ true
    → later.state ≡ ControllerState.idle
    → later.external_on ≡ false
    → is_off_evidence later.event ≡ true
    → Returns (Strands inp s) (decide inp)
      × Returns
          (λ d. (d.no_op ≡ true) × (session_after later.session d ≡ later.session))
          (decide later)
unfolding decide_in
clear_fault-Strands inp later s fault at ev es ef rec_fault res at' x h = (
  subst (Returns (Strands inp s)) (sym (decide-eq-decide_in inp ControllerState.fault (rw ev) at)) (
      subst (λ e. Returns (Strands inp s) (fault_on inp e)) (sym ev)
        (clear-Strands inp s fault es ef rec_fault res)),
  subst (Returns (λ d. (d.no_op ≡ true) × (session_after later.session d ≡ later.session)))
      (sym (decide-eq-decide_in later ControllerState.idle (evidence_not_cross later.event h) at'))
      (ignored later later.event x h),
)
