-- ===== src/Machine/Arbitration.antt =====
-- Which terminal request owns a session of the WATERING handlers of state_machine.py.
use moisture_loop.Base.{
  ◌≡◌, Bool, true, false, Option, none, some, ok, Ensures, Ensures-eq_ok, Ensures-all, Ensures-if,
  arith, subst, sym,
}
use moisture_loop.Model.Enums.{ControllerState, CompletionReason}
use moisture_loop.Model.Event.{ControllerEvent}
use moisture_loop.Model.Session.{SessionContext}
use moisture_loop.Model.Decision.{TransitionInput, Decision}
use moisture_loop.Machine.Finalize.{unconfirmed_reason}
use moisture_loop.Machine.Idle.{integrity_lost, on_configuration_invalid}
use moisture_loop.Machine.Watering.{watering_on}
use moisture_loop.Machine.Decide.{decide}
use moisture_loop.Machine.Rule.{Handlers, decide_rule}

-- Startup reconciliation replaces the reason; an OFF that stays unproven may supersede it.
abbrev pub is_startup : ControllerEvent → Bool
is_startup (ControllerEvent.startup_persisted_watering _) = true
is_startup _ = false

abbrev pub is_off_failure : ControllerEvent → Bool
is_off_failure ControllerEvent.off_not_confirmed = true
is_off_failure _ = false

-- The reason that the session of a decision has after the event.
abbrev pending_after : ControllerEvent → CompletionReason → CompletionReason
pending_after ControllerEvent.off_not_confirmed r = unconfirmed_reason (some r)
pending_after _ r = r

abbrev KeepsPending : ControllerEvent → CompletionReason → Option SessionContext → Type 0
KeepsPending e r none = Unit
KeepsPending e r (some s) = s.pending_termination_reason ≡ some (pending_after e r)

pub record Honours (e : ControllerEvent) (r : CompletionReason) (d : Decision) : Type 0 where
  pub kept : KeepsPending e r d.session
  pub owned : d.clear_session ≡ true → d.reason ≡ some r

watering-Honours :
    (inp : TransitionInput) (s : SessionContext) (e : ControllerEvent) (r : CompletionReason)
    → s.pending_termination_reason ≡ some r
    → is_startup e ≡ false
    → Ensures (Honours e r) (watering_on inp s e)
unfolding watering_on
watering-Honours inp s ControllerEvent.auto_evaluate r p h = ground arith
watering-Honours inp s _ r p h = ground arith

-- A commit without startup reconciliation, in WATERING.
abbrev Committed : SessionContext → CompletionReason → TransitionInput → Type 0
Committed s r inp =
    (inp.state ≡ ControllerState.watering)
    × (inp.session ≡ some s)
    × (s.pending_termination_reason ≡ some r)
    × (is_startup inp.event ≡ false)

module _ (s : SessionContext) (r : CompletionReason) where
  abbrev Arbitrates : TransitionInput → Decision → Type 0
  Arbitrates inp d = Committed s r inp → Honours inp.event r d

  watering-Arbitrates :
      (inp : TransitionInput) (session : SessionContext) (e : ControllerEvent)
      → inp.event ≡ e
      → inp.session ≡ some session
      → Committed s r inp
      → Ensures (Honours inp.event r) (watering_on inp session e)
  watering-Arbitrates inp session e ev es c =
      let p : session.pending_termination_reason ≡ some r = ground arith in
      let h : is_startup e ≡ false = ground arith in
      subst (λ e'. Ensures (Honours e' r) (watering_on inp session e)) (sym ev)
        (watering-Honours inp session e r p h)

  handlers-Arbitrates : Handlers Arbitrates
  unfolding integrity_lost on_configuration_invalid
  handlers-Arbitrates = record {
    integrity = λ inp c. ground arith;
    setup = λ inp c. ground arith;
    idle = λ inp e ev at. Ensures-all (Arbitrates inp) _ (λ d c. ground arith);
    disabled = λ inp e ev at. Ensures-all (Arbitrates inp) _ (λ d c. ground arith);
    watering = λ inp session e ev at es.
        Ensures-if (Honours inp.event r) _ (watering-Arbitrates inp session e ev es);
    soaking_open =
        λ inp session e ev at es free. Ensures-all (Arbitrates inp) _ (λ d c. ground arith);
    soaking_pending =
        λ inp session e ev at es. Ensures-all (Arbitrates inp) _ (λ d c. ground arith);
    fault = λ inp e ev at. Ensures-all (Arbitrates inp) _ (λ d c. ground arith);
  }

-- The first terminal request owns a WATERING session: once a reason is committed, every later
-- event but startup reconciliation leaves that reason in any session it sets, and ends a session
-- with that reason only. The one exception is an OFF that stays unproven: the session it sets has
-- RESTART_RECOVERY if that was committed and ACTUATOR_FAULT otherwise.
pub first_terminal_request_owns :
    (inp : TransitionInput) (s : SessionContext) (r : CompletionReason) (d : Decision)
    → inp.state ≡ ControllerState.watering
    → inp.session ≡ some s
    → s.pending_termination_reason ≡ some r
    → is_startup inp.event ≡ false
    → decide inp ≡ ok d
    → Honours inp.event r d
first_terminal_request_owns inp s r d w es p h e =
    Ensures-eq_ok (Arbitrates s r inp) (decide inp)
      (decide_rule (Arbitrates s r) (handlers-Arbitrates s r) inp) e (w, es, p, h)
