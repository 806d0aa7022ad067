-- ===== src/Machine/Rule.antt =====
-- The proof rule of `decide`: what every handler ensures, the decision function ensures.
use moisture_loop.Base.{
  ◌≡◌, refl, ap, sym, subst, ◌∙◌, Bool, true, false, Option, none, some, Ensures,
}
use moisture_loop.Model.Enums.{ControllerState, CompletionReason}
use moisture_loop.Model.Session.{SessionContext}
use moisture_loop.Model.Event.{ControllerEvent}
use moisture_loop.Model.Decision.{TransitionInput, Decision, Row}
use moisture_loop.Machine.Idle.{integrity_lost, on_configuration_invalid, idle_on, disabled_on}
use moisture_loop.Machine.Watering.{watering_on}
use moisture_loop.Machine.Soaking.{soaking_on, soaking_open_on, soaking_pending_on}
use moisture_loop.Machine.Fault.{fault_on}
use moisture_loop.Machine.Decide.{decide, decide_on, decide_in, decide_watering, decide_soaking}

-- The obligations of a property, one for each group of handlers.
pub record Handlers (P : TransitionInput → Decision → Type 0) : Type 0 where
  pub integrity : (inp : TransitionInput) → P inp (integrity_lost inp)
  pub setup : (inp : TransitionInput) → P inp (on_configuration_invalid inp Row.t53)
  pub idle :
      (inp : TransitionInput) (e : ControllerEvent)
      → inp.event ≡ e
      → inp.state ≡ ControllerState.idle
      → Ensures (P inp) (idle_on inp e)
  pub disabled :
      (inp : TransitionInput) (e : ControllerEvent)
      → inp.event ≡ e
      → inp.state ≡ ControllerState.disabled
      → Ensures (P inp) (disabled_on inp e)
  pub watering :
      (inp : TransitionInput) (session : SessionContext) (e : ControllerEvent)
      → inp.event ≡ e
      → inp.state ≡ ControllerState.watering
      → inp.session ≡ some session
      → Ensures (P inp) (watering_on inp session e)
  pub soaking_open :
      (inp : TransitionInput) (session : SessionContext) (e : ControllerEvent)
      → inp.event ≡ e
      → inp.state ≡ ControllerState.soaking
      → inp.session ≡ some session
      → session.pending_termination_reason ≡ none
      → Ensures (P inp) (soaking_open_on inp session e)
  pub soaking_pending :
      (inp : TransitionInput) (session : SessionContext) (e : ControllerEvent)
      → inp.event ≡ e
      → inp.state ≡ ControllerState.soaking
      → inp.session ≡ some session
      → Ensures (P inp) (soaking_pending_on inp session e)
  pub fault :
      (inp : TransitionInput) (e : ControllerEvent)
      → inp.event ≡ e
      → inp.state ≡ ControllerState.fault
      → Ensures (P inp) (fault_on inp e)

module _ (P : TransitionInput → Decision → Type 0) (h : Handlers P) where
  soaking_rule :
      (inp : TransitionInput) (session : SessionContext) (pending : Option CompletionReason)
      → inp.state ≡ ControllerState.soaking
      → inp.session ≡ some session
      → session.pending_termination_reason ≡ pending
      → Ensures (P inp) (soaking_on inp session pending)
  unfolding soaking_on
  soaking_rule inp session none at e free = h.soaking_open inp session inp.event refl at e free
  soaking_rule inp session (some r) at e committed =
      h.soaking_pending inp session inp.event refl at e

  with_session :
      (inp : TransitionInput) (s : Option SessionContext)
      → inp.session ≡ s
      → (inp.state ≡ ControllerState.watering → Ensures (P inp) (decide_watering inp s))
        × (inp.state ≡ ControllerState.soaking → Ensures (P inp) (decide_soaking inp s))
  unfolding decide_watering decide_soaking
  with_session inp none e = (λ at. tt, λ at. tt)
  with_session inp (some session) e = (
    λ at. h.watering inp session inp.event refl at e,
    λ at. soaking_rule inp session session.pending_termination_reason at e refl,
  )

  in_rule :
      (inp : TransitionInput) (s : ControllerState)
      → inp.state ≡ s
      → Ensures (P inp) (decide_in inp s)
  unfolding decide_in
  in_rule inp ControllerState.idle at = h.idle inp inp.event refl at
  in_rule inp ControllerState.disabled at = h.disabled inp inp.event refl at
  in_rule inp ControllerState.watering at = (with_session inp inp.session refl).0 at
  in_rule inp ControllerState.soaking at = (with_session inp inp.session refl).1 at
  in_rule inp ControllerState.fault at = h.fault inp inp.event refl at

  on_rule : (inp : TransitionInput) (e : ControllerEvent) → Ensures (P inp) (decide_on inp e)
  unfolding decide_on
  on_rule inp ControllerEvent.store_integrity_lost = h.integrity inp
  on_rule inp (ControllerEvent.configuration_invalid true) = h.setup inp
  on_rule inp _ = in_rule inp inp.state refl

  pub decide_rule : (inp : TransitionInput) → Ensures (P inp) (decide inp)
  unfolding decide
  decide_rule inp = on_rule inp inp.event

-- The two events that are decided alike in every state.
abbrev pub is_cross_state : ControllerEvent → Bool
is_cross_state ControllerEvent.store_integrity_lost = true
is_cross_state (ControllerEvent.configuration_invalid at_setup) = at_setup
is_cross_state _ = false

decide_on_state :
    (inp : TransitionInput) (e : ControllerEvent)
    → is_cross_state e ≡ false
    → decide_on inp e ≡ decide_in inp inp.state
unfolding decide_on
decide_on_state inp ControllerEvent.store_integrity_lost h = cc
decide_on_state inp (ControllerEvent.configuration_invalid true) h = cc
decide_on_state inp _ h = refl

-- Every other event goes to the handlers of the state.
pub decide-eq-decide_in :
    (inp : TransitionInput) (s : ControllerState)
    → is_cross_state inp.event ≡ false
    → inp.state ≡ s
    → decide inp ≡ decide_in inp s
unfolding decide
decide-eq-decide_in inp s h at = decide_on_state inp inp.event h ∙ ap (decide_in inp) at

-- The rule for one soak: the property may name the session.
module _ (Q : Decision → Type 0) (inp : TransitionInput) (s : SessionContext) where
  soak_of :
      ((e : ControllerEvent) → Ensures Q (soaking_open_on inp s e))
      → ((e : ControllerEvent) → Ensures Q (soaking_pending_on inp s e))
      → (pending : Option CompletionReason) → Ensures Q (soaking_on inp s pending)
  unfolding soaking_on
  soak_of open_q pending_q none = open_q inp.event
  soak_of open_q pending_q (some r) = pending_q inp.event

  soak_on :
      Q (integrity_lost inp)
      → Q (on_configuration_invalid inp Row.t53)
      → Ensures Q (soaking_on inp s s.pending_termination_reason)
      → inp.state ≡ ControllerState.soaking
      → inp.session ≡ some s
      → (e : ControllerEvent) → Ensures Q (decide_on inp e)
  unfolding decide_on decide_in decide_soaking
  soak_on lost setup h at es ControllerEvent.store_integrity_lost = lost
  soak_on lost setup h at es (ControllerEvent.configuration_invalid true) = setup
  soak_on lost setup h at es _ =
      subst (λ st. Ensures Q (decide_in inp st)) (sym at)
        (subst (λ o. Ensures Q (decide_soaking inp o)) (sym es) h)

  pub soak_rule :
      Q (integrity_lost inp)
      → Q (on_configuration_invalid inp Row.t53)
      → ((e : ControllerEvent) → Ensures Q (soaking_open_on inp s e))
      → ((e : ControllerEvent) → Ensures Q (soaking_pending_on inp s e))
      → inp.state ≡ ControllerState.soaking
      → inp.session ≡ some s
      → Ensures Q (decide inp)
  unfolding decide
  soak_rule lost setup open_q pending_q at es =
      soak_on lost setup (soak_of open_q pending_q s.pending_termination_reason) at es inp.event
