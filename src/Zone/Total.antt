-- ===== src/Zone/Total.antt =====
-- In a coherent zone `decide` raises nothing, and its decision leads to a coherent zone.
use moisture_loop.Base.{
  ◌≡◌, refl, true, false, Option, none, some, is_some, Returns, arith, subst, sym,
}
use moisture_loop.Model.Enums.{ControllerState, CompletionReason, is_sensor_only}
use moisture_loop.Model.Observation.{MoistureObservation, validate}
use moisture_loop.Model.Session.{SessionContext}
use moisture_loop.Model.Event.{ControllerEvent, Duration}
use moisture_loop.Model.Decision.{TransitionInput, Decision}
use moisture_loop.Machine.Guards.{fresh_valid, post_qualifies, is_valid}
use moisture_loop.Machine.Auto.{evaluate_auto_start}
use moisture_loop.Machine.Manual.{ManualRow, manual_start}
use moisture_loop.Machine.Idle.{idle_on, disabled_on}
use moisture_loop.Machine.Watering.{watering_on}
use moisture_loop.Machine.Soaking.{soaking_on, soaking_recheck, soaking_open_on, soaking_pending_on}
use moisture_loop.Machine.Fault.{fault_on}
use moisture_loop.Machine.Decide.{decide, decide_in, decide_watering, decide_soaking}
use moisture_loop.Machine.Rule.{is_cross_state, decide-eq-decide_in}
use moisture_loop.Zone.{state_after, session_after, fault_after}
use moisture_loop.Zone.Coherent.{WateringOk, SoakingOk, DisabledOk, StateOk, EventOk}

abbrev pub After : TransitionInput → Decision → Type 0
After inp d =
    StateOk (state_after inp.state d) (session_after inp.session d) (fault_after inp.active_fault d)

abbrev HasReading : MoistureObservation → Type 0
HasReading o = (is_some o.value ≡ true) × (is_some o.reported_at_utc ≡ true)

validate-HasReading :
    (o : MoistureObservation) → validate o ≡ true → is_valid o.classification ≡ true → HasReading o
unfolding validate
validate-HasReading o h v = ground arith

module _ (inp : TransitionInput) (reading : validate inp.observation ≡ true)
    (identity : is_some inp.new_session_identity ≡ true) where
  fresh-HasReading : fresh_valid inp ≡ true → HasReading inp.observation
  unfolding fresh_valid
  fresh-HasReading h = ground (arith, validate-HasReading inp.observation reading)

  evaluate-Returns :
      inp.state ≡ ControllerState.idle
      → inp.session ≡ none
      → Returns (After inp) (evaluate_auto_start inp)
  unfolding evaluate_auto_start
  evaluate-Returns at es = ground (arith, fresh-HasReading)

  manual_idle-Returns :
      (requested : Duration)
      → inp.state ≡ ControllerState.idle
      → inp.session ≡ none
      → Returns (After inp) (manual_start inp requested ManualRow.t3)
  unfolding manual_start
  manual_idle-Returns requested at es = ground arith

  manual_fault-Returns :
      (requested : Duration)
      → inp.state ≡ ControllerState.fault
      → StateOk ControllerState.fault inp.session inp.active_fault
      → Returns (After inp) (manual_start inp requested ManualRow.t40)
  unfolding manual_start
  manual_fault-Returns requested at h = ground arith

  idle-Returns :
      (e : ControllerEvent)
      → inp.state ≡ ControllerState.idle
      → inp.session ≡ none
      → Returns (After inp) (idle_on inp e)
  unfolding idle_on
  idle-Returns ControllerEvent.auto_evaluate at es = evaluate-Returns at es
  idle-Returns (ControllerEvent.moisture_report obs) at es = evaluate-Returns at es
  idle-Returns ControllerEvent.slot_granted at es = evaluate-Returns at es
  idle-Returns (ControllerEvent.manual_start_requested r) at es = manual_idle-Returns r at es
  idle-Returns _ at es = ground arith

  disabled-Returns :
      (e : ControllerEvent)
      → inp.state ≡ ControllerState.disabled
      → DisabledOk inp.session inp.active_fault
      → Returns (After inp) (disabled_on inp e)
  unfolding disabled_on
  disabled-Returns ControllerEvent.auto_evaluate at h = ground arith
  disabled-Returns _ at h = ground arith

  watering-Returns :
      (s : SessionContext) (e : ControllerEvent)
      → inp.state ≡ ControllerState.watering
      → inp.session ≡ some s
      → WateringOk s inp.active_fault
      → EventOk (some s) e
      → Returns (After inp) (watering_on inp s e)
  unfolding watering_on is_sensor_only validate
  watering-Returns s ControllerEvent.auto_evaluate at es h ev = ground arith
  watering-Returns s _ at es h ev = ground arith

  recheck-Returns :
      (s : SessionContext)
      → inp.state ≡ ControllerState.soaking
      → inp.session ≡ some s
      → SoakingOk s
      → s.pending_termination_reason ≡ none
      → fresh_valid inp ≡ true
      → Returns (After inp) (soaking_recheck inp s)
  unfolding soaking_recheck
  recheck-Returns s at es h free f = ground (arith, fresh-HasReading f)

  post_fresh : post_qualifies inp ≡ true → fresh_valid inp ≡ true
  unfolding post_qualifies
  post_fresh h = ground arith

  soaking_open-Returns :
      (s : SessionContext) (e : ControllerEvent)
      → inp.state ≡ ControllerState.soaking
      → inp.session ≡ some s
      → SoakingOk s
      → s.pending_termination_reason ≡ none
      → EventOk (some s) e
      → Returns (After inp) (soaking_open_on inp s e)
  unfolding soaking_open_on
  soaking_open-Returns s ControllerEvent.auto_evaluate at es h free ev =
      ground (arith, post_fresh, recheck-Returns s at es h free)
  soaking_open-Returns s _ at es h free ev =
      ground (arith, post_fresh, recheck-Returns s at es h free)

  soaking_pending-Returns :
      (s : SessionContext) (e : ControllerEvent)
      → inp.state ≡ ControllerState.soaking
      → inp.session ≡ some s
      → SoakingOk s
      → is_some s.pending_termination_reason ≡ true
      → Returns (After inp) (soaking_pending_on inp s e)
  unfolding soaking_pending_on
  soaking_pending-Returns s ControllerEvent.auto_evaluate at es h p = ground arith
  soaking_pending-Returns s _ at es h p = ground arith

  fault-Returns :
      (e : ControllerEvent)
      → inp.state ≡ ControllerState.fault
      → StateOk ControllerState.fault inp.session inp.active_fault
      → EventOk inp.session e
      → Returns (After inp) (fault_on inp e)
  unfolding fault_on
  fault-Returns (ControllerEvent.manual_start_requested r) at h ev = manual_fault-Returns r at h
  fault-Returns _ at h ev = ground arith

  with_session :
      (s : Option SessionContext)
      → inp.session ≡ s
      → (inp.state ≡ ControllerState.watering
          → StateOk ControllerState.watering s inp.active_fault
          → EventOk s inp.event
          → Returns (After inp) (decide_watering inp s))
        × (inp.state ≡ ControllerState.soaking
            → StateOk ControllerState.soaking s inp.active_fault
            → EventOk s inp.event
            → Returns (After inp) (decide_soaking inp s))
  unfolding decide_watering decide_soaking soaking_on
  with_session none es = (λ at h ev. absurd h, λ at h ev. absurd h)
  with_session (some s) es = (
    λ at h ev. watering-Returns s inp.event at es h ev,
    λ at h ev. by_pending at h ev s.pending_termination_reason refl,
  )
    where
      by_pending :
          inp.state ≡ ControllerState.soaking
          → SoakingOk s
          → EventOk (some s) inp.event
          → (pending : Option CompletionReason) → s.pending_termination_reason ≡ pending
          → Returns (After inp) (soaking_on inp s pending)
      by_pending at h ev none free = soaking_open-Returns s inp.event at es h free ev
      by_pending at h ev (some r) p = soaking_pending-Returns s inp.event at es h (ground arith)

  in-Returns :
      (s : ControllerState)
      → inp.state ≡ s
      → StateOk s inp.session inp.active_fault
      → EventOk inp.session inp.event
      → Returns (After inp) (decide_in inp s)
  unfolding decide_in
  in-Returns ControllerState.idle at h ev = idle-Returns inp.event at h
  in-Returns ControllerState.disabled at h ev = disabled-Returns inp.event at h
  in-Returns ControllerState.watering at h ev = (with_session inp.session refl).0 at h ev
  in-Returns ControllerState.soaking at h ev = (with_session inp.session refl).1 at h ev
  in-Returns ControllerState.fault at h ev = fault-Returns inp.event at h ev

EventOk-not_cross :
    (session : Option SessionContext) (e : ControllerEvent)
    → EventOk session e
    → is_cross_state e ≡ false
EventOk-not_cross session ControllerEvent.auto_evaluate h = refl
EventOk-not_cross session _ h = ground arith

-- In a coherent zone, with a valid observation, an identity for a new session and an event that
-- `EventOk` admits, `decide` returns: no ValueError, failed assertion or missing key. The state,
-- session and fault after the decision are coherent again.
pub decide-Returns :
    (inp : TransitionInput)
    → StateOk inp.state inp.session inp.active_fault
    → validate inp.observation ≡ true
    → is_some inp.new_session_identity ≡ true
    → EventOk inp.session inp.event
    → Returns (After inp) (decide inp)
decide-Returns inp h reading identity ev =
    subst (Returns (After inp))
      (sym (decide-eq-decide_in inp inp.state (EventOk-not_cross inp.session inp.event ev) refl))
      (in-Returns inp reading identity inp.state refl h ev)
