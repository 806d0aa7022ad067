-- ===== src/Machine/ManualClamp.antt =====
-- The bounds of manual watering in state_machine.py.
use moisture_loop.Base.{
  ℕ, ◌+◌, ◌≡◌, ◌≤◌, ◌<◌, ◌↔◌, refl, true, false, Option, none, some, [], ok, Ensures, Ensures-eq_ok,
  arith, subst, sym, ◌∙◌,
}
use moisture_loop.Model.Enums.{
  ControllerState, CompletionReason, SessionMode, FaultCode, allows_manual,
}
use moisture_loop.Model.Observation.{seconds}
use moisture_loop.Model.Event.{ControllerEvent, Duration}
use moisture_loop.Model.Session.{SessionContext}
use moisture_loop.Model.Decision.{TransitionInput, Decision}
use moisture_loop.Machine.Guards.{daily_remaining}
use moisture_loop.Machine.Manual.{ManualRow, is_positive, amount, manual_start, clamp_manual}
use moisture_loop.Machine.Idle.{idle_on, disabled_on}
use moisture_loop.Machine.Watering.{watering_on}
use moisture_loop.Machine.Soaking.{soaking_on, soaking_open_on, soaking_pending_on}
use moisture_loop.Machine.Fault.{fault_on}
use moisture_loop.Machine.Decide.{decide, decide_in, decide_watering, decide_soaking}
use moisture_loop.Machine.Rule.{is_cross_state, decide-eq-decide_in}
use moisture_loop.Machine.Safety.{turns_on}

-- The caps of a manual duration, on a day that is not exhausted.
pub record Clamped (inp : TransitionInput) (requested effective : ℕ) : Type 0 where
  pub within_request : effective ≤ requested
  pub within_manual : effective ≤ seconds inp.config.manual_max_duration_s
  pub within_session : effective ≤ seconds inp.config.max_session_runtime_s
  pub within_day : inp.daily_runtime_s + effective ≤ seconds inp.config.max_daily_runtime_s
  pub is_pulse : 0 < effective

-- The duration is the largest that the caps allow, and a reason is listed exactly if it is less
-- than the request.
clamp_reasons :
    (inp : TransitionInput) (requested : ℕ)
    → ((clamp_manual inp requested).1 ≡ []) ↔ ((clamp_manual inp requested).0 ≡ requested)
unfolding clamp_manual daily_remaining
clamp_reasons inp requested = ground arith

-- A positive amount of every cap.
pub record HasCaps (inp : TransitionInput) : Type 0 where
  pub manual_cap : 0 < inp.config.manual_max_duration_s
  pub session_cap : 0 < inp.config.max_session_runtime_s

abbrev pub FaultAllows : Option FaultCode → Type 0
unfolding allows_manual
FaultAllows none = Unit
FaultAllows (some fault) = allows_manual fault ≡ true

abbrev pub ClampedIf : TransitionInput → ℕ → Option ℕ → Type 0
ClampedIf inp requested none = ⊥
ClampedIf inp requested (some effective) = Clamped inp requested effective

abbrev pub ClampedSession : TransitionInput → ℕ → Option SessionContext → Type 0
ClampedSession inp requested none = ⊥
ClampedSession inp requested (some s) =
    (s.mode ≡ SessionMode.manual)
    × (s.manual_requested_duration_s ≡ some requested)
    × ClampedIf inp requested s.manual_effective_duration_s
    × ((s.manual_clamp_reasons ≡ []) ↔ (s.manual_effective_duration_s ≡ some requested))

-- A manual start that turns the actuator on.
pub record StartsManual (inp : TransitionInput) (requested : Duration) (d : Decision) : Type 0 where
  pub positive : is_positive requested ≡ true
  pub enabled : inp.enabled ≡ true
  pub no_session : inp.session ≡ none
  pub allowed : FaultAllows inp.active_fault
  pub clamped : ClampedSession inp (amount requested) d.session

module _ (inp : TransitionInput) (requested : Duration) where
  abbrev Bounded : Decision → Type 0
  Bounded d = turns_on d ≡ true → StartsManual inp requested d

  clamp-Clamped :
      HasCaps inp
      → 0 < amount requested
      → 0 < daily_remaining inp
      → Clamped inp (amount requested) (clamp_manual inp (amount requested)).0
  unfolding clamp_manual daily_remaining
  clamp-Clamped caps p r = ground arith

  start-Bounded : (row : ManualRow) → HasCaps inp → Ensures Bounded (manual_start inp requested row)
  unfolding manual_start
  start-Bounded row caps = ground (arith, clamp-Clamped caps, clamp_reasons inp (amount requested))

  request : ControllerEvent
  request = ControllerEvent.manual_start_requested requested

  in-Bounded :
      (s : ControllerState) → inp.event ≡ request → HasCaps inp → Ensures Bounded (decide_in inp s)
  unfolding decide_in request
  in-Bounded ControllerState.idle ev caps =
      subst (λ e. Ensures Bounded (idle_on inp e)) (sym ev) (start-Bounded ManualRow.t3 caps)
  in-Bounded ControllerState.disabled ev caps =
      subst (λ e. Ensures Bounded (disabled_on inp e)) (sym ev) (λ h. cc)
  in-Bounded ControllerState.watering ev caps = watering_refuses inp.session
    where
      watering_refuses : (s : Option SessionContext) → Ensures Bounded (decide_watering inp s)
      watering_refuses none = tt
      watering_refuses (some s) =
          subst (λ e. Ensures Bounded (watering_on inp s e)) (sym ev) (λ h. cc)
  in-Bounded ControllerState.soaking ev caps = soaking_refuses inp.session
    where
      pending_refuses :
          (s : SessionContext) (r : Option CompletionReason) → Ensures Bounded (soaking_on inp s r)
      pending_refuses s none =
          subst (λ e. Ensures Bounded (soaking_open_on inp s e)) (sym ev) (λ h. cc)
      pending_refuses s (some r) =
          subst (λ e. Ensures Bounded (soaking_pending_on inp s e)) (sym ev) (λ h. cc)

      soaking_refuses : (s : Option SessionContext) → Ensures Bounded (decide_soaking inp s)
      soaking_refuses none = tt
      soaking_refuses (some s) = pending_refuses s s.pending_termination_reason
  in-Bounded ControllerState.fault ev caps =
      subst (λ e. Ensures Bounded (fault_on inp e)) (sym ev) (start-Bounded ManualRow.t40 caps)

-- A manual request turns the actuator on only if it is finite and positive, the zone is enabled
-- and has no session, and no fault but a sensor fault is latched. The new session then has mode
-- MANUAL and a positive duration within the request, the manual maximum, the session maximum and
-- what is left of the day, and lists a clamp reason exactly if the duration is less than the
-- request. (The two configured maxima are positive.)
pub manual_start_is_bounded :
    (inp : TransitionInput) (requested : Duration) (d : Decision)
    → inp.event ≡ ControllerEvent.manual_start_requested requested
    → HasCaps inp
    → decide inp ≡ ok d
    → turns_on d ≡ true
    → StartsManual inp requested d
unfolding request
manual_start_is_bounded inp requested d ev caps e =
    let not_cross : is_cross_state inp.event ≡ false = rw ev in
    Ensures-eq_ok (Bounded inp requested) (decide_in inp inp.state)
      (in-Bounded inp requested inp.state ev caps)
      (sym (decide-eq-decide_in inp inp.state not_cross refl) ∙ e)
