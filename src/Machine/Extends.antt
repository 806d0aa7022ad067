-- ===== src/Machine/Extends.antt =====
-- How state_machine.py changes a session that it was given.
use moisture_loop.Base.{
  ◌+◌, ◌≡◌, ◌≢◌, ◌≤◌, Option, none, some, ok, Ensures, Ensures-eq_ok, Ensures-all, Ensures-if,
  arith, subst,
}
use moisture_loop.Model.Enums.{ControllerState}
use moisture_loop.Model.Event.{ControllerEvent, Duration}
use moisture_loop.Model.Session.{SessionContext}
use moisture_loop.Model.Decision.{TransitionInput, Decision}
use moisture_loop.Machine.Manual.{ManualRow, manual_start}
use moisture_loop.Machine.Idle.{integrity_lost, on_configuration_invalid, disabled_on}
use moisture_loop.Machine.Watering.{watering_on}
use moisture_loop.Machine.Soaking.{soaking_recheck, soaking_open_on, soaking_pending_on}
use moisture_loop.Machine.Fault.{fault_on}
use moisture_loop.Machine.Decide.{decide}
use moisture_loop.Machine.Rule.{Handlers, decide_rule}

-- What a later value of a session has in common with an earlier one.
pub record Extends (s t : SessionContext) : Type 0 where
  pub same_id : t.session_id ≡ s.session_id
  pub same_mode : t.mode ≡ s.mode
  pub same_start : t.started_at_utc ≡ s.started_at_utc
  pub same_request : t.manual_effective_duration_s ≡ s.manual_effective_duration_s
  pub cycle_grows : s.cycle ≤ t.cycle
  pub cycle_bounded : t.cycle ≤ s.cycle + 1
  pub runtime_grows : s.session_runtime_s ≤ t.session_runtime_s
  pub generation_grows :
      s.sensor_freshness_watchdog_generation ≤ t.sensor_freshness_watchdog_generation

abbrev pub ExtendsIf : SessionContext → Option SessionContext → Type 0
ExtendsIf s none = Unit
ExtendsIf s (some t) = Extends s t

pub record ExtendsSession (s : SessionContext) (d : Decision) : Type 0 where
  pub open_session : ExtendsIf s d.session
  pub closed_session : ExtendsIf s d.final_session

module _ (inp : TransitionInput) (s : SessionContext) where
  manual-ExtendsSession :
      (requested : Duration) (row : ManualRow)
      → inp.session ≡ some s
      → Ensures (ExtendsSession s) (manual_start inp requested row)
  unfolding manual_start
  manual-ExtendsSession requested row es = ground arith

  recheck-ExtendsSession : Ensures (ExtendsSession s) (soaking_recheck inp s)
  unfolding soaking_recheck
  recheck-ExtendsSession = ground arith

  watering-ExtendsSession : (e : ControllerEvent) → Ensures (ExtendsSession s) (watering_on inp s e)
  unfolding watering_on
  watering-ExtendsSession ControllerEvent.auto_evaluate = ground arith
  watering-ExtendsSession _ = ground arith

  soaking_open-ExtendsSession :
      (e : ControllerEvent) → Ensures (ExtendsSession s) (soaking_open_on inp s e)
  unfolding soaking_open_on
  soaking_open-ExtendsSession ControllerEvent.auto_evaluate = ground (arith, recheck-ExtendsSession)
  soaking_open-ExtendsSession _ = ground (arith, recheck-ExtendsSession)

  soaking_pending-ExtendsSession :
      (e : ControllerEvent) → Ensures (ExtendsSession s) (soaking_pending_on inp s e)
  unfolding soaking_pending_on
  soaking_pending-ExtendsSession ControllerEvent.auto_evaluate = ground arith
  soaking_pending-ExtendsSession _ = ground arith

  disabled-ExtendsSession :
      (e : ControllerEvent) → inp.session ≡ some s → Ensures (ExtendsSession s) (disabled_on inp e)
  unfolding disabled_on
  disabled-ExtendsSession ControllerEvent.auto_evaluate es = ground arith
  disabled-ExtendsSession _ es = ground arith

  fault-ExtendsSession :
      (e : ControllerEvent) → inp.session ≡ some s → Ensures (ExtendsSession s) (fault_on inp e)
  unfolding fault_on
  fault-ExtendsSession (ControllerEvent.manual_start_requested r) es =
      manual-ExtendsSession r ManualRow.t40 es
  fault-ExtendsSession _ es = ground arith

module _ (s : SessionContext) where
  -- In IDLE there is no session to extend.
  abbrev InSession : TransitionInput → Type 0
  InSession inp = (inp.state ≢ ControllerState.idle) × (inp.session ≡ some s)

  abbrev Continues : TransitionInput → Decision → Type 0
  Continues inp d = InSession inp → ExtendsSession s d

  at_session :
      (P : SessionContext → Type 0) (inp : TransitionInput) (session : SessionContext)
      → inp.session ≡ some session
      → P s
      → InSession inp
      → P session
  at_session P inp session es p c = let e : s ≡ session = ground arith in subst P e p

  handlers-Continues : Handlers Continues
  unfolding integrity_lost on_configuration_invalid
  handlers-Continues = record {
    integrity = λ inp c. ground arith;
    setup = λ inp c. ground arith;
    idle = λ inp e ev at. Ensures-all (Continues inp) _ (λ d c. absurd (c.0 at));
    disabled =
        λ inp e ev at. Ensures-if (ExtendsSession s) _ (λ c. disabled-ExtendsSession inp s e c.1);
    watering = λ inp session e ev at es. Ensures-if (ExtendsSession s) _ (
        at_session (λ t. Ensures (ExtendsSession s) (watering_on inp t e)) inp session es
          (watering-ExtendsSession inp s e));
    soaking_open = λ inp session e ev at es free. Ensures-if (ExtendsSession s) _ (
        at_session (λ t. Ensures (ExtendsSession s) (soaking_open_on inp t e)) inp session es
          (soaking_open-ExtendsSession inp s e));
    soaking_pending = λ inp session e ev at es. Ensures-if (ExtendsSession s) _ (
        at_session (λ t. Ensures (ExtendsSession s) (soaking_pending_on inp t e)) inp session es
          (soaking_pending-ExtendsSession inp s e));
    fault = λ inp e ev at. Ensures-if (ExtendsSession s) _ (λ c. fault-ExtendsSession inp s e c.1);
  }

-- Outside IDLE, the session that a decision sets and the session that it closes continue the
-- session it was given: same identity, mode, start and manual duration, at most one cycle more,
-- and no accounted runtime or watchdog generation is ever lost.
pub decide-ExtendsSession :
    (inp : TransitionInput) (s : SessionContext) (d : Decision)
    → inp.state ≢ ControllerState.idle
    → inp.session ≡ some s
    → decide inp ≡ ok d
    → ExtendsSession s d
decide-ExtendsSession inp s d w es e =
    Ensures-eq_ok (Continues s inp) (decide inp)
      (decide_rule (Continues s) (handlers-Continues s) inp) e (w, es)
