-- ===== src/Machine/AutoStart.antt =====
-- When state_machine.py starts an AUTO session, and what the session is.
use moisture_loop.Base.{
  ℕ, ◌+◌, ◌≡◌, ◌≤◌, ◌<◌, refl, Bool, true, false, Option, none, some, Ensures, Returns, arith, ◌∙◌,
  subst, sym,
}
use moisture_loop.Model.Enums.{ControllerState, SessionMode, MoistureClassification}
use moisture_loop.Model.Observation.{seconds}
use moisture_loop.Model.Event.{ControllerEvent}
use moisture_loop.Model.Session.{SessionContext, SessionIdentity}
use moisture_loop.Model.Decision.{TransitionInput, Decision, Row}
use moisture_loop.Machine.Guards.{fresh_valid, interval_elapsed, actuator_ready, daily_fits}
use moisture_loop.Machine.Auto.{evaluate_auto_start}
use moisture_loop.Machine.Idle.{idle_on}
use moisture_loop.Machine.Decide.{decide, decide_in}
use moisture_loop.Machine.Rule.{is_cross_state, decide-eq-decide_in}
use moisture_loop.Machine.Safety.{turns_on}

abbrev Below : Option ℕ → ℕ → Type 0
Below none threshold = ⊥
Below (some value) threshold = value < threshold

abbrev pub Recent : Option ℕ → ℕ → ℕ → Type 0
Recent none max_age now = ⊥
Recent (some at) max_age now = now ≤ at + seconds max_age

abbrev Rested : Option ℕ → ℕ → ℕ → Type 0
Rested none interval now = Unit
Rested (some ended) interval now = ended + seconds interval ≤ now

-- The guards of T1, written out.
pub record AutoReady (inp : TransitionInput) : Type 0 where
  pub enabled : inp.enabled ≡ true
  pub valid : inp.observation.classification ≡ MoistureClassification.valid
  pub fresh : Recent inp.observation.reported_at_utc inp.config.sensor_max_age_s inp.now_utc
  pub dry : Below inp.observation.value inp.config.start_threshold
  pub rested : Rested inp.last_session_end_utc inp.config.min_session_interval_s inp.now_utc
  pub available : inp.actuator.available ≡ true
  pub proven_off : inp.actuator.proven_off ≡ true
  pub fits_day :
      inp.daily_runtime_s + seconds inp.config.pulse_duration_s
      ≤ seconds inp.config.max_daily_runtime_s
  pub slot_granted : inp.resource.slot_granted ≡ true
  pub blockers_empty : inp.resource.blockers_empty ≡ true

-- The session that T1 creates.
abbrev FirstPulse : TransitionInput → SessionIdentity → Option SessionContext → Type 0
FirstPulse inp identity none = ⊥
FirstPulse inp identity (some s) =
    (s.session_id ≡ identity.session_id)
    × (s.mode ≡ SessionMode.auto)
    × (s.cycle ≡ 1)
    × (s.session_runtime_s ≡ 0)
    × (s.pulse_intent_at_utc ≡ some inp.now_utc)
    × (s.pending_termination_reason ≡ none)

-- The decision of T1.
pub record Starts (inp : TransitionInput) (identity : SessionIdentity) (d : Decision) : Type 0 where
  pub row : d.transition_id ≡ some Row.t1
  pub on : turns_on d ≡ true
  pub session : FirstPulse inp identity d.session

-- The events that evaluate an automatic start.
abbrev pub is_trigger : ControllerEvent → Bool
is_trigger ControllerEvent.auto_evaluate = true
is_trigger (ControllerEvent.moisture_report _) = true
is_trigger ControllerEvent.slot_granted = true
is_trigger _ = false

evaluate-Starts :
    (inp : TransitionInput) (identity : SessionIdentity)
    → inp.new_session_identity ≡ some identity
    → AutoReady inp
    → Returns (Starts inp identity) (evaluate_auto_start inp)
unfolding evaluate_auto_start fresh_valid interval_elapsed actuator_ready daily_fits
evaluate-Starts inp identity i r = ground arith

evaluate-needs :
    (inp : TransitionInput)
    → Ensures (λ d. turns_on d ≡ true → AutoReady inp) (evaluate_auto_start inp)
unfolding evaluate_auto_start fresh_valid interval_elapsed actuator_ready daily_fits
evaluate-needs inp = ground arith

idle_trigger :
    (inp : TransitionInput) (e : ControllerEvent)
    → is_trigger e ≡ true
    → idle_on inp e ≡ evaluate_auto_start inp
unfolding idle_on
idle_trigger inp ControllerEvent.auto_evaluate h = refl
idle_trigger inp (ControllerEvent.moisture_report _) h = refl
idle_trigger inp ControllerEvent.slot_granted h = refl
idle_trigger inp _ h = cc

trigger_not_cross : (e : ControllerEvent) → is_trigger e ≡ true → is_cross_state e ≡ false
trigger_not_cross ControllerEvent.auto_evaluate h = refl
trigger_not_cross _ h = ground arith

pub decide_trigger :
    (inp : TransitionInput)
    → inp.state ≡ ControllerState.idle
    → is_trigger inp.event ≡ true
    → evaluate_auto_start inp ≡ decide inp
unfolding decide_in
decide_trigger inp at h = sym (
    decide-eq-decide_in inp ControllerState.idle (trigger_not_cross inp.event h) at
    ∙ idle_trigger inp inp.event h)

-- In IDLE, with an identity given, an evaluation turns the actuator on exactly if the zone is
-- enabled, the reading is VALID, not older than the maximum age and strictly below the start
-- threshold, the minimum interval since the last session has passed, the actuator is available and
-- proven OFF, one whole pulse fits the day, and the slot is granted with no blocker. The first
-- half also says that the evaluation returns, by T1, with a new AUTO session in its first cycle
-- and no runtime.
pub auto_start_iff :
    (inp : TransitionInput) (identity : SessionIdentity)
    → inp.state ≡ ControllerState.idle
    → is_trigger inp.event ≡ true
    → inp.new_session_identity ≡ some identity
    → (AutoReady inp → Returns (Starts inp identity) (decide inp))
      × Ensures (λ d. turns_on d ≡ true → AutoReady inp) (decide inp)
auto_start_iff inp identity at h i = (
  λ r.
      subst (Returns (Starts inp identity)) (decide_trigger inp at h)
        (evaluate-Starts inp identity i r),
  subst (Ensures (λ d. turns_on d ≡ true → AutoReady inp)) (decide_trigger inp at h)
      (evaluate-needs inp),
)
