-- ===== src/Machine/Recheck.antt =====
-- How state_machine.py decides a soak: only on a qualifying report, and by which limit.
use moisture_loop.Base.{
  ℕ, ◌+◌, ◌≡◌, ◌≤◌, ◌<◌, true, Option, none, some, ok, Ensures, Ensures-eq_ok, arith,
}
use moisture_loop.Model.Enums.{ControllerState, MoistureClassification}
use moisture_loop.Model.Observation.{seconds}
use moisture_loop.Model.Event.{ControllerEvent}
use moisture_loop.Model.Session.{SessionContext}
use moisture_loop.Model.Decision.{TransitionInput, Decision, Row}
use moisture_loop.Machine.Guards.{fresh_valid, daily_fits, session_fits, post_qualifies}
use moisture_loop.Machine.Idle.{integrity_lost, on_configuration_invalid}
use moisture_loop.Machine.Soaking.{soaking_recheck, soaking_open_on, soaking_pending_on}
use moisture_loop.Machine.Decide.{decide}
use moisture_loop.Machine.Rule.{soak_rule}
use moisture_loop.Machine.AutoStart.{Recent}

abbrev NotBefore : Option ℕ → Option ℕ → Type 0
NotBefore (some at) (some not_before) = not_before ≤ at
NotBefore _ _ = ⊥

-- G-POST, written out.
pub record Qualifies (inp : TransitionInput) (s : SessionContext) : Type 0 where
  pub valid : inp.observation.classification ≡ MoistureClassification.valid
  pub fresh : Recent inp.observation.reported_at_utc inp.config.sensor_max_age_s inp.now_utc
  pub after_soak : NotBefore inp.observation.reported_at_utc s.recheck_not_before_utc

abbrev AtLeast : Option ℕ → ℕ → Type 0
AtLeast none threshold = ⊥
AtLeast (some value) threshold = threshold ≤ value

abbrev Under : Option ℕ → ℕ → Type 0
Under none threshold = ⊥
Under (some value) threshold = value < threshold

module _ (inp : TransitionInput) (s : SessionContext) where
  abbrev SessionFits : Type 0
  SessionFits =
      s.session_runtime_s + seconds inp.config.pulse_duration_s
      ≤ seconds inp.config.max_session_runtime_s

  abbrev DayFits : Type 0
  DayFits =
      inp.daily_runtime_s + seconds inp.config.pulse_duration_s
      ≤ seconds inp.config.max_daily_runtime_s

  abbrev Dry : Type 0
  Dry = Under inp.observation.value inp.config.target_threshold

  -- What each row of a recheck says of the reading and of the limits, in their order.
  abbrev pub Justifies : Row → Type 0
  Justifies Row.t24 = Qualifies inp s × AtLeast inp.observation.value inp.config.target_threshold
  Justifies Row.t25 =
      Qualifies inp s × Dry × (s.cycle < inp.config.max_cycles) × SessionFits × DayFits
  Justifies Row.t26 = Qualifies inp s × Dry × (inp.config.max_cycles ≤ s.cycle)
  Justifies Row.t27 = Qualifies inp s × Dry × (s.cycle < inp.config.max_cycles) × (SessionFits → ⊥)
  Justifies Row.t28 =
      Qualifies inp s × Dry × (s.cycle < inp.config.max_cycles) × SessionFits × (DayFits → ⊥)
  Justifies _ = Unit

  abbrev JustifiedIf : Option Row → Type 0
  JustifiedIf none = Unit
  JustifiedIf (some row) = Justifies row

  abbrev pub Justified : Decision → Type 0
  Justified d = JustifiedIf d.transition_id

  abbrev Qualified : Type 0
  Qualified = (inp.session ≡ some s) × (post_qualifies inp ≡ true)

  qualified : inp.session ≡ some s → post_qualifies inp ≡ true → Qualifies inp s
  unfolding post_qualifies fresh_valid
  qualified es q = ground arith

  recheck-Justified : Qualifies inp s → Ensures Justified (soaking_recheck inp s)
  unfolding soaking_recheck daily_fits session_fits
  recheck-Justified q = ground arith

  open-Justified :
      (e : ControllerEvent) → inp.session ≡ some s → Ensures Justified (soaking_open_on inp s e)
  unfolding soaking_open_on
  open-Justified ControllerEvent.auto_evaluate es = ground (arith, recheck-Justified, qualified es)
  open-Justified _ es = ground (arith, recheck-Justified, qualified es)

  pending-Justified : (e : ControllerEvent) → Ensures Justified (soaking_pending_on inp s e)
  unfolding soaking_pending_on
  pending-Justified ControllerEvent.auto_evaluate = ground arith
  pending-Justified _ = ground arith

-- In SOAKING with a session, a decision by one of the rows T24 to T28 is made on a VALID report that
-- is not older than the maximum age and was made at or after the soak deadline. T24 finds the
-- reading at or above the target; the others find it below: T26 with no cycle left, T27 with a
-- cycle left and no pulse that fits the session, T28 with both and no pulse that fits the day,
-- and T25, the next pulse, with all three.
pub decide-Justified :
    (inp : TransitionInput) (s : SessionContext) (d : Decision)
    → inp.state ≡ ControllerState.soaking
    → inp.session ≡ some s
    → decide inp ≡ ok d
    → Justified inp s d
unfolding integrity_lost on_configuration_invalid
decide-Justified inp s d at es e =
    Ensures-eq_ok (Justified inp s) (decide inp)
      (soak_rule (Justified inp s) inp s tt tt (λ ev. open-Justified inp s ev es)
        (λ ev. pending-Justified inp s ev) at es)
      e
