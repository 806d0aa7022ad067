-- ===== src/Zone/Gate/Starting.antt =====
-- zone_controller.py: the final ON gate, asked for a session that an evaluation has just started.
use text.Mathlib.TextEquality.{eq_iff}
use moisture_loop.Base.{
  ℕ, ◌+◌, ◌≡◌, ◌≤◌, ◌<◌, ◌↔◌, refl, true, false, none, some, [], ◌∷◌, ok, arith, sym, ◌∙◌,
}
use moisture_loop.Model.Enums.{ControllerState}
use moisture_loop.Model.Observation.{ZoneConfig, seconds, is_fresh}
use moisture_loop.Model.Event.{ControllerEvent, Action}
use moisture_loop.Model.Decision.{TransitionInput, Decision, Row}
use moisture_loop.Machine.Guards.{fresh_valid, interval_elapsed, actuator_ready, daily_fits}
use moisture_loop.Machine.Auto.{first_pulse, pulse_decision, evaluate_auto_start}
use moisture_loop.Machine.AutoStart.{AutoReady, is_trigger, decide_trigger}
use moisture_loop.Zone.{
  Zone, Surroundings, build_input, returned, apply_decision, after_decide, dispatch,
}
use moisture_loop.Zone.Gate.{GateContext, final_on_guard_failures}

-- The gate asked at a time in the same surroundings, with no OFF operation and no other ON.
abbrev pub asked : Surroundings → ℕ → GateContext
asked w now = record {
  now_utc = now;
  config = w.config;
  observation = w.observation;
  run_id = w.identity.owner_run_id;
  fingerprint = w.identity.config_fingerprint;
  authoritative_daily_runtime_s = w.daily_runtime_s;
  off_operation_active = false;
  another_in_flight = false;
  pre_dispatch = true;
}

-- The configuration admits one pulse of one cycle.
pub record HasPulse (config : ZoneConfig) : Type 0 where
  pub one_cycle : 1 ≤ config.max_cycles
  pub fits_session : config.pulse_duration_s ≤ config.max_session_runtime_s

abbrev first_decision : TransitionInput → Surroundings → ℕ → Decision
unfolding pulse_decision
first_decision inp w fresh_until =
    pulse_decision inp Row.t1 1 fresh_until (Action.emit_session_started ∷ [])
      (first_pulse inp w.identity fresh_until)

evaluates :
    (z : Zone) (w : Surroundings) (e : ControllerEvent) (reported : ℕ)
    → w.observation.reported_at_utc ≡ some reported
    → AutoReady (build_input z w e)
    → evaluate_auto_start (build_input z w e)
      ≡ ok (first_decision (build_input z w e) w (reported + seconds w.config.sensor_max_age_s))
unfolding evaluate_auto_start fresh_valid interval_elapsed actuator_ready daily_fits build_input
evaluates z w e reported at r = ground arith

-- The zone that T1 leaves.
abbrev started : Zone → Surroundings → ℕ → ControllerEvent → Zone
unfolding first_pulse build_input
started z w fresh_until e = record z {
  state = ControllerState.watering;
  session = some (first_pulse (build_input z w e) w.identity fresh_until);
  last_auto_session_start = some w.now_utc;
  armed_watchdog = some (record { generation = 1; deadline_utc = fresh_until });
  on_requested = true;
}

applies :
    (z : Zone) (w : Surroundings) (e : ControllerEvent) (fresh_until : ℕ)
    → z.session ≡ none
    → apply_decision z
        (build_input z w e)
        (λ _. none)
        (first_decision (build_input z w e) w fresh_until)
      ≡ returned (started z w fresh_until e)
unfolding apply_decision build_input first_pulse first_decision
applies z w e fresh_until es = simp es

gate_iff :
    (z : Zone) (w : Surroundings) (e : ControllerEvent) (reported now : ℕ)
    → z.state ≡ ControllerState.idle
    → z.active_fault ≡ none
    → z.off_requested ≡ false
    → w.observation.reported_at_utc ≡ some reported
    → AutoReady (build_input z w e)
    → HasPulse w.config
    → w.now_utc ≤ now
    → (final_on_guard_failures
          (started z w (reported + seconds w.config.sensor_max_age_s) e)
          (asked w now)
          w.identity.session_id
        ≡ [])
      ↔ (now < reported + seconds w.config.sensor_max_age_s)
unfolding final_on_guard_failures first_pulse build_input is_fresh
gate_iff z w e reported now at ef eo er r p l = ground (
  arith,
  (eq_iff w.identity.session_id w.identity.session_id).1 refl,
  (eq_iff w.identity.owner_run_id w.identity.owner_run_id).1 refl,
  (eq_iff w.identity.config_fingerprint w.identity.config_fingerprint).1 refl,
)

-- In IDLE without a session, a fault or a requested OFF, where the guards of T1 hold and the
-- configuration admits one pulse of one cycle, an evaluation whose awaited calls raise nothing returns, and
-- the final ON gate, asked for the new session at any later time in the same surroundings, passes
-- exactly if the reading is then younger than the maximum age. A reading that is just as old as the
-- maximum, which T1 accepts, is refused.
pub auto_start_passes_gate :
    (z : Zone) (w : Surroundings) (e : ControllerEvent) (reported now : ℕ)
    → z.state ≡ ControllerState.idle
    → z.session ≡ none
    → z.active_fault ≡ none
    → z.off_requested ≡ false
    → is_trigger e ≡ true
    → w.observation.reported_at_utc ≡ some reported
    → AutoReady (build_input z w e)
    → HasPulse w.config
    → w.now_utc ≤ now
    → ((dispatch z w (λ _. none) e).error ≡ none)
      × ((final_on_guard_failures
              (dispatch z w (λ _. none) e).zone
              (asked w now)
              w.identity.session_id
            ≡ [])
          ↔ (now < reported + seconds w.config.sensor_max_age_s))
unfolding dispatch after_decide
auto_start_passes_gate z w e reported now at es ef eo t er r p l =
    let inp = build_input z w e in
    let fresh_until = reported + seconds w.config.sensor_max_age_s in
    let decided =
      sym (decide_trigger inp (unfold build_input in at) (unfold build_input in t))
      ∙ evaluates z w e reported er r in
    simp (decided, applies z w e fresh_until es)
      (refl, gate_iff z w e reported now at ef eo er r p l)
