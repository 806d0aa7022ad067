-- ===== src/Machine/Auto.antt =====
-- AUTO starts of state_machine.py: the guard list, T1 and T2, the slot wait, and the pulse that
-- T1 and T25 share.
use moisture_loop.Base.{
  ℕ, ◌+◌, Bool, true, false, ◌&&◌, not, Option, none, some, List, [], ◌∷◌, ◌++◌, ltb, if◌then◌else◌,
  Result, ok, value_error, assertion_error, or_raise, ◌>>=◌,
}
use moisture_loop.Model.Enums.{ControllerState, SessionMode, TimerKind}
use moisture_loop.Model.Observation.{seconds}
use moisture_loop.Model.Session.{SessionContext, SessionIdentity, new_session}
use moisture_loop.Model.Event.{ControllerEvent, Action, PersistTag}
use moisture_loop.Model.Decision.{TransitionInput, Decision, decision, Guard, Row, refusal}
use moisture_loop.Machine.Guards.{fresh_valid, interval_elapsed, actuator_ready, daily_fits}

-- `if failed_test: failed.append(guard)`
abbrev pub when : Bool → Guard → List Guard
when true guard = guard ∷ []
when false guard = []

threshold_failures : TransitionInput → Result (List Guard)
threshold_failures inp =
    if fresh_valid inp
    then (or_raise inp.observation.value assertion_error >>= λ value.
        ok (when (not (ltb value inp.config.start_threshold)) Guard.start))
    else ok (Guard.fresh ∷ [])

unfoldable pub auto_guard_failures : TransitionInput → Result (List Guard)
unfolding threshold_failures
auto_guard_failures inp = do
  by_reading ← threshold_failures inp
  ok (
      when (not inp.enabled) Guard.enabled
      ++ (by_reading
          ++ (when (not (interval_elapsed inp)) Guard.interval
              ++ (when (not (actuator_ready inp)) Guard.actuator
                  ++ when (not (daily_fits inp)) Guard.daily_fit))))

-- The decision of T1 and T25: persist the intent, arm the watchdog no later than ON, turn on.
unfoldable pub pulse_decision :
    TransitionInput → Row → ℕ → ℕ → List Action → SessionContext → Decision
pulse_decision inp row generation fresh_until started session =
    record (decision (some row) (some ControllerState.watering) (
      Action.persist_state PersistTag.hazard_intent
      ∷ Action.arm_watchdog (record { generation = generation; deadline_utc = fresh_until })
      ∷ Action.turn_on
      ∷ Action.arm_timer TimerKind.on_confirm_timeout
          (inp.now_utc + seconds inp.config.actuator_confirm_timeout_s)
      ∷ started)) { session = some session }

-- The session that T1 creates.
unfoldable pub first_pulse : TransitionInput → SessionIdentity → ℕ → SessionContext
first_pulse inp identity fresh_until = record (new_session identity SessionMode.auto inp.now_utc) {
  cycle = 1;
  pulse_intent_at_utc = some inp.now_utc;
  sensor_fresh_until_utc = some fresh_until;
  sensor_freshness_watchdog_generation = 1;
  moisture_at_start = inp.observation.value;
}

-- The session that T25 goes on with.
unfoldable pub next_pulse : TransitionInput → SessionContext → ℕ → SessionContext
next_pulse inp session fresh_until = record session {
  cycle = session.cycle + 1;
  pulse_intent_at_utc = some inp.now_utc;
  pulse_commanded_at_utc = none;
  pulse_confirmed_at_utc = none;
  pulse_ends_at_utc = none;
  off_confirmed_at_utc = none;
  soak_ends_at_utc = none;
  recheck_not_before_utc = none;
  recheck_grace_deadline_at_utc = none;
  sensor_fresh_until_utc = some fresh_until;
  sensor_freshness_watchdog_generation = session.sensor_freshness_watchdog_generation + 1;
}

unfoldable pub start_auto_pulse : TransitionInput → Option SessionContext → Result Decision
unfolding pulse_decision first_pulse next_pulse
start_auto_pulse inp none = do
  reported_at ← or_raise inp.observation.reported_at_utc assertion_error
  let fresh_until = reported_at + seconds inp.config.sensor_max_age_s
  identity ← or_raise inp.new_session_identity value_error
  ok (
      pulse_decision inp Row.t1 1 fresh_until (Action.emit_session_started ∷ [])
        (first_pulse inp identity fresh_until))
start_auto_pulse inp (some session) = do
  reported_at ← or_raise inp.observation.reported_at_utc assertion_error
  let fresh_until = reported_at + seconds inp.config.sensor_max_age_s
  ok (
      pulse_decision inp Row.t25 (session.sensor_freshness_watchdog_generation + 1) fresh_until []
        (next_pulse inp session fresh_until))

-- An offered grant is declined where a guard fails.
abbrev pub decline : ControllerEvent → List Action
decline ControllerEvent.slot_granted = Action.release_slot ∷ []
decline _ = []

-- The wait for the global slot, which is no transition.
abbrev pub slot_wait : Decision
slot_wait = record (decision none none (Action.request_slot ∷ [])) {
  guard_result = refusal (Guard.slot ∷ []);
}

unfoldable pub auto_start_after : TransitionInput → List Guard → Result Decision
unfolding start_auto_pulse
auto_start_after inp [] =
    if inp.resource.slot_granted && inp.resource.blockers_empty
    then start_auto_pulse inp none
    else ok slot_wait
auto_start_after inp (guard ∷ failed) =
    ok (record (decision (some Row.t2) (some ControllerState.idle) (decline inp.event)) {
      guard_result = refusal (guard ∷ failed);
    })

unfoldable pub evaluate_auto_start : TransitionInput → Result Decision
unfolding auto_guard_failures auto_start_after
evaluate_auto_start inp = do failed ← auto_guard_failures inp; auto_start_after inp failed
