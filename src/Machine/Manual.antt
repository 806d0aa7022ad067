-- ===== src/Machine/Manual.antt =====
-- Manual watering of state_machine.py: the refusal list, the clamp, T3, T40 and T41.
use moisture_loop.Base.{
  ℕ, ◌+◌, Bool, false, not, Option, none, some, List, [], ◌∷◌, ◌++◌, ltb, leb, min, is_some,
  if◌then◌else◌, Result, ok, value_error, or_raise, ◌>>=◌,
}
use moisture_loop.Model.Enums.{
  ControllerState, SessionMode, TimerKind, ManualClampReason, FaultCode, allows_manual,
}
use moisture_loop.Model.Observation.{seconds}
use moisture_loop.Model.Session.{SessionContext, SessionIdentity, new_session}
use moisture_loop.Model.Event.{Duration, Action, PersistTag}
use moisture_loop.Model.Decision.{TransitionInput, Decision, decision, Guard, Row, refusal}
use moisture_loop.Machine.Guards.{is_valid, actuator_ready, daily_remaining}
use moisture_loop.Machine.Auto.{when, slot_wait}

abbrev pub is_positive : Duration → Bool
is_positive (Duration.not_negative n) = ltb 0 n
is_positive _ = false

-- The amount of a request that has passed `is_positive`.
abbrev pub amount : Duration → ℕ
amount (Duration.not_negative n) = n
amount _ = 0

-- A latched fault that is not a sensor fault.
abbrev pub forbids_manual : Option FaultCode → Bool
unfolding allows_manual
forbids_manual none = false
forbids_manual (some fault) = not (allows_manual fault)

unfoldable pub manual_guard_failures : TransitionInput → Duration → List Guard
unfolding allows_manual
manual_guard_failures inp requested =
    when (not (is_positive requested)) Guard.invalid_duration
    ++ (when (not inp.enabled) Guard.enabled
        ++ (when (is_some inp.session) Guard.active_session
            ++ (when (forbids_manual inp.active_fault) Guard.manual_sensor
                ++ (when (not (actuator_ready inp)) Guard.actuator
                    ++ (when (leb (daily_remaining inp) 0) Guard.daily_exhausted
                        ++ when (not inp.resource.blockers_empty) Guard.water_resource_occupied)))))

abbrev clamp_reason : ℕ → ℕ → ManualClampReason → List ManualClampReason
clamp_reason cap requested reason = if ltb cap requested then reason ∷ [] else []

unfoldable pub clamp_manual : TransitionInput → ℕ → ℕ × List ManualClampReason
clamp_manual inp requested = (
  min requested (
      min (seconds inp.config.manual_max_duration_s)
        (min (seconds inp.config.max_session_runtime_s) (daily_remaining inp))),
  clamp_reason (seconds inp.config.manual_max_duration_s) requested
        ManualClampReason.manual_max_duration
      ++ (clamp_reason (seconds inp.config.max_session_runtime_s) requested
            ManualClampReason.max_session_runtime
          ++ clamp_reason (daily_remaining inp) requested ManualClampReason.remaining_daily_budget),
)

-- The `row` argument of `_manual_start`: T3 from IDLE, T40 from a sensor-only FAULT.
pub data ManualRow : Type 0 where
  t3 t40 : ManualRow

abbrev manual_row : ManualRow → Row
manual_row ManualRow.t3 = Row.t3
manual_row ManualRow.t40 = Row.t40

abbrev refused_row : ManualRow → Option Row
refused_row ManualRow.t3 = none
refused_row ManualRow.t40 = some Row.t41

abbrev retained : ManualRow → Option FaultCode → Option FaultCode
retained ManualRow.t3 active_fault = none
retained ManualRow.t40 active_fault = active_fault

unfoldable pub manual_session : TransitionInput → SessionIdentity → ManualRow → ℕ → SessionContext
unfolding clamp_manual
manual_session inp identity row requested =
    record (new_session identity SessionMode.manual inp.now_utc) {
      pulse_intent_at_utc = some inp.now_utc;
      manual_requested_duration_s = some requested;
      manual_effective_duration_s = some (clamp_manual inp requested).0;
      manual_clamp_reasons = (clamp_manual inp requested).1;
      retained_sensor_fault = retained row inp.active_fault;
      moisture_at_start =
          if is_valid inp.observation.classification then inp.observation.value else none;
    }

-- The part of `_manual_start` below the guards.
unfoldable pub manual_start_after : TransitionInput → ℕ → ManualRow → List Guard → Result Decision
unfolding manual_session
manual_start_after inp requested row (guard ∷ failed) =
    ok (record (decision (refused_row row) (some inp.state) []) {
      guard_result = refusal (guard ∷ failed);
    })
manual_start_after inp requested row [] =
    if inp.resource.slot_granted
    then (or_raise inp.new_session_identity value_error >>= λ identity.
        ok
          (record (decision (some (manual_row row)) (some ControllerState.watering) (
            Action.persist_state PersistTag.hazard_intent
            ∷ Action.turn_on
            ∷ Action.arm_timer TimerKind.on_confirm_timeout
                (inp.now_utc + seconds inp.config.actuator_confirm_timeout_s)
            ∷ Action.emit_session_started
            ∷ [])) { session = some (manual_session inp identity row requested) }))
    else ok slot_wait

unfoldable pub manual_start : TransitionInput → Duration → ManualRow → Result Decision
unfolding manual_guard_failures manual_start_after
manual_start inp requested row =
    manual_start_after inp (amount requested) row (manual_guard_failures inp requested)
