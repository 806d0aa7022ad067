-- ===== src/Model/Session.antt =====
-- The session context of models.py. `evolve` is the record update.
use moisture_loop.Base.{ℕ, Bool, true, false, Option, none, some, List, String}
use moisture_loop.Model.Enums.{
  SessionMode, RuntimeEstimationReason, ManualClampReason, FaultCode, CompletionReason,
  is_sensor_only,
}

pub record SessionContext : Type 0 where
  pub session_id : String
  pub owner_run_id : String
  pub config_fingerprint : String
  pub mode : SessionMode
  pub started_at_utc : ℕ
  pub cycle : ℕ
  pub session_runtime_s : ℕ
  pub runtime_estimated : Bool
  pub runtime_estimation_reason : RuntimeEstimationReason
  pub pulse_intent_at_utc : Option ℕ
  pub pulse_commanded_at_utc : Option ℕ
  pub pulse_confirmed_at_utc : Option ℕ
  pub pulse_ends_at_utc : Option ℕ
  pub sensor_fresh_until_utc : Option ℕ
  pub sensor_freshness_watchdog_generation : ℕ
  pub off_confirmed_at_utc : Option ℕ
  pub soak_ends_at_utc : Option ℕ
  pub recheck_not_before_utc : Option ℕ
  pub recheck_grace_deadline_at_utc : Option ℕ
  pub manual_requested_duration_s : Option ℕ
  pub manual_effective_duration_s : Option ℕ
  pub manual_clamp_reasons : List ManualClampReason
  pub moisture_at_start : Option ℕ
  pub last_recheck_value : Option ℕ
  pub retained_sensor_fault : Option FaultCode
  pub pending_termination_reason : Option CompletionReason

-- The test of `SessionContext.__post_init__`: a retained fault is a sensor fault.
abbrev pub retained_fault_ok : Option FaultCode → Bool
unfolding is_sensor_only
retained_fault_ok none = true
retained_fault_ok (some f) = is_sensor_only f

pub record SessionIdentity : Type 0 where
  pub session_id : String
  pub owner_run_id : String
  pub config_fingerprint : String

-- A new session: the given fields, and the defaults of the others.
abbrev pub new_session : SessionIdentity → SessionMode → ℕ → SessionContext
new_session identity mode now = record {
  session_id = identity.session_id;
  owner_run_id = identity.owner_run_id;
  config_fingerprint = identity.config_fingerprint;
  mode = mode;
  started_at_utc = now;
  cycle = 0;
  session_runtime_s = 0;
  runtime_estimated = false;
  runtime_estimation_reason = RuntimeEstimationReason.none;
  pulse_intent_at_utc = none;
  pulse_commanded_at_utc = none;
  pulse_confirmed_at_utc = none;
  pulse_ends_at_utc = none;
  sensor_fresh_until_utc = none;
  sensor_freshness_watchdog_generation = 0;
  off_confirmed_at_utc = none;
  soak_ends_at_utc = none;
  recheck_not_before_utc = none;
  recheck_grace_deadline_at_utc = none;
  manual_requested_duration_s = none;
  manual_effective_duration_s = none;
  manual_clamp_reasons = List.[];
  moisture_at_start = none;
  last_recheck_value = none;
  retained_sensor_fault = none;
  pending_termination_reason = none;
}
