-- ===== src/Tests/Inputs.antt =====
-- A zone with plain limits, its sessions, and transition inputs for the rows of state_machine.py.
use moisture_loop.Base.{true, false, none, some, List, Result, ok, raised}
use moisture_loop.Model.Enums.{
  ControllerState, SessionMode, MoistureClassification, FaultCode, CompletionReason,
}
use moisture_loop.Model.Observation.{
  MoistureObservation, WatchdogToken, ZoneConfig, seconds, percent,
}
use moisture_loop.Model.Session.{SessionContext, SessionIdentity, new_session}
use moisture_loop.Model.Event.{ControllerEvent}
use moisture_loop.Zone.{Zone, Surroundings}
use moisture_loop.Model.Decision.{
  ActuatorAssessment, ResourceAssessment, TransitionInput, Decision, decision,
}

abbrev pub config : ZoneConfig
config = record {
  name = "bed";
  moisture_sensor = "sensor.bed";
  actuator = "switch.bed";
  start_threshold = percent 30;
  target_threshold = percent 40;
  pulse_duration_s = 60;
  soak_duration_s = 600;
  max_cycles = 3;
  max_session_runtime_s = 1800;
  max_daily_runtime_s = 3600;
  min_session_interval_s = 3600;
  sensor_max_age_s = 3600;
  actuator_confirm_timeout_s = 30;
  manual_max_duration_s = 900;
}

abbrev pub identity : SessionIdentity
identity = record { session_id = "s1"; owner_run_id = "r1"; config_fingerprint = "f1" }

abbrev pub dry_reading : MoistureObservation
dry_reading = record {
  value = some (percent 20);
  classification = MoistureClassification.valid;
  reported_at_utc = some (seconds 99990);
  age_s = some (seconds 10);
}

abbrev pub off_actuator : ActuatorAssessment
off_actuator = record { available = true; proven_off = true; observed_on = false }

abbrev pub free_slot : ResourceAssessment
free_slot = record { slot_granted = true; blockers_empty = true }

-- An enabled zone at rest that receives the event.
abbrev pub idle_input : ControllerEvent → TransitionInput
idle_input event = record {
  now_utc = seconds 100000;
  config = config;
  state = ControllerState.idle;
  enabled = true;
  session = none;
  active_fault = none;
  secondary_fault = none;
  observation = dry_reading;
  daily_runtime_s = 0;
  last_session_end_utc = none;
  actuator = off_actuator;
  resource = free_slot;
  armed_watchdog = none;
  event = event;
  external_on = false;
  new_session_identity = some identity;
}

-- An AUTO session in its first pulse.
abbrev pub pulse : SessionContext
pulse = record (new_session identity SessionMode.auto (seconds 99990)) {
  cycle = 1;
  pulse_intent_at_utc = some (seconds 99990);
  pulse_commanded_at_utc = some (seconds 99990);
  pulse_confirmed_at_utc = some (seconds 99991);
  pulse_ends_at_utc = some (seconds 100050);
  sensor_fresh_until_utc = some (seconds 100000);
  sensor_freshness_watchdog_generation = 1;
}

abbrev pub token : WatchdogToken
token = record { generation = 1; deadline_utc = seconds 100000 }

-- The pulse under way.
abbrev pub pulse_input : SessionContext → ControllerEvent → TransitionInput
pulse_input session event = record (idle_input event) {
  state = ControllerState.watering;
  session = some session;
  actuator = record { available = true; proven_off = false; observed_on = true };
  armed_watchdog = some token;
}

-- The session, stopped by the user and waiting for OFF.
abbrev pub stopped : SessionContext
stopped = record pulse { pending_termination_reason = some CompletionReason.user_stop }

-- An AUTO session whose soak is over.
abbrev pub soak : SessionContext
soak = record pulse {
  session_runtime_s = seconds 60;
  off_confirmed_at_utc = some (seconds 99300);
  soak_ends_at_utc = some (seconds 99900);
  recheck_not_before_utc = some (seconds 99900);
  recheck_grace_deadline_at_utc = some (seconds 103500);
}

abbrev pub soak_input : ControllerEvent → TransitionInput
soak_input event = record (idle_input event) {
  state = ControllerState.soaking;
  session = some soak;
}

-- A session that ended in a fault and waits for OFF evidence, the fault's condition resolved.
abbrev pub open_session : SessionContext
open_session = record pulse { pending_termination_reason = some CompletionReason.actuator_fault }

abbrev pub fault_input : ControllerEvent → TransitionInput
fault_input event = record (idle_input event) {
  state = ControllerState.fault;
  session = some open_session;
  active_fault = some FaultCode.actuator_off_timeout;
}

-- The zone at rest, and what it reads.
abbrev pub idle_zone : Zone
idle_zone = record {
  state = ControllerState.idle;
  enabled = true;
  session = none;
  active_fault = none;
  secondary_fault = none;
  last_session_end = none;
  last_auto_session_start = none;
  external_on = false;
  armed_watchdog = none;
  on_requested = false;
  off_requested = false;
  persist_failed = false;
}

abbrev pub surroundings : Surroundings
surroundings = record {
  now_utc = seconds 100000;
  config = config;
  observation = dry_reading;
  daily_runtime_s = 0;
  actuator = off_actuator;
  resource = free_slot;
  identity = identity;
}

-- The decision of a call that returns.
abbrev pub value_of : Result Decision → Decision
value_of (ok d) = d
value_of (raised _) = decision none none List.[]
