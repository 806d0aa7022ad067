-- ===== src/Zone/Coherent.antt =====
-- What holds of a zone between two events: each state has the session and the fault it needs.
use moisture_loop.Base.{◌≡◌, true, Option, none, some, is_some}
use moisture_loop.Model.Enums.{
  ControllerState, SessionMode, FaultCode, CompletionReason, is_sensor_only,
}
use moisture_loop.Model.Observation.{validate}
use moisture_loop.Model.Session.{SessionContext}
use moisture_loop.Model.Event.{ControllerEvent}

abbrev pub IsSensorFault : Option FaultCode → Type 0
IsSensorFault none = ⊥
IsSensorFault (some f) = is_sensor_only f ≡ true

-- A reason that a WATERING session can be committed to, with the fault it goes with.
abbrev pub CommitOk : Option CompletionReason → Option FaultCode → Type 0
CommitOk none fault = Unit
CommitOk (some CompletionReason.sensor_fault) fault = IsSensorFault fault
CommitOk (some CompletionReason.actuator_fault) fault = is_some fault ≡ true
CommitOk (some CompletionReason.target_reached) fault = ⊥
CommitOk (some CompletionReason.max_cycles) fault = ⊥
CommitOk (some CompletionReason.max_session_runtime) fault = ⊥
CommitOk (some CompletionReason.daily_runtime_limit) fault = ⊥
CommitOk (some _) fault = Unit

-- An AUTO pulse has a freshness deadline, and a MANUAL one a duration.
abbrev pub ModeOk : SessionMode → SessionContext → Type 0
ModeOk SessionMode.auto s = is_some s.sensor_fresh_until_utc ≡ true
ModeOk SessionMode.manual s = is_some s.manual_effective_duration_s ≡ true

pub record WateringOk (s : SessionContext) (fault : Option FaultCode) : Type 0 where
  pub commit : CommitOk s.pending_termination_reason fault
  pub by_mode : ModeOk s.mode s

pub record SoakingOk (s : SessionContext) : Type 0 where
  pub is_auto : s.mode ≡ SessionMode.auto
  pub soak_end : is_some s.soak_ends_at_utc ≡ true
  pub grace : is_some s.recheck_grace_deadline_at_utc ≡ true

-- A session that is open in FAULT or DISABLED waits for OFF evidence for a committed reason.
abbrev pub OpenOk : Option SessionContext → Type 0
OpenOk none = Unit
OpenOk (some s) = is_some s.pending_termination_reason ≡ true

-- In DISABLED it also keeps its fault, so that Enable leads back to FAULT.
abbrev pub DisabledOk : Option SessionContext → Option FaultCode → Type 0
DisabledOk none fault = Unit
DisabledOk (some s) fault = (is_some s.pending_termination_reason ≡ true) × (is_some fault ≡ true)

abbrev pub StateOk : ControllerState → Option SessionContext → Option FaultCode → Type 0
StateOk ControllerState.idle session fault = session ≡ none
StateOk ControllerState.disabled session fault = DisabledOk session fault
StateOk ControllerState.fault session fault = (is_some fault ≡ true) × OpenOk session
StateOk ControllerState.watering none fault = ⊥
StateOk ControllerState.watering (some s) fault = WateringOk s fault
StateOk ControllerState.soaking none fault = ⊥
StateOk ControllerState.soaking (some s) fault = SoakingOk s

-- What is assumed of an event: a report is a valid observation, a trusted soak comes with the new
-- run, a fault is acknowledged only when no session is open (which the source does not check), and
-- the two events that the component never dispatches do not occur.
abbrev pub EventOk : Option SessionContext → ControllerEvent → Type 0
EventOk session (ControllerEvent.moisture_report obs) = validate obs ≡ true
EventOk session (ControllerEvent.startup_persisted_soaking true run_id fault) =
    is_some run_id ≡ true
EventOk session ControllerEvent.clear_fault_requested = session ≡ none
EventOk session ControllerEvent.store_integrity_lost = ⊥
EventOk session (ControllerEvent.configuration_invalid true) = ⊥
EventOk session _ = Unit
