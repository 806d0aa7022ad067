-- ===== src/Records/History.antt =====
-- models.py: the history of a logical zone, which owns its operational state.
use text.Mathlib.Text.{◌==◌ as str_eq}
use moisture_loop.Base.{ℕ, Bool, true, false, ◌&&◌, not, Option, none, some, List, String, any}
use moisture_loop.Model.Enums.{
  ControllerState, SessionMode, CompletionReason, RuntimeEstimationReason, ManualClampReason,
  FaultCode,
}
use moisture_loop.Model.Session.{SessionContext}
use moisture_loop.Accounting.{ZoneDailyRuntime}
use moisture_loop.Records.Dict.{is_blank, no_repeats}
use moisture_loop.Records.Identity.{SensorIdentity}

pub record SessionSummary : Type 0 where
  pub mode : SessionMode
  pub reason : CompletionReason
  pub runtime_s : ℕ
  pub runtime_estimated : Bool
  pub runtime_estimation_reason : RuntimeEstimationReason
  pub requested_duration_s : Option ℕ
  pub effective_duration_s : Option ℕ
  pub clamp_reasons : List ManualClampReason
  pub cycles : ℕ
  pub moisture_before : Option ℕ
  pub moisture_after : Option ℕ
  pub started_at_utc : ℕ
  pub ended_at_utc : ℕ

pub record PersistedSession : Type 0 where
  pub owner_safety_record_id : String
  pub context : SessionContext

pub record ZoneRuntime : Type 0 where
  pub enabled : Bool
  pub state : ControllerState
  pub zone_fault : Option FaultCode
  pub secondary_fault : Option FaultCode
  pub sensor_identity : SensorIdentity
  pub last_session_summary : Option SessionSummary
  pub session : Option PersistedSession

pub record ZoneHistory : Type 0 where
  pub zone_history_id : String
  pub active_subentry_id : Option String
  pub previous_subentry_ids : List String
  pub last_session_end_utc : Option ℕ
  pub last_auto_session_start_utc : Option ℕ
  pub zone_runtime : ZoneRuntime
  pub daily : Option ZoneDailyRuntime

-- `fault in _ZONE_FAULTS` and `fault in _ACTUATOR_FAULTS`
abbrev pub is_zone_fault : FaultCode → Bool
is_zone_fault FaultCode.sensor_unavailable = true
is_zone_fault FaultCode.sensor_stale = true
is_zone_fault FaultCode.sensor_invalid = true
is_zone_fault FaultCode.configuration_invalid = true
is_zone_fault _ = false

abbrev pub is_actuator_fault : FaultCode → Bool
is_actuator_fault f = not (is_zone_fault f)

abbrev pub fault_eq : FaultCode → FaultCode → Bool
fault_eq FaultCode.sensor_unavailable FaultCode.sensor_unavailable = true
fault_eq FaultCode.sensor_stale FaultCode.sensor_stale = true
fault_eq FaultCode.sensor_invalid FaultCode.sensor_invalid = true
fault_eq FaultCode.actuator_unavailable FaultCode.actuator_unavailable = true
fault_eq FaultCode.actuator_on_timeout FaultCode.actuator_on_timeout = true
fault_eq FaultCode.actuator_off_timeout FaultCode.actuator_off_timeout = true
fault_eq FaultCode.configuration_invalid FaultCode.configuration_invalid = true
fault_eq FaultCode.restored_from_unsafe_state FaultCode.restored_from_unsafe_state = true
fault_eq _ _ = false

abbrev none_or : (FaultCode → Bool) → Option FaultCode → Bool
none_or p none = true
none_or p (some f) = p f

abbrev differ : Option FaultCode → Option FaultCode → Bool
differ (some f) (some g) = not (fault_eq f g)
differ _ _ = true

unfoldable pub zone_runtime_ok : ZoneRuntime → Bool
zone_runtime_ok r =
    none_or is_zone_fault r.zone_fault
    && (none_or is_zone_fault r.secondary_fault && differ r.zone_fault r.secondary_fault)

abbrev pub names : Option String → String → Bool
names none k = false
names (some j) k = str_eq j k

-- `_validate_id_history`.
unfoldable pub id_history_ok : String → Option String → List String → Bool
id_history_ok stable_id active_subentry_id previous_subentry_ids =
    not (is_blank stable_id)
    && (not (names active_subentry_id "")
        && (not (any is_blank previous_subentry_ids)
            && (no_repeats previous_subentry_ids
                && not (any (names active_subentry_id) previous_subentry_ids))))

unfoldable pub history_ok : ZoneHistory → Bool
unfolding id_history_ok
history_ok h = id_history_ok h.zone_history_id h.active_subentry_id h.previous_subentry_ids
