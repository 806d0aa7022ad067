-- ===== src/Records/Identity.antt =====
-- models.py: the identities of sensors and actuators, and the applied configuration.
use text.Mathlib.Text.{◌==◌ as str_eq}
use moisture_loop.Base.{
  ℕ, Bool, true, false, ◌&&◌, ◌||◌, not, Option, none, some, String, is_some, ltb, if◌then◌else◌,
}
use moisture_loop.Config.{entity_domain, is_actuator_domain}
use moisture_loop.Config.Settings.{NormalizedZoneSettings, settings_ok}
use moisture_loop.Records.Dict.{is_blank}

pub data RuntimeLifecycle : Type 0 where
  active delete_pending retired : RuntimeLifecycle

pub data IdentityStatus : Type 0 where
  registry_confirmed registry_unavailable missing conflict : IdentityStatus

pub data PossibleFlowOwner : Type 0 where
  integration external : PossibleFlowOwner

pub data IdentityIncidentKind : Type 0 where
  migration_unresolved identity_missing identity_conflict : IdentityIncidentKind

pub record SensorIdentity : Type 0 where
  pub registry_entry_id : Option String
  pub last_known_entity_id : Option String

pub record AppliedEntityIdentity : Type 0 where
  pub registry_entry_id : Option String
  pub last_known_entity_id : String
  pub domain : String

pub record ActuatorIdentity : Type 0 where
  pub registry_entry_id : Option String
  pub last_known_entity_id : Option String
  pub domain : Option String
  pub identity_status : IdentityStatus
  pub off_service : Option String
  pub confirm_timeout_s : Option ℕ

pub record IdentityIncident : Type 0 where
  pub kind : IdentityIncidentKind
  pub detail : String

pub record AppliedConfigurationShadow : Type 0 where
  pub subentry_id : String
  pub config_fingerprint : String
  pub entry_snapshot_fingerprint : String
  pub applied_generation : ℕ
  pub normalized_settings : NormalizedZoneSettings
  pub sensor_identity : AppliedEntityIdentity
  pub actuator_identity : AppliedEntityIdentity

-- `value is None or value`: non-empty or null.
abbrev pub filled : Option String → Bool
filled none = true
filled (some s) = not (is_blank s)

abbrev sensor_domain_ok : Option String → Bool
sensor_domain_ok none = true
sensor_domain_ok (some entity_id) = str_eq (entity_domain entity_id) "sensor"

unfoldable pub sensor_identity_ok : SensorIdentity → Bool
sensor_identity_ok s =
    filled s.registry_entry_id
    && (filled s.last_known_entity_id && sensor_domain_ok s.last_known_entity_id)

unfoldable pub applied_identity_ok : AppliedEntityIdentity → Bool
applied_identity_ok a =
    not (is_blank a.last_known_entity_id)
    && (str_eq (entity_domain a.last_known_entity_id) a.domain && filled a.registry_entry_id)

abbrev text_eq : Option String → Option String → Bool
text_eq none none = true
text_eq (some a) (some b) = str_eq a b
text_eq _ _ = false

-- The OFF service that goes with a domain.
abbrev expected_service : Option String → Option String
expected_service none = none
expected_service (some domain) =
    if str_eq domain "switch"
    then some "switch.turn_off"
    else if str_eq domain "valve"
    then some "valve.close_valve"
    else none

abbrev domain_known : Option String → Bool
domain_known none = true
domain_known (some domain) = is_actuator_domain domain

abbrev entity_matches : Option String → Option String → Bool
entity_matches none domain = true
entity_matches (some entity_id) none = false
entity_matches (some entity_id) (some domain) = str_eq (entity_domain entity_id) domain

abbrev positive_timeout : Option ℕ → Bool
positive_timeout none = true
positive_timeout (some t) = ltb 0 t

abbrev pub is_unresolved : IdentityStatus → Bool
is_unresolved IdentityStatus.missing = true
is_unresolved IdentityStatus.conflict = true
is_unresolved _ = false

abbrev status_fits : IdentityStatus → Bool → Bool
status_fits IdentityStatus.registry_confirmed registered = registered
status_fits IdentityStatus.registry_unavailable registered = not registered
status_fits _ registered = true

unfoldable pub actuator_identity_ok : ActuatorIdentity → Bool
actuator_identity_ok a =
    filled a.registry_entry_id
    && (filled a.last_known_entity_id
        && (domain_known a.domain
            && (entity_matches a.last_known_entity_id a.domain
                && (text_eq a.off_service (expected_service a.domain)
                    && (positive_timeout a.confirm_timeout_s
                        && ((is_unresolved a.identity_status
                              || (is_some a.last_known_entity_id
                                  && (is_some a.domain && is_some a.confirm_timeout_s)))
                            && status_fits a.identity_status (is_some a.registry_entry_id)))))))

unfoldable pub shadow_ok : AppliedConfigurationShadow → Bool
shadow_ok s =
    not (is_blank s.subentry_id)
    && (not (is_blank s.config_fingerprint)
        && (not (is_blank s.entry_snapshot_fingerprint)
            && (str_eq s.sensor_identity.domain "sensor"
                && (is_actuator_domain s.actuator_identity.domain
                    && settings_ok s.normalized_settings s.sensor_identity.last_known_entity_id
                        s.actuator_identity.last_known_entity_id))))
