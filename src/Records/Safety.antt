-- ===== src/Records/Safety.antt =====
-- models.py: the safety record of an actuator.
use text.Mathlib.Text.{◌==◌ as str_eq}
use moisture_loop.Base.{
  ℕ, Bool, true, false, ◌&&◌, ◌||◌, not, Option, none, some, List, [], ◌∷◌, String, any, is_some,
  if◌then◌else◌,
}
use moisture_loop.Model.Enums.{FaultCode, BlockerReason, requires_user_ack}
use moisture_loop.Slots.{reason_eq}
use moisture_loop.Records.Dict.{is_blank, contains, no_repeats}
use moisture_loop.Records.Identity.{
  RuntimeLifecycle, PossibleFlowOwner, ActuatorIdentity, AppliedConfigurationShadow,
  IdentityIncident, is_unresolved,
}
use moisture_loop.Records.History.{is_actuator_fault, id_history_ok}

pub record RemovedActuatorAcknowledgement : Type 0 where
  pub acknowledged_at_utc : ℕ
  pub registry_entry_id : String
  pub last_known_entity_id : Option String

pub record SafetyRecord : Type 0 where
  pub safety_record_id : String
  pub zone_id : String
  pub active_subentry_id : Option String
  pub previous_subentry_ids : List String
  pub safety_lineage_id : String
  pub zone_history_id : String
  pub historical_zone_history_ids : List String
  pub runtime_lifecycle : RuntimeLifecycle
  pub applied_config : Option AppliedConfigurationShadow
  pub actuator_identity : ActuatorIdentity
  pub blocker_reasons : List BlockerReason
  pub possible_flow_owner : Option PossibleFlowOwner
  pub identity_incident : Option IdentityIncident
  pub actuator_fault : Option FaultCode
  pub acknowledgement_required : Bool
  pub removed_actuator_ack : Option RemovedActuatorAcknowledgement

abbrev pub has_reason : BlockerReason → List BlockerReason → Bool
has_reason r reasons = any (reason_eq r) reasons

abbrev pub reasons_unique : List BlockerReason → Bool
reasons_unique [] = true
reasons_unique (r ∷ reasons) = not (has_reason r reasons) && reasons_unique reasons

abbrev pub is_active : RuntimeLifecycle → Bool
is_active RuntimeLifecycle.active = true
is_active _ = false

abbrev pub actuator_scoped : Option FaultCode → Bool
actuator_scoped none = true
actuator_scoped (some f) = is_actuator_fault f

-- `fault is not None and fault.requires_user_ack`
unfoldable pub needs_ack : Option FaultCode → Bool
unfolding requires_user_ack
needs_ack none = false
needs_ack (some f) = requires_user_ack f

abbrev shadow_of : Option String → Option AppliedConfigurationShadow → Bool
shadow_of (some subentry) (some shadow) = str_eq shadow.subentry_id subentry
shadow_of _ _ = false

abbrev lifecycle_ok : SafetyRecord → Bool
lifecycle_ok r =
    if is_active r.runtime_lifecycle
    then not (is_some r.removed_actuator_ack)
      && (shadow_of r.active_subentry_id r.applied_config
          && not (is_unresolved r.actuator_identity.identity_status))
    else not (is_some r.active_subentry_id)

unfoldable pub record_ok : SafetyRecord → Bool
unfolding id_history_ok needs_ack
record_ok r =
    id_history_ok r.safety_record_id r.active_subentry_id r.previous_subentry_ids
    && (not (is_blank r.zone_id)
        && (not (is_blank r.safety_lineage_id)
            && (not (is_blank r.zone_history_id)
                && (no_repeats r.historical_zone_history_ids
                    && (not (contains r.historical_zone_history_ids r.zone_history_id)
                        && (reasons_unique r.blocker_reasons
                            && (actuator_scoped r.actuator_fault
                                && ((not r.acknowledgement_required || needs_ack r.actuator_fault)
                                    && lifecycle_ok r))))))))
