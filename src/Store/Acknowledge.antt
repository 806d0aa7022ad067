-- ===== src/Store/Acknowledge.antt =====
-- storage.py: the acknowledgements of an actuator fault and of a removed actuator.
use text.Mathlib.Text.{◌==◌ as str_eq}
use moisture_loop.Base.{
  ℕ, Bool, true, false, ◌||◌, not, Option, none, some, [], ◌∷◌, String, is_some, if◌then◌else◌,
  Result, ok, raised, key_error, store_write_verification, ◌>>=◌, or_raise,
}
use moisture_loop.Model.Enums.{FaultCode, requires_user_ack}
use moisture_loop.Records.Dict.{lookup, insert}
use moisture_loop.Records.History.{ZoneHistory, fault_eq}
use moisture_loop.Records.Safety.{SafetyRecord, RemovedActuatorAcknowledgement, is_active}
use moisture_loop.Records.Identity.{RuntimeLifecycle, IdentityStatus, is_unresolved}
use moisture_loop.Records.Data.{StoreData}
use moisture_loop.Store.{Plan, write_next, Verified, verified}
use moisture_loop.Store.Blockers.{make_record}

-- `if condition: raise StoreWriteVerificationError`.
abbrev pub refuse_if : Bool → Result Verified
refuse_if condition = if condition then raised store_write_verification else ok verified

abbrev pub is_fault : Option FaultCode → FaultCode → Bool
is_fault none f = false
is_fault (some g) f = fault_eq g f

abbrev pub is_retired : RuntimeLifecycle → Bool
is_retired RuntimeLifecycle.retired = true
is_retired _ = false

abbrev pub is_missing : IdentityStatus → Bool
is_missing IdentityStatus.missing = true
is_missing _ = false

abbrev pub has_blockers : SafetyRecord → Bool
has_blockers r = elim r.blocker_reasons [ [] ↦ false | x ∷ xs ↦ true ]

-- The history of a record, `self.data.zone_histories[record.zone_history_id]`.
abbrev pub history_of : StoreData → SafetyRecord → Result ZoneHistory
history_of s r = or_raise (lookup r.zone_history_id s.zone_histories) key_error

abbrev pub put_record : String → SafetyRecord → StoreData → Result (Plan StoreData)
put_record id r s = make_record r >>= λ next.
    write_next (record s { safety_records = insert id next s.safety_records })

-- The refusals of the call, of a record that is there.
unfoldable pub check_fault_acknowledgement :
    String → FaultCode → StoreData → SafetyRecord → Result Verified
unfolding requires_user_ack
check_fault_acknowledgement safety_lineage_id expected_fault s r =
    refuse_if (not (str_eq r.safety_lineage_id safety_lineage_id)) >>= λ _.
    refuse_if (not (is_fault r.actuator_fault expected_fault)) >>= λ _.
    refuse_if (not r.acknowledgement_required || not (requires_user_ack expected_fault)) >>= λ _.
    refuse_if (is_some r.identity_incident || is_unresolved r.actuator_identity.identity_status)
    >>= λ _. refuse_if (has_blockers r || is_some r.possible_flow_owner) >>= λ _.
        history_of s r >>= λ h. refuse_if (is_some h.zone_runtime.session) >>= λ _.
        refuse_if (not (is_retired r.runtime_lifecycle))

unfoldable pub acknowledge_actuator_fault :
    String → String → FaultCode → StoreData → Result (Plan StoreData)
unfolding check_fault_acknowledgement
acknowledge_actuator_fault safety_record_id safety_lineage_id expected_fault s =
    or_raise (lookup safety_record_id s.safety_records) store_write_verification >>= λ r.
    check_fault_acknowledgement safety_lineage_id expected_fault s r >>= λ _.
    put_record safety_record_id
      (record r { actuator_fault = none; acknowledgement_required = false }) s

abbrev pub is_entry : Option String → String → Bool
is_entry none id = false
is_entry (some i) id = str_eq i id

unfoldable pub check_removed_acknowledgement :
    String → String → StoreData → SafetyRecord → Result Verified
check_removed_acknowledgement safety_lineage_id registry_entry_id s r =
    refuse_if (not (str_eq r.safety_lineage_id safety_lineage_id)) >>= λ _.
    refuse_if (is_active r.runtime_lifecycle) >>= λ _.
    refuse_if (not (is_missing r.actuator_identity.identity_status)) >>= λ _.
    refuse_if (not (is_entry r.actuator_identity.registry_entry_id registry_entry_id)) >>= λ _.
    refuse_if (is_some r.possible_flow_owner) >>= λ _. history_of s r >>= λ h.
    refuse_if (is_some h.zone_runtime.session) >>= λ _.
    refuse_if (is_some r.actuator_fault || r.acknowledgement_required)

abbrev pub removed_ack : SafetyRecord → String → ℕ → RemovedActuatorAcknowledgement
removed_ack r registry_entry_id acknowledged_at_utc = record {
  acknowledged_at_utc = acknowledged_at_utc;
  registry_entry_id = registry_entry_id;
  last_known_entity_id = r.actuator_identity.last_known_entity_id;
}

unfoldable pub acknowledge_removed_actuator :
    String → String → String → ℕ → StoreData → Result (Plan StoreData)
unfolding check_removed_acknowledgement
acknowledge_removed_actuator safety_record_id safety_lineage_id registry_entry_id
      acknowledged_at_utc s =
    or_raise (lookup safety_record_id s.safety_records) store_write_verification >>= λ r.
    check_removed_acknowledgement safety_lineage_id registry_entry_id s r >>= λ _.
    put_record safety_record_id
      (record r {
        removed_actuator_ack = some (removed_ack r registry_entry_id acknowledged_at_utc);
      })
      s
