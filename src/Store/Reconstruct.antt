-- ===== src/Store/Reconstruct.antt =====
-- storage.py: `async_reconstruct_after_integrity_loss`, the state that takes the place of a store that
-- was lost. The UUID of a name (`uuid.uuid5`) and the text of a date are parameters.
use Prim.Native.String.{◌++◌ as append}
use moisture_loop.Base.{ℕ, true, none, some, [], ◌∷◌, String, ok, raised}
use moisture_loop.Model.Enums.{ControllerState, FaultCode, BlockerReason}
use moisture_loop.Model.Observation.{seconds}
use moisture_loop.Accounting.{AccountingContribution}
use moisture_loop.Records.Dict.{Dict, insert}
use moisture_loop.Records.History.{ZoneHistory}
use moisture_loop.Records.Identity.{RuntimeLifecycle, IdentityStatus, IdentityIncidentKind}
use moisture_loop.Records.Safety.{SafetyRecord}
use moisture_loop.Records.Data.{StoreData}
use moisture_loop.Store.{Codec, Write, SafetyStore, Reply, make_store, save_and_verify}
use moisture_loop.Store.Runs.{initial_data}

-- The records and the histories of a snapshot.
abbrev pub Maps : Type 0
Maps = Dict SafetyRecord × Dict ZoneHistory

module _ (uuid5 : String → String) (isoformat : ℕ → String) (generation_id : String) where
  unfoldable pub integrity_id : String → String → String
  integrity_id zone_id kind = uuid5 (
      append "moisture_loop:"
        (append generation_id (append ":" (append zone_id (append ":" kind)))))

  abbrev pub history_id : String → String
  history_id zone_id = integrity_id zone_id "zone-history"

  unfoldable pub exhausting : ℕ → String → ℕ → AccountingContribution
  unfolding integrity_id
  exhausting date zone_id max_daily = record {
    accounting_contribution_id = integrity_id zone_id (append "integrity-daily:" (isoformat date));
    source_safety_record_id = zone_id;
    start_utc = none;
    end_utc = none;
    runtime_s = seconds max_daily;
    runtime_estimated = true;
    local_date = some date;
  }

  unfoldable pub reconstructed_history : ℕ → String → ℕ → ZoneHistory
  unfolding exhausting
  reconstructed_history date zone_id max_daily = record {
    zone_history_id = history_id zone_id;
    active_subentry_id = none;
    previous_subentry_ids = zone_id ∷ [];
    last_session_end_utc = none;
    last_auto_session_start_utc = none;
    zone_runtime = record {
      enabled = true;
      state = ControllerState.fault;
      zone_fault = none;
      secondary_fault = none;
      sensor_identity = record { registry_entry_id = none; last_known_entity_id = none };
      last_session_summary = none;
      session = none;
    };
    daily = some (record {
      date_local = date;
      runtime_s = seconds max_daily;
      conservative_unattributed_runtime_s = 0;
      contributions = exhausting date zone_id max_daily ∷ [];
    });
  }

  unfoldable pub reconstructed_record : String → SafetyRecord
  unfolding integrity_id
  reconstructed_record zone_id = record {
    safety_record_id = zone_id;
    zone_id = zone_id;
    active_subentry_id = none;
    previous_subentry_ids = zone_id ∷ [];
    safety_lineage_id = integrity_id zone_id "safety-lineage";
    zone_history_id = history_id zone_id;
    historical_zone_history_ids = [];
    runtime_lifecycle = RuntimeLifecycle.delete_pending;
    applied_config = none;
    actuator_identity = record {
      registry_entry_id = none;
      last_known_entity_id = none;
      domain = none;
      identity_status = IdentityStatus.missing;
      off_service = none;
      confirm_timeout_s = none;
    };
    blocker_reasons = BlockerReason.actuator_not_proven_off ∷ [];
    possible_flow_owner = none;
    identity_incident = some (record {
      kind = IdentityIncidentKind.migration_unresolved;
      detail = "runtime Store integrity was reconstructed without durable identity";
    });
    actuator_fault = some FaultCode.restored_from_unsafe_state;
    acknowledgement_required = true;
    removed_actuator_ack = none;
  }

  -- The loop over the budgets.
  unfoldable pub reconstruct : ℕ → Maps → Dict ℕ → Maps
  reconstruct date maps [] = maps
  reconstruct date maps ((zone_id, max_daily) ∷ budgets) =
      reconstruct date
        (
          insert zone_id (reconstructed_record zone_id) maps.0,
          insert (history_id zone_id) (reconstructed_history date zone_id max_daily) maps.1,
        )
        budgets

  unfoldable pub reconstructed_data : ℕ → Dict ℕ → StoreData
  unfolding reconstruct
  reconstructed_data date budgets =
      let maps = reconstruct date ([], []) budgets in
      record (initial_data generation_id) { zone_histories = maps.1; safety_records = maps.0 }

module _ (uuid5 : String → String) (isoformat : ℕ → String) {P : Type 0} (codec : Codec P) where
  unfoldable pub reconstruct_after_integrity_loss :
      Dict ℕ → ℕ → Write P → SafetyStore → Reply StoreData
  unfolding reconstructed_data save_and_verify
  reconstruct_after_integrity_loss budgets date w s =
      elim (make_store (reconstructed_data uuid5 isoformat s.generation_id date budgets)) [
        | ok next ↦ save_and_verify codec w s next next
        | raised e ↦ record { store = s; result = raised e }
      ]
