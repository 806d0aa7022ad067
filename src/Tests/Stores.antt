-- ===== src/Tests/Stores.antt =====
-- Theorems on the safety store, at a store with two actuators.
use text.Mathlib.Text.{◌==◌ as str_eq}
use moisture_loop.Base.{
  ◌≡◌, ◌⊎◌, ◌==◌, refl, true, false, ◌&&◌, none, some, [], ◌∷◌, ok, raised, Returns, Ensures,
  value_error, store_write_verification, if◌then◌else◌,
}
use moisture_loop.Model.Enums.{FaultCode, BlockerReason}
use moisture_loop.Records.Dict.{lookup, keys, values}
use moisture_loop.Records.Identity.{RuntimeLifecycle, IdentityStatus}
use moisture_loop.Records.Safety.{SafetyRecord, record_ok}
use moisture_loop.Records.Data.{
  StoreData, store_data_ok, record_refers, session_refers, previous_run_was_clean,
}
use moisture_loop.Store.{Codec, Write, raw, no_data, SafetyStore, run}
use moisture_loop.Store.Faults.{Partitioned, partition_controller_faults, faults_are-Partitioned}
use moisture_loop.Store.Atomic.{Adopted, Unapplied, run_is_atomic}
use moisture_loop.Store.Runs.{mark_clean_shutdown}
use moisture_loop.Store.Calls.{begin_run, set_blocker, store_after}
use moisture_loop.Store.Reach.{
  Reach, here, then_call, Sound, calls_keep_store-Sound, Unclean, crash_is_detected,
}
use moisture_loop.Store.Blockers.{set_record_blocker}
use moisture_loop.Store.Blocking.{Blocked, snapshot_after, blocker_is_set}
use moisture_loop.Store.Acknowledge.{acknowledge_actuator_fault}
use moisture_loop.Store.Acknowledged.{
  Acknowledgeable, Replaced, cleared_fault, fault_acknowledgement_is_exact,
}
use moisture_loop.Store.Handoff.{merge_zone_history_for_record}
use moisture_loop.Store.Scope.{HandedOff, handoff_keeps_actuator}
use moisture_loop.Tests.Accounts.{history}

-- A retained actuator whose fault is to be acknowledged.
abbrev faulted : SafetyRecord
faulted = record {
  safety_record_id = "r1";
  zone_id = "z1";
  active_subentry_id = none;
  previous_subentry_ids = "z1" ∷ [];
  safety_lineage_id = "l1";
  zone_history_id = "h1";
  historical_zone_history_ids = [];
  runtime_lifecycle = RuntimeLifecycle.retired;
  applied_config = none;
  actuator_identity = record {
    registry_entry_id = some "e1";
    last_known_entity_id = some "switch.bed";
    domain = some "switch";
    identity_status = IdentityStatus.registry_confirmed;
    off_service = some "switch.turn_off";
    confirm_timeout_s = some 30;
  };
  blocker_reasons = [];
  possible_flow_owner = none;
  identity_incident = none;
  actuator_fault = some FaultCode.restored_from_unsafe_state;
  acknowledgement_required = true;
  removed_actuator_ack = none;
}

-- Another actuator, of another zone.
abbrev other : SafetyRecord
other = record faulted {
  safety_record_id = "r2";
  safety_lineage_id = "l2";
  zone_history_id = "h2";
  actuator_fault = none;
  acknowledgement_required = false;
}

abbrev pub snapshot : StoreData
snapshot = record {
  generation_id = "g1";
  store_revision = 7;
  run = record { active_run_id = some "run2"; last_clean_shutdown_run_id = some "run1" };
  zone_histories =
      ("h1", record history { daily = none })
      ∷ ("h2", record history { zone_history_id = "h2"; daily = none })
      ∷ [];
  safety_records = ("r1", faulted) ∷ ("r2", other) ∷ [];
  version = 3;
}

snapshot_ok : store_data_ok snapshot ≡ true
unfolding store_data_ok lookup keys values record_refers session_refers
snapshot_ok = refl

abbrev pub store : SafetyStore
store = record { generation_id = "g1"; snapshot = some snapshot }

-- An encoding that keeps the snapshot as it is.
abbrev pub codec : Codec StoreData
codec = record {
  store_data_to_dict = λ d. if store_data_ok d then ok d else raised value_error;
  store_data_from_dict = λ d. if store_data_ok d then some d else none;
  same_payload =
      λ a b. str_eq a.generation_id b.generation_id && (a.store_revision == b.store_revision);
}

abbrev next : StoreData
next = record snapshot {
  store_revision = 8;
  run = record { active_run_id = some "run2"; last_clean_shutdown_run_id = some "run2" };
}

-- A write that goes through, and one that is lost.
abbrev pub echo : Write StoreData
echo = record { save_raises = false; read_back = raw next }

abbrev pub lost_write : Write StoreData
lost_write = record { save_raises = false; read_back = no_data }

run_is_atomic_example :
    (((run codec mark_clean_shutdown lost_write store).store ≡ store)
      × Unapplied codec mark_clean_shutdown lost_write store
          (run codec mark_clean_shutdown lost_write store).result)
    ⊎ Adopted codec mark_clean_shutdown lost_write store
        (run codec mark_clean_shutdown lost_write store)
run_is_atomic_example = run_is_atomic codec mark_clean_shutdown lost_write store

abbrev calls :
    Reach codec
      (λ _ _. true)
      store
      (store_after codec
        (λ _ _. true)
        (set_blocker "r1" BlockerReason.external_flow true)
        echo
        (store_after codec (λ _ _. true) (begin_run "run3") lost_write store))
calls =
    then_call (set_blocker "r1" BlockerReason.external_flow true) echo
      (then_call (begin_run "run3") lost_write here)

calls_keep_store-Sound_example : Sound store (
    store_after codec
      (λ _ _. true)
      (set_blocker "r1" BlockerReason.external_flow true)
      echo
      (store_after codec (λ _ _. true) (begin_run "run3") lost_write store))
calls_keep_store-Sound_example =
    calls_keep_store-Sound codec (λ _ _. true) store _ (snapshot_ok, refl) calls

crash_is_detected_example : Unclean (some "run1") (
    store_after codec
      (λ _ _. true)
      (set_blocker "r1" BlockerReason.external_flow true)
      echo
      (store_after codec (λ _ _. true) (begin_run "run3") lost_write store))
unfolding previous_run_was_clean
crash_is_detected_example =
    crash_is_detected codec (λ _ _. true) store _ calls refl (tt, (refl, tt))

faults_are-Partitioned_example :
    (false ≡ false
      → Returns (Partitioned (some FaultCode.sensor_stale) (some FaultCode.actuator_off_timeout)) (
          partition_controller_faults
            (some FaultCode.sensor_stale)
            (some FaultCode.actuator_off_timeout)))
    × (false ≡ true
        → partition_controller_faults
            (some FaultCode.sensor_stale)
            (some FaultCode.actuator_off_timeout)
          ≡ raised store_write_verification)
faults_are-Partitioned_example =
    faults_are-Partitioned (some FaultCode.sensor_stale) (some FaultCode.actuator_off_timeout)

blocker_is_set_example :
    Returns
      (λ plan.
        Blocked "r1" faulted BlockerReason.external_flow true snapshot
          (snapshot_after snapshot plan))
      (set_record_blocker "r1" BlockerReason.external_flow true snapshot)
unfolding lookup record_ok
blocker_is_set_example =
    blocker_is_set "r1" BlockerReason.external_flow true snapshot faulted snapshot_ok refl refl

abbrev FaultCleared : StoreData → Type 0
FaultCleared after = Replaced "r1" (cleared_fault faulted) snapshot after

fault_acknowledgement_is_exact_example :
    (Acknowledgeable "l1" FaultCode.restored_from_unsafe_state snapshot faulted
      → Returns
          (λ plan. FaultCleared (snapshot_after snapshot plan))
          (acknowledge_actuator_fault "r1" "l1" FaultCode.restored_from_unsafe_state snapshot))
    × Ensures
        (λ plan. Acknowledgeable "l1" FaultCode.restored_from_unsafe_state snapshot faulted)
        (acknowledge_actuator_fault "r1" "l1" FaultCode.restored_from_unsafe_state snapshot)
unfolding lookup record_ok
fault_acknowledgement_is_exact_example =
    fault_acknowledgement_is_exact "r1" "l1" FaultCode.restored_from_unsafe_state snapshot faulted
      snapshot_ok refl refl

handoff_keeps_actuator_example :
    Ensures
      (λ plan.
        HandedOff "h2" "r1" faulted
          (record history { zone_history_id = "h2"; daily = none })
          snapshot
          (snapshot_after snapshot plan))
      (merge_zone_history_for_record (λ _ _. true) "h2" "r1" snapshot)
unfolding lookup
handoff_keeps_actuator_example =
    handoff_keeps_actuator (λ _ _. true) "h2" "r1" snapshot
      (record history { zone_history_id = "h2"; daily = none }) faulted refl refl refl
