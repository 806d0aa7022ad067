-- ===== src/Store/Calls.antt =====
-- storage.py: the operations of a loaded store as one type of calls, and what each plans.
use moisture_loop.Base.{ℕ, Bool, String, Result}
use moisture_loop.Model.Enums.{BlockerReason, FaultCode}
use moisture_loop.Records.Dict.{Dict}
use moisture_loop.Records.History.{ZoneHistory}
use moisture_loop.Records.Safety.{SafetyRecord}
use moisture_loop.Records.Data.{StoreData}
use moisture_loop.Store.{Codec, Write, SafetyStore, run}
use moisture_loop.Store.Runs.{begin_new_run, mark_clean_shutdown, reconcile}
use moisture_loop.Store.Blockers.{set_record_blocker}
use moisture_loop.Store.Acknowledge.{acknowledge_actuator_fault, acknowledge_removed_actuator}
use moisture_loop.Store.Controller.{
  ControllerUpdate, update_controller_runtime, rebase_soaking_owner_for_record,
}
use moisture_loop.Store.Handoff.{merge_zone_history_for_record}

pub data Call : Type 0 where
  begin_run : String → Call
  mark_clean : Call
  update_runtime : String → String → ControllerUpdate → Call
  acknowledge_fault : String → String → FaultCode → Call
  acknowledge_removed : String → String → String → ℕ → Call
  reconcile_with : (StoreData → Result (Dict SafetyRecord × Dict ZoneHistory)) → Call
  set_blocker : String → BlockerReason → Bool → Call
  merge_history : String → String → Call
  rebase_owner : String → String → Call

module _ {P : Type 0} (codec : Codec P) (same_history : ZoneHistory → ZoneHistory → Bool) where
  -- The store after a call, whose write goes as given.
  unfoldable pub store_after : Call → Write P → SafetyStore → SafetyStore
  store_after (begin_run id) w s = (run codec (begin_new_run id) w s).store
  store_after mark_clean w s = (run codec mark_clean_shutdown w s).store
  store_after (update_runtime r h u) w s = (run codec (update_controller_runtime r h u) w s).store
  store_after (acknowledge_fault r l f) w s =
      (run codec (acknowledge_actuator_fault r l f) w s).store
  store_after (acknowledge_removed r l e at) w s =
      (run codec (acknowledge_removed_actuator r l e at) w s).store
  store_after (reconcile_with mutator) w s = (run codec (reconcile mutator) w s).store
  store_after (set_blocker r reason active) w s =
      (run codec (set_record_blocker r reason active) w s).store
  store_after (merge_history h r) w s =
      (run codec (merge_zone_history_for_record same_history h r) w s).store
  store_after (rebase_owner r run_id) w s =
      (run codec (rebase_soaking_owner_for_record r run_id) w s).store
