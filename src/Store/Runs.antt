-- ===== src/Store/Runs.antt =====
-- storage.py: the run-ID protocol, `async_first_initialize`, and a transaction of reconciliation.
use moisture_loop.Base.{none, some, [], String, Result, ok, raised, ◌>>=◌, ◌+◌}
use moisture_loop.Records.Dict.{Dict}
use moisture_loop.Records.History.{ZoneHistory}
use moisture_loop.Records.Safety.{SafetyRecord}
use moisture_loop.Records.Data.{StoreData, RunIds}
use moisture_loop.Store.{
  Codec, Write, SafetyStore, Reply, Plan, write, make_store, write_next, save_and_verify,
}

-- The snapshot of a first installation.
unfoldable pub initial_data : String → StoreData
initial_data generation_id = record {
  generation_id = generation_id;
  store_revision = 1;
  run = record { active_run_id = none; last_clean_shutdown_run_id = none };
  zone_histories = [];
  safety_records = [];
  version = 3;
}

unfoldable pub begin_new_run : String → StoreData → Result (Plan RunIds)
begin_new_run new_active_run_id s =
    make_store (record s {
      store_revision = s.store_revision + 1;
      run = record s.run { active_run_id = some new_active_run_id };
    })
    >>= λ next. ok (write next s.run)

unfoldable pub mark_clean_shutdown : StoreData → Result (Plan StoreData)
mark_clean_shutdown s =
    write_next
      (record s { run = record s.run { last_clean_shutdown_run_id = s.run.active_run_id } })

-- The mutator returns all records and all histories.
unfoldable pub reconcile :
    (StoreData → Result (Dict SafetyRecord × Dict ZoneHistory))
    → StoreData
    → Result (Plan StoreData)
reconcile mutator s =
    mutator s >>= λ maps. write_next (record s { safety_records = maps.0; zone_histories = maps.1 })

module _ {P : Type 0} (codec : Codec P) where
  unfoldable pub first_initialize : Write P → SafetyStore → Reply StoreData
  first_initialize w s = elim (make_store (initial_data s.generation_id)) [
    | ok next ↦ save_and_verify codec w s next next
    | raised e ↦ record { store = s; result = raised e }
  ]
