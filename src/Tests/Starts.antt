-- ===== src/Tests/Starts.antt =====
-- Theorems on the start of the safety store, at concrete payloads.
use moisture_loop.Base.{◌≡◌, refl, true, some, [], ◌∷◌}
use moisture_loop.Records.Dict.{keys, lookup}
use moisture_loop.Records.Data.{StoreData}
use moisture_loop.Store.Reconstruct.{reconstructed_data, integrity_id}
use moisture_loop.Store.Integrity.{Closed, integrity_loss_closes_zones}
use moisture_loop.Store.{no_data}
use moisture_loop.Store.Setup.{
  Migrations, not_implemented, found, load_current_or_schema1, classify_setup,
}
use moisture_loop.Store.Startup.{Justified, FirstFindsNothing, setup_is-Justified}
use moisture_loop.Tests.Stores.{codec, store, snapshot, echo}

integrity_loss_closes_zones_example :
    Closed
      (λ s. s)
      (λ _. "2026-01-01")
      "g1"
      20000
      "z2"
      1800
      (reconstructed_data
        (λ s. s)
        (λ _. "2026-01-01")
        "g1"
        20000
        (("z1", 3600) ∷ ("z2", 1800) ∷ []))
unfolding keys lookup integrity_id
integrity_loss_closes_zones_example =
    integrity_loss_closes_zones (λ s. s) (λ _. "2026-01-01") "g1" 20000
      (("z1", 3600) ∷ ("z2", 1800) ∷ []) "z2" 1800 refl refl refl

-- Payloads of the current schema only.
abbrev migrations : Migrations StoreData StoreData
migrations = record {
  is_dict = λ _. true;
  version = λ d. some d.version;
  schema1_store_data_from_dict = λ d. some d;
  legacy_generation_id = λ d. d.generation_id;
  legacy_store_revision = λ d. d.store_revision;
  legacy_run = λ d. d.run;
  migrate_zones = λ d. some (d.zone_histories, d.safety_records);
  migrate_schema2_to_schema3 = λ d. some d;
}

setup_is-Justified_example :
    Justified true
      (load_current_or_schema1 (not_implemented ∷ found snapshot ∷ []))
      store
      (classify_setup codec migrations true
        (not_implemented ∷ found snapshot ∷ [])
        echo
        store).store
      (classify_setup codec migrations true
        (not_implemented ∷ found snapshot ∷ [])
        echo
        store).result
    × (load_current_or_schema1 (not_implemented ∷ found snapshot ∷ []) ≡ no_data
        → FirstFindsNothing (not_implemented ∷ found snapshot ∷ []))
setup_is-Justified_example =
    setup_is-Justified codec migrations true (not_implemented ∷ found snapshot ∷ []) echo store
