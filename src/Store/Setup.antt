-- ===== src/Store/Setup.antt =====
-- storage.py: `async_classify_setup`, the decision what a start finds, with the snapshot that the
-- migration of schema 1 in models.py builds. The parsers of the older schemas, what the migration makes
-- of each zone, and the migration of schema 2 are an interface without laws.
use text.Mathlib.Text.{◌==◌ as str_eq}
use moisture_loop.Base.{
  ℕ, ◌+◌, ◌==◌, Bool, false, not, Option, none, some, List, [], ◌∷◌, String, if◌then◌else◌, Result,
  ok, raised,
}
use moisture_loop.Records.Dict.{Dict}
use moisture_loop.Records.History.{ZoneHistory}
use moisture_loop.Records.Safety.{SafetyRecord}
use moisture_loop.Records.Data.{RunIds, StoreData, store_data_ok}
use moisture_loop.Store.{
  Codec, Loaded, load_raises, no_data, raw, Write, SafetyStore, Reply, Verified, verify,
}

-- The older schemas: a parsed payload of schema 1 with its fields, and the conversion of its zones into
-- records and histories, which fails where one cannot be built.
pub record Migrations (P L : Type 0) : Type 0 where
  pub is_dict : P → Bool
  pub version : P → Option ℕ
  pub schema1_store_data_from_dict : P → Option L
  pub legacy_generation_id : L → String
  pub legacy_store_revision : L → ℕ
  pub legacy_run : L → RunIds
  pub migrate_zones : L → Option (Dict ZoneHistory × Dict SafetyRecord)
  pub migrate_schema2_to_schema3 : P → Option StoreData

-- `StoreData(...)`, with nothing where its `__post_init__` raises.
abbrev pub built : StoreData → Option StoreData
built d = if store_data_ok d then some d else none

-- The end of `migrate_schema1_to_schema2`: the snapshot of the converted zones, of the same generation
-- and run, with the next revision.
unfoldable pub migrate_schema1_to_schema2 : {P L : Type 0} → Migrations P L → L → Option StoreData
migrate_schema1_to_schema2 m l = of_zones (m.migrate_zones l)
  where
    of_zones : Option (Dict ZoneHistory × Dict SafetyRecord) → Option StoreData
    of_zones none = none
    of_zones (some (histories, records)) = built (record {
      generation_id = m.legacy_generation_id l;
      store_revision = m.legacy_store_revision l + 1;
      run = m.legacy_run l;
      zone_histories = histories;
      safety_records = records;
      version = 3;
    })

-- The answer of one reader, which may not support the schema.
pub data Read (P : Type 0) : Type 0 where
  not_implemented read_raises nothing : Read P
  found : P → Read P

-- `_load_current_or_schema1_locked`, over its three readers.
unfoldable pub load_current_or_schema1 : {P : Type 0} → List (Read P) → Loaded P
load_current_or_schema1 [] = load_raises
load_current_or_schema1 (not_implemented ∷ readers) = load_current_or_schema1 readers
load_current_or_schema1 (read_raises ∷ readers) = load_raises
load_current_or_schema1 (nothing ∷ readers) = no_data
load_current_or_schema1 (found p ∷ readers) = raw p

pub data SetupClassification : Type 0 where
  first_install interrupted_initialization initialized_ok integrity_loss : SetupClassification

abbrev pub Setup : Type 0
Setup = SetupClassification × Option StoreData

abbrev pub lost : SafetyStore → Reply Setup
lost s = record { store = s; result = ok (integrity_loss, none) }

abbrev pub loaded_as : Bool → SetupClassification
loaded_as initialized = if initialized then initialized_ok else interrupted_initialization

-- The end of the call: a snapshot of the generation is adopted.
unfoldable pub adopt_loaded : Bool → SafetyStore → StoreData → Reply Setup
adopt_loaded initialized s d =
    if str_eq d.generation_id s.generation_id
    then record {
      store = record s { snapshot = some d };
      result = ok (loaded_as initialized, some d);
    }
    else lost s

module _ {P L : Type 0} (codec : Codec P) (m : Migrations P L) where
  -- After the verified write of a migrated snapshot.
  abbrev pub after_write : Bool → SafetyStore → StoreData → Result Verified → Reply Setup
  after_write initialized s d (ok _) = adopt_loaded initialized (record s { snapshot = some d }) d
  after_write initialized s d (raised e) = record { store = s; result = raised e }

  unfoldable pub write_migrated : Bool → Write P → SafetyStore → StoreData → Reply Setup
  unfolding adopt_loaded verify
  write_migrated initialized w s d = after_write initialized s d (verify codec w d)

  abbrev pub migrate_legacy : Bool → Write P → SafetyStore → Option StoreData → Reply Setup
  migrate_legacy initialized w s none = lost s
  migrate_legacy initialized w s (some d) = write_migrated initialized w s d

  abbrev pub from_schema1 : Bool → Write P → SafetyStore → Option L → Reply Setup
  from_schema1 initialized w s none = lost s
  from_schema1 initialized w s (some l) =
      if str_eq (m.legacy_generation_id l) s.generation_id
      then migrate_legacy initialized w s (migrate_schema1_to_schema2 m l)
      else lost s

  abbrev pub from_schema2 : Bool → Write P → SafetyStore → Option StoreData → Reply Setup
  from_schema2 initialized w s none = lost s
  from_schema2 initialized w s (some d) =
      if str_eq d.generation_id s.generation_id then write_migrated initialized w s d else lost s

  abbrev pub from_current : Bool → SafetyStore → Option StoreData → Reply Setup
  from_current initialized s none = lost s
  from_current initialized s (some d) = adopt_loaded initialized s d

  abbrev pub is_version : ℕ → Option ℕ → Bool
  is_version n none = false
  is_version n (some v) = v == n

  unfoldable pub classify_payload : Bool → Write P → SafetyStore → P → Reply Setup
  unfolding write_migrated
  classify_payload initialized w s p =
      if not (m.is_dict p)
      then lost s
      else if is_version 1 (m.version p)
      then from_schema1 initialized w s (m.schema1_store_data_from_dict p)
      else if is_version 2 (m.version p)
      then from_schema2 initialized w s (m.migrate_schema2_to_schema3 p)
      else from_current initialized s (codec.store_data_from_dict p)

  abbrev pub classify_loaded : Bool → Write P → SafetyStore → Loaded P → Reply Setup
  classify_loaded initialized w s load_raises = lost s
  classify_loaded initialized w s no_data =
      if initialized then lost s else record { store = s; result = ok (first_install, none) }
  classify_loaded initialized w s (raw p) = classify_payload initialized w s p

  unfoldable pub classify_setup : Bool → List (Read P) → Write P → SafetyStore → Reply Setup
  unfolding load_current_or_schema1 classify_payload
  classify_setup initialized readers w s =
      classify_loaded initialized w s (load_current_or_schema1 readers)
