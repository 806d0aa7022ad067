-- ===== src/Store/Startup.antt =====
-- storage.py: what each classification of a start means.
use text.Mathlib.Text.{◌==◌ as str_eq}
use moisture_loop.Base.{
  ◌≡◌, inl, inr, refl, ap, ◌∙◌, Bool, true, false, Option, none, some, List, [], ◌∷◌, Result, ok,
  raised, Bool-cases, Result-cases, arith, not, if◌then◌else◌,
}
use moisture_loop.Records.Data.{StoreData}
use moisture_loop.Store.{
  Codec, Loaded, load_raises, no_data, raw, Write, SafetyStore, Reply, verified, verify,
}
use moisture_loop.Store.Setup.{
  Migrations, Read, not_implemented, read_raises, nothing, found, migrate_schema1_to_schema2,
  load_current_or_schema1, first_install, interrupted_initialization, initialized_ok,
  integrity_loss, Setup, lost, adopt_loaded, write_migrated, is_version, classify_payload,
  classify_loaded, classify_setup, migrate_legacy, from_schema1, from_schema2, from_current,
  loaded_as,
}

-- What a classification says of the call. `before` is the store as it was.
abbrev pub Justified :
    {P : Type 0} → Bool → Loaded P → SafetyStore → SafetyStore → Result Setup → Type 0
Justified initialized l before s (ok (first_install, d)) =
    (initialized ≡ false) × ((l ≡ no_data) × ((s ≡ before) × (d ≡ none)))
Justified initialized l before s (ok (integrity_loss, d)) = (s ≡ before) × (d ≡ none)
Justified initialized l before s (ok (initialized_ok, d)) =
    (initialized ≡ true)
    × ((x : StoreData) × ((d ≡ some x)
          × ((s ≡ record before { snapshot = some x })
              × (str_eq x.generation_id before.generation_id ≡ true))))
Justified initialized l before s (ok (interrupted_initialization, d)) =
    (initialized ≡ false)
    × ((x : StoreData) × ((d ≡ some x)
          × ((s ≡ record before { snapshot = some x })
              × (str_eq x.generation_id before.generation_id ≡ true))))
Justified initialized l before s (raised e) = s ≡ before

migrate-SameGeneration :
    {P L : Type 0} (m : Migrations P L) (l : L) (d : StoreData)
    → migrate_schema1_to_schema2 m l ≡ some d
    → d.generation_id ≡ m.legacy_generation_id l
unfolding migrate_schema1_to_schema2
migrate-SameGeneration m l d e = ground (arith, e)

module _ {P L : Type 0} (codec : Codec P) (m : Migrations P L) (i : Bool) (w : Write P) where
  abbrev Right : Loaded P → SafetyStore → Reply Setup → Type 0
  Right l before r = Justified i l before r.store r.result

  adopted-Right :
      (l : Loaded P) (before : SafetyStore) (d : StoreData)
      → str_eq d.generation_id before.generation_id ≡ true
      → Right l before (record {
        store = record before { snapshot = some d };
        result = ok (loaded_as i, some d);
      })
  adopted-Right l before d g = elim (Bool-cases i) [
    | inl yes_ ↦ rw yes_ (refl, (d, (refl, (refl, g))))
    | inr no_ ↦ rw no_ (refl, (d, (refl, (refl, g))))
  ]

  adopt_loaded-Right :
      (l : Loaded P) (s : SafetyStore) (d : StoreData) → Right l s (adopt_loaded i s d)
  unfolding adopt_loaded
  adopt_loaded-Right l s d = elim (Bool-cases (str_eq d.generation_id s.generation_id)) [
    | inl g ↦ rw g (adopted-Right l s d g)
    | inr g ↦ rw g (refl, refl)
  ]

  write_migrated-Right :
      (l : Loaded P) (s : SafetyStore) (d : StoreData)
      → str_eq d.generation_id s.generation_id ≡ true
      → Right l s (write_migrated codec m i w s d)
  unfolding write_migrated adopt_loaded
  write_migrated-Right l s d g = elim (Result-cases (verify codec w d)) [
    | inl (verified, e) ↦ rw e (rw g (adopted-Right l s d g))
    | inr (x, e) ↦ rw e refl
  ]

  either :
      (l : Loaded P) (s : SafetyStore) (b : Bool) (r t : Reply Setup)
      → (b ≡ true → Right l s r)
      → Right l s t
      → Right l s (if b then r else t)
  either l s true r t h k = h refl
  either l s false r t h k = k

  migrate_legacy-Right :
      (l : Loaded P) (s : SafetyStore) (o : Option StoreData)
      → ((d : StoreData) → o ≡ some d → str_eq d.generation_id s.generation_id ≡ true)
      → Right l s (migrate_legacy codec m i w s o)
  migrate_legacy-Right l s none h = (refl, refl)
  migrate_legacy-Right l s (some d) h = write_migrated-Right l s d (h d refl)

  from_schema1-Right :
      (l : Loaded P) (s : SafetyStore) (o : Option L) → Right l s (from_schema1 codec m i w s o)
  from_schema1-Right l s none = (refl, refl)
  from_schema1-Right l s (some x) =
      either l s (str_eq (m.legacy_generation_id x) s.generation_id)
        (migrate_legacy codec m i w s (migrate_schema1_to_schema2 m x)) (lost s)
        (λ g.
          migrate_legacy-Right l s (migrate_schema1_to_schema2 m x)
            (λ d e. ap (λ t. str_eq t s.generation_id) (migrate-SameGeneration m x d e) ∙ g))
        (refl, refl)

  from_schema2-Right :
      (l : Loaded P) (s : SafetyStore) (o : Option StoreData)
      → Right l s (from_schema2 codec m i w s o)
  from_schema2-Right l s none = (refl, refl)
  from_schema2-Right l s (some d) =
      either l s (str_eq d.generation_id s.generation_id) (write_migrated codec m i w s d) (lost s)
        (write_migrated-Right l s d) (refl, refl)

  from_current-Right :
      (l : Loaded P) (s : SafetyStore) (o : Option StoreData)
      → Right l s (from_current codec m i s o)
  from_current-Right l s none = (refl, refl)
  from_current-Right l s (some d) = adopt_loaded-Right l s d

  classify_payload-Right :
      (l : Loaded P) (s : SafetyStore) (p : P) → Right l s (classify_payload codec m i w s p)
  unfolding classify_payload
  classify_payload-Right l s p =
      either l s (not (m.is_dict p)) (lost s) _ (λ _. (refl, refl))
        (either l s (is_version codec m 1 (m.version p))
          (from_schema1 codec m i w s (m.schema1_store_data_from_dict p)) _
          (λ _. from_schema1-Right l s (m.schema1_store_data_from_dict p))
          (either l s (is_version codec m 2 (m.version p))
            (from_schema2 codec m i w s (m.migrate_schema2_to_schema3 p))
            (from_current codec m i s (codec.store_data_from_dict p))
            (λ _. from_schema2-Right l s (m.migrate_schema2_to_schema3 p))
            (from_current-Right l s (codec.store_data_from_dict p))))

  classify_loaded-Right :
      (l : Loaded P) (s : SafetyStore) → Right l s (classify_loaded codec m i w s l)
  classify_loaded-Right load_raises s = (refl, refl)
  classify_loaded-Right no_data s = elim (Bool-cases i) [
    | inl yes_ ↦ rw yes_ (refl, refl)
    | inr no_ ↦ rw no_ (refl, (refl, (refl, refl)))
  ]
  classify_loaded-Right (raw p) s = classify_payload-Right (raw p) s p

-- The first reader that supports the schema of the payload finds nothing.
abbrev pub FirstFindsNothing : {P : Type 0} → List (Read P) → Type 0
FirstFindsNothing [] = ⊥
FirstFindsNothing (not_implemented ∷ readers) = FirstFindsNothing readers
FirstFindsNothing (nothing ∷ readers) = Unit
FirstFindsNothing (_ ∷ readers) = ⊥

no_data-FirstFindsNothing :
    {P : Type 0} (readers : List (Read P))
    → load_current_or_schema1 readers ≡ no_data
    → FirstFindsNothing readers
unfolding load_current_or_schema1
no_data-FirstFindsNothing [] h = ground arith
no_data-FirstFindsNothing (not_implemented ∷ readers) h = no_data-FirstFindsNothing readers h
no_data-FirstFindsNothing (read_raises ∷ readers) h = ground arith
no_data-FirstFindsNothing (nothing ∷ readers) h = tt
no_data-FirstFindsNothing (found p ∷ readers) h = ground arith

-- A start never takes a store that was initialized for a first installation: that is answered only if
-- the store was not initialized and the first reader that supports the schema of the payload finds
-- nothing, and changes nothing. A snapshot is adopted
-- and returned only if it is of the generation of the store, as an initialized one or as an interrupted
-- initialization by the flag. An integrity loss, and an error of the write, change nothing.
pub setup_is-Justified :
    {P L : Type 0} (codec : Codec P) (m : Migrations P L) (initialized : Bool)
    (readers : List (Read P)) (w : Write P) (s : SafetyStore)
    → Justified initialized
        (load_current_or_schema1 readers)
        s
        (classify_setup codec m initialized readers w s).store
        (classify_setup codec m initialized readers w s).result
      × (load_current_or_schema1 readers ≡ no_data → FirstFindsNothing readers)
unfolding classify_setup
setup_is-Justified codec m initialized readers w s = (
  classify_loaded-Right codec m initialized w (load_current_or_schema1 readers) s,
  no_data-FirstFindsNothing readers,
)
