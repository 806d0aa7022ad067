-- ===== src/Store.antt =====
-- storage.py: the safety store. An operation computes the next snapshot from the last verified one,
-- writes it, and adopts it once a fresh read-back has verified the write. What Home Assistant's Store
-- answers to one write is an argument, and so is the encoding of models.py, as an interface.
pub mod Faults
pub mod Atomic
pub mod Runs
pub mod Blockers
pub mod Acknowledge
pub mod Controller
pub mod Handoff
pub mod Calls
pub mod Next
pub mod Reach
pub mod Blocking
pub mod Acknowledged
pub mod Scope
pub mod Reconstruct
pub mod Integrity
pub mod Setup
pub mod Startup
use text.Mathlib.Text.{◌==◌ as str_eq}
use moisture_loop.Base.{
  ℕ, ◌+◌, ◌≡◌, ◌==◌, Bool, true, false, ◌&&◌, not, Option, none, some, String, if◌then◌else◌,
  Result, ok, raised, Error, value_error, store_not_loaded, store_write_verification, ◌>>=◌,
  or_raise,
}
use moisture_loop.Records.Data.{StoreData, store_data_ok}

-- `store_data_to_dict` and `store_data_from_dict`, whose errors are all `StoreDataError`s, with the
-- equality of payloads.
pub record Codec (P : Type 0) : Type 0 where
  pub store_data_to_dict : StoreData → Result P
  pub store_data_from_dict : P → Option StoreData
  pub same_payload : P → P → Bool

-- The answer of `async_load`.
pub data Loaded (P : Type 0) : Type 0 where
  load_raises no_data : Loaded P
  raw : P → Loaded P

-- What happens to one write: whether `async_save` raises, and what a fresh Store then loads.
pub record Write (P : Type 0) : Type 0 where
  pub save_raises : Bool
  pub read_back : Loaded P

pub record SafetyStore : Type 0 where
  pub generation_id : String
  pub snapshot : Option StoreData

-- The store after a call, and what the call returns or raises.
pub record Reply (A : Type 0) : Type 0 where
  pub store : SafetyStore
  pub result : Result A

-- What an operation does under the lock: return without a write, or write a snapshot and return.
pub data Plan (A : Type 0) : Type 0 where
  keep : A → Plan A
  write : StoreData → A → Plan A

-- That a write is verified.
pub data Verified : Type 0 where
  verified : Verified

abbrev pub failed : {A : Type 0} → Result A
failed = raised store_write_verification

-- The snapshot that the store adopts, as it was written: the loaded one only has to have the same
-- payload.
unfoldable pub headers_match : StoreData → StoreData → Bool
headers_match loaded next =
    loaded.version == 3
    && (str_eq loaded.generation_id next.generation_id
        && (loaded.store_revision == next.store_revision))

module _ {P : Type 0} (codec : Codec P) where
  unfoldable pub check_loaded : StoreData → P → StoreData → Result Verified
  unfolding headers_match
  check_loaded next payload loaded =
      if headers_match loaded next
      then (codec.store_data_to_dict loaded >>= λ again.
          if codec.same_payload again payload then ok verified else failed)
      else failed

  unfoldable pub check_read_back : StoreData → P → Loaded P → Result Verified
  unfolding check_loaded
  check_read_back next payload load_raises = failed
  check_read_back next payload no_data = failed
  check_read_back next payload (raw p) =
      or_raise (codec.store_data_from_dict p) store_write_verification >>= λ loaded.
      check_loaded next payload loaded

  unfoldable pub verify : Write P → StoreData → Result Verified
  unfolding check_read_back
  verify w next = codec.store_data_to_dict next >>= λ payload.
      if w.save_raises then failed else check_read_back next payload w.read_back

  abbrev pub adopt : {A : Type 0} → SafetyStore → StoreData → A → Result Verified → Reply A
  adopt s next a (ok _) = record { store = record s { snapshot = some next }; result = ok a }
  adopt s next a (raised e) = record { store = s; result = raised e }

  -- `await self._save_and_verify_locked(data); return a`.
  unfoldable pub save_and_verify : {A : Type 0} → Write P → SafetyStore → StoreData → A → Reply A
  unfolding verify
  save_and_verify w s next a = adopt s next a (verify w next)

  abbrev pub carry_out : {A : Type 0} → Write P → SafetyStore → Result (Plan A) → Reply A
  carry_out w s (raised e) = record { store = s; result = raised e }
  carry_out w s (ok (keep a)) = record { store = s; result = ok a }
  carry_out w s (ok (write next a)) = save_and_verify w s next a

  -- An operation, which reads `self.data`.
  unfoldable pub run :
      {A : Type 0} → (StoreData → Result (Plan A)) → Write P → SafetyStore → Reply A
  unfolding save_and_verify
  run plan w s = carry_out w s (or_raise s.snapshot store_not_loaded >>= plan)

-- `StoreData(...)`.
abbrev pub make_store : StoreData → Result StoreData
make_store d = if store_data_ok d then ok d else raised value_error

-- A plan that writes the snapshot with the next revision, and returns it.
abbrev pub write_next : StoreData → Result (Plan StoreData)
write_next d =
    make_store (record d { store_revision = d.store_revision + 1 }) >>= λ next. ok (write next next)
