-- ===== src/Store/Acknowledged.antt =====
-- storage.py: when an acknowledgement goes through, and what it changes.
use text.Mathlib.Text.{◌==◌ as str_eq}
use text.Mathlib.TextEquality.{eq_iff}
use moisture_loop.Base.{
  ◌+◌, ◌≡◌, inl, inr, refl, true, false, none, some, String, Result, ok, Returns, Ensures,
  Ensures-bind, Ensures-all, Option-cases, arith, is_some,
}
use moisture_loop.Model.Enums.{FaultCode, requires_user_ack}
use moisture_loop.Records.Dict.{lookup, lookup-insert}
use moisture_loop.Records.History.{ZoneHistory}
use moisture_loop.Records.Safety.{SafetyRecord, record_ok}
use moisture_loop.Records.Identity.{is_unresolved}
use moisture_loop.Records.Data.{StoreData, store_data_ok}
use moisture_loop.Records.Replace.{SameOwnership, replaced-store_data_ok}
use moisture_loop.Store.{Verified, verified}
use moisture_loop.Store.Acknowledge.{
  acknowledge_actuator_fault, check_fault_acknowledgement, is_fault, is_retired, has_blockers,
  put_record,
}
use moisture_loop.Store.Blocking.{snapshot_after}

-- The record has a new value, and nothing else changed but the revision.
pub record Replaced (id : String) (new : SafetyRecord) (s after : StoreData) : Type 0 where
  pub at : lookup id after.safety_records ≡ some new
  pub others :
      (j : String) → str_eq id j ≡ false → lookup j after.safety_records ≡ lookup j s.safety_records
  pub next_revision : after.store_revision ≡ s.store_revision + 1
  pub same_store :
      after
      ≡ record s { safety_records = after.safety_records; store_revision = after.store_revision }

put_record-Replaced :
    (id : String) (r new : SafetyRecord) (s : StoreData)
    → store_data_ok s ≡ true
    → lookup id s.safety_records ≡ some r
    → record_ok new ≡ true
    → SameOwnership r new
    → Returns (λ plan. Replaced id new s (snapshot_after s plan)) (put_record id new s)
put_record-Replaced id r new s valid at ok_ same =
    simp (ok_, replaced-store_data_ok id r new s.safety_records at same s refl valid)
      (record {
        at = ground (arith, lookup-insert id id new s.safety_records, eq_iff id id);
        others = λ j h. ground (arith, lookup-insert j id new s.safety_records, h);
        next_revision = refl;
        same_store = refl;
      })

-- Nothing speaks against the acknowledgement of a fault of a record.
pub record Acknowledgeable (lineage : String) (f : FaultCode) (s : StoreData) (r : SafetyRecord)
    : Type 0 where
  pub same_lineage : str_eq r.safety_lineage_id lineage ≡ true
  pub same_fault : is_fault r.actuator_fault f ≡ true
  pub required : r.acknowledgement_required ≡ true
  pub user_ack : requires_user_ack f ≡ true
  pub no_incident : is_some r.identity_incident ≡ false
  pub resolved : is_unresolved r.actuator_identity.identity_status ≡ false
  pub no_blocker : has_blockers r ≡ false
  pub no_flow : is_some r.possible_flow_owner ≡ false
  pub retired : is_retired r.runtime_lifecycle ≡ true
  pub history : ZoneHistory
  pub at : lookup r.zone_history_id s.zone_histories ≡ some history
  pub no_session : is_some history.zone_runtime.session ≡ false

check_fault-Acknowledgeable :
    (lineage : String) (f : FaultCode) (s : StoreData) (r : SafetyRecord)
    → check_fault_acknowledgement lineage f s r ≡ ok verified
    → Acknowledgeable lineage f s r
unfolding check_fault_acknowledgement
check_fault-Acknowledgeable lineage f s r h =
    elim (Option-cases (lookup r.zone_history_id s.zone_histories)) [
      | inl e ↦ ground (arith, e, h)
      | inr (history, e) ↦ record {
        same_lineage = ground (arith, e, h);
        same_fault = ground (arith, e, h);
        required = ground (arith, e, h);
        user_ack = ground (arith, e, h);
        no_incident = ground (arith, e, h);
        resolved = ground (arith, e, h);
        no_blocker = ground (arith, e, h);
        no_flow = ground (arith, e, h);
        retired = ground (arith, e, h);
        history = history;
        at = e;
        no_session = ground (arith, e, h);
      }
    ]

Acknowledgeable-check_fault :
    (lineage : String) (f : FaultCode) (s : StoreData) (r : SafetyRecord)
    → Acknowledgeable lineage f s r
    → check_fault_acknowledgement lineage f s r ≡ ok verified
unfolding check_fault_acknowledgement
Acknowledgeable-check_fault lineage f s r a = ground (arith, a)

ok_verified : (b : Verified) {c : Result Verified} → c ≡ ok b → c ≡ ok verified
ok_verified verified e = e

abbrev pub cleared_fault : SafetyRecord → SafetyRecord
cleared_fault r = record r { actuator_fault = none; acknowledgement_required = false }

cleared_fault-record_ok :
    (r : SafetyRecord) → record_ok r ≡ true → record_ok (cleared_fault r) ≡ true
unfolding record_ok
cleared_fault-record_ok r h = ground (arith, h)

-- In a snapshot that can be built, the acknowledgement of a fault of a record that is there and can be
-- built returns exactly if nothing speaks against it: the record has that lineage and that fault, which
-- the user has to acknowledge, its identity is resolved, no blocker, flow owner or open session is left,
-- and it is RETIRED. It then clears the fault of that record and its acknowledgement flag, and the
-- planned snapshot differs from the old one in nothing else but a revision that is one greater.
pub fault_acknowledgement_is_exact :
    (id lineage : String) (f : FaultCode) (s : StoreData) (r : SafetyRecord)
    → store_data_ok s ≡ true
    → lookup id s.safety_records ≡ some r
    → record_ok r ≡ true
    → (Acknowledgeable lineage f s r
        → Returns
            (λ plan. Replaced id (cleared_fault r) s (snapshot_after s plan))
            (acknowledge_actuator_fault id lineage f s))
      × Ensures (λ plan. Acknowledgeable lineage f s r) (acknowledge_actuator_fault id lineage f s)
unfolding acknowledge_actuator_fault
fault_acknowledgement_is_exact id lineage f s r valid at v = (
  (λ a.
      simp (at, Acknowledgeable-check_fault lineage f s r a)
        (put_record-Replaced id r (cleared_fault r) s valid at (cleared_fault-record_ok r v)
          (record {
            same_id = refl;
            same_subentry = refl;
            same_lineage = refl;
            same_history_id = refl;
            same_lifecycle = refl;
          }))),
  simp at (
      Ensures-bind (λ plan. Acknowledgeable lineage f s r)
        (check_fault_acknowledgement lineage f s r) (λ _. put_record id (cleared_fault r) s)
        (λ b e.
          Ensures-all (λ plan. Acknowledgeable lineage f s r) (put_record id (cleared_fault r) s)
            (λ _. check_fault-Acknowledgeable lineage f s r (ok_verified b e)))),
)
