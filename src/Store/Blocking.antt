-- ===== src/Store/Blocking.antt =====
-- storage.py: what `async_set_record_blocker` makes of a snapshot.
use text.Mathlib.Text.{◌==◌ as str_eq}
use text.Mathlib.TextEquality.{eq_iff}
use moisture_loop.Base.{
  ◌≡◌, ◌∙◌, inl, inr, refl, sym, ap, Bool, true, false, some, List, [], ◌∷◌, String, Returns,
  Bool-cases, arith,
}
use moisture_loop.Model.Enums.{BlockerReason}
use moisture_loop.Slots.{reason_eq}
use moisture_loop.Records.Dict.{lookup, lookup-insert}
use moisture_loop.Records.Safety.{SafetyRecord, has_reason, reasons_unique, record_ok}
use moisture_loop.Records.Data.{StoreData, store_data_ok}
use moisture_loop.Records.Replace.{SameOwnership, replaced-store_data_ok}
use moisture_loop.Store.{Plan, keep, write}
use moisture_loop.Store.Blockers.{
  set_record_blocker, ordered_blockers, stands, reasons_eq, blocked_record,
}

-- The snapshot that an operation leaves.
abbrev pub snapshot_after : StoreData → Plan StoreData → StoreData
snapshot_after s (keep a) = s
snapshot_after s (write next a) = next

-- A reason stands in the sorted list exactly as it is asked for, or as it stood before.
has_reason-ordered_blockers :
    (bs : List BlockerReason) (reason : BlockerReason) (active : Bool) (q : BlockerReason)
    → has_reason q (ordered_blockers bs reason active) ≡ stands bs reason active q
unfolding ordered_blockers
has_reason-ordered_blockers bs reason active BlockerReason.external_flow = ground arith
has_reason-ordered_blockers bs reason active BlockerReason.integration_off_unconfirmed =
    ground arith
has_reason-ordered_blockers bs reason active BlockerReason.actuator_not_proven_off = ground arith

reasons_unique-ordered_blockers :
    (bs : List BlockerReason) (reason : BlockerReason) (active : Bool)
    → reasons_unique (ordered_blockers bs reason active) ≡ true
unfolding ordered_blockers
reasons_unique-ordered_blockers bs reason active = ground arith

reason_eq-cong : (q a b : BlockerReason) → reason_eq a b ≡ true → reason_eq q a ≡ reason_eq q b
reason_eq-cong q BlockerReason.external_flow b h = ground arith
reason_eq-cong q BlockerReason.integration_off_unconfirmed b h = ground arith
reason_eq-cong q BlockerReason.actuator_not_proven_off b h = ground arith

reasons_eq-has_reason :
    (xs ys : List BlockerReason)
    → (q : BlockerReason) → reasons_eq xs ys ≡ true
    → has_reason q xs ≡ has_reason q ys
reasons_eq-has_reason [] [] q h = refl
reasons_eq-has_reason [] (y ∷ ys) q h = ground arith
reasons_eq-has_reason (x ∷ xs) [] q h = ground arith
reasons_eq-has_reason (x ∷ xs) (y ∷ ys) q h =
    ground (arith, reason_eq-cong q x y, reasons_eq-has_reason xs ys q, h)

blocked_record-SameOwnership :
    (r : SafetyRecord) (reason : BlockerReason) (active : Bool)
    → SameOwnership r (blocked_record r reason active)
unfolding blocked_record
blocked_record-SameOwnership r reason active = record {
  same_id = refl;
  same_subentry = refl;
  same_lineage = refl;
  same_history_id = refl;
  same_lifecycle = refl;
}

blocked_record-blockers :
    (r : SafetyRecord) (reason : BlockerReason) (active : Bool)
    → (blocked_record r reason active).blocker_reasons
      ≡ ordered_blockers r.blocker_reasons reason active
unfolding blocked_record
blocked_record-blockers r reason active = refl

blocked_record-rest :
    (r : SafetyRecord) (reason : BlockerReason) (active : Bool)
    → blocked_record r reason active ≡ record r {
      blocker_reasons = (blocked_record r reason active).blocker_reasons;
      possible_flow_owner = (blocked_record r reason active).possible_flow_owner;
    }
unfolding blocked_record
blocked_record-rest r reason active = refl

blocked_record-record_ok :
    (r : SafetyRecord) (reason : BlockerReason) (active : Bool)
    → record_ok r ≡ true
    → record_ok (blocked_record r reason active) ≡ true
unfolding record_ok blocked_record
blocked_record-record_ok r reason active h =
    ground (arith, h, reasons_unique-ordered_blockers r.blocker_reasons reason active)

-- After the call, the blockers of the record are the ones from before, but for the given reason, which
-- stands exactly if it is asked for; nothing else of the record but the flow owner changes, and no other
-- record, no history, and nothing of the snapshot but its revision.
pub record Blocked (id : String) (r : SafetyRecord) (reason : BlockerReason) (active : Bool)
    (s after : StoreData) : Type 0 where
  pub new : SafetyRecord
  pub at : lookup id after.safety_records ≡ some new
  pub blockers :
      (q : BlockerReason)
      → has_reason q new.blocker_reasons ≡ stands r.blocker_reasons reason active q
  pub same_rest : new ≡ record r {
    blocker_reasons = new.blocker_reasons;
    possible_flow_owner = new.possible_flow_owner;
  }
  pub others :
      (j : String) → str_eq id j ≡ false → lookup j after.safety_records ≡ lookup j s.safety_records
  pub same_store :
      after
      ≡ record s { safety_records = after.safety_records; store_revision = after.store_revision }

-- In a snapshot that can be built, a blocker of a record that is there and can be built is set or
-- cleared without an error: a snapshot is planned, or kept, in which that reason of that record stands
-- exactly if it is asked for, and which differs in nothing else but the record's flow owner, the
-- revision and the order of the record's blockers.
pub blocker_is_set :
    (id : String) (reason : BlockerReason) (active : Bool) (s : StoreData) (r : SafetyRecord)
    → store_data_ok s ≡ true
    → lookup id s.safety_records ≡ some r
    → record_ok r ≡ true
    → Returns
        (λ plan. Blocked id r reason active s (snapshot_after s plan))
        (set_record_blocker id reason active s)
unfolding set_record_blocker
blocker_is_set id reason active s r valid at v =
    elim (Bool-cases
      (reasons_eq (ordered_blockers r.blocker_reasons reason active) r.blocker_reasons)) [
        | inl same ↦
            simp (at, same)
              (record {
                new = r;
                at = at;
                blockers = λ q.
                    sym (reasons_eq-has_reason _ _ q same)
                    ∙ has_reason-ordered_blockers r.blocker_reasons reason active q;
                same_rest = refl;
                others = λ j h. refl;
                same_store = refl;
              })
        | inr differs ↦
            let new = blocked_record r reason active in
            simp
              (
                at,
                differs,
                blocked_record-record_ok r reason active v,
                replaced-store_data_ok id r new s.safety_records at
                    (blocked_record-SameOwnership r reason active) s refl valid,
              )
              (record {
                new = new;
                at = ground (arith, lookup-insert id id new s.safety_records, eq_iff id id);
                blockers = λ q.
                    ap (has_reason q) (blocked_record-blockers r reason active)
                    ∙ has_reason-ordered_blockers r.blocker_reasons reason active q;
                same_rest = blocked_record-rest r reason active;
                others = λ j h. ground (arith, lookup-insert j id new s.safety_records, h);
                same_store = refl;
              })
      ]
