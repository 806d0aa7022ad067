-- ===== src/Store/Next.antt =====
-- storage.py: what every operation of a loaded store makes of the snapshot.
use moisture_loop.Base.{
  ◌+◌, ◌≡◌, inl, inr, refl, subst, sym, ap, Bool, true, false, some, String, Result, ok, ◌>>=◌,
  or_raise, Ensures, Ensures-bind, Ensures-eq_ok, Bool-cases, store_not_loaded,
  store_write_verification, ℕ, if◌then◌else◌, arith,
}
use moisture_loop.Records.Data.{StoreData, RunIds, store_data_ok}
use moisture_loop.Store.{Plan, keep, write, make_store, write_next}
use moisture_loop.Store.Runs.{begin_new_run, mark_clean_shutdown, reconcile}
use moisture_loop.Model.Enums.{BlockerReason, FaultCode}
use moisture_loop.Records.Dict.{lookup, insert, erase, Dict}
use text.Mathlib.Text.{◌==◌ as str_eq}
use moisture_loop.Records.Continuity.{merge_zone_history_continuity}
use moisture_loop.Records.Safety.{SafetyRecord}
use moisture_loop.Records.History.{ZoneHistory}
use moisture_loop.Store.Blockers.{
  blocked_record, set_record_blocker, make_record, reasons_eq, ordered_blockers,
}
use moisture_loop.Store.Acknowledge.{
  put_record, check_fault_acknowledgement, check_removed_acknowledgement,
  acknowledge_actuator_fault, acknowledge_removed_actuator,
}
use moisture_loop.Store.Controller.{
  ControllerUpdate, update_owned, rebase_session, update_controller_runtime,
  rebase_soaking_owner_for_record,
}
use moisture_loop.Store.Handoff.{check_handoff, handed_off, merge_zone_history_for_record, hand_off}

-- The next snapshot can be built, has the next revision, and is of the same generation.
pub record Follows (s next : StoreData) : Type 0 where
  pub valid : store_data_ok next ≡ true
  pub revision : next.store_revision ≡ s.store_revision + 1
  pub generation : next.generation_id ≡ s.generation_id

-- And it has the given run ids.
pub record FollowsIn (ids : RunIds) (s next : StoreData) : Type 0 where
  pub follows : Follows s next
  pub run_ids : next.run ≡ ids

abbrev pub OnWrite : {A : Type 0} → (StoreData → Type 0) → Plan A → Type 0
OnWrite Q (keep a) = Unit
OnWrite Q (write next a) = Q next

abbrev pub Plans : {A : Type 0} → (StoreData → Type 0) → Result (Plan A) → Type 0
Plans Q r = Ensures (OnWrite Q) r

-- What is written can be built.
pub make_store-Ensures :
    (d : StoreData) → Ensures (λ next. (next ≡ d) × (store_data_ok d ≡ true)) (make_store d)
make_store-Ensures d = elim (Bool-cases (store_data_ok d)) [
  | inl e ↦ rw e (refl, refl)
  | inr e ↦ rw e tt
]

write_next-Plans :
    (s d : StoreData)
    → d.generation_id ≡ s.generation_id
    → d.store_revision ≡ s.store_revision
    → Plans (FollowsIn d.run s) (write_next d)
write_next-Plans s d g r =
    elim (Bool-cases (store_data_ok (record d { store_revision = d.store_revision + 1 }))) [
      | inl e ↦ rw e (record {
        follows = record { valid = e; revision = ground (arith, r); generation = g };
        run_ids = refl;
      })
      | inr e ↦ rw e tt
    ]

-- A chain of results plans what its last one does.
module _ {B : Type 0} (Q : StoreData → Type 0) where
  Plans-bind :
      {A : Type 0} (r : Result A) (f : A → Result (Plan B))
      → ((a : A) → Plans Q (f a))
      → Plans Q (r >>= f)
  Plans-bind r f h = Ensures-bind (OnWrite Q) r f (λ a e. h a)

  Plans-if :
      (b : Bool) (p q : Result (Plan B)) → Plans Q p → Plans Q q → Plans Q (if b then p else q)
  Plans-if true p q h k = h
  Plans-if false p q h k = k

pub begin_new_run-Plans :
    (id : String) (s : StoreData)
    → Plans (FollowsIn (record s.run { active_run_id = some id }) s) (begin_new_run id s)
unfolding begin_new_run
begin_new_run-Plans id s =
    Ensures-bind (OnWrite (FollowsIn (record s.run { active_run_id = some id }) s))
      (make_store (record s {
        store_revision = s.store_revision + 1;
        run = record s.run { active_run_id = some id };
      }))
      (λ next. ok (write next s.run))
      (λ next e.
        let (same, valid) = Ensures-eq_ok _ (make_store _) (make_store-Ensures _) e in
        record {
          follows = record {
            valid = subst (λ d. store_data_ok d ≡ true) (sym same) valid;
            revision = ap (λ d. d.store_revision) same;
            generation = ap (λ d. d.generation_id) same;
          };
          run_ids = ap (λ d. d.run) same;
        })

pub mark_clean_shutdown-Plans :
    (s : StoreData)
    → Plans
        (FollowsIn (record s.run { last_clean_shutdown_run_id = s.run.active_run_id }) s)
        (mark_clean_shutdown s)
unfolding mark_clean_shutdown
mark_clean_shutdown-Plans s =
    write_next-Plans s
      (record s { run = record s.run { last_clean_shutdown_run_id = s.run.active_run_id } }) refl
      refl

-- The other operations keep the run ids.
module _ (s : StoreData) where
  abbrev pub Kept : StoreData → Type 0
  Kept next = FollowsIn s.run s next

  pub set_record_blocker-Plans :
      (id : String) (reason : BlockerReason) (active : Bool)
      → Plans Kept (set_record_blocker id reason active s)
  unfolding set_record_blocker
  set_record_blocker-Plans id reason active =
      Plans-bind Kept (or_raise (lookup id s.safety_records) store_not_loaded) _ (λ r.
        Plans-if Kept
          (reasons_eq (ordered_blockers r.blocker_reasons reason active) r.blocker_reasons)
          (ok (keep s)) _ tt
          (Plans-bind Kept (make_record (blocked_record r reason active)) _ (λ next.
            write_next-Plans s (record s { safety_records = insert id next s.safety_records }) refl
              refl)))

  -- A chain that ends in a write of new records or histories.
  records-Plans :
      {A : Type 0} (r : Result A) (f : A → Dict SafetyRecord)
      → Plans Kept (r >>= λ a. write_next (record s { safety_records = f a }))
  records-Plans r f =
      Plans-bind Kept r _ (λ a. write_next-Plans s (record s { safety_records = f a }) refl refl)

  put_record-Plans : (id : String) (r : SafetyRecord) → Plans Kept (put_record id r s)
  put_record-Plans id r = records-Plans (make_record r) (λ next. insert id next s.safety_records)

  pub acknowledge_actuator_fault-Plans :
      (r l : String) (f : FaultCode) → Plans Kept (acknowledge_actuator_fault r l f s)
  unfolding acknowledge_actuator_fault
  acknowledge_actuator_fault-Plans id l f =
      Plans-bind Kept (or_raise (lookup id s.safety_records) store_write_verification) _
        (λ r. Plans-bind Kept (check_fault_acknowledgement l f s r) _ (λ _. put_record-Plans id _))

  pub acknowledge_removed_actuator-Plans :
      (r l e : String) (at : ℕ) → Plans Kept (acknowledge_removed_actuator r l e at s)
  unfolding acknowledge_removed_actuator
  acknowledge_removed_actuator-Plans id l e at =
      Plans-bind Kept (or_raise (lookup id s.safety_records) store_write_verification) _ (λ r.
        Plans-bind Kept (check_removed_acknowledgement l e s r) _ (λ _. put_record-Plans id _))

  maps-Plans :
      {A : Type 0} (r : Result A) (f : A → Dict SafetyRecord) (g : A → Dict ZoneHistory)
      → Plans Kept (r >>= λ a. write_next (record s { safety_records = f a; zone_histories = g a }))
  maps-Plans r f g =
      Plans-bind Kept r _ (λ a.
        write_next-Plans s (record s { safety_records = f a; zone_histories = g a }) refl refl)

  pub reconcile-Plans :
      (m : StoreData → Result (Dict SafetyRecord × Dict ZoneHistory)) → Plans Kept (reconcile m s)
  unfolding reconcile
  reconcile-Plans m = maps-Plans (m s) (λ a. a.0) (λ a. a.1)

  pub update_controller_runtime-Plans :
      (r h : String) (u : ControllerUpdate) → Plans Kept (update_controller_runtime r h u s)
  unfolding update_controller_runtime
  update_controller_runtime-Plans id h u =
      Plans-bind Kept (or_raise (lookup id s.safety_records) store_write_verification) _ (λ r.
        maps-Plans (update_owned id h u s r) (λ a. insert id a.0 s.safety_records)
          (λ a. insert h a.1 s.zone_histories))

  pub rebase_soaking_owner_for_record-Plans :
      (r i : String) → Plans Kept (rebase_soaking_owner_for_record r i s)
  unfolding rebase_soaking_owner_for_record
  rebase_soaking_owner_for_record-Plans id i =
      Plans-bind Kept (or_raise (lookup id s.safety_records) store_not_loaded) _ (λ r.
        maps-Plans (rebase_session i s r) (λ _. s.safety_records)
          (λ h. insert h.zone_history_id h s.zone_histories))

  module _ (same_history : ZoneHistory → ZoneHistory → Bool) where
    hand_off-Plans :
        (h r : String) (continuing : ZoneHistory) (record_ : SafetyRecord)
        → Plans Kept (hand_off same_history h r continuing record_ s)
    unfolding hand_off
    hand_off-Plans h id continuing r = Plans-bind Kept (check_handoff id s r) _ (λ retained.
        Plans-bind Kept (merge_zone_history_continuity same_history continuing retained) _
          (λ merged.
            maps-Plans (make_record (handed_off r h)) (λ next. insert id next s.safety_records)
              (λ _. erase r.zone_history_id (insert h merged s.zone_histories))))

    pub merge_zone_history_for_record-Plans :
        (h r : String) → Plans Kept (merge_zone_history_for_record same_history h r s)
    unfolding merge_zone_history_for_record
    merge_zone_history_for_record-Plans h id =
        Plans-bind Kept (or_raise (lookup h s.zone_histories) store_not_loaded) _ (λ continuing.
          Plans-bind Kept (or_raise (lookup id s.safety_records) store_not_loaded) _ (λ r.
            Plans-if Kept (str_eq r.zone_history_id h) (ok (keep s)) _ tt
              (hand_off-Plans h id continuing r)))
