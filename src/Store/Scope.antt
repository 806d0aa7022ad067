-- ===== src/Store/Scope.antt =====
-- storage.py: which records and histories a handoff and an update of a controller touch.
use text.Mathlib.Text.{◌==◌ as str_eq}
use text.Mathlib.TextEquality.{eq_iff}
use moisture_loop.Base.{
  ◌+◌, ◌≡◌, inl, inr, refl, Bool, true, false, ◌||◌, some, List, [], ◌∷◌, ◌++◌, String, ok, raised,
  value_error, Ensures, Ensures-eq_ok, Ensures-bind, Ensures-branch, Bool-cases, Option-cases,
  arith,
}
use moisture_loop.Records.Dict.{Dict, contains, lookup, insert, erase, lookup-insert}
use moisture_loop.Records.History.{ZoneHistory, history_ok}
use moisture_loop.Records.Safety.{SafetyRecord, record_ok, is_active}
use moisture_loop.Records.Continuity.{
  merge_zone_history_continuity, make_history, merge_daily, continued,
}
use moisture_loop.Records.Data.{StoreData, store_data_ok}
use moisture_loop.Store.{write_next}
use moisture_loop.Store.Blockers.{make_record}
use moisture_loop.Store.Blocking.{snapshot_after}
use moisture_loop.Store.Handoff.{handed_off, check_handoff, hand_off, merge_zone_history_for_record}

module _ {V : Type 0} (k : String) where
  lookup-erase : (j : String) (d : Dict V) → str_eq k j ≡ false → lookup j (erase k d) ≡ lookup j d
  unfolding lookup erase
  lookup-erase j [] h = refl
  lookup-erase j ((i, v) ∷ d) h =
      ground (arith, h, eq_iff i k, eq_iff i j, eq_iff k j, lookup-erase j d h)

-- A handoff gives a retained record another history, and changes nothing of the actuator.
pub record HandedOff (history_id id : String) (r : SafetyRecord) (continuing : ZoneHistory)
    (s after : StoreData) : Type 0 where
  pub new : SafetyRecord
  pub at : lookup id after.safety_records ≡ some new
  pub same_actuator : new ≡ record r {
    zone_history_id = history_id;
    historical_zone_history_ids = new.historical_zone_history_ids;
  }
  pub remembered :
      (i : String)
      → contains new.historical_zone_history_ids i
        ≡ (contains r.historical_zone_history_ids i || str_eq r.zone_history_id i)
  pub others :
      (j : String) → str_eq id j ≡ false → lookup j after.safety_records ≡ lookup j s.safety_records
  pub next_revision : after.store_revision ≡ s.store_revision + 1
  pub same_store : after ≡ record s {
    safety_records = after.safety_records;
    zone_histories = after.zone_histories;
    store_revision = after.store_revision;
  }
  pub retained : is_active r.runtime_lifecycle ≡ false
  pub merged : ZoneHistory
  pub history_at : lookup history_id after.zone_histories ≡ some merged
  pub same_runtime : merged.zone_runtime ≡ continuing.zone_runtime
  pub same_id : merged.zone_history_id ≡ continuing.zone_history_id
  pub other_histories :
      (j : String)
      → str_eq history_id j ≡ false
      → str_eq r.zone_history_id j ≡ false
      → lookup j after.zone_histories ≡ lookup j s.zone_histories

any-last :
    (xs : List String) (id i : String) → contains (xs ++ id ∷ []) i ≡ (contains xs i || str_eq id i)
any-last [] id i = ground (arith, eq_iff id i, eq_iff i id)
any-last (x ∷ xs) id i = ground (arith, any-last xs id i)

contains-cong :
    (xs : List String) (id i : String)
    → contains xs id ≡ true
    → contains xs i ≡ (contains xs i || str_eq id i)
contains-cong xs id i h = elim (Bool-cases (str_eq id i)) [
  | inl e ↦ ground (arith, e, eq_iff id i, h)
  | inr e ↦ ground (arith, e)
]

handed_off-remembers :
    (r : SafetyRecord) (h i : String)
    → contains (handed_off r h).historical_zone_history_ids i
      ≡ (contains r.historical_zone_history_ids i || str_eq r.zone_history_id i)
unfolding handed_off
handed_off-remembers r h i = ground (
  arith,
  any-last r.historical_zone_history_ids r.zone_history_id i,
  contains-cong r.historical_zone_history_ids r.zone_history_id i,
)

handed_off-SameActuator :
    (r : SafetyRecord) (h : String)
    → handed_off r h ≡ record r {
      zone_history_id = h;
      historical_zone_history_ids = (handed_off r h).historical_zone_history_ids;
    }
unfolding handed_off
handed_off-SameActuator r h = refl

make_record-eq : (r : SafetyRecord) {n : SafetyRecord} → make_record r ≡ ok n → n ≡ r
make_record-eq r e = elim (Bool-cases (record_ok r)) [
  | inl k ↦ ground (arith, k, e)
  | inr k ↦ ground (arith, k, e)
]

module _ (same_history : ZoneHistory → ZoneHistory → Bool) where
  merge-SameRuntime :
      (c r : ZoneHistory)
      → Ensures
          (λ m. (m.zone_runtime ≡ c.zone_runtime) × (m.zone_history_id ≡ c.zone_history_id))
          (merge_zone_history_continuity same_history c r)
  unfolding merge_zone_history_continuity continued
  merge-SameRuntime c r =
      Ensures-branch _ (str_eq c.zone_history_id r.zone_history_id) _ _
        (Ensures-branch _ (same_history c r) (ok c) (raised value_error) (refl, refl) tt)
        (Ensures-bind _ (merge_daily c.daily r.daily) (λ daily. make_history (continued c r daily))
          (λ d e.
            Ensures-branch _ (history_ok (continued c r d)) (ok (continued c r d))
              (raised value_error) (refl, refl) tt))

  check_handoff-Retained :
      (id : String) (s : StoreData) (r : SafetyRecord) (h : ZoneHistory)
      → check_handoff id s r ≡ ok h
      → is_active r.runtime_lifecycle ≡ false
  unfolding check_handoff
  check_handoff-Retained id s r h e =
      elim (Option-cases (lookup r.zone_history_id s.zone_histories)) [
        | inl x ↦ ground (arith, x, e)
        | inr (y, x) ↦ ground (arith, x, e)
      ]

  -- The snapshot that a write plans is the one that was asked for, but for the revision.
  write_next-Ensures :
      (Q : StoreData → Type 0) (s d : StoreData)
      → Q (record d { store_revision = d.store_revision + 1 })
      → Ensures (λ plan. Q (snapshot_after s plan)) (write_next d)
  write_next-Ensures Q s d q =
      elim (Bool-cases (store_data_ok (record d { store_revision = d.store_revision + 1 }))) [
        | inl e ↦ rw e q
        | inr e ↦ rw e tt
      ]

  hand_off-Ensures :
      (h id : String) (c : ZoneHistory) (r : SafetyRecord) (s : StoreData)
      → lookup h s.zone_histories ≡ some c
      → str_eq r.zone_history_id h ≡ false
      → Ensures
          (λ plan. HandedOff h id r c s (snapshot_after s plan))
          (hand_off same_history h id c r s)
  unfolding hand_off
  hand_off-Ensures h id c r s at differs =
      let Q : StoreData → Type 0 = HandedOff h id r c s in
      Ensures-bind (λ plan. Q (snapshot_after s plan)) (check_handoff id s r) _
        (λ retained checked.
          Ensures-bind (λ plan. Q (snapshot_after s plan))
            (merge_zone_history_continuity same_history c retained) _
            (λ merged m.
              Ensures-bind (λ plan. Q (snapshot_after s plan)) (make_record (handed_off r h)) _
                (λ next n.
                  let kept =
                    Ensures-eq_ok _ (merge_zone_history_continuity same_history c retained)
                      (merge-SameRuntime c retained) m in
                  write_next-Ensures Q s _ (record {
                    new = handed_off r h;
                    at = ground (
                      arith,
                      lookup-insert id id next s.safety_records,
                      eq_iff id id,
                      make_record-eq (handed_off r h) n,
                    );
                    same_actuator = handed_off-SameActuator r h;
                    remembered = handed_off-remembers r h;
                    next_revision = refl;
                    same_store = refl;
                    others = λ j e. ground (arith, lookup-insert j id next s.safety_records, e);
                    retained = check_handoff-Retained id s r retained checked;
                    merged = merged;
                    history_at = ground (
                      arith,
                      lookup-erase r.zone_history_id h (insert h merged s.zone_histories),
                      lookup-insert h h merged s.zone_histories,
                      eq_iff h h,
                      differs,
                    );
                    same_runtime = kept.0;
                    same_id = kept.1;
                    other_histories = λ j e k. ground (
                      arith,
                      lookup-erase r.zone_history_id j (insert h merged s.zone_histories),
                      lookup-insert j h merged s.zone_histories,
                      e,
                      k,
                    );
                  }))))

  -- A handoff that returns, to another history, is of a record that is not ACTIVE. It gives that record
  -- the continuing history and adds the retained one to the historical ones, of which none is lost; it
  -- changes nothing else of the actuator, no other record and nothing of the store but the revision,
  -- which is one greater, keeps the operational state of the continuing zone, and touches no third
  -- history.
  pub handoff_keeps_actuator :
      (h id : String) (s : StoreData) (c : ZoneHistory) (r : SafetyRecord)
      → lookup h s.zone_histories ≡ some c
      → lookup id s.safety_records ≡ some r
      → str_eq r.zone_history_id h ≡ false
      → Ensures
          (λ plan. HandedOff h id r c s (snapshot_after s plan))
          (merge_zone_history_for_record same_history h id s)
  unfolding merge_zone_history_for_record
  handoff_keeps_actuator h id s c r at_history at_record differs =
      simp (at_history, at_record, differs) (hand_off-Ensures h id c r s at_history differs)
