-- ===== src/Records/Replace.antt =====
-- models.py: a record that is put in the place of another, and the test of the whole snapshot.
use text.Mathlib.TextEquality.{eq_iff}
use moisture_loop.Base.{
  ◌+◌, ◌≡◌, inl, inr, refl, Bool, true, Option, some, List, [], ◌∷◌, String, Option-cases, arith,
}
use moisture_loop.Accounting.{AccountingContribution}
use moisture_loop.Records.Dict.{Dict, lookup, insert, keys, values, lookup-insert}
use moisture_loop.Records.History.{ZoneHistory}
use moisture_loop.Records.Safety.{SafetyRecord}
use moisture_loop.Records.Data.{
  StoreData, texts, present, all_ok, record_refers, session_refers, source_known, store_data_ok,
  all_contributions,
}

module _ {V : Type 0} (k : String) (w : V) where
  keys-insert : (d : Dict V) (v : V) → lookup k d ≡ some v → keys (insert k w d) ≡ keys d
  unfolding lookup insert keys
  keys-insert [] v h = ground arith
  keys-insert ((j, u) ∷ d) v h = ground (arith, eq_iff j k, keys-insert d v)

  texts-insert :
      (f : V → String) (d : Dict V) (v : V)
      → lookup k d ≡ some v
      → f w ≡ f v
      → texts f (values (insert k w d)) ≡ texts f (values d)
  unfolding lookup insert values
  texts-insert f [] v h e = ground arith
  texts-insert f ((j, u) ∷ d) v h e = ground (arith, texts-insert f d v)

  present-insert :
      (f : V → Option String) (d : Dict V) (v : V)
      → lookup k d ≡ some v
      → f w ≡ f v
      → present f (values (insert k w d)) ≡ present f (values d)
  unfolding lookup insert values
  present-insert f [] v h e = ground arith
  present-insert f ((j, u) ∷ d) v h e = ground (arith, present-insert f d v)

  all_ok-insert :
      (p : V → Bool) (d : Dict V) (v : V)
      → lookup k d ≡ some v
      → p w ≡ p v
      → all_ok p (values (insert k w d)) ≡ all_ok p (values d)
  unfolding lookup insert values
  all_ok-insert p [] v h e = ground arith
  all_ok-insert p ((j, u) ∷ d) v h e = ground (arith, all_ok-insert p d v)

module _ {V : Type 0} where
  all_ok-cong : (p q : V → Bool) (vs : List V) → ((v : V) → p v ≡ q v) → all_ok p vs ≡ all_ok q vs
  all_ok-cong p q [] h = refl
  all_ok-cong p q (v ∷ vs) h = ground (arith, h v, all_ok-cong p q vs h)

-- The fields by which records and histories refer to each other are the same.
pub record SameOwnership (old new : SafetyRecord) : Type 0 where
  pub same_id : new.safety_record_id ≡ old.safety_record_id
  pub same_subentry : new.active_subentry_id ≡ old.active_subentry_id
  pub same_lineage : new.safety_lineage_id ≡ old.safety_lineage_id
  pub same_history_id : new.zone_history_id ≡ old.zone_history_id
  pub same_lifecycle : new.runtime_lifecycle ≡ old.runtime_lifecycle

module _ (k : String) (old new : SafetyRecord) (records : Dict SafetyRecord)
    (at : lookup k records ≡ some old) (same : SameOwnership old new) where
  record_refers-replaced :
      (histories : Dict ZoneHistory) → record_refers histories new ≡ record_refers histories old
  unfolding record_refers
  record_refers-replaced histories = elim (Option-cases (lookup old.zone_history_id histories)) [
    | inl e ↦ ground (arith, e, same.same_history_id)
    | inr (h, e) ↦ ground (arith, e, same.same_history_id, same.same_lifecycle, same.same_subentry)
  ]

  session_refers-replaced :
      (h : ZoneHistory) → session_refers (insert k new records) h ≡ session_refers records h
  unfolding session_refers
  session_refers-replaced h = elim (Option-cases h.zone_runtime.session) [
    | inl e ↦ ground (arith, e)
    | inr (p, e) ↦ ground (
      arith,
      e,
      at,
      same.same_history_id,
      lookup-insert p.owner_safety_record_id k new records,
      eq_iff k p.owner_safety_record_id,
    )
  ]

  source_known-replaced :
      (c : AccountingContribution) → source_known (insert k new records) c ≡ source_known records c
  unfolding source_known
  source_known-replaced c = ground (
    arith,
    at,
    lookup-insert c.source_safety_record_id k new records,
    eq_iff k c.source_safety_record_id,
  )

  -- A snapshot that can be built can be built with the new record in the place of the old one.
  pub replaced-store_data_ok :
      (s : StoreData)
      → s.safety_records ≡ records
      → store_data_ok s ≡ true
      → store_data_ok (record s {
        safety_records = insert k new records;
        store_revision = s.store_revision + 1;
      })
        ≡ true
  unfolding store_data_ok
  replaced-store_data_ok s e h = ground (
    arith,
    e,
    keys-insert k new records old at,
    texts-insert k new (λ r. r.safety_record_id) records old at same.same_id,
    texts-insert k new (λ r. r.safety_lineage_id) records old at same.same_lineage,
    present-insert k new (λ r. r.active_subentry_id) records old at same.same_subentry,
    all_ok-insert k new (record_refers s.zone_histories) records old at
        (record_refers-replaced s.zone_histories),
    all_ok-cong (session_refers (insert k new records)) (session_refers records)
        (values s.zone_histories) session_refers-replaced,
    all_ok-cong (source_known (insert k new records)) (source_known records)
        (all_contributions (values s.zone_histories)) source_known-replaced,
  )
