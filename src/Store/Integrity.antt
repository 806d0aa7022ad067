-- ===== src/Store/Integrity.antt =====
-- storage.py: what the state after an integrity loss allows.
use text.Mathlib.Text.{◌==◌ as str_eq}
use text.Mathlib.TextEquality.{eq_iff}
use moisture_loop.Base.{
  ℕ, ◌<◌, ◌≡◌, ◌∙◌, refl, inl, inr, true, false, some, List, [], ◌∷◌, String, Bool-cases, arith,
}
use moisture_loop.Model.Enums.{ControllerState, FaultCode, BlockerReason}
use moisture_loop.Model.Decision.{TransitionInput}
use moisture_loop.Machine.Guards.{daily_fits, daily_remaining}
use moisture_loop.Records.Dict.{Dict, contains, no_repeats, lookup, keys, lookup-insert}
use moisture_loop.Records.History.{ZoneHistory}
use moisture_loop.Records.Safety.{SafetyRecord, has_reason, is_active}
use moisture_loop.Records.Continuity.{used}
use moisture_loop.Records.Data.{StoreData, texts}
use moisture_loop.Store.Reconstruct.{
  Maps, history_id, reconstructed_record, reconstructed_history, reconstruct, reconstructed_data,
}

module _ (uuid5 : String → String) (isoformat : ℕ → String) (generation_id : String) where
  abbrev after : ℕ → Maps → Dict ℕ → Maps
  after = reconstruct uuid5 isoformat generation_id

  abbrev id_of : String → String
  id_of = history_id uuid5 isoformat generation_id

  abbrev record_for : String → SafetyRecord
  record_for = reconstructed_record uuid5 isoformat generation_id

  abbrev history_for : ℕ → String → ℕ → ZoneHistory
  history_for = reconstructed_history uuid5 isoformat generation_id

  -- The history ids of the zones with a budget.
  abbrev pub history_ids : Dict ℕ → List String
  history_ids budgets = texts id_of (keys budgets)

  -- A zone that is not among the budgets keeps its record and its history.
  reconstruct-record :
      (date : ℕ) (budgets : Dict ℕ) (maps : Maps) (zone : String)
      → contains (keys budgets) zone ≡ false
      → lookup zone (after date maps budgets).0 ≡ lookup zone maps.0
  unfolding reconstruct keys
  reconstruct-record date [] maps zone h = refl
  reconstruct-record date ((z, m) ∷ budgets) maps zone h =
      reconstruct-record date budgets _ zone (ground (arith, h))
      ∙ ground (arith, h, lookup-insert zone z (record_for z) maps.0)

  reconstruct-history :
      (date : ℕ) (budgets : Dict ℕ) (maps : Maps) (zone : String)
      → contains (history_ids budgets) (id_of zone) ≡ false
      → lookup (id_of zone) (after date maps budgets).1 ≡ lookup (id_of zone) maps.1
  unfolding reconstruct keys
  reconstruct-history date [] maps zone h = refl
  reconstruct-history date ((z, m) ∷ budgets) maps zone h =
      reconstruct-history date budgets _ zone (ground (arith, h))
      ∙ ground (arith, h, lookup-insert (id_of zone) (id_of z) (history_for date z m) maps.1)

  -- A zone among the budgets has the record and the history that are made for it.
  reconstruct-both :
      (date : ℕ) (budgets : Dict ℕ) (maps : Maps) (zone : String) (max_daily : ℕ)
      → no_repeats (history_ids budgets) ≡ true
      → no_repeats (keys budgets) ≡ true
      → lookup zone budgets ≡ some max_daily
      → (lookup zone (after date maps budgets).0 ≡ some (record_for zone))
        × (lookup (id_of zone) (after date maps budgets).1 ≡ some (history_for date zone max_daily))
  unfolding reconstruct keys lookup
  reconstruct-both date [] maps zone m d u h = ground (arith, h)
  reconstruct-both date ((z, n) ∷ budgets) maps zone m d u h = elim (Bool-cases (str_eq z zone)) [
    | inl same ↦
        let e : z ≡ zone = (eq_iff z zone).0 same in
        let absent : contains (keys budgets) zone ≡ false = ground (arith, u, e) in
        let absent_id : contains (history_ids budgets) (id_of zone) ≡ false =
          ground (arith, d, e) in
        let at : n ≡ m = ground (arith, h, same) in
        (
          reconstruct-record date budgets _ zone absent
              ∙ ground (arith, e, same, lookup-insert zone z (record_for z) maps.0),
          reconstruct-history date budgets _ zone absent_id
              ∙ ground (
                arith,
                e,
                at,
                eq_iff (id_of z) (id_of zone),
                lookup-insert (id_of zone) (id_of z) (history_for date z n) maps.1,
              ),
        )
    | inr other ↦
        reconstruct-both date budgets _ zone m (ground (arith, d)) (ground (arith, u))
          (ground (arith, h, other))
  ]

  -- Nothing may water in the zone on the day of the detection.
  pub record Closed (date : ℕ) (zone : String) (max_daily : ℕ) (s : StoreData) : Type 0 where
    pub safety : SafetyRecord
    pub at : lookup zone s.safety_records ≡ some safety
    pub blocked : has_reason BlockerReason.actuator_not_proven_off safety.blocker_reasons ≡ true
    pub faulted : safety.actuator_fault ≡ some FaultCode.restored_from_unsafe_state
    pub to_acknowledge : safety.acknowledgement_required ≡ true
    pub detached : is_active safety.runtime_lifecycle ≡ false
    pub history : ZoneHistory
    pub history_at : lookup safety.zone_history_id s.zone_histories ≡ some history
    pub in_fault : history.zone_runtime.state ≡ ControllerState.fault
    pub exhausted :
        (inp : TransitionInput)
        → inp.daily_runtime_s ≡ used date history.daily
        → inp.config.max_daily_runtime_s ≡ max_daily
        → 0 < inp.config.pulse_duration_s
        → (daily_fits inp ≡ false) × (daily_remaining inp ≡ 0)

  exhausts :
      (date : ℕ) (zone : String) (m : ℕ) (inp : TransitionInput)
      → inp.daily_runtime_s ≡ used date (history_for date zone m).daily
      → inp.config.max_daily_runtime_s ≡ m
      → 0 < inp.config.pulse_duration_s
      → (daily_fits inp ≡ false) × (daily_remaining inp ≡ 0)
  unfolding daily_fits daily_remaining reconstructed_history
  exhausts date zone m inp e f p = ground (arith, e, f, p)

  -- Where the zones with a budget have different history ids and each has one budget, the snapshot that is made after
  -- an integrity loss closes every zone with a budget: its record is not ACTIVE, blocked for an unproven
  -- OFF, and has a fault to be acknowledged; its history is in FAULT, and its runtime leaves nothing of
  -- the day to an automatic pulse or a manual start of a zone with that budget.
  pub integrity_loss_closes_zones :
      (date : ℕ) (budgets : Dict ℕ) (zone : String) (max_daily : ℕ)
      → no_repeats (history_ids budgets) ≡ true
      → no_repeats (keys budgets) ≡ true
      → lookup zone budgets ≡ some max_daily
      → Closed date zone max_daily (reconstructed_data uuid5 isoformat generation_id date budgets)
  unfolding reconstructed_data reconstructed_record reconstructed_history
  integrity_loss_closes_zones date budgets zone m d u h =
      let both = reconstruct-both date budgets ([], []) zone m d u h in
      record {
        safety = record_for zone;
        at = both.0;
        blocked = refl;
        faulted = refl;
        to_acknowledge = refl;
        detached = refl;
        history = history_for date zone m;
        history_at = both.1;
        in_fault = refl;
        exhausted = exhausts date zone m;
      }
