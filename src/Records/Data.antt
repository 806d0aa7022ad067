-- ===== src/Records/Data.antt =====
-- models.py: the complete snapshot of the safety store, and `validate_store_data`.
use text.Mathlib.Text.{◌==◌ as str_eq}
use moisture_loop.Base.{
  ℕ, Bool, true, false, ◌&&◌, ◌||◌, not, Option, none, some, List, [], ◌∷◌, ◌++◌, String, any,
  is_some, leb, ◌==◌,
}
use moisture_loop.Accounting.{ZoneDailyRuntime, AccountingContribution}
use moisture_loop.Records.Dict.{Dict, is_blank, contains, no_repeats, lookup, keys, values}
use moisture_loop.Records.History.{ZoneHistory}
use moisture_loop.Records.Safety.{SafetyRecord, is_active}

pub record RunIds : Type 0 where
  pub active_run_id : Option String
  pub last_clean_shutdown_run_id : Option String

-- Both ids are there and equal.
abbrev pub same_run : Option String → Option String → Bool
same_run (some a) (some b) = str_eq a b
same_run _ _ = false

unfoldable pub previous_run_was_clean : RunIds → Bool
previous_run_was_clean run = same_run run.active_run_id run.last_clean_shutdown_run_id

pub record StoreData : Type 0 where
  pub generation_id : String
  pub store_revision : ℕ
  pub run : RunIds
  pub zone_histories : Dict ZoneHistory
  pub safety_records : Dict SafetyRecord
  pub version : ℕ

-- `set(xs) == set(ys)`
abbrev pub same_set : List String → List String → Bool
same_set xs ys = not (any (λ x. not (contains ys x)) xs) && not (any (λ y. not (contains xs y)) ys)

module _ {A : Type 0} (field : A → String) where
  abbrev pub texts : List A → List String
  texts [] = []
  texts (a ∷ rest) = field a ∷ texts rest

module _ {A : Type 0} (field : A → Option String) where
  -- The texts that are there.
  abbrev pub present : List A → List String
  present [] = []
  present (a ∷ rest) = elim (field a) [ none ↦ present rest | some s ↦ s ∷ present rest ]

abbrev subentry_agrees : Option String → Option String → Bool
subentry_agrees none none = true
subentry_agrees (some a) (some b) = str_eq a b
subentry_agrees _ _ = false

-- An ACTIVE record and its history belong to one subentry.
unfoldable pub record_refers : Dict ZoneHistory → SafetyRecord → Bool
record_refers histories r = elim (lookup r.zone_history_id histories) [
  | none ↦ false
  | some h ↦
      not (is_active r.runtime_lifecycle)
      || subentry_agrees h.active_subentry_id r.active_subentry_id
]

-- The owner of a persisted session is a record of that history.
unfoldable pub session_refers : Dict SafetyRecord → ZoneHistory → Bool
session_refers records h = elim h.zone_runtime.session [
  | none ↦ true
  | some p ↦ elim (lookup p.owner_safety_record_id records) [
    | none ↦ false
    | some owner ↦ str_eq owner.zone_history_id h.zone_history_id
  ]
]

abbrev pub daily_contributions : Option ZoneDailyRuntime → List AccountingContribution
daily_contributions none = []
daily_contributions (some d) = d.contributions

abbrev pub all_contributions : List ZoneHistory → List AccountingContribution
all_contributions [] = []
all_contributions (h ∷ rest) = daily_contributions h.daily ++ all_contributions rest

abbrev pub all_ok : {A : Type 0} → (A → Bool) → List A → Bool
all_ok p [] = true
all_ok p (a ∷ rest) = p a && all_ok p rest

unfoldable pub source_known : Dict SafetyRecord → AccountingContribution → Bool
source_known records c = is_some (lookup c.source_safety_record_id records)

-- Whether `validate_store_data` returns.
unfoldable pub store_data_ok : StoreData → Bool
store_data_ok s =
    s.version == 3
    && (not (is_blank s.generation_id)
        && (leb 1 s.store_revision
            && (same_set (keys s.zone_histories)
                  (texts (λ h. h.zone_history_id) (values s.zone_histories))
                && (same_set (keys s.safety_records)
                      (texts (λ r. r.safety_record_id) (values s.safety_records))
                    && (no_repeats (texts (λ r. r.safety_lineage_id) (values s.safety_records))
                        && (no_repeats
                              (present (λ r. r.active_subentry_id) (values s.safety_records))
                            && (no_repeats
                                  (present (λ h. h.active_subentry_id) (values s.zone_histories))
                                && (all_ok (record_refers s.zone_histories)
                                      (values s.safety_records)
                                    && (all_ok (session_refers s.safety_records)
                                          (values s.zone_histories)
                                        && (all_ok (source_known s.safety_records)
                                              (all_contributions (values s.zone_histories))
                                            && no_repeats (
                                                texts (λ c. c.accounting_contribution_id)
                                                  (all_contributions
                                                    (values s.zone_histories)))))))))))))
