-- ===== src/Store/Handoff.antt =====
-- storage.py: `async_merge_zone_history_for_record`, the handoff of a retained history.
use text.Mathlib.Text.{◌==◌ as str_eq}
use moisture_loop.Base.{
  Bool, not, List, [], ◌∷◌, ◌++◌, String, is_some, if◌then◌else◌, Result, ok, store_not_loaded,
  ◌>>=◌, or_raise,
}
use moisture_loop.Records.Dict.{lookup, insert, erase, values, contains}
use moisture_loop.Records.History.{ZoneHistory}
use moisture_loop.Records.Safety.{SafetyRecord, is_active}
use moisture_loop.Records.Continuity.{merge_zone_history_continuity}
use moisture_loop.Records.Data.{StoreData, same_set}
use moisture_loop.Store.{Plan, keep, write_next}
use moisture_loop.Store.Blockers.{make_record}
use moisture_loop.Store.Acknowledge.{refuse_if}

-- The ids of the records that refer to a history.
abbrev pub referrers : String → List SafetyRecord → List String
referrers history_id [] = []
referrers history_id (r ∷ rest) =
    if str_eq r.zone_history_id history_id
    then r.safety_record_id ∷ referrers history_id rest
    else referrers history_id rest

abbrev pub remember : String → List String → List String
remember id ids = if contains ids id then ids else ids ++ id ∷ []

unfoldable pub handed_off : SafetyRecord → String → SafetyRecord
handed_off r continuing_id = record r {
  zone_history_id = continuing_id;
  historical_zone_history_ids = remember r.zone_history_id r.historical_zone_history_ids;
}

-- The refusals of a handoff; it returns the retained history.
unfoldable pub check_handoff : String → StoreData → SafetyRecord → Result ZoneHistory
check_handoff record_id s r =
    or_raise (lookup r.zone_history_id s.zone_histories) store_not_loaded >>= λ retained.
    refuse_if (is_active r.runtime_lifecycle) >>= λ _.
    refuse_if (is_some retained.zone_runtime.session) >>= λ _.
    refuse_if
      (not (same_set (referrers r.zone_history_id (values s.safety_records)) (record_id ∷ [])))
    >>= λ _. ok retained

module _ (same_history : ZoneHistory → ZoneHistory → Bool) where
  unfoldable pub hand_off :
      String → String → ZoneHistory → SafetyRecord → StoreData → Result (Plan StoreData)
  unfolding handed_off check_handoff
  hand_off continuing_id record_id continuing r s = check_handoff record_id s r >>= λ retained.
      merge_zone_history_continuity same_history continuing retained >>= λ merged.
      make_record (handed_off r continuing_id) >>= λ next. write_next (record s {
        safety_records = insert record_id next s.safety_records;
        zone_histories = erase r.zone_history_id (insert continuing_id merged s.zone_histories);
      })

  unfoldable pub merge_zone_history_for_record :
      String → String → StoreData → Result (Plan StoreData)
  unfolding hand_off
  merge_zone_history_for_record continuing_id record_id s =
      or_raise (lookup continuing_id s.zone_histories) store_not_loaded >>= λ continuing.
      or_raise (lookup record_id s.safety_records) store_not_loaded >>= λ r.
      if str_eq r.zone_history_id continuing_id
      then ok (keep s)
      else hand_off continuing_id record_id continuing r s
