-- ===== src/Store/Blockers.antt =====
-- storage.py: `async_set_record_blocker`.
use moisture_loop.Base.{
  Bool, true, false, ◌&&◌, Option, none, some, List, [], ◌∷◌, ◌++◌, String, if◌then◌else◌, Result,
  ok, raised, value_error, store_not_loaded, ◌>>=◌, or_raise,
}
use moisture_loop.Model.Enums.{BlockerReason}
use moisture_loop.Slots.{reason_eq}
use moisture_loop.Records.Dict.{lookup, insert}
use moisture_loop.Records.Safety.{SafetyRecord, has_reason, record_ok}
use moisture_loop.Records.Identity.{PossibleFlowOwner}
use moisture_loop.Records.Data.{StoreData}
use moisture_loop.Store.{Plan, keep, write_next}

-- `SafetyRecord(...)`.
abbrev pub make_record : SafetyRecord → Result SafetyRecord
make_record r = if record_ok r then ok r else raised value_error

abbrev pub keep_reason : Bool → BlockerReason → List BlockerReason
keep_reason b r = if b then r ∷ [] else []

-- Whether the reason stands after the call.
abbrev pub stands : List BlockerReason → BlockerReason → Bool → BlockerReason → Bool
stands blockers reason active r = if reason_eq reason r then active else has_reason r blockers

-- `sorted(blockers, key=lambda item: item.value)` after the reason is added or discarded: the values of
-- the three reasons in their order.
unfoldable pub ordered_blockers : List BlockerReason → BlockerReason → Bool → List BlockerReason
ordered_blockers blockers reason active =
    keep_reason (stands blockers reason active BlockerReason.actuator_not_proven_off)
      BlockerReason.actuator_not_proven_off
    ++ keep_reason (stands blockers reason active BlockerReason.external_flow)
        BlockerReason.external_flow
    ++ keep_reason (stands blockers reason active BlockerReason.integration_off_unconfirmed)
        BlockerReason.integration_off_unconfirmed

abbrev pub reasons_eq : List BlockerReason → List BlockerReason → Bool
reasons_eq [] [] = true
reasons_eq (a ∷ as_) (b ∷ bs) = reason_eq a b && reasons_eq as_ bs
reasons_eq _ _ = false

abbrev after_adding : Option PossibleFlowOwner → BlockerReason → Option PossibleFlowOwner
after_adding owner BlockerReason.external_flow = some PossibleFlowOwner.external
after_adding owner BlockerReason.integration_off_unconfirmed = some PossibleFlowOwner.integration
after_adding owner BlockerReason.actuator_not_proven_off = owner

unfoldable pub flow_owner_after :
    Option PossibleFlowOwner → List BlockerReason → BlockerReason → Bool → Option PossibleFlowOwner
flow_owner_after owner blockers reason active =
    if active
    then after_adding owner reason
    else if stands blockers reason active BlockerReason.integration_off_unconfirmed
    then some PossibleFlowOwner.integration
    else if stands blockers reason active BlockerReason.external_flow
    then some PossibleFlowOwner.external
    else none

unfoldable pub blocked_record : SafetyRecord → BlockerReason → Bool → SafetyRecord
unfolding ordered_blockers flow_owner_after
blocked_record r reason active = record r {
  blocker_reasons = ordered_blockers r.blocker_reasons reason active;
  possible_flow_owner = flow_owner_after r.possible_flow_owner r.blocker_reasons reason active;
}

unfoldable pub set_record_blocker :
    String → BlockerReason → Bool → StoreData → Result (Plan StoreData)
unfolding blocked_record
set_record_blocker safety_record_id reason active s =
    or_raise (lookup safety_record_id s.safety_records) store_not_loaded >>= λ r.
    if reasons_eq (ordered_blockers r.blocker_reasons reason active) r.blocker_reasons
    then ok (keep s)
    else (make_record (blocked_record r reason active) >>= λ next.
        write_next (record s { safety_records = insert safety_record_id next s.safety_records }))
