-- ===== src/Store/Controller.antt =====
-- storage.py: `async_update_controller_runtime`, and the owner of a trusted soaking session.
use text.Mathlib.Text.{◌==◌ as str_eq}
use moisture_loop.Base.{
  ℕ, ◌-◌, ◌==◌, Bool, true, Option, none, some, [], String, if◌then◌else◌, Result, ok, raised,
  value_error, store_not_loaded, store_write_verification, ◌>>=◌, or_raise,
}
use moisture_loop.Model.Enums.{ControllerState, FaultCode}
use moisture_loop.Model.Session.{SessionContext}
use moisture_loop.Accounting.{ZoneDailyRuntime, known_runtime, make_daily}
use moisture_loop.Records.Dict.{lookup, insert}
use moisture_loop.Records.History.{
  ZoneHistory, ZoneRuntime, PersistedSession, SessionSummary, zone_runtime_ok,
}
use moisture_loop.Records.Safety.{SafetyRecord, needs_ack}
use moisture_loop.Records.Identity.{PossibleFlowOwner}
use moisture_loop.Records.Continuity.{make_history}
use moisture_loop.Records.Data.{StoreData}
use moisture_loop.Store.{Plan, write_next}
use moisture_loop.Store.Faults.{Partition, partition_controller_faults}
use moisture_loop.Store.Blockers.{make_record}
use moisture_loop.Store.Acknowledge.{history_of}

pub record DailyRuntime : Type 0 where
  pub date_local : ℕ
  pub runtime_s : ℕ

-- The arguments of the call beside the two ids.
pub record ControllerUpdate : Type 0 where
  pub state : ControllerState
  pub enabled : Bool
  pub active_fault : Option FaultCode
  pub secondary_fault : Option FaultCode
  pub last_session_end_utc : Option ℕ
  pub last_auto_session_start_utc : Option ℕ
  pub daily : Option DailyRuntime
  pub last_session_summary : Option SessionSummary
  pub session : Option SessionContext
  pub possible_flow_owner : Option PossibleFlowOwner

abbrev pub first_of_day : DailyRuntime → Result ZoneDailyRuntime
first_of_day d = make_daily (record {
  date_local = d.date_local;
  runtime_s = d.runtime_s;
  conservative_unattributed_runtime_s = d.runtime_s;
  contributions = [];
})

abbrev pub same_day_runtime : ZoneDailyRuntime → DailyRuntime → Result ZoneDailyRuntime
same_day_runtime current d = make_daily (record {
  date_local = d.date_local;
  runtime_s = d.runtime_s;
  conservative_unattributed_runtime_s = d.runtime_s - known_runtime current.contributions;
  contributions = current.contributions;
})

unfoldable pub replace_daily : Option ZoneDailyRuntime → DailyRuntime → Result ZoneDailyRuntime
unfolding known_runtime
replace_daily none d = first_of_day d
replace_daily (some current) d =
    if current.date_local == d.date_local then same_day_runtime current d else first_of_day d

unfoldable pub merge_controller_daily_runtime :
    Option ZoneDailyRuntime → Option DailyRuntime → Result (Option ZoneDailyRuntime)
unfolding replace_daily
merge_controller_daily_runtime current none = ok none
merge_controller_daily_runtime current (some d) = replace_daily current d >>= λ next. ok (some next)

abbrev pub persisted : String → Option SessionContext → Option PersistedSession
persisted owner none = none
persisted owner (some context) = some (record { owner_safety_record_id = owner; context = context })

-- `ZoneRuntime(...)`.
abbrev pub make_zone_runtime : ZoneRuntime → Result ZoneRuntime
make_zone_runtime r = if zone_runtime_ok r then ok r else raised value_error

unfoldable pub updated_runtime : String → ZoneHistory → ControllerUpdate → Partition → ZoneRuntime
updated_runtime owner h u p = record {
  enabled = u.enabled;
  state = u.state;
  zone_fault = p.zone_fault;
  secondary_fault = p.secondary_zone_fault;
  sensor_identity = h.zone_runtime.sensor_identity;
  last_session_summary = u.last_session_summary;
  session = persisted owner u.session;
}

unfoldable pub updated_record : SafetyRecord → ControllerUpdate → Partition → SafetyRecord
unfolding needs_ack
updated_record r u p = record r {
  possible_flow_owner = u.possible_flow_owner;
  actuator_fault = p.actuator_fault;
  acknowledgement_required = needs_ack p.actuator_fault;
}

-- The record and the history after the update.
unfoldable pub apply_update :
    String → SafetyRecord → ZoneHistory → ControllerUpdate → Result (SafetyRecord × ZoneHistory)
unfolding updated_runtime updated_record merge_controller_daily_runtime
apply_update owner r h u = partition_controller_faults u.active_fault u.secondary_fault >>= λ p.
    make_zone_runtime (updated_runtime owner h u p) >>= λ runtime.
    merge_controller_daily_runtime h.daily u.daily >>= λ daily.
    make_history (record h {
      last_session_end_utc = u.last_session_end_utc;
      last_auto_session_start_utc = u.last_auto_session_start_utc;
      zone_runtime = runtime;
      daily = daily;
    })
    >>= λ history. make_record (updated_record r u p) >>= λ next. ok (next, history)

abbrev pub owns : SafetyRecord → String → Result Bool
owns r id = if str_eq r.zone_history_id id then ok true else raised store_write_verification

unfoldable pub update_owned :
    String
    → String
    → ControllerUpdate
    → StoreData
    → SafetyRecord
    → Result (SafetyRecord × ZoneHistory)
unfolding apply_update
update_owned safety_record_id zone_history_id u s r =
    or_raise (lookup zone_history_id s.zone_histories) store_write_verification >>= λ h.
    owns r zone_history_id >>= λ _. apply_update safety_record_id r h u

unfoldable pub update_controller_runtime :
    String → String → ControllerUpdate → StoreData → Result (Plan StoreData)
unfolding update_owned
update_controller_runtime safety_record_id zone_history_id u s =
    or_raise (lookup safety_record_id s.safety_records) store_write_verification >>= λ r.
    update_owned safety_record_id zone_history_id u s r >>= λ next. write_next (record s {
      safety_records = insert safety_record_id next.0 s.safety_records;
      zone_histories = insert zone_history_id next.1 s.zone_histories;
    })

abbrev pub rebased : ZoneHistory → String → PersistedSession → ZoneHistory
rebased h new_run_id p = record h {
  zone_runtime = record h.zone_runtime {
    session = some (record p { context = record p.context { owner_run_id = new_run_id } });
  };
}

-- The history of a record after the rebase of its session.
unfoldable pub rebase_session : String → StoreData → SafetyRecord → Result ZoneHistory
rebase_session new_run_id s r = history_of s r >>= λ h.
    or_raise h.zone_runtime.session store_not_loaded >>= λ p.
    make_zone_runtime (rebased h new_run_id p).zone_runtime >>= λ _.
    make_history (rebased h new_run_id p)

unfoldable pub rebase_soaking_owner_for_record :
    String → String → StoreData → Result (Plan StoreData)
unfolding rebase_session
rebase_soaking_owner_for_record safety_record_id new_run_id s =
    or_raise (lookup safety_record_id s.safety_records) store_not_loaded >>= λ r.
    rebase_session new_run_id s r >>= λ next.
    write_next (record s { zone_histories = insert next.zone_history_id next s.zone_histories })
