-- ===== src/Tests/Accounts.antt =====
-- Theorems on configurations and on daily runtimes, at concrete ones.
use moisture_loop.Base.{◌≡◌, refl, true, false, none, some, [], ◌∷◌, Returns}
use moisture_loop.Model.Enums.{ControllerState}
use moisture_loop.Config.{validation_errors, entity_domain}
use moisture_loop.Config.Settings.{from_config, settings_config, settings_ok, settings_round_trip}
use moisture_loop.Accounting.{
  AccountingContribution, ZoneDailyRuntime, contribution_eq, daily_ok,
  deduplicate_accounting_contributions, conservative_merge_daily_runtime,
}
use moisture_loop.Accounting.Merge.{Merged, daily_merge_is_conservative}
use moisture_loop.Records.History.{ZoneHistory, ZoneRuntime, history_ok, id_history_ok}
use moisture_loop.Records.Continuity.{
  Continues, merge_zone_history_continuity, continuity_keeps_budget,
}
use moisture_loop.Tests.Inputs.{config}

settings_round_trip_example :
    Returns
      (λ s.
        (settings_config s "sensor.bed" "switch.bed" ≡ config)
        × (settings_ok s "sensor.bed" "switch.bed" ≡ true))
      (from_config config)
unfolding validation_errors entity_domain
settings_round_trip_example = settings_round_trip config refl

abbrev contribution : AccountingContribution
contribution = record {
  accounting_contribution_id = "c1";
  source_safety_record_id = "r1";
  start_utc = some 100;
  end_utc = some 160;
  runtime_s = 60;
  runtime_estimated = false;
  local_date = some 20000;
}

-- Ten minutes, one of them known by a contribution.
abbrev left_day : ZoneDailyRuntime
left_day = record {
  date_local = 20000;
  runtime_s = 600;
  conservative_unattributed_runtime_s = 0;
  contributions = contribution ∷ [];
}

-- Five minutes, one of them the same, and one known by another contribution.
abbrev right_day : ZoneDailyRuntime
right_day = record {
  date_local = 20000;
  runtime_s = 300;
  conservative_unattributed_runtime_s = 100;
  contributions = record contribution { accounting_contribution_id = "c0" } ∷ contribution ∷ [];
}

daily_merge_is_conservative_example :
    Returns (Merged left_day right_day) (conservative_merge_daily_runtime left_day right_day)
unfolding daily_ok deduplicate_accounting_contributions contribution_eq
daily_merge_is_conservative_example =
    daily_merge_is_conservative left_day right_day refl refl refl (tt, (refl, tt))

abbrev pub zone_runtime : ZoneRuntime
zone_runtime = record {
  enabled = true;
  state = ControllerState.idle;
  zone_fault = none;
  secondary_fault = none;
  sensor_identity = record { registry_entry_id = none; last_known_entity_id = none };
  last_session_summary = none;
  session = none;
}

abbrev pub history : ZoneHistory
history = record {
  zone_history_id = "h1";
  active_subentry_id = none;
  previous_subentry_ids = "z1" ∷ [];
  last_session_end_utc = some 1000;
  last_auto_session_start_utc = none;
  zone_runtime = zone_runtime;
  daily = some left_day;
}

abbrev retained_history : ZoneHistory
retained_history = record history {
  zone_history_id = "h2";
  last_session_end_utc = some 2000;
  daily = some right_day;
}

continuity_keeps_budget_example :
    Returns
      (Continues history retained_history)
      (merge_zone_history_continuity (λ _ _. true) history retained_history)
unfolding history_ok id_history_ok daily_ok deduplicate_accounting_contributions contribution_eq
continuity_keeps_budget_example =
    continuity_keeps_budget (λ _ _. true) history retained_history refl refl refl refl
      (λ _. (tt, (refl, tt)))
