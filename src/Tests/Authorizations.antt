-- ===== src/Tests/Authorizations.antt =====
-- Theorems on the final authority over an ON command, at a zone whose first pulse is about to start.
use text.Mathlib.Text.{◌==◌ as str_eq}
use moisture_loop.Base.{
  Bool, ◌≡◌, refl, true, false, some, none, [], ◌∷◌, Result, ok, raised, Returns,
}
use moisture_loop.Model.Enums.{ControllerState}
use moisture_loop.Model.Observation.{seconds, is_fresh}
use moisture_loop.Slots.{init}
use moisture_loop.Zone.Gate.Starting.{asked}
use moisture_loop.Records.Dict.{lookup, insert}
use moisture_loop.Records.Identity.{
  AppliedEntityIdentity, AppliedConfigurationShadow, RuntimeLifecycle, IdentityStatus,
}
use moisture_loop.Records.History.{ZoneHistory}
use moisture_loop.Records.Safety.{SafetyRecord}
use moisture_loop.Runtime.{
  ImmutableEntrySnapshot, Controller, Runtime, FinalOnAuthorizationResult, authorized,
}
use moisture_loop.Runtime.Gate.{authorize_on, checks, register}
use moisture_loop.Runtime.Authority.{Issued, Dispatchable, authorization_is_exact}
use moisture_loop.Runtime.Recheck.{Lives, authorization_is_single_use}
use moisture_loop.Tests.Inputs.{config, pulse, off_actuator, surroundings, idle_zone}
use moisture_loop.Tests.Accounts.{history, zone_runtime}

abbrev sensor_identity : AppliedEntityIdentity
sensor_identity = record {
  registry_entry_id = none;
  last_known_entity_id = "sensor.bed";
  domain = "sensor";
}

abbrev actuator_identity : AppliedEntityIdentity
actuator_identity = record {
  registry_entry_id = none;
  last_known_entity_id = "switch.bed";
  domain = "switch";
}

abbrev shadow : AppliedConfigurationShadow
shadow = record {
  subentry_id = "z1";
  config_fingerprint = "f1";
  entry_snapshot_fingerprint = "e1";
  applied_generation = 4;
  normalized_settings = record {
    name = config.name;
    start_threshold = config.start_threshold;
    target_threshold = config.target_threshold;
    pulse_duration_s = config.pulse_duration_s;
    soak_duration_s = config.soak_duration_s;
    max_cycles = config.max_cycles;
    max_session_runtime_s = config.max_session_runtime_s;
    max_daily_runtime_s = config.max_daily_runtime_s;
    min_session_interval_s = config.min_session_interval_s;
    sensor_max_age_s = config.sensor_max_age_s;
    actuator_confirm_timeout_s = config.actuator_confirm_timeout_s;
    manual_max_duration_s = config.manual_max_duration_s;
  };
  sensor_identity = sensor_identity;
  actuator_identity = actuator_identity;
}

abbrev entry : ImmutableEntrySnapshot
entry = record {
  observed_generation = 4;
  entry_snapshot_fingerprint = "e1";
  zones = record { subentry_id = "z1"; config_fingerprint = "f1" } ∷ [];
}

abbrev safety_record : SafetyRecord
safety_record = record {
  safety_record_id = "r1";
  zone_id = "z1";
  active_subentry_id = some "z1";
  previous_subentry_ids = [];
  safety_lineage_id = "l1";
  zone_history_id = "h1";
  historical_zone_history_ids = [];
  runtime_lifecycle = RuntimeLifecycle.active;
  applied_config = some shadow;
  actuator_identity = record {
    registry_entry_id = none;
    last_known_entity_id = some "switch.bed";
    domain = some "switch";
    identity_status = IdentityStatus.registry_unavailable;
    off_service = some "switch.turn_off";
    confirm_timeout_s = some 30;
  };
  blocker_reasons = [];
  possible_flow_owner = none;
  identity_incident = none;
  actuator_fault = none;
  acknowledgement_required = false;
  removed_actuator_ack = none;
}

abbrev active_history : ZoneHistory
active_history = record history {
  active_subentry_id = some "z1";
  previous_subentry_ids = [];
  zone_runtime = record zone_runtime {
    state = ControllerState.watering;
    session = some (record { owner_safety_record_id = "r1"; context = pulse });
  };
  daily = none;
}

abbrev controller : Controller
controller = record {
  address = 1;
  zone_id = "z1";
  safety_record_id = "r1";
  zone_history_id = "h1";
  applied_config = some shadow;
  runtime_lifecycle = RuntimeLifecycle.active;
  runtime_eligible = true;
  quiescing = false;
  detaching = false;
  zone = record idle_zone { state = ControllerState.watering; session = some pulse };
  gate = asked surroundings (seconds 99995);
  live_actuator = off_actuator;
}

abbrev runtime : Runtime
runtime = record {
  fresh_snapshot = some entry;
  coordinator = record {
    applied_snapshot = some entry;
    observed_snapshot = some entry;
    observed_generation = 4;
    applied_generation = 4;
    stopping = false;
    dirty = false;
    reconciling = false;
    failed = false;
    reload_pending = false;
  };
  process_stopping = false;
  bindings =
      (
        "z1",
        record {
          subentry_id = "z1";
          safety_record_id = "r1";
          zone_history_id = "h1";
          lifecycle = RuntimeLifecycle.active;
          applied_shadow = shadow;
          controller = 1;
          quiescing = false;
        },
      )
      ∷ [];
  slots = record init { owner = some "z1"; grants_enabled = true };
  store = record {
    generation_id = "g1";
    store_revision = 7;
    run = record { active_run_id = some "r1"; last_clean_shutdown_run_id = none };
    zone_histories = ("h1", active_history) ∷ [];
    safety_records = ("r1", safety_record) ∷ [];
    version = 3;
  };
  on_authorizations = [];
  local_today = 20000;
}

-- The runtime and the answer of the authorization.
abbrev after : Result (Runtime × FinalOnAuthorizationResult) → Runtime × FinalOnAuthorizationResult
after (ok p) = p
after (raised e) = (
  runtime,
  record {
    token = none;
    failed_predicates = [];
    configuration_authority_valid = false;
    requires_quiescing = false;
  },
)

abbrev same : AppliedConfigurationShadow → AppliedConfigurationShadow → Bool
same a b = str_eq a.config_fingerprint b.config_fingerprint

abbrev issued : Runtime × FinalOnAuthorizationResult
issued = after (authorize_on same runtime controller "s1" "a1")

authorization_is_exact_example :
    Returns
      (λ p.
        (authorized p.1 ≡ true → Issued same runtime p.0 controller "s1" "a1" p.1)
        × ((authorized p.1 ≡ false → p.0 ≡ runtime)
            × (Dispatchable same runtime controller "s1"
                → lookup "a1" runtime.on_authorizations ≡ none
                → authorized p.1 ≡ true)))
      (authorize_on same runtime controller "s1" "a1")
authorization_is_exact_example = authorization_is_exact same runtime controller "s1" "a1"

authorization_is_single_use_example : Lives same runtime issued.0 controller "a1" issued.1
unfolding authorize_on checks lookup insert init is_fresh register
authorization_is_single_use_example =
    authorization_is_single_use same runtime issued.0 controller "s1" "a1" issued.1 refl refl
