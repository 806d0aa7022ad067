-- ===== src/Runtime.antt =====
-- runtime.py: the final authority over an ON command, which joins the immutable snapshots of the
-- configuration, the bindings of the controllers, the slot manager, the safety store and the guards of
-- the controller. The snapshot that is built afresh from the entry is an argument, and so is the `==`
-- that a dataclass has on configuration shadows.
pub mod Checks
pub mod Gate
pub mod Authority
pub mod Dispatch
pub mod Recheck
use text.Mathlib.Text.{◌==◌ as str_eq}
use moisture_loop.Base.{
  ℕ, ◌≡◌, ◌==◌, Bool, true, false, ◌&&◌, ◌||◌, not, Option, none, some, List, [], ◌∷◌, String, any,
  is_some, if◌then◌else◌,
}
use moisture_loop.Model.Decision.{ActuatorAssessment}
use moisture_loop.Slots.{SlotManager, admission_open}
use moisture_loop.Zone.{Zone}
use moisture_loop.Zone.Gate.{GateContext}
use moisture_loop.Records.Dict.{Dict, insert}
use moisture_loop.Records.Identity.{AppliedConfigurationShadow, RuntimeLifecycle}
use moisture_loop.Records.History.{ZoneHistory}
use moisture_loop.Records.Safety.{is_active}
use moisture_loop.Records.Data.{StoreData}

pub record ImmutableZoneSnapshot : Type 0 where
  pub subentry_id : String
  pub config_fingerprint : String

pub record ImmutableEntrySnapshot : Type 0 where
  pub observed_generation : ℕ
  pub entry_snapshot_fingerprint : String
  pub zones : List ImmutableZoneSnapshot

abbrev put_zones :
    Dict ImmutableZoneSnapshot → List ImmutableZoneSnapshot → Dict ImmutableZoneSnapshot
put_zones d [] = d
put_zones d (z ∷ zones) = put_zones (insert z.subentry_id z d) zones

unfoldable pub by_subentry_id : ImmutableEntrySnapshot → Dict ImmutableZoneSnapshot
by_subentry_id s = put_zones [] s.zones

-- What the reconciliation coordinator knows.
pub record Coordinator : Type 0 where
  pub applied_snapshot : Option ImmutableEntrySnapshot
  pub observed_snapshot : Option ImmutableEntrySnapshot
  pub observed_generation : ℕ
  pub applied_generation : ℕ
  pub stopping : Bool
  pub dirty : Bool
  pub reconciling : Bool
  pub failed : Bool
  pub reload_pending : Bool

-- The binding of a subentry. A controller is known by its address.
pub record RuntimeControllerBinding : Type 0 where
  pub subentry_id : String
  pub safety_record_id : String
  pub zone_history_id : String
  pub lifecycle : RuntimeLifecycle
  pub applied_shadow : AppliedConfigurationShadow
  pub controller : ℕ
  pub quiescing : Bool

pub record FinalOnAuthorizationToken : Type 0 where
  pub subentry_id : String
  pub safety_record_id : String
  pub zone_history_id : String
  pub session_id : String
  pub command_attempt_id : String
  pub applied_generation : ℕ
  pub zone_config_fingerprint : String
  pub entry_snapshot_fingerprint : String

-- What the gate reads of a controller.
pub record Controller : Type 0 where
  pub address : ℕ
  pub zone_id : String
  pub safety_record_id : String
  pub zone_history_id : String
  pub applied_config : Option AppliedConfigurationShadow
  pub runtime_lifecycle : RuntimeLifecycle
  pub runtime_eligible : Bool
  pub quiescing : Bool
  pub detaching : Bool
  pub zone : Zone
  pub gate : GateContext
  pub live_actuator : ActuatorAssessment

unfoldable pub command_authorization_open : Controller → Bool
command_authorization_open c =
    c.runtime_eligible
    && (is_active c.runtime_lifecycle
        && (not c.quiescing && (not c.detaching && not c.zone.persist_failed)))

pub record Runtime : Type 0 where
  pub fresh_snapshot : Option ImmutableEntrySnapshot
  pub coordinator : Coordinator
  pub process_stopping : Bool
  pub bindings : Dict RuntimeControllerBinding
  pub slots : SlotManager
  pub store : StoreData
  pub on_authorizations : Dict FinalOnAuthorizationToken
  pub local_today : ℕ

unfoldable pub current_local_day_runtime_s : Runtime → Option ZoneHistory → ℕ
current_local_day_runtime_s w none = 0
current_local_day_runtime_s w (some h) = elim h.daily [
  | none ↦ 0
  | some d ↦ if d.date_local == w.local_today then d.runtime_s else 0
]

pub data Predicate : Type 0 where
  current_entry_snapshot_matches current_subentry_exists current_zone_fingerprint_matches
        applied_generation_current reconciliation_admission_clear runtime_lifecycle_active
        controller_commandable canonical_ownership_matches verified_hazard_intent_matches
        slot_owned_by_session keyed_blockers_clear ordinary_runtime_guards
        actuator_available_and_proven_off authorization_token_matches
        authorization_token_single_use :
      Predicate

pub record FinalOnAuthorizationResult : Type 0 where
  pub token : Option FinalOnAuthorizationToken
  pub failed_predicates : List Predicate
  pub configuration_authority_valid : Bool
  pub requires_quiescing : Bool

unfoldable pub authorized : FinalOnAuthorizationResult → Bool
authorized r = is_some r.token && elim r.failed_predicates [ [] ↦ true | p ∷ ps ↦ false ]
