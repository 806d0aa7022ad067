-- ===== src/Runtime/Checks.antt =====
-- runtime.py: the predicates of the final authority over an ON command.
use text.Mathlib.Text.{◌==◌ as str_eq}
use moisture_loop.Base.{
  ℕ, ◌==◌, Bool, true, false, ◌&&◌, ◌||◌, not, Option, none, some, String, is_some, is_empty,
}
use moisture_loop.Slots.{admission_open}
use moisture_loop.Zone.Gate.{final_on_guard_failures}
use moisture_loop.Records.Dict.{lookup}
use moisture_loop.Records.Identity.{AppliedConfigurationShadow}
use moisture_loop.Records.History.{ZoneHistory, names}
use moisture_loop.Records.Safety.{SafetyRecord, is_active}
use moisture_loop.Runtime.{
  ImmutableZoneSnapshot, ImmutableEntrySnapshot, by_subentry_id, RuntimeControllerBinding,
  FinalOnAuthorizationToken, Controller, Runtime, current_local_day_runtime_s,
}

-- Both are there, and the test holds of them.
abbrev pub both : {A B : Type 0} → (A → B → Bool) → Option A → Option B → Bool
both p (some a) (some b) = p a b
both p _ _ = false

abbrev pub holds : {A : Type 0} → (A → Bool) → Option A → Bool
holds p none = false
holds p (some a) = p a

abbrev pub fresh_zone_in : Controller → Option ImmutableEntrySnapshot → Option ImmutableZoneSnapshot
fresh_zone_in c none = none
fresh_zone_in c (some s) = lookup c.zone_id (by_subentry_id s)

unfoldable pub fresh_zone : Runtime → Controller → Option ImmutableZoneSnapshot
unfolding by_subentry_id
fresh_zone w c = fresh_zone_in c w.fresh_snapshot

abbrev pub same_entry : ImmutableEntrySnapshot → ImmutableEntrySnapshot → Bool
same_entry a b = str_eq a.entry_snapshot_fingerprint b.entry_snapshot_fingerprint

unfoldable pub snapshots_match : Runtime → Controller → Bool
snapshots_match w c =
    both same_entry w.fresh_snapshot w.coordinator.applied_snapshot
    && (both same_entry w.fresh_snapshot w.coordinator.observed_snapshot
        && both (λ s a. str_eq s.entry_snapshot_fingerprint a.entry_snapshot_fingerprint)
            w.fresh_snapshot c.applied_config)

abbrev fresh_generation : ℕ → Option ImmutableEntrySnapshot → Bool
fresh_generation g none = true
fresh_generation g (some s) = s.observed_generation == g

unfoldable pub generation_current : Runtime → Controller → Bool
generation_current w c =
    let g = w.coordinator.applied_generation in
    (w.coordinator.observed_generation == g)
    && (holds (λ a. a.applied_generation == g) c.applied_config
        && fresh_generation g w.fresh_snapshot)

unfoldable pub admission_clear : Runtime → Bool
admission_clear w = not (
    w.process_stopping
    || (w.coordinator.stopping
        || (w.coordinator.dirty
            || (w.coordinator.reconciling
                || (w.coordinator.failed
                    || (w.coordinator.reload_pending || not (admission_open w.slots)))))))

unfoldable pub lifecycle_active : Runtime → Controller → Bool
lifecycle_active w c =
    holds (λ b. (b.controller == c.address) && (is_active b.lifecycle && not b.quiescing))
      (lookup c.zone_id w.bindings)
    && is_active c.runtime_lifecycle

abbrev pub record_of : Runtime → Controller → Option SafetyRecord
record_of w c = lookup c.safety_record_id w.store.safety_records

abbrev pub history_in : Runtime → Controller → Option ZoneHistory
history_in w c = lookup c.zone_history_id w.store.zone_histories

module _ (same_shadow : AppliedConfigurationShadow → AppliedConfigurationShadow → Bool) where
  unfoldable pub binding_owned : Controller → RuntimeControllerBinding → Bool
  binding_owned c b =
      str_eq b.safety_record_id c.safety_record_id
      && (str_eq b.zone_history_id c.zone_history_id
          && holds (same_shadow b.applied_shadow) c.applied_config)

  unfoldable pub record_owned : Controller → SafetyRecord → Bool
  record_owned c r =
      str_eq r.safety_record_id c.safety_record_id
      && (str_eq r.zone_history_id c.zone_history_id
          && (names r.active_subentry_id c.zone_id
              && (is_active r.runtime_lifecycle
                  && (both same_shadow r.applied_config c.applied_config
                      && names r.actuator_identity.last_known_entity_id c.gate.config.actuator))))

  unfoldable pub history_owned : Controller → ZoneHistory → Bool
  history_owned c h =
      str_eq h.zone_history_id c.zone_history_id && names h.active_subentry_id c.zone_id

  unfoldable pub canonical_ok : Runtime → Controller → Bool
  unfolding binding_owned record_owned history_owned
  canonical_ok w c =
      holds (binding_owned c) (lookup c.zone_id w.bindings)
      && (holds (record_owned c) (record_of w c) && holds (history_owned c) (history_in w c))

unfoldable pub hazard_intent : Controller → String → ZoneHistory → Bool
hazard_intent c session_id h =
    holds
      (λ p.
        str_eq p.owner_safety_record_id c.safety_record_id
        && (str_eq p.context.session_id session_id && is_some p.context.pulse_intent_at_utc))
      h.zone_runtime.session

unfoldable pub authorization_eq : FinalOnAuthorizationToken → FinalOnAuthorizationToken → Bool
authorization_eq a b =
    str_eq a.subentry_id b.subentry_id
    && (str_eq a.safety_record_id b.safety_record_id
        && (str_eq a.zone_history_id b.zone_history_id
            && (str_eq a.session_id b.session_id
                && (str_eq a.command_attempt_id b.command_attempt_id
                    && ((a.applied_generation == b.applied_generation)
                        && (str_eq a.zone_config_fingerprint b.zone_config_fingerprint
                            && str_eq a.entry_snapshot_fingerprint
                                b.entry_snapshot_fingerprint))))))

abbrev pub token_of_config : FinalOnAuthorizationToken → AppliedConfigurationShadow → Bool
token_of_config t a =
    (t.applied_generation == a.applied_generation)
    && (str_eq t.zone_config_fingerprint a.config_fingerprint
        && str_eq t.entry_snapshot_fingerprint a.entry_snapshot_fingerprint)

unfoldable pub token_matches :
    Runtime → Controller → String → String → FinalOnAuthorizationToken → Bool
unfolding authorization_eq
token_matches w c session_id attempt_id t =
    holds (λ expected. authorization_eq expected t)
      (lookup t.command_attempt_id w.on_authorizations)
    && (str_eq t.subentry_id c.zone_id
        && (str_eq t.safety_record_id c.safety_record_id
            && (str_eq t.zone_history_id c.zone_history_id
                && (str_eq t.session_id session_id
                    && (str_eq t.command_attempt_id attempt_id
                        && holds (token_of_config t) c.applied_config)))))

unfoldable pub proven_off : Controller → Bool
proven_off c =
    c.live_actuator.available && (c.live_actuator.proven_off && not c.live_actuator.observed_on)

-- The guards of the controller, against the runtime that the store is authoritative for.
unfoldable pub guards_pass : Runtime → Controller → String → Bool → Bool
unfolding current_local_day_runtime_s final_on_guard_failures
guards_pass w c session_id pre_dispatch = is_empty (
    final_on_guard_failures c.zone
      (record c.gate {
        authoritative_daily_runtime_s = current_local_day_runtime_s w (history_in w c);
        pre_dispatch = pre_dispatch;
      })
      session_id)
