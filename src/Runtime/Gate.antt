-- ===== src/Runtime/Gate.antt =====
-- runtime.py: `_evaluate_on_authority`, `authorize_on`, `recheck_on_authorization` and
-- `finish_on_authorization`.
use text.Mathlib.Text.{◌==◌ as str_eq}
use moisture_loop.Base.{
  ℕ, ◌==◌, Bool, true, false, ◌&&◌, not, Option, none, some, List, [], ◌∷◌, String, any, is_some,
  is_empty, if◌then◌else◌, ◌++◌, Result, ok, assertion_error, or_raise, ◌>>=◌,
}
use moisture_loop.Records.Dict.{lookup, insert, erase}
use moisture_loop.Records.Identity.{AppliedConfigurationShadow}
use moisture_loop.Records.History.{names}
use moisture_loop.Runtime.{
  FinalOnAuthorizationToken, Controller, command_authorization_open, Runtime, Predicate,
  FinalOnAuthorizationResult, authorized,
}
use moisture_loop.Runtime.Checks.{
  fresh_zone, snapshots_match, generation_current, admission_clear, lifecycle_active, canonical_ok,
  hazard_intent, authorization_eq, token_matches, proven_off, guards_pass, both, holds, history_in,
}

-- One call of `fail`, if the predicate does not hold.
pub record Check : Type 0 where
  pub predicate : Predicate
  pub failed : Bool
  pub authority : Bool
  pub quiescing : Bool

-- A check of the configuration authority, one that also requires quiescing, and one of neither kind.
abbrev pub of_authority : Predicate → Bool → Check
of_authority p b = record { predicate = p; failed = b; authority = true; quiescing = false }

abbrev pub of_lifecycle : Predicate → Bool → Check
of_lifecycle p b = record { predicate = p; failed = b; authority = true; quiescing = true }

abbrev pub of_moment : Predicate → Bool → Check
of_moment p b = record { predicate = p; failed = b; authority = false; quiescing = false }

abbrev pub token_check :
    Runtime → Controller → String → String → Option FinalOnAuthorizationToken → List Check
token_check w c session_id attempt_id none = []
token_check w c session_id attempt_id (some t) =
    of_authority Predicate.authorization_token_matches
      (not (token_matches w c session_id attempt_id t))
    ∷ []

abbrev pub actuator_check : Controller → Bool → List Check → List Check
actuator_check c pre_dispatch rest =
    if pre_dispatch
    then of_moment Predicate.actuator_available_and_proven_off (not (proven_off c)) ∷ rest
    else rest

module _ (same_shadow : AppliedConfigurationShadow → AppliedConfigurationShadow → Bool) where
  -- What one evaluation is asked: of a controller, a session and an attempt, with the token of the
  -- attempt if it has one, before the dispatch or after it.
  unfoldable pub checks :
      Runtime → Controller → String → String → Option FinalOnAuthorizationToken → Bool → List Check
  unfolding fresh_zone snapshots_match generation_current admission_clear lifecycle_active
      canonical_ok hazard_intent token_matches proven_off guards_pass command_authorization_open
  checks w c session_id attempt_id token pre_dispatch =
      of_authority Predicate.current_entry_snapshot_matches (not (is_some w.fresh_snapshot))
      ∷ of_lifecycle Predicate.current_subentry_exists (not (is_some (fresh_zone w c)))
      ∷ of_lifecycle Predicate.current_zone_fingerprint_matches (
          not (
            both (λ z a. str_eq z.config_fingerprint a.config_fingerprint) (fresh_zone w c)
              c.applied_config))
      ∷ of_authority Predicate.current_entry_snapshot_matches (not (snapshots_match w c))
      ∷ of_authority Predicate.applied_generation_current (not (generation_current w c))
      ∷ of_authority Predicate.reconciliation_admission_clear (not (admission_clear w))
      ∷ of_lifecycle Predicate.runtime_lifecycle_active (not (lifecycle_active w c))
      ∷ of_lifecycle Predicate.controller_commandable (not (command_authorization_open c))
      ∷ of_lifecycle Predicate.canonical_ownership_matches (not (canonical_ok same_shadow w c))
      ∷ of_authority Predicate.verified_hazard_intent_matches
          (not (holds (hazard_intent c session_id) (history_in w c)))
      ∷ of_moment Predicate.slot_owned_by_session (not (names w.slots.owner c.zone_id))
      ∷ of_moment Predicate.keyed_blockers_clear (not (is_empty w.slots.blockers))
      ∷ of_moment Predicate.ordinary_runtime_guards (not (guards_pass w c session_id pre_dispatch))
      ∷ actuator_check c pre_dispatch (token_check w c session_id attempt_id token)

abbrev pub predicate_code : Predicate → ℕ
predicate_code Predicate.current_entry_snapshot_matches = 0
predicate_code Predicate.current_subentry_exists = 1
predicate_code Predicate.current_zone_fingerprint_matches = 2
predicate_code Predicate.applied_generation_current = 3
predicate_code Predicate.reconciliation_admission_clear = 4
predicate_code Predicate.runtime_lifecycle_active = 5
predicate_code Predicate.controller_commandable = 6
predicate_code Predicate.canonical_ownership_matches = 7
predicate_code Predicate.verified_hazard_intent_matches = 8
predicate_code Predicate.slot_owned_by_session = 9
predicate_code Predicate.keyed_blockers_clear = 10
predicate_code Predicate.ordinary_runtime_guards = 11
predicate_code Predicate.actuator_available_and_proven_off = 12
predicate_code Predicate.authorization_token_matches = 13
predicate_code Predicate.authorization_token_single_use = 14

-- `if predicate not in failures: failures.append(predicate)`.
abbrev pub append_new : List Predicate → Predicate → List Predicate
append_new ps p = if any (λ q. predicate_code q == predicate_code p) ps then ps else ps ++ p ∷ []

unfoldable pub failures : List Predicate → List Check → List Predicate
failures ps [] = ps
failures ps (c ∷ cs) = failures (if c.failed then append_new ps c.predicate else ps) cs

abbrev pub make_token :
    Controller → String → String → AppliedConfigurationShadow → FinalOnAuthorizationToken
make_token c session_id attempt_id a = record {
  subentry_id = c.zone_id;
  safety_record_id = c.safety_record_id;
  zone_history_id = c.zone_history_id;
  session_id = session_id;
  command_attempt_id = attempt_id;
  applied_generation = a.applied_generation;
  zone_config_fingerprint = a.config_fingerprint;
  entry_snapshot_fingerprint = a.entry_snapshot_fingerprint;
}

abbrev pub or_else :
    Option FinalOnAuthorizationToken → FinalOnAuthorizationToken → FinalOnAuthorizationToken
or_else none t = t
or_else (some t) u = t

abbrev pub granted : FinalOnAuthorizationToken → FinalOnAuthorizationResult
granted t = record {
  token = some t;
  failed_predicates = [];
  configuration_authority_valid = true;
  requires_quiescing = false;
}

abbrev pub denial : List Check → FinalOnAuthorizationResult
denial cs = record {
  token = none;
  failed_predicates = failures [] cs;
  configuration_authority_valid = not (any (λ c. c.failed && c.authority) cs);
  requires_quiescing = any (λ c. c.failed && c.quiescing) cs;
}

-- The end of an evaluation: a denial, or the given token, or else a new one.
unfoldable pub conclude :
    List Check
    → Option AppliedConfigurationShadow
    → (AppliedConfigurationShadow → FinalOnAuthorizationToken)
    → Result FinalOnAuthorizationResult
unfolding failures
conclude cs applied token =
    if any (λ k. k.failed) cs
    then ok (denial cs)
    else (or_raise applied assertion_error >>= λ a. ok (granted (token a)))

abbrev pub used_up : FinalOnAuthorizationResult → FinalOnAuthorizationResult
used_up r = record {
  token = none;
  failed_predicates = Predicate.authorization_token_single_use ∷ [];
  configuration_authority_valid = r.configuration_authority_valid;
  requires_quiescing = false;
}

abbrev pub register_with :
    Runtime
    → String
    → FinalOnAuthorizationResult
    → FinalOnAuthorizationToken
    → Option FinalOnAuthorizationToken
    → Runtime × FinalOnAuthorizationResult
register_with w attempt_id r t (some _) = (w, used_up r)
register_with w attempt_id r t none =
    (record w { on_authorizations = insert attempt_id t w.on_authorizations }, r)

-- The token of a result that is authorized, in the authorizations under way.
unfoldable pub register :
    Runtime
    → String
    → FinalOnAuthorizationResult
    → FinalOnAuthorizationToken
    → Runtime × FinalOnAuthorizationResult
register w attempt_id r t = register_with w attempt_id r t (lookup attempt_id w.on_authorizations)

unfoldable pub register_authorized :
    Runtime → String → FinalOnAuthorizationResult → Result (Runtime × FinalOnAuthorizationResult)
unfolding authorized
register_authorized w attempt_id r =
    if authorized r
    then (or_raise r.token assertion_error >>= λ t. ok (register w attempt_id r t))
    else ok (w, r)

module _ (same_shadow : AppliedConfigurationShadow → AppliedConfigurationShadow → Bool) where
  unfoldable pub evaluate_on_authority :
      Runtime
      → Controller
      → String
      → String
      → Option FinalOnAuthorizationToken
      → Bool
      → Result FinalOnAuthorizationResult
  unfolding conclude
  evaluate_on_authority w c session_id attempt_id token pre_dispatch =
      conclude (checks same_shadow w c session_id attempt_id token pre_dispatch) c.applied_config
        (λ a. or_else token (make_token c session_id attempt_id a))

  unfoldable pub authorize_on :
      Runtime → Controller → String → String → Result (Runtime × FinalOnAuthorizationResult)
  unfolding evaluate_on_authority register_authorized
  authorize_on w c session_id attempt_id =
      evaluate_on_authority w c session_id attempt_id none true >>= λ r.
      register_authorized w attempt_id r

  unfoldable pub recheck_on_authorization :
      Runtime → Controller → FinalOnAuthorizationToken → Result FinalOnAuthorizationResult
  unfolding evaluate_on_authority
  recheck_on_authorization w c t =
      evaluate_on_authority w c t.session_id t.command_attempt_id (some t) false

abbrev pub finish_with :
    Runtime → FinalOnAuthorizationToken → Option FinalOnAuthorizationToken → Runtime
finish_with w t none = w
finish_with w t (some registered) =
    if authorization_eq registered t
    then record w { on_authorizations = erase t.command_attempt_id w.on_authorizations }
    else w

unfoldable pub finish_on_authorization : Runtime → FinalOnAuthorizationToken → Runtime
unfolding authorization_eq
finish_on_authorization w t = finish_with w t (lookup t.command_attempt_id w.on_authorizations)
