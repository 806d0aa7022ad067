-- ===== src/Zone/Gate.antt =====
-- zone_controller.py: `final_on_guard_failures`, which the final ON gate asks again right before and
-- after the ON command. The daily runtime is the one that the store is authoritative for.
pub mod Starting
pub mod Closing
use text.Mathlib.Text.{◌==◌ as str_eq}
use moisture_loop.Base.{
  ℕ, ◌+◌, Bool, true, false, ◌&&◌, ◌||◌, not, Option, none, some, List, [], ◌∷◌, String, is_some,
  ltb, leb, ◌==◌, if◌then◌else◌,
}
use moisture_loop.Model.Enums.{ControllerState, FaultCode, allows_manual}
use moisture_loop.Model.Observation.{MoistureObservation, ZoneConfig, is_fresh, seconds}
use moisture_loop.Model.Session.{SessionContext}
use moisture_loop.Machine.Guards.{is_valid}
use moisture_loop.Machine.Watering.{is_auto}
use moisture_loop.Zone.{Zone}

-- What the gate reads beside the fields of the zone.
pub record GateContext : Type 0 where
  pub now_utc : ℕ
  pub config : ZoneConfig
  pub observation : MoistureObservation
  pub run_id : String
  pub fingerprint : String
  pub authoritative_daily_runtime_s : ℕ
  pub off_operation_active : Bool
  pub another_in_flight : Bool
  pub pre_dispatch : Bool

pub data GateFailure : Type 0 where
  state_not_watering session_mismatch disabled run_owner_mismatch session_config_mismatch
        missing_hazard_intent terminal_request_committed off_requested off_operation_active
        another_on_attempt_in_flight blocking_fault auto_sensor_not_fresh cycle_limit session_budget
        daily_budget minimum_interval manual_duration manual_budget :
      GateFailure

-- `if failed: failed.append(name)`, above the rest.
abbrev pub fail_if : Bool → GateFailure → List GateFailure → List GateFailure
fail_if b name rest = if b then name ∷ rest else rest

abbrev pub in_watering : ControllerState → Bool
in_watering ControllerState.watering = true
in_watering _ = false

abbrev blocks_on : SessionContext → Option FaultCode → Bool
blocks_on s none = false
blocks_on s (some fault) = not (not (is_auto s.mode) && allows_manual fault)

abbrev deadline_passed : ℕ → Option ℕ → Bool
deadline_passed now none = true
deadline_passed now (some fresh_until) = leb fresh_until now

abbrev interval_runs : GateContext → Option ℕ → Bool
interval_runs g none = false
interval_runs g (some ended) = ltb g.now_utc (ended + seconds g.config.min_session_interval_s)

unfoldable pub auto_gate_failures : Zone → GateContext → SessionContext → List GateFailure
auto_gate_failures z g s =
    let pulse = seconds g.config.pulse_duration_s in
    fail_if
      (not (is_valid g.observation.classification)
        || (not (is_fresh g.observation g.now_utc g.config.sensor_max_age_s)
            || deadline_passed g.now_utc s.sensor_fresh_until_utc))
      GateFailure.auto_sensor_not_fresh
      (fail_if (ltb s.cycle 1 || ltb g.config.max_cycles s.cycle) GateFailure.cycle_limit (
        fail_if (ltb (seconds g.config.max_session_runtime_s) (s.session_runtime_s + pulse))
          GateFailure.session_budget
          (fail_if
            (ltb (seconds g.config.max_daily_runtime_s) (g.authoritative_daily_runtime_s + pulse))
            GateFailure.daily_budget
            (fail_if
              ((s.cycle == 1) && ((s.session_runtime_s == 0) && interval_runs g z.last_session_end))
              GateFailure.minimum_interval []))))

unfoldable pub manual_gate_failures : GateContext → SessionContext → List GateFailure
manual_gate_failures g s = by_duration s.manual_effective_duration_s
  where
    by_duration : Option ℕ → List GateFailure
    by_duration none = GateFailure.manual_duration ∷ []
    by_duration (some effective) =
        if leb effective 0
        then GateFailure.manual_duration ∷ []
        else fail_if
            (ltb (seconds g.config.manual_max_duration_s) effective
              || (ltb (seconds g.config.max_session_runtime_s) effective
                  || ltb (seconds g.config.max_daily_runtime_s)
                      (g.authoritative_daily_runtime_s + effective)))
            GateFailure.manual_budget []

unfoldable pub session_gate_failures : Zone → GateContext → SessionContext → List GateFailure
unfolding auto_gate_failures manual_gate_failures
session_gate_failures z g s = fail_if (not z.enabled) GateFailure.disabled (
    fail_if (not (str_eq s.owner_run_id g.run_id)) GateFailure.run_owner_mismatch (
      fail_if (not (str_eq s.config_fingerprint g.fingerprint)) GateFailure.session_config_mismatch
        (fail_if (not (is_some s.pulse_intent_at_utc)) GateFailure.missing_hazard_intent (
          fail_if (is_some s.pending_termination_reason) GateFailure.terminal_request_committed (
            fail_if z.off_requested GateFailure.off_requested (
              fail_if g.off_operation_active GateFailure.off_operation_active (
                fail_if (g.pre_dispatch && g.another_in_flight)
                  GateFailure.another_on_attempt_in_flight
                  (fail_if (blocks_on s z.active_fault) GateFailure.blocking_fault (
                    if is_auto s.mode
                    then auto_gate_failures z g s
                    else manual_gate_failures g s)))))))))

unfoldable pub final_on_guard_failures : Zone → GateContext → String → List GateFailure
unfolding session_gate_failures
final_on_guard_failures z g session_id =
    fail_if (not (in_watering z.state)) GateFailure.state_not_watering (by_session z.session)
  where
    by_session : Option SessionContext → List GateFailure
    by_session none = GateFailure.session_mismatch ∷ []
    by_session (some s) =
        if str_eq s.session_id session_id
        then session_gate_failures z g s
        else GateFailure.session_mismatch ∷ []
