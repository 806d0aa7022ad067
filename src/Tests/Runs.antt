-- ===== src/Tests/Runs.antt =====
-- Theorems on `decide`, at concrete inputs.
use moisture_loop.Base.{◌≡◌, refl, true, some, ◌↔◌, Returns, Ensures, ◌≤◌, arith, ◌≢◌}
use moisture_loop.Model.Enums.{ControllerState, CompletionReason, FaultCode}
use moisture_loop.Model.Observation.{seconds}
use moisture_loop.Model.Event.{ControllerEvent, Duration}
use moisture_loop.Model.Decision.{TransitionInput}
use moisture_loop.Machine.Guards.{
  fresh_valid, interval_elapsed, actuator_ready, daily_fits, session_fits, post_qualifies,
  daily_remaining,
}
use moisture_loop.Machine.Soaking.{soaking_recheck}
use moisture_loop.Machine.Decide.{decide}
use moisture_loop.Machine.Safety.{StartsSafely, turns_on, turn_on_is_safe}
use moisture_loop.Machine.Shape.{Closes, post_init_ok, decide_constructs, decide-Closes}
use moisture_loop.Machine.Arbitration.{Honours, first_terminal_request_owns}
use moisture_loop.Machine.Extends.{ExtendsSession, decide-ExtendsSession}
use moisture_loop.Machine.AutoStart.{AutoReady, Starts, auto_start_iff}
use moisture_loop.Machine.Recheck.{Justified, decide-Justified}
use moisture_loop.Machine.ManualClamp.{StartsManual, manual_start_is_bounded}
use moisture_loop.Machine.Watchdog.{ArmsCurrent, watchdog_names_session, watchdog_faults_exactly}
use moisture_loop.Tests.Inputs.{
  idle_input, identity, pulse, pulse_input, stopped, soak, soak_input, token, value_of,
}

abbrev started : TransitionInput
started = idle_input ControllerEvent.auto_evaluate

turn_on_is_safe_example : StartsSafely started (value_of (decide started))
unfolding decide fresh_valid interval_elapsed actuator_ready daily_fits
turn_on_is_safe_example = turn_on_is_safe started (value_of (decide started)) refl refl

decide_constructs_example : post_init_ok (value_of (decide started)) ≡ true
unfolding decide fresh_valid interval_elapsed actuator_ready daily_fits
decide_constructs_example = decide_constructs started (value_of (decide started)) refl refl

-- OFF evidence for a session that the user stopped.
abbrev closed_by_off : TransitionInput
closed_by_off = pulse_input stopped (ControllerEvent.off_confirmed (seconds 100000))

decide-Closes_example : Closes (value_of (decide closed_by_off))
unfolding decide
decide-Closes_example = decide-Closes closed_by_off (value_of (decide closed_by_off)) refl

first_terminal_request_owns_example :
    Honours closed_by_off.event CompletionReason.user_stop (value_of (decide closed_by_off))
unfolding decide
first_terminal_request_owns_example =
    first_terminal_request_owns closed_by_off stopped CompletionReason.user_stop
      (value_of (decide closed_by_off)) refl refl refl refl refl

watering≢idle : ControllerState.watering ≢ ControllerState.idle
watering≢idle h = cc

decide-ExtendsSession_example : ExtendsSession stopped (value_of (decide closed_by_off))
unfolding decide
decide-ExtendsSession_example =
    decide-ExtendsSession closed_by_off stopped (value_of (decide closed_by_off)) watering≢idle refl
      refl

auto_start_iff_example :
    (AutoReady started → Returns (Starts started identity) (decide started))
    × Ensures (λ d. turns_on d ≡ true → AutoReady started) (decide started)
auto_start_iff_example = auto_start_iff started identity refl refl refl

abbrev rechecked : TransitionInput
rechecked = soak_input ControllerEvent.soak_deadline_reached

decide-Justified_example : Justified rechecked soak (value_of (decide rechecked))
unfolding decide post_qualifies soaking_recheck session_fits daily_fits
decide-Justified_example =
    decide-Justified rechecked soak (value_of (decide rechecked)) refl refl refl

abbrev requested : Duration
requested = Duration.not_negative (seconds 1200)

abbrev by_hand : TransitionInput
by_hand = idle_input (ControllerEvent.manual_start_requested requested)

manual_start_is_bounded_example : StartsManual by_hand requested (value_of (decide by_hand))
unfolding decide actuator_ready daily_remaining
manual_start_is_bounded_example =
    manual_start_is_bounded by_hand requested (value_of (decide by_hand)) refl
      record { manual_cap = omega arith; session_cap = omega arith } refl refl

watchdog_names_session_example : ArmsCurrent started (value_of (decide started))
unfolding decide fresh_valid interval_elapsed actuator_ready daily_fits
watchdog_names_session_example = watchdog_names_session started (value_of (decide started)) refl

abbrev fired : TransitionInput
fired = pulse_input pulse (ControllerEvent.watchdog_fired token)

watchdog_faults_exactly_example :
    Returns
      (λ d.
        (d.fault ≡ some FaultCode.sensor_stale)
        ↔ ((fired.armed_watchdog ≡ some token) × (seconds 100000 ≤ fired.now_utc)))
      (decide fired)
watchdog_faults_exactly_example =
    watchdog_faults_exactly fired pulse token (seconds 100000) refl refl refl refl refl refl
