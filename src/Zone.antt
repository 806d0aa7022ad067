-- ===== src/Zone.antt =====
-- zone_controller.py: the state that `ZoneController` keeps of a zone, and how a decision is
-- applied to it. The slot manager, the timers, the event bus and the store are left outside: an
-- action on them has no effect on these fields, and the error that an awaited call raises is an
-- argument.
pub mod Applying
pub mod Coherent
pub mod Total
pub mod Reach
pub mod Stranded
pub mod Gate
use text.Mathlib.Text.{◌==◌ as str_eq}
use moisture_loop.Base.{
  String, ℕ, ◌-◌, Bool, true, false, ◌&&◌, not, Option, none, some, List, [], ◌∷◌, ltb, is_some,
  if◌then◌else◌, Error, Result, ok, raised, assertion_error, ◌>>=◌, or_raise,
}
use moisture_loop.Model.Enums.{ControllerState, SessionMode, FaultCode, CompletionReason}
use moisture_loop.Model.Observation.{MoistureObservation, WatchdogToken, ZoneConfig}
use moisture_loop.Model.Session.{SessionContext, SessionIdentity}
use moisture_loop.Model.Event.{ControllerEvent, Action}
use moisture_loop.Model.Decision.{ActuatorAssessment, ResourceAssessment, TransitionInput, Decision}
use moisture_loop.Machine.Watering.{is_auto}
use moisture_loop.Machine.Decide.{decide}

pub record Zone : Type 0 where
  pub state : ControllerState
  pub enabled : Bool
  pub session : Option SessionContext
  pub active_fault : Option FaultCode
  pub secondary_fault : Option FaultCode
  pub last_session_end : Option ℕ
  pub last_auto_session_start : Option ℕ
  pub external_on : Bool
  pub armed_watchdog : Option WatchdogToken
  pub on_requested : Bool
  pub off_requested : Bool
  pub persist_failed : Bool

-- What `_build_input` reads from the clock, the adapters, the configuration and the slot manager.
pub record Surroundings : Type 0 where
  pub now_utc : ℕ
  pub config : ZoneConfig
  pub observation : MoistureObservation
  pub daily_runtime_s : ℕ
  pub actuator : ActuatorAssessment
  pub resource : ResourceAssessment
  pub identity : SessionIdentity

unfoldable pub build_input : Zone → Surroundings → ControllerEvent → TransitionInput
build_input z w event = record {
  now_utc = w.now_utc;
  config = w.config;
  state = z.state;
  enabled = z.enabled;
  session = z.session;
  active_fault = z.active_fault;
  secondary_fault = z.secondary_fault;
  observation = w.observation;
  daily_runtime_s = w.daily_runtime_s;
  last_session_end_utc = z.last_session_end;
  actuator = w.actuator;
  resource = w.resource;
  armed_watchdog = z.armed_watchdog;
  event = event;
  external_on = z.external_on;
  new_session_identity = some w.identity;
}

-- `x if x is not None else y`
abbrev pub or_else {ℓ} : {A : Type ℓ} → Option A → Option A → Option A
or_else none y = y
or_else (some x) y = some x

abbrev pub state_after : ControllerState → Decision → ControllerState
state_after state d = elim d.new_state [ none ↦ state | some s ↦ s ]

abbrev pub session_after : Option SessionContext → Decision → Option SessionContext
session_after session d = if d.clear_session then none else or_else d.session session

abbrev pub fault_after : Option FaultCode → Decision → Option FaultCode
fault_after fault d = if d.clear_fault then none else or_else d.fault fault

-- `_last_auto_session_start` moves when an AUTO session is created.
abbrev created_at : Option SessionContext → Option SessionContext → Option ℕ
created_at none (some s) = if is_auto s.mode then some s.started_at_utc else none
created_at _ _ = none

-- When the closed session ended, and its summary's reason must be there.
unfoldable pub session_end : TransitionInput → Decision → Result (Option ℕ)
session_end inp d = ended_at (if d.clear_session then d.final_session else none)
  where
    ended_at : Option SessionContext → Result (Option ℕ)
    ended_at none = ok none
    ended_at (some closed) = or_raise d.reason assertion_error >>= λ reason.
        ok (or_else closed.off_confirmed_at_utc (some inp.now_utc))

-- The assignments of `_apply_locked` above the actions.
unfoldable pub apply_fields : Zone → Decision → Option ℕ → Zone
apply_fields z d ended = record z {
  state = state_after z.state d;
  session = session_after z.session d;
  active_fault = fault_after z.active_fault d;
  secondary_fault = or_else d.secondary_fault z.secondary_fault;
  last_session_end = or_else ended z.last_session_end;
  last_auto_session_start = or_else (created_at z.session d.session) z.last_auto_session_start;
}

-- `_apply_action_locked`, on the fields of the zone.
unfoldable pub apply_action : Zone → Action → Zone
apply_action z Action.turn_on = record z { on_requested = true }
apply_action z (Action.execute_off _) = record z { off_requested = true }
apply_action z (Action.arm_watchdog token) = record z { armed_watchdog = some token }
apply_action z (Action.set_external_on value) = record z { external_on = value }
apply_action z _ = z

abbrev commit_fault : Option SessionContext → Option SessionContext
commit_fault none = none
commit_fault (some s) =
    if is_some s.pending_termination_reason
    then some s
    else some (record s { pending_termination_reason = some CompletionReason.actuator_fault })

-- `_handle_persist_failure_locked`: a failed safety write never authorizes watering.
unfoldable pub persist_failure : Zone → ActuatorAssessment → Zone
persist_failure z assessment = record z {
  persist_failed = true;
  on_requested = false;
  session = commit_fault z.session;
  active_fault = some FaultCode.restored_from_unsafe_state;
  state = ControllerState.fault;
  off_requested = if assessment.proven_off then z.off_requested else true;
}

-- What a call leaves of the zone, and the error that it raises, if any.
pub record Applied : Type 0 where
  pub zone : Zone
  pub error : Option Error

abbrev pub returned : Zone → Applied
returned z = record { zone = z; error = none }

abbrev pub raising : Zone → Error → Applied
raising z e = record { zone = z; error = some e }

abbrev pub is_unverified : Error → Bool
is_unverified Error.store_write_verification = true
is_unverified _ = false

-- The actions that await a persist or a write of a blocker.
abbrev pub awaits_write : Action → Bool
awaits_write (Action.persist_state _) = true
awaits_write (Action.add_blocker _) = true
awaits_write (Action.remove_blocker _) = true
awaits_write _ = false

-- What the awaited call of an action raises, as `awaited` tells.
abbrev pub error_of : (Action → Option Error) → Action → Option Error
error_of awaited a = if awaits_write a then awaited a else none

-- `except StoreWriteVerificationError`: the rest is skipped. Any other error leaves `_apply_locked`.
abbrev pub on_error : Zone → ActuatorAssessment → Error → Applied
on_error z assessment e =
    if is_unverified e then returned (persist_failure z assessment) else raising z e

abbrev pub after_action : Zone → ActuatorAssessment → Applied → Option Error → Applied
after_action z assessment rest none = rest
after_action z assessment rest (some e) = on_error z assessment e

-- The loop over the actions; `awaited a` is the error that the awaited call of `a` raises.
unfoldable pub apply_actions :
    Zone → ActuatorAssessment → (Action → Option Error) → List Action → Applied
unfolding apply_action persist_failure
apply_actions z assessment awaited [] = returned z
apply_actions z assessment awaited (a ∷ actions) =
    let rest = apply_actions (apply_action z a) assessment awaited actions in
    after_action z assessment rest (error_of awaited a)

-- The rest of `_apply_locked`, after the end of a closed session has been taken down or has raised.
unfoldable pub after_end :
    Zone → ActuatorAssessment → (Action → Option Error) → Decision → Result (Option ℕ) → Applied
unfolding apply_fields apply_actions
after_end z assessment awaited d (ok ended) =
    apply_actions (apply_fields z d ended) assessment awaited d.actions
after_end z assessment awaited d (raised e) = raising (apply_fields z d none) e

unfoldable pub apply_decision :
    Zone → TransitionInput → (Action → Option Error) → Decision → Applied
unfolding session_end after_end
apply_decision z inp awaited d =
    if d.no_op then returned z else after_end z inp.actuator awaited d (session_end inp d)

unfoldable pub after_decide :
    Zone → TransitionInput → (Action → Option Error) → Result Decision → Applied
unfolding apply_decision
after_decide z inp awaited (ok d) = apply_decision z inp awaited d
after_decide z inp awaited (raised e) = raising z e

-- `_decide_and_apply_locked`.
unfoldable pub dispatch : Zone → Surroundings → (Action → Option Error) → ControllerEvent → Applied
unfolding build_input after_decide
dispatch z w awaited event =
    let inp = build_input z w event in after_decide z inp awaited (decide inp)

-- `async_set_enabled` records the switch before it dispatches.
unfoldable pub set_enabled : Zone → Surroundings → (Action → Option Error) → Bool → Applied
unfolding dispatch
set_enabled z w awaited enabled =
    dispatch (record z { enabled = enabled }) w awaited
      (if enabled then ControllerEvent.enable_requested else ControllerEvent.disable_requested)

abbrev pub command_anchor : ℕ → Option SessionContext → String → Option SessionContext
command_anchor at none session_id = none
command_anchor at (some s) session_id =
    if str_eq s.session_id session_id && not (is_some s.pulse_commanded_at_utc)
    then some (record s { pulse_commanded_at_utc = some at })
    else some s

-- `_record_possible_command_in_memory`, for the marker of a dispatched ON.
unfoldable pub record_possible_command : Zone → String → ℕ → Zone
record_possible_command z session_id dispatched_at_utc = record z {
  session = command_anchor dispatched_at_utc z.session session_id;
}

-- The session task takes a request, ON before OFF.
unfoldable pub take_request : Zone → Zone
take_request z =
    if z.on_requested then record z { on_requested = false } else record z { off_requested = false }
