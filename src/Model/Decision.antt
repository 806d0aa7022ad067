-- ===== src/Model/Decision.antt =====
-- The transition input and the decision of models.py.
use moisture_loop.Base.{ℕ, Bool, false, Option, none, some, List}
use moisture_loop.Model.Enums.{ControllerState, CompletionReason, FaultCode}
use moisture_loop.Model.Observation.{MoistureObservation, WatchdogToken, ZoneConfig}
use moisture_loop.Model.Session.{SessionContext, SessionIdentity}
use moisture_loop.Model.Event.{ControllerEvent, Action}

pub record ActuatorAssessment : Type 0 where
  pub available : Bool
  pub proven_off : Bool
  pub observed_on : Bool

pub record ResourceAssessment : Type 0 where
  pub slot_granted : Bool
  pub blockers_empty : Bool

-- The guard names of a `GuardResult`; the suffixes of G-MANUAL-SAFE are names of their own.
pub data Guard : Type 0 where
  enabled fresh start post actuator slot daily_fit interval manual_sensor : Guard
  invalid_duration active_session daily_exhausted water_resource_occupied : Guard
  fault_requires_reconfigure fault_condition_unresolved : Guard

pub record GuardResult : Type 0 where
  pub passed : Bool
  pub failed_guards : List Guard

pub record TransitionInput : Type 0 where
  pub now_utc : ℕ
  pub config : ZoneConfig
  pub state : ControllerState
  pub enabled : Bool
  pub session : Option SessionContext
  pub active_fault : Option FaultCode
  pub secondary_fault : Option FaultCode
  pub observation : MoistureObservation
  pub daily_runtime_s : ℕ
  pub last_session_end_utc : Option ℕ
  pub actuator : ActuatorAssessment
  pub resource : ResourceAssessment
  pub armed_watchdog : Option WatchdogToken
  pub event : ControllerEvent
  pub external_on : Bool
  pub new_session_identity : Option SessionIdentity

-- The rows of the transition table that a decision can name.
pub data Row : Type 0 where
  t1 t2 t3 t4 t5 t6 t7 t8 t9 t10 t11 t12 t13 t14 t15 t16 t17 t18 t19 t20 t21 t22 t23 t24 t25 t26 t27
        t28 t29 t30 t31 t32 t33 t34 t35 t36 t37 t38 t39 t40 t41 t42 t43 t44 t45 t46 t47 t48 t49 t50
        t51 t52 t53 t54 t55 t56 t57 t58 t59 :
      Row

pub record Decision : Type 0 where
  pub transition_id : Option Row
  pub new_state : Option ControllerState
  pub actions : List Action
  pub reason : Option CompletionReason
  pub fault : Option FaultCode
  pub secondary_fault : Option FaultCode
  pub clear_fault : Bool
  pub session : Option SessionContext
  pub clear_session : Bool
  pub final_session : Option SessionContext
  pub guard_result : Option GuardResult
  pub no_op : Bool

-- `Decision(transition_id, new_state, actions)` with the defaults of the other fields.
abbrev pub decision : Option Row → Option ControllerState → List Action → Decision
decision row new_state actions = record {
  transition_id = row;
  new_state = new_state;
  actions = actions;
  reason = none;
  fault = none;
  secondary_fault = none;
  clear_fault = false;
  session = none;
  clear_session = false;
  final_session = none;
  guard_result = none;
  no_op = false;
}

-- A `GuardResult` that lists what failed.
abbrev pub refusal : List Guard → Option GuardResult
refusal failed = some (record { passed = false; failed_guards = failed })
