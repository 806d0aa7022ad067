-- ===== src/Machine/Table.antt =====
-- The transition table of SPECIFICATION.md, section 14, and its refinement by state_machine.py.
use moisture_loop.Base.{◌≡◌, Bool, true, false, ◌||◌, Option, none, some}
use moisture_loop.Model.Enums.{ControllerState}
use moisture_loop.Model.Decision.{TransitionInput, Decision, Row}

abbrev is_idle : ControllerState → Bool
is_idle ControllerState.idle = true
is_idle _ = false

abbrev is_disabled : ControllerState → Bool
is_disabled ControllerState.disabled = true
is_disabled _ = false

abbrev is_watering : ControllerState → Bool
is_watering ControllerState.watering = true
is_watering _ = false

abbrev is_soaking : ControllerState → Bool
is_soaking ControllerState.soaking = true
is_soaking _ = false

abbrev is_fault : ControllerState → Bool
is_fault ControllerState.fault = true
is_fault _ = false

-- The column of source states.
abbrev pub source : Row → ControllerState → Bool
source Row.t1 s = is_idle s
source Row.t2 s = is_idle s
source Row.t3 s = is_idle s
source Row.t4 s = is_idle s
source Row.t5 s = is_idle s
source Row.t54 s = is_idle s
source Row.t58 s = is_idle s
source Row.t22 s = is_soaking s
source Row.t23 s = is_soaking s
source Row.t24 s = is_soaking s
source Row.t25 s = is_soaking s
source Row.t26 s = is_soaking s
source Row.t27 s = is_soaking s
source Row.t28 s = is_soaking s
source Row.t29 s = is_soaking s
source Row.t30 s = is_soaking s
source Row.t31 s = is_soaking s
source Row.t32 s = is_soaking s
source Row.t33 s = is_soaking s
source Row.t34 s = is_soaking s
source Row.t35 s = is_soaking s
source Row.t36 s = is_soaking s
source Row.t37 s = is_soaking s
source Row.t38 s = is_soaking s
source Row.t39 s = is_soaking s
source Row.t15 s = is_watering s || is_soaking s
source Row.t50 s = is_soaking s
source Row.t51 s = is_soaking s
source Row.t40 s = is_fault s
source Row.t41 s = is_fault s
source Row.t42 s = is_fault s
source Row.t43 s = is_fault s
source Row.t44 s = is_fault s
source Row.t45 s = is_fault s
source Row.t46 s = is_disabled s
source Row.t47 s = is_disabled s
source Row.t55 s = is_disabled s
source Row.t59 s = is_disabled s
source Row.t52 s = true
source Row.t53 s = true
source _ s = is_watering s

-- The one line that the code takes in a state that the table does not list: T5 in FAULT.
abbrev pub beyond_table : Row → ControllerState → Bool
beyond_table Row.t5 s = is_fault s
beyond_table _ s = false

-- POST(retained/new fault): IDLE or FAULT, and DISABLED for a zone that is not enabled.
abbrev is_post : Bool → ControllerState → Bool
is_post true s = is_idle s || is_fault s
is_post false s = is_disabled s

-- FAULT, and DISABLED for a zone that is not enabled.
abbrev is_faulted : Bool → ControllerState → Bool
is_faulted true s = is_fault s
is_faulted false s = is_disabled s

-- IDLE, and DISABLED for a zone that is not enabled.
abbrev is_resting : Bool → ControllerState → Bool
is_resting true s = is_idle s
is_resting false s = is_disabled s

-- The column of destinations, for a zone that is enabled or not: Disable controls the state (section
-- 22.3).
abbrev pub target : Row → Bool → ControllerState → Bool
target Row.t1 enabled s = is_watering s
target Row.t3 enabled s = is_watering s
target Row.t12 enabled s = is_watering s
target Row.t25 enabled s = is_watering s
target Row.t40 enabled s = is_watering s
target Row.t56 enabled s = is_watering s
target Row.t2 enabled s = is_idle s
target Row.t35 enabled s = is_idle s
target Row.t38 enabled s = is_idle s
target Row.t39 enabled s = is_idle s
target Row.t42 enabled s = is_idle s
target Row.t43 enabled s = is_idle s
target Row.t47 enabled s = is_idle s
target Row.t54 enabled s = is_idle s
target Row.t58 enabled s = is_idle s
target Row.t4 enabled s = is_disabled s
target Row.t18 enabled s = is_disabled s
target Row.t36 enabled s = is_disabled s
target Row.t45 enabled s = is_disabled s
target Row.t55 enabled s = is_disabled s
target Row.t59 enabled s = is_disabled s
target Row.t6 enabled s = is_soaking s
target Row.t22 enabled s = is_soaking s
target Row.t23 enabled s = is_soaking s
target Row.t37 enabled s = is_soaking s
target Row.t50 enabled s = is_soaking s
target Row.t7 enabled s = is_resting enabled s
target Row.t9 enabled s = is_resting enabled s
target Row.t24 enabled s = is_resting enabled s
target Row.t26 enabled s = is_resting enabled s
target Row.t27 enabled s = is_resting enabled s
target Row.t28 enabled s = is_resting enabled s
target Row.t33 enabled s = is_resting enabled s
target Row.t8 enabled s = is_faulted enabled s
target Row.t10 enabled s = is_faulted enabled s
target Row.t11 enabled s = is_faulted enabled s
target Row.t13 enabled s = is_faulted enabled s
target Row.t14 enabled s = is_faulted enabled s
target Row.t57 enabled s = is_faulted enabled s
target Row.t16 enabled s = is_post enabled s
target Row.t17 enabled s = is_post enabled s
target Row.t19 enabled s = is_post enabled s
target Row.t20 enabled s = is_post enabled s
target Row.t21 enabled s = is_post enabled s
target Row.t48 enabled s = is_post enabled s
target Row.t51 enabled s = is_fault s || is_resting enabled s
target _ enabled s = is_fault s

abbrev Leads : Row → Bool → Option ControllerState → Type 0
Leads row enabled none = ⊥
Leads row enabled (some s) = target row enabled s ≡ true

-- No row, no change of state.
abbrev Stays : ControllerState → Option ControllerState → Type 0
Stays s none = Unit
Stays s (some t) = t ≡ s

abbrev ByRow : Bool → ControllerState → Option Row → Option ControllerState → Type 0
ByRow enabled s none t = Stays s t
ByRow enabled s (some row) t = ((source row s || beyond_table row s) ≡ true) × Leads row enabled t

-- The decision is a line of the table, or leaves the state alone.
abbrev pub Conforms : TransitionInput → Decision → Type 0
Conforms inp d = ByRow inp.enabled inp.state d.transition_id d.new_state
