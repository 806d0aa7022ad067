-- ===== src/Lib.antt =====
-- MoistureLoop: closed-loop watering of zones by moisture sensors, a custom component of Home
-- Assistant (custom_components/moisture_loop).
--
-- The program keeps its decisions apart from its effects. For each zone a controller builds a
-- snapshot of what it knows, hands it with one event to the pure function `decide`, assigns the
-- fields of the decision and executes its actions in order. A slot manager shared by the zones
-- lets one zone water at a time and keeps it from watering while any blocker stands.
--
--   Model    models.py: the enumerations with the fault matrix (Enums), observations, tokens and
--            the configuration (Observation), the session context (Session), events and actions
--            (Event), transition inputs and decisions (Decision).
--   Machine  state_machine.py. A handler `_decide_x` is `x_on` by the event; Guards, Auto, Manual,
--            Idle, Watering, Soaking, Fault and Finalize hold the functions of the source under
--            its names, and Decide the dispatch. Rule is the induction over the dispatch that the
--            other children use, one per property.
--   Zone     zone_controller.py: the fields of `ZoneController`, `_build_input`, `_apply_locked`,
--            `_apply_action_locked`, `_handle_persist_failure_locked`, `async_set_enabled` and
--            `_record_possible_command_in_memory`. Coherent says what holds of a zone between
--            two events, Total and Reach are about it, Stranded about a fault that is
--            acknowledged with a session open, Applying about what an application of a decision keeps.
--            Gate is `final_on_guard_failures`, with what
--            starts and what terminates a session asked of it.
--   Slots    slot_manager.py: `SlotManager`. Invariant, Places, Preserved and Order hold proofs.
--   Config   models.py: `ZoneConfig.validation_errors`; Settings is `NormalizedZoneSettings`.
--   Accounting  models.py: contributions, daily runtimes, their deduplication and conservative merge.
--   Records  models.py: what the safety store holds, with the tests of the `__post_init__` methods:
--            Identity, History, Safety, and the snapshot with `validate_store_data` in Data. Continuity
--            is `merge_zone_history_continuity`, Replace a record put in the place of another.
--   Store    storage.py. An operation is a plan from the last verified snapshot, which `run` carries
--            out: it writes, reads back and adopts. Runs, Blockers, Acknowledge, Controller and Handoff
--            hold the operations, Faults the partition of faults, Setup the classification of a
--            start, Reconstruct the state after an integrity loss. Calls joins the operations to one
--            type of calls; Atomic, Next, Reach, Blocking, Acknowledged, Scope, Startup and Integrity
--            are about them.
--   Runtime  runtime.py: the final authority over an ON command, with the snapshots and bindings of
--            reconciliation.py. Checks holds its predicates, Gate the evaluation and its tokens. It
--            asks the guards of Zone.Gate, the slot manager, and the records of the store. Authority,
--            Dispatch and Recheck are about it.
--   Detect   models.py: `assess_reading_plausibility`, the detector of implausible drops.
--   Base     shared notation, Boolean tests, lists, and calls that raise.
--   Tests    the theorems at concrete inputs.
--
-- Representation. Times are microseconds since an epoch before all of them, floats are numbers of
-- millionths, and both are exact: the rounding of floating point is not modelled. A requested
-- duration is a finite number, negative or not, or not finite. What raises in the source (ValueError, a
-- failed assertion, a missing key) is a `Result`. An identifier is a string. No definition needs
-- fuel: the recursions are on lists.
--
-- Interfaces. A write of the store is an argument: whether the save raises, and what a fresh Store
-- loads. The encoding of a snapshot is the interface `Codec` of Store. The parsers of the older
-- schemas, the conversion of the zones of schema 1 and the migration of schema 2 are the interface
-- `Migrations` of Store.Setup, which has no laws. `uuid.uuid5` is a parameter of Store.Reconstruct.
-- The `==` that a dataclass has on whole histories and configuration shadows is a parameter where it is
-- used.
--
-- Assumptions. The error that the awaited call of an action raises is an argument, `awaited`: a failed
-- verification is handled as in `_apply_locked`, and any other error leaves it. What the
-- dispatching code sends is `EventOk` of Zone.Coherent: valid readings, a run id with a trusted
-- soak, no acknowledgement while a session is open, and neither `StoreIntegrityLost` nor a
-- `ConfigurationInvalid` at setup, which the component does not dispatch. No code checks the
-- third, and Stranded is about a zone where it fails.
--
-- Not modelled: timers, listeners and tasks of Home Assistant, the daily counter and summaries,
-- the ON and OFF commands, the conversion of the records of old schemas and the JSON encoding, the
-- coordinator of reconciliation.py, the lifecycle of runtime.py, the configuration flow,
-- repairs, diagnostics, services and entities, which are Home Assistant orchestration or output.
pub mod Base
pub mod Model
pub mod Machine
pub mod Zone
pub mod Slots
pub mod Detect
pub mod Config
pub mod Accounting
pub mod Records
pub mod Tests
pub mod Store
pub mod Runtime
