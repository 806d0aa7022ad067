-- ===== src/Slots.antt =====
-- slot_manager.py: the global watering slot. A coroutine that awaits a blocker write holds the
-- lock, so it is two steps, with the write under way in the state; the methods without a lock can
-- run between the two. A future is pending, granted or cancelled; a granted request has left the
-- queue and stands in `offered`, newest first. The blocker listener is not modelled.
pub mod Invariant
pub mod Places
pub mod Preserved
pub mod Order
use text.Mathlib.Text.{◌==◌ as str_eq}
use moisture_loop.Base.{
  ℕ, suc, ◌+◌, ◌≡◌, Bool, true, false, ◌&&◌, ◌||◌, not, Option, none, some, List, [], ◌∷◌, ◌++◌,
  any, is_some, is_empty, String, if◌then◌else◌, ◌==◌, Result, ok, raised, value_error,
}
use moisture_loop.Model.Enums.{BlockerReason}

pub data FutureState : Type 0 where
  pending cancelled : FutureState

pub record SlotRequest : Type 0 where
  pub handle : ℕ
  pub zone_id : String
  pub granted : FutureState

pub record BlockerKey : Type 0 where
  pub safety_record_id : String
  pub reason : BlockerReason

pub record ReconciliationBarrier : Type 0 where
  pub dirty : Bool
  pub reconciling : Bool
  pub failed : Bool

abbrev pub clear : ReconciliationBarrier → Bool
clear b = not (b.dirty || (b.reconciling || b.failed))

-- The blocker write that the lock's holder awaits.
pub data Write : Type 0 where
  adding removing : BlockerKey → Write

pub record SlotManager : Type 0 where
  pub owner : Option String
  pub queue : List SlotRequest
  pub blockers : List BlockerKey
  pub unpersisted_blockers : List BlockerKey
  pub grants_enabled : Bool
  pub reconciliation : ReconciliationBarrier
  pub writing : Option Write
  pub next_handle : ℕ
  pub offered : List SlotRequest

abbrev pub reason_eq : BlockerReason → BlockerReason → Bool
reason_eq BlockerReason.external_flow BlockerReason.external_flow = true
reason_eq BlockerReason.integration_off_unconfirmed BlockerReason.integration_off_unconfirmed = true
reason_eq BlockerReason.actuator_not_proven_off BlockerReason.actuator_not_proven_off = true
reason_eq _ _ = false

abbrev pub key_eq : BlockerKey → BlockerKey → Bool
key_eq a b = str_eq a.safety_record_id b.safety_record_id && reason_eq a.reason b.reason

-- A set of keys as a list: `in`, `add` and `discard`.
abbrev pub has_key : BlockerKey → List BlockerKey → Bool
has_key k keys = any (key_eq k) keys

abbrev pub insert_key : BlockerKey → List BlockerKey → List BlockerKey
insert_key k keys = if has_key k keys then keys else k ∷ keys

unfoldable pub discard_key : BlockerKey → List BlockerKey → List BlockerKey
discard_key k [] = []
discard_key k (x ∷ keys) = if key_eq k x then discard_key k keys else x ∷ discard_key k keys

unfoldable pub init : SlotManager
init = record {
  owner = none;
  queue = [];
  blockers = [];
  unpersisted_blockers = [];
  grants_enabled = false;
  reconciliation = record { dirty = false; reconciling = false; failed = false };
  writing = none;
  next_handle = 0;
  offered = [];
}

abbrev pub admission_open : SlotManager → Bool
admission_open m = m.grants_enabled && clear m.reconciliation

-- The early returns of `_try_grant_locked`.
abbrev pub may_grant : SlotManager → Bool
may_grant m = admission_open m && (not (is_some m.owner) && is_empty m.blockers)

abbrev pub is_cancelled : FutureState → Bool
is_cancelled FutureState.cancelled = true
is_cancelled FutureState.pending = false

-- The loop of `_try_grant_locked` over the queue.
unfoldable pub offer : SlotManager → List SlotRequest → SlotManager
offer m [] = record m { queue = [] }
offer m (r ∷ queue) =
    let rest = offer m queue in
    if is_cancelled r.granted
    then rest
    else record m { owner = some r.zone_id; queue = queue; offered = r ∷ m.offered }

unfoldable pub try_grant : SlotManager → SlotManager
unfolding offer
try_grant m = if may_grant m then offer m m.queue else m

-- `async_add_blocker` under the lock, up to its write; without a store it is done at once.
unfoldable pub insert_blocker : Bool → SlotManager → BlockerKey → SlotManager
insert_blocker stored m k =
    if has_key k m.blockers && not (has_key k m.unpersisted_blockers)
    then m
    else if stored
    then record m {
      blockers = insert_key k m.blockers;
      unpersisted_blockers = insert_key k m.unpersisted_blockers;
      writing = some (Write.adding k);
    }
    else record m { blockers = insert_key k m.blockers }

-- `async_add_blocker` refuses the empty id before it takes the lock.
unfoldable pub add_blocker : Bool → SlotManager → BlockerKey → Result SlotManager
unfolding insert_blocker
add_blocker stored m k =
    if str_eq k.safety_record_id "" then raised value_error else ok (insert_blocker stored m k)

-- A call that raises has changed nothing.
abbrev pub or_unchanged : SlotManager → Result SlotManager → SlotManager
or_unchanged m (ok next) = next
or_unchanged m (raised e) = m

-- The key is gone from both sets, and no write is under way.
abbrev pub dropped : SlotManager → BlockerKey → SlotManager
dropped m k = record m {
  blockers = discard_key k m.blockers;
  unpersisted_blockers = discard_key k m.unpersisted_blockers;
  writing = none;
}

unfoldable pub drop_blocker : SlotManager → BlockerKey → SlotManager
unfolding discard_key try_grant
drop_blocker m k = try_grant (dropped m k)

-- `async_remove_blocker` up to its write.
unfoldable pub remove_blocker : Bool → SlotManager → BlockerKey → SlotManager
unfolding drop_blocker
remove_blocker stored m k =
    if has_key k m.blockers
    then (if stored then record m { writing = some (Write.removing k) } else drop_blocker m k)
    else m

-- The rest of the two coroutines, after the write has been verified or has raised.
unfoldable pub finish_write : SlotManager → Option Write → Bool → SlotManager
unfolding discard_key drop_blocker
finish_write m none verified = m
finish_write m (some w) false = record m { writing = none }
finish_write m (some (Write.adding k)) true = record m {
  unpersisted_blockers = discard_key k m.unpersisted_blockers;
  writing = none;
}
finish_write m (some (Write.removing k)) true = drop_blocker m k

unfoldable pub enable_grants : SlotManager → SlotManager
unfolding try_grant
enable_grants m = try_grant (record m { grants_enabled = true })

unfoldable pub disable_grants : SlotManager → SlotManager
disable_grants m = record m { grants_enabled = false }

unfoldable pub close_admission_now : SlotManager → SlotManager
close_admission_now m = record m { grants_enabled = false; queue = [] }

-- `current if value is None else value`
abbrev given : Option Bool → Bool → Bool
given none current = current
given (some value) current = value

abbrev pub reconciled : SlotManager → Option Bool → Option Bool → Option Bool → SlotManager
reconciled m dirty reconciling failed = record m {
  reconciliation = record {
    dirty = given dirty m.reconciliation.dirty;
    reconciling = given reconciling m.reconciliation.reconciling;
    failed = given failed m.reconciliation.failed;
  };
}

-- `async_set_reconciliation_barrier` and `set_reconciliation_state_now`, whose bodies agree.
unfoldable pub set_reconciliation :
    SlotManager → Option Bool → Option Bool → Option Bool → SlotManager
unfolding try_grant
set_reconciliation m dirty reconciling failed = try_grant (reconciled m dirty reconciling failed)

abbrev pub owns : Option String → String → Bool
owns none z = false
owns (some owner) z = str_eq owner z

-- Whether a request for the zone is queued already.
abbrev pub is_queued : String → List SlotRequest → Bool
is_queued z queue = any (λ r. str_eq r.zone_id z) queue

-- A new request at the tail.
abbrev pub appended : SlotManager → String → SlotManager
appended m z = record m {
  queue =
      m.queue ++ record { handle = m.next_handle; zone_id = z; granted = FutureState.pending } ∷ [];
  next_handle = suc m.next_handle;
}

unfoldable pub request : SlotManager → String → SlotManager
unfolding try_grant
request m z = if owns m.owner z || is_queued z m.queue then m else try_grant (appended m z)

unfoldable pub without : String → List SlotRequest → List SlotRequest
without z [] = []
without z (r ∷ queue) = if str_eq r.zone_id z then without z queue else r ∷ without z queue

unfoldable pub cancel_request : SlotManager → String → SlotManager
unfolding without
cancel_request m z = record m { queue = without z m.queue }

unfoldable pub release : SlotManager → String → SlotManager
unfolding try_grant
release m z = if owns m.owner z then try_grant (record m { owner = none }) else m

unfoldable pub requeue_tail : SlotManager → String → SlotManager
unfolding try_grant
requeue_tail m z = if owns m.owner z then try_grant (appended (record m { owner = none }) z) else m

-- The awaiting task of a queued request is cancelled, and its future with it.
unfoldable pub cancel_future : ℕ → List SlotRequest → List SlotRequest
cancel_future h [] = []
cancel_future h (r ∷ queue) =
    (if r.handle == h then record r { granted = FutureState.cancelled } else r)
    ∷ cancel_future h queue

pub data Op : Type 0 where
  add_blockers remove_blockers : Bool → BlockerKey → Op
  finish_writes : Bool → Op
  enables disables closes : Op
  reconciles reconciles_now : Option Bool → Option Bool → Option Bool → Op
  requests cancels releases requeues : String → Op
  drops : ℕ → Op

-- Whether an operation can run now: those that take the lock wait for a write under way.
abbrev pub can_run : Op → SlotManager → Bool
can_run (Op.finish_writes _) m = is_some m.writing
can_run Op.closes m = true
can_run (Op.reconciles_now _ _ _) m = true
can_run (Op.drops _) m = true
can_run _ m = not (is_some m.writing)

unfoldable pub run_op : SlotManager → Op → SlotManager
unfolding add_blocker remove_blocker finish_write enable_grants disable_grants close_admission_now
    set_reconciliation request cancel_request release requeue_tail cancel_future
run_op m (Op.add_blockers stored k) = or_unchanged m (add_blocker stored m k)
run_op m (Op.remove_blockers stored k) = remove_blocker stored m k
run_op m (Op.finish_writes verified) = finish_write m m.writing verified
run_op m Op.enables = enable_grants m
run_op m Op.disables = disable_grants m
run_op m Op.closes = close_admission_now m
run_op m (Op.reconciles dirty reconciling failed) = set_reconciliation m dirty reconciling failed
run_op m (Op.reconciles_now dirty reconciling failed) =
    set_reconciliation m dirty reconciling failed
run_op m (Op.requests z) = request m z
run_op m (Op.cancels z) = cancel_request m z
run_op m (Op.releases z) = release m z
run_op m (Op.requeues z) = requeue_tail m z
run_op m (Op.drops h) = record m { queue = cancel_future h m.queue }

-- The managers that operations make of the initial one, each run when it can.
pub data Reach : SlotManager → Type 0 where
  made : Reach init
  ran :
      {before after : SlotManager} (op : Op)
      → Reach before
      → can_run op before ≡ true
      → after ≡ run_op before op
      → Reach after
