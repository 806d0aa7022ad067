-- ===== src/Slots/Preserved.antt =====
-- slot_manager.py: the operations and the invariant of the slot.
use text.Mathlib.TextEquality.{eq_iff}
use moisture_loop.Base.{
  ℕ, ◌≡◌, refl, Bool, true, false, Option, none, some, List, String, arith, Bool-cases, inl, inr,
  subst, sym, ap, ◌∙◌,
}
use moisture_loop.Slots.{
  SlotManager, BlockerKey, Write, init, insert_blocker, or_unchanged, add_blocker, drop_blocker,
  remove_blocker, finish_write, enable_grants, disable_grants, close_admission_now,
  set_reconciliation, owns, is_queued, appended, request, without, cancel_request, release,
  requeue_tail, cancel_future, Op, run_op, Reach, dropped, reconciled, SlotRequest,
}
use moisture_loop.Slots.Invariant.{Inv, Queued, OwnerFree, try_grant-Inv}
use moisture_loop.Slots.Places.{
  is_empty-insert_key, is_queued-append, str_eq_sym, OnePlace-append, InOrder-append,
  is_queued-without, OnePlace-without, InOrder-without, is_queued-cancel_future,
  OnePlace-cancel_future, InOrder-cancel_future,
}

Inv-Queued : (m : SlotManager) → Inv m → Queued m
Inv-Queued m i = record {
  one_place = i.one_place;
  owner_free = i.owner_free;
  in_order = i.in_order;
}

add_blocker-Inv :
    (stored : Bool) (m : SlotManager) (k : BlockerKey)
    → Inv m
    → Inv (or_unchanged m (add_blocker stored m k))
unfolding add_blocker insert_blocker
add_blocker-Inv stored m k i = ground (arith, is_empty-insert_key k m.blockers)

drop_blocker-Inv : (m : SlotManager) (k : BlockerKey) → Inv m → Inv (drop_blocker m k)
unfolding drop_blocker
drop_blocker-Inv m k i =
    try_grant-Inv (dropped m k)
      record { one_place = i.one_place; owner_free = i.owner_free; in_order = i.in_order }

remove_blocker-Inv :
    (stored : Bool) (m : SlotManager) (k : BlockerKey) → Inv m → Inv (remove_blocker stored m k)
unfolding remove_blocker
remove_blocker-Inv stored m k i = ground (arith, drop_blocker-Inv m k)

finish_write-Inv :
    (m : SlotManager) (w : Option Write) (verified : Bool) → Inv m → Inv (finish_write m w verified)
unfolding finish_write
finish_write-Inv m none verified i = i
finish_write-Inv m (some w) false i = ground arith
finish_write-Inv m (some (Write.adding k)) true i = ground arith
finish_write-Inv m (some (Write.removing k)) true i = drop_blocker-Inv m k i

enable_grants-Inv : (m : SlotManager) → Inv m → Inv (enable_grants m)
unfolding enable_grants
enable_grants-Inv m i =
    try_grant-Inv (record m { grants_enabled = true })
      record { one_place = i.one_place; owner_free = i.owner_free; in_order = i.in_order }

disable_grants-Inv : (m : SlotManager) → Inv m → Inv (disable_grants m)
unfolding disable_grants
disable_grants-Inv m i = ground arith

close_admission_now-Inv : (m : SlotManager) → Inv m → Inv (close_admission_now m)
unfolding close_admission_now
close_admission_now-Inv m i = ground arith

set_reconciliation-Inv :
    (m : SlotManager) (dirty reconciling failed : Option Bool)
    → Inv m
    → Inv (set_reconciliation m dirty reconciling failed)
unfolding set_reconciliation
set_reconciliation-Inv m dirty reconciling failed i =
    try_grant-Inv (reconciled m dirty reconciling failed)
      record { one_place = i.one_place; owner_free = i.owner_free; in_order = i.in_order }

-- A zone that neither owns the slot nor waits for it can wait at the tail.
appended-Queued :
    (m : SlotManager) (z : String)
    → Queued m
    → owns m.owner z ≡ false
    → is_queued z m.queue ≡ false
    → Queued (appended m z)
appended-Queued m z q free new = record {
  one_place = OnePlace-append m.queue _ q.one_place new;
  owner_free = owner_free_after m.owner q.owner_free free;
  in_order = InOrder-append m.next_handle m.queue _ q.in_order refl;
}
  where
    owner_free_after :
        (o : Option String)
        → OwnerFree o m.queue
        → owns o z ≡ false
        → OwnerFree o (appended m z).queue
    owner_free_after none h e = tt
    owner_free_after (some y) h e = is_queued-append y m.queue _ h (str_eq_sym y z e)

request-Inv : (m : SlotManager) (z : String) → Inv m → Inv (request m z)
unfolding request
request-Inv m z i =
    ground (arith, try_grant-Inv (appended m z), appended-Queued m z (Inv-Queued m i))

cancel_request-Inv : (m : SlotManager) (z : String) → Inv m → Inv (cancel_request m z)
unfolding cancel_request without
cancel_request-Inv m z i = record {
  quiet = λ h. ap (without z) (i.quiet h);
  one_place = OnePlace-without z m.queue i.one_place;
  owner_free = owner_free_after m.owner i.owner_free;
  in_order = InOrder-without m.next_handle z m.queue i.in_order;
}
  where
    owner_free_after : (o : Option String) → OwnerFree o m.queue → OwnerFree o (without z m.queue)
    owner_free_after none h = tt
    owner_free_after (some y) h = is_queued-without y z m.queue h

release-Inv : (m : SlotManager) (z : String) → Inv m → Inv (release m z)
unfolding release
release-Inv m z i = ground (arith, try_grant-Inv (record m { owner = none }))

-- The owner's zone is not queued, so it can be put at the tail.
owner_not_queued :
    (o : Option String) (z : String) (queue : List SlotRequest)
    → OwnerFree o queue
    → owns o z ≡ true
    → is_queued z queue ≡ false
owner_not_queued none z queue h e = ground arith
owner_not_queued (some y) z queue h e = subst (λ x. is_queued x queue ≡ false) ((eq_iff y z).0 e) h

requeue_tail-Inv : (m : SlotManager) (z : String) → Inv m → Inv (requeue_tail m z)
unfolding requeue_tail
requeue_tail-Inv m z i = elim (Bool-cases (owns m.owner z)) [
  | inl e ↦ ground (
    arith,
    e,
    try_grant-Inv (appended (record m { owner = none }) z) (
        appended-Queued (record m { owner = none }) z
          record { one_place = i.one_place; owner_free = tt; in_order = i.in_order } refl
          (owner_not_queued m.owner z m.queue i.owner_free e)),
  )
  | inr e ↦ ground (arith, e)
]

cancel_future-Inv :
    (m : SlotManager) (h : ℕ) → Inv m → Inv (record m { queue = cancel_future h m.queue })
unfolding cancel_future
cancel_future-Inv m h i = record {
  quiet = λ e. ap (cancel_future h) (i.quiet e);
  one_place = OnePlace-cancel_future h m.queue i.one_place;
  owner_free = owner_free_after m.owner i.owner_free;
  in_order = InOrder-cancel_future m.next_handle h m.queue i.in_order;
}
  where
    owner_free_after :
        (o : Option String) → OwnerFree o m.queue → OwnerFree o (cancel_future h m.queue)
    owner_free_after none e = tt
    owner_free_after (some y) e = is_queued-cancel_future y h m.queue ∙ e

run_op-Inv : (m : SlotManager) (op : Op) → Inv m → Inv (run_op m op)
unfolding run_op
run_op-Inv m (Op.add_blockers stored k) i = add_blocker-Inv stored m k i
run_op-Inv m (Op.remove_blockers stored k) i = remove_blocker-Inv stored m k i
run_op-Inv m (Op.finish_writes verified) i = finish_write-Inv m m.writing verified i
run_op-Inv m Op.enables i = enable_grants-Inv m i
run_op-Inv m Op.disables i = disable_grants-Inv m i
run_op-Inv m Op.closes i = close_admission_now-Inv m i
run_op-Inv m (Op.reconciles dirty reconciling failed) i =
    set_reconciliation-Inv m dirty reconciling failed i
run_op-Inv m (Op.reconciles_now dirty reconciling failed) i =
    set_reconciliation-Inv m dirty reconciling failed i
run_op-Inv m (Op.requests z) i = request-Inv m z i
run_op-Inv m (Op.cancels z) i = cancel_request-Inv m z i
run_op-Inv m (Op.releases z) i = release-Inv m z i
run_op-Inv m (Op.requeues z) i = requeue_tail-Inv m z i
run_op-Inv m (Op.drops h) i = cancel_future-Inv m h i

init-Inv : Inv init
unfolding init
init-Inv = ground arith

-- A manager that is made and then runs any operations that can run, one after the other, never
-- misses a grant: whenever grants are open, no blocker stands and nobody owns the slot, nobody
-- waits. No zone waits twice or while it owns the slot, and the queue is in the order of requests.
pub Reach-Inv : (m : SlotManager) → Reach m → Inv m
Reach-Inv m Reach.made = init-Inv
Reach-Inv m (Reach.ran {before} {after} op r can e) =
    subst Inv (sym e) (run_op-Inv before op (Reach-Inv before r))
