-- ===== src/Slots/Order.antt =====
-- slot_manager.py: when the slot is granted, and to whom.
use moisture_loop.Base.{
  ℕ, sym, if◌then◌else◌, ◌≡◌, refl, Bool, true, false, Option, none, some, List, [], ◌∷◌, arith,
  ◌⊎◌, inl, inr, ◌||◌, ap, ◌∙◌, suc, String,
}
use moisture_loop.Slots.{
  has_key, may_grant, owns, dropped, reconciled, insert_key, is_queued, appended, SlotManager,
  SlotRequest, BlockerKey, Write, admission_open, is_cancelled, offer, try_grant, insert_blocker,
  or_unchanged, add_blocker, drop_blocker, remove_blocker, finish_write, enable_grants,
  disable_grants, close_admission_now, set_reconciliation, request, cancel_request, release,
  requeue_tail, Op, run_op,
}
use moisture_loop.Slots.Invariant.{Younger, InOrder, Inv}
use moisture_loop.Slots.Places.{InOrder-append}

-- Whether the operation is the owner's own release or requeue.
abbrev pub lets_go : Op → SlotManager → Bool
lets_go (Op.releases z) m = owns m.owner z
lets_go (Op.requeues z) m = owns m.owner z
lets_go _ m = false

-- What a step does to the slot: it grants nothing, and the owner stays unless it lets go, or it
-- grants one request, which then owns the slot that was free or let go.
pub data Granted (gone : Bool) (m m' : SlotManager) : Type 0 where
  kept :
      m'.offered ≡ m.offered
      → (m'.owner ≡ m.owner) ⊎ ((gone ≡ true) × (m'.owner ≡ none))
      → Granted gone m m'
  granted :
      (r : SlotRequest)
      → m'.offered ≡ r ∷ m.offered
      → m'.owner ≡ some r.zone_id
      → (m.owner ≡ none) ⊎ (gone ≡ true)
      → is_cancelled r.granted ≡ false
      → admission_open m' ≡ true
      → m'.blockers ≡ []
      → Younger r.handle m'.queue
      → Granted gone m m'

Granted-if :
    {gone : Bool} {m : SlotManager} (x y : SlotManager) (b : Bool)
    → (b ≡ true → Granted gone m x)
    → (b ≡ false → Granted gone m y)
    → Granted gone m (if b then x else y)
Granted-if x y true if_true if_false = if_true refl
Granted-if x y false if_true if_false = if_false refl

-- An offer from an unowned slot grants the first request that is not cancelled, and every request
-- that stays is younger.
offer-Granted :
    (gone : Bool) (m : SlotManager) (n : ℕ) (queue : List SlotRequest)
    → m.owner ≡ none
    → admission_open m ≡ true
    → m.blockers ≡ []
    → InOrder n queue
    → Granted gone m (offer m queue)
unfolding offer
offer-Granted gone m n [] free is_open clean o = Granted.kept refl (inl refl)
offer-Granted gone m n (r ∷ queue) free is_open clean o =
    Granted-if (offer m queue)
      (record m { owner = some r.zone_id; queue = queue; offered = r ∷ m.offered })
      (is_cancelled r.granted) (λ _. offer-Granted gone m n queue free is_open clean o.2)
      (λ e. Granted.granted r refl refl (inl free) e is_open clean o.1)

may_grant-open :
    (m : SlotManager)
    → may_grant m ≡ true
    → (m.owner ≡ none) × (admission_open m ≡ true) × (m.blockers ≡ [])
may_grant-open m h = ground arith

-- From a manager that differs from `m` in what a step has changed before it tries a grant.
try_grant-Granted :
    (gone : Bool) (m : SlotManager) (n : ℕ) → InOrder n m.queue → Granted gone m (try_grant m)
unfolding try_grant
try_grant-Granted gone m n o =
    Granted-if (offer m m.queue) m (may_grant m)
      (λ e. let h = may_grant-open m e in offer-Granted gone m n m.queue h.0 h.1 h.2 o)
      (λ _. Granted.kept refl (inl refl))

-- What a step changed before it tried the grant has the log of `m`, and its owner or none.
Granted-from :
    (gone : Bool) (m m' m'' : SlotManager)
    → m'.offered ≡ m.offered
    → (m'.owner ≡ m.owner) ⊎ ((gone ≡ true) × (m'.owner ≡ none))
    → Granted gone m' m''
    → Granted gone m m''
Granted-from gone m m' m'' e (inl same) (Granted.kept l (inl o)) =
    Granted.kept (l ∙ e) (inl (o ∙ same))
Granted-from gone m m' m'' e (inl same) (Granted.kept l (inr o)) = Granted.kept (l ∙ e) (inr o)
Granted-from gone m m' m'' e (inr g) (Granted.kept l (inl o)) =
    Granted.kept (l ∙ e) (inr (g.0, o ∙ g.1))
Granted-from gone m m' m'' e (inr g) (Granted.kept l (inr o)) = Granted.kept (l ∙ e) (inr o)
Granted-from gone m m' m'' e (inl same) (Granted.granted r l o (inl free) c a b y) =
    Granted.granted r (l ∙ ap (λ x. r ∷ x) e) o (inl (sym same ∙ free)) c a b y
Granted-from gone m m' m'' e (inl same) (Granted.granted r l o (inr g) c a b y) =
    Granted.granted r (l ∙ ap (λ x. r ∷ x) e) o (inr g) c a b y
Granted-from gone m m' m'' e (inr g) (Granted.granted r l o free c a b y) =
    Granted.granted r (l ∙ ap (λ x. r ∷ x) e) o (inr g.0) c a b y

-- A step that leaves the log and the owner.
same :
    (m m' : SlotManager) (gone : Bool)
    → m'.offered ≡ m.offered
    → m'.owner ≡ m.owner
    → Granted gone m m'
same m m' gone e o = Granted.kept e (inl o)

-- A step that changes neither and then tries a grant.
then_grant :
    (m m' : SlotManager) (n : ℕ)
    → m'.offered ≡ m.offered
    → m'.owner ≡ m.owner
    → InOrder n m'.queue
    → Granted false m (try_grant m')
then_grant m m' n e o q =
    Granted-from false m m' (try_grant m') e (inl o) (try_grant-Granted false m' n q)

drop_blocker-Granted :
    (m : SlotManager) (k : BlockerKey) → Inv m → Granted false m (drop_blocker m k)
unfolding drop_blocker
drop_blocker-Granted m k i = then_grant m (dropped m k) m.next_handle refl refl i.in_order

add_blocker-Granted :
    (stored : Bool) (m : SlotManager) (k : BlockerKey)
    → Granted false m (or_unchanged m (add_blocker stored m k))
unfolding add_blocker insert_blocker
add_blocker-Granted stored m k = ground (
  arith,
  same m m false refl refl,
  same m
      (record m {
        blockers = insert_key k m.blockers;
        unpersisted_blockers = insert_key k m.unpersisted_blockers;
        writing = some (Write.adding k);
      })
      false refl refl,
  same m (record m { blockers = insert_key k m.blockers }) false refl refl,
)

remove_blocker-Granted :
    (stored : Bool) (m : SlotManager) (k : BlockerKey)
    → Inv m
    → Granted false m (remove_blocker stored m k)
unfolding remove_blocker
remove_blocker-Granted stored m k i =
    Granted-if (if stored then record m { writing = some (Write.removing k) } else drop_blocker m k)
      m (has_key k m.blockers)
      (λ _.
        Granted-if (record m { writing = some (Write.removing k) }) (drop_blocker m k) stored
          (λ _. same m _ false refl refl) (λ _. drop_blocker-Granted m k i))
      (λ _. same m m false refl refl)

finish_write-Granted :
    (m : SlotManager) (w : Option Write) (verified : Bool)
    → Inv m
    → Granted false m (finish_write m w verified)
unfolding finish_write
finish_write-Granted m none verified i = same m _ false refl refl
finish_write-Granted m (some w) false i = same m _ false refl refl
finish_write-Granted m (some (Write.adding k)) true i = same m _ false refl refl
finish_write-Granted m (some (Write.removing k)) true i = drop_blocker-Granted m k i

request-Granted : (m : SlotManager) (z : String) → Inv m → Granted false m (request m z)
unfolding request
request-Granted m z i =
    Granted-if m (try_grant (appended m z)) (owns m.owner z || is_queued z m.queue)
      (λ _. same m m false refl refl)
      (λ _.
        then_grant m (appended m z) (suc m.next_handle) refl refl
          (InOrder-append m.next_handle m.queue _ i.in_order refl))

-- A step of the owner, which lets go and then tries a grant.
let_go :
    (gone : Bool) (m m' : SlotManager) (n : ℕ)
    → gone ≡ true
    → m'.offered ≡ m.offered
    → m'.owner ≡ none
    → InOrder n m'.queue
    → Granted gone m (try_grant m')
let_go gone m m' n g e o q =
    Granted-from gone m m' (try_grant m') e (inr (g, o)) (try_grant-Granted gone m' n q)

release-Granted : (m : SlotManager) (z : String) → Inv m → Granted (owns m.owner z) m (release m z)
unfolding release
release-Granted m z i =
    Granted-if (try_grant (record m { owner = none })) m (owns m.owner z)
      (λ e. let_go _ m (record m { owner = none }) m.next_handle e refl refl i.in_order)
      (λ _. same m m _ refl refl)

requeue_tail-Granted :
    (m : SlotManager) (z : String) → Inv m → Granted (owns m.owner z) m (requeue_tail m z)
unfolding requeue_tail
requeue_tail-Granted m z i =
    Granted-if (try_grant (appended (record m { owner = none }) z)) m (owns m.owner z)
      (λ e.
        let_go _ m (appended (record m { owner = none }) z) (suc m.next_handle) e refl refl
          (InOrder-append m.next_handle m.queue _ i.in_order refl))
      (λ _. same m m _ refl refl)

-- Every operation, from a manager with the invariant: either nothing is granted, and the owner stays
-- unless the operation is its own release or requeue; or one request is granted that was not
-- cancelled, to a slot that was free or just let go, with admission open and no blocker of any zone,
-- and every request that still waits is younger.
pub run_op-Granted : (m : SlotManager) (op : Op) → Inv m → Granted (lets_go op m) m (run_op m op)
unfolding run_op enable_grants disable_grants close_admission_now set_reconciliation cancel_request
run_op-Granted m (Op.add_blockers stored k) i = add_blocker-Granted stored m k
run_op-Granted m (Op.remove_blockers stored k) i = remove_blocker-Granted stored m k i
run_op-Granted m (Op.finish_writes verified) i = finish_write-Granted m m.writing verified i
run_op-Granted m Op.enables i =
    then_grant m (record m { grants_enabled = true }) m.next_handle refl refl i.in_order
run_op-Granted m Op.disables i = same m _ false refl refl
run_op-Granted m Op.closes i = same m _ false refl refl
run_op-Granted m (Op.reconciles dirty reconciling failed) i =
    then_grant m (reconciled m dirty reconciling failed) m.next_handle refl refl i.in_order
run_op-Granted m (Op.reconciles_now dirty reconciling failed) i =
    then_grant m (reconciled m dirty reconciling failed) m.next_handle refl refl i.in_order
run_op-Granted m (Op.requests z) i = request-Granted m z i
run_op-Granted m (Op.cancels z) i = same m _ false refl refl
run_op-Granted m (Op.releases z) i = release-Granted m z i
run_op-Granted m (Op.requeues z) i = requeue_tail-Granted m z i
run_op-Granted m (Op.drops h) i = same m _ false refl refl
