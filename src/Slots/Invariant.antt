-- ===== src/Slots/Invariant.antt =====
-- The invariant of slot_manager.py, on its grants and on the places in its queue.
use moisture_loop.Base.{
  ℕ, ◌≡◌, ◌<◌, refl, true, false, Option, none, some, List, [], ◌∷◌, is_some, String, arith, ◌⊎◌,
  inl,
}
use moisture_loop.Slots.{SlotManager, SlotRequest, may_grant, offer, try_grant, is_queued}

-- No two requests of one zone.
abbrev pub OnePlace : List SlotRequest → Type 0
OnePlace [] = Unit
OnePlace (r ∷ queue) = (is_queued r.zone_id queue ≡ false) × OnePlace queue

-- Every request of the list is younger than `h`.
abbrev pub Younger : ℕ → List SlotRequest → Type 0
Younger h [] = Unit
Younger h (r ∷ queue) = (h < r.handle) × Younger h queue

-- Oldest first, and all older than the next handle.
abbrev pub InOrder : ℕ → List SlotRequest → Type 0
InOrder n [] = Unit
InOrder n (r ∷ queue) = (r.handle < n) × Younger r.handle queue × InOrder n queue

abbrev pub OwnerFree : Option String → List SlotRequest → Type 0
OwnerFree none queue = Unit
OwnerFree (some z) queue = is_queued z queue ≡ false

-- Whenever a grant is possible nobody is waiting; no zone is queued twice, nor while it owns the
-- slot; the queue is in the order of the requests.
pub record Inv (m : SlotManager) : Type 0 where
  pub quiet : may_grant m ≡ true → m.queue ≡ []
  pub one_place : OnePlace m.queue
  pub owner_free : OwnerFree m.owner m.queue
  pub in_order : InOrder m.next_handle m.queue

-- The part of the invariant that does not ask for a grant.
pub record Queued (m : SlotManager) : Type 0 where
  pub one_place : OnePlace m.queue
  pub owner_free : OwnerFree m.owner m.queue
  pub in_order : InOrder m.next_handle m.queue

offer-quiet :
    (m : SlotManager) (queue : List SlotRequest)
    → ((offer m queue).queue ≡ []) ⊎ (is_some (offer m queue).owner ≡ true)
unfolding offer
offer-quiet m [] = inl refl
offer-quiet m (r ∷ queue) = ground (arith, offer-quiet m queue)

-- An offer leaves a later part of the queue, and the zone it serves is not in it.
offer-Queued :
    (m : SlotManager) (queue : List SlotRequest)
    → m.owner ≡ none
    → OnePlace queue
    → InOrder m.next_handle queue
    → Queued (offer m queue)
unfolding offer
offer-Queued m [] e p o = ground arith
offer-Queued m (r ∷ queue) e p o = ground (arith, offer-Queued m queue e p.1 o.2)

pub try_grant-Inv : (m : SlotManager) → Queued m → Inv (try_grant m)
unfolding try_grant
try_grant-Inv m q = ground (arith, offer-quiet m m.queue, offer-Queued m m.queue)
