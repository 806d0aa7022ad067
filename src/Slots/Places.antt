-- ===== src/Slots/Places.antt =====
-- slot_manager.py: what appending, removing and cancelling do to the order and the zones of a queue.
use text.Mathlib.Text.{◌==◌ as str_eq}
use text.Mathlib.TextEquality.{eq_iff}
use moisture_loop.Base.{
  ℕ, suc, ◌≡◌, ◌<◌, refl, sym, false, List, [], ◌∷◌, ◌++◌, is_empty, String, arith, Bool-cases, inl,
  inr,
}
use moisture_loop.Slots.{SlotRequest, BlockerKey, insert_key, is_queued, without, cancel_future}
use moisture_loop.Slots.Invariant.{OnePlace, Younger, InOrder}

pub is_empty-insert_key :
    (k : BlockerKey) (keys : List BlockerKey) → is_empty (insert_key k keys) ≡ false
is_empty-insert_key k [] = ground arith
is_empty-insert_key k (x ∷ keys) = ground arith

pub is_queued-append :
    (z : String) (queue : List SlotRequest) (r : SlotRequest)
    → is_queued z queue ≡ false
    → str_eq r.zone_id z ≡ false
    → is_queued z (queue ++ r ∷ []) ≡ false
is_queued-append z [] r h e = ground arith
is_queued-append z (x ∷ queue) r h e = ground (arith, is_queued-append z queue r)

pub str_eq_sym : (x y : String) → str_eq x y ≡ false → str_eq y x ≡ false
str_eq_sym x y h = elim (Bool-cases (str_eq y x)) [
  | inl e ↦ ground (arith, h, (eq_iff x y).1 (sym ((eq_iff y x).0 e)))
  | inr e ↦ e
]

pub OnePlace-append :
    (queue : List SlotRequest) (r : SlotRequest)
    → OnePlace queue
    → is_queued r.zone_id queue ≡ false
    → OnePlace (queue ++ r ∷ [])
OnePlace-append [] r e h = ground arith
OnePlace-append (x ∷ queue) r e h = ground (
  arith,
  OnePlace-append queue r,
  is_queued-append x.zone_id queue r,
  str_eq_sym x.zone_id r.zone_id,
  str_eq_sym r.zone_id x.zone_id,
)

pub Younger-append :
    (h : ℕ) (queue : List SlotRequest) (r : SlotRequest)
    → Younger h queue
    → h < r.handle
    → Younger h (queue ++ r ∷ [])
Younger-append h [] r y l = ground arith
Younger-append h (x ∷ queue) r y l = ground (arith, Younger-append h queue r)

pub InOrder-append :
    (n : ℕ) (queue : List SlotRequest) (r : SlotRequest)
    → InOrder n queue
    → r.handle ≡ n
    → InOrder (suc n) (queue ++ r ∷ [])
InOrder-append n [] r o e = ground arith
InOrder-append n (x ∷ queue) r o e =
    ground (arith, InOrder-append n queue r, Younger-append x.handle queue r)

pub is_queued-without :
    (z y : String) (queue : List SlotRequest)
    → is_queued z queue ≡ false
    → is_queued z (without y queue) ≡ false
unfolding without
is_queued-without z y [] h = h
is_queued-without z y (x ∷ queue) h = ground (arith, is_queued-without z y queue)

pub OnePlace-without :
    (y : String) (queue : List SlotRequest) → OnePlace queue → OnePlace (without y queue)
unfolding without
OnePlace-without y [] h = h
OnePlace-without y (x ∷ queue) h =
    ground (arith, OnePlace-without y queue, is_queued-without x.zone_id y queue)

pub Younger-without :
    (h : ℕ) (y : String) (queue : List SlotRequest) → Younger h queue → Younger h (without y queue)
unfolding without
Younger-without h y [] o = o
Younger-without h y (x ∷ queue) o = ground (arith, Younger-without h y queue)

pub InOrder-without :
    (n : ℕ) (y : String) (queue : List SlotRequest) → InOrder n queue → InOrder n (without y queue)
unfolding without
InOrder-without n y [] o = o
InOrder-without n y (x ∷ queue) o =
    ground (arith, InOrder-without n y queue, Younger-without x.handle y queue)

pub is_queued-cancel_future :
    (z : String) (h : ℕ) (queue : List SlotRequest)
    → is_queued z (cancel_future h queue) ≡ is_queued z queue
unfolding cancel_future
is_queued-cancel_future z h [] = refl
is_queued-cancel_future z h (x ∷ queue) = ground (arith, is_queued-cancel_future z h queue)

pub OnePlace-cancel_future :
    (h : ℕ) (queue : List SlotRequest) → OnePlace queue → OnePlace (cancel_future h queue)
unfolding cancel_future
OnePlace-cancel_future h [] e = e
OnePlace-cancel_future h (x ∷ queue) e =
    ground (arith, OnePlace-cancel_future h queue, is_queued-cancel_future x.zone_id h queue)

pub Younger-cancel_future :
    (n h : ℕ) (queue : List SlotRequest) → Younger n queue → Younger n (cancel_future h queue)
unfolding cancel_future
Younger-cancel_future n h [] o = o
Younger-cancel_future n h (x ∷ queue) o = ground (arith, Younger-cancel_future n h queue)

pub InOrder-cancel_future :
    (n h : ℕ) (queue : List SlotRequest) → InOrder n queue → InOrder n (cancel_future h queue)
unfolding cancel_future
InOrder-cancel_future n h [] o = o
InOrder-cancel_future n h (x ∷ queue) o =
    ground (arith, InOrder-cancel_future n h queue, Younger-cancel_future x.handle h queue)
