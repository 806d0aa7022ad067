-- ===== src/Base/Raising.antt =====
-- A call that returns or raises: a `ValueError`, a failed `assert`, a missing dictionary key, and the
-- two errors of the safety store, `StoreNotLoadedError` and `StoreWriteVerificationError`.
use mathlib.Core.Path.{◌≡◌, refl, subst}
use mathlib.Core.Logic.{◌⊎◌, inl, inr}
use mathlib.Core.Bool.{Bool, true, false}
use moisture_loop.Base.Tests.{if◌then◌else◌}
use mathlib.Core.Option.{Option, none, some}

pub data Error : Type 0 where
  value_error assertion_error key_error store_not_loaded store_write_verification : Error

pub data Result {ℓ} (A : Type ℓ) : Type ℓ where
  ok : A → Result A
  raised : Error → Result A

infixl 5 ◌>>=◌
abbrev pub ◌>>=◌ {ℓ κ} : {A : Type ℓ} {B : Type κ} → Result A → (A → Result B) → Result B
ok a >>= f = f a
raised e >>= f = raised e

-- The value of an optional field, or the given error.
abbrev pub or_raise {ℓ} : {A : Type ℓ} → Option A → Error → Result A
or_raise none e = raised e
or_raise (some a) e = ok a

-- What holds of the value if the call returns.
abbrev pub Ensures {ℓ} : {A : Type ℓ} → (A → Type 0) → Result A → Type 0
Ensures P (ok a) = P a
Ensures P (raised e) = Unit

-- The call returns, and the property holds of its value.
abbrev pub Returns {ℓ} : {A : Type ℓ} → (A → Type 0) → Result A → Type 0
Returns P (ok a) = P a
Returns P (raised e) = ⊥

pub Ensures-eq_ok {ℓ} :
    {A : Type ℓ} (P : A → Type 0) (r : Result A) {a : A} → Ensures P r → r ≡ ok a → P a
Ensures-eq_ok P r h e = subst (Ensures P) e h

-- What holds of every value is ensured.
pub Ensures-all {ℓ} : {A : Type ℓ} (P : A → Type 0) (r : Result A) → ((a : A) → P a) → Ensures P r
Ensures-all P (ok a) h = h a
Ensures-all P (raised e) h = tt

-- A hypothesis may be moved out of what is ensured.
pub Ensures-if {ℓ} :
    {A : Type ℓ} {H : Type 0} (P : A → Type 0) (r : Result A)
    → (H → Ensures P r)
    → Ensures (λ a. H → P a) r
Ensures-if P (ok a) h = h
Ensures-if P (raised e) h = tt

pub Result-cases {ℓ} :
    {A : Type ℓ} (r : Result A) → ((a : A) × (r ≡ ok a)) ⊎ ((e : Error) × (r ≡ raised e))
Result-cases (ok a) = inl (a, refl)
Result-cases (raised e) = inr (e, refl)

-- What is ensured of every continuation is ensured of the chain.
pub Ensures-bind {ℓ κ} :
    {A : Type ℓ} {B : Type κ} (P : B → Type 0) (r : Result A) (f : A → Result B)
    → ((a : A) → r ≡ ok a → Ensures P (f a))
    → Ensures P (r >>= f)
Ensures-bind P (ok a) f h = h a refl
Ensures-bind P (raised e) f h = tt

-- What is ensured of both branches is ensured.
pub Ensures-branch {ℓ} :
    {A : Type ℓ} (P : A → Type 0) (b : Bool) (r t : Result A)
    → Ensures P r
    → Ensures P t
    → Ensures P (if b then r else t)
Ensures-branch P true r t h k = h
Ensures-branch P false r t h k = k

pub Returns-bind {ℓ κ} :
    {A : Type ℓ} {B : Type κ} (P : A → Type 0) (Q : B → Type 0) (r : Result A) (f : A → Result B)
    → Returns P r
    → ((a : A) → P a → Returns Q (f a))
    → Returns Q (r >>= f)
Returns-bind P Q (ok a) f h k = k a h
Returns-bind P Q (raised e) f h k = absurd h

pub Returns-both {ℓ} :
    {A : Type ℓ} (P Q : A → Type 0) (r : Result A)
    → Returns P r
    → Returns Q r
    → Returns (λ a. P a × Q a) r
Returns-both P Q (ok a) h k = (h, k)
Returns-both P Q (raised e) h k = absurd h
