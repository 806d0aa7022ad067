-- ===== src/Detect/Replay.antt =====
-- models.py: how the plausibility detector folds observations and their replays.
use moisture_loop.Base.{
  ℕ, ◌+◌, ◌≡◌, ◌≤◌, ◌<◌, refl, Bool, true, leb, List, [], ◌∷◌, Option, none, some, is_some, Result,
  ok, ◌>>=◌, Returns, Returns-bind, Returns-both, arith,
}
use moisture_loop.Model.Observation.{MoistureObservation, seconds, validate}
use moisture_loop.Detect.{ReadingPlausibility, assess_value, assess_reading_plausibility}

assess_value-idempotent :
    (state : ReadingPlausibility) (value reported_at : ℕ)
    → assess_value (assess_value state value reported_at) value reported_at
      ≡ assess_value state value reported_at
unfolding assess_value
assess_value-idempotent state value reported_at = ground arith

-- A reading that changes nothing still changes nothing after one that is not older.
assess_value-settled :
    (s : ReadingPlausibility) (v a w b : ℕ)
    → assess_value s v a ≡ s
    → a ≤ b
    → assess_value (assess_value s w b) v a ≡ assess_value s w b
unfolding assess_value
assess_value-settled s v a w b h le = ground (arith, h)

abbrev at_most : Option ℕ → Option ℕ → Bool
at_most (some a) (some b) = leb a b
at_most _ _ = true

-- The first observation was not reported after the second, where both have a time.
abbrev pub NotAfter : MoistureObservation → MoistureObservation → Type 0
NotAfter o x = at_most o.reported_at_utc x.reported_at_utc ≡ true

abbrev pub Each : (MoistureObservation → Type 0) → List MoistureObservation → Type 0
Each P [] = Unit
Each P (o ∷ os) = P o × Each P os

-- Valid observations in the order of their reports.
abbrev pub InOrder : List MoistureObservation → Type 0
InOrder [] = Unit
InOrder (o ∷ os) = (validate o ≡ true) × Each (NotAfter o) os × InOrder os

-- The readings of a sensor, one after the other.
unfoldable pub fold_readings :
    ReadingPlausibility → List MoistureObservation → Result ReadingPlausibility
fold_readings s [] = ok s
fold_readings s (o ∷ os) = assess_reading_plausibility s o >>= λ next. fold_readings next os

-- Folding the observation changes nothing, as is right for a replay.
abbrev pub Unchanged : ReadingPlausibility → MoistureObservation → Type 0
Unchanged s o = assess_reading_plausibility s o ≡ ok s

folded-Unchanged :
    (s : ReadingPlausibility) (o : MoistureObservation)
    → validate o ≡ true
    → Returns (λ next. Unchanged next o) (assess_reading_plausibility s o)
unfolding assess_reading_plausibility validate
folded-Unchanged s o h = grind (arith, assess_value-idempotent)

next-Unchanged :
    (s : ReadingPlausibility) (o x : MoistureObservation)
    → validate o ≡ true
    → validate x ≡ true
    → NotAfter o x
    → Unchanged s o
    → Returns (λ next. Unchanged next o) (assess_reading_plausibility s x)
unfolding assess_reading_plausibility validate
next-Unchanged s o x h k le r = grind (arith, assess_value-settled)

later-Unchanged :
    (s : ReadingPlausibility) (o : MoistureObservation) (os : List MoistureObservation)
    → validate o ≡ true
    → Each (NotAfter o) os
    → InOrder os
    → Unchanged s o
    → Returns (λ last. Unchanged last o) (fold_readings s os)
unfolding fold_readings
later-Unchanged s o [] h le valid r = r
later-Unchanged s o (x ∷ os) h (le, les) (valid, xs, rest) r =
    Returns-bind (λ next. Unchanged next o) _ (assess_reading_plausibility s x) _
      (next-Unchanged s o x h valid le r) (λ next k. later-Unchanged next o os h les rest k)

-- Valid observations, in the order of their reports, are folded without an error, and afterwards every
-- one of them is a replay: folding it again changes nothing, however many newer readings came after
-- it.
pub replay_changes_nothing :
    (s : ReadingPlausibility) (os : List MoistureObservation)
    → InOrder os
    → Returns (λ last. Each (Unchanged last) os) (fold_readings s os)
unfolding fold_readings
replay_changes_nothing s [] h = tt
replay_changes_nothing s (o ∷ os) (valid, les, rest) =
    Returns-bind (λ next. Unchanged next o) _ (assess_reading_plausibility s o) _
      (folded-Unchanged s o valid)
      (λ next r.
        Returns-both (λ last. Unchanged last o) (λ last. Each (Unchanged last) os)
          (fold_readings next os) (later-Unchanged next o os valid les rest r)
          (replay_changes_nothing next os rest))

-- A suspicion stands with the reference that it was raised against, at most a gap earlier.
abbrev FoundedAt : Option ℕ → Option ℕ → Option ℕ → Type 0
FoundedAt value at none = Unit
FoundedAt (some value) (some at) (some since) = (at < since) × (since ≤ at + seconds 900)
FoundedAt _ _ (some since) = ⊥

abbrev pub Founded : ReadingPlausibility → Type 0
Founded s = FoundedAt s.reference_value s.reference_reported_at_utc s.suspect_since_utc

-- What a reading does to a detector: the suspicion it leaves is founded; if there was one before,
-- nothing has changed; the reference under a suspicion is the one from before the reading.
pub record Folds (s s' : ReadingPlausibility) : Type 0 where
  pub founded : Founded s'
  pub frozen : is_some s.suspect_since_utc ≡ true → is_some s'.suspect_since_utc ≡ true → s' ≡ s
  pub kept : is_some s'.suspect_since_utc ≡ true → s'.reference_value ≡ s.reference_value

assess_value-Folds :
    (s : ReadingPlausibility) (value reported_at : ℕ)
    → Founded s
    → Folds s (assess_value s value reported_at)
unfolding assess_value
assess_value-Folds s value reported_at h = ground arith

same-Folds : (s : ReadingPlausibility) → Founded s → Folds s s
same-Folds s h = record { founded = h; frozen = λ _ _. refl; kept = λ _. refl }

-- A valid observation is folded into a founded detector without an error, and leaves it founded: a
-- suspicion has a reference that was reported before it, by 15 minutes at most. While a suspicion
-- stands nothing changes, and its reference is the one from before the reading that raised it.
pub observation_is_folded :
    (s : ReadingPlausibility) (o : MoistureObservation)
    → Founded s
    → validate o ≡ true
    → Returns (Folds s) (assess_reading_plausibility s o)
unfolding assess_reading_plausibility validate
observation_is_folded s o h v = grind (arith, assess_value-Folds, same-Folds)
