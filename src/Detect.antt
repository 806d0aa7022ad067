-- ===== src/Detect.antt =====
-- models.py: the plausibility detector of moisture readings, which only reports and never guards.
pub mod Replay
use moisture_loop.Base.{
  ℕ, ◌+◌, ◌*◌, Bool, true, false, ◌&&◌, Option, none, some, leb, is_some, if◌then◌else◌, Result, ok,
  assertion_error, ◌>>=◌, or_raise,
}
use moisture_loop.Model.Enums.{MoistureClassification}
use moisture_loop.Model.Observation.{MoistureObservation, seconds, percent}
use moisture_loop.Machine.Guards.{is_valid}

pub record ReadingPlausibility : Type 0 where
  pub reference_value : Option ℕ
  pub reference_reported_at_utc : Option ℕ
  pub suspect_since_utc : Option ℕ

-- `ReadingPlausibility(value, reported_at)`.
abbrev pub follows : ℕ → ℕ → ReadingPlausibility
follows value reported_at = record {
  reference_value = some value;
  reference_reported_at_utc = some reported_at;
  suspect_since_utc = none;
}

-- A drop of 8 percent at least, to 0.65 of the reference at most.
unfoldable pub implausible_drop : ℕ → ℕ → Bool
implausible_drop reference value =
    leb (value + percent 8) reference && leb (value * 100) (reference * 65)

-- The fold of a reading that is newer than the reference.
unfoldable pub assess_newer : ReadingPlausibility → ℕ → ℕ → ℕ → ℕ → ReadingPlausibility
unfolding implausible_drop
assess_newer state reference reference_at value reported_at =
    if is_some state.suspect_since_utc
    then (if implausible_drop reference value then state else follows value reported_at)
    else if leb reported_at (reference_at + seconds 900) && implausible_drop reference value
    then record {
      reference_value = some reference;
      reference_reported_at_utc = some reference_at;
      suspect_since_utc = some reported_at;
    }
    else follows value reported_at

unfoldable pub assess_value : ReadingPlausibility → ℕ → ℕ → ReadingPlausibility
unfolding assess_newer
assess_value state value reported_at =
    by_reference state.reference_value state.reference_reported_at_utc
  where
    by_reference : Option ℕ → Option ℕ → ReadingPlausibility
    by_reference (some reference) (some reference_at) =
        if leb reported_at reference_at
        then state
        else assess_newer state reference reference_at value reported_at
    by_reference _ _ = follows value reported_at

unfoldable pub assess_reading_plausibility :
    ReadingPlausibility → MoistureObservation → Result ReadingPlausibility
unfolding assess_value
assess_reading_plausibility state o =
    if is_valid o.classification
    then (or_raise o.value assertion_error >>= λ value.
        or_raise o.reported_at_utc assertion_error >>= λ reported_at.
        ok (assess_value state value reported_at))
    else ok state
