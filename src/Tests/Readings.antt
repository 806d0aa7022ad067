-- ===== src/Tests/Readings.antt =====
-- Theorems on the plausibility detector, at a reading that drops.
use moisture_loop.Base.{refl, some, none, List, [], ◌∷◌, Returns}
use moisture_loop.Model.Observation.{MoistureObservation, seconds, percent, validate}
use moisture_loop.Detect.{ReadingPlausibility, assess_reading_plausibility}
use moisture_loop.Detect.Replay.{
  Each, Unchanged, fold_readings, replay_changes_nothing, Folds, observation_is_folded,
}
use moisture_loop.Tests.Inputs.{dry_reading}

-- The reading before was 50 percent, ten minutes earlier.
abbrev wet : ReadingPlausibility
wet = record {
  reference_value = some (percent 50);
  reference_reported_at_utc = some (seconds 99390);
  suspect_since_utc = none;
}

-- Ten minutes later the soil is wet again.
abbrev readings : List MoistureObservation
readings =
    dry_reading
    ∷ record dry_reading { value = some (percent 60); reported_at_utc = some (seconds 100590) }
    ∷ []

replay_changes_nothing_example :
    Returns (λ s. Each (Unchanged s) readings) (fold_readings wet readings)
unfolding validate
replay_changes_nothing_example =
    replay_changes_nothing wet readings (refl, (refl, tt), (refl, tt, tt))

observation_is_folded_example : Returns (Folds wet) (assess_reading_plausibility wet dry_reading)
unfolding validate
observation_is_folded_example = observation_is_folded wet dry_reading tt refl
