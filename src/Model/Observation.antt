-- ===== src/Model/Observation.antt =====
-- Observations, watchdog tokens and the zone configuration of models.py.
-- An instant is a number of microseconds, the resolution of `datetime`, since an epoch before all
-- reports. A float (a runtime in seconds, a moisture in percent) is a number of millionths.
use moisture_loop.Base.{
  ℕ, ◌-◌, ◌*◌, Bool, true, false, ◌&&◌, not, Option, none, some, leb, ◌==◌, String, is_some,
}
use moisture_loop.Model.Enums.{MoistureClassification}

-- `timedelta(seconds=n)` and `float(n)`, in microseconds.
abbrev pub seconds : ℕ → ℕ
seconds n = n * 1000000

-- A reading of n percent.
abbrev pub percent : ℕ → ℕ
percent n = n * 1000000

pub record MoistureObservation : Type 0 where
  pub value : Option ℕ
  pub classification : MoistureClassification
  pub reported_at_utc : Option ℕ
  pub age_s : Option ℕ

abbrev in_range : Option ℕ → Bool
in_range none = false
in_range (some v) = leb v (percent 100)

-- Whether `validate` returns: it raises a ValueError on every other observation.
unfoldable pub validate : MoistureObservation → Bool
validate o = by_class o.classification
  where
    by_class : MoistureClassification → Bool
    by_class MoistureClassification.valid =
        in_range o.value && (is_some o.reported_at_utc && is_some o.age_s)
    by_class MoistureClassification.stale =
        in_range o.value && (is_some o.reported_at_utc && is_some o.age_s)
    by_class MoistureClassification.unavailable = not (is_some o.value)
    by_class MoistureClassification.invalid = true

unfoldable pub is_fresh : MoistureObservation → ℕ → ℕ → Bool
is_fresh o now_utc sensor_max_age_s = elim o.reported_at_utc [
  | none ↦ false
  | some at ↦ leb (now_utc - seconds sensor_max_age_s) at
]

pub record WatchdogToken : Type 0 where
  pub generation : ℕ
  pub deadline_utc : ℕ

-- `==` on tokens is field by field.
abbrev pub token_eq : WatchdogToken → WatchdogToken → Bool
token_eq a b = a.generation == b.generation && a.deadline_utc == b.deadline_utc

pub record ZoneConfig : Type 0 where
  pub name : String
  pub moisture_sensor : String
  pub actuator : String
  pub start_threshold : ℕ
  pub target_threshold : ℕ
  pub pulse_duration_s : ℕ
  pub soak_duration_s : ℕ
  pub max_cycles : ℕ
  pub max_session_runtime_s : ℕ
  pub max_daily_runtime_s : ℕ
  pub min_session_interval_s : ℕ
  pub sensor_max_age_s : ℕ
  pub actuator_confirm_timeout_s : ℕ
  pub manual_max_duration_s : ℕ
